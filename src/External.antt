-- ===== src/External.antt =====
-- argentum.py: `external_trail`, and `payg_webhook_lightning` from where its signature, type and
-- `externalId` were read. Both guard against replays by the one table of nonces. The clock and the
-- identifiers of `uuid4` are arguments.
pub mod Replay
mod Tests
use argentum_core.Base.{
  ℕ, ◌+◌, Bool, true, false, Option, none, some, String, leb, ◌==◌, str_eq, if◌then◌else◌, ◌&&◌,
  ◌||◌, not,
}
use Prim.Native.Char.{Char, code}
use Prim.Native.String.{[], ◌∷◌, count}
use argentum_core.Mycelium.Store.{Account, TrailsDb}
use argentum_core.Mycelium.Trails.{
  Env, TrailRequest, Outcome, returned, integrity_error, record_trail, set_trail_action_ref,
  genesis_agents_default,
}
use argentum_core.Mycelium.Payg.{
  get_payg_account, topup_payg, has_external_nonce, record_external_nonce,
}
use argentum_core.Karma.Store.{World}
use argentum_core.Karma.Wisdom.{Award, upsert_wisdom, coalesce}

pub record Delivery : Type 0 where
  pub payment_hash : String
  pub api_key : String
  pub trails : ℕ

pub data DeliveryReply : Type 0 where
  already_processed key_not_found credited : DeliveryReply

-- What follows the top-up: the nonce, where there is a hash.
pub delivered : Delivery → ℕ → Option Account × TrailsDb → DeliveryReply × TrailsDb
delivered q now (none, db) = (key_not_found, db)
delivered q now (some a, db) = (
  credited,
  if str_eq q.payment_hash "" then db else record_external_nonce q.payment_hash q.api_key now db,
)

pub payg_webhook_lightning : Delivery → ℕ → TrailsDb → DeliveryReply × TrailsDb
payg_webhook_lightning q now db =
    if not (str_eq q.payment_hash "") && has_external_nonce db q.payment_hash
    then (already_processed, db)
    else delivered q now (topup_payg q.api_key q.trails now db)

-- The body's texts, stripped, with the defaults of `service` and `operation`.
pub record ExternalTrail : Type 0 where
  pub action_ref : String
  pub api_key : String
  pub service : String
  pub operation : String

pub data ExternalReply : Type 0 where
  missing_input bad_ref no_account replayed failed : ExternalReply
  -- the identifier of the trail, if the limits let it be recorded
  accepted : Option String → ExternalReply

abbrev pub is_lower_hex : Char → Bool
is_lower_hex c = (leb 48 (code c) && leb (code c) 57) || (leb 97 (code c) && leb (code c) 102)

pub all_lower_hex : String → Bool
all_lower_hex [] = true
all_lower_hex (c ∷ s) = is_lower_hex c && all_lower_hex s

-- `re.fullmatch(r"[0-9a-f]{64}", s)`
pub is_action_ref : String → Bool
is_action_ref s = count s == 64 && all_lower_hex s

-- The karma for a trail by `conformance_source`, in tenths.
pub tier_weight : String → ℕ
tier_weight source =
    if str_eq source "nexus"
    then 10
    else if str_eq source "aps"
    then 7
    else if str_eq source "nobulex"
    then 7
    else if str_eq source ""
    then 2
    else 7

-- `clean` is `str.strip` and then `str.lower`; `daily_limit` is RATE_LIMIT_DEFAULT.
pub record Setup : Type 0 where
  pub env : Env
  pub clean : String → String
  pub daily_limit : ℕ

pub source_of : Setup → Account → String
source_of s a = s.clean (coalesce a.conformance_source "")

pub external_request : Setup → ExternalTrail → Account → TrailRequest
external_request s q a = record {
  agent_id = a.agent_id;
  service = q.service;
  operation = q.operation;
  nonce = q.action_ref;
  karma_at_time = none;
  success = true;
  rate_limit_cap = if str_eq (source_of s a) "" then s.daily_limit else 0;
  genesis_agents = genesis_agents_default;
  scope = none;
  delegation_ref = none;
  parent_trail_id = none;
  root_trail_id = none;
  negotiation_ref = none;
  negotiation_ref_status = none;
  skip_monthly_limit = not (str_eq (source_of s a) "");
  origin = "external";
}

pub external_award : Setup → Account → ℕ → Award
external_award s a now = record {
  entity_id = a.agent_id;
  entity_name = a.agent_id;
  entity_type = "agent";
  karma_delta = tier_weight (source_of s a);
  action = true;
  attestation = false;
  last_action = some now;
}

pub rewarded : Setup → Account → ℕ → TrailsDb → World → World
rewarded s a now db w = record {
  karma = record (w.karma) { wisdom = upsert_wisdom (external_award s a now) w.karma.wisdom };
  trails = db;
}

-- What follows `record_trail`: an error ends the call, with the nonce kept; karma is awarded also
-- where the limits refused the trail.
pub external_recorded :
    Setup
    → ExternalTrail
    → Account
    → ℕ
    → World
    → Outcome (Option String) × TrailsDb
    → ExternalReply × World
external_recorded s q a now w (integrity_error, db) = (failed, record w { trails = db })
external_recorded s q a now w (returned none, db) = (accepted none, rewarded s a now db w)
external_recorded s q a now w (returned (some id), db) =
    (accepted (some id), rewarded s a now (set_trail_action_ref id q.action_ref db) w)

pub external_account :
    Setup → ExternalTrail → ℕ → String → World → Option Account → ExternalReply × World
external_account s q now id w none = (no_account, w)
external_account s q now id w (some a) =
    if has_external_nonce w.trails q.action_ref
    then (replayed, w)
    else external_recorded s q a now w (
        record_trail s.env (external_request s q a) now id
          (record_external_nonce q.action_ref a.agent_id now w.trails))

pub external_trail : Setup → ExternalTrail → ℕ → String → World → ExternalReply × World
external_trail s q now id w =
    if str_eq q.action_ref "" || str_eq q.api_key ""
    then (missing_input, w)
    else if not (is_action_ref q.action_ref)
    then (bad_ref, w)
    else external_account s q now id w (get_payg_account w.trails q.api_key)
