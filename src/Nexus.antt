-- ===== src/Nexus.antt =====
-- argentum.py: `nexus_trail` from where the fields of the body were read. The clock, the identifier of
-- `uuid4`, the month of the bill and what the anchor thread gets back from the chain are arguments.
pub mod Refund
mod Tests
use argentum_core.Base.{
  ℕ, Bool, true, false, Option, none, some, String, leb, ltb, str_eq, if◌then◌else◌, ◌&&◌, ◌||◌,
  not,
}
use argentum_core.Bytes.{Sha256, bytes_eq, to_hex}
use argentum_core.Json.{Text, codes, obj}
use argentum_core.Jcs.{jcs_bytes}
use argentum_core.ActionRef.{Preimage, Fault, validate_domain, payload, as_fields}
use argentum_core.Mycelium.Store.{Account, TrailsDb}
use argentum_core.Mycelium.Trails.{
  Env, TrailRequest, Outcome, returned, integrity_error, record_trail, set_trail_action_ref,
  set_trail_preimage, set_trail_tx_hash, bad_status, count_trails_this_month, monthly_limit_free,
  genesis_agents_default,
}
use argentum_core.Mycelium.Payg.{
  get_payg_account, get_payg_account_by_agent, consume_payg_credit, topup_payg,
  record_billing_event,
}
use argentum_core.Karma.Store.{World}
use argentum_core.Karma.Wisdom.{Award, upsert_wisdom}

-- `timestamp` is `str(ts)`, where one of the keys gives a value.
pub record Receipt : Type 0 where
  pub action_ref : String
  pub service : String
  pub agent_id : String
  pub action_type : String
  pub scope : String
  pub timestamp : Option String
  pub payment_hash : String
  pub negotiation_ref : Option String
  pub negotiation_ref_status : Option String
  pub origin : String
  pub api_key : Option String

pub data NexusReply : Type 0 where
  missing_fields mismatch unencodable invalid_status inconsistent_status monthly_limit_exceeded
        rate_limit_exceeded failed :
      NexusReply
  out_of_profile : Fault → NexusReply
  committed : String → NexusReply

-- `preimage` is `jcs_dumps` of the four fields, as the store keeps it.
pub record Setup : Type 0 where
  pub env : Env
  pub sha : Sha256
  pub daily_limit : ℕ
  pub preimage : Receipt → String
  pub month : ℕ → String

abbrev pub or_none : String → Option String
or_none t = if str_eq t "" then none else some t

abbrev pub preimage_of : Receipt → String → Preimage
preimage_of q ts = record {
  agent_id = codes q.agent_id;
  action_type = codes q.action_type;
  scope = codes q.scope;
  timestamp = codes ts;
}

-- `expected`; none where the encoding raises.
unfoldable pub expected : Setup → Preimage → Option Text
expected s p = elim (jcs_bytes (obj (as_fields (payload p)))) [
  | none ↦ none
  | some b ↦ some (to_hex (s.sha.digest b))
]

unfoldable pub nexus_request : Setup → Receipt → Bool → TrailRequest
nexus_request s q consumed = record {
  agent_id = q.agent_id;
  service = q.service;
  operation = q.action_type;
  nonce = q.action_ref;
  karma_at_time = none;
  success = true;
  rate_limit_cap = s.daily_limit;
  genesis_agents = genesis_agents_default;
  scope = or_none q.scope;
  delegation_ref = or_none q.payment_hash;
  parent_trail_id = none;
  root_trail_id = none;
  negotiation_ref = q.negotiation_ref;
  negotiation_ref_status = q.negotiation_ref_status;
  skip_monthly_limit = consumed;
  origin = if str_eq q.origin "pioneer" then "pioneer" else "nexus";
}

-- The account that the request names pays in the bill, where it has a source.
unfoldable pub billed : Setup → Receipt → ℕ → String → TrailsDb → TrailsDb
billed s q now id db = elim q.api_key [
  | none ↦ db
  | some key ↦ elim (get_payg_account db key) [
    | none ↦ db
    | some a ↦
        if str_eq (elim a.conformance_source [ none ↦ "" | some c ↦ c ]) ""
        then db
        else record_billing_event key a.agent_id id now (s.month now) db
  ]
]

-- The account that was found, and whether its credit was taken.
pub record Payment : Type 0 where
  pub account : Option Account
  pub consumed : Bool

unfoldable pub pay_found : ℕ → TrailsDb → Option Account → Payment × TrailsDb
pay_found now db none = (record { account = none; consumed = false }, db)
pay_found now db (some a) = (
  record { account = some a; consumed = (consume_payg_credit a.api_key now db).0 },
  (consume_payg_credit a.api_key now db).1,
)

unfoldable pub pay : Receipt → ℕ → TrailsDb → Payment × TrailsDb
pay q now db = pay_found now db (get_payg_account_by_agent db q.agent_id)

unfoldable pub refund : Payment → ℕ → TrailsDb → TrailsDb
refund p now db =
    if p.consumed
    then elim p.account [ none ↦ db | some a ↦ (topup_payg a.api_key 1 now db).1 ]
    else db

unfoldable pub limit_reply : Setup → Receipt → ℕ → TrailsDb → NexusReply
limit_reply s q now db =
    if leb monthly_limit_free (count_trails_this_month s.env db q.agent_id now)
    then monthly_limit_exceeded
    else rate_limit_exceeded

-- What follows `record_trail`.
unfoldable pub nexus_recorded :
    Setup → Receipt → ℕ → Payment → Outcome (Option String) × TrailsDb → NexusReply × TrailsDb
nexus_recorded s q now p (integrity_error, db) = (failed, db)
nexus_recorded s q now p (returned none, db) =
    (limit_reply s q now (refund p now db), refund p now db)
nexus_recorded s q now p (returned (some id), db) = (
  committed id,
  billed s q now id
      (set_trail_preimage id (s.preimage q) (set_trail_action_ref id q.action_ref db)),
)

unfoldable pub nexus_paid :
    Setup → Receipt → ℕ → String → Payment × TrailsDb → NexusReply × TrailsDb
nexus_paid s q now id (p, db) =
    nexus_recorded s q now p (record_trail s.env (nexus_request s q p.consumed) now id db)

abbrev pub is_some_text : Option String → Bool
is_some_text none = false
is_some_text (some t) = true

abbrev pub is_ok : Option String → Bool
is_ok none = false
is_ok (some st) = str_eq st "ok"

unfoldable pub nexus_checked : Setup → Receipt → ℕ → String → TrailsDb → NexusReply × TrailsDb
nexus_checked s q now id db =
    if bad_status q.negotiation_ref_status
    then (invalid_status, db)
    else if is_some_text q.negotiation_ref_status
        && not (
            if is_ok q.negotiation_ref_status
            then is_some_text q.negotiation_ref
            else not (is_some_text q.negotiation_ref))
    then (inconsistent_status, db)
    else nexus_paid s q now id (pay q now db)

unfoldable pub nexus_expected :
    Setup → Receipt → ℕ → String → TrailsDb → Option Text → NexusReply × TrailsDb
nexus_expected s q now id db none = (unencodable, db)
nexus_expected s q now id db (some e) =
    if bytes_eq (codes q.action_ref) e then nexus_checked s q now id db else (mismatch, db)

unfoldable pub nexus_domain :
    Setup → Receipt → ℕ → String → TrailsDb → Preimage → Option Fault → NexusReply × TrailsDb
nexus_domain s q now id db p (some f) = (out_of_profile f, db)
nexus_domain s q now id db p none = nexus_expected s q now id db (expected s p)

unfoldable pub nexus_stamped :
    Setup → Receipt → ℕ → String → TrailsDb → Option String → NexusReply × TrailsDb
nexus_stamped s q now id db none = (missing_fields, db)
nexus_stamped s q now id db (some ts) =
    nexus_domain s q now id db (preimage_of q ts) (validate_domain true (preimage_of q ts))

unfoldable pub nexus_trail : Setup → Receipt → ℕ → String → TrailsDb → NexusReply × TrailsDb
nexus_trail s q now id db =
    if str_eq q.action_ref ""
      || (str_eq q.service "" || (str_eq q.agent_id "" || str_eq q.action_type ""))
    then (missing_fields, db)
    else nexus_stamped s q now id db q.timestamp

-- The thread that anchors, with what the chain gave back; karma is in tenths.
unfoldable pub nexus_anchored : String → String → ℕ → Option String → World → World
nexus_anchored id agent now none w = w
nexus_anchored id agent now (some tx) w = record w {
  trails = set_trail_tx_hash id tx now w.trails;
  karma = record (w.karma) {
    wisdom =
        upsert_wisdom
          (record {
            entity_id = agent;
            entity_name = agent;
            entity_type = "agent";
            karma_delta = 10;
            action = true;
            attestation = false;
            last_action = some now;
          })
          w.karma.wisdom;
  };
}
