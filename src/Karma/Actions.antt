-- ===== src/Karma/Actions.antt =====
-- argentum.py: the constants and `submit_action`. An answer of a handler is its HTTP error or what it did. The clock, the
-- identifiers of `uuid4`, the verdict of `_verify_agent_signature` and the count of marks that the
-- marks service reports are arguments. Notices to other services are not modelled.
use argentum_core.Base.{
  ℕ, ◌^◌, Bool, true, false, List, [], ◌∷◌, ◌++◌, Option, none, some, String, ltb, str_eq,
  if◌then◌else◌,
}
use argentum_core.Sql.{count_where, update_where, str_mem}
use argentum_core.Mycelium.Trails.{Env, TrailRequest, record_trail, genesis_agents_default}
use argentum_core.Karma.Store.{Status, pending, verified, Action, World}

-- `ACTION_TYPES[...]["karma"]`
pub action_karma : String → Option ℕ
action_karma t =
    if str_eq t "HELP"
    then some 10
    else if str_eq t "BUILD"
    then some 20
    else if str_eq t "TEACH"
    then some 15
    else if str_eq t "FIX"
    then some 12
    else if str_eq t "WITNESS"
    then some 5
    else if str_eq t "CONNECT"
    then some 8
    else if str_eq t "RELEASE"
    then some 25
    else none

abbrev pub witness_karma : ℕ
witness_karma = 5

-- `GENESIS_ATTESTORS`
abbrev pub genesis_attestors : List String
genesis_attestors = "lightning" ∷ "giskard-self" ∷ []

abbrev pub is_genesis : String → Bool
is_genesis id = str_mem id genesis_attestors

-- `WEIGHT_THRESHOLD`, 2.0 in the unit of `sum_weights`, and
-- `ATTESTATIONS_NEEDED = int(WEIGHT_THRESHOLD)`.
abbrev pub weight_threshold : ℕ
weight_threshold = 2 ^ 55

abbrev pub attestations_needed : ℕ
attestations_needed = 2

abbrev pub minimum_marks_to_attest : ℕ
minimum_marks_to_attest = 1

abbrev pub minimum_karma_to_attest : ℕ
minimum_karma_to_attest = 0

abbrev pub max_attestations_per_day : ℕ
max_attestations_per_day = 5

-- The environment of `record_trail`, its default cap from the environment, and SQLite's SUM.
-- `sum_weights` takes the weights of the rows in their order, in hundredths, each stored as the
-- nearest double, and gives the double that `COALESCE(SUM(weight), 0)` makes of them, in the unit
-- 2 ^ -54, of which every double from 0.25 on is a multiple. How it rounds is left open.
pub record Service : Type 0 where
  pub env : Env
  pub daily_cap : ℕ
  pub sum_weights : List ℕ → ℕ

abbrev pub action_is : String → Action → Bool
action_is id a = str_eq a.id id

unfoldable pub set_status : String → Status → List Action → List Action
set_status id st = update_where (action_is id) (λ a. record a { status = st })

unfoldable pub set_verified : String → ℕ → List Action → List Action
set_verified id now =
    update_where (action_is id) (λ a. record a { status = verified; verified_at = some now })

-- The call of `record_trail` that the handlers make, with the service's name.
pub trail_request : Service → String → String → String → Option ℕ → TrailRequest
trail_request sv agent operation nonce karma = record {
  agent_id = agent;
  service = "argentum";
  operation = operation;
  nonce = nonce;
  karma_at_time = karma;
  success = true;
  rate_limit_cap = sv.daily_cap;
  genesis_agents = genesis_agents_default;
  scope = none;
  delegation_ref = none;
  parent_trail_id = none;
  root_trail_id = none;
  negotiation_ref = none;
  negotiation_ref_status = none;
  skip_monthly_limit = false;
  origin = "internal";
}

-- `req.nonce or action_id`
abbrev pub nonce_or : Option String → String → String
nonce_or none id = id
nonce_or (some s) id = if str_eq s "" then id else s

pub record Submission : Type 0 where
  pub entity_id : String
  pub entity_name : String
  pub entity_type : String
  pub action_type : String
  pub description : String
  pub proof : Option String
  pub nonce : Option String
  -- the verdict of `_verify_agent_signature`
  pub signature_ok : Bool

pub data SubmitReply : Type 0 where
  unknown_action_type : SubmitReply
  id_taken : SubmitReply
  submitted : ℕ → SubmitReply

unfoldable pub new_action : Submission → ℕ → String → ℕ → Action
new_action q karma id now = record {
  id = id;
  entity_id = q.entity_id;
  entity_name = q.entity_name;
  entity_type = q.entity_type;
  action_type = q.action_type;
  description = q.description;
  proof = q.proof;
  status = pending;
  karma_value = karma;
  created_at = now;
  verified_at = none;
  signed = q.signature_ok;
}

unfoldable pub submit_action :
    Service → Submission → String → String → ℕ → World → SubmitReply × World
submit_action sv q id trail_id now w = elim (action_karma q.action_type) [
  | none ↦ (unknown_action_type, w)
  | some karma ↦ if ltb 0 (count_where (action_is id) w.karma.actions) then (id_taken, w) else (
    submitted karma,
    record {
      karma = record (w.karma) { actions = w.karma.actions ++ new_action q karma id now ∷ [] };
      trails =
          (record_trail sv.env
            (trail_request sv q.entity_id "submit_action" (nonce_or q.nonce id) none) now trail_id
            w.trails).1;
    },
  )
]
