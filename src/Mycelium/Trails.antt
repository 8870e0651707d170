-- ===== src/Mycelium/Trails.antt =====
-- mycelium_trails.py: the limits, `record_trail`, the anchor columns and the reads of a trail.
pub mod Limits
mod Tests
use argentum_core.Base.{
  ℕ, ◌+◌, ◌-◌, ◌%◌, Bool, true, false, List, [], ◌∷◌, ◌++◌, Option, none, some, String, ltb, leb,
  ◌==◌, str_eq, if◌then◌else◌, ◌&&◌, ◌||◌, not,
}
use argentum_core.Sql.{find_where, count_where, update_where, str_mem}
use argentum_core.Mycelium.Store.{Trail, TrailsDb, AnchorStatus, submitted, anchored, failed}

abbrev pub monthly_limit_free : ℕ
monthly_limit_free = 1000

-- `GENESIS_AGENTS_DEFAULT`
abbrev pub genesis_agents_default : List String
genesis_agents_default = "giskard-self" ∷ "lightning" ∷ []

-- `NEGOTIATION_REF_STATUSES`
abbrev pub negotiation_ref_statuses : List String
negotiation_ref_statuses =
    "ok" ∷ "no_document" ∷ "not_allowlisted" ∷ "unreachable" ∷ "http_error" ∷ "empty_body"
    ∷ "malformed_empty" ∷ []

-- What the process reads from its environment, its clock's calendar and `hashlib`.
-- `month_start t` is `_start_of_month_ts(t)`, which depends on the time zone of the machine.
pub record Env : Type 0 where
  pub enterprise_agents : List String
  pub month_start : ℕ → ℕ
  pub sig_ref : String → String

unfoldable pub start_of_day_ts : ℕ → ℕ
start_of_day_ts now = now - now % 86400

unfoldable pub count_trails_today : TrailsDb → String → ℕ → ℕ
count_trails_today db agent now =
    count_where (λ (t : Trail). str_eq t.agent_id agent && leb (start_of_day_ts now) t.timestamp)
      db.trails

-- `origin != 'pioneer'` is not true of a NULL origin.
unfoldable pub not_pioneer : Option String → Bool
not_pioneer none = false
not_pioneer (some o) = not (str_eq o "pioneer")

unfoldable pub count_trails_this_month : Env → TrailsDb → String → ℕ → ℕ
count_trails_this_month env db agent now =
    count_where
      (λ (t : Trail).
        str_eq t.agent_id agent && (leb (env.month_start now) t.timestamp && not_pioneer t.origin))
      db.trails

-- The arguments of `record_trail`.
pub record TrailRequest : Type 0 where
  pub agent_id : String
  pub service : String
  pub operation : String
  pub nonce : String
  pub karma_at_time : Option ℕ
  pub success : Bool
  pub rate_limit_cap : ℕ
  pub genesis_agents : List String
  pub scope : Option String
  pub delegation_ref : Option String
  pub parent_trail_id : Option String
  pub root_trail_id : Option String
  pub negotiation_ref : Option String
  pub negotiation_ref_status : Option String
  pub skip_monthly_limit : Bool
  pub origin : String

-- `not (agent_id and service and operation and nonce)`
unfoldable pub missing_input : TrailRequest → Bool
missing_input q =
    str_eq q.agent_id "" || (str_eq q.service "" || (str_eq q.operation "" || str_eq q.nonce ""))

unfoldable pub bad_status : Option String → Bool
bad_status none = false
bad_status (some st) = not (str_mem st negotiation_ref_statuses)

-- The agents to which the limits apply.
unfoldable pub is_limited : Env → TrailRequest → Bool
is_limited env q =
    not (str_mem q.agent_id q.genesis_agents)
    && (not (str_mem q.agent_id env.enterprise_agents) && ltb 0 q.rate_limit_cap)

unfoldable pub over_limit : Env → TrailsDb → TrailRequest → ℕ → Bool
over_limit env db q now =
    is_limited env q
    && (leb q.rate_limit_cap (count_trails_today db q.agent_id now)
        || (not q.skip_monthly_limit
            && leb monthly_limit_free (count_trails_this_month env db q.agent_id now)))

-- The row that is inserted; `id` is `str(uuid.uuid4())`.
pub new_trail : Env → TrailRequest → ℕ → String → Trail
new_trail env q now id = record {
  trail_id = id;
  agent_id = q.agent_id;
  service = q.service;
  operation = q.operation;
  timestamp = now;
  karma_at_time = q.karma_at_time;
  success = q.success;
  signature_ref = env.sig_ref q.nonce;
  scope = q.scope;
  delegation_ref = q.delegation_ref;
  parent_trail_id = q.parent_trail_id;
  root_trail_id = q.root_trail_id;
  negotiation_ref = q.negotiation_ref;
  negotiation_ref_status = q.negotiation_ref_status;
  action_ref = none;
  tx_hash = none;
  origin = some q.origin;
  anchor_status = none;
  anchor_block = none;
  preimage_json = none;
  anchor_submitted_at = none;
  anchor_fail_reason = none;
}

abbrev pub has_id : String → Trail → Bool
has_id id t = str_eq t.trail_id id

-- What a call gives back: a value, or the IntegrityError of a key that is taken.
pub data Outcome (A : Type 0) : Type 0 where
  returned : A → Outcome A
  integrity_error : Outcome A

-- `record_trail` at clock `now`, with `id` the identifier it draws.
unfoldable pub record_trail :
    Env → TrailRequest → ℕ → String → TrailsDb → Outcome (Option String) × TrailsDb
record_trail env q now id db =
    if missing_input q
    then (returned none, db)
    else if bad_status q.negotiation_ref_status
    then (returned none, db)
    else if over_limit env db q now
    then (returned none, db)
    else if ltb 0 (count_where (has_id id) db.trails)
    then (integrity_error, db)
    else (returned (some id), record db { trails = db.trails ++ new_trail env q now id ∷ [] })

-- `get_trail_by_id`
unfoldable pub get_trail_by_id : TrailsDb → String → Option Trail
get_trail_by_id db id = find_where (has_id id) db.trails

unfoldable pub update_trail : String → (Trail → Trail) → TrailsDb → TrailsDb
update_trail id f db = record db { trails = update_where (has_id id) f db.trails }

unfoldable pub set_trail_tx_hash : String → String → ℕ → TrailsDb → TrailsDb
unfolding update_trail
set_trail_tx_hash id tx now = update_trail id (λ t. record t {
  tx_hash = some tx;
  anchor_status = some submitted;
  anchor_submitted_at = some now;
})

unfoldable pub confirm_trail_anchor : String → ℕ → TrailsDb → TrailsDb
unfolding update_trail
confirm_trail_anchor id block =
    update_trail id (λ t. record t { anchor_status = some anchored; anchor_block = some block })

unfoldable pub fail_trail_anchor : String → String → TrailsDb → TrailsDb
unfolding update_trail
fail_trail_anchor id reason =
    update_trail id
      (λ t. record t { anchor_status = some failed; anchor_fail_reason = some reason })

-- The UPDATE of `action_ref` that the endpoints send themselves.
unfoldable pub set_trail_action_ref : String → String → TrailsDb → TrailsDb
unfolding update_trail
set_trail_action_ref id ref = update_trail id (λ t. record t { action_ref = some ref })

-- `jcs_dumps(preimage)` is an argument.
unfoldable pub set_trail_preimage : String → String → TrailsDb → TrailsDb
unfolding update_trail
set_trail_preimage id json = update_trail id (λ t. record t { preimage_json = some json })
