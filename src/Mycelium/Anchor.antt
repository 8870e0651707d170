-- ===== src/Mycelium/Anchor.antt =====
-- argentum.py: `_classify_anchor_receipt` and one round of `_anchor_confirmation_poller`; and
-- `get_submitted_trails` of mycelium_trails.py. The node that is asked for receipts is a function;
-- the notices that a round sends are not modelled.
pub mod Final
mod Tests
use argentum_core.Base.{
  ℕ, zero, suc, ◌+◌, ◌-◌, Bool, true, false, List, [], ◌∷◌, Option, none, some, String, ltb, ◌==◌,
  str_eq, if◌then◌else◌, ◌&&◌, not,
}
use Prim.Native.String.{◌++◌ as text_append}
use text.Mathlib.Text.{starts_with}
use argentum_core.Sql.{select_where, order_desc}
use argentum_core.Mycelium.Store.{Trail, TrailsDb, AnchorStatus, submitted, anchored, failed}
use argentum_core.Mycelium.Trails.{confirm_trail_anchor, fail_trail_anchor}

abbrev pub anchor_freshness_ttl_seconds : ℕ
anchor_freshness_ttl_seconds = 900

-- The status "0x1", the status "0x0", and any other or none.
pub data ReceiptStatus : Type 0 where
  success reverted other_status : ReceiptStatus

pub record Receipt : Type 0 where
  pub status : ReceiptStatus
  pub block_number : ℕ

pub data Action : Type 0 where
  confirm fail_revert fail_timeout wait : Action

-- Without a receipt that decides: the age of the submission against the freshness window.
pub by_age : Option ℕ → ℕ → Action
by_age none now = wait
by_age (some at) now = if ltb (at + anchor_freshness_ttl_seconds) now then fail_timeout else wait

pub classify_status : ReceiptStatus → Option ℕ → ℕ → Action
classify_status success at now = confirm
classify_status reverted at now = fail_revert
classify_status other_status at now = by_age at now

pub classify_anchor_receipt : Option Receipt → Option ℕ → ℕ → Action
classify_anchor_receipt none at now = by_age at now
classify_anchor_receipt (some r) at now = classify_status r.status at now

pub block_of : Option Receipt → ℕ
block_of none = 0
block_of (some r) = r.block_number

abbrev pub hash_of : Option String → String
hash_of none = ""
hash_of (some s) = s

abbrev pub is_submitted : Option AnchorStatus → Bool
is_submitted (some submitted) = true
is_submitted _ = false

abbrev pub is_some : Option String → Bool
is_some none = false
is_some (some s) = true

abbrev pub awaits : Trail → Bool
awaits t = is_some t.tx_hash && is_submitted t.anchor_status

-- LIMIT
pub limit : ℕ → List Trail → List Trail
limit zero ts = []
limit (suc n) [] = []
limit (suc n) (t ∷ ts) = t ∷ limit n ts

pub get_submitted_trails : TrailsDb → ℕ → List Trail
get_submitted_trails db n =
    limit n (order_desc (λ (t : Trail). t.timestamp) (select_where awaits db.trails))

-- `if not tx.startswith("0x"): tx = "0x" + tx`
pub with_0x : String → String
with_0x tx = if starts_with tx "0x" then tx else text_append "0x" tx

-- The request for a receipt: none where it fails, and else the receipt, if there is one.
abbrev pub Node : Type 0
Node = String → Option (Option Receipt)

pub acted : Action → Option Receipt → Trail → TrailsDb → TrailsDb
acted confirm receipt t db = confirm_trail_anchor t.trail_id (block_of receipt) db
acted fail_revert receipt t db = fail_trail_anchor t.trail_id "reverted" db
acted fail_timeout receipt t db = fail_trail_anchor t.trail_id "non_arrival_timeout" db
acted wait receipt t db = db

-- One trail of a round, by the answer of the node; a failed request leaves it for the next round.
pub poll_answer : Option (Option Receipt) → ℕ → Trail → TrailsDb → TrailsDb
poll_answer none now t db = db
poll_answer (some receipt) now t db =
    acted (classify_anchor_receipt receipt t.anchor_submitted_at now) receipt t db

pub poll_each : Node → ℕ → List Trail → TrailsDb → TrailsDb
poll_each node now [] db = db
poll_each node now (t ∷ ts) db =
    poll_each node now ts (poll_answer (node (with_0x (hash_of t.tx_hash))) now t db)

-- One round of the poller, over the trails as they stood when it began.
pub poll : Node → ℕ → TrailsDb → TrailsDb
poll node now db = poll_each node now (get_submitted_trails db 20) db
