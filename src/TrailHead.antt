-- ===== src/TrailHead.antt =====
-- plugins/agt_evidence_anchor/trail_head.py: the producer's side. A dict is the list of its entries; what
-- `fromisoformat` reads is a parameter. `none` is an exception.
pub mod Verify
pub mod Decide
pub mod Keys
pub mod Chain
pub mod Checked
pub mod Log
pub mod Negative
pub mod Sound
pub mod Made
pub mod Hexes
pub mod Told
pub mod Beginning
pub mod Seal
pub mod Cadence
mod Tests
use argentum_core.Base.{
  ℕ, zero, suc, ◌+◌, ◌-◌, Bool, true, false, List, [], ◌∷◌, ◌++◌, Option, none, some, String, map,
  ltb, leb, ◌==◌, if◌then◌else◌, ◌&&◌, ◌||◌, not, length,
}
use mathlib.Core.Option
use argentum_core.Bytes.{Bytes, Sha256, bytes_eq, bytes_lt, from_hex, to_hex}
use argentum_core.Json.{
  Text, codes, ℤ, pos, negsuc, Json, Fields, null, bool, int, str, obj, no_fields, field,
}
use argentum_core.Jcs.{jcs_bytes}
use argentum_core.Merkle.{Result, ok, err, MerkleTree, root, build_merkle_tree}

-- SHA-256, and `datetime.fromisoformat(ts[:-1] + "+00:00")` in microseconds, `none` where it raises.
pub record Setup : Type 0 where
  pub sha : Sha256
  pub iso : Text → Option ℕ

-- The value of a key that is there.
abbrev pub lookup : Text → Fields → Option Json
lookup k no_fields = none
lookup k (field l v fs) = if bytes_eq l k then some v else lookup k fs

-- `None` is no value.
abbrev pub not_null : Option Json → Option Json
not_null (some null) = none
not_null o = o

-- `d.get(k)`, and `k in d`
abbrev pub get : Text → Fields → Option Json
get k fs = not_null (lookup k fs)

abbrev pub is_there : Option Json → Bool
is_there none = false
is_there (some j) = true

abbrev pub entry_v : Text
entry_v = codes "trail-head-ref/v1"

abbrev pub checkpoint_v : Text
checkpoint_v = codes "trail-head-ref/v1/checkpoint"

abbrev pub lower : ℕ → ℕ
lower c = if leb 65 c && leb c 90 then c + 32 else c

unfoldable pub is_hex_text : Text → Bool
is_hex_text t =
    length t == 64
    && (elim (from_hex t) [ none ↦ false | some b ↦ true ] && bytes_eq t (map lower t))

-- `_is_hex64`
unfoldable pub is_hex64 : Option Json → Bool
is_hex64 (some (str t)) = is_hex_text t
is_hex64 _ = false

-- `_sha256_jcs`
unfoldable pub sha256_jcs : Setup → Json → Option Text
sha256_jcs s j = elim (jcs_bytes j) [ none ↦ none | some b ↦ some (to_hex (s.sha.digest b)) ]

-- `_parse_ts` of a text
unfoldable pub drop_z : Text → Option Text
drop_z [] = none
drop_z (c ∷ []) = if c == b'Z' then some [] else none
drop_z (c ∷ d ∷ t) = elim (drop_z (d ∷ t)) [ none ↦ none | some r ↦ some (c ∷ r) ]

unfoldable pub parse_ts : Setup → Text → Option ℕ
parse_ts s t = elim (drop_z t) [ none ↦ none | some r ↦ s.iso r ]

abbrev pub or_null : Option Json → Json
or_null none = null
or_null (some j) = j

abbrev pub optional : Text → Option Json → Fields → Fields
optional k none fs = fs
optional k (some v) fs = field k v fs

-- The dict that `entry_preimage` returns.
abbrev pub preimage_dict : Option Json → ℤ → Option Json → Option Json → Option Json → Fields
preimage_dict agent seq ref prev agent_seq = field (codes "v") (str entry_v) (
    field (codes "agent_id") (or_null agent) (
      field (codes "seq") (int seq) (
        field (codes "action_ref") (or_null ref)
          (optional (codes "prev_head") prev (optional (codes "agent_seq") agent_seq no_fields)))))

abbrev pub at_least_one : ℤ → Bool
at_least_one (pos n) = ltb 0 n
at_least_one (negsuc n) = false

abbrev pub is_one : ℤ → Bool
is_one (pos n) = n == 1
is_one (negsuc n) = false

-- Whether the agent's own counter is absent or an integer from 1.
unfoldable pub is_counter : Option Json → Bool
is_counter none = true
is_counter (some (int n)) = at_least_one n
is_counter (some _) = false

-- Whether the head before is absent exactly at 1, and else well formed.
unfoldable pub is_prev : ℤ → Option Json → Bool
is_prev seq none = is_one seq
is_prev seq (some j) = not (is_one seq) && is_hex64 (some j)

unfoldable pub entry_preimage :
    Option Json → ℤ → Option Json → Option Json → Option Json → Option Fields
entry_preimage agent seq ref prev agent_seq =
    if at_least_one seq && (is_hex64 ref && (is_prev seq prev && is_counter agent_seq))
    then some (preimage_dict agent seq ref prev agent_seq)
    else none

unfoldable pub compute_head :
    Setup → Option Json → ℤ → Option Json → Option Json → Option Json → Option Text
compute_head s agent seq ref prev agent_seq = elim (entry_preimage agent seq ref prev agent_seq) [
  | none ↦ none
  | some pre ↦ sha256_jcs s (obj pre)
]

-- The entry: the preimage less its "v", with the head last.
abbrev pub entry_dict : Option Json → ℤ → Option Json → Option Json → Option Json → Text → Fields
entry_dict agent seq ref prev agent_seq head = field (codes "agent_id") (or_null agent) (
    field (codes "seq") (int seq) (
      field (codes "action_ref") (or_null ref) (
        optional (codes "prev_head") prev
          (optional (codes "agent_seq") agent_seq (field (codes "head") (str head) no_fields)))))

abbrev pub last_entry : List Fields → Option Fields
last_entry [] = none
last_entry (e ∷ []) = some e
last_entry (e ∷ f ∷ log) = last_entry (f ∷ log)

abbrev pub head_of : Option Fields → Option Json
head_of none = none
head_of (some e) = lookup (codes "head") e

abbrev pub append_to : List Fields → Fields → List Fields
append_to log e = log ++ e ∷ []

-- The log after the call.
unfoldable pub append_entry : Setup → List Fields → Text → Text → Option ℤ → Option (List Fields)
append_entry s log agent ref agent_seq =
    let seq = pos (length log + 1) in
    let prev = head_of (last_entry log) in
    let counter = Option.map int agent_seq in
    elim (compute_head s (some (str agent)) seq (some (str ref)) prev counter) [
      | none ↦ none
      | some head ↦
          some
            (append_to log (entry_dict (some (str agent)) seq (some (str ref)) prev counter head))
    ]

-- A checkpoint as the producer makes it, and its dict.
pub record Checkpoint : Type 0 where
  pub agent_id : Text
  pub period_end : Text
  pub seq : Json
  pub head : Json

abbrev pub checkpoint_dict : Checkpoint → Fields
checkpoint_dict c = field (codes "v") (str checkpoint_v) (
    field (codes "agent_id") (str c.agent_id) (
      field (codes "period_end") (str c.period_end)
        (field (codes "seq") c.seq (field (codes "head") c.head no_fields))))

-- `last["seq"]` and `last["head"]` raise where they are missing.
unfoldable pub checkpoint_of : Text → Text → Option Json → Option Json → Option Checkpoint
checkpoint_of agent end (some seq) (some head) =
    some (record { agent_id = agent; period_end = end; seq = seq; head = head })
checkpoint_of agent end _ _ = none

unfoldable pub make_checkpoint : Setup → Text → Text → List Fields → Option Checkpoint
make_checkpoint s agent end log = elim (last_entry log) [
  | none ↦ none
  | some last ↦
      if is_there_ts (parse_ts s end)
      then checkpoint_of agent end (lookup (codes "seq") last) (lookup (codes "head") last)
      else none
]
  where
    is_there_ts : Option ℕ → Bool
    is_there_ts none = false
    is_there_ts (some n) = true

unfoldable pub checkpoint_digest : Setup → Fields → Option Text
checkpoint_digest s c = sha256_jcs s (obj c)

-- `sorted(checkpoints, key=...)` by the code points of the agents.
unfoldable pub insert_checkpoint : Checkpoint → List Checkpoint → List Checkpoint
insert_checkpoint c [] = c ∷ []
insert_checkpoint c (d ∷ ds) =
    if bytes_lt d.agent_id c.agent_id then d ∷ insert_checkpoint c ds else c ∷ d ∷ ds

unfoldable pub sort_checkpoints : List Checkpoint → List Checkpoint
sort_checkpoints [] = []
sort_checkpoints (c ∷ cs) = insert_checkpoint c (sort_checkpoints cs)

unfoldable pub has_agent : Text → List Checkpoint → Bool
has_agent t [] = false
has_agent t (c ∷ cs) = if bytes_eq c.agent_id t then true else has_agent t cs

unfoldable pub distinct_agents : List Checkpoint → Bool
distinct_agents [] = true
distinct_agents (c ∷ cs) = not (has_agent c.agent_id cs) && distinct_agents cs

unfoldable pub all_end : Text → List Checkpoint → Bool
all_end t [] = true
all_end t (c ∷ cs) = bytes_eq c.period_end t && all_end t cs

-- One period, and at least one checkpoint.
unfoldable pub one_period : List Checkpoint → Bool
one_period [] = false
one_period (c ∷ cs) = all_end c.period_end cs

unfoldable pub push_digest : Option Text → Option (List Text) → Option (List Text)
push_digest (some t) (some ts) = some (t ∷ ts)
push_digest _ _ = none

unfoldable pub checkpoint_digests : Setup → List Checkpoint → Option (List Text)
checkpoint_digests s [] = some []
checkpoint_digests s (c ∷ cs) =
    push_digest (checkpoint_digest s (checkpoint_dict c)) (checkpoint_digests s cs)

abbrev pub built : Result MerkleTree → Option MerkleTree
built (ok t) = some t
built (err e) = none

-- The tree over the period's digests, and the digests in the order of its leaves.
unfoldable pub seal_digests : Setup → Option (List Text) → Option (MerkleTree × List Text)
seal_digests s none = none
seal_digests s (some ds) = elim (built (build_merkle_tree s.sha ds)) [
  | none ↦ none
  | some t ↦ some (t, ds)
]

unfoldable pub seal_period : Setup → List Checkpoint → Option (MerkleTree × List Text)
seal_period s cs =
    if distinct_agents (sort_checkpoints cs) && one_period (sort_checkpoints cs)
    then seal_digests s (checkpoint_digests s (sort_checkpoints cs))
    else none
