-- ===== src/TrailHead/Cadence.antt =====
-- plugins/agt_evidence_anchor/trail_head.py: `verify_checkpoint_cadence`, with a bound of whole seconds. Of
-- a breach the times of its two ends are reported, in microseconds.
pub mod Gaps
mod Tests
use argentum_core.Base.{
  ℕ, ◌+◌, ◌*◌, Bool, true, false, List, [], ◌∷◌, Option, none, some, ltb, if◌then◌else◌, ◌&&◌, ◌||◌,
  not, length,
}
use argentum_core.Json.{codes, ℤ, pos, negsuc, Json, arr, obj}
use argentum_core.Json.Equal.{option_eq}
use argentum_core.TrailHead.{Setup, lookup, get, at_least_one, parse_ts}
use argentum_core.TrailHead.Verify.{text_at}

pub data Cadence : Type 0 where
  ok_cadence mixed_agents bad_period_end raises : Cadence
  period_exceeds_declared_maximum : ℕ → ℕ → Cadence

abbrev pub key_of : Json → Option Json
key_of (obj c) = get (codes "agent_id") c
key_of _ = none

-- A list or a dict cannot be in a set.
abbrev pub hashable : Option Json → Bool
hashable (some (arr xs)) = false
hashable (some (obj fs)) = false
hashable _ = true

unfoldable pub all_hashable : List Json → Bool
all_hashable [] = true
all_hashable (c ∷ cs) = hashable (key_of c) && all_hashable cs

unfoldable pub all_of : Option Json → List Json → Bool
all_of a [] = true
all_of a (c ∷ cs) = option_eq (key_of c) a && all_of a cs

unfoldable pub one_agent : List Json → Bool
one_agent [] = true
one_agent (c ∷ cs) = all_of (key_of c) cs

-- `_parse_ts(c["period_end"])`
unfoldable pub stamp_of : Setup → Json → Option ℕ
stamp_of s (obj c) = elim (text_at (lookup (codes "period_end") c)) [
  | none ↦ none
  | some t ↦ parse_ts s t
]
stamp_of s _ = none

abbrev pub push_stamp : Option ℕ → Option (List ℕ) → Option (List ℕ)
push_stamp (some n) (some ns) = some (n ∷ ns)
push_stamp _ _ = none

unfoldable pub stamps : Setup → List Json → Option (List ℕ)
stamps s [] = some []
stamps s (c ∷ cs) = push_stamp (stamp_of s c) (stamps s cs)

unfoldable pub insert_stamp : ℕ → List ℕ → List ℕ
insert_stamp n [] = n ∷ []
insert_stamp n (m ∷ ms) = if ltb m n then m ∷ insert_stamp n ms else n ∷ m ∷ ms

unfoldable pub sort_stamps : List ℕ → List ℕ
sort_stamps [] = []
sort_stamps (n ∷ ns) = insert_stamp n (sort_stamps ns)

-- The first gap of more than `most` between neighbours.
unfoldable pub first_gap : ℕ → List ℕ → Cadence
first_gap most [] = ok_cadence
first_gap most (a ∷ []) = ok_cadence
first_gap most (a ∷ b ∷ ns) =
    if ltb (a + most) b then period_exceeds_declared_maximum a b else first_gap most (b ∷ ns)

abbrev pub microseconds : ℤ → ℕ
microseconds (pos n) = n * 1000000
microseconds (negsuc n) = 0

unfoldable pub check_cadence : ℕ → Option (List ℕ) → Cadence
check_cadence most none = bad_period_end
check_cadence most (some ns) = first_gap most (sort_stamps ns)

unfoldable pub verify_checkpoint_cadence : Setup → List Json → ℤ → Cadence
verify_checkpoint_cadence s cs declared_max_period_s =
    if not (at_least_one declared_max_period_s)
    then raises
    else if ltb (length cs) 2
    then ok_cadence
    else if not (all_hashable cs)
    then raises
    else if not (one_agent cs)
    then mixed_agents
    else check_cadence (microseconds declared_max_period_s) (stamps s cs)
