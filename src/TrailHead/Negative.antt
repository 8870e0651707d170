-- ===== src/TrailHead/Negative.antt =====
-- The answers of the checks of `verify_trail` that stop it.
use argentum_core.Base.{
  ℕ, ◌+◌, ◌≡◌, refl, ap, Bool, true, false, List, [], ◌∷◌, Option, none, some, arith, not,
}
use argentum_core.Json.{Text, codes, Json, Fields, obj}
use argentum_core.TrailHead.{Setup, get}
use argentum_core.TrailHead.Verify.{
  Outcome, answer, raised, Report, Completeness, proven, proven_through_checkpoint, proven_from_seq,
  proven_from_seq_through_checkpoint, not_evaluated, failed, Check, passed, stopped, then_answer,
  push_entry, check_entries, check_shape, check_order, check_entry, check_chain, check_anchor,
  check_anchor_link, Sealed, first_agent,
}
use argentum_core.TrailHead.Decide.{check_counters, check_agent_seq, check_age}

-- Whether the log is said to be complete, in whole or in part.
abbrev pub is_positive : Completeness → Bool
is_positive proven = true
is_positive proven_through_checkpoint = true
is_positive proven_from_seq = true
is_positive proven_from_seq_through_checkpoint = true
is_positive not_evaluated = false
is_positive failed = false

abbrev pub claims : Outcome → Bool
claims (answer r) = is_positive r.completeness
claims raised = false

abbrev pub sober : {A : Type 0} → Check A → Bool
sober (passed a) = true
sober (stopped o) = not (claims o)

-- A positive answer has passed the check.
pub then_answer-positive :
    {A : Type 0} (c : Check A) (f : A → Outcome) {r : Report}
    → sober c ≡ true
    → then_answer c f ≡ answer r
    → is_positive r.completeness ≡ true
    → (a : A) × ((c ≡ passed a) × (f a ≡ answer r))
then_answer-positive (passed a) f h e p = (a, (refl, e))
then_answer-positive (stopped o) f h e p = let q = ap claims e in absurd (ground (arith, q))

push_entry-sober :
    (e : Fields) (c : Check (List Fields)) → sober c ≡ true → sober (push_entry e c) ≡ true
push_entry-sober e (passed es) h = refl
push_entry-sober e (stopped o) h = h

check_entries-sober : (agent : Option Json) (js : List Json) → sober (check_entries agent js) ≡ true
unfolding check_entries
check_entries-sober agent [] = refl
check_entries-sober agent (obj e ∷ js) =
    ground (arith, push_entry-sober e (check_entries agent js) (check_entries-sober agent js))
check_entries-sober agent (j ∷ js) = refl

pub check_shape-sober : (js : List Json) → sober (check_shape js) ≡ true
unfolding check_shape
check_shape-sober [] = refl
check_shape-sober (j ∷ js) = check_entries-sober (first_agent (j ∷ js)) (j ∷ js)

pub check_order-sober : (from : ℕ) (es : List Fields) → sober (check_order from es) ≡ true
unfolding check_order
check_order-sober from es = ground arith

check_entry-sober :
    (s : Setup) (agent : Option Json) (linked : Bool) (k : ℕ) (prev : Option Json) (e : Fields)
    → sober (check_entry s agent linked k prev e) ≡ true
unfolding check_entry
check_entry-sober s agent linked k prev e = ground arith

pub check_chain-sober :
    (s : Setup) (agent : Option Json) (linked : Bool) (k : ℕ) (prev : Option Json)
    (es : List Fields)
    → sober (check_chain s agent linked k prev es) ≡ true
unfolding check_chain
check_chain-sober s agent linked k prev [] = refl
check_chain-sober s agent linked k prev (e ∷ es) = ground (
  arith,
  check_entry-sober s agent linked k prev e,
  check_chain-sober s agent true (k + 1) (get (codes "head") e) es,
)

pub check_anchor-sober :
    (s : Setup) (agent : Option Json) (from : ℕ) (es : List Fields) (anchor : Sealed)
    (d : Option Fields)
    → sober (check_anchor s agent from es anchor d) ≡ true
unfolding check_anchor check_anchor_link
check_anchor-sober s agent from es anchor none = refl
check_anchor-sober s agent from es anchor (some a) = ground arith

check_counters-sober : (es : List Fields) → sober (check_counters es) ≡ true
unfolding check_counters
check_counters-sober [] = refl
check_counters-sober (a ∷ []) = refl
check_counters-sober (a ∷ b ∷ es) = ground (arith, check_counters-sober (b ∷ es))

pub check_agent_seq-sober : (from : ℕ) (es : List Fields) → sober (check_agent_seq from es) ≡ true
unfolding check_agent_seq
check_agent_seq-sober from es = ground (arith, check_counters-sober es)

pub check_age-sober :
    (s : Setup) (now : Option Text) (m : Option ℕ) (c : Fields) → sober (check_age s now m c) ≡ true
unfolding check_age
check_age-sober s none m c = refl
check_age-sober s (some now) none c = refl
check_age-sober s (some now) (some m) c = ground arith
