-- ===== src/TrailHead/Decide.antt =====
-- plugins/agt_evidence_anchor/trail_head.py: `verify_trail`, the agent's counter, the checkpoint and the whole.
use argentum_core.Base.{
  ℕ, zero, suc, ◌+◌, ◌-◌, ◌*◌, Bool, true, false, List, [], ◌∷◌, Option, none, some, ltb, ◌==◌,
  if◌then◌else◌, ◌&&◌, not, get_elem?,
}
use argentum_core.Json.{Text, codes, ℤ, pos, negsuc, Json, Fields, bool, int}
use argentum_core.Json.Equal.{option_eq}
use argentum_core.TrailHead.{Setup, lookup, get, is_there, is_hex64, parse_ts, last_entry}
use argentum_core.TrailHead.Verify.{
  Outcome, answer, raised, Verdict, malformed, agent_gap, continuity_only, checkpoint_unproven,
  stale_checkpoint, truncated, checkpoint_mismatch, complete, complete_unsealed_tail,
  window_complete, window_complete_unsealed_tail, Completeness, proven, proven_through_checkpoint,
  proven_from_seq, proven_from_seq_through_checkpoint, not_evaluated, Reason, agent_seq_partial,
  agent_seq_not_contiguous, no_checkpoint, checkpoint_shape, checkpoint_other_agent, not_in_root,
  checkpoint_too_old, checkpoint_before_window, log_shorter_than_checkpoint,
  head_differs_from_checkpoint, Check, passed, stopped, then_answer, fails, seq_of, text_at,
  agent_of, first_agent, check_shape, check_order, check_chain, Sealed, in_root, is_v, first_entry,
  check_anchor, int_lt,
}

abbrev pub counter : Fields → Option Json
counter e = lookup (codes "agent_seq") e

abbrev pub any_counter : List Fields → Bool
any_counter [] = false
any_counter (e ∷ es) = if is_there (counter e) then true else any_counter es

abbrev pub all_counter : List Fields → Bool
all_counter [] = true
all_counter (e ∷ es) = is_there (counter e) && all_counter es

abbrev pub successor : ℤ → ℤ
successor (pos n) = pos (n + 1)
successor (negsuc zero) = pos 0
successor (negsuc (suc n)) = negsuc n

-- `b["agent_seq"] != a["agent_seq"] + 1`, which raises where the first is None.
abbrev pub follows : Option Json → Option Json → Option Bool
follows (some (int n)) b = some (option_eq b (some (int (successor n))))
follows _ b = none

unfoldable pub check_counters : List Fields → Check (Unit {0})
check_counters [] = passed tt
check_counters (a ∷ []) = passed tt
check_counters (a ∷ b ∷ es) = elim (follows (counter a) (counter b)) [
  | none ↦ stopped raised
  | some false ↦ fails agent_gap (some (seq_of b)) agent_seq_not_contiguous
  | some true ↦ check_counters (b ∷ es)
]

abbrev pub counter_of : Option Fields → Option Json
counter_of none = none
counter_of (some e) = counter e

-- 3. the agent's own counter
unfoldable pub check_agent_seq : ℕ → List Fields → Check (Unit {0})
check_agent_seq from es =
    if not (any_counter es)
    then passed tt
    else if not (all_counter es)
    then fails agent_gap none agent_seq_partial
    else if from == 1 && not (option_eq (counter_of (first_entry es)) (some (int (pos 1))))
    then fails agent_gap (some (pos 1)) agent_seq_not_contiguous
    else check_counters es

-- `isinstance(v, int)`, which a bool is.
abbrev pub as_int_or_bool : Option Json → Option ℤ
as_int_or_bool (some (int n)) = some n
as_int_or_bool (some (bool true)) = some (pos 1)
as_int_or_bool (some (bool false)) = some (pos 0)
as_int_or_bool _ = none

abbrev pub last_seq : List Fields → ℤ
last_seq es = elim (last_entry es) [ none ↦ pos 0 | some e ↦ seq_of e ]

abbrev pub says : Verdict → Completeness → Option ℤ → Option Reason → Outcome
says v c at r = answer (record { verdict = v; completeness = c; at_seq = at; reason = r })

-- The bound on the checkpoint's age in seconds, where one is given with the time now.
unfoldable pub check_age : Setup → Option Text → Option ℕ → Fields → Check (Unit {0})
check_age s (some now) (some max_age) c = elim (parse_ts s now) [
  | none ↦ stopped raised
  | some t ↦ elim (text_at (lookup (codes "period_end") c)) [
    | none ↦ stopped raised
    | some end ↦ elim (parse_ts s end) [
      | none ↦ stopped raised
      | some u ↦
          if ltb (u + max_age * 1000000) t
          then fails stale_checkpoint none checkpoint_too_old
          else passed tt
    ]
  ]
]
check_age s now max_age c = passed tt

-- The entry at the checkpoint's seq, a number from `from`.
abbrev pub head_at : ℕ → List Fields → Option Json
head_at i es = elim (get_elem? es i) [ none ↦ none | some e ↦ lookup (codes "head") e ]

-- A positive answer reads "period_end", and raises where it is missing.
abbrev pub positive : Option Json → Verdict → Completeness → Outcome
positive none v c = raised
positive (some end) v c = says v c none none

unfoldable pub conclude : ℕ → List Fields → Fields → ℤ → Outcome
conclude from es c seq =
    let end = lookup (codes "period_end") c in
    if option_eq (some (int (last_seq es))) (some (int seq))
    then (if ltb 1 from
        then positive end window_complete proven_from_seq
        else positive end complete proven)
    else if ltb 1 from
    then positive end window_complete_unsealed_tail proven_from_seq_through_checkpoint
    else positive end complete_unsealed_tail proven_through_checkpoint

abbrev pub place : ℤ → ℕ → ℕ
place (pos n) from = n - from
place (negsuc n) from = 0

unfoldable pub compare_heads : ℕ → List Fields → Fields → ℤ → Outcome
compare_heads from es c seq =
    if int_lt seq (pos from)
    then says continuity_only not_evaluated none (some checkpoint_before_window)
    else if int_lt (last_seq es) seq
    then says truncated Completeness.failed (some (successor (last_seq es)))
        (some log_shorter_than_checkpoint)
    else if not (option_eq (head_at (place seq from) es) (lookup (codes "head") c))
    then says checkpoint_mismatch Completeness.failed (some seq) (some head_differs_from_checkpoint)
    else conclude from es c seq

-- 4. completeness
unfoldable pub check_complete :
    Setup
    → Option Json
    → ℕ
    → Option Text
    → Option ℕ
    → List Fields
    → Sealed
    → Option Fields
    → Outcome
check_complete s agent from now max_age es checkpoint none =
    says continuity_only not_evaluated none (some no_checkpoint)
check_complete s agent from now max_age es checkpoint (some c) =
    elim (as_int_or_bool (get (codes "seq") c)) [
      | none ↦ says malformed Completeness.failed none (some checkpoint_shape)
      | some seq ↦
          if not (is_v c && is_hex64 (get (codes "head") c))
          then says malformed Completeness.failed none (some checkpoint_shape)
          else if not (option_eq (agent_of c) agent)
          then says checkpoint_unproven Completeness.failed none (some checkpoint_other_agent)
          else elim (in_root s c checkpoint.proof checkpoint.root) [
            | none ↦ raised
            | some false ↦ says checkpoint_unproven Completeness.failed none (some not_in_root)
            | some true ↦ then_answer (check_age s now max_age c) (λ u. compare_heads from es c seq)
          ]
    ]

unfoldable pub verify_trail :
    Setup → List Json → Sealed → Option Text → Option ℕ → Sealed → ℕ → Outcome
verify_trail s entries checkpoint now max_age anchor from = then_answer (check_shape entries) (λ es.
    if from == 0
    then raised
    else let agent = first_agent entries in
      then_answer (check_order from es) (λ u.
        then_answer (check_chain s agent false (from - 1) none es) (λ u.
          then_answer (check_anchor s agent from es anchor anchor.dict) (λ u.
            then_answer (check_agent_seq from es)
              (λ u. check_complete s agent from now max_age es checkpoint checkpoint.dict)))))
