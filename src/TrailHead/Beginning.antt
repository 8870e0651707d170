-- ===== src/TrailHead/Beginning.antt =====
-- `verify_trail` on the beginning of a sealed log.
use argentum_core.Base.{
  ℕ, suc, ◌+◌, ◌-◌, ◌≡◌, refl, ap, ◌∙◌, true, List, [], ◌∷◌, ◌++◌, Option, none, some, arith,
  length, map,
}
use mathlib.Core.List.{append-nil}
use argentum_core.Json.{Text, codes, ℤ, pos, Json, Fields, int, str, obj}
use argentum_core.Json.Equal.{option_eq, json_eq, json_eq_refl_text, json_eq_refl_number}
use argentum_core.Merkle.{verify_inclusion}
use argentum_core.TrailHead.{
  Setup, lookup, get, last_entry, head_of, is_hex64, Checkpoint, checkpoint_dict, checkpoint_digest,
  make_checkpoint,
}
use argentum_core.TrailHead.Verify.{
  is_v, agent_of, Outcome, answer, Sealed, in_root, complete, proven, truncated, failed,
  log_shorter_than_checkpoint,
}
use argentum_core.TrailHead.Decide.{
  as_int_or_bool, verify_trail, check_complete, check_age, compare_heads, conclude, head_at,
  last_seq,
}
use argentum_core.TrailHead.Chain.{not_null-some}
use argentum_core.TrailHead.Log.{head_seq}
use argentum_core.TrailHead.Sound.{make_checkpoint-parts}
use argentum_core.TrailHead.Made.{AllMade, AllMade-take, Plain, Plain-AllMade}
use argentum_core.TrailHead.Told.{made_parts, last_seq-AllMade, unsealed, no_anchor}

-- What is said of n entries, where the log goes on with `rest`.
abbrev pub told : ℕ → List Fields → Outcome
told n [] =
    answer (record { verdict = complete; completeness = proven; at_seq = none; reason = none })
told n (f ∷ fs) = answer (record {
  verdict = truncated;
  completeness = failed;
  at_seq = some (pos (n + 1));
  reason = some log_shorter_than_checkpoint;
})

last_made :
    (s : Setup) (agent : Text) (k : ℕ) (p : Option Json) (e : Fields) (es : List Fields)
    → AllMade s agent k p (e ∷ es)
    → (h : Text) × (head_seq (last_entry (e ∷ es)) ≡ some (int (pos (k + length es))))
      × (head_of (last_entry (e ∷ es)) ≡ some (str h))
      × (is_hex64 (some (str h)) ≡ true)
unfolding AllMade
last_made s agent k p e [] (x, c) = (
  x.head,
  not_null-some (lookup (codes "seq") e) x.of_seq ∙ ap (λ n. some (int (pos n))) (ground arith),
  not_null-some (lookup (codes "head") e) x.of_head,
  (made_parts x).1,
)
last_made s agent k p e (f ∷ es) (x, c) =
    let (h, a, b, d) = last_made s agent (k + 1) (some (str x.head)) f es c in
    (h, a ∙ ap (λ n. some (int (pos n))) (omega arith), b, d)

head_at-last :
    (e : Fields) (es : List Fields) → head_at (length es) (e ∷ es) ≡ head_of (last_entry (e ∷ es))
head_at-last e [] = refl
head_at-last e (f ∷ es) = head_at-last f es

longer :
    (es : List Fields) (f : Fields) (fs : List Fields)
    → length (es ++ f ∷ fs) ≡ length es + suc (length fs)
longer [] f fs = ground arith
longer (e ∷ es) f fs = ground (arith, longer es f fs)

compared :
    (e : Fields) (es rest : List Fields) (d : Fields) (h end : Text)
    → last_seq (e ∷ es) ≡ pos (1 + length es)
    → head_of (last_entry (e ∷ (es ++ rest))) ≡ some (str h)
    → lookup (codes "head") d ≡ some (str h)
    → lookup (codes "period_end") d ≡ some (str end)
    → compare_heads 1 (e ∷ es) d (pos (1 + length (es ++ rest))) ≡ told (1 + length es) rest
unfolding compare_heads conclude
compared e es [] d h end q l g t =
    let a : es ++ [] ≡ es = append-nil es in
    let m : 1 + length es - 1 ≡ length es = omega arith in
    let hd = head_at-last e es ∙ (rw a at l) in
    let r = json_eq_refl_text h in
    rw a (rw (compare_heads, q, m, hd, g, r, json_eq_refl_number (1 + length es), t) (ground arith))
compared e es (f ∷ fs) d h end q l g t =
    let n : length (es ++ f ∷ fs) ≡ length es + suc (length fs) = longer es f fs in
    rw (compare_heads, q, n) (ground arith)

completed :
    (s : Setup) (agent : Option Json) (es : List Fields) (sealed : Sealed) (d : Fields) {n : ℤ}
    → as_int_or_bool (get (codes "seq") d) ≡ some n
    → is_v d ≡ true
    → is_hex64 (get (codes "head") d) ≡ true
    → option_eq (agent_of d) agent ≡ true
    → in_root s d sealed.proof sealed.root ≡ some true
    → check_complete s agent 1 none none es sealed (some d) ≡ compare_heads 1 es d n
unfolding check_complete check_age
completed s agent es sealed d a b c f g = rw (check_complete, a, b, c, f, g) refl

-- Where an agent's log was made without counters and its checkpoint is in the root of the period,
-- `verify_trail` on any beginning of the log answers "complete" where it is the whole log, and
-- otherwise "truncated" at the first number that is missing.
pub beginning_told :
    (s : Setup) (agent end : Text) (e : Fields) (es rest : List Fields) (c : Checkpoint)
    (digest : Text) (proof : List Text) (root : Text)
    → Plain s agent (e ∷ (es ++ rest))
    → make_checkpoint s agent end (e ∷ (es ++ rest)) ≡ some c
    → checkpoint_digest s (checkpoint_dict c) ≡ some digest
    → verify_inclusion s.sha digest proof root ≡ true
    → verify_trail s
        (map obj (e ∷ es))
        (record { dict = some (checkpoint_dict c); proof = some proof; root = some root })
        none
        none
        no_anchor
        1
      ≡ told (1 + length es) rest
unfolding in_root json_eq
beginning_told s agent end e es rest c digest proof root l mk cd vi =
    let whole = Plain-AllMade l in
    let part = AllMade-take s agent 1 none (e ∷ es) rest whole in
    let (h, ls, lh, hx) = last_made s agent 1 none e (es ++ rest) whole in
    let (ca, (cs, ch)) = make_checkpoint-parts s agent end (e ∷ (es ++ rest)) mk in
    let kn : c.seq ≡ int (pos (1 + length (es ++ rest))) = (let z = cs ∙ ls in cc) in
    let kh : c.head ≡ str h = (let z = ch ∙ lh in cc) in
    let r =
      compared e es rest (checkpoint_dict c) h c.period_end
        (last_seq-AllMade s agent 1 none e es part) lh (ap some kh) refl in
    let seq : as_int_or_bool (get (codes "seq") (checkpoint_dict c))
        ≡ some (pos (1 + length (es ++ rest))) =
      rw kn refl in
    let head : is_hex64 (get (codes "head") (checkpoint_dict c)) ≡ true = rw kh hx in
    let of_agent : option_eq (agent_of (checkpoint_dict c)) (some (str agent)) ≡ true =
      rw ca (json_eq_refl_text agent) in
    let rooted : in_root s (checkpoint_dict c) (some proof) (some root) ≡ some true =
      rw (in_root, cd, vi) refl in
    unsealed s agent e es _ part
    ∙ completed s (some (str agent)) (e ∷ es)
        (record { dict = some (checkpoint_dict c); proof = some proof; root = some root })
        (checkpoint_dict c) seq refl head of_agent rooted
    ∙ r
