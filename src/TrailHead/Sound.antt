-- ===== src/TrailHead/Sound.antt =====
-- What a positive answer of `verify_trail` says about the log that the agent sealed.
use argentum_core.Base.{
  ℕ, suc, ◌+◌, ◌-◌, ◌≤◌, ◌≡◌, refl, ap, sym, ◌∙◌, ◌⊎◌, inl, inr, Bool, true, false, List, [], ◌∷◌,
  Option, none, some, arith, length, map, Option-cases, not, if◌then◌else◌, ◌&&◌,
}
use argentum_core.Json.{Text, codes, ℤ, pos, Json, Fields, int, str, obj}
use argentum_core.Json.Equal.{option_eq, str-json_eq, json_eq}
use argentum_core.Merkle.Shape.{Collision}
use argentum_core.TrailHead.{
  Setup, lookup, get, is_hex64, Checkpoint, checkpoint_dict, make_checkpoint, checkpoint_of,
  last_entry, head_of,
}
use argentum_core.TrailHead.Verify.{
  Outcome, answer, Report, proven, passed, is_v, Sealed, first_agent, agent_of, check_shape,
  check_entries, check_order, check_chain, check_anchor, in_root, seq_of,
}
use argentum_core.TrailHead.Decide.{
  verify_trail, check_agent_seq, check_complete, compare_heads, conclude, head_at, last_seq,
  as_int_or_bool, check_age,
}
use argentum_core.TrailHead.Chain.{IsChain, Begins, chain-last, head_determines}
use argentum_core.TrailHead.Checked.{entries_checked, IsChain-started, option_eq-str}
use argentum_core.TrailHead.Log.{Log, Log-IsChain, chain-last-seq, head_seq}
use argentum_core.TrailHead.Negative.{
  claims, is_positive, then_answer-positive, check_shape-sober, check_order-sober,
  check_chain-sober, check_anchor-sober, check_agent_seq-sober, check_age-sober,
}

-- What a positive answer from number 1 on rests on.
record Passed (s : Setup) (js : List Json) (sealed : Sealed) (now : Option Text) (m : Option ℕ)
    (r : Report) : Type 0 where
  es : List Fields
  shape : check_shape js ≡ passed es
  chain : check_chain s (first_agent js) false 0 none es ≡ passed tt
  rest : check_complete s (first_agent js) 1 now m es sealed sealed.dict ≡ answer r

verify_trail-Passed :
    (s : Setup) (js : List Json) (sealed : Sealed) (now : Option Text) (m : Option ℕ)
    (anchor : Sealed) {r : Report}
    → verify_trail s js sealed now m anchor 1 ≡ answer r
    → is_positive r.completeness ≡ true
    → Passed s js sealed now m r
unfolding verify_trail
verify_trail-Passed s js sealed now m anchor e p =
    let (es, (h0, e0)) = then_answer-positive (check_shape js) _ (check_shape-sober js) e p in
    let (u1, (h1, e1)) = then_answer-positive (check_order 1 es) _ (check_order-sober 1 es) e0 p in
    let (u2, (h2, e2)) =
      then_answer-positive (check_chain s (first_agent js) false 0 none es) _
        (check_chain-sober s (first_agent js) false 0 none es) e1 p in
    let (u3, (h3, e3)) =
      then_answer-positive (check_anchor s (first_agent js) 1 es anchor anchor.dict) _
        (check_anchor-sober s (first_agent js) 1 es anchor anchor.dict) e2 p in
    let (u4, (h4, e4)) =
      then_answer-positive (check_agent_seq 1 es) _ (check_agent_seq-sober 1 es) e3 p in
    record { es = es; shape = h0; chain = h2; rest = e4 }

guard-positive :
    (b : Bool) (x z : Outcome) {r : Report}
    → claims x ≡ false
    → (if b then x else z) ≡ answer r
    → is_positive r.completeness ≡ true
    → (b ≡ false) × (z ≡ answer r)
guard-positive true x z h e p = let q = ap claims e in absurd (ground (arith, q))
guard-positive false x z h e p = (refl, e)

not-true : {b : Bool} → not b ≡ false → b ≡ true
not-true {b = true} h = refl
not-true {b = false} h = absurd (ground arith)

check_complete-passed :
    (s : Setup) (agent : Option Json) (now : Option Text) (m : Option ℕ) (es : List Fields)
    (sealed : Sealed) (d : Fields) {r : Report}
    → check_complete s agent 1 now m es sealed (some d) ≡ answer r
    → is_positive r.completeness ≡ true
    → (seq : ℤ) × ((as_int_or_bool (get (codes "seq") d) ≡ some seq)
        × ((option_eq (agent_of d) agent ≡ true)
            × ((in_root s d sealed.proof sealed.root ≡ some true)
                × (compare_heads 1 es d seq ≡ answer r))))
unfolding check_complete
check_complete-passed s agent now m es sealed d e p =
    elim (Option-cases (as_int_or_bool (get (codes "seq") d))) [
      | inl n ↦ let e' = rw (n, check_complete) at e in absurd (ground (arith, e'))
      | inr (seq, n) ↦
          let e' = rw (n, check_complete) at e in
          elim (Option-cases (in_root s d sealed.proof sealed.root)) [
            | inl k ↦ let e2 = rw k at e' in absurd (ground (arith, e2))
            | inr (false, k) ↦ let e2 = rw k at e' in absurd (ground (arith, e2))
            | inr (true, k) ↦
                let e2 = rw k at e' in
                let (g1, e3) =
                  guard-positive (not (is_v d && is_hex64 (get (codes "head") d))) _ _ refl e2 p in
                let (g2, e4) = guard-positive (not (option_eq (agent_of d) agent)) _ _ refl e3 p in
                let (u, (q, e5)) =
                  then_answer-positive (check_age s now m d) _ (check_age-sober s now m d) e4 p in
                (seq, (n, (not-true g2, (k, e5))))
          ]
    ]

compare_heads-passed :
    (es : List Fields) (d : Fields) (n : ℕ) {r : Report}
    → compare_heads 1 es d (pos n) ≡ answer r
    → is_positive r.completeness ≡ true
    → (1 ≤ n)
      × ((option_eq (head_at (n - 1) es) (lookup (codes "head") d) ≡ true)
          × (r.completeness ≡ proven
              → option_eq (some (int (last_seq es))) (some (int (pos n))) ≡ true))
unfolding compare_heads conclude
compare_heads-passed es d n e p = (ground arith, (ground arith, λ q. ground arith))

checkpoint_of-parts :
    (agent end : Text) (a b : Option Json) {c : Checkpoint}
    → checkpoint_of agent end a b ≡ some c
    → (c.agent_id ≡ agent) × ((some c.seq ≡ a) × (some c.head ≡ b))
unfolding checkpoint_of
checkpoint_of-parts agent end (some a) (some b) e = (cc, (cc, cc))
checkpoint_of-parts agent end none b e = absurd (ground arith)
checkpoint_of-parts agent end (some a) none e = absurd (ground arith)

pub make_checkpoint-parts :
    (s : Setup) (agent end : Text) (log : List Fields) {c : Checkpoint}
    → make_checkpoint s agent end log ≡ some c
    → (c.agent_id ≡ agent)
      × ((some c.seq ≡ head_seq (last_entry log)) × (some c.head ≡ head_of (last_entry log)))
unfolding make_checkpoint checkpoint_of
make_checkpoint-parts s agent end log {c = c} e = elim (Option-cases (last_entry log)) [
  | inl n ↦ let e' = rw (n, make_checkpoint) at e in absurd (ground (arith, e'))
  | inr (z, n) ↦
      let e' = rw (n, make_checkpoint) at e in
      let (p, (q, r)) =
        checkpoint_of-parts agent end (lookup (codes "seq") z) (lookup (codes "head") z) {c = c}
          (ground (arith, e')) in
      (p, (q ∙ sym (rw n refl), r ∙ sym (rw n refl)))
]

no_checkpoint_of_none :
    (s : Setup) (agent end : Text) {c : Checkpoint} → make_checkpoint s agent end [] ≡ some c → ⊥
unfolding make_checkpoint
no_checkpoint_of_none s agent end e = ground arith

check_shape-entries :
    (js : List Json) {es : List Fields}
    → check_shape js ≡ passed es
    → check_entries (first_agent js) js ≡ passed es
unfolding check_shape
check_shape-entries [] e = absurd (ground arith)
check_shape-entries (j ∷ js) e = e

last_seq-known :
    (es : List Fields) {n : ℤ} → head_seq (last_entry es) ≡ some (int n) → last_seq es ≡ n
last_seq-known es e = elim (Option-cases (last_entry es)) [
  | inl k ↦ let e' = rw k at e in absurd (ground (arith, e'))
  | inr (z, k) ↦ let e' = rw k at e in rw (k, last_seq) (rw (e', seq_of) refl)
]

json_of_agent :
    {agent : Text} {t : Text} (o : Option Json)
    → t ≡ agent
    → option_eq (some (str t)) o ≡ true
    → o ≡ some (str agent)
json_of_agent none q e = absurd (ground arith)
json_of_agent {agent = agent} {t = t} (some j) q e =
    ap some (str-json_eq j t e) ∙ ap (λ u. some (str u)) q

-- Of the chain that begins with the log, the last number is the log's last exactly where it is no longer.
begun :
    (s : Setup) (agent : Text) (p : Option Text) (es : List Fields) (f : Fields) (fs : List Fields)
    → IsChain s agent 1 p es
    → Begins es (f ∷ fs)
    → option_eq (some (int (last_seq es))) (some (int (pos (1 + length fs)))) ≡ true
    → length es ≡ suc (length fs)
unfolding Begins json_eq
begun s agent p [] f fs c b e = absurd b
begun s agent p (g ∷ es) f fs c b e =
    let h = last_seq-known (g ∷ es) (chain-last-seq s agent 1 p g es c) in
    let e' = rw h at e in ground (arith, e')

-- Where `verify_trail`, asked from number 1 with the checkpoint that the agent made of its log,
-- answers that the log is complete (through that checkpoint, or in whole), the entries it was given
-- begin with the agent's log: they agree with it, place for place, at every key of the format; and
-- there are no more of them where the answer is "proven". Else two inputs of SHA-256 with one
-- digest are at hand.
pub complete_is_whole :
    (s : Setup) (agent end : Text) (log : List Fields) (c : Checkpoint) (js : List Json)
    (proof : Option (List Text)) (root : Option Text) (now : Option Text) (max_age : Option ℕ)
    (anchor : Sealed) (r : Report)
    → Log s agent log
    → make_checkpoint s agent end log ≡ some c
    → verify_trail s js
        (record { dict = some (checkpoint_dict c); proof = proof; root = root })
        now
        max_age
        anchor
        1
      ≡ answer r
    → is_positive r.completeness ≡ true
    → ((es : List Fields) × ((js ≡ map obj es)
          × (Begins es log × (r.completeness ≡ proven → length es ≡ length log))))
      ⊎ Collision s.sha
complete_is_whole s agent end [] c js proof root now max_age anchor r l mk e p =
    absurd (no_checkpoint_of_none s agent end mk)
complete_is_whole s agent end (f ∷ fs) c js proof root now max_age anchor r l mk e p =
    let sealed : Sealed = record { dict = some (checkpoint_dict c); proof = proof; root = root } in
    let v = verify_trail-Passed s js sealed now max_age anchor e p in
    let (seq, (eq, (ag, (inc, ch)))) =
      check_complete-passed s (first_agent js) now max_age v.es sealed (checkpoint_dict c) v.rest
        p in
    let (ca, (cs, chd)) = make_checkpoint-parts s agent end (f ∷ fs) mk in
    let a = json_of_agent (first_agent js) ca ag in
    let lc = Log-IsChain l in
    let ls = chain-last-seq s agent 1 none f fs lc in
    let (h, lh) = chain-last s agent 1 none f fs lc in
    let (all, dicts) = entries_checked (first_agent js) js v.es (check_shape-entries js v.shape) in
    let (p0, ce) = IsChain-started s agent 0 none v.es (rw a at v.chain) (rw a at all) in
    let n = 1 + length fs in
    let kn : c.seq ≡ int (pos n) = (let z = cs ∙ ls in cc) in
    let kh : c.head ≡ str h = (let z = chd ∙ lh in cc) in
    let ks : seq ≡ pos n = (let z = rw kn at eq in cc) in
    let (ge, (hd, len)) = compare_heads-passed v.es (checkpoint_dict c) n (rw ks at ch) p in
    let minus : 1 + length fs - 1 ≡ length fs = omega arith in
    let hd' : head_at (length fs) v.es ≡ some (str h) =
      option_eq-str (head_at (length fs) v.es) h (rw (kh, minus) at hd) in
    elim (head_determines s agent 1 p0 none v.es f fs ce lc (hd' ∙ sym lh)) [
      | inr x ↦ inr x
      | inl (q, b) ↦ inl (v.es, (dicts, (b, λ w. begun s agent p0 v.es f fs ce b (len w))))
    ]
