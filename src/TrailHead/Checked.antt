-- ===== src/TrailHead/Checked.antt =====
-- What the checks of `verify_trail` establish of the entries that pass.
use argentum_core.Base.{
  ℕ, ◌+◌, ◌≡◌, refl, ap, sym, ◌∙◌, ◌⊎◌, inl, inr, Bool, true, false, List, [], ◌∷◌, Option, none,
  some, arith, Option-cases, map,
}
use argentum_core.Bytes.{bytes_eq-eq}
use argentum_core.Json.{
  Text, codes, ℤ, pos, negsuc, Json, Fields, null, bool, int, float, str, arr, obj,
}
use argentum_core.Json.Equal.{json_eq-str, option_eq}
use argentum_core.TrailHead.{
  Setup, lookup, get, is_hex64, is_counter, is_prev, entry_preimage, preimage_dict, compute_head,
  sha256_jcs,
}
use argentum_core.TrailHead.Verify.{
  Outcome, Check, passed, stopped, as_int, seq_of, is_seq, agent_of, agree, has_shape,
  check_entries, push_entry, check_entry, check_chain,
}
use argentum_core.TrailHead.Chain.{IsEntry, IsChain, as_text, as_number, not_null-some, preimage_of}

pub Check-cases :
    {A : Type 0} (c : Check A) → ((o : Outcome) × (c ≡ stopped o)) ⊎ ((a : A) × (c ≡ passed a))
Check-cases (passed a) = inr (a, refl)
Check-cases (stopped o) = inl (o, refl)

pub option_eq-str :
    (o : Option Json) (t : Text) → option_eq o (some (str t)) ≡ true → o ≡ some (str t)
option_eq-str none t e = absurd (ground arith)
option_eq-str (some j) t e = ap some (json_eq-str j t e)

pub hex64_text : (o : Option Json) → is_hex64 o ≡ true → (t : Text) × (o ≡ some (str t))
unfolding is_hex64
hex64_text (some (str t)) e = (t, refl)
hex64_text none e = absurd (ground arith)
hex64_text (some null) e = absurd (ground arith)
hex64_text (some (bool b)) e = absurd (ground arith)
hex64_text (some (int n)) e = absurd (ground arith)
hex64_text (some (float x)) e = absurd (ground arith)
hex64_text (some (arr xs)) e = absurd (ground arith)
hex64_text (some (obj fs)) e = absurd (ground arith)

counter_number : (o : Option Json) → is_counter o ≡ true → (c : Option ℤ) × (o ≡ as_number c)
unfolding is_counter
counter_number none e = (none, refl)
counter_number (some (int n)) e = (some n, refl)
counter_number (some (str t)) e = absurd (ground arith)
counter_number (some null) e = absurd (ground arith)
counter_number (some (bool b)) e = absurd (ground arith)
counter_number (some (float x)) e = absurd (ground arith)
counter_number (some (arr xs)) e = absurd (ground arith)
counter_number (some (obj fs)) e = absurd (ground arith)

pub prev_text : (n : ℤ) (o : Option Json) → is_prev n o ≡ true → (p : Option Text) × (o ≡ as_text p)
unfolding is_prev
prev_text n none e = (none, refl)
prev_text n (some j) e = let (t, h) = hex64_text (some j) (ground arith) in (some t, h)

-- A head that can be computed has arguments of the right form, and is the digest of their preimage.
pub record Committed (s : Setup) (agent : Text) (k : ℕ) (r p c : Option Json) (h : Text)
    : Type 0 where
  pub ref : Text
  pub prev : Option Text
  pub counter : Option ℤ
  pub of_ref : r ≡ some (str ref)
  pub of_prev : p ≡ as_text prev
  pub of_counter : c ≡ as_number counter
  pub digest : sha256_jcs s (obj (preimage_of agent k ref prev counter)) ≡ some h

pub compute_head-preimage :
    (s : Setup) (a : Option Json) (n : ℤ) (r p c : Option Json) {h : Text}
    → compute_head s a n r p c ≡ some h
    → (is_hex64 r ≡ true)
      × ((is_prev n p ≡ true)
          × ((is_counter c ≡ true) × (sha256_jcs s (obj (preimage_dict a n r p c)) ≡ some h)))
unfolding compute_head entry_preimage
compute_head-preimage s a n r p c e = (ground arith, (ground arith, (ground arith, ground arith)))

pub committed :
    (s : Setup) (agent : Text) (k : ℕ) (r p c : Option Json) {h : Text}
    → compute_head s (some (str agent)) (pos k) r p c ≡ some h
    → Committed s agent k r p c h
committed s agent k r p c e =
    let (hr, (hp, (hc, d))) = compute_head-preimage s (some (str agent)) (pos k) r p c e in
    let (ref, er) = hex64_text r hr in
    let (prev, ep) = prev_text (pos k) p hp in
    let (counter, ec) = counter_number c hc in
    record {
      ref = ref;
      prev = prev;
      counter = counter;
      of_ref = er;
      of_prev = ep;
      of_counter = ec;
      digest = rw (er, ep, ec) at d;
    }

as_int-some : (o : Option Json) {n : ℤ} → as_int o ≡ some n → o ≡ some (int n)
as_int-some (some (int m)) e = cc
as_int-some none e = absurd (ground arith)
as_int-some (some (str t)) e = absurd (ground arith)
as_int-some (some null) e = absurd (ground arith)
as_int-some (some (bool b)) e = absurd (ground arith)
as_int-some (some (float x)) e = absurd (ground arith)
as_int-some (some (arr xs)) e = absurd (ground arith)
as_int-some (some (obj fs)) e = absurd (ground arith)

shaped_seq :
    (e : Fields)
    → has_shape e ≡ true
    → (n : ℤ) × ((get (codes "seq") e ≡ some (int n)) × (seq_of e ≡ n))
unfolding has_shape
shaped_seq e h = elim (Option-cases (as_int (get (codes "seq") e))) [
  | inl n ↦ absurd (ground (arith, n))
  | inr (n, h') ↦
      let w = as_int-some (get (codes "seq") e) h' in
      (n, (w, rw (not_null-some (lookup (codes "seq") e) w, seq_of) refl))
]

check_entry-parts :
    (s : Setup) (agent : Option Json) (linked : Bool) (k : ℕ) (prev : Option Json) (e : Fields)
    {u : Unit {0}}
    → check_entry s agent linked k prev e ≡ passed u
    → (h : Text) × ((is_seq (seq_of e) (k + 1) ≡ true)
        × ((compute_head s agent
                (seq_of e)
                (get (codes "action_ref") e)
                (get (codes "prev_head") e)
                (get (codes "agent_seq") e)
              ≡ some h)
            × ((agree h (get (codes "head") e) ≡ true)
                × (linked ≡ true → option_eq (get (codes "prev_head") e) prev ≡ true))))
unfolding check_entry compute_head
check_entry-parts s agent linked k prev e c =
    elim (Option-cases (
      entry_preimage agent (seq_of e) (get (codes "action_ref") e) (get (codes "prev_head") e)
        (get (codes "agent_seq") e))) [
          | inl n ↦ let c' = rw (n, check_entry) at c in absurd (ground (arith, c'))
          | inr (pre, n) ↦ elim (Option-cases (sha256_jcs s (obj pre))) [
            | inl m ↦ let c' = rw (n, m, check_entry) at c in absurd (ground (arith, c'))
            | inr (h, m) ↦
                let c' = rw (n, m, check_entry) at c in
                (
                  h,
                  (
                    ground (arith, c'),
                    (rw (n, compute_head) m, (ground (arith, c'), λ l. ground (arith, c', l))),
                  ),
                )
          ]
        ]

-- An entry of the right shape and agent.
unfoldable pub AllShaped : Option Json → List Fields → Type 0
AllShaped agent [] = Unit
AllShaped agent (e ∷ es) =
    (has_shape e ≡ true) × ((option_eq (agent_of e) agent ≡ true) × AllShaped agent es)

is_seq-eq : (n : ℤ) (k : ℕ) → is_seq n k ≡ true → n ≡ pos k
is_seq-eq (pos m) k e = ap pos (ground arith)
is_seq-eq (negsuc m) k e = absurd (ground arith)

agree-head : (h : Text) (o : Option Json) → agree h o ≡ true → o ≡ some (str h)
agree-head h (some (str t)) e = ap (λ u. some (str u)) (sym (bytes_eq-eq h t e))
agree-head h none e = absurd (ground arith)
agree-head h (some null) e = absurd (ground arith)
agree-head h (some (bool b)) e = absurd (ground arith)
agree-head h (some (int n)) e = absurd (ground arith)
agree-head h (some (float x)) e = absurd (ground arith)
agree-head h (some (arr xs)) e = absurd (ground arith)
agree-head h (some (obj fs)) e = absurd (ground arith)

IsEntry-checked :
    (s : Setup) (agent : Text) (linked : Bool) (k : ℕ) (prev : Option Json) (e : Fields)
    {u : Unit {0}}
    → check_entry s (some (str agent)) linked k prev e ≡ passed u
    → has_shape e ≡ true
    → option_eq (agent_of e) (some (str agent)) ≡ true
    → (x : IsEntry s agent (k + 1) e) × (linked ≡ true → option_eq (as_text x.prev) prev ≡ true)
IsEntry-checked s agent linked k prev e c sh ag =
    let (h, (eq, (ec, (ea, el)))) = check_entry-parts s (some (str agent)) linked k prev e c in
    let (n, (es, en)) = shaped_seq e sh in
    let q : n ≡ pos (k + 1) = sym en ∙ is_seq-eq (seq_of e) (k + 1) eq in
    let d =
      committed s agent (k + 1) (get (codes "action_ref") e) (get (codes "prev_head") e)
        (get (codes "agent_seq") e) (rw (en ∙ q) at ec) in
    (
      record {
        ref = d.ref;
        prev = d.prev;
        counter = d.counter;
        head = h;
        of_agent = option_eq-str (agent_of e) agent ag;
        of_seq = es ∙ ap (λ m. some (int m)) q;
        of_ref = d.of_ref;
        of_prev = d.of_prev;
        of_counter = d.of_counter;
        of_head = agree-head h (get (codes "head") e) ea;
        digest = d.digest;
      },
      λ l. rw (d.of_prev) at (el l),
    )

text-eq : (p : Option Text) (t : Text) → option_eq (as_text p) (some (str t)) ≡ true → p ≡ some t
text-eq none t e = absurd (ground arith)
text-eq (some p) t e = let h = option_eq-str (some (str p)) t e in cc

check_chain-parts :
    (s : Setup) (agent : Option Json) (linked : Bool) (k : ℕ) (prev : Option Json) (e : Fields)
    (es : List Fields) {u : Unit {0}}
    → check_chain s agent linked k prev (e ∷ es) ≡ passed u
    → (check_entry s agent linked k prev e ≡ passed u)
      × (check_chain s agent true (k + 1) (get (codes "head") e) es ≡ passed u)
unfolding check_chain
check_chain-parts s agent linked k prev e es c =
    elim (Check-cases (check_entry s agent linked k prev e)) [
      | inl (o, n) ↦ let c' = rw (n, check_chain) at c in absurd (ground (arith, c'))
      | inr (v, n) ↦ (n, rw (n, check_chain) at c)
    ]

pub IsChain-checked :
    (s : Setup) (agent : Text) (k : ℕ) (h : Text) (es : List Fields) {u : Unit {0}}
    → check_chain s (some (str agent)) true k (some (str h)) es ≡ passed u
    → AllShaped (some (str agent)) es
    → IsChain s agent (k + 1) (some h) es
unfolding IsChain AllShaped
IsChain-checked s agent k h [] c sh = tt
IsChain-checked s agent k h (e ∷ es) c (sh, (ag, rest)) =
    let (ce, cs) = check_chain-parts s (some (str agent)) true k (some (str h)) e es c in
    let (x, l) = IsEntry-checked s agent true k (some (str h)) e ce sh ag in
    (
      x,
      text-eq x.prev h (l refl),
      IsChain-checked s agent (k + 1) x.head es (rw x.of_head at cs) rest,
    )

-- Entries that pass from number k + 1 on are a chain from some head.
pub IsChain-started :
    (s : Setup) (agent : Text) (k : ℕ) (prev : Option Json) (es : List Fields) {u : Unit {0}}
    → check_chain s (some (str agent)) false k prev es ≡ passed u
    → AllShaped (some (str agent)) es
    → (p : Option Text) × IsChain s agent (k + 1) p es
unfolding IsChain AllShaped
IsChain-started s agent k prev [] c sh = (none, tt)
IsChain-started s agent k prev (e ∷ es) c (sh, (ag, rest)) =
    let (ce, cs) = check_chain-parts s (some (str agent)) false k prev e es c in
    let (x, l) = IsEntry-checked s agent false k prev e ce sh ag in
    (x.prev, (x, refl, IsChain-checked s agent (k + 1) x.head es (rw x.of_head at cs) rest))

push_entry-parts :
    (e : Fields) (c : Check (List Fields)) {es : List Fields}
    → push_entry e c ≡ passed es
    → (fs : List Fields) × ((c ≡ passed fs) × (es ≡ e ∷ fs))
push_entry-parts e (passed fs) h = (fs, (refl, ground arith))
push_entry-parts e (stopped o) h = absurd (ground arith)

check_entries-parts :
    (agent : Option Json) (d : Fields) (js : List Json) {es : List Fields}
    → check_entries agent (obj d ∷ js) ≡ passed es
    → (has_shape d ≡ true)
      × ((option_eq (agent_of d) agent ≡ true)
          × (push_entry d (check_entries agent js) ≡ passed es))
unfolding check_entries
check_entries-parts agent d js c = (ground arith, (ground arith, ground arith))

-- What the shape check gives is the entries themselves.
pub entries_checked :
    (agent : Option Json) (js : List Json) (es : List Fields)
    → check_entries agent js ≡ passed es
    → AllShaped agent es × (js ≡ map obj es)
unfolding check_entries AllShaped
entries_checked agent [] es c = let h : es ≡ [] = ground arith in rw h (tt, refl)
entries_checked agent (obj d ∷ js) es c =
    let (sh, (ag, pe)) = check_entries-parts agent d js c in
    let (fs, (cf, ef)) = push_entry-parts d (check_entries agent js) pe in
    let (all, eq) = entries_checked agent js fs cf in
    rw ef ((sh, (ag, all)), ap (λ l. obj d ∷ l) eq)
entries_checked agent (j ∷ js) es c = absurd (ground arith)
