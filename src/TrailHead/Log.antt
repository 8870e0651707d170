-- ===== src/TrailHead/Log.antt =====
-- The logs a producer makes with `append_entry`, step by step, and the checkpoint of one.
use argentum_core.Base.{
  ℕ, ◌+◌, ◌≡◌, refl, ap, sym, ◌∙◌, inl, inr, List, [], ◌∷◌, ◌++◌, Option, none, some, arith, length,
  Option-cases,
}
use mathlib.Core.Option
use argentum_core.Json.{Text, codes, ℤ, pos, Json, Fields, int, str, obj}
use argentum_core.TrailHead.{
  Setup, lookup, get, sha256_jcs, compute_head, entry_dict, last_entry, head_of, append_entry,
}
use argentum_core.TrailHead.Chain.{
  IsEntry, IsChain, as_text, as_number, preimage_of, lookup-head, not_null-some,
}
use argentum_core.TrailHead.Checked.{committed}

-- A log of the agent: empty, or what a call of append_entry makes of one.
pub data Log (s : Setup) (agent : Text) : List Fields → Type 0 where
  start : Log s agent []
  step :
      {log log' : List Fields}
      → Log s agent log
      → (ref : Text) (n : Option ℤ) → append_entry s log agent ref n ≡ some log'
      → Log s agent log'

-- The head before an entry that would follow.
abbrev pub prior : Option Json → List Fields → Option Json
prior p [] = p
prior p (e ∷ es) = prior (lookup (codes "head") e) es

prior-head_of :
    (p : Option Json) (e : Fields) (es : List Fields)
    → prior p (e ∷ es) ≡ head_of (last_entry (e ∷ es))
prior-head_of p e [] = refl
prior-head_of p e (f ∷ es) = prior-head_of (lookup (codes "head") e) f es

pub prior-none : (es : List Fields) → prior none es ≡ head_of (last_entry es)
prior-none [] = refl
prior-none (e ∷ es) = prior-head_of none e es

as_text-injective : (p q : Option Text) → as_text p ≡ as_text q → p ≡ q
as_text-injective none none e = refl
as_text-injective none (some q) e = absurd (ground arith)
as_text-injective (some p) none e = absurd (ground arith)
as_text-injective (some p) (some q) e = cc

renumber :
    {s : Setup} {agent : Text} {m k : ℕ} {e : Fields}
    → m ≡ k
    → (x : IsEntry s agent m e) → (y : IsEntry s agent k e) × (y.prev ≡ x.prev)
renumber {s = s} {agent = agent} {m = m} {k = k} q x = (
  record {
    ref = x.ref;
    prev = x.prev;
    counter = x.counter;
    head = x.head;
    of_agent = x.of_agent;
    of_seq = x.of_seq ∙ ap (λ n. some (int (pos n))) q;
    of_ref = x.of_ref;
    of_prev = x.of_prev;
    of_counter = x.of_counter;
    of_head = x.of_head;
    digest =
        ap (λ n. sha256_jcs s (obj (preimage_of agent n x.ref x.prev x.counter))) (sym q)
        ∙ x.digest;
  },
  refl,
)

IsChain-append :
    (s : Setup) (agent : Text) (k m : ℕ) (p : Option Text) (es : List Fields) (e : Fields)
    → IsChain s agent k p es
    → m ≡ k + length es
    → (x : IsEntry s agent m e) → prior (as_text p) es ≡ as_text x.prev
    → IsChain s agent k p (es ++ e ∷ [])
unfolding IsChain
IsChain-append s agent k m p [] e c q x h =
    let (y, yp) = renumber {k = k} (q ∙ ground arith) x in
    (y, yp ∙ sym (as_text-injective p x.prev h), tt)
IsChain-append s agent k m p (f ∷ es) e (y, yp, c) q x h = (
  y,
  yp,
  IsChain-append s agent (k + 1) m (some y.head) es e c (ground (arith, q)) x
      (ap (λ j. prior j es) (sym (lookup-head y)) ∙ h),
)

abbrev pub dict_of : Text → ℕ → Text → Option Text → Option ℤ → Text → Fields
dict_of agent k r p c h =
    entry_dict (some (str agent)) (pos k) (some (str r)) (as_text p) (as_number c) h

pub dict_prev :
    (agent : Text) (k : ℕ) (r : Text) (p : Option Text) (c : Option ℤ) (h : Text)
    → get (codes "prev_head") (dict_of agent k r p c h) ≡ as_text p
dict_prev agent k r none none h = refl
dict_prev agent k r none (some n) h = refl
dict_prev agent k r (some t) c h = refl

dict_counter :
    (agent : Text) (k : ℕ) (r : Text) (p : Option Text) (c : Option ℤ) (h : Text)
    → get (codes "agent_seq") (dict_of agent k r p c h) ≡ as_number c
dict_counter agent k r none none h = refl
dict_counter agent k r none (some n) h = refl
dict_counter agent k r (some t) none h = refl
dict_counter agent k r (some t) (some n) h = refl

pub dict_head :
    (agent : Text) (k : ℕ) (r : Text) (p : Option Text) (c : Option ℤ) (h : Text)
    → get (codes "head") (dict_of agent k r p c h) ≡ some (str h)
dict_head agent k r none none h = refl
dict_head agent k r none (some n) h = refl
dict_head agent k r (some t) none h = refl
dict_head agent k r (some t) (some n) h = refl

dict_of-IsEntry :
    (s : Setup) (agent : Text) (k : ℕ) (r : Text) (p : Option Text) (c : Option ℤ) (h : Text)
    → sha256_jcs s (obj (preimage_of agent k r p c)) ≡ some h
    → (x : IsEntry s agent k (dict_of agent k r p c h)) × (x.prev ≡ p)
dict_of-IsEntry s agent k r p c h d = (
  record {
    ref = r;
    prev = p;
    counter = c;
    head = h;
    of_agent = refl;
    of_seq = refl;
    of_ref = refl;
    of_prev = dict_prev agent k r p c h;
    of_counter = dict_counter agent k r p c h;
    of_head = dict_head agent k r p c h;
    digest = d;
  },
  refl,
)

pub appended :
    (s : Setup) (log : List Fields) (agent ref : Text) (n : Option ℤ) {log' : List Fields}
    → append_entry s log agent ref n ≡ some log'
    → (h : Text) × ((compute_head s
            (some (str agent))
            (pos (length log + 1))
            (some (str ref))
            (head_of (last_entry log))
            (Option.map int n)
          ≡ some h)
        × (log'
            ≡ log
              ++ entry_dict
                  (some (str agent))
                  (pos (length log + 1))
                  (some (str ref))
                  (head_of (last_entry log))
                  (Option.map int n)
                  h
                ∷ []))
unfolding append_entry
appended s log agent ref n e =
    elim (Option-cases (
      compute_head s (some (str agent)) (pos (length log + 1)) (some (str ref))
        (head_of (last_entry log)) (Option.map int n))) [
          | inl m ↦ let e' = rw (m, append_entry) at e in absurd (ground (arith, e'))
          | inr (h, m) ↦ let e' = rw (m, append_entry) at e in (h, (m, ground (arith, e')))
        ]

str_digest :
    (s : Setup) (agent : Text) (k : ℕ) {r r' : Text} (p : Option Text) (c : Option ℤ) {h : Text}
    → some (str r) ≡ some (str r')
    → sha256_jcs s (obj (preimage_of agent k r' p c)) ≡ some h
    → sha256_jcs s (obj (preimage_of agent k r p c)) ≡ some h
str_digest s agent k {r = r} {r' = r'} p c e d = let q : r ≡ r' = cc in rw q d

-- The number an entry has.
abbrev pub head_seq : Option Fields → Option Json
head_seq none = none
head_seq (some e) = lookup (codes "seq") e

-- A log is a chain from number 1, with no head before it.
pub Log-IsChain :
    {s : Setup} {agent : Text} {log : List Fields} → Log s agent log → IsChain s agent 1 none log
unfolding IsChain
Log-IsChain start = tt
Log-IsChain {s = s} {agent = agent} (step {log = log} l ref n e) =
    let (h, (eh, el)) = appended s log agent ref n e in
    let d =
      committed s agent (length log + 1) (some (str ref)) (head_of (last_entry log))
        (Option.map int n) eh in
    let (x, xp) =
      dict_of-IsEntry s agent (length log + 1) ref d.prev d.counter h
        (str_digest s agent (length log + 1) d.prev d.counter d.of_ref d.digest) in
    let c =
      IsChain-append s agent 1 (length log + 1) none log
        (entry_dict (some (str agent)) (pos (length log + 1)) (some (str ref)) (as_text d.prev)
          (as_number d.counter) h)
        (Log-IsChain l) (omega arith) x (prior-none log ∙ d.of_prev ∙ ap as_text (sym xp)) in
    rw (el, d.of_prev, d.of_counter) c

-- The last entry of a chain has its last number.
pub chain-last-seq :
    (s : Setup) (agent : Text) (k : ℕ) (p : Option Text) (e : Fields) (es : List Fields)
    → IsChain s agent k p (e ∷ es)
    → head_seq (last_entry (e ∷ es)) ≡ some (int (pos (k + length es)))
unfolding IsChain
chain-last-seq s agent k p e [] (x, xp, c) =
    not_null-some (lookup (codes "seq") e) x.of_seq ∙ ap (λ n. some (int (pos n))) (ground arith)
chain-last-seq s agent k p e (f ∷ es) (x, xp, c) =
    chain-last-seq s agent (k + 1) (some x.head) f es c ∙ ap (λ n. some (int (pos n))) (omega arith)
