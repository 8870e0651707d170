-- ===== src/TrailHead/Chain.antt =====
-- Chains of entries of trail_head.py, where each commits to the one before.
use argentum_core.Base.{
  ℕ, ◌+◌, ◌≡◌, refl, ap, sym, ◌∙◌, ◌⊎◌, inl, inr, List, [], ◌∷◌, Option, none, some, arith, length,
}
use argentum_core.Json.{Text, codes, ℤ, pos, Json, Fields, int, str, obj}
use argentum_core.Jcs.{canonicalize}
use argentum_core.Jcs.Cut.{IsExact}
use argentum_core.Merkle.Shape.{Collision}
use argentum_core.TrailHead.{
  Setup, lookup, get, not_null, preimage_dict, sha256_jcs, last_entry, head_of,
}
use argentum_core.TrailHead.Decide.{head_at}
use argentum_core.TrailHead.Keys.{same_digest, canonical}

abbrev pub as_text : Option Text → Option Json
as_text none = none
as_text (some t) = some (str t)

abbrev pub as_number : Option ℤ → Option Json
as_number none = none
as_number (some n) = some (int n)

abbrev pub preimage_of : Text → ℕ → Text → Option Text → Option ℤ → Fields
preimage_of agent k ref prev counter =
    preimage_dict (some (str agent)) (pos k) (some (str ref)) (as_text prev) (as_number counter)

preimage-IsExact :
    (agent : Text) (k : ℕ) (r : Text) (p : Option Text) (c : Option ℤ)
    → IsExact (obj (preimage_of agent k r p c))
unfolding IsExact
preimage-IsExact agent k r none none = (tt, (tt, (tt, (tt, tt))))
preimage-IsExact agent k r none (some n) = (tt, (tt, (tt, (tt, (tt, tt)))))
preimage-IsExact agent k r (some p) none = (tt, (tt, (tt, (tt, (tt, tt)))))
preimage-IsExact agent k r (some p) (some n) = (tt, (tt, (tt, (tt, (tt, (tt, tt))))))

lookup-prev :
    (agent : Text) (k : ℕ) (r : Text) (p : Option Text) (c : Option ℤ)
    → lookup (codes "prev_head") (preimage_of agent k r p c) ≡ as_text p
lookup-prev agent k r none none = refl
lookup-prev agent k r none (some n) = refl
lookup-prev agent k r (some p) none = refl
lookup-prev agent k r (some p) (some n) = refl

lookup-counter :
    (agent : Text) (k : ℕ) (r : Text) (p : Option Text) (c : Option ℤ)
    → lookup (codes "agent_seq") (preimage_of agent k r p c) ≡ as_number c
lookup-counter agent k r none none = refl
lookup-counter agent k r none (some n) = refl
lookup-counter agent k r (some p) none = refl
lookup-counter agent k r (some p) (some n) = refl

pub text_back : (p q : Option Text) → canonical (as_text p) ≡ canonical (as_text q) → p ≡ q
unfolding canonicalize
text_back none none e = refl
text_back none (some q) e = absurd (ground arith)
text_back (some p) none e = absurd (ground arith)
text_back (some p) (some q) e = cc

number_back : (p q : Option ℤ) → canonical (as_number p) ≡ canonical (as_number q) → p ≡ q
unfolding canonicalize
number_back none none e = refl
number_back none (some q) e = absurd (ground arith)
number_back (some p) none e = absurd (ground arith)
number_back (some p) (some q) e = cc

-- An entry of the agent with number k whose head is the digest of its preimage.
pub record IsEntry (s : Setup) (agent : Text) (k : ℕ) (e : Fields) : Type 0 where
  pub ref : Text
  pub prev : Option Text
  pub counter : Option ℤ
  pub head : Text
  pub of_agent : get (codes "agent_id") e ≡ some (str agent)
  pub of_seq : get (codes "seq") e ≡ some (int (pos k))
  pub of_ref : get (codes "action_ref") e ≡ some (str ref)
  pub of_prev : get (codes "prev_head") e ≡ as_text prev
  pub of_counter : get (codes "agent_seq") e ≡ as_number counter
  pub of_head : get (codes "head") e ≡ some (str head)
  pub digest : sha256_jcs s (obj (preimage_of agent k ref prev counter)) ≡ some head

-- Entries from number k on, each linked to the one before, the first to p.
unfoldable pub IsChain : Setup → Text → ℕ → Option Text → List Fields → Type 0
IsChain s agent k p [] = Unit
IsChain s agent k p (e ∷ es) =
    (x : IsEntry s agent k e) × (x.prev ≡ p) × IsChain s agent (k + 1) (some x.head) es

-- The two entries agree at every key of the format.
pub record SameEntry (e f : Fields) : Type 0 where
  pub same_agent : get (codes "agent_id") e ≡ get (codes "agent_id") f
  pub same_seq : get (codes "seq") e ≡ get (codes "seq") f
  pub same_ref : get (codes "action_ref") e ≡ get (codes "action_ref") f
  pub same_prev : get (codes "prev_head") e ≡ get (codes "prev_head") f
  pub same_counter : get (codes "agent_seq") e ≡ get (codes "agent_seq") f
  pub same_head : get (codes "head") e ≡ get (codes "head") f

-- The second log, entry for entry, begins the first.
unfoldable pub Begins : List Fields → List Fields → Type 0
Begins es [] = Unit
Begins [] (f ∷ fs) = ⊥
Begins (e ∷ es) (f ∷ fs) = SameEntry e f × Begins es fs

same_entry :
    {s : Setup} {agent : Text} {k : ℕ} {e f : Fields} (x : IsEntry s agent k e)
    (y : IsEntry s agent k f)
    → x.head ≡ y.head
    → (SameEntry e f × (x.prev ≡ y.prev)) ⊎ Collision s.sha
unfolding canonicalize
same_entry {s = s} {agent = agent} {k = k} x y e =
    let fs = preimage_of agent k x.ref x.prev x.counter in
    let gs = preimage_of agent k y.ref y.prev y.counter in
    elim (same_digest s fs gs (preimage-IsExact agent k x.ref x.prev x.counter)
      (preimage-IsExact agent k y.ref y.prev y.counter) x.digest (y.digest ∙ ap some (sym e))) [
        | inr c ↦ inr c
        | inl same ↦
            let r : x.ref ≡ y.ref = (let h = same (codes "action_ref") in cc) in
            let p = text_back x.prev y.prev (
              ap canonical (sym (lookup-prev agent k x.ref x.prev x.counter))
              ∙ same (codes "prev_head")
              ∙ ap canonical (lookup-prev agent k y.ref y.prev y.counter)) in
            let c = number_back x.counter y.counter (
              ap canonical (sym (lookup-counter agent k x.ref x.prev x.counter))
              ∙ same (codes "agent_seq")
              ∙ ap canonical (lookup-counter agent k y.ref y.prev y.counter)) in
            inl (
              record {
                same_agent = x.of_agent ∙ sym y.of_agent;
                same_seq = x.of_seq ∙ sym y.of_seq;
                same_ref = x.of_ref ∙ ap (λ t. some (str t)) r ∙ sym y.of_ref;
                same_prev = x.of_prev ∙ ap as_text p ∙ sym y.of_prev;
                same_counter = x.of_counter ∙ ap as_number c ∙ sym y.of_counter;
                same_head = x.of_head ∙ ap (λ t. some (str t)) e ∙ sym y.of_head;
              },
              p,
            )
      ]

pub not_null-some : (o : Option Json) {j : Json} → not_null o ≡ some j → o ≡ some j
not_null-some none e = absurd (ground arith)
not_null-some (some j) e = ground arith

-- `lookup` gives the head.
pub lookup-head :
    {s : Setup} {agent : Text} {k : ℕ} {e : Fields} (x : IsEntry s agent k e)
    → lookup (codes "head") e ≡ some (str x.head)
lookup-head {e = e} x = not_null-some (lookup (codes "head") e) x.of_head

-- A chain that is not empty ends in a head.
pub chain-last :
    (s : Setup) (agent : Text) (k : ℕ) (p : Option Text) (e : Fields) (es : List Fields)
    → IsChain s agent k p (e ∷ es)
    → (h : Text) × (head_of (last_entry (e ∷ es)) ≡ some (str h))
unfolding IsChain
chain-last s agent k p e [] (x, xp, c) = (x.head, lookup-head x)
chain-last s agent k p e (f ∷ es) (x, xp, c) = chain-last s agent (k + 1) (some x.head) f es c

-- Where the second log's last head is the first's at that place, the second begins the first and
-- they start from one head, unless SHA-256 collides.
pub head_determines :
    (s : Setup) (agent : Text) (k : ℕ) (p q : Option Text) (es : List Fields) (f : Fields)
    (fs : List Fields)
    → IsChain s agent k p es
    → IsChain s agent k q (f ∷ fs)
    → head_at (length fs) es ≡ head_of (last_entry (f ∷ fs))
    → ((p ≡ q) × Begins es (f ∷ fs)) ⊎ Collision s.sha
unfolding IsChain Begins
head_determines s agent k p q [] f [] ce (y, yq, cf) e = absurd (ground (arith, lookup-head y))
head_determines s agent k p q [] f (g ∷ fs) ce cf e =
    let (h, eh) = chain-last s agent k q f (g ∷ fs) cf in absurd (ground (arith, e, eh))
head_determines s agent k p q (a ∷ es) f [] (x, xp, ce) (y, yq, cf) e =
    let h : x.head ≡ y.head = (let u = lookup-head x in let v = lookup-head y in cc) in
    elim (same_entry x y h) [ inr c ↦ inr c | inl (same, pq) ↦ inl (sym xp ∙ pq ∙ yq, (same, tt)) ]
head_determines s agent k p q (a ∷ es) f (g ∷ fs) (x, xp, ce) (y, yq, cf) e =
    elim (head_determines s agent (k + 1) (some x.head) (some y.head) es g fs ce cf e) [
      | inr c ↦ inr c
      | inl (h, rest) ↦ elim (same_entry x y cc) [
        | inr c ↦ inr c
        | inl (same, pq) ↦ inl (sym xp ∙ pq ∙ yq, (same, rest))
      ]
    ]
