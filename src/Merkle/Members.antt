-- ===== src/Merkle/Members.antt =====
-- Where a reference stands in a list, and what the list operations of merkle.py do with it.
use argentum_core.Base.{
  ℕ, suc, zero, ◌<◌, ◌≡◌, refl, List, [], ◌∷◌, Option, none, some, map, arith, length, get_elem?,
  All, Bool-cases, inl, inr, Bool, true, false, if◌then◌else◌, ◌⊎◌, ap,
}
use mathlib.Core.Option
use argentum_core.Bytes.{
  Bytes, from_hex, to_hex, from_hex-to_hex, bytes_eq, bytes_eq-eq, bytes_eq_refl,
}
use argentum_core.Merkle.{both, decode_all, index_of}
use argentum_core.Merkle.Levels.{IsRef}
use argentum_core.Merkle.Digests.{IsDigest}

pub decode_all-to_hex : (ps : List Bytes) → All IsDigest ps → decode_all (map to_hex ps) ≡ some ps
unfolding decode_all
decode_all-to_hex [] h = refl
decode_all-to_hex (p ∷ ps) h = ground (arith, from_hex-to_hex p h.0.1, decode_all-to_hex ps h.1)

found_cases :
    (b : Bool) (o : Option ℕ) {i : ℕ}
    → (if b then some 0 else Option.map suc o) ≡ some i
    → ((b ≡ true) × (i ≡ 0)) ⊎ ((j : ℕ) × (o ≡ some j) × (i ≡ suc j))
found_cases true o e = inl (refl, ground arith)
found_cases false none e = cc
found_cases false (some j) e = inr (j, refl, ground arith)

-- The position that `index` finds holds the reference.
pub index_of-at :
    (ref : List ℕ) (refs : List (List ℕ)) (i : ℕ)
    → index_of ref refs ≡ some i
    → get_elem? refs i ≡ some ref
unfolding index_of
index_of-at ref [] i e = cc
index_of-at ref (r ∷ refs) i e = elim (found_cases (bytes_eq r ref) (index_of ref refs) e) [
  | inl (same, z) ↦ rw (z, bytes_eq-eq r ref same)
  | inr (j, p, q) ↦ rw q (index_of-at ref refs j p)
]

-- A member has a position.
pub index_of-member :
    (ref : List ℕ) (refs : List (List ℕ)) (i : ℕ)
    → get_elem? refs i ≡ some ref
    → (j : ℕ) × (index_of ref refs ≡ some j)
unfolding index_of
index_of-member ref [] i e = cc
index_of-member ref (r ∷ refs) zero e = (0, ground (arith, bytes_eq_refl ref))
index_of-member ref (r ∷ refs) (suc i) e =
    let ih = index_of-member ref refs i e in
    elim (Bool-cases (bytes_eq r ref)) [
      | inl same ↦ (0, rw same)
      | inr other ↦ (suc ih.0, rw (other, ih.1))
    ]

pub both-some :
    (o : Option Bytes) (os : Option (List Bytes)) {bs : List Bytes}
    → both o os ≡ some bs
    → (b : Bytes) × (cs : List Bytes) × (o ≡ some b) × (os ≡ some cs) × (bs ≡ b ∷ cs)
unfolding both
both-some none os e = cc
both-some (some b) none e = cc
both-some (some b) (some cs) e = (b, cs, refl, refl, ground arith)

-- The bytes of the reference at a position.
pub decode_all-at :
    (refs : List (List ℕ)) (bs : List Bytes) (i : ℕ) {ref : List ℕ}
    → decode_all refs ≡ some bs
    → get_elem? refs i ≡ some ref
    → (b : Bytes) × (from_hex ref ≡ some b) × (get_elem? bs i ≡ some b)
unfolding decode_all
decode_all-at [] bs i d e = cc
decode_all-at (r ∷ refs) bs zero d e =
    let (b, cs, p, q, t) = both-some (from_hex r) (decode_all refs) d in (b, ground arith, rw t)
decode_all-at (r ∷ refs) bs (suc i) d e =
    let (b, cs, p, q, t) = both-some (from_hex r) (decode_all refs) d in
    let (b', p', q') = decode_all-at refs cs i q e in (b', p', rw t q')

pub get_elem?-map :
    (f : Bytes → Bytes) (bs : List Bytes) (i : ℕ) {b : Bytes}
    → get_elem? bs i ≡ some b
    → get_elem? (map f bs) i ≡ some (f b)
get_elem?-map f [] i e = cc
get_elem?-map f (c ∷ bs) zero e = ground arith
get_elem?-map f (c ∷ bs) (suc i) e = get_elem?-map f bs i e

pub IsRef-at :
    (refs : List (List ℕ)) (i : ℕ) {ref : List ℕ}
    → All IsRef refs
    → get_elem? refs i ≡ some ref
    → length ref ≡ 64
IsRef-at [] i h e = cc
IsRef-at (r ∷ refs) zero h e = ground arith
IsRef-at (r ∷ refs) (suc i) h e = IsRef-at refs i h.1 e

pub length-decode_all :
    (refs : List (List ℕ)) (bs : List Bytes) → decode_all refs ≡ some bs → length bs ≡ length refs
unfolding decode_all
length-decode_all [] bs e = ground arith
length-decode_all (r ∷ refs) bs e =
    let (b, cs, p, q, t) = both-some (from_hex r) (decode_all refs) e in
    rw t (ap suc (length-decode_all refs cs q))

pub nonempty :
    (refs : List (List ℕ)) (i : ℕ) {ref : List ℕ} → get_elem? refs i ≡ some ref → 0 < length refs
nonempty [] i e = cc
nonempty (r ∷ refs) i e = omega arith
