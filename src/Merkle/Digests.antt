-- ===== src/Merkle/Digests.antt =====
-- Every node of a tree is a digest: 32 bytes.
use argentum_core.Base.{
  ℕ, suc, zero, ◌≡◌, refl, List, [], ◌∷◌, ◌++◌, Option, none, some, map, length, get_elem?, All,
  Bool-cases, inl, inr, ltb, ◌/◌,
}
use argentum_core.Bytes.{Bytes, Sha256, IsByte}
use argentum_core.Merkle.{
  leaf_digest, sorted_pair, node_hash, next_level, grow, proof_from, xor_one, add_sibling,
}

abbrev pub IsDigest : Bytes → Type 0
IsDigest b = (length b ≡ 32) × All IsByte b

some_eq : {a b : Bytes} → some a ≡ some b → a ≡ b
some_eq q = cc

pub IsDigest-at :
    (l : List Bytes) (i : ℕ) {x : Bytes} → All IsDigest l → get_elem? l i ≡ some x → IsDigest x
IsDigest-at [] i h e = cc
IsDigest-at (y ∷ l) zero h e = rw (← some_eq e) h.0
IsDigest-at (y ∷ l) (suc i) h e = IsDigest-at l i h.1 e

module _ (s : Sha256) where
  digest-IsDigest : (b : Bytes) → IsDigest (s.digest b)
  digest-IsDigest b = (s.length-digest b, s.digest-IsByte b)

  pub leaf_digest-IsDigest : (b : Bytes) → IsDigest (leaf_digest s b)
  unfolding leaf_digest
  leaf_digest-IsDigest b = digest-IsDigest (0 ∷ b)

  pub leaves-IsDigest : (bs : List Bytes) → All IsDigest (map (leaf_digest s) bs)
  leaves-IsDigest [] = tt
  leaves-IsDigest (b ∷ bs) = (leaf_digest-IsDigest b, leaves-IsDigest bs)

  pub node_hash-IsDigest : (a b : Bytes) → IsDigest (node_hash s a b)
  unfolding node_hash
  node_hash-IsDigest a b = let (x, y) = sorted_pair a b in digest-IsDigest (1 ∷ (x ++ y))

  pub next_level-IsDigest : (l : List Bytes) → All IsDigest l → All IsDigest (next_level s l)
  unfolding next_level
  next_level-IsDigest [] h = tt
  next_level-IsDigest (x ∷ []) h = h
  next_level-IsDigest (x ∷ y ∷ l) h = (node_hash-IsDigest x y, next_level-IsDigest l h.1.1)

  pub grow-IsDigest : (f : ℕ) (l : List Bytes) → All IsDigest l → All (All IsDigest) (grow s f l)
  unfolding grow
  grow-IsDigest zero l h = (h, tt)
  grow-IsDigest (suc f) l h =
      let ih = grow-IsDigest f (next_level s l) (next_level-IsDigest l h) in
      elim (Bool-cases (ltb 1 (length l))) [ inl e ↦ rw e (h, ih) | inr e ↦ rw e (h, tt) ]

add_sibling-IsDigest :
    (l : List Bytes) (i : ℕ) (o : Option Bytes) (ps : List Bytes)
    → All IsDigest l
    → get_elem? l i ≡ o
    → All IsDigest ps
    → All IsDigest (add_sibling o ps)
unfolding add_sibling
add_sibling-IsDigest l i none ps h e k = k
add_sibling-IsDigest l i (some x) ps h e k = (IsDigest-at l i h e, k)

pub proof_from-IsDigest :
    (i : ℕ) (ls : List (List Bytes)) → All (All IsDigest) ls → All IsDigest (proof_from i ls)
unfolding proof_from
proof_from-IsDigest i [] h = tt
proof_from-IsDigest i (l ∷ []) h = tt
proof_from-IsDigest i (l ∷ m ∷ ls) h =
    add_sibling-IsDigest l (xor_one i) (get_elem? l (xor_one i)) (proof_from (i / 2) (m ∷ ls)) h.0
      refl (proof_from-IsDigest (i / 2) (m ∷ ls) h.1)
