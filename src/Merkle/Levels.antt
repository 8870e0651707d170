-- ===== src/Merkle/Levels.antt =====
-- The level loop of merkle.py: it ends, and what it builds from checked input.
use argentum_core.Base.{
  ℕ, suc, zero, ◌+◌, ◌/◌, ◌≤◌, ◌<◌, ◌≡◌, refl, ap, ◌++◌, List, [], ◌∷◌, Option, none, some, arith,
  length, get_elem?, All, Bool-cases, inl, inr, ltb,
}
use argentum_core.Bytes.{Bytes, Sha256, from_hex, bytes_lt_asymm, bytes_lt_total}
use argentum_core.Merkle.{
  ok, check_refs, decode_all, last_level, xor_one, sorted_pair, node_hash, next_level, grow,
}

-- What `build_merkle_tree` asks of one reference: 64 characters that `bytes.fromhex` reads.
abbrev pub IsRef : List ℕ → Type 0
IsRef ref = (length ref ≡ 64) × ((b : Bytes) × (from_hex ref ≡ some b))

pub check_refs-ok : (refs : List (List ℕ)) → All IsRef refs → check_refs refs ≡ ok tt
unfolding check_refs
check_refs-ok [] h = refl
check_refs-ok (r ∷ rs) h = ground (arith, check_refs-ok rs h.1)

pub check_refs-IsRef : (refs : List (List ℕ)) → check_refs refs ≡ ok tt → All IsRef refs
unfolding check_refs
check_refs-IsRef [] h = tt
check_refs-IsRef (r ∷ rs) h = ground (arith, check_refs-IsRef rs)

pub decode_all-some :
    (refs : List (List ℕ)) → All IsRef refs → (bs : List Bytes) × (decode_all refs ≡ some bs)
unfolding decode_all
decode_all-some [] h = ([], refl)
decode_all-some (r ∷ rs) h =
    let ih = decode_all-some rs h.1 in (h.0.1.0 ∷ ih.0, ground (arith, ih.1))

pub sorted_pair_comm : (a b : Bytes) → sorted_pair a b ≡ sorted_pair b a
unfolding sorted_pair
sorted_pair_comm a b = ground (arith, bytes_lt_asymm a b, bytes_lt_asymm b a, bytes_lt_total a b)

module _ (s : Sha256) where
  pub length-next_level : (l : List Bytes) → length (next_level s l) ≡ (length l + 1) / 2
  unfolding next_level
  length-next_level [] = omega arith
  length-next_level (x ∷ []) = omega arith
  length-next_level (x ∷ y ∷ l) = omega (arith, length-next_level l)

  pub last_level-grow :
      (f : ℕ) (l m : List Bytes) → last_level (l ∷ grow s f m) ≡ last_level (grow s f m)
  unfolding last_level grow
  last_level-grow zero l m = refl
  last_level-grow (suc f) l m = ground arith

  -- The loop ends: with as much fuel as the level is long, one node is left.
  pub grow_ends :
      (f : ℕ) (l : List Bytes)
      → 0 < length l
      → length l ≤ suc f
      → length (last_level (grow s f l)) ≡ 1
  unfolding grow
  grow_ends zero l p q = unfold last_level in omega arith
  grow_ends (suc f) l p q = elim (Bool-cases (ltb 1 (length l))) [
    | inl more ↦
        rw (more, last_level-grow f l (next_level s l))
          (grow_ends f (next_level s l) (ground (arith, length-next_level l))
            (ground (arith, length-next_level l)))
    | inr done ↦ rw done (unfold last_level in ground arith)
  ]

  pub node_hash_comm : (a b : Bytes) → node_hash s a b ≡ node_hash s b a
  unfolding node_hash
  node_hash_comm a b =
      ap (λ (p : Bytes × Bytes). s.digest (1 ∷ (p.0 ++ p.1))) (sorted_pair_comm a b)

  abbrev pub with_sibling : Bytes → Option Bytes → Bytes
  with_sibling x none = x
  with_sibling x (some y) = node_hash s x y

  xor_one-suc-suc : (i : ℕ) → xor_one (suc (suc i)) ≡ suc (suc (xor_one i))
  unfolding xor_one
  xor_one-suc-suc i = ground arith

  -- The parent of node `i` stands at `i / 2`, and joins it to the node at `i ^ 1`, if any.
  pub next_level_at :
      (l : List Bytes) (i : ℕ) {x : Bytes}
      → get_elem? l i ≡ some x
      → get_elem? (next_level s l) (i / 2) ≡ some (with_sibling x (get_elem? l (xor_one i)))
  unfolding next_level
  next_level_at [] i e = cc
  next_level_at (y ∷ []) zero e = unfold xor_one in e
  next_level_at (y ∷ []) (suc i) e = cc
  next_level_at (y ∷ z ∷ l) zero e = unfold xor_one in ground arith
  next_level_at (y ∷ z ∷ l) (suc zero) e = unfold xor_one in ground (arith, node_hash_comm y z)
  next_level_at (y ∷ z ∷ l) (suc (suc i)) e =
      let half : suc (suc i) / 2 ≡ suc (i / 2) = omega arith in
      rw (half, xor_one-suc-suc i) (next_level_at l i e)
