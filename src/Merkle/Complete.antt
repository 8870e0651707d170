-- ===== src/Merkle/Complete.antt =====
-- Every proof that `get_proof` extracts is accepted by `verify_inclusion`.
use argentum_core.Base.{
  ℕ, suc, zero, ◌/◌, ◌≤◌, ◌<◌, ◌≡◌, refl, List, [], ◌∷◌, Option, none, some, map, arith, length,
  get_elem?, All, Bool-cases, inl, inr, ltb, true, false,
}
use argentum_core.Bytes.{Bytes, Sha256, from_hex, to_hex, bytes_eq_refl}
use argentum_core.Merkle.{
  ok, MerkleTree, decode_all, last_level, root_of, root, proof_from, xor_one, add_sibling,
  leaf_digest, leaf_hash, leaf_hashes, next_level, grow, tree_over, build_merkle_tree, fold_proof,
  index_of, get_proof, verify_inclusion,
}
use argentum_core.Merkle.Levels.{
  IsRef, check_refs-ok, decode_all-some, last_level-grow, with_sibling, next_level_at,
  length-next_level,
}
use argentum_core.Merkle.Members.{
  decode_all-to_hex, index_of-at, index_of-member, decode_all-at, get_elem?-map, IsRef-at, nonempty,
}
use argentum_core.Merkle.Digests.{IsDigest, leaves-IsDigest, grow-IsDigest, proof_from-IsDigest}

module _ (s : Sha256) where
  proof_from-grow :
      (f i : ℕ) (l m : List Bytes)
      → proof_from i (l ∷ grow s f m)
        ≡ add_sibling (get_elem? l (xor_one i)) (proof_from (i / 2) (grow s f m))
  unfolding proof_from grow add_sibling
  proof_from-grow zero i l m = ground arith
  proof_from-grow (suc f) i l m = ground arith

  fold_proof-step :
      (x : Bytes) (o : Option Bytes) (ps : List Bytes)
      → fold_proof s x (add_sibling o ps) ≡ fold_proof s (with_sibling s x o) ps
  unfolding fold_proof add_sibling
  fold_proof-step x none ps = refl
  fold_proof-step x (some y) ps = refl

  pub root_of-grow : (f : ℕ) (l m : List Bytes) → root_of (l ∷ grow s f m) ≡ root_of (grow s f m)
  unfolding root_of
  root_of-grow f l m = rw (last_level-grow s f l m)

  pub grow-more :
      (f : ℕ) (l : List Bytes)
      → ltb 1 (length l) ≡ true
      → grow s (suc f) l ≡ l ∷ grow s f (next_level s l)
  unfolding grow
  grow-more f l h = rw h

  pub grow-done : (f : ℕ) (l : List Bytes) → ltb 1 (length l) ≡ false → grow s (suc f) l ≡ l ∷ []
  unfolding grow
  grow-done f l h = rw h

  fold_proof-single :
      (i : ℕ) (l : List Bytes) {x : Bytes}
      → length l ≤ 1
      → get_elem? l i ≡ some x
      → root_of (l ∷ []) ≡ some (fold_proof s x (proof_from i (l ∷ [])))
  unfolding proof_from root_of last_level fold_proof
  fold_proof-single i [] q e = cc
  fold_proof-single zero (y ∷ []) q e = e
  fold_proof-single (suc i) (y ∷ []) q e = cc
  fold_proof-single i (y ∷ z ∷ l) q e = absurd (omega arith)

  -- From any level, folding the proof of node `i` gives the root.
  fold_proof-root :
      (f i : ℕ) (l : List Bytes) {x : Bytes}
      → length l ≤ suc f
      → get_elem? l i ≡ some x
      → root_of (grow s f l) ≡ some (fold_proof s x (proof_from i (grow s f l)))
  fold_proof-root zero i l q e = unfold grow in fold_proof-single i l q e
  fold_proof-root (suc f) i l {x} q e = elim (Bool-cases (ltb 1 (length l))) [
    | inl more ↦
        let ih =
          fold_proof-root f (i / 2) (next_level s l) (ground (arith, length-next_level s l))
            (next_level_at s l i e) in
        rw
          (
            grow-more f l more,
            proof_from-grow f i l (next_level s l),
            fold_proof-step x (get_elem? l (xor_one i))
                (proof_from (i / 2) (grow s f (next_level s l))),
            root_of-grow f l (next_level s l),
          )
          ih
    | inr done ↦ rw (grow-done f l done) (fold_proof-single i l (ground arith) e)
  ]

module _ (s : Sha256) where
  -- On references that pass the checks the tree is built over the hashes of their bytes.
  pub build_merkle_tree-ok :
      (refs : List (List ℕ)) (bs : List Bytes)
      → 0 < length refs
      → All IsRef refs
      → decode_all refs ≡ some bs
      → build_merkle_tree s refs ≡ ok (tree_over s refs (map (leaf_digest s) bs))
  unfolding build_merkle_tree leaf_hashes
  build_merkle_tree-ok [] bs p h d = absurd (omega arith)
  build_merkle_tree-ok (r ∷ refs) bs p h d = ground (arith, check_refs-ok (r ∷ refs) h, d)

  verify_inclusion-fold :
      (ref : List ℕ) (b : Bytes) (ps : List Bytes)
      → length ref ≡ 64
      → from_hex ref ≡ some b
      → All IsDigest ps
      → verify_inclusion s ref (map to_hex ps) (to_hex (fold_proof s (leaf_digest s b) ps)) ≡ true
  unfolding verify_inclusion leaf_hash
  verify_inclusion-fold ref b ps n d h =
      rw (n, d, decode_all-to_hex ps h) (bytes_eq_refl (to_hex (fold_proof s (leaf_digest s b) ps)))

  get_proof-ok :
      (ref : List ℕ) (t : MerkleTree) {i : ℕ}
      → index_of ref t.action_refs ≡ some i
      → get_proof ref t ≡ ok (map to_hex (proof_from i t.levels))
  unfolding get_proof
  get_proof-ok ref t e = rw (e, get_proof)

  root-ok : (t : MerkleTree) {b : Bytes} → root_of t.levels ≡ some b → root t ≡ some (to_hex b)
  unfolding root
  root-ok t e = rw e

  -- For a list of well-formed references and each member of it, the tree is built, a proof of the
  -- member is extracted, the tree has a root, and the proof verifies against that root.
  pub proof_verifies :
      (refs : List (List ℕ)) (i : ℕ) {ref : List ℕ}
      → All IsRef refs
      → get_elem? refs i ≡ some ref
      → (t : MerkleTree) × (proof : List (List ℕ)) × (r : List ℕ) × (build_merkle_tree s refs
          ≡ ok t)
        × (get_proof ref t ≡ ok proof)
        × (root t ≡ some r)
        × (verify_inclusion s ref proof r ≡ true)
  unfolding tree_over
  proof_verifies refs i {ref} h e =
      let (bs, d) = decode_all-some refs h in
      let level = map (leaf_digest s) bs in
      let ls = grow s (length level) level in
      let t = tree_over s refs level in
      let (j, found) = index_of-member ref refs i e in
      let (b, db, at) = decode_all-at refs bs j d (index_of-at ref refs j found) in
      let ps = proof_from j ls in
      let x = fold_proof s (leaf_digest s b) ps in
      let at' = get_elem?-map (leaf_digest s) bs j at in
      let digests = grow-IsDigest s (length level) level (leaves-IsDigest s bs) in
      (
        t,
        map to_hex ps,
        to_hex x,
        build_merkle_tree-ok refs bs (nonempty refs i e) h d,
        get_proof-ok ref t found,
        root-ok t (fold_proof-root s (length level) j level (omega arith) at'),
        verify_inclusion-fold ref b ps (IsRef-at refs i h e) db (proof_from-IsDigest j ls digests),
      )
