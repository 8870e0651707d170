-- ===== src/Merkle/Sound.antt =====
-- A proof accepted against the root of a tree shows a leaf of that tree, or a SHA-256 collision.
use argentum_core.Base.{
  ℕ, suc, zero, ◌≤◌, ◌<◌, ◌≡◌, refl, ap, sym, ◌∙◌, List, [], ◌∷◌, map, arith, length, inl, inr, ◌⊎◌,
  true, ltb, some, All, get_elem?, Option-cases, ◌↔◌,
}
use mathlib.Core.List.{append-nil}
use argentum_core.Bytes.{Bytes, Sha256, bytes_eq-eq, from_hex, to_hex, to_hex_injective}
use argentum_core.Merkle.{
  Error, Result, ok, err, MerkleTree, leaf_digest, leaf_hash, node_hash, next_level, grow, root_of,
  root, last_level, fold_proof, build_merkle_tree, decode_all, verify_inclusion, tree_over,
  check_refs,
}
use argentum_core.Merkle.Levels.{IsRef, check_refs-IsRef, decode_all-some}
use argentum_core.Merkle.Digests.{IsDigest, leaf_digest-IsDigest, node_hash-IsDigest}
use argentum_core.Merkle.Complete.{build_merkle_tree-ok, root_of-grow, grow-more}
use argentum_core.Merkle.Members.{length-decode_all}
use argentum_core.Merkle.Shape.{
  Node, leaf, leaves, next_nodes, next_level-map, node_digest, node_digest-IsDigest, Collision,
  fold_proof-leaf,
}
use argentum_core.Merkle.Leaves.{
  all_leaves, all_leaves-next_nodes, length-next_nodes, length-map, leaf_place, all_leaves-leaf,
  decoded_from,
}

check_passed :
    (refs : List (List ℕ)) → (check_refs refs ≡ ok tt) ⊎ ((e : Error) × (check_refs refs ≡ err e))
check_passed refs = go (check_refs refs) refl
  where
    go :
        (r : Result (Unit {0}))
        → check_refs refs ≡ r
        → (check_refs refs ≡ ok tt) ⊎ ((e : Error) × (check_refs refs ≡ err e))
    go (ok tt) e = inl e
    go (err x) e = inr (x, e)

module _ (s : Sha256) where
  -- The node that the level loop leaves covers all the leaves it began with.
  top_node :
      (f : ℕ) (ns : List Node)
      → 0 < length ns
      → length ns ≤ suc f
      → (t : Node) × (root_of (grow s f (map (node_digest s) ns)) ≡ some (node_digest s t))
        × (leaves t ≡ all_leaves ns)
  top_node f [] p q = absurd (omega arith)
  top_node f (n ∷ []) p q = one f
    where
      one :
          (f : ℕ)
          → (t : Node) × (root_of (grow s f (node_digest s n ∷ [])) ≡ some (node_digest s t))
            × (leaves t ≡ all_leaves (n ∷ []))
      one zero = (
        n,
        unfold grow root_of last_level in refl,
        unfold all_leaves in sym (append-nil (leaves n)),
      )
      one (suc f) = (
        n,
        unfold grow root_of last_level in refl,
        unfold all_leaves in sym (append-nil (leaves n)),
      )
  top_node zero (n ∷ m ∷ ns) p q = absurd (omega arith)
  top_node (suc f) (n ∷ m ∷ ns) p q =
      let level = map (node_digest s) (n ∷ m ∷ ns) in
      let (t, e, l) =
        top_node f (next_nodes (n ∷ m ∷ ns)) (omega (arith, length-next_nodes (n ∷ m ∷ ns)))
          (omega (arith, length-next_nodes (n ∷ m ∷ ns))) in
      (
        t,
        rw
            (
              grow-more s f level (more level refl),
              root_of-grow s f level (next_level s level),
              next_level-map s (n ∷ m ∷ ns),
            )
            e,
        l ∙ all_leaves-next_nodes (n ∷ m ∷ ns),
      )
    where
      more : (l : List Bytes) → l ≡ map (node_digest s) (n ∷ m ∷ ns) → ltb 1 (length l) ≡ true
      more l e = rw e (ground arith)

  fold_proof-IsDigest : (ps : List Bytes) (x : Bytes) → IsDigest x → IsDigest (fold_proof s x ps)
  unfolding fold_proof
  fold_proof-IsDigest [] x h = h
  fold_proof-IsDigest (p ∷ ps) x h =
      fold_proof-IsDigest ps (node_hash s x p) (node_hash-IsDigest s x p)

  -- A list that is built passed every check.
  built_checked :
      (refs : List (List ℕ)) {t : MerkleTree}
      → build_merkle_tree s refs ≡ ok t
      → (0 < length refs) × All IsRef refs
  unfolding build_merkle_tree
  built_checked [] e = cc
  built_checked (r ∷ refs) e = elim (check_passed (r ∷ refs)) [
    | inl p ↦ (omega arith, check_refs-IsRef (r ∷ refs) p)
    | inr (x, p) ↦ ground arith
  ]

  verified_fold :
      (ref : List ℕ) (proof : List (List ℕ)) (r : List ℕ)
      → verify_inclusion s ref proof r ≡ true
      → (b : Bytes) × (ps : List Bytes) × (from_hex ref ≡ some b)
        × (to_hex (fold_proof s (leaf_digest s b) ps) ≡ r)
  unfolding verify_inclusion leaf_hash
  verified_fold ref proof r e = elim (Option-cases (from_hex ref)) [
    | inl bad ↦ ground arith
    | inr (b, good) ↦ elim (Option-cases (decode_all proof)) [
      | inl bad ↦ ground arith
      | inr (ps, decoded) ↦
          (b, ps, good, bytes_eq-eq (to_hex (fold_proof s (leaf_digest s b) ps)) r (ground arith))
    ]
  ]

  nodes_over : (bs : List Bytes) → map (leaf_digest s) bs ≡ map (node_digest s) (map leaf bs)
  unfolding node_digest
  nodes_over [] = refl
  nodes_over (b ∷ bs) = ap (λ t. leaf_digest s b ∷ t) (nodes_over bs)

  root-tree_over :
      (refs : List (List ℕ)) (level : List Bytes) {t : MerkleTree} {r : List ℕ} {b : Bytes}
      → ok (tree_over s refs level) ≡ ok t
      → root t ≡ some r
      → root_of (grow s (length level) level) ≡ some b
      → to_hex b ≡ r
  unfolding root tree_over
  root-tree_over refs level {t} e p q =
      let e' : t.levels ≡ grow s (length level) level = cc in ground (arith, e')

  top_digest :
      (bs : List Bytes)
      → 0 < length bs
      → (n : Node) × (root_of (grow s (length (map (leaf_digest s) bs)) (map (leaf_digest s) bs))
          ≡ some (node_digest s n))
        × (leaves n ≡ bs)
  top_digest bs p =
      let ns = map leaf bs in
      let level = map (node_digest s) ns in
      let (n, at_root, covers) =
        top_node (length level) ns (omega (arith, length-map leaf bs))
          (omega (arith, length-map (node_digest s) ns)) in
      (n, rw (nodes_over bs) at_root, covers ∙ all_leaves-leaf bs)

  -- The root of a built tree is the digest of a node over the bytes of its references.
  root_node :
      (refs : List (List ℕ)) {t : MerkleTree} {r : List ℕ}
      → build_merkle_tree s refs ≡ ok t
      → root t ≡ some r
      → (bs : List Bytes) × (n : Node) × (decode_all refs ≡ some bs)
        × (to_hex (node_digest s n) ≡ r)
        × (leaves n ≡ bs)
  root_node refs built rooted =
      let (some_refs, checked) = built_checked refs built in
      let (bs, decoded) = decode_all-some refs checked in
      let (n, at_root, covers) =
        top_digest bs (omega (arith, some_refs, length-decode_all refs bs decoded)) in
      (
        bs,
        n,
        decoded,
        root-tree_over refs (map (leaf_digest s) bs)
            (sym (build_merkle_tree-ok s refs bs some_refs checked decoded) ∙ built) rooted at_root,
        covers,
      )

  -- A proof of `ref` that verifies against the root of a tree shows that `ref` has the bytes of
  -- one of the references the tree was built from, or exhibits two inputs of SHA-256 with one
  -- digest.
  pub verified_member :
      (refs : List (List ℕ)) {t : MerkleTree} (ref : List ℕ) (proof : List (List ℕ)) {r : List ℕ}
      → build_merkle_tree s refs ≡ ok t
      → root t ≡ some r
      → verify_inclusion s ref proof r ≡ true
      → ((i : ℕ) × (member : List ℕ) × (get_elem? refs i ≡ some member)
          × (from_hex member ≡ from_hex ref))
        ⊎ Collision s
  verified_member refs {t} ref proof {r} built rooted verified =
      let (bs, n, decoded, rooted_at, covers) = root_node refs built rooted in
      let (b, ps, b_of, folded) = verified_fold ref proof r verified in
      let same_digest : fold_proof s (leaf_digest s b) ps ≡ node_digest s n =
        to_hex_injective (fold_proof s (leaf_digest s b) ps) (node_digest s n)
          (fold_proof-IsDigest ps (leaf_digest s b) (leaf_digest-IsDigest s b)).1
          (node_digest-IsDigest s n).1 (folded ∙ sym rooted_at) in
      elim (fold_proof-leaf s ps b n same_digest) [
        | inr c ↦ inr c
        | inl part ↦
            let (i, place) = leaf_place part in
            let (member, at, same) = decoded_from refs bs i decoded (rw covers at place) in
            inl (i, member, at, same ∙ sym b_of)
      ]

  -- A tree is built exactly from a non-empty list of references of 64 characters each that
  -- `bytes.fromhex` reads; on any other list `build_merkle_tree` raises.
  pub built_iff :
      (refs : List (List ℕ))
      → ((t : MerkleTree) × (build_merkle_tree s refs ≡ ok t))
        ↔ ((0 < length refs) × All IsRef refs)
  built_iff refs = (
    λ p. built_checked refs p.1,
    λ h.
        let (bs, decoded) = decode_all-some refs h.1 in
        (tree_over s refs (map (leaf_digest s) bs), build_merkle_tree-ok s refs bs h.0 h.1 decoded),
  )
