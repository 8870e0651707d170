-- ===== src/Merkle/Tests.antt =====
-- merkle.py on concrete references, with a small function in the place of SHA-256.
use argentum_core.Base.{
  ℕ, ◌<◌, ◌≡◌, refl, ◌⊎◌, ◌↔◌, true, List, [], ◌∷◌, All, length, get_elem?, some,
}
use argentum_core.Bytes.{from_hex, to_hex}
use argentum_core.Bytes.Toy.{toy, toy_digest, repeat}
use argentum_core.Merkle.{
  ok, err, bad_length, MerkleTree, root, get_proof, build_merkle_tree, verify_inclusion, check_refs,
  leaf_hashes, decode_all, leaf_digest, leaf_hash, tree_over, grow, next_level, root_of, last_level,
  fold_proof,
}
use argentum_core.Merkle.Levels.{IsRef}
use argentum_core.Merkle.Shape.{Collision}
use argentum_core.Merkle.Complete.{proof_verifies}
use argentum_core.Merkle.Sound.{verified_member, built_iff}

abbrev refs : List (List ℕ)
refs = repeat 64 b'a' ∷ repeat 64 b'1' ∷ repeat 64 b'F' ∷ []

refs-IsRef : All IsRef refs
unfolding from_hex
refs-IsRef = (
  (refl, (repeat 32 0xaa, refl)),
  ((refl, (repeat 32 0x11, refl)), ((refl, (repeat 32 0xff, refl)), tt)),
)

proof_verifies_example :
    (t : MerkleTree) × (proof : List (List ℕ)) × (r : List ℕ) × (build_merkle_tree toy refs ≡ ok t)
    × (get_proof (repeat 64 b'1') t ≡ ok proof)
    × (root t ≡ some r)
    × (verify_inclusion toy (repeat 64 b'1') proof r ≡ true)
proof_verifies_example = proof_verifies toy refs 1 refs-IsRef refl

built_iff_example :
    ((t : MerkleTree) × (build_merkle_tree toy refs ≡ ok t)) ↔ ((0 < length refs) × All IsRef refs)
built_iff_example = built_iff toy refs

-- One leaf: its root is its own leaf hash, and the empty proof verifies.
abbrev single : List (List ℕ)
single = repeat 64 b'a' ∷ []

abbrev single_tree : MerkleTree
single_tree = record { action_refs = single; levels = (toy_digest (0 ∷ repeat 32 0xaa) ∷ []) ∷ [] }

verified_member_example :
    ((i : ℕ) × (member : List ℕ) × (get_elem? single i ≡ some member)
      × (from_hex member ≡ from_hex (repeat 64 b'A')))
    ⊎ Collision toy
unfolding build_merkle_tree check_refs leaf_hashes decode_all leaf_digest leaf_hash tree_over grow
    next_level root root_of last_level verify_inclusion fold_proof from_hex to_hex toy_digest
verified_member_example =
    verified_member toy single {t = single_tree} (repeat 64 b'A') []
      {r = to_hex (toy_digest (0 ∷ repeat 32 0xaa))} refl refl refl

short_ref : build_merkle_tree toy ((b'a' ∷ []) ∷ []) ≡ err bad_length
unfolding build_merkle_tree check_refs
short_ref = refl
