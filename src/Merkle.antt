-- ===== src/Merkle.antt =====
-- plugins/agt_evidence_anchor/merkle.py: the tree over action_ref digests, its proofs and their
-- verification. SHA-256 is a parameter. A level loop takes the length of the level as fuel.
pub mod Levels
mod Digests
mod Members
pub mod Shape
mod Leaves
pub mod Sound
mod Tests
pub mod Complete
use argentum_core.Base.{
  ℕ, suc, zero, ◌+◌, ◌-◌, ◌/◌, ◌%◌, Bool, false, List, [], ◌∷◌, ◌++◌, Option, none, some, map, ltb,
  ◌==◌, if◌then◌else◌, length, get_elem?,
}
use mathlib.Core.Option
use argentum_core.Bytes.{Bytes, bytes_eq, bytes_lt, to_hex, from_hex, Sha256}

-- The `ValueError`s of the module, by their message.
pub data Error : Type 0 where
  empty_list bad_length bad_hex not_in_tree : Error

pub data Result (A : Type 0) : Type 0 where
  ok : A → Result A
  err : Error → Result A

pub record MerkleTree : Type 0 where
  pub action_refs : List (List ℕ)
  pub levels : List (List Bytes)

-- `levels[-1][0].hex()`; on a tree with no level or an empty last one Python raises IndexError,
-- which no tree of `build_merkle_tree` meets.
pub last_level : List (List Bytes) → List Bytes
last_level [] = []
last_level (l ∷ []) = l
last_level (l ∷ m ∷ ls) = last_level (m ∷ ls)

pub root_of : List (List Bytes) → Option Bytes
root_of ls = get_elem? (last_level ls) 0

pub root : MerkleTree → Option (List ℕ)
root t = Option.map to_hex (root_of t.levels)

-- Checks of the input, in the order of the loop.
unfoldable pub check_refs : List (List ℕ) → Result (Unit {0})
check_refs [] = ok tt
check_refs (ref ∷ refs) =
    if length ref == 64
    then elim (from_hex ref) [ none ↦ err bad_hex | some b ↦ check_refs refs ]
    else err bad_length

-- `action_refs.index(action_ref)`
pub index_of : List ℕ → List (List ℕ) → Option ℕ
index_of ref [] = none
index_of ref (r ∷ refs) = if bytes_eq r ref then some 0 else Option.map suc (index_of ref refs)

-- `idx ^ 1`
pub xor_one : ℕ → ℕ
xor_one i = if i % 2 == 0 then i + 1 else i - 1

-- `if sibling_idx < len(level): proof.append(...)`
pub add_sibling : Option Bytes → List Bytes → List Bytes
add_sibling none rest = rest
add_sibling (some h) rest = h ∷ rest

-- The loop of `get_proof` over `levels[:-1]`.
pub proof_from : ℕ → List (List Bytes) → List Bytes
proof_from i [] = []
proof_from i (l ∷ []) = []
proof_from i (l ∷ m ∷ ls) = add_sibling (get_elem? l (xor_one i)) (proof_from (i / 2) (m ∷ ls))

pub get_proof : List ℕ → MerkleTree → Result (List (List ℕ))
get_proof ref t = elim (index_of ref t.action_refs) [
  | none ↦ err not_in_tree
  | some i ↦ ok (map to_hex (proof_from i t.levels))
]

-- One item of a list whose items may raise.
pub both : Option Bytes → Option (List Bytes) → Option (List Bytes)
both none bs = none
both (some b) none = none
both (some b) (some bs) = some (b ∷ bs)

-- `[bytes.fromhex(p) for p in proof]`
unfoldable pub decode_all : List (List ℕ) → Option (List Bytes)
unfolding both
decode_all [] = some []
decode_all (p ∷ ps) = both (from_hex p) (decode_all ps)

-- `sorted((left, right))`
pub sorted_pair : Bytes → Bytes → Bytes × Bytes
sorted_pair left right = if bytes_lt right left then (right, left) else (left, right)

module _ (h : Sha256) where
  unfoldable pub leaf_digest : Bytes → Bytes
  leaf_digest b = h.digest (0 ∷ b)

  -- `_leaf_hash`; `none` is the ValueError of `bytes.fromhex`.
  unfoldable pub leaf_hash : List ℕ → Option Bytes
  leaf_hash ref = Option.map leaf_digest (from_hex ref)

  -- `_node_hash`
  pub node_hash : Bytes → Bytes → Bytes
  node_hash left right = let (a, b) = sorted_pair left right in h.digest (1 ∷ (a ++ b))

  -- `[_leaf_hash(r) for r in action_refs]`
  unfoldable pub leaf_hashes : List (List ℕ) → Option (List Bytes)
  leaf_hashes refs = Option.map (map leaf_digest) (decode_all refs)

  -- One round of the outer loop: pairs from the left, an odd last node carried up.
  unfoldable pub next_level : List Bytes → List Bytes
  next_level [] = []
  next_level (x ∷ []) = x ∷ []
  next_level (x ∷ y ∷ l) = node_hash x y ∷ next_level l

  -- `while len(levels[-1]) > 1`, from the level at hand.
  unfoldable pub grow : ℕ → List Bytes → List (List Bytes)
  grow zero level = level ∷ []
  grow (suc fuel) level =
      let rest = grow fuel (next_level level) in
      if ltb 1 (length level) then level ∷ rest else level ∷ []

  unfoldable pub tree_over : List (List ℕ) → List Bytes → MerkleTree
  tree_over refs level = record { action_refs = refs; levels = grow (length level) level }

  unfoldable pub build_merkle_tree : List (List ℕ) → Result MerkleTree
  build_merkle_tree [] = err empty_list
  build_merkle_tree (r ∷ rs) = elim (check_refs (r ∷ rs)) [
    | err e ↦ err e
    | ok _ ↦ elim (leaf_hashes (r ∷ rs)) [
      | none ↦ err bad_hex
      | some level ↦ ok (tree_over (r ∷ rs) level)
    ]
  ]

  unfoldable pub fold_proof : Bytes → List Bytes → Bytes
  fold_proof current [] = current
  fold_proof current (s ∷ ss) = fold_proof (node_hash current s) ss

  unfoldable pub verify_inclusion : List ℕ → List (List ℕ) → List ℕ → Bool
  verify_inclusion ref proof expected =
      if length ref == 64
      then elim (leaf_hash ref) [
        | none ↦ false
        | some current ↦ elim (decode_all proof) [
          | none ↦ false
          | some siblings ↦ bytes_eq (to_hex (fold_proof current siblings)) expected
        ]
      ]
      else false
