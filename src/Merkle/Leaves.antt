-- ===== src/Merkle/Leaves.antt =====
-- The leaves of shapes, and the references that the leaves of a tree came from.
use argentum_core.Base.{
  ℕ, suc, zero, ◌+◌, ◌/◌, ◌≡◌, refl, ap, ◌∙◌, List, [], ◌∷◌, ◌++◌, map, arith, length, some,
  get_elem?,
}
use mathlib.Core.List.{append_assoc}
use argentum_core.Bytes.{Bytes, from_hex}
use argentum_core.Merkle.{decode_all}
use argentum_core.Merkle.Members.{both-some}
use argentum_core.Merkle.Shape.{Node, leaf, leaves, IsPart, whole, in_left, in_right, next_nodes}

unfoldable pub all_leaves : List Node → List Bytes
all_leaves [] = []
all_leaves (n ∷ ns) = leaves n ++ all_leaves ns

pub all_leaves-next_nodes : (ns : List Node) → all_leaves (next_nodes ns) ≡ all_leaves ns
unfolding all_leaves next_nodes leaves
all_leaves-next_nodes [] = refl
all_leaves-next_nodes (x ∷ []) = refl
all_leaves-next_nodes (x ∷ y ∷ ns) =
    rw (all_leaves-next_nodes ns) (append_assoc (leaves x) (leaves y) (all_leaves ns))

pub length-next_nodes : (l : List Node) → length (next_nodes l) ≡ (length l + 1) / 2
unfolding next_nodes
length-next_nodes [] = omega arith
length-next_nodes (x ∷ []) = omega arith
length-next_nodes (x ∷ y ∷ l) = omega (arith, length-next_nodes l)

pub length-map : {A B : Type 0} (f : A → B) (ns : List A) → length (map f ns) ≡ length ns
length-map f [] = refl
length-map f (n ∷ ns) = ap suc (length-map f ns)

pub get_elem?-append_left :
    (a b : List Bytes) (i : ℕ) {x : Bytes} → get_elem? a i ≡ some x → get_elem? (a ++ b) i ≡ some x
get_elem?-append_left [] b i e = cc
get_elem?-append_left (y ∷ a) b zero e = e
get_elem?-append_left (y ∷ a) b (suc i) e = get_elem?-append_left a b i e

pub get_elem?-append_right :
    (a b : List Bytes) (i : ℕ) {x : Bytes}
    → get_elem? b i ≡ some x
    → get_elem? (a ++ b) (length a + i) ≡ some x
get_elem?-append_right [] b i e = let z : 0 + i ≡ i = omega arith in rw z e
get_elem?-append_right (y ∷ a) b i e =
    let z : suc (length a) + i ≡ suc (length a + i) = omega arith in
    rw z (get_elem?-append_right a b i e)

-- A leaf that is a part of a node has a place among the node's leaves.
pub leaf_place :
    {b : Bytes} {t : Node} → IsPart (leaf b) t → (i : ℕ) × (get_elem? (leaves t) i ≡ some b)
unfolding leaves
leaf_place whole = (0, refl)
leaf_place (in_left {l = l} {r = r} p) =
    let (i, e) = leaf_place p in (i, get_elem?-append_left (leaves l) (leaves r) i e)
leaf_place (in_right {l = l} {r = r} p) =
    let (i, e) = leaf_place p in
    (length (leaves l) + i, get_elem?-append_right (leaves l) (leaves r) i e)

pub all_leaves-leaf : (bs : List Bytes) → all_leaves (map leaf bs) ≡ bs
unfolding all_leaves leaves
all_leaves-leaf [] = refl
all_leaves-leaf (b ∷ bs) = ap (λ t. b ∷ t) (all_leaves-leaf bs)

-- The reference that a place among the decoded bytes came from.
pub decoded_from :
    (refs : List (List ℕ)) (bs : List Bytes) (i : ℕ) {b : Bytes}
    → decode_all refs ≡ some bs
    → get_elem? bs i ≡ some b
    → (ref : List ℕ) × (get_elem? refs i ≡ some ref) × (from_hex ref ≡ some b)
unfolding decode_all
decoded_from [] [] i d e = cc
decoded_from [] (b ∷ bs) i d e = ground arith
decoded_from (r ∷ refs) [] i d e = cc
decoded_from (r ∷ refs) (b ∷ bs) zero d e =
    let (c, cs, p, q, t) = both-some (from_hex r) (decode_all refs) d in
    (r, refl, p ∙ ground (arith, t))
decoded_from (r ∷ refs) (b ∷ bs) (suc i) d e =
    let (c, cs, p, q, t) = both-some (from_hex r) (decode_all refs) d in
    decoded_from refs bs i (q ∙ ground (arith, t)) e
