-- ===== src/Merkle/Shape.antt =====
-- The nodes of a tree of merkle.py by their shape: which node a digest belongs to, unless two inputs of SHA-256 collide.
use argentum_core.Base.{
  ℕ, ◌+◌, ◌≡◌, ◌≢◌, refl, ap, sym, List, [], ◌∷◌, ◌++◌, map, arith, length, Bool-cases, inl, inr,
  ◌⊎◌, ℕ_discrete, length-append,
}
use argentum_core.Bytes.{Bytes, Sha256, bytes_lt}
use argentum_core.Merkle.{leaf_digest, sorted_pair, node_hash, next_level, fold_proof}
use argentum_core.Merkle.Digests.{IsDigest, leaf_digest-IsDigest, node_hash-IsDigest}

-- The shape of a node: which leaves it covers, and how they were joined.
pub data Node : Type 0 where
  leaf : Bytes → Node
  join : Node → Node → Node

unfoldable pub leaves : Node → List Bytes
leaves (leaf b) = b ∷ []
leaves (join l r) = leaves l ++ leaves r

-- `n` stands somewhere below a node, or is it.
pub data IsPart (n : Node) : Node → Type 0 where
  whole : IsPart n n
  in_left : {l r : Node} → IsPart n l → IsPart n (join l r)
  in_right : {l r : Node} → IsPart n r → IsPart n (join l r)

IsPart-left : {l r t : Node} → IsPart (join l r) t → IsPart l t
IsPart-left whole = in_left whole
IsPart-left (in_left p) = in_left (IsPart-left p)
IsPart-left (in_right p) = in_right (IsPart-left p)

IsPart-right : {l r t : Node} → IsPart (join l r) t → IsPart r t
IsPart-right whole = in_right whole
IsPart-right (in_left p) = in_left (IsPart-right p)
IsPart-right (in_right p) = in_right (IsPart-right p)

Bytes-discrete : Discrete Bytes
Bytes-discrete = hlevel ℕ_discrete

head_eq : {x y : ℕ} {a b : Bytes} → (x ∷ a) ≡ (y ∷ b) → (x ≡ y) × (a ≡ b)
head_eq e = (cc, cc)

append_cancel : (a b c d : Bytes) → length a ≡ length c → (a ++ b) ≡ (c ++ d) → (a ≡ c) × (b ≡ d)
append_cancel [] b [] d n e = (refl, e)
append_cancel [] b (y ∷ c) d n e = absurd (omega arith)
append_cancel (x ∷ a) b [] d n e = absurd (omega arith)
append_cancel (x ∷ a) b (y ∷ c) d n e =
    let (p, q) = head_eq e in let (u, v) = append_cancel a b c d (omega arith) q in (cc, v)

abbrev joined : Bytes → Bytes → Bytes
joined x y = (sorted_pair x y).0 ++ (sorted_pair x y).1

length-joined : (x y : Bytes) → length (joined x y) ≡ length x + length y
unfolding sorted_pair
length-joined x y = elim (Bool-cases (bytes_lt y x)) [
  | inl e ↦ rw e (omega (arith, length-append y x))
  | inr e ↦ rw e (omega (arith, length-append x y))
]

-- Of two equal sorted concatenations of 32-byte pairs, the first item is one of the second pair.
joined-member :
    (x y l r : Bytes)
    → length x ≡ length l
    → length y ≡ length l
    → length r ≡ length l
    → joined x y ≡ joined l r
    → (x ≡ l) ⊎ (x ≡ r)
unfolding sorted_pair
joined-member x y l r n m k e = elim (Bool-cases (bytes_lt y x)) [
  | inl p ↦ elim (Bool-cases (bytes_lt r l)) [
    | inl q ↦ inl (append_cancel y x r l (omega arith) (rw (p, q) at e)).1
    | inr q ↦ inr (append_cancel y x l r (omega arith) (rw (p, q) at e)).1
  ]
  | inr p ↦ elim (Bool-cases (bytes_lt r l)) [
    | inl q ↦ inr (append_cancel x y r l (omega arith) (rw (p, q) at e)).0
    | inr q ↦ inl (append_cancel x y l r (omega arith) (rw (p, q) at e)).0
  ]
]

-- `next_level` on shapes.
unfoldable pub next_nodes : List Node → List Node
next_nodes [] = []
next_nodes (x ∷ []) = x ∷ []
next_nodes (x ∷ y ∷ l) = join x y ∷ next_nodes l

module _ (s : Sha256) where
  -- Two inputs with one digest.
  abbrev pub Collision : Type 0
  Collision = (a : Bytes) × (b : Bytes) × (a ≢ b) × (s.digest a ≡ s.digest b)

  unfoldable pub node_digest : Node → Bytes
  node_digest (leaf b) = leaf_digest s b
  node_digest (join l r) = node_hash s (node_digest l) (node_digest r)

  pub next_level-map :
      (l : List Node) → next_level s (map node_digest l) ≡ map node_digest (next_nodes l)
  unfolding next_level next_nodes node_digest
  next_level-map [] = refl
  next_level-map (x ∷ []) = refl
  next_level-map (x ∷ y ∷ l) =
      ap (λ t. node_hash s (node_digest x) (node_digest y) ∷ t) (next_level-map l)

  pub node_digest-IsDigest : (n : Node) → IsDigest (node_digest n)
  unfolding node_digest
  node_digest-IsDigest (leaf b) = leaf_digest-IsDigest s b
  node_digest-IsDigest (join l r) = node_hash-IsDigest s (node_digest l) (node_digest r)

  -- Equal digests have equal inputs, or there is a collision.
  pub same_input : (a b : Bytes) → s.digest a ≡ s.digest b → (a ≡ b) ⊎ Collision
  same_input a b e = elim (Bytes-discrete a b) [ yes p ↦ inl p | no n ↦ inr (a, b, n, e) ]

  leaf_ne_node : (b x y : Bytes) → leaf_digest s b ≡ node_hash s x y → Collision
  unfolding leaf_digest node_hash
  leaf_ne_node b x y e = (0 ∷ b, 1 ∷ joined x y, λ q. absurd (omega (arith, (head_eq q).0)), e)

  leaf_digest-eq : (a b : Bytes) → leaf_digest s a ≡ leaf_digest s b → (a ≡ b) ⊎ Collision
  unfolding leaf_digest
  leaf_digest-eq a b e = elim (same_input (0 ∷ a) (0 ∷ b) e) [
    | inl p ↦ inl (head_eq p).1
    | inr c ↦ inr c
  ]

  node_hash-member :
      (x y : Bytes) (l r : Node)
      → length x ≡ 32
      → node_hash s x y ≡ node_hash s (node_digest l) (node_digest r)
      → ((x ≡ node_digest l) ⊎ (x ≡ node_digest r)) ⊎ Collision
  node_hash-member x y l r n e =
      elim (same_input (1 ∷ joined x y) (1 ∷ joined dl dr) (unfold node_hash in e)) [
        | inr c ↦ inr c
        | inl p ↦
            let same : joined x y ≡ joined dl dr = (head_eq p).1 in
            inl (
              joined-member x y dl dr (omega (arith, node_digest-IsDigest l))
                (omega (
                  arith,
                  node_digest-IsDigest l,
                  node_digest-IsDigest r,
                  length-joined x y,
                  length-joined dl dr,
                  ap length same,
                ))
                (omega (arith, node_digest-IsDigest l, node_digest-IsDigest r)) same)
      ]
    where
      dl : Bytes
      dl = node_digest l

      dr : Bytes
      dr = node_digest r

  -- What folds up to the digest of a node is the digest of a part of it.
  pub fold_proof-IsPart :
      (ps : List Bytes) (x : Bytes) (t : Node)
      → length x ≡ 32
      → fold_proof s x ps ≡ node_digest t
      → ((n : Node) × IsPart n t × (x ≡ node_digest n)) ⊎ Collision
  unfolding fold_proof node_digest
  fold_proof-IsPart [] x t n e = inl (t, whole, e)
  fold_proof-IsPart (p ∷ ps) x t n e =
      go (fold_proof-IsPart ps (node_hash s x p) t (node_hash-IsDigest s x p).0 e)
    where
      below :
          (m : Node)
          → IsPart m t
          → node_hash s x p ≡ node_digest m
          → ((n : Node) × IsPart n t × (x ≡ node_digest n)) ⊎ Collision
      below (leaf b) part q = inr (leaf_ne_node b x p (sym q))
      below (join l r) part q = elim (node_hash-member x p l r n q) [
        | inl (inl el) ↦ inl (l, IsPart-left part, el)
        | inl (inr er) ↦ inl (r, IsPart-right part, er)
        | inr c ↦ inr c
      ]

      go :
          ((n : Node) × IsPart n t × (node_hash s x p ≡ node_digest n)) ⊎ Collision
          → ((n : Node) × IsPart n t × (x ≡ node_digest n)) ⊎ Collision
      go (inl (m, part, q)) = below m part q
      go (inr c) = inr c

  -- A leaf digest that folds up to a node's digest is of one of its leaves.
  pub fold_proof-leaf :
      (ps : List Bytes) (b : Bytes) (t : Node)
      → fold_proof s (leaf_digest s b) ps ≡ node_digest t
      → IsPart (leaf b) t ⊎ Collision
  unfolding node_digest
  fold_proof-leaf ps b t e =
      go (fold_proof-IsPart ps (leaf_digest s b) t (leaf_digest-IsDigest s b).0 e)
    where
      go :
          ((n : Node) × IsPart n t × (leaf_digest s b ≡ node_digest n)) ⊎ Collision
          → IsPart (leaf b) t ⊎ Collision
      go (inr c) = inr c
      go (inl (leaf c, part, q)) = elim (leaf_digest-eq b c q) [
        | inl same ↦ inl (rw same part)
        | inr k ↦ inr k
      ]
      go (inl (join l r, part, q)) = inr (leaf_ne_node b (node_digest l) (node_digest r) q)
