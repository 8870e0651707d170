-- ===== src/TrailHead/Seal.antt =====
-- `seal_period`, the checkpoints of the period and their proofs.
use argentum_core.Base.{
  ℕ, zero, suc, ◌+◌, ◌≡◌, refl, ap, sym, ◌∙◌, inl, inr, List, [], ◌∷◌, ◌++◌, Option, none, some,
  arith, length, All, get_elem?, Option-cases, Bool-cases, map,
}
use argentum_core.Bytes.{bytes_lt, from_hex-to_hex}
use argentum_core.Json.{Text, obj, Fields}
use argentum_core.Merkle.{Result, ok, err, MerkleTree, root, get_proof, build_merkle_tree}
use argentum_core.Merkle.Levels.{IsRef}
use argentum_core.Merkle.Complete.{proof_verifies}
use argentum_core.TrailHead.{
  Setup, Checkpoint, checkpoint_dict, checkpoint_digest, checkpoint_digests, push_digest,
  insert_checkpoint, sort_checkpoints, seal_digests, seal_period, built, make_checkpoint,
}
use argentum_core.TrailHead.Keys.{sha256_jcs-bytes}
use argentum_core.TrailHead.Hexes.{length-to_hex}
use argentum_core.TrailHead.Decide.{verify_trail}
use argentum_core.TrailHead.Made.{Plain}
use argentum_core.TrailHead.Told.{no_anchor}
use argentum_core.TrailHead.Beginning.{told, beginning_told}

abbrev In : Checkpoint → List Checkpoint → Type 0
In c cs = (i : ℕ) × (get_elem? cs i ≡ some c)

insert_checkpoint-here : (c : Checkpoint) (ds : List Checkpoint) → In c (insert_checkpoint c ds)
unfolding insert_checkpoint
insert_checkpoint-here c [] = (0, refl)
insert_checkpoint-here c (d ∷ ds) = elim (Bool-cases (bytes_lt d.agent_id c.agent_id)) [
  | inl e ↦ let (i, h) = insert_checkpoint-here c ds in rw e (suc i, h)
  | inr e ↦ rw e (0, refl)
]

insert_checkpoint-keeps :
    (c b : Checkpoint) (ds : List Checkpoint) → In b ds → In b (insert_checkpoint c ds)
unfolding insert_checkpoint
insert_checkpoint-keeps c b [] (i, h) = absurd (ground arith)
insert_checkpoint-keeps c b (d ∷ ds) (zero, h) =
    elim (Bool-cases (bytes_lt d.agent_id c.agent_id)) [ inl e ↦ rw e (0, h) | inr e ↦ rw e (1, h) ]
insert_checkpoint-keeps c b (d ∷ ds) (suc i, h) =
    elim (Bool-cases (bytes_lt d.agent_id c.agent_id)) [
      | inl e ↦ let (j, g) = insert_checkpoint-keeps c b ds (i, h) in rw e (suc j, g)
      | inr e ↦ rw e (suc (suc i), h)
    ]

sort_checkpoints-keeps :
    (b : Checkpoint) (cs : List Checkpoint) (i : ℕ)
    → get_elem? cs i ≡ some b
    → In b (sort_checkpoints cs)
unfolding sort_checkpoints
sort_checkpoints-keeps b [] i h = absurd (ground arith)
sort_checkpoints-keeps b (c ∷ cs) zero h =
    let q : c ≡ b = cc in rw (← q) (insert_checkpoint-here c (sort_checkpoints cs))
sort_checkpoints-keeps b (c ∷ cs) (suc i) h =
    insert_checkpoint-keeps c b (sort_checkpoints cs) (sort_checkpoints-keeps b cs i h)

push_digest-parts :
    (t : Option Text) (ts : Option (List Text)) {ds : List Text}
    → push_digest t ts ≡ some ds
    → (d : Text) × (rest : List Text) × (t ≡ some d) × (ts ≡ some rest) × (ds ≡ d ∷ rest)
unfolding push_digest
push_digest-parts (some d) (some rest) e = (d, rest, refl, refl, ground arith)
push_digest-parts none ts e = absurd (ground arith)
push_digest-parts (some d) none e = absurd (ground arith)

IsRef-checkpoint_digest :
    (s : Setup) (c : Fields) {d : Text} → checkpoint_digest s c ≡ some d → IsRef d
unfolding checkpoint_digest
IsRef-checkpoint_digest s c e =
    let (b, q, h) = sha256_jcs-bytes s (obj c) e in
    let x = s.sha.digest b in
    rw h (
      (length-to_hex x ∙ rw (s.sha.length-digest b) refl),
      (x, from_hex-to_hex x (s.sha.digest-IsByte b)),
    )

some_back : {a b : Checkpoint} → Option.some a ≡ Option.some b → a ≡ b
some_back e = cc

-- The digests of the checkpoints, place for place, each a reference.
digests_at :
    (s : Setup) (cs : List Checkpoint) {ds : List Text} (i : ℕ) {c : Checkpoint}
    → checkpoint_digests s cs ≡ some ds
    → get_elem? cs i ≡ some c
    → (d : Text) × (checkpoint_digest s (checkpoint_dict c) ≡ some d) × (get_elem? ds i ≡ some d)
unfolding checkpoint_digests
digests_at s [] i e h = absurd (ground arith)
digests_at s (b ∷ cs) zero e h =
    let (d, rest, ed, er, q) =
      push_digest-parts (checkpoint_digest s (checkpoint_dict b)) (checkpoint_digests s cs) e in
    let same : b ≡ _ = some_back h in
    (d, ap (λ x. checkpoint_digest s (checkpoint_dict x)) (sym same) ∙ ed, rw q refl)
digests_at s (b ∷ cs) (suc i) e h =
    let (d, rest, ed, er, q) =
      push_digest-parts (checkpoint_digest s (checkpoint_dict b)) (checkpoint_digests s cs) e in
    let (x, ex, at) = digests_at s cs i er h in (x, ex, rw q at)

digests-IsRef :
    (s : Setup) (cs : List Checkpoint) {ds : List Text}
    → checkpoint_digests s cs ≡ some ds
    → All IsRef ds
unfolding checkpoint_digests
digests-IsRef s [] {ds = ds} e = let q : ds ≡ [] = ground arith in rw q tt
digests-IsRef s (c ∷ cs) e =
    let (d, rest, ed, er, q) =
      push_digest-parts (checkpoint_digest s (checkpoint_dict c)) (checkpoint_digests s cs) e in
    rw q (IsRef-checkpoint_digest s (checkpoint_dict c) ed, digests-IsRef s cs er)

built-ok : (r : Result MerkleTree) {t : MerkleTree} → built r ≡ some t → r ≡ ok t
built-ok (ok t) e = cc
built-ok (err x) e = absurd (ground arith)

abbrev tree_in : MerkleTree → Option (MerkleTree × List Text) → MerkleTree
tree_in t none = t
tree_in t (some p) = p.0

abbrev list_in : List Text → Option (MerkleTree × List Text) → List Text
list_in ds none = ds
list_in ds (some p) = p.1

ok_back : {a b : MerkleTree} → Result.ok a ≡ Result.ok b → a ≡ b
ok_back e = cc

seal_digests-parts :
    (s : Setup) (o : Option (List Text)) {t : MerkleTree} {ds : List Text}
    → seal_digests s o ≡ some (t, ds)
    → (o ≡ some ds) × (build_merkle_tree s.sha ds ≡ ok t)
unfolding seal_digests
seal_digests-parts s none e = absurd (ground arith)
seal_digests-parts s (some xs) {t = t} {ds = ds} e =
    elim (Option-cases (built (build_merkle_tree s.sha xs))) [
      | inl n ↦ let e' = rw (n, seal_digests) at e in absurd (ground (arith, e'))
      | inr (u, n) ↦
          let e' = rw (n, seal_digests) at e in
          let q : xs ≡ ds = ap (list_in ds) e' in
          let v : u ≡ t = ap (tree_in t) e' in
          (ap some q, rw (← q, ← v) (built-ok (build_merkle_tree s.sha xs) n))
    ]

seal_parts :
    (s : Setup) (cs : List Checkpoint) {t : MerkleTree} {ds : List Text}
    → seal_period s cs ≡ some (t, ds)
    → (checkpoint_digests s (sort_checkpoints cs) ≡ some ds) × (build_merkle_tree s.sha ds ≡ ok t)
unfolding seal_period
seal_parts s cs {t = t} {ds = ds} e =
    seal_digests-parts s (checkpoint_digests s (sort_checkpoints cs)) {t = t} {ds = ds}
      (ground arith)

-- Each checkpoint of a period that was sealed has a digest, a proof of it in the tree of the period and a
-- root of that tree against which the proof verifies; `verify_trail` with these then answers on any
-- beginning of the log that the checkpoint was made of "complete" where it is the whole log, and
-- otherwise "truncated" at the first number that is missing, where the log was made without counters.
pub sealed_told :
    (s : Setup) (agent end : Text) (e : Fields) (es rest : List Fields) (cs : List Checkpoint)
    (j : ℕ) (c : Checkpoint) (t : MerkleTree) (ds : List Text)
    → Plain s agent (e ∷ (es ++ rest))
    → make_checkpoint s agent end (e ∷ (es ++ rest)) ≡ some c
    → get_elem? cs j ≡ some c
    → seal_period s cs ≡ some (t, ds)
    → (d : Text) × (proof : List Text) × (r : Text) × (checkpoint_digest s (checkpoint_dict c)
        ≡ some d)
      × (get_proof d t ≡ ok proof)
      × (root t ≡ some r)
      × (verify_trail s
            (map obj (e ∷ es))
            (record { dict = some (checkpoint_dict c); proof = some proof; root = some r })
            none
            none
            no_anchor
            1
          ≡ told (1 + length es) rest)
sealed_told s agent end e es rest cs j c t ds l mk at sealed =
    let (digests, tree) = seal_parts s cs sealed in
    let (i, place) = sort_checkpoints-keeps c cs j at in
    let (d, dig, here) = digests_at s (sort_checkpoints cs) i digests place in
    let (u, proof, r, bu, gp, rt, ver) =
      proof_verifies s.sha ds i (digests-IsRef s (sort_checkpoints cs) digests) here in
    let q : u ≡ t = ok_back (sym bu ∙ tree) in
    (
      d,
      proof,
      r,
      dig,
      ap (get_proof d) (sym q) ∙ gp,
      ap root (sym q) ∙ rt,
      beginning_told s agent end e es rest c d proof r l mk dig ver,
    )
