-- ===== src/Mycelium/Chain/Correct.antt =====
-- `verify_chain` says valid exactly of the trails from which a sound chain of parents leads to a
-- root, and its loop ends on every store, cyclic ones included.
use argentum_core.Base.{
  ℕ, zero, suc, ◌+◌, ◌<◌, ◌≡◌, ◌≢◌, refl, ap, sym, ◌∙◌, ◌↔◌, ◌⊎◌, inl, inr, Bool, true, false, List,
  [], ◌∷◌, Option, none, some, String, arith, str_eq, str_eq_iff, str_eq_refl, not, All, length,
  Bool-cases, Option-cases,
}
use argentum_core.Sql.{count_where, count_lt, count-le-length, find-holds, str_mem}
use argentum_core.Mycelium.Store.{Trail, TrailsDb}
use argentum_core.Mycelium.Trails.{get_trail_by_id, has_id}
use argentum_core.Mycelium.Chain.{
  Reason, cycle_detected, trail_not_found, Verdict, valid, broken, out_of_fuel, truthy,
  delegation_ok, link_check, walk, verify_chain,
}

-- What a link of a chain must satisfy.
pub record IsSound (t : Trail) : Type 0 where
  pub signed : t.signature_ref ≢ ""
  pub delegated : delegation_ok (truthy t.parent_trail_id) (truthy t.delegation_ref) ≡ true

-- A chain of so many stored and sound trails, from an identifier up to a trail with no parent.
pub data Chain (db : TrailsDb) : ℕ → Option String → Type 0 where
  top : Chain db 0 none
  link :
      {n : ℕ} {id : String} {t : Trail}
      → get_trail_by_id db id ≡ some t
      → IsSound t
      → Chain db n (truthy t.parent_trail_id)
      → Chain db (suc n) (some id)

link_check-none : (t : Trail) → link_check t ≡ none → IsSound t
unfolding link_check
link_check-none t h = record {
  signed = λ e. ground (arith, str_eq_iff t.signature_ref "");
  delegated = ground arith;
}

link_check-IsSound : (t : Trail) → IsSound t → link_check t ≡ none
unfolding link_check
link_check-IsSound t h = ground (arith, str_eq_iff t.signature_ref "", h.delegated, h.signed)

some_eq : {a b : Trail} → some a ≡ some b → a ≡ b
some_eq e = cc

-- All chains from one identifier have one length.
Chain-unique : (db : TrailsDb) {n m : ℕ} {o : Option String} → Chain db n o → Chain db m o → n ≡ m
Chain-unique db top top = refl
Chain-unique db (link e s c) (link e' s' c') =
    let same = some_eq (sym e ∙ e') in ap suc (Chain-unique db c (rw (← same) at c'))

-- The walk below a trail that was read.
abbrev pub after_link : ℕ → TrailsDb → List String → String → Trail → Option Reason → Verdict
after_link fuel db visited id t (some reason) = broken id reason
after_link fuel db visited id t none = walk fuel db (id ∷ visited) (truthy t.parent_trail_id)

-- One round of the loop at an identifier that was not visited, by what is stored there.
pub walk-missing :
    (fuel : ℕ) (db : TrailsDb) (visited : List String) (id : String)
    → str_mem id visited ≡ false
    → get_trail_by_id db id ≡ none
    → walk (suc fuel) db visited (some id) ≡ broken id trail_not_found
unfolding walk
walk-missing fuel db visited id new e = rw (new, e)

pub walk-found :
    (fuel : ℕ) (db : TrailsDb) (visited : List String) (id : String) {t : Trail}
    → str_mem id visited ≡ false
    → get_trail_by_id db id ≡ some t
    → walk (suc fuel) db visited (some id) ≡ after_link fuel db visited id t (link_check t)
unfolding walk
walk-found fuel db visited id new e = ground (arith, new, e)

pub walk-visited :
    (fuel : ℕ) (db : TrailsDb) (visited : List String) (id : String)
    → str_mem id visited ≡ true
    → walk (suc fuel) db visited (some id) ≡ broken id cycle_detected
unfolding walk
walk-visited fuel db visited id old = rw old

-- Soundness: an answer of valid comes from a chain.
walk-Chain :
    (fuel : ℕ) (db : TrailsDb) (visited : List String) (o : Option String)
    → walk fuel db visited o ≡ valid
    → (n : ℕ) × Chain db n o
walk-Chain zero db visited none e = (0, top)
walk-Chain (suc fuel) db visited none e = (0, top)
walk-Chain zero db visited (some id) e = absurd (unfold walk in cc)
walk-Chain (suc fuel) db visited (some id) e = elim (Bool-cases (str_mem id visited)) [
  | inl old ↦ absurd (ne_broken (sym (walk-visited fuel db visited id old) ∙ e))
  | inr new ↦ elim (Option-cases (get_trail_by_id db id)) [
    | inl miss ↦ absurd (ne_broken (sym (walk-missing fuel db visited id new miss) ∙ e))
    | inr (t, found) ↦
        let (sound, rest) =
          below t (link_check t) refl (sym (walk-found fuel db visited id new found) ∙ e) in
        let (n, c) = walk-Chain fuel db (id ∷ visited) (truthy t.parent_trail_id) rest in
        (suc n, link found sound c)
  ]
]
  where
    ne_broken : {i : String} {r : Reason} → broken i r ≡ valid → ⊥
    ne_broken q = cc

    below :
        (t : Trail) (r : Option Reason)
        → link_check t ≡ r
        → after_link fuel db visited id t r ≡ valid
        → IsSound t × (walk fuel db (id ∷ visited) (truthy t.parent_trail_id) ≡ valid)
    below t (some r) q h = absurd (ne_broken h)
    below t none q h = (link_check-none t q, h)

-- Every visited identifier begins a longer chain than the one at hand.
abbrev Longer : TrailsDb → ℕ → String → Type 0
Longer db n v = (m : ℕ) × Chain db m (some v) × (n < m)

Longer-not_mem :
    (db : TrailsDb) (n : ℕ) (id : String) (visited : List String)
    → Chain db n (some id)
    → All (Longer db n) visited
    → str_mem id visited ≡ false
Longer-not_mem db n id [] c h = refl
Longer-not_mem db n id (v ∷ vs) c h = elim (Bool-cases (str_eq v id)) [
  | inl same ↦
      let e : v ≡ id = (str_eq_iff v id).0 same in
      absurd (omega (arith, Chain-unique db c (rw e at h.0.1), h.0.2))
  | inr other ↦ rw other (Longer-not_mem db n id vs c h.1)
]

Longer-down :
    (db : TrailsDb) (n : ℕ) (vs : List String) → All (Longer db (suc n)) vs → All (Longer db n) vs
Longer-down db n [] h = tt
Longer-down db n (v ∷ vs) h = ((h.0.0, h.0.1, omega (arith, h.0.2)), Longer-down db n vs h.1)

-- On a chain the loop answers valid, or its fuel runs out.
Chain-walk :
    (fuel : ℕ) (db : TrailsDb) {n : ℕ} (visited : List String) {o : Option String}
    → Chain db n o
    → All (Longer db n) visited
    → (walk fuel db visited o ≡ valid) ⊎ (walk fuel db visited o ≡ out_of_fuel)
Chain-walk zero db visited top h = inl (unfold walk in refl)
Chain-walk (suc fuel) db visited top h = inl (unfold walk in refl)
Chain-walk zero db visited (link e s c) h = inr (unfold walk in refl)
Chain-walk (suc fuel) db visited (link {n = n} {id = id} {t = t} e s c) h =
    let step : walk (suc fuel) db visited (some id)
        ≡ walk fuel db (id ∷ visited) (truthy t.parent_trail_id) =
      walk-found fuel db visited id (Longer-not_mem db (suc n) id visited (link e s c) h) e
      ∙ ap (after_link fuel db visited id t) (link_check-IsSound t s) in
    elim (Chain-walk fuel db (id ∷ visited) c
      ((suc n, link e s c, omega arith), Longer-down db n visited h)) [
        | inl v ↦ inl (step ∙ v)
        | inr v ↦ inr (step ∙ v)
      ]

abbrev unvisited : List String → Trail → Bool
unvisited visited t = not (str_mem t.trail_id visited)

unvisited_falls :
    (db : TrailsDb) (visited : List String) (id : String) {t : Trail}
    → str_mem id visited ≡ false
    → get_trail_by_id db id ≡ some t
    → count_where (unvisited (id ∷ visited)) db.trails < count_where (unvisited visited) db.trails
unfolding get_trail_by_id
unvisited_falls db visited id {t} new e =
    let same : t.trail_id ≡ id =
      (str_eq_iff t.trail_id id).0 (find-holds (has_id id) db.trails e) in
    count_lt (unvisited (id ∷ visited)) (unvisited visited) (has_id id) (λ r h. ground arith)
      db.trails e (rw same (ground (arith, str_eq_refl id))) (rw same (ground (arith, new)))

-- The loop ends: the fuel need only exceed the number of rows that were not visited.
walk_ends :
    (fuel : ℕ) (db : TrailsDb) (visited : List String) (o : Option String)
    → count_where (unvisited visited) db.trails < fuel
    → walk fuel db visited o ≢ out_of_fuel
walk_ends zero db visited o b e = elim b [ ]
walk_ends (suc fuel) db visited none b e = absurd (unfold walk in cc)
walk_ends (suc fuel) db visited (some id) b e = elim (Bool-cases (str_mem id visited)) [
  | inl old ↦ ne_broken id cycle_detected (sym (walk-visited fuel db visited id old) ∙ e)
  | inr new ↦ elim (Option-cases (get_trail_by_id db id)) [
    | inl miss ↦ ne_broken id trail_not_found (sym (walk-missing fuel db visited id new miss) ∙ e)
    | inr (t, found) ↦
        below t (link_check t)
          (walk_ends fuel db (id ∷ visited) (truthy t.parent_trail_id)
            (omega (arith, unvisited_falls db visited id new found)))
          (sym (walk-found fuel db visited id new found) ∙ e)
  ]
]
  where
    ne_broken : (i : String) (r : Reason) → broken i r ≡ out_of_fuel → ⊥
    ne_broken i r q = cc

    below :
        (t : Trail) (r : Option Reason)
        → walk fuel db (id ∷ visited) (truthy t.parent_trail_id) ≢ out_of_fuel
        → after_link fuel db visited id t r ≡ out_of_fuel
        → ⊥
    below t (some r) k h = ne_broken id r h
    below t none k h = k h

enough : (db : TrailsDb) → count_where (unvisited []) db.trails < length db.trails + 1
enough db = omega (arith, count-le-length (unvisited []) db.trails)

-- On every store and every identifier the loop of `verify_chain` ends with an answer, also where
-- the parents run in a cycle.
pub verify_chain_ends : (db : TrailsDb) (id : String) → (verify_chain db id).verdict ≢ out_of_fuel
unfolding verify_chain
verify_chain_ends db id = walk_ends (length db.trails + 1) db [] (truthy (some id)) (enough db)

-- `verify_chain` says valid exactly of the identifiers from which a chain of stored trails leads
-- to one with no parent, each with a signature reference and a delegation that names its parent;
-- such a chain has no cycle, since it is finite.
pub verify_chain_iff :
    (db : TrailsDb) (id : String)
    → ((verify_chain db id).verdict ≡ valid) ↔ ((n : ℕ) × Chain db n (truthy (some id)))
unfolding verify_chain
verify_chain_iff db id = (
  walk-Chain (length db.trails + 1) db [] (truthy (some id)),
  λ c. elim (Chain-walk (length db.trails + 1) db [] c.1 tt) [
    | inl v ↦ v
    | inr v ↦ absurd (walk_ends (length db.trails + 1) db [] (truthy (some id)) (enough db) v)
  ],
)
