-- ===== src/Mycelium/Chain/Reasons.antt =====
-- What each reason of `verify_chain` says of the store.
use argentum_core.Base.{
  ℕ, zero, suc, ◌+◌, ◌≡◌, refl, sym, ◌∙◌, inl, inr, true, false, List, [], ◌∷◌, Option, none, some,
  String, arith, str_eq, str_eq_iff, All, length, Bool-cases, Option-cases,
}
use mathlib.Core.Path.{subst}
use argentum_core.Sql.{str_mem}
use argentum_core.Mycelium.Store.{Trail, TrailsDb}
use argentum_core.Mycelium.Trails.{get_trail_by_id}
use argentum_core.Mycelium.Chain.{
  Reason, cycle_detected, trail_not_found, missing_signature_ref, delegation_ref_parent_mismatch,
  broken, truthy, delegation_ok, link_check, walk, verify_chain,
}
use argentum_core.Mycelium.Chain.Correct.{after_link, walk-missing, walk-found, walk-visited}

-- `o` is a parent of the trail `id`, at one remove or more.
pub data Above (db : TrailsDb) (id : String) : Option String → Type 0 where
  parent : {t : Trail} → get_trail_by_id db id ≡ some t → Above db id (truthy t.parent_trail_id)
  higher :
      {j : String} {t : Trail}
      → Above db id (some j)
      → get_trail_by_id db j ≡ some t
      → Above db id (truthy t.parent_trail_id)

-- What the store holds where a walk breaks off at `id`.
abbrev pub Evidence : TrailsDb → String → Reason → Type 0
Evidence db id cycle_detected = Above db id (some id)
Evidence db id trail_not_found = get_trail_by_id db id ≡ none
Evidence db id missing_signature_ref =
    (t : Trail) × (get_trail_by_id db id ≡ some t) × (t.signature_ref ≡ "")
Evidence db id delegation_ref_parent_mismatch =
    (t : Trail) × (get_trail_by_id db id ≡ some t)
    × (delegation_ok (truthy t.parent_trail_id) (truthy t.delegation_ref) ≡ false)

link_check-Evidence :
    (db : TrailsDb) (id : String) (t : Trail) (r : Reason)
    → get_trail_by_id db id ≡ some t
    → link_check t ≡ some r
    → Evidence db id r
unfolding link_check
link_check-Evidence db id t cycle_detected found e = absurd (ground arith)
link_check-Evidence db id t trail_not_found found e = absurd (ground arith)
link_check-Evidence db id t missing_signature_ref found e =
    (t, found, ground (arith, str_eq_iff t.signature_ref ""))
link_check-Evidence db id t delegation_ref_parent_mismatch found e = (t, found, ground arith)

Above-All :
    (db : TrailsDb) (id : String) {t : Trail} (vs : List String)
    → All (λ v. Above db v (some id)) vs
    → get_trail_by_id db id ≡ some t
    → All (λ v. Above db v (truthy t.parent_trail_id)) vs
Above-All db id [] h e = tt
Above-All db id (v ∷ vs) h e = (higher h.0 e, Above-All db id vs h.1 e)

Above-mem :
    (db : TrailsDb) (id : String) (vs : List String)
    → All (λ v. Above db v (some id)) vs
    → str_mem id vs ≡ true
    → Above db id (some id)
Above-mem db id [] h e = absurd (ground arith)
Above-mem db id (v ∷ vs) h e = elim (Bool-cases (str_eq v id)) [
  | inl same ↦ subst (λ x. Above db x (some id)) ((str_eq_iff v id).0 same) h.0
  | inr other ↦ Above-mem db id vs h.1 (rw other at e)
]

broken_eq : {i j : String} {r q : Reason} → broken i r ≡ broken j q → (i ≡ j) × (r ≡ q)
broken_eq e = (cc, cc)

moved :
    (db : TrailsDb) {i j : String} {r q : Reason}
    → broken i r ≡ broken j q
    → Evidence db i r
    → Evidence db j q
moved db {i} {q = q} e h =
    subst (λ x. Evidence db x q) (broken_eq e).0 (subst (λ x. Evidence db i x) (broken_eq e).1 h)

walk-Evidence :
    (fuel : ℕ) (db : TrailsDb) (visited : List String) (o : Option String) {j : String} {q : Reason}
    → All (λ v. Above db v o) visited
    → walk fuel db visited o ≡ broken j q
    → Evidence db j q
walk-Evidence zero db visited none h e = absurd (unfold walk in cc)
walk-Evidence (suc fuel) db visited none h e = absurd (unfold walk in cc)
walk-Evidence zero db visited (some id) h e = absurd (unfold walk in cc)
walk-Evidence (suc fuel) db visited (some id) {j} {q} h e = elim (Bool-cases (str_mem id visited)) [
  | inl old ↦
      moved db (sym (walk-visited fuel db visited id old) ∙ e) (Above-mem db id visited h old)
  | inr new ↦ elim (Option-cases (get_trail_by_id db id)) [
    | inl miss ↦ moved db (sym (walk-missing fuel db visited id new miss) ∙ e) miss
    | inr (t, found) ↦
        below t (link_check t) found refl
          (walk-Evidence fuel db (id ∷ visited) (truthy t.parent_trail_id)
            (parent found, Above-All db id visited h found))
          (sym (walk-found fuel db visited id new found) ∙ e)
  ]
]
  where
    below :
        (t : Trail) (r : Option Reason)
        → get_trail_by_id db id ≡ some t
        → link_check t ≡ r
        → (walk fuel db (id ∷ visited) (truthy t.parent_trail_id) ≡ broken j q → Evidence db j q)
        → after_link fuel db visited id t r ≡ broken j q
        → Evidence db j q
    below t (some r) found checked rest b = moved db b (link_check-Evidence db id t r found checked)
    below t none found checked rest b = rest b

-- Where `verify_chain` breaks off, the store shows why: at the identifier it names there is no
-- trail, or one with an empty signature reference, or one whose delegation does not name its
-- parent, or the identifier is an ancestor of itself.
pub verify_chain_reason :
    (db : TrailsDb) (id : String) {j : String} {q : Reason}
    → (verify_chain db id).verdict ≡ broken j q
    → Evidence db j q
unfolding verify_chain
verify_chain_reason db id e = walk-Evidence (length db.trails + 1) db [] (truthy (some id)) tt e
