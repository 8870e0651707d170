-- ===== src/Karma/Dispute.antt =====
-- argentum.py: what a dispute and a ruling other than a slash lead to, in `open_dispute` and
-- `kleros_ruling`.
use argentum_core.Base.{
  ℕ, ◌≡◌, refl, ◌∙◌, false, List, some, String, ltb, ◌==◌, str_eq, str_eq_iff, ◌&&◌, not,
  Bool-cases, inl, inr, Option-cases,
}
use argentum_core.Sql.{find_where, count_where, top_by, select_where, find-holds}
use argentum_core.Karma.Store.{Status, verified, disputed, Action, Dispute, KarmaDb}
use argentum_core.Karma.Wisdom.{karma_of}
use argentum_core.Karma.Actions.{action_is, set_status, is_genesis}
use argentum_core.Karma.Contest.{
  done, open_dispute, dispute_found, kleros_ruling, ruling_found, ruling_on, unresolved_of,
  dispute_is, is_disputed, can_be_disputed, minimum_karma_to_dispute,
}
use argentum_core.Karma.Slash.{find-update}

-- From `k` to `k'` only the status of the action changed, of what karma and its proofs depend on.
pub record IsMoved (action : String) (a : Action) (st : Status) (k k' : KarmaDb) : Type 0 where
  pub row : find_where (action_is action) k'.actions ≡ some (record a { status = st })
  pub wisdom_kept : k'.wisdom ≡ k.wisdom
  pub attestations_kept : k'.attestations ≡ k.attestations

set_status-found :
    (id : String) (st : Status) (rows : List Action) {a : Action}
    → find_where (action_is id) rows ≡ some a
    → find_where (action_is id) (set_status id st rows) ≡ some (record a { status = st })
unfolding set_status
set_status-found id st rows e = find-update (action_is id) _ (λ r. refl) rows e

dispute_found-IsMoved :
    (reporter reason id : String) (now : ℕ) (k : KarmaDb) (a : Action)
    → find_where (action_is a.id) k.actions ≡ some a
    → (dispute_found reporter reason id now k a).0 ≡ done
    → IsMoved a.id a disputed k (dispute_found reporter reason id now k a).1
unfolding dispute_found
dispute_found-IsMoved reporter reason id now k a found e =
    elim (Bool-cases (not (can_be_disputed a.status))) [
      | inl c ↦ cc
      | inr c ↦ elim (Bool-cases (str_eq a.entity_id reporter)) [
        | inl d ↦ cc
        | inr d ↦
            elim (Bool-cases (
              not (is_genesis reporter)
              && ltb (karma_of reporter k.wisdom) minimum_karma_to_dispute)) [
                | inl f ↦ cc
                | inr f ↦ elim (Bool-cases (ltb 0 (count_where (unresolved_of a.id) k.disputes))) [
                  | inl g ↦ cc
                  | inr g ↦ elim (Bool-cases (ltb 0 (count_where (dispute_is id) k.disputes))) [
                    | inl i ↦ cc
                    | inr i ↦
                        rw (c, d, f, g, i)
                          (record {
                            row = set_status-found a.id disputed k.actions found;
                            wisdom_kept = refl;
                            attestations_kept = refl;
                          })
                  ]
                ]
              ]
      ]
    ]

open_dispute-IsMoved :
    (action reporter reason id : String) (now : ℕ) (k : KarmaDb) {a : Action}
    → find_where (action_is action) k.actions ≡ some a
    → (open_dispute action reporter reason id now k).0 ≡ done
    → IsMoved action a disputed k (open_dispute action reporter reason id now k).1
unfolding open_dispute
open_dispute-IsMoved action reporter reason id now k {a} found e =
    let same : a.id ≡ action =
      (str_eq_iff a.id action).0 (find-holds (action_is action) k.actions found) in
    let e' : (dispute_found reporter reason id now k a).0 ≡ done = rw (found, open_dispute) at e in
    rw (found, open_dispute)
      (simp (← same) (dispute_found-IsMoved reporter reason id now k a (simp same found) e'))

ruling_found-IsMoved :
    (ruling now : ℕ) (k : KarmaDb) (a : Action)
    → find_where (action_is a.id) k.actions ≡ some a
    → (ruling == 1) ≡ false
    → (ruling_found ruling now k a).0 ≡ done
    → IsMoved a.id a verified k (ruling_found ruling now k a).1
unfolding ruling_found ruling_on
ruling_found-IsMoved ruling now k a found other e = elim (Bool-cases (not (is_disputed a.status))) [
  | inl c ↦ cc
  | inr c ↦
      elim (Option-cases
        (top_by (λ (d : Dispute). d.created_at) (select_where (unresolved_of a.id) k.disputes))) [
          | inl t ↦ let e' = rw (c, t, ruling_found) at e in cc
          | inr (d, t) ↦
              rw (c, t, ruling_found, other)
                (record {
                  row = set_status-found a.id verified k.actions found;
                  wisdom_kept = refl;
                  attestations_kept = refl;
                })
        ]
]

kleros_ruling-IsMoved :
    (expected secret action : String) (ruling now : ℕ) (k : KarmaDb) {a : Action}
    → find_where (action_is action) k.actions ≡ some a
    → (ruling == 1) ≡ false
    → (kleros_ruling expected secret action ruling now k).0 ≡ done
    → IsMoved action a verified k (kleros_ruling expected secret action ruling now k).1
unfolding kleros_ruling
kleros_ruling-IsMoved expected secret action ruling now k {a} found other e =
    elim (Bool-cases (not (str_eq secret expected))) [
      | inl c ↦ cc
      | inr c ↦
          let same : a.id ≡ action =
            (str_eq_iff a.id action).0 (find-holds (action_is action) k.actions found) in
          let e' : (ruling_found ruling now k a).0 ≡ done = rw (c, found, kleros_ruling) at e in
          rw (c, found, kleros_ruling)
            (simp (← same) (ruling_found-IsMoved ruling now k a (simp same found) other e'))
    ]

-- When a dispute on an action is opened and then ruled on, otherwise than for a slash, and both calls go
-- through, the action is verified, whether it was verified or pending before, while karma and
-- attestations are what they were before the dispute.
pub cleared_is_verified :
    (action reporter reason id expected secret : String) (ruling now later : ℕ) (k : KarmaDb)
    {a : Action}
    → find_where (action_is action) k.actions ≡ some a
    → (ruling == 1) ≡ false
    → (open_dispute action reporter reason id now k).0 ≡ done
    → (kleros_ruling expected secret action ruling later
        (open_dispute action reporter reason id now k).1).0
      ≡ done
    → IsMoved action a verified k
        (kleros_ruling expected secret action ruling later
          (open_dispute action reporter reason id now k).1).1
cleared_is_verified action reporter reason id expected secret ruling now later k found other e e' =
    let o = open_dispute-IsMoved action reporter reason id now k found e in
    let r = kleros_ruling-IsMoved expected secret action ruling later _ o.row other e' in
    record {
      row = r.row;
      wisdom_kept = r.wisdom_kept ∙ o.wisdom_kept;
      attestations_kept = r.attestations_kept ∙ o.attestations_kept;
    }
