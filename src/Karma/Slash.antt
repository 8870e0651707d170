-- ===== src/Karma/Slash.antt =====
-- argentum.py: what a confirmed slash leaves behind, in `confirm_slash` and in the karma that
-- `upsert_wisdom` computes later.
use argentum_core.Base.{
  ℕ, ◌+◌, ◌/◌, ◌≡◌, refl, ap, sym, ◌∙◌, Bool, true, List, [], ◌∷◌, some, String, arith, ltb, str_eq,
  str_eq_iff, if◌then◌else◌, not, Bool-cases, if-keeps, inl, inr, Option-cases,
}
use argentum_core.Sql.{find_where, count_where, update_where, find-holds, count-find_some}
use argentum_core.Karma.Store.{slashed, Action, Attestation, Wisdom, Report, KarmaDb}
use argentum_core.Karma.Wisdom.{
  entity_is, karma_of, upsert_wisdom, awarded, Award, penalised, slashed_poster,
}
use argentum_core.Karma.Actions.{action_is, set_status, is_genesis, witness_karma}
use argentum_core.Karma.Contest.{
  confirm_slash, slash_found, slash, penalise_attestors, confirm_reports, open_report_of,
  is_slashed, done, Reply,
}

pub find-update :
    {R : Type 0} (p : R → Bool) (f : R → R)
    → ((r : R) → p (f r) ≡ p r)
    → (rs : List R) {r : R} → find_where p rs ≡ some r
    → find_where p (update_where p f rs) ≡ some (f r)
find-update p f keep [] e = cc
find-update p f keep (t ∷ rs) {r} e = ground (arith, keep t, find-update p f keep rs {r = r})

slashed-find :
    (action : String) (rows : List Action) {a : Action}
    → find_where (action_is action) rows ≡ some a
    → find_where (action_is action) (set_status action slashed rows)
      ≡ some (record a { status = slashed })
unfolding set_status
slashed-find action rows e = find-update (action_is action) _ (λ r. refl) rows e

no_open_report :
    (action : String) (now : ℕ) (rs : List Report)
    → count_where (open_report_of action) (confirm_reports action now rs) ≡ 0
unfolding confirm_reports
no_open_report action now [] = refl
no_open_report action now (r ∷ rs) = ground (arith, no_open_report action now rs)

-- What a slash that went through has done to the tables of actions and of reports.
pub record IsSettled (action : String) (rows : List Action) (reports : List Report) : Type 0 where
  pub row : Action
  pub found : find_where (action_is action) rows ≡ some row
  pub is_now : row.status ≡ slashed
  pub settled : count_where (open_report_of action) reports ≡ 0

slash_found-IsSettled :
    (now : ℕ) (k : KarmaDb) (a : Action)
    → find_where (action_is a.id) k.actions ≡ some a
    → (slash_found now k a).0 ≡ done
    → IsSettled a.id (slash_found now k a).1.actions (slash_found now k a).1.reports
unfolding slash_found slash
slash_found-IsSettled now k a found e = elim (Bool-cases (is_slashed a.status)) [
  | inl b ↦ cc
  | inr b ↦ elim (Bool-cases (not (ltb 0 (count_where (open_report_of a.id) k.reports)))) [
    | inl c ↦ cc
    | inr c ↦
        rw (b, c)
          (record {
            row = record a { status = slashed };
            found = slashed-find a.id k.actions found;
            is_now = refl;
            settled = no_open_report a.id now k.reports;
          })
  ]
]

pub confirm_slash-IsSettled :
    (action confirmer : String) (now : ℕ) (k : KarmaDb)
    → (confirm_slash action confirmer now k).0 ≡ done
    → IsSettled action
        (confirm_slash action confirmer now k).1.actions
        (confirm_slash action confirmer now k).1.reports
unfolding confirm_slash
confirm_slash-IsSettled action confirmer now k e = elim (Bool-cases (not (is_genesis confirmer))) [
  | inl b ↦ cc
  | inr b ↦ elim (Option-cases (find_where (action_is action) k.actions)) [
    | inl f ↦ let e' = rw (b, f, confirm_slash) at e in cc
    | inr (a, f) ↦
        let same : a.id ≡ action =
          (str_eq_iff a.id action).0 (find-holds (action_is action) k.actions f) in
        let e' : (slash_found now k a).0 ≡ done = rw (b, f, confirm_slash) at e in
        rw (b, f, confirm_slash) (rw (← same) (slash_found-IsSettled now k a (simp same f) e'))
  ]
]

-- The entity has a row of karma in tenths.
pub record HasReal (id : String) (r : ℕ) (ws : List Wisdom) : Type 0 where
  pub row : Wisdom
  pub found : find_where (entity_is id) ws ≡ some row
  pub real : row.total_karma_real ≡ some r

pub find-update_any :
    {R : Type 0} (q p : R → Bool) (f : R → R)
    → ((r : R) → q (f r) ≡ q r)
    → (rs : List R) {r : R} → find_where q rs ≡ some r
    → find_where q (update_where p f rs) ≡ some (if p r then f r else r)
find-update_any q p f keep [] e = cc
find-update_any q p f keep (t ∷ rs) {r} e =
    ground (arith, keep t, find-update_any q p f keep rs {r = r})

-- An update that leaves the entity and the karma in tenths alone leaves them so in the table.
update-HasReal :
    (p : Wisdom → Bool) (f : Wisdom → Wisdom)
    → ((w : Wisdom) → (f w).entity_id ≡ w.entity_id)
    → ((w : Wisdom) → (f w).total_karma_real ≡ w.total_karma_real)
    → (id : String) (r : ℕ) (ws : List Wisdom) → HasReal id r ws
    → HasReal id r (update_where p f ws)
update-HasReal p f keep real id r ws h = record {
  row = if p h.row then f h.row else h.row;
  found = find-update_any (entity_is id) p f (λ w. ap (λ t. str_eq t id) (keep w)) ws h.found;
  real =
      if-keeps (λ (w : Wisdom). w.total_karma_real ≡ some r) (p h.row) (λ e. real h.row ∙ h.real)
        (λ e. h.real);
}

upsert-HasReal :
    (aw : Award) (r : ℕ) (ws : List Wisdom)
    → HasReal aw.entity_id r ws
    → karma_of aw.entity_id (upsert_wisdom aw ws) ≡ (r + aw.karma_delta) / 10
unfolding karma_of upsert_wisdom awarded
upsert-HasReal aw r ws h =
    let there : ltb 0 (count_where (entity_is aw.entity_id) ws) ≡ true =
      ground (arith, count-find_some (entity_is aw.entity_id) ws h.found) in
    let row = find-update (entity_is aw.entity_id) (awarded aw) (λ w. refl) ws h.found in
    rw (there, row, karma_of, h.real) refl

attestors-HasReal :
    (action id : String) (r : ℕ) (ts : List Attestation) (ws : List Wisdom)
    → HasReal id r ws
    → HasReal id r (penalise_attestors action ts ws)
unfolding penalise_attestors penalised
attestors-HasReal action id r [] ws h = h
attestors-HasReal action id r (t ∷ ts) ws h = attestors-HasReal action id r ts _ (
    if-keeps (HasReal id r) (str_eq t.action_id action)
      (λ e.
        if-keeps (HasReal id r) (is_genesis t.attester_id) (λ g. h)
          (λ g.
            update-HasReal (entity_is t.attester_id) (penalised witness_karma) (λ w. refl)
              (λ w. refl) id r ws h))
      (λ e. h))

slash-HasReal :
    (a : Action) (id : String) (r : ℕ) (k : KarmaDb)
    → HasReal id r k.wisdom
    → HasReal id r (slash a k).wisdom
unfolding slash slashed_poster
slash-HasReal a id r k h = attestors-HasReal a.id id r k.attestations _ (
    update-HasReal (entity_is a.entity_id) (slashed_poster a.karma_value) (λ w. refl) (λ w. refl) id
      r k.wisdom h)

confirm_slash-HasReal :
    (action confirmer id : String) (now r : ℕ) (k : KarmaDb)
    → HasReal id r k.wisdom
    → HasReal id r (confirm_slash action confirmer now k).1.wisdom
unfolding confirm_slash slash_found
confirm_slash-HasReal action confirmer id now r k h =
    elim (Bool-cases (not (is_genesis confirmer))) [
      | inl b ↦ rw b h
      | inr b ↦ elim (Option-cases (find_where (action_is action) k.actions)) [
        | inl f ↦ rw (b, f, confirm_slash) h
        | inr (a, f) ↦
            rw (b, f, confirm_slash)
              (if-keeps (λ (x : Reply × KarmaDb). HasReal id r x.1.wisdom) (is_slashed a.status)
                (λ e. h)
                (λ e.
                  if-keeps (λ (x : Reply × KarmaDb). HasReal id r x.1.wisdom)
                    (not (ltb 0 (count_where (open_report_of a.id) k.reports))) (λ e. h)
                    (λ e. slash-HasReal a id r k h)))
      ]
    ]

-- The next award of karma to an entity whose row has karma in tenths gives it the total that it would
-- have had without the slash, whether it posted the slashed action or attested it: what the
-- confirmation took is given back.
pub slash_forgotten :
    (action confirmer : String) (now r : ℕ) (k : KarmaDb) (aw : Award)
    → HasReal aw.entity_id r k.wisdom
    → karma_of aw.entity_id (upsert_wisdom aw (confirm_slash action confirmer now k).1.wisdom)
      ≡ karma_of aw.entity_id (upsert_wisdom aw k.wisdom)
slash_forgotten action confirmer now r k aw h =
    upsert-HasReal aw r _ (confirm_slash-HasReal action confirmer aw.entity_id now r k h)
    ∙ sym (upsert-HasReal aw r k.wisdom h)
