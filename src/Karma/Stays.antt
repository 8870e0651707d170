-- ===== src/Karma/Stays.antt =====
-- argentum.py: a payment, a report, a confirmation, a dispute and a ruling, on whatever action,
-- leave an action that was slashed as it is.
use argentum_core.Base.{
  ℕ, ◌≡◌, refl, ap, false, String, arith, ltb, ◌==◌, str_eq, ◌&&◌, not, Bool-cases, if-keeps, inl,
  inr, Option-cases,
}
use argentum_core.Sql.{find_where, count_where, top_by, select_where}
use argentum_core.Karma.Store.{slashed, verified, disputed, Action, Dispute, KarmaDb}
use argentum_core.Karma.Wisdom.{karma_of}
use argentum_core.Karma.Actions.{action_is, is_genesis}
use argentum_core.Karma.Attest.{
  attests, payment_attests, lightning_found, attestation_is, is_pending,
}
use argentum_core.Karma.Contest.{
  Reply, dispute_is, minimum_karma_to_dispute, report_action, report_found, report_of, report_is,
  new_report, confirm_slash, slash_found, slash, open_dispute, dispute_found, unresolved_of,
  is_verified, is_slashed, is_disputed, can_be_disputed, kleros_ruling, ruling_found, ruling_on,
  open_report_of,
}
use argentum_core.Karma.Slash.{IsSettled}
use argentum_core.Karma.Settled.{
  status-IsSettled, verify_if-IsSettled, report_added, reports_confirmed, Calm, found-Calm, guarded,
}

-- An action stays settled in a store.
abbrev pub Stays : String → KarmaDb → Type 0
Stays action k = IsSettled action k.actions k.reports

lightning_found-Stays :
    (action note id : String) (now : ℕ) (k : KarmaDb) (a : Action)
    → Calm action a
    → Stays action k
    → Stays action (lightning_found note id now k a)
unfolding lightning_found
lightning_found-Stays action note id now k a calm h =
    let P = Stays action in
    if-keeps P (is_pending a.status)
      (λ open_.
        if-keeps P (ltb 0 (count_where (attests a.id "lightning") k.attestations)) (λ e. h)
          (λ e.
            if-keeps P (ltb 0 (count_where (attestation_is id) k.attestations)) (λ f. h)
              (λ f.
                verify_if-IsSettled _ action a now _ (guarded action a is_pending refl calm open_)
                  h)))
      (λ e. h)

pub pay-Stays :
    (action b note id : String) (now : ℕ) (k : KarmaDb)
    → Stays action k
    → Stays action (payment_attests b note id now k)
unfolding payment_attests
pay-Stays action b note id now k h = elim (Option-cases (find_where (action_is b) k.actions)) [
  | inl e ↦ rw (e, payment_attests) h
  | inr (a, e) ↦
      rw (e, payment_attests)
        (lightning_found-Stays action note id now k a (found-Calm action b k.actions k.reports h e)
          h)
]

report_found-Stays :
    (action reporter reason id : String) (now : ℕ) (k : KarmaDb) (a : Action)
    → Calm action a
    → Stays action k
    → Stays action (report_found reporter reason id now k a).1
unfolding report_found new_report
report_found-Stays action reporter reason id now k a calm h =
    let P : Reply × KarmaDb → Type 0 = (λ x. Stays action x.1) in
    if-keeps P (not (is_verified a.status)) (λ e. h)
      (λ e.
        let other = guarded action a is_verified refl calm (ground arith) in
        if-keeps P (str_eq a.entity_id reporter) (λ f. h)
          (λ f.
            if-keeps P (ltb 0 (count_where (report_of a.id reporter) k.reports)) (λ g. h)
              (λ g.
                if-keeps P (ltb 0 (count_where (report_is id) k.reports)) (λ i. h)
                  (λ i. report_added action _ k.actions k.reports other h))))

pub report-Stays :
    (action b reporter reason id : String) (now : ℕ) (k : KarmaDb)
    → Stays action k
    → Stays action (report_action b reporter reason id now k).1
unfolding report_action
report-Stays action b reporter reason id now k h =
    elim (Option-cases (find_where (action_is b) k.actions)) [
      | inl e ↦ rw (e, report_action) h
      | inr (a, e) ↦
          rw (e, report_action)
            (report_found-Stays action reporter reason id now k a
              (found-Calm action b k.actions k.reports h e) h)
    ]

slash_found-Stays :
    (action : String) (now : ℕ) (k : KarmaDb) (a : Action)
    → Calm action a
    → Stays action k
    → Stays action (slash_found now k a).1
unfolding slash_found slash
slash_found-Stays action now k a calm h =
    let P : Reply × KarmaDb → Type 0 = (λ x. Stays action x.1) in
    if-keeps P (is_slashed a.status) (λ e. h)
      (λ e.
        let other = guarded action a (λ st. not (is_slashed st)) refl calm (ap not e) in
        if-keeps P (not (ltb 0 (count_where (open_report_of a.id) k.reports))) (λ f. h)
          (λ f.
            reports_confirmed action a.id now _ k.reports
              (status-IsSettled action a.id slashed k.actions k.reports other h)))

pub confirm-Stays :
    (action b confirmer : String) (now : ℕ) (k : KarmaDb)
    → Stays action k
    → Stays action (confirm_slash b confirmer now k).1
unfolding confirm_slash
confirm-Stays action b confirmer now k h = elim (Bool-cases (not (is_genesis confirmer))) [
  | inl e ↦ rw e h
  | inr g ↦ elim (Option-cases (find_where (action_is b) k.actions)) [
    | inl e ↦ rw (g, e, confirm_slash) h
    | inr (a, e) ↦
        rw (g, e, confirm_slash)
          (slash_found-Stays action now k a (found-Calm action b k.actions k.reports h e) h)
  ]
]

dispute_found-Stays :
    (action reporter reason id : String) (now : ℕ) (k : KarmaDb) (a : Action)
    → Calm action a
    → Stays action k
    → Stays action (dispute_found reporter reason id now k a).1
unfolding dispute_found
dispute_found-Stays action reporter reason id now k a calm h =
    let P : Reply × KarmaDb → Type 0 = (λ x. Stays action x.1) in
    if-keeps P (not (can_be_disputed a.status)) (λ e. h)
      (λ e.
        let other = guarded action a can_be_disputed refl calm (ground arith) in
        if-keeps P (str_eq a.entity_id reporter) (λ f. h)
          (λ f.
            if-keeps P
              (not (is_genesis reporter)
                && ltb (karma_of reporter k.wisdom) minimum_karma_to_dispute)
              (λ g. h)
              (λ g.
                if-keeps P (ltb 0 (count_where (unresolved_of a.id) k.disputes)) (λ i. h)
                  (λ i.
                    if-keeps P (ltb 0 (count_where (dispute_is id) k.disputes)) (λ j. h)
                      (λ j. status-IsSettled action a.id disputed k.actions k.reports other h)))))

pub dispute-Stays :
    (action b reporter reason id : String) (now : ℕ) (k : KarmaDb)
    → Stays action k
    → Stays action (open_dispute b reporter reason id now k).1
unfolding open_dispute
dispute-Stays action b reporter reason id now k h =
    elim (Option-cases (find_where (action_is b) k.actions)) [
      | inl e ↦ rw (e, open_dispute) h
      | inr (a, e) ↦
          rw (e, open_dispute)
            (dispute_found-Stays action reporter reason id now k a
              (found-Calm action b k.actions k.reports h e) h)
    ]

ruling_on-Stays :
    (action : String) (ruling now : ℕ) (k : KarmaDb) (a : Action) (d : Dispute)
    → str_eq a.id action ≡ false
    → Stays action k
    → Stays action (ruling_on ruling now k a d)
unfolding ruling_on slash
ruling_on-Stays action ruling now k a d other h =
    if-keeps (Stays action) (ruling == 1)
      (λ e. status-IsSettled action a.id slashed k.actions k.reports other h)
      (λ e. status-IsSettled action a.id verified k.actions k.reports other h)

ruling_found-Stays :
    (action : String) (ruling now : ℕ) (k : KarmaDb) (a : Action)
    → Calm action a
    → Stays action k
    → Stays action (ruling_found ruling now k a).1
unfolding ruling_found
ruling_found-Stays action ruling now k a calm h = elim (Bool-cases (not (is_disputed a.status))) [
  | inl e ↦ rw e h
  | inr g ↦
      rw g
        (elim (Option-cases
          (top_by (λ (d : Dispute). d.created_at) (select_where (unresolved_of a.id) k.disputes))) [
            | inl e ↦ rw (e, ruling_found) h
            | inr (d, e) ↦
                rw (e, ruling_found)
                  (ruling_on-Stays action ruling now k a d
                    (guarded action a is_disputed refl calm (ground arith)) h)
          ])
]

pub rule-Stays :
    (action expected secret b : String) (ruling now : ℕ) (k : KarmaDb)
    → Stays action k
    → Stays action (kleros_ruling expected secret b ruling now k).1
unfolding kleros_ruling
rule-Stays action expected secret b ruling now k h =
    elim (Bool-cases (not (str_eq secret expected))) [
      | inl e ↦ rw e h
      | inr g ↦ rw g (elim (Option-cases (find_where (action_is b) k.actions)) [
        | inl e ↦ rw (e, kleros_ruling) h
        | inr (a, e) ↦
            rw (e, kleros_ruling)
              (ruling_found-Stays action ruling now k a
                (found-Calm action b k.actions k.reports h e) h)
      ])
    ]
