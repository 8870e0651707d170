-- ===== src/Karma/Calls.antt =====
-- Each call of the service keeps the store of karma consistent.
use argentum_core.Base.{
  ℕ, ◌≡◌, refl, false, List, [], ◌∷◌, ◌++◌, String, arith, ltb, ◌==◌, str_eq, if◌then◌else◌, ◌&&◌,
  not, Bool-cases, if-keeps, inl, inr, Option-cases,
}
use argentum_core.Sql.{find_where, count_where, top_by, select_where, count-update}
use argentum_core.Karma.Store.{
  Action, Report, Dispute, DisputeStatus, ruled_slash, ruled_clear, ruled_refused, KarmaDb, World,
  slashed, verified, disputed,
}
use argentum_core.Karma.Actions.{Service, action_is, set_status, is_genesis}
use argentum_core.Karma.Wisdom.{karma_of}
use argentum_core.Karma.Attest.{
  AttestRequest, attest_action, finish_attest, marks_refusal, attest_begun, AttestReply, attests,
  payment_attests, lightning_found, lightning_attestation, attester_karma, attestation_is,
  is_pending,
}
use argentum_core.Karma.Contest.{
  dispute_is, minimum_karma_to_dispute, report_action, report_found, report_of, report_is,
  new_report, confirm_slash, slash_found, slash, confirm_reports, open_dispute, dispute_found,
  unresolved_of, is_unresolved, is_verified, is_slashed, is_disputed, can_be_disputed, new_dispute,
  kleros_ruling, ruling_found, ruling_on, resolve, open_report_of,
}
use argentum_core.Karma.Steps.{Call, submit, attest, pay, report, confirm, dispute, rule, step, run}
use argentum_core.Karma.Invariant.{
  IsConsistent, vote-append, IsWeighed-append, report-append, dispute-append, resolve-count,
  set_status-count, verify_if-IsConsistent, submit-IsConsistent, accepted-IsConsistent,
  refusal-fresh, begin_attest-cases,
}

finish_attest-IsConsistent :
    (sv : Service) (q : AttestRequest) (id trail_id : String) (now : ℕ) (w : World) (a : Action)
    → count_where (attests a.id q.attester_id) w.karma.attestations ≡ 0
    → IsConsistent w.karma
    → IsConsistent (finish_attest sv q id trail_id now w a).1.karma
unfolding finish_attest
finish_attest-IsConsistent sv q id trail_id now w a none_yet h =
    elim (Option-cases (marks_refusal q w.karma)) [
      | inr (r, e) ↦ rw (e, finish_attest) h
      | inl e ↦
          rw (e, finish_attest)
            (if-keeps (λ (x : AttestReply × World). IsConsistent x.1.karma)
              (ltb 0 (count_where (attestation_is id) w.karma.attestations)) (λ f. h)
              (λ f.
                accepted-IsConsistent sv q a (attester_karma q w.karma) id now w.karma none_yet h))
    ]

attest-IsConsistent :
    (sv : Service) (action : String) (q : AttestRequest) (id trail_id : String) (now : ℕ)
    (w : World)
    → IsConsistent w.karma
    → IsConsistent (attest_action sv action q id trail_id now w).1.karma
unfolding attest_action attest_begun
attest-IsConsistent sv action q id trail_id now w h =
    elim (begin_attest-cases action q now w.karma) [
      | inl (r, e) ↦ rw (e, attest_action, attest_begun) h
      | inr (a, e, f, g) ↦
          rw (e, attest_action, attest_begun)
            (finish_attest-IsConsistent sv q id trail_id now w a (refusal-fresh q a now w.karma g)
              h)
    ]

lightning-IsConsistent :
    (note id : String) (now : ℕ) (k : KarmaDb) (a : Action)
    → IsConsistent k
    → count_where (attests a.id "lightning") k.attestations ≡ 0
    → IsConsistent
        (record k { attestations = k.attestations ++ lightning_attestation a.id note now id ∷ [] })
unfolding lightning_attestation
lightning-IsConsistent note id now k a h e = record {
  one_action = h.one_action;
  one_vote = vote-append k.attestations (lightning_attestation a.id note now id) h.one_vote e;
  weighed =
      IsWeighed-append k.attestations (lightning_attestation a.id note now id) h.weighed
        (omega arith, omega arith);
  one_report = h.one_report;
  one_dispute = h.one_dispute;
}

lightning_found-IsConsistent :
    (note id : String) (now : ℕ) (k : KarmaDb) (a : Action)
    → IsConsistent k
    → IsConsistent (lightning_found note id now k a)
unfolding lightning_found
lightning_found-IsConsistent note id now k a h = elim (Bool-cases (is_pending a.status)) [
  | inr e ↦ rw e h
  | inl e ↦
      rw e (elim (Bool-cases (ltb 0 (count_where (attests a.id "lightning") k.attestations))) [
        | inl voted ↦ rw voted h
        | inr free ↦
            rw free (elim (Bool-cases (ltb 0 (count_where (attestation_is id) k.attestations))) [
              | inl taken ↦ rw taken h
              | inr fresh ↦ rw fresh (
                  verify_if-IsConsistent _ a now _
                    (lightning-IsConsistent note id now k a h (ground arith)))
            ])
      ])
]

pay-IsConsistent :
    (action note id : String) (now : ℕ) (k : KarmaDb)
    → IsConsistent k
    → IsConsistent (payment_attests action note id now k)
unfolding payment_attests
pay-IsConsistent action note id now k h =
    elim (Option-cases (find_where (action_is action) k.actions)) [
      | inl e ↦ rw (e, payment_attests) h
      | inr (a, e) ↦ rw (e, payment_attests) (lightning_found-IsConsistent note id now k a h)
    ]

add_report-IsConsistent :
    (k : KarmaDb) (r : Report)
    → IsConsistent k
    → count_where (report_of r.action_id r.reporter_id) k.reports ≡ 0
    → IsConsistent (record k { reports = k.reports ++ r ∷ [] })
add_report-IsConsistent k r h e = record {
  one_action = h.one_action;
  one_vote = h.one_vote;
  weighed = h.weighed;
  one_report = report-append k.reports r h.one_report e;
  one_dispute = h.one_dispute;
}

report_found-IsConsistent :
    (reporter reason id : String) (now : ℕ) (k : KarmaDb) (a : Action)
    → IsConsistent k
    → IsConsistent (report_found reporter reason id now k a).1
unfolding report_found new_report
report_found-IsConsistent reporter reason id now k a h =
    elim (Bool-cases (not (is_verified a.status))) [
      | inl e ↦ rw e h
      | inr e ↦ rw e (elim (Bool-cases (str_eq a.entity_id reporter)) [
        | inl e ↦ rw e h
        | inr e ↦
            rw e (elim (Bool-cases (ltb 0 (count_where (report_of a.id reporter) k.reports))) [
              | inl e ↦ rw e h
              | inr fresh ↦
                  rw fresh (elim (Bool-cases (ltb 0 (count_where (report_is id) k.reports))) [
                    | inl e ↦ rw e h
                    | inr e ↦ rw e (
                        add_report-IsConsistent k (new_report id a.id reporter reason now) h
                          (ground arith))
                  ])
            ])
      ])
    ]

report-IsConsistent :
    (action reporter reason id : String) (now : ℕ) (k : KarmaDb)
    → IsConsistent k
    → IsConsistent (report_action action reporter reason id now k).1
unfolding report_action
report-IsConsistent action reporter reason id now k h =
    elim (Option-cases (find_where (action_is action) k.actions)) [
      | inl e ↦ rw (e, report_action) h
      | inr (a, e) ↦ rw (e, report_action) (report_found-IsConsistent reporter reason id now k a h)
    ]

slash-IsConsistent : (a : Action) (k : KarmaDb) → IsConsistent k → IsConsistent (slash a k)
unfolding slash
slash-IsConsistent a k h = record {
  one_action = λ x. rw (set_status-count x a.id slashed k.actions) (h.one_action x);
  one_vote = h.one_vote;
  weighed = h.weighed;
  one_report = h.one_report;
  one_dispute = h.one_dispute;
}

confirm_reports-count :
    (x y action : String) (now : ℕ) (rs : List Report)
    → count_where (report_of x y) (confirm_reports action now rs) ≡ count_where (report_of x y) rs
unfolding confirm_reports
confirm_reports-count x y action now rs =
    count-update (open_report_of action) (report_of x y) _ (λ r. refl) rs

confirmed-IsConsistent :
    (action : String) (now : ℕ) (k : KarmaDb)
    → IsConsistent k
    → IsConsistent (record k { reports = confirm_reports action now k.reports })
confirmed-IsConsistent action now k h = record {
  one_action = h.one_action;
  one_vote = h.one_vote;
  weighed = h.weighed;
  one_report = λ x y. rw (confirm_reports-count x y action now k.reports) (h.one_report x y);
  one_dispute = h.one_dispute;
}

slashed-IsConsistent :
    (now : ℕ) (k : KarmaDb) (a : Action)
    → IsConsistent k
    → IsConsistent (record (slash a k) { reports = confirm_reports a.id now k.reports })
slashed-IsConsistent now k a h =
    let s = slash-IsConsistent a k h in
    let c = confirmed-IsConsistent a.id now k h in
    record {
      one_action = s.one_action;
      one_vote = s.one_vote;
      weighed = s.weighed;
      one_report = c.one_report;
      one_dispute = s.one_dispute;
    }

slash_found-IsConsistent :
    (now : ℕ) (k : KarmaDb) (a : Action) → IsConsistent k → IsConsistent (slash_found now k a).1
unfolding slash_found
slash_found-IsConsistent now k a h = elim (Bool-cases (is_slashed a.status)) [
  | inl e ↦ rw e h
  | inr e ↦ rw e (elim (Bool-cases (not (ltb 0 (count_where (open_report_of a.id) k.reports)))) [
    | inl e ↦ rw e h
    | inr e ↦ rw e (slashed-IsConsistent now k a h)
  ])
]

confirm-IsConsistent :
    (action confirmer : String) (now : ℕ) (k : KarmaDb)
    → IsConsistent k
    → IsConsistent (confirm_slash action confirmer now k).1
unfolding confirm_slash
confirm-IsConsistent action confirmer now k h = elim (Bool-cases (not (is_genesis confirmer))) [
  | inl e ↦ rw e h
  | inr g ↦ rw g (elim (Option-cases (find_where (action_is action) k.actions)) [
    | inl e ↦ rw (e, confirm_slash) h
    | inr (a, e) ↦ rw (e, confirm_slash) (slash_found-IsConsistent now k a h)
  ])
]

disputed-IsConsistent :
    (k : KarmaDb) (d : Dispute)
    → IsConsistent k
    → count_where (unresolved_of d.action_id) k.disputes ≡ 0
    → IsConsistent (record k {
      disputes = k.disputes ++ d ∷ [];
      actions = set_status d.action_id disputed k.actions;
    })
disputed-IsConsistent k d h e = record {
  one_action = λ x. rw (set_status-count x d.action_id disputed k.actions) (h.one_action x);
  one_vote = h.one_vote;
  weighed = h.weighed;
  one_report = h.one_report;
  one_dispute = dispute-append k.disputes d h.one_dispute e;
}

dispute_found-IsConsistent :
    (reporter reason id : String) (now : ℕ) (k : KarmaDb) (a : Action)
    → IsConsistent k
    → IsConsistent (dispute_found reporter reason id now k a).1
unfolding dispute_found new_dispute
dispute_found-IsConsistent reporter reason id now k a h =
    elim (Bool-cases (not (can_be_disputed a.status))) [
      | inl e ↦ rw e h
      | inr e ↦ rw e (elim (Bool-cases (str_eq a.entity_id reporter)) [
        | inl e ↦ rw e h
        | inr e ↦
            rw e
              (elim (Bool-cases (
                not (is_genesis reporter)
                && ltb (karma_of reporter k.wisdom) minimum_karma_to_dispute)) [
                  | inl e ↦ rw e h
                  | inr e ↦
                      rw e
                        (elim (Bool-cases (ltb 0 (count_where (unresolved_of a.id) k.disputes))) [
                          | inl e ↦ rw e h
                          | inr fresh ↦
                              rw fresh
                                (elim (Bool-cases
                                  (ltb 0 (count_where (dispute_is id) k.disputes))) [
                                    | inl e ↦ rw e h
                                    | inr e ↦ rw e (
                                        disputed-IsConsistent k
                                          (new_dispute id a.id reporter reason now) h
                                          (ground arith))
                                  ])
                        ])
                ])
      ])
    ]

dispute-IsConsistent :
    (action reporter reason id : String) (now : ℕ) (k : KarmaDb)
    → IsConsistent k
    → IsConsistent (open_dispute action reporter reason id now k).1
unfolding open_dispute
dispute-IsConsistent action reporter reason id now k h =
    elim (Option-cases (find_where (action_is action) k.actions)) [
      | inl e ↦ rw (e, open_dispute) h
      | inr (a, e) ↦ rw (e, open_dispute) (dispute_found-IsConsistent reporter reason id now k a h)
    ]

resolved-IsConsistent :
    (id : String) (st : DisputeStatus) (ruling now : ℕ) (k : KarmaDb)
    → is_unresolved st ≡ false
    → IsConsistent k
    → IsConsistent (record k { disputes = resolve id st ruling now k.disputes })
resolved-IsConsistent id st ruling now k e h = record {
  one_action = h.one_action;
  one_vote = h.one_vote;
  weighed = h.weighed;
  one_report = h.one_report;
  one_dispute = λ x. omega (arith, h.one_dispute x, resolve-count x id st ruling now e k.disputes);
}

restored-IsConsistent :
    (id : String) (k : KarmaDb)
    → IsConsistent k
    → IsConsistent (record k { actions = set_status id verified k.actions })
restored-IsConsistent id k h = record {
  one_action = λ x. rw (set_status-count x id verified k.actions) (h.one_action x);
  one_vote = h.one_vote;
  weighed = h.weighed;
  one_report = h.one_report;
  one_dispute = h.one_dispute;
}

ruling_on-IsConsistent :
    (ruling now : ℕ) (k : KarmaDb) (a : Action) (d : Dispute)
    → IsConsistent k
    → IsConsistent (ruling_on ruling now k a d)
unfolding ruling_on slash
ruling_on-IsConsistent ruling now k a d h =
    if-keeps IsConsistent (ruling == 1)
      (λ e.
        resolved-IsConsistent d.id ruled_slash 1 now (slash a k) refl (slash-IsConsistent a k h))
      (λ e.
        resolved-IsConsistent d.id (if ruling == 2 then ruled_clear else ruled_refused) ruling now
          (record k { actions = set_status a.id verified k.actions })
          (if-keeps (λ st. is_unresolved st ≡ false) (ruling == 2) (λ e. refl) (λ e. refl))
          (restored-IsConsistent a.id k h))

ruling_found-IsConsistent :
    (ruling now : ℕ) (k : KarmaDb) (a : Action)
    → IsConsistent k
    → IsConsistent (ruling_found ruling now k a).1
unfolding ruling_found
ruling_found-IsConsistent ruling now k a h = elim (Bool-cases (not (is_disputed a.status))) [
  | inl e ↦ rw e h
  | inr g ↦
      rw g
        (elim (Option-cases
          (top_by (λ (d : Dispute). d.created_at) (select_where (unresolved_of a.id) k.disputes))) [
            | inl e ↦ rw (e, ruling_found) h
            | inr (d, e) ↦ rw (e, ruling_found) (ruling_on-IsConsistent ruling now k a d h)
          ])
]

rule-IsConsistent :
    (expected secret action : String) (ruling now : ℕ) (k : KarmaDb)
    → IsConsistent k
    → IsConsistent (kleros_ruling expected secret action ruling now k).1
unfolding kleros_ruling
rule-IsConsistent expected secret action ruling now k h =
    elim (Bool-cases (not (str_eq secret expected))) [
      | inl e ↦ rw e h
      | inr g ↦ rw g (elim (Option-cases (find_where (action_is action) k.actions)) [
        | inl e ↦ rw (e, kleros_ruling) h
        | inr (a, e) ↦ rw (e, kleros_ruling) (ruling_found-IsConsistent ruling now k a h)
      ])
    ]

pub step-IsConsistent :
    (sv : Service) (c : Call) (w : World) → IsConsistent w.karma → IsConsistent (step sv c w).karma
unfolding step
step-IsConsistent sv (submit q id trail_id now) w h = submit-IsConsistent sv q id trail_id now w h
step-IsConsistent sv (attest action q id trail_id now) w h =
    attest-IsConsistent sv action q id trail_id now w h
step-IsConsistent sv (pay action note id now) w h = pay-IsConsistent action note id now w.karma h
step-IsConsistent sv (report action reporter reason id now) w h =
    report-IsConsistent action reporter reason id now w.karma h
step-IsConsistent sv (confirm action confirmer now) w h =
    confirm-IsConsistent action confirmer now w.karma h
step-IsConsistent sv (dispute action reporter reason id now) w h =
    dispute-IsConsistent action reporter reason id now w.karma h
step-IsConsistent sv (rule expected secret action ruling now) w h =
    rule-IsConsistent expected secret action ruling now w.karma h

-- Whatever sequence of calls is made, from a store in which no two actions share an identifier, no
-- attestor has attested one action twice, every attestation weighs from a quarter to two, no one has
-- reported one action twice and no action has two unresolved disputes, the store is again such.
pub always-IsConsistent :
    (sv : Service) (cs : List Call) (w : World)
    → IsConsistent w.karma
    → IsConsistent (run sv cs w).karma
unfolding run
always-IsConsistent sv [] w h = h
always-IsConsistent sv (c ∷ cs) w h =
    always-IsConsistent sv cs (step sv c w) (step-IsConsistent sv c w h)
