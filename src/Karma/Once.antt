-- ===== src/Karma/Once.antt =====
-- argentum.py: an action that was slashed stays so over later calls that do not attest it, and is
-- not slashed again.
use argentum_core.Base.{
  ℕ, ◌≡◌, refl, ◌∙◌, ap, Bool, false, List, [], ◌∷◌, ◌++◌, some, String, All, ltb, str_eq,
  str_eq_iff, if◌then◌else◌, not, Bool-cases, if-keeps, inl, inr, Option-cases,
}
use argentum_core.Sql.{find_where, count_where, find-holds}
use argentum_core.Karma.Store.{slashed, Action, KarmaDb, World}
use argentum_core.Karma.Actions.{
  Service, Submission, SubmitReply, submit_action, action_is, is_genesis, action_karma,
}
use argentum_core.Karma.Attest.{
  AttestRequest, AttestReply, new_attestation, attest_action, finish_attest, attest_begun,
  marks_refusal, attest_accepted, attestation_is,
}
use argentum_core.Karma.Contest.{
  confirm_slash, slash_found, kleros_ruling, ruling_found, open_report_of, done, already_slashed,
  not_genesis,
}
use argentum_core.Karma.Steps.{Call, submit, attest, pay, report, confirm, dispute, rule, step, run}
use argentum_core.Karma.Slash.{confirm_slash-IsSettled}
use argentum_core.Karma.Settled.{verify_if-IsSettled, row_added}
use argentum_core.Karma.Invariant.{begin_attest-cases}
use argentum_core.Karma.Stays.{
  Stays, pay-Stays, report-Stays, confirm-Stays, dispute-Stays, rule-Stays,
}

submit-Stays :
    (action : String) (sv : Service) (q : Submission) (id trail_id : String) (now : ℕ) (w : World)
    → Stays action w.karma
    → Stays action (submit_action sv q id trail_id now w).1.karma
unfolding submit_action
submit-Stays action sv q id trail_id now w h = elim (Option-cases (action_karma q.action_type)) [
  | inl e ↦ rw (e, submit_action) h
  | inr (karma, e) ↦
      rw (e, submit_action)
        (if-keeps (λ (x : SubmitReply × World). Stays action x.1.karma)
          (ltb 0 (count_where (action_is id) w.karma.actions)) (λ f. h)
          (λ f. row_added action _ w.karma.actions w.karma.reports h))
]

accepted-Stays :
    (action : String) (sv : Service) (q : AttestRequest) (a : Action) (weight : ℕ) (id : String)
    (now : ℕ) (k : KarmaDb)
    → str_eq a.id action ≡ false
    → Stays action k
    → Stays action (attest_accepted sv q a weight id now k)
unfolding attest_accepted
accepted-Stays action sv q a weight id now k other h =
    verify_if-IsSettled _ action a now
      (record k { attestations = k.attestations ++ new_attestation q a.id weight id now ∷ [] })
      other h

finish_attest-Stays :
    (action : String) (sv : Service) (q : AttestRequest) (id trail_id : String) (now : ℕ)
    (w : World) (a : Action)
    → str_eq a.id action ≡ false
    → Stays action w.karma
    → Stays action (finish_attest sv q id trail_id now w a).1.karma
unfolding finish_attest
finish_attest-Stays action sv q id trail_id now w a other h =
    elim (Option-cases (marks_refusal q w.karma)) [
      | inr (r, e) ↦ rw (e, finish_attest) h
      | inl e ↦
          rw (e, finish_attest)
            (if-keeps (λ (x : AttestReply × World). Stays action x.1.karma)
              (ltb 0 (count_where (attestation_is id) w.karma.attestations)) (λ f. h)
              (λ f. accepted-Stays action sv q a _ id now w.karma other h))
    ]

attest-Stays :
    (action b : String) (sv : Service) (q : AttestRequest) (id trail_id : String) (now : ℕ)
    (w : World)
    → str_eq b action ≡ false
    → Stays action w.karma
    → Stays action (attest_action sv b q id trail_id now w).1.karma
unfolding attest_action attest_begun
attest-Stays action b sv q id trail_id now w other h = elim (begin_attest-cases b q now w.karma) [
  | inl (r, e) ↦ rw (e, attest_action, attest_begun) h
  | inr (a, e, f, g) ↦
      let same : a.id ≡ b = (str_eq_iff a.id b).0 (find-holds (action_is b) w.karma.actions f) in
      let not_it : str_eq a.id action ≡ false = ap (λ x. str_eq x action) same ∙ other in
      rw (e, attest_action, attest_begun)
        (finish_attest-Stays action sv q id trail_id now w a not_it h)
]

-- The call attests the action.
abbrev pub attests_to : String → Call → Bool
attests_to action (attest b q id trail_id now) = str_eq b action
attests_to action _ = false

step-Stays :
    (action : String) (sv : Service) (c : Call) (w : World)
    → attests_to action c ≡ false
    → Stays action w.karma
    → Stays action (step sv c w).karma
unfolding step
step-Stays action sv (submit q id trail_id now) w other h =
    submit-Stays action sv q id trail_id now w h
step-Stays action sv (attest b q id trail_id now) w other h =
    attest-Stays action b sv q id trail_id now w other h
step-Stays action sv (pay b note id now) w other h = pay-Stays action b note id now w.karma h
step-Stays action sv (report b reporter reason id now) w other h =
    report-Stays action b reporter reason id now w.karma h
step-Stays action sv (confirm b confirmer now) w other h =
    confirm-Stays action b confirmer now w.karma h
step-Stays action sv (dispute b reporter reason id now) w other h =
    dispute-Stays action b reporter reason id now w.karma h
step-Stays action sv (rule expected secret b ruling now) w other h =
    rule-Stays action expected secret b ruling now w.karma h

run-Stays :
    (action : String) (sv : Service) (cs : List Call) (w : World)
    → All (λ c. attests_to action c ≡ false) cs
    → Stays action w.karma
    → Stays action (run sv cs w).karma
unfolding run
run-Stays action sv [] w others h = h
run-Stays action sv (c ∷ cs) w (other, others) h =
    run-Stays action sv cs (step sv c w) others (step-Stays action sv c w other h)

-- On a settled action every confirmation is refused.
settled-refused :
    (action confirmer : String) (now : ℕ) (k : KarmaDb)
    → Stays action k
    → confirm_slash action confirmer now k
      ≡ (if is_genesis confirmer then already_slashed else not_genesis, k)
unfolding confirm_slash slash_found
settled-refused action confirmer now k s = elim (Bool-cases (is_genesis confirmer)) [
  | inl g ↦ rw (g, s.found, s.is_now, confirm_slash, slash_found) refl
  | inr g ↦ rw g refl
]

-- So is every ruling.
settled-unruled :
    (expected secret action : String) (ruling now : ℕ) (k : KarmaDb)
    → Stays action k
    → (kleros_ruling expected secret action ruling now k).1 ≡ k
unfolding kleros_ruling ruling_found
settled-unruled expected secret action ruling now k s =
    elim (Bool-cases (not (str_eq secret expected))) [
      | inl e ↦ rw e refl
      | inr e ↦ rw (e, s.found, s.is_now, kleros_ruling, ruling_found) refl
    ]

-- Once a confirmation of a slash went through, then after any further calls on any actions, as long as
-- none of them attests this action, no report on it is open, its row is slashed, every
-- confirmation by anyone is refused and changes nothing, and no ruling on it changes anything: the slash
-- is carried out once.
pub slash_once :
    (sv : Service) (cs : List Call) (w : World) (action confirmer later expected secret : String)
    (now then_ ruling : ℕ)
    → (confirm_slash action confirmer now w.karma).0 ≡ done
    → All (λ c. attests_to action c ≡ false) cs
    → let after = (run sv (confirm action confirmer now ∷ cs) w).karma in
      (count_where (open_report_of action) after.reports ≡ 0)
      × ((a : Action) × (find_where (action_is action) after.actions ≡ some a)
          × (a.status ≡ slashed))
      × (confirm_slash action later then_ after
          ≡ (if is_genesis later then already_slashed else not_genesis, after))
      × ((kleros_ruling expected secret action ruling then_ after).1 ≡ after)
unfolding run step
slash_once sv cs w action confirmer later expected secret now then_ ruling e others =
    let s =
      run-Stays action sv cs (record w { karma = (confirm_slash action confirmer now w.karma).1 })
        others (confirm_slash-IsSettled action confirmer now w.karma e) in
    (
      s.settled,
      (s.row, s.found, s.is_now),
      settled-refused action later then_ _ s,
      settled-unruled expected secret action ruling then_ _ s,
    )
