-- ===== src/Karma/Contest.antt =====
-- argentum.py: `report_action`, `confirm_slash`, `open_dispute` and `kleros_ruling`.
use argentum_core.Base.{
  ℕ, Bool, true, false, List, [], ◌∷◌, ◌++◌, none, some, String, ltb, ◌==◌, str_eq, if◌then◌else◌,
  ◌&&◌, not,
}
use argentum_core.Sql.{find_where, count_where, update_where, top_by, select_where}
use argentum_core.Karma.Store.{
  Status, pending, verified, slashed, disputed, Action, Attestation, Wisdom, Report, ReportStatus,
  open_report, confirmed, Dispute, DisputeStatus, unresolved, ruled_slash, ruled_clear,
  ruled_refused, KarmaDb,
}
use argentum_core.Karma.Wisdom.{entity_is, karma_of, penalised, slashed_poster}
use argentum_core.Karma.Actions.{action_is, set_status, is_genesis, witness_karma}

abbrev pub minimum_karma_to_dispute : ℕ
minimum_karma_to_dispute = 10

-- The refusals of the four handlers, by their condition; `done` where the call goes through.
pub data Reply : Type 0 where
  not_found wrong_status own_action already_reported not_genesis already_slashed no_open_report
        low_karma already_disputed unauthorised no_dispute id_taken done :
      Reply

abbrev pub is_verified : Status → Bool
is_verified verified = true
is_verified _ = false

abbrev pub is_slashed : Status → Bool
is_slashed slashed = true
is_slashed _ = false

abbrev pub is_disputed : Status → Bool
is_disputed disputed = true
is_disputed _ = false

abbrev pub is_open : ReportStatus → Bool
is_open open_report = true
is_open confirmed = false

abbrev pub is_unresolved : DisputeStatus → Bool
is_unresolved unresolved = true
is_unresolved _ = false

abbrev pub report_of : String → String → Report → Bool
report_of action reporter r = str_eq r.action_id action && str_eq r.reporter_id reporter

abbrev pub open_report_of : String → Report → Bool
open_report_of action r = str_eq r.action_id action && is_open r.status

abbrev pub report_is : String → Report → Bool
report_is id r = str_eq r.id id

unfoldable pub new_report : String → String → String → String → ℕ → Report
new_report id action reporter reason now = record {
  id = id;
  action_id = action;
  reporter_id = reporter;
  reason = reason;
  status = open_report;
  created_at = now;
  resolved_at = none;
}

unfoldable pub report_found : String → String → String → ℕ → KarmaDb → Action → Reply × KarmaDb
report_found reporter reason id now k a =
    if not (is_verified a.status)
    then (wrong_status, k)
    else if str_eq a.entity_id reporter
    then (own_action, k)
    else if ltb 0 (count_where (report_of a.id reporter) k.reports)
    then (already_reported, k)
    else if ltb 0 (count_where (report_is id) k.reports)
    then (id_taken, k)
    else (done, record k { reports = k.reports ++ new_report id a.id reporter reason now ∷ [] })

unfoldable pub report_action : String → String → String → String → ℕ → KarmaDb → Reply × KarmaDb
unfolding report_found
report_action action reporter reason id now k = elim (find_where (action_is action) k.actions) [
  | none ↦ (not_found, k)
  | some a ↦ report_found reporter reason id now k a
]

-- The loop over an action's attestors: each that is not a genesis attestor loses witness karma.
unfoldable pub penalise_attestors : String → List Attestation → List Wisdom → List Wisdom
penalise_attestors action [] ws = ws
penalise_attestors action (t ∷ ts) ws = penalise_attestors action ts (
    if str_eq t.action_id action
    then if is_genesis t.attester_id
      then ws
      else update_where (entity_is t.attester_id) (penalised witness_karma) ws
    else ws)

-- What both a confirmed slash and a ruling against the poster do to karma and to the action.
unfoldable pub slash : Action → KarmaDb → KarmaDb
slash a k = record k {
  wisdom =
      penalise_attestors a.id k.attestations
        (update_where (entity_is a.entity_id) (slashed_poster a.karma_value) k.wisdom);
  actions = set_status a.id slashed k.actions;
}

unfoldable pub confirm_reports : String → ℕ → List Report → List Report
confirm_reports action now =
    update_where (open_report_of action)
      (λ r. record r { status = confirmed; resolved_at = some now })

unfoldable pub slash_found : ℕ → KarmaDb → Action → Reply × KarmaDb
slash_found now k a =
    if is_slashed a.status
    then (already_slashed, k)
    else if not (ltb 0 (count_where (open_report_of a.id) k.reports))
    then (no_open_report, k)
    else (done, record (slash a k) { reports = confirm_reports a.id now k.reports })

unfoldable pub confirm_slash : String → String → ℕ → KarmaDb → Reply × KarmaDb
unfolding slash_found
confirm_slash action confirmer now k =
    if not (is_genesis confirmer)
    then (not_genesis, k)
    else elim (find_where (action_is action) k.actions) [
      | none ↦ (not_found, k)
      | some a ↦ slash_found now k a
    ]

abbrev pub unresolved_of : String → Dispute → Bool
unresolved_of action d = str_eq d.action_id action && is_unresolved d.status

abbrev pub dispute_is : String → Dispute → Bool
dispute_is id d = str_eq d.id id

unfoldable pub new_dispute : String → String → String → String → ℕ → Dispute
new_dispute id action reporter reason now = record {
  id = id;
  action_id = action;
  reporter_id = reporter;
  reason = reason;
  status = unresolved;
  ruling = none;
  created_at = now;
  resolved_at = none;
}

abbrev pub can_be_disputed : Status → Bool
can_be_disputed verified = true
can_be_disputed pending = true
can_be_disputed _ = false

unfoldable pub dispute_found : String → String → String → ℕ → KarmaDb → Action → Reply × KarmaDb
dispute_found reporter reason id now k a =
    if not (can_be_disputed a.status)
    then (wrong_status, k)
    else if str_eq a.entity_id reporter
    then (own_action, k)
    else if not (is_genesis reporter) && ltb (karma_of reporter k.wisdom) minimum_karma_to_dispute
    then (low_karma, k)
    else if ltb 0 (count_where (unresolved_of a.id) k.disputes)
    then (already_disputed, k)
    else if ltb 0 (count_where (dispute_is id) k.disputes)
    then (id_taken, k)
    else (
      done,
      record k {
        disputes = k.disputes ++ new_dispute id a.id reporter reason now ∷ [];
        actions = set_status a.id disputed k.actions;
      },
    )

unfoldable pub open_dispute : String → String → String → String → ℕ → KarmaDb → Reply × KarmaDb
unfolding dispute_found
open_dispute action reporter reason id now k = elim (find_where (action_is action) k.actions) [
  | none ↦ (not_found, k)
  | some a ↦ dispute_found reporter reason id now k a
]

unfoldable pub resolve : String → DisputeStatus → ℕ → ℕ → List Dispute → List Dispute
resolve id st ruling now =
    update_where (dispute_is id)
      (λ d. record d { status = st; ruling = some ruling; resolved_at = some now })

unfoldable pub ruling_on : ℕ → ℕ → KarmaDb → Action → Dispute → KarmaDb
ruling_on ruling now k a d =
    if ruling == 1
    then record (slash a k) { disputes = resolve d.id ruled_slash 1 now k.disputes }
    else record k {
      actions = set_status a.id verified k.actions;
      disputes =
          resolve d.id (if ruling == 2 then ruled_clear else ruled_refused) ruling now k.disputes;
    }

unfoldable pub ruling_found : ℕ → ℕ → KarmaDb → Action → Reply × KarmaDb
ruling_found ruling now k a =
    if not (is_disputed a.status)
    then (wrong_status, k)
    else elim (top_by (λ (d : Dispute). d.created_at)
        (select_where (unresolved_of a.id) k.disputes)) [
          | none ↦ (no_dispute, k)
          | some d ↦ (done, ruling_on ruling now k a d)
        ]

-- `secret` is the header, empty where it is missing, and `expected` is KLEROS_RULING_SECRET.
unfoldable pub kleros_ruling : String → String → String → ℕ → ℕ → KarmaDb → Reply × KarmaDb
unfolding ruling_found ruling_on
kleros_ruling expected secret action ruling now k =
    if not (str_eq secret expected)
    then (unauthorised, k)
    else elim (find_where (action_is action) k.actions) [
      | none ↦ (not_found, k)
      | some a ↦ ruling_found ruling now k a
    ]
