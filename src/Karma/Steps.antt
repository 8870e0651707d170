-- ===== src/Karma/Steps.antt =====
-- The calls of argentum.py that write actions, attestations, reports and disputes, as one step.
use argentum_core.Base.{ℕ, List, [], ◌∷◌, String}
use argentum_core.Karma.Store.{World}
use argentum_core.Karma.Actions.{Service, Submission, submit_action}
use argentum_core.Karma.Attest.{AttestRequest, attest_action, payment_attests}
use argentum_core.Karma.Contest.{report_action, confirm_slash, open_dispute, kleros_ruling}

-- A call with the clock it reads and the identifiers it draws; for a payment, the attestation it
-- makes, and for a ruling, the expected secret and the one in the header.
pub data Call : Type 0 where
  submit : Submission → String → String → ℕ → Call
  attest : String → AttestRequest → String → String → ℕ → Call
  pay : String → String → String → ℕ → Call
  report : String → String → String → String → ℕ → Call
  confirm : String → String → ℕ → Call
  dispute : String → String → String → String → ℕ → Call
  rule : String → String → String → ℕ → ℕ → Call

unfoldable pub step : Service → Call → World → World
step sv (submit q id trail_id now) w = (submit_action sv q id trail_id now w).1
step sv (attest action q id trail_id now) w = (attest_action sv action q id trail_id now w).1
step sv (pay action note id now) w = record w { karma = payment_attests action note id now w.karma }
step sv (report action reporter reason id now) w = record w {
  karma = (report_action action reporter reason id now w.karma).1;
}
step sv (confirm action confirmer now) w = record w {
  karma = (confirm_slash action confirmer now w.karma).1;
}
step sv (dispute action reporter reason id now) w = record w {
  karma = (open_dispute action reporter reason id now w.karma).1;
}
step sv (rule expected secret action ruling now) w = record w {
  karma = (kleros_ruling expected secret action ruling now w.karma).1;
}

unfoldable pub run : Service → List Call → World → World
run sv [] w = w
run sv (c ∷ cs) w = run sv cs (step sv c w)
