-- ===== src/Karma/Tests.antt =====
-- The handlers of argentum.py on a small store.
use argentum_core.Base.{
  ℕ, ◌+◌, ◌*◌, ◌/◌, ◌^◌, ◌≡◌, refl, true, false, List, [], ◌∷◌, none, some, arith,
}
use argentum_core.Sql.{find_where, count_where}
use argentum_core.Mycelium.Store.{empty_db}
use argentum_core.Karma.Store.{
  pending, Action, Attestation, Wisdom, Report, open_report, KarmaDb, World, Status, verified,
  slashed, pending,
}
use argentum_core.Karma.Wisdom.{Award, karma_of, upsert_wisdom, awarded, first_award}
use argentum_core.Karma.Actions.{Submission, set_status, Service, action_is}
use argentum_core.Karma.Attest.{AttestRequest}
use argentum_core.Karma.Contest.{
  open_dispute, kleros_ruling, dispute_found, ruling_found, new_dispute, confirm_slash, slash_found,
  already_slashed, open_report_of,
}
use argentum_core.Karma.Steps.{Call, submit, attest, pay, report, confirm, dispute, rule, run}
use argentum_core.Karma.Invariant.{IsConsistent}
use argentum_core.Karma.Calls.{always-IsConsistent}
use argentum_core.Karma.Dispute.{IsMoved, cleared_is_verified}
use argentum_core.Karma.Slash.{slash_forgotten, HasReal}
use argentum_core.Karma.Once.{slash_once}
use argentum_core.Karma.Overlap.{overlap_attests_twice}
use argentum_core.Karma.Attest.{
  begin_attest, begin_found, attest_refusal, finish_attest, marks_refusal, attests,
  attestations_today, attester_karma, attest_accepted, verify_if, total_weight, weights_of,
  new_attestation, attest_weight, karma_weight, poster_award, witness_award,
}

abbrev sum_of : List ℕ → ℕ
sum_of [] = 0
sum_of (w ∷ ws) = w + sum_of ws

-- A sum that rounds once, down.
abbrev sum_down : List ℕ → ℕ
sum_down ws = sum_of ws * 2 ^ 54 / 100

abbrev service : Service
service = record {
  env = record { enterprise_agents = []; month_start = λ t. 0; sig_ref = λ n. "sig" };
  daily_cap = 50;
  sum_weights = sum_down;
}

abbrev build : Status → Action
build st = record {
  id = "a1";
  entity_id = "alice";
  entity_name = "Alice";
  entity_type = "agent";
  action_type = "BUILD";
  description = "a bridge";
  proof = none;
  status = st;
  karma_value = 20;
  created_at = 10;
  verified_at = none;
  signed = true;
}

-- A vote of weight 1.5 on it.
abbrev vote : Attestation
vote = record {
  id = "v1";
  action_id = "a1";
  attester_id = "bob";
  attester_name = "Bob";
  note = none;
  created_at = 20;
  weight = 150;
}

abbrev alice : Wisdom
alice = record {
  entity_id = "alice";
  entity_name = "Alice";
  entity_type = "agent";
  total_karma = 20;
  total_karma_real = some 200;
  verified_actions = 1;
  attestations_given = 0;
  last_action = some 30;
}

abbrev complaint : Report
complaint = record {
  id = "r1";
  action_id = "a1";
  reporter_id = "carol";
  reason = "no bridge";
  status = open_report;
  created_at = 40;
  resolved_at = none;
}

abbrev store : Status → KarmaDb
store st = record {
  actions = build st ∷ [];
  attestations = vote ∷ [];
  wisdom = alice ∷ [];
  reports = complaint ∷ [];
  disputes = [];
}

abbrev world : Status → World
world st = record { karma = store st; trails = empty_db }

store-IsConsistent : IsConsistent (store verified)
store-IsConsistent = record {
  one_action = λ id. ground arith;
  one_vote = λ x y. ground arith;
  weighed = ((omega arith, omega arith), tt);
  one_report = λ x y. ground arith;
  one_dispute = λ x. omega arith;
}

abbrev genesis : AttestRequest
genesis = record {
  attester_id = "giskard-self";
  attester_name = "Giskard";
  note = none;
  nonce = none;
  signature_ok = false;
  mark_count = 0;
}

abbrev history : List Call
history =
    report "a1" "dave" "no bridge" "r2" 50
    ∷ dispute "a1" "giskard-self" "no bridge" "d1" 60
    ∷ rule "secret" "secret" "a1" 1 70
    ∷ attest "a1" genesis "v2" "t2" 80
    ∷ pay "a1" "paid" "v3" 90
    ∷ confirm "a1" "lightning" 100
    ∷ []

always-IsConsistent_example : IsConsistent (run service history (world verified)).karma
always-IsConsistent_example =
    always-IsConsistent service history (world verified) store-IsConsistent

abbrev other_action : Submission
other_action = record {
  entity_id = "alice";
  entity_name = "Alice";
  entity_type = "agent";
  action_type = "HELP";
  description = "a ladder";
  proof = none;
  nonce = none;
  signature_ok = true;
}

-- Calls after the slash: reports, a payment and a dispute of the action, and another action.
abbrev aftermath : List Call
aftermath =
    report "a1" "dave" "no bridge" "r2" 55
    ∷ submit other_action "a2" "t2" 60
    ∷ attest "a2" genesis "v2" "t3" 65
    ∷ pay "a1" "paid" "v3" 70
    ∷ dispute "a1" "giskard-self" "no bridge" "d1" 75
    ∷ confirm "a1" "giskard-self" 80
    ∷ []

slash_once_example :
    (count_where
        (open_report_of "a1")
        (run service (confirm "a1" "lightning" 50 ∷ aftermath) (world verified)).karma.reports
      ≡ 0)
    × ((a : Action) × (find_where
            (action_is "a1")
            (run service (confirm "a1" "lightning" 50 ∷ aftermath) (world verified)).karma.actions
          ≡ some a)
        × (a.status ≡ slashed))
    × (confirm_slash "a1" "lightning" 90
          (run service (confirm "a1" "lightning" 50 ∷ aftermath) (world verified)).karma
        ≡ (
          already_slashed,
          (run service (confirm "a1" "lightning" 50 ∷ aftermath) (world verified)).karma,
        ))
    × ((kleros_ruling "secret" "secret" "a1" 1 90
          (run service (confirm "a1" "lightning" 50 ∷ aftermath) (world verified)).karma).1
        ≡ (run service (confirm "a1" "lightning" 50 ∷ aftermath) (world verified)).karma)
unfolding confirm_slash slash_found
slash_once_example =
    slash_once service aftermath (world verified) "a1" "lightning" "lightning" "secret" "secret" 50
      90 1 refl (refl, (refl, (refl, (refl, (refl, (refl, tt))))))

-- Five tenths for a signed trail.
abbrev tip : Award
tip = record {
  entity_id = "alice";
  entity_name = "Alice";
  entity_type = "agent";
  karma_delta = 5;
  action = false;
  attestation = false;
  last_action = none;
}

alice-HasReal : HasReal "alice" 200 (alice ∷ [])
alice-HasReal = record { row = alice; found = refl; real = refl }

slash_forgotten_example :
    karma_of "alice"
      (upsert_wisdom tip (confirm_slash "a1" "lightning" 50 (store verified)).1.wisdom)
    ≡ karma_of "alice" (upsert_wisdom tip (store verified).wisdom)
slash_forgotten_example = slash_forgotten "a1" "lightning" 50 200 (store verified) tip alice-HasReal

-- A pending action with one vote is disputed and cleared, and is then verified.
cleared_is_verified_example :
    IsMoved "a1"
      (build pending)
      verified
      (store pending)
      (kleros_ruling "secret" "secret" "a1" 2 70
        (open_dispute "a1" "giskard-self" "no bridge" "d1" 60 (store pending)).1).1
unfolding open_dispute kleros_ruling dispute_found ruling_found set_status new_dispute
cleared_is_verified_example =
    cleared_is_verified "a1" "giskard-self" "no bridge" "d1" "secret" "secret" 2 60 70
      (store pending) refl refl refl refl

-- A request of an agent with a mark, that it sends twice.
abbrev erin : AttestRequest
erin = record {
  attester_id = "erin";
  attester_name = "Erin";
  note = none;
  nonce = none;
  signature_ok = true;
  mark_count = 1;
}

overlap_attests_twice_example :
    count_where
      (attests "a1" "erin")
      (finish_attest service erin "v3" "t3" 90
        (finish_attest service erin "v2" "t2" 80 (world pending) (build pending)).1
        (build pending)).1.karma.attestations
    ≡ 2
unfolding begin_attest begin_found attest_refusal finish_attest marks_refusal attestations_today
    attester_karma karma_of attest_accepted upsert_wisdom verify_if total_weight weights_of
    new_attestation attest_weight karma_weight poster_award witness_award awarded first_award
overlap_attests_twice_example =
    overlap_attests_twice service "a1" erin erin "v2" "t2" "v3" "t3" 80 81 90 (world pending)
      {a = build pending} refl refl refl refl refl
