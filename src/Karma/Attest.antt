-- ===== src/Karma/Attest.antt =====
-- argentum.py: `attest_action` and the Lightning attestation of `payment_webhook`.
use argentum_core.Base.{
  ℕ, ◌-◌, ◌*◌, ◌/◌, ◌%◌, Bool, true, false, List, [], ◌∷◌, ◌++◌, Option, none, some, String, ltb,
  leb, str_eq, if◌then◌else◌, ◌&&◌, not,
}
use Prim.Native.Nat.{min, max}
use argentum_core.Sql.{find_where, count_where}
use argentum_core.Mycelium.Trails.{record_trail}
use argentum_core.Karma.Store.{Status, pending, verified, Action, Attestation, KarmaDb, World}
use argentum_core.Karma.Wisdom.{Award, upsert_wisdom, karma_of}
use argentum_core.Karma.Actions.{
  Service, action_is, set_verified, is_genesis, weight_threshold, attestations_needed,
  witness_karma, minimum_marks_to_attest, minimum_karma_to_attest, max_attestations_per_day,
  trail_request, nonce_or,
}

pub record AttestRequest : Type 0 where
  pub attester_id : String
  pub attester_name : String
  pub note : Option String
  pub nonce : Option String
  -- the verdict of `_verify_agent_signature`
  pub signature_ok : Bool
  -- the marks that the marks service reports, 0 on any error
  pub mark_count : ℕ

pub data AttestReply : Type 0 where
  not_found already_verified own_action already_attested rate_limited no_marks low_karma id_taken :
      AttestReply
  -- the weight of this attestation, the total weight, in their units, and whether the action is verified now
  attested : ℕ → ℕ → Bool → AttestReply

abbrev pub attests : String → String → Attestation → Bool
attests action attester t = str_eq t.action_id action && str_eq t.attester_id attester

-- `created_at >= today_start`
abbrev pub attests_since : String → ℕ → Attestation → Bool
attests_since attester start t = str_eq t.attester_id attester && leb start t.created_at

unfoldable pub attestations_today : List Attestation → String → ℕ → ℕ
attestations_today ts attester now = count_where (attests_since attester (now - now % 86400)) ts

-- `max(KARMA_WEIGHT_MIN, min(KARMA_WEIGHT_MAX, karma / KARMA_WEIGHT_BASE))`, in hundredths.
unfoldable pub karma_weight : ℕ → ℕ
karma_weight karma = max 50 (min 200 (karma * 100 / 50))

unfoldable pub attest_weight : AttestRequest → ℕ → ℕ
attest_weight q karma =
    if is_genesis q.attester_id
    then 100
    else if q.signature_ok
    then karma_weight karma
    else karma_weight karma / 2

-- The weights that `SUM(weight)` runs over for an action.
unfoldable pub weights_of : String → List Attestation → List ℕ
weights_of action [] = []
weights_of action (t ∷ ts) =
    if str_eq t.action_id action then t.weight ∷ weights_of action ts else weights_of action ts

-- `total_weight`
unfoldable pub total_weight : Service → String → List Attestation → ℕ
total_weight sv action ts = sv.sum_weights (weights_of action ts)

abbrev pub is_verified : Status → Bool
is_verified verified = true
is_verified _ = false

-- The refusals before the marks service is asked, in the order of the handler.
unfoldable pub attest_refusal : AttestRequest → Action → ℕ → KarmaDb → Option AttestReply
attest_refusal q a now k =
    if is_verified a.status
    then some already_verified
    else if str_eq a.entity_id q.attester_id
    then some own_action
    else if ltb 0 (count_where (attests a.id q.attester_id) k.attestations)
    then some already_attested
    else if not (is_genesis q.attester_id)
        && leb max_attestations_per_day (attestations_today k.attestations q.attester_id now)
    then some rate_limited
    else none

-- The refusals once it has answered; a genesis attestor is not asked about.
unfoldable pub marks_refusal : AttestRequest → KarmaDb → Option AttestReply
marks_refusal q k =
    if is_genesis q.attester_id
    then none
    else if ltb q.mark_count minimum_marks_to_attest
    then some no_marks
    else if ltb (karma_of q.attester_id k.wisdom) minimum_karma_to_attest
    then some low_karma
    else none

unfoldable pub new_attestation : AttestRequest → String → ℕ → String → ℕ → Attestation
new_attestation q action weight id now = record {
  id = id;
  action_id = action;
  attester_id = q.attester_id;
  attester_name = q.attester_name;
  note = q.note;
  created_at = now;
  weight = weight;
}

unfoldable pub poster_award : Action → ℕ → Award
poster_award a now = record {
  entity_id = a.entity_id;
  entity_name = a.entity_name;
  entity_type = a.entity_type;
  karma_delta = a.karma_value * 10;
  action = true;
  attestation = false;
  last_action = some now;
}

unfoldable pub witness_award : AttestRequest → Award
witness_award q = record {
  entity_id = q.attester_id;
  entity_name = q.attester_name;
  entity_type = "unknown";
  karma_delta = witness_karma * 10;
  action = false;
  attestation = true;
  last_action = none;
}

-- What a new attestation leads to when enough weight, or enough attestations, are there.
unfoldable pub verify_if : Bool → Action → ℕ → KarmaDb → KarmaDb
verify_if false a now k = k
verify_if true a now k = record k {
  actions = set_verified a.id now k.actions;
  wisdom = upsert_wisdom (poster_award a now) k.wisdom;
}

unfoldable pub attest_accepted :
    Service → AttestRequest → Action → ℕ → String → ℕ → KarmaDb → KarmaDb
attest_accepted sv q a weight id now k =
    let k' = record k {
      attestations = k.attestations ++ new_attestation q a.id weight id now ∷ [];
    } in
    let done = leb weight_threshold (total_weight sv a.id k'.attestations) in
    let k'' = verify_if done a now k' in
    record k'' { wisdom = upsert_wisdom (witness_award q) k''.wisdom }

-- `attester_karma`, which is 0 for a genesis attestor.
unfoldable pub attester_karma : AttestRequest → KarmaDb → ℕ
attester_karma q k = if is_genesis q.attester_id then 0 else karma_of q.attester_id k.wisdom

abbrev pub attestation_is : String → Attestation → Bool
attestation_is id t = str_eq t.id id

-- `attest_action` from the answer of the marks service on, with the row of the action as it was read before.
unfoldable pub finish_attest :
    Service → AttestRequest → String → String → ℕ → World → Action → AttestReply × World
finish_attest sv q id trail_id now w a =
    let k = w.karma in
    let weight = attest_weight q (attester_karma q k) in
    elim (marks_refusal q k) [
      | some refusal ↦ (refusal, w)
      | none ↦
          if ltb 0 (count_where (attestation_is id) k.attestations)
          then (id_taken, w)
          else let total =
              total_weight sv a.id (k.attestations ++ new_attestation q a.id weight id now ∷ []) in
            (
              attested weight total (leb weight_threshold total),
              record {
                karma = attest_accepted sv q a weight id now k;
                trails =
                    (record_trail sv.env
                      (trail_request sv q.attester_id "attest_action" (nonce_or q.nonce id)
                        (if is_genesis q.attester_id then none else some (attester_karma q k)))
                      now trail_id w.trails).1;
              },
            )
    ]

-- Where `attest_action` is when it asks the marks service: it has answered, or waits with the row
-- of the action. A genesis attestor's call goes on at once.
pub data Begun : Type 0 where
  refused : AttestReply → Begun
  waits : Action → Begun

unfoldable pub begin_found : AttestRequest → ℕ → KarmaDb → Action → Begun
begin_found q now k a = elim (attest_refusal q a now k) [ some r ↦ refused r | none ↦ waits a ]

unfoldable pub begin_attest : String → AttestRequest → ℕ → KarmaDb → Begun
begin_attest action q now k = elim (find_where (action_is action) k.actions) [
  | none ↦ refused not_found
  | some a ↦ begin_found q now k a
]

unfoldable pub attest_begun :
    Service → AttestRequest → String → String → ℕ → World → Begun → AttestReply × World
attest_begun sv q id trail_id now w (refused r) = (r, w)
attest_begun sv q id trail_id now w (waits a) = finish_attest sv q id trail_id now w a

-- A call that no other call overlaps.
unfoldable pub attest_action :
    Service → String → AttestRequest → String → String → ℕ → World → AttestReply × World
attest_action sv action q id trail_id now w =
    attest_begun sv q id trail_id now w (begin_attest action q now w.karma)

abbrev pub of_action : String → Attestation → Bool
of_action action t = str_eq t.action_id action

-- The attestation that a Lightning payment makes, of the column's default weight.
unfoldable pub lightning_attestation : String → String → ℕ → String → Attestation
lightning_attestation action note now id = record {
  id = id;
  action_id = action;
  attester_id = "lightning";
  attester_name = "Lightning Network";
  note = some note;
  created_at = now;
  weight = 100;
}

abbrev pub is_pending : Status → Bool
is_pending pending = true
is_pending _ = false

unfoldable pub lightning_found : String → String → ℕ → KarmaDb → Action → KarmaDb
lightning_found note id now k a =
    if is_pending a.status
    then (if ltb 0 (count_where (attests a.id "lightning") k.attestations)
        then k
        else if ltb 0 (count_where (attestation_is id) k.attestations)
        then k
        else let ts = k.attestations ++ lightning_attestation a.id note now id ∷ [] in
          verify_if (leb attestations_needed (count_where (of_action a.id) ts)) a now
            (record k { attestations = ts }))
    else k

-- What `payment_webhook` does for an `externalId` of `action:<id>` once the signature holds and a
-- payment was received; any exception leaves the store as it was.
unfoldable pub payment_attests : String → String → String → ℕ → KarmaDb → KarmaDb
unfolding lightning_found
payment_attests action note id now k = elim (find_where (action_is action) k.actions) [
  | none ↦ k
  | some a ↦ lightning_found note id now k a
]
