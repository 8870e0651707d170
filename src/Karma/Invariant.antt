-- ===== src/Karma/Invariant.antt =====
-- What every history of calls keeps: one row for an action, one vote of an attestor on an action,
-- one report, one open dispute.
use argentum_core.Base.{
  ℕ, ◌≤◌, ◌≡◌, refl, Bool, true, false, List, [], ◌∷◌, ◌++◌, none, some, ◌⊎◌, String, arith, All,
  ltb, str_eq_iff, Bool-cases, inl, inr, Option-cases,
}
use argentum_core.Sql.{find_where, count_where, count-append, count-update}
use argentum_core.Karma.Store.{
  Action, Attestation, Report, Dispute, DisputeStatus, KarmaDb, World, Status,
}
use argentum_core.Karma.Actions.{
  Service, Submission, submit_action, action_is, set_status, set_verified, new_action, action_karma,
}
use argentum_core.Karma.Attest.{
  AttestRequest, attest_refusal, attest_accepted, refused, waits, begin_attest, begin_found,
  AttestReply, attests, new_attestation, verify_if, attest_weight,
}
use argentum_core.Karma.Weight.{attest_weight-bounds}
use argentum_core.Karma.Contest.{report_of, unresolved_of, is_unresolved, resolve}

abbrev pub IsWeighed : Attestation → Type 0
IsWeighed t = (25 ≤ t.weight) × (t.weight ≤ 200)

pub record IsConsistent (k : KarmaDb) : Type 0 where
  pub one_action : (id : String) → count_where (action_is id) k.actions ≤ 1
  pub one_vote :
      (action attester : String) → count_where (attests action attester) k.attestations ≤ 1
  pub weighed : All IsWeighed k.attestations
  pub one_report :
      (action reporter : String) → count_where (report_of action reporter) k.reports ≤ 1
  pub one_dispute : (action : String) → count_where (unresolved_of action) k.disputes ≤ 1

pub vote-append :
    (ts : List Attestation) (t : Attestation)
    → ((x y : String) → count_where (attests x y) ts ≤ 1)
    → count_where (attests t.action_id t.attester_id) ts ≡ 0
    → (x y : String) → count_where (attests x y) (ts ++ t ∷ []) ≤ 1
vote-append ts t u e x y = ground (
  arith,
  u x y,
  count-append (attests x y) ts (t ∷ []),
  str_eq_iff t.action_id x,
  str_eq_iff t.attester_id y,
)

pub IsWeighed-append :
    (ts : List Attestation) (t : Attestation)
    → All IsWeighed ts
    → IsWeighed t
    → All IsWeighed (ts ++ t ∷ [])
IsWeighed-append [] t h g = (g, tt)
IsWeighed-append (s ∷ ts) t (p, h) g = (p, IsWeighed-append ts t h g)

pub report-append :
    (rs : List Report) (r : Report)
    → ((x y : String) → count_where (report_of x y) rs ≤ 1)
    → count_where (report_of r.action_id r.reporter_id) rs ≡ 0
    → (x y : String) → count_where (report_of x y) (rs ++ r ∷ []) ≤ 1
report-append rs r u e x y = ground (
  arith,
  u x y,
  count-append (report_of x y) rs (r ∷ []),
  str_eq_iff r.action_id x,
  str_eq_iff r.reporter_id y,
)

pub dispute-append :
    (ds : List Dispute) (d : Dispute)
    → ((x : String) → count_where (unresolved_of x) ds ≤ 1)
    → count_where (unresolved_of d.action_id) ds ≡ 0
    → (x : String) → count_where (unresolved_of x) (ds ++ d ∷ []) ≤ 1
dispute-append ds d u e x =
    ground (arith, u x, count-append (unresolved_of x) ds (d ∷ []), str_eq_iff d.action_id x)

action-append :
    (rows : List Action) (a : Action)
    → ((x : String) → count_where (action_is x) rows ≤ 1)
    → count_where (action_is a.id) rows ≡ 0
    → (x : String) → count_where (action_is x) (rows ++ a ∷ []) ≤ 1
action-append rows a u e x =
    ground (arith, u x, count-append (action_is x) rows (a ∷ []), str_eq_iff a.id x)

pub resolve-count :
    (x id : String) (st : DisputeStatus) (ruling now : ℕ)
    → is_unresolved st ≡ false
    → (ds : List Dispute)
    → count_where (unresolved_of x) (resolve id st ruling now ds) ≤ count_where (unresolved_of x) ds
unfolding resolve
resolve-count x id st ruling now h [] = omega arith
resolve-count x id st ruling now h (d ∷ ds) = ground (arith, resolve-count x id st ruling now h ds)

pub set_status-count :
    (x id : String) (st : Status) (rows : List Action)
    → count_where (action_is x) (set_status id st rows) ≡ count_where (action_is x) rows
unfolding set_status
set_status-count x id st rows =
    count-update (action_is id) (action_is x) (λ a. record a { status = st }) (λ a. refl) rows

set_verified-count :
    (x id : String) (now : ℕ) (rows : List Action)
    → count_where (action_is x) (set_verified id now rows) ≡ count_where (action_is x) rows
unfolding set_verified
set_verified-count x id now rows = count-update (action_is id) (action_is x) _ (λ a. refl) rows

pub verify_if-IsConsistent :
    (b : Bool) (a : Action) (now : ℕ) (k : KarmaDb)
    → IsConsistent k
    → IsConsistent (verify_if b a now k)
unfolding verify_if
verify_if-IsConsistent false a now k h = h
verify_if-IsConsistent true a now k h = record {
  one_action = λ x. rw (set_verified-count x a.id now k.actions) (h.one_action x);
  one_vote = h.one_vote;
  weighed = h.weighed;
  one_report = h.one_report;
  one_dispute = h.one_dispute;
}

pub submit-IsConsistent :
    (sv : Service) (q : Submission) (id trail_id : String) (now : ℕ) (w : World)
    → IsConsistent w.karma
    → IsConsistent (submit_action sv q id trail_id now w).1.karma
unfolding submit_action
submit-IsConsistent sv q id trail_id now w h = elim (Option-cases (action_karma q.action_type)) [
  | inl e ↦ rw (e, submit_action) h
  | inr (karma, e) ↦
      rw (e, submit_action)
        (elim (Bool-cases (ltb 0 (count_where (action_is id) w.karma.actions))) [
          | inl taken ↦ rw taken h
          | inr fresh ↦ rw fresh (record {
            one_action =
                action-append w.karma.actions (new_action q karma id now) h.one_action
                  (unfold new_action in ground arith);
            one_vote = h.one_vote;
            weighed = h.weighed;
            one_report = h.one_report;
            one_dispute = h.one_dispute;
          })
        ])
]

pub accepted-IsConsistent :
    (sv : Service) (q : AttestRequest) (a : Action) (karma : ℕ) (id : String) (now : ℕ)
    (k : KarmaDb)
    → count_where (attests a.id q.attester_id) k.attestations ≡ 0
    → IsConsistent k
    → IsConsistent (attest_accepted sv q a (attest_weight q karma) id now k)
unfolding attest_accepted
accepted-IsConsistent sv q a karma id now k e h =
    let t = new_attestation q a.id (attest_weight q karma) id now in
    let h' : IsConsistent (record k { attestations = k.attestations ++ t ∷ [] }) = record {
      one_action = h.one_action;
      one_vote = vote-append k.attestations t h.one_vote (unfold new_attestation in e);
      weighed =
          IsWeighed-append k.attestations t h.weighed
            (unfold new_attestation in attest_weight-bounds q karma);
      one_report = h.one_report;
      one_dispute = h.one_dispute;
    } in
    let v = verify_if-IsConsistent _ a now _ h' in
    record {
      one_action = v.one_action;
      one_vote = v.one_vote;
      weighed = v.weighed;
      one_report = v.one_report;
      one_dispute = v.one_dispute;
    }

pub refusal-fresh :
    (q : AttestRequest) (a : Action) (now : ℕ) (k : KarmaDb)
    → attest_refusal q a now k ≡ none
    → count_where (attests a.id q.attester_id) k.attestations ≡ 0
unfolding attest_refusal
refusal-fresh q a now k e = ground arith

-- How far a call of attest_action comes before it waits.
pub begin_attest-cases :
    (action : String) (q : AttestRequest) (now : ℕ) (k : KarmaDb)
    → ((r : AttestReply) × (begin_attest action q now k ≡ refused r))
      ⊎ ((a : Action) × (begin_attest action q now k ≡ waits a)
          × (find_where (action_is action) k.actions ≡ some a)
          × (attest_refusal q a now k ≡ none))
unfolding begin_attest begin_found
begin_attest-cases action q now k = elim (Option-cases (find_where (action_is action) k.actions)) [
  | inl f ↦ inl (AttestReply.not_found, rw (f, begin_attest) refl)
  | inr (a, f) ↦ elim (Option-cases (attest_refusal q a now k)) [
    | inl e ↦ inr (a, rw (f, begin_attest, begin_found, e) refl, f, e)
    | inr (r, e) ↦ inl (r, rw (f, begin_attest, begin_found, e) refl)
  ]
]
