-- ===== src/Karma/Overlap.antt =====
-- argentum.py: two calls of `attest_action` of which one starts before the other has come back from
-- the marks service.
use argentum_core.Base.{
  ℕ, ◌+◌, ◌≡◌, refl, sym, ap, ◌∙◌, Bool, true, false, [], ◌∷◌, ◌++◌, some, String, arith, ltb,
  str_eq_iff, str_eq_refl, Bool-cases, inl, inr, Option-cases,
}
use argentum_core.Sql.{count_where, count-append, find-holds}
use argentum_core.Karma.Store.{Action, KarmaDb, World}
use argentum_core.Karma.Actions.{Service, action_is}
use argentum_core.Karma.Attest.{
  AttestRequest, AttestReply, attested, attests, attest_accepted, finish_attest, begin_attest,
  waits, verify_if, marks_refusal, new_attestation, attest_weight, attester_karma, attestation_is,
}
use argentum_core.Karma.Invariant.{begin_attest-cases, refusal-fresh}

abbrev pub is_attested : AttestReply → Bool
is_attested (attested weight total now_verified) = true
is_attested _ = false

verify_if-attestations :
    (b : Bool) (now : ℕ) (k : KarmaDb) (a : Action)
    → (verify_if b a now k).attestations ≡ k.attestations
unfolding verify_if
verify_if-attestations false now k a = refl
verify_if-attestations true now k a = refl

accepted-count :
    (sv : Service) (q : AttestRequest) (a : Action) (weight : ℕ) (id : String) (now : ℕ)
    (k : KarmaDb)
    → count_where (attests a.id q.attester_id) (attest_accepted sv q a weight id now k).attestations
      ≡ count_where (attests a.id q.attester_id) k.attestations + 1
unfolding attest_accepted new_attestation
accepted-count sv q a weight id now k =
    let t = new_attestation q a.id weight id now in
    let same_action = str_eq_refl a.id in
    let same_attester = str_eq_refl q.attester_id in
    let added = count-append (attests a.id q.attester_id) k.attestations (t ∷ []) in
    ap (count_where (attests a.id q.attester_id))
      (verify_if-attestations _ now (record k { attestations = k.attestations ++ t ∷ [] }) a)
    ∙ ground arith

marks_refusal-attests :
    (q : AttestRequest) (k : KarmaDb) {r : AttestReply}
    → marks_refusal q k ≡ some r
    → is_attested r ≡ true
    → ⊥
unfolding marks_refusal
marks_refusal-attests q k {r} m e = ground arith

-- A call that comes to its end adds one attestation of its attestor.
finish_attest-count :
    (sv : Service) (q : AttestRequest) (id trail_id : String) (now : ℕ) (w : World) (a : Action)
    → is_attested (finish_attest sv q id trail_id now w a).0 ≡ true
    → count_where
        (attests a.id q.attester_id)
        (finish_attest sv q id trail_id now w a).1.karma.attestations
      ≡ count_where (attests a.id q.attester_id) w.karma.attestations + 1
unfolding finish_attest
finish_attest-count sv q id trail_id now w a e = elim (Option-cases (marks_refusal q w.karma)) [
  | inr (r, m) ↦ absurd (marks_refusal-attests q w.karma m (rw (m, finish_attest) at e))
  | inl m ↦ elim (Bool-cases (ltb 0 (count_where (attestation_is id) w.karma.attestations))) [
    | inl taken ↦ let e' = rw (m, finish_attest, taken) at e in absurd (ground (arith, e'))
    | inr fresh ↦
        rw (m, finish_attest, fresh)
          (accepted-count sv q a (attest_weight q (attester_karma q w.karma)) id now w.karma)
  ]
]

-- A call that waits for the marks service has found its action, and no attestation on it by its attestor.
waits-fresh :
    (action : String) (q : AttestRequest) (now : ℕ) (k : KarmaDb) {a : Action}
    → begin_attest action q now k ≡ waits a
    → (a.id ≡ action) × (count_where (attests a.id q.attester_id) k.attestations ≡ 0)
waits-fresh action q now k {a} e = elim (begin_attest-cases action q now k) [
  | inl (r, f) ↦ cc
  | inr (b, f, found, ok) ↦
      let same : b ≡ a = cc in
      let at : b.id ≡ action =
        (str_eq_iff b.id action).0 (find-holds (action_is action) k.actions found) in
      rw (← same) (at, refusal-fresh q b now k ok)
]

-- When two calls of one attestor on one action have both passed the checks made before the marks service
-- is asked, on the same store, and then both come to their end one after the other and
-- answer that they attested, the action has two attestations of that attestor.
pub overlap_attests_twice :
    (sv : Service) (action : String) (q r : AttestRequest)
    (id trail_id other_id other_trail_id : String) (now started later : ℕ) (w : World) {a : Action}
    → begin_attest action q now w.karma ≡ waits a
    → begin_attest action r started w.karma ≡ waits a
    → r.attester_id ≡ q.attester_id
    → is_attested (finish_attest sv q id trail_id now w a).0 ≡ true
    → is_attested
        (finish_attest sv r other_id other_trail_id later
          (finish_attest sv q id trail_id now w a).1
          a).0
      ≡ true
    → count_where
        (attests action q.attester_id)
        (finish_attest sv r other_id other_trail_id later
          (finish_attest sv q id trail_id now w a).1
          a).1.karma.attestations
      ≡ 2
overlap_attests_twice sv action q r id trail_id other_id other_trail_id now started later w {a} b c
      same x y =
    let (at, none_yet) = waits-fresh action q now w.karma b in
    let one = finish_attest-count sv q id trail_id now w a x in
    let two =
      finish_attest-count sv r other_id other_trail_id later
        (finish_attest sv q id trail_id now w a).1 a y in
    let first = (finish_attest sv q id trail_id now w a).1 in
    let both = (finish_attest sv r other_id other_trail_id later first a).1 in
    ap (λ z. count_where (attests action z) both.karma.attestations) (sym same)
    ∙ ap (λ z. count_where (attests z r.attester_id) both.karma.attestations) (sym at)
    ∙ two
    ∙ ap (λ n. n + 1)
        (ap (λ z. count_where (attests a.id z) first.karma.attestations) same
          ∙ one
          ∙ ap (λ n. n + 1) none_yet)
