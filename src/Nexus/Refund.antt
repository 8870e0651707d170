-- ===== src/Nexus/Refund.antt =====
-- The credit that `nexus_trail` takes and gives back.
use argentum_core.Base.{
  ℕ, ◌+◌, ◌≡◌, refl, ap, ◌∙◌, Bool, true, Option, none, some, String, arith, Bool-cases, inl, inr,
  if-keeps, if◌then◌else◌, Option-cases, leb,
}
use native.Mathlib.Nat.{add-zero}
use argentum_core.Bytes.{bytes_eq}
use argentum_core.Json.{Text, codes}
use argentum_core.ActionRef.{Preimage, Fault, validate_domain}
use argentum_core.Mycelium.Payg.{
  get_payg_account_by_agent, consume_payg_credit, get_payg_account, record_billing_event,
}
use argentum_core.Mycelium.Store.{TrailsDb, Account}
use argentum_core.Mycelium.Trails.{
  record_trail, Outcome, returned, integrity_error, TrailRequest, Env, bad_status,
  set_trail_preimage, set_trail_action_ref, update_trail, monthly_limit_free,
  count_trails_this_month,
}
use argentum_core.Mycelium.Payg.Credit.{
  total_credits, UniqueKeys, refund-total, consume_payg_credit-total,
}
use argentum_core.Nexus.{
  Setup, Receipt, NexusReply, committed, failed, nexus_trail, nexus_domain, nexus_expected,
  nexus_checked, nexus_paid, nexus_recorded, pay, pay_found, refund, Payment, nexus_stamped,
  preimage_of, expected, billed, limit_reply, monthly_limit_exceeded, rate_limit_exceeded,
}

-- What a call has cost, by its reply and whether a credit was taken before `record_trail`.
abbrev pub cost : NexusReply → Bool → ℕ
cost (committed id) taken = if taken then 1 else 0
cost failed taken = if taken then 1 else 0
cost r taken = 0

-- The credits that are left and the cost of the reply make up the credits of db.
abbrev Accounted : TrailsDb → Bool → NexusReply × TrailsDb → Type 0
Accounted db taken r = total_credits r.1 + cost r.0 taken ≡ total_credits db

nothing_recorded :
    (env : Env) (q : TrailRequest) (now : ℕ) (id : String) (db : TrailsDb)
    → (record_trail env q now id db).0 ≡ returned none
    → (record_trail env q now id db).1 ≡ db
unfolding record_trail
nothing_recorded env q now id db e = ground arith

record_trail-total :
    (env : Env) (q : TrailRequest) (now : ℕ) (id : String) (db : TrailsDb)
    → total_credits (record_trail env q now id db).1 ≡ total_credits db
unfolding record_trail total_credits
record_trail-total env q now id db = ground arith

record_billing_event-total :
    (key agent trail month : String) (now : ℕ) (db : TrailsDb)
    → total_credits (record_billing_event key agent trail now month db) ≡ total_credits db
unfolding record_billing_event total_credits
record_billing_event-total key agent trail month now db = ground arith

-- What follows a trail that was recorded takes no credit.
billed-total :
    (s : Setup) (q : Receipt) (now : ℕ) (id : String) (db : TrailsDb)
    → total_credits (billed s q now id db) ≡ total_credits db
unfolding billed
billed-total s q now id db = elim (Option-cases q.api_key) [
  | inl e ↦ rw (e, billed) refl
  | inr (key, e) ↦ elim (Option-cases (get_payg_account db key)) [
    | inl f ↦ rw (e, billed, f) refl
    | inr (a, f) ↦
        rw (e, billed, f)
          (if-keeps (λ (d : TrailsDb). total_credits d ≡ total_credits db) _ (λ g. refl)
            (λ g. record_billing_event-total key a.agent_id id (s.month now) now db))
  ]
]

marked-total :
    (id ref preimage : String) (db : TrailsDb)
    → total_credits (set_trail_preimage id preimage (set_trail_action_ref id ref db))
      ≡ total_credits db
unfolding set_trail_preimage set_trail_action_ref update_trail total_credits
marked-total id ref preimage db = refl

limit_reply-cost :
    (s : Setup) (q : Receipt) (now : ℕ) (db : TrailsDb) (taken : Bool)
    → cost (limit_reply s q now db) taken ≡ 0
unfolding limit_reply
limit_reply-cost s q now db taken =
    if-keeps (λ r. cost r taken ≡ 0)
      (leb monthly_limit_free (count_trails_this_month s.env db q.agent_id now))
      {x = monthly_limit_exceeded} {y = rate_limit_exceeded} (λ e. refl) (λ e. refl)

recorded-Accounted :
    (s : Setup) (q : Receipt) (now : ℕ) (p : Payment) (db paid : TrailsDb)
    (x : Outcome (Option String) × TrailsDb)
    → (x.0 ≡ returned none → x.1 ≡ paid)
    → total_credits x.1 ≡ total_credits paid
    → total_credits paid + (if p.consumed then 1 else 0) ≡ total_credits db
    → total_credits (refund p now paid) ≡ total_credits db
    → Accounted db p.consumed (nexus_recorded s q now p x)
unfolding nexus_recorded
recorded-Accounted s q now p db paid (integrity_error, d) h same taken back =
    ap (λ n. n + (if p.consumed then 1 else 0)) same ∙ taken
recorded-Accounted s q now p db paid (returned none, d) h same taken back =
    let kept = ap (λ y. total_credits (refund p now y)) (h refl) ∙ back in
    let free = limit_reply-cost s q now (refund p now d) p.consumed in omega (arith, kept, free)
recorded-Accounted s q now p db paid (returned (some id), d) h same taken back =
    ap (λ n. n + (if p.consumed then 1 else 0))
      (billed-total s q now id _ ∙ marked-total id q.action_ref (s.preimage q) d ∙ same)
    ∙ taken

refund-pay_found :
    (now : ℕ) (db : TrailsDb) (o : Option Account)
    → UniqueKeys db
    → total_credits (refund (pay_found now db o).0 now (pay_found now db o).1) ≡ total_credits db
unfolding refund pay_found
refund-pay_found now db none u = refl
refund-pay_found now db (some a) u = elim (Bool-cases (consume_payg_credit a.api_key now db).0) [
  | inl e ↦ rw e (refund-total a.api_key now now db u e)
  | inr e ↦
      let t = rw e at (consume_payg_credit-total a.api_key now db u) in rw e (omega (arith, t))
]

refund-pay :
    (q : Receipt) (now : ℕ) (db : TrailsDb)
    → UniqueKeys db
    → total_credits (refund (pay q now db).0 now (pay q now db).1) ≡ total_credits db
unfolding pay
refund-pay q now db u = refund-pay_found now db (get_payg_account_by_agent db q.agent_id) u

taken-pay_found :
    (now : ℕ) (db : TrailsDb) (o : Option Account)
    → UniqueKeys db
    → total_credits (pay_found now db o).1 + (if (pay_found now db o).0.consumed then 1 else 0)
      ≡ total_credits db
unfolding pay_found
taken-pay_found now db none u = add-zero _
taken-pay_found now db (some a) u = consume_payg_credit-total a.api_key now db u

taken-pay :
    (q : Receipt) (now : ℕ) (db : TrailsDb)
    → UniqueKeys db
    → total_credits (pay q now db).1 + (if (pay q now db).0.consumed then 1 else 0)
      ≡ total_credits db
unfolding pay
taken-pay q now db u = taken-pay_found now db (get_payg_account_by_agent db q.agent_id) u

paid-Accounted :
    (s : Setup) (q : Receipt) (now : ℕ) (id : String) (db : TrailsDb)
    → UniqueKeys db
    → Accounted db (pay q now db).0.consumed (nexus_paid s q now id (pay q now db))
unfolding nexus_paid
paid-Accounted s q now id db u =
    recorded-Accounted s q now (pay q now db).0 db (pay q now db).1 _
      (nothing_recorded s.env _ now id (pay q now db).1)
      (record_trail-total s.env _ now id (pay q now db).1) (taken-pay q now db u)
      (refund-pay q now db u)

checked-Accounted :
    (s : Setup) (q : Receipt) (now : ℕ) (id : String) (db : TrailsDb)
    → UniqueKeys db
    → Accounted db (pay q now db).0.consumed (nexus_checked s q now id db)
unfolding nexus_checked
checked-Accounted s q now id db u =
    let P = Accounted db (pay q now db).0.consumed in
    if-keeps P (bad_status q.negotiation_ref_status) (λ e. add-zero _)
      (λ e. if-keeps P _ (λ e. add-zero _) (λ e. paid-Accounted s q now id db u))

expected-Accounted :
    (s : Setup) (q : Receipt) (now : ℕ) (id : String) (db : TrailsDb) (o : Option Text)
    → UniqueKeys db
    → Accounted db (pay q now db).0.consumed (nexus_expected s q now id db o)
unfolding nexus_expected
expected-Accounted s q now id db none u = add-zero _
expected-Accounted s q now id db (some e) u =
    if-keeps (Accounted db (pay q now db).0.consumed) (bytes_eq (codes q.action_ref) e)
      (λ e. checked-Accounted s q now id db u) (λ e. add-zero _)

domain-Accounted :
    (s : Setup) (q : Receipt) (now : ℕ) (id : String) (db : TrailsDb) (p : Preimage)
    (o : Option Fault)
    → UniqueKeys db
    → Accounted db (pay q now db).0.consumed (nexus_domain s q now id db p o)
unfolding nexus_domain
domain-Accounted s q now id db p (some f) u = add-zero _
domain-Accounted s q now id db p none u = expected-Accounted s q now id db (expected s p) u

stamped-Accounted :
    (s : Setup) (q : Receipt) (now : ℕ) (id : String) (db : TrailsDb) (o : Option String)
    → UniqueKeys db
    → Accounted db (pay q now db).0.consumed (nexus_stamped s q now id db o)
unfolding nexus_stamped
stamped-Accounted s q now id db none u = add-zero _
stamped-Accounted s q now id db (some ts) u =
    domain-Accounted s q now id db (preimage_of q ts) (validate_domain true (preimage_of q ts)) u

-- Whatever a call of nexus_trail replies, where no two accounts share a key, the sum of all credits
-- afterwards and the cost of the reply make up the sum before. A committed trail costs the credit that
-- was taken for it, if one was, and so does a call whose record_trail raised; every other reply,
-- the limits' included, costs nothing, since a credit that was taken is given back.
pub credit_accounted :
    (s : Setup) (q : Receipt) (now : ℕ) (id : String) (db : TrailsDb)
    → UniqueKeys db
    → total_credits (nexus_trail s q now id db).1
        + cost (nexus_trail s q now id db).0 (pay q now db).0.consumed
      ≡ total_credits db
unfolding nexus_trail
credit_accounted s q now id db u =
    if-keeps (Accounted db (pay q now db).0.consumed) _ (λ e. add-zero _)
      (λ e. stamped-Accounted s q now id db q.timestamp u)
