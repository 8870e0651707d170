-- ===== src/Mycelium/Payg/Ledger.antt =====
-- The accounts over any history of calls: no two share a key, and every credit is accounted for.
use argentum_core.Base.{
  ℕ, ◌+◌, ◌≤◌, ◌≡◌, refl, ap, Bool, false, List, [], ◌∷◌, Option, none, some, String, arith, str_eq,
  str_eq_iff, if◌then◌else◌, Bool-cases, inl, inr,
}
use argentum_core.Sql.{find_where, count_where, update_where, count-append, count-update}
use argentum_core.Mycelium.Store.{Account, Intent, TrailsDb}
use argentum_core.Mycelium.Payg.{
  key_is, can_pay, credited, debited, rekeyed, new_account, topup_payg, consume_payg_credit,
  create_payg_account, rotate_payg_account, fulfill_usdc_intent, fulfill_found, open_intent,
  set_payg_webhook, set_conformance_source, cleaned, or_none, create_usdc_intent,
}
use argentum_core.Mycelium.Payg.Credit.{
  total_credits, UniqueKeys, reported, reported_intent, topup_payg-total, consume_payg_credit-total,
  fulfill_usdc_intent-total, create_payg_account-total, rotate_payg_account-total,
  set_payg_webhook-total, set_conformance_source-total,
}

-- A call that writes accounts or intents, with the clock it reads and the identifier it draws.
pub data Op : Type 0 where
  create : String → String → ℕ → Op
  topup : String → ℕ → ℕ → Op
  consume : String → ℕ → Op
  webhook : String → Option String → ℕ → Op
  rotate : String → String → ℕ → Op
  intend : String → String → ℕ → String → ℕ → Op
  fulfill : String → String → ℕ → Op
  conform : String → String → ℕ → Op

unfoldable pub step : Op → TrailsDb → TrailsDb
step (create agent key now) db = (create_payg_account agent key now db).1
step (topup key n now) db = (topup_payg key n now db).1
step (consume key now) db = (consume_payg_credit key now db).1
step (webhook key url now) db = (set_payg_webhook key url now db).1
step (rotate old new now) db = (rotate_payg_account old new now db).1
step (intend key address trails id now) db = (create_usdc_intent key address trails id now db).1
step (fulfill id tx now) db = (fulfill_usdc_intent id tx now db).1
step (conform key source now) db = (set_conformance_source key source now db).1

-- The credits that a call reports to its caller as added, and as taken.
pub granted : Op → TrailsDb → ℕ
granted (topup key n now) db = reported n (topup_payg key n now db).0
granted (fulfill id tx now) db = reported_intent (fulfill_usdc_intent id tx now db).0
granted _ db = 0

pub spent : Op → TrailsDb → ℕ
spent (consume key now) db = if (consume_payg_credit key now db).0 then 1 else 0
spent _ db = 0

keep_keys :
    (p : Account → Bool) (f : Account → Account)
    → ((a : Account) → (f a).api_key ≡ a.api_key)
    → (k : String) (rs : List Account) → count_where (key_is k) rs ≤ 1
    → count_where (key_is k) (update_where p f rs) ≤ 1
keep_keys p f h k rs u = rw (count-update p (key_is k) f (λ a. ap (λ t. str_eq t k) (h a)) rs) u

rekeyed-count :
    (old new k : String) (now : ℕ) (rs : List Account)
    → str_eq new k ≡ false
    → count_where (key_is k) (update_where (key_is old) (rekeyed new now) rs)
      ≤ count_where (key_is k) rs
unfolding rekeyed
rekeyed-count old new k now [] h = omega arith
rekeyed-count old new k now (a ∷ rs) h = ground (arith, rekeyed-count old new k now rs h)

create-UniqueKeys :
    (agent key : String) (now : ℕ) (db : TrailsDb)
    → UniqueKeys db
    → UniqueKeys (create_payg_account agent key now db).1
unfolding create_payg_account new_account
create-UniqueKeys agent key now db u k = ground (
  arith,
  u k,
  u key,
  str_eq_iff key k,
  count-append (key_is k) db.accounts (new_account key agent now ∷ []),
)

rotate-UniqueKeys :
    (old new : String) (now : ℕ) (db : TrailsDb)
    → UniqueKeys db
    → UniqueKeys (rotate_payg_account old new now db).1
unfolding rotate_payg_account
rotate-UniqueKeys old new now db u k = elim (Bool-cases (str_eq new k)) [
  | inl same ↦ let e : new ≡ k = (str_eq_iff new k).0 same in rw (← e) (ground (arith, u new))
  | inr other ↦ ground (arith, u k, rekeyed-count old new k now db.accounts other)
]

fulfill-UniqueKeys :
    (id tx : String) (now : ℕ) (db : TrailsDb) (o : Option Intent)
    → UniqueKeys db
    → UniqueKeys (fulfill_found id tx now db o).1
unfolding fulfill_found credited
fulfill-UniqueKeys id tx now db none u k = u k
fulfill-UniqueKeys id tx now db (some i) u k =
    keep_keys (key_is i.api_key) (credited i.trails now) (λ a. refl) k db.accounts (u k)

pub step-UniqueKeys : (op : Op) (db : TrailsDb) → UniqueKeys db → UniqueKeys (step op db)
unfolding step
step-UniqueKeys (create agent key now) db u k = create-UniqueKeys agent key now db u k
step-UniqueKeys (topup key n now) db u k =
    unfold topup_payg credited in
    keep_keys (key_is key) (credited n now) (λ a. refl) k db.accounts (u k)
step-UniqueKeys (consume key now) db u k =
    unfold consume_payg_credit debited in
    keep_keys (can_pay key) (debited now) (λ a. refl) k db.accounts (u k)
step-UniqueKeys (webhook key url now) db u k =
    unfold set_payg_webhook in
    ground (
      arith,
      keep_keys (key_is key) (λ a. record a { notify_webhook = cleaned url; updated_at = now })
          (λ a. refl) k db.accounts (u k),
    )
step-UniqueKeys (rotate old new now) db u k = rotate-UniqueKeys old new now db u k
step-UniqueKeys (intend key address trails id now) db u k =
    unfold create_usdc_intent in ground (arith, u k)
step-UniqueKeys (fulfill id tx now) db u k =
    unfold fulfill_usdc_intent in
    fulfill-UniqueKeys id tx now db (find_where (open_intent id) db.intents) u k
step-UniqueKeys (conform key source now) db u k =
    unfold set_conformance_source in
    keep_keys (key_is key) (λ a. record a { conformance_source = or_none source; updated_at = now })
      (λ a. refl) k db.accounts (u k)

intend-total :
    (key address : String) (trails : ℕ) (id : String) (now : ℕ) (db : TrailsDb)
    → total_credits (create_usdc_intent key address trails id now db).1 ≡ total_credits db
unfolding create_usdc_intent total_credits
intend-total key address trails id now db = ground arith

step-total :
    (op : Op) (db : TrailsDb)
    → UniqueKeys db
    → total_credits (step op db) + spent op db ≡ total_credits db + granted op db
unfolding step granted spent
step-total (create agent key now) db u = omega (arith, create_payg_account-total agent key now db)
step-total (topup key n now) db u = omega (arith, topup_payg-total key n now db u)
step-total (consume key now) db u = omega (arith, consume_payg_credit-total key now db u)
step-total (webhook key url now) db u = omega (arith, set_payg_webhook-total key url now db)
step-total (rotate old new now) db u = omega (arith, rotate_payg_account-total old new now db)
step-total (intend key address trails id now) db u =
    omega (arith, intend-total key address trails id now db)
step-total (fulfill id tx now) db u = omega (arith, fulfill_usdc_intent-total id tx now db u)
step-total (conform key source now) db u =
    omega (arith, set_conformance_source-total key source now db)

unfoldable pub run : List Op → TrailsDb → TrailsDb
run [] db = db
run (op ∷ ops) db = run ops (step op db)

pub all_granted : List Op → TrailsDb → ℕ
all_granted [] db = 0
all_granted (op ∷ ops) db = granted op db + all_granted ops (step op db)

pub all_spent : List Op → TrailsDb → ℕ
all_spent [] db = 0
all_spent (op ∷ ops) db = spent op db + all_spent ops (step op db)

-- After any history of calls from a store in which no two accounts share a key, still none do,
-- and the sum of all credits has grown by what the calls reported as added, less the credits
-- they reported as taken.
pub credits_balance :
    (ops : List Op) (db : TrailsDb)
    → UniqueKeys db
    → UniqueKeys (run ops db)
      × (total_credits (run ops db) + all_spent ops db ≡ total_credits db + all_granted ops db)
unfolding run all_granted all_spent
credits_balance [] db u = (u, omega arith)
credits_balance (op ∷ ops) db u =
    let ih = credits_balance ops (step op db) (step-UniqueKeys op db u) in
    (ih.0, omega (arith, step-total op db u, ih.1))
