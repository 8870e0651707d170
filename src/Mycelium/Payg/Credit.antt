-- ===== src/Mycelium/Payg/Credit.antt =====
-- Credits are neither made nor lost: each operation changes the sum of all credits by what it
-- reports.
use argentum_core.Base.{
  ℕ, ◌+◌, ◌*◌, ◌≤◌, ◌<◌, ◌≡◌, refl, sym, ◌∙◌, Bool, List, [], ◌∷◌, ◌++◌, Option, none, some, String,
  true, arith, if◌then◌else◌, inl, inr, Option-cases,
}
use argentum_core.Sql.{
  find_where, count_where, update_where, count-update, count_mono, count-find_none, count-find_some,
}
use argentum_core.Mycelium.Store.{Account, Intent, TrailsDb}
use argentum_core.Mycelium.Payg.{
  key_is, can_pay, credited, debited, rekeyed, new_account, topup_payg, consume_payg_credit,
  create_payg_account, rotate_payg_account, fulfill_usdc_intent, fulfill_found, open_intent,
  set_payg_webhook, set_conformance_source, cleaned, or_none,
}

-- The sum of all credits.
pub sum_credits : List Account → ℕ
sum_credits [] = 0
sum_credits (a ∷ rs) = a.credit_trails + sum_credits rs

unfoldable pub total_credits : TrailsDb → ℕ
total_credits db = sum_credits db.accounts

-- The primary key of `payg_accounts`.
abbrev pub UniqueKeys : TrailsDb → Type 0
UniqueKeys db = (key : String) → count_where (key_is key) db.accounts ≤ 1

sum_credits-append :
    (rs bs : List Account) → sum_credits (rs ++ bs) ≡ sum_credits rs + sum_credits bs
unfolding sum_credits
sum_credits-append [] bs = omega arith
sum_credits-append (a ∷ rs) bs = omega (arith, sum_credits-append rs bs)

sum_credits-credited :
    (p : Account → Bool) (n now : ℕ) (rs : List Account)
    → sum_credits (update_where p (credited n now) rs) ≡ sum_credits rs + n * count_where p rs
unfolding sum_credits credited
sum_credits-credited p n now [] = omega arith
sum_credits-credited p n now (a ∷ rs) = ground (arith, sum_credits-credited p n now rs)

sum_credits-debited :
    (key : String) (now : ℕ) (rs : List Account)
    → sum_credits (update_where (can_pay key) (debited now) rs) + count_where (can_pay key) rs
      ≡ sum_credits rs
unfolding sum_credits debited
sum_credits-debited key now [] = refl
sum_credits-debited key now (a ∷ rs) = ground (arith, sum_credits-debited key now rs)

sum_credits-same :
    (p : Account → Bool) (f : Account → Account)
    → ((a : Account) → (f a).credit_trails ≡ a.credit_trails)
    → (rs : List Account) → sum_credits (update_where p f rs) ≡ sum_credits rs
unfolding sum_credits
sum_credits-same p f h [] = refl
sum_credits-same p f h (a ∷ rs) = ground (arith, h a, sum_credits-same p f h rs)

-- What a top-up reports rs added.
abbrev pub reported : ℕ → Option Account → ℕ
reported n none = 0
reported n (some a) = n

credited-key :
    (key k : String) (n now : ℕ) (rs : List Account)
    → count_where (key_is k) (update_where (key_is key) (credited n now) rs)
      ≡ count_where (key_is k) rs
unfolding credited
credited-key key k n now rs = count-update (key_is key) (key_is k) (credited n now) (λ a. refl) rs

-- Under the primary key, the sum grows by what the SELECT after the UPDATE reports.
credit_at_key :
    (key : String) (n now : ℕ) (rs : List Account)
    → count_where (key_is key) rs ≤ 1
    → sum_credits (update_where (key_is key) (credited n now) rs)
      ≡ sum_credits rs
        + reported n (find_where (key_is key) (update_where (key_is key) (credited n now) rs))
credit_at_key key n now rs u =
    rw (sum_credits-credited (key_is key) n now rs)
      (elim (Option-cases
        (find_where (key_is key) (update_where (key_is key) (credited n now) rs))) [
          | inl e ↦
              let z : count_where (key_is key) rs ≡ 0 =
                sym (credited-key key key n now rs) ∙ count-find_none (key_is key) _ e in
              rw (e, z) (omega arith)
          | inr (a, e) ↦
              let pos : 0 < count_where (key_is key) rs =
                rw (credited-key key key n now rs) at (count-find_some (key_is key) _ e) in
              let one : count_where (key_is key) rs ≡ 1 = omega arith in rw (e, one) (omega arith)
        ])

-- A top-up adds what it reports: its trails if the key is known, and nothing otherwise.
pub topup_payg-total :
    (key : String) (n now : ℕ) (db : TrailsDb)
    → UniqueKeys db
    → total_credits (topup_payg key n now db).1
      ≡ total_credits db + reported n (topup_payg key n now db).0
unfolding total_credits topup_payg
topup_payg-total key n now db u = credit_at_key key n now db.accounts (u key)

-- `consume_payg_credit` takes one credit if it says True, and none if it says False.
pub consume_payg_credit-total :
    (key : String) (now : ℕ) (db : TrailsDb)
    → UniqueKeys db
    → total_credits (consume_payg_credit key now db).1
        + (if (consume_payg_credit key now db).0 then 1 else 0)
      ≡ total_credits db
unfolding total_credits consume_payg_credit
consume_payg_credit-total key now db u =
    let below : count_where (can_pay key) db.accounts ≤ count_where (key_is key) db.accounts =
      count_mono (can_pay key) (key_is key) (λ a h. ground arith) db.accounts in
    ground (arith, sum_credits-debited key now db.accounts, u key)

-- What fulfilling an intent reports as added.
abbrev pub reported_intent : Option (Intent × Option Account) → ℕ
reported_intent none = 0
reported_intent (some (i, a)) = reported i.trails a

fulfill_found-total :
    (id tx : String) (now : ℕ) (db : TrailsDb) (o : Option Intent)
    → UniqueKeys db
    → total_credits (fulfill_found id tx now db o).1
      ≡ total_credits db + reported_intent (fulfill_found id tx now db o).0
unfolding total_credits fulfill_found
fulfill_found-total id tx now db none u = omega arith
fulfill_found-total id tx now db (some i) u =
    credit_at_key i.api_key i.trails now db.accounts (u i.api_key)

-- Fulfilling an intent adds its trails if its account is there, and nothing otherwise.
pub fulfill_usdc_intent-total :
    (id tx : String) (now : ℕ) (db : TrailsDb)
    → UniqueKeys db
    → total_credits (fulfill_usdc_intent id tx now db).1
      ≡ total_credits db + reported_intent (fulfill_usdc_intent id tx now db).0
unfolding fulfill_usdc_intent
fulfill_usdc_intent-total id tx now db u =
    fulfill_found-total id tx now db (find_where (open_intent id) db.intents) u

pub create_payg_account-total :
    (agent key : String) (now : ℕ) (db : TrailsDb)
    → total_credits (create_payg_account agent key now db).1 ≡ total_credits db
unfolding total_credits create_payg_account new_account sum_credits
create_payg_account-total agent key now db =
    ground (arith, sum_credits-append db.accounts (new_account key agent now ∷ []))

pub rotate_payg_account-total :
    (old new : String) (now : ℕ) (db : TrailsDb)
    → total_credits (rotate_payg_account old new now db).1 ≡ total_credits db
unfolding total_credits rotate_payg_account rekeyed
rotate_payg_account-total old new now db =
    ground (arith, sum_credits-same (key_is old) (rekeyed new now) (λ a. refl) db.accounts)

pub set_payg_webhook-total :
    (key : String) (url : Option String) (now : ℕ) (db : TrailsDb)
    → total_credits (set_payg_webhook key url now db).1 ≡ total_credits db
unfolding total_credits set_payg_webhook
set_payg_webhook-total key url now db = ground (
  arith,
  sum_credits-same (key_is key) (λ a. record a { notify_webhook = cleaned url; updated_at = now })
      (λ a. refl) db.accounts,
)

pub set_conformance_source-total :
    (key source : String) (now : ℕ) (db : TrailsDb)
    → total_credits (set_conformance_source key source now db).1 ≡ total_credits db
unfolding total_credits set_conformance_source
set_conformance_source-total key source now db =
    sum_credits-same (key_is key)
      (λ a. record a { conformance_source = or_none source; updated_at = now }) (λ a. refl)
      db.accounts

-- A credit that was taken and given back leaves the sum as it was.
pub refund-total :
    (key : String) (now later : ℕ) (db : TrailsDb)
    → UniqueKeys db
    → (consume_payg_credit key now db).0 ≡ true
    → total_credits (topup_payg key 1 later (consume_payg_credit key now db).1).1 ≡ total_credits db
unfolding total_credits consume_payg_credit topup_payg debited
refund-total key now later db u e =
    let below : count_where (can_pay key) db.accounts ≤ count_where (key_is key) db.accounts =
      count_mono (can_pay key) (key_is key) (λ a h. ground arith) db.accounts in
    let keys = count-update (can_pay key) (key_is key) (debited now) (λ a. refl) db.accounts in
    let taken = sum_credits-debited key now db.accounts in
    let given =
      sum_credits-credited (key_is key) 1 later
        (update_where (can_pay key) (debited now) db.accounts) in
    ground (arith, keys, taken, given, u key, e)
