-- ===== src/Mycelium/Payg.antt =====
-- mycelium_trails.py: prepaid accounts, USDC intents, replay nonces and billing events. Clocks and
-- the identifiers that `uuid4` draws are arguments.

pub mod Credit
pub mod Ledger
pub mod Intents
mod Tests
use argentum_core.Base.{
  ℕ, ◌+◌, ◌-◌, ◌*◌, Bool, true, false, List, [], ◌∷◌, ◌++◌, Option, none, some, String, ltb, leb,
  ◌==◌, str_eq, if◌then◌else◌, ◌&&◌, not,
}
use argentum_core.Sql.{find_where, count_where, update_where, select_where, top_by}
use argentum_core.Mycelium.Store.{
  Account, Intent, Nonce, BillingEvent, TrailsDb, Tier, free, payg, IntentStatus, pending,
  fulfilled,
}
use argentum_core.Mycelium.Trails.{Outcome, returned, integrity_error}

abbrev pub key_is : String → Account → Bool
key_is key a = str_eq a.api_key key

abbrev pub is_payg : Tier → Bool
is_payg free = false
is_payg payg = true

abbrev pub is_pending : IntentStatus → Bool
is_pending pending = true
is_pending fulfilled = false

-- `url or None`: a missing or empty text is NULL.
abbrev pub or_none : String → Option String
or_none s = if str_eq s "" then none else some s

abbrev pub cleaned : Option String → Option String
cleaned none = none
cleaned (some s) = or_none s

abbrev pub with_accounts : TrailsDb → List Account → TrailsDb
with_accounts db accounts = record db { accounts = accounts }

-- The account of an agent with the most credits, among those on the paid tier with any.
unfoldable pub get_payg_account_by_agent : TrailsDb → String → Option Account
get_payg_account_by_agent db agent =
    top_by (λ (a : Account). a.credit_trails)
      (select_where
        (λ (a : Account). str_eq a.agent_id agent && (is_payg a.tier && ltb 0 a.credit_trails))
        db.accounts)

pub get_payg_account : TrailsDb → String → Option Account
get_payg_account db key = find_where (key_is key) db.accounts

pub new_account : String → String → ℕ → Account
new_account key agent now = record {
  api_key = key;
  agent_id = agent;
  tier = free;
  credit_trails = 0;
  conformance_source = none;
  notify_webhook = none;
  created_at = now;
  updated_at = now;
}

pub create_payg_account : String → String → ℕ → TrailsDb → Outcome String × TrailsDb
create_payg_account agent key now db =
    if ltb 0 (count_where (key_is key) db.accounts)
    then (integrity_error, db)
    else (returned key, with_accounts db (db.accounts ++ new_account key agent now ∷ []))

-- `credit_trails = credit_trails + n, tier = 'payg', updated_at = now`
unfoldable pub credited : ℕ → ℕ → Account → Account
credited n now a = record a { tier = payg; credit_trails = a.credit_trails + n; updated_at = now }

unfoldable pub topup_payg : String → ℕ → ℕ → TrailsDb → Option Account × TrailsDb
topup_payg key n now db =
    let accounts = update_where (key_is key) (credited n now) db.accounts in
    (find_where (key_is key) accounts, with_accounts db accounts)

-- The WHERE clause of the atomic check and decrement.
abbrev pub can_pay : String → Account → Bool
can_pay key a = str_eq a.api_key key && (is_payg a.tier && ltb 0 a.credit_trails)

unfoldable pub debited : ℕ → Account → Account
debited now a = record a { credit_trails = a.credit_trails - 1; updated_at = now }

unfoldable pub consume_payg_credit : String → ℕ → TrailsDb → Bool × TrailsDb
consume_payg_credit key now db = (
  ltb 0 (count_where (can_pay key) db.accounts),
  with_accounts db (update_where (can_pay key) (debited now) db.accounts),
)

pub set_payg_webhook : String → Option String → ℕ → TrailsDb → Option Account × TrailsDb
set_payg_webhook key url now db =
    let accounts =
      update_where (key_is key) (λ a. record a { notify_webhook = cleaned url; updated_at = now })
        db.accounts in
    if ltb 0 (count_where (key_is key) db.accounts)
    then (find_where (key_is key) accounts, with_accounts db accounts)
    else (none, with_accounts db accounts)

pub rekeyed : String → ℕ → Account → Account
rekeyed key now a = record a { api_key = key; updated_at = now }

-- `new` is the key that `uuid4` draws; a key in use breaks the primary key.
pub rotate_payg_account : String → String → ℕ → TrailsDb → Outcome (Option Account) × TrailsDb
rotate_payg_account old new now db =
    let accounts = update_where (key_is old) (rekeyed new now) db.accounts in
    if not (ltb 0 (count_where (key_is old) db.accounts))
    then (returned none, db)
    else if ltb 1 (count_where (key_is new) accounts)
    then (integrity_error, db)
    else (returned (find_where (key_is new) accounts), with_accounts db accounts)

-- `notify_webhook IS NOT NULL AND notify_webhook != ''`
abbrev pub has_webhook : Option String → Bool
has_webhook none = false
has_webhook (some u) = not (str_eq u "")

pub get_notify_webhook : TrailsDb → String → Option String
get_notify_webhook db agent =
    elim (top_by (λ (a : Account). a.updated_at)
      (select_where (λ (a : Account). str_eq a.agent_id agent && has_webhook a.notify_webhook)
        db.accounts)) [ none ↦ none | some a ↦ a.notify_webhook ]

abbrev pub usdc_intent_ttl : ℕ
usdc_intent_ttl = 3600

abbrev pub intent_is : String → Intent → Bool
intent_is id i = str_eq i.intent_id id

-- `address` is `from_address.lower()`; three units of 0.001 USDC to a trail.
pub new_intent : String → String → String → ℕ → ℕ → Intent
new_intent id key address trails now = record {
  intent_id = id;
  api_key = key;
  from_address = address;
  trails = trails;
  usdc_amount = trails * 3;
  status = pending;
  tx_hash = none;
  created_at = now;
  expires_at = now + usdc_intent_ttl;
  fulfilled_at = none;
}

pub create_usdc_intent : String → String → ℕ → String → ℕ → TrailsDb → Outcome Intent × TrailsDb
create_usdc_intent key address trails id now db =
    if ltb 0 (count_where (intent_is id) db.intents) then (integrity_error, db) else (
      returned (new_intent id key address trails now),
      record db { intents = db.intents ++ new_intent id key address trails now ∷ [] },
    )

pub get_pending_usdc_intents : TrailsDb → ℕ → List Intent
get_pending_usdc_intents db now =
    select_where (λ (i : Intent). is_pending i.status && ltb now i.expires_at) db.intents

abbrev pub open_intent : String → Intent → Bool
open_intent id i = str_eq i.intent_id id && is_pending i.status

pub closed : String → ℕ → Intent → Intent
closed tx now i = record i { status = fulfilled; tx_hash = some tx; fulfilled_at = some now }

pub fulfill_found :
    String → String → ℕ → TrailsDb → Option Intent → Option (Intent × Option Account) × TrailsDb
fulfill_found id tx now db none = (none, db)
fulfill_found id tx now db (some i) =
    let accounts = update_where (key_is i.api_key) (credited i.trails now) db.accounts in
    (
      some (i, find_where (key_is i.api_key) accounts),
      record db {
        accounts = accounts;
        intents = update_where (intent_is id) (closed tx now) db.intents;
      },
    )

-- The intent that was open, and the account after the credit, if there is one.
pub fulfill_usdc_intent :
    String → String → ℕ → TrailsDb → Option (Intent × Option Account) × TrailsDb
unfolding fulfill_found
fulfill_usdc_intent id tx now db =
    fulfill_found id tx now db (find_where (open_intent id) db.intents)

abbrev pub nonce_is : String → Nonce → Bool
nonce_is ref n = str_eq n.action_ref ref

unfoldable pub has_external_nonce : TrailsDb → String → Bool
has_external_nonce db ref = ltb 0 (count_where (nonce_is ref) db.nonces)

-- INSERT OR IGNORE: a reference that is there stays as it was.
unfoldable pub record_external_nonce : String → String → ℕ → TrailsDb → TrailsDb
unfolding has_external_nonce
record_external_nonce ref agent now db = if has_external_nonce db ref then db else record db {
  nonces = db.nonces ++ record { action_ref = ref; agent_id = agent; created_at = now } ∷ [];
}

pub set_conformance_source : String → String → ℕ → TrailsDb → Option Account × TrailsDb
set_conformance_source key source now db =
    let accounts =
      update_where (key_is key)
        (λ a. record a { conformance_source = or_none source; updated_at = now }) db.accounts in
    (find_where (key_is key) accounts, with_accounts db accounts)

-- `TRAIL_UNIT_PRICE_USD`, in units of 0.001 USD.
abbrev pub trail_unit_price : ℕ
trail_unit_price = 3

abbrev pub billing_is : ℕ → BillingEvent → Bool
billing_is id e = e.id == id

-- The key that AUTOINCREMENT draws: one more than the greatest there was; no row is ever deleted.
unfoldable pub next_billing_id : List BillingEvent → ℕ
next_billing_id [] = 1
next_billing_id (e ∷ es) = let rest = next_billing_id es in if ltb e.id rest then rest else e.id + 1

unfoldable pub new_billing_event : ℕ → String → String → String → ℕ → String → BillingEvent
new_billing_event id key agent trail now month = record {
  id = id;
  api_key = key;
  agent_id = agent;
  trail_id = trail;
  amount_usd = trail_unit_price;
  billed_at = now;
  month_key = month;
}

-- INSERT OR IGNORE: ignored where a row has the key, the only one of the table. `month` is
-- `utcfromtimestamp(now).strftime("%Y-%m")`.
unfoldable pub record_billing_event : String → String → String → ℕ → String → TrailsDb → TrailsDb
record_billing_event key agent trail now month db =
    let id = next_billing_id db.billing in
    if ltb 0 (count_where (billing_is id) db.billing)
    then db
    else record db { billing = db.billing ++ new_billing_event id key agent trail now month ∷ [] }
