-- ===== src/Mycelium/Payg/Tests.antt =====
-- The accounts and intents of mycelium_trails.py on a small store.
use argentum_core.Base.{
  ◌+◌, ◌≡◌, ◌≢◌, refl, List, [], ◌∷◌, none, some, String, arith, str_eq, str_eq_iff, true, false,
}
use argentum_core.Sql.{count_where}
use argentum_core.Mycelium.Store.{Account, Intent, TrailsDb, BillingEvent, payg, pending, empty_db}
use argentum_core.Mycelium.Payg.{
  fulfill_usdc_intent, fulfill_found, rotate_payg_account, rekeyed, record_billing_event,
  billing_is, next_billing_id,
}
use argentum_core.Mycelium.Payg.Credit.{total_credits, UniqueKeys}
use argentum_core.Mycelium.Payg.Ledger.{
  Op, topup, consume, rotate, fulfill, run, all_granted, all_spent, credits_balance,
}
use argentum_core.Mycelium.Payg.Intents.{
  IsClosed, fulfill_once, rotation_strands_intent, record_billing_event-count,
}

abbrev alice : Account
alice = record {
  api_key = "old";
  agent_id = "alice";
  tier = payg;
  credit_trails = 5;
  conformance_source = none;
  notify_webhook = none;
  created_at = 1;
  updated_at = 1;
}

abbrev buy : Intent
buy = record {
  intent_id = "buy";
  api_key = "old";
  from_address = "0xabc";
  trails = 100;
  usdc_amount = 300;
  status = pending;
  tx_hash = none;
  created_at = 10;
  expires_at = 3610;
  fulfilled_at = none;
}

abbrev store : TrailsDb
store = record { trails = []; accounts = alice ∷ []; intents = buy ∷ []; nonces = []; billing = [] }

store-UniqueKeys : UniqueKeys store
store-UniqueKeys key = ground arith

abbrev history : List Op
history =
    consume "old" 20
    ∷ fulfill "buy" "0x1" 30
    ∷ topup "missing" 9 40
    ∷ rotate "old" "new" 50
    ∷ consume "new" 60
    ∷ []

credits_balance_example :
    UniqueKeys (run history store)
    × (total_credits (run history store) + all_spent history store
        ≡ total_credits store + all_granted history store)
credits_balance_example = credits_balance history store store-UniqueKeys

fulfill_once_example :
    fulfill_usdc_intent "buy" "0x2" 99 (run history (fulfill_usdc_intent "buy" "0x1" 30 store).1)
    ≡ (none, run history (fulfill_usdc_intent "buy" "0x1" 30 store).1)
unfolding fulfill_usdc_intent fulfill_found
fulfill_once_example = fulfill_once "buy" "0x1" "0x2" 30 99 store history refl

old-new : ◌≢◌ {A = String} "old" "new"
old-new e = let no : false ≡ true = (str_eq_iff "old" "new").1 e in ground arith

rotated-UniqueKeys : UniqueKeys (rotate_payg_account "old" "new" 20 store).1
unfolding rotate_payg_account rekeyed
rotated-UniqueKeys key = ground arith

rotation_strands_intent_example :
    ((fulfill_usdc_intent "buy" "0x1" 30 (rotate_payg_account "old" "new" 20 store).1).0
      ≡ some (buy, none))
    × (total_credits
          (fulfill_usdc_intent "buy" "0x1" 30 (rotate_payg_account "old" "new" 20 store).1).1
        ≡ total_credits (rotate_payg_account "old" "new" 20 store).1)
    × IsClosed "buy"
        (fulfill_usdc_intent "buy" "0x1" 30 (rotate_payg_account "old" "new" 20 store).1).1.intents
unfolding rotate_payg_account rekeyed
rotation_strands_intent_example =
    rotation_strands_intent "old" "new" "buy" "0x1" 20 30 store rotated-UniqueKeys old-new refl refl
      refl

-- What a first call leaves of a store without events.
abbrev billed_once : TrailsDb
billed_once = record_billing_event "k" "alice" "t1" 4 "2026-01" empty_db

record_billing_event-count_example :
    (count_where
        (λ (e : BillingEvent). str_eq e.trail_id "t1")
        (record_billing_event "k" "alice" "t1" 5 "2026-01" billed_once).billing
      ≡ count_where (λ (e : BillingEvent). str_eq e.trail_id "t1") billed_once.billing + 1)
    × (count_where
          (billing_is (next_billing_id billed_once.billing))
          (record_billing_event "k" "alice" "t1" 5 "2026-01" billed_once).billing
        ≡ 1)
record_billing_event-count_example =
    record_billing_event-count "k" "alice" "t1" "2026-01" 5 billed_once
