-- ===== src/Mycelium/Payg/Intents.antt =====
-- An intent is fulfilled once, over any later history; what a rotated key loses; what billing
-- repeats.
use argentum_core.Base.{
  ℕ, ◌+◌, ◌≤◌, ◌<◌, ◌≡◌, ◌≢◌, refl, ◌∙◌, Bool, List, [], ◌∷◌, Option, none, some, String, arith,
  str_eq, str_eq_iff, str_eq_refl,
}
use native.Mathlib.Nat.{add-zero}
use argentum_core.Sql.{
  find_where, count_where, update_where, count-append, count-update, count-find_some,
}
use argentum_core.Mycelium.Store.{Account, Intent, TrailsDb, BillingEvent}
use argentum_core.Mycelium.Trails.{returned}
use argentum_core.Mycelium.Payg.{
  key_is, credited, rekeyed, rotate_payg_account, fulfill_usdc_intent, fulfill_found, open_intent,
  intent_is, closed, create_usdc_intent, new_intent, record_billing_event, topup_payg,
  consume_payg_credit, create_payg_account, set_payg_webhook, set_conformance_source, billing_is,
  next_billing_id, new_billing_event,
}
use argentum_core.Mycelium.Payg.Credit.{total_credits, UniqueKeys, fulfill_usdc_intent-total}
use argentum_core.Mycelium.Payg.Ledger.{
  Op, create, topup, consume, webhook, rotate, intend, fulfill, conform, step, run,
}

-- The intent has a row, and none that is still open.
pub record IsClosed (id : String) (intents : List Intent) : Type 0 where
  pub known : 0 < count_where (intent_is id) intents
  pub not_open : count_where (open_intent id) intents ≡ 0

open-update_self :
    (id tx : String) (now : ℕ) (is : List Intent)
    → count_where (open_intent id) (update_where (intent_is id) (closed tx now) is) ≡ 0
unfolding closed
open-update_self id tx now [] = refl
open-update_self id tx now (i ∷ is) = ground (arith, open-update_self id tx now is)

open-update :
    (id j tx : String) (now : ℕ) (is : List Intent)
    → count_where (open_intent id) (update_where (intent_is j) (closed tx now) is)
      ≤ count_where (open_intent id) is
unfolding closed
open-update id j tx now [] = omega arith
open-update id j tx now (i ∷ is) = ground (arith, open-update id j tx now is)

known-update :
    (id j tx : String) (now : ℕ) (is : List Intent)
    → count_where (intent_is id) (update_where (intent_is j) (closed tx now) is)
      ≡ count_where (intent_is id) is
unfolding closed
known-update id j tx now is =
    count-update (intent_is j) (intent_is id) (closed tx now) (λ i. refl) is

find_none : (p : Intent → Bool) (is : List Intent) → count_where p is ≡ 0 → find_where p is ≡ none
find_none p [] e = refl
find_none p (i ∷ is) e = ground (arith, find_none p is)

open-le-known :
    (id : String) (is : List Intent)
    → count_where (open_intent id) is ≤ count_where (intent_is id) is
open-le-known id [] = omega arith
open-le-known id (i ∷ is) = ground (arith, open-le-known id is)

fulfill_found-IsClosed' :
    (id j tx : String) (now : ℕ) (db : TrailsDb) (o : Option Intent)
    → IsClosed id db.intents
    → IsClosed id (fulfill_found j tx now db o).1.intents
unfolding fulfill_found
fulfill_found-IsClosed' id j tx now db none h = h
fulfill_found-IsClosed' id j tx now db (some i) h = record {
  known = rw (known-update id j tx now db.intents) h.known;
  not_open = omega (arith, open-update id j tx now db.intents, h.not_open);
}

intend-IsClosed :
    (id key address : String) (trails : ℕ) (j : String) (now : ℕ) (db : TrailsDb)
    → IsClosed id db.intents
    → IsClosed id (create_usdc_intent key address trails j now db).1.intents
unfolding create_usdc_intent new_intent
intend-IsClosed id key address trails j now db h = ground (
  arith,
  h.known,
  h.not_open,
  str_eq_iff j id,
  count-append (intent_is id) db.intents (new_intent j key address trails now ∷ []),
  count-append (open_intent id) db.intents (new_intent j key address trails now ∷ []),
)

step-IsClosed :
    (op : Op) (id : String) (db : TrailsDb)
    → IsClosed id db.intents
    → IsClosed id (step op db).intents
unfolding step
step-IsClosed (create agent key now) id db h = unfold create_payg_account in ground arith
step-IsClosed (topup key n now) id db h = unfold topup_payg in h
step-IsClosed (consume key now) id db h = unfold consume_payg_credit in h
step-IsClosed (webhook key url now) id db h = unfold set_payg_webhook in ground arith
step-IsClosed (rotate old new now) id db h = unfold rotate_payg_account in ground arith
step-IsClosed (intend key address trails j now) id db h =
    intend-IsClosed id key address trails j now db h
step-IsClosed (fulfill j tx now) id db h =
    unfold fulfill_usdc_intent in
    fulfill_found-IsClosed' id j tx now db (find_where (open_intent j) db.intents) h
step-IsClosed (conform key source now) id db h = unfold set_conformance_source in h

run-IsClosed :
    (ops : List Op) (id : String) (db : TrailsDb)
    → IsClosed id db.intents
    → IsClosed id (run ops db).intents
unfolding run
run-IsClosed [] id db h = h
run-IsClosed (op ∷ ops) id db h = run-IsClosed ops id (step op db) (step-IsClosed op id db h)

fulfill_found-IsClosed :
    (id tx : String) (now : ℕ) (db : TrailsDb) (o : Option Intent) {i : Intent} {a : Option Account}
    → find_where (open_intent id) db.intents ≡ o
    → (fulfill_found id tx now db o).0 ≡ some (i, a)
    → IsClosed id (fulfill_found id tx now db o).1.intents
unfolding fulfill_found
fulfill_found-IsClosed id tx now db none e h = cc
fulfill_found-IsClosed id tx now db (some j) e h = record {
  known =
      rw (known-update id id tx now db.intents)
        (omega (arith, count-find_some (open_intent id) db.intents e, open-le-known id db.intents));
  not_open = open-update_self id tx now db.intents;
}

fulfill_found-none :
    (id tx : String) (now : ℕ) (db : TrailsDb) (o : Option Intent)
    → o ≡ none
    → fulfill_found id tx now db o ≡ (none, db)
unfolding fulfill_found
fulfill_found-none id tx now db none e = refl
fulfill_found-none id tx now db (some i) e = cc

fulfill-IsClosed :
    (id tx : String) (now : ℕ) (db : TrailsDb)
    → IsClosed id db.intents
    → fulfill_usdc_intent id tx now db ≡ (none, db)
unfolding fulfill_usdc_intent
fulfill-IsClosed id tx now db h =
    fulfill_found-none id tx now db (find_where (open_intent id) db.intents)
      (find_none (open_intent id) db.intents h.not_open)

after_fulfill :
    (id tx : String) (now : ℕ) (db : TrailsDb) {i : Intent} {a : Option Account}
    → (fulfill_usdc_intent id tx now db).0 ≡ some (i, a)
    → IsClosed id (fulfill_usdc_intent id tx now db).1.intents
unfolding fulfill_usdc_intent
after_fulfill id tx now db h =
    fulfill_found-IsClosed id tx now db (find_where (open_intent id) db.intents) refl h

-- Once an intent has been fulfilled, a second fulfilment of it, after any history of calls in
-- between, returns None and changes nothing.
pub fulfill_once :
    (id tx tx' : String) (now now' : ℕ) (db : TrailsDb) (ops : List Op) {i : Intent}
    {a : Option Account}
    → (fulfill_usdc_intent id tx now db).0 ≡ some (i, a)
    → let later = run ops (fulfill_usdc_intent id tx now db).1 in
      fulfill_usdc_intent id tx' now' later ≡ (none, later)
fulfill_once id tx tx' now now' db ops h =
    fulfill-IsClosed id tx' now' (run ops (fulfill_usdc_intent id tx now db).1)
      (run-IsClosed ops id (fulfill_usdc_intent id tx now db).1 (after_fulfill id tx now db h))

-- No account carries the old key after a rotation.
old_key_gone :
    (old new : String) (now : ℕ) (rs : List Account)
    → old ≢ new
    → count_where (key_is old) (update_where (key_is old) (rekeyed new now) rs) ≡ 0
unfolding rekeyed
old_key_gone old new now [] h = refl
old_key_gone old new now (a ∷ rs) h =
    ground (arith, old_key_gone old new now rs h, str_eq_iff new old)

find_none_account :
    (p : Account → Bool) (rs : List Account) → count_where p rs ≡ 0 → find_where p rs ≡ none
find_none_account p [] e = refl
find_none_account p (a ∷ rs) e = ground (arith, find_none_account p rs)

rotated-gone :
    (old new : String) (now : ℕ) (db : TrailsDb) {a : Account}
    → old ≢ new
    → (rotate_payg_account old new now db).0 ≡ returned (some a)
    → (count_where (key_is old) (rotate_payg_account old new now db).1.accounts ≡ 0)
      × ((rotate_payg_account old new now db).1.intents ≡ db.intents)
unfolding rotate_payg_account
rotated-gone old new now db ne h = ground (arith, old_key_gone old new now db.accounts ne)

credited-none :
    (key : String) (n now : ℕ) (rs : List Account)
    → count_where (key_is key) rs ≡ 0
    → find_where (key_is key) (update_where (key_is key) (credited n now) rs) ≡ none
unfolding credited
credited-none key n now [] e = refl
credited-none key n now (a ∷ rs) e = ground (arith, credited-none key n now rs)

fulfill_found-lost :
    (id tx : String) (now : ℕ) (db : TrailsDb) (o : Option Intent) {i : Intent}
    → o ≡ some i
    → count_where (key_is i.api_key) db.accounts ≡ 0
    → (fulfill_found id tx now db o).0 ≡ some (i, none)
unfolding fulfill_found
fulfill_found-lost id tx now db none e z = cc
fulfill_found-lost id tx now db (some j) {i} e z =
    let same : j ≡ i = cc in rw (same, credited-none i.api_key i.trails now db.accounts z)

fulfill-lost :
    (id tx : String) (now : ℕ) (db : TrailsDb) {i : Intent}
    → find_where (open_intent id) db.intents ≡ some i
    → count_where (key_is i.api_key) db.accounts ≡ 0
    → (fulfill_usdc_intent id tx now db).0 ≡ some (i, none)
unfolding fulfill_usdc_intent
fulfill-lost id tx now db e z =
    fulfill_found-lost id tx now db (find_where (open_intent id) db.intents) e z

-- A pending intent does not follow its account through a rotation: fulfilling it afterwards
-- reports no account, adds no credit to any account, and closes the intent for good.
pub rotation_strands_intent :
    (old new id tx : String) (now later : ℕ) (db : TrailsDb) {a : Account} {i : Intent}
    → UniqueKeys (rotate_payg_account old new now db).1
    → old ≢ new
    → (rotate_payg_account old new now db).0 ≡ returned (some a)
    → find_where (open_intent id) db.intents ≡ some i
    → i.api_key ≡ old
    → let rotated = (rotate_payg_account old new now db).1 in
      ((fulfill_usdc_intent id tx later rotated).0 ≡ some (i, none))
      × (total_credits (fulfill_usdc_intent id tx later rotated).1 ≡ total_credits rotated)
      × IsClosed id (fulfill_usdc_intent id tx later rotated).1.intents
rotation_strands_intent old new id tx now later db {a} {i} u ne h found mine = (
  lost,
  rw lost at (fulfill_usdc_intent-total id tx later rotated u) ∙ add-zero _,
  after_fulfill id tx later rotated lost,
)
  where
    rotated : TrailsDb
    rotated = (rotate_payg_account old new now db).1

    gone : (count_where (key_is old) rotated.accounts ≡ 0) × (rotated.intents ≡ db.intents)
    gone = rotated-gone old new now db ne h

    lost : (fulfill_usdc_intent id tx later rotated).0 ≡ some (i, none)
    lost = fulfill-lost id tx later rotated (rw gone.1 found) (rw mine gone.0)

-- Every key that is there is smaller than the next one.
above_next :
    (n : ℕ) (es : List BillingEvent) → next_billing_id es ≤ n → count_where (billing_is n) es ≡ 0
unfolding next_billing_id
above_next n [] h = refl
above_next n (e ∷ es) h = ground (arith, above_next n es)

-- The test for the key that `record_billing_event` makes before it writes never holds.
next_billing_id-IsFresh :
    (es : List BillingEvent) → count_where (billing_is (next_billing_id es)) es ≡ 0
next_billing_id-IsFresh es = above_next (next_billing_id es) es (omega arith)

-- Whatever rows are there, also rows of the same trail, record_billing_event is never ignored: it
-- adds one row for the trail, under a key that no other row has.
pub record_billing_event-count :
    (key agent trail month : String) (now : ℕ) (db : TrailsDb)
    → (count_where
          (λ (e : BillingEvent). str_eq e.trail_id trail)
          (record_billing_event key agent trail now month db).billing
        ≡ count_where (λ (e : BillingEvent). str_eq e.trail_id trail) db.billing + 1)
      × (count_where
            (billing_is (next_billing_id db.billing))
            (record_billing_event key agent trail now month db).billing
          ≡ 1)
unfolding record_billing_event new_billing_event
record_billing_event-count key agent trail month now db =
    let id = next_billing_id db.billing in
    let row = new_billing_event id key agent trail now month in
    let fresh = next_billing_id-IsFresh db.billing in
    let same = str_eq_refl trail in
    let trails =
      count-append (λ (e : BillingEvent). str_eq e.trail_id trail) db.billing (row ∷ []) in
    let keys = count-append (billing_is id) db.billing (row ∷ []) in
    rw fresh (ground arith, ground arith)
