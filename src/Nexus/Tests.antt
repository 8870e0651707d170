-- ===== src/Nexus/Tests.antt =====
-- nexus_trail on a receipt of an agent that has had its trail of the day.
use argentum_core.Base.{◌+◌, ◌≡◌, refl, true, [], ◌∷◌, some, none, arith}
use argentum_core.Bytes.{to_hex, hex_digit}
use argentum_core.Bytes.Toy.{toy, toy_digest}
use argentum_core.Utf8.{utf8, has_surrogate, utf8_bytes, utf8_char, utf16_be, utf16_be_char}
use argentum_core.Jcs.{
  jcs_bytes, jcs_dumps, in_profile, canonicalize, insert_key, key_lt, text_of, quoted, escape_all,
  escaped,
}
use argentum_core.ActionRef.{
  validate_domain, check_timestamp, is_ascii, all_decimal, value_from, payload, as_fields,
}
use argentum_core.Mycelium.Store.{Account, Trail, TrailsDb, payg}
use argentum_core.Mycelium.Trails.{
  record_trail, over_limit, is_limited, count_trails_today, count_trails_this_month,
  start_of_day_ts, not_pioneer, missing_input, bad_status,
}
use argentum_core.Mycelium.Payg.{
  get_payg_account_by_agent, consume_payg_credit, debited, topup_payg, credited,
}
use argentum_core.Mycelium.Payg.Credit.{UniqueKeys, total_credits}
use argentum_core.Nexus.{
  Setup, Receipt, rate_limit_exceeded, nexus_trail, nexus_stamped, nexus_domain, nexus_expected,
  expected, nexus_checked, nexus_paid, nexus_recorded, nexus_request, pay, pay_found, refund,
  limit_reply,
}
use argentum_core.Nexus.Refund.{credit_accounted, cost}

abbrev setup : Setup
setup = record {
  env = record { enterprise_agents = []; month_start = λ t. 0; sig_ref = λ n. "sig" };
  sha = toy;
  daily_limit = 1;
  preimage = λ q. "{}";
  month = λ t. "1970-01";
}

abbrev account : Account
account = record {
  api_key = "key";
  agent_id = "alice";
  tier = payg;
  credit_trails = 5;
  conformance_source = none;
  notify_webhook = none;
  created_at = 1;
  updated_at = 1;
}

abbrev receipt : Receipt
receipt = record {
  action_ref = "5f00000000000000000000000000000000000000000000000000000000000000";
  service = "nexus";
  agent_id = "alice";
  action_type = "pay";
  scope = "s";
  timestamp = some "1778839200123";
  payment_hash = "";
  negotiation_ref = none;
  negotiation_ref_status = none;
  origin = "nexus";
  api_key = none;
}

abbrev earlier : Trail
earlier = record {
  trail_id = "t0";
  agent_id = "alice";
  service = "nexus";
  operation = "pay";
  timestamp = 10;
  karma_at_time = none;
  success = true;
  signature_ref = "sig";
  scope = none;
  delegation_ref = none;
  parent_trail_id = none;
  root_trail_id = none;
  negotiation_ref = none;
  negotiation_ref_status = none;
  action_ref = none;
  tx_hash = none;
  origin = some "nexus";
  anchor_status = none;
  anchor_block = none;
  preimage_json = none;
  anchor_submitted_at = none;
  anchor_fail_reason = none;
}

abbrev store : TrailsDb
store = record {
  trails = earlier ∷ [];
  accounts = account ∷ [];
  intents = [];
  nonces = [];
  billing = [];
}

store-UniqueKeys : UniqueKeys store
store-UniqueKeys key = ground arith

-- The credit is taken, the limit of the day refuses the trail, and the credit is given back.
credit_accounted_example :
    total_credits (nexus_trail setup receipt 20 "t1" store).1
      + cost (nexus_trail setup receipt 20 "t1" store).0 (pay receipt 20 store).0.consumed
    ≡ total_credits store
credit_accounted_example = credit_accounted setup receipt 20 "t1" store store-UniqueKeys

day_is_full : (nexus_trail setup receipt 20 "t1" store).0 ≡ rate_limit_exceeded
unfolding nexus_trail nexus_stamped nexus_domain nexus_expected expected nexus_checked nexus_paid
    nexus_recorded nexus_request pay pay_found refund limit_reply get_payg_account_by_agent
    consume_payg_credit debited topup_payg credited record_trail over_limit is_limited
    count_trails_today count_trails_this_month start_of_day_ts not_pioneer missing_input bad_status
    validate_domain check_timestamp is_ascii all_decimal value_from payload as_fields jcs_bytes
    jcs_dumps in_profile canonicalize insert_key key_lt text_of quoted escape_all escaped utf8
    has_surrogate utf8_bytes utf8_char utf16_be utf16_be_char to_hex hex_digit toy_digest
day_is_full = refl
