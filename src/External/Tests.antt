-- ===== src/External/Tests.antt =====
-- The two endpoints with nonces, on one prepaid account.
use argentum_core.Base.{◌≤◌, ◌≡◌, ◌≢◌, true, false, List, [], ◌∷◌, none, String, str_eq_iff, arith}
use argentum_core.Mycelium.Store.{Account, payg}
use argentum_core.Mycelium.Payg.{has_external_nonce}
use argentum_core.Karma.Store.{World}
use argentum_core.External.{Delivery, ExternalTrail, Setup}
use argentum_core.External.Replay.{Call, deliver, external, effects, effects_once}

abbrev setup : Setup
setup = record {
  env = record { enterprise_agents = []; month_start = λ t. 0; sig_ref = λ n. "sig" };
  clean = λ s. s;
  daily_limit = 100;
}

abbrev account : Account
account = record {
  api_key = "key";
  agent_id = "alice";
  tier = payg;
  credit_trails = 0;
  conformance_source = none;
  notify_webhook = none;
  created_at = 1;
  updated_at = 1;
}

abbrev world : World
world = record {
  karma = record { actions = []; attestations = []; wisdom = []; reports = []; disputes = [] };
  trails = record { trails = []; accounts = account ∷ []; intents = []; nonces = []; billing = [] };
}

abbrev hash : String
hash = "00112233445566778899aabbccddeeff00112233445566778899aabbccddeeff"

abbrev claim : ExternalTrail
claim = record { action_ref = hash; api_key = "key"; service = "external"; operation = "action" }

abbrev payment : Delivery
payment = record { payment_hash = hash; api_key = "key"; trails = 100 }

-- Whoever posts a payment's hash as an action reference first takes its nonce.
abbrev calls : List Call
calls = external claim 10 "t1" ∷ deliver payment 20 ∷ deliver payment 30 ∷ []

hash-ne : ◌≢◌ {A = String} hash ""
hash-ne e = let no : false ≡ true = (str_eq_iff hash "").1 e in ground arith

effects_once_example :
    (effects setup hash calls world ≤ 1)
    × (has_external_nonce (world.trails) hash ≡ true → effects setup hash calls world ≡ 0)
effects_once_example = effects_once setup hash calls world hash-ne
