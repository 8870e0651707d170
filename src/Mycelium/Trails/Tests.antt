-- ===== src/Mycelium/Trails/Tests.antt =====
-- The limits of mycelium_trails.py on a few calls.
use argentum_core.Base.{◌≤◌, refl, List, [], ◌∷◌, none, String, true, false, arith, All}
use argentum_core.Mycelium.Store.{empty_db}
use argentum_core.Mycelium.Trails.{Env, TrailRequest, is_limited}
use argentum_core.Mycelium.Trails.Limits.{day_count, Call, record_all, IsCapped, daily_limit}

abbrev plain : Env
plain = record { enterprise_agents = []; month_start = λ t. 0; sig_ref = λ n. "sig" }

abbrev ask : String → TrailRequest
ask agent = record {
  agent_id = agent;
  service = "argentum";
  operation = "verify";
  nonce = "n";
  karma_at_time = none;
  success = true;
  rate_limit_cap = 2;
  genesis_agents = "giskard-self" ∷ [];
  scope = none;
  delegation_ref = none;
  parent_trail_id = none;
  root_trail_id = none;
  negotiation_ref = none;
  negotiation_ref_status = none;
  skip_monthly_limit = false;
  origin = "internal";
}

abbrev calls : List Call
calls =
    (ask "alice", 100, "t1")
    ∷ (ask "bob", 150, "t2")
    ∷ (ask "alice", 200, "t3")
    ∷ (ask "alice", 300, "t4")
    ∷ []

calls-IsCapped : All (IsCapped plain "alice" 2) calls
unfolding is_limited
calls-IsCapped = (
  λ e. (refl, omega arith),
  (λ e. (refl, omega arith), (λ e. (refl, omega arith), (λ e. (refl, omega arith), tt))),
)

none_yet : day_count empty_db "alice" 0 ≤ 2
unfolding day_count
none_yet = omega arith

daily_limit_example : day_count (record_all plain calls empty_db) "alice" 0 ≤ 2
daily_limit_example = daily_limit plain "alice" 2 0 calls empty_db calls-IsCapped none_yet
