-- ===== src/Mycelium/Chain/Tests.antt =====
-- `verify_chain` of mycelium_trails.py on a chain of two trails and a cycle.
use argentum_core.Base.{ℕ, ◌≡◌, ◌≢◌, ◌↔◌, refl, List, [], ◌∷◌, Option, none, some, String, true}
use argentum_core.Mycelium.Store.{Trail, TrailsDb}
use argentum_core.Mycelium.Chain.{
  delegation_ok, contains, valid, out_of_fuel, cycle_detected, verify_chain, walk, link_check,
  truthy,
}
use argentum_core.Mycelium.Chain.Correct.{Chain, verify_chain_ends, verify_chain_iff}
use argentum_core.Mycelium.Chain.Reasons.{Evidence, verify_chain_reason}
use argentum_core.Mycelium.Trails.{get_trail_by_id}

abbrev trail : String → Option String → Trail
trail id parent = record {
  trail_id = id;
  agent_id = "alice";
  service = "argentum";
  operation = "verify";
  timestamp = 5;
  karma_at_time = none;
  success = true;
  signature_ref = "sig";
  scope = none;
  delegation_ref = none;
  parent_trail_id = parent;
  root_trail_id = none;
  negotiation_ref = none;
  negotiation_ref_status = none;
  action_ref = none;
  tx_hash = none;
  origin = some "internal";
  anchor_status = none;
  anchor_block = none;
  preimage_json = none;
  anchor_submitted_at = none;
  anchor_fail_reason = none;
}

abbrev holding : List Trail → TrailsDb
holding ts = record { trails = ts; accounts = []; intents = []; nonces = []; billing = [] }

abbrev family : TrailsDb
family = holding (trail "child" (some "top") ∷ trail "top" none ∷ [])

-- A trail that is its own parent, under a delegation that names it.
abbrev own_parent : TrailsDb
own_parent =
    holding ((record (trail "loop" (some "loop")) { delegation_ref = some "delegation:loop" }) ∷ [])

verify_chain_ends_example : (verify_chain own_parent "loop").verdict ≢ out_of_fuel
verify_chain_ends_example = verify_chain_ends own_parent "loop"

verify_chain_iff_example :
    ((verify_chain family "child").verdict ≡ valid)
    ↔ ((n : ℕ) × Chain family n (truthy (some "child")))
verify_chain_iff_example = verify_chain_iff family "child"

verify_chain_reason_example : Evidence own_parent "loop" cycle_detected
unfolding verify_chain walk get_trail_by_id link_check delegation_ok contains
verify_chain_reason_example = verify_chain_reason own_parent "loop" refl
