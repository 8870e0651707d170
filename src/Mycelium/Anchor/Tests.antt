-- ===== src/Mycelium/Anchor/Tests.antt =====
-- A round of the poller over a trail that failed and one that awaits its receipt.
use argentum_core.Base.{◌≡◌, refl, true, [], ◌∷◌, none, some, String, arith}
use argentum_core.Mycelium.Store.{Trail, TrailsDb, AnchorStatus, submitted, failed}
use argentum_core.Mycelium.Trails.{get_trail_by_id}
use argentum_core.Mycelium.Anchor.{Node, success, poll}
use argentum_core.Mycelium.Anchor.Final.{poll_keeps}

abbrev trail : String → AnchorStatus → Trail
trail id status = record {
  trail_id = id;
  agent_id = "alice";
  service = "argentum";
  operation = "verify";
  timestamp = 5;
  karma_at_time = none;
  success = true;
  signature_ref = "sig";
  scope = none;
  delegation_ref = none;
  parent_trail_id = none;
  root_trail_id = none;
  negotiation_ref = none;
  negotiation_ref_status = none;
  action_ref = none;
  tx_hash = some "0xaa";
  origin = some "internal";
  anchor_status = some status;
  anchor_block = none;
  preimage_json = none;
  anchor_submitted_at = some 10;
  anchor_fail_reason = none;
}

abbrev store : TrailsDb
store = record {
  trails = trail "t1" failed ∷ trail "t2" submitted ∷ [];
  accounts = [];
  intents = [];
  nonces = [];
  billing = [];
}

-- Every transaction succeeded in block 7.
abbrev node : Node
node tx = some (some (record { status = success; block_number = 7 }))

poll_keeps_example : get_trail_by_id (poll node 20 store) "t1" ≡ some (trail "t1" failed)
unfolding get_trail_by_id
poll_keeps_example = poll_keeps node 20 "t1" store (ground arith) refl refl
