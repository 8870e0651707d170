-- ===== src/Mycelium/Store.antt =====
-- The tables of mycelium_trails.py. Integers are unbounded; a column that may be NULL is an Option.
use argentum_core.Base.{ℕ, String, List, [], Option, Bool}

-- `anchor_status`, by the three strings the program writes.
pub data AnchorStatus : Type 0 where
  submitted anchored failed : AnchorStatus

-- `payg_accounts.tier`
pub data Tier : Type 0 where
  free payg : Tier

-- `payg_usdc_intents.status`
pub data IntentStatus : Type 0 where
  pending fulfilled : IntentStatus

-- A row of `trails`.
pub record Trail : Type 0 where
  pub trail_id : String
  pub agent_id : String
  pub service : String
  pub operation : String
  pub timestamp : ℕ
  pub karma_at_time : Option ℕ
  pub success : Bool
  pub signature_ref : String
  pub scope : Option String
  pub delegation_ref : Option String
  pub parent_trail_id : Option String
  pub root_trail_id : Option String
  pub negotiation_ref : Option String
  pub negotiation_ref_status : Option String
  pub action_ref : Option String
  pub tx_hash : Option String
  pub origin : Option String
  pub anchor_status : Option AnchorStatus
  pub anchor_block : Option ℕ
  pub preimage_json : Option String
  pub anchor_submitted_at : Option ℕ
  pub anchor_fail_reason : Option String

-- A row of `payg_accounts`.
pub record Account : Type 0 where
  pub api_key : String
  pub agent_id : String
  pub tier : Tier
  pub credit_trails : ℕ
  pub conformance_source : Option String
  pub notify_webhook : Option String
  pub created_at : ℕ
  pub updated_at : ℕ

-- A row of `payg_usdc_intents`; the amount in units of 0.001 USDC, three to a trail.
pub record Intent : Type 0 where
  pub intent_id : String
  pub api_key : String
  pub from_address : String
  pub trails : ℕ
  pub usdc_amount : ℕ
  pub status : IntentStatus
  pub tx_hash : Option String
  pub created_at : ℕ
  pub expires_at : ℕ
  pub fulfilled_at : Option ℕ

-- A row of `external_trail_nonces`.
pub record Nonce : Type 0 where
  pub action_ref : String
  pub agent_id : String
  pub created_at : ℕ

-- A row of `billing_events`; the amount in units of 0.001 USD.
pub record BillingEvent : Type 0 where
  pub id : ℕ
  pub api_key : String
  pub agent_id : String
  pub trail_id : String
  pub amount_usd : ℕ
  pub billed_at : ℕ
  pub month_key : String

pub record TrailsDb : Type 0 where
  pub trails : List Trail
  pub accounts : List Account
  pub intents : List Intent
  pub nonces : List Nonce
  pub billing : List BillingEvent

-- What `init_db` leaves in a new file.
abbrev pub empty_db : TrailsDb
empty_db = record { trails = []; accounts = []; intents = []; nonces = []; billing = [] }
