-- ===== src/Karma/Store.antt =====
-- The tables of argentum.py. Clocks count seconds. Karma that is a REAL column is in tenths, and
-- attestation weights are in hundredths, in which all the program's values are whole; the rounding
-- of floats is not modelled.
use argentum_core.Base.{ℕ, String, List, Option, Bool}
use argentum_core.Mycelium.Store.{TrailsDb}

-- `actions.status`
pub data Status : Type 0 where
  pending verified slashed disputed : Status

pub record Action : Type 0 where
  pub id : String
  pub entity_id : String
  pub entity_name : String
  pub entity_type : String
  pub action_type : String
  pub description : String
  pub proof : Option String
  pub status : Status
  pub karma_value : ℕ
  pub created_at : ℕ
  pub verified_at : Option ℕ
  pub signed : Bool

pub record Attestation : Type 0 where
  pub id : String
  pub action_id : String
  pub attester_id : String
  pub attester_name : String
  pub note : Option String
  pub created_at : ℕ
  pub weight : ℕ

-- A row of `wisdom`; `total_karma_real` is NULL in a row older than the column.
pub record Wisdom : Type 0 where
  pub entity_id : String
  pub entity_name : String
  pub entity_type : String
  pub total_karma : ℕ
  pub total_karma_real : Option ℕ
  pub verified_actions : ℕ
  pub attestations_given : ℕ
  pub last_action : Option ℕ

-- `reports.status`
pub data ReportStatus : Type 0 where
  open_report confirmed : ReportStatus

pub record Report : Type 0 where
  pub id : String
  pub action_id : String
  pub reporter_id : String
  pub reason : String
  pub status : ReportStatus
  pub created_at : ℕ
  pub resolved_at : Option ℕ

-- `disputes.status`
pub data DisputeStatus : Type 0 where
  unresolved ruled_slash ruled_clear ruled_refused : DisputeStatus

pub record Dispute : Type 0 where
  pub id : String
  pub action_id : String
  pub reporter_id : String
  pub reason : String
  pub status : DisputeStatus
  pub ruling : Option ℕ
  pub created_at : ℕ
  pub resolved_at : Option ℕ

pub record KarmaDb : Type 0 where
  pub actions : List Action
  pub attestations : List Attestation
  pub wisdom : List Wisdom
  pub reports : List Report
  pub disputes : List Dispute

-- The two databases of the service.
pub record World : Type 0 where
  pub karma : KarmaDb
  pub trails : TrailsDb
