-- ===== src/Asset/Store.antt =====
-- The tables of the schema `asset` that modules/asset/application/lifecycle.ts reads and writes, with
-- the users of `identity` that it checks, and the partial unique indexes of
-- database/migrations/asset.
use itcenter.Base.{ℕ, Bool, true, false, ◌&&◌, Option, List, Text}
use itcenter.Platform.Tx.{row_is}
use itcenter.Platform.Index.{entry}
use itcenter.Asset.States.{AssetState, AssignmentState, Band}

pub record Asset : Type 0 where
  pub tenant_id : ℕ
  pub id : ℕ
  pub asset_code : ℕ
  pub lifecycle_state : AssetState
  pub assignment_state : AssignmentState
  pub risk_state : Band
  pub risk_assessment_id : Option ℕ
  pub risk_assessment_valid_until : Option ℕ
  pub current_location_id : Option ℕ
  pub updated_at : ℕ
  pub version : ℕ

pub record Reservation : Type 0 where
  pub tenant_id : ℕ
  pub id : ℕ
  pub asset_id : ℕ
  pub requested_for : Text
  pub reason : Text
  pub expires_at : ℕ
  pub active : Bool

pub record Assignment : Type 0 where
  pub tenant_id : ℕ
  pub id : ℕ
  pub asset_id : ℕ
  pub user_id : ℕ
  pub primary : Bool
  pub active : Bool
  pub ended_at : Option ℕ
  pub reason : Text
  pub version : ℕ

pub data MovementType : Type 0 where
  transfer return : MovementType

pub record Movement : Type 0 where
  pub tenant_id : ℕ
  pub id : ℕ
  pub asset_id : ℕ
  pub movement_type : MovementType
  pub from_location_id : Option ℕ
  pub to_location_id : ℕ
  pub from_user_id : ℕ
  pub to_user_id : Option ℕ
  pub reason : Text
  pub completed_at : ℕ

pub data RequestStatus : Type 0 where
  pending fulfilled cancelled : RequestStatus

abbrev pub is_pending : RequestStatus → Bool
is_pending pending = true
is_pending _ = false

pub record ReturnRequest : Type 0 where
  pub tenant_id : ℕ
  pub id : ℕ
  pub asset_id : ℕ
  pub assignment_id : ℕ
  pub user_id : ℕ
  pub due_at : ℕ
  pub reason : Text
  pub status : RequestStatus
  pub cancelled_reason : Option Text
  pub fulfilled_at : Option ℕ

pub record ReturnDocument : Type 0 where
  pub tenant_id : ℕ
  pub id : ℕ
  pub return_request_id : ℕ
  pub asset_id : ℕ
  pub condition_grade : ℕ
  pub received_location_id : ℕ
  pub notes : Text

-- The `commandType` of a lifecycle change: one that the caller names, or `ASSET.` and the target.
pub data CommandType : Type 0 where
  asset_reserve asset_assign : CommandType
  named : Text → CommandType
  asset_target : AssetState → CommandType

pub record LifecycleTransition : Type 0 where
  pub tenant_id : ℕ
  pub id : ℕ
  pub asset_id : ℕ
  pub from_state : AssetState
  pub to_state : AssetState
  pub command_type : CommandType
  pub actor_id : ℕ
  pub reason : Text

-- The event `ASSET.RISK_BAND_CHANGED` of the outbox, with the fields that vary.
pub record RiskBandChanged : Type 0 where
  pub event_id : ℕ
  pub tenant_id : ℕ
  pub asset_id : ℕ
  pub version : ℕ
  pub from_band : Band
  pub to_band : Band

pub record Location : Type 0 where
  pub tenant_id : ℕ
  pub id : ℕ
  pub active : Bool

pub record User : Type 0 where
  pub tenant_id : ℕ
  pub id : ℕ
  pub employed : Bool

pub record AssetDb : Type 0 where
  pub assets : List Asset
  pub reservations : List Reservation
  pub assignments : List Assignment
  pub movements : List Movement
  pub return_requests : List ReturnRequest
  pub return_documents : List ReturnDocument
  pub lifecycle_transitions : List LifecycleTransition
  pub outbox : List RiskBandChanged
  pub locations : List Location
  pub users : List User

abbrev pub is_asset : ℕ → ℕ → Asset → Bool
is_asset tenant id a = row_is tenant id a.tenant_id a.id

abbrev pub is_active_location : ℕ → ℕ → Location → Bool
is_active_location tenant id l = row_is tenant id l.tenant_id l.id && l.active

abbrev pub is_active_user : ℕ → ℕ → User → Bool
is_active_user tenant id u = row_is tenant id u.tenant_id u.id && u.employed

-- The rows of the index `asset_one_active_reservation` for one asset.
abbrev pub holds : ℕ → ℕ → Reservation → Bool
holds = entry (λ r. r.tenant_id) (λ r. r.asset_id) (λ r. r.active)

-- The rows of the index `asset_one_active_primary_assignment` for one asset.
abbrev pub is_custody : ℕ → ℕ → Assignment → Bool
is_custody = entry (λ a. a.tenant_id) (λ a. a.asset_id) (λ a. a.active && a.primary)

-- The rows of the index `asset_one_pending_return` for one assignment.
abbrev pub awaits_return : ℕ → ℕ → ReturnRequest → Bool
awaits_return = entry (λ r. r.tenant_id) (λ r. r.assignment_id) (λ r. is_pending r.status)
