-- ===== src/Asset/Lifecycle.antt =====
-- modules/asset/application/lifecycle.ts: a lifecycle change, a reservation, an assignment and a
-- transfer. A command returns the new tables and its result, or throws, and then its transaction is
-- rolled back. The guards of a command are a function of their own, which returns the rows that it
-- has read; the writes that follow are another.
use itcenter.Base.{
  ℕ, ◌+◌, Bool, true, false, not, ◌&&◌, ◌||◌, Option, none, some, List, [], ◌∷◌, leb, ◌==◌,
  if◌then◌else◌, includes, find_where, update_where, Text, is_blank,
}
use itcenter.Platform.Tx.{Tx, row_is, is_blank_id}
use itcenter.Platform.Errors.{
  validation_error, not_found, business_rule_violation, internal_error, Result, ok, ◌>>=◌, ◌>>◌,
  throw_if, or_throw, must_exist, is_safe_integer, assert_version,
}
use itcenter.Platform.Index.{insert_unique}
use itcenter.Asset.States.{
  AssetState, assigned, in_use, repair, available, reserved, state_code, may_move, AssignmentState,
  unassigned, reserved_for, assigned_to, Band, unknown,
}
use itcenter.Asset.Store.{
  Asset, Reservation, Assignment, MovementType, Movement, CommandType, asset_reserve, asset_assign,
  asset_target, LifecycleTransition, RiskBandChanged, AssetDb, is_asset, is_active_location,
  is_active_user, holds, is_custody,
}

pub record TransitionInput : Type 0 where
  pub asset_id : ℕ
  pub expected_version : ℕ
  -- `none` is a text that names no state.
  pub target_state : Option AssetState
  pub actor_id : ℕ
  pub reason : Text
  pub command_type : Option CommandType

pub record Moved : Type 0 where
  pub from_state : AssetState
  pub to_state : AssetState
  pub version : ℕ

-- The row and the target, once every guard of `transitionLifecycle` has passed.
unfoldable pub check_transition : Tx → TransitionInput → AssetDb → Result (Asset × AssetState)
check_transition tx i db = do
  throw_if (not (is_safe_integer i.expected_version) || is_blank i.reason) validation_error
  asset ← or_throw (find_where (is_asset tx.tenant_id i.asset_id) db.assets) not_found
  assert_version asset.version i.expected_version
  target ← or_throw i.target_state business_rule_violation
  throw_if (not (may_move asset.lifecycle_state target)) business_rule_violation
  ok (asset, target)

unfoldable pub risk_eligible : AssetState → Bool
risk_eligible = includes state_code (assigned ∷ in_use ∷ repair ∷ [])

abbrev is_unknown : Band → Bool
is_unknown unknown = true
is_unknown _ = false

-- The `UPDATE asset.assets` of `transitionLifecycle`, at one row.
unfoldable pub move_asset : Tx → AssetState → ℕ → Asset → Asset
move_asset tx target version a =
    let eligible = risk_eligible target in
    record a {
      lifecycle_state = target;
      assignment_state = elim target [
        | reserved ↦ reserved_for
        | available ↦ unassigned
        | _ ↦ a.assignment_state
      ];
      risk_state = if eligible then a.risk_state else unknown;
      risk_assessment_id = if eligible then a.risk_assessment_id else none;
      risk_assessment_valid_until = if eligible then a.risk_assessment_valid_until else none;
      updated_at = tx.now;
      version = version;
    }

abbrev command_name : Option CommandType → AssetState → CommandType
command_name none target = asset_target target
command_name (some c) target = c

unfoldable pub apply_transition : Tx → TransitionInput → Asset → AssetState → AssetDb → AssetDb
apply_transition tx i asset target db =
    let version = i.expected_version + 1 in
    let event : RiskBandChanged = record {
      event_id = tx.uuid 0;
      tenant_id = tx.tenant_id;
      asset_id = i.asset_id;
      version = version;
      from_band = asset.risk_state;
      to_band = unknown;
    } in
    let row : LifecycleTransition = record {
      tenant_id = tx.tenant_id;
      id = tx.uuid 1;
      asset_id = i.asset_id;
      from_state = asset.lifecycle_state;
      to_state = target;
      command_type = command_name i.command_type target;
      actor_id = i.actor_id;
      reason = i.reason;
    } in
    record db {
      assets =
          update_where (is_asset tx.tenant_id i.asset_id) (move_asset tx target version) db.assets;
      outbox =
          if not (risk_eligible target) && not (is_unknown asset.risk_state)
          then event ∷ db.outbox
          else db.outbox;
      lifecycle_transitions = row ∷ db.lifecycle_transitions;
    }

unfoldable pub transition_lifecycle : Tx → TransitionInput → AssetDb → Result (AssetDb × Moved)
transition_lifecycle tx i db = do
  (asset, target) ← check_transition tx i db
  ok (
    apply_transition tx i asset target db,
    record {
      from_state = asset.lifecycle_state;
      to_state = target;
      version = i.expected_version + 1;
    },
  )

pub record ReserveInput : Type 0 where
  pub asset_id : ℕ
  pub expected_version : ℕ
  pub requested_for : Text
  pub reason : Text
  pub expires_at : ℕ
  pub actor_id : ℕ

abbrev pub reserve_move : ReserveInput → TransitionInput
reserve_move i = record {
  asset_id = i.asset_id;
  expected_version = i.expected_version;
  target_state = some reserved;
  actor_id = i.actor_id;
  reason = i.reason;
  command_type = some asset_reserve;
}

abbrev pub new_reservation : Tx → ReserveInput → Reservation
new_reservation tx i = record {
  tenant_id = tx.tenant_id;
  id = tx.uuid 2;
  asset_id = i.asset_id;
  requested_for = i.requested_for;
  reason = i.reason;
  expires_at = i.expires_at;
  active = true;
}

unfoldable pub reserve_asset : Tx → ReserveInput → AssetDb → Result (AssetDb × ℕ)
reserve_asset tx i db = do
  throw_if (is_blank i.requested_for || leb i.expires_at tx.now) validation_error
  (moved_db, moved) ← transition_lifecycle tx (reserve_move i) db
  reservations ←
      insert_unique (holds tx.tenant_id i.asset_id) business_rule_violation (new_reservation tx i)
        moved_db.reservations
  ok (record moved_db { reservations = reservations }, moved.version)

pub record AssignInput : Type 0 where
  pub asset_id : ℕ
  pub expected_version : ℕ
  pub user_id : ℕ
  pub reason : Text
  pub actor_id : ℕ

abbrev pub assign_move : AssignInput → TransitionInput
assign_move i = record {
  asset_id = i.asset_id;
  expected_version = i.expected_version;
  target_state = some assigned;
  actor_id = i.actor_id;
  reason = i.reason;
  command_type = some asset_assign;
}

abbrev pub new_assignment : ℕ → ℕ → ℕ → ℕ → Text → Assignment
new_assignment tenant id asset_id user_id reason = record {
  tenant_id = tenant;
  id = id;
  asset_id = asset_id;
  user_id = user_id;
  primary = true;
  active = true;
  ended_at = none;
  reason = reason;
  version = 1;
}

unfoldable pub assign_asset : Tx → AssignInput → AssetDb → Result (AssetDb × ℕ)
assign_asset tx i db = do
  throw_if (is_blank_id i.user_id || is_blank i.reason) validation_error
  must_exist (find_where (is_active_user tx.tenant_id i.user_id) db.users) business_rule_violation
  (moved_db, moved) ← transition_lifecycle tx (assign_move i) db
  assignments ←
      insert_unique (is_custody tx.tenant_id i.asset_id) business_rule_violation
        (new_assignment tx.tenant_id (tx.uuid 2) i.asset_id i.user_id i.reason) moved_db.assignments
  ok (
    record moved_db {
      assignments = assignments;
      assets =
          update_where (is_asset tx.tenant_id i.asset_id)
            (λ a. record a { assignment_state = assigned_to }) moved_db.assets;
    },
    moved.version,
  )

pub record TransferInput : Type 0 where
  pub asset_id : ℕ
  pub expected_version : ℕ
  pub to_location_id : ℕ
  pub to_user_id : ℕ
  pub reason : Text

abbrev pub is_assigned_to : AssignmentState → Bool
is_assigned_to assigned_to = true
is_assigned_to _ = false

-- `["ASSIGNED", "IN_USE"].includes(lifecycle) && assignment_state === "ASSIGNED"`.
unfoldable pub in_custody : Asset → Bool
in_custody a =
    includes state_code (assigned ∷ in_use ∷ []) a.lifecycle_state
    && is_assigned_to a.assignment_state

unfoldable pub check_transfer : Tx → TransferInput → AssetDb → Result (Asset × Assignment)
check_transfer tx i db = do
  throw_if (is_blank_id i.to_location_id || is_blank_id i.to_user_id || is_blank i.reason)
      validation_error
  asset ← or_throw (find_where (is_asset tx.tenant_id i.asset_id) db.assets) not_found
  assert_version asset.version i.expected_version
  throw_if (not (in_custody asset)) business_rule_violation
  must_exist (find_where (is_active_location tx.tenant_id i.to_location_id) db.locations) not_found
  must_exist (find_where (is_active_user tx.tenant_id i.to_user_id) db.users)
      business_rule_violation
  assignment ←
      or_throw (find_where (is_custody tx.tenant_id i.asset_id) db.assignments)
        business_rule_violation
  ok (asset, assignment)

-- `UPDATE asset.assignments SET status='ENDED',ended_at=now(),version=version+1`.
unfoldable pub end_assignment : Tx → ℕ → List Assignment → List Assignment
end_assignment tx id =
    update_where (λ a. row_is tx.tenant_id id a.tenant_id a.id)
      (λ a. record a { active = false; ended_at = some tx.now; version = a.version + 1 })

-- The assignments after a transfer. The insert goes through the unique index; an error from it is
-- not caught.
unfoldable pub hand_over :
    Tx → TransferInput → Assignment → List Assignment → Result (List Assignment)
hand_over tx i current rows =
    if current.user_id == i.to_user_id
    then ok rows
    else insert_unique (is_custody tx.tenant_id i.asset_id) internal_error
        (new_assignment tx.tenant_id (tx.uuid 1) i.asset_id i.to_user_id i.reason)
        (end_assignment tx current.id rows)

-- The writes of a transfer, with the assignments that it leaves.
unfoldable pub apply_transfer :
    Tx → TransferInput → Asset → Assignment → List Assignment → AssetDb → AssetDb
apply_transfer tx i asset current assignments db =
    let movement : Movement = record {
      tenant_id = tx.tenant_id;
      id = tx.uuid 0;
      asset_id = i.asset_id;
      movement_type = MovementType.transfer;
      from_location_id = asset.current_location_id;
      to_location_id = i.to_location_id;
      from_user_id = current.user_id;
      to_user_id = some i.to_user_id;
      reason = i.reason;
      completed_at = tx.now;
    } in
    record db {
      movements = movement ∷ db.movements;
      assignments = assignments;
      assets =
          update_where (is_asset tx.tenant_id i.asset_id)
            (λ a. record a {
              current_location_id = some i.to_location_id;
              updated_at = tx.now;
              version = i.expected_version + 1;
            })
            db.assets;
    }

unfoldable pub transfer_asset : Tx → TransferInput → AssetDb → Result (AssetDb × ℕ)
transfer_asset tx i db = do
  (asset, current) ← check_transfer tx i db
  assignments ← hand_over tx i current db.assignments
  ok (apply_transfer tx i asset current assignments db, i.expected_version + 1)
