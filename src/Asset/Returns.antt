-- ===== src/Asset/Returns.antt =====
-- modules/asset/application/lifecycle.ts: the return of an asset, from the request to the receipt or
-- the cancellation, and the queries of the offboarding.
use itcenter.Base.{
  text_eq, ℕ, ◌+◌, Bool, true, false, not, ◌&&◌, ◌||◌, Option, none, some, List, ◌∷◌, ltb, leb,
  ◌==◌, if◌then◌else◌, length, find_where, update_where, Text, is_blank, trim,
}
use itcenter.Platform.Tx.{Tx, row_is, is_blank_id}
use itcenter.Platform.Errors.{
  validation_error, not_found, business_rule_violation, internal_error, Result, ok, ◌>>=◌, ◌>>◌,
  throw_if, or_throw, must_exist, assert_version,
}
use itcenter.Platform.Index.{insert_unique}
use itcenter.Asset.States.{returned, AssignmentState, unassigned, assigned_to, pending_return}
use itcenter.Asset.Store.{
  Asset, Assignment, MovementType, Movement, RequestStatus, pending, fulfilled, cancelled,
  is_pending, ReturnRequest, ReturnDocument, AssetDb, is_asset, is_active_location, is_custody,
  awaits_return,
}
use itcenter.Asset.Lifecycle.{in_custody, end_assignment}
use itcenter.Platform.Secrets.{holds_secret}

pub record ReturnInput : Type 0 where
  pub asset_id : ℕ
  pub expected_version : ℕ
  pub due_at : ℕ
  pub reason : Text

unfoldable pub check_request_return : Tx → ReturnInput → AssetDb → Result Assignment
check_request_return tx i db = do
  throw_if (is_blank i.reason || leb i.due_at tx.now) validation_error
  asset ← or_throw (find_where (is_asset tx.tenant_id i.asset_id) db.assets) not_found
  assert_version asset.version i.expected_version
  throw_if (not (in_custody asset)) business_rule_violation
  or_throw (find_where (is_custody tx.tenant_id i.asset_id) db.assignments) business_rule_violation

-- `UPDATE asset.assets SET assignment_state=…,updated_at=now(),version=$1`.
unfoldable pub set_assignment_state : Tx → AssignmentState → ℕ → Asset → Asset
set_assignment_state tx state version a = record a {
  assignment_state = state;
  updated_at = tx.now;
  version = version;
}

abbrev pub new_return_request : Tx → ReturnInput → Assignment → ReturnRequest
new_return_request tx i current = record {
  tenant_id = tx.tenant_id;
  id = tx.uuid 0;
  asset_id = i.asset_id;
  assignment_id = current.id;
  user_id = current.user_id;
  due_at = i.due_at;
  reason = i.reason;
  status = pending;
  cancelled_reason = none;
  fulfilled_at = none;
}

-- Returns the id of the request.
unfoldable pub request_return : Tx → ReturnInput → AssetDb → Result (AssetDb × ℕ)
request_return tx i db = do
  current ← check_request_return tx i db
  requests ←
      insert_unique (awaits_return tx.tenant_id current.id) business_rule_violation
        (new_return_request tx i current) db.return_requests
  ok (
    record db {
      return_requests = requests;
      assets =
          update_where (is_asset tx.tenant_id i.asset_id)
            (set_assignment_state tx pending_return (i.expected_version + 1)) db.assets;
    },
    tx.uuid 0,
  )

abbrev pub is_request : ℕ → ℕ → ReturnRequest → Bool
is_request tenant id r = row_is tenant id r.tenant_id r.id

-- `WHERE tenant_id=$1 AND id=$2 AND asset_id=$3`.
abbrev pub is_request_of : ℕ → ℕ → ℕ → ReturnRequest → Bool
is_request_of tenant id asset_id r = is_request tenant id r && r.asset_id == asset_id

abbrev pub is_pending_return : AssignmentState → Bool
is_pending_return pending_return = true
is_pending_return _ = false

abbrev is_cancelled : RequestStatus → Bool
is_cancelled cancelled = true
is_cancelled _ = false

pub record CancelInput : Type 0 where
  pub asset_id : ℕ
  pub return_request_id : ℕ
  pub expected_version : ℕ
  pub reason : Text

pub record Cancelled : Type 0 where
  pub version : ℕ
  pub no_op : Bool

-- `cancelled_reason === input.reason.trim()`, where a missing reason is equal to none.
abbrev same_reason : Option Text → Text → Bool
same_reason none reason = false
same_reason (some given) reason = text_eq given reason

-- The request was cancelled before, for the same reason.
unfoldable pub already_cancelled : Option ReturnRequest → Text → Bool
already_cancelled none reason = false
already_cancelled (some r) reason = is_cancelled r.status && same_reason r.cancelled_reason reason

abbrev pub is_pending_request : Option ReturnRequest → Bool
is_pending_request none = false
is_pending_request (some r) = is_pending r.status

-- What the writes of a cancellation leave, once its guards have passed.
unfoldable pub apply_cancel : Tx → CancelInput → AssetDb → AssetDb
apply_cancel tx i db = record db {
  return_requests =
      update_where (is_request tx.tenant_id i.return_request_id)
        (λ r. record r { status = cancelled; cancelled_reason = some (trim i.reason) })
        db.return_requests;
  assets =
      update_where (is_asset tx.tenant_id i.asset_id)
        (set_assignment_state tx assigned_to (i.expected_version + 1)) db.assets;
}

unfoldable pub cancel_return_request : Tx → CancelInput → AssetDb → Result (AssetDb × Cancelled)
cancel_return_request tx i db = do
  throw_if (is_blank i.reason || ltb 2000 (length i.reason) || holds_secret i.reason)
      validation_error
  asset ← or_throw (find_where (is_asset tx.tenant_id i.asset_id) db.assets) not_found
  let req =
      find_where (is_request_of tx.tenant_id i.return_request_id i.asset_id) db.return_requests
  let done = do
    assert_version asset.version i.expected_version
    throw_if (not (is_pending_request req) || not (is_pending_return asset.assignment_state))
        business_rule_violation
    ok (apply_cancel tx i db, record { version = i.expected_version + 1; no_op = false })
  if already_cancelled req (trim i.reason)
      then ok (db, record { version = asset.version; no_op = true })
      else done

pub record ReceiveInput : Type 0 where
  pub asset_id : ℕ
  pub expected_version : ℕ
  pub return_request_id : ℕ
  pub received_location_id : ℕ
  -- The grades A to E are 1 to 5; any other text is another number.
  pub condition_grade : ℕ
  pub notes : Text

-- The rows of the asset and of the pending request, once every guard of `receiveReturn` has passed.
unfoldable pub check_receive : Tx → ReceiveInput → AssetDb → Result (Asset × ReturnRequest)
check_receive tx i db = do
  throw_if
      (is_blank_id i.return_request_id
        || is_blank_id i.received_location_id
        || not (leb 1 i.condition_grade && leb i.condition_grade 5)
        || is_blank i.notes)
      validation_error
  asset ← or_throw (find_where (is_asset tx.tenant_id i.asset_id) db.assets) not_found
  assert_version asset.version i.expected_version
  throw_if (not (is_pending_return asset.assignment_state)) business_rule_violation
  must_exist (find_where (is_active_location tx.tenant_id i.received_location_id) db.locations)
      not_found
  request ←
      or_throw
        (find_where (is_request_of tx.tenant_id i.return_request_id i.asset_id) db.return_requests)
        business_rule_violation
  throw_if (not (is_pending request.status)) business_rule_violation
  ok (asset, request)

-- The `UPDATE asset.assets` of a receipt, at one row.
unfoldable pub receive_asset : Tx → ReceiveInput → Asset → Asset
receive_asset tx i a = record a {
  lifecycle_state = returned;
  assignment_state = unassigned;
  current_location_id = some i.received_location_id;
  updated_at = tx.now;
  version = i.expected_version + 1;
}

unfoldable pub apply_receive :
    Tx → ReceiveInput → Asset → ReturnRequest → List ReturnDocument → AssetDb → AssetDb
apply_receive tx i asset request documents db =
    let movement : Movement = record {
      tenant_id = tx.tenant_id;
      id = tx.uuid 0;
      asset_id = i.asset_id;
      movement_type = MovementType.return;
      from_location_id = asset.current_location_id;
      to_location_id = i.received_location_id;
      from_user_id = request.user_id;
      to_user_id = none;
      reason = i.notes;
      completed_at = tx.now;
    } in
    record db {
      movements = movement ∷ db.movements;
      return_documents = documents;
      assignments = end_assignment tx request.assignment_id db.assignments;
      return_requests =
          update_where (is_request tx.tenant_id i.return_request_id)
            (λ r. record r { status = fulfilled; fulfilled_at = some tx.now }) db.return_requests;
      assets = update_where (is_asset tx.tenant_id i.asset_id) (receive_asset tx i) db.assets;
    }

-- The index `asset_one_return_document`; an error from it is not caught.
abbrev pub documents_request : ℕ → ℕ → ReturnDocument → Bool
documents_request tenant request_id d = row_is tenant request_id d.tenant_id d.return_request_id

abbrev pub new_return_document : Tx → ReceiveInput → ReturnDocument
new_return_document tx i = record {
  tenant_id = tx.tenant_id;
  id = tx.uuid 1;
  return_request_id = i.return_request_id;
  asset_id = i.asset_id;
  condition_grade = i.condition_grade;
  received_location_id = i.received_location_id;
  notes = i.notes;
}

unfoldable pub receive_return : Tx → ReceiveInput → AssetDb → Result (AssetDb × ℕ)
receive_return tx i db = do
  (asset, request) ← check_receive tx i db
  documents ←
      insert_unique (documents_request tx.tenant_id i.return_request_id) internal_error
        (new_return_document tx i) db.return_documents
  ok (apply_receive tx i asset request documents db, i.expected_version + 1)

-- `readReturnRequestState`.
unfoldable pub read_return_request_state : Tx → ℕ → AssetDb → Result (RequestStatus × ℕ)
read_return_request_state tx id db = do
  r ← or_throw (find_where (is_request tx.tenant_id id) db.return_requests) not_found
  ok (r.status, r.asset_id)
