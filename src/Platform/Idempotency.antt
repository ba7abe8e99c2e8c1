-- ===== src/Platform/Idempotency.antt =====
-- packages/messaging/src/idempotency.ts: the records of operations that were executed, by which a repeated
-- request gets the response of the first.
use itcenter.Base.{
  ℕ, Bool, not, ◌&&◌, ◌||◌, Option, none, some, List, ◌∷◌, leb, ◌==◌, any, find_where, update_where,
  Text, text_eq,
}
use itcenter.Platform.Tx.{Tx, row_is, is_blank_id}
use itcenter.Platform.Errors.{
  idempotency_key_conflict, operation_in_progress, validation_error, internal_error, Result, ok,
  ◌>>=◌, ◌>>◌, throw_if, or_throw,
}

-- `[tenantId, principalId, operation, businessScope, key]`.
pub record Scope : Type 0 where
  pub tenant_id : ℕ
  pub principal_id : ℕ
  pub operation : ℕ
  pub business_scope : ℕ
  pub key : ℕ

pub record StoredResponse : Type 0 where
  pub status : ℕ
  pub body : Text

-- What a record says of its operation; a response is there once the operation has succeeded, and the
-- operation is in progress until then.
pub record Entry : Type 0 where
  pub request_hash : Text
  pub response : Option StoredResponse
  pub expires_at : ℕ

-- A row of `platform.idempotency_records`.
pub record IdempotencyRecord : Type 0 where
  pub id : ℕ
  pub scope : Scope
  pub entry : Entry

pub record IdempotencyIntent (Request : Type 0) : Type 0 where
  pub principal_id : ℕ
  pub operation : ℕ
  pub business_scope : ℕ
  pub key : ℕ
  pub semantic_request : Request
  pub expires_at : ℕ

unfoldable pub scope_eq : Scope → Scope → Bool
scope_eq a b =
    row_is b.tenant_id b.principal_id a.tenant_id a.principal_id
    && (row_is b.operation b.business_scope a.operation a.business_scope && a.key == b.key)

abbrev pub scope_of : {Request : Type 0} → Tx → IdempotencyIntent Request → Scope
scope_of tx i = record {
  tenant_id = tx.tenant_id;
  principal_id = i.principal_id;
  operation = i.operation;
  business_scope = i.business_scope;
  key = i.key;
}

abbrev pub is_unscoped : {Request : Type 0} → IdempotencyIntent Request → Bool
is_unscoped i =
    is_blank_id i.principal_id
    || is_blank_id i.operation
    || is_blank_id i.business_scope
    || is_blank_id i.key

abbrev pub is_row : Scope → IdempotencyRecord → Bool
is_row k r = scope_eq r.scope k

-- The response of an earlier execution, to a request with a hash.
unfoldable pub replay : Tx → Text → Entry → Result StoredResponse
replay tx hash e = do
  throw_if (leb e.expires_at tx.now) idempotency_key_conflict
  throw_if (not (text_eq e.request_hash hash)) idempotency_key_conflict
  or_throw e.response operation_in_progress

-- `SET state='SUCCEEDED',response_status=…,result_reference=…`.
abbrev pub succeed : StoredResponse → IdempotencyRecord → IdempotencyRecord
succeed r row = record row { entry = record row.entry { response = some r } }

abbrev pub new_record :
    {Request : Type 0} → Tx → IdempotencyIntent Request → Text → IdempotencyRecord
new_record tx i hash = record {
  id = tx.uuid 0;
  scope = scope_of tx i;
  entry = record { request_hash = hash; response = none; expires_at = i.expires_at };
}

-- The hash of a request.
module _ {Request : Type 0} (request_hash : Request → Result Text) where
  unfoldable pub find_previous :
      Tx → IdempotencyIntent Request → List IdempotencyRecord → Result (Option StoredResponse)
  find_previous tx i rows = do
    throw_if (is_unscoped i) validation_error
    elim (find_where (is_row (scope_of tx i)) rows) [
      | none ↦ ok none
      | some r ↦ do
        throw_if (leb r.entry.expires_at tx.now) idempotency_key_conflict
        hash ← request_hash i.semantic_request
        response ← replay tx hash r.entry
        ok (some response)
    ]

-- The work of the caller is on the rest of the database.
module _ {Request S : Type 0} where
  -- The insert, the work, and the update by the record's id. The insert meets the primary key and the check
  -- that a record expires after its creation.
  unfoldable pub run_work :
      Tx
      → IdempotencyIntent Request
      → Text
      → (S → Result (S × StoredResponse))
      → List IdempotencyRecord
      → S
      → Result ((List IdempotencyRecord × S) × StoredResponse)
  run_work tx i hash work rows s = do
    throw_if (leb i.expires_at tx.now || any (λ r. r.id == tx.uuid 0) rows) internal_error
    (s', response) ← work s
    ok (
      (
        update_where (λ r. r.id == tx.uuid 0 && r.scope.tenant_id == tx.tenant_id)
            (succeed response) (new_record tx i hash ∷ rows),
        s',
      ),
      response,
    )

  -- A request whose scope has a record gets that record's response.
  unfoldable pub answer :
      Tx
      → IdempotencyIntent Request
      → Text
      → (S → Result (S × StoredResponse))
      → List IdempotencyRecord
      → S
      → Option IdempotencyRecord
      → Result ((List IdempotencyRecord × S) × StoredResponse)
  answer tx i hash work rows s none = run_work tx i hash work rows s
  answer tx i hash work rows s (some r) = do
    response ← replay tx hash r.entry
    ok ((rows, s), response)

module _ {Request S : Type 0} (request_hash : Request → Result Text) where
  -- `execute`; `acquired` is whether the advisory lock of the scope was free.
  unfoldable pub execute :
      Tx
      → Bool
      → IdempotencyIntent Request
      → (S → Result (S × StoredResponse))
      → List IdempotencyRecord
      → S
      → Result ((List IdempotencyRecord × S) × StoredResponse)
  execute tx acquired i work rows s = do
    throw_if (is_unscoped i) validation_error
    throw_if (not acquired) operation_in_progress
    hash ← request_hash i.semantic_request
    answer tx i hash work rows s (find_where (is_row (scope_of tx i)) rows)
