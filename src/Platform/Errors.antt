-- ===== src/Platform/Errors.antt =====
-- packages/api-contracts/src/index.ts: the error codes, their responses, and `assertVersion`.
use itcenter.Base.{
  ◌⊎◌, inl, inr, eq_of_==, ◌≢◌, refl, ℕ, ◌^◌, ◌-◌, ◌≡◌, Bool, true, false, not, ◌||◌, ◌==◌, leb,
  if◌then◌else◌, arith, Option, none, some,
}

pub data ErrorCode : Type 0 where
  validation_error tenant_context_required invalid_tenant_context : ErrorCode
  authentication_required identity_not_provisioned tenant_membership_denied : ErrorCode
  identity_link_conflict permission_denied not_found version_conflict : ErrorCode
  idempotency_key_conflict operation_in_progress business_rule_violation : ErrorCode
  goods_receipt_over_ordered_quantity goods_receipt_po_not_receivable : ErrorCode
  goods_receipt_blocking_exception goods_receipt_unit_identity_duplicate : ErrorCode
  cost_source_not_effective cost_provenance_identity_conflict invoice_duplicate : ErrorCode
  invoice_match_exception_required invoice_approval_stale renewal_already_open : ErrorCode
  commercial_document_integrity_conflict contract_approval_stale : ErrorCode
  automation_rule_invalid automation_rule_version_conflict automation_policy_denied : ErrorCode
  automation_action_unsupported automation_intent_not_ready : ErrorCode
  automation_authorization_denied automation_target_scope_denied : ErrorCode
  automation_approval_stale automation_conflict_open automation_kill_switch_active : ErrorCode
  automation_action_cancel_forbidden automation_reconciliation_required : ErrorCode
  agent_command_id_conflict agent_command_rejected agent_message_conflict : ErrorCode
  enrollment_token_invalid action_intent_conflict approval_context_stale : ErrorCode
  credit_note_over_creditable_amount dependency_unavailable internal_error : ErrorCode

pub data Category : Type 0 where
  validation authentication authorization conflict missing business_rule dependency : Category
  internal_bug : Category

-- The table `errors`.
unfoldable pub errors : ErrorCode → ℕ × Category
errors validation_error = (400, validation)
errors tenant_context_required = (400, validation)
errors invalid_tenant_context = (400, validation)
errors authentication_required = (401, authentication)
errors identity_not_provisioned = (403, authorization)
errors tenant_membership_denied = (403, authorization)
errors identity_link_conflict = (409, conflict)
errors permission_denied = (403, authorization)
errors not_found = (404, missing)
errors version_conflict = (409, conflict)
errors idempotency_key_conflict = (409, conflict)
errors operation_in_progress = (409, conflict)
errors business_rule_violation = (422, business_rule)
errors goods_receipt_over_ordered_quantity = (422, business_rule)
errors goods_receipt_po_not_receivable = (409, conflict)
errors goods_receipt_blocking_exception = (422, business_rule)
errors goods_receipt_unit_identity_duplicate = (409, conflict)
errors cost_source_not_effective = (422, business_rule)
errors cost_provenance_identity_conflict = (409, conflict)
errors invoice_duplicate = (409, conflict)
errors invoice_match_exception_required = (409, conflict)
errors invoice_approval_stale = (409, conflict)
errors renewal_already_open = (409, conflict)
errors commercial_document_integrity_conflict = (409, conflict)
errors contract_approval_stale = (409, conflict)
errors automation_rule_invalid = (422, business_rule)
errors automation_rule_version_conflict = (409, conflict)
errors automation_policy_denied = (403, authorization)
errors automation_action_unsupported = (422, business_rule)
errors automation_intent_not_ready = (409, conflict)
errors automation_authorization_denied = (403, authorization)
errors automation_target_scope_denied = (403, authorization)
errors automation_approval_stale = (409, conflict)
errors automation_conflict_open = (409, conflict)
errors automation_kill_switch_active = (409, conflict)
errors automation_action_cancel_forbidden = (409, conflict)
errors automation_reconciliation_required = (409, conflict)
errors agent_command_id_conflict = (409, conflict)
errors agent_command_rejected = (409, conflict)
errors agent_message_conflict = (409, conflict)
errors enrollment_token_invalid = (401, authentication)
errors action_intent_conflict = (409, conflict)
errors approval_context_stale = (409, conflict)
errors credit_note_over_creditable_amount = (422, business_rule)
errors dependency_unavailable = (503, dependency)
errors internal_error = (500, internal_bug)

pub data Severity : Type 0 where
  error warning : Severity

-- `throw new ApplicationError(code, …, retryable)`.
pub record ApplicationError : Type 0 where
  pub code : ErrorCode
  pub retryable : Bool

pub record ErrorBody : Type 0 where
  pub status : ℕ
  pub code : ErrorCode
  pub category : Category
  pub severity : Severity
  pub retry_with_backoff : Bool

-- `none` is a thrown value that is no `ApplicationError`.
unfoldable pub error_response : Option ApplicationError → ErrorBody
unfolding errors
error_response thrown =
    let e : ApplicationError = elim thrown [
      | none ↦ record { code = internal_error; retryable = false }
      | some given ↦ given
    ] in
    record {
      status = (errors e.code).0;
      code = e.code;
      category = (errors e.code).1;
      severity = if leb 500 (errors e.code).0 then error else warning;
      retry_with_backoff = e.retryable;
    }

-- What a command returns, or the code that it throws.
pub data Result {ℓ} (A : Type ℓ) : Type ℓ where
  ok : A → Result A
  err : ErrorCode → Result A

infixl 5 ◌>>=◌ ◌>>◌
abbrev pub ◌>>=◌ {ℓ κ} : {A : Type ℓ} {B : Type κ} → Result A → (A → Result B) → Result B
ok a >>= f = f a
err e >>= f = err e

abbrev pub ◌>>◌ {ℓ} : {B : Type ℓ} → Result (Unit {0}) → Result B → Result B
ok u >> k = k
err e >> k = err e

-- `if (test) throw new ApplicationError(code, …)`.
unfoldable pub throw_if : Bool → ErrorCode → Result (Unit {0})
throw_if true e = err e
throw_if false e = ok tt

-- `if (!result.rowCount) throw …`, and the row otherwise.
unfoldable pub or_throw {ℓ} : {A : Type ℓ} → Option A → ErrorCode → Result A
or_throw none e = err e
or_throw (some a) e = ok a

-- The same, where the row itself is not read.
unfoldable pub must_exist {ℓ} : {A : Type ℓ} → Option A → ErrorCode → Result (Unit {0})
must_exist none e = err e
must_exist (some a) e = ok tt

-- `Number.isSafeInteger` of a number that is not negative.
abbrev pub is_safe_integer : ℕ → Bool
is_safe_integer n = leb n (2 ^ 53 - 1)

unfoldable pub assert_version : ℕ → ℕ → Result (Unit {0})
unfolding throw_if
assert_version actual expected =
    throw_if (not (is_safe_integer expected) || not (actual == expected)) version_conflict

-- The steps of a chain that has succeeded have succeeded.
module _ {ℓ} {A : Type ℓ} where
  pub bind-inv {κ} :
      {B : Type κ} (m : Result B) (f : B → Result A) {r : A}
      → (m >>= f) ≡ ok r
      → (b : B) × (m ≡ ok b) × (f b ≡ ok r)
  bind-inv (ok b) f h = (b, refl, h)
  bind-inv (err e) f h = cc

-- What a success returns.
pub ok_inj {ℓ} : {A : Type ℓ} (a b : A) → ok a ≡ ok b → b ≡ a
ok_inj a b h = cc

pub >>-inv {κ} :
    {B : Type κ} (m : Result (Unit {0})) (k : Result B) {r : B}
    → (m >> k) ≡ ok r
    → (m ≡ ok tt) × (k ≡ ok r)
>>-inv (ok tt) k h = (refl, h)
>>-inv (err e) k h = cc

-- A stale version is refused.
pub assert_version-stale :
    (actual expected : ℕ)
    → actual ≢ expected
    → assert_version actual expected ≡ err version_conflict
unfolding assert_version
assert_version-stale actual expected h = ground (arith, eq_of_== actual expected)

pub Result-cases {ℓ} :
    {A : Type ℓ} (r : Result A) → ((a : A) × (r ≡ ok a)) ⊎ ((e : ErrorCode) × (r ≡ err e))
Result-cases (ok a) = inl (a, refl)
Result-cases (err e) = inr (e, refl)
