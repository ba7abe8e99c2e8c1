-- ===== src/Control/Approval.antt =====
-- modules/control-plane/application/approval.ts: requests for an approval, and the decisions on them.
use itcenter.Base.{
  ℕ, ◌+◌, Bool, true, false, not, ◌&&◌, ◌||◌, Option, List, ◌∷◌, ◌==◌, any, find_where,
  update_where, Text, is_blank,
}
use itcenter.Platform.Tx.{Tx, row_is}
use itcenter.Platform.Errors.{
  validation_error, not_found, business_rule_violation, internal_error, Result, ok, ◌>>=◌, ◌>>◌,
  throw_if, or_throw, assert_version,
}
use itcenter.Base.Json.{Json}

-- The states of a request; the last two are of the table only.
pub data ApprovalState : Type 0 where
  pending approved rejected changes_requested expired cancelled : ApprovalState

abbrev pub is_pending : ApprovalState → Bool
is_pending pending = true
is_pending _ = false

pub data Decision : Type 0 where
  approve reject request_changes : Decision

abbrev pub decided_state : Decision → ApprovalState
decided_state approve = approved
decided_state reject = rejected
decided_state request_changes = changes_requested

-- A row of `control.approval_policies`.
pub record ApprovalPolicy : Type 0 where
  pub tenant_id : ℕ
  pub id : ℕ
  pub version : ℕ
  pub active : Bool

-- The types of a source; the sources of the first two have one request each.
pub data SourceType : Type 0 where
  invoice_approval invoice_match_exception po_issue po_amendment : SourceType
  other_source : ℕ → SourceType

abbrev pub same_indexed_type : SourceType → SourceType → Bool
same_indexed_type invoice_approval invoice_approval = true
same_indexed_type invoice_match_exception invoice_match_exception = true
same_indexed_type _ _ = false

-- A row of `control.approval_requests`.
pub record ApprovalRequest : Type 0 where
  pub tenant_id : ℕ
  pub id : ℕ
  pub source_type : SourceType
  pub source_id : ℕ
  pub policy_id : ℕ
  pub policy_version : ℕ
  pub requested_by : ℕ
  pub context : Json
  pub state : ApprovalState
  pub version : ℕ
  pub updated_at : ℕ

-- A row of `control.approval_decisions`.
pub record ApprovalDecision : Type 0 where
  pub tenant_id : ℕ
  pub id : ℕ
  pub request_id : ℕ
  pub actor_id : ℕ
  pub decision : Decision
  pub reason : Text

pub record ApprovalDb : Type 0 where
  pub policies : List ApprovalPolicy
  pub requests : List ApprovalRequest
  pub decisions : List ApprovalDecision

pub record ApprovalInput : Type 0 where
  pub source_type : SourceType
  pub source_id : ℕ
  pub policy_id : ℕ
  pub policy_version : ℕ
  pub requester_id : ℕ
  -- `input.context ?? {}`.
  pub context : Json

pub record DecisionInput : Type 0 where
  pub request_id : ℕ
  pub expected_version : ℕ
  pub actor_id : ℕ
  -- `none` is a text that is no decision.
  pub decision : Option Decision
  pub reason : Text

abbrev pub is_request : ℕ → ℕ → ApprovalRequest → Bool
is_request tenant id r = row_is tenant id r.tenant_id r.id

abbrev pub is_decision_on : ℕ → ℕ → ApprovalDecision → Bool
is_decision_on tenant request d = row_is tenant request d.tenant_id d.request_id

abbrev pub is_active_policy : Tx → ApprovalInput → ApprovalPolicy → Bool
is_active_policy tx i p =
    row_is tx.tenant_id i.policy_id p.tenant_id p.id && p.version == i.policy_version && p.active

abbrev pub new_request : Tx → ApprovalInput → ApprovalRequest
new_request tx i = record {
  tenant_id = tx.tenant_id;
  id = tx.uuid 0;
  source_type = i.source_type;
  source_id = i.source_id;
  policy_id = i.policy_id;
  policy_version = i.policy_version;
  requested_by = i.requester_id;
  context = i.context;
  state = pending;
  version = 1;
  updated_at = tx.now;
}

-- The indexes that an insert meets: the primary key, and one request of an invoice.
abbrev pub is_taken : Tx → ApprovalInput → ApprovalRequest → Bool
is_taken tx i r =
    r.id == tx.uuid 0
    || (r.tenant_id == tx.tenant_id
        && same_indexed_type r.source_type i.source_type
        && r.source_id == i.source_id)

-- `createApproval`.
unfoldable pub create_approval :
    Tx → ApprovalInput → ApprovalDb → Result (ApprovalDb × ApprovalRequest)
create_approval tx i db = do
  _ ← or_throw (find_where (is_active_policy tx i) db.policies) not_found
  throw_if (any (is_taken tx i) db.requests) internal_error
  ok (record db { requests = new_request tx i ∷ db.requests }, new_request tx i)

abbrev pub decide_row : Tx → DecisionInput → Decision → ApprovalRequest → ApprovalRequest
decide_row tx i d r = record r {
  state = decided_state d;
  version = i.expected_version + 1;
  updated_at = tx.now;
}

abbrev pub new_decision : Tx → DecisionInput → Decision → ApprovalDecision
new_decision tx i d = record {
  tenant_id = tx.tenant_id;
  id = tx.uuid 0;
  request_id = i.request_id;
  actor_id = i.actor_id;
  decision = d;
  reason = i.reason;
}

-- The guards of a decision, in their order.
unfoldable pub check_decision :
    Tx → DecisionInput → ApprovalDb → Result (Decision × ApprovalRequest)
check_decision tx i db = do
  d ← or_throw i.decision validation_error
  throw_if (is_blank i.reason) validation_error
  r ← or_throw (find_where (is_request tx.tenant_id i.request_id) db.requests) not_found
  assert_version r.version i.expected_version
  throw_if (r.requested_by == i.actor_id) business_rule_violation
  throw_if (not (is_pending r.state)) business_rule_violation
  ok (d, r)

-- `decideApproval`.
unfoldable pub decide_approval :
    Tx → DecisionInput → ApprovalDb → Result (ApprovalDb × ApprovalRequest)
decide_approval tx i db = do
  (d, r) ← check_decision tx i db
  throw_if (any (λ x. x.id == tx.uuid 0) db.decisions) internal_error
  ok (
    record db {
      requests =
          update_where (is_request tx.tenant_id i.request_id) (decide_row tx i d) db.requests;
      decisions = new_decision tx i d ∷ db.decisions;
    },
    decide_row tx i d r,
  )
