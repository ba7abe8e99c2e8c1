-- ===== src/Procurement/Orders.antt =====
-- modules/procurement/application/purchase-orders.ts: the tables of purchase orders.
use itcenter.Base.{
  ℕ, Bool, true, false, not, ◌&&◌, Option, none, some, List, [], ◌∷◌, ◌==◌, if◌then◌else◌, includes,
  find_where, Text, text_eq,
}
use itcenter.Platform.Tx.{row_is}
use itcenter.Platform.Errors.{business_rule_violation, Result, ok, ◌>>=◌, ◌>>◌, throw_if, or_throw}
use itcenter.Base.Int.{ℤ}
use itcenter.Control.Approval.{ApprovalRequest, SourceType, po_issue, po_amendment, is_request}
use itcenter.Procurement.Suppliers.{Supplier}
use itcenter.Procurement.SupplierStates.{SupplierState, approved, preferred}
use itcenter.Procurement.Snapshots.{Snapshot, SnapshotLine}

pub data Lifecycle : Type 0 where
  draft issued on_hold closed cancelled : Lifecycle

pub data ReceiptProgress : Type 0 where
  not_received partially_received fully_received : ReceiptProgress

abbrev pub lifecycle_code : Lifecycle → ℕ
lifecycle_code draft = 0
lifecycle_code issued = 1
lifecycle_code on_hold = 2
lifecycle_code closed = 3
lifecycle_code cancelled = 4

abbrev pub progress_code : ReceiptProgress → ℕ
progress_code not_received = 0
progress_code partially_received = 1
progress_code fully_received = 2

abbrev pub is_state : Lifecycle → Lifecycle → Bool
is_state s t = lifecycle_code t == lifecycle_code s

abbrev pub is_progress : ReceiptProgress → ReceiptProgress → Bool
is_progress s t = progress_code t == progress_code s

-- `["ISSUED", "ON_HOLD"].includes(…)`.
abbrev pub is_open_order : Lifecycle → Bool
is_open_order s = includes lifecycle_code (issued ∷ on_hold ∷ []) s

pub data OrderCommand : Type 0 where
  create update_draft issue hold resume amend cancel close close_remainder : OrderCommand

-- A row of `procurement.purchase_orders`; the quantities by the ids of order lines.
pub record PurchaseOrder : Type 0 where
  pub tenant_id : ℕ
  pub id : ℕ
  pub supplier_id : Text
  pub procurement_request_id : Option Text
  pub rfq_id : Option Text
  pub source_quotation_id : Option Text
  pub issue_approval_request_id : Option ℕ
  pub amendment_approval_request_id : Option ℕ
  pub issued_at : Option ℕ
  pub expected_delivery : Option Text
  pub lifecycle_state : Lifecycle
  pub receipt_state : ReceiptProgress
  pub committed_receipt_count : ℕ
  pub received_quantities : List (ℕ × ℕ)
  pub remaining_quantities : List (ℕ × ℤ)
  pub currency : Text
  pub draft_snapshot : Snapshot
  pub aggregate_version : ℕ
  pub current_commercial_version : Option ℕ
  pub created_by : ℕ
  pub updated_at : ℕ

-- A row of `procurement.purchase_order_versions`, of `purchase_order_lines` and of `purchase_order_history`,
-- the last without its snapshots.
pub record CommercialVersion : Type 0 where
  pub tenant_id : ℕ
  pub purchase_order_id : ℕ
  pub commercial_version : ℕ
  pub base_aggregate_version : ℕ
  pub snapshot : Snapshot
  pub snapshot_hash : Text
  pub reason : Text
  pub approval_request_id : Option ℕ
  pub actor_id : ℕ

pub record OrderLine : Type 0 where
  pub id : ℕ
  pub tenant_id : ℕ
  pub purchase_order_id : ℕ
  -- `none` is the draft.
  pub commercial_version : Option ℕ
  pub content : SnapshotLine

pub record OrderHistory : Type 0 where
  pub tenant_id : ℕ
  pub purchase_order_id : ℕ
  pub aggregate_version : ℕ
  -- `none` is GOODS_RECEIPT.POST.
  pub action : Option OrderCommand
  pub previous_lifecycle_state : Option Lifecycle
  pub lifecycle_state : Lifecycle
  pub previous_receipt_state : Option ReceiptProgress
  pub receipt_state : ReceiptProgress
  pub commercial_version : Option ℕ
  pub actor_id : ℕ
  pub reason : Text

-- What is read of `procurement.rfqs` and of `procurement.quotations`.
pub record Rfq : Type 0 where
  pub tenant_id : ℕ
  pub id : Text
  pub is_awarded : Bool
  pub awarded_quotation_id : Option Text

pub record Quotation : Type 0 where
  pub tenant_id : ℕ
  pub id : Text
  pub rfq_id : Text
  pub supplier_id : Text
  pub is_accepted : Bool

pub record OrderDb : Type 0 where
  pub orders : List PurchaseOrder
  pub versions : List CommercialVersion
  pub lines : List OrderLine
  pub history : List OrderHistory
  pub suppliers : List Supplier
  pub rfqs : List Rfq
  pub quotations : List Quotation
  pub requests : List ApprovalRequest

abbrev pub is_order : ℕ → ℕ → PurchaseOrder → Bool
is_order tenant id o = row_is tenant id o.tenant_id o.id

abbrev pub same_version : Option ℕ → Option ℕ → Bool
same_version none none = true
same_version (some v) (some w) = v == w
same_version _ _ = false

-- `purchase_order_id=$2 AND commercial_version=$3`, or `IS NULL` for the draft.
abbrev pub is_line_of : ℕ → ℕ → Option ℕ → OrderLine → Bool
is_line_of tenant order version l =
    row_is tenant order l.tenant_id l.purchase_order_id && same_version l.commercial_version version

abbrev pub is_version_of : ℕ → ℕ → ℕ → CommercialVersion → Bool
is_version_of tenant order version v =
    row_is tenant order v.tenant_id v.purchase_order_id && v.commercial_version == version

-- The guard of an amendment and of a cancellation on what was received.
abbrev pub is_unreceived : PurchaseOrder → Bool
is_unreceived o = is_progress not_received o.receipt_state && o.committed_receipt_count == 0

abbrev pub same_text : Option Text → Option Text → Bool
same_text none none = true
same_text (some s) (some t) = text_eq s t
same_text _ _ = false

-- `["APPROVED", "PREFERRED"].includes(…)`.
abbrev pub may_be_ordered_from : SupplierState → Bool
may_be_ordered_from approved = true
may_be_ordered_from preferred = true
may_be_ordered_from _ = false

-- The supplier of an order; `id_of` gives the number that stands for the text of an id.
unfoldable pub is_supplier_ready : (Text → ℕ) → ℕ → Text → List Supplier → Bool
is_supplier_ready id_of tenant supplier suppliers =
    elim (find_where (λ (s : Supplier). row_is tenant (id_of supplier) s.tenant_id s.id)
      suppliers) [ none ↦ false | some s ↦ may_be_ordered_from s.state ]

abbrev pub is_winning : PurchaseOrder → Quotation → Bool
is_winning o q = q.is_accepted && text_eq q.supplier_id o.supplier_id

-- The awarded quotation of the order's source, which must be the one that the order names.
unfoldable pub is_source_awarded : PurchaseOrder → OrderDb → Bool
is_source_awarded o db = elim o.rfq_id [
  | none ↦ true
  | some rfq ↦
      elim (find_where (λ (r : Rfq). r.tenant_id == o.tenant_id && text_eq r.id rfq) db.rfqs) [
        | none ↦ false
        | some r ↦
            elim (find_where
              (λ (q : Quotation).
                q.tenant_id == o.tenant_id
                && text_eq q.rfq_id rfq
                && same_text (some q.id) r.awarded_quotation_id
                && same_text (some q.id) o.source_quotation_id)
              db.quotations) [ none ↦ false | some q ↦ r.is_awarded && is_winning o q ]
      ]
]

-- `snapshotFor`: the draft of a draft, the snapshot of the current version of any other order.
abbrev pub snapshot_of : Option CommercialVersion → Option Snapshot
snapshot_of none = none
snapshot_of (some v) = some v.snapshot

unfoldable pub committed_snapshot : ℕ → ℕ → Option ℕ → List CommercialVersion → Option Snapshot
committed_snapshot tenant order none versions = none
committed_snapshot tenant order (some v) versions =
    snapshot_of (find_where (is_version_of tenant order v) versions)

unfoldable pub current_snapshot : PurchaseOrder → OrderDb → Option Snapshot
current_snapshot o db =
    if is_state draft o.lifecycle_state
    then some o.draft_snapshot
    else committed_snapshot o.tenant_id o.id o.current_commercial_version db.versions

-- `currentApproval`: the linked request, which must be one for the order.
abbrev pub same_source : SourceType → SourceType → Bool
same_source po_issue po_issue = true
same_source po_amendment po_amendment = true
same_source _ _ = false

unfoldable pub current_approval :
    SourceType → PurchaseOrder → Option ℕ → OrderDb → Result (Option ApprovalRequest)
current_approval source o none db = ok none
current_approval source o (some id) db = do
  r ← or_throw (find_where (is_request o.tenant_id id) db.requests) business_rule_violation
  throw_if (not (r.source_id == o.id && same_source r.source_type source)) business_rule_violation
  ok (some r)
