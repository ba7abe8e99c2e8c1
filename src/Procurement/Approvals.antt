-- ===== src/Procurement/Approvals.antt =====
-- modules/procurement/application/purchase-orders.ts: `linkPurchaseOrderApproval` and the commands on purchase orders.
use itcenter.Base.{
  ℕ, Bool, true, false, not, ◌&&◌, ◌||◌, Option, none, some, List, [], ◌∷◌, ltb, leb, ◌==◌,
  if◌then◌else◌, find_where, update_where, Text, codes, text_eq,
}
use itcenter.Platform.Tx.{Tx}
use itcenter.Platform.Errors.{
  not_found, business_rule_violation, Result, ok, ◌>>=◌, ◌>>◌, throw_if, or_throw,
}
use itcenter.Base.Int.{pos}
use itcenter.Base.Json.{
  Json, finite, null, number, text, array, object, Items, nil, cons, Fields, end, field, lookup,
}
use itcenter.Automation.Patterns.{Language}
use itcenter.Automation.Values.{stable}
use itcenter.Control.Approval.{ApprovalRequest, ApprovalState, approved, SourceType, po_issue}
use itcenter.Procurement.Snapshots.{Doubles, Snapshot, SnapshotLine, has_form, copies, is_digit}
use itcenter.Procurement.Orders.{
  draft, is_state, is_open_order, OrderCommand, PurchaseOrder, OrderDb, is_order, is_unreceived,
  current_snapshot, current_approval,
}

-- What the code stands on: the arithmetic and the texts of the language, SHA-256 in hexadecimal digits, and
-- the number that stands for the text of an id, which is `none` where the database reads the text as no uuid.
pub record Ground : Type 0 where
  pub doubles : Doubles
  pub language : Language
  pub sha256 : Text → Text
  pub id_of : Text → ℕ
  pub uuid_of : Text → Option ℕ
  pub upper : Text → Text
  pub lower : Text → Text

pub record OrderInput : Type 0 where
  pub command : OrderCommand
  pub id : ℕ
  pub expected_version : ℕ
  pub actor_id : ℕ
  pub reason : Text
  pub body : Fields

-- The order of the code units of texts, by which `sort` orders keys.
unfoldable pub text_before : Text → Text → Bool
text_before [] [] = false
text_before [] (d ∷ ds) = true
text_before (c ∷ cs) [] = false
text_before (c ∷ cs) (d ∷ ds) = let rest = text_before cs ds in if c == d then rest else ltb c d

-- `{ ...before, ...after }`, as far as its keys are looked up.
unfoldable pub merged : Fields → Fields → Fields
merged before end = before
merged before (field k v fs) = field k v (merged before fs)

abbrev pub json_text : Option Text → Json
json_text none = null
json_text (some t) = text t

abbrev pub json_number : ℕ → Json
json_number n = number (finite (pos n))

-- The guards of one approval: its state, and what its context binds.
unfoldable pub binds_number : ℕ → Option Json → Bool
binds_number n (some (number (finite (pos m)))) = m == n
binds_number n _ = false

unfoldable pub binds_text : Text → Option Json → Bool
binds_text t (some (text u)) = text_eq u t
binds_text t _ = false

-- The values that a context, if it is an object, has for keys.
unfoldable pub context_fields : Json → Option Fields
context_fields (object fs) = some fs
context_fields _ = none

abbrev pub binds_state : ApprovalState → Bool
binds_state approved = true
binds_state _ = false

abbrev pub is_approved : ApprovalRequest → Bool
is_approved r = binds_state r.state

-- No approval is linked, or it is approved and its context passes a test.
unfoldable pub is_gate_open : (Fields → Bool) → Option ApprovalRequest → Bool
is_gate_open test none = true
is_gate_open test (some r) = elim (context_fields r.context) [
  | none ↦ false
  | some fs ↦ is_approved r && test fs
]

abbrev pub request_id : Option ApprovalRequest → Option ℕ
request_id none = none
request_id (some r) = some r.id

module _ (g : Ground) where
  -- A snapshot as the value that the database keeps.
  unfoldable pub line_fields : SnapshotLine → Fields
  line_fields l = field (codes "line_number") (json_number (g.doubles.whole l.line_number)) (
      field (codes "item_type") (text l.item_type) (
        field (codes "description") (text l.description) (
          field (codes "item_reference_id") (json_text l.item_reference_id) (
            field (codes "unit") (json_text l.unit) (
              field (codes "quantity") (json_number l.quantity) (
                field (codes "unit_price") (json_number l.unit_price) (
                  field (codes "tax_amount") (json_number l.tax_amount) (
                    field (codes "discount_amount") (json_number l.discount_amount) (
                      field (codes "expected_delivery") (json_text l.expected_delivery)
                        (field (codes "total") (json_number l.total) end))))))))))

  unfoldable pub line_items : List SnapshotLine → Items
  line_items [] = nil
  line_items (l ∷ ls) = cons (object (line_fields l)) (line_items ls)

  unfoldable pub snapshot_fields : Snapshot → Fields
  snapshot_fields s = field (codes "supplier_id") (text s.supplier_id) (
      field (codes "procurement_request_id") (json_text s.procurement_request_id) (
        field (codes "rfq_id") (json_text s.rfq_id) (
          field (codes "source_quotation_id") (json_text s.source_quotation_id) (
            field (codes "currency") (text s.currency) (
              field (codes "expected_delivery") (json_text s.expected_delivery) (
                field (codes "payment_terms") (json_text s.payment_terms) (
                  field (codes "delivery_terms") (json_text s.delivery_terms) (
                    field (codes "delivery_location") (json_text s.delivery_location) (
                      field (codes "terms") (object s.terms)
                        (field (codes "lines") (array (line_items s.lines)) end))))))))))

  -- `canonical`, which sorts keys by their code units, and `snapshotHash`.
  unfoldable pub canonical : Json → Text
  canonical v = stable (record g.language { locale_before = text_before }) v

  unfoldable pub snapshot_hash : Option Snapshot → Text
  snapshot_hash none = g.sha256 (codes "null")
  snapshot_hash (some s) = g.sha256 (canonical (object (snapshot_fields s)))

  abbrev pub fields_or_none : Option Snapshot → Fields
  fields_or_none none = end
  fields_or_none (some s) = snapshot_fields s

  -- What the context of an approval of an issue, and of an amendment, must bind.
  unfoldable pub binds_issue : PurchaseOrder → Fields → Bool
  binds_issue o fs =
      binds_number (g.doubles.whole o.aggregate_version) (lookup (codes "aggregate_version") fs)
      && binds_text (snapshot_hash (some o.draft_snapshot))
          (lookup (codes "commercial_snapshot_hash") fs)

  unfoldable pub binds_base : PurchaseOrder → ℕ → Option Snapshot → Fields → Bool
  binds_base o version current fs =
      binds_number (g.doubles.whole o.aggregate_version)
        (lookup (codes "base_aggregate_version") fs)
      && binds_number (g.doubles.whole version) (lookup (codes "base_commercial_version") fs)
      && binds_text (snapshot_hash current) (lookup (codes "base_commercial_snapshot_hash") fs)

  unfoldable pub binds_amendment : PurchaseOrder → ℕ → Option Snapshot → Snapshot → Fields → Bool
  binds_amendment o version current proposed fs =
      binds_base o version current fs
      && binds_text (snapshot_hash (some proposed))
          (lookup (codes "proposed_commercial_snapshot_hash") fs)

  -- `Number(current_commercial_version)`.
  abbrev pub version_number : Option ℕ → ℕ
  version_number none = 0
  version_number (some v) = v

  -- A text of 64 hexadecimal digits in lower case.
  unfoldable pub is_hash : Option Json → Bool
  is_hash (some (text t)) = has_form (copies 64 (λ c. is_digit c || (leb b'a' c && leb c b'f'))) t
  is_hash _ = false

  -- The test of the context by which a request can be linked to an order.
  unfoldable pub may_link : SourceType → PurchaseOrder → OrderDb → Fields → Bool
  may_link po_issue o db fs = is_state draft o.lifecycle_state && binds_issue o fs
  may_link _ o db fs =
      is_open_order o.lifecycle_state
      && is_unreceived o
      && binds_base o (version_number o.current_commercial_version) (current_snapshot o db) fs
      && is_hash (lookup (codes "proposed_commercial_snapshot_hash") fs)

  abbrev pub link_row : SourceType → ℕ → PurchaseOrder → PurchaseOrder
  link_row po_issue request o = record o { issue_approval_request_id = some request }
  link_row _ request o = record o { amendment_approval_request_id = some request }

  unfoldable pub linked_context : Option ApprovalRequest → Option Fields
  linked_context none = none
  linked_context (some r) = context_fields r.context

  unfoldable pub link_approval : Tx → ℕ → ℕ → SourceType → OrderDb → Result OrderDb
  link_approval tx order request source db = do
    o ← or_throw (find_where (is_order tx.tenant_id order) db.orders) not_found
    r ← current_approval source o (some request) db
    fs ← or_throw (linked_context r) business_rule_violation
    throw_if (not (may_link source o db fs)) business_rule_violation
    ok (record db {
      orders = update_where (is_order tx.tenant_id order) (link_row source request) db.orders;
    })
