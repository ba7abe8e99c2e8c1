-- ===== src/Procurement/OrderCommands.antt =====
-- modules/procurement/application/purchase-orders.ts: `executePurchaseOrderCommand`.
use itcenter.Base.{
  ℕ, ◌+◌, Bool, true, false, not, ◌&&◌, Option, none, some, List, [], ◌∷◌, ◌++◌, ◌==◌,
  if◌then◌else◌, any, keep, includes, find_where, update_where, is_blank, trim, codes, text_eq,
}
use itcenter.Platform.Tx.{Tx, row_is}
use itcenter.Platform.Errors.{
  validation_error, not_found, business_rule_violation, internal_error, Result, ok, err, ◌>>=◌,
  ◌>>◌, throw_if, or_throw, assert_version,
}
use itcenter.Base.Json.{Json, text, lookup}
use itcenter.Control.Approval.{ApprovalRequest, po_issue, po_amendment}
use itcenter.Procurement.Snapshots.{Snapshot, SnapshotLine, normalized_snapshot}
use itcenter.Procurement.Orders.{
  Lifecycle, draft, issued, on_hold, closed, cancelled, ReceiptProgress, not_received,
  partially_received, fully_received, is_state, is_progress, is_open_order, lifecycle_code,
  OrderCommand, create, update_draft, issue, hold, resume, amend, cancel, close, close_remainder,
  PurchaseOrder, CommercialVersion, OrderLine, OrderHistory, OrderDb, is_order, is_line_of,
  is_version_of, is_unreceived, is_supplier_ready, is_source_awarded, current_snapshot,
  current_approval,
}
use itcenter.Procurement.Approvals.{
  Ground, OrderInput, merged, snapshot_fields, snapshot_hash, fields_or_none, version_number,
  is_gate_open, binds_issue, binds_amendment, request_id,
}

-- The rows of the lines of a version, with the ids drawn from the `n`-th on.
unfoldable pub new_lines : Tx → ℕ → ℕ → Option ℕ → List SnapshotLine → List OrderLine
new_lines tx n order version [] = []
new_lines tx n order version (l ∷ ls) =
    record {
      id = tx.uuid n;
      tenant_id = tx.tenant_id;
      purchase_order_id = order;
      commercial_version = version;
      content = l;
    }
    ∷ new_lines tx (n + 1) order version ls

abbrev pub is_id_of : List OrderLine → OrderLine → Bool
is_id_of new l = any (λ (k : OrderLine). k.id == l.id) new

-- `writeCommercialLines`; the inserts meet the primary key.
unfoldable pub write_lines :
    Tx → ℕ → Option ℕ → List SnapshotLine → List OrderLine → Result (List OrderLine)
write_lines tx order version content rows = do
  let new = new_lines tx 1 order version content
  throw_if (any (is_id_of new) rows) internal_error
  ok (new ++ rows)

-- `DELETE … WHERE commercial_version IS NULL`.
abbrev pub without_draft : ℕ → ℕ → List OrderLine → List OrderLine
without_draft tenant order rows = keep (λ l. not (is_line_of tenant order none l)) rows

-- `replaceDraftLines`.
unfoldable pub replace_draft_lines :
    Tx → ℕ → List SnapshotLine → List OrderLine → Result (List OrderLine)
replace_draft_lines tx order content rows =
    write_lines tx order none content (without_draft tx.tenant_id order rows)

abbrev pub with_snapshot : Snapshot → PurchaseOrder → PurchaseOrder
with_snapshot s o = record o {
  supplier_id = s.supplier_id;
  rfq_id = s.rfq_id;
  source_quotation_id = s.source_quotation_id;
  procurement_request_id = s.procurement_request_id;
  currency = s.currency;
  expected_delivery = s.expected_delivery;
  draft_snapshot = s;
}

abbrev pub advance : Tx → PurchaseOrder → PurchaseOrder
advance tx o = record o { aggregate_version = o.aggregate_version + 1; updated_at = tx.now }

abbrev pub move_order : Tx → Lifecycle → PurchaseOrder → PurchaseOrder
move_order tx s o = record (advance tx o) { lifecycle_state = s }

abbrev pub update_order : Tx → ℕ → (PurchaseOrder → PurchaseOrder) → OrderDb → OrderDb
update_order tx id f db = record db { orders = update_where (is_order tx.tenant_id id) f db.orders }

module _ (g : Ground) where
  abbrev pub new_version :
      Tx → OrderInput → PurchaseOrder → Snapshot → ℕ → Option ℕ → CommercialVersion
  new_version tx i o s version approval = record {
    tenant_id = tx.tenant_id;
    purchase_order_id = o.id;
    commercial_version = version;
    base_aggregate_version = o.aggregate_version;
    snapshot = s;
    snapshot_hash = snapshot_hash g (some s);
    reason = trim i.reason;
    approval_request_id = approval;
    actor_id = i.actor_id;
  }

  -- `appendCommercialVersion`.
  unfoldable pub append_version :
      Tx → OrderInput → PurchaseOrder → Snapshot → ℕ → Option ℕ → OrderDb → Result OrderDb
  append_version tx i o s version approval db = do
    throw_if (any (is_version_of tx.tenant_id o.id version) db.versions) internal_error
    lines ← write_lines tx o.id (some version) s.lines db.lines
    ok (record db { versions = new_version tx i o s version approval ∷ db.versions; lines = lines })

  abbrev pub new_order : Tx → OrderInput → Snapshot → PurchaseOrder
  new_order tx i s = record {
    tenant_id = tx.tenant_id;
    id = tx.uuid 0;
    supplier_id = s.supplier_id;
    procurement_request_id = s.procurement_request_id;
    rfq_id = s.rfq_id;
    source_quotation_id = s.source_quotation_id;
    issue_approval_request_id = none;
    amendment_approval_request_id = none;
    issued_at = none;
    expected_delivery = s.expected_delivery;
    lifecycle_state = draft;
    receipt_state = not_received;
    committed_receipt_count = 0;
    received_quantities = [];
    remaining_quantities = [];
    currency = s.currency;
    draft_snapshot = s;
    aggregate_version = 1;
    current_commercial_version = none;
    created_by = i.actor_id;
    updated_at = tx.now;
  }

  unfoldable pub create_order : Tx → OrderInput → OrderDb → Result OrderDb
  create_order tx i db = do
    s ← normalized_snapshot g.doubles i.body
    throw_if (any (λ (o : PurchaseOrder). o.id == tx.uuid 0) db.orders) internal_error
    lines ← replace_draft_lines tx (tx.uuid 0) s.lines db.lines
    ok (record db { orders = new_order tx i s ∷ db.orders; lines = lines })

  unfoldable pub update_draft_order : Tx → OrderInput → PurchaseOrder → OrderDb → Result OrderDb
  update_draft_order tx i o db = do
    throw_if (not (is_state draft o.lifecycle_state)) business_rule_violation
    s ← normalized_snapshot g.doubles (merged (snapshot_fields g o.draft_snapshot) i.body)
    lines ← replace_draft_lines tx o.id s.lines db.lines
    ok (update_order tx o.id (λ x. advance tx (with_snapshot s x)) (record db { lines = lines }))

  abbrev pub issue_row : Tx → PurchaseOrder → PurchaseOrder
  issue_row tx o = record (advance tx o) {
    lifecycle_state = issued;
    current_commercial_version = some 1;
    issued_at = some tx.now;
  }

  unfoldable pub issue_order : Tx → OrderInput → PurchaseOrder → OrderDb → Result OrderDb
  issue_order tx i o db = do
    throw_if (not (is_state draft o.lifecycle_state)) business_rule_violation
    throw_if (not (is_supplier_ready g.id_of tx.tenant_id o.supplier_id db.suppliers))
        business_rule_violation
    throw_if (not (is_source_awarded o db)) business_rule_violation
    approval ← current_approval po_issue o o.issue_approval_request_id db
    throw_if (not (is_gate_open (binds_issue g o) approval)) business_rule_violation
    db' ← append_version tx i o o.draft_snapshot 1 (request_id approval) db
    ok (
        update_order tx o.id (issue_row tx)
          (record db' { lines = without_draft tx.tenant_id o.id db'.lines }))

  -- A body that names an approval names the one that is linked.
  unfoldable pub names_approval : Option Json → Option ApprovalRequest → Bool
  names_approval none approval = true
  names_approval (some (text t)) (some r) = g.id_of t == r.id
  names_approval (some _) _ = false

  abbrev pub amend_row : Tx → ℕ → PurchaseOrder → PurchaseOrder
  amend_row tx version o = record (advance tx o) { current_commercial_version = some version }

  unfoldable pub amend_order : Tx → OrderInput → PurchaseOrder → OrderDb → Result OrderDb
  amend_order tx i o db = do
    throw_if (not (is_open_order o.lifecycle_state && is_unreceived o)) business_rule_violation
    let current = current_snapshot o db
    let base = version_number g o.current_commercial_version
    proposed ← normalized_snapshot g.doubles (merged (fields_or_none g current) i.body)
    throw_if (not (text_eq proposed.supplier_id o.supplier_id)) business_rule_violation
    approval ← current_approval po_amendment o o.amendment_approval_request_id db
    throw_if (not (names_approval (lookup (codes "approval_request_id") i.body) approval))
        business_rule_violation
    throw_if (not (is_gate_open (binds_amendment g o base current proposed) approval))
        business_rule_violation
    db' ← append_version tx i o proposed (base + 1) (request_id approval) db
    ok (update_order tx o.id (amend_row tx (base + 1)) db')

  unfoldable pub cancel_order : Tx → PurchaseOrder → OrderDb → Result OrderDb
  cancel_order tx o db = do
    throw_if (not (includes lifecycle_code (draft ∷ issued ∷ on_hold ∷ []) o.lifecycle_state))
        business_rule_violation
    throw_if (not (is_unreceived o)) business_rule_violation
    let lines =
        if is_state draft o.lifecycle_state
        then without_draft tx.tenant_id o.id db.lines
        else db.lines
    ok (update_order tx o.id (move_order tx cancelled) (record db { lines = lines }))

  -- A change of the state of an order that passes a test.
  unfoldable pub change_state : Tx → Bool → Lifecycle → PurchaseOrder → OrderDb → Result OrderDb
  change_state tx test s o db = do
    throw_if (not test) business_rule_violation
    ok (update_order tx o.id (move_order tx s) db)

  -- What a command on an order that was found does.
  unfoldable pub change_order :
      Tx → OrderInput → OrderCommand → PurchaseOrder → OrderDb → Result OrderDb
  change_order tx i create o db = err internal_error
  change_order tx i update_draft o db = update_draft_order tx i o db
  change_order tx i issue o db = issue_order tx i o db
  change_order tx i hold o db = change_state tx (is_state issued o.lifecycle_state) on_hold o db
  change_order tx i resume o db = change_state tx (is_state on_hold o.lifecycle_state) issued o db
  change_order tx i amend o db = amend_order tx i o db
  change_order tx i cancel o db = cancel_order tx o db
  change_order tx i close o db =
      change_state tx
        (is_open_order o.lifecycle_state && is_progress fully_received o.receipt_state) closed o db
  change_order tx i close_remainder o db =
      change_state tx
        (is_open_order o.lifecycle_state && is_progress partially_received o.receipt_state) closed o
        db

  abbrev pub lifecycle_of : Option PurchaseOrder → Option Lifecycle
  lifecycle_of none = none
  lifecycle_of (some o) = some o.lifecycle_state

  abbrev pub progress_of : Option PurchaseOrder → Option ReceiptProgress
  progress_of none = none
  progress_of (some o) = some o.receipt_state

  abbrev pub history_of : OrderInput → Option PurchaseOrder → PurchaseOrder → OrderHistory
  history_of i before o = record {
    tenant_id = o.tenant_id;
    purchase_order_id = o.id;
    aggregate_version = o.aggregate_version;
    action = some i.command;
    previous_lifecycle_state = lifecycle_of before;
    lifecycle_state = o.lifecycle_state;
    previous_receipt_state = progress_of before;
    receipt_state = o.receipt_state;
    commercial_version = o.current_commercial_version;
    actor_id = i.actor_id;
    reason = trim i.reason;
  }

  -- The key of an entry: the order and its version.
  abbrev pub is_entry_of : PurchaseOrder → OrderHistory → Bool
  is_entry_of o h =
      row_is o.tenant_id o.id h.tenant_id h.purchase_order_id
      && h.aggregate_version == o.aggregate_version

  -- `insertHistory`, of the order as it is now, which is returned.
  unfoldable pub insert_history :
      OrderInput → Option PurchaseOrder → ℕ → ℕ → OrderDb → Result (OrderDb × PurchaseOrder)
  insert_history i before tenant id db = do
    o ← or_throw (find_where (is_order tenant id) db.orders) not_found
    throw_if (any (is_entry_of o) db.history) internal_error
    ok (record db { history = history_of i before o ∷ db.history }, o)

  -- A command on an order that exists.
  unfoldable pub command_order : Tx → OrderInput → OrderDb → Result (OrderDb × PurchaseOrder)
  command_order tx i db = do
    o ← or_throw (find_where (is_order tx.tenant_id i.id) db.orders) not_found
    assert_version o.aggregate_version i.expected_version
    db' ← change_order tx i i.command o db
    insert_history i (some o) tx.tenant_id i.id db'

  unfoldable pub by_command :
      Tx → OrderInput → OrderCommand → OrderDb → Result (OrderDb × PurchaseOrder)
  by_command tx i create db = do
    db' ← create_order tx i db
    insert_history i none tx.tenant_id (tx.uuid 0) db'
  by_command tx i _ db = command_order tx i db

  -- `executePurchaseOrderCommand`.
  unfoldable pub execute_order_command :
      Tx → OrderInput → OrderDb → Result (OrderDb × PurchaseOrder)
  execute_order_command tx i db = do
    throw_if (is_blank i.reason) validation_error
    by_command tx i i.command db
