-- ===== src/Procurement/Receipts.antt =====
-- modules/procurement/application/goods-receipts.ts: `executeGoodsReceiptCommand`.
use itcenter.Base.{
  ℕ, ◌+◌, ◌-◌, Bool, true, false, not, ◌&&◌, Option, none, some, List, [], ◌∷◌, ◌++◌, map, ltb,
  ◌==◌, if◌then◌else◌, length, any, keep, is_empty, find_where, update_where, Text, codes, text_eq,
}
use itcenter.Platform.Tx.{Tx, row_is}
use itcenter.Platform.Errors.{
  validation_error, not_found, version_conflict, business_rule_violation,
  goods_receipt_over_ordered_quantity, goods_receipt_po_not_receivable,
  goods_receipt_blocking_exception, internal_error, Result, ok, err, ◌>>=◌, ◌>>◌, throw_if,
  or_throw, assert_version,
}
use itcenter.Base.Int.{ℤ, pos, negsuc}
use itcenter.Base.Json.{Json, null, text, lookup}
use itcenter.Procurement.Suppliers.{Supplier}
use itcenter.Procurement.Orders.{
  issued, ReceiptProgress, partially_received, fully_received, is_state, PurchaseOrder, OrderLine,
  OrderHistory, OrderDb, is_order, is_line_of, same_version,
}
use itcenter.Procurement.Approvals.{Ground}
use itcenter.Procurement.OrderCommands.{advance, update_order, is_entry_of}
use itcenter.Procurement.ReceiptDrafts.{
  ReceiptState, draft, posted, cancelled, is_draft, ReceiptUnit, ReceiptLine, ReceivingException,
  GoodsReceipt, or_else, text_of, is_tracked, replace_draft,
}
use itcenter.Procurement.ReceiptTables.{
  ReceiptCommand, create_receipt, update_receipt, post_receipt, cancel_receipt, command_name,
  ReceiptInput, ReceiptHistory, Assetization, AssetModel, ReceiptDb, is_receipt, quantity_of,
  joined, in_order,
}

module _ (g : Ground) where
  -- The loop over the lines: `current` is `currentReceived`, and `next` is `nextReceived`.
  unfoldable pub accept_lines :
      Option ℕ
      → List (ℕ × ℕ)
      → List (ReceiptLine × OrderLine)
      → List (ℕ × ℕ)
      → Result (List (ℕ × ℕ))
  accept_lines version current [] next = ok next
  accept_lines version current ((l, k) ∷ rows) next = do
    throw_if (l.accepted_quantity == 0) validation_error
    throw_if (not (same_version l.commercial_version version)) version_conflict
    let total = g.doubles.sum (quantity_of l.purchase_order_line_id current) l.accepted_quantity
    throw_if (ltb k.content.quantity total) goods_receipt_over_ordered_quantity
    accept_lines version current rows ((l.purchase_order_line_id, total) ∷ next)

  -- `previously_accepted_quantity_at_post`.
  abbrev pub mark_line : List (ℕ × ℕ) → ReceiptLine → ReceiptLine
  mark_line current l = record l {
    previously_accepted_quantity_at_post = quantity_of l.purchase_order_line_id current;
  }

  abbrev pub is_known_model : ℕ → Option Text → List AssetModel → Bool
  is_known_model tenant none models = false
  is_known_model tenant (some t) models =
      any (λ (m : AssetModel). m.tenant_id == tenant && text_eq m.id t) models

  abbrev pub is_tracked_line : ReceiptLine → Bool
  is_tracked_line l = ltb 0 l.accepted_quantity && is_tracked g l.item_type

  abbrev pub is_located : Option Text → Bool
  is_located none = false
  is_located (some t) = not (is_empty t)

  -- The checks of the tracked lines of a receipt.
  unfoldable pub check_tracked :
      ℕ → Option Text → List AssetModel → List ReceiptLine → Result (Unit {0})
  check_tracked tenant location models [] = ok tt
  check_tracked tenant location models (l ∷ ls) = do
    throw_if (is_tracked_line l && not (g.doubles.whole (length l.units) == l.accepted_quantity))
        business_rule_violation
    throw_if (is_tracked_line l && not (is_located location)) business_rule_violation
    throw_if (is_tracked_line l && not (is_known_model tenant l.item_reference_id models))
        business_rule_violation
    check_tracked tenant location models ls

  -- `quantity - received`, which is negative where more was received.
  abbrev pub left_of : ℕ → ℕ → ℤ
  left_of quantity received =
      if ltb quantity received
      then negsuc (g.doubles.difference received quantity - 1)
      else pos (g.doubles.difference quantity received)

  abbrev pub is_positive : ℤ → Bool
  is_positive (pos n) = ltb 0 n
  is_positive (negsuc n) = false

  abbrev pub left_on : List (ℕ × ℕ) → OrderLine → ℤ
  left_on next k = left_of k.content.quantity (quantity_of k.id next)

  abbrev pub current_lines : PurchaseOrder → List OrderLine → List OrderLine
  current_lines o rows = keep (is_line_of o.tenant_id o.id o.current_commercial_version) rows

  abbrev pub is_fully_received : PurchaseOrder → List (ℕ × ℕ) → List OrderLine → Bool
  is_fully_received o next rows =
      not (any (λ k. is_positive (left_on next k)) (current_lines o rows))

  abbrev pub next_progress : Bool → ReceiptProgress
  next_progress true = fully_received
  next_progress false = partially_received

  abbrev pub receive_row :
      Tx → PurchaseOrder → List (ℕ × ℕ) → List OrderLine → PurchaseOrder → PurchaseOrder
  receive_row tx o next rows x = record (advance tx x) {
    receipt_state = next_progress (is_fully_received o next rows);
    committed_receipt_count = x.committed_receipt_count + 1;
    received_quantities = next;
    remaining_quantities = map (λ (k : OrderLine). (k.id, left_on next k)) (current_lines o rows);
  }

  -- The entry of the order's history.
  abbrev pub receipt_entry : ReceiptInput → PurchaseOrder → PurchaseOrder → OrderHistory
  receipt_entry i before o = record {
    tenant_id = o.tenant_id;
    purchase_order_id = o.id;
    aggregate_version = o.aggregate_version;
    action = none;
    previous_lifecycle_state = some before.lifecycle_state;
    lifecycle_state = o.lifecycle_state;
    previous_receipt_state = some before.receipt_state;
    receipt_state = o.receipt_state;
    commercial_version = o.current_commercial_version;
    actor_id = i.actor_id;
    reason = codes "Goods receipt posted";
  }

  -- The writes to an order when a receipt is posted.
  unfoldable pub receive_order :
      Tx → ReceiptInput → PurchaseOrder → List (ℕ × ℕ) → OrderDb → Result OrderDb
  receive_order tx i o next db = do
    let after = receive_row tx o next db.lines o
    throw_if (any (is_entry_of g after) db.history) internal_error
    ok (record (update_order tx o.id (receive_row tx o next db.lines) db) {
      history = receipt_entry i o after ∷ db.history;
    })

  -- `INSERT … ON CONFLICT DO NOTHING`, for the units of the tracked lines.
  abbrev pub is_assetized : ℕ → ℕ → Assetization → Bool
  is_assetized tenant unit a = row_is tenant unit a.tenant_id a.received_unit_id

  unfoldable pub assetize : ℕ → ℕ → List ReceiptUnit → List Assetization → List Assetization
  assetize tenant receipt [] rows = rows
  assetize tenant receipt (u ∷ us) rows = assetize tenant receipt us (
      if any (is_assetized tenant u.id) rows
      then rows
      else (record { tenant_id = tenant; received_unit_id = u.id; goods_receipt_id = receipt }
          ∷ rows))

  unfoldable pub tracked_units : List ReceiptLine → List ReceiptUnit
  tracked_units [] = []
  tracked_units (l ∷ ls) =
      let rest = tracked_units ls in if is_tracked g l.item_type then l.units ++ rest else rest

  abbrev pub is_held_up : ReceivingException → Bool
  is_held_up e = e.blocking && e.is_open

  abbrev pub move_receipt : ReceiptState → GoodsReceipt → GoodsReceipt
  move_receipt s r = record r { state = s; aggregate_version = r.aggregate_version + 1 }

  abbrev pub post_row : List (ℕ × ℕ) → GoodsReceipt → GoodsReceipt
  post_row current r = record (move_receipt posted r) { lines = map (mark_line current) r.lines }

  abbrev pub update_receipts : Tx → ℕ → (GoodsReceipt → GoodsReceipt) → ReceiptDb → ReceiptDb
  update_receipts tx id f db = record db {
    receipts = update_where (is_receipt tx.tenant_id id) f db.receipts;
  }

  unfoldable pub post : Tx → ReceiptInput → GoodsReceipt → ReceiptDb → Result ReceiptDb
  post tx i r db = do
    o ←
        or_throw (find_where (is_order tx.tenant_id r.purchase_order_id) db.order_db.orders)
          not_found
    throw_if (not (is_state issued o.lifecycle_state)) goods_receipt_po_not_receivable
    throw_if (not (text_eq r.supplier_id o.supplier_id)) business_rule_violation
    throw_if (not (same_version r.purchase_order_commercial_version o.current_commercial_version))
        version_conflict
    throw_if (any is_held_up r.exceptions) goods_receipt_blocking_exception
    let rows = joined tx.tenant_id db.order_db.lines (in_order r.lines)
    next ←
        accept_lines o.current_commercial_version o.received_quantities rows o.received_quantities
    throw_if (is_empty rows) validation_error
    check_tracked tx.tenant_id r.location_id db.models (in_order r.lines)
    order_db ← receive_order tx i o next db.order_db
    ok (record (update_receipts tx i.id (post_row o.received_quantities) db) {
      order_db = order_db;
      assetizations =
          assetize tx.tenant_id i.id (tracked_units (in_order r.lines)) db.assetizations;
    })

  -- `value ?? current` for a column of ids.
  unfoldable pub id_or : Option Text → Option Json → Result (Option Text)
  id_or current none = ok current
  id_or current (some null) = ok current
  id_or current (some (text t)) = do _ ← or_throw (g.uuid_of t) internal_error; ok (some t)
  id_or current (some _) = err internal_error

  abbrev pub new_receipt : Tx → PurchaseOrder → Option Text → GoodsReceipt
  new_receipt tx o location = record {
    tenant_id = tx.tenant_id;
    id = tx.uuid 0;
    state = draft;
    aggregate_version = 1;
    purchase_order_id = o.id;
    purchase_order_commercial_version = o.current_commercial_version;
    supplier_id = o.supplier_id;
    location_id = location;
    lines = [];
    exceptions = [];
  }

  abbrev pub is_supplier_of : Tx → PurchaseOrder → Supplier → Bool
  is_supplier_of tx o s = row_is tx.tenant_id (g.id_of o.supplier_id) s.tenant_id s.id

  unfoldable pub start_receipt : Tx → ReceiptInput → ReceiptDb → Result ReceiptDb
  start_receipt tx i db = do
    let named = or_else (text_of (lookup (codes "purchase_order_id") i.body)) []
    throw_if (is_empty named) validation_error
    order_id ← or_throw (g.uuid_of named) internal_error
    o ← or_throw (find_where (is_order tx.tenant_id order_id) db.order_db.orders) not_found
    throw_if (not (any (is_supplier_of tx o) db.order_db.suppliers)) not_found
    throw_if (not (is_state issued o.lifecycle_state)) goods_receipt_po_not_receivable
    location ← id_or none (lookup (codes "location_id") i.body)
    throw_if (any (λ (r : GoodsReceipt). r.id == tx.uuid 0) db.receipts) internal_error
    r ← replace_draft g tx db.order_db.lines i.body (new_receipt tx o location)
    ok (record db { receipts = r ∷ db.receipts })

  abbrev pub redraft_row : GoodsReceipt → Option Text → GoodsReceipt → GoodsReceipt
  redraft_row r location x = record (move_receipt x.state x) {
    lines = r.lines;
    exceptions = r.exceptions;
    location_id = location;
  }

  unfoldable pub redraft_receipt : Tx → ReceiptInput → GoodsReceipt → ReceiptDb → Result ReceiptDb
  redraft_receipt tx i r db = do
    r' ← replace_draft g tx db.order_db.lines i.body r
    location ← id_or r.location_id (lookup (codes "location_id") i.body)
    ok (update_receipts tx i.id (redraft_row r' location) db)

  -- What a command on a draft that was found does.
  unfoldable pub change_receipt :
      Tx → ReceiptInput → ReceiptCommand → GoodsReceipt → ReceiptDb → Result ReceiptDb
  change_receipt tx i create_receipt r db = err internal_error
  change_receipt tx i update_receipt r db = redraft_receipt tx i r db
  change_receipt tx i post_receipt r db = post tx i r db
  change_receipt tx i cancel_receipt r db = ok (update_receipts tx i.id (move_receipt cancelled) db)

  abbrev pub receipt_log : ReceiptInput → GoodsReceipt → ReceiptHistory
  receipt_log i r = record {
    tenant_id = r.tenant_id;
    goods_receipt_id = r.id;
    aggregate_version = r.aggregate_version;
    action = i.command;
    actor_id = i.actor_id;
    reason = if is_empty i.reason then command_name i.command else i.reason;
  }

  abbrev pub is_logged : GoodsReceipt → ReceiptHistory → Bool
  is_logged r h =
      row_is r.tenant_id r.id h.tenant_id h.goods_receipt_id
      && h.aggregate_version == r.aggregate_version

  -- `addHistory`, of the receipt as it is now, which is returned.
  unfoldable pub add_history : ReceiptInput → ℕ → ℕ → ReceiptDb → Result (ReceiptDb × GoodsReceipt)
  add_history i tenant id db = do
    r ← or_throw (find_where (is_receipt tenant id) db.receipts) not_found
    throw_if (any (is_logged r) db.receipt_history) internal_error
    ok (record db { receipt_history = receipt_log i r ∷ db.receipt_history }, r)

  unfoldable pub command_receipt : Tx → ReceiptInput → ReceiptDb → Result (ReceiptDb × GoodsReceipt)
  command_receipt tx i db = do
    r ← or_throw (find_where (is_receipt tx.tenant_id i.id) db.receipts) not_found
    assert_version r.aggregate_version i.expected_version
    throw_if (not (is_draft r.state)) business_rule_violation
    db' ← change_receipt tx i i.command r db
    add_history i tx.tenant_id i.id db'

  unfoldable pub by_receipt_command :
      Tx → ReceiptInput → ReceiptCommand → ReceiptDb → Result (ReceiptDb × GoodsReceipt)
  by_receipt_command tx i create_receipt db = do
    db' ← start_receipt tx i db
    add_history i tx.tenant_id (tx.uuid 0) db'
  by_receipt_command tx i _ db = command_receipt tx i db

  -- `executeGoodsReceiptCommand`.
  unfoldable pub execute_receipt_command :
      Tx → ReceiptInput → ReceiptDb → Result (ReceiptDb × GoodsReceipt)
  execute_receipt_command tx i db = by_receipt_command tx i i.command db
