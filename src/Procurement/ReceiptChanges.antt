-- ===== src/Procurement/ReceiptChanges.antt =====
-- What each command on a goods receipt changes.
use itcenter.Base.{
  ℕ, ◌≡◌, refl, sym, ap, ◌∙◌, subst, true, false, not, ◌||◌, none, some, List, [], ◌∷◌, arith, ltb,
  ◌==◌, eq_of_==, length, any, is_empty, find_where, update_where, find_where-holds,
  find_where-update_seen, codes,
}
use itcenter.Platform.Tx.{Tx}
use itcenter.Platform.Errors.{
  validation_error, not_found, goods_receipt_po_not_receivable, internal_error, ok, throw_if,
  or_throw, bind-inv,
}
use itcenter.Platform.Errors.{>>-inv, ok_inj}
use itcenter.Base.Json.{Fields, lookup, items}
use itcenter.Procurement.Orders.{issued, is_state, PurchaseOrder, OrderLine, OrderDb, is_order}
use itcenter.Procurement.Approvals.{Ground}
use itcenter.Procurement.OrderSteps.{Keeps}
use itcenter.Procurement.ReceiptDrafts.{
  ReceiptState, draft, posted, cancelled, is_draft, is_posted, GoodsReceipt, items_of,
  items_or_empty, read_receipt_lines, read_exceptions, replace_draft, or_else, text_of,
}
use itcenter.Procurement.Receipts.{
  receive_row, post_row, move_receipt, redraft_row, redraft_receipt, post, change_receipt, id_or,
  is_supplier_of, new_receipt, start_receipt,
}
use itcenter.Procurement.ReceiptTables.{
  ReceiptCommand, create_receipt, update_receipt, post_receipt, cancel_receipt, ReceiptInput,
  ReceiptDb, is_receipt,
}
use itcenter.Procurement.Posting.{Posted, post-Posted}
use itcenter.Procurement.ReceiptSteps.{post-Keeps}

-- The order that a receipt names, with something received on it.
abbrev pub IsCounted : ℕ → ℕ → OrderDb → Type 0
IsCounted tenant id db =
    (o : PurchaseOrder) × (find_where (is_order tenant id) db.orders ≡ some o)
    × ((o.committed_receipt_count == 0) ≡ false)

module _ (g : Ground) where
  -- A command on a draft that was found.
  pub record Changed (tx : Tx) (i : ReceiptInput) (r : GoodsReceipt) (db db' : ReceiptDb)
      : Type 0 where
    pub change : GoodsReceipt → GoodsReceipt
    pub written : db'.receipts ≡ update_where (is_receipt tx.tenant_id i.id) change db.receipts
    pub same_tenant : (x : GoodsReceipt) → (change x).tenant_id ≡ x.tenant_id
    pub same_id : (x : GoodsReceipt) → (change x).id ≡ x.id
    pub same_order : (x : GoodsReceipt) → (change x).purchase_order_id ≡ x.purchase_order_id
    pub orders : Keeps g db.order_db db'.order_db
    pub counted :
        is_posted ((change r).state) ≡ true
        → IsCounted tx.tenant_id r.purchase_order_id db'.order_db

  replace_draft-state :
      (tx : Tx) (rows : List OrderLine) (body : Fields) (r r' : GoodsReceipt)
      → replace_draft g tx rows body r ≡ ok r'
      → r'.state ≡ r.state
  unfolding replace_draft
  replace_draft-state tx rows body r r' h =
      let (vs, _, h1) = bind-inv (items_of g (lookup (codes "lines") body)) _ h in
      let (_, h2) =
        >>-inv (throw_if (length (items vs) == 0 || ltb 200 (length (items vs))) validation_error) _
          h1 in
      let (lines, _, h3) =
        bind-inv
          (read_receipt_lines g tx r rows 1 vs
            (record { order_lines = []; keys = []; serials = [] }))
          _ h2 in
      let (es, _, h4) = bind-inv (items_or_empty (lookup (codes "exceptions") body)) _ h3 in
      let (exceptions, _, h5) = bind-inv (read_exceptions g es) _ h4 in
      ap (λ (x : GoodsReceipt). x.state) (ok_inj _ _ h5)

  pub start_receipt-written :
      (tx : Tx) (i : ReceiptInput) (db db' : ReceiptDb)
      → start_receipt g tx i db ≡ ok db'
      → (r : GoodsReceipt) × (r.state ≡ draft) × (db' ≡ record db { receipts = r ∷ db.receipts })
  unfolding start_receipt
  start_receipt-written tx i db db' h =
      let named = or_else (text_of (lookup (codes "purchase_order_id") i.body)) [] in
      let (_, h1) = >>-inv (throw_if (is_empty named) validation_error) _ h in
      let (order_id, _, h2) = bind-inv (or_throw (g.uuid_of named) internal_error) _ h1 in
      let (o, _, h3) =
        bind-inv
          (or_throw (find_where (is_order tx.tenant_id order_id) db.order_db.orders) not_found) _
          h2 in
      let (_, h4) =
        >>-inv (throw_if (not (any (is_supplier_of g tx o) db.order_db.suppliers)) not_found) _
          h3 in
      let (_, h5) =
        >>-inv (throw_if (not (is_state issued o.lifecycle_state)) goods_receipt_po_not_receivable)
          _ h4 in
      let (location, _, h6) = bind-inv (id_or g none (lookup (codes "location_id") i.body)) _ h5 in
      let (_, h7) =
        >>-inv (throw_if (any (λ (r : GoodsReceipt). r.id == tx.uuid 0) db.receipts) internal_error)
          _ h6 in
      let (r, w, h8) =
        bind-inv (replace_draft g tx db.order_db.lines i.body (new_receipt g tx o location)) _ h7 in
      (
        r,
        replace_draft-state tx db.order_db.lines i.body (new_receipt g tx o location) r w,
        ok_inj _ _ h8,
      )

  Keeps-refl : (db : OrderDb) → Keeps g db db
  Keeps-refl db = record { sound = λ s. s; counted = λ tenant id o found c. (o, found, c) }

  Keeps-same : (db db' : OrderDb) → db' ≡ db → Keeps g db db'
  Keeps-same db db' e = subst (λ d. Keeps g db d) (sym e) (Keeps-refl db)

  post-Changed :
      (tx : Tx) (i : ReceiptInput) (r : GoodsReceipt) (db db' : ReceiptDb)
      → post g tx i r db ≡ ok db'
      → Changed tx i r db db'
  post-Changed tx i r db db' h =
      let p = post-Posted g tx i r db db' h in
      record {
        change = post_row g p.order.received_quantities;
        written = p.receipts;
        same_tenant = λ x. refl;
        same_id = λ x. refl;
        same_order = λ x. refl;
        orders = post-Keeps g tx i r db db' p;
        counted = λ q. counted_after p;
      }
    where
      counted_after :
          (p : Posted g tx i r db db') → IsCounted tx.tenant_id r.purchase_order_id db'.order_db
      counted_after p = (
        receive_row g tx p.order p.next db.order_db.lines p.order,
        ap (find_where (is_order tx.tenant_id r.purchase_order_id)) p.orders
            ∙ find_where-update_seen (is_order tx.tenant_id r.purchase_order_id)
                (is_order tx.tenant_id p.order.id)
                (receive_row g tx p.order p.next db.order_db.lines) db.order_db.orders p.order
                (λ x e. ground (
                  arith,
                  e,
                  find_where-holds (is_order tx.tenant_id r.purchase_order_id) db.order_db.orders
                      p.order p.found,
                  eq_of_== p.order.id r.purchase_order_id,
                ))
                (λ x. refl) p.found,
        ground arith,
      )

  redraft-Changed :
      (tx : Tx) (i : ReceiptInput) (r : GoodsReceipt) (db db' : ReceiptDb)
      → is_draft r.state ≡ true
      → redraft_receipt g tx i r db ≡ ok db'
      → Changed tx i r db db'
  unfolding redraft_receipt
  redraft-Changed tx i r db db' d h =
      let (r', _, h1) = bind-inv (replace_draft g tx db.order_db.lines i.body r) _ h in
      let (location, _, h2) =
        bind-inv (id_or g r.location_id (lookup (codes "location_id") i.body)) _ h1 in
      let e = ok_inj _ _ h2 in
      record {
        change = redraft_row g r' location;
        written = ap (λ (x : ReceiptDb). x.receipts) e;
        same_tenant = λ x. refl;
        same_id = λ x. refl;
        same_order = λ x. refl;
        orders = Keeps-same db.order_db db'.order_db (ap (λ (x : ReceiptDb). x.order_db) e);
        counted = λ q. absurd (not_posted r.state d q);
      }
    where
      not_posted : (s : ReceiptState) → is_draft s ≡ true → is_posted s ≡ true → ⊥
      not_posted draft d q = cc
      not_posted posted d q = cc
      not_posted cancelled d q = cc

  pub change_receipt-Changed :
      (tx : Tx) (i : ReceiptInput) (c : ReceiptCommand) (r : GoodsReceipt) (db db' : ReceiptDb)
      → is_draft r.state ≡ true
      → change_receipt g tx i c r db ≡ ok db'
      → Changed tx i r db db'
  unfolding change_receipt
  change_receipt-Changed tx i create_receipt r db db' d h = cc
  change_receipt-Changed tx i update_receipt r db db' d h = redraft-Changed tx i r db db' d h
  change_receipt-Changed tx i post_receipt r db db' d h = post-Changed tx i r db db' h
  change_receipt-Changed tx i cancel_receipt r db db' d h =
      let e = ok_inj _ _ h in
      record {
        change = move_receipt g cancelled;
        written = ap (λ (x : ReceiptDb). x.receipts) e;
        same_tenant = λ x. refl;
        same_id = λ x. refl;
        same_order = λ x. refl;
        orders = Keeps-same db.order_db db'.order_db (ap (λ (x : ReceiptDb). x.order_db) e);
        counted = λ q. cc;
      }
