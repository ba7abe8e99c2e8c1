-- ===== src/Procurement/Posting.antt =====
-- What posting a goods receipt does to the quantities of its order.
use itcenter.Base.{
  ℕ, ◌≤◌, ◌≡◌, refl, sym, ap, ◌∙◌, subst, ◌⊎◌, inl, inr, true, false, not, Option, some, List, [],
  ◌∷◌, map, arith, ltb, ◌==◌, eq_of_==, ==_refl, Bool-cases, any, keep, is_empty, find_where,
  update_where, text_eq,
}
use itcenter.Platform.Tx.{Tx}
use itcenter.Platform.Errors.{
  validation_error, not_found, version_conflict, business_rule_violation,
  goods_receipt_over_ordered_quantity, goods_receipt_po_not_receivable,
  goods_receipt_blocking_exception, internal_error, ok, throw_if, or_throw, bind-inv,
}
use itcenter.Platform.Errors.{>>-inv, ok_inj}
use mathlib.Core.List.{Memᴰ}
use mathlib.Core.List.Memᴰ
use itcenter.Base.Members.{Memᴰ-keep, map-Memᴰ}
use itcenter.Procurement.Orders.{
  issued, is_state, PurchaseOrder, OrderLine, OrderDb, is_order, same_version,
}
use itcenter.Procurement.Approvals.{Ground}
use itcenter.Procurement.OrderCommands.{update_order, is_entry_of}
use itcenter.Procurement.ReceiptDrafts.{ReceiptLine, GoodsReceipt}
use itcenter.Procurement.Receipts.{
  accept_lines, is_held_up, check_tracked, receive_row, receive_order, receipt_entry, post_row,
  post, update_receipts, tracked_units, assetize,
}
use itcenter.Procurement.ReceiptTables.{
  ReceiptInput, ReceiptDb, is_receipt, quantity_of, is_named, pairs_of, joined, in_order,
}

map-Memᴰ-intro :
    {A B : Type 0} (f : A → B) (xs : List A) {a : A} → Memᴰ a xs → Memᴰ (f a) (map f xs)
map-Memᴰ-intro f [] m = elim m [ ]
map-Memᴰ-intro f (x ∷ xs) (Memᴰ.head e) = Memᴰ.head (ap f e)
map-Memᴰ-intro f (x ∷ xs) (Memᴰ.tail m) = Memᴰ.tail (map-Memᴰ-intro f xs m)

-- The join has the lines of the receipt only.
joined-Memᴰ :
    (tenant : ℕ) (rows : List OrderLine) (ls : List ReceiptLine) {l : ReceiptLine} {k : OrderLine}
    → Memᴰ (l, k) (joined tenant rows ls)
    → Memᴰ l ls
unfolding joined
joined-Memᴰ tenant rows [] m = elim m [ ]
joined-Memᴰ tenant rows (x ∷ ls) {l} {k} m =
    elim (Memᴰ.append_cases (pairs_of x (keep (is_named tenant x) rows)) m) [
      | inl n ↦
          let (k', _, e) = map-Memᴰ (λ (k : OrderLine). (x, k)) (keep (is_named tenant x) rows) n in
          Memᴰ.head (ap (λ (p : ReceiptLine × OrderLine). p.0) e)
      | inr n ↦ Memᴰ.tail (joined-Memᴰ tenant rows ls n)
    ]

-- It has every order line that a line of the receipt names.
Memᴰ-joined :
    (tenant : ℕ) (rows : List OrderLine) (ls : List ReceiptLine) {l : ReceiptLine} {k : OrderLine}
    → Memᴰ l ls
    → Memᴰ k rows
    → is_named tenant l k ≡ true
    → Memᴰ (l, k) (joined tenant rows ls)
unfolding joined
Memᴰ-joined tenant rows [] m n e = elim m [ ]
Memᴰ-joined tenant rows (x ∷ ls) {l} {k} (Memᴰ.head q) n e =
    Memᴰ.append_left (joined tenant rows ls) (
      subst (λ y. Memᴰ (l, k) (pairs_of y (keep (is_named tenant y) rows))) q
        (map-Memᴰ-intro (λ (k : OrderLine). (l, k)) (keep (is_named tenant l) rows)
          (Memᴰ-keep (is_named tenant l) rows n e)))
Memᴰ-joined tenant rows (x ∷ ls) (Memᴰ.tail m) n e =
    Memᴰ.append_right (pairs_of x (keep (is_named tenant x) rows))
      (Memᴰ-joined tenant rows ls m n e)

quantity_of-hit :
    (k id q : ℕ) (qs : List (ℕ × ℕ)) → (k == id) ≡ true → quantity_of id ((k, q) ∷ qs) ≡ q
unfolding quantity_of
quantity_of-hit k id q qs t = ground arith

quantity_of-miss :
    (k id q : ℕ) (qs : List (ℕ × ℕ))
    → (k == id) ≡ false
    → quantity_of id ((k, q) ∷ qs) ≡ quantity_of id qs
unfolding quantity_of
quantity_of-miss k id q qs t = ground arith

module _ (g : Ground) where
  -- Where the quantity of a line comes from.
  accept_lines-origin :
      (v : Option ℕ) (current : List (ℕ × ℕ)) (rows : List (ReceiptLine × OrderLine))
      (next next' : List (ℕ × ℕ)) (id : ℕ)
      → accept_lines g v current rows next ≡ ok next'
      → (quantity_of id next' ≡ quantity_of id next)
        ⊎ ((l : ReceiptLine) × (k : OrderLine) × Memᴰ (l, k) rows
            × (l.purchase_order_line_id ≡ id)
            × (quantity_of id next' ≡ g.doubles.sum (quantity_of id current) l.accepted_quantity))
  unfolding accept_lines
  accept_lines-origin v current [] next next' id h = inl (cc h)
  accept_lines-origin v current ((l, k) ∷ rows) next next' id h =
      let total =
        g.doubles.sum (quantity_of l.purchase_order_line_id current) l.accepted_quantity in
      let (_, h1) = >>-inv (throw_if (l.accepted_quantity == 0) validation_error) _ h in
      let (_, h2) =
        >>-inv (throw_if (not (same_version l.commercial_version v)) version_conflict) _ h1 in
      let (_, h3) =
        >>-inv (throw_if (ltb k.content.quantity total) goods_receipt_over_ordered_quantity) _ h2 in
      elim (accept_lines-origin v current rows ((l.purchase_order_line_id, total) ∷ next) next' id
        h3) [
          | inr (l', k', m, e, q) ↦ inr (l', k', Memᴰ.tail m, e, q)
          | inl e ↦ elim (Bool-cases (l.purchase_order_line_id == id)) [
            | inl t ↦ inr (
              l,
              k,
              Memᴰ.head refl,
              eq_of_== l.purchase_order_line_id id t,
              e
                  ∙ quantity_of-hit l.purchase_order_line_id id total next t
                  ∙ ap (λ (n : ℕ). g.doubles.sum (quantity_of n current) l.accepted_quantity)
                      (eq_of_== l.purchase_order_line_id id t),
            )
            | inr t ↦ inl (e ∙ quantity_of-miss l.purchase_order_line_id id total next t)
          ]
        ]

  -- Every pair of the loop passed the test of the ordered quantity.
  accept_lines-checked :
      (v : Option ℕ) (current : List (ℕ × ℕ)) (rows : List (ReceiptLine × OrderLine))
      (next next' : List (ℕ × ℕ)) {l : ReceiptLine} {k : OrderLine}
      → accept_lines g v current rows next ≡ ok next'
      → Memᴰ (l, k) rows
      → g.doubles.sum (quantity_of l.purchase_order_line_id current) l.accepted_quantity
        ≤ k.content.quantity
  unfolding accept_lines throw_if
  accept_lines-checked v current [] next next' h m = elim m [ ]
  accept_lines-checked v current ((x, y) ∷ rows) next next' {l} {k} h m =
      let total =
        g.doubles.sum (quantity_of x.purchase_order_line_id current) x.accepted_quantity in
      let (_, h1) = >>-inv (throw_if (x.accepted_quantity == 0) validation_error) _ h in
      let (_, h2) =
        >>-inv (throw_if (not (same_version x.commercial_version v)) version_conflict) _ h1 in
      let (t, h3) =
        >>-inv (throw_if (ltb y.content.quantity total) goods_receipt_over_ordered_quantity) _ h2 in
      elim (Memᴰ.cases_cons m) [
        | inl e ↦
            subst
              (λ (p : ReceiptLine × OrderLine).
                g.doubles.sum (quantity_of (p.0).purchase_order_line_id current)
                  (p.0).accepted_quantity
                ≤ (p.1).content.quantity)
              (sym e) (ground arith)
        | inr n ↦
            accept_lines-checked v current rows ((x.purchase_order_line_id, total) ∷ next) next' h3
              n
      ]

  -- No line is over its order line after the loop, if none was before.
  pub accept_lines-within :
      (v : Option ℕ) (current next : List (ℕ × ℕ)) (tenant : ℕ) (lines : List OrderLine)
      (ls : List ReceiptLine) (k : OrderLine)
      → accept_lines g v current (joined tenant lines ls) current ≡ ok next
      → Memᴰ k lines
      → k.tenant_id ≡ tenant
      → quantity_of k.id current ≤ k.content.quantity
      → quantity_of k.id next ≤ k.content.quantity
  accept_lines-within v current next tenant lines ls k h m e before =
      elim (accept_lines-origin v current (joined tenant lines ls) current next k.id h) [
        | inl same ↦ subst (λ (n : ℕ). n ≤ k.content.quantity) (sym same) before
        | inr (l, k', n, named, q) ↦
            let pair : Memᴰ (l, k) (joined tenant lines ls) =
              Memᴰ-joined tenant lines ls (joined-Memᴰ tenant lines ls n) m
                (ground (arith, ==_refl k.id, ==_refl tenant)) in
            subst (λ (n : ℕ). n ≤ k.content.quantity) (sym q)
              (subst
                (λ (n : ℕ).
                  g.doubles.sum (quantity_of n current) l.accepted_quantity ≤ k.content.quantity)
                named (accept_lines-checked v current (joined tenant lines ls) current next h pair))
      ]

  -- What posting a receipt writes, and the checks that it passed.
  pub record Posted (tx : Tx) (i : ReceiptInput) (r : GoodsReceipt) (db db' : ReceiptDb)
      : Type 0 where
    pub order : PurchaseOrder
    pub next : List (ℕ × ℕ)
    pub found :
        find_where (is_order tx.tenant_id r.purchase_order_id) db.order_db.orders ≡ some order
    pub issued_order : is_state issued order.lifecycle_state ≡ true
    pub pinned :
        same_version r.purchase_order_commercial_version order.current_commercial_version ≡ true
    pub not_held_up : any (is_held_up g) r.exceptions ≡ false
    pub accepted :
        accept_lines g order.current_commercial_version order.received_quantities
          (joined tx.tenant_id db.order_db.lines (in_order r.lines))
          order.received_quantities
        ≡ ok next
    pub not_empty : is_empty (joined tx.tenant_id db.order_db.lines (in_order r.lines)) ≡ false
    pub orders :
        db'.order_db.orders
        ≡ update_where
            (is_order tx.tenant_id order.id)
            (receive_row g tx order next db.order_db.lines)
            db.order_db.orders
    pub lines : db'.order_db.lines ≡ db.order_db.lines
    pub receipts :
        db'.receipts
        ≡ update_where
            (is_receipt tx.tenant_id i.id)
            (post_row g order.received_quantities)
            db.receipts

  pub post-Posted :
      (tx : Tx) (i : ReceiptInput) (r : GoodsReceipt) (db db' : ReceiptDb)
      → post g tx i r db ≡ ok db'
      → Posted tx i r db db'
  unfolding post receive_order or_throw throw_if
  post-Posted tx i r db db' h =
      let (o, found, h1) =
        bind-inv
          (or_throw (find_where (is_order tx.tenant_id r.purchase_order_id) db.order_db.orders)
            not_found)
          _ h in
      let rows = joined tx.tenant_id db.order_db.lines (in_order r.lines) in
      let (a, h2) =
        >>-inv (throw_if (not (is_state issued o.lifecycle_state)) goods_receipt_po_not_receivable)
          _ h1 in
      let (_, h3) =
        >>-inv (throw_if (not (text_eq r.supplier_id o.supplier_id)) business_rule_violation) _
          h2 in
      let (b, h4) =
        >>-inv
          (throw_if
            (not (same_version r.purchase_order_commercial_version o.current_commercial_version))
            version_conflict)
          _ h3 in
      let (c, h5) =
        >>-inv (throw_if (any (is_held_up g) r.exceptions) goods_receipt_blocking_exception) _ h4 in
      let (next, d, h6) =
        bind-inv
          (accept_lines g o.current_commercial_version o.received_quantities rows
            o.received_quantities)
          _ h5 in
      let (f, h7) = >>-inv (throw_if (is_empty rows) validation_error) _ h6 in
      let (_, h8) =
        >>-inv (check_tracked g tx.tenant_id r.location_id db.models (in_order r.lines)) _ h7 in
      let (order_db', w, h9) = bind-inv (receive_order g tx i o next db.order_db) _ h8 in
      let (_, w1) =
        >>-inv
          (throw_if
            (any (is_entry_of g (receive_row g tx o next db.order_db.lines o)) db.order_db.history)
            internal_error)
          _ w in
      let e : db' ≡ record (update_receipts g tx i.id (post_row g o.received_quantities) db) {
        order_db = order_db';
        assetizations =
            assetize g tx.tenant_id i.id (tracked_units g (in_order r.lines)) db.assetizations;
      } =
        ok_inj _ _ h9 in
      let e' : order_db'
          ≡ record (update_order tx o.id (receive_row g tx o next db.order_db.lines) db.order_db) {
            history =
                receipt_entry g i o (receive_row g tx o next db.order_db.lines o)
                ∷ db.order_db.history;
          } =
        ok_inj _ _ w1 in
      record {
        order = o;
        next = next;
        found = ground arith;
        issued_order = ground arith;
        pinned = ground arith;
        not_held_up = ground arith;
        accepted = d;
        not_empty = ground arith;
        orders = ap (λ (x : ReceiptDb). x.order_db.orders) e ∙ ap (λ (x : OrderDb). x.orders) e';
        lines = ap (λ (x : ReceiptDb). x.order_db.lines) e ∙ ap (λ (x : OrderDb). x.lines) e';
        receipts = ap (λ (x : ReceiptDb). x.receipts) e;
      }
