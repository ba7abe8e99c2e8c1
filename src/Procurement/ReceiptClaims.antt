-- ===== src/Procurement/ReceiptClaims.antt =====
-- What no sequence of commands on purchase orders and goods receipts breaks.
use itcenter.Base.{
  ℕ, ◌≤◌, ◌<◌, ◌≡◌, refl, ap, ◌∙◌, inl, inr, true, false, not, ◌&&◌, some, List, [], ◌∷◌, arith,
  ◌==◌, Bool-cases, includes, find_where, is_blank,
}
use itcenter.Platform.Tx.{Tx}
use itcenter.Platform.Errors.{
  ErrorCode, Result-cases, validation_error, not_found, business_rule_violation, ok, err, throw_if,
  or_throw, bind-inv, assert_version,
}
use itcenter.Platform.Errors.{>>-inv}
use mathlib.Core.List.{Memᴰ}
use itcenter.Procurement.Orders.{
  draft, issued, on_hold, lifecycle_code, fully_received, is_progress, is_unreceived, is_open_order,
  amend, cancel, PurchaseOrder, OrderLine, OrderDb, is_order, is_line_of,
}
use itcenter.Procurement.Approvals.{Ground, OrderInput}
use itcenter.Procurement.OrderCommands.{
  execute_order_command, by_command, command_order, change_order, amend_order, cancel_order,
}
use itcenter.Procurement.Moves.{is_live}
use itcenter.Procurement.Soundness.{IsSound-within, IsSound}
use itcenter.Procurement.ReceiptDrafts.{is_posted, GoodsReceipt}
use itcenter.Procurement.Receipts.{left_of, left_on, is_positive}
use itcenter.Procurement.ReceiptTables.{ReceiptDb, is_receipt, quantity_of}
use itcenter.Procurement.Sequences.{Call, run, run-IsConsistent, empty-IsConsistent}
use itcenter.Procurement.Orders.{not_received, partially_received, ReceiptProgress}

module _ (g : Ground) where
  left-exact :
      (quantity received : ℕ)
      → ((a b : ℕ) → b < a → 0 < g.doubles.difference a b)
      → received ≤ quantity
      → is_positive g (left_of g quantity received) ≡ false
      → received ≡ quantity
  left-exact quantity received exact within left = ground (arith, exact quantity received)

  -- After any sequence of commands on orders and receipts, of links of approvals and of changes of the other
  -- tables, from tables with no order and no receipt: no line of an order's current version has received more
  -- than was ordered on it.
  pub run-within :
      (cs : List Call) (db : ReceiptDb)
      → db.order_db.orders ≡ []
      → db.receipts ≡ []
      → (tenant id : ℕ) (o : PurchaseOrder)
      → find_where (is_order tenant id) ((run g cs db).order_db.orders) ≡ some o
      → (l : OrderLine) → Memᴰ l ((run g cs db).order_db.lines)
      → is_line_of o.tenant_id o.id o.current_commercial_version l ≡ true
      → quantity_of l.id o.received_quantities ≤ l.content.quantity
  run-within cs db e e' tenant id o found =
      IsSound-within g o ((run g cs db).order_db.lines)
        ((run-IsConsistent g cs db (empty-IsConsistent g db e e')).sound tenant id o found)

  IsSound-complete :
      (o : PurchaseOrder) (lines : List OrderLine)
      → IsSound g o lines
      → is_progress fully_received o.receipt_state ≡ true
      → (l : OrderLine) → Memᴰ l lines
      → is_line_of o.tenant_id o.id o.current_commercial_version l ≡ true
      → is_positive g (left_on g o.received_quantities l) ≡ false
  IsSound-complete o lines (inl f) p l m e = absurd (apart o.receipt_state f.no_progress p)
    where
      apart :
          (s : ReceiptProgress)
          → is_progress not_received s ≡ true
          → is_progress fully_received s ≡ true
          → ⊥
      apart not_received a b = cc
      apart partially_received a b = cc
      apart fully_received a b = cc
  IsSound-complete o lines (inr r) p l m e = r.complete p l m e

  -- After any sequence of commands on orders and receipts, of links of approvals and of changes of the other
  -- tables, from tables with no order and no receipt, where the difference of two different numbers is not 0:
  -- each line of the current version of an order that is fully received has received exactly what was ordered
  -- on it.
  pub run-fully_received :
      (cs : List Call) (db : ReceiptDb)
      → ((a b : ℕ) → b < a → 0 < g.doubles.difference a b)
      → db.order_db.orders ≡ []
      → db.receipts ≡ []
      → (tenant id : ℕ) (o : PurchaseOrder)
      → find_where (is_order tenant id) ((run g cs db).order_db.orders) ≡ some o
      → is_progress fully_received o.receipt_state ≡ true
      → (l : OrderLine) → Memᴰ l ((run g cs db).order_db.lines)
      → is_line_of o.tenant_id o.id o.current_commercial_version l ≡ true
      → quantity_of l.id o.received_quantities ≡ l.content.quantity
  run-fully_received cs db exact e e' tenant id o found p l m k =
      let lines = (run g cs db).order_db.lines in
      let s = (run-IsConsistent g cs db (empty-IsConsistent g db e e')).sound tenant id o found in
      left-exact l.content.quantity (quantity_of l.id o.received_quantities) exact
        (IsSound-within g o lines s l m k) (IsSound-complete o lines s p l m k)

  -- The order and the change of a command on an order that succeeds.
  command_order-ok :
      (tx : Tx) (i : OrderInput) (db : OrderDb) (done : OrderDb × PurchaseOrder)
      → command_order g tx i db ≡ ok done
      → (o : PurchaseOrder) × (d : OrderDb) × (find_where (is_order tx.tenant_id i.id) db.orders
          ≡ some o)
        × (change_order g tx i i.command o db ≡ ok d)
  unfolding command_order or_throw
  command_order-ok tx i db done h =
      let (o, f, h1) =
        bind-inv (or_throw (find_where (is_order tx.tenant_id i.id) db.orders) not_found) _ h in
      let (_, h2) = >>-inv (assert_version o.aggregate_version i.expected_version) _ h1 in
      let (d, w, _) = bind-inv (change_order g tx i i.command o db) _ h2 in (o, d, ground arith, w)

  cancel_order-unreceived :
      (tx : Tx) (o : PurchaseOrder) (db d : OrderDb)
      → cancel_order g tx o db ≡ ok d
      → (o.committed_receipt_count == 0) ≡ true
  unfolding cancel_order throw_if
  cancel_order-unreceived tx o db d h =
      let (_, h1) =
        >>-inv
          (throw_if
            (not (includes lifecycle_code (draft ∷ issued ∷ on_hold ∷ []) o.lifecycle_state))
            business_rule_violation)
          _ h in
      let (t, _) = >>-inv (throw_if (not (is_unreceived o)) business_rule_violation) _ h1 in
      ground arith

  amend_order-unreceived :
      (tx : Tx) (i : OrderInput) (o : PurchaseOrder) (db d : OrderDb)
      → amend_order g tx i o db ≡ ok d
      → (o.committed_receipt_count == 0) ≡ true
  unfolding amend_order throw_if
  amend_order-unreceived tx i o db d h =
      let (t, _) =
        >>-inv
          (throw_if (not (is_open_order o.lifecycle_state && is_unreceived o))
            business_rule_violation)
          _ h in
      ground arith

  unreceived-err :
      (tx : Tx) (i : OrderInput) (db : OrderDb) (o : PurchaseOrder)
      → find_where (is_order tx.tenant_id i.id) db.orders ≡ some o
      → (o.committed_receipt_count == 0) ≡ false
      → ((x : PurchaseOrder) (d : OrderDb)
          → change_order g tx i i.command x db ≡ ok d
          → (x.committed_receipt_count == 0) ≡ true)
      → (k : ErrorCode) × (command_order g tx i db ≡ err k)
  unreceived-err tx i db o found c needs = elim (Result-cases (command_order g tx i db)) [
    | inr (k, e) ↦ (k, e)
    | inl (done, e) ↦
        let (x, d, found', w) = command_order-ok tx i db done e in
        absurd (cc (found, found', c, needs x d w))
  ]

  blank-err :
      (tx : Tx) (i : OrderInput) (db : OrderDb) (k : ErrorCode)
      → by_command g tx i i.command db ≡ err k
      → (k' : ErrorCode) × (execute_order_command g tx i db ≡ err k')
  unfolding execute_order_command throw_if
  blank-err tx i db k e = elim (Bool-cases (is_blank i.reason)) [
    | inl b ↦ (validation_error, rw b refl)
    | inr b ↦ (k, rw b e)
  ]

  cancel_order-err :
      (tx : Tx) (i : OrderInput) (db : OrderDb) (o : PurchaseOrder)
      → find_where (is_order tx.tenant_id i.id) db.orders ≡ some o
      → (o.committed_receipt_count == 0) ≡ false
      → (k : ErrorCode) × (execute_order_command g tx (record i { command = cancel }) db ≡ err k)
  unfolding by_command change_order
  cancel_order-err tx i db o found c =
      let (k, e) =
        unreceived-err tx (record i { command = cancel }) db o found c
          (λ x d w. cancel_order-unreceived tx x db d w) in
      blank-err tx (record i { command = cancel }) db k e

  amend_order-err :
      (tx : Tx) (i : OrderInput) (db : OrderDb) (o : PurchaseOrder)
      → find_where (is_order tx.tenant_id i.id) db.orders ≡ some o
      → (o.committed_receipt_count == 0) ≡ false
      → (k : ErrorCode) × (execute_order_command g tx (record i { command = amend }) db ≡ err k)
  unfolding by_command change_order
  amend_order-err tx i db o found c =
      let (k, e) =
        unreceived-err tx (record i { command = amend }) db o found c
          (λ x d w. amend_order-unreceived tx (record i { command = amend }) x db d w) in
      blank-err tx (record i { command = amend }) db k e

  -- After any sequence of commands on orders and receipts, of links of approvals and of changes of the other
  -- tables, from tables with no order and no receipt: the order of a receipt that is posted is there, is
  -- neither a draft nor cancelled, and both a cancellation and an amendment of it fail.
  pub run-posted :
      (cs : List Call) (db : ReceiptDb)
      → db.order_db.orders ≡ []
      → db.receipts ≡ []
      → (tx : Tx) (i : OrderInput) (id : ℕ) (r : GoodsReceipt)
      → find_where (is_receipt tx.tenant_id id) ((run g cs db).receipts) ≡ some r
      → is_posted r.state ≡ true
      → i.id ≡ r.purchase_order_id
      → ((o : PurchaseOrder) × (find_where
              (is_order tx.tenant_id i.id)
              ((run g cs db).order_db.orders)
            ≡ some o)
          × (is_live o.lifecycle_state ≡ true))
        × ((k : ErrorCode) × (execute_order_command g tx
                (record i { command = cancel })
                ((run g cs db).order_db)
              ≡ err k))
        × ((k : ErrorCode) × (execute_order_command g tx
                (record i { command = amend })
                ((run g cs db).order_db)
              ≡ err k))
  run-posted cs db e e' tx i id r found p own =
      let s = run-IsConsistent g cs db (empty-IsConsistent g db e e') in
      let (o, f, c) = s.posted_counted tx.tenant_id id r found p in
      let f' : find_where (is_order tx.tenant_id i.id) ((run g cs db).order_db.orders) ≡ some o =
        ap (λ (n : ℕ). find_where (is_order tx.tenant_id n) ((run g cs db).order_db.orders)) own
        ∙ f in
      (
        (o, f', counted-live o c (s.sound tx.tenant_id i.id o f')),
        cancel_order-err tx i ((run g cs db).order_db) o f' c,
        amend_order-err tx i ((run g cs db).order_db) o f' c,
      )
    where
      counted-live :
          (o : PurchaseOrder)
          → (o.committed_receipt_count == 0) ≡ false
          → IsSound g o ((run g cs db).order_db.lines)
          → is_live o.lifecycle_state ≡ true
      counted-live o c (inl f) = cc (c, ap (λ (n : ℕ). n == 0) f.no_count)
      counted-live o c (inr x) = x.live
