-- ===== src/Procurement/ReceiptTrace.antt =====
-- What holds of purchase orders and goods receipts after any sequence of commands on both.
use itcenter.Base.{
  ℕ, ◌≡◌, refl, sym, ap, ◌∙◌, subst, inl, inr, true, not, some, ◌∷◌, arith, eq_of_==, any,
  find_where, find_where-holds,
}
use itcenter.Platform.Tx.{Tx}
use itcenter.Platform.Errors.{
  not_found, business_rule_violation, internal_error, ok, throw_if, or_throw, bind-inv,
  assert_version,
}
use itcenter.Platform.Errors.{>>-inv, ok_inj}
use itcenter.Base.{changed_row, first_row}
use itcenter.Procurement.Approvals.{Ground}
use itcenter.Procurement.Soundness.{AreSound}
use itcenter.Procurement.ReceiptDrafts.{is_draft, is_posted, GoodsReceipt}
use itcenter.Procurement.Receipts.{
  change_receipt, start_receipt, is_logged, receipt_log, add_history, command_receipt,
  by_receipt_command, execute_receipt_command,
}
use itcenter.Procurement.ReceiptTables.{
  ReceiptCommand, create_receipt, update_receipt, post_receipt, cancel_receipt, ReceiptInput,
  ReceiptDb, is_receipt,
}
use itcenter.Procurement.ReceiptChanges.{
  IsCounted, Changed, start_receipt-written, change_receipt-Changed,
}

module _ (g : Ground) where
  pub record IsConsistent (db : ReceiptDb) : Type 0 where
    pub sound : AreSound g db.order_db
    pub posted_counted :
        (tenant id : ℕ) (r : GoodsReceipt)
        → find_where (is_receipt tenant id) db.receipts ≡ some r
        → is_posted r.state ≡ true
        → IsCounted tenant r.purchase_order_id db.order_db

  -- The log of receipts is read by no command.
  logged-IsConsistent :
      (i : ReceiptInput) (tenant id : ℕ) (db db' : ReceiptDb) (row : GoodsReceipt)
      → add_history g i tenant id db ≡ ok (db', row)
      → IsConsistent db
      → IsConsistent db'
  unfolding add_history
  logged-IsConsistent i tenant id db db' row h s =
      let (x, _, h1) =
        bind-inv (or_throw (find_where (is_receipt tenant id) db.receipts) not_found) _ h in
      let (_, h2) =
        >>-inv (throw_if (any (is_logged g x) db.receipt_history) internal_error) _ h1 in
      let e : db' ≡ record db { receipt_history = receipt_log g i x ∷ db.receipt_history } =
        ap (λ (p : ReceiptDb × GoodsReceipt). p.0) (ok_inj _ _ h2) in
      subst IsConsistent (sym e) (record { sound = s.sound; posted_counted = s.posted_counted })

  start_receipt-IsConsistent :
      (tx : Tx) (i : ReceiptInput) (db db' : ReceiptDb)
      → start_receipt g tx i db ≡ ok db'
      → IsConsistent db
      → IsConsistent db'
  start_receipt-IsConsistent tx i db db' h s =
      let (r, k, e) = start_receipt-written g tx i db db' h in
      subst IsConsistent (sym e) (record {
        sound = s.sound;
        posted_counted = λ tenant id t found q.
            elim (first_row (is_receipt tenant id) r db.receipts t found) [
              | inl (_, k') ↦
                  cc (q, ap (λ (x : GoodsReceipt). is_posted x.state) k', ap is_posted k)
              | inr (_, found') ↦ s.posted_counted tenant id t found' q
            ];
      })

  Changed-IsConsistent :
      (tx : Tx) (i : ReceiptInput) (r : GoodsReceipt) (db db' : ReceiptDb)
      → find_where (is_receipt tx.tenant_id i.id) db.receipts ≡ some r
      → Changed g tx i r db db'
      → IsConsistent db
      → IsConsistent db'
  Changed-IsConsistent tx i r db db' found c s = record {
    sound = c.orders.sound s.sound;
    posted_counted = λ tenant id t h q.
        let (b, found', way) =
          changed_row (is_receipt tx.tenant_id i.id) (is_receipt tenant id) c.change db.receipts t
            (λ x. rw (c.same_tenant x, c.same_id x) refl)
            (ap (find_where (is_receipt tenant id)) (sym c.written) ∙ h) in
        elim way [
          | inl (p, e) ↦ changed tenant id t b found' p e q
          | inr (p, e) ↦
              let (o, f, k) =
                s.posted_counted tenant id b found'
                  (ap (λ (x : GoodsReceipt). is_posted x.state) (sym e) ∙ q) in
              subst (λ x. IsCounted tenant (x.purchase_order_id) db'.order_db) (sym e)
                (c.orders.counted tenant b.purchase_order_id o f k)
        ];
  }
    where
      changed :
          (tenant id : ℕ) (t b : GoodsReceipt)
          → find_where (is_receipt tenant id) db.receipts ≡ some b
          → is_receipt tx.tenant_id i.id b ≡ true
          → t ≡ c.change b
          → is_posted t.state ≡ true
          → IsCounted tenant t.purchase_order_id db'.order_db
      changed tenant id t b found' p e q =
          let a = find_where-holds (is_receipt tenant id) db.receipts b found' in
          let et : tx.tenant_id ≡ tenant =
            ground (arith, eq_of_== b.tenant_id tenant, eq_of_== b.tenant_id tx.tenant_id) in
          let ei : i.id ≡ id = ground (arith, eq_of_== b.id id, eq_of_== b.id i.id) in
          let found'' : find_where (is_receipt tenant id) db.receipts ≡ some r =
            subst (λ (n : ℕ). find_where (is_receipt n id) db.receipts ≡ some r) et
              (subst (λ (n : ℕ). find_where (is_receipt tx.tenant_id n) db.receipts ≡ some r) ei
                found) in
          let eb : b ≡ r = cc (found', found'') in
          let same : t.purchase_order_id ≡ r.purchase_order_id =
            ap (λ (x : GoodsReceipt). x.purchase_order_id) (e ∙ ap c.change eb) ∙ c.same_order r in
          subst (λ (n : ℕ). IsCounted n t.purchase_order_id db'.order_db) et
            (subst (λ (n : ℕ). IsCounted tx.tenant_id n db'.order_db) (sym same)
              (c.counted
                (ap (λ (x : GoodsReceipt). is_posted x.state) (sym (e ∙ ap c.change eb)) ∙ q)))

  command_receipt-IsConsistent :
      (tx : Tx) (i : ReceiptInput) (db db' : ReceiptDb) (row : GoodsReceipt)
      → command_receipt g tx i db ≡ ok (db', row)
      → IsConsistent db
      → IsConsistent db'
  unfolding command_receipt or_throw throw_if
  command_receipt-IsConsistent tx i db db' row h s =
      let (r, f, h1) =
        bind-inv (or_throw (find_where (is_receipt tx.tenant_id i.id) db.receipts) not_found) _ h in
      let (_, h2) = >>-inv (assert_version r.aggregate_version i.expected_version) _ h1 in
      let (d, h3) = >>-inv (throw_if (not (is_draft r.state)) business_rule_violation) _ h2 in
      let (x, w, h4) = bind-inv (change_receipt g tx i i.command r db) _ h3 in
      logged-IsConsistent i tx.tenant_id i.id x db' row h4 (
        Changed-IsConsistent tx i r db x (ground arith)
          (change_receipt-Changed g tx i i.command r db x (ground arith) w) s)

  by_receipt_command-IsConsistent :
      (tx : Tx) (i : ReceiptInput) (c : ReceiptCommand) (db db' : ReceiptDb) (row : GoodsReceipt)
      → by_receipt_command g tx i c db ≡ ok (db', row)
      → IsConsistent db
      → IsConsistent db'
  unfolding by_receipt_command
  by_receipt_command-IsConsistent tx i create_receipt db db' row h s =
      let (x, w, h1) = bind-inv (start_receipt g tx i db) _ h in
      logged-IsConsistent i tx.tenant_id (tx.uuid 0) x db' row h1
        (start_receipt-IsConsistent tx i db x w s)
  by_receipt_command-IsConsistent tx i update_receipt db db' row h s =
      command_receipt-IsConsistent tx i db db' row h s
  by_receipt_command-IsConsistent tx i post_receipt db db' row h s =
      command_receipt-IsConsistent tx i db db' row h s
  by_receipt_command-IsConsistent tx i cancel_receipt db db' row h s =
      command_receipt-IsConsistent tx i db db' row h s

  pub execute_receipt_command-IsConsistent :
      (tx : Tx) (i : ReceiptInput) (db db' : ReceiptDb) (row : GoodsReceipt)
      → execute_receipt_command g tx i db ≡ ok (db', row)
      → IsConsistent db
      → IsConsistent db'
  unfolding execute_receipt_command
  execute_receipt_command-IsConsistent tx i db db' row h s =
      by_receipt_command-IsConsistent tx i i.command db db' row h s
