-- ===== src/Procurement/IssueLaws.antt =====
-- What it takes to issue a purchase order, and what it writes.
use itcenter.Base.{
  ℕ, ◌+◌, ◌⊎◌, none, ◌≡◌, refl, sym, ap, ◌∙◌, subst, Bool, true, not, Option, some, ◌∷◌, arith,
  if◌then◌else◌, eq_of_==, ==_refl, any, find_where, update_where, find_where-holds,
  find_where-update_seen, is_blank,
}
use itcenter.Platform.Tx.{Tx}
use itcenter.Platform.Errors.{
  validation_error, not_found, business_rule_violation, internal_error, ok, throw_if, or_throw,
  bind-inv, assert_version,
}
use itcenter.Platform.Errors.{>>-inv, ok_inj}
use itcenter.Control.Approval.{ApprovalRequest, po_issue}
use itcenter.Procurement.Orders.{
  draft, issued, is_state, OrderCommand, issue, PurchaseOrder, CommercialVersion, OrderDb, is_order,
  is_version_of, is_supplier_ready, is_source_awarded, current_approval,
}
use itcenter.Procurement.IssueChecks.{
  IsReady, IsAwarded, IsApproved, drafted, is_supplier_ready-IsReady, is_source_awarded-IsAwarded,
  is_gate_open-IsApproved,
}
use itcenter.Procurement.Approvals.{Ground, OrderInput, is_gate_open, binds_issue, request_id}
use itcenter.Procurement.OrderCommands.{
  execute_order_command, by_command, command_order, change_order, issue_order, issue_row,
  insert_history, is_entry_of, append_version, write_lines, new_version, update_order,
  without_draft,
}

module _ (g : Ground) (tx : Tx) where
  -- The order that an issue takes, its checks, and its writes.
  pub record Issued (i : OrderInput) (o : PurchaseOrder) (db db' : OrderDb) : Type 0 where
    pub drafted : is_state draft o.lifecycle_state ≡ true
    pub supplier_ready : is_supplier_ready g.id_of tx.tenant_id o.supplier_id db.suppliers ≡ true
    pub source_awarded : is_source_awarded o db ≡ true
    pub approval : Option ApprovalRequest
    pub linked : current_approval po_issue o o.issue_approval_request_id db ≡ ok approval
    pub gate_open : is_gate_open (binds_issue g o) approval ≡ true
    pub orders : db'.orders ≡ update_where (is_order tx.tenant_id o.id) (issue_row g tx) db.orders
    pub versions :
        db'.versions ≡ new_version g tx i o o.draft_snapshot 1 (request_id approval) ∷ db.versions

  issue_order-Issued :
      (i : OrderInput) (o : PurchaseOrder) (db db' : OrderDb)
      → issue_order g tx i o db ≡ ok db'
      → Issued i o db db'
  unfolding issue_order append_version throw_if
  issue_order-Issued i o db db' h =
      let (a, k) =
        >>-inv (throw_if (not (is_state draft o.lifecycle_state)) business_rule_violation) _ h in
      let (b, k1) =
        >>-inv
          (throw_if (not (is_supplier_ready g.id_of tx.tenant_id o.supplier_id db.suppliers))
            business_rule_violation)
          _ k in
      let (c, k2) = >>-inv (throw_if (not (is_source_awarded o db)) business_rule_violation) _ k1 in
      let (approval, l, k3) =
        bind-inv (current_approval po_issue o o.issue_approval_request_id db) _ k2 in
      let (f, k4) =
        >>-inv (throw_if (not (is_gate_open (binds_issue g o) approval)) business_rule_violation) _
          k3 in
      let (d, w, k5) =
        bind-inv (append_version g tx i o o.draft_snapshot 1 (request_id approval) db) _ k4 in
      let (_, w1) =
        >>-inv (throw_if (any (is_version_of tx.tenant_id o.id 1) db.versions) internal_error) _
          w in
      let (lines, _, w2) =
        bind-inv (write_lines tx o.id (some 1) (o.draft_snapshot).lines db.lines) _ w1 in
      let e : db'
          ≡ update_order tx o.id (issue_row g tx)
              (record d { lines = without_draft tx.tenant_id o.id d.lines }) =
        ok_inj _ _ k5 in
      let e' : d ≡ record db {
        versions = new_version g tx i o o.draft_snapshot 1 (request_id approval) ∷ db.versions;
        lines = lines;
      } =
        ok_inj _ _ w2 in
      record {
        drafted = ground arith;
        supplier_ready = ground arith;
        source_awarded = ground arith;
        approval = approval;
        linked = l;
        gate_open = ground arith;
        orders =
            ap (λ (x : OrderDb). x.orders) e
            ∙ ap
                (λ (x : OrderDb).
                  update_where (is_order tx.tenant_id o.id) (issue_row g tx) x.orders)
                e';
        versions = ap (λ (x : OrderDb). x.versions) e ∙ ap (λ (x : OrderDb). x.versions) e';
      }

  history-row :
      (i : OrderInput) (before : Option PurchaseOrder) (id : ℕ) (db db' : OrderDb)
      (row : PurchaseOrder)
      → insert_history g i before tx.tenant_id id db ≡ ok (db', row)
      → (find_where (is_order tx.tenant_id id) db.orders ≡ some row)
        × (db'.versions ≡ db.versions)
        × (db'.orders ≡ db.orders)
  unfolding insert_history or_throw
  history-row i before id db db' row h =
      let (x, f, h1) =
        bind-inv (or_throw (find_where (is_order tx.tenant_id id) db.orders) not_found) _ h in
      let (_, h2) = >>-inv (throw_if (any (is_entry_of g x) db.history) internal_error) _ h1 in
      let e = ok_inj _ _ h2 in
      let found : find_where (is_order tx.tenant_id id) db.orders ≡ some x = ground arith in
      (
        found ∙ ap some (sym (ap (λ (p : OrderDb × PurchaseOrder). p.1) e)),
        ap (λ (p : OrderDb × PurchaseOrder). (p.0).versions) e,
        ap (λ (p : OrderDb × PurchaseOrder). (p.0).orders) e,
      )

  Issued-row :
      (i : OrderInput) (o : PurchaseOrder) (db d : OrderDb) (m : Issued i o db d)
      → find_where (is_order tx.tenant_id i.id) db.orders ≡ some o
      → find_where (is_order tx.tenant_id i.id) d.orders ≡ some (issue_row g tx o)
  Issued-row i o db d m found =
      let a = find_where-holds (is_order tx.tenant_id i.id) db.orders o found in
      ap (find_where (is_order tx.tenant_id i.id)) m.orders
      ∙ find_where-update_seen (is_order tx.tenant_id i.id) (is_order tx.tenant_id o.id)
          (issue_row g tx) db.orders o (λ x e. ground (arith, e, a, eq_of_== o.id i.id)) (λ x. refl)
          found

  Issued-version :
      (i : OrderInput) (o : PurchaseOrder) (db d : OrderDb) (m : Issued i o db d)
      → find_where (is_order tx.tenant_id i.id) db.orders ≡ some o
      → find_where (is_version_of tx.tenant_id i.id 1) d.versions
        ≡ some (new_version g tx i o o.draft_snapshot 1 (request_id m.approval))
  unfolding find_where
  Issued-version i o db d m found =
      let a = find_where-holds (is_order tx.tenant_id i.id) db.orders o found in
      ap (find_where (is_version_of tx.tenant_id i.id 1)) m.versions
      ∙ first (find_where (is_version_of tx.tenant_id i.id 1) db.versions)
          (ground (arith, a, ==_refl tx.tenant_id))
    where
      first :
          (w : Option CommercialVersion) {b : Bool} {v : CommercialVersion}
          → b ≡ true
          → (if b then some v else w) ≡ some v
      first w e = rw e refl

  -- An issue of a purchase order that succeeds took a draft, whose supplier is a row of the tenant that is approved
  -- or preferred. If the order names an RFQ, that RFQ was awarded to the quotation that the order names, which was
  -- accepted and is of the order's supplier. If an approval is linked, it is an approved request for the issue of
  -- this order, whose context has the version and the hash of the content of the order. The order is then issued,
  -- at commercial version 1, with the time of the issue and the next aggregate version, and is else as it was;
  -- this is the row that is stored and returned. Its version 1 has the snapshot of the draft.
  pub issue-checked :
      (i : OrderInput) (db db' : OrderDb) (row : PurchaseOrder)
      → i.command ≡ issue
      → execute_order_command g tx i db ≡ ok (db', row)
      → (o : PurchaseOrder) × (find_where (is_order tx.tenant_id i.id) db.orders ≡ some o)
        × (o.lifecycle_state ≡ draft)
        × IsReady g.id_of tx.tenant_id o.supplier_id db.suppliers
        × ((o.rfq_id ≡ none) ⊎ IsAwarded o db)
        × ((o.issue_approval_request_id ≡ none) ⊎ IsApproved g o db)
        × (row ≡ record o {
          lifecycle_state = issued;
          current_commercial_version = some 1;
          issued_at = some tx.now;
          aggregate_version = o.aggregate_version + 1;
          updated_at = tx.now;
        })
        × (find_where (is_order tx.tenant_id i.id) db'.orders ≡ some row)
        × ((v : CommercialVersion) × (find_where (is_version_of tx.tenant_id i.id 1) db'.versions
              ≡ some v)
            × (v.snapshot ≡ o.draft_snapshot))
  unfolding execute_order_command by_command command_order change_order or_throw
  issue-checked i db db' row c h =
      let (_, h1) = >>-inv (throw_if (is_blank i.reason) validation_error) _ h in
      let h2 : command_order g tx i db ≡ ok (db', row) = by_issue i.command c h1 in
      let (o, f, h3) =
        bind-inv (or_throw (find_where (is_order tx.tenant_id i.id) db.orders) not_found) _ h2 in
      let found : find_where (is_order tx.tenant_id i.id) db.orders ≡ some o = ground arith in
      let (_, h4) = >>-inv (assert_version o.aggregate_version i.expected_version) _ h3 in
      let (d, w, h5) = bind-inv (change_order g tx i i.command o db) _ h4 in
      let m = issue_order-Issued i o db d (subst (λ k. change_order g tx i k o db ≡ ok d) c w) in
      let (r, v, w') = history-row i (some o) i.id d db' row h5 in
      (
        o,
        found,
        drafted o.lifecycle_state m.drafted,
        is_supplier_ready-IsReady g.id_of tx.tenant_id o.supplier_id db.suppliers m.supplier_ready,
        is_source_awarded-IsAwarded o db m.source_awarded,
        is_gate_open-IsApproved g o db m.approval m.linked m.gate_open,
        cc (r, Issued-row i o db d m found),
        ap (find_where (is_order tx.tenant_id i.id)) w' ∙ r,
        (
          new_version g tx i o o.draft_snapshot 1 (request_id m.approval),
          ap (find_where (is_version_of tx.tenant_id i.id 1)) v ∙ Issued-version i o db d m found,
          refl,
        ),
      )
    where
      by_issue :
          (k : OrderCommand)
          → k ≡ issue
          → by_command g tx i k db ≡ ok (db', row)
          → command_order g tx i db ≡ ok (db', row)
      by_issue k e h = subst (λ k. by_command g tx i k db ≡ ok (db', row)) e h
