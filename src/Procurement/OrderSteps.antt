-- ===== src/Procurement/OrderSteps.antt =====
-- The commands on purchase orders, the link of an approval included, keep the orders sound and counted.
use itcenter.Base.{
  ℕ, ◌≡◌, refl, sym, ap, ◌∙◌, subst, inl, inr, Bool, false, not, Option, none, some, arith, ◌==◌,
  if◌then◌else◌, eq_of_==, Bool-cases, any, find_where, update_where, find_where-holds, is_blank,
  find_where-update_any,
}
use itcenter.Platform.Tx.{Tx}
use itcenter.Platform.Errors.{
  validation_error, not_found, business_rule_violation, internal_error, ok, throw_if, or_throw,
  bind-inv, assert_version,
}
use itcenter.Platform.Errors.{>>-inv, ok_inj}
use mathlib.Core.List.{Memᴰ}
use itcenter.Control.Approval.{
  SourceType, invoice_approval, invoice_match_exception, po_issue, po_amendment, other_source,
}
use itcenter.Procurement.Orders.{
  OrderCommand, create, update_draft, issue, hold, resume, amend, cancel, close, close_remainder,
  PurchaseOrder, OrderDb, is_order, current_approval,
}
use itcenter.Procurement.Approvals.{
  Ground, OrderInput, link_row, linked_context, may_link, link_approval,
}
use itcenter.Procurement.OrderCommands.{
  create_order, change_order, is_entry_of, insert_history, command_order, by_command,
  execute_order_command,
}
use itcenter.Procurement.OrderMoves.{change_order-Moved}
use itcenter.Procurement.Moves.{is_live, core, core-Kept, Moved}
use itcenter.Procurement.Soundness.{
  IsSound, AreSound, Moved-AreSound, create_order-AreSound, create_order-written, taken_id,
}

-- An order that goods were received on stays one.
abbrev pub StayCounted : OrderDb → OrderDb → Type 0
StayCounted db db' =
    (tenant id : ℕ) (o : PurchaseOrder)
    → find_where (is_order tenant id) db.orders ≡ some o
    → (o.committed_receipt_count == 0) ≡ false
    → (o' : PurchaseOrder) × (find_where (is_order tenant id) db'.orders ≡ some o')
      × ((o'.committed_receipt_count == 0) ≡ false)

-- An update of the orders that keeps their ids, and no count back to 0.
pub update-StayCounted :
    (p : PurchaseOrder → Bool) (f : PurchaseOrder → PurchaseOrder) (db db' : OrderDb)
    → db'.orders ≡ update_where p f db.orders
    → ((x : PurchaseOrder) → (f x).tenant_id ≡ x.tenant_id)
    → ((x : PurchaseOrder) → (f x).id ≡ x.id)
    → ((x : PurchaseOrder)
        → (x.committed_receipt_count == 0) ≡ false
        → ((f x).committed_receipt_count == 0) ≡ false)
    → StayCounted db db'
update-StayCounted p f db db' e same_tenant same_id kept tenant id o found c = (
  if p o then f o else o,
  ap (find_where (is_order tenant id)) e
      ∙ find_where-update_any (is_order tenant id) p f db.orders o
          (λ x. rw (same_tenant x, same_id x) refl) found,
  elim (Bool-cases (p o)) [ inl t ↦ rw t (kept o c) | inr t ↦ rw t c ],
)

pub Moved-StayCounted :
    (tenant : ℕ) (o : PurchaseOrder) (db db' : OrderDb) → Moved tenant o db db' → StayCounted db db'
Moved-StayCounted tenant o db db' m =
    update-StayCounted (is_order tenant o.id) m.change db db' m.written
      (λ x. (core-Kept x (m.change x) (m.kept x)).same_tenant)
      (λ x. (core-Kept x (m.change x) (m.kept x)).same_id)
      (λ x c. ap (λ (n : ℕ). n == 0) (core-Kept x (m.change x) (m.kept x)).same_count ∙ c)

module _ (g : Ground) where
  create_order-StayCounted :
      (tx : Tx) (i : OrderInput) (db db' : OrderDb)
      → create_order g tx i db ≡ ok db'
      → StayCounted db db'
  unfolding find_where
  create_order-StayCounted tx i db db' h tenant id b found c =
      let (o, own, _, free, e, _) = create_order-written g tx i db db' h in
      let apart = taken_id g (tx.uuid 0) tenant id db.orders b free found in
      let own_id = find_where-holds (is_order tenant id) db.orders b found in
      (
        b,
        ap (find_where (is_order tenant id)) e ∙ elim (Bool-cases (is_order tenant id o)) [
          | inl t ↦ absurd (apart (ground (arith, eq_of_== o.id id, eq_of_== b.id id)))
          | inr t ↦ rw t found
        ],
        c,
      )

  insert_history-written :
      (i : OrderInput) (before : Option PurchaseOrder) (tenant id : ℕ) (db db' : OrderDb)
      (o : PurchaseOrder)
      → insert_history g i before tenant id db ≡ ok (db', o)
      → (db'.orders ≡ db.orders) × (db'.lines ≡ db.lines)
  unfolding insert_history
  insert_history-written i before tenant id db db' o h =
      let (x, _, h1) =
        bind-inv (or_throw (find_where (is_order tenant id) db.orders) not_found) _ h in
      let (_, h2) = >>-inv (throw_if (any (is_entry_of g x) db.history) internal_error) _ h1 in
      let e = ok_inj _ _ h2 in
      (
        ap (λ (p : OrderDb × PurchaseOrder). (p.0).orders) e,
        ap (λ (p : OrderDb × PurchaseOrder). (p.0).lines) e,
      )

  -- What a command on an order that succeeds keeps.
  pub record Keeps (db db' : OrderDb) : Type 0 where
    pub sound : AreSound g db → AreSound g db'
    pub counted : StayCounted db db'

  Keeps-history :
      (i : OrderInput) (before : Option PurchaseOrder) (tenant id : ℕ) (db db' db'' : OrderDb)
      (o : PurchaseOrder)
      → Keeps db db'
      → insert_history g i before tenant id db' ≡ ok (db'', o)
      → Keeps db db''
  Keeps-history i before tenant id db db' db'' o k h =
      let (e, e') = insert_history-written i before tenant id db' db'' o h in
      record {
        sound = λ s t n x found.
            subst (λ ls. IsSound g x ls) (sym e')
              (k.sound s t n x (ap (find_where (is_order t n)) (sym e) ∙ found));
        counted = λ t n x found c.
            let (x', found', c') = k.counted t n x found c in
            (x', ap (find_where (is_order t n)) e ∙ found', c');
      }

  command_order-Keeps :
      (tx : Tx) (i : OrderInput) (db db' : OrderDb) (row : PurchaseOrder)
      → command_order g tx i db ≡ ok (db', row)
      → Keeps db db'
  unfolding command_order or_throw
  command_order-Keeps tx i db db' row h =
      let (o, f, h1) =
        bind-inv (or_throw (find_where (is_order tx.tenant_id i.id) db.orders) not_found) _ h in
      let found : find_where (is_order tx.tenant_id i.id) db.orders ≡ some o = ground arith in
      let (_, h2) = >>-inv (assert_version o.aggregate_version i.expected_version) _ h1 in
      let (d, w, h3) = bind-inv (change_order g tx i i.command o db) _ h2 in
      let m = change_order-Moved g tx i i.command o db d w in
      Keeps-history i (some o) tx.tenant_id i.id db d db' row
        (record {
          sound = Moved-AreSound g tx.tenant_id i.id o db d found m;
          counted = Moved-StayCounted tx.tenant_id o db d m;
        })
        h3

  by_command-Keeps :
      (tx : Tx) (i : OrderInput) (c : OrderCommand) (db db' : OrderDb) (row : PurchaseOrder)
      → by_command g tx i c db ≡ ok (db', row)
      → Keeps db db'
  unfolding by_command
  by_command-Keeps tx i create db db' row h =
      let (d, w, h1) = bind-inv (create_order g tx i db) _ h in
      Keeps-history i none tx.tenant_id (tx.uuid 0) db d db' row
        (record {
          sound = create_order-AreSound g tx i db d w;
          counted = create_order-StayCounted tx i db d w;
        })
        h1
  by_command-Keeps tx i update_draft db db' row h = command_order-Keeps tx i db db' row h
  by_command-Keeps tx i issue db db' row h = command_order-Keeps tx i db db' row h
  by_command-Keeps tx i hold db db' row h = command_order-Keeps tx i db db' row h
  by_command-Keeps tx i resume db db' row h = command_order-Keeps tx i db db' row h
  by_command-Keeps tx i amend db db' row h = command_order-Keeps tx i db db' row h
  by_command-Keeps tx i cancel db db' row h = command_order-Keeps tx i db db' row h
  by_command-Keeps tx i close db db' row h = command_order-Keeps tx i db db' row h
  by_command-Keeps tx i close_remainder db db' row h = command_order-Keeps tx i db db' row h

  pub execute_order_command-Keeps :
      (tx : Tx) (i : OrderInput) (db db' : OrderDb) (row : PurchaseOrder)
      → execute_order_command g tx i db ≡ ok (db', row)
      → Keeps db db'
  unfolding execute_order_command
  execute_order_command-Keeps tx i db db' row h =
      let (_, h1) = >>-inv (throw_if (is_blank i.reason) validation_error) _ h in
      by_command-Keeps tx i i.command db db' row h1

  link_row-core :
      (s : SourceType) (request : ℕ) (x : PurchaseOrder) → core (link_row g s request x) ≡ core x
  link_row-core po_issue request x = refl
  link_row-core po_amendment request x = refl
  link_row-core invoice_approval request x = refl
  link_row-core invoice_match_exception request x = refl
  link_row-core (other_source n) request x = refl

  link_row-steady :
      (s : SourceType) (request : ℕ) (x : PurchaseOrder)
      → ((link_row g s request x).current_commercial_version ≡ x.current_commercial_version)
        × ((link_row g s request x).lifecycle_state ≡ x.lifecycle_state)
  link_row-steady po_issue request x = (refl, refl)
  link_row-steady po_amendment request x = (refl, refl)
  link_row-steady invoice_approval request x = (refl, refl)
  link_row-steady invoice_match_exception request x = (refl, refl)
  link_row-steady (other_source n) request x = (refl, refl)

  pub link_approval-Keeps :
      (tx : Tx) (order request : ℕ) (s : SourceType) (db db' : OrderDb)
      → link_approval g tx order request s db ≡ ok db'
      → Keeps db db'
  unfolding link_approval or_throw
  link_approval-Keeps tx order request s db db' h =
      let (o, f, h1) =
        bind-inv (or_throw (find_where (is_order tx.tenant_id order) db.orders) not_found) _ h in
      let found : find_where (is_order tx.tenant_id order) db.orders ≡ some o = ground arith in
      let (r, _, h2) = bind-inv (current_approval s o (some request) db) _ h1 in
      let (fs, _, h3) = bind-inv (or_throw (linked_context g r) business_rule_violation) _ h2 in
      let (_, h4) = >>-inv (throw_if (not (may_link g s o db fs)) business_rule_violation) _ h3 in
      let e = ok_inj _ _ h4 in
      let m = linked o found (ap (λ (d : OrderDb). d.orders) e) (ap (λ (d : OrderDb). d.lines) e) in
      record {
        sound = Moved-AreSound g tx.tenant_id order o db db' found m;
        counted = Moved-StayCounted tx.tenant_id o db db' m;
      }
    where
      linked :
          (o : PurchaseOrder)
          → find_where (is_order tx.tenant_id order) db.orders ≡ some o
          → db'.orders ≡ update_where (is_order tx.tenant_id order) (link_row g s request) db.orders
          → db'.lines ≡ db.lines
          → Moved tx.tenant_id o db db'
      linked o found e e' =
          let a = find_where-holds (is_order tx.tenant_id order) db.orders o found in
          let own : o.id ≡ order = ground (arith, eq_of_== o.id order) in
          record {
            change = link_row g s request;
            written =
                subst
                  (λ (n : ℕ).
                    db'.orders
                    ≡ update_where (is_order tx.tenant_id n) (link_row g s request) db.orders)
                  (sym own) e;
            kept = link_row-core s request;
            same_lines = λ l n. inl (subst (λ ls. Memᴰ l ls) e' n);
            steady = λ p q. let (v, l) = link_row-steady s request o in (e', v, ap is_live l ∙ q);
          }
