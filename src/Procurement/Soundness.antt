-- ===== src/Procurement/Soundness.antt =====
-- What holds of every purchase order between commands, and that a command on an order keeps it.
use itcenter.Base.{
  ℕ, ◌≤◌, ◌≡◌, refl, sym, ap, ◌∙◌, subst, ◌⊎◌, inl, inr, true, false, some, List, [], ◌∷◌, arith,
  ◌==◌, eq_of_==, ==_refl, any, find_where, find_where-holds,
}
use itcenter.Platform.Tx.{Tx}
use itcenter.Platform.Errors.{internal_error, ok, throw_if, bind-inv}
use itcenter.Platform.Errors.{>>-inv, ok_inj}
use mathlib.Core.List.{Memᴰ}
use itcenter.Base.Members.{Memᴰ-any, find_where-Memᴰ}
use itcenter.Base.{changed_row, first_row}
use itcenter.Procurement.Orders.{
  not_received, fully_received, is_progress, PurchaseOrder, OrderLine, OrderDb, is_order,
  is_line_of,
}
use itcenter.Procurement.Approvals.{Ground, OrderInput}
use itcenter.Procurement.Snapshots.{normalized_snapshot}
use itcenter.Procurement.OrderCommands.{new_order, create_order, replace_draft_lines}
use itcenter.Procurement.Moves.{is_live, Kept, core-Kept, Moved, replace_draft_lines-Memᴰ}
use itcenter.Procurement.Receipts.{left_on, is_positive}
use itcenter.Procurement.ReceiptTables.{quantity_of}

-- Nothing was received on the order.
pub record IsFresh (o : PurchaseOrder) : Type 0 where
  pub no_count : o.committed_receipt_count ≡ 0
  pub no_quantities : o.received_quantities ≡ []
  pub no_progress : is_progress not_received o.receipt_state ≡ true

module _ (g : Ground) where
  -- Something was: the order is neither a draft nor cancelled, no line of its current version received more
  -- than was ordered, and a fully received order has nothing left on any.
  pub record IsReceived (o : PurchaseOrder) (lines : List OrderLine) : Type 0 where
    pub counted : (o.committed_receipt_count == 0) ≡ false
    pub live : is_live o.lifecycle_state ≡ true
    pub within :
        (l : OrderLine)
        → Memᴰ l lines
        → is_line_of o.tenant_id o.id o.current_commercial_version l ≡ true
        → quantity_of l.id o.received_quantities ≤ l.content.quantity
    pub complete :
        is_progress fully_received o.receipt_state ≡ true
        → (l : OrderLine) → Memᴰ l lines
        → is_line_of o.tenant_id o.id o.current_commercial_version l ≡ true
        → is_positive g (left_on g o.received_quantities l) ≡ false

  abbrev pub IsSound : PurchaseOrder → List OrderLine → Type 0
  IsSound o lines = IsFresh o ⊎ IsReceived o lines

  abbrev pub AreSound : OrderDb → Type 0
  AreSound db =
      (tenant id : ℕ) (o : PurchaseOrder)
      → find_where (is_order tenant id) db.orders ≡ some o
      → IsSound o db.lines

  IsFresh-change : (o o' : PurchaseOrder) → Kept o o' → IsFresh o → IsFresh o'
  IsFresh-change o o' k f = record {
    no_count = k.same_count ∙ f.no_count;
    no_quantities = k.same_received ∙ f.no_quantities;
    no_progress = ap (is_progress not_received) k.same_progress ∙ f.no_progress;
  }

  -- The change of an order that stays as far as receipts go.
  IsReceived-change :
      (o o' : PurchaseOrder) (lines : List OrderLine)
      → Kept o o'
      → o'.current_commercial_version ≡ o.current_commercial_version
      → is_live o'.lifecycle_state ≡ true
      → IsReceived o lines
      → IsReceived o' lines
  IsReceived-change o o' lines k v live r = record {
    counted = ap (λ (n : ℕ). n == 0) k.same_count ∙ r.counted;
    live = live;
    within = λ l m e.
        subst (λ (q : List (ℕ × ℕ)). quantity_of l.id q ≤ l.content.quantity) (sym k.same_received)
          (r.within l m (sym (line l) ∙ e));
    complete = λ p l m e.
        ap (λ (q : List (ℕ × ℕ)). is_positive g (left_on g q l)) k.same_received
        ∙ r.complete (sym (ap (is_progress fully_received) k.same_progress) ∙ p) l m
            (sym (line l) ∙ e);
  }
    where
      line :
          (l : OrderLine)
          → is_line_of o'.tenant_id o'.id o'.current_commercial_version l
            ≡ is_line_of o.tenant_id o.id o.current_commercial_version l
      line l = rw (k.same_tenant, k.same_id, v) refl

  -- Lines of other orders change nothing.
  pub IsSound-lines :
      (o : PurchaseOrder) (lines lines' : List OrderLine)
      → ((l : OrderLine)
          → Memᴰ l lines'
          → is_line_of o.tenant_id o.id o.current_commercial_version l ≡ true
          → Memᴰ l lines)
      → IsSound o lines
      → IsSound o lines'
  IsSound-lines o lines lines' old (inl f) = inl f
  IsSound-lines o lines lines' old (inr r) = inr (record {
    counted = r.counted;
    live = r.live;
    within = λ l m e. r.within l (old l m e) e;
    complete = λ p l m e. r.complete p l (old l m e) e;
  })

  Moved-IsSound :
      (tenant : ℕ) (o : PurchaseOrder) (db db' : OrderDb) (m : Moved tenant o db db')
      → IsSound o db.lines
      → IsSound (m.change o) db'.lines
  Moved-IsSound tenant o db db' m (inl f) =
      inl (IsFresh-change o (m.change o) (core-Kept _ _ (m.kept o)) f)
  Moved-IsSound tenant o db db' m (inr r) =
      let (e, v, live) = m.steady r.counted r.live in
      subst (λ ls. IsSound (m.change o) ls) (sym e)
        (inr (IsReceived-change o (m.change o) db.lines (core-Kept _ _ (m.kept o)) v live r))

  -- The order that two queries of its id found.
  pub same_order :
      (tenant id tenant' id' : ℕ) (orders : List PurchaseOrder) (o b : PurchaseOrder)
      → find_where (is_order tenant id) orders ≡ some o
      → find_where (is_order tenant' id') orders ≡ some b
      → is_order tenant o.id b ≡ true
      → b ≡ o
  same_order tenant id tenant' id' orders o b h h' p =
      let a = find_where-holds (is_order tenant id) orders o h in
      let c = find_where-holds (is_order tenant' id') orders b h' in
      let et : tenant' ≡ tenant =
        ground (arith, eq_of_== b.tenant_id tenant, eq_of_== b.tenant_id tenant') in
      let ei : id' ≡ id = ground (arith, eq_of_== b.id o.id, eq_of_== o.id id, eq_of_== b.id id') in
      let h'' : find_where (is_order tenant id) orders ≡ some b =
        subst (λ (n : ℕ). find_where (is_order n id) orders ≡ some b) et
          (subst (λ (n : ℕ). find_where (is_order tenant' n) orders ≡ some b) ei h') in
      cc (h, h'')

  pub Moved-AreSound :
      (tenant id : ℕ) (o : PurchaseOrder) (db db' : OrderDb)
      → find_where (is_order tenant id) db.orders ≡ some o
      → Moved tenant o db db'
      → AreSound db
      → AreSound db'
  Moved-AreSound tenant id o db db' found m sound tenant' id' t h =
      let (b, found', way) =
        changed_row (is_order tenant o.id) (is_order tenant' id') m.change db.orders t same
          (subst (λ os. find_where (is_order tenant' id') os ≡ some t) m.written h) in
      let s = sound tenant' id' b found' in
      elim way [
        | inl (p, e) ↦
            let eo = same_order tenant id tenant' id' db.orders o b found found' p in
            subst (λ x. IsSound x db'.lines) (sym (e ∙ ap m.change eo))
              (Moved-IsSound tenant o db db' m (subst (λ x. IsSound x db.lines) eo s))
        | inr (p, e) ↦
            subst (λ x. IsSound x db'.lines) (sym e)
              (IsSound-lines b db.lines db'.lines (λ l n k. other b p l k (m.same_lines l n)) s)
      ]
    where
      same : (x : PurchaseOrder) → is_order tenant' id' (m.change x) ≡ is_order tenant' id' x
      same x = let k = core-Kept x (m.change x) (m.kept x) in rw (k.same_tenant, k.same_id) refl

      other :
          (b : PurchaseOrder)
          → is_order tenant o.id b ≡ false
          → (l : OrderLine) → is_line_of b.tenant_id b.id b.current_commercial_version l ≡ true
          → Memᴰ l db.lines ⊎ ((l.tenant_id ≡ tenant) × (l.purchase_order_id ≡ o.id))
          → Memᴰ l db.lines
      other b p l k (inl n) = n
      other b p l k (inr (e1, e2)) = absurd (
          ground (
            arith,
            eq_of_== l.tenant_id b.tenant_id,
            eq_of_== l.purchase_order_id b.id,
            ==_refl tenant,
            ==_refl o.id,
          ))

  pub create_order-written :
      (tx : Tx) (i : OrderInput) (db db' : OrderDb)
      → create_order g tx i db ≡ ok db'
      → (o : PurchaseOrder) × (o.id ≡ tx.uuid 0)
        × IsFresh o
        × (any (λ (b : PurchaseOrder). b.id == tx.uuid 0) db.orders ≡ false)
        × (db'.orders ≡ o ∷ db.orders)
        × ((l : OrderLine)
            → Memᴰ l db'.lines
            → Memᴰ l db.lines ⊎ ((l.tenant_id ≡ tx.tenant_id) × (l.purchase_order_id ≡ tx.uuid 0)))
  unfolding create_order throw_if
  create_order-written tx i db db' h =
      let (s, _, h1) = bind-inv (normalized_snapshot g.doubles i.body) _ h in
      let (free, h2) =
        >>-inv (throw_if (any (λ (o : PurchaseOrder). o.id == tx.uuid 0) db.orders) internal_error)
          _ h1 in
      let (lines, w, h3) = bind-inv (replace_draft_lines tx (tx.uuid 0) s.lines db.lines) _ h2 in
      let e : db' ≡ record db { orders = new_order g tx i s ∷ db.orders; lines = lines } =
        ok_inj _ _ h3 in
      (
        new_order g tx i s,
        refl,
        record { no_count = refl; no_quantities = refl; no_progress = refl },
        ground arith,
        ap (λ (d : OrderDb). d.orders) e,
        λ l m.
            replace_draft_lines-Memᴰ tx (tx.uuid 0) s.lines db.lines lines w l
              (subst (λ (d : OrderDb). Memᴰ l d.lines) e m),
      )

  -- An order that was there has not the id of a new one.
  pub taken_id :
      (n tenant id : ℕ) (orders : List PurchaseOrder) (b : PurchaseOrder)
      → any (λ (b : PurchaseOrder). b.id == n) orders ≡ false
      → find_where (is_order tenant id) orders ≡ some b
      → b.id ≡ n
      → ⊥
  taken_id n tenant id orders b free found e =
      let t =
        Memᴰ-any (λ (b : PurchaseOrder). b.id == n) orders
          (find_where-Memᴰ (is_order tenant id) orders found)
          (ap (λ (m : ℕ). m == n) e ∙ ==_refl n) in
      cc (free, t)

  pub create_order-AreSound :
      (tx : Tx) (i : OrderInput) (db db' : OrderDb)
      → create_order g tx i db ≡ ok db'
      → AreSound db
      → AreSound db'
  create_order-AreSound tx i db db' h sound tenant id t found =
      let (o, own, fresh, free, e, lines) = create_order-written tx i db db' h in
      elim (first_row (is_order tenant id) o db.orders t
        (subst (λ os. find_where (is_order tenant id) os ≡ some t) e found)) [
          | inl (_, k) ↦ subst (λ x. IsSound x db'.lines) (sym k) (inl fresh)
          | inr (_, found') ↦
              IsSound-lines t db.lines db'.lines
                (λ l m k.
                  other t l k (taken_id (tx.uuid 0) tenant id db.orders t free found') (lines l m))
                (sound tenant id t found')
        ]
    where
      other :
          (b : PurchaseOrder) (l : OrderLine)
          → is_line_of b.tenant_id b.id b.current_commercial_version l ≡ true
          → (b.id ≡ tx.uuid 0 → ⊥)
          → Memᴰ l db.lines ⊎ ((l.tenant_id ≡ tx.tenant_id) × (l.purchase_order_id ≡ tx.uuid 0))
          → Memᴰ l db.lines
      other b l k apart (inl n) = n
      other b l k apart (inr (e1, e2)) =
          absurd (apart (ground (arith, eq_of_== l.purchase_order_id b.id)))

  -- A sound order received no more than was ordered.
  pub IsSound-within :
      (o : PurchaseOrder) (lines : List OrderLine)
      → IsSound o lines
      → (l : OrderLine) → Memᴰ l lines
      → is_line_of o.tenant_id o.id o.current_commercial_version l ≡ true
      → quantity_of l.id o.received_quantities ≤ l.content.quantity
  unfolding quantity_of
  IsSound-within o lines (inl f) l m e =
      subst (λ (q : List (ℕ × ℕ)). quantity_of l.id q ≤ l.content.quantity) (sym f.no_quantities)
        (omega arith)
  IsSound-within o lines (inr r) l m e = r.within l m e
