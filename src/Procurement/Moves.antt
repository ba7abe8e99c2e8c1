-- ===== src/Procurement/Moves.antt =====
-- What a command on a purchase order leaves as it was, and the lines that it writes.
use itcenter.Base.{
  ℕ, ◌+◌, ◌≡◌, ap, subst, ◌⊎◌, inl, inr, Bool, true, false, not, Option, none, List, [], ◌∷◌, ◌++◌,
  ◌==◌, any, update_where,
}
use itcenter.Platform.Tx.{Tx}
use itcenter.Platform.Errors.{business_rule_violation, internal_error, ok, throw_if}
use itcenter.Platform.Errors.{>>-inv}
use mathlib.Core.List.{Memᴰ}
use mathlib.Core.List.Memᴰ
use itcenter.Base.Members.{keep-Memᴰ}
use itcenter.Procurement.Snapshots.{SnapshotLine}
use itcenter.Procurement.Orders.{
  Lifecycle, draft, issued, on_hold, closed, cancelled, is_state, PurchaseOrder, OrderLine, OrderDb,
  is_order, is_line_of, ReceiptProgress,
}
use itcenter.Procurement.OrderCommands.{new_lines, write_lines, replace_draft_lines, is_id_of}

-- An order that goods may have been received on.
abbrev pub is_live : Lifecycle → Bool
is_live draft = false
is_live cancelled = false
is_live _ = true

-- What every command leaves of an order.
pub record Kept (x y : PurchaseOrder) : Type 0 where
  pub same_tenant : y.tenant_id ≡ x.tenant_id
  pub same_id : y.id ≡ x.id
  pub same_count : y.committed_receipt_count ≡ x.committed_receipt_count
  pub same_received : y.received_quantities ≡ x.received_quantities
  pub same_progress : y.receipt_state ≡ x.receipt_state

abbrev pub core : PurchaseOrder → ℕ × ℕ × ℕ × List (ℕ × ℕ) × ReceiptProgress
core x = (x.tenant_id, x.id, x.committed_receipt_count, x.received_quantities, x.receipt_state)

pub core-Kept : (x y : PurchaseOrder) → core y ≡ core x → Kept x y
core-Kept x y e = record {
  same_tenant = ap (λ (c : ℕ × ℕ × ℕ × List (ℕ × ℕ) × ReceiptProgress). c.0) e;
  same_id = cc e;
  same_count = cc e;
  same_received = cc e;
  same_progress = cc e;
}

pub record Moved (tenant : ℕ) (o : PurchaseOrder) (db db' : OrderDb) : Type 0 where
  pub change : PurchaseOrder → PurchaseOrder
  pub written : db'.orders ≡ update_where (is_order tenant o.id) change db.orders
  pub kept : (x : PurchaseOrder) → core (change x) ≡ core x
  pub same_lines :
      (l : OrderLine)
      → Memᴰ l db'.lines
      → Memᴰ l db.lines ⊎ ((l.tenant_id ≡ tenant) × (l.purchase_order_id ≡ o.id))
  -- Once goods were received, the lines and the version stay.
  pub steady :
      (o.committed_receipt_count == 0) ≡ false
      → is_live o.lifecycle_state ≡ true
      → (db'.lines ≡ db.lines)
        × ((change o).current_commercial_version ≡ o.current_commercial_version)
        × (is_live (change o).lifecycle_state ≡ true)

new_lines-Memᴰ :
    (tx : Tx) (n order : ℕ) (v : Option ℕ) (ls : List SnapshotLine) {l : OrderLine}
    → Memᴰ l (new_lines tx n order v ls)
    → (l.tenant_id ≡ tx.tenant_id) × (l.purchase_order_id ≡ order)
unfolding new_lines
new_lines-Memᴰ tx n order v [] m = elim m [ ]
new_lines-Memᴰ tx n order v (x ∷ ls) (Memᴰ.head e) =
    (ap (λ (k : OrderLine). k.tenant_id) e, ap (λ (k : OrderLine). k.purchase_order_id) e)
new_lines-Memᴰ tx n order v (x ∷ ls) (Memᴰ.tail m) = new_lines-Memᴰ tx (n + 1) order v ls m

pub write_lines-Memᴰ :
    (tx : Tx) (order : ℕ) (v : Option ℕ) (content : List SnapshotLine) (rows rows' : List OrderLine)
    → write_lines tx order v content rows ≡ ok rows'
    → (l : OrderLine) → Memᴰ l rows'
    → Memᴰ l rows ⊎ ((l.tenant_id ≡ tx.tenant_id) × (l.purchase_order_id ≡ order))
unfolding write_lines
write_lines-Memᴰ tx order v content rows rows' h l m =
    let (_, k) =
      >>-inv (throw_if (any (is_id_of (new_lines tx 1 order v content)) rows) internal_error) _ h in
    let e : rows' ≡ new_lines tx 1 order v content ++ rows = cc k in
    elim (Memᴰ.append_cases (new_lines tx 1 order v content) (subst (λ r. Memᴰ l r) e m)) [
      | inl n ↦ inr (new_lines-Memᴰ tx 1 order v content n)
      | inr n ↦ inl n
    ]

pub replace_draft_lines-Memᴰ :
    (tx : Tx) (order : ℕ) (content : List SnapshotLine) (rows rows' : List OrderLine)
    → replace_draft_lines tx order content rows ≡ ok rows'
    → (l : OrderLine) → Memᴰ l rows'
    → Memᴰ l rows ⊎ ((l.tenant_id ≡ tx.tenant_id) × (l.purchase_order_id ≡ order))
unfolding replace_draft_lines
replace_draft_lines-Memᴰ tx order content rows rows' h l m =
    elim (write_lines-Memᴰ tx order none content _ rows' h l m) [
      | inl n ↦ inl ((keep-Memᴰ (λ k. not (is_line_of tx.tenant_id order none k)) rows n).0)
      | inr n ↦ inr n
    ]

pub drafted :
    (s : Lifecycle)
    → throw_if (not (is_state draft s)) business_rule_violation ≡ ok tt
    → is_live s ≡ true
    → ⊥
unfolding throw_if
drafted draft t q = cc
drafted issued t q = cc
drafted on_hold t q = cc
drafted closed t q = cc
drafted cancelled t q = cc
