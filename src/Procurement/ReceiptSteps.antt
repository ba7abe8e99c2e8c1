-- ===== src/Procurement/ReceiptSteps.antt =====
-- The commands on goods receipts keep the orders sound, and the order of a posted receipt counted.
use itcenter.Base.{
  ℕ, ◌≡◌, refl, sym, ap, ◌∙◌, subst, inl, inr, Bool, true, false, not, List, arith, eq_of_==,
  Bool-cases, any, find_where, find_where-holds,
}
use itcenter.Platform.Tx.{Tx}
use mathlib.Core.List.{Memᴰ}
use itcenter.Base.{changed_row}
use itcenter.Base.Members.{Memᴰ-keep, Memᴰ-any}
use itcenter.Procurement.Orders.{
  Lifecycle, draft, issued, on_hold, closed, cancelled, fully_received, is_progress, is_state,
  PurchaseOrder, OrderLine, is_order, is_line_of,
}
use itcenter.Procurement.Approvals.{Ground}
use itcenter.Procurement.Moves.{is_live}
use itcenter.Procurement.Soundness.{IsSound-within, IsReceived, IsSound, AreSound, same_order}
use itcenter.Procurement.OrderSteps.{StayCounted, update-StayCounted, Keeps}
use itcenter.Procurement.ReceiptDrafts.{GoodsReceipt}
use itcenter.Procurement.Receipts.{
  left_on, is_positive, current_lines, is_fully_received, next_progress, receive_row,
}
use itcenter.Procurement.ReceiptTables.{ReceiptInput, ReceiptDb, in_order}
use itcenter.Procurement.Posting.{accept_lines-within, Posted}

issued-live : (s : Lifecycle) → is_state issued s ≡ true → is_live s ≡ true
issued-live draft e = cc
issued-live issued e = refl
issued-live on_hold e = refl
issued-live closed e = refl
issued-live cancelled e = cc

module _ (g : Ground) where
  -- Nothing is left where an order is called fully received.
  fully_received-left :
      (o : PurchaseOrder) (next : List (ℕ × ℕ)) (lines : List OrderLine) (l : OrderLine)
      → is_progress fully_received (next_progress g (is_fully_received g o next lines)) ≡ true
      → Memᴰ l lines
      → is_line_of o.tenant_id o.id o.current_commercial_version l ≡ true
      → is_positive g (left_on g next l) ≡ false
  fully_received-left o next lines l p m e = elim (Bool-cases (is_positive g (left_on g next l))) [
    | inr f ↦ f
    | inl t ↦
        let n = Memᴰ-keep (is_line_of o.tenant_id o.id o.current_commercial_version) lines m e in
        let a =
          Memᴰ-any (λ (k : OrderLine). is_positive g (left_on g next k)) (current_lines g o lines) n
            t in
        absurd (
          partial
            (any (λ (k : OrderLine). is_positive g (left_on g next k)) (current_lines g o lines)) a
            p)
  ]
    where
      partial :
          (b : Bool) → b ≡ true → is_progress fully_received (next_progress g (not b)) ≡ true → ⊥
      partial true a p = cc
      partial false a p = cc

  module _ (tx : Tx) (i : ReceiptInput) (r : GoodsReceipt) (db db' : ReceiptDb)
      (p : Posted g tx i r db db') where
    received : PurchaseOrder
    received = receive_row g tx p.order p.next db.order_db.lines p.order

    post-IsReceived : IsSound g p.order db.order_db.lines → IsReceived g received db.order_db.lines
    unfolding received
    post-IsReceived s = record {
      counted = ground arith;
      live = issued-live p.order.lifecycle_state p.issued_order;
      within = λ l m e.
          accept_lines-within g p.order.current_commercial_version p.order.received_quantities
            p.next tx.tenant_id db.order_db.lines (in_order r.lines) l p.accepted m (own l e)
            (IsSound-within g p.order db.order_db.lines s l m e);
      complete = λ q l m e. fully_received-left p.order p.next db.order_db.lines l q m e;
    }
      where
        own :
            (l : OrderLine)
            → is_line_of p.order.tenant_id p.order.id p.order.current_commercial_version l ≡ true
            → l.tenant_id ≡ tx.tenant_id
        own l e =
            let a =
              find_where-holds (is_order tx.tenant_id r.purchase_order_id) db.order_db.orders
                p.order p.found in
            ground (
              arith,
              eq_of_== l.tenant_id p.order.tenant_id,
              eq_of_== p.order.tenant_id tx.tenant_id,
            )

    post-AreSound : AreSound g db.order_db → AreSound g db'.order_db
    unfolding received
    post-AreSound sound tenant id t h =
        let (b, found, way) =
          changed_row (is_order tx.tenant_id p.order.id) (is_order tenant id)
            (receive_row g tx p.order p.next db.order_db.lines) db.order_db.orders t (λ x. refl)
            (ap (find_where (is_order tenant id)) (sym p.orders) ∙ h) in
        let s = sound tenant id b found in
        elim way [
          | inl (q, e) ↦
              let eo =
                same_order g tx.tenant_id r.purchase_order_id tenant id db.order_db.orders p.order b
                  p.found found q in
              subst (λ x. IsSound g x db'.order_db.lines)
                (sym (e ∙ ap (receive_row g tx p.order p.next db.order_db.lines) eo))
                (subst (λ ls. IsSound g received ls) (sym p.lines)
                  (inr (post-IsReceived (subst (λ x. IsSound g x db.order_db.lines) eo s))))
          | inr (q, e) ↦
              subst (λ x. IsSound g x db'.order_db.lines) (sym e)
                (subst (λ ls. IsSound g b ls) (sym p.lines) s)
        ]

    post-StayCounted : StayCounted db.order_db db'.order_db
    post-StayCounted =
        update-StayCounted (is_order tx.tenant_id p.order.id)
          (receive_row g tx p.order p.next db.order_db.lines) db.order_db db'.order_db p.orders
          (λ x. refl) (λ x. refl) (λ x c. ground arith)

    pub post-Keeps : Keeps g db.order_db db'.order_db
    post-Keeps = record { sound = post-AreSound; counted = post-StayCounted }
