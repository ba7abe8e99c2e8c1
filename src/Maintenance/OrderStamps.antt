-- ===== src/Maintenance/OrderStamps.antt =====
-- The completion time of a maintenance order.
use itcenter.Base.{
  ℕ, ◌≡◌, refl, sym, ap, ◌∙◌, subst, inl, inr, Bool, true, false, Option, none, some, List, [], ◌∷◌,
  arith, eq_of_==, Bool-cases, find_where, update_where, find_where-holds,
}
use itcenter.Platform.Tx.{Tx, row_is}
use itcenter.Base.{updated_row}
use itcenter.Maintenance.Orders.{
  draft, OrderState, completed, transitions, may_move, Order, is_order, classify_row, is_completed,
  move_order,
}
use itcenter.Maintenance.OrderTrace.{
  Call, creates, classifies, moves, step, run, transition_maintenance-written,
  classification-written, created-rows,
}
use itcenter.Maintenance.OrderLaws.{after-keeps, same_order}

abbrev pub is_some {ℓ} : {A : Type ℓ} → Option A → Bool
is_some none = false
is_some (some a) = true

-- Every order that a query by its id returns has a completion time exactly if it is completed.
abbrev pub AllStamped : List Order → Type 0
AllStamped rows =
    (tenant id : ℕ) (o : Order)
    → find_where (is_order tenant id) rows ≡ some o
    → is_some o.completed_at ≡ is_completed o.state

updated-AllStamped :
    (tenant' id' : ℕ) (b : Order) (f : Order → Order) (rows : List Order)
    → ((c : Order) (tenant id : ℕ) → is_order tenant id (f c) ≡ is_order tenant id c)
    → find_where (is_order tenant' id') rows ≡ some b
    → is_some ((f b).completed_at) ≡ is_completed ((f b).state)
    → AllStamped rows
    → AllStamped (update_where (is_order tenant' id') f rows)
updated-AllStamped tenant' id' b f rows same found stamped v tenant id o h =
    let (c, old, way) =
      updated_row (is_order tenant' id') (is_order tenant id) f rows o (λ c. same c tenant' id')
        (λ c. same c tenant id) h in
    elim way [
      | inl (hit, e) ↦
          let same_row = same_order tenant id tenant' id' c b rows (keys c old hit) old found in
          subst (λ (x : Order). is_some x.completed_at ≡ is_completed x.state)
            (sym (e ∙ ap f same_row)) stamped
      | inr e ↦
          subst (λ (x : Order). is_some x.completed_at ≡ is_completed x.state) (sym e)
            (v tenant id c old)
    ]
  where
    keys :
        (c : Order)
        → find_where (is_order tenant id) rows ≡ some c
        → is_order tenant' id' c ≡ true
        → row_is tenant id tenant' id' ≡ true
    keys c old hit = ground (
      arith,
      find_where-holds (is_order tenant id) rows c old,
      eq_of_== c.tenant_id tenant,
      eq_of_== c.tenant_id tenant',
      eq_of_== c.id id,
      eq_of_== c.id id',
    )

completed-may_move : (s t : OrderState) → may_move s (some t) ≡ true → is_completed s ≡ false
unfolding may_move transitions
completed-may_move completed t h = absurd (ground arith)
completed-may_move _ t h = refl

step-AllStamped :
    (tx : Tx) (c : Call) (rows : List Order) → AllStamped rows → AllStamped (step tx c rows)
unfolding step find_where
step-AllStamped tx (creates i) rows v = after-keeps AllStamped rows _ v λ rows' r e.
    let (k, _, new, blank) = created-rows tx i rows rows' r e in
    subst AllStamped (sym k) (inserted r new blank)
  where
    inserted : (r : Order) → r.state ≡ draft → r.completed_at ≡ none → AllStamped (r ∷ rows)
    inserted r new blank tenant id o h = elim (Bool-cases (is_order tenant id r)) [
      | inl k ↦
          subst (λ (x : Order). is_some x.completed_at ≡ is_completed x.state) {x = r} {y = o}
            (ground arith) (rw (new, blank) refl)
      | inr k ↦ v tenant id o (ground arith)
    ]
step-AllStamped tx (classifies i) rows v = after-keeps AllStamped rows _ v λ rows' r e.
    let (b, found, _, going, way) = classification-written tx i rows rows' r e in
    elim way [
      | inl k ↦ subst AllStamped (sym k) v
      | inr k ↦ subst AllStamped (sym k) (
          updated-AllStamped tx.tenant_id i.id b (classify_row tx i) rows (λ c t d. refl) found
            (v tx.tenant_id i.id b found) v)
    ]
step-AllStamped tx (moves i) rows v = after-keeps AllStamped rows _ v λ rows' m e.
    let (b, s, c, k, _) = transition_maintenance-written tx i rows rows' m e in
    subst AllStamped (sym k) (
      updated-AllStamped tx.tenant_id i.id b (move_order tx i s) rows (λ c t d. refl) c.found
        (stamped b s c.allowed (v tx.tenant_id i.id b c.found)) v)
  where
    stamped :
        (b : Order) (s : OrderState)
        → may_move b.state (some s) ≡ true
        → is_some b.completed_at ≡ is_completed b.state
        → is_some ((move_order tx i s b).completed_at) ≡ is_completed s
    stamped b s h k = elim (Bool-cases (is_completed s)) [
      | inl e ↦ ground arith
      | inr e ↦ ground (arith, completed-may_move b.state s)
    ]

-- Any commands keep it that an order has a completion time exactly if it is completed, from a table in which
-- that holds of every order.
pub run-AllStamped :
    (cs : List (Tx × Call)) (rows : List Order) → AllStamped rows → AllStamped (run cs rows)
unfolding run
run-AllStamped [] rows v = v
run-AllStamped ((tx, c) ∷ cs) rows v =
    run-AllStamped cs (step tx c rows) (step-AllStamped tx c rows v)
