-- ===== src/Maintenance/OrderLaws.antt =====
-- What holds of maintenance orders after any sequence of commands.
use itcenter.Base.{
  ℕ, ◌≡◌, refl, sym, ap, ◌∙◌, subst, inl, inr, Bool, true, false, some, List, [], ◌∷◌, arith, ◌==◌,
  eq_of_==, ==_refl, Bool-cases, any, find_where, update_where, find_where-holds,
  find_where-update_other,
}
use itcenter.Platform.Tx.{Tx, row_is}
use itcenter.Platform.Errors.{Result, ok, err}
use itcenter.Maintenance.Orders.{
  OrderState, completed, cancelled, failed, transitions, may_move, Order, is_order, is_terminal,
  classify_row, move_order,
}
use itcenter.Maintenance.OrderTrace.{
  Call, creates, classifies, moves, after, step, run, transition_maintenance-written,
  classification-written, created-rows,
}

pub after-keeps {ℓ} :
    {A : Type ℓ} (P : List Order → Type 0) (rows : List Order) (r : Result (List Order × A))
    → P rows
    → ((rows' : List Order) (a : A) → r ≡ ok (rows', a) → P rows')
    → P (after rows r)
after-keeps P rows (ok (rows', a)) v k = k rows' a refl
after-keeps P rows (err e) v k = v

pub terminal-may_move : (s t : OrderState) → is_terminal s ≡ true → may_move s (some t) ≡ false
unfolding is_terminal may_move transitions
terminal-may_move completed t h = refl
terminal-may_move cancelled t h = refl
terminal-may_move failed t h = refl
terminal-may_move _ t h = absurd (ground arith)

-- The order that a query by its id returns.
abbrev pub Stands : ℕ → ℕ → Order → List Order → Type 0
Stands tenant id o rows = find_where (is_order tenant id) rows ≡ some o

-- The keys of two queries that agree on a row are the same key.
keys_apart :
    (tenant id tenant' id' : ℕ) (c : Order)
    → row_is tenant id tenant' id' ≡ false
    → is_order tenant' id' c ≡ true
    → is_order tenant id c ≡ false
keys_apart tenant id tenant' id' c h k =
    rw (eq_of_== c.tenant_id tenant' (ground arith), eq_of_== c.id id' (ground arith)) h

pub same_order :
    (tenant id tenant' id' : ℕ) (o b : Order) (rows : List Order)
    → row_is tenant id tenant' id' ≡ true
    → Stands tenant id o rows
    → Stands tenant' id' b rows
    → o ≡ b
same_order tenant id tenant' id' o b rows h v w = cc (v, keys, w)
  where
    keys : find_where (is_order tenant id) rows ≡ find_where (is_order tenant' id') rows
    keys = rw (eq_of_== tenant' tenant (ground arith), eq_of_== id' id (ground arith)) refl

-- An update by the key of an order that is not terminal leaves a terminal order as it was.
update-Stands :
    (tenant id tenant' id' : ℕ) (o b : Order) (f : Order → Order) (rows : List Order)
    → ((c : Order) → is_order tenant' id' c ≡ true → is_order tenant' id' (f c) ≡ true)
    → Stands tenant' id' b rows
    → is_terminal b.state ≡ false
    → is_terminal o.state ≡ true
    → Stands tenant id o rows
    → Stands tenant id o (update_where (is_order tenant' id') f rows)
update-Stands tenant id tenant' id' o b f rows same found going stuck v =
    elim (Bool-cases (row_is tenant id tenant' id')) [
      | inl h ↦ absurd (
          ground (
            arith,
            ap (λ (x : Order). is_terminal x.state)
                (same_order tenant id tenant' id' o b rows h v found),
          ))
      | inr h ↦
          find_where-update_other (is_order tenant id) (is_order tenant' id') f rows
            (λ c k. keys_apart tenant id tenant' id' c h k)
            (λ c k. keys_apart tenant id tenant' id' (f c) h (same c k))
          ∙ v
    ]

find_where-any :
    (p q : Order → Bool) (rows : List Order) (o : Order)
    → find_where q rows ≡ some o
    → any p rows ≡ false
    → p o ≡ false
unfolding find_where
find_where-any p q [] o h k = cc
find_where-any p q (x ∷ xs) o h k = ground (arith, find_where-any p q xs o)

insert-Stands :
    (tenant id : ℕ) (o r : Order) (rows : List Order)
    → any (λ o. o.id == r.id) rows ≡ false
    → Stands tenant id o rows
    → Stands tenant id o (r ∷ rows)
unfolding find_where
insert-Stands tenant id o r rows fresh v = ground (
  arith,
  find_where-any (λ o. o.id == r.id) (is_order tenant id) rows o v fresh,
  find_where-holds (is_order tenant id) rows o v,
  eq_of_== o.id id,
  eq_of_== r.id id,
  ==_refl id,
)

step-Stands :
    (tx : Tx) (c : Call) (tenant id : ℕ) (o : Order) (rows : List Order)
    → is_terminal o.state ≡ true
    → Stands tenant id o rows
    → Stands tenant id o (step tx c rows)
unfolding step
step-Stands tx (creates i) tenant id o rows stuck v =
    after-keeps (Stands tenant id o) rows _ v λ rows' r e.
      let (k, fresh, _, _) = created-rows tx i rows rows' r e in
      subst (Stands tenant id o) (sym k) (insert-Stands tenant id o r rows fresh v)
step-Stands tx (classifies i) tenant id o rows stuck v =
    after-keeps (Stands tenant id o) rows _ v λ rows' r e.
      let (b, found, _, going, way) = classification-written tx i rows rows' r e in
      elim way [
        | inl k ↦ subst (Stands tenant id o) (sym k) v
        | inr k ↦ subst (Stands tenant id o) (sym k) (
            update-Stands tenant id tx.tenant_id i.id o b (classify_row tx i) rows (λ c h. h) found
              going stuck v)
      ]
step-Stands tx (moves i) tenant id o rows stuck v =
    after-keeps (Stands tenant id o) rows _ v λ rows' m e.
      let (b, s, c, k, _) = transition_maintenance-written tx i rows rows' m e in
      subst (Stands tenant id o) (sym k) (
        update-Stands tenant id tx.tenant_id i.id o b (move_order tx i s) rows (λ c h. h) c.found
          (going b s c.allowed) stuck v)
  where
    going :
        (b : Order) (s : OrderState)
        → may_move b.state (some s) ≡ true
        → is_terminal b.state ≡ false
    going b s h = ground (arith, terminal-may_move b.state s)

-- An order that is completed, cancelled or failed is never changed again: whatever commands follow, of any
-- tenant, a query by its id returns the very same row.
pub run-Stands :
    (cs : List (Tx × Call)) (tenant id : ℕ) (o : Order) (rows : List Order)
    → is_terminal o.state ≡ true
    → find_where (is_order tenant id) rows ≡ some o
    → find_where (is_order tenant id) (run cs rows) ≡ some o
unfolding run
run-Stands [] tenant id o rows stuck v = v
run-Stands ((tx, c) ∷ cs) tenant id o rows stuck v =
    run-Stands cs tenant id o (step tx c rows) stuck (step-Stands tx c tenant id o rows stuck v)
