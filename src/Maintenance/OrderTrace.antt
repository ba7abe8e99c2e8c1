-- ===== src/Maintenance/OrderTrace.antt =====
-- Maintenance orders over any sequence of commands.
use itcenter.Base.{
  ◌≡◌, ◌⊎◌, inl, inr, true, false, none, some, List, [], ◌∷◌, arith, ◌==◌, Bool-cases, Option-cases,
  any, find_where, update_where, is_blank,
}
use itcenter.Platform.Tx.{Tx}
use itcenter.Platform.Errors.{Result, ok, err, throw_if, or_throw, bind-inv, assert_version}
use itcenter.Platform.Index.{insert_unique}
use itcenter.Maintenance.Orders.{
  draft, OrderState, may_move, Order, is_order, CreateInput, create_maintenance, ClassifyInput,
  Classified, is_terminal, is_classified, classify_row, update_maintenance_classification,
  MoveInput, move_order, check_move, transition_maintenance,
}

pub data Call : Type 0 where
  creates : CreateInput → Call
  classifies : ClassifyInput → Call
  moves : MoveInput → Call

-- A command that throws leaves the table as it was.
abbrev pub after {ℓ} : {A : Type ℓ} → List Order → Result (List Order × A) → List Order
after rows (ok (rows', r)) = rows'
after rows (err e) = rows

unfoldable pub step : Tx → Call → List Order → List Order
step tx (creates i) rows = after rows (create_maintenance tx i rows)
step tx (classifies i) rows = after rows (update_maintenance_classification tx i rows)
step tx (moves i) rows = after rows (transition_maintenance tx i rows)

unfoldable pub run : List (Tx × Call) → List Order → List Order
run [] rows = rows
run ((tx, c) ∷ cs) rows = run cs (step tx c rows)

-- The guards of a change, read back from its success.
pub record Checked (tx : Tx) (i : MoveInput) (rows : List Order) (o : Order) (s : OrderState)
    : Type 0 where
  pub found : find_where (is_order tx.tenant_id i.id) rows ≡ some o
  pub current : o.version ≡ i.expected_version
  pub reasoned : is_blank i.reason ≡ false
  pub allowed : may_move o.state (some s) ≡ true

check_move-Checked :
    (tx : Tx) (i : MoveInput) (rows : List Order) (o : Order) (s : OrderState)
    → check_move tx i rows ≡ ok (o, s)
    → Checked tx i rows o s
unfolding check_move throw_if or_throw assert_version
check_move-Checked tx i rows o s h = record {
  found = ground arith;
  current = ground arith;
  reasoned = ground arith;
  allowed = ground arith;
}

pub transition_maintenance-written :
    (tx : Tx) (i : MoveInput) (rows rows' : List Order) (m : OrderState × OrderState)
    → transition_maintenance tx i rows ≡ ok (rows', m)
    → (o : Order) × (s : OrderState) × Checked tx i rows o s
      × (rows' ≡ update_where (is_order tx.tenant_id i.id) (move_order tx i s) rows)
      × (m ≡ (o.state, s))
unfolding transition_maintenance
transition_maintenance-written tx i rows rows' m h =
    let ((o, s), c, k) = bind-inv (check_move tx i rows) _ h in
    (o, s, check_move-Checked tx i rows o s c, cc, cc)

-- What a classification has written, when it succeeds: nothing, or the new classification of an order
-- that was found and is not terminal.
pub classification-written :
    (tx : Tx) (i : ClassifyInput) (rows rows' : List Order) (r : Classified)
    → update_maintenance_classification tx i rows ≡ ok (rows', r)
    → (o : Order) × (find_where (is_order tx.tenant_id i.id) rows ≡ some o)
      × (o.version ≡ i.expected_version)
      × (is_terminal o.state ≡ false)
      × ((rows' ≡ rows)
          ⊎ (rows' ≡ update_where (is_order tx.tenant_id i.id) (classify_row tx i) rows))
unfolding update_maintenance_classification throw_if or_throw assert_version
classification-written tx i rows rows' r h =
    elim (Option-cases (find_where (is_order tx.tenant_id i.id) rows)) [
      | inl e ↦ absurd (ground arith)
      | inr (o, e) ↦ (
        o,
        e,
        ground arith,
        ground arith,
        elim (Bool-cases (is_classified o.classification i.classification)) [
          | inl k ↦ inl (ground arith)
          | inr k ↦ inr (ground arith)
        ],
      )
    ]

pub created-rows :
    (tx : Tx) (i : CreateInput) (rows rows' : List Order) (r : Order)
    → create_maintenance tx i rows ≡ ok (rows', r)
    → (rows' ≡ r ∷ rows)
      × (any (λ o. o.id == r.id) rows ≡ false)
      × (r.state ≡ draft)
      × (r.completed_at ≡ none)
unfolding create_maintenance throw_if insert_unique
created-rows tx i rows rows' r h = (ground arith, ground arith, ground arith, ground arith)
