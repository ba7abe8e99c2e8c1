-- ===== src/Examples/Maintenance.antt =====
-- An order that is repaired and closed, warranties on a day, and the theorems of maintenance at them.
use itcenter.Base.{
  ◌+◌, ◌<◌, ◌≡◌, refl, subst, inl, inr, none, some, List, [], ◌∷◌, arith, Bool-cases, find_where,
  Text,
}
use itcenter.Platform.Tx.{Tx}
use itcenter.Maintenance.Dates.{
  Date, is_date, is_leap, days_in_month, valid_date, day_number, days_before_month,
  days_before_year,
}
use itcenter.Maintenance.DateOrder.{day_number_mono}
use itcenter.Maintenance.Warranty.{
  Evidence, is_invalid, has_started, ends_later, ends_before_start, state_on, assess, decide,
  evaluate_warranty_state,
}
use itcenter.Maintenance.Dates.{days_between}
use itcenter.Maintenance.WarrantyLaws.{Window, InEffect, evaluate_warranty_state-known}
use itcenter.Maintenance.Orders.{
  is_completed, completed, opened, verifying, Order, is_order, corrective, is_terminal,
}
use itcenter.Maintenance.OrderTrace.{Call, creates, moves, run}
use itcenter.Maintenance.OrderLaws.{run-Stands}
use itcenter.Maintenance.OrderStamps.{is_some, AllStamped, run-AllStamped}

in_force : Unit {0}
unfolding is_date is_leap days_in_month valid_date day_number days_before_month days_before_year
    is_invalid has_started ends_later ends_before_start state_on assess decide
    evaluate_warranty_state days_between is_terminal find_where
in_force = tt

abbrev may_day : Date
may_day = record { year = 2024; month = 5; day = 1 }

abbrev leap : Date
leap = record { year = 2024; month = 2; day = 29 }

day_number_mono_example : day_number leap < day_number may_day
unfolding in_force
day_number_mono_example = day_number_mono leap may_day refl refl (omega arith)

abbrev cover : Evidence
cover = record {
  id = 7;
  starts_at = some leap;
  ends_at = some (record { year = 2024; month = 6; day = 1 });
}

evaluate_warranty_state-known_example :
    (w : Evidence) × (e : Date) × InEffect may_day (cover ∷ []) w
    × (w.id ≡ 7)
    × (w.ends_at ≡ some e)
    × ((evaluate_warranty_state (cover ∷ []) (some may_day)).ends_at ≡ some e)
    × Window
        ((evaluate_warranty_state (cover ∷ []) (some may_day)).state)
        (day_number may_day)
        (day_number e)
unfolding in_force
evaluate_warranty_state-known_example =
    evaluate_warranty_state-known (cover ∷ []) may_day 7 refl refl

abbrev tx : Tx
tx = record { tenant_id = 1; now = 100; uuid = λ k. 1000 + k }

abbrev why : Text
why = 79 ∷ 75 ∷ []

abbrev mended : Order
mended = record {
  tenant_id = 1;
  id = 40;
  asset_id = 4;
  title = why;
  description = why;
  classification = some corrective;
  warranty_id = none;
  state = completed;
  completed_at = some 90;
  updated_at = 90;
  version = 6;
}

abbrev calls : List (Tx × Call)
calls =
    (
      tx,
      creates (record {
        asset_id = 4;
        title = why;
        description = why;
        classification = some corrective;
        warranty_id = none;
      }),
    )
    ∷ (
      tx,
      moves (record { id = 1000; expected_version = 1; target_state = some opened; reason = why }),
    )
    ∷ (
      tx,
      moves (record { id = 40; expected_version = 6; target_state = some verifying; reason = why }),
    )
    ∷ []

run-Stands_example : find_where (is_order 1 40) (run calls (mended ∷ [])) ≡ some mended
unfolding in_force
run-Stands_example = run-Stands calls 1 40 mended (mended ∷ []) refl refl

mended-AllStamped : AllStamped (mended ∷ [])
unfolding find_where
mended-AllStamped tenant id o h = elim (Bool-cases (is_order tenant id mended)) [
  | inl k ↦
      subst (λ (x : Order). is_some x.completed_at ≡ is_completed x.state) {x = mended} {y = o}
        (ground arith) refl
  | inr k ↦ absurd (ground arith)
]

run-AllStamped_example : AllStamped (run calls (mended ∷ []))
run-AllStamped_example = run-AllStamped calls (mended ∷ []) mended-AllStamped
