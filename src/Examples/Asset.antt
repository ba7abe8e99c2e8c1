-- ===== src/Examples/Asset.antt =====
-- One asset of one tenant, from its reservation to its return, and the theorems of the asset module at
-- it.
use itcenter.Base.{
  text_eq, ◌+◌, ◌≡◌, refl, true, false, none, some, [], ◌∷◌, arith, find_where, update_where,
  count_where, Text, is_blank, is_space, trim, trim_start,
}
use itcenter.Platform.Tx.{Tx}
use itcenter.Platform.Errors.{
  ErrorCode, version_conflict, ok, err, throw_if, or_throw, must_exist, assert_version,
}
use itcenter.Platform.Index.{insert_unique}
use itcenter.Asset.States.{AssetState, AssignmentState, reserved, reserved_for, assigned}
use itcenter.Asset.Store.{Asset, Assignment, LifecycleTransition, AssetDb, is_asset}
use itcenter.Asset.Lifecycle.{
  TransitionInput, ReserveInput, TransferInput, check_transition, apply_transition,
  transition_lifecycle, assign_move, reserve_asset, assign_asset, new_assignment, check_transfer,
  end_assignment, hand_over, apply_transfer, transfer_asset,
}
use itcenter.Asset.Returns.{
  ReturnInput, CancelInput, ReceiveInput, check_request_return, request_return, apply_cancel,
  cancel_return_request, check_receive, apply_receive, receive_return,
}
use itcenter.Asset.Trace.{transitions, reserves, after, step, run}
use itcenter.Asset.States.{
  available, in_use, returned, may_move, unassigned, assigned_to, pending_return, medium, unknown,
}
use itcenter.Asset.Graph.{◌⟶◌}
use itcenter.Asset.Lifecycle.{risk_eligible, in_custody, Moved, move_asset}
use itcenter.Asset.Returns.{set_assignment_state, receive_asset, already_cancelled}
use itcenter.Asset.Invariant.{Inv, run-Inv}
use itcenter.Asset.Outcomes.{transition_lifecycle-follows, transition_lifecycle-stale}
use itcenter.Asset.Isolation.{tenant_view, step-isolated}
use itcenter.Asset.Reservations.{reserved_once}
use itcenter.Asset.Custody.{Holder, transfer_asset-hands_over}
use itcenter.Asset.ReturnTrip.{request_return-cancel}
use itcenter.Asset.Cancellation.{IsSound, cancel-again}
use itcenter.Asset.Receipt.{receive_return-skips}
use itcenter.Platform.Secrets.{holds_secret}

-- All that a run of a command computes with.
opened : Unit {0}
unfolding transition_lifecycle check_transition apply_transition move_asset risk_eligible may_move
    reserve_asset assign_asset check_transfer in_custody hand_over end_assignment apply_transfer
    transfer_asset check_request_return set_assignment_state request_return cancel_return_request
    already_cancelled text_eq apply_cancel trim trim_start is_space check_receive receive_asset
    apply_receive receive_return insert_unique throw_if or_throw must_exist assert_version
    find_where update_where count_where is_blank holds_secret
opened = tt

abbrev tx : Tx
tx = record { tenant_id = 1; now = 100; uuid = λ k. 1000 + k }

abbrev why : Text
why = 79 ∷ 75 ∷ []

abbrev laptop : Asset
laptop = record {
  tenant_id = 1;
  id = 7;
  asset_code = 70;
  lifecycle_state = available;
  assignment_state = unassigned;
  risk_state = unknown;
  risk_assessment_id = none;
  risk_assessment_valid_until = none;
  current_location_id = some 3;
  updated_at = 90;
  version = 1;
}

abbrev stock : AssetDb
stock = record {
  assets = laptop ∷ [];
  reservations = [];
  assignments = [];
  movements = [];
  return_requests = [];
  return_documents = [];
  lifecycle_transitions = [];
  outbox = [];
  locations = record { tenant_id = 1; id = 3; active = true } ∷ [];
  users =
      record { tenant_id = 1; id = 5; employed = true }
      ∷ record { tenant_id = 1; id = 6; employed = true }
      ∷ [];
}

stock-Inv : Inv stock
unfolding count_where
stock-Inv = record {
  one_custody = λ t k. omega arith;
  one_reservation = λ t k. omega arith;
  one_return = λ t k. omega arith;
}

abbrev reserving : ReserveInput
reserving = record {
  asset_id = 7;
  expected_version = 1;
  requested_for = why;
  reason = why;
  expires_at = 200;
  actor_id = 9;
}

abbrev held : AssetDb
held = after stock (reserve_asset tx reserving stock)

reserve_runs : reserve_asset tx reserving stock ≡ ok (held, 2)
unfolding opened
reserve_runs = refl

moving : TransitionInput
moving =
    assign_move
      (record { asset_id = 7; expected_version = 2; user_id = 5; reason = why; actor_id = 9 })

abbrev moved : AssetDb
moved = after held (transition_lifecycle tx moving held)

abbrev move_result : Moved
move_result = record { from_state = reserved; to_state = assigned; version = 3 }

move_runs : transition_lifecycle tx moving held ≡ ok (moved, move_result)
unfolding opened moving
move_runs = refl

run-Inv_example : Inv (run ((tx, reserves reserving) ∷ (tx, transitions moving) ∷ []) stock)
run-Inv_example = run-Inv ((tx, reserves reserving) ∷ (tx, transitions moving) ∷ []) stock stock-Inv

transition_lifecycle-follows_example :
    (a b : Asset) × (t : AssetState) × (row : LifecycleTransition) × (find_where
        (is_asset 1 7)
        held.assets
      ≡ some a)
    × (a.version ≡ 2)
    × (some assigned ≡ some t)
    × (a.lifecycle_state ⟶ t)
    × (move_result ≡ record { from_state = a.lifecycle_state; to_state = t; version = 3 })
    × (find_where (is_asset 1 7) moved.assets ≡ some b)
    × (b.lifecycle_state ≡ t)
    × (b.version ≡ 3)
    × (b.updated_at ≡ 100)
    × (b.assignment_state ≡ elim t as (λ _. AssignmentState) [
      | reserved ↦ reserved_for
      | available ↦ unassigned
      | _ ↦ a.assignment_state
    ])
    × (moved.lifecycle_transitions ≡ row ∷ held.lifecycle_transitions)
    × (row.tenant_id ≡ 1)
    × (row.asset_id ≡ 7)
    × (row.from_state ≡ a.lifecycle_state)
    × (row.to_state ≡ t)
    × (row.actor_id ≡ moving.actor_id)
    × (row.reason ≡ moving.reason)
    × (moved.assignments ≡ held.assignments)
unfolding moving
transition_lifecycle-follows_example =
    transition_lifecycle-follows tx moving held moved move_result move_runs

transition_lifecycle-stale_example : transition_lifecycle tx moving moved ≡ err version_conflict
unfolding is_blank trim trim_start is_space moving
transition_lifecycle-stale_example =
    transition_lifecycle-stale tx tx moving moving held moved move_result move_runs refl refl refl
      refl

step-isolated_example : tenant_view 2 (step tx (reserves reserving) stock) ≡ tenant_view 2 stock
step-isolated_example = step-isolated 2 tx (reserves reserving) stock (omega arith)

reserved_once_example :
    (e : ErrorCode) × (reserve_asset tx
        (record reserving { expected_version = 3 })
        (run ((tx, transitions moving) ∷ []) held)
      ≡ err e)
reserved_once_example =
    reserved_once tx tx reserving (record reserving { expected_version = 3 })
      ((tx, transitions moving) ∷ []) stock held 2 reserve_runs refl refl

abbrev custody : Assignment
custody = new_assignment 1 50 7 5 why

-- The asset in use by user 5.
abbrev deployed : AssetDb
deployed = record stock {
  assets =
      record laptop {
        lifecycle_state = in_use;
        assignment_state = assigned_to;
        risk_state = medium;
        risk_assessment_id = some 80;
        version = 4;
      }
      ∷ [];
  assignments = custody ∷ [];
}

deployed-Inv : Inv deployed
unfolding count_where
deployed-Inv = record {
  one_custody = λ t k. ground arith;
  one_reservation = λ t k. omega arith;
  one_return = λ t k. omega arith;
}

abbrev handing : TransferInput
handing = record {
  asset_id = 7;
  expected_version = 4;
  to_location_id = 3;
  to_user_id = 6;
  reason = why;
}

handing_passes :
    check_transfer tx handing deployed
    ≡ ok (
      record laptop {
        lifecycle_state = in_use;
        assignment_state = assigned_to;
        risk_state = medium;
        risk_assessment_id = some 80;
        version = 4;
      },
      custody,
    )
unfolding opened
handing_passes = refl

transfer_asset-hands_over_example :
    (db' : AssetDb) × (transfer_asset tx handing deployed ≡ ok (db', 5))
    × Holder 1 7 6 db'.assignments
transfer_asset-hands_over_example =
    transfer_asset-hands_over tx handing deployed _ custody deployed-Inv handing_passes

abbrev asking : ReturnInput
asking = record { asset_id = 7; expected_version = 4; due_at = 300; reason = why }

abbrev asked : AssetDb
asked = after deployed (request_return tx asking deployed)

asking_runs : request_return tx asking deployed ≡ ok (asked, 1000)
unfolding opened
asking_runs = refl

abbrev cancelling : CancelInput
cancelling = record { asset_id = 7; return_request_id = 1000; expected_version = 5; reason = why }

why-IsSound : IsSound why
unfolding opened
why-IsSound = refl

request_return-cancel_example :
    (a : Asset) × (db'' : AssetDb) × (find_where (is_asset 1 7) deployed.assets ≡ some a)
    × (a.version ≡ 4)
    × (cancel_return_request tx cancelling asked ≡ ok (db'', record { version = 6; no_op = false }))
    × (find_where (is_asset 1 7) db''.assets
        ≡ some (record a { assignment_state = assigned_to; updated_at = 100; version = 6 }))
    × (db''.assignments ≡ deployed.assignments)
request_return-cancel_example =
    request_return-cancel tx tx asking cancelling deployed asked 1000 asking_runs refl refl refl
      refl refl why-IsSound

abbrev withdrawn : AssetDb
withdrawn = after asked (cancel_return_request tx cancelling asked)

cancelling_runs :
    cancel_return_request tx cancelling asked
    ≡ ok (withdrawn, record { version = 6; no_op = false })
unfolding opened
cancelling_runs = refl

cancel-again_example :
    cancel_return_request tx cancelling withdrawn
    ≡ ok (withdrawn, record { version = 6; no_op = true })
cancel-again_example =
    cancel-again tx cancelling asked withdrawn (record { version = 6; no_op = false })
      cancelling_runs

abbrev receiving : ReceiveInput
receiving = record {
  asset_id = 7;
  expected_version = 5;
  return_request_id = 1000;
  received_location_id = 3;
  condition_grade = 2;
  notes = why;
}

abbrev back : AssetDb
back = after asked (receive_return tx receiving asked)

receiving_runs : receive_return tx receiving asked ≡ ok (back, 6)
unfolding opened
receiving_runs = refl

receive_return-skips_example :
    (a b : Asset) × (find_where (is_asset 1 7) asked.assets ≡ some a)
    × (a.assignment_state ≡ pending_return)
    × (find_where (is_asset 1 7) back.assets ≡ some b)
    × (b.lifecycle_state ≡ returned)
    × (b.assignment_state ≡ unassigned)
    × (b.version ≡ a.version + 1)
    × (b.risk_state ≡ a.risk_state)
    × (b.risk_assessment_id ≡ a.risk_assessment_id)
    × (back.lifecycle_transitions ≡ asked.lifecycle_transitions)
    × (back.outbox ≡ asked.outbox)
receive_return-skips_example = receive_return-skips tx receiving asked back 6 receiving_runs
