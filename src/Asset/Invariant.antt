-- ===== src/Asset/Invariant.antt =====
-- The unique indexes of the asset tables, as an invariant of the commands.
use itcenter.Base.{
  ℕ, ◌≡◌, refl, sym, subst, ◌⊎◌, inl, inr, ◌&&◌, List, [], ◌∷◌, arith, ◌==◌, Bool-cases,
}
use itcenter.Platform.Tx.{Tx}
use itcenter.Platform.Errors.{
  business_rule_violation, internal_error, ok, throw_if, or_throw, bind-inv, must_exist,
}
use itcenter.Platform.Index.{insert_unique, IsUnique, insert-IsUnique, update-IsUnique}
use itcenter.Asset.Store.{
  Asset, Reservation, Assignment, is_pending, ReturnDocument, ReturnRequest, AssetDb, holds,
  is_custody, awaits_return,
}
use itcenter.Asset.Lifecycle.{
  TransitionInput, ReserveInput, AssignInput, TransferInput, apply_transition, transition_lifecycle,
  reserve_move, assign_move, new_reservation, reserve_asset, assign_asset, new_assignment,
  check_transfer, end_assignment, hand_over, apply_transfer, transfer_asset,
}
use itcenter.Asset.Returns.{
  new_return_request, new_return_document, documents_request, ReturnInput, CancelInput,
  ReceiveInput, check_request_return, request_return, apply_cancel, cancel_return_request,
  check_receive, apply_receive, receive_return,
}
use itcenter.Asset.Trace.{
  Call, transitions, reserves, assigns, transfers, requests, cancels, receives, after, step, run,
  after-keeps,
}

abbrev pub OneCustody : List Assignment → Type 0
OneCustody =
    IsUnique (λ (a : Assignment). a.tenant_id) (λ a. a.asset_id) (λ a. a.active && a.primary)

abbrev pub OneReservation : List Reservation → Type 0
OneReservation = IsUnique (λ (r : Reservation). r.tenant_id) (λ r. r.asset_id) (λ r. r.active)

abbrev pub OneReturn : List ReturnRequest → Type 0
OneReturn =
    IsUnique (λ (r : ReturnRequest). r.tenant_id) (λ r. r.assignment_id) (λ r. is_pending r.status)

-- At most one active primary assignment and one active reservation of an asset, and one pending
-- return of an assignment.
pub record Inv (db : AssetDb) : Type 0 where
  pub one_custody : OneCustody db.assignments
  pub one_reservation : OneReservation db.reservations
  pub one_return : OneReturn db.return_requests

-- A lifecycle change touches none of the three tables.
pub transition-tables :
    (tx : Tx) (i : TransitionInput) (db : AssetDb)
    → ((after db (transition_lifecycle tx i db)).assignments ≡ db.assignments)
      × ((after db (transition_lifecycle tx i db)).reservations ≡ db.reservations)
      × ((after db (transition_lifecycle tx i db)).return_requests ≡ db.return_requests)
unfolding transition_lifecycle apply_transition
transition-tables tx i db = ground arith

transition-Inv :
    (tx : Tx) (i : TransitionInput) (db : AssetDb)
    → Inv db
    → Inv (after db (transition_lifecycle tx i db))
transition-Inv tx i db v =
    let (a, r, q) = transition-tables tx i db in
    record {
      one_custody = rw a v.one_custody;
      one_reservation = rw r v.one_reservation;
      one_return = rw q v.one_return;
    }

pub reserve-tables :
    (tx : Tx) (i : ReserveInput) (db db' : AssetDb) (v : ℕ)
    → reserve_asset tx i db ≡ ok (db', v)
    → (insert_unique
          (holds tx.tenant_id i.asset_id)
          business_rule_violation
          (new_reservation tx i)
          db.reservations
        ≡ ok db'.reservations)
      × (db'.assignments ≡ db.assignments)
      × (db'.return_requests ≡ db.return_requests)
unfolding reserve_asset throw_if
reserve-tables tx i db db' v h = ground (arith, transition-tables tx (reserve_move i) db)

reserve-Inv :
    (tx : Tx) (i : ReserveInput) (db db' : AssetDb) (v : ℕ)
    → reserve_asset tx i db ≡ ok (db', v)
    → Inv db
    → Inv db'
reserve-Inv tx i db db' v h u =
    let (r, a, q) = reserve-tables tx i db db' v h in
    record {
      one_custody = rw a u.one_custody;
      one_reservation = insert-IsUnique _ _ _ _ (new_reservation tx i) _ _ u.one_reservation r;
      one_return = rw q u.one_return;
    }

pub assign-tables :
    (tx : Tx) (i : AssignInput) (db db' : AssetDb) (v : ℕ)
    → assign_asset tx i db ≡ ok (db', v)
    → (insert_unique
          (is_custody tx.tenant_id i.asset_id)
          business_rule_violation
          (new_assignment tx.tenant_id (tx.uuid 2) i.asset_id i.user_id i.reason)
          db.assignments
        ≡ ok db'.assignments)
      × (db'.reservations ≡ db.reservations)
      × (db'.return_requests ≡ db.return_requests)
unfolding assign_asset throw_if must_exist
assign-tables tx i db db' v h = ground (arith, transition-tables tx (assign_move i) db)

assign-Inv :
    (tx : Tx) (i : AssignInput) (db db' : AssetDb) (v : ℕ)
    → assign_asset tx i db ≡ ok (db', v)
    → Inv db
    → Inv db'
assign-Inv tx i db db' v h u =
    let (a, r, q) = assign-tables tx i db db' v h in
    record {
      one_custody =
          insert-IsUnique _ _ _ _
            (new_assignment tx.tenant_id (tx.uuid 2) i.asset_id i.user_id i.reason) _ _
            u.one_custody a;
      one_reservation = rw r u.one_reservation;
      one_return = rw q u.one_return;
    }

end_assignment-OneCustody :
    (tx : Tx) (id : ℕ) (rows : List Assignment)
    → OneCustody rows
    → OneCustody (end_assignment tx id rows)
unfolding end_assignment
end_assignment-OneCustody tx id rows =
    update-IsUnique _ _ _ _ _ rows (λ b. refl) (λ b. refl) (λ b e. cc)

hand_over-OneCustody :
    (tx : Tx) (i : TransferInput) (current : Assignment) (rows rows' : List Assignment)
    → hand_over tx i current rows ≡ ok rows'
    → OneCustody rows
    → OneCustody rows'
unfolding hand_over
hand_over-OneCustody tx i current rows rows' h u =
    elim (Bool-cases (current.user_id == i.to_user_id)) [
      | inl e ↦ subst OneCustody (ground arith) u
      | inr e ↦
          insert-IsUnique _ _ _ internal_error
            (new_assignment tx.tenant_id (tx.uuid 1) i.asset_id i.to_user_id i.reason) _ rows'
            (end_assignment-OneCustody tx current.id rows u) (ground arith)
    ]

transfer-Inv :
    (tx : Tx) (i : TransferInput) (db db' : AssetDb) (v : ℕ)
    → transfer_asset tx i db ≡ ok (db', v)
    → Inv db
    → Inv db'
unfolding transfer_asset apply_transfer
transfer-Inv tx i db db' v h u =
    let ((asset, current), c, k) = bind-inv (check_transfer tx i db) _ h in
    let (rows, o, k') = bind-inv (hand_over tx i current db.assignments) _ k in
    record {
      one_custody =
          subst OneCustody (ground arith)
            (hand_over-OneCustody tx i current _ rows o u.one_custody);
      one_reservation = subst OneReservation (ground arith) u.one_reservation;
      one_return = subst OneReturn (ground arith) u.one_return;
    }

request-Inv :
    (tx : Tx) (i : ReturnInput) (db db' : AssetDb) (v : ℕ)
    → request_return tx i db ≡ ok (db', v)
    → Inv db
    → Inv db'
unfolding request_return
request-Inv tx i db db' v h u =
    let (current, c, k) = bind-inv (check_request_return tx i db) _ h in
    let (rows, o, k') =
      bind-inv
        (insert_unique (awaits_return tx.tenant_id current.id) business_rule_violation
          (new_return_request tx i current) db.return_requests)
        _ k in
    record {
      one_custody = subst OneCustody (ground arith) u.one_custody;
      one_reservation = subst OneReservation (ground arith) u.one_reservation;
      one_return =
          subst OneReturn (ground arith)
            (insert-IsUnique _ _ _ _ (new_return_request tx i current) _ rows u.one_return o);
    }

apply_cancel-Inv : (tx : Tx) (i : CancelInput) (db : AssetDb) → Inv db → Inv (apply_cancel tx i db)
unfolding apply_cancel
apply_cancel-Inv tx i db u = record {
  one_custody = u.one_custody;
  one_reservation = u.one_reservation;
  one_return = update-IsUnique _ _ _ _ _ _ (λ b. refl) (λ b. refl) (λ b e. cc) u.one_return;
}

pub cancel-cases :
    (tx : Tx) (i : CancelInput) (db : AssetDb)
    → (after db (cancel_return_request tx i db) ≡ db)
      ⊎ (after db (cancel_return_request tx i db) ≡ apply_cancel tx i db)
unfolding cancel_return_request throw_if or_throw
cancel-cases tx i db = ground arith

apply_receive-Inv :
    (tx : Tx) (i : ReceiveInput) (asset : Asset) (r : ReturnRequest)
    (documents : List ReturnDocument) (db : AssetDb)
    → Inv db
    → Inv (apply_receive tx i asset r documents db)
unfolding apply_receive
apply_receive-Inv tx i asset r documents db u = record {
  one_custody = end_assignment-OneCustody tx r.assignment_id db.assignments u.one_custody;
  one_reservation = u.one_reservation;
  one_return = update-IsUnique _ _ _ _ _ _ (λ b. refl) (λ b. refl) (λ b e. cc) u.one_return;
}

receive-Inv :
    (tx : Tx) (i : ReceiveInput) (db db' : AssetDb) (v : ℕ)
    → receive_return tx i db ≡ ok (db', v)
    → Inv db
    → Inv db'
unfolding receive_return
receive-Inv tx i db db' v h u =
    let ((asset, request), c, k) = bind-inv (check_receive tx i db) _ h in
    let (documents, o, k') =
      bind-inv
        (insert_unique (documents_request tx.tenant_id i.return_request_id) internal_error
          (new_return_document tx i) db.return_documents)
        _ k in
    subst Inv (ground arith) (apply_receive-Inv tx i asset request documents db u)

-- Every command, whether it succeeds or throws, keeps the unique indexes: at most one active primary
-- assignment and one active reservation of an asset, and one pending return of an assignment.
pub step-Inv : (tx : Tx) (c : Call) (db : AssetDb) → Inv db → Inv (step tx c db)
unfolding step
step-Inv tx (transitions i) db v = transition-Inv tx i db v
step-Inv tx (reserves i) db v = after-keeps Inv db _ v λ db' a e. reserve-Inv tx i db db' a e v
step-Inv tx (assigns i) db v = after-keeps Inv db _ v λ db' a e. assign-Inv tx i db db' a e v
step-Inv tx (transfers i) db v = after-keeps Inv db _ v λ db' a e. transfer-Inv tx i db db' a e v
step-Inv tx (requests i) db v = after-keeps Inv db _ v λ db' a e. request-Inv tx i db db' a e v
step-Inv tx (cancels i) db v = elim (cancel-cases tx i db) [
  | inl e ↦ subst Inv (sym e) v
  | inr e ↦ subst Inv (sym e) (apply_cancel-Inv tx i db v)
]
step-Inv tx (receives i) db v = after-keeps Inv db _ v λ db' a e. receive-Inv tx i db db' a e v

-- Any sequence of commands, of any tenants, that starts from tables in which an asset has at most one
-- active primary assignment and one active reservation, and an assignment at most one pending return,
-- ends in such tables.
pub run-Inv : (cs : List (Tx × Call)) (db : AssetDb) → Inv db → Inv (run cs db)
unfolding run
run-Inv [] db v = v
run-Inv ((tx, c) ∷ cs) db v = run-Inv cs (step tx c db) (step-Inv tx c db v)
