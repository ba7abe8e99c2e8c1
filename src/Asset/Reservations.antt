-- ===== src/Asset/Reservations.antt =====
-- What becomes of reservations.
use itcenter.Base.{ℕ, ◌≡◌, ◌≢◌, inl, inr, Bool, true, List, [], ◌∷◌, arith, any}
use itcenter.Platform.Tx.{Tx}
use itcenter.Platform.Errors.{ErrorCode, ok, err, throw_if}
use itcenter.Platform.Index.{insert_unique}
use itcenter.Asset.Store.{AssetDb, holds}
use itcenter.Asset.Lifecycle.{
  ReserveInput, TransferInput, new_reservation, reserve_asset, apply_transfer, transfer_asset,
}
use itcenter.Asset.Returns.{
  ReturnInput, CancelInput, ReceiveInput, request_return, apply_cancel, cancel_return_request,
  apply_receive, receive_return,
}
use itcenter.Asset.Trace.{
  Call, transitions, reserves, assigns, transfers, requests, cancels, receives, after, step, run,
  after-keeps,
}
use itcenter.Platform.Errors.{Result-cases}
use itcenter.Asset.Invariant.{transition-tables, reserve-tables, assign-tables, cancel-cases}

insert_unique-any :
    {A : Type 0} (p q : A → Bool) (e : ErrorCode) (a : A) (xs ys : List A)
    → insert_unique p e a xs ≡ ok ys
    → any q xs ≡ true
    → any q ys ≡ true
unfolding insert_unique throw_if
insert_unique-any p q e a xs ys h t = ground arith

insert_unique-own :
    {A : Type 0} (p : A → Bool) (e : ErrorCode) (a : A) (xs ys : List A)
    → insert_unique p e a xs ≡ ok ys
    → p a ≡ true
    → any p ys ≡ true
unfolding insert_unique throw_if
insert_unique-own p e a xs ys h t = ground arith

-- An active reservation of the asset exists.
abbrev pub IsHeld : ℕ → ℕ → AssetDb → Type 0
IsHeld tenant asset_id db = any (holds tenant asset_id) db.reservations ≡ true

transfer-reservations :
    (tx : Tx) (i : TransferInput) (db : AssetDb)
    → (after db (transfer_asset tx i db)).reservations ≡ db.reservations
unfolding transfer_asset apply_transfer
transfer-reservations tx i db = ground arith

request-reservations :
    (tx : Tx) (i : ReturnInput) (db : AssetDb)
    → (after db (request_return tx i db)).reservations ≡ db.reservations
unfolding request_return
request-reservations tx i db = ground arith

receive-reservations :
    (tx : Tx) (i : ReceiveInput) (db : AssetDb)
    → (after db (receive_return tx i db)).reservations ≡ db.reservations
unfolding receive_return apply_receive
receive-reservations tx i db = ground arith

cancel-reservations :
    (tx : Tx) (i : CancelInput) (db : AssetDb)
    → (after db (cancel_return_request tx i db)).reservations ≡ db.reservations
unfolding apply_cancel
cancel-reservations tx i db = ground (arith, cancel-cases tx i db)

step-IsHeld :
    (tenant asset_id : ℕ) (tx : Tx) (c : Call) (db : AssetDb)
    → IsHeld tenant asset_id db
    → IsHeld tenant asset_id (step tx c db)
unfolding step
step-IsHeld tenant asset_id tx (transitions i) db h = rw (transition-tables tx i db).1 h
step-IsHeld tenant asset_id tx (reserves i) db h =
    after-keeps (IsHeld tenant asset_id) db _ h λ db' v e.
      insert_unique-any _ (holds tenant asset_id) _ _ _ _ (reserve-tables tx i db db' v e).0 h
step-IsHeld tenant asset_id tx (assigns i) db h =
    after-keeps (IsHeld tenant asset_id) db _ h λ db' v e. rw (assign-tables tx i db db' v e).1 h
step-IsHeld tenant asset_id tx (transfers i) db h = rw (transfer-reservations tx i db) h
step-IsHeld tenant asset_id tx (requests i) db h = rw (request-reservations tx i db) h
step-IsHeld tenant asset_id tx (cancels i) db h = rw (cancel-reservations tx i db) h
step-IsHeld tenant asset_id tx (receives i) db h = rw (receive-reservations tx i db) h

run-IsHeld :
    (tenant asset_id : ℕ) (cs : List (Tx × Call)) (db : AssetDb)
    → IsHeld tenant asset_id db
    → IsHeld tenant asset_id (run cs db)
unfolding run
run-IsHeld tenant asset_id [] db h = h
run-IsHeld tenant asset_id ((tx, c) ∷ cs) db h =
    run-IsHeld tenant asset_id cs (step tx c db) (step-IsHeld tenant asset_id tx c db h)

held_refuses :
    (tx : Tx) (i : ReserveInput) (db db' : AssetDb) (v : ℕ)
    → IsHeld tx.tenant_id i.asset_id db
    → reserve_asset tx i db ≢ ok (db', v)
unfolding insert_unique throw_if
held_refuses tx i db db' v h e = ground (arith, reserve-tables tx i db db' v e)

-- Once an asset has been reserved, every later reservation of it throws, whatever commands run in
-- between: the assignment that fulfils a reservation and the return of the asset leave it active.
pub reserved_once :
    (tx tx' : Tx) (i j : ReserveInput) (cs : List (Tx × Call)) (db db' : AssetDb) (v : ℕ)
    → reserve_asset tx i db ≡ ok (db', v)
    → tx'.tenant_id ≡ tx.tenant_id
    → j.asset_id ≡ i.asset_id
    → (e : ErrorCode) × (reserve_asset tx' j (run cs db') ≡ err e)
reserved_once tx tx' i j cs db db' v h same_tenant same_asset =
    let own : holds tx.tenant_id i.asset_id (new_reservation tx i) ≡ true = ground arith in
    let held = insert_unique-own _ _ _ _ _ (reserve-tables tx i db db' v h).0 own in
    let still = run-IsHeld tx.tenant_id i.asset_id cs db' held in
    elim (Result-cases (reserve_asset tx' j (run cs db'))) [
      | inl ((db'', w), e) ↦
          absurd (held_refuses tx' j (run cs db') db'' w (rw (same_tenant, same_asset) still) e)
      | inr thrown ↦ thrown
    ]
