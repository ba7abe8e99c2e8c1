-- ===== src/Asset/Trace.antt =====
-- Commands on the asset tables in sequence, as transactions: a command that throws leaves the tables
-- as they were.
use itcenter.Base.{◌≡◌, refl, List, [], ◌∷◌}
use itcenter.Platform.Tx.{Tx}
use itcenter.Platform.Errors.{Result, ok, err}
use itcenter.Asset.Store.{AssetDb}
use itcenter.Asset.Lifecycle.{
  TransitionInput, ReserveInput, AssignInput, TransferInput, transition_lifecycle, reserve_asset,
  assign_asset, transfer_asset,
}
use itcenter.Asset.Returns.{
  ReturnInput, CancelInput, ReceiveInput, request_return, cancel_return_request, receive_return,
}

pub data Call : Type 0 where
  transitions : TransitionInput → Call
  reserves : ReserveInput → Call
  assigns : AssignInput → Call
  transfers : TransferInput → Call
  requests : ReturnInput → Call
  cancels : CancelInput → Call
  receives : ReceiveInput → Call

abbrev pub after {ℓ} : {A : Type ℓ} → AssetDb → Result (AssetDb × A) → AssetDb
after db (ok (db', r)) = db'
after db (err e) = db

unfoldable pub step : Tx → Call → AssetDb → AssetDb
step tx (transitions i) db = after db (transition_lifecycle tx i db)
step tx (reserves i) db = after db (reserve_asset tx i db)
step tx (assigns i) db = after db (assign_asset tx i db)
step tx (transfers i) db = after db (transfer_asset tx i db)
step tx (requests i) db = after db (request_return tx i db)
step tx (cancels i) db = after db (cancel_return_request tx i db)
step tx (receives i) db = after db (receive_return tx i db)

unfoldable pub run : List (Tx × Call) → AssetDb → AssetDb
run [] db = db
run ((tx, c) ∷ cs) db = run cs (step tx c db)

-- A property of the tables that every command keeps, where its own rule does.
pub after-keeps {ℓ κ} :
    {A : Type ℓ} (P : AssetDb → Type κ) (db : AssetDb) (r : Result (AssetDb × A))
    → P db
    → ((db' : AssetDb) (a : A) → r ≡ ok (db', a) → P db')
    → P (after db r)
after-keeps P db (ok (db', a)) p k = k db' a refl
after-keeps P db (err e) p k = p
