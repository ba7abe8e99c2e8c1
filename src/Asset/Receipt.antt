-- ===== src/Asset/Receipt.antt =====
-- The receipt of a returned asset.
use itcenter.Base.{
  ℕ, ◌+◌, ◌≡◌, refl, ap, inl, inr, some, List, arith, find_where, find_where-update_where,
}
use itcenter.Platform.Tx.{Tx}
use itcenter.Platform.Errors.{
  ErrorCode, internal_error, ok, err, throw_if, or_throw, bind-inv, must_exist, assert_version,
}
use itcenter.Platform.Index.{insert_unique}
use itcenter.Platform.Errors.{Result-cases}
use itcenter.Asset.Store.{Asset, pending, ReturnRequest, AssetDb, is_asset}
use itcenter.Asset.Returns.{
  new_return_document, documents_request, ReceiveInput, check_receive, apply_receive,
  receive_return,
}
use itcenter.Asset.States.{returned, unassigned, pending_return}
use itcenter.Asset.Store.{ReturnDocument}
use itcenter.Asset.Returns.{receive_asset}

check_receive-found :
    (tx : Tx) (i : ReceiveInput) (db : AssetDb) (a : Asset) (r : ReturnRequest)
    → check_receive tx i db ≡ ok (a, r)
    → (find_where (is_asset tx.tenant_id i.asset_id) db.assets ≡ some a)
      × (a.version ≡ i.expected_version)
      × (a.assignment_state ≡ pending_return)
      × (r.status ≡ pending)
unfolding check_receive throw_if or_throw must_exist assert_version
check_receive-found tx i db a r h = (ground arith, ground arith, ground arith, ground arith)

receive_return-written :
    (tx : Tx) (i : ReceiveInput) (db db' : AssetDb) (v : ℕ)
    → receive_return tx i db ≡ ok (db', v)
    → (a : Asset) × (r : ReturnRequest) × (documents : List ReturnDocument) × (check_receive tx i db
        ≡ ok (a, r))
      × (db' ≡ apply_receive tx i a r documents db)
unfolding receive_return
receive_return-written tx i db db' v h =
    let ((a, r), c, k) = bind-inv (check_receive tx i db) _ h in
    let (documents, o, k') =
      bind-inv
        (insert_unique (documents_request tx.tenant_id i.return_request_id) internal_error
          (new_return_document tx i) db.return_documents)
        _ k in
    (a, r, documents, c, ground arith)

-- A receipt that succeeds found the asset awaiting its return, and leaves it returned, unassigned and at
-- the next version. It does so outside the lifecycle table: the risk of the asset and its assessment stay
-- as they were, no transition is recorded and no event is sent, whatever the state it was in.
pub receive_return-skips :
    (tx : Tx) (i : ReceiveInput) (db db' : AssetDb) (v : ℕ)
    → receive_return tx i db ≡ ok (db', v)
    → (a b : Asset) × (find_where (is_asset tx.tenant_id i.asset_id) db.assets ≡ some a)
      × (a.assignment_state ≡ pending_return)
      × (find_where (is_asset tx.tenant_id i.asset_id) db'.assets ≡ some b)
      × (b.lifecycle_state ≡ returned)
      × (b.assignment_state ≡ unassigned)
      × (b.version ≡ a.version + 1)
      × (b.risk_state ≡ a.risk_state)
      × (b.risk_assessment_id ≡ a.risk_assessment_id)
      × (db'.lifecycle_transitions ≡ db.lifecycle_transitions)
      × (db'.outbox ≡ db.outbox)
unfolding apply_receive receive_asset
receive_return-skips tx i db db' v h =
    let (a, r, documents, c, e) = receive_return-written tx i db db' v h in
    let (found, at, waits, _) = check_receive-found tx i db a r c in
    (
      a,
      receive_asset tx i a,
      found,
      waits,
      rw e (
          find_where-update_where (is_asset tx.tenant_id i.asset_id) (receive_asset tx i) db.assets
            a (λ b k. k) found),
      refl,
      refl,
      omega (arith, at),
      refl,
      refl,
      ap (λ (d : AssetDb). d.lifecycle_transitions) e,
      ap (λ (d : AssetDb). d.outbox) e,
    )

-- Once a receipt has succeeded, every receipt of that asset on the tables that it leaves throws: the
-- asset no longer awaits a return.
receive_return-once :
    (tx tx' : Tx) (i j : ReceiveInput) (db db' : AssetDb) (v : ℕ)
    → receive_return tx i db ≡ ok (db', v)
    → tx'.tenant_id ≡ tx.tenant_id
    → j.asset_id ≡ i.asset_id
    → (e : ErrorCode) × (receive_return tx' j db' ≡ err e)
receive_return-once tx tx' i j db db' v h same_tenant same_asset =
    let (a, b, _, _, found, _, free, _, _, _, _, _) = receive_return-skips tx i db db' v h in
    elim (Result-cases (receive_return tx' j db')) [
      | inl ((db'', w), k) ↦
          let (a', r', _, c, _) = receive_return-written tx' j db' db'' w k in
          let (found', _, waits, _) = check_receive-found tx' j db' a' r' c in
          cc (found, rw (same_tenant, same_asset) at found', free, waits)
      | inr thrown ↦ thrown
    ]
