-- ===== src/Asset/ReturnTrip.antt =====
-- A return from its request to its cancellation.
use itcenter.Base.{
  ℕ, ◌+◌, ◌≡◌, refl, sym, ap, subst, inl, inr, true, false, some, ◌∷◌, arith, Option-cases,
  find_where, update_where,
}
use itcenter.Platform.Tx.{Tx}
use itcenter.Platform.Errors.{ok, throw_if, or_throw, bind-inv, is_safe_integer, assert_version}
use itcenter.Platform.Index.{insert_unique}
use itcenter.Asset.Store.{Asset, Assignment, AssetDb, is_asset, is_custody}
use itcenter.Asset.Returns.{
  new_return_request, ReturnInput, CancelInput, check_request_return, request_return, apply_cancel,
  cancel_return_request,
}
use itcenter.Asset.States.{assigned_to, pending_return}
use itcenter.Asset.Returns.{set_assignment_state, is_request_of}
use itcenter.Asset.Cancellation.{set_assignment_state-found, IsSound, cancel-applies}

check_request_return-found :
    (tx : Tx) (i : ReturnInput) (db : AssetDb) (current : Assignment)
    → check_request_return tx i db ≡ ok current
    → (a : Asset) × (find_where (is_asset tx.tenant_id i.asset_id) db.assets ≡ some a)
      × (a.version ≡ i.expected_version)
      × (is_safe_integer i.expected_version ≡ true)
      × (find_where (is_custody tx.tenant_id i.asset_id) db.assignments ≡ some current)
unfolding check_request_return throw_if or_throw assert_version
check_request_return-found tx i db current h =
    elim (Option-cases (find_where (is_asset tx.tenant_id i.asset_id) db.assets)) [
      | inl e ↦ absurd (ground arith)
      | inr (a, e) ↦ (a, e, ground arith, ground arith, ground arith)
    ]

-- The tables after a request.
abbrev requested : Tx → ReturnInput → Assignment → AssetDb → AssetDb
requested tx i current db = record db {
  return_requests = new_return_request tx i current ∷ db.return_requests;
  assets =
      update_where (is_asset tx.tenant_id i.asset_id)
        (set_assignment_state tx pending_return (i.expected_version + 1)) db.assets;
}

request_return-requested :
    (tx : Tx) (i : ReturnInput) (db db' : AssetDb) (id : ℕ)
    → request_return tx i db ≡ ok (db', id)
    → (current : Assignment) × (check_request_return tx i db ≡ ok current)
      × (db' ≡ requested tx i current db)
      × (id ≡ tx.uuid 0)
unfolding request_return insert_unique throw_if
request_return-requested tx i db db' id h =
    let (current, c, k) = bind-inv (check_request_return tx i db) _ h in
    (current, c, ground arith, ground arith)

is_request_of-new :
    (tx : Tx) (i : ReturnInput) (current : Assignment) (db : AssetDb)
    → find_where
        (is_request_of tx.tenant_id (tx.uuid 0) i.asset_id)
        (requested tx i current db).return_requests
      ≡ some (new_return_request tx i current)
unfolding find_where
is_request_of-new tx i current db = ground arith

-- A return that has just been requested can be cancelled, by whoever names the request and the new
-- version: the asset is assigned again as before, one more version on, in the same lifecycle state,
-- and the assignments are as they were.
pub request_return-cancel :
    (tx tx' : Tx) (i : ReturnInput) (j : CancelInput) (db db' : AssetDb) (id : ℕ)
    → request_return tx i db ≡ ok (db', id)
    → tx'.tenant_id ≡ tx.tenant_id
    → j.asset_id ≡ i.asset_id
    → j.return_request_id ≡ id
    → j.expected_version ≡ i.expected_version + 1
    → is_safe_integer j.expected_version ≡ true
    → IsSound j.reason
    → (a : Asset) × (db'' : AssetDb) × (find_where (is_asset tx.tenant_id i.asset_id) db.assets
        ≡ some a)
      × (a.version ≡ i.expected_version)
      × (cancel_return_request tx' j db'
          ≡ ok (db'', record { version = j.expected_version + 1; no_op = false }))
      × (find_where (is_asset tx.tenant_id i.asset_id) db''.assets
          ≡ some (record a {
            assignment_state = assigned_to;
            updated_at = tx'.now;
            version = j.expected_version + 1;
          }))
      × (db''.assignments ≡ db.assignments)
unfolding set_assignment_state apply_cancel
request_return-cancel tx tx' i j db db' id h same_tenant same_asset same_request next safe sound =
    let (current, c, e, e') = request_return-requested tx i db db' id h in
    let (a, found, at, _, _) = check_request_return-found tx i db current c in
    let waiting = set_assignment_state tx pending_return (i.expected_version + 1) a in
    let here =
      set_assignment_state-found tx i.asset_id pending_return (i.expected_version + 1) db.assets a
        found in
    let here' : find_where (is_asset tx'.tenant_id j.asset_id) db'.assets ≡ some waiting =
      rw (same_tenant, same_asset, e) here in
    (
      a,
      apply_cancel tx' j db',
      found,
      at,
      cancel-applies tx' j db' waiting (new_return_request tx i current) sound safe here' (sym next)
          refl
          (rw (same_tenant, same_asset, same_request, e, e') (is_request_of-new tx i current db))
          refl,
      subst
          (λ t.
            find_where (is_asset t i.asset_id) (apply_cancel tx' j db').assets
            ≡ some (set_assignment_state tx' assigned_to (j.expected_version + 1) waiting))
          same_tenant
          (subst
            (λ k.
              find_where (is_asset tx'.tenant_id k) (apply_cancel tx' j db').assets
              ≡ some (set_assignment_state tx' assigned_to (j.expected_version + 1) waiting))
            same_asset
            (set_assignment_state-found tx' j.asset_id assigned_to (j.expected_version + 1)
              db'.assets waiting here')),
      ap (λ (d : AssetDb). d.assignments) e,
    )
