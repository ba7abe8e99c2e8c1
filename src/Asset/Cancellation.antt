-- ===== src/Asset/Cancellation.antt =====
-- The cancellation of a return request, once and again.
use itcenter.Base.{
  text_eq_refl, ℕ, ◌+◌, ◌≡◌, refl, ◌⊎◌, inl, inr, true, false, ◌||◌, Option, none, some, List,
  arith, ltb, Option-cases, length, find_where, update_where, find_where-update_where,
  find_where-update_seen, Text, is_blank, trim,
}
use itcenter.Platform.Tx.{Tx}
use itcenter.Platform.Errors.{ok, throw_if, or_throw, is_safe_integer, assert_version}
use itcenter.Asset.Store.{Asset, pending, ReturnRequest, AssetDb, is_asset}
use itcenter.Asset.Returns.{CancelInput, apply_cancel, cancel_return_request, is_request}
use itcenter.Asset.States.{assigned_to, pending_return, AssignmentState}
use itcenter.Asset.Store.{cancelled}
use itcenter.Asset.Returns.{
  Cancelled, set_assignment_state, is_pending_request, is_request_of, already_cancelled,
}
use itcenter.Platform.Secrets.{holds_secret}

module _ (tx : Tx) (id : ℕ) where
  pub set_assignment_state-found :
      (state : AssignmentState) (version : ℕ) (rows : List Asset) (a : Asset)
      → find_where (is_asset tx.tenant_id id) rows ≡ some a
      → find_where
          (is_asset tx.tenant_id id)
          (update_where (is_asset tx.tenant_id id) (set_assignment_state tx state version) rows)
        ≡ some (set_assignment_state tx state version a)
  unfolding set_assignment_state
  set_assignment_state-found state version rows a =
      find_where-update_where (is_asset tx.tenant_id id) (set_assignment_state tx state version)
        rows a (λ b h. h)

-- The reason of a cancellation passes its validation.
abbrev pub IsSound : Text → Type 0
IsSound reason = (is_blank reason || ltb 2000 (length reason) || holds_secret reason) ≡ false

pub cancel-applies :
    (tx : Tx) (j : CancelInput) (db : AssetDb) (a : Asset) (r : ReturnRequest)
    → IsSound j.reason
    → is_safe_integer j.expected_version ≡ true
    → find_where (is_asset tx.tenant_id j.asset_id) db.assets ≡ some a
    → a.version ≡ j.expected_version
    → a.assignment_state ≡ pending_return
    → find_where (is_request_of tx.tenant_id j.return_request_id j.asset_id) db.return_requests
      ≡ some r
    → r.status ≡ pending
    → cancel_return_request tx j db
      ≡ ok (apply_cancel tx j db, record { version = j.expected_version + 1; no_op = false })
unfolding cancel_return_request throw_if or_throw assert_version already_cancelled
cancel-applies tx j db a r sound safe found current waits requested unsettled = ground arith

-- What a cancellation leaves: the asset at the version that it reports, and the request cancelled for
-- its reason.
record Settled (tx : Tx) (j : CancelInput) (db : AssetDb) (version : ℕ) (b : Asset) : Type 0 where
  sound : IsSound j.reason
  found : find_where (is_asset tx.tenant_id j.asset_id) db.assets ≡ some b
  at : b.version ≡ version
  settled :
      already_cancelled
        (find_where (is_request_of tx.tenant_id j.return_request_id j.asset_id) db.return_requests)
        (trim j.reason)
      ≡ true

cancel-repeats :
    (tx : Tx) (j : CancelInput) (db : AssetDb) (version : ℕ) (b : Asset)
    → Settled tx j db version b
    → cancel_return_request tx j db ≡ ok (db, record { version = version; no_op = true })
unfolding cancel_return_request throw_if or_throw
cancel-repeats tx j db version b s = ground arith

-- The guards of a cancellation that succeeds.
cancel-guards :
    (tx : Tx) (j : CancelInput) (db db' : AssetDb) (c : Cancelled) (a : Asset)
    → cancel_return_request tx j db ≡ ok (db', c)
    → find_where (is_asset tx.tenant_id j.asset_id) db.assets ≡ some a
    → let req =
        find_where (is_request_of tx.tenant_id j.return_request_id j.asset_id) db.return_requests in
      IsSound j.reason
      × (((already_cancelled req (trim j.reason) ≡ true) × (db' ≡ db) × (c.version ≡ a.version))
          ⊎ ((is_pending_request req ≡ true)
              × (db' ≡ apply_cancel tx j db)
              × (c.version ≡ j.expected_version + 1)))
unfolding cancel_return_request throw_if or_throw
cancel-guards tx j db db' c a h found = ground arith

apply_cancel-Settled :
    (tx : Tx) (j : CancelInput) (db : AssetDb) (a : Asset) (r : ReturnRequest)
    → IsSound j.reason
    → find_where (is_asset tx.tenant_id j.asset_id) db.assets ≡ some a
    → find_where (is_request_of tx.tenant_id j.return_request_id j.asset_id) db.return_requests
      ≡ some r
    → Settled tx j
        (apply_cancel tx j db)
        (j.expected_version + 1)
        (set_assignment_state tx assigned_to (j.expected_version + 1) a)
unfolding apply_cancel set_assignment_state
apply_cancel-Settled tx j db a r sound found requested =
    let seen =
      find_where-update_seen (is_request_of tx.tenant_id j.return_request_id j.asset_id)
        (is_request tx.tenant_id j.return_request_id)
        (λ r. record r { status = cancelled; cancelled_reason = some (trim j.reason) })
        db.return_requests r (λ b e. ground arith) (λ b. refl) requested in
    record {
      sound = sound;
      found =
          set_assignment_state-found tx j.asset_id assigned_to (j.expected_version + 1) db.assets a
            found;
      at = refl;
      settled = rw seen (unfold already_cancelled in text_eq_refl (trim j.reason));
    }

cancel-found :
    (tx : Tx) (j : CancelInput) (db db' : AssetDb) (c : Cancelled)
    → cancel_return_request tx j db ≡ ok (db', c)
    → (a : Asset) × (find_where (is_asset tx.tenant_id j.asset_id) db.assets ≡ some a)
unfolding cancel_return_request throw_if or_throw
cancel-found tx j db db' c h =
    elim (Option-cases (find_where (is_asset tx.tenant_id j.asset_id) db.assets)) [
      | inl e ↦ absurd (ground arith)
      | inr (a, e) ↦ (a, e)
    ]

is_pending_request-some :
    (o : Option ReturnRequest) → is_pending_request o ≡ true → (r : ReturnRequest) × (o ≡ some r)
is_pending_request-some none h = cc
is_pending_request-some (some r) h = (r, refl)

cancel-Settled :
    (tx : Tx) (j : CancelInput) (db db' : AssetDb) (c : Cancelled)
    → cancel_return_request tx j db ≡ ok (db', c)
    → (b : Asset) × Settled tx j db' c.version b
cancel-Settled tx j db db' c h =
    let (a, found) = cancel-found tx j db db' c h in
    let (sound, way) = cancel-guards tx j db db' c a h found in
    elim way [
      | inl (done, e, v) ↦
          (a, rw (e, v) (record { sound = sound; found = found; at = refl; settled = done }))
      | inr (waits, e, v) ↦
          let (r, requested) = is_pending_request-some _ waits in
          (
            set_assignment_state tx assigned_to (j.expected_version + 1) a,
            rw (e, v) (apply_cancel-Settled tx j db a r sound found requested),
          )
    ]

-- A cancellation that has succeeded succeeds again when it is repeated: nothing changes, and the result
-- says so, at the version that the first one reported.
pub cancel-again :
    (tx : Tx) (j : CancelInput) (db db' : AssetDb) (c : Cancelled)
    → cancel_return_request tx j db ≡ ok (db', c)
    → cancel_return_request tx j db' ≡ ok (db', record { version = c.version; no_op = true })
cancel-again tx j db db' c h =
    let (b, s) = cancel-Settled tx j db db' c h in cancel-repeats tx j db' c.version b s
