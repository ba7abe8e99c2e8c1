-- ===== src/Asset/Isolation.antt =====
-- What a transaction of one tenant does to the rows of another.
use itcenter.Base.{
  ℕ, ◌+◌, ◌≡◌, refl, ap, ◌∙◌, ◌≢◌, inl, inr, Bool, some, List, arith, ◌==◌, keep, update_where,
  trim,
}
use itcenter.Platform.Tx.{Tx, row_is}
use itcenter.Platform.Errors.{ErrorCode, ok, throw_if, bind-inv, must_exist}
use itcenter.Platform.Index.{insert_unique}
use itcenter.Asset.States.{AssetState}
use itcenter.Asset.Store.{Asset, Reservation, Assignment, ReturnRequest, AssetDb, is_asset}
use itcenter.Asset.Lifecycle.{
  TransitionInput, ReserveInput, AssignInput, TransferInput, check_transition, apply_transition,
  move_asset, transition_lifecycle, reserve_move, assign_move, reserve_asset, assign_asset,
  check_transfer, end_assignment, hand_over, apply_transfer, transfer_asset,
}
use itcenter.Asset.Returns.{
  ReturnInput, CancelInput, ReceiveInput, request_return, apply_cancel, check_receive,
  apply_receive, receive_return, is_request,
}
use itcenter.Asset.Trace.{
  Call, transitions, reserves, assigns, transfers, requests, cancels, receives, after, step,
  after-keeps,
}
use itcenter.Base.{keep-update_where}
use itcenter.Platform.Errors.{Result-cases}
use itcenter.Asset.States.{assigned_to, pending_return}
use itcenter.Asset.Invariant.{cancel-cases}
use itcenter.Asset.Returns.{receive_asset, set_assignment_state}
use itcenter.Asset.Store.{
  cancelled, fulfilled, Movement, ReturnDocument, LifecycleTransition, RiskBandChanged,
}

-- The rows of one tenant in the tables that the commands write.
pub record TenantView : Type 0 where
  pub assets : List Asset
  pub reservations : List Reservation
  pub assignments : List Assignment
  pub movements : List Movement
  pub return_requests : List ReturnRequest
  pub return_documents : List ReturnDocument
  pub lifecycle_transitions : List LifecycleTransition
  pub outbox : List RiskBandChanged

unfoldable pub tenant_view : ℕ → AssetDb → TenantView
tenant_view tenant db = record {
  assets = keep (λ r. r.tenant_id == tenant) db.assets;
  reservations = keep (λ r. r.tenant_id == tenant) db.reservations;
  assignments = keep (λ r. r.tenant_id == tenant) db.assignments;
  movements = keep (λ r. r.tenant_id == tenant) db.movements;
  return_requests = keep (λ r. r.tenant_id == tenant) db.return_requests;
  return_documents = keep (λ r. r.tenant_id == tenant) db.return_documents;
  lifecycle_transitions = keep (λ r. r.tenant_id == tenant) db.lifecycle_transitions;
  outbox = keep (λ r. r.tenant_id == tenant) db.outbox;
}

-- An update of rows of one tenant, which stay that tenant's, is not seen by another.
module _ {A : Type 0} (tenant_of id_of : A → ℕ) (t : ℕ) (tx : Tx) (apart : t ≢ tx.tenant_id) where
  keep-update_apart :
      (id : ℕ) (f : A → A) (rows : List A)
      → ((a : A) → tenant_of (f a) ≡ tenant_of a)
      → keep
          (λ a. tenant_of a == t)
          (update_where (λ a. row_is tx.tenant_id id (tenant_of a) (id_of a)) f rows)
        ≡ keep (λ a. tenant_of a == t) rows
  keep-update_apart id f rows same =
      keep-update_where (λ a. tenant_of a == t) _ f rows (λ b e. ground arith)
        (λ b e. ground (arith, same b))

  keep-insert_apart :
      (p : A → Bool) (e : ErrorCode) (a : A) (rows rows' : List A)
      → tenant_of a ≡ tx.tenant_id
      → insert_unique p e a rows ≡ ok rows'
      → keep (λ a. tenant_of a == t) rows' ≡ keep (λ a. tenant_of a == t) rows
  unfolding insert_unique throw_if
  keep-insert_apart p e a rows rows' own h = ground arith

module _ (t : ℕ) (tx : Tx) (apart : t ≢ tx.tenant_id) where
  keep-assets :
      (id : ℕ) (f : Asset → Asset) (rows : List Asset)
      → ((a : Asset) → (f a).tenant_id ≡ a.tenant_id)
      → keep (λ a. a.tenant_id == t) (update_where (is_asset tx.tenant_id id) f rows)
        ≡ keep (λ a. a.tenant_id == t) rows
  keep-assets id f rows same =
      keep-update_apart (λ a. a.tenant_id) (λ a. a.id) t tx apart id f rows same

  apply_transition-view :
      (i : TransitionInput) (a : Asset) (s : AssetState) (db : AssetDb)
      → tenant_view t (apply_transition tx i a s db) ≡ tenant_view t db
  unfolding tenant_view apply_transition move_asset
  apply_transition-view i a s db = ground (
    arith,
    keep-assets i.asset_id (move_asset tx s (i.expected_version + 1)) db.assets (λ b. refl),
  )

  transition-view :
      (i : TransitionInput) (db : AssetDb)
      → tenant_view t (after db (transition_lifecycle tx i db)) ≡ tenant_view t db
  unfolding transition_lifecycle
  transition-view i db = elim (Result-cases (check_transition tx i db)) [
    | inl ((a, s), e) ↦ rw (e, transition_lifecycle) (apply_transition-view i a s db)
    | inr (c, e) ↦ rw (e, transition_lifecycle)
  ]

  reserve-view :
      (i : ReserveInput) (db : AssetDb)
      → tenant_view t (after db (reserve_asset tx i db)) ≡ tenant_view t db
  unfolding reserve_asset throw_if insert_unique tenant_view
  reserve-view i db = ground (arith, transition-view (reserve_move i) db)

  assign-view :
      (i : AssignInput) (db db' : AssetDb) (v : ℕ)
      → assign_asset tx i db ≡ ok (db', v)
      → tenant_view t db' ≡ tenant_view t db
  unfolding assign_asset throw_if must_exist insert_unique tenant_view
  assign-view i db db' v h = ground (
    arith,
    transition-view (assign_move i) db,
    keep-assets i.asset_id (λ a. record a { assignment_state = assigned_to })
        (after db (transition_lifecycle tx (assign_move i) db)).assets (λ b. refl),
  )

  keep-ended :
      (id : ℕ) (rows : List Assignment)
      → keep (λ a. a.tenant_id == t) (end_assignment tx id rows) ≡ keep (λ a. a.tenant_id == t) rows
  unfolding end_assignment
  keep-ended id rows =
      keep-update_apart (λ a. a.tenant_id) (λ a. a.id) t tx apart id _ rows (λ b. refl)

  keep-handed :
      (i : TransferInput) (c : Assignment) (rows rows' : List Assignment)
      → hand_over tx i c rows ≡ ok rows'
      → keep (λ a. a.tenant_id == t) rows' ≡ keep (λ a. a.tenant_id == t) rows
  unfolding hand_over insert_unique throw_if
  keep-handed i c rows rows' h = ground (arith, keep-ended c.id rows)

  transfer-view :
      (i : TransferInput) (db db' : AssetDb) (v : ℕ)
      → transfer_asset tx i db ≡ ok (db', v)
      → tenant_view t db' ≡ tenant_view t db
  unfolding transfer_asset apply_transfer tenant_view
  transfer-view i db db' v h =
      let ((asset, current), c, k) = bind-inv (check_transfer tx i db) _ h in
      let (rows, o, k') = bind-inv (hand_over tx i current db.assignments) _ k in
      ground (
        arith,
        keep-handed i current db.assignments rows o,
        keep-assets i.asset_id
            (λ a. record a {
              current_location_id = some i.to_location_id;
              updated_at = tx.now;
              version = i.expected_version + 1;
            })
            db.assets (λ b. refl),
      )

  request-view :
      (i : ReturnInput) (db db' : AssetDb) (v : ℕ)
      → request_return tx i db ≡ ok (db', v)
      → tenant_view t db' ≡ tenant_view t db
  unfolding request_return insert_unique throw_if tenant_view set_assignment_state
  request-view i db db' v h = ground (
    arith,
    keep-assets i.asset_id (set_assignment_state tx pending_return (i.expected_version + 1))
        db.assets (λ b. refl),
  )

  keep-requests :
      (id : ℕ) (f : ReturnRequest → ReturnRequest) (rows : List ReturnRequest)
      → ((a : ReturnRequest) → (f a).tenant_id ≡ a.tenant_id)
      → keep (λ a. a.tenant_id == t) (update_where (is_request tx.tenant_id id) f rows)
        ≡ keep (λ a. a.tenant_id == t) rows
  keep-requests id f rows same =
      keep-update_apart (λ a. a.tenant_id) (λ a. a.id) t tx apart id f rows same

  cancel-view :
      (i : CancelInput) (db : AssetDb) → tenant_view t (apply_cancel tx i db) ≡ tenant_view t db
  unfolding apply_cancel tenant_view set_assignment_state
  cancel-view i db = ground (
    arith,
    keep-assets i.asset_id (set_assignment_state tx assigned_to (i.expected_version + 1)) db.assets
        (λ b. refl),
    keep-requests i.return_request_id
        (λ r. record r { status = cancelled; cancelled_reason = some (trim i.reason) })
        db.return_requests (λ b. refl),
  )

  receive-view :
      (i : ReceiveInput) (db db' : AssetDb) (v : ℕ)
      → receive_return tx i db ≡ ok (db', v)
      → tenant_view t db' ≡ tenant_view t db
  unfolding receive_return apply_receive insert_unique throw_if tenant_view receive_asset
  receive-view i db db' v h =
      let ((asset, request), c, k) = bind-inv (check_receive tx i db) _ h in
      ground (
        arith,
        keep-ended request.assignment_id db.assignments,
        keep-assets i.asset_id (receive_asset tx i) db.assets (λ b. refl),
        keep-requests i.return_request_id
            (λ r. record r { status = fulfilled; fulfilled_at = some tx.now }) db.return_requests
            (λ b. refl),
      )

-- A command of one tenant, whether it succeeds or throws, leaves every row of any other tenant as it
-- was, in all the tables that the commands write.
pub step-isolated :
    (t : ℕ) (tx : Tx) (c : Call) (db : AssetDb)
    → t ≢ tx.tenant_id
    → tenant_view t (step tx c db) ≡ tenant_view t db
unfolding step
step-isolated t tx (transitions i) db n = transition-view t tx n i db
step-isolated t tx (reserves i) db n = reserve-view t tx n i db
step-isolated t tx (assigns i) db n =
    after-keeps (λ d. tenant_view t d ≡ tenant_view t db) db _ refl
      λ db' v e. assign-view t tx n i db db' v e
step-isolated t tx (transfers i) db n =
    after-keeps (λ d. tenant_view t d ≡ tenant_view t db) db _ refl
      λ db' v e. transfer-view t tx n i db db' v e
step-isolated t tx (requests i) db n =
    after-keeps (λ d. tenant_view t d ≡ tenant_view t db) db _ refl
      λ db' v e. request-view t tx n i db db' v e
step-isolated t tx (cancels i) db n = elim (cancel-cases tx i db) [
  | inl e ↦ ap (tenant_view t) e
  | inr e ↦ ap (tenant_view t) e ∙ cancel-view t tx n i db
]
step-isolated t tx (receives i) db n =
    after-keeps (λ d. tenant_view t d ≡ tenant_view t db) db _ refl
      λ db' v e. receive-view t tx n i db db' v e
