-- ===== src/Asset/Outcomes.antt =====
-- What an asset command has found and written when it succeeds.
use itcenter.Base.{
  ℕ, ◌+◌, ◌≡◌, refl, ap, ◌∙◌, ◌∷◌, ◌≢◌, true, false, some, arith, find_where,
  find_where-update_where, is_blank,
}
use itcenter.Platform.Tx.{Tx}
use itcenter.Platform.Errors.{
  version_conflict, ok, err, throw_if, or_throw, bind-inv, assert_version-stale, is_safe_integer,
  assert_version,
}
use itcenter.Asset.States.{
  AssetState, reserved, available, AssignmentState, reserved_for, unassigned, may_move,
}
use itcenter.Asset.Graph.{◌⟶◌, may_move-⟶}
use itcenter.Asset.Store.{Asset, LifecycleTransition, AssetDb, is_asset}
use itcenter.Asset.Lifecycle.{
  TransitionInput, Moved, check_transition, apply_transition, move_asset, transition_lifecycle,
}

-- The guards of a lifecycle change, read back from its success.
pub record Checked (tx : Tx) (i : TransitionInput) (db : AssetDb) (a : Asset) (t : AssetState)
    : Type 0 where
  pub found : find_where (is_asset tx.tenant_id i.asset_id) db.assets ≡ some a
  pub current : a.version ≡ i.expected_version
  pub targeted : i.target_state ≡ some t
  pub safe : is_safe_integer i.expected_version ≡ true
  pub allowed : may_move a.lifecycle_state t ≡ true

pub check_transition-Checked :
    (tx : Tx) (i : TransitionInput) (db : AssetDb) (a : Asset) (t : AssetState)
    → check_transition tx i db ≡ ok (a, t)
    → Checked tx i db a t
unfolding check_transition throw_if or_throw assert_version
check_transition-Checked tx i db a t h = ground arith

pub transition-inversion :
    (tx : Tx) (i : TransitionInput) (db db' : AssetDb) (m : Moved)
    → transition_lifecycle tx i db ≡ ok (db', m)
    → (a : Asset) × (t : AssetState) × Checked tx i db a t
      × (db' ≡ apply_transition tx i a t db)
      × (m ≡ record {
        from_state = a.lifecycle_state;
        to_state = t;
        version = i.expected_version + 1;
      })
unfolding transition_lifecycle
transition-inversion tx i db db' m h =
    let ((a, t), c, k) = bind-inv _ _ h in (a, t, check_transition-Checked tx i db a t c, cc, cc)

transition_lifecycle-row :
    (tx : Tx) (i : TransitionInput) (db db' : AssetDb) (m : Moved)
    → transition_lifecycle tx i db ≡ ok (db', m)
    → (a : Asset) × (find_where (is_asset tx.tenant_id i.asset_id) db.assets ≡ some a)
      × (a.version ≡ i.expected_version)
      × (a.lifecycle_state ⟶ m.to_state)
      × (m.from_state ≡ a.lifecycle_state)
      × (m.version ≡ i.expected_version + 1)
      × (find_where (is_asset tx.tenant_id i.asset_id) db'.assets
          ≡ some (move_asset tx m.to_state m.version a))
      × (db'.assignments ≡ db.assignments)
unfolding apply_transition move_asset
transition_lifecycle-row tx i db db' m h =
    let (a, t, c, e, e') = transition-inversion tx i db db' m h in
    (
      a,
      c.found,
      c.current,
      may_move-⟶ a.lifecycle_state m.to_state (rw e' c.allowed),
      cc,
      cc,
      rw (e, e')
          (find_where-update_where (is_asset tx.tenant_id i.asset_id)
            (move_asset tx t (i.expected_version + 1)) db.assets a (λ b k. k) c.found),
      cc,
    )

-- A change that succeeds found the asset at the version expected and followed an edge of the lifecycle graph from
-- the state stored to the target that was asked for. The asset is left in the target state, at the next version and
-- at the time of the change; it is reserved if the target is to be reserved, unassigned if the target is to be
-- available, and assigned as before otherwise. The history has a row of the change at its head, with its asset,
-- its two states, its actor and its reason; assignments are left alone.
pub transition_lifecycle-follows :
    (tx : Tx) (i : TransitionInput) (db db' : AssetDb) (m : Moved)
    → transition_lifecycle tx i db ≡ ok (db', m)
    → (a b : Asset) × (t : AssetState) × (row : LifecycleTransition) × (find_where
          (is_asset tx.tenant_id i.asset_id)
          db.assets
        ≡ some a)
      × (a.version ≡ i.expected_version)
      × (i.target_state ≡ some t)
      × (a.lifecycle_state ⟶ t)
      × (m ≡ record {
        from_state = a.lifecycle_state;
        to_state = t;
        version = i.expected_version + 1;
      })
      × (find_where (is_asset tx.tenant_id i.asset_id) db'.assets ≡ some b)
      × (b.lifecycle_state ≡ t)
      × (b.version ≡ i.expected_version + 1)
      × (b.updated_at ≡ tx.now)
      × (b.assignment_state ≡ elim t as (λ _. AssignmentState) [
        | reserved ↦ reserved_for
        | available ↦ unassigned
        | _ ↦ a.assignment_state
      ])
      × (db'.lifecycle_transitions ≡ row ∷ db.lifecycle_transitions)
      × (row.tenant_id ≡ tx.tenant_id)
      × (row.asset_id ≡ i.asset_id)
      × (row.from_state ≡ a.lifecycle_state)
      × (row.to_state ≡ t)
      × (row.actor_id ≡ i.actor_id)
      × (row.reason ≡ i.reason)
      × (db'.assignments ≡ db.assignments)
unfolding apply_transition move_asset
transition_lifecycle-follows tx i db db' m h =
    let (a, t, c, e, e') = transition-inversion tx i db db' m h in
    (
      a,
      move_asset tx t (i.expected_version + 1) a,
      t,
      _,
      c.found,
      c.current,
      c.targeted,
      may_move-⟶ a.lifecycle_state t c.allowed,
      e',
      ap (λ (d : AssetDb). find_where (is_asset tx.tenant_id i.asset_id) d.assets) e
          ∙ find_where-update_where (is_asset tx.tenant_id i.asset_id)
              (move_asset tx t (i.expected_version + 1)) db.assets a (λ b k. k) c.found,
      refl,
      refl,
      refl,
      refl,
      ap (λ (d : AssetDb). d.lifecycle_transitions) e,
      refl,
      refl,
      refl,
      refl,
      refl,
      refl,
      ap (λ (d : AssetDb). d.assignments) e,
    )

move_asset-version :
    (tx : Tx) (t : AssetState) (v : ℕ) (a : Asset) → (move_asset tx t v a).version ≡ v
unfolding move_asset
move_asset-version tx t v a = refl

transition_lifecycle-conflict :
    (tx : Tx) (i : TransitionInput) (db : AssetDb) (a : Asset)
    → find_where (is_asset tx.tenant_id i.asset_id) db.assets ≡ some a
    → is_safe_integer i.expected_version ≡ true
    → is_blank i.reason ≡ false
    → a.version ≢ i.expected_version
    → transition_lifecycle tx i db ≡ err version_conflict
unfolding transition_lifecycle check_transition throw_if or_throw
transition_lifecycle-conflict tx i db a found safe reason stale =
    ground (arith, assert_version-stale a.version i.expected_version stale)

-- After a change has succeeded, a second one that expects the same version of the asset is a version
-- conflict, whatever its target.
pub transition_lifecycle-stale :
    (tx tx' : Tx) (i j : TransitionInput) (db db' : AssetDb) (m : Moved)
    → transition_lifecycle tx i db ≡ ok (db', m)
    → tx'.tenant_id ≡ tx.tenant_id
    → j.asset_id ≡ i.asset_id
    → j.expected_version ≡ i.expected_version
    → is_blank j.reason ≡ false
    → transition_lifecycle tx' j db' ≡ err version_conflict
transition_lifecycle-stale tx tx' i j db db' m h same_tenant same_asset same_version reason =
    let (a, t, c, _, _) = transition-inversion tx i db db' m h in
    let (b, _, _, _, _, next, found, _) = transition_lifecycle-row tx i db db' m h in
    transition_lifecycle-conflict tx' j db' (move_asset tx m.to_state m.version b)
      (rw (same_tenant, same_asset) found) (rw same_version c.safe) reason
      (omega (arith, move_asset-version tx m.to_state m.version b))
