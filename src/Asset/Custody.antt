-- ===== src/Asset/Custody.antt =====
-- What a transfer does to custody: who holds an asset before and after.
use itcenter.Base.{
  ℕ, ◌+◌, ◌≤◌, ◌≡◌, refl, inl, inr, false, some, List, ◌∷◌, arith, ◌==◌, eq_of_==, Bool-cases,
  find_where, count_where, find_where-holds, count_where-update_lt, any-count,
}
use itcenter.Platform.Tx.{Tx, row_is}
use itcenter.Platform.Errors.{ok, throw_if, or_throw, must_exist}
use itcenter.Platform.Index.{insert_unique}
use itcenter.Asset.Store.{Asset, Assignment, AssetDb, is_custody}
use itcenter.Asset.Lifecycle.{
  TransferInput, new_assignment, check_transfer, end_assignment, hand_over, apply_transfer,
  transfer_asset,
}
use itcenter.Asset.Invariant.{Inv}

-- Ending the one active primary assignment of an asset leaves none.
end_assignment-clears :
    (tx : Tx) (asset_id : ℕ) (current : Assignment) (rows : List Assignment)
    → find_where (is_custody tx.tenant_id asset_id) rows ≡ some current
    → count_where (is_custody tx.tenant_id asset_id) rows ≤ 1
    → count_where (is_custody tx.tenant_id asset_id) (end_assignment tx current.id rows) ≡ 0
unfolding end_assignment
end_assignment-clears tx asset_id current rows found one =
    let own = find_where-holds (is_custody tx.tenant_id asset_id) rows current found in
    let fewer =
      count_where-update_lt (is_custody tx.tenant_id asset_id)
        (λ a. row_is tx.tenant_id current.id a.tenant_id a.id)
        (λ a. record a { active = false; ended_at = some tx.now; version = a.version + 1 }) rows
        current (λ b. ground arith) found (ground arith) in
    omega (arith, fewer, one)

-- The one who holds an asset: its active primary assignment is that user's.
abbrev pub Holder : ℕ → ℕ → ℕ → List Assignment → Type 0
Holder tenant asset_id user_id rows =
    (c : Assignment) × (find_where (is_custody tenant asset_id) rows ≡ some c)
    × (c.user_id ≡ user_id)

hand_over-Holder :
    (tx : Tx) (i : TransferInput) (current : Assignment) (rows : List Assignment)
    → find_where (is_custody tx.tenant_id i.asset_id) rows ≡ some current
    → count_where (is_custody tx.tenant_id i.asset_id) rows ≤ 1
    → (rows' : List Assignment) × (hand_over tx i current rows ≡ ok rows')
      × Holder tx.tenant_id i.asset_id i.to_user_id rows'
unfolding hand_over insert_unique throw_if find_where
hand_over-Holder tx i current rows found one = elim (Bool-cases (current.user_id == i.to_user_id)) [
  | inl e ↦ (rows, ground arith, (current, found, eq_of_== _ _ e))
  | inr e ↦
      let new = new_assignment tx.tenant_id (tx.uuid 1) i.asset_id i.to_user_id i.reason in
      let free =
        any-count (is_custody tx.tenant_id i.asset_id) (end_assignment tx current.id rows)
          (end_assignment-clears tx i.asset_id current rows found one) in
      (new ∷ end_assignment tx current.id rows, ground arith, (new, ground arith, refl))
]

check_transfer-custody :
    (tx : Tx) (i : TransferInput) (db : AssetDb) (a : Asset) (current : Assignment)
    → check_transfer tx i db ≡ ok (a, current)
    → find_where (is_custody tx.tenant_id i.asset_id) db.assignments ≡ some current
unfolding check_transfer throw_if or_throw must_exist
check_transfer-custody tx i db a current h = ground arith

-- A transfer that passes its guards succeeds, and then the target user holds the asset: the insert of
-- the new assignment never meets the unique index, since the old one has been ended before.
pub transfer_asset-hands_over :
    (tx : Tx) (i : TransferInput) (db : AssetDb) (a : Asset) (current : Assignment)
    → Inv db
    → check_transfer tx i db ≡ ok (a, current)
    → (db' : AssetDb) × (transfer_asset tx i db ≡ ok (db', i.expected_version + 1))
      × Holder tx.tenant_id i.asset_id i.to_user_id db'.assignments
unfolding transfer_asset apply_transfer
transfer_asset-hands_over tx i db a current v passed =
    let found = check_transfer-custody tx i db a current passed in
    let (rows, e, holder) =
      hand_over-Holder tx i current db.assignments found (v.one_custody tx.tenant_id i.asset_id) in
    (apply_transfer tx i a current rows db, rw passed (rw e), holder)
