-- ===== src/Identity/PrivilegeLaws.antt =====
-- A temporary grant allows what it names for its time, and its revocation undoes it.
use itcenter.Base.{
  ℕ, ◌≤◌, ◌<◌, ◌≡◌, refl, sym, ap, ◌∙◌, subst, ◌⊎◌, inl, inr, Bool, true, false, not, ◌&&◌, ◌||◌,
  Option, none, some, List, [], ◌∷◌, arith, leb, ◌==◌, if◌then◌else◌, ==_refl, any, find_where,
  update_where, find_where-holds, Text, is_blank,
}
use itcenter.Platform.Tx.{Tx}
use itcenter.Platform.Errors.{validation_error, not_found, internal_error, ok, throw_if}
use itcenter.Platform.Errors.{>>-inv}
use mathlib.Core.List.{Memᴰ}
use mathlib.Core.List.Memᴰ
use itcenter.Base.Members.{find_where-some}
use itcenter.Identity.Denials.{ForATime-granted}
use itcenter.Identity.Tables.{
  PrincipalType, user, Permission, TemporaryGrant, IdentityDb, is_null, is_active_user,
}
use itcenter.Identity.Authorization.{
  AuthorizationInput, Grant, Decision, allow_grant, deny_explicit, deny_tenant, granted_by_roles,
  is_grant_of, temporary_grant_of, granted_for_a_time, user_grants, service_grants, covers_user,
  decide, decide_on, decide_for, time_of, evaluate_authorization,
}
use itcenter.Identity.AuthorizationLaws.{ForATime}
use itcenter.Identity.Privilege.{
  GrantInput, new_grant, is_blank_scope, grant_temporary, is_open_grant, revoke_row,
  revoke_temporary,
}

-- What a grant has written, when it succeeds.
granted :
    (tx : Tx) (g : GrantInput) (db db' : IdentityDb) (id : ℕ)
    → grant_temporary tx g db ≡ ok (db', id)
    → (any (is_active_user tx.tenant_id g.principal_id) db.users ≡ true)
      × (any (λ t. t.id == tx.uuid 0) db.temporary_grants ≡ false)
      × (db' ≡ record db { temporary_grants = new_grant tx g ∷ db.temporary_grants })
      × (id ≡ tx.uuid 0)
unfolding grant_temporary throw_if
granted tx g db db' id h =
    let (_, h1) =
      >>-inv
        (throw_if
          (is_blank g.reason
            || leb g.valid_until g.valid_from
            || is_blank g.scope_type
            || is_blank_scope g.scope_id)
          validation_error)
        _ h in
    let (u, h2) =
      >>-inv (throw_if (not (any (is_active_user tx.tenant_id g.principal_id) db.users)) not_found)
        _ h1 in
    let (f, h3) =
      >>-inv
        (throw_if (any (λ (t : TemporaryGrant). t.id == tx.uuid 0) db.temporary_grants)
          internal_error)
        _ h2 in
    (ground (arith, u), ground (arith, f), cc h3, cc h3)

-- The open grant of an id is the only row that has the id.
revoke-others :
    (tx : Tx) (id version : ℕ) (rows : List TemporaryGrant)
    → any (λ t. t.id == id) rows ≡ false
    → update_where (is_open_grant tx id version) (revoke_row tx) rows ≡ rows
unfolding update_where
revoke-others tx id version [] h = refl
revoke-others tx id version (t ∷ rows) h = ground (arith, revoke-others tx id version rows)

-- A revoked grant is no row of the joins.
user_grants-revoked :
    (i : AuthorizationInput) (at : ℕ) (db : IdentityDb) (t : TemporaryGrant)
    → is_null t.revoked_at ≡ false
    → user_grants i at (record db { temporary_grants = t ∷ db.temporary_grants })
      ≡ user_grants i at db
unfolding user_grants granted_by_roles granted_for_a_time
user_grants-revoked i at db t h = rw out refl
  where
    out : is_grant_of i.tenant_id i.principal_id at t ≡ false
    out = ground (arith, h)

decide_for-revoked :
    (lower_case : Text → Text) (p : PrincipalType) (i : AuthorizationInput) (at : ℕ)
    (db : IdentityDb) (t : TemporaryGrant)
    → is_null t.revoked_at ≡ false
    → decide_for lower_case p i at (record db { temporary_grants = t ∷ db.temporary_grants })
      ≡ decide_for lower_case p i at db
unfolding decide_for service_grants granted_by_roles
decide_for-revoked lower_case user i at db t h =
    ap (decide (covers_user lower_case i)) (user_grants-revoked i at db t h)
decide_for-revoked lower_case _ i at db t h = refl

-- A grant that was made can be revoked at its first version, by any later transaction of the tenant, and with
-- it every authorization is decided as if it had never been made: for every principal, at every time.
pub grant_temporary-revoke :
    (lower_case : Text → Text) (tx tx' : Tx) (g : GrantInput) (db db' : IdentityDb) (id : ℕ)
    → tx'.tenant_id ≡ tx.tenant_id
    → grant_temporary tx g db ≡ ok (db', id)
    → (db'' : IdentityDb) × (revoke_temporary tx' id 1 db' ≡ ok db'')
      × ((later : Tx) (i : AuthorizationInput)
          → evaluate_authorization lower_case later i db''
            ≡ evaluate_authorization lower_case later i db)
unfolding revoke_temporary evaluate_authorization update_where throw_if
grant_temporary-revoke lower_case tx tx' g db db' id same h =
    let (_, fresh, written, named) = granted tx g db db' id h in
    (
      record db { temporary_grants = revoke_row tx' (new_grant tx g) ∷ db.temporary_grants },
      rw (written, named, same, ==_refl tx.tenant_id, ==_refl (tx.uuid 0))
          (ap
            (λ (ts : List TemporaryGrant).
              ok (record db { temporary_grants = revoke_row tx' (new_grant tx g) ∷ ts }))
            (revoke-others tx' id 1 db.temporary_grants
              (subst (λ n. any (λ t. t.id == n) db.temporary_grants ≡ false) (sym named) fresh))),
      λ later i.
          ap (λ d. if i.tenant_id == later.tenant_id then d else deny_tenant)
            (decide_for-revoked lower_case i.principal_type i (time_of later i.at) db
              (revoke_row tx' (new_grant tx g)) refl),
    )

evaluate-user :
    (lower_case : Text → Text) (tx : Tx) (i : AuthorizationInput) (at : ℕ) (db : IdentityDb)
    → i.principal_type ≡ user
    → i.tenant_id ≡ tx.tenant_id
    → i.at ≡ some at
    → evaluate_authorization lower_case tx i db
      ≡ decide (covers_user lower_case i) (user_grants i at db)
unfolding evaluate_authorization decide_for
evaluate-user lower_case tx i at db u tenant when = rw (u, when, tenant, ==_refl tx.tenant_id) refl

abbrev Decided : Decision → Type 0
Decided d = (g : Grant) × ((d ≡ allow_grant g) ⊎ ((g.denies ≡ true) × (d ≡ deny_explicit g)))

decide_on-Decided :
    (d : Option Grant) (g : Grant)
    → ((e : Grant) → d ≡ some e → e.denies ≡ true)
    → Decided (decide_on d (some g))
unfolding decide_on
decide_on-Decided none g h = (g, inl refl)
decide_on-Decided (some e) g h = (e, inr (h e refl, refl))

-- Rows with one that covers the target are decided by a grant or by a denial.
decide-Decided :
    (covers : Grant → Bool) (rows : List Grant) (g : Grant)
    → Memᴰ g rows
    → covers g ≡ true
    → Decided (decide covers rows)
unfolding decide
decide-Decided covers rows g m c =
    let (b, e) = find_where-some covers rows m c in
    subst (λ o. Decided (decide_on (find_where (λ g. g.denies) rows) o)) (sym e)
      (decide_on-Decided (find_where (λ g. g.denies) rows) b
        (find_where-holds (λ g. g.denies) rows))

user_grants-granted :
    (i : AuthorizationInput) (at : ℕ) (db : IdentityDb) (d : Grant)
    → any (is_active_user i.tenant_id i.principal_id) db.users ≡ true
    → ForATime (is_grant_of i.tenant_id i.principal_id at) (λ p. p.code == i.action) db d
    → Memᴰ d (user_grants i at db)
unfolding user_grants
user_grants-granted i at db d active from =
    rw active (Memᴰ.append_right _ (ForATime-granted _ _ db d from))

-- A grant that was made allows its user the action of its permission on a target that its scope covers, from
-- its start until its end, unless a denial is in force: the decision is to allow, or names a denial.
pub grant_temporary-allows :
    (lower_case : Text → Text) (tx : Tx) (g : GrantInput) (db db' : IdentityDb) (id : ℕ)
    (p : Permission) (i : AuthorizationInput) (at : ℕ)
    → grant_temporary tx g db ≡ ok (db', id)
    → Memᴰ p db.permissions
    → p.id ≡ g.permission_id
    → i.principal_type ≡ user
    → i.tenant_id ≡ tx.tenant_id
    → i.principal_id ≡ g.principal_id
    → i.action ≡ p.code
    → i.at ≡ some at
    → g.valid_from ≤ at
    → at < g.valid_until
    → covers_user lower_case i (temporary_grant_of (new_grant tx g) p) ≡ true
    → (d : Grant) × ((evaluate_authorization lower_case tx i db' ≡ allow_grant d)
        ⊎ ((d.denies ≡ true) × (evaluate_authorization lower_case tx i db' ≡ deny_explicit d)))
grant_temporary-allows lower_case tx g db db' id p i at h mp pid u tenant who what when from until
      c =
    let (active, fresh, written, named) = granted tx g db db' id h in
    let db1 : IdentityDb = record db { temporary_grants = new_grant tx g ∷ db.temporary_grants } in
    let in_force : is_grant_of i.tenant_id i.principal_id at (new_grant tx g) ≡ true =
      rw (tenant, who) (ground (arith, ==_refl tx.tenant_id, ==_refl g.principal_id)) in
    let permits : (p.id == g.permission_id && p.code == i.action) ≡ true =
      rw (pid, what) (ground (arith, ==_refl g.permission_id, ==_refl p.code)) in
    let m =
      user_grants-granted i at db1 (temporary_grant_of (new_grant tx g) p) (rw (tenant, who) active)
        (new_grant tx g, p, (Memᴰ.head refl, in_force), (mp, permits), refl) in
    subst Decided
      (sym (evaluate-user lower_case tx i at db1 u tenant when)
        ∙ ap (evaluate_authorization lower_case tx i) (sym written))
      (decide-Decided (covers_user lower_case i) (user_grants i at db1)
        (temporary_grant_of (new_grant tx g) p) m c)
