-- ===== src/Identity/Denials.antt =====
-- What makes an authorization refuse, and what it takes to be granted.
use itcenter.Base.{
  ◌≡◌, refl, sym, subst, Bool, true, false, ◌&&◌, List, [], ◌∷◌, ◌==◌, if◌then◌else◌, any, keep,
  find_where, Text,
}
use itcenter.Platform.Tx.{Tx, row_is}
use mathlib.Core.List.{Memᴰ}
use mathlib.Core.List.Memᴰ
use itcenter.Base.Members.{Memᴰ-keep, find_where-some}
use itcenter.Identity.AuthorizationLaws.{FromRole, ForATime}
use itcenter.Identity.Tables.{
  user, Role, Permission, RoleBinding, TemporaryGrant, IdentityDb, is_active_user,
}
use itcenter.Identity.Authorization.{
  AuthorizationInput, Grant, Decision, deny_tenant, deny_tenant, is_allow, each, is_binding_of,
  is_permission_of, grant_of, granted_by_roles, temporary_grant_of, granted_for_a_time, user_grants,
  covers_user, decide, decide_on, decide_for, time_of, evaluate_authorization,
}

Memᴰ-each :
    {A B : Type 0} (f : A → List B) (xs : List A) {a : A} {b : B}
    → Memᴰ a xs
    → Memᴰ b (f a)
    → Memᴰ b (each f xs)
unfolding each
Memᴰ-each f [] m n = elim m [ ]
Memᴰ-each f (x ∷ xs) {a} {b} (Memᴰ.head e) n =
    Memᴰ.append_left (each f xs) (subst (λ y. Memᴰ b (f y)) e n)
Memᴰ-each f (x ∷ xs) (Memᴰ.tail m) n = Memᴰ.append_right (f x) (Memᴰ-each f xs m n)

pub FromRole-granted :
    (binding : RoleBinding → Bool) (role : Role → Bool) (permission : Permission → Bool)
    (db : IdentityDb) (g : Grant)
    → FromRole binding role permission db g
    → Memᴰ g (granted_by_roles binding role permission db)
unfolding granted_by_roles
FromRole-granted binding role permission db g
      (b, r, rp, p, (mb, tb), (mr, tr), (mrp, trp), (mp, tp), e) =
    Memᴰ-each _ (keep binding db.role_bindings) (Memᴰ-keep binding db.role_bindings mb tb) (
      Memᴰ-each _ (keep (λ r. row_is b.tenant_id b.role_id r.tenant_id r.id && role r) db.roles)
        (Memᴰ-keep (λ r. row_is b.tenant_id b.role_id r.tenant_id r.id && role r) db.roles mr tr)
        (Memᴰ-each _
          (keep (λ rp. row_is r.tenant_id r.id rp.tenant_id rp.role_id) db.role_permissions)
          (Memᴰ-keep (λ rp. row_is r.tenant_id r.id rp.tenant_id rp.role_id) db.role_permissions mrp
            trp)
          (Memᴰ.cast e (
            Memᴰ.map (grant_of b r)
              (Memᴰ-keep (is_permission_of rp permission) db.permissions mp tp)))))

pub ForATime-granted :
    (grant : TemporaryGrant → Bool) (permission : Permission → Bool) (db : IdentityDb) (g : Grant)
    → ForATime grant permission db g
    → Memᴰ g (granted_for_a_time grant permission db)
unfolding granted_for_a_time
ForATime-granted grant permission db g (t, p, (mt, tt'), (mp, tp), e) =
    Memᴰ-each _ (keep grant db.temporary_grants) (Memᴰ-keep grant db.temporary_grants mt tt') (
      Memᴰ.cast e (
        Memᴰ.map (temporary_grant_of t)
          (Memᴰ-keep (λ p. p.id == t.permission_id && permission p) db.permissions mp tp)))

decide-denied :
    (covers : Grant → Bool) (rows : List Grant) (d : Grant)
    → Memᴰ d rows
    → d.denies ≡ true
    → is_allow (decide covers rows) ≡ false
unfolding decide decide_on
decide-denied covers rows d m h =
    let (e, k) = find_where-some (λ (g : Grant). g.denies) rows m h in rw k refl

decide-denied_if :
    (covers : Grant → Bool) (b : Bool) (rows : List Grant) (d : Grant)
    → Memᴰ d rows
    → d.denies ≡ true
    → is_allow (decide covers (if b then rows else [])) ≡ false
unfolding decide decide_on find_where
decide-denied_if covers true rows d m h = decide-denied covers rows d m h
decide-denied_if covers false rows d m h = refl

refused-if :
    (b : Bool) (d : Decision) → is_allow d ≡ false → is_allow (if b then d else deny_tenant) ≡ false
refused-if true d h = h
refused-if false d h = refl

-- A user whose binding to a role with the permission says EXPLICIT_DENY, in force at the time
-- of the decision, is refused, whatever the scopes of the binding and of the request and whatever is granted
-- besides.
pub explicit_deny_refuses :
    (lower_case : Text → Text) (tx : Tx) (i : AuthorizationInput) (db : IdentityDb) (d : Grant)
    → i.principal_type ≡ user
    → FromRole
        (is_binding_of user i.tenant_id i.principal_id (time_of tx i.at))
        (λ r. true)
        (λ p. p.code == i.action)
        db
        d
    → d.denies ≡ true
    → is_allow (evaluate_authorization lower_case tx i db) ≡ false
unfolding evaluate_authorization decide_for user_grants
explicit_deny_refuses lower_case tx i db d u from h =
    let at = time_of tx i.at in
    let m = FromRole-granted _ _ _ db d from in
    refused-if (i.tenant_id == tx.tenant_id) (decide_for lower_case i.principal_type i at db) (
      subst (λ x. is_allow (decide_for lower_case x i at db) ≡ false) (sym u)
        (decide-denied_if (covers_user lower_case i)
          (any (is_active_user i.tenant_id i.principal_id) db.users) _ d (Memᴰ.append_left _ m) h))
