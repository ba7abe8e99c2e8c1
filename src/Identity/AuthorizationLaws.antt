-- ===== src/Identity/AuthorizationLaws.antt =====
-- What an authorization that is allowed rests on.
use itcenter.Base.{
  ℕ, ◌≡◌, refl, subst, ◌⊎◌, inl, inr, Bool, true, false, ◌&&◌, Option, none, some, List, [], ◌∷◌,
  Bool-cases, ◌==◌, if◌then◌else◌, eq_of_==, any, keep, find_where, find_where-holds, Text,
}
use itcenter.Platform.Tx.{Tx, row_is}
use mathlib.Core.List.{Memᴰ}
use mathlib.Core.List.Memᴰ
use itcenter.Base.Members.{find_where-some, keep-Memᴰ, find_where-Memᴰ, map-Memᴰ, any-Memᴰ}
use itcenter.Identity.Tables.{
  user, User, Role, Permission, RolePermission, RoleBinding, TemporaryGrant, IdentityDb,
  is_active_user,
}
use itcenter.Identity.Authorization.{
  AuthorizationInput, Grant, Decision, deny_tenant, is_allow, each, is_binding_of, is_permission_of,
  grant_of, granted_by_roles, is_grant_of, temporary_grant_of, granted_for_a_time, user_grants,
  covers_user, decide, decide_on, decide_for, time_of, evaluate_authorization,
}

each-Memᴰ :
    {A B : Type 0} (f : A → List B) (xs : List A) {b : B}
    → Memᴰ b (each f xs)
    → (a : A) × Memᴰ a xs × Memᴰ b (f a)
unfolding each
each-Memᴰ f [] m = elim m [ ]
each-Memᴰ f (x ∷ xs) m = elim (Memᴰ.append_cases (f x) m) [
  | inl n ↦ (x, Memᴰ.head refl, n)
  | inr n ↦ let (a, k, l) = each-Memᴰ f xs n in (a, Memᴰ.tail k, l)
]

-- A row of the joins: a binding that passes its test, of a role that passes its test, with a permission of it
-- that passes its test.
abbrev pub FromRole :
    (RoleBinding → Bool) → (Role → Bool) → (Permission → Bool) → IdentityDb → Grant → Type 0
FromRole binding role permission db g =
    (b : RoleBinding) × (r : Role) × (rp : RolePermission) × (p : Permission) × (Memᴰ b
        db.role_bindings
      × (binding b ≡ true))
    × (Memᴰ r db.roles × (row_is b.tenant_id b.role_id r.tenant_id r.id && role r ≡ true))
    × (Memᴰ rp db.role_permissions × (row_is r.tenant_id r.id rp.tenant_id rp.role_id ≡ true))
    × (Memᴰ p db.permissions × (is_permission_of rp permission p ≡ true))
    × (g ≡ grant_of b r p)

abbrev pub ForATime : (TemporaryGrant → Bool) → (Permission → Bool) → IdentityDb → Grant → Type 0
ForATime grant permission db g =
    (t : TemporaryGrant) × (p : Permission) × (Memᴰ t db.temporary_grants × (grant t ≡ true))
    × (Memᴰ p db.permissions × ((p.id == t.permission_id && permission p) ≡ true))
    × (g ≡ temporary_grant_of t p)

granted_by_roles-FromRole :
    (binding : RoleBinding → Bool) (role : Role → Bool) (permission : Permission → Bool)
    (db : IdentityDb) (g : Grant)
    → Memᴰ g (granted_by_roles binding role permission db)
    → FromRole binding role permission db g
unfolding granted_by_roles
granted_by_roles-FromRole binding role permission db g m =
    let (b, mb, m1) = each-Memᴰ _ (keep binding db.role_bindings) m in
    let (r, mr, m2) =
      each-Memᴰ _ (keep (λ r. row_is b.tenant_id b.role_id r.tenant_id r.id && role r) db.roles)
        m1 in
    let (rp, mrp, m3) =
      each-Memᴰ _ (keep (λ rp. row_is r.tenant_id r.id rp.tenant_id rp.role_id) db.role_permissions)
        m2 in
    let (p, mp, e) =
      map-Memᴰ (grant_of b r) (keep (is_permission_of rp permission) db.permissions) m3 in
    (
      b,
      r,
      rp,
      p,
      keep-Memᴰ binding db.role_bindings mb,
      keep-Memᴰ (λ r. row_is b.tenant_id b.role_id r.tenant_id r.id && role r) db.roles mr,
      keep-Memᴰ (λ rp. row_is r.tenant_id r.id rp.tenant_id rp.role_id) db.role_permissions mrp,
      keep-Memᴰ (is_permission_of rp permission) db.permissions mp,
      e,
    )

granted_for_a_time-ForATime :
    (grant : TemporaryGrant → Bool) (permission : Permission → Bool) (db : IdentityDb) (g : Grant)
    → Memᴰ g (granted_for_a_time grant permission db)
    → ForATime grant permission db g
unfolding granted_for_a_time
granted_for_a_time-ForATime grant permission db g m =
    let (t, mt, m1) = each-Memᴰ _ (keep grant db.temporary_grants) m in
    let (p, mp, e) =
      map-Memᴰ (temporary_grant_of t)
        (keep (λ p. p.id == t.permission_id && permission p) db.permissions) m1 in
    (
      t,
      p,
      keep-Memᴰ grant db.temporary_grants mt,
      keep-Memᴰ (λ p. p.id == t.permission_id && permission p) db.permissions mp,
      e,
    )

-- An allowance comes from a row that covers the scope, where no row denies.
decide_on-allow :
    (d o : Option Grant) → is_allow (decide_on d o) ≡ true → (d ≡ none) × (g : Grant) × (o ≡ some g)
unfolding decide_on
decide_on-allow (some d) o h = cc
decide_on-allow none (some g) h = (refl, g, refl)
decide_on-allow none none h = cc

pub decide-allow :
    (covers : Grant → Bool) (rows : List Grant)
    → is_allow (decide covers rows) ≡ true
    → (g : Grant) × Memᴰ g rows × (covers g ≡ true)
unfolding decide
decide-allow covers rows h =
    let (_, g, e) = decide_on-allow (find_where (λ g. g.denies) rows) (find_where covers rows) h in
    (g, find_where-Memᴰ covers rows e, find_where-holds covers rows g e)

-- No row denies where the decision allows.
decide-undenied :
    (covers : Grant → Bool) (rows : List Grant) (g : Grant)
    → is_allow (decide covers rows) ≡ true
    → Memᴰ g rows
    → g.denies ≡ false
unfolding decide
decide-undenied covers rows g h m = elim (Bool-cases g.denies) [
  | inr e ↦ e
  | inl e ↦
      let (none_denies, _, _) =
        decide_on-allow (find_where (λ g. g.denies) rows) (find_where covers rows) h in
      let (_, k) = find_where-some (λ (g : Grant). g.denies) rows m e in cc (none_denies, k)
]

if-Memᴰ :
    {A : Type 0} (b : Bool) (xs : List A) {a : A}
    → Memᴰ a (if b then xs else [])
    → (b ≡ true) × Memᴰ a xs
if-Memᴰ true xs m = (refl, m)
if-Memᴰ false xs m = elim m [ ]

-- The rows of a user.
user_grants-from :
    (i : AuthorizationInput) (at : ℕ) (db : IdentityDb) (g : Grant)
    → Memᴰ g (user_grants i at db)
    → (any (is_active_user i.tenant_id i.principal_id) db.users ≡ true)
      × (FromRole
            (is_binding_of user i.tenant_id i.principal_id at)
            (λ r. true)
            (λ p. p.code == i.action)
            db
            g
          ⊎ ForATime (is_grant_of i.tenant_id i.principal_id at) (λ p. p.code == i.action) db g)
unfolding user_grants
user_grants-from i at db g m =
    let (e, n) = if-Memᴰ (any (is_active_user i.tenant_id i.principal_id) db.users) _ m in
    (
      e,
      elim (Memᴰ.append_cases (granted_by_roles _ _ _ db) n) [
        | inl n ↦ inl (granted_by_roles-FromRole _ _ _ db g n)
        | inr n ↦ inr (granted_for_a_time-ForATime _ _ db g n)
      ],
    )

if-allow :
    (b : Bool) (d : Decision)
    → is_allow (if b then d else deny_tenant) ≡ true
    → (b ≡ true) × (is_allow d ≡ true)
if-allow true d h = (refl, h)
if-allow false d h = cc

-- The rows that pass the tests of the decision where it allows.
pub evaluate_authorization-rests :
    (lower_case : Text → Text) (tx : Tx) (i : AuthorizationInput) (db : IdentityDb)
    → i.principal_type ≡ user
    → is_allow (evaluate_authorization lower_case tx i db) ≡ true
    → (i.tenant_id ≡ tx.tenant_id)
      × (u : User) × (Memᴰ u db.users × (is_active_user tx.tenant_id i.principal_id u ≡ true))
      × (g : Grant) × (covers_user lower_case i g ≡ true)
      × (g.denies ≡ false)
      × (FromRole
            (is_binding_of user tx.tenant_id i.principal_id (time_of tx i.at))
            (λ r. true)
            (λ p. p.code == i.action)
            db
            g
          ⊎ ForATime
              (is_grant_of tx.tenant_id i.principal_id (time_of tx i.at))
              (λ p. p.code == i.action)
              db
              g)
unfolding evaluate_authorization decide_for
evaluate_authorization-rests lower_case tx i db u h =
    let at = time_of tx i.at in
    let (t, h1) =
      if-allow (i.tenant_id == tx.tenant_id) (decide_for lower_case i.principal_type i at db) h in
    let tenant : i.tenant_id ≡ tx.tenant_id = eq_of_== i.tenant_id tx.tenant_id t in
    let allowed = subst (λ x. is_allow (decide_for lower_case x i at db) ≡ true) u h1 in
    let (g, m, c) = decide-allow (covers_user lower_case i) (user_grants i at db) allowed in
    let (active, from) = user_grants-from i at db g m in
    let (someone, mu, e) = any-Memᴰ (is_active_user i.tenant_id i.principal_id) db.users active in
    (
      tenant,
      someone,
      (mu, subst (λ n. is_active_user n i.principal_id someone ≡ true) tenant e),
      g,
      c,
      decide-undenied (covers_user lower_case i) (user_grants i at db) g allowed m,
      subst
          (λ n.
            FromRole (is_binding_of user n i.principal_id at) (λ r. true) (λ p. p.code == i.action)
              db g
            ⊎ ForATime (is_grant_of n i.principal_id at) (λ p. p.code == i.action) db g)
          tenant from,
    )
