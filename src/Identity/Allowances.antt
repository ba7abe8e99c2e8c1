-- ===== src/Identity/Allowances.antt =====
-- What an authorization that is allowed rests on, in the rows of the tables.
use itcenter.Base.{
  ℕ, ◌≤◌, ◌<◌, ◌≡◌, refl, sym, ap, ◌∙◌, subst, ◌⊎◌, inl, inr, true, false, Option, none, some, List,
  [], ◌∷◌, arith, ◌==◌, eq_of_==, Bool-cases, Text, codes, text_eq, text_eq_sound,
}
use itcenter.Platform.Tx.{Tx}
use mathlib.Core.List.{Memᴰ}
use itcenter.Identity.Tables.{
  PrincipalType, user, is_type, ScopeId, everything, one, same_scope, User, Role, Permission,
  RolePermission, RoleBinding, TemporaryGrant, IdentityDb, is_null, is_open_after,
}
use itcenter.Identity.Authorization.{
  AuthorizationInput, Grant, is_allow, is_binding_of, is_grant_of, covers_key, covers_user, time_of,
  evaluate_authorization,
}
use itcenter.Identity.AuthorizationLaws.{FromRole, ForATime, evaluate_authorization-rests}

-- A user of a tenant who is active and not archived.
abbrev pub IsActive : ℕ → ℕ → IdentityDb → Type 0
IsActive tenant principal db =
    (u : User) × Memᴰ u db.users
    × (u.tenant_id ≡ tenant)
    × (u.id ≡ principal)
    × (u.active ≡ true)
    × (u.archived_at ≡ none)

-- An end that is not set, or lies ahead.
abbrev pub EndsAfter : ℕ → Option ℕ → Type 0
EndsAfter at until = (until ≡ none) ⊎ ((t : ℕ) × (until ≡ some t) × (at < t))

-- The scope of a right covers a target: the tenant, everything, or a value that the target has for the key.
abbrev pub IsCovered : (Text → Text) → List (Text × ScopeId) → Text → ScopeId → Type 0
IsCovered lower_case scope type id =
    (type ≡ codes "TENANT") ⊎ ((type ≡ codes "GLOBAL") ⊎ Memᴰ (lower_case type, id) scope)

-- A binding of a user that is in force at a time and does not deny, to a role that has a permission for the action, and
-- whose scope covers the target.
abbrev pub HasRole : (Text → Text) → ℕ → ℕ → AuthorizationInput → IdentityDb → Type 0
HasRole lower_case tenant at i db =
    (b : RoleBinding) × (r : Role) × (rp : RolePermission) × (p : Permission) × Memᴰ b
      db.role_bindings
    × (b.tenant_id ≡ tenant)
    × (b.principal_type ≡ user)
    × (b.principal_id ≡ i.principal_id)
    × (b.revoked_at ≡ none)
    × (b.valid_from ≤ at)
    × EndsAfter at b.valid_until
    × (b.denies ≡ false)
    × IsCovered lower_case i.scope b.scope_type b.scope_id
    × Memᴰ r db.roles
    × (r.tenant_id ≡ tenant)
    × (r.id ≡ b.role_id)
    × Memᴰ rp db.role_permissions
    × (rp.tenant_id ≡ tenant)
    × (rp.role_id ≡ r.id)
    × Memᴰ p db.permissions
    × (p.id ≡ rp.permission_id)
    × (p.code ≡ i.action)

-- A temporary grant to a user that is in force at a time, of a permission for the action, and whose scope covers
-- the target.
abbrev pub HasGrant : (Text → Text) → ℕ → ℕ → AuthorizationInput → IdentityDb → Type 0
HasGrant lower_case tenant at i db =
    (t : TemporaryGrant) × (p : Permission) × Memᴰ t db.temporary_grants
    × (t.tenant_id ≡ tenant)
    × (t.principal_id ≡ i.principal_id)
    × (t.revoked_at ≡ none)
    × (t.valid_from ≤ at)
    × (at < t.valid_until)
    × IsCovered lower_case i.scope t.scope_type t.scope_id
    × Memᴰ p db.permissions
    × (p.id ≡ t.permission_id)
    × (p.code ≡ i.action)

is_null-none : (o : Option ℕ) → is_null o ≡ true → o ≡ none
is_null-none none h = refl
is_null-none (some n) h = cc

is_open_after-EndsAfter : (at : ℕ) (o : Option ℕ) → is_open_after at o ≡ true → EndsAfter at o
is_open_after-EndsAfter at none h = inl refl
is_open_after-EndsAfter at (some t) h = inr (t, refl, ground arith)

user_only : (type : PrincipalType) → is_type type user ≡ true → type ≡ user
user_only user h = refl
user_only _ h = cc

same_scope_sound : (a b : ScopeId) → same_scope a b ≡ true → a ≡ b
same_scope_sound everything everything h = refl
same_scope_sound (one a) (one b) h = ap one (eq_of_== a b h)
same_scope_sound _ _ h = cc

covers_key-Memᴰ :
    (scope : List (Text × ScopeId)) (key : Text) (id : ScopeId)
    → covers_key scope key id ≡ true
    → Memᴰ (key, id) scope
unfolding covers_key
covers_key-Memᴰ [] key id h = cc
covers_key-Memᴰ ((k, v) ∷ scope) key id h = elim (Bool-cases (text_eq k key)) [
  | inl e ↦
      let ek = text_eq_sound k key e in
      let ev = same_scope_sound v id (ground arith) in Memᴰ.head (cc (ek, ev))
  | inr e ↦ Memᴰ.tail (covers_key-Memᴰ scope key id (ground arith))
]

covers_user-IsCovered :
    (lower_case : Text → Text) (i : AuthorizationInput) (g : Grant)
    → covers_user lower_case i g ≡ true
    → IsCovered lower_case i.scope g.scope_type g.scope_id
covers_user-IsCovered lower_case i g h = elim (Bool-cases (text_eq g.scope_type (codes "TENANT"))) [
  | inl e ↦ inl (text_eq_sound _ _ e)
  | inr e ↦ elim (Bool-cases (text_eq g.scope_type (codes "GLOBAL"))) [
    | inl e' ↦ inr (inl (text_eq_sound _ _ e'))
    | inr e' ↦
        inr (inr (covers_key-Memᴰ i.scope (lower_case g.scope_type) g.scope_id (ground arith)))
  ]
]

module _ (lower_case : Text → Text) (tenant at : ℕ) (i : AuthorizationInput) (db : IdentityDb)
    (g : Grant) where
  FromRole-HasRole :
      covers_user lower_case i g ≡ true
      → g.denies ≡ false
      → FromRole
          (is_binding_of user tenant i.principal_id at)
          (λ r. true)
          (λ p. p.code == i.action)
          db
          g
      → HasRole lower_case tenant at i db
  FromRole-HasRole c d (b, r, rp, p, (mb, hb), (mr, hr), (mrp, hrp), (mp, hp), e) =
      let tenant_of : b.tenant_id ≡ tenant = ground (arith, eq_of_== b.tenant_id tenant) in
      let role_tenant : r.tenant_id ≡ b.tenant_id =
        ground (arith, eq_of_== r.tenant_id b.tenant_id) in
      (
        b,
        r,
        rp,
        p,
        mb,
        tenant_of,
        user_only b.principal_type (ground arith),
        ground (arith, eq_of_== b.principal_id i.principal_id),
        is_null-none b.revoked_at (ground arith),
        ground arith,
        is_open_after-EndsAfter at b.valid_until (ground arith),
        sym (ap (λ (x : Grant). x.denies) e) ∙ d,
        subst (λ (x : Grant). IsCovered lower_case i.scope x.scope_type x.scope_id) e
            (covers_user-IsCovered lower_case i g c),
        mr,
        role_tenant ∙ tenant_of,
        ground (arith, eq_of_== r.id b.role_id),
        mrp,
        ground (arith, eq_of_== rp.tenant_id r.tenant_id) ∙ (role_tenant ∙ tenant_of),
        ground (arith, eq_of_== rp.role_id r.id),
        mp,
        ground (arith, eq_of_== p.id rp.permission_id),
        ground (arith, eq_of_== p.code i.action),
      )

  ForATime-HasGrant :
      covers_user lower_case i g ≡ true
      → ForATime (is_grant_of tenant i.principal_id at) (λ p. p.code == i.action) db g
      → HasGrant lower_case tenant at i db
  ForATime-HasGrant c (t, p, (mt, ht), (mp, hp), e) = (
    t,
    p,
    mt,
    ground (arith, eq_of_== t.tenant_id tenant),
    ground (arith, eq_of_== t.principal_id i.principal_id),
    is_null-none t.revoked_at (ground arith),
    ground arith,
    ground arith,
    subst (λ (x : Grant). IsCovered lower_case i.scope x.scope_type x.scope_id) e
        (covers_user-IsCovered lower_case i g c),
    mp,
    ground (arith, eq_of_== p.id t.permission_id),
    ground (arith, eq_of_== p.code i.action),
  )

-- A user who is allowed an action is of the transaction's tenant, active and not archived there, and holds a right
-- to the action at the time of the decision: a binding, neither revoked nor a denial, to a role of the tenant that
-- has a permission for the action, or a temporary grant of such a permission that is not revoked. The binding or
-- the grant has begun and has not ended, and its scope is the tenant, everything, or a value that the target has
-- for its key.
pub evaluate_authorization-allows :
    (lower_case : Text → Text) (tx : Tx) (i : AuthorizationInput) (db : IdentityDb)
    → i.principal_type ≡ user
    → is_allow (evaluate_authorization lower_case tx i db) ≡ true
    → (i.tenant_id ≡ tx.tenant_id)
      × IsActive tx.tenant_id i.principal_id db
      × (HasRole lower_case tx.tenant_id (time_of tx i.at) i db
          ⊎ HasGrant lower_case tx.tenant_id (time_of tx i.at) i db)
evaluate_authorization-allows lower_case tx i db e h =
    let (tenant, u, (m, a), g, c, d, from) = evaluate_authorization-rests lower_case tx i db e h in
    (
      tenant,
      (
        u,
        m,
        ground (arith, eq_of_== u.tenant_id tx.tenant_id),
        ground (arith, eq_of_== u.id i.principal_id),
        ground arith,
        is_null-none u.archived_at (ground arith),
      ),
      elim from [
        | inl r ↦ inl (FromRole-HasRole lower_case tx.tenant_id (time_of tx i.at) i db g c d r)
        | inr t ↦ inr (ForATime-HasGrant lower_case tx.tenant_id (time_of tx i.at) i db g c t)
      ],
    )
