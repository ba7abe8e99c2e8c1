-- ===== src/Identity/Authorization.antt =====
-- modules/identity/application/authorization.ts: `evaluateAuthorization`.
use itcenter.Base.{
  ℕ, Bool, true, false, not, ◌&&◌, ◌||◌, Option, none, some, List, [], ◌∷◌, ◌++◌, map, ltb, leb,
  ◌==◌, if◌then◌else◌, any, keep, find_where, Text, codes, text_eq,
}
use itcenter.Platform.Tx.{Tx, row_is}
use itcenter.Identity.Tables.{
  PrincipalType, user, system_reporting, is_type, ScopeId, everything, one, same_scope, Role,
  Permission, RolePermission, RoleBinding, TemporaryGrant, SystemPrincipal, ReportingPrincipal,
  IdentityDb, is_null, is_open_after, is_active_user,
}

pub record AuthorizationInput : Type 0 where
  pub principal_id : ℕ
  pub principal_type : PrincipalType
  pub tenant_id : ℕ
  pub action : ℕ
  pub resource_type : Text
  pub scope : List (Text × ScopeId)
  pub at : Option ℕ

-- A row of the joins; the role is `none` for a temporary grant.
pub record Grant : Type 0 where
  pub code : ℕ
  pub role_code : Option ℕ
  pub scope_type : Text
  pub scope_id : ScopeId
  pub denies : Bool

-- The decision with its reason.
pub data Decision : Type 0 where
  allow_capability deny_tenant deny_capability deny_nothing : Decision
  allow_grant deny_explicit : Grant → Decision

abbrev pub is_allow : Decision → Bool
is_allow allow_capability = true
is_allow (allow_grant g) = true
is_allow _ = false

-- The rows that a join adds to each row.
unfoldable pub each : {A B : Type 0} → (A → List B) → List A → List B
each f [] = []
each f (x ∷ xs) = f x ++ each f xs

-- A binding of a type of principal that is in force at a time.
abbrev pub is_binding_of : PrincipalType → ℕ → ℕ → ℕ → RoleBinding → Bool
is_binding_of type tenant principal at b =
    row_is tenant principal b.tenant_id b.principal_id
    && is_type b.principal_type type
    && is_null b.revoked_at
    && leb b.valid_from at
    && is_open_after at b.valid_until

abbrev pub is_permission_of : RolePermission → (Permission → Bool) → Permission → Bool
is_permission_of rp test p = p.id == rp.permission_id && test p

abbrev pub grant_of : RoleBinding → Role → Permission → Grant
grant_of b r p = record {
  code = p.code;
  role_code = some r.code;
  scope_type = b.scope_type;
  scope_id = b.scope_id;
  denies = b.denies;
}

-- The bindings joined with their roles, the permissions of these, and the permissions that pass a test.
unfoldable pub granted_by_roles :
    (RoleBinding → Bool) → (Role → Bool) → (Permission → Bool) → IdentityDb → List Grant
granted_by_roles binding role permission db =
    each
      (λ b.
        each
          (λ r.
            each (λ rp. map (grant_of b r) (keep (is_permission_of rp permission) db.permissions))
              (keep (λ rp. row_is r.tenant_id r.id rp.tenant_id rp.role_id) db.role_permissions))
          (keep (λ r. row_is b.tenant_id b.role_id r.tenant_id r.id && role r) db.roles))
      (keep binding db.role_bindings)

-- A temporary grant that is in force at a time.
abbrev pub is_grant_of : ℕ → ℕ → ℕ → TemporaryGrant → Bool
is_grant_of tenant principal at g =
    row_is tenant principal g.tenant_id g.principal_id
    && is_null g.revoked_at
    && leb g.valid_from at
    && ltb at g.valid_until

abbrev pub temporary_grant_of : TemporaryGrant → Permission → Grant
temporary_grant_of g p = record {
  code = p.code;
  role_code = none;
  scope_type = g.scope_type;
  scope_id = g.scope_id;
  denies = false;
}

unfoldable pub granted_for_a_time :
    (TemporaryGrant → Bool) → (Permission → Bool) → IdentityDb → List Grant
granted_for_a_time grant permission db =
    each
      (λ g.
        map (temporary_grant_of g)
          (keep (λ p. p.id == g.permission_id && permission p) db.permissions))
      (keep grant db.temporary_grants)

-- The rows of a user, none where the user is not active.
unfoldable pub user_grants : AuthorizationInput → ℕ → IdentityDb → List Grant
user_grants i at db =
    if any (is_active_user i.tenant_id i.principal_id) db.users
    then granted_by_roles (is_binding_of user i.tenant_id i.principal_id at) (λ r. true)
        (λ p. p.code == i.action) db
      ++ granted_for_a_time (is_grant_of i.tenant_id i.principal_id at) (λ p. p.code == i.action) db
    else []

abbrev pub is_active_service : AuthorizationInput → SystemPrincipal → Bool
is_active_service i s =
    row_is i.tenant_id i.principal_id s.tenant_id s.id
    && is_type s.type i.principal_type
    && s.active

abbrev pub is_capable : AuthorizationInput → ReportingPrincipal → Bool
is_capable i s =
    row_is i.tenant_id i.principal_id s.tenant_id s.id
    && s.active
    && any (λ c. c == i.action) s.granted_capabilities

-- `input.scope[key] === id`.
unfoldable pub covers_key : List (Text × ScopeId) → Text → ScopeId → Bool
covers_key [] key id = false
covers_key ((k, v) ∷ scope) key id =
    if text_eq k key then same_scope v id else covers_key scope key id

-- The decision on the first denial and the first grant that covers the scope: the denial decides.
unfoldable pub decide_on : Option Grant → Option Grant → Decision
decide_on (some d) covering = deny_explicit d
decide_on none (some g) = allow_grant g
decide_on none none = deny_nothing

unfoldable pub decide : (Grant → Bool) → List Grant → Decision
decide covers rows = decide_on (find_where (λ g. g.denies) rows) (find_where covers rows)

abbrev pub time_of : Tx → Option ℕ → ℕ
time_of tx none = tx.now
time_of tx (some t) = t

-- `toLowerCase` of the language, which the database's `lower` is taken to be too.
module _ (lower_case : Text → Text) where
  unfoldable pub service_grants : AuthorizationInput → ℕ → IdentityDb → List Grant
  service_grants i at db =
      if any (is_active_service i) db.system_principals
      then granted_by_roles (is_binding_of i.principal_type i.tenant_id i.principal_id at)
          (λ r. r.active)
          (λ p.
            p.code == i.action && text_eq (lower_case p.resource_type) (lower_case i.resource_type))
          db
      else []

  -- A grant of a user covers the scope.
  abbrev pub covers_user : AuthorizationInput → Grant → Bool
  covers_user i g =
      text_eq g.scope_type (codes "TENANT")
      || text_eq g.scope_type (codes "GLOBAL")
      || covers_key i.scope (lower_case g.scope_type) g.scope_id

  -- A grant of a service covers the scope; a global one does not.
  abbrev pub covers_service : AuthorizationInput → Grant → Bool
  covers_service i g =
      not (text_eq g.scope_type (codes "GLOBAL"))
      && not (same_scope g.scope_id everything)
      && covers_key i.scope (lower_case g.scope_type) g.scope_id
      && (not (text_eq g.scope_type (codes "TENANT"))
          || covers_key i.scope (codes "tenant") (one i.tenant_id))

  unfoldable pub decide_for : PrincipalType → AuthorizationInput → ℕ → IdentityDb → Decision
  decide_for user i at db = decide (covers_user i) (user_grants i at db)
  decide_for system_reporting i at db =
      if any (is_capable i) db.reporting_principals then allow_capability else deny_capability
  decide_for _ i at db = decide (covers_service i) (service_grants i at db)

  -- `evaluateAuthorization`.
  unfoldable pub evaluate_authorization : Tx → AuthorizationInput → IdentityDb → Decision
  evaluate_authorization tx i db =
      if i.tenant_id == tx.tenant_id
      then decide_for i.principal_type i (time_of tx i.at) db
      else deny_tenant
