-- ===== src/Identity/Tables.antt =====
-- modules/identity: the tables that decide what a principal may do, and the permissions that they grant.
use itcenter.Base.{ℕ, Bool, true, false, ◌&&◌, Option, none, some, List, ltb, ◌==◌, Text}
use itcenter.Platform.Tx.{row_is}

-- A principal is a user or one of the services of the program.
pub data PrincipalType : Type 0 where
  user system_automation system_correlation system_asset_scoring system_recommendation
        system_reporting :
      PrincipalType

abbrev pub principal_code : PrincipalType → ℕ
principal_code user = 0
principal_code system_automation = 1
principal_code system_correlation = 2
principal_code system_asset_scoring = 3
principal_code system_recommendation = 4
principal_code system_reporting = 5

abbrev pub is_type : PrincipalType → PrincipalType → Bool
is_type a b = principal_code a == principal_code b

-- The id of a scope: `*`, or another one.
pub data ScopeId : Type 0 where
  everything : ScopeId
  one : ℕ → ScopeId

abbrev pub same_scope : ScopeId → ScopeId → Bool
same_scope everything everything = true
same_scope (one a) (one b) = a == b
same_scope _ _ = false

-- A row of `identity.users`, of `identity.roles`, of `identity.permissions` and of `identity.role_permissions`.
pub record User : Type 0 where
  pub tenant_id : ℕ
  pub id : ℕ
  -- `employment_status='ACTIVE'`.
  pub active : Bool
  pub archived_at : Option ℕ

pub record Role : Type 0 where
  pub tenant_id : ℕ
  pub id : ℕ
  pub code : ℕ
  -- `status='ACTIVE'`.
  pub active : Bool

pub record Permission : Type 0 where
  pub id : ℕ
  pub code : ℕ
  pub resource_type : Text

pub record RolePermission : Type 0 where
  pub tenant_id : ℕ
  pub role_id : ℕ
  pub permission_id : ℕ

-- A row of `identity.role_bindings`.
pub record RoleBinding : Type 0 where
  pub tenant_id : ℕ
  pub principal_type : PrincipalType
  pub principal_id : ℕ
  pub role_id : ℕ
  pub scope_type : Text
  pub scope_id : ScopeId
  -- `source='EXPLICIT_DENY'`.
  pub denies : Bool
  pub valid_from : ℕ
  pub valid_until : Option ℕ
  pub revoked_at : Option ℕ

-- A row of `identity.temporary_grants`.
pub record TemporaryGrant : Type 0 where
  pub tenant_id : ℕ
  pub id : ℕ
  pub principal_id : ℕ
  pub permission_id : ℕ
  pub scope_type : Text
  pub scope_id : ScopeId
  pub valid_from : ℕ
  pub valid_until : ℕ
  pub revoked_at : Option ℕ
  pub version : ℕ

-- A row of one of the tables of system principals, of which `type` tells the table.
pub record SystemPrincipal : Type 0 where
  pub type : PrincipalType
  pub tenant_id : ℕ
  pub id : ℕ
  pub active : Bool

-- A row of `identity.reporting_principals`.
pub record ReportingPrincipal : Type 0 where
  pub tenant_id : ℕ
  pub id : ℕ
  pub active : Bool
  pub granted_capabilities : List ℕ

pub record IdentityDb : Type 0 where
  pub users : List User
  pub roles : List Role
  pub permissions : List Permission
  pub role_permissions : List RolePermission
  pub role_bindings : List RoleBinding
  pub temporary_grants : List TemporaryGrant
  pub system_principals : List SystemPrincipal
  pub reporting_principals : List ReportingPrincipal

abbrev pub is_null : Option ℕ → Bool
is_null none = true
is_null (some n) = false

-- `valid_until IS NULL OR valid_until > at`.
abbrev pub is_open_after : ℕ → Option ℕ → Bool
is_open_after at none = true
is_open_after at (some t) = ltb at t

-- `u.employment_status='ACTIVE' AND u.archived_at IS NULL`, of the user of a tenant.
abbrev pub is_active_user : ℕ → ℕ → User → Bool
is_active_user tenant id u = row_is tenant id u.tenant_id u.id && u.active && is_null u.archived_at
