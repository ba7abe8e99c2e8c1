-- ===== src/Identity/Privilege.antt =====
-- modules/identity/application/privilege.ts: grants for a time, and their revocation.
use itcenter.Base.{
  ℕ, ◌+◌, Bool, false, not, ◌&&◌, ◌||◌, none, some, ◌∷◌, leb, ◌==◌, any, update_where, Text,
  is_blank,
}
use itcenter.Platform.Tx.{Tx, row_is, is_blank_id}
use itcenter.Platform.Errors.{
  validation_error, not_found, version_conflict, internal_error, Result, ok, ◌>>◌, throw_if,
}
use itcenter.Identity.Tables.{
  ScopeId, everything, one, TemporaryGrant, IdentityDb, is_null, is_active_user,
}

pub record GrantInput : Type 0 where
  pub principal_id : ℕ
  pub permission_id : ℕ
  pub scope_type : Text
  pub scope_id : ScopeId
  pub valid_from : ℕ
  pub valid_until : ℕ
  pub reason : Text

abbrev pub is_blank_scope : ScopeId → Bool
is_blank_scope everything = false
is_blank_scope (one id) = is_blank_id id

abbrev pub new_grant : Tx → GrantInput → TemporaryGrant
new_grant tx g = record {
  tenant_id = tx.tenant_id;
  id = tx.uuid 0;
  principal_id = g.principal_id;
  permission_id = g.permission_id;
  scope_type = g.scope_type;
  scope_id = g.scope_id;
  valid_from = g.valid_from;
  valid_until = g.valid_until;
  revoked_at = none;
  version = 1;
}

-- `grantTemporary`, which returns the id of the grant; the insert meets the primary key.
unfoldable pub grant_temporary : Tx → GrantInput → IdentityDb → Result (IdentityDb × ℕ)
grant_temporary tx g db = do
  throw_if
      (is_blank g.reason
        || leb g.valid_until g.valid_from
        || is_blank g.scope_type
        || is_blank_scope g.scope_id)
      validation_error
  throw_if (not (any (is_active_user tx.tenant_id g.principal_id) db.users)) not_found
  throw_if (any (λ t. t.id == tx.uuid 0) db.temporary_grants) internal_error
  ok (record db { temporary_grants = new_grant tx g ∷ db.temporary_grants }, tx.uuid 0)

abbrev pub is_open_grant : Tx → ℕ → ℕ → TemporaryGrant → Bool
is_open_grant tx id version t =
    row_is tx.tenant_id id t.tenant_id t.id && t.version == version && is_null t.revoked_at

abbrev pub revoke_row : Tx → TemporaryGrant → TemporaryGrant
revoke_row tx t = record t { revoked_at = some tx.now; version = t.version + 1 }

-- `revokeTemporary`, of a grant at a version.
unfoldable pub revoke_temporary : Tx → ℕ → ℕ → IdentityDb → Result IdentityDb
revoke_temporary tx id version db = do
  throw_if (not (any (is_open_grant tx id version) db.temporary_grants)) version_conflict
  ok (record db {
    temporary_grants =
        update_where (is_open_grant tx id version) (revoke_row tx) db.temporary_grants;
  })
