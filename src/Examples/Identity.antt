-- ===== src/Examples/Identity.antt =====
-- Users with a role and with a grant for a time, and the theorems of the authorization at them.
use itcenter.Base.{
  ℕ, ◌+◌, ◌≡◌, refl, ◌⊎◌, Bool, true, false, none, some, [], ◌∷◌, map, arith, ◌==◌, find_where,
  Text, is_blank, is_space, codes, text_eq, lower,
}
use itcenter.Platform.Tx.{Tx}
use itcenter.Platform.Errors.{ok, throw_if}
use mathlib.Core.List.{Memᴰ}
use itcenter.Identity.Tables.{user, one, Role, Permission, RoleBinding, IdentityDb}
use itcenter.Identity.Authorization.{
  AuthorizationInput, Grant, allow_grant, deny_explicit, is_allow, each, is_binding_of, grant_of,
  granted_by_roles, temporary_grant_of, granted_for_a_time, user_grants, covers_key, covers_user,
  decide_on, decide, decide_for, evaluate_authorization,
}
use itcenter.Identity.Privilege.{GrantInput, new_grant, grant_temporary, revoke_temporary}
use itcenter.Identity.AuthorizationLaws.{FromRole}
use itcenter.Identity.Allowances.{IsActive, HasRole, HasGrant, evaluate_authorization-allows}
use itcenter.Identity.Denials.{explicit_deny_refuses}
use itcenter.Identity.PrivilegeLaws.{grant_temporary-revoke, grant_temporary-allows}

decided : Unit {0}
unfolding each granted_by_roles granted_for_a_time user_grants covers_key decide_on decide
    decide_for evaluate_authorization find_where text_eq grant_temporary throw_if is_blank is_space
decided = tt

-- Letters of the language's alphabet only.
lower_case : Text → Text
unfolding lower
lower_case t = map lower t

abbrev read : Permission
read = record { id = 21; code = 31; resource_type = codes "ticket" }

abbrev close : Permission
close = record { id = 22; code = 32; resource_type = codes "ticket" }

abbrev agent : Role
agent = record { tenant_id = 1; id = 11; code = 12; active = true }

abbrev binding : ℕ → ℕ → Bool → RoleBinding
binding principal role denies = record {
  tenant_id = 1;
  principal_type = user;
  principal_id = principal;
  role_id = role;
  scope_type = codes "SITE";
  scope_id = one 9;
  denies = denies;
  valid_from = 100;
  valid_until = none;
  revoked_at = none;
}

-- The user 3 may read the tickets of the site 9, the user 4 is denied to.
abbrev db : IdentityDb
db = record {
  users =
      record { tenant_id = 1; id = 3; active = true; archived_at = none }
      ∷ record { tenant_id = 1; id = 4; active = true; archived_at = none }
      ∷ [];
  roles = agent ∷ [];
  permissions = read ∷ close ∷ [];
  role_permissions = record { tenant_id = 1; role_id = 11; permission_id = 21 } ∷ [];
  role_bindings = binding 3 11 false ∷ binding 4 11 true ∷ [];
  temporary_grants = [];
  system_principals = [];
  reporting_principals = [];
}

abbrev tx : Tx
tx = record { tenant_id = 1; now = 500; uuid = λ k. 60 + k }

abbrev request : ℕ → ℕ → AuthorizationInput
request principal action = record {
  principal_id = principal;
  principal_type = user;
  tenant_id = 1;
  action = action;
  resource_type = codes "ticket";
  scope = (codes "site", one 9) ∷ [];
  at = some 400;
}

may_read : is_allow (evaluate_authorization lower_case tx (request 3 31) db) ≡ true
unfolding decided lower_case lower
may_read = refl

may_not_close : is_allow (evaluate_authorization lower_case tx (request 3 32) db) ≡ false
unfolding decided lower_case lower
may_not_close = refl

evaluate_authorization-allows_example :
    ((request 3 31).tenant_id ≡ tx.tenant_id)
    × IsActive 1 3 db
    × (HasRole lower_case 1 400 (request 3 31) db ⊎ HasGrant lower_case 1 400 (request 3 31) db)
evaluate_authorization-allows_example =
    evaluate_authorization-allows lower_case tx (request 3 31) db refl may_read

denial :
    FromRole
      (is_binding_of user 1 4 400)
      (λ r. true)
      (λ p. p.code == 31)
      db
      (grant_of (binding 4 11 true) agent read)
denial = (
  binding 4 11 true,
  agent,
  record { tenant_id = 1; role_id = 11; permission_id = 21 },
  read,
  (Memᴰ.tail (Memᴰ.head refl), refl),
  (Memᴰ.head refl, refl),
  (Memᴰ.head refl, refl),
  (Memᴰ.head refl, refl),
  refl,
)

explicit_deny_refuses_example :
    is_allow (evaluate_authorization lower_case tx (request 4 31) db) ≡ false
explicit_deny_refuses_example =
    explicit_deny_refuses lower_case tx (request 4 31) db (grant_of (binding 4 11 true) agent read)
      refl denial refl

-- The user 3 is granted to close the tickets of the site, from 300 until 450.
abbrev for_a_time : GrantInput
for_a_time = record {
  principal_id = 3;
  permission_id = 22;
  scope_type = codes "SITE";
  scope_id = one 9;
  valid_from = 300;
  valid_until = 450;
  reason = codes "standby";
}

abbrev db1 : IdentityDb
db1 = record db { temporary_grants = new_grant tx for_a_time ∷ [] }

made : grant_temporary tx for_a_time db ≡ ok (db1, 60)
unfolding decided
made = refl

covered :
    covers_user lower_case (request 3 32) (temporary_grant_of (new_grant tx for_a_time) close)
    ≡ true
unfolding decided lower_case lower
covered = refl

grant_temporary-allows_example :
    (d : Grant) × ((evaluate_authorization lower_case tx (request 3 32) db1 ≡ allow_grant d)
      ⊎ ((d.denies ≡ true)
          × (evaluate_authorization lower_case tx (request 3 32) db1 ≡ deny_explicit d)))
grant_temporary-allows_example =
    grant_temporary-allows lower_case tx for_a_time db db1 60 close (request 3 32) 400 made
      (Memᴰ.tail (Memᴰ.head refl)) refl refl refl refl refl refl (omega arith) (omega arith) covered

grant_temporary-revoke_example :
    (db2 : IdentityDb) × (revoke_temporary tx 60 1 db1 ≡ ok db2)
    × ((later : Tx) (i : AuthorizationInput)
        → evaluate_authorization lower_case later i db2
          ≡ evaluate_authorization lower_case later i db)
grant_temporary-revoke_example =
    grant_temporary-revoke lower_case tx tx for_a_time db db1 60 refl made
