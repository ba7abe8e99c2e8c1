-- ===== src/Platform/Auth.antt =====
-- packages/auth/src/index.ts: the authorization of a request by a port, bearer tokens, and step-up authentication.
use itcenter.Base.{
  ℕ, ◌-◌, Bool, false, not, ◌&&◌, ◌||◌, Option, none, some, List, [], ◌∷◌, leb, ◌==◌, if◌then◌else◌,
  any, is_empty, Text, codes, text_eq,
}
use itcenter.Platform.Tx.{is_blank_id}
use itcenter.Platform.Errors.{
  permission_denied, authentication_required, Result, ok, err, ◌>>=◌, ◌>>◌, throw_if,
  is_safe_integer,
}
use itcenter.Platform.Secrets.{after_prefix}

-- Who acts; the claims on the assurance of the sign-in come from a verified token.
pub record Principal : Type 0 where
  pub id : ℕ
  pub tenant_id : ℕ
  pub auth_time : Option ℕ
  pub acr : Option ℕ
  pub amr : Option (List ℕ)

pub record Resource : Type 0 where
  pub type : ℕ
  pub id : ℕ
  pub tenant_id : ℕ

-- A request of a principal; the scope is a list of keys and values.
pub record AuthorizationRequest : Type 0 where
  pub principal : Principal
  pub action : ℕ
  pub resource : Resource
  pub scope : List (ℕ × ℕ)

abbrev pub Port : Type 0
Port = AuthorizationRequest → Bool

-- `denyAll`.
abbrev pub deny_all : Port
deny_all request = false

-- `!id` or `!tenant_id`.
abbrev pub is_anonymous : Principal → Bool
is_anonymous p = is_blank_id p.id || is_blank_id p.tenant_id

-- `authorize`, where the port tells whether its result is ALLOW.
unfoldable pub authorize : Port → AuthorizationRequest → Result (Unit {0})
authorize port request = do
  throw_if
      (is_anonymous request.principal
        || not (request.principal.tenant_id == request.resource.tenant_id))
      permission_denied
  throw_if (not (port request)) permission_denied

abbrev pub is_gap : ℕ → Bool
is_gap c = c == 32 || c == 9

unfoldable pub skip_gaps : Text → Text
skip_gaps [] = []
skip_gaps (c ∷ cs) = let rest = skip_gaps cs in if is_gap c then rest else c ∷ cs

-- The token after the scheme: gaps, and then a text without one.
unfoldable pub token_after : Option Text → Result Text
token_after none = err authentication_required
token_after (some []) = err authentication_required
token_after (some (c ∷ cs)) = do
  throw_if (not (is_gap c)) authentication_required
  throw_if (is_empty (skip_gaps cs) || any is_gap (skip_gaps cs)) authentication_required
  ok (skip_gaps cs)

-- `bearerToken`, by `/^Bearer[ \t]+([^ \t]+)$/i`; an absent header is an empty text.
unfoldable pub bearer_token : Option Text → Result Text
bearer_token none = err authentication_required
bearer_token (some header) = token_after (after_prefix (codes "bearer") header)

-- `RequestAuthentication`; a port is named by a number.
pub record RequestAuthentication : Type 0 where
  pub port : ℕ
  pub token : Text
  pub principal : Principal

-- What a port says at a time of a token, for a selection of a tenant; it may throw.
module _ {Selector : Type 0} (verify : ℕ → ℕ → Text → Selector → Result Principal) where
  -- What `withAuthenticatedRequest` and `authenticate` do with a token that is not known yet.
  unfoldable pub verified : ℕ → ℕ → Text → Selector → Result Principal
  verified port now token selector = do
    p ← verify port now token selector
    throw_if (is_anonymous p) authentication_required
    ok p

  -- `withAuthenticatedRequest`: what the work runs with.
  unfoldable pub authenticated_request :
      ℕ → ℕ → Option Text → Selector → Result RequestAuthentication
  authenticated_request port now header selector = do
    token ← bearer_token header
    p ← verified port now token selector
    ok (record { port = port; token = token; principal = p })

  -- `authenticate`, in a request with its context, or outside one.
  unfoldable pub authenticate :
      ℕ → ℕ → Option RequestAuthentication → Option Text → Selector → Result Principal
  authenticate port now none header selector = do
    token ← bearer_token header
    verified port now token selector
  authenticate port now (some context) header selector = do
    token ← bearer_token header
    if context.port == port && text_eq context.token token
        then ok context.principal
        else verified port now token selector

pub record StepUp : Type 0 where
  pub required_acr : ℕ
  pub max_age_seconds : ℕ
  pub now : ℕ

abbrev pub is_fresh_at : StepUp → Option ℕ → Bool
is_fresh_at r none = false
is_fresh_at r (some t) = is_safe_integer t && leb t r.now && leb (r.now - t) r.max_age_seconds

abbrev pub is_acr : ℕ → Option ℕ → Bool
is_acr required none = false
is_acr required (some acr) = acr == required

abbrev pub has_method : ℕ → Option (List ℕ) → Bool
has_method method none = false
has_method method (some ms) = any (λ m. m == method) ms

-- `requireStepUpMfa`; `mfa` is the code of the method "mfa".
unfoldable pub require_step_up_mfa : ℕ → Principal → StepUp → Result (Unit {0})
require_step_up_mfa mfa p r =
    throw_if
      (not (is_acr r.required_acr p.acr)
        || not (has_method mfa p.amr)
        || not (is_fresh_at r p.auth_time))
      authentication_required
