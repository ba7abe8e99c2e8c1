-- ===== src/Examples/Auth.antt =====
-- A request with a token, and the theorem of its principal.
use itcenter.Base.{
  ℕ, ◌≡◌, refl, ◌⊎◌, ◌&&◌, none, some, ltb, ◌==◌, if◌then◌else◌, Text, codes, text_eq, lower,
}
use itcenter.Platform.Errors.{authentication_required, Result, ok, err, throw_if}
use itcenter.Platform.Secrets.{after_prefix}
use itcenter.Platform.Auth.{
  Principal, skip_gaps, token_after, bearer_token, RequestAuthentication, verified,
  authenticated_request, authenticate,
}
use itcenter.Platform.AuthLaws.{authenticate-asked}

abbrev principal : Principal
principal = record { id = 4; tenant_id = 1; auth_time = none; acr = none; amr = none }

-- The port 7 knows one token, of the tenant 1, which expires at the time 100.
verify : ℕ → ℕ → Text → ℕ → Result Principal
verify port now t tenant =
    if (port == 7 && ltb now 100) && (text_eq t (codes "abc") && tenant == 1)
    then ok principal
    else err authentication_required

abbrev context : RequestAuthentication
context = record { port = 7; token = codes "abc"; principal = principal }

signed_in : authenticated_request verify 7 90 (some (codes "bearer  abc")) 1 ≡ ok context
unfolding authenticated_request bearer_token token_after skip_gaps after_prefix lower verified
    verify text_eq throw_if
signed_in = refl

-- The token has expired since, and the request goes on with its principal.
goes_on : authenticate verify 7 110 (some context) (some (codes "Bearer abc")) 1 ≡ ok principal
unfolding authenticate bearer_token token_after skip_gaps after_prefix lower text_eq throw_if
goes_on = refl

authenticate-asked_example :
    (token : Text) × (bearer_token (some (codes "Bearer abc")) ≡ ok token)
    × ((verify 7 110 token 1 ≡ ok principal) ⊎ (verify 7 90 token 1 ≡ ok principal))
    × ¬ (principal.id ≡ 0)
    × ¬ (principal.tenant_id ≡ 0)
authenticate-asked_example =
    authenticate-asked verify 7 7 110 90 (some (codes "Bearer abc")) (some (codes "bearer  abc")) 1
      1 context principal signed_in goes_on
