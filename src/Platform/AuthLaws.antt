-- ===== src/Platform/AuthLaws.antt =====
-- What an authentication within a request rests on.
use itcenter.Base.{
  ℕ, ◌≡◌, sym, subst, ◌⊎◌, inl, inr, ◌&&◌, Option, some, ◌==◌, arith, Bool-cases, Text, text_eq,
  text_eq_sound, eq_of_==, both,
}
use itcenter.Platform.Errors.{authentication_required, Result, ok, ◌>>◌, bind-inv, ok_inj, throw_if}
use itcenter.Platform.Auth.{
  Principal, bearer_token, is_anonymous, RequestAuthentication, verified, authenticated_request,
  authenticate,
}

-- A principal that passes the test is not anonymous.
named :
    (q p : Principal) (m : Result Principal)
    → m ≡ ok q
    → (do throw_if (is_anonymous q) authentication_required; ok q) ≡ ok p
    → (m ≡ ok p) × ¬ (p.id ≡ 0) × ¬ (p.tenant_id ≡ 0)
unfolding throw_if
named q p m said h = elim (Bool-cases (is_anonymous q)) [
  | inl blank ↦ absurd (cc (blank, h))
  | inr clear ↦
      let same : (q ≡ p) = cc (clear, h) in
      subst (λ x. (m ≡ ok x) × ¬ (x.id ≡ 0) × ¬ (x.tenant_id ≡ 0)) same
        (said, λ z. absurd (ground (arith, z, clear)), λ z. absurd (ground (arith, z, clear)))
]

module _ {Selector : Type 0} (verify : ℕ → ℕ → Text → Selector → Result Principal) where
  -- A principal that is accepted is what the port said, and it is not anonymous.
  verified-inv :
      (port now : ℕ) (token : Text) (selector : Selector) (p : Principal)
      → verified verify port now token selector ≡ ok p
      → (verify port now token selector ≡ ok p) × ¬ (p.id ≡ 0) × ¬ (p.tenant_id ≡ 0)
  unfolding verified throw_if
  verified-inv port now token selector p h =
      let (q, said, h1) = bind-inv (verify port now token selector) _ h in
      named q p (verify port now token selector) said h1

  -- What a request keeps is what its port said.
  authenticated_request-keeps :
      (port began : ℕ) (header : Option Text) (selector : Selector)
      (context : RequestAuthentication)
      → authenticated_request verify port began header selector ≡ ok context
      → verified verify context.port began context.token selector ≡ ok context.principal
  unfolding authenticated_request
  authenticated_request-keeps port began header selector context h =
      let (token, _, h1) = bind-inv (bearer_token header) _ h in
      let (q, is_verified, h2) = bind-inv (verified verify port began token selector) _ h1 in
      let same : (record { port = port; token = token; principal = q } ≡ context) =
        sym (ok_inj _ _ h2) in
      subst
        (λ (c : RequestAuthentication).
          verified verify c.port began c.token selector ≡ ok c.principal)
        same is_verified

  -- In a request that a port has authenticated, a principal that a further authentication returns is the
  -- one that the asked port itself gave for the token of the header: either then, for the selection of a
  -- tenant at hand, or when the request began, for the selection of the request. It has an id and a tenant.
  pub authenticate-asked :
      (port port0 now began : ℕ) (header header0 : Option Text) (selector selector0 : Selector)
      (context : RequestAuthentication) (p : Principal)
      → authenticated_request verify port0 began header0 selector0 ≡ ok context
      → authenticate verify port now (some context) header selector ≡ ok p
      → (token : Text) × (bearer_token header ≡ ok token)
        × ((verify port now token selector ≡ ok p) ⊎ (verify port began token selector0 ≡ ok p))
        × ¬ (p.id ≡ 0)
        × ¬ (p.tenant_id ≡ 0)
  unfolding authenticated_request authenticate
  authenticate-asked port port0 now began header header0 selector selector0 context p began_so h =
      let (token, is_token, h1) = bind-inv (bearer_token header) _ h in
      let kept =
        verified-inv context.port began context.token selector0 context.principal
          (authenticated_request-keeps port0 began header0 selector0 context began_so) in
      elim (Bool-cases (context.port == port && text_eq context.token token)) [
        | inl same ↦
            let (same_port, same_text) = both (context.port == port) _ same in
            let is_port : (context.port ≡ port) = eq_of_== context.port port same_port in
            let is_text : (context.token ≡ token) = text_eq_sound _ _ same_text in
            let is_p : (context.principal ≡ p) = cc (same, h1) in
            let (said, has_id, has_tenant) = kept in
            (
              token,
              is_token,
              inr (cc (is_port, is_text, is_p, said)),
              subst (λ (x : Principal). ¬ (x.id ≡ 0)) is_p has_id,
              subst (λ (x : Principal). ¬ (x.tenant_id ≡ 0)) is_p has_tenant,
            )
        | inr other ↦
            let (said, has_id, has_tenant) =
              verified-inv port now token selector p (cc (other, h1)) in
            (token, is_token, inl said, has_id, has_tenant)
      ]
