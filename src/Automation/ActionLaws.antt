-- ===== src/Automation/ActionLaws.antt =====
-- What an accepted action holds.
use itcenter.Base.{
  ℕ, ◌+◌, ◌≤◌, max, ◌≡◌, refl, Bool, true, false, not, Option, some, List, [], ◌∷◌, ◌++◌, arith,
  ltb, length, any, every, Text, codes,
}
use itcenter.Platform.Errors.{ErrorCode, ok, throw_if}
use itcenter.Base.Json.{Json, array, object, Items, nil, cons, Fields, end, field}
use itcenter.Automation.Patterns.{Language, lookup, is_sensitive_parameter}
use itcenter.Automation.Actions.{
  max_parameter_depth, validate_safe_parameters, validate_safe_items, validate_safe_fields,
  check_parameters, validate_action, reference_keys, is_reference, is_one_of, allowed_actions,
}
use itcenter.Platform.Errors.{>>-inv, automation_action_unsupported}

-- The keys of a value, at any depth, and its levels.
unfoldable mutual
  pub all_keys : Json → List Text
  all_keys (array xs) = item_keys xs
  all_keys (object fs) = field_keys fs
  all_keys _ = []

  pub item_keys : Items → List Text
  item_keys nil = []
  item_keys (cons v vs) = all_keys v ++ item_keys vs

  pub field_keys : Fields → List Text
  field_keys end = []
  field_keys (field k v fs) = k ∷ (all_keys v ++ field_keys fs)

unfoldable mutual
  pub levels : Json → ℕ
  levels (array xs) = 1 + item_levels xs
  levels (object fs) = 1 + field_levels fs
  levels _ = 1

  pub item_levels : Items → ℕ
  item_levels nil = 0
  item_levels (cons v vs) = max (levels v) (item_levels vs)

  pub field_levels : Fields → ℕ
  field_levels end = 0
  field_levels (field k v fs) = max (levels v) (field_levels fs)

any-append :
    (p : Text → Bool) (xs ys : List Text)
    → any p xs ≡ false
    → any p ys ≡ false
    → any p (xs ++ ys) ≡ false
any-append p [] ys h k = k
any-append p (x ∷ xs) ys h k = ground (arith, any-append p xs ys)

mutual
  unfolding validate_safe_parameters all_keys levels throw_if

  safe_parameters :
      (v : Json) (depth : ℕ)
      → validate_safe_parameters v depth ≡ ok tt
      → (any is_sensitive_parameter (all_keys v) ≡ false)
        × (depth + levels v ≤ max_parameter_depth + 1)
  safe_parameters (array xs) depth h =
      let (k, m) = safe_items xs depth (ground arith) (ground arith) in (k, m)
  safe_parameters (object fs) depth h =
      let (k, m) = safe_fields fs depth (ground arith) (ground arith) in (k, m)
  safe_parameters _ depth h = (refl, ground arith)

  safe_items :
      (xs : Items) (depth : ℕ)
      → depth ≤ max_parameter_depth
      → validate_safe_items xs depth ≡ ok tt
      → (any is_sensitive_parameter (item_keys xs) ≡ false)
        × (depth + (1 + item_levels xs) ≤ max_parameter_depth + 1)
  safe_items nil depth b h = (refl, omega arith)
  safe_items (cons v vs) depth b h =
      let (p, q) = >>-inv (validate_safe_parameters v (depth + 1)) _ h in
      let (k, m) = safe_parameters v (depth + 1) p in
      let (k', m') = safe_items vs depth b q in
      (any-append is_sensitive_parameter (all_keys v) (item_keys vs) k k', omega (arith, m, m'))

  safe_fields :
      (fs : Fields) (depth : ℕ)
      → depth ≤ max_parameter_depth
      → validate_safe_fields fs depth ≡ ok tt
      → (any is_sensitive_parameter (field_keys fs) ≡ false)
        × (depth + (1 + field_levels fs) ≤ max_parameter_depth + 1)
  safe_fields end depth b h = (refl, omega arith)
  safe_fields (field k v fs) depth b h =
      let (n, h1) =
        >>-inv (throw_if (is_sensitive_parameter k) automation_action_unsupported) _ h in
      let (p, q) = >>-inv (validate_safe_parameters v (depth + 1)) _ h1 in
      let (k1, m) = safe_parameters v (depth + 1) p in
      let (k2, m') = safe_fields fs depth b q in
      let rest = any-append is_sensitive_parameter (all_keys v) (field_keys fs) k1 k2 in
      (ground (arith, rest), omega (arith, m, m'))

-- What the parameters of an accepted action are.
abbrev pub SafeParameters : Option Json → Type 0
SafeParameters o =
    (ps : Fields) × (o ≡ some (object ps))
    × (any is_sensitive_parameter (all_keys (object ps)) ≡ false)
    × (levels (object ps) ≤ 7)

checked_parameters :
    (l : Language) (o : Option Json) → check_parameters l o ≡ ok tt → SafeParameters o
unfolding check_parameters
checked_parameters l (some (object ps)) h =
    let (_, q) =
      >>-inv (throw_if (ltb 8192 (length (l.stringify (object ps)))) automation_action_unsupported)
        _ h in
    let (k, m) = safe_parameters (object ps) 0 q in (ps, refl, k, omega (arith, m))
checked_parameters l _ h = cc

throw_if-passes : (b : Bool) (e : ErrorCode) → throw_if (not b) e ≡ ok tt → b ≡ true
unfolding throw_if
throw_if-passes b e h = ground arith

-- An accepted action is of one of the allowed types, has the references of its target, and its parameters are
-- an object with no key, at any depth, that names a secret, on at most seven levels.
pub accepted_action_safe :
    (l : Language) (fs : Fields)
    → validate_action l (object fs) ≡ ok tt
    → (is_one_of allowed_actions (lookup (codes "action_type") fs) ≡ true)
      × (every (λ k. is_reference (lookup k fs)) reference_keys ≡ true)
      × SafeParameters (lookup (codes "parameters") fs)
unfolding validate_action
accepted_action_safe l fs h =
    let (_, h1) = >>-inv _ _ h in
    let (r, h2) =
      >>-inv
        (throw_if (not (every (λ k. is_reference (lookup k fs)) reference_keys))
          automation_action_unsupported)
        _ h1 in
    let (t, h3) =
      >>-inv
        (throw_if (not (is_one_of allowed_actions (lookup (codes "action_type") fs)))
          automation_action_unsupported)
        _ h2 in
    let (p, _) = >>-inv (check_parameters l (lookup (codes "parameters") fs)) _ h3 in
    (
      throw_if-passes (is_one_of allowed_actions (lookup (codes "action_type") fs))
          automation_action_unsupported t,
      throw_if-passes (every (λ k. is_reference (lookup k fs)) reference_keys)
          automation_action_unsupported r,
      checked_parameters l (lookup (codes "parameters") fs) p,
    )
