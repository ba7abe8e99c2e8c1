-- ===== src/Automation/ConditionLaws.antt =====
-- What the validation of a condition ensures.
use itcenter.Base.{
  ℕ, ◌+◌, max, ◌≡◌, refl, ◌≢◌, inl, inr, not, Option, none, some, [], ◌∷◌, map, arith,
  if◌then◌else◌, Option-cases, length, any, every, length-append, Text, codes, text_eq,
}
use itcenter.Platform.Errors.{ok, throw_if, bind-inv}
use itcenter.Base.Json.{Json, text, array, object, Items, nil, cons, Fields, end, field}
use itcenter.Automation.Patterns.{Language, lookup}
use itcenter.Automation.Rules.{
  check_predicate, check_path, check_operator, check_value, check_regex,
}
use itcenter.Platform.Errors.{>>-inv, automation_rule_invalid}
use itcenter.Automation.Patterns.{has_other_keys}
use itcenter.Automation.Conditions.{all_key, any_key, not_key}
use itcenter.Automation.Values.{Found, read_path, compare, regex_matches}
use itcenter.Automation.Evaluation.{
  Outcome, Outcomes, all_of, any_of, not_of, close_all, close_any, close_not, both_of, compare_by,
  test_predicate,
}

-- The checks of a predicate, read back from their success.
check_path-text :
    (l : Language) (o : Option Json) → check_path l o ≡ ok tt → (t : Text) × (o ≡ some (text t))
unfolding check_path
check_path-text l (some (text t)) h = (t, refl)
check_path-text l _ h = cc

check_operator-text :
    (l : Language) (o : Option Json) (op : Text) → check_operator l o ≡ ok op → o ≡ some (text op)
unfolding check_operator throw_if
check_operator-text l (some (text t)) op h = ground arith
check_operator-text l _ op h = cc

check_regex-matches :
    (l : Language) (found : Found) (v : Option Json)
    → check_regex l v ≡ ok tt
    → regex_matches l found v ≢ none
unfolding check_regex regex_matches throw_if
check_regex-matches l (Found.value (text t)) (some (text u)) h k = ground arith
check_regex-matches l _ (some (text u)) h k = cc
check_regex-matches l found _ h k = cc

check_value-compare :
    (l : Language) (found : Found) (op : Text) (v : Option Json)
    → check_value l op v ≡ ok tt
    → compare l found op v ≢ none
unfolding check_value compare throw_if
check_value-compare l found op v h k = ground (arith, check_regex-matches l found v)

module _ (l : Language) (event context : Json) where
  -- A node was evaluated, and left as much evidence as it has nodes.
  abbrev pub Done : Outcome → ℕ → Type 0
  Done none n = ⊥
  Done (some (v, es)) n = length es ≡ n

  abbrev pub AllDone : Outcomes → ℕ → Type 0
  AllDone none n = ⊥
  AllDone (some (vs, es)) n = length es ≡ n

  pub check_predicate-Done :
      (fs : Fields)
      → check_predicate l fs ≡ ok tt
      → Done
          (test_predicate l event context
            (lookup (codes "path") fs)
            (lookup (codes "op") fs)
            (lookup (codes "value") fs))
          1
  unfolding check_predicate test_predicate compare_by
  check_predicate-Done fs h =
      let (p, h1) = >>-inv (check_path l (lookup (codes "path") fs)) _ h in
      let (op, o, h2) = bind-inv (check_operator l (lookup (codes "op") fs)) _ h1 in
      let (_, h3) =
        >>-inv
          (throw_if (has_other_keys (map codes ("path" ∷ "op" ∷ "value" ∷ [])) fs)
            automation_rule_invalid)
          _ h2 in
      let (t, k) = check_path-text l _ p in
      rw (k, check_operator-text l _ op o) (tested_some t op (lookup (codes "value") fs) h3)
    where
      tested_some :
          (t op : Text) (v : Option Json)
          → check_value l op v ≡ ok tt
          → Done (test_predicate l event context (some (text t)) (some (text op)) v) 1
      tested_some t op v h = elim (Option-cases (compare l (read_path t event context) op v)) [
        | inl e ↦ absurd (check_value-compare l (read_path t event context) op v h e)
        | inr (m, e) ↦ rw (e, Done) refl
      ]

  pub close_all-Done : (o : Outcomes) (n : ℕ) → AllDone o n → Done (close_all o) (1 + n)
  unfolding close_all
  close_all-Done none n h = elim h [ ]
  close_all-Done (some (vs, es)) n h =
      omega (arith, length-append es (all_of (every (λ v. v) vs) vs ∷ []), h)

  pub close_any-Done : (o : Outcomes) (n : ℕ) → AllDone o n → Done (close_any o) (1 + n)
  unfolding close_any
  close_any-Done none n h = elim h [ ]
  close_any-Done (some (vs, es)) n h =
      omega (arith, length-append es (any_of (any (λ v. v) vs) vs ∷ []), h)

  pub close_not-Done : (o : Outcome) (n : ℕ) → Done o n → Done (close_not o) (1 + n)
  unfolding close_not
  close_not-Done none n h = elim h [ ]
  close_not-Done (some (v, es)) n h = omega (arith, length-append es (not_of (not v) v ∷ []), h)

  pub both_of-AllDone :
      (o : Outcome) (os : Outcomes) (n m : ℕ)
      → Done o n
      → AllDone os m
      → AllDone (both_of o os) (n + m)
  unfolding both_of
  both_of-AllDone (some (v, es)) (some (vs, es')) n m h k =
      omega (arith, length-append es es', h, k)
  both_of-AllDone none os n m h k = elim h [ ]
  both_of-AllDone (some o) none n m h k = elim k [ ]

-- The levels of a condition.
unfoldable mutual
  pub height : Json → ℕ
  height (object fs) = 1 + max (max (height_at all_key fs) (height_at any_key fs)) (height_not fs)
  height _ = 1

  pub height_at : Text → Fields → ℕ
  height_at key end = 0
  height_at key (field k v fs) =
      let here = height_list v in
      let rest = height_at key fs in if text_eq k key then here else rest

  pub height_list : Json → ℕ
  height_list (array xs) = height_items xs
  height_list _ = 0

  pub height_items : Items → ℕ
  height_items nil = 0
  height_items (cons v vs) = max (height v) (height_items vs)

  pub height_not : Fields → ℕ
  height_not end = 0
  height_not (field k v fs) =
      let here = height v in let rest = height_not fs in if text_eq k not_key then here else rest
