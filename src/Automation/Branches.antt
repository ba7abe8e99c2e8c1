-- ===== src/Automation/Branches.antt =====
-- The branches of an object that is accepted.
use itcenter.Base.{
  ℕ, ◌+◌, ◌≤◌, ◌≡◌, inl, inr, true, false, ◌||◌, arith, ◌==◌, if◌then◌else◌, Bool-cases, length,
  Text,
}
use itcenter.Platform.Errors.{ok, err, ◌>>◌}
use itcenter.Base.Json.{Json, object, Fields, keys}
use itcenter.Automation.Patterns.{Language, has_key}
use itcenter.Automation.Rules.{check_predicate}
use itcenter.Automation.Conditions.{
  all_key, any_key, not_key, max_nodes, max_depth, compound_key, validate_condition, validate_at,
  validate_not,
}
use itcenter.Platform.Errors.{>>-inv, automation_rule_invalid}
use itcenter.Automation.Accepted.{
  Accepted, AcceptedAt, AcceptedNot, all-Accepted, any-Accepted, not-Accepted, predicate-Accepted,
}

module _ (l : Language) (event context : Json) where
  -- The branch of an accepted object.
  module _ (fs : Fields) (depth count n : ℕ)
      (h : validate_condition l (object fs) depth count ≡ ok n) where
    in_bounds : (count + 1 ≤ max_nodes) × (depth ≤ max_depth)
    unfolding validate_condition
    in_bounds = ground arith

    branches :
        (if has_key all_key fs || has_key any_key fs
          then (if length (keys fs) == 1
              then validate_at l (compound_key fs) fs depth (count + 1)
              else err automation_rule_invalid)
          else if has_key not_key fs
          then (if length (keys fs) == 1
              then validate_not l fs depth (count + 1)
              else err automation_rule_invalid)
          else (check_predicate l fs >> ok (count + 1)))
        ≡ ok n
    unfolding validate_condition
    branches = ground (arith, in_bounds)

    all_branch :
        has_key all_key fs ≡ true
        → (length (keys fs) ≡ 1) × (validate_at l all_key fs depth (count + 1) ≡ ok n)
    all_branch a = ground (arith, branches)

    any_branch :
        has_key all_key fs ≡ false
        → has_key any_key fs ≡ true
        → (length (keys fs) ≡ 1) × (validate_at l any_key fs depth (count + 1) ≡ ok n)
    any_branch a b = ground (arith, branches)

    not_branch :
        has_key all_key fs ≡ false
        → has_key any_key fs ≡ false
        → has_key not_key fs ≡ true
        → validate_not l fs depth (count + 1) ≡ ok n
    not_branch a b c = ground (arith, branches)

    predicate_branch :
        has_key all_key fs ≡ false
        → has_key any_key fs ≡ false
        → has_key not_key fs ≡ false
        → (check_predicate l fs >> ok (count + 1)) ≡ ok n
    predicate_branch a b c = ground (arith, branches)

  -- A node, from what holds of the lists and of the node that its keys may hold.
  pub object-Accepted :
      (fs : Fields) (depth count n : ℕ)
      → validate_condition l (object fs) depth count ≡ ok n
      → ((key : Text)
          → validate_at l key fs depth (count + 1) ≡ ok n
          → AcceptedAt l event context key fs depth (count + 1) n)
      → (validate_not l fs depth (count + 1) ≡ ok n
          → AcceptedNot l event context fs depth (count + 1) n)
      → Accepted l event context (object fs) depth count n
  object-Accepted fs depth count n h at_key at_not = elim (Bool-cases (has_key all_key fs)) [
    | inl a ↦
        let (one, k) = all_branch fs depth count n h a in
        all-Accepted l event context fs depth count n a one (at_key all_key k)
    | inr a ↦ elim (Bool-cases (has_key any_key fs)) [
      | inl b ↦
          let (one, k) = any_branch fs depth count n h a b in
          any-Accepted l event context fs depth count n a b one (at_key any_key k)
      | inr b ↦ elim (Bool-cases (has_key not_key fs)) [
        | inl c ↦
            not-Accepted l event context fs depth count n a b c
              (at_not (not_branch fs depth count n h a b c))
        | inr c ↦
            let (p, k) =
              >>-inv (check_predicate l fs) _ (predicate_branch fs depth count n h a b c) in
            let (few, flat) = in_bounds fs depth count n h in
            let counted : n ≡ count + 1 = ground arith in
            predicate-Accepted l event context fs depth count n a b c flat counted (omega arith) p
      ]
    ]
  ]
