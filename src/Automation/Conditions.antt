-- ===== src/Automation/Conditions.antt =====
-- modules/automation/domain/rules.ts: the validation of a condition, and the count of its nodes.
use itcenter.Base.{
  ℕ, ◌+◌, ◌||◌, Option, none, some, ltb, ◌==◌, if◌then◌else◌, length, Text, codes, text_eq,
}
use itcenter.Platform.Errors.{Result, ok, err, ◌>>=◌, ◌>>◌}
use itcenter.Base.Json.{Json, array, object, Items, nil, cons, Fields, end, field, items, keys}
use itcenter.Automation.Patterns.{Language, has_key}
use itcenter.Automation.Rules.{check_predicate}
use itcenter.Platform.Errors.{automation_rule_invalid}

abbrev pub all_key : Text
all_key = codes "all"

abbrev pub any_key : Text
any_key = codes "any"

abbrev pub not_key : Text
not_key = codes "not"

abbrev pub max_nodes : ℕ
max_nodes = 100

abbrev pub max_depth : ℕ
max_depth = 8

-- `"all" in value ? "all" : "any"`, where one of them is.
abbrev pub compound_key : Fields → Text
compound_key fs = if has_key all_key fs then all_key else any_key

-- `validateCondition`: `count` is `state.count`, returned as it is after the call. `…_at` reads a key of an
-- object, `…_list` the children.
unfoldable mutual
  pub validate_condition : Language → Json → ℕ → ℕ → Result ℕ
  validate_condition l (object fs) depth count =
      let compound = validate_at l (compound_key fs) fs depth (count + 1) in
      let negated = validate_not l fs depth (count + 1) in
      if ltb max_nodes (count + 1) || ltb max_depth depth
      then err automation_rule_invalid
      else if has_key all_key fs || has_key any_key fs
      then (if length (keys fs) == 1 then compound else err automation_rule_invalid)
      else if has_key not_key fs
      then (if length (keys fs) == 1 then negated else err automation_rule_invalid)
      else (check_predicate l fs >> ok (count + 1))
  validate_condition l _ depth count = err automation_rule_invalid

  pub validate_at : Language → Text → Fields → ℕ → ℕ → Result ℕ
  validate_at l key end depth count = err automation_rule_invalid
  validate_at l key (field k v fs) depth count =
      let here = validate_list l v depth count in
      let rest = validate_at l key fs depth count in if text_eq k key then here else rest

  pub validate_list : Language → Json → ℕ → ℕ → Result ℕ
  validate_list l (array xs) depth count =
      let each = validate_items l xs depth count in
      if ltb (length (items xs)) 1 || ltb 32 (length (items xs))
      then err automation_rule_invalid
      else each
  validate_list l _ depth count = err automation_rule_invalid

  pub validate_items : Language → Items → ℕ → ℕ → Result ℕ
  validate_items l nil depth count = ok count
  validate_items l (cons v vs) depth count =
      validate_condition l v (depth + 1) count >>= λ c. validate_items l vs depth c

  pub validate_not : Language → Fields → ℕ → ℕ → Result ℕ
  validate_not l end depth count = err automation_rule_invalid
  validate_not l (field k v fs) depth count =
      let here = validate_condition l v (depth + 1) count in
      let rest = validate_not l fs depth count in if text_eq k not_key then here else rest

-- `countNodes`; `none` is a key whose value is no array.
unfoldable mutual
  pub count_nodes : Json → ℕ
  count_nodes (object fs) =
      let in_all = count_at all_key fs in
      let in_any = count_at any_key fs in
      let in_not = count_not fs in
      elim in_all [ some n ↦ 1 + n | none ↦ elim in_any [ some n ↦ 1 + n | none ↦ 1 + in_not ] ]
  count_nodes _ = 1

  pub count_at : Text → Fields → Option ℕ
  count_at key end = none
  count_at key (field k v fs) =
      let here = count_list v in let rest = count_at key fs in if text_eq k key then here else rest

  pub count_list : Json → Option ℕ
  count_list (array xs) = some (count_items xs)
  count_list _ = none

  pub count_items : Items → ℕ
  count_items nil = 0
  count_items (cons v vs) = count_nodes v + count_items vs

  pub count_not : Fields → ℕ
  count_not end = 0
  count_not (field k v fs) =
      let here = count_nodes v in
      let rest = count_not fs in if text_eq k not_key then here else rest
