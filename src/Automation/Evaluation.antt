-- ===== src/Automation/Evaluation.antt =====
-- modules/automation/domain/rules.ts: the evaluation of a condition on an event and its context, with the
-- evidence that it leaves.
use itcenter.Base.{
  ℕ, Bool, false, not, Option, none, some, List, [], ◌∷◌, ◌++◌, if◌then◌else◌, length, any, every,
  Text, codes, text_eq,
}
use itcenter.Base.Json.{
  Number, Json, null, boolean, number, text, array, object, Items, nil, cons, Fields, end, field,
}
use itcenter.Automation.Patterns.{Language, lookup, has_key}
use itcenter.Automation.Conditions.{all_key, any_key, not_key}
use itcenter.Automation.Values.{Found, missing, inherited, value, read_path, compare}

-- `safeEvidence`: what is shown of a value.
pub data Shown : Type 0 where
  shown_missing shown_null shown_array shown_object shown_function shown_undefined : Shown
  shown_text : ℕ → Shown
  shown_boolean : Bool → Shown
  shown_number : Number → Shown

unfoldable pub show_json : Json → Shown
show_json null = shown_null
show_json (boolean b) = shown_boolean b
show_json (number n) = shown_number n
show_json (text t) = shown_text (length t)
show_json (array xs) = shown_array
show_json (object fs) = shown_object

unfoldable pub show_found : Found → Shown
show_found missing = shown_missing
show_found inherited = shown_function
show_found (value v) = show_json v

unfoldable pub show_expected : Option Json → Shown
show_expected none = shown_undefined
show_expected (some v) = show_json v

pub data Evidence : Type 0 where
  all_of any_of : Bool → List Bool → Evidence
  not_of : Bool → Bool → Evidence
  tested : Text → Option Json → Bool → Shown → Shown → Evidence

-- The value of a node with the evidence of its evaluation, in the order of `evidence.push`; `none` is an
-- error of the language.
abbrev pub Outcome : Type 0
Outcome = Option (Bool × List Evidence)

-- The values of the children, and their evidence.
abbrev pub Outcomes : Type 0
Outcomes = Option (List Bool × List Evidence)

unfoldable pub close_all : Outcomes → Outcome
close_all none = none
close_all (some (vs, es)) = some (every (λ v. v) vs, es ++ all_of (every (λ v. v) vs) vs ∷ [])

unfoldable pub close_any : Outcomes → Outcome
close_any none = none
close_any (some (vs, es)) = some (any (λ v. v) vs, es ++ any_of (any (λ v. v) vs) vs ∷ [])

unfoldable pub close_not : Outcome → Outcome
close_not none = none
close_not (some (v, es)) = some (not v, es ++ not_of (not v) v ∷ [])

unfoldable pub both_of : Outcome → Outcomes → Outcomes
both_of (some (v, es)) (some (vs, es')) = some (v ∷ vs, es ++ es')
both_of _ _ = none

module _ (language : Language) (event context : Json) where
  -- An operator that is no text is none of the cases.
  unfoldable pub compare_by : Option Json → Found → Option Json → Option Bool
  compare_by (some (text op)) actual expected = compare language actual op expected
  compare_by _ actual expected = some false

  unfoldable pub test_predicate : Option Json → Option Json → Option Json → Outcome
  test_predicate (some (text path)) op expected =
      let actual = read_path path event context in
      elim (compare_by op actual expected) [
        | none ↦ none
        | some m ↦ some (m, tested path op m (show_found actual) (show_expected expected) ∷ [])
      ]
  test_predicate _ op expected = none

  -- `evaluate` of `evaluateCondition`.
  unfoldable mutual
    pub evaluate : Json → Outcome
    evaluate (object fs) =
        let in_all = evaluate_at all_key fs in
        let in_any = evaluate_at any_key fs in
        let in_not = evaluate_not fs in
        if has_key all_key fs
        then close_all in_all
        else if has_key any_key fs
        then close_any in_any
        else if has_key not_key fs
        then close_not in_not
        else test_predicate (lookup (codes "path") fs) (lookup (codes "op") fs)
            (lookup (codes "value") fs)
    evaluate _ = none

    pub evaluate_at : Text → Fields → Outcomes
    evaluate_at key end = none
    evaluate_at key (field k v fs) =
        let here = evaluate_list v in
        let rest = evaluate_at key fs in if text_eq k key then here else rest

    pub evaluate_list : Json → Outcomes
    evaluate_list (array xs) = evaluate_items xs
    evaluate_list _ = none

    pub evaluate_items : Items → Outcomes
    evaluate_items nil = some ([], [])
    evaluate_items (cons v vs) = both_of (evaluate v) (evaluate_items vs)

    pub evaluate_not : Fields → Outcome
    evaluate_not end = none
    evaluate_not (field k v fs) =
        let here = evaluate v in
        let rest = evaluate_not fs in if text_eq k not_key then here else rest
