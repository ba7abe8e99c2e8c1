-- ===== src/Automation/Rules.antt =====
-- modules/automation/domain/rules.ts: the validation of a rule's trigger and condition.
use itcenter.Base.{
  ℕ, Bool, true, false, not, ◌&&◌, ◌||◌, Option, none, some, List, [], ◌∷◌, map, ltb, leb,
  if◌then◌else◌, length, any, Text, codes, text_eq, starts_with,
}
use itcenter.Platform.Errors.{Result, ok, err, ◌>>=◌, ◌>>◌, throw_if}
use itcenter.Base.Json.{
  Number, finite, Json, boolean, number, text, array, object, Fields, items, keys,
}
use itcenter.Automation.Patterns.{
  Language, lookup, one_of, has_other_keys, is_sensitive, split_path, is_path, forbidden_keys,
  is_event_type, is_safe_regex,
}
use itcenter.Platform.Errors.{automation_rule_invalid}

abbrev pub is_finite : Number → Bool
is_finite (finite n) = true
is_finite _ = false

abbrev pub safety_levels : List Text
safety_levels =
    map codes ("SAFE" ∷ "LOW_RISK" ∷ "CONTROLLED" ∷ "HIGH_RISK" ∷ "PROHIBITED_AUTO" ∷ [])

abbrev pub allowed_operators : List Text
allowed_operators = map codes (
    "equals" ∷ "not_equals" ∷ "contains" ∷ "in" ∷ "not_in" ∷ "exists" ∷ "greater_than"
    ∷ "greater_than_or_equal" ∷ "less_than" ∷ "less_than_or_equal" ∷ "matches_regex" ∷ [])

abbrev pub comparisons : List Text
comparisons =
    map codes ("greater_than" ∷ "greater_than_or_equal" ∷ "less_than" ∷ "less_than_or_equal" ∷ [])

abbrev pub is_text : Option Json → Bool
is_text (some (text t)) = true
is_text _ = false

abbrev pub is_absent : Option Json → Bool
is_absent none = true
is_absent (some v) = false

abbrev pub is_finite_number : Option Json → Bool
is_finite_number (some (number n)) = is_finite n
is_finite_number _ = false

abbrev pub is_list_of_at_most : ℕ → Option Json → Bool
is_list_of_at_most n (some (array xs)) = leb (length (items xs)) n
is_list_of_at_most n _ = false

-- The value of `exists`, absent or a truth value.
abbrev pub is_absent_or_boolean : Option Json → Bool
is_absent_or_boolean none = true
is_absent_or_boolean (some (boolean b)) = true
is_absent_or_boolean _ = false

abbrev pub trigger_attributes_size : ℕ
trigger_attributes_size = 4096

module _ (language : Language) where
  -- The attributes of a trigger.
  unfoldable pub check_attributes : Option Json → Result (Unit {0})
  check_attributes none = ok tt
  check_attributes (some (object fs)) = do
    throw_if (ltb trigger_attributes_size (length (language.stringify (object fs))))
        automation_rule_invalid
    throw_if (any is_sensitive (keys fs)) automation_rule_invalid
  check_attributes (some _) = err automation_rule_invalid

  unfoldable pub check_event_type : Option Json → Result (Unit {0})
  check_event_type (some (text t)) = do
    throw_if (not (is_event_type t)) automation_rule_invalid
    throw_if (starts_with (codes "AUTOMATION.") t) automation_rule_invalid
  check_event_type _ = err automation_rule_invalid

  abbrev pub is_event : Option Json → Bool
  is_event (some (text t)) = text_eq t (codes "EVENT")
  is_event _ = false

  unfoldable pub validate_trigger : Json → Result (Unit {0})
  validate_trigger (object fs) = do
    throw_if (not (is_event (lookup (codes "type") fs))) automation_rule_invalid
    check_event_type (lookup (codes "event_type") fs)
    throw_if (has_other_keys (map codes ("type" ∷ "event_type" ∷ "attributes" ∷ [])) fs)
        automation_rule_invalid
    check_attributes (lookup (codes "attributes") fs)
  validate_trigger _ = err automation_rule_invalid

  -- The path, the operator and the value of a predicate.
  unfoldable pub check_path : Option Json → Result (Unit {0})
  check_path (some (text t)) = do
    throw_if (ltb 256 (length t) || not (is_path t) || any (one_of forbidden_keys) (split_path t))
        automation_rule_invalid
    throw_if (any is_sensitive (split_path t)) automation_rule_invalid
  check_path _ = err automation_rule_invalid

  unfoldable pub check_regex : Option Json → Result (Unit {0})
  check_regex (some (text t)) = do
    throw_if (ltb 128 (length t) || not (is_safe_regex t)) automation_rule_invalid
    throw_if (not (language.is_regex t)) automation_rule_invalid
  check_regex _ = err automation_rule_invalid

  unfoldable pub check_operator : Option Json → Result Text
  check_operator (some (text op)) = do
    throw_if (not (one_of allowed_operators op)) automation_rule_invalid
    ok op
  check_operator _ = err automation_rule_invalid

  -- The checks of the value that an operator compares with.
  unfoldable pub check_value : Text → Option Json → Result (Unit {0})
  check_value op value = do
    throw_if (not (text_eq op (codes "exists")) && is_absent value) automation_rule_invalid
    throw_if (text_eq op (codes "exists") && not (is_absent_or_boolean value))
        automation_rule_invalid
    throw_if (one_of comparisons op && not (is_finite_number value)) automation_rule_invalid
    throw_if (one_of (map codes ("in" ∷ "not_in" ∷ [])) op && not (is_list_of_at_most 50 value))
        automation_rule_invalid
    if text_eq op (codes "matches_regex") then check_regex value else ok tt

  unfoldable pub check_predicate : Fields → Result (Unit {0})
  check_predicate fs = do
    check_path (lookup (codes "path") fs)
    op ← check_operator (lookup (codes "op") fs)
    throw_if (has_other_keys (map codes ("path" ∷ "op" ∷ "value" ∷ [])) fs) automation_rule_invalid
    check_value op (lookup (codes "value") fs)
