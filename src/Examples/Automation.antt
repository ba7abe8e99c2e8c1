-- ===== src/Examples/Automation.antt =====
-- A rule on the severity of an event, and the theorems of the validation applied to it.
use itcenter.Base.{
  ◌≤◌, ◌≡◌, refl, Bool, true, false, Option, none, some, List, [], length, every, is_blank, codes,
  text_eq, starts_with,
}
use itcenter.Platform.Errors.{ok, throw_if}
use Prim.Native.String.{String}
use itcenter.Base.Json.{Json, text, array, object, nil, cons, Fields, end, field}
use itcenter.Automation.Patterns.{
  Language, lookup, has_key, one_of, has_other_keys, is_some_of, is_line_end, starts_with_key,
  matches_somewhere, is_sensitive, is_sensitive_parameter, put_first, split_path,
  is_letter_or_digit, is_path_part, is_path, is_event_type,
}
use itcenter.Automation.Rules.{
  check_attributes, check_event_type, validate_trigger, check_path, check_regex, check_operator,
  check_value, check_predicate,
}
use itcenter.Automation.Values.{
  own_or_inherited, read_part, read_parts, read_path, stable, deep_equal, compare,
}
use itcenter.Platform.Secrets.{after_prefix}
use itcenter.Automation.Actions.{
  validate_rule_definition, validate_action, is_agent_restart, check_parameters,
  validate_safe_parameters, allowed_actions, reference_keys, is_one_of, is_reference,
}
use itcenter.Automation.Conditions.{validate_condition, count_nodes}
use itcenter.Automation.Evaluation.{
  Evidence, evaluate, show_json, show_found, show_expected, close_all, close_any, close_not,
  both_of, compare_by, test_predicate,
}
use itcenter.Automation.ConditionLaws.{height}
use itcenter.Automation.Acceptance.{accepted_rule_evaluates}
use itcenter.Automation.ActionLaws.{SafeParameters, accepted_action_safe}

opened : Unit {0}
unfolding lookup has_key one_of has_other_keys is_some_of is_line_end starts_with_key
    matches_somewhere is_sensitive is_sensitive_parameter put_first split_path is_letter_or_digit
    is_path_part is_path is_event_type check_attributes check_event_type validate_trigger check_path
    check_regex check_operator check_value check_predicate validate_condition count_nodes
    validate_safe_parameters is_agent_restart check_parameters validate_action
    validate_rule_definition own_or_inherited read_part read_parts read_path stable deep_equal
    compare show_json show_found show_expected close_all close_any close_not both_of compare_by
    test_predicate evaluate throw_if text_eq is_blank after_prefix starts_with
opened = tt

-- A language that writes every value as an empty text and has no expressions.
abbrev plain : Language
plain = record {
  stringify = λ v. [];
  is_regex = λ t. false;
  regex_test = λ t u. false;
  locale_before = λ t u. false;
}

abbrev words : String → Json
words s = text (codes s)

abbrev trigger : Json
trigger = object (
    field (codes "type") (words "EVENT") (field (codes "event_type") (words "INCIDENT.OPENED") end))

abbrev is_critical : Json
is_critical = object (
    field (codes "path") (words "event.severity")
      (field (codes "op") (words "equals") (field (codes "value") (words "CRITICAL") end)))

abbrev is_known : Json
is_known =
    object
      (field (codes "path") (words "context.asset_id") (field (codes "op") (words "exists") end))

-- The event is critical, and its asset is not known.
abbrev condition : Json
condition = object (
    field (codes "all")
      (array (cons is_critical (cons (object (field (codes "not") is_known end)) nil))) end)

abbrev parameters : Fields
parameters = field (codes "summary") (words "check") end

abbrev action_fields : Fields
action_fields = field (codes "target_type") (words "INCIDENT") (
    field (codes "target_id") (words "7") (
      field (codes "action_domain") (words "helpdesk") (
        field (codes "action_type") (words "CREATE_TICKET") (
          field (codes "parameters") (object parameters)
            (field (codes "exclusivity_group") (words "TRIAGE") end)))))

abbrev event : Json
event = object (field (codes "severity") (words "CRITICAL") end)

abbrev context : Json
context = object end

is_match : Option (Bool × List Evidence) → Bool
is_match (some (b, _)) = b
is_match none = false

matched : is_match (evaluate plain event context condition) ≡ true
unfolding opened is_match
matched = refl

accepted_rule :
    validate_rule_definition plain (codes "SAFE") trigger condition (object action_fields) ≡ ok tt
unfolding opened
accepted_rule = refl

accepted_action : validate_action plain (object action_fields) ≡ ok tt
unfolding opened
accepted_action = refl

accepted_rule_evaluates_example :
    (matched : Bool) × (evidence : List Evidence) × (evaluate plain event context condition
      ≡ some (matched, evidence))
    × (length evidence ≡ count_nodes condition)
    × (validate_condition plain condition 0 0 ≡ ok (count_nodes condition))
    × (count_nodes condition ≤ 100)
    × (height condition ≤ 9)
accepted_rule_evaluates_example =
    accepted_rule_evaluates plain (codes "SAFE") trigger condition (object action_fields) event
      context accepted_rule

accepted_action_safe_example :
    (is_one_of allowed_actions (lookup (codes "action_type") action_fields) ≡ true)
    × (every (λ k. is_reference (lookup k action_fields)) reference_keys ≡ true)
    × SafeParameters (lookup (codes "parameters") action_fields)
accepted_action_safe_example = accepted_action_safe plain action_fields accepted_action
