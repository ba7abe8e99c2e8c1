-- ===== src/Automation/Actions.antt =====
-- modules/automation/domain/rules.ts: the validation of an action and of a whole rule.
use itcenter.Base.{
  ℕ, ◌+◌, Bool, true, false, not, ◌&&◌, ◌||◌, Option, none, some, List, [], ◌∷◌, ◌++◌, map, ltb,
  leb, length, every, Text, is_blank, codes, text_eq,
}
use itcenter.Platform.Errors.{Result, ok, err, ◌>>=◌, ◌>>◌, throw_if}
use itcenter.Base.Json.{
  Json, null, boolean, number, text, array, object, Items, nil, cons, Fields, end, field, items,
}
use itcenter.Automation.Patterns.{Language, lookup, one_of, has_other_keys, is_sensitive_parameter}
use itcenter.Automation.Rules.{is_finite, is_text, is_absent, safety_levels, validate_trigger}
use itcenter.Automation.Conditions.{max_nodes, validate_condition, count_nodes}
use itcenter.Platform.Errors.{automation_rule_invalid, automation_action_unsupported}

abbrev pub allowed_actions : List Text
allowed_actions = map codes (
    "UPDATE_FIELD" ∷ "CREATE_RECORD" ∷ "LINK_RECORD" ∷ "SEND_NOTIFICATION" ∷ "CREATE_TICKET"
    ∷ "CREATE_INCIDENT" ∷ "CREATE_APPROVAL" ∷ "ASSIGN_TEAM" ∷ "START_WORKFLOW" ∷ "PAUSE_WORKFLOW"
    ∷ "RESTART_AGENT" ∷ [])

abbrev pub mutating_actions : List Text
mutating_actions =
    map codes ("UPDATE_FIELD" ∷ "LINK_RECORD" ∷ "ASSIGN_TEAM" ∷ "PAUSE_WORKFLOW" ∷ [])

abbrev pub reference_keys : List Text
reference_keys =
    map codes
      ("target_type" ∷ "target_id" ∷ "action_domain" ∷ "action_type" ∷ "exclusivity_group" ∷ [])

abbrev pub max_parameter_depth : ℕ
max_parameter_depth = 6

-- `validateSafeParameters`.
unfoldable mutual
  pub validate_safe_parameters : Json → ℕ → Result (Unit {0})
  validate_safe_parameters (array xs) depth = do
    throw_if (ltb max_parameter_depth depth) automation_action_unsupported
    throw_if (ltb 100 (length (items xs))) automation_action_unsupported
    validate_safe_items xs depth
  validate_safe_parameters (object fs) depth = do
    throw_if (ltb max_parameter_depth depth) automation_action_unsupported
    validate_safe_fields fs depth
  validate_safe_parameters (text t) depth =
      throw_if (ltb max_parameter_depth depth || ltb 2048 (length t)) automation_action_unsupported
  validate_safe_parameters (number n) depth =
      throw_if (ltb max_parameter_depth depth || not (is_finite n)) automation_action_unsupported
  validate_safe_parameters (boolean b) depth =
      throw_if (ltb max_parameter_depth depth) automation_action_unsupported
  validate_safe_parameters null depth =
      throw_if (ltb max_parameter_depth depth) automation_action_unsupported

  pub validate_safe_items : Items → ℕ → Result (Unit {0})
  validate_safe_items nil depth = ok tt
  validate_safe_items (cons v vs) depth =
      validate_safe_parameters v (depth + 1) >> validate_safe_items vs depth

  pub validate_safe_fields : Fields → ℕ → Result (Unit {0})
  validate_safe_fields end depth = ok tt
  validate_safe_fields (field k v fs) depth =
      throw_if (is_sensitive_parameter k) automation_action_unsupported
      >> (validate_safe_parameters v (depth + 1) >> validate_safe_fields fs depth)

-- A reference of an action: a text that is not blank, of 128 units at most.
abbrev pub is_reference : Option Json → Bool
is_reference (some (text t)) = not (is_blank t) && leb (length t) 128
is_reference _ = false

abbrev pub is_the_text : Text → Option Json → Bool
is_the_text u (some (text t)) = text_eq t u
is_the_text u _ = false

-- The value of a key is one of the texts.
abbrev pub is_one_of : List Text → Option Json → Bool
is_one_of ts (some (text t)) = one_of ts t
is_one_of ts _ = false

abbrev pub is_no_long_text : Option Json → Bool
is_no_long_text none = true
is_no_long_text (some (text t)) = leb (length t) 128
is_no_long_text _ = false

-- The parameters of a restart are an empty object.
abbrev pub is_empty_object : Option Json → Bool
is_empty_object (some (object end)) = true
is_empty_object _ = false

-- The registered schema of RESTART_AGENT.
unfoldable pub is_agent_restart : Fields → Bool
is_agent_restart fs =
    is_the_text (codes "AGENT") (lookup (codes "target_type") fs)
    && is_the_text (codes "agent") (lookup (codes "action_domain") fs)
    && is_the_text (codes "AGENT_SERVICE_CONTROL") (lookup (codes "exclusivity_group") fs)
    && is_empty_object (lookup (codes "parameters") fs)
    && is_absent (lookup (codes "desired_state") fs)

module _ (language : Language) where
  unfoldable pub check_parameters : Option Json → Result (Unit {0})
  check_parameters (some (object fs)) = do
    throw_if (ltb 8192 (length (language.stringify (object fs)))) automation_action_unsupported
    validate_safe_parameters (object fs) 0
  check_parameters _ = err automation_action_unsupported

  unfoldable pub validate_action : Json → Result (Unit {0})
  validate_action (object fs) = do
    throw_if (has_other_keys (reference_keys ++ map codes ("parameters" ∷ "desired_state" ∷ [])) fs)
        automation_action_unsupported
    throw_if (not (every (λ k. is_reference (lookup k fs)) reference_keys))
        automation_action_unsupported
    let action_type = lookup (codes "action_type") fs
    throw_if (not (is_one_of allowed_actions action_type)) automation_action_unsupported
    check_parameters (lookup (codes "parameters") fs)
    throw_if (is_the_text (codes "RESTART_AGENT") action_type && not (is_agent_restart fs))
        automation_action_unsupported
    throw_if (not (is_no_long_text (lookup (codes "desired_state") fs)))
        automation_action_unsupported
    throw_if
        (is_one_of mutating_actions action_type
          && not (is_text (lookup (codes "desired_state") fs)))
        automation_action_unsupported
  validate_action _ = err automation_action_unsupported

  unfoldable pub validate_rule_definition : Text → Json → Json → Json → Result (Unit {0})
  validate_rule_definition safety_level trigger condition action = do
    throw_if (not (one_of safety_levels safety_level)) automation_rule_invalid
    validate_trigger language trigger
    count ← validate_condition language condition 0 0
    throw_if (ltb max_nodes (count_nodes condition)) automation_rule_invalid
    validate_action action
