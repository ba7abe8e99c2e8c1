-- ===== src/Control/Sla.antt =====
-- modules/control-plane/application/sla.ts: the service levels of objects, with their events.
use itcenter.Base.{
  ℕ, ◌+◌, ◌*◌, Bool, false, not, ◌&&◌, ◌||◌, Option, none, some, List, [], ◌∷◌, ltb, ◌==◌,
  if◌then◌else◌, any, includes, find_where, update_where, Text, is_blank, codes,
}
use itcenter.Platform.Tx.{Tx, row_is}
use itcenter.Platform.Errors.{
  not_found, business_rule_violation, internal_error, Result, ok, ◌>>=◌, ◌>>◌, throw_if, or_throw,
  assert_version,
}

pub data SlaState : Type 0 where
  running paused warning critical breached met cancelled : SlaState

abbrev pub state_code : SlaState → ℕ
state_code running = 0
state_code paused = 1
state_code warning = 2
state_code critical = 3
state_code breached = 4
state_code met = 5
state_code cancelled = 6

-- `allowed`.
unfoldable pub allowed : SlaState → List SlaState
allowed running = paused ∷ warning ∷ critical ∷ breached ∷ met ∷ cancelled ∷ []
allowed paused = running ∷ cancelled ∷ []
allowed warning = paused ∷ critical ∷ breached ∷ met ∷ cancelled ∷ []
allowed critical = paused ∷ breached ∷ met ∷ cancelled ∷ []
allowed breached = []
allowed met = []
allowed cancelled = []

-- `allowed[…]?.includes(targetState)`; `none` is a text that is no state.
unfoldable pub may_change : SlaState → Option SlaState → Bool
may_change s none = false
may_change s (some t) = includes state_code (allowed s) t

-- `$1 IN ('MET','BREACHED','CANCELLED')`.
abbrev pub completes : SlaState → Bool
completes s = includes state_code (met ∷ breached ∷ cancelled ∷ []) s

-- The rows of `control.sla_policies`, `sla_targets`, `sla_instances` and `sla_events`; the purposes of a target
-- are numbered.
pub record SlaPolicy : Type 0 where
  pub tenant_id : ℕ
  pub id : ℕ
  pub version : ℕ

pub record SlaTarget : Type 0 where
  pub tenant_id : ℕ
  pub id : ℕ
  pub sla_policy_id : ℕ
  pub duration_minutes : ℕ
  pub target_purpose : ℕ

pub record SlaInstance : Type 0 where
  pub tenant_id : ℕ
  pub id : ℕ
  pub object_type : ℕ
  pub object_id : ℕ
  pub target_id : ℕ
  pub policy_version : ℕ
  pub state : SlaState
  pub started_at : ℕ
  pub due_at : ℕ
  pub completed_at : Option ℕ
  pub version : ℕ

-- An event without a state before it is of the type START, with one STATE_CHANGED.
pub record SlaEvent : Type 0 where
  pub tenant_id : ℕ
  pub instance_id : ℕ
  pub from_state : Option SlaState
  pub to_state : SlaState
  pub reason : Text

pub record SlaDb : Type 0 where
  pub policies : List SlaPolicy
  pub targets : List SlaTarget
  pub instances : List SlaInstance
  pub events : List SlaEvent

pub record StartInput : Type 0 where
  pub object_type : ℕ
  pub object_id : ℕ
  pub target_id : ℕ
  -- In milliseconds; `none` is a text that names no time.
  pub now : Option ℕ

pub record ChangeInput : Type 0 where
  pub instance_id : ℕ
  pub expected_version : ℕ
  pub target_state : Option SlaState
  pub reason : Text

abbrev pub is_instance : ℕ → ℕ → SlaInstance → Bool
is_instance tenant id s = row_is tenant id s.tenant_id s.id

-- The target with its policy.
unfoldable pub find_target : ℕ → ℕ → SlaDb → Option (SlaTarget × SlaPolicy)
find_target tenant id db = elim (find_where (λ t. row_is tenant id t.tenant_id t.id) db.targets) [
  | none ↦ none
  | some t ↦ elim (find_where (λ p. row_is tenant t.sla_policy_id p.tenant_id p.id) db.policies) [
    | none ↦ none
    | some p ↦ some (t, p)
  ]
]

-- The last time that a `Date` has.
abbrev pub max_time : ℕ
max_time = 8640000000000000

abbrev pub due_time : SlaTarget → ℕ → ℕ
due_time t now = now + t.duration_minutes * 60000

abbrev pub new_instance : Tx → StartInput → SlaTarget → SlaPolicy → ℕ → SlaInstance
new_instance tx i t p now = record {
  tenant_id = tx.tenant_id;
  id = tx.uuid 0;
  object_type = i.object_type;
  object_id = i.object_id;
  target_id = i.target_id;
  policy_version = p.version;
  state = running;
  started_at = now;
  due_at = due_time t now;
  completed_at = none;
  version = 1;
}

-- The primary key, and one instance of an object for a target.
abbrev pub is_taken : Tx → StartInput → SlaInstance → Bool
is_taken tx i s =
    s.id == tx.uuid 0
    || (row_is tx.tenant_id i.target_id s.tenant_id s.target_id
        && row_is i.object_type i.object_id s.object_type s.object_id)

abbrev pub start_event : Tx → SlaEvent
start_event tx = record {
  tenant_id = tx.tenant_id;
  instance_id = tx.uuid 0;
  from_state = none;
  to_state = running;
  reason = codes "SLA started";
}

-- `startSla`; a time that is no time or out of bounds is a RangeError.
unfoldable pub start_sla : Tx → StartInput → SlaDb → Result (SlaDb × SlaInstance)
start_sla tx i db = do
  (t, p) ← or_throw (find_target tx.tenant_id i.target_id db) not_found
  now ← or_throw i.now internal_error
  throw_if (ltb max_time (due_time t now)) internal_error
  throw_if (any (is_taken tx i) db.instances) internal_error
  ok (
    record db {
      instances = new_instance tx i t p now ∷ db.instances;
      events = start_event tx ∷ db.events;
    },
    new_instance tx i t p now,
  )

abbrev pub change_row : Tx → ChangeInput → SlaState → SlaInstance → SlaInstance
change_row tx i t s = record s {
  state = t;
  version = i.expected_version + 1;
  completed_at = if completes t then some tx.now else s.completed_at;
}

abbrev pub change_event : Tx → ChangeInput → SlaState → SlaState → SlaEvent
change_event tx i s t = record {
  tenant_id = tx.tenant_id;
  instance_id = i.instance_id;
  from_state = some s;
  to_state = t;
  reason = i.reason;
}

-- The guards of a change, in their order.
unfoldable pub check_change : Tx → ChangeInput → SlaDb → Result (SlaInstance × SlaState)
check_change tx i db = do
  s ← or_throw (find_where (is_instance tx.tenant_id i.instance_id) db.instances) not_found
  assert_version s.version i.expected_version
  throw_if (is_blank i.reason || not (may_change s.state i.target_state)) business_rule_violation
  t ← or_throw i.target_state business_rule_violation
  ok (s, t)

-- `transitionSla`, which returns the states before and after.
unfoldable pub transition_sla : Tx → ChangeInput → SlaDb → Result (SlaDb × (SlaState × SlaState))
transition_sla tx i db = do
  (s, t) ← check_change tx i db
  ok (
    record db {
      instances =
          update_where (is_instance tx.tenant_id i.instance_id) (change_row tx i t) db.instances;
      events = change_event tx i s.state t ∷ db.events;
    },
    (s.state, t),
  )
