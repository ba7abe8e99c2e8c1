-- ===== src/Maintenance/Orders.antt =====
-- modules/maintenance/application/maintenance.ts: maintenance orders.
use itcenter.Base.{
  ℕ, ◌+◌, Bool, true, false, not, ◌||◌, Option, none, some, List, [], ◌∷◌, ◌==◌, if◌then◌else◌,
  includes, find_where, update_where, Text, is_blank,
}
use itcenter.Platform.Tx.{Tx, row_is}
use itcenter.Platform.Errors.{
  validation_error, not_found, business_rule_violation, internal_error, Result, ok, ◌>>=◌, ◌>>◌,
  throw_if, or_throw, assert_version,
}
use itcenter.Platform.Index.{insert_unique}

-- `opened` is `OPEN`.
pub data OrderState : Type 0 where
  draft opened diagnosing waiting_approval waiting_part waiting_vendor : OrderState
  in_repair verifying completed cancelled failed : OrderState

abbrev pub state_code : OrderState → ℕ
state_code draft = 0
state_code opened = 1
state_code diagnosing = 2
state_code waiting_approval = 3
state_code waiting_part = 4
state_code waiting_vendor = 5
state_code in_repair = 6
state_code verifying = 7
state_code completed = 8
state_code cancelled = 9
state_code failed = 10

unfoldable pub transitions : OrderState → List OrderState
transitions draft = opened ∷ cancelled ∷ []
transitions opened = diagnosing ∷ cancelled ∷ []
transitions diagnosing = waiting_approval ∷ waiting_part ∷ waiting_vendor ∷ in_repair ∷ []
transitions waiting_approval = in_repair ∷ cancelled ∷ []
transitions waiting_part = in_repair ∷ cancelled ∷ []
transitions waiting_vendor = in_repair ∷ cancelled ∷ []
transitions in_repair = verifying ∷ failed ∷ []
transitions verifying = completed ∷ failed ∷ []
transitions completed = []
transitions cancelled = []
transitions failed = []

-- `transitions[from]?.includes(to)`; `none` is a text that names no state.
unfoldable pub may_move : OrderState → Option OrderState → Bool
may_move from none = false
may_move from (some to) = includes state_code (transitions from) to

-- `maintenanceClassifications`; `none` is a text that is none of them.
pub data Classification : Type 0 where
  corrective preventive inspection other unknown : Classification

abbrev pub classification_code : Classification → ℕ
classification_code corrective = 0
classification_code preventive = 1
classification_code inspection = 2
classification_code other = 3
classification_code unknown = 4

unfoldable pub is_explicit : Option Classification → Bool
is_explicit none = false
is_explicit (some unknown) = false
is_explicit (some _) = true

pub record Order : Type 0 where
  pub tenant_id : ℕ
  pub id : ℕ
  pub asset_id : ℕ
  pub title : Text
  pub description : Text
  pub classification : Option Classification
  pub warranty_id : Option ℕ
  pub state : OrderState
  pub completed_at : Option ℕ
  pub updated_at : ℕ
  pub version : ℕ

abbrev pub is_order : ℕ → ℕ → Order → Bool
is_order tenant id o = row_is tenant id o.tenant_id o.id

pub record CreateInput : Type 0 where
  pub asset_id : ℕ
  pub title : Text
  pub description : Text
  pub classification : Option Classification
  pub warranty_id : Option ℕ

-- The table has one row for each id, its primary key.
unfoldable pub create_maintenance : Tx → CreateInput → List Order → Result (List Order × Order)
create_maintenance tx i orders = do
  throw_if (is_blank i.title || is_blank i.description) validation_error
  throw_if (not (is_explicit i.classification)) validation_error
  let row : Order = record {
    tenant_id = tx.tenant_id;
    id = tx.uuid 0;
    asset_id = i.asset_id;
    title = i.title;
    description = i.description;
    classification = i.classification;
    warranty_id = i.warranty_id;
    state = draft;
    completed_at = none;
    updated_at = tx.now;
    version = 1;
  }
  rows ← insert_unique (λ o. o.id == tx.uuid 0) internal_error row orders
  ok (rows, row)

pub record ClassifyInput : Type 0 where
  pub id : ℕ
  pub expected_version : ℕ
  pub classification : Classification
  pub reason : Text

pub record Classified : Type 0 where
  pub version : ℕ
  pub no_op : Bool

unfoldable pub is_terminal : OrderState → Bool
is_terminal completed = true
is_terminal cancelled = true
is_terminal failed = true
is_terminal _ = false

unfoldable pub is_classified : Option Classification → Classification → Bool
is_classified none c = false
is_classified (some c) c' = classification_code c == classification_code c'

abbrev pub classify_row : Tx → ClassifyInput → Order → Order
classify_row tx i o = record o {
  classification = some i.classification;
  version = i.expected_version + 1;
  updated_at = tx.now;
}

unfoldable pub update_maintenance_classification :
    Tx → ClassifyInput → List Order → Result (List Order × Classified)
update_maintenance_classification tx i orders = do
  o ← or_throw (find_where (is_order tx.tenant_id i.id) orders) not_found
  assert_version o.version i.expected_version
  throw_if (is_blank i.reason || is_terminal o.state) business_rule_violation
  ok (
      if is_classified o.classification i.classification
      then (orders, record { version = i.expected_version; no_op = true })
      else (
        update_where (is_order tx.tenant_id i.id) (classify_row tx i) orders,
        record { version = i.expected_version + 1; no_op = false },
      ))

pub record MoveInput : Type 0 where
  pub id : ℕ
  pub expected_version : ℕ
  pub target_state : Option OrderState
  pub reason : Text

abbrev pub is_completed : OrderState → Bool
is_completed completed = true
is_completed _ = false

abbrev pub move_order : Tx → MoveInput → OrderState → Order → Order
move_order tx i s o = record o {
  state = s;
  version = i.expected_version + 1;
  completed_at = if is_completed s then some tx.now else o.completed_at;
  updated_at = tx.now;
}

unfoldable pub check_move : Tx → MoveInput → List Order → Result (Order × OrderState)
check_move tx i orders = do
  o ← or_throw (find_where (is_order tx.tenant_id i.id) orders) not_found
  assert_version o.version i.expected_version
  throw_if (is_blank i.reason || not (may_move o.state i.target_state)) business_rule_violation
  s ← or_throw i.target_state business_rule_violation
  ok (o, s)

unfoldable pub transition_maintenance :
    Tx → MoveInput → List Order → Result (List Order × (OrderState × OrderState))
transition_maintenance tx i orders = do
  (o, s) ← check_move tx i orders
  ok (update_where (is_order tx.tenant_id i.id) (move_order tx i s) orders, (o.state, s))
