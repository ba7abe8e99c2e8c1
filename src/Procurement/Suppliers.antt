-- ===== src/Procurement/Suppliers.antt =====
-- modules/procurement/application/suppliers.ts: `transitionSupplier`.
use itcenter.Base.{
  includes_text, ℕ, ◌+◌, Bool, false, not, ◌&&◌, Option, none, some, List, [], ◌∷◌, leb, ◌==◌,
  if◌then◌else◌, length, any, find_where, update_where, Text, is_blank, trim,
}
use itcenter.Platform.Tx.{Tx, row_is}
use itcenter.Platform.Errors.{
  validation_error, not_found, version_conflict, business_rule_violation, Result, ok, ◌>>=◌, ◌>>◌,
  throw_if, or_throw, assert_version,
}
use itcenter.Procurement.SupplierStates.{
  SupplierState, SupplierCommand, supplier_command_contract, is_allowed_from,
  assert_supplier_transition,
}

pub record Supplier : Type 0 where
  pub tenant_id : ℕ
  pub id : ℕ
  pub state : SupplierState
  pub tax_identifier : Option Text
  pub bank_info_reference : Option Text
  pub updated_at : ℕ
  pub version : ℕ

-- A row of the history, without the snapshots of the supplier.
pub record SupplierHistory : Type 0 where
  pub tenant_id : ℕ
  pub supplier_id : ℕ
  pub version : ℕ
  pub action : SupplierCommand
  pub previous_state : SupplierState
  pub new_state : SupplierState
  pub actor_id : ℕ
  pub reason : Text

pub record SupplierDb : Type 0 where
  pub suppliers : List Supplier
  pub supplier_history : List SupplierHistory

abbrev pub is_supplier : ℕ → ℕ → Supplier → Bool
is_supplier tenant id s = row_is tenant id s.tenant_id s.id

pub record TransitionInput : Type 0 where
  pub supplier_id : ℕ
  pub expected_version : ℕ
  -- `none` is a text that names no command.
  pub command : Option SupplierCommand
  pub reason : Text
  pub actor_id : ℕ

abbrev pub is_current : Tx → TransitionInput → Supplier → Bool
is_current tx i s = is_supplier tx.tenant_id i.supplier_id s && s.version == i.expected_version

abbrev pub move_supplier : Tx → TransitionInput → SupplierCommand → Supplier → Supplier
move_supplier tx i c s = record s {
  state = (supplier_command_contract c).to;
  version = i.expected_version + 1;
  updated_at = tx.now;
}

-- The tables after the change of a supplier that was in the state `s`.
abbrev pub apply_transition :
    Tx → TransitionInput → Supplier → SupplierCommand → SupplierDb → SupplierDb
apply_transition tx i s c db = record {
  suppliers = update_where (is_current tx i) (move_supplier tx i c) db.suppliers;
  supplier_history =
      record {
        tenant_id = tx.tenant_id;
        supplier_id = i.supplier_id;
        version = i.expected_version + 1;
        action = c;
        previous_state = s.state;
        new_state = (supplier_command_contract c).to;
        actor_id = i.actor_id;
        reason = i.reason;
      }
      ∷ db.supplier_history;
}

-- What the language gives: `toLocaleLowerCase`, and the test of the expression that finds a value as a
-- word of its own in a text.
module _ (lower : Text → Text) (is_word_in : Text → Text → Bool) where
  unfoldable pub is_protected : Text → Option Text → Bool
  is_protected reason none = false
  is_protected reason (some v) =
      not (is_blank v)
      && (let value = lower (trim v) in
          if leb 4 (length value)
          then includes_text value (lower reason)
          else is_word_in value reason)

  -- `assertReasonExcludesProtectedValues`.
  unfoldable pub assert_reason : Text → List (Option Text) → Result (Unit {0})
  assert_reason reason values = throw_if (any (is_protected reason) values) validation_error

  unfoldable pub check_transition :
      Tx → TransitionInput → SupplierDb → Result (Supplier × SupplierCommand)
  check_transition tx i db = do
    c ← or_throw i.command validation_error
    s ← or_throw (find_where (is_supplier tx.tenant_id i.supplier_id) db.suppliers) not_found
    assert_version s.version i.expected_version
    assert_reason i.reason (s.tax_identifier ∷ s.bank_info_reference ∷ [])
    throw_if (not (is_allowed_from c s.state)) business_rule_violation
    assert_supplier_transition s.state ((supplier_command_contract c).to)
    ok (s, c)

  unfoldable pub transition_supplier :
      Tx → TransitionInput → SupplierDb → Result (SupplierDb × Supplier)
  transition_supplier tx i db = do
    (s, c) ← check_transition tx i db
    row ← or_throw (find_where (is_current tx i) db.suppliers) version_conflict
    ok (apply_transition tx i s c db, move_supplier tx i c row)
