-- ===== src/Examples/Procurement.antt =====
-- A supplier that is approved, and the theorems of suppliers at it.
use itcenter.Base.{
  starts_with, includes_text, ◌⊎◌, ◌+◌, ◌≡◌, refl, ◌↔◌, Bool, true, false, none, some, [], ◌∷◌,
  find_where, update_where, Text, is_blank, is_space, trim, trim_start,
}
use itcenter.Platform.Tx.{Tx}
use itcenter.Platform.Errors.{ok, throw_if, or_throw, assert_version}
use itcenter.Procurement.SupplierStates.{
  suspended, approved, resume, supplier_eligibility, eligible_only_by, prospect, inactive, approve,
  supplier_command_contract, is_allowed_from, may_move, supplier_transitions,
  assert_supplier_transition, Commanded, commands-transitions,
}
use itcenter.Procurement.Suppliers.{
  Supplier, SupplierDb, is_supplier, TransitionInput, is_protected, assert_reason, check_transition,
  transition_supplier,
}
use itcenter.Procurement.SupplierLaws.{transition_supplier-succeeds}

ordered : Unit {0}
unfolding supplier_eligibility supplier_command_contract is_allowed_from may_move
    supplier_transitions assert_supplier_transition starts_with includes_text is_protected
    assert_reason check_transition transition_supplier find_where update_where throw_if or_throw
    assert_version trim trim_start is_blank is_space
ordered = tt

-- Texts without capitals, and no short value.
abbrev lower : Text → Text
lower t = t

abbrev is_word_in : Text → Text → Bool
is_word_in v t = false

abbrev tx : Tx
tx = record { tenant_id = 1; now = 100; uuid = λ k. 1000 + k }

abbrev new_supplier : Supplier
new_supplier = record {
  tenant_id = 1;
  id = 5;
  state = prospect;
  tax_identifier = some (49 ∷ 50 ∷ 51 ∷ 52 ∷ 53 ∷ []);
  bank_info_reference = none;
  updated_at = 90;
  version = 1;
}

abbrev book : SupplierDb
book = record { suppliers = new_supplier ∷ []; supplier_history = [] }

abbrev approving : TransitionInput
approving = record {
  supplier_id = 5;
  expected_version = 1;
  command = some approve;
  reason = 79 ∷ 75 ∷ 79 ∷ 75 ∷ 79 ∷ [];
  actor_id = 9;
}

commands-transitions_example : (may_move prospect inactive ≡ true) ↔ Commanded prospect inactive
commands-transitions_example = commands-transitions prospect inactive

transition_supplier-succeeds_example :
    (db' : SupplierDb) × (row : Supplier) × (transition_supplier lower is_word_in tx approving book
      ≡ ok (db', row))
    × (row ≡ record new_supplier { state = approved; version = 2; updated_at = 100 })
    × (find_where (is_supplier 1 5) db'.suppliers ≡ some row)
    × (db'.supplier_history
        ≡ record {
          tenant_id = 1;
          supplier_id = 5;
          version = 2;
          action = approve;
          previous_state = prospect;
          new_state = approved;
          actor_id = 9;
          reason = approving.reason;
        }
          ∷ [])
unfolding ordered
transition_supplier-succeeds_example =
    transition_supplier-succeeds lower is_word_in tx approving book new_supplier approve refl refl
      refl refl refl refl

eligible_only_by_example :
    ((supplier_eligibility suspended).po_issue ≡ true)
    ⊎ (((resume ≡ approve) × (suspended ≡ prospect))
        ⊎ ((resume ≡ resume) × (suspended ≡ suspended)))
unfolding ordered
eligible_only_by_example = eligible_only_by resume suspended refl refl
