-- ===== src/Procurement/SupplierLaws.antt =====
-- When `transitionSupplier` succeeds, and what it writes.
use itcenter.Base.{
  ◌+◌, ◌≡◌, refl, ap, ◌∙◌, Bool, true, false, some, [], ◌∷◌, arith, ◌==◌, ==_refl, any, find_where,
  find_where-holds, Text,
}
use itcenter.Platform.Tx.{Tx}
use itcenter.Platform.Errors.{
  version_conflict, ok, throw_if, or_throw, bind-inv, is_safe_integer, assert_version,
}
use itcenter.Base.{find_where-update_any, find_where-narrow}
use itcenter.Procurement.SupplierStates.{
  SupplierState, prospect, approved, preferred, suspended, blocked, inactive, SupplierCommand,
  approve, mark_preferred, remove_preferred, suspend, resume, block, unblock, deactivate,
  reactivate, supplier_command_contract, is_allowed_from, assert_supplier_transition,
  command-transition,
}
use itcenter.Procurement.Suppliers.{
  Supplier, SupplierDb, is_supplier, TransitionInput, is_protected, assert_reason, check_transition,
  apply_transition, is_current, move_supplier, transition_supplier,
}

-- The state after each command.
abbrev pub outcome : SupplierCommand → SupplierState
outcome approve = approved
outcome mark_preferred = preferred
outcome remove_preferred = approved
outcome suspend = suspended
outcome resume = approved
outcome block = blocked
outcome unblock = prospect
outcome deactivate = inactive
outcome reactivate = prospect

contract-outcome : (c : SupplierCommand) → (supplier_command_contract c).to ≡ outcome c
unfolding supplier_command_contract
contract-outcome approve = refl
contract-outcome mark_preferred = refl
contract-outcome remove_preferred = refl
contract-outcome suspend = refl
contract-outcome resume = refl
contract-outcome block = refl
contract-outcome unblock = refl
contract-outcome deactivate = refl
contract-outcome reactivate = refl

module _ (lower : Text → Text) (is_word_in : Text → Text → Bool) where
  -- The same by the source's own functions.
  transition_supplier-applies :
      (tx : Tx) (i : TransitionInput) (db : SupplierDb) (s : Supplier) (c : SupplierCommand)
      → i.command ≡ some c
      → find_where (is_supplier tx.tenant_id i.supplier_id) db.suppliers ≡ some s
      → is_safe_integer i.expected_version ≡ true
      → s.version ≡ i.expected_version
      → any (is_protected lower is_word_in i.reason) (s.tax_identifier ∷ s.bank_info_reference ∷ [])
        ≡ false
      → is_allowed_from c s.state ≡ true
      → (transition_supplier lower is_word_in tx i db
          ≡ ok (apply_transition tx i s c db, move_supplier tx i c s))
        × (find_where
              (is_supplier tx.tenant_id i.supplier_id)
              ((apply_transition tx i s c db).suppliers)
            ≡ some (move_supplier tx i c s))
  unfolding transition_supplier check_transition throw_if or_throw assert_version assert_reason
      assert_supplier_transition
  transition_supplier-applies tx i db s c h1 h2 h3 h4 h5 h6 = (
    ground (arith, seen, command-transition c s.state h6),
    find_where-update_any (is_supplier tx.tenant_id i.supplier_id) (is_current tx i)
          (move_supplier tx i c) db.suppliers s (λ b. refl) h2
        ∙ ground
            (arith, find_where-holds (is_supplier tx.tenant_id i.supplier_id) db.suppliers s h2),
  )
    where
      seen : find_where (is_current tx i) db.suppliers ≡ some s
      seen =
          find_where-narrow (is_supplier tx.tenant_id i.supplier_id)
            (λ s. s.version == i.expected_version) db.suppliers s h2
            (ground (arith, ==_refl s.version))

  -- A command on a supplier that is found, at its version and by a command of the contract from its state,
  -- with a reason that gives away neither its tax number nor its bank account, succeeds. The supplier that is
  -- returned and stored is the one found in the command's state, at the next version and at the time of the change:
  -- an approval, the removal of a preference and a resumption leave it approved, a preference preferred, a
  -- suspension suspended, a block blocked, a deactivation inactive, and the end of a block and a reactivation a
  -- prospect. The history has the change at its head, with the states before and after it.
  pub transition_supplier-succeeds :
      (tx : Tx) (i : TransitionInput) (db : SupplierDb) (s : Supplier) (c : SupplierCommand)
      → i.command ≡ some c
      → find_where (is_supplier tx.tenant_id i.supplier_id) db.suppliers ≡ some s
      → is_safe_integer i.expected_version ≡ true
      → s.version ≡ i.expected_version
      → any (is_protected lower is_word_in i.reason) (s.tax_identifier ∷ s.bank_info_reference ∷ [])
        ≡ false
      → is_allowed_from c s.state ≡ true
      → (db' : SupplierDb) × (row : Supplier) × (transition_supplier lower is_word_in tx i db
          ≡ ok (db', row))
        × (row
            ≡ record s { state = outcome c; version = i.expected_version + 1; updated_at = tx.now })
        × (find_where (is_supplier tx.tenant_id i.supplier_id) db'.suppliers ≡ some row)
        × (db'.supplier_history
            ≡ record {
              tenant_id = tx.tenant_id;
              supplier_id = i.supplier_id;
              version = i.expected_version + 1;
              action = c;
              previous_state = s.state;
              new_state = outcome c;
              actor_id = i.actor_id;
              reason = i.reason;
            }
              ∷ db.supplier_history)
  transition_supplier-succeeds tx i db s c h1 h2 h3 h4 h5 h6 =
      let (e, found) = transition_supplier-applies tx i db s c h1 h2 h3 h4 h5 h6 in
      (
        apply_transition tx i s c db,
        move_supplier tx i c s,
        e,
        ap
            (λ (t : SupplierState). record s {
              state = t;
              version = i.expected_version + 1;
              updated_at = tx.now;
            })
            (contract-outcome c),
        found,
        ap
            (λ (t : SupplierState).
              record {
                tenant_id = tx.tenant_id;
                supplier_id = i.supplier_id;
                version = i.expected_version + 1;
                action = c;
                previous_state = s.state;
                new_state = t;
                actor_id = i.actor_id;
                reason = i.reason;
              }
              ∷ db.supplier_history)
            (contract-outcome c),
      )

  check_transition-guards :
      (tx : Tx) (i : TransitionInput) (db : SupplierDb) (s : Supplier) (c : SupplierCommand)
      → check_transition lower is_word_in tx i db ≡ ok (s, c)
      → (i.command ≡ some c)
        × (find_where (is_supplier tx.tenant_id i.supplier_id) db.suppliers ≡ some s)
        × (s.version ≡ i.expected_version)
        × (any
              (is_protected lower is_word_in i.reason)
              (s.tax_identifier ∷ s.bank_info_reference ∷ [])
            ≡ false)
        × (is_allowed_from c s.state ≡ true)
  unfolding check_transition throw_if or_throw assert_version assert_reason
      assert_supplier_transition
  check_transition-guards tx i db s c h =
      (ground arith, ground arith, ground arith, ground arith, ground arith)

  -- A command on a supplier succeeds only if it names a command of the contract that is allowed from the state
  -- that the supplier is in, at the version expected, with a reason that gives away neither its tax number
  -- nor its bank account; what it writes is the change of that supplier by that command.
  transition_supplier-checked :
      (tx : Tx) (i : TransitionInput) (db db' : SupplierDb) (row : Supplier)
      → transition_supplier lower is_word_in tx i db ≡ ok (db', row)
      → (s : Supplier) × (c : SupplierCommand) × (i.command ≡ some c)
        × (find_where (is_supplier tx.tenant_id i.supplier_id) db.suppliers ≡ some s)
        × (s.version ≡ i.expected_version)
        × (any
              (is_protected lower is_word_in i.reason)
              (s.tax_identifier ∷ s.bank_info_reference ∷ [])
            ≡ false)
        × (is_allowed_from c s.state ≡ true)
        × (db' ≡ apply_transition tx i s c db)
  unfolding transition_supplier
  transition_supplier-checked tx i db db' row h =
      let ((s, c), k, k') = bind-inv (check_transition lower is_word_in tx i db) _ h in
      let (row', _, k'') =
        bind-inv (or_throw (find_where (is_current tx i) db.suppliers) version_conflict) _ k' in
      let (e1, e2, e3, e4, e5) = check_transition-guards tx i db s c k in
      (s, c, e1, e2, e3, e4, e5, cc)
