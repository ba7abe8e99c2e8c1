-- ===== src/Procurement/SupplierStates.antt =====
-- modules/procurement/domain/supplier.ts: the states of a supplier and the commands that change them.
use itcenter.Base.{
  ℕ, ◌≡◌, refl, subst, ◌↔◌, ◌⊎◌, inl, inr, Bool, true, not, List, [], ◌∷◌, includes,
}
use itcenter.Platform.Errors.{business_rule_violation, Result, throw_if}

pub data SupplierState : Type 0 where
  prospect approved preferred suspended blocked inactive : SupplierState

abbrev pub state_code : SupplierState → ℕ
state_code prospect = 0
state_code approved = 1
state_code preferred = 2
state_code suspended = 3
state_code blocked = 4
state_code inactive = 5

unfoldable pub supplier_transitions : SupplierState → List SupplierState
supplier_transitions prospect = approved ∷ blocked ∷ inactive ∷ []
supplier_transitions approved = preferred ∷ suspended ∷ blocked ∷ inactive ∷ []
supplier_transitions preferred = approved ∷ suspended ∷ blocked ∷ inactive ∷ []
supplier_transitions suspended = approved ∷ blocked ∷ inactive ∷ []
supplier_transitions blocked = prospect ∷ inactive ∷ []
supplier_transitions inactive = prospect ∷ []

pub data SupplierCommand : Type 0 where
  approve mark_preferred remove_preferred suspend resume : SupplierCommand
  block unblock deactivate reactivate : SupplierCommand

pub data Permission : Type 0 where
  supplier_approve supplier_status_change supplier_block : Permission

pub record Contract : Type 0 where
  pub from : List SupplierState
  pub to : SupplierState
  pub permission : Permission

unfoldable pub supplier_command_contract : SupplierCommand → Contract
supplier_command_contract approve = record {
  from = prospect ∷ [];
  to = approved;
  permission = supplier_approve;
}
supplier_command_contract mark_preferred = record {
  from = approved ∷ [];
  to = preferred;
  permission = supplier_approve;
}
supplier_command_contract remove_preferred = record {
  from = preferred ∷ [];
  to = approved;
  permission = supplier_approve;
}
supplier_command_contract suspend = record {
  from = approved ∷ preferred ∷ [];
  to = suspended;
  permission = supplier_status_change;
}
supplier_command_contract resume = record {
  from = suspended ∷ [];
  to = approved;
  permission = supplier_status_change;
}
supplier_command_contract block = record {
  from = prospect ∷ approved ∷ preferred ∷ suspended ∷ [];
  to = blocked;
  permission = supplier_block;
}
supplier_command_contract unblock = record {
  from = blocked ∷ [];
  to = prospect;
  permission = supplier_block;
}
supplier_command_contract deactivate = record {
  from = prospect ∷ approved ∷ preferred ∷ suspended ∷ blocked ∷ [];
  to = inactive;
  permission = supplier_status_change;
}
supplier_command_contract reactivate = record {
  from = inactive ∷ [];
  to = prospect;
  permission = supplier_status_change;
}

-- `allowedFrom.includes(state)`.
unfoldable pub is_allowed_from : SupplierCommand → SupplierState → Bool
is_allowed_from c s = includes state_code ((supplier_command_contract c).from) s

-- `supplierTransitions[from]?.includes(to)`.
unfoldable pub may_move : SupplierState → SupplierState → Bool
may_move from to = includes state_code (supplier_transitions from) to

unfoldable pub assert_supplier_transition : SupplierState → SupplierState → Result (Unit {0})
assert_supplier_transition from to = throw_if (not (may_move from to)) business_rule_violation

pub record Eligibility : Type 0 where
  pub rfq_candidate : Bool
  pub po_issue : Bool

unfoldable pub supplier_eligibility : SupplierState → Eligibility
supplier_eligibility s = record {
  rfq_candidate = includes state_code (prospect ∷ approved ∷ preferred ∷ []) s;
  po_issue = includes state_code (approved ∷ preferred ∷ []) s;
}

pub command-transition :
    (c : SupplierCommand) (s : SupplierState)
    → is_allowed_from c s ≡ true
    → may_move s ((supplier_command_contract c).to) ≡ true
unfolding is_allowed_from may_move supplier_transitions supplier_command_contract
command-transition approve prospect h = refl
command-transition mark_preferred approved h = refl
command-transition remove_preferred preferred h = refl
command-transition suspend approved h = refl
command-transition suspend preferred h = refl
command-transition resume suspended h = refl
command-transition block prospect h = refl
command-transition block approved h = refl
command-transition block preferred h = refl
command-transition block suspended h = refl
command-transition unblock blocked h = refl
command-transition deactivate prospect h = refl
command-transition deactivate approved h = refl
command-transition deactivate preferred h = refl
command-transition deactivate suspended h = refl
command-transition deactivate blocked h = refl
command-transition reactivate inactive h = refl
command-transition _ _ h = cc

-- A command that leads from one state to another.
abbrev pub Commanded : SupplierState → SupplierState → Type 0
Commanded s t =
    (c : SupplierCommand) × (is_allowed_from c s ≡ true) × ((supplier_command_contract c).to ≡ t)

transition-command : (s t : SupplierState) → may_move s t ≡ true → Commanded s t
unfolding may_move supplier_transitions is_allowed_from supplier_command_contract
transition-command prospect approved h = (approve, refl, refl)
transition-command prospect blocked h = (block, refl, refl)
transition-command prospect inactive h = (deactivate, refl, refl)
transition-command approved preferred h = (mark_preferred, refl, refl)
transition-command approved suspended h = (suspend, refl, refl)
transition-command approved blocked h = (block, refl, refl)
transition-command approved inactive h = (deactivate, refl, refl)
transition-command preferred approved h = (remove_preferred, refl, refl)
transition-command preferred suspended h = (suspend, refl, refl)
transition-command preferred blocked h = (block, refl, refl)
transition-command preferred inactive h = (deactivate, refl, refl)
transition-command suspended approved h = (resume, refl, refl)
transition-command suspended blocked h = (block, refl, refl)
transition-command suspended inactive h = (deactivate, refl, refl)
transition-command blocked prospect h = (unblock, refl, refl)
transition-command blocked inactive h = (deactivate, refl, refl)
transition-command inactive prospect h = (reactivate, refl, refl)
transition-command _ _ h = cc

-- The table of transitions and the contracts of the commands agree: one state leads to another in the table
-- exactly if a command leads from the one to the other.
pub commands-transitions : (s t : SupplierState) → (may_move s t ≡ true) ↔ Commanded s t
commands-transitions s t = (
  transition-command s t,
  λ (c, h, k). subst (λ u. may_move s u ≡ true) k (command-transition c s h),
)

-- Where a command leaves a supplier eligible for purchase orders, the supplier was eligible before, or the
-- command is the approval of a prospect or the resumption of a suspended supplier.
pub eligible_only_by :
    (c : SupplierCommand) (s : SupplierState)
    → is_allowed_from c s ≡ true
    → (supplier_eligibility ((supplier_command_contract c).to)).po_issue ≡ true
    → ((supplier_eligibility s).po_issue ≡ true)
      ⊎ (((c ≡ approve) × (s ≡ prospect)) ⊎ ((c ≡ resume) × (s ≡ suspended)))
unfolding is_allowed_from supplier_eligibility supplier_command_contract
eligible_only_by approve prospect h k = inr (inl (refl, refl))
eligible_only_by resume suspended h k = inr (inr (refl, refl))
eligible_only_by mark_preferred approved h k = inl refl
eligible_only_by remove_preferred preferred h k = inl refl
eligible_only_by _ _ h k = cc
