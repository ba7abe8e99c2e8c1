-- ===== src/Ticket/States.antt =====
-- The states of a ticket and the table `transitions` of modules/ticket/application/ticket.ts.
use itcenter.Base.{
  ℕ, ◌≡◌, refl, ◌⊎◌, inl, inr, Bool, true, false, Option, none, some, List, [], ◌∷◌, includes,
  is_empty,
}

pub data TicketState : Type 0 where
  new triage assigned in_progress waiting_user waiting_vendor waiting_approval : TicketState
  waiting_change resolved reopened closed cancelled : TicketState

abbrev pub state_code : TicketState → ℕ
state_code new = 0
state_code triage = 1
state_code assigned = 2
state_code in_progress = 3
state_code waiting_user = 4
state_code waiting_vendor = 5
state_code waiting_approval = 6
state_code waiting_change = 7
state_code resolved = 8
state_code reopened = 9
state_code closed = 10
state_code cancelled = 11

unfoldable pub transitions : TicketState → List TicketState
transitions new = triage ∷ cancelled ∷ []
transitions triage = assigned ∷ cancelled ∷ []
transitions assigned = in_progress ∷ []
transitions in_progress =
    waiting_user ∷ waiting_vendor ∷ waiting_approval ∷ waiting_change ∷ resolved ∷ []
transitions waiting_user = in_progress ∷ []
transitions waiting_vendor = in_progress ∷ []
transitions waiting_approval = in_progress ∷ []
transitions waiting_change = in_progress ∷ []
transitions resolved = closed ∷ reopened ∷ []
transitions reopened = in_progress ∷ []
transitions closed = []
transitions cancelled = []

-- `transitions[from]?.includes(to)`.
unfoldable pub may_move : TicketState → TicketState → Bool
may_move from to = includes state_code (transitions from) to

-- `isTicketTerminalState`; `none` is a text that names no state.
unfoldable pub is_ticket_terminal_state : Option TicketState → Bool
is_ticket_terminal_state none = true
is_ticket_terminal_state (some s) = is_empty (transitions s)

-- A path of moves that the table allows.
infix 40 ◌⟶*◌
pub data ◌⟶*◌ : TicketState → TicketState → Type 0 where
  here : {s : TicketState} → s ⟶* s
  go : {s t u : TicketState} → may_move s t ≡ true → t ⟶* u → s ⟶* u

pub terminal-stuck :
    (s : TicketState)
    → ((is_ticket_terminal_state (some s) ≡ false) × (s ⟶* closed))
      ⊎ ((is_ticket_terminal_state (some s) ≡ true) × ((t : TicketState) → may_move s t ≡ false))
unfolding is_ticket_terminal_state may_move transitions
terminal-stuck new = inl (
  refl,
  go {t = triage} refl (
      go {t = assigned} refl
        (go {t = in_progress} refl (go {t = resolved} refl (go {t = closed} refl here)))),
)
terminal-stuck triage = inl (
  refl,
  go {t = assigned} refl
      (go {t = in_progress} refl (go {t = resolved} refl (go {t = closed} refl here))),
)
terminal-stuck assigned =
    inl (refl, go {t = in_progress} refl (go {t = resolved} refl (go {t = closed} refl here)))
terminal-stuck resolved = inl (refl, go {t = closed} refl here)
terminal-stuck in_progress = inl (refl, go {t = resolved} refl (go {t = closed} refl here))
terminal-stuck closed = inr (refl, λ t. refl)
terminal-stuck cancelled = inr (refl, λ t. refl)
terminal-stuck _ =
    inl (refl, go {t = in_progress} refl (go {t = resolved} refl (go {t = closed} refl here)))
