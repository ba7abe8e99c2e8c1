-- ===== src/Ticket/Endings.antt =====
-- Tickets over any sequence of commands: what is settled once they are closed or cancelled.
use itcenter.Base.{ℕ, ◌≡◌, Option, some, find_where, Text}
use itcenter.Platform.Tx.{Tx}
use itcenter.Ticket.States.{TicketState}
use itcenter.Ticket.Store.{Ticket, TicketDb, is_ticket}

-- What an ended ticket keeps.
abbrev pub ending : Ticket → ℕ × ℕ × TicketState × Option ℕ × Option Text × Option ℕ
ending t = (
  t.ticket_code, t.requester_user_id, t.state, t.assignee_user_id, t.resolution_code, t.resolved_at,
)

-- The ticket of an id has what the ticket `t` had.
abbrev pub IsKept : ℕ → ℕ → Ticket → TicketDb → Type 0
IsKept tenant id t db =
    (u : Ticket) × (find_where (is_ticket tenant id) db.tickets ≡ some u) × (ending u ≡ ending t)
