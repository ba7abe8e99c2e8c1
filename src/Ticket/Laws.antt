-- ===== src/Ticket/Laws.antt =====
-- What a ticket command has found and written when it succeeds.
use itcenter.Base.{
  ◌+◌, ◌≡◌, ap, inl, inr, true, false, some, arith, if◌then◌else◌, ◌∷◌, find_where,
  find_where-update_where,
}
use itcenter.Platform.Tx.{Tx}
use itcenter.Platform.Errors.{ErrorCode, ok, err, throw_if, or_throw, bind-inv, assert_version}
use itcenter.Platform.Errors.{Result-cases}
use itcenter.Ticket.States.{
  TicketState, resolved, may_move, is_ticket_terminal_state, terminal-stuck,
}
use itcenter.Ticket.Store.{Ticket, TicketDb, is_ticket}
use itcenter.Ticket.Commands.{
  TransitionInput, Moved, is_resolved, lacks_text, coalesce, check_transition, move_ticket,
  apply_transition, transition_ticket, is_bad_assignee,
}

-- The guards of a change, read back from its success.
pub record Checked (tx : Tx) (i : TransitionInput) (db : TicketDb) (t : Ticket) (s : TicketState)
    : Type 0 where
  pub found : find_where (is_ticket tx.tenant_id i.ticket_id) db.tickets ≡ some t
  pub current : t.version ≡ i.expected_version
  pub targeted : i.target_state ≡ some s
  pub allowed : may_move t.state s ≡ true
  pub coded : s ≡ resolved → lacks_text i.resolution_code ≡ false
  pub staffed : is_bad_assignee tx i.assignee_user_id db.users ≡ false

pub check_transition-Checked :
    (tx : Tx) (i : TransitionInput) (db : TicketDb) (t : Ticket) (s : TicketState)
    → check_transition tx i db ≡ ok (t, s)
    → Checked tx i db t s
unfolding check_transition throw_if or_throw assert_version
check_transition-Checked tx i db t s h = record {
  found = ground arith;
  current = ground arith;
  targeted = ground arith;
  allowed = ground arith;
  coded = λ e. ground arith;
  staffed = ground arith;
}

pub transition_ticket-written :
    (tx : Tx) (i : TransitionInput) (db db' : TicketDb) (m : Moved)
    → transition_ticket tx i db ≡ ok (db', m)
    → (t : Ticket) × (s : TicketState) × Checked tx i db t s
      × (db' ≡ apply_transition tx i t s db)
      × (m ≡ record { from_state = t.state; to_state = s; version = i.expected_version + 1 })
unfolding transition_ticket
transition_ticket-written tx i db db' m h =
    let ((t, s), c, k) = bind-inv (check_transition tx i db) _ h in
    (t, s, check_transition-Checked tx i db t s c, cc, cc)

-- A change that succeeds found the ticket at the version expected, moved it as the table allows, and left
-- it in the target state at the next version: with the resolution code and time of this change if it
-- resolves the ticket and the old ones otherwise, and with the assignee that it names, if any. The history has at
-- its head a row of the change: of this ticket, from the state that it had to the target, with its reason and actor.
pub transition_ticket-follows :
    (tx : Tx) (i : TransitionInput) (db db' : TicketDb) (m : Moved)
    → transition_ticket tx i db ≡ ok (db', m)
    → (t : Ticket) × (s : TicketState) × (find_where (is_ticket tx.tenant_id i.ticket_id) db.tickets
        ≡ some t)
      × (t.version ≡ i.expected_version)
      × (i.target_state ≡ some s)
      × (may_move t.state s ≡ true)
      × (find_where (is_ticket tx.tenant_id i.ticket_id) db'.tickets
          ≡ some (record t {
            state = s;
            assignee_user_id = coalesce i.assignee_user_id t.assignee_user_id;
            resolution_code = if is_resolved s then i.resolution_code else t.resolution_code;
            resolved_at = if is_resolved s then some tx.now else t.resolved_at;
            updated_at = tx.now;
            version = i.expected_version + 1;
          }))
      × (db'.ticket_transitions
          ≡ record {
            tenant_id = tx.tenant_id;
            id = tx.uuid 0;
            ticket_id = i.ticket_id;
            from_state = t.state;
            to_state = s;
            reason = i.reason;
            actor_id = i.actor_id;
          }
            ∷ db.ticket_transitions)
unfolding apply_transition move_ticket
transition_ticket-follows tx i db db' m h =
    let (t, s, c, e, e') = transition_ticket-written tx i db db' m h in
    (
      t,
      s,
      c.found,
      c.current,
      c.targeted,
      c.allowed,
      rw e (
          find_where-update_where (is_ticket tx.tenant_id i.ticket_id) (move_ticket tx i s)
            db.tickets t (λ b k. k) c.found),
      ap (λ (d : TicketDb). d.ticket_transitions) e,
    )

pub terminal-may_move :
    (s t : TicketState) → is_ticket_terminal_state (some s) ≡ true → may_move s t ≡ false
terminal-may_move s t h = elim (terminal-stuck s) [ inl (e, p) ↦ cc (e, h) | inr (e, p) ↦ p t ]

-- Every transition of a ticket in a terminal state throws.
pub terminal_refuses :
    (tx : Tx) (i : TransitionInput) (db : TicketDb) (t : Ticket)
    → find_where (is_ticket tx.tenant_id i.ticket_id) db.tickets ≡ some t
    → is_ticket_terminal_state (some t.state) ≡ true
    → (e : ErrorCode) × (transition_ticket tx i db ≡ err e)
terminal_refuses tx i db t found ended = elim (Result-cases (transition_ticket tx i db)) [
  | inl ((db', m), h) ↦
      let (u, s, c, _, _) = transition_ticket-written tx i db db' m h in
      let e : u ≡ t = cc (c.found, found) in
      cc (c.allowed, ap (λ (x : Ticket). may_move x.state s) e, terminal-may_move t.state s ended)
  | inr thrown ↦ thrown
]
