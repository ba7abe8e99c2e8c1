-- ===== src/Examples/Ticket.antt =====
-- One ticket from its creation to its closing, and the theorems of the ticket module at it.
use itcenter.Base.{
  ℕ, ◌+◌, ◌≡◌, refl, true, none, some, [], ◌∷◌, if◌then◌else◌, find_where, update_where, Text,
  is_blank, is_space, trim, trim_start,
}
use itcenter.Platform.Tx.{Tx}
use itcenter.Platform.Errors.{ok, throw_if, or_throw, must_exist, assert_version}
use itcenter.Platform.Index.{insert_unique}
use itcenter.Ticket.States.{
  TicketState, triage, in_progress, resolved, closed, transitions, may_move,
  is_ticket_terminal_state,
}
use itcenter.Ticket.Store.{Ticket, TicketDb, is_ticket}
use itcenter.Ticket.Commands.{
  fits, is_uuid, is_valid_context, CreateInput, TransitionInput, is_resolved, is_bad_assignee,
  coalesce, check_transition, move_ticket, apply_transition, transition_ticket, create_ticket,
}
use itcenter.Ticket.Laws.{transition_ticket-follows}
use itcenter.Ticket.Invariant.{creates, moves, after, run, AllResolved, run-AllResolved}

opened : Unit {0}
unfolding transitions may_move fits is_uuid is_valid_context is_bad_assignee check_transition
    move_ticket apply_transition transition_ticket create_ticket insert_unique throw_if or_throw
    must_exist assert_version find_where update_where is_blank trim trim_start is_space
    is_ticket_terminal_state
opened = tt

abbrev tx : Tx
tx = record { tenant_id = 1; now = 100; uuid = λ k. 1000 + k }

abbrev why : Text
why = 79 ∷ 75 ∷ []

abbrev desk : TicketDb
desk = record {
  tickets = [];
  messages = [];
  ticket_transitions = [];
  users = record { tenant_id = 1; id = 5; display_code = 55; employed = true } ∷ [];
  assigned_assets = [];
}

desk-AllResolved : AllResolved desk
unfolding find_where
desk-AllResolved tenant id t found h = cc

creating : CreateInput
creating = record {
  ticket_code = 11;
  title = why;
  description = why;
  requester_user_id = 5;
  priority = 2;
  source_channel = 1;
  source_context = none;
}

-- The ticket in progress, at version 4.
abbrev busy : TicketDb
busy = record desk {
  tickets =
      record {
        tenant_id = 1;
        id = 1000;
        ticket_code = 11;
        title = why;
        description = why;
        requester_user_id = 5;
        priority = 2;
        source_channel = 1;
        source_context = none;
        state = in_progress;
        assignee_user_id = none;
        resolution_code = none;
        resolved_at = none;
        enrichment = none;
        updated_at = 90;
        version = 4;
      }
      ∷ [];
}

abbrev change : ℕ → TicketState → TransitionInput
change version target = record {
  ticket_id = 1000;
  expected_version = version;
  target_state = some target;
  reason = why;
  actor_id = 9;
  assignee_user_id = none;
  resolution_code = some why;
}

abbrev done : TicketDb
done = after busy (transition_ticket tx (change 4 resolved) busy)

resolving_runs :
    transition_ticket tx (change 4 resolved) busy
    ≡ ok (done, record { from_state = in_progress; to_state = resolved; version = 5 })
unfolding opened
resolving_runs = refl

transition_ticket-follows_example :
    (t : Ticket) × (s : TicketState) × (find_where (is_ticket 1 1000) busy.tickets ≡ some t)
    × (t.version ≡ 4)
    × (some resolved ≡ some s)
    × (may_move t.state s ≡ true)
    × (find_where (is_ticket 1 1000) done.tickets
        ≡ some (record t {
          state = s;
          assignee_user_id = coalesce none t.assignee_user_id;
          resolution_code = if is_resolved s then some why else t.resolution_code;
          resolved_at = if is_resolved s then some 100 else t.resolved_at;
          updated_at = 100;
          version = 5;
        }))
    × (done.ticket_transitions
        ≡ record {
          tenant_id = 1;
          id = 1000;
          ticket_id = 1000;
          from_state = t.state;
          to_state = s;
          reason = why;
          actor_id = 9;
        }
          ∷ busy.ticket_transitions)
transition_ticket-follows_example =
    transition_ticket-follows tx (change 4 resolved) busy done _ resolving_runs

abbrev shut : TicketDb
shut = after done (transition_ticket tx (change 5 closed) done)

abbrev shut_ticket : Ticket
shut_ticket = record {
  tenant_id = 1;
  id = 1000;
  ticket_code = 11;
  title = why;
  description = why;
  requester_user_id = 5;
  priority = 2;
  source_channel = 1;
  source_context = none;
  state = closed;
  assignee_user_id = none;
  resolution_code = some why;
  resolved_at = some 100;
  enrichment = none;
  updated_at = 100;
  version = 6;
}

run-AllResolved_example :
    AllResolved (run ((tx, creates creating) ∷ (tx, moves (change 1 triage)) ∷ []) desk)
run-AllResolved_example =
    run-AllResolved ((tx, creates creating) ∷ (tx, moves (change 1 triage)) ∷ []) desk
      desk-AllResolved
