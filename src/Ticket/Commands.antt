-- ===== src/Ticket/Commands.antt =====
-- The commands of modules/ticket/application/ticket.ts. A command returns the new tables and its result,
-- or throws, and then its transaction is rolled back.
use itcenter.Base.{
  ℕ, zero, suc, ◌+◌, Bool, true, false, not, ◌&&◌, ◌||◌, Option, none, some, List, [], ◌∷◌, leb,
  ◌==◌, if◌then◌else◌, any, find_where, update_where, Text, is_blank,
}
use itcenter.Platform.Tx.{Tx, row_is, is_blank_id}
use itcenter.Platform.Errors.{
  validation_error, not_found, business_rule_violation, Result, ok, ◌>>=◌, ◌>>◌, throw_if, or_throw,
  must_exist, is_safe_integer, assert_version,
}
use itcenter.Platform.Index.{insert_unique}
use itcenter.Ticket.States.{TicketState, new, resolved, may_move}
use itcenter.Ticket.Store.{
  EnrichedAsset, Enrichment, Ticket, Message, TicketTransition, User, AssignedAsset, TicketDb,
  is_ticket, has_code, is_user, is_active_user,
}

-- The reference of a source context: a UUID, `/^[0-9a-f]{8}-…$/i`.
abbrev is_hex : ℕ → Bool
is_hex c = (leb b'0' c && leb c b'9') || (leb b'a' c && leb c b'f') || (leb b'A' c && leb c b'F')

abbrev is_version : ℕ → Bool
is_version c = leb b'1' c && leb c b'8'

abbrev is_variant : ℕ → Bool
is_variant c = c == b'8' || c == b'9' || c == b'a' || c == b'b' || c == b'A' || c == b'B'

abbrev hexes : ℕ → List (ℕ → Bool) → List (ℕ → Bool)
hexes zero rest = rest
hexes (suc n) rest = is_hex ∷ hexes n rest

unfoldable pub fits : List (ℕ → Bool) → Text → Bool
fits [] [] = true
fits [] (c ∷ cs) = false
fits (p ∷ ps) [] = false
fits (p ∷ ps) (c ∷ cs) = p c && fits ps cs

abbrev dash : ℕ → Bool
dash c = c == b'-'

unfoldable pub is_uuid : Text → Bool
is_uuid = fits (
    hexes 8 (
      dash
      ∷ hexes 4 (dash ∷ is_version ∷ hexes 3 (dash ∷ is_variant ∷ hexes 3 (dash ∷ hexes 12 [])))))

pub record SourceContext : Type 0 where
  pub is_knowledge : Bool
  pub reference_id : Text

-- The priorities P1 to P4 are 1 to 4, the channels PORTAL, EMAIL and API are 1 to 3; any other text is
-- another number.
pub record CreateInput : Type 0 where
  pub ticket_code : ℕ
  pub title : Text
  pub description : Text
  pub requester_user_id : ℕ
  pub priority : ℕ
  pub source_channel : ℕ
  pub source_context : Option SourceContext

unfoldable pub is_valid_context : Option SourceContext → Bool
is_valid_context none = true
is_valid_context (some c) = is_uuid c.reference_id && c.is_knowledge

abbrev pub new_ticket : Tx → CreateInput → Ticket
new_ticket tx i = record {
  tenant_id = tx.tenant_id;
  id = tx.uuid 0;
  ticket_code = i.ticket_code;
  title = i.title;
  description = i.description;
  requester_user_id = i.requester_user_id;
  priority = i.priority;
  source_channel = i.source_channel;
  source_context = elim i.source_context [ none ↦ none | some c ↦ some c.reference_id ];
  state = new;
  assignee_user_id = none;
  resolution_code = none;
  resolved_at = none;
  enrichment = none;
  updated_at = tx.now;
  version = 1;
}

-- A row that an insert conflicts with, by its code or by its primary key.
abbrev pub is_taken : Tx → CreateInput → Ticket → Bool
is_taken tx i t = has_code tx.tenant_id i.ticket_code t || t.id == tx.uuid 0

unfoldable pub create_ticket : Tx → CreateInput → TicketDb → Result (TicketDb × Ticket)
create_ticket tx i db = do
  throw_if
      (is_blank_id i.ticket_code
        || is_blank i.title
        || is_blank i.description
        || is_blank_id i.requester_user_id
        || not (leb 1 i.priority && leb i.priority 4)
        || not (leb 1 i.source_channel && leb i.source_channel 3))
      validation_error
  throw_if (not (is_valid_context i.source_context)) validation_error
  must_exist (find_where (is_active_user tx.tenant_id i.requester_user_id) db.users)
      business_rule_violation
  tickets ← insert_unique (is_taken tx i) business_rule_violation (new_ticket tx i) db.tickets
  let message : Message = record {
    tenant_id = tx.tenant_id;
    id = tx.uuid 1;
    ticket_id = tx.uuid 0;
    author_user_id = i.requester_user_id;
    channel = i.source_channel;
    body = i.description;
  }
  ok (record db { tickets = tickets; messages = message ∷ db.messages }, new_ticket tx i)

pub record TransitionInput : Type 0 where
  pub ticket_id : ℕ
  pub expected_version : ℕ
  -- `none` is a text that names no state.
  pub target_state : Option TicketState
  pub reason : Text
  pub actor_id : ℕ
  pub assignee_user_id : Option ℕ
  pub resolution_code : Option Text

abbrev pub is_resolved : TicketState → Bool
is_resolved resolved = true
is_resolved _ = false

-- `!resolutionCode?.trim()`.
abbrev pub lacks_text : Option Text → Bool
lacks_text none = true
lacks_text (some t) = is_blank t

-- `input.assigneeUserId` names nobody, or a user that is not active.
unfoldable pub is_bad_assignee : Tx → Option ℕ → List User → Bool
is_bad_assignee tx none users = false
is_bad_assignee tx (some id) users =
    not (is_blank_id id) && not (any (is_active_user tx.tenant_id id) users)

-- The row and the target, once every guard of `transitionTicket` has passed.
unfoldable pub check_transition : Tx → TransitionInput → TicketDb → Result (Ticket × TicketState)
check_transition tx i db = do
  throw_if (not (is_safe_integer i.expected_version) || is_blank i.reason) validation_error
  target ← or_throw i.target_state validation_error
  ticket ← or_throw (find_where (is_ticket tx.tenant_id i.ticket_id) db.tickets) not_found
  assert_version ticket.version i.expected_version
  throw_if (not (may_move ticket.state target)) business_rule_violation
  throw_if (is_resolved target && lacks_text i.resolution_code) business_rule_violation
  throw_if (is_bad_assignee tx i.assignee_user_id db.users) business_rule_violation
  ok (ticket, target)

-- `COALESCE($2, column)`.
abbrev pub coalesce {ℓ} : {A : Type ℓ} → Option A → Option A → Option A
coalesce none old = old
coalesce (some a) old = some a

-- The `UPDATE helpdesk.tickets` of `transitionTicket`, at one row.
unfoldable pub move_ticket : Tx → TransitionInput → TicketState → Ticket → Ticket
move_ticket tx i target t = record t {
  state = target;
  assignee_user_id = coalesce i.assignee_user_id t.assignee_user_id;
  resolution_code = if is_resolved target then i.resolution_code else t.resolution_code;
  resolved_at = if is_resolved target then some tx.now else t.resolved_at;
  updated_at = tx.now;
  version = i.expected_version + 1;
}

unfoldable pub apply_transition : Tx → TransitionInput → Ticket → TicketState → TicketDb → TicketDb
apply_transition tx i ticket target db =
    let row : TicketTransition = record {
      tenant_id = tx.tenant_id;
      id = tx.uuid 0;
      ticket_id = i.ticket_id;
      from_state = ticket.state;
      to_state = target;
      reason = i.reason;
      actor_id = i.actor_id;
    } in
    record db {
      tickets =
          update_where (is_ticket tx.tenant_id i.ticket_id) (move_ticket tx i target) db.tickets;
      ticket_transitions = row ∷ db.ticket_transitions;
    }

pub record Moved : Type 0 where
  pub from_state : TicketState
  pub to_state : TicketState
  pub version : ℕ

unfoldable pub transition_ticket : Tx → TransitionInput → TicketDb → Result (TicketDb × Moved)
transition_ticket tx i db = do
  (ticket, target) ← check_transition tx i db
  ok (
    apply_transition tx i ticket target db,
    record { from_state = ticket.state; to_state = target; version = i.expected_version + 1 },
  )

pub record EnrichInput : Type 0 where
  pub ticket_id : ℕ
  pub expected_version : ℕ
  pub asset_id : Option ℕ
  pub reason : Text

-- The asset that the input names, if the requester has it.
abbrev is_assigned : ℕ → ℕ → ℕ → AssignedAsset → Bool
is_assigned tenant id user_id a = row_is tenant id a.tenant_id a.asset.id && a.user_id == user_id

unfoldable pub find_asset : Tx → Option ℕ → ℕ → TicketDb → Result (Option EnrichedAsset)
find_asset tx none user_id db = ok none
find_asset tx (some id) user_id db = if is_blank_id id then ok none else do
  a ←
      or_throw (find_where (is_assigned tx.tenant_id id user_id) db.assigned_assets)
        business_rule_violation
  ok (some a.asset)

unfoldable pub check_enrich : Tx → EnrichInput → TicketDb → Result Enrichment
check_enrich tx i db = do
  throw_if (not (is_safe_integer i.expected_version) || is_blank i.reason) validation_error
  ticket ← or_throw (find_where (is_ticket tx.tenant_id i.ticket_id) db.tickets) not_found
  assert_version ticket.version i.expected_version
  requester ←
      or_throw (find_where (is_user tx.tenant_id ticket.requester_user_id) db.users) not_found
  throw_if (not requester.employed) business_rule_violation
  asset ← find_asset tx i.asset_id requester.id db
  ok (record { requester_id = requester.id; display_code = requester.display_code; asset = asset })

unfoldable pub enrich_row : Tx → EnrichInput → Enrichment → Ticket → Ticket
enrich_row tx i e t = record t {
  enrichment = some e;
  updated_at = tx.now;
  version = i.expected_version + 1;
}

unfoldable pub enrich_ticket : Tx → EnrichInput → TicketDb → Result (TicketDb × Enrichment)
enrich_ticket tx i db = do
  e ← check_enrich tx i db
  ok (
    record db {
      tickets = update_where (is_ticket tx.tenant_id i.ticket_id) (enrich_row tx i e) db.tickets;
    },
    e,
  )

-- `readTicketReference`.
unfoldable pub read_ticket_reference : Tx → ℕ → TicketDb → Option Ticket
read_ticket_reference tx id db = find_where (is_ticket tx.tenant_id id) db.tickets
