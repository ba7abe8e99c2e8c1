-- ===== src/Ticket/Store.antt =====
-- The tables of the schema `helpdesk` that modules/ticket/application/ticket.ts writes, with the users
-- and the asset assignments that it reads.
use itcenter.Base.{ℕ, Bool, ◌&&◌, Option, List, Text}
use itcenter.Platform.Tx.{row_is}
use itcenter.Ticket.States.{TicketState}

pub record EnrichedAsset : Type 0 where
  pub id : ℕ
  pub asset_code : ℕ
  pub lifecycle_state : ℕ
  pub current_location_id : Option ℕ

pub record Enrichment : Type 0 where
  pub requester_id : ℕ
  pub display_code : ℕ
  pub asset : Option EnrichedAsset

pub record Ticket : Type 0 where
  pub tenant_id : ℕ
  pub id : ℕ
  pub ticket_code : ℕ
  pub title : Text
  pub description : Text
  pub requester_user_id : ℕ
  pub priority : ℕ
  pub source_channel : ℕ
  pub source_context : Option Text
  pub state : TicketState
  pub assignee_user_id : Option ℕ
  pub resolution_code : Option Text
  pub resolved_at : Option ℕ
  pub enrichment : Option Enrichment
  pub updated_at : ℕ
  pub version : ℕ

pub record Message : Type 0 where
  pub tenant_id : ℕ
  pub id : ℕ
  pub ticket_id : ℕ
  pub author_user_id : ℕ
  pub channel : ℕ
  pub body : Text

pub record TicketTransition : Type 0 where
  pub tenant_id : ℕ
  pub id : ℕ
  pub ticket_id : ℕ
  pub from_state : TicketState
  pub to_state : TicketState
  pub reason : Text
  pub actor_id : ℕ

pub record User : Type 0 where
  pub tenant_id : ℕ
  pub id : ℕ
  pub display_code : ℕ
  pub employed : Bool

-- An asset with the user that it is actively assigned to.
pub record AssignedAsset : Type 0 where
  pub tenant_id : ℕ
  pub asset : EnrichedAsset
  pub user_id : ℕ

pub record TicketDb : Type 0 where
  pub tickets : List Ticket
  pub messages : List Message
  pub ticket_transitions : List TicketTransition
  pub users : List User
  pub assigned_assets : List AssignedAsset

abbrev pub is_ticket : ℕ → ℕ → Ticket → Bool
is_ticket tenant id t = row_is tenant id t.tenant_id t.id

-- The unique key `(tenant_id, ticket_code)`.
abbrev pub has_code : ℕ → ℕ → Ticket → Bool
has_code tenant code t = row_is tenant code t.tenant_id t.ticket_code

abbrev pub is_user : ℕ → ℕ → User → Bool
is_user tenant id u = row_is tenant id u.tenant_id u.id

abbrev pub is_active_user : ℕ → ℕ → User → Bool
is_active_user tenant id u = is_user tenant id u && u.employed
