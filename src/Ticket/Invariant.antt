-- ===== src/Ticket/Invariant.antt =====
-- Tickets over any sequence of commands: their resolutions.
use itcenter.Base.{
  ℕ, ◌≡◌, refl, sym, ap, ◌∙◌, subst, ◌⊎◌, inl, inr, Bool, true, false, Option, none, some, List, [],
  ◌∷◌, arith, eq_of_==, find_where, update_where, find_where-holds, updated_row,
}
use itcenter.Platform.Tx.{Tx}
use itcenter.Platform.Errors.{Result, ok, err, throw_if, bind-inv, must_exist}
use itcenter.Platform.Index.{insert_unique}
use itcenter.Ticket.States.{TicketState, resolved, reopened, closed, transitions, may_move}
use itcenter.Ticket.Store.{Enrichment, Ticket, TicketDb, is_ticket}
use itcenter.Ticket.Commands.{
  CreateInput, TransitionInput, EnrichInput, is_resolved, lacks_text, move_ticket, apply_transition,
  transition_ticket, new_ticket, create_ticket, enrich_row, enrich_ticket, check_enrich,
}
use itcenter.Ticket.Laws.{Checked, transition_ticket-written}

pub data Call : Type 0 where
  creates : CreateInput → Call
  moves : TransitionInput → Call
  enriches : EnrichInput → Call

-- A command that throws leaves the tables as they were.
abbrev pub after {ℓ} : {A : Type ℓ} → TicketDb → Result (TicketDb × A) → TicketDb
after db (ok (db', r)) = db'
after db (err e) = db

unfoldable pub step : Tx → Call → TicketDb → TicketDb
step tx (creates i) db = after db (create_ticket tx i db)
step tx (moves i) db = after db (transition_ticket tx i db)
step tx (enriches i) db = after db (enrich_ticket tx i db)

unfoldable pub run : List (Tx × Call) → TicketDb → TicketDb
run [] db = db
run ((tx, c) ∷ cs) db = run cs (step tx c db)

-- Resolved, closed after that, or opened again.
abbrev pub was_resolved : TicketState → Bool
was_resolved resolved = true
was_resolved reopened = true
was_resolved closed = true
was_resolved _ = false

abbrev pub is_some {ℓ} : {A : Type ℓ} → Option A → Bool
is_some none = false
is_some (some a) = true

-- The ticket has a resolution code that is not blank, and the time of its resolution.
abbrev pub IsResolved : Ticket → Type 0
IsResolved t = (lacks_text t.resolution_code ≡ false) × (is_some t.resolved_at ≡ true)

-- Every ticket that a query by its id returns has a resolution, if its state says so.
abbrev pub AllResolved : TicketDb → Type 0
AllResolved db =
    (tenant id : ℕ) (t : Ticket)
    → find_where (is_ticket tenant id) db.tickets ≡ some t
    → was_resolved t.state ≡ true
    → IsResolved t

was_resolved-may_move :
    (s u : TicketState)
    → may_move s u ≡ true
    → was_resolved u ≡ true
    → (u ≡ resolved) ⊎ ((is_resolved u ≡ false) × (was_resolved s ≡ true))
unfolding may_move transitions
was_resolved-may_move resolved resolved h k = inl refl
was_resolved-may_move s resolved h k = inl refl
was_resolved-may_move resolved closed h k = inr (refl, refl)
was_resolved-may_move resolved reopened h k = inr (refl, refl)
was_resolved-may_move _ _ h k = cc

-- Two keys that one row has are the same key.
module _ {tenant id tenant' id' : ℕ} (b : Ticket) where
  same_key :
      is_ticket tenant id b ≡ true
      → is_ticket tenant' id' b ≡ true
      → (tenant ≡ tenant') × (id ≡ id')
  same_key h k = ground (
    arith,
    eq_of_== b.tenant_id tenant,
    eq_of_== b.tenant_id tenant',
    eq_of_== b.id id,
    eq_of_== b.id id',
  )

move_ticket-IsResolved :
    (tx : Tx) (i : TransitionInput) (db : TicketDb) (t : Ticket) (s : TicketState)
    → Checked tx i db t s
    → (was_resolved t.state ≡ true → IsResolved t)
    → was_resolved s ≡ true
    → IsResolved (move_ticket tx i s t)
unfolding move_ticket
move_ticket-IsResolved tx i db t s c old h = elim (was_resolved-may_move t.state s c.allowed h) [
  | inl e ↦ (rw e (c.coded e), rw e refl)
  | inr (e, w) ↦ (rw e (old w).0, rw e (old w).1)
]

apply_transition-AllResolved :
    (tx : Tx) (i : TransitionInput) (db : TicketDb) (t : Ticket) (s : TicketState)
    → Checked tx i db t s
    → AllResolved db
    → AllResolved (apply_transition tx i t s db)
unfolding apply_transition move_ticket
apply_transition-AllResolved tx i db t s c v tenant id u found h =
    let (b, old, way) =
      updated_row (is_ticket tx.tenant_id i.ticket_id) (is_ticket tenant id) (move_ticket tx i s)
        db.tickets u (λ b. refl) (λ b. refl) found in
    elim way [
      | inl (hit, e) ↦
          let own = find_where-holds (is_ticket tenant id) db.tickets b old in
          let (k, k') = same_key b hit own in
          let here : find_where (is_ticket tx.tenant_id i.ticket_id) db.tickets ≡ some b =
            rw (k, k') old in
          let same : t ≡ b = cc (c.found, here) in
          let moved = move_ticket-IsResolved tx i db t s c (v tx.tenant_id i.ticket_id t c.found) in
          let whole = e ∙ ap (move_ticket tx i s) (sym same) in
          subst IsResolved (sym whole)
            (moved (sym (ap (λ (x : Ticket). was_resolved x.state) whole) ∙ h))
      | inr e ↦
          subst IsResolved (sym e)
            (v tenant id b old (sym (ap (λ (x : Ticket). was_resolved x.state) e) ∙ h))
    ]

after-keeps {ℓ} :
    {A : Type ℓ} (db : TicketDb) (r : Result (TicketDb × A))
    → AllResolved db
    → ((db' : TicketDb) (a : A) → r ≡ ok (db', a) → AllResolved db')
    → AllResolved (after db r)
after-keeps db (ok (db', a)) v k = k db' a refl
after-keeps db (err e) v k = v

pub created-tickets :
    (tx : Tx) (i : CreateInput) (db db' : TicketDb) (r : Ticket)
    → create_ticket tx i db ≡ ok (db', r)
    → db'.tickets ≡ new_ticket tx i ∷ db.tickets
unfolding create_ticket throw_if must_exist insert_unique
created-tickets tx i db db' r h = ground arith

-- Another row at the head, which has not been resolved.
create-AllResolved :
    (tx : Tx) (i : CreateInput) (db db' : TicketDb) (r : Ticket)
    → create_ticket tx i db ≡ ok (db', r)
    → AllResolved db
    → AllResolved db'
unfolding find_where
create-AllResolved tx i db db' r h v tenant id u found w =
    ground (
      arith,
      v tenant id u,
      ap (find_where (is_ticket tenant id)) (created-tickets tx i db db' r h),
    )

enrich-AllResolved :
    (tx : Tx) (i : EnrichInput) (db db' : TicketDb) (e : Enrichment)
    → enrich_ticket tx i db ≡ ok (db', e)
    → AllResolved db
    → AllResolved db'
unfolding enrich_ticket enrich_row
enrich-AllResolved tx i db db' e h v tenant id u found w =
    let (e', c, k) = bind-inv (check_enrich tx i db) _ h in
    let same : db'.tickets
        ≡ update_where (is_ticket tx.tenant_id i.ticket_id) (enrich_row tx i e') db.tickets =
      ground arith in
    let (b, old, way) =
      updated_row (is_ticket tx.tenant_id i.ticket_id) (is_ticket tenant id) (enrich_row tx i e')
        db.tickets u (λ b. refl) (λ b. refl)
        (sym (ap (find_where (is_ticket tenant id)) same) ∙ found) in
    let kept = v tenant id b old in ground (arith, kept)

-- Every command keeps the tickets resolved that are said to be: a ticket that is resolved, closed or
-- reopened has a resolution code that is not blank and a time of resolution.
pub step-AllResolved :
    (tx : Tx) (c : Call) (db : TicketDb) → AllResolved db → AllResolved (step tx c db)
unfolding step
step-AllResolved tx (creates i) db v =
    after-keeps db _ v λ db' r e. create-AllResolved tx i db db' r e v
step-AllResolved tx (moves i) db v = after-keeps db _ v λ db' m e.
    let (t, s, c, written, _) = transition_ticket-written tx i db db' m e in
    subst AllResolved (sym written) (apply_transition-AllResolved tx i db t s c v)
step-AllResolved tx (enriches i) db v =
    after-keeps db _ v λ db' r e. enrich-AllResolved tx i db db' r e v

-- Any sequence of commands keeps the property that each ticket that is resolved, closed or reopened has a
-- resolution code that is not blank and a time of resolution.
pub run-AllResolved :
    (cs : List (Tx × Call)) (db : TicketDb) → AllResolved db → AllResolved (run cs db)
unfolding run
run-AllResolved [] db v = v
run-AllResolved ((tx, c) ∷ cs) db v = run-AllResolved cs (step tx c db) (step-AllResolved tx c db v)
