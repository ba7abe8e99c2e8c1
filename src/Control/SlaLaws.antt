-- ===== src/Control/SlaLaws.antt =====
-- Service levels with their events, over any sequence of commands.
use itcenter.Base.{
  ℕ, ◌≤◌, ◌≡◌, refl, sym, ◌∙◌, subst, inl, inr, Bool, true, false, Option, none, some, List, [],
  ◌∷◌, arith, ltb, ◌==◌, if◌then◌else◌, ==_refl, length, any, find_where, update_where, is_blank,
}
use itcenter.Platform.Tx.{Tx}
use itcenter.Platform.Errors.{
  Result-cases, not_found, internal_error, Result, ok, err, throw_if, or_throw, bind-inv,
  assert_version,
}
use itcenter.Platform.Logged.{Logged, insert-Logged, update-Logged}
use itcenter.Platform.Errors.{>>-inv}
use itcenter.Control.Sla.{
  SlaState, running, paused, warning, critical, breached, met, cancelled, may_change, allowed,
  completes, SlaTarget, SlaPolicy, SlaInstance, SlaEvent, SlaDb, StartInput, ChangeInput,
  is_instance, find_target, due_time, max_time, is_taken, new_instance, start_event, start_sla,
  change_row, change_event, check_change, transition_sla,
}

pub data Call : Type 0 where
  starts : StartInput → Call
  changes : ChangeInput → Call

-- A command that throws leaves the tables as they were.
abbrev after {ℓ} : {A : Type ℓ} → SlaDb → Result (SlaDb × A) → SlaDb
after db (ok (db', r)) = db'
after db (err e) = db

unfoldable pub step : Tx → Call → SlaDb → SlaDb
step tx (starts i) db = after db (start_sla tx i db)
step tx (changes i) db = after db (transition_sla tx i db)

unfoldable pub run : List (Tx × Call) → SlaDb → SlaDb
run [] db = db
run ((tx, c) ∷ calls) db = run calls (step tx c db)

-- A log, the latest event first, that leads from the start to a state along the allowed changes.
pub data Trail : List SlaEvent → SlaState → Type 0 where
  started : (e : SlaEvent) → e.from_state ≡ none → e.to_state ≡ running → Trail (e ∷ []) running
  changed :
      (e : SlaEvent) (es : List SlaEvent) (s t : SlaState)
      → Trail es s
      → e.from_state ≡ some s
      → e.to_state ≡ t
      → may_change s (some t) ≡ true
      → is_blank e.reason ≡ false
      → Trail (e ∷ es) t

abbrev is_present : Option ℕ → Bool
is_present none = false
is_present (some n) = true

-- An instance and its log: the log leads to its state, its version is the length of the log, it has a time of
-- completion exactly if its state is one that completes, and it is due within the times that there are.
abbrev pub Replays : Option SlaInstance → List SlaEvent → Type 0
Replays none es = es ≡ []
Replays (some s) es =
    Trail es s.state
    × (s.version ≡ length es)
    × (is_present s.completed_at ≡ completes s.state)
    × (s.started_at ≤ s.due_at)
    × (s.due_at ≤ max_time)

abbrev instance_tenant : SlaInstance → ℕ
instance_tenant s = s.tenant_id

abbrev instance_id : SlaInstance → ℕ
instance_id s = s.id

abbrev event_tenant : SlaEvent → ℕ
event_tenant e = e.tenant_id

abbrev event_instance : SlaEvent → ℕ
event_instance e = e.instance_id

abbrev pub AllReplay : SlaDb → Type 0
AllReplay db =
    Logged instance_tenant instance_id event_tenant event_instance Replays db.instances db.events

any-taken :
    (tx : Tx) (i : StartInput) (rows : List SlaInstance)
    → any (is_taken tx i) rows ≡ false
    → any (λ s. s.id == tx.uuid 0) rows ≡ false
any-taken tx i [] h = refl
any-taken tx i (r ∷ rows) h = ground (arith, any-taken tx i rows)

-- What a start has written, when it succeeds.
started_with :
    (tx : Tx) (i : StartInput) (db db' : SlaDb) (r : SlaInstance)
    → start_sla tx i db ≡ ok (db', r)
    → (t : SlaTarget) × (p : SlaPolicy) × (now : ℕ) × (due_time t now ≤ max_time)
      × (any (is_taken tx i) db.instances ≡ false)
      × (db' ≡ record db {
        instances = new_instance tx i t p now ∷ db.instances;
        events = start_event tx ∷ db.events;
      })
unfolding start_sla throw_if
started_with tx i db db' r h =
    let ((t, p), _, h1) =
      bind-inv (or_throw (find_target tx.tenant_id i.target_id db) not_found) _ h in
    let (now, _, h2) = bind-inv (or_throw i.now internal_error) _ h1 in
    let (late, h3) = >>-inv (throw_if (ltb max_time (due_time t now)) internal_error) _ h2 in
    let (fresh, h4) = >>-inv (throw_if (any (is_taken tx i) db.instances) internal_error) _ h3 in
    (t, p, now, ground (arith, late), ground (arith, fresh), cc h4)

started-Replays :
    (tx : Tx) (i : StartInput) (t : SlaTarget) (p : SlaPolicy) (now : ℕ)
    → due_time t now ≤ max_time
    → (es : List SlaEvent) → Replays none es
    → Replays (some (new_instance tx i t p now)) (start_event tx ∷ es)
started-Replays tx i t p now d [] v =
    (started (start_event tx) refl refl, refl, refl, omega arith, d)
started-Replays tx i t p now d (e ∷ es) v = cc

start_sla-AllReplay :
    (tx : Tx) (i : StartInput) (db db' : SlaDb) (r : SlaInstance)
    → start_sla tx i db ≡ ok (db', r)
    → AllReplay db
    → AllReplay db'
start_sla-AllReplay tx i db db' r h v =
    let (t, p, now, d, fresh, written) = started_with tx i db db' r h in
    subst AllReplay (sym written) (
      insert-Logged instance_tenant instance_id event_tenant event_instance Replays
        (new_instance tx i t p now) (start_event tx ∷ []) db.events db.instances
        (any-taken tx i db.instances fresh)
        (ground (arith, ==_refl tx.tenant_id, ==_refl (tx.uuid 0))) (started-Replays tx i t p now d)
        v)

-- The guards of a change, read back from its success.
record Checked (tx : Tx) (i : ChangeInput) (db : SlaDb) (s : SlaInstance) (t : SlaState)
    : Type 0 where
  found : find_where (is_instance tx.tenant_id i.instance_id) db.instances ≡ some s
  current : s.version ≡ i.expected_version
  reasoned : is_blank i.reason ≡ false
  may : may_change s.state (some t) ≡ true

check_change-Checked :
    (tx : Tx) (i : ChangeInput) (db : SlaDb) (s : SlaInstance) (t : SlaState)
    → check_change tx i db ≡ ok (s, t)
    → Checked tx i db s t
unfolding check_change throw_if or_throw assert_version
check_change-Checked tx i db s t h = record {
  found = ground arith;
  current = ground arith;
  reasoned = ground arith;
  may = ground arith;
}

completes-allowed : (s t : SlaState) → may_change s (some t) ≡ true → completes s ≡ false
unfolding may_change allowed
completes-allowed running t h = refl
completes-allowed paused t h = refl
completes-allowed warning t h = refl
completes-allowed critical t h = refl
completes-allowed breached t h = cc
completes-allowed met t h = cc
completes-allowed cancelled t h = cc

completed-present :
    (now : ℕ) (o : Option ℕ) (before after : Bool)
    → is_present o ≡ before
    → before ≡ false
    → is_present (if after then some now else o) ≡ after
completed-present now o before true h k = refl
completed-present now o before false h k = h ∙ k

changed-Replays :
    (tx : Tx) (i : ChangeInput) (db : SlaDb) (s : SlaInstance) (t : SlaState)
    → Checked tx i db s t
    → (es : List SlaEvent) → Replays (some s) es
    → Replays (some (change_row tx i t s)) (change_event tx i s.state t ∷ es)
changed-Replays tx i db s t c es (trail, count, present, le, due) = (
  changed (change_event tx i s.state t) es s.state t trail refl refl c.may c.reasoned,
  omega (arith, c.current, count),
  completed-present tx.now s.completed_at (completes s.state) (completes t) present
      (completes-allowed s.state t c.may),
  le,
  due,
)

transition_sla-AllReplay :
    (tx : Tx) (i : ChangeInput) (db db' : SlaDb) (r : SlaState × SlaState)
    → transition_sla tx i db ≡ ok (db', r)
    → AllReplay db
    → AllReplay db'
unfolding transition_sla
transition_sla-AllReplay tx i db db' r h v =
    let ((s, t), k, h1) = bind-inv (check_change tx i db) _ h in
    let c = check_change-Checked tx i db s t k in
    let written : db' ≡ record db {
      instances =
          update_where (is_instance tx.tenant_id i.instance_id) (change_row tx i t) db.instances;
      events = change_event tx i s.state t ∷ db.events;
    } =
      cc h1 in
    subst AllReplay (sym written) (
      update-Logged instance_tenant instance_id event_tenant event_instance Replays tx.tenant_id
        i.instance_id s (change_row tx i t) (change_event tx i s.state t ∷ []) db.events
        db.instances c.found (λ b e. e)
        (ground (arith, ==_refl tx.tenant_id, ==_refl i.instance_id))
        (changed-Replays tx i db s t c) v)

step-AllReplay : (tx : Tx) (c : Call) (db : SlaDb) → AllReplay db → AllReplay (step tx c db)
unfolding step
step-AllReplay tx (starts i) db v = elim (Result-cases (start_sla tx i db)) [
  | inl ((db', r), e) ↦ rw e (start_sla-AllReplay tx i db db' r e v)
  | inr (e, k) ↦ rw k v
]
step-AllReplay tx (changes i) db v = elim (Result-cases (transition_sla tx i db)) [
  | inl ((db', r), e) ↦ rw e (transition_sla-AllReplay tx i db db' r e v)
  | inr (e, k) ↦ rw k v
]

-- Any commands keep it that the events of each service level replay it: they lead from its start to its state
-- along the allowed changes, each change with a reason, its version is their number, it has a time of completion
-- exactly if it is breached, met or cancelled, and it is due no earlier than its start, at a time that a `Date`
-- has.
pub run-AllReplay :
    (calls : List (Tx × Call)) (db : SlaDb) → AllReplay db → AllReplay (run calls db)
unfolding run
run-AllReplay [] db v = v
run-AllReplay ((tx, c) ∷ calls) db v = run-AllReplay calls (step tx c db) (step-AllReplay tx c db v)
