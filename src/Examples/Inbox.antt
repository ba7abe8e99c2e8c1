-- ===== src/Examples/Inbox.antt =====
-- Deliveries of events to a consumer that counts, and the theorems of the inbox at them.
use itcenter.Base.{ℕ, ◌+◌, ◌≡◌, refl, true, List, [], ◌∷◌, find_where, update_where}
use itcenter.Platform.Errors.{internal_error, Result, ok, err, throw_if}
use itcenter.Platform.Inbox.{
  InboxEvent, Event, upsert, claim, mark_processed, done, duplicate, effect, deliver, consume,
}
use itcenter.Platform.InboxLaws.{run, consume-once, consume-retry}

delivered : Unit {0}
unfolding upsert claim mark_processed effect deliver consume find_where update_where throw_if
delivered = tt

-- The handler adds the event's id to a sum; the other one throws.
adds : ℕ → Event → ℕ → Result ℕ
adds consumer e n = ok (n + e.event_id)

breaks : ℕ → Event → ℕ → Result ℕ
breaks consumer e n = err internal_error

abbrev event : Event
event = record { event_id = 7; tenant_id = 1; well_formed = true }

abbrev further : List (ℕ × Event)
further = (3, event) ∷ (2, record { event_id = 8; tenant_id = 1; well_formed = true }) ∷ []

abbrev after_one : List InboxEvent × ℕ
after_one = (consume adds 2 event ([], 0)).0

consume-once_example :
    consume adds 2 event (run adds further after_one) ≡ (run adds further after_one, duplicate)
unfolding delivered adds
consume-once_example = consume-once adds 2 event event ([], 0) after_one further refl refl refl

abbrev after_failure : List InboxEvent × ℕ
after_failure = (consume breaks 2 event ([], 5)).0

consume-retry_example :
    (after_failure.1 ≡ 5)
    × ((consume adds 2 event after_failure).1 ≡ done)
    × ((consume adds 2 event after_failure).0.1 ≡ 12)
unfolding delivered adds breaks
consume-retry_example =
    consume-retry breaks adds 2 event 5 12 [] after_failure internal_error refl refl refl refl
