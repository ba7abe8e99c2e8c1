-- ===== src/Platform/InboxLaws.antt =====
-- Deliveries after one that took effect, and after one that threw.
use itcenter.Base.{
  ℕ, ◌≡◌, refl, sym, ap, ◌∙◌, subst, inl, inr, true, false, not, some, List, [], ◌∷◌, arith, ◌==◌,
  ==_refl, Bool-cases, Option-cases, find_where, find_where-update_where,
}
use itcenter.Platform.Tx.{is_blank_id}
use itcenter.Platform.Errors.{ErrorCode, Result, ok, throw_if}
use itcenter.Platform.Inbox.{
  not_processed, failed, is_processed, is_not_processed, InboxEvent, Event, is_entry, new_entry,
  upsert, claim, Outcome, done, duplicate, thrown, effect, deliver, consume,
}
use itcenter.Platform.InboxWays.{
  IsDone, upsert-blocked, Way-IsDone, Way-done, consume-Way, written, claimed, failing, Way,
  refused, again, effected, failed_with,
}

-- A delivery of a processed event changes nothing.
consume-duplicate :
    {S : Type 0} (handler : ℕ → Event → S → Result S) (consumer : ℕ) (e : Event)
    (rows : List InboxEvent) (s : S)
    → is_blank_id consumer ≡ false
    → e.well_formed ≡ true
    → IsDone consumer e.event_id rows
    → consume handler consumer e (rows, s) ≡ ((rows, s), duplicate)
unfolding consume deliver claim effect throw_if
consume-duplicate handler consumer e rows s named whole (r, found, is_done) =
    ground (
      arith,
      upsert-blocked consumer e not_processed (λ r. not (is_processed r.status)) rows r found,
    )

-- Deliveries to any consumers, by one handler each, of any events.
unfoldable pub run :
    {S : Type 0}
    → (ℕ → Event → S → Result S)
    → List (ℕ × Event)
    → List InboxEvent × S
    → List InboxEvent × S
run handler [] st = st
run handler ((consumer, e) ∷ ds) st = run handler ds ((consume handler consumer e st).0)

run-IsDone :
    {S : Type 0} (handler : ℕ → Event → S → Result S) (ds : List (ℕ × Event)) (consumer id : ℕ)
    (st : List InboxEvent × S)
    → IsDone consumer id (st.0)
    → IsDone consumer id ((run handler ds st).0)
unfolding run
run-IsDone handler [] consumer id st d = d
run-IsDone handler ((consumer', e) ∷ ds) consumer id (rows, s) d =
    run-IsDone handler ds consumer id _
      (Way-IsDone consumer id consumer' e rows s _ (consume-Way handler consumer' e rows s) d)

-- Once a delivery of an event to a consumer has taken effect, any later delivery to the consumer of a
-- well-formed event with that id is a duplicate, whatever deliveries came between and whatever the
-- handlers do: it changes neither the inbox nor the rest of the database.
pub consume-once :
    {S : Type 0} (handler : ℕ → Event → S → Result S) (consumer : ℕ) (e e' : Event)
    (st st' : List InboxEvent × S) (ds : List (ℕ × Event))
    → consume handler consumer e st ≡ (st', done)
    → e'.event_id ≡ e.event_id
    → e'.well_formed ≡ true
    → consume handler consumer e' (run handler ds st') ≡ (run handler ds st', duplicate)
consume-once handler consumer e e' (rows, s) st' ds h same whole =
    let way = consume-Way handler consumer e rows s in
    let (d, named) = Way-done consumer e rows s _ way (ap (λ r. r.1) h) in
    let d' =
      subst (λ (st : List InboxEvent × _). IsDone consumer e.event_id (st.0)) (ap (λ r. r.0) h) d in
    let later = run-IsDone handler ds consumer e.event_id st' d' in
    consume-duplicate handler consumer e' ((run handler ds st').0) ((run handler ds st').1) named
      whole (subst (λ id. IsDone consumer id ((run handler ds st').0)) (sym same) later)

claimed-open :
    (consumer : ℕ) (e : Event) (rows : List InboxEvent) (r : InboxEvent)
    → find_where (is_entry consumer e.event_id) rows ≡ some r
    → is_processed r.status ≡ false
    → (r.tenant_id == e.tenant_id) ≡ true
    → (claimed consumer e rows).1 ≡ true
unfolding upsert
claimed-open consumer e rows r h k own = ground arith

-- What was claimed when a delivery failed can be claimed again.
claimed-failing :
    (consumer : ℕ) (e : Event) (rows : List InboxEvent)
    → (claimed consumer e rows).1 ≡ true
    → (claimed consumer e (failing consumer e rows)).1 ≡ true
unfolding upsert find_where
claimed-failing consumer e rows h =
    elim (Option-cases (find_where (is_entry consumer e.event_id) rows)) [
      | inl k ↦
          claimed-open consumer e (failing consumer e rows) (new_entry consumer e failed)
            (ground (arith, ==_refl consumer, ==_refl e.event_id)) refl (==_refl e.tenant_id)
      | inr (r, k) ↦ elim (Bool-cases (is_not_processed r.status)) [
        | inl n ↦
            claimed-open consumer e (failing consumer e rows) (written failed r)
              (ground (
                arith,
                find_where-update_where (is_entry consumer e.event_id) (written failed) rows r
                    (λ b k. k) k,
              ))
              refl (ground arith)
        | inr n ↦
            claimed-open consumer e (failing consumer e rows) r (ground arith) (ground arith)
              (ground arith)
      ]
    ]

Way-thrown :
    {S : Type 0} (consumer : ℕ) (e : Event) (rows : List InboxEvent) (s : S)
    (r : (List InboxEvent × S) × Outcome) (c : ErrorCode)
    → is_blank_id consumer ≡ false
    → e.well_formed ≡ true
    → Way consumer e rows s r
    → r.1 ≡ thrown c
    → ((claimed consumer e rows).1 ≡ true) × (r.0 ≡ (failing consumer e rows, s))
Way-thrown consumer e rows s _ c named whole (refused k) h = absurd (ground arith)
Way-thrown consumer e rows s _ c named whole (failed_with c' (inl b)) h = absurd (ground arith)
Way-thrown consumer e rows s _ c named whole (failed_with c' (inr w)) h = (w, refl)
Way-thrown consumer e rows s _ c named whole (again b) h = cc
Way-thrown consumer e rows s _ c named whole (effected s' b w) h = cc

redelivered :
    {S : Type 0} (handler : ℕ → Event → S → Result S) (consumer : ℕ) (e : Event) (s s' : S)
    (rows : List InboxEvent)
    → is_blank_id consumer ≡ false
    → e.well_formed ≡ true
    → (claimed consumer e rows).1 ≡ true
    → handler consumer e s ≡ ok s'
    → ((consume handler consumer e (rows, s)).1 ≡ done)
      × ((consume handler consumer e (rows, s)).0.1 ≡ s')
unfolding consume deliver claim effect throw_if
redelivered handler consumer e s s' rows named whole w h = (ground arith, ground arith)

-- A delivery of a well-formed event to a consumer whose name is not blank that throws leaves the rest of
-- the database as it was, and the event is not lost: the next delivery of it, if its handler succeeds on
-- that database, takes effect.
pub consume-retry :
    {S : Type 0} (handler handler' : ℕ → Event → S → Result S) (consumer : ℕ) (e : Event) (s s' : S)
    (rows : List InboxEvent) (st : List InboxEvent × S) (c : ErrorCode)
    → is_blank_id consumer ≡ false
    → e.well_formed ≡ true
    → consume handler consumer e (rows, s) ≡ (st, thrown c)
    → handler' consumer e s ≡ ok s'
    → (st.1 ≡ s)
      × ((consume handler' consumer e st).1 ≡ done)
      × ((consume handler' consumer e st).0.1 ≡ s')
consume-retry handler handler' consumer e s s' rows st c named whole h h' =
    let way = consume-Way handler consumer e rows s in
    let (w, k) = Way-thrown consumer e rows s _ c named whole way (ap (λ r. r.1) h) in
    let b' = claimed-failing consumer e rows w in
    let retried =
      redelivered handler' consumer e s s' (failing consumer e rows) named whole b' h' in
    let at = sym (ap (λ r. r.0) h) ∙ k in
    (
      ap (λ (st : List InboxEvent × _). st.1) at,
      ap (λ st. (consume handler' consumer e st).1) at ∙ retried.0,
      ap (λ st. (consume handler' consumer e st).0.1) at ∙ retried.1,
    )
