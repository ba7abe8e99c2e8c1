-- ===== src/Platform/InboxWays.antt =====
-- The ways that a delivery to a consumer can go, and what each leaves in the inbox.
use itcenter.Base.{
  ℕ, ◌≡◌, refl, sym, ap, ◌∙◌, subst, ◌⊎◌, inl, inr, Bool, true, false, not, ◌&&◌, some, List, arith,
  ◌==◌, if◌then◌else◌, eq_of_==, ==_refl, Bool-cases, Option-cases, find_where, find_where-holds,
  find_where-update_where, find_where-update_other,
}
use itcenter.Platform.Tx.{row_is, is_blank_id}
use itcenter.Platform.Errors.{ErrorCode, internal_error, Result, throw_if}
use itcenter.Base.{find_where-update_any}
use itcenter.Platform.Errors.{Result-cases}
use itcenter.Platform.Inbox.{
  Status, not_processed, processed, failed, is_processed, is_not_processed, is_failed, InboxEvent,
  Event, is_entry, new_entry, upsert, claim, mark_processed, Outcome, done, duplicate, thrown,
  effect, deliver, consume,
}

-- The inbox holds that a consumer has processed an event.
abbrev pub IsDone : ℕ → ℕ → List InboxEvent → Type 0
IsDone consumer id rows =
    (r : InboxEvent) × (find_where (is_entry consumer id) rows ≡ some r)
    × (is_processed r.status ≡ true)

pub upsert-blocked :
    (consumer : ℕ) (e : Event) (s : Status) (may : InboxEvent → Bool) (rows : List InboxEvent)
    (r : InboxEvent)
    → find_where (is_entry consumer e.event_id) rows ≡ some r
    → may r ≡ false
    → upsert consumer e s may rows ≡ (rows, false)
unfolding upsert
upsert-blocked consumer e s may rows r h k = ground arith

entries_apart :
    (consumer id consumer' id' : ℕ) (r : InboxEvent)
    → row_is consumer id consumer' id' ≡ false
    → is_entry consumer' id' r ≡ true
    → is_entry consumer id r ≡ false
entries_apart consumer id consumer' id' r h k =
    rw (eq_of_== r.consumer_name consumer' (ground arith), eq_of_== r.event_id id' (ground arith)) h

abbrev pub written : Status → InboxEvent → InboxEvent
written s r = record r { status = s; has_error = is_failed s }

-- An upsert of another entry is not seen by a query.
upsert-other :
    (consumer id consumer' : ℕ) (e : Event) (s : Status) (may : InboxEvent → Bool)
    (rows : List InboxEvent)
    → row_is consumer id consumer' e.event_id ≡ false
    → find_where (is_entry consumer id) ((upsert consumer' e s may rows).0)
      ≡ find_where (is_entry consumer id) rows
unfolding upsert find_where
upsert-other consumer id consumer' e s may rows h =
    elim (Option-cases (find_where (is_entry consumer' e.event_id) rows)) [
      | inl k ↦ ground arith
      | inr (r, k) ↦ ground (
        arith,
        find_where-update_other (is_entry consumer id) (is_entry consumer' e.event_id) (written s)
            rows (λ r k. entries_apart consumer id consumer' e.event_id r h k)
            (λ r k. entries_apart consumer id consumer' e.event_id (written s r) h k),
      )
    ]

mark-IsDone :
    (consumer id consumer' : ℕ) (e : Event) (rows : List InboxEvent)
    → IsDone consumer id rows
    → IsDone consumer id (mark_processed consumer' e rows)
unfolding mark_processed
mark-IsDone consumer id consumer' e rows (r, found, is_done) = (
  if hit r then record r { status = processed } else r,
  find_where-update_any (is_entry consumer id) hit (λ r. record r { status = processed }) rows r
      (λ r. refl) found,
  ground arith,
)
  where
    hit : InboxEvent → Bool
    hit r = is_entry consumer' e.event_id r && r.tenant_id == e.tenant_id

-- A claim or a failure of any event leaves a processed entry as it is.
upsert-IsDone :
    (consumer id consumer' : ℕ) (e : Event) (s : Status) (may : InboxEvent → Bool)
    (rows : List InboxEvent)
    → ((r : InboxEvent) → is_processed r.status ≡ true → may r ≡ false)
    → IsDone consumer id rows
    → IsDone consumer id ((upsert consumer' e s may rows).0)
upsert-IsDone consumer id consumer' e s may rows bars (r, found, is_done) =
    elim (Bool-cases (row_is consumer id consumer' e.event_id)) [
      | inl h ↦
          subst (λ (x : List InboxEvent × Bool). IsDone consumer id x.0)
            (sym (upsert-blocked consumer' e s may rows r (same h) (bars r is_done)))
            (r, found, is_done)
      | inr h ↦ (r, upsert-other consumer id consumer' e s may rows h ∙ found, is_done)
    ]
  where
    same :
        row_is consumer id consumer' e.event_id ≡ true
        → find_where (is_entry consumer' e.event_id) rows ≡ some r
    same h =
        rw (eq_of_== consumer' consumer (ground arith), eq_of_== e.event_id id (ground arith)) found

-- The entries after a claim and after a failure, and whether an entry could be claimed.
abbrev pub claimed : ℕ → Event → List InboxEvent → List InboxEvent × Bool
claimed consumer e rows = upsert consumer e not_processed (λ r. not (is_processed r.status)) rows

abbrev pub failing : ℕ → Event → List InboxEvent → List InboxEvent
failing consumer e rows = (upsert consumer e failed (λ r. is_not_processed r.status) rows).0

-- The ways of a delivery, with the entries and the rest of the database that each leaves.
pub data Way {S : Type 0} (consumer : ℕ) (e : Event) (rows : List InboxEvent) (s : S)
    : (List InboxEvent × S) × Outcome → Type 0 where
  refused : e.well_formed ≡ false → Way consumer e rows s ((rows, s), thrown internal_error)
  again :
      is_blank_id consumer ≡ false
      → Way consumer e rows s (((claimed consumer e rows).0, s), duplicate)
  effected :
      (s' : S)
      → is_blank_id consumer ≡ false
      → (claimed consumer e rows).1 ≡ true
      → Way consumer e rows s ((mark_processed consumer e ((claimed consumer e rows).0), s'), done)
  failed_with :
      (c : ErrorCode)
      → (is_blank_id consumer ≡ true) ⊎ ((claimed consumer e rows).1 ≡ true)
      → Way consumer e rows s ((failing consumer e rows, s), thrown c)

module _ {S : Type 0} (handler : ℕ → Event → S → Result S) where
  pub consume-Way :
      (consumer : ℕ) (e : Event) (rows : List InboxEvent) (s : S)
      → Way consumer e rows s (consume handler consumer e (rows, s))
  unfolding consume deliver claim effect throw_if
  consume-Way consumer e rows s = elim (Bool-cases e.well_formed) [
    | inr k ↦ subst (Way consumer e rows s) (ground arith) (refused k)
    | inl k ↦ elim (Bool-cases (is_blank_id consumer)) [
      | inl b ↦ subst (Way consumer e rows s) (ground arith) (failed_with internal_error (inl b))
      | inr b ↦ elim (Bool-cases ((claimed consumer e rows).1)) [
        | inr w ↦ subst (Way consumer e rows s) (ground arith) (again b)
        | inl w ↦ elim (Result-cases (handler consumer e s)) [
          | inl (s', h) ↦ subst (Way consumer e rows s) (ground arith) (effected s' b w)
          | inr (c, h) ↦ subst (Way consumer e rows s) (ground arith) (failed_with c (inr w))
        ]
      ]
    ]
  ]

pub Way-IsDone :
    {S : Type 0} (consumer id consumer' : ℕ) (e : Event) (rows : List InboxEvent) (s : S)
    (r : (List InboxEvent × S) × Outcome)
    → Way consumer' e rows s r
    → IsDone consumer id rows
    → IsDone consumer id (r.0.0)
Way-IsDone consumer id consumer' e rows s _ (refused k) d = d
Way-IsDone consumer id consumer' e rows s _ (again b) d =
    upsert-IsDone consumer id consumer' e not_processed (λ r. not (is_processed r.status)) rows
      (λ r h. rw h refl) d
Way-IsDone consumer id consumer' e rows s _ (effected s' b w) d =
    mark-IsDone consumer id consumer' e _ (
      upsert-IsDone consumer id consumer' e not_processed (λ r. not (is_processed r.status)) rows
        (λ r h. rw h refl) d)
Way-IsDone consumer id consumer' e rows s _ (failed_with c k) d =
    upsert-IsDone consumer id consumer' e failed (λ r. is_not_processed r.status) rows
      (λ r h. processed_bars r.status h) d
  where
    processed_bars : (t : Status) → is_processed t ≡ true → is_not_processed t ≡ false
    processed_bars processed h = refl
    processed_bars failed h = refl
    processed_bars not_processed h = cc

-- A claim that is won leaves an entry of the event's tenant.
claimed-entry :
    (consumer : ℕ) (e : Event) (rows : List InboxEvent)
    → (claimed consumer e rows).1 ≡ true
    → (r : InboxEvent) × (find_where (is_entry consumer e.event_id) ((claimed consumer e rows).0)
        ≡ some r)
      × (r.tenant_id ≡ e.tenant_id)
unfolding upsert find_where
claimed-entry consumer e rows h =
    elim (Option-cases (find_where (is_entry consumer e.event_id) rows)) [
      | inl k ↦ (
        new_entry consumer e not_processed,
        ground (arith, ==_refl consumer, ==_refl e.event_id),
        refl,
      )
      | inr (r, k) ↦ (
        written not_processed r,
        ground (
          arith,
          find_where-update_where (is_entry consumer e.event_id) (written not_processed) rows r
              (λ b k. k) k,
        ),
        eq_of_== r.tenant_id e.tenant_id (ground arith),
      )
    ]

pub Way-done :
    {S : Type 0} (consumer : ℕ) (e : Event) (rows : List InboxEvent) (s : S)
    (r : (List InboxEvent × S) × Outcome)
    → Way consumer e rows s r
    → r.1 ≡ done
    → IsDone consumer e.event_id (r.0.0) × (is_blank_id consumer ≡ false)
unfolding mark_processed
Way-done consumer e rows s _ (effected s' b w) h =
    let (r, found, own) = claimed-entry consumer e rows w in
    (
      (
        if hit r then record r { status = processed } else r,
        find_where-update_any (is_entry consumer e.event_id) hit
            (λ r. record r { status = processed }) ((claimed consumer e rows).0) r (λ r. refl)
            found,
        marked r
            (find_where-holds (is_entry consumer e.event_id) ((claimed consumer e rows).0) r found)
            own,
      ),
      b,
    )
  where
    hit : InboxEvent → Bool
    hit r = is_entry consumer e.event_id r && r.tenant_id == e.tenant_id

    marked :
        (r : InboxEvent)
        → is_entry consumer e.event_id r ≡ true
        → r.tenant_id ≡ e.tenant_id
        → is_processed ((if hit r then record r { status = processed } else r).status) ≡ true
    marked r k own = ground (arith, ap (λ t. t == e.tenant_id) own, ==_refl e.tenant_id)
Way-done consumer e rows s _ (refused k) h = cc
Way-done consumer e rows s _ (again b) h = cc
Way-done consumer e rows s _ (failed_with c k) h = cc
