-- ===== src/Platform/Inbox.antt =====
-- packages/messaging/src/index.ts: the inbox of a consumer, and `consume`, which runs a handler once for
-- each event.
use itcenter.Base.{
  ℕ, Bool, true, false, not, ◌&&◌, none, some, List, ◌∷◌, ◌==◌, if◌then◌else◌, find_where,
  update_where,
}
use itcenter.Platform.Tx.{is_blank_id}
use itcenter.Platform.Errors.{ErrorCode, internal_error, Result, ok, err, ◌>>=◌, ◌>>◌, throw_if}

pub data Status : Type 0 where
  not_processed processed failed : Status

abbrev pub is_processed : Status → Bool
is_processed processed = true
is_processed _ = false

abbrev pub is_not_processed : Status → Bool
is_not_processed not_processed = true
is_not_processed _ = false

abbrev pub is_failed : Status → Bool
is_failed failed = true
is_failed _ = false

-- A row of `platform.inbox_events`; `has_error` says whether its `error_code` is set.
pub record InboxEvent : Type 0 where
  pub consumer_name : ℕ
  pub event_id : ℕ
  pub tenant_id : ℕ
  pub status : Status
  pub has_error : Bool

-- What `consume` reads of an envelope; `well_formed` is whether `assertEvent` accepts it.
pub record Event : Type 0 where
  pub event_id : ℕ
  pub tenant_id : ℕ
  pub well_formed : Bool

-- The primary key `(consumer_name, event_id)`.
abbrev pub is_entry : ℕ → ℕ → InboxEvent → Bool
is_entry consumer id r = r.consumer_name == consumer && r.event_id == id

abbrev pub new_entry : ℕ → Event → Status → InboxEvent
new_entry consumer e s = record {
  consumer_name = consumer;
  event_id = e.event_id;
  tenant_id = e.tenant_id;
  status = s;
  has_error = is_failed s;
}

-- `INSERT … ON CONFLICT DO UPDATE … WHERE`: the rows, and whether a row was written.
unfoldable pub upsert :
    ℕ → Event → Status → (InboxEvent → Bool) → List InboxEvent → List InboxEvent × Bool
upsert consumer e s may rows = elim (find_where (is_entry consumer e.event_id) rows) [
  | none ↦ (new_entry consumer e s ∷ rows, true)
  | some r ↦
      if may r && r.tenant_id == e.tenant_id
      then (
        update_where (is_entry consumer e.event_id)
            (λ r. record r { status = s; has_error = is_failed s }) rows,
        true,
      )
      else (rows, false)
]

-- `PostgresInboxStore.claim` and `processed`, in a transaction of the event's tenant.
unfoldable pub claim : ℕ → Event → List InboxEvent → Result (List InboxEvent × Bool)
claim consumer e rows = do
  throw_if (is_blank_id consumer) internal_error
  ok (upsert consumer e not_processed (λ r. not (is_processed r.status)) rows)

unfoldable pub mark_processed : ℕ → Event → List InboxEvent → List InboxEvent
mark_processed consumer e rows =
    update_where (λ r. is_entry consumer e.event_id r && r.tenant_id == e.tenant_id)
      (λ r. record r { status = processed }) rows

pub data Outcome : Type 0 where
  done duplicate : Outcome
  thrown : ErrorCode → Outcome

-- A handler is code of the caller: what it does to the rest of the database, or the error that it throws.
module _ {S : Type 0} (handler : ℕ → Event → S → Result S) where
  -- The transaction of the effect, after the claim and as a whole.
  unfoldable pub effect :
      ℕ → Event → List InboxEvent → S → Bool → Result ((List InboxEvent × S) × Outcome)
  effect consumer e rows s false = ok ((rows, s), duplicate)
  effect consumer e rows s true = do
    s' ← handler consumer e s
    ok ((mark_processed consumer e rows, s'), done)

  unfoldable pub deliver :
      ℕ → Event → List InboxEvent → S → Result ((List InboxEvent × S) × Outcome)
  deliver consumer e rows s = do
    (claimed, won) ← claim consumer e rows
    effect consumer e claimed s won

  -- `consume`: where the transaction throws it is rolled back, and another records the failure.
  unfoldable pub consume : ℕ → Event → List InboxEvent × S → (List InboxEvent × S) × Outcome
  consume consumer e (rows, s) =
      if not e.well_formed
      then ((rows, s), thrown internal_error)
      else elim (deliver consumer e rows s) [
        | ok r ↦ r
        | err c ↦
            (((upsert consumer e failed (λ r. is_not_processed r.status) rows).0, s), thrown c)
      ]
