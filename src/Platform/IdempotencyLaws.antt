-- ===== src/Platform/IdempotencyLaws.antt =====
-- The records of executed operations as a memory from scopes to entries.
use itcenter.Base.{
  ℕ, ◌≡◌, refl, sym, ap, ◌∙◌, subst, Bool, true, false, not, ◌&&◌, ◌||◌, Option, none, some, List,
  [], ◌∷◌, arith, leb, ◌==◌, if◌then◌else◌, ==_refl, any, find_where, update_where, Text, ltb,
  text_eq, Bool-cases, inl, inr,
}
use itcenter.Platform.Tx.{Tx}
use itcenter.Platform.Errors.{
  operation_in_progress, validation_error, internal_error, Result, ok, err, ◌>>=◌, ◌>>◌, throw_if,
  idempotency_key_conflict, or_throw,
}
use itcenter.Platform.Idempotency.{
  Scope, StoredResponse, Entry, IdempotencyRecord, IdempotencyIntent, scope_eq, scope_of,
  is_unscoped, is_row, replay, succeed, new_record, run_work, answer, execute,
}

-- The abstract store: what is remembered of each scope.
abbrev pub Memory : Type 0
Memory = Scope → Option Entry

-- What the table remembers.
abbrev entry_of : Option IdempotencyRecord → Option Entry
entry_of none = none
entry_of (some r) = some r.entry

unfoldable pub memory : List IdempotencyRecord → Memory
memory rows k = entry_of (find_where (is_row k) rows)

unfoldable pub remember : Scope → Entry → Memory → Memory
remember k e m k' =
    if k.tenant_id == k'.tenant_id
      && (k.principal_id == k'.principal_id
          && (k.operation == k'.operation
              && (k.business_scope == k'.business_scope && k.key == k'.key)))
    then some e
    else m k'

-- The specification: a request of a scope that nothing is remembered of does its work, once, and its
-- response is remembered; any other does no work, and is told the response where the hash is the one that was
-- stored, the entry has not expired and the work is done.
unfoldable pub told :
    {S : Type 0} → Memory × S → Option StoredResponse → Result ((Memory × S) × StoredResponse)
told state none = err operation_in_progress
told state (some response) = ok (state, response)

module _ {Request S : Type 0} where
  unfoldable pub recall :
      Tx
      → IdempotencyIntent Request
      → Text
      → (S → Result (S × StoredResponse))
      → Memory
      → S
      → Option Entry
      → Result ((Memory × S) × StoredResponse)
  recall tx i hash work m s (some e) =
      if ltb tx.now e.expires_at && text_eq e.request_hash hash
      then told (m, s) e.response
      else err idempotency_key_conflict
  recall tx i hash work m s none = do
    throw_if (leb i.expires_at tx.now) internal_error
    (s', response) ← work s
    ok (
      (
        remember (scope_of tx i)
            (record { request_hash = hash; response = some response; expires_at = i.expires_at }) m,
        s',
      ),
      response,
    )

module _ {Request S : Type 0} (request_hash : Request → Result Text) where
  unfoldable pub memoized :
      Tx
      → Bool
      → IdempotencyIntent Request
      → (S → Result (S × StoredResponse))
      → Memory
      → S
      → Result ((Memory × S) × StoredResponse)
  memoized tx acquired i work m s = do
    throw_if (is_unscoped i) validation_error
    throw_if (not acquired) operation_in_progress
    hash ← request_hash i.semantic_request
    recall tx i hash work m s (m (scope_of tx i))

-- The results agree: the same error, or the same response and database and a table that remembers what the
-- specification does.
abbrev pub Agree :
    {S : Type 0}
    → Result ((List IdempotencyRecord × S) × StoredResponse)
    → Result ((Memory × S) × StoredResponse)
    → Type 0
Agree (ok ((rows, s), r)) (ok ((m, s'), r')) =
    ((k : Scope) → memory rows k ≡ m k) × (s ≡ s') × (r ≡ r')
Agree (err e) (err e') = e ≡ e'
Agree _ _ = ⊥

scope_eq-fields :
    (a b : Scope)
    → scope_eq a b ≡ (
        a.tenant_id == b.tenant_id
        && (a.principal_id == b.principal_id
            && (a.operation == b.operation
                && (a.business_scope == b.business_scope && a.key == b.key))))
unfolding scope_eq
scope_eq-fields a b = ground arith

entry_of-if :
    (b : Bool) (r : IdempotencyRecord) (o : Option IdempotencyRecord)
    → entry_of (if b then some r else o) ≡ (if b then some r.entry else entry_of o)
entry_of-if true r o = refl
entry_of-if false r o = refl

ltb-leb : (a b : ℕ) → ltb a b ≡ not (leb b a)
ltb-leb a b = ground arith

-- An update of rows that have an id which no old row has.
update-fresh :
    (id tenant : ℕ) (f : IdempotencyRecord → IdempotencyRecord) (rows : List IdempotencyRecord)
    → any (λ r. r.id == id) rows ≡ false
    → update_where (λ r. r.id == id && r.scope.tenant_id == tenant) f rows ≡ rows
unfolding update_where
update-fresh id tenant f [] h = refl
update-fresh id tenant f (r ∷ rows) h = ground (arith, update-fresh id tenant f rows)

-- The table after the work.
pub run_work-rows :
    {Request : Type 0} (tx : Tx) (i : IdempotencyIntent Request) (hash : Text)
    (response : StoredResponse) (rows : List IdempotencyRecord)
    → any (λ r. r.id == tx.uuid 0) rows ≡ false
    → update_where
        (λ r. r.id == tx.uuid 0 && r.scope.tenant_id == tx.tenant_id)
        (succeed response)
        (new_record tx i hash ∷ rows)
      ≡ succeed response (new_record tx i hash) ∷ rows
unfolding update_where
run_work-rows tx i hash response rows h = ground (
  arith,
  update-fresh (tx.uuid 0) tx.tenant_id (succeed response) rows h,
  ==_refl (tx.uuid 0),
  ==_refl tx.tenant_id,
)

>>=-Agree :
    {S A : Type 0} (m : Result A) (f : A → Result ((List IdempotencyRecord × S) × StoredResponse))
    (g : A → Result ((Memory × S) × StoredResponse))
    → ((a : A) → Agree (f a) (g a))
    → Agree (m >>= f) (m >>= g)
>>=-Agree (ok a) f g h = h a
>>=-Agree (err e) f g h = refl

>>-Agree :
    {S : Type 0} (m : Result (Unit {0}))
    (f : Result ((List IdempotencyRecord × S) × StoredResponse))
    (g : Result ((Memory × S) × StoredResponse))
    → Agree f g
    → Agree (m >> f) (m >> g)
>>-Agree (ok a) f g h = h
>>-Agree (err e) f g h = refl

or_false : (b : Bool) → b ≡ (b || false)
or_false true = refl
or_false false = refl

module _ {Request S : Type 0} (tx : Tx) (i : IdempotencyIntent Request)
    (work : S → Result (S × StoredResponse)) (rows : List IdempotencyRecord) (s : S) where
  abbrev remembered : Text → StoredResponse → Memory
  remembered hash response =
      remember (scope_of tx i)
        (record { request_hash = hash; response = some response; expires_at = i.expires_at })
        (memory rows)

  memory-head :
      (hash : Text) (response : StoredResponse) (k : Scope)
      → memory (succeed response (new_record tx i hash) ∷ rows) k ≡ remembered hash response k
  unfolding memory remember find_where
  memory-head hash response k = rw (scope_eq-fields (scope_of tx i) k) (entry_of-if _ _ _)

  -- The insert, the work and the update, where the insert is refused or not.
  abbrev attempt : Text → Bool → Result ((List IdempotencyRecord × S) × StoredResponse)
  attempt hash refused = do
    throw_if refused internal_error
    (s', response) ← work s
    ok (
      (
        update_where (λ r. r.id == tx.uuid 0 && r.scope.tenant_id == tx.tenant_id)
            (succeed response) (new_record tx i hash ∷ rows),
        s',
      ),
      response,
    )

  -- Both sides, after the tests and the work that they share.
  worked-Agree :
      (hash : Text)
      → any (λ r. r.id == tx.uuid 0) rows ≡ false
      → (late : Bool) (w : Result (S × StoredResponse))
      → Agree
          (do
            throw_if late internal_error
            (s', response) ← w
            ok (
              (
                update_where
                    (λ r. r.id == tx.uuid 0 && r.scope.tenant_id == tx.tenant_id)
                    (succeed response)
                    (new_record tx i hash ∷ rows),
                s',
              ),
              response,
            ))
          (do
            throw_if late internal_error
            (s', response) ← w
            ok ((remembered hash response, s'), response))
  unfolding throw_if
  worked-Agree hash fresh true w = refl
  worked-Agree hash fresh false (err e) = refl
  worked-Agree hash fresh false (ok (s', response)) = (
    λ k.
        ap (λ rows. memory rows k) (run_work-rows tx i hash response rows fresh)
        ∙ memory-head hash response k,
    refl,
    refl,
  )

  told-Agree :
      (o : Option StoredResponse)
      → Agree
          (do response ← or_throw o operation_in_progress; ok ((rows, s), response))
          (told (memory rows, s) o)
  unfolding told or_throw
  told-Agree none = refl
  told-Agree (some response) = (λ k. refl, refl, refl)

  -- What is told of an entry, by the code and by the memory.
  replay-Agree :
      (hash : Text) (e : Entry)
      → Agree
          (do response ← replay tx hash e; ok ((rows, s), response))
          (recall tx i hash work (memory rows) s (some e))
  unfolding replay recall throw_if
  replay-Agree hash e = elim (Bool-cases (leb e.expires_at tx.now)) [
    | inl late ↦ rw (ltb-leb tx.now e.expires_at, late) refl
    | inr early ↦ elim (Bool-cases (text_eq e.request_hash hash)) [
      | inl same ↦ rw (ltb-leb tx.now e.expires_at, early, same) (told-Agree e.response)
      | inr other ↦ rw (ltb-leb tx.now e.expires_at, early, other) refl
    ]
  ]

  answer-Agree :
      (hash : Text)
      → any (λ r. r.id == tx.uuid 0) rows ≡ false
      → (o : Option IdempotencyRecord)
      → Agree (answer tx i hash work rows s o) (recall tx i hash work (memory rows) s (entry_of o))
  unfolding run_work answer recall
  answer-Agree hash fresh none =
      subst
        (λ b.
          Agree (attempt hash (leb i.expires_at tx.now || b))
            (recall tx i hash work (memory rows) s none))
        (sym fresh)
        (subst (λ b. Agree (attempt hash b) (recall tx i hash work (memory rows) s none))
          (or_false (leb i.expires_at tx.now))
          (worked-Agree hash fresh (leb i.expires_at tx.now) (work s)))
  answer-Agree hash fresh (some r) = replay-Agree hash r.entry

  -- Executing an operation does what a memory of responses does: where the drawn id is new, it throws the same
  -- error, or returns the same response, leaves the rest of the database the same, and leaves a table that
  -- remembers what the memory then holds. In particular the work is done only for a scope that is not
  -- remembered, and a remembered response is given only to a request with the stored hash, before it expires.
  pub execute-refines :
      (request_hash : Request → Result Text) (acquired : Bool)
      → any (λ r. r.id == tx.uuid 0) rows ≡ false
      → Agree
          (execute request_hash tx acquired i work rows s)
          (memoized request_hash tx acquired i work (memory rows) s)
  unfolding execute memoized memory
  execute-refines request_hash acquired fresh =
      >>-Agree (throw_if (is_unscoped i) validation_error) _ _ (
        >>-Agree (throw_if (not acquired) operation_in_progress) _ _ (
          >>=-Agree (request_hash i.semantic_request) _ _
            λ hash. answer-Agree hash fresh (find_where (is_row (scope_of tx i)) rows)))
