-- ===== src/Examples/Idempotency.antt =====
-- A request that is sent for the first time, and the theorem of the executed operations at it.
use itcenter.Base.{
  ℕ, ◌+◌, ◌≡◌, refl, true, some, List, [], ◌∷◌, find_where, update_where, Text, text_eq,
}
use itcenter.Platform.Tx.{Tx}
use itcenter.Platform.Errors.{Result, ok, err, throw_if, or_throw}
use itcenter.Platform.Idempotency.{
  IdempotencyIntent, StoredResponse, IdempotencyRecord, scope_eq, scope_of, replay, run_work,
  answer, execute,
}
use itcenter.Platform.IdempotencyLaws.{memory, memoized, Agree, execute-refines}

ran : Unit {0}
unfolding execute answer run_work replay or_throw scope_eq find_where update_where throw_if text_eq
ran = tt

abbrev tx : Tx
tx = record { tenant_id = 1; now = 1000; uuid = λ n. 40 + n }

abbrev intent : ℕ → IdempotencyIntent ℕ
intent key = record {
  principal_id = 2;
  operation = 3;
  business_scope = 4;
  key = key;
  semantic_request = 9;
  expires_at = 2000;
}

-- The hash of a number.
hash_of : ℕ → Result Text
hash_of n = ok (n ∷ [])

-- The work counts, and answers with the status 201.
counts : ℕ → Result (ℕ × StoredResponse)
counts n = ok (n + 1, record { status = 201; body = [] })

-- An earlier request under another key.
abbrev rows : List IdempotencyRecord
rows =
    record {
      id = 39;
      scope = scope_of tx (intent 5);
      entry = record {
        request_hash = 9 ∷ [];
        response = some (record { status = 200; body = [] });
        expires_at = 1500;
      };
    }
    ∷ []

-- A new key does the work, a known one does not.
count_after : Result ((List IdempotencyRecord × ℕ) × StoredResponse) → ℕ
count_after (ok ((_, s), _)) = s
count_after (err _) = 0

worked : count_after (execute hash_of tx true (intent 6) counts rows 7) ≡ 8
unfolding ran hash_of counts count_after
worked = refl

repeated : count_after (execute hash_of tx true (intent 5) counts rows 7) ≡ 7
unfolding ran hash_of counts count_after
repeated = refl

execute-refines_example :
    Agree
      (execute hash_of tx true (intent 6) counts rows 7)
      (memoized hash_of tx true (intent 6) counts (memory rows) 7)
execute-refines_example = execute-refines tx (intent 6) counts rows 7 hash_of true refl
