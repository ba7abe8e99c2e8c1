-- ===== src/Control/ApprovalLaws.antt =====
-- Approval requests with the decisions on them, over any sequence of commands.
use itcenter.Base.{
  ℕ, ◌≡◌, refl, sym, subst, ◌≢◌, inl, inr, Bool, true, false, Option, none, some, List, [], ◌∷◌,
  arith, ◌==◌, ==_refl, any, every, find_where, update_where, is_blank,
}
use itcenter.Platform.Tx.{Tx}
use itcenter.Platform.Errors.{
  ErrorCode, Result-cases, not_found, internal_error, Result, ok, err, throw_if, or_throw, bind-inv,
  assert_version,
}
use itcenter.Platform.Logged.{Logged, insert-Logged, update-Logged}
use itcenter.Control.Approval.{
  pending, is_pending, Decision, approve, reject, request_changes, decided_state, ApprovalRequest,
  ApprovalDecision, ApprovalDb, ApprovalInput, DecisionInput, is_request, is_decision_on, is_taken,
  new_request, decide_row, new_decision, create_approval, check_decision, decide_approval,
}
use itcenter.Platform.Errors.{>>-inv}

pub data Call : Type 0 where
  creates : ApprovalInput → Call
  decides : DecisionInput → Call

-- A command that throws leaves the tables as they were.
abbrev after : ApprovalDb → Result (ApprovalDb × ApprovalRequest) → ApprovalDb
after db (ok (db', r)) = db'
after db (err e) = db

unfoldable pub step : Tx → Call → ApprovalDb → ApprovalDb
step tx (creates i) db = after db (create_approval tx i db)
step tx (decides i) db = after db (decide_approval tx i db)

unfoldable pub run : List (Tx × Call) → ApprovalDb → ApprovalDb
run [] db = db
run ((tx, c) ∷ calls) db = run calls (step tx c db)

-- What a request and the decisions on it say of each other: it is pending as long as there is none, and takes
-- its state from a single one, of another actor, with a reason.
abbrev pub IsDecidedBy : Option ApprovalRequest → List ApprovalDecision → Type 0
IsDecidedBy none ds = ds ≡ []
IsDecidedBy (some r) [] = (r.state ≡ pending) × (r.version ≡ 1)
IsDecidedBy (some r) (d ∷ []) =
    (r.state ≡ decided_state d.decision)
    × (r.version ≡ 2)
    × (d.actor_id ≢ r.requested_by)
    × (is_blank d.reason ≡ false)
IsDecidedBy (some r) (d ∷ e ∷ ds) = ⊥

abbrev request_tenant : ApprovalRequest → ℕ
request_tenant r = r.tenant_id

abbrev request_id : ApprovalRequest → ℕ
request_id r = r.id

abbrev decision_tenant : ApprovalDecision → ℕ
decision_tenant d = d.tenant_id

abbrev decision_request : ApprovalDecision → ℕ
decision_request d = d.request_id

abbrev pub AllDecided : ApprovalDb → Type 0
AllDecided db =
    Logged request_tenant request_id decision_tenant decision_request IsDecidedBy db.requests
      db.decisions

any-taken :
    (tx : Tx) (i : ApprovalInput) (rows : List ApprovalRequest)
    → any (is_taken tx i) rows ≡ false
    → any (λ r. r.id == tx.uuid 0) rows ≡ false
any-taken tx i [] h = refl
any-taken tx i (r ∷ rows) h = ground (arith, any-taken tx i rows)

throw_if-passes : (b : Bool) (e : ErrorCode) → throw_if b e ≡ ok tt → b ≡ false
unfolding throw_if
throw_if-passes b e h = ground arith

created :
    (tx : Tx) (i : ApprovalInput) (ds : List ApprovalDecision)
    → IsDecidedBy none ds
    → IsDecidedBy (some (new_request tx i)) ds
created tx i [] v = (refl, refl)
created tx i (d ∷ ds) v = cc

create_approval-AllDecided :
    (tx : Tx) (i : ApprovalInput) (db db' : ApprovalDb) (r : ApprovalRequest)
    → create_approval tx i db ≡ ok (db', r)
    → AllDecided db
    → AllDecided db'
unfolding create_approval
create_approval-AllDecided tx i db db' r h v =
    let (p, _, h1) = bind-inv (or_throw (find_where _ db.policies) not_found) _ h in
    let (fresh, h2) = >>-inv (throw_if (any (is_taken tx i) db.requests) internal_error) _ h1 in
    let written : db' ≡ record db { requests = new_request tx i ∷ db.requests } = cc h2 in
    subst AllDecided (sym written) (
      insert-Logged request_tenant request_id decision_tenant decision_request IsDecidedBy
        (new_request tx i) [] db.decisions db.requests
        (any-taken tx i db.requests (throw_if-passes _ _ fresh)) refl (created tx i) v)

-- The guards of a decision, read back from its success.
record Checked (tx : Tx) (i : DecisionInput) (db : ApprovalDb) (d : Decision) (r : ApprovalRequest)
    : Type 0 where
  found : find_where (is_request tx.tenant_id i.request_id) db.requests ≡ some r
  current : r.version ≡ i.expected_version
  by_another : r.requested_by == i.actor_id ≡ false
  waiting : is_pending r.state ≡ true
  reasoned : is_blank i.reason ≡ false

check_decision-Checked :
    (tx : Tx) (i : DecisionInput) (db : ApprovalDb) (d : Decision) (r : ApprovalRequest)
    → check_decision tx i db ≡ ok (d, r)
    → Checked tx i db d r
unfolding check_decision throw_if or_throw assert_version
check_decision-Checked tx i db d r h = record {
  found = ground arith;
  current = ground arith;
  by_another = ground arith;
  waiting = ground arith;
  reasoned = ground arith;
}

self : {a b : ℕ} → a ≡ b → b == a ≡ false → ⊥
self e h = absurd (ground (arith, e))

decided_state-settled : (d : Decision) → is_pending (decided_state d) ≢ true
decided_state-settled approve h = cc
decided_state-settled reject h = cc
decided_state-settled request_changes h = cc

decided :
    (tx : Tx) (i : DecisionInput) (db : ApprovalDb) (d : Decision) (r : ApprovalRequest)
    → Checked tx i db d r
    → (ds : List ApprovalDecision) → IsDecidedBy (some r) ds
    → IsDecidedBy (some (decide_row tx i d r)) (new_decision tx i d ∷ ds)
decided tx i db d r c [] (s, one) =
    (refl, omega (arith, c.current, one), λ e. self e c.by_another, c.reasoned)
decided tx i db d r c (x ∷ []) (s, _, _, _) =
    absurd (decided_state-settled x.decision (subst (λ t. is_pending t ≡ true) s c.waiting))
decided tx i db d r c (x ∷ y ∷ ds) v = elim v [ ]

mine :
    (tx : Tx) (i : DecisionInput) (d : Decision)
    → every (λ x. is_decision_on tx.tenant_id i.request_id x) (new_decision tx i d ∷ []) ≡ true
mine tx i d = ground (arith, ==_refl tx.tenant_id, ==_refl i.request_id)

decide_approval-AllDecided :
    (tx : Tx) (i : DecisionInput) (db db' : ApprovalDb) (r : ApprovalRequest)
    → decide_approval tx i db ≡ ok (db', r)
    → AllDecided db
    → AllDecided db'
unfolding decide_approval
decide_approval-AllDecided tx i db db' r h v =
    let ((d, r), k, h1) = bind-inv (check_decision tx i db) _ h in
    let c = check_decision-Checked tx i db d r k in
    let (_, h2) =
      >>-inv (throw_if (any (λ x. x.id == tx.uuid 0) db.decisions) internal_error) _ h1 in
    let written : db' ≡ record db {
      requests =
          update_where (is_request tx.tenant_id i.request_id) (decide_row tx i d) db.requests;
      decisions = new_decision tx i d ∷ db.decisions;
    } =
      cc h2 in
    subst AllDecided (sym written) (
      update-Logged request_tenant request_id decision_tenant decision_request IsDecidedBy
        tx.tenant_id i.request_id r (decide_row tx i d) (new_decision tx i d ∷ []) db.decisions
        db.requests c.found (λ b e. e) (mine tx i d) (decided tx i db d r c) v)

step-AllDecided : (tx : Tx) (c : Call) (db : ApprovalDb) → AllDecided db → AllDecided (step tx c db)
unfolding step
step-AllDecided tx (creates i) db v = elim (Result-cases (create_approval tx i db)) [
  | inl ((db', r), e) ↦ rw e (create_approval-AllDecided tx i db db' r e v)
  | inr (e, k) ↦ rw k v
]
step-AllDecided tx (decides i) db v = elim (Result-cases (decide_approval tx i db)) [
  | inl ((db', r), e) ↦ rw e (decide_approval-AllDecided tx i db db' r e v)
  | inr (e, k) ↦ rw k v
]

-- The four eyes of an approval, kept by any commands of any tenants, in any order, from tables in which it
-- holds: a request is pending at version 1 and has no decision, or it has, at version 2, the state of the one
-- decision on it, which has a reason and was made by another actor than the requester.
pub run-AllDecided :
    (calls : List (Tx × Call)) (db : ApprovalDb) → AllDecided db → AllDecided (run calls db)
unfolding run
run-AllDecided [] db v = v
run-AllDecided ((tx, c) ∷ calls) db v =
    run-AllDecided calls (step tx c db) (step-AllDecided tx c db v)
