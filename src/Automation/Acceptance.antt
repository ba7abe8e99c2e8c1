-- ===== src/Automation/Acceptance.antt =====
-- Conditions that are accepted, and their evaluation.
use itcenter.Base.{
  ℕ, ◌+◌, ◌≤◌, ◌≡◌, refl, inl, inr, Bool, true, false, not, none, some, List, arith, Bool-cases,
  length, Text, text_eq,
}
use itcenter.Platform.Errors.{ok, throw_if, bind-inv}
use itcenter.Base.Json.{Json, array, object, Items, nil, cons, Fields, end, field, items}
use itcenter.Automation.Patterns.{Language, one_of}
use itcenter.Automation.Rules.{validate_trigger, safety_levels}
use itcenter.Automation.Actions.{validate_rule_definition}
use itcenter.Automation.Conditions.{
  not_key, validate_condition, validate_at, validate_list, validate_items, validate_not,
  count_nodes, count_list, count_items,
}
use itcenter.Automation.Evaluation.{Outcome, Evidence, evaluate, evaluate_list, evaluate_items}
use itcenter.Automation.ConditionLaws.{height, height_list, Done, both_of-AllDone}
use itcenter.Platform.Errors.{>>-inv, automation_rule_invalid}
use itcenter.Automation.Accepted.{Accepted, AcceptedItems, AcceptedAll, AcceptedAt, AcceptedNot}
use itcenter.Automation.Branches.{object-Accepted}

module _ (l : Language) (event context : Json) where
  cons-Accepted :
      (v : Json) (vs : Items) (depth count c n : ℕ)
      → Accepted l event context v (depth + 1) count c
      → AcceptedItems l event context vs depth c n
      → AcceptedItems l event context (cons v vs) depth count n
  unfolding count_nodes height evaluate
  cons-Accepted v nil depth count c n a rest = record {
    counted = omega (arith, a.counted, rest.counted);
    few = λ h. omega (arith, a.counted, rest.counted, a.few);
    flat = λ h. omega (arith, a.flat);
    evaluated =
        both_of-AllDone l event context (evaluate l event context v)
          (evaluate_items l event context nil) (count_nodes v) 0 a.evaluated rest.evaluated;
  }
  cons-Accepted v (cons w ws) depth count c n a rest = record {
    counted = omega (arith, a.counted, rest.counted);
    few = λ h. rest.few (omega arith);
    flat = λ h. omega (arith, a.flat, rest.flat (omega arith));
    evaluated =
        both_of-AllDone l event context (evaluate l event context v)
          (evaluate_items l event context (cons w ws)) (count_nodes v) (count_items (cons w ws))
          a.evaluated rest.evaluated;
  }

  abbrev AcceptedList : Json → ℕ → ℕ → ℕ → Type 0
  AcceptedList v depth count n =
      (m : ℕ) × (count_list v ≡ some m)
      × AcceptedAll l event context (evaluate_list l event context v) m (height_list v) depth count
          n

  array_accepted :
      (xs : Items) (depth count n : ℕ)
      → 1 ≤ length (items xs)
      → AcceptedItems l event context xs depth count n
      → AcceptedList (array xs) depth count n
  unfolding count_nodes height evaluate
  array_accepted xs depth count n one a = (
    count_items xs,
    refl,
    record { counted = a.counted; few = a.few one; flat = a.flat one; evaluated = a.evaluated },
  )

  at_accepted :
      (key k : Text) (v : Json) (fs : Fields) (depth count n : ℕ)
      → (text_eq k key ≡ true → AcceptedList v depth count n)
      → (text_eq k key ≡ false → AcceptedAt l event context key fs depth count n)
      → AcceptedAt l event context key (field k v fs) depth count n
  unfolding count_nodes height evaluate
  at_accepted key k v fs depth count n here there = elim (Bool-cases (text_eq k key)) [
    | inl e ↦ rw e (here e)
    | inr e ↦ rw e (there e)
  ]

  not_at-Accepted :
      (k : Text) (v : Json) (fs : Fields) (depth count n : ℕ)
      → (text_eq k not_key ≡ true → Accepted l event context v (depth + 1) count n)
      → (text_eq k not_key ≡ false → AcceptedNot l event context fs depth count n)
      → AcceptedNot l event context (field k v fs) depth count n
  unfolding count_nodes height evaluate
  not_at-Accepted k v fs depth count n here there = elim (Bool-cases (text_eq k not_key)) [
    | inl e ↦ let a = here e in rw e (a.counted, a.few, a.flat, a.evaluated)
    | inr e ↦ rw e (there e)
  ]

  nil_accepted : (depth count n : ℕ) → count ≡ n → AcceptedItems l event context nil depth count n
  unfolding count_nodes height evaluate
  nil_accepted depth count n h = record {
    counted = omega (arith, h);
    few = λ one. absurd (omega (arith, one));
    flat = λ one. absurd (omega (arith, one));
    evaluated = refl;
  }

  mutual
    unfolding validate_condition

    accepted :
        (v : Json) (depth count n : ℕ)
        → validate_condition l v depth count ≡ ok n
        → Accepted l event context v depth count n
    accepted (object fs) depth count n h =
        object-Accepted l event context fs depth count n h
          (λ key. accepted_at key fs depth (count + 1) n) (accepted_not fs depth (count + 1) n)
    accepted _ depth count n h = cc

    accepted_at :
        (key : Text) (fs : Fields) (depth count n : ℕ)
        → validate_at l key fs depth count ≡ ok n
        → AcceptedAt l event context key fs depth count n
    accepted_at key end depth count n h = cc
    accepted_at key (field k v fs) depth count n h =
        at_accepted key k v fs depth count n (λ e. accepted_list v depth count n (ground arith))
          (λ e. accepted_at key fs depth count n (ground arith))

    accepted_list :
        (v : Json) (depth count n : ℕ)
        → validate_list l v depth count ≡ ok n
        → AcceptedList v depth count n
    accepted_list (array xs) depth count n h =
        array_accepted xs depth count n (ground arith)
          (accepted_items xs depth count n (ground arith))
    accepted_list _ depth count n h = cc

    accepted_items :
        (xs : Items) (depth count n : ℕ)
        → validate_items l xs depth count ≡ ok n
        → AcceptedItems l event context xs depth count n
    accepted_items nil depth count n h = nil_accepted depth count n (ground arith)
    accepted_items (cons v vs) depth count n h =
        let (c, p, q) = bind-inv (validate_condition l v (depth + 1) count) _ h in
        cons-Accepted v vs depth count c n (accepted v (depth + 1) count c p)
          (accepted_items vs depth c n q)

    accepted_not :
        (fs : Fields) (depth count n : ℕ)
        → validate_not l fs depth count ≡ ok n
        → AcceptedNot l event context fs depth count n
    accepted_not end depth count n h = cc
    accepted_not (field k v fs) depth count n h =
        not_at-Accepted k v fs depth count n (λ e. accepted v (depth + 1) count n (ground arith))
          (λ e. accepted_not fs depth count n (ground arith))

-- The condition of a rule that is accepted has at most 100 nodes on at most 9 levels, counted alike by the
-- validation and by `countNodes`, and can be evaluated on every event and context: no error of the language
-- is met, and the evidence has a piece for each node.
pub accepted_rule_evaluates :
    (l : Language) (safety_level : Text) (trigger condition action event context : Json)
    → validate_rule_definition l safety_level trigger condition action ≡ ok tt
    → (matched : Bool) × (evidence : List Evidence) × (evaluate l event context condition
        ≡ some (matched, evidence))
      × (length evidence ≡ count_nodes condition)
      × (validate_condition l condition 0 0 ≡ ok (count_nodes condition))
      × (count_nodes condition ≤ 100)
      × (height condition ≤ 9)
unfolding validate_rule_definition
accepted_rule_evaluates l safety_level trigger condition action event context h =
    let (_, h1) =
      >>-inv (throw_if (not (one_of safety_levels safety_level)) automation_rule_invalid) _ h in
    let (_, h2) = >>-inv (validate_trigger l trigger) _ h1 in
    let (n, k, _) = bind-inv (validate_condition l condition 0 0) _ h2 in
    let a = accepted l event context condition 0 0 n k in
    let count : n ≡ count_nodes condition = omega (arith, a.counted) in
    let (o, e) =
      evaluated_some (evaluate l event context condition) (count_nodes condition) a.evaluated in
    (o.0, o.1, e.0, e.1, rw (← count) k, omega (arith, count, a.few), omega (arith, a.flat))
  where
    evaluated_some :
        (o : Outcome) (m : ℕ)
        → Done l event context o m
        → (p : Bool × List Evidence) × ((o ≡ some p) × (length (p.1) ≡ m))
    evaluated_some (some p) m h = (p, (refl, h))
    evaluated_some none m h = elim h [ ]
