-- ===== src/Automation/Accepted.antt =====
-- What the validation says of a node that it accepts.
use itcenter.Base.{
  ℕ, ◌+◌, ◌≤◌, ◌≡◌, refl, ap, true, false, none, some, arith, length, Text, text_eq, text_eq_sound,
}
use itcenter.Platform.Errors.{ok}
use itcenter.Base.Json.{Json, object, Items, Fields, end, field, items, keys}
use itcenter.Automation.Patterns.{Language, has_key}
use itcenter.Automation.Rules.{check_predicate}
use itcenter.Automation.Conditions.{
  all_key, any_key, not_key, max_nodes, max_depth, count_nodes, count_at, count_items, count_not,
}
use itcenter.Automation.Evaluation.{Outcomes, evaluate, evaluate_at, evaluate_items, evaluate_not}
use itcenter.Automation.ConditionLaws.{
  height, height_at, height_items, height_not, Done, AllDone, check_predicate-Done, close_all-Done,
  close_any-Done, close_not-Done,
}

-- What a key that an object has not counts for.
count_at-absent : (key : Text) (fs : Fields) → has_key key fs ≡ false → count_at key fs ≡ none
unfolding has_key count_at
count_at-absent key end h = refl
count_at-absent key (field k v fs) h = ground (arith, count_at-absent key fs)

height_at-absent : (key : Text) (fs : Fields) → has_key key fs ≡ false → height_at key fs ≡ 0
unfolding has_key height_at
height_at-absent key end h = refl
height_at-absent key (field k v fs) h = ground (arith, height_at-absent key fs)

count_not-absent : (fs : Fields) → has_key not_key fs ≡ false → count_not fs ≡ 0
unfolding has_key count_not
count_not-absent end h = refl
count_not-absent (field k v fs) h = ground (arith, count_not-absent fs)

height_not-absent : (fs : Fields) → has_key not_key fs ≡ false → height_not fs ≡ 0
unfolding has_key height_not
height_not-absent end h = refl
height_not-absent (field k v fs) h = ground (arith, height_not-absent fs)

-- An object of one key has no other.
only_key :
    (fs : Fields) (a b : Text)
    → length (keys fs) ≡ 1
    → has_key a fs ≡ true
    → text_eq a b ≡ false
    → has_key b fs ≡ false
unfolding has_key
only_key end a b one h n = refl
only_key (field k v end) a b one h n =
    ground (arith, ap (λ t. text_eq t b) (text_eq_sound k a (ground arith)))
only_key (field k v (field k' v' fs)) a b one h n = absurd (omega (arith, one))

module _ (l : Language) (event context : Json) where
  -- What the acceptance of a node says of it: it adds its nodes to the count, which stays in bounds, its levels
  -- stay in bounds, and it is evaluated, with a piece of evidence for each node.
  pub record Accepted (v : Json) (depth count n : ℕ) : Type 0 where
    pub counted : n ≡ count + count_nodes v
    pub few : n ≤ max_nodes
    pub flat : depth + height v ≤ max_depth + 1
    pub evaluated : Done l event context (evaluate l event context v) (count_nodes v)

  -- The same of the children of a node at a depth, if there are any.
  pub record AcceptedItems (xs : Items) (depth count n : ℕ) : Type 0 where
    pub counted : n ≡ count + count_items xs
    pub few : 1 ≤ length (items xs) → n ≤ max_nodes
    pub flat : 1 ≤ length (items xs) → depth + 1 + height_items xs ≤ max_depth + 1
    pub evaluated : AllDone l event context (evaluate_items l event context xs) (count_items xs)

  -- The same of a list of children that an object has under a key.
  pub record AcceptedAll (os : Outcomes) (m levels depth count n : ℕ) : Type 0 where
    pub counted : n ≡ count + m
    pub few : n ≤ max_nodes
    pub flat : depth + 1 + levels ≤ max_depth + 1
    pub evaluated : AllDone l event context os m

  abbrev pub AcceptedAt : Text → Fields → ℕ → ℕ → ℕ → Type 0
  AcceptedAt key fs depth count n =
      (m : ℕ) × (count_at key fs ≡ some m)
      × AcceptedAll (evaluate_at l event context key fs) m (height_at key fs) depth count n

  abbrev pub AcceptedNot : Fields → ℕ → ℕ → ℕ → Type 0
  AcceptedNot fs depth count n =
      (n ≡ count + count_not fs)
      × (n ≤ max_nodes)
      × (depth + 1 + height_not fs ≤ max_depth + 1)
      × Done l event context (evaluate_not l event context fs) (count_not fs)

  pub all-Accepted :
      (fs : Fields) (depth count n : ℕ)
      → has_key all_key fs ≡ true
      → length (keys fs) ≡ 1
      → AcceptedAt all_key fs depth (count + 1) n
      → Accepted (object fs) depth count n
  unfolding count_nodes height evaluate text_eq
  all-Accepted fs depth count n a one (m, c, acc) = record {
    counted = ground (arith, acc.counted);
    few = acc.few;
    flat = omega (
      arith,
      acc.flat,
      height_at-absent any_key fs (only_key fs all_key any_key one a refl),
      height_not-absent fs (only_key fs all_key not_key one a refl),
    );
    evaluated =
        rw (c, a, Done)
          (close_all-Done l event context (evaluate_at l event context all_key fs) m acc.evaluated);
  }

  pub any-Accepted :
      (fs : Fields) (depth count n : ℕ)
      → has_key all_key fs ≡ false
      → has_key any_key fs ≡ true
      → length (keys fs) ≡ 1
      → AcceptedAt any_key fs depth (count + 1) n
      → Accepted (object fs) depth count n
  unfolding count_nodes height evaluate text_eq
  any-Accepted fs depth count n a b one (m, c, acc) = record {
    counted = ground (arith, acc.counted, count_at-absent all_key fs a);
    few = acc.few;
    flat = omega (
      arith,
      acc.flat,
      height_at-absent all_key fs a,
      height_not-absent fs (only_key fs any_key not_key one b refl),
    );
    evaluated =
        rw (count_at-absent all_key fs a, c, a, b, Done)
          (close_any-Done l event context (evaluate_at l event context any_key fs) m acc.evaluated);
  }

  pub not-Accepted :
      (fs : Fields) (depth count n : ℕ)
      → has_key all_key fs ≡ false
      → has_key any_key fs ≡ false
      → has_key not_key fs ≡ true
      → AcceptedNot fs depth (count + 1) n
      → Accepted (object fs) depth count n
  unfolding count_nodes height evaluate
  not-Accepted fs depth count n a b c (counted, few, flat, evaluated) = record {
    counted = ground (arith, count_at-absent all_key fs a, count_at-absent any_key fs b);
    few = few;
    flat = omega (arith, flat, height_at-absent all_key fs a, height_at-absent any_key fs b);
    evaluated =
        rw (count_at-absent all_key fs a, count_at-absent any_key fs b, a, b, c, Done)
          (close_not-Done l event context (evaluate_not l event context fs) (count_not fs)
            evaluated);
  }

  pub predicate-Accepted :
      (fs : Fields) (depth count n : ℕ)
      → has_key all_key fs ≡ false
      → has_key any_key fs ≡ false
      → has_key not_key fs ≡ false
      → depth ≤ max_depth
      → n ≡ count + 1
      → n ≤ max_nodes
      → check_predicate l fs ≡ ok tt
      → Accepted (object fs) depth count n
  unfolding count_nodes height evaluate
  predicate-Accepted fs depth count n a b c flat counted few h = record {
    counted =
        ground (
          arith,
          count_at-absent all_key fs a,
          count_at-absent any_key fs b,
          count_not-absent fs c,
        );
    few = few;
    flat = omega (
      arith,
      flat,
      height_at-absent all_key fs a,
      height_at-absent any_key fs b,
      height_not-absent fs c,
    );
    evaluated =
        rw
          (
            count_at-absent all_key fs a,
            count_at-absent any_key fs b,
            count_not-absent fs c,
            a,
            b,
            c,
            Done,
          )
          (check_predicate-Done l event context fs h);
  }
