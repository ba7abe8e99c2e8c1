-- ===== src/Automation/Values.antt =====
-- modules/automation/domain/rules.ts: reading a path and comparing a value.
use itcenter.Base.{
  Bool, true, false, not, ◌&&◌, ◌||◌, Option, none, some, List, [], ◌∷◌, ◌++◌, map, leb,
  if◌then◌else◌, length, any, Text, codes, text_eq, includes_text,
}
use itcenter.Base.Int.{ltbℤ}
use itcenter.Base.Json.{
  Number, finite, infinity, minus_infinity, Json, null, boolean, number, text, array, object, Items,
  nil, cons, Fields, end, field, items, join, sort_entries,
}
use itcenter.Automation.Patterns.{Language, lookup, one_of, split_path, forbidden_keys}
use itcenter.Automation.Rules.{is_finite}

-- What `readPath` finds: nothing, a value, or a function that every object inherits, such as `toString`.
pub data Found : Type 0 where
  missing inherited : Found
  value : Json → Found

-- The names that the language gives to every object, less the forbidden ones.
abbrev pub inherited_keys : List Text
inherited_keys = map codes (
    "toString" ∷ "toLocaleString" ∷ "valueOf" ∷ "hasOwnProperty" ∷ "isPrototypeOf"
    ∷ "propertyIsEnumerable" ∷ "__defineGetter__" ∷ "__defineSetter__" ∷ "__lookupGetter__"
    ∷ "__lookupSetter__" ∷ [])

-- `part in current`, and the value there.
unfoldable pub own_or_inherited : Text → Option Json → Found
own_or_inherited part (some v) = value v
own_or_inherited part none = if one_of inherited_keys part then inherited else missing

unfoldable pub read_part : Text → Found → Found
read_part part (value (object fs)) =
    if one_of forbidden_keys part then missing else own_or_inherited part (lookup part fs)
read_part part _ = missing

unfoldable pub read_parts : List Text → Found → Found
read_parts [] found = found
read_parts (p ∷ ps) found = read_parts ps (read_part p found)

-- `readPath(path, { event, context })`.
unfoldable pub read_path : Text → Json → Json → Found
read_path path event context =
    read_parts (split_path path)
      (value (object (field (codes "event") event (field (codes "context") context end))))

-- `a < b` on numbers.
unfoldable pub lt_number : Number → Number → Bool
lt_number (finite a) (finite b) = ltbℤ a b
lt_number (finite a) infinity = true
lt_number minus_infinity (finite b) = true
lt_number minus_infinity infinity = true
lt_number _ _ = false

unfoldable pub le_number : Number → Number → Bool
le_number (finite a) (finite b) = not (ltbℤ b a)
le_number (finite a) infinity = true
le_number minus_infinity (finite b) = true
le_number minus_infinity infinity = true
le_number minus_infinity minus_infinity = true
le_number infinity infinity = true
le_number _ _ = false

module _ (language : Language) where
  unfoldable mutual
    pub stable : Json → Text
    stable (array xs) = codes "[" ++ (join (codes ",") (stable_items xs) ++ codes "]")
    stable (object fs) =
        codes "{"
        ++ (join (codes ",") (
              map (λ e. language.stringify (text (e.0)) ++ (codes ":" ++ e.1))
                (sort_entries language.locale_before (stable_fields fs)))
            ++ codes "}")
    stable (text t) = language.stringify (text t)
    stable (number n) = language.stringify (number n)
    stable (boolean b) = language.stringify (boolean b)
    stable null = language.stringify null

    pub stable_items : Items → List Text
    stable_items nil = []
    stable_items (cons v vs) = stable v ∷ stable_items vs

    pub stable_fields : Fields → List (Text × Text)
    stable_fields end = []
    stable_fields (field k v fs) = (k, stable v) ∷ stable_fields fs

  -- `deepEqual(actual, expected)`: an absent value has no stable text, as a function has none.
  unfoldable pub deep_equal : Found → Option Json → Bool
  deep_equal (value v) (some w) = text_eq (stable v) (stable w)
  deep_equal inherited none = true
  deep_equal _ _ = false

  abbrev pub equals_some : Found → Json → Bool
  equals_some actual item = deep_equal actual (some item)

  unfoldable pub contains : Found → Option Json → Bool
  contains (value (text t)) (some (text u)) = includes_text u t
  contains (value (array xs)) expected = any (λ item. deep_equal (value item) expected) (items xs)
  contains _ _ = false

  -- The list that `in` and `not_in` look in; `none` is no list.
  unfoldable pub expected_items : Option Json → Option (List Json)
  expected_items (some (array xs)) = some (items xs)
  expected_items _ = none

  unfoldable pub is_in : Bool → Found → Option Json → Bool
  is_in negated missing expected = false
  is_in negated actual expected = elim (expected_items expected) [
    | none ↦ false
    | some xs ↦ let found = any (equals_some actual) xs in if negated then not found else found
  ]

  -- A numeric comparison: both are numbers, the actual one finite.
  unfoldable pub compares : (Number → Number → Bool) → Found → Option Json → Bool
  compares test (value (number a)) (some (number b)) = is_finite a && test a b
  compares test _ _ = false

  -- `new RegExp(expected, "u").test(actual)`, which throws on a text that is no expression.
  unfoldable pub regex_matches : Found → Option Json → Option Bool
  regex_matches (value (text t)) (some (text u)) =
      if leb (length t) 1024
      then (if language.is_regex u then some (language.regex_test u t) else none)
      else some false
  regex_matches _ _ = some false

  abbrev pub is_missing : Found → Bool
  is_missing missing = true
  is_missing _ = false

  abbrev pub is_false : Option Json → Bool
  is_false (some (boolean false)) = true
  is_false _ = false

  -- `none` is an error of the language.
  unfoldable pub compare : Found → Text → Option Json → Option Bool
  compare actual op expected =
      if text_eq op (codes "exists")
      then some (if is_false expected then is_missing actual else not (is_missing actual))
      else if text_eq op (codes "equals")
      then some (not (is_missing actual) && deep_equal actual expected)
      else if text_eq op (codes "not_equals")
      then some (is_missing actual || not (deep_equal actual expected))
      else if text_eq op (codes "contains")
      then some (contains actual expected)
      else if text_eq op (codes "in")
      then some (is_in false actual expected)
      else if text_eq op (codes "not_in")
      then some (is_in true actual expected)
      else if text_eq op (codes "greater_than")
      then some (compares (λ a b. lt_number b a) actual expected)
      else if text_eq op (codes "greater_than_or_equal")
      then some (compares (λ a b. le_number b a) actual expected)
      else if text_eq op (codes "less_than")
      then some (compares lt_number actual expected)
      else if text_eq op (codes "less_than_or_equal")
      then some (compares le_number actual expected)
      else if text_eq op (codes "matches_regex")
      then regex_matches actual expected
      else some false
