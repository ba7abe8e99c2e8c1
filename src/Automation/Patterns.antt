-- ===== src/Automation/Patterns.antt =====
-- modules/automation/domain/rules.ts: the tests of keys, paths and patterns in a rule.
use itcenter.Base.{
  ℕ, ◌+◌, Bool, true, false, not, ◌&&◌, ◌||◌, Option, none, some, List, [], ◌∷◌, map, leb, ◌==◌,
  if◌then◌else◌, length, any, every, is_empty, Text, codes, text_eq,
}
use itcenter.Base.Json.{Json, Fields, keys}
use itcenter.Platform.Secrets.{after_prefix}
unfoldable pub use itcenter.Base.Json.{lookup, has_key}

-- What the language gives: `JSON.stringify`, whether a text is an expression under the flag `u`, its test
-- on a text, and `localeCompare(a, b) < 0`.
pub record Language : Type 0 where
  pub stringify : Json → Text
  pub is_regex : Text → Bool
  pub regex_test : Text → Text → Bool
  pub locale_before : Text → Text → Bool

unfoldable pub one_of : List Text → Text → Bool
one_of ts t = any (λ u. text_eq t u) ts

-- `Object.keys(value).some((key) => ![…].includes(key))`.
unfoldable pub has_other_keys : List Text → Fields → Bool
has_other_keys allowed fs = any (λ k. not (one_of allowed k)) (keys fs)

unfoldable pub is_some_of : {A : Type 0} → Option A → Bool
is_some_of none = false
is_some_of (some a) = true

-- `word.?key` at the start of a text, without case.
unfoldable pub is_line_end : ℕ → Bool
is_line_end c = c == 10 || c == 13 || c == 8232 || c == 8233

unfoldable pub starts_with_key : Option Text → Bool
starts_with_key none = false
starts_with_key (some []) = false
starts_with_key (some (c ∷ cs)) =
    is_some_of (after_prefix (codes "key") (c ∷ cs))
    || not (is_line_end c) && is_some_of (after_prefix (codes "key") cs)

-- A pattern of the form `a|b|c.?key`, without case: one of the words, or of the words before a key,
-- somewhere in a text.
unfoldable pub matches_somewhere : List Text → List Text → Text → Bool
matches_somewhere words before_key [] = false
matches_somewhere words before_key (c ∷ cs) =
    any (λ w. is_some_of (after_prefix w (c ∷ cs))) words
    || any (λ w. starts_with_key (after_prefix w (c ∷ cs))) before_key
    || matches_somewhere words before_key cs

abbrev pub sensitive_words : List Text
sensitive_words = map codes ("password" ∷ "secret" ∷ "token" ∷ "credential" ∷ "bank" ∷ "tax" ∷ [])

-- `/password|secret|token|credential|private.?key|bank|tax/i`.
unfoldable pub is_sensitive : Text → Bool
is_sensitive t = matches_somewhere sensitive_words (codes "private" ∷ []) t

-- The same with `api.?key` and `license.?key`.
unfoldable pub is_sensitive_parameter : Text → Bool
is_sensitive_parameter t =
    matches_somewhere sensitive_words (codes "private" ∷ codes "api" ∷ codes "license" ∷ []) t

-- `path.split(".")`.
unfoldable pub put_first : ℕ → List Text → List Text
put_first c [] = (c ∷ []) ∷ []
put_first c (t ∷ ts) = (c ∷ t) ∷ ts

unfoldable pub split_path : Text → List Text
split_path [] = [] ∷ []
split_path (c ∷ cs) = let rest = split_path cs in if c == b'.' then [] ∷ rest else put_first c rest

unfoldable pub is_letter_or_digit : ℕ → Bool
is_letter_or_digit c =
    (leb b'A' c && leb c b'Z') || (leb b'a' c && leb c b'z') || (leb b'0' c && leb c b'9')

unfoldable pub is_path_part : Text → Bool
is_path_part t =
    leb 1 (length t)
    && leb (length t) 64
    && every (λ c. is_letter_or_digit c || c == b'_' || c == b'-') t

-- `/^(event|context)(\.[A-Za-z0-9_-]{1,64})+$/`.
unfoldable pub is_path : Text → Bool
is_path t = elim (split_path t) [
  | [] ↦ false
  | root ∷ parts ↦
      one_of (codes "event" ∷ codes "context" ∷ []) root
      && not (is_empty parts)
      && every is_path_part parts
]

abbrev pub forbidden_keys : List Text
forbidden_keys = map codes ("__proto__" ∷ "prototype" ∷ "constructor" ∷ [])

-- `/^[A-Z][A-Z0-9_.]{1,127}$/`.
unfoldable pub is_event_type : Text → Bool
is_event_type [] = false
is_event_type (c ∷ cs) =
    (leb b'A' c && leb c b'Z')
    && (leb 1 (length cs) && leb (length cs) 127)
    && every
        (λ d. (leb b'A' d && leb d b'Z') || (leb b'0' d && leb d b'9') || d == b'_' || d == b'.') cs

unfoldable pub is_digit : ℕ → Bool
is_digit c = leb b'0' c && leb c b'9'

unfoldable pub skip_digits : Text → Text
skip_digits [] = []
skip_digits (c ∷ cs) = let rest = skip_digits cs in if is_digit c then rest else c ∷ cs

-- `\{\d+(?:,\d*)?\}` after its opening brace, at the start of a text.
unfoldable pub closes : Text → Bool
closes [] = false
closes (c ∷ cs) = c == b'}'

unfoldable pub after_comma : Text → Text
after_comma [] = []
after_comma (c ∷ cs) = if c == b',' then skip_digits cs else c ∷ cs

unfoldable pub closes_braces : Text → Bool
closes_braces [] = false
closes_braces (c ∷ cs) = is_digit c && closes (after_comma (skip_digits cs))

-- The quantifiers of an expression; those in braces hold no other quantifier.
unfoldable pub quantifiers : Text → ℕ
quantifiers [] = 0
quantifiers (c ∷ cs) =
    let rest = quantifiers cs in
    if c == b'*' || c == b'+' || (c == b'{' && closes_braces cs) then rest + 1 else rest

-- `isSafeRegex`.
unfoldable pub is_safe_regex : Text → Bool
is_safe_regex t =
    not (any (λ c. c == b'(' || c == b')' || c == b'|' || c == b'\\') t) && leb (quantifiers t) 1
