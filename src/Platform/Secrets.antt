-- ===== src/Platform/Secrets.antt =====
-- The pattern that keeps credentials out of free text:
-- /(?:password|access[_ -]?token|secret|api[_ -]?key|license[_ -]?key)\s*[:=]\s*\S+/i.
use itcenter.Base.{
  codes, lower, Bool, false, ◌&&◌, ◌||◌, ◌==◌, if◌then◌else◌, List, [], ◌∷◌, Option, none, some,
  any, is_empty, not, Text, is_space, trim_start, map,
}

-- What follows a prefix, letters compared without case.
unfoldable pub after_prefix : Text → Text → Option Text
unfolding lower
after_prefix [] t = some t
after_prefix (k ∷ ks) [] = none
after_prefix (k ∷ ks) (c ∷ cs) =
    let rest = after_prefix ks cs in if lower c == k then rest else none

abbrev keywords : List Text
keywords = map codes (
    "password" ∷ "accesstoken" ∷ "access_token" ∷ "access token" ∷ "access-token" ∷ "secret"
    ∷ "apikey" ∷ "api_key" ∷ "api key" ∷ "api-key" ∷ "licensekey" ∷ "license_key" ∷ "license key"
    ∷ "license-key" ∷ [])

-- `\s*[:=]\s*\S+`, at the start of a text.
gives_value : Text → Bool
unfolding trim_start is_space
gives_value t = elim (trim_start t) [
  | [] ↦ false
  | c ∷ cs ↦ (c == b':' || c == b'=') && not (is_empty (trim_start cs))
]

secret_here : Text → Bool
unfolding after_prefix gives_value
secret_here t =
    any (λ k. elim (after_prefix k t) [ none ↦ false | some rest ↦ gives_value rest ]) keywords

-- The pattern matches somewhere in the text.
unfoldable pub holds_secret : Text → Bool
unfolding secret_here
holds_secret [] = false
holds_secret (c ∷ cs) = secret_here (c ∷ cs) || holds_secret cs
