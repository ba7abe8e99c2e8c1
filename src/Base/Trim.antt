-- ===== src/Base/Trim.antt =====
-- Text as its UTF-16 code units, with the `trim` of the language.
use Prim.Native.Nat.{ℕ}
use mathlib.Core.Bool.{Bool, ◌||◌, ◌&&◌}
use mathlib.Core.List.{List, [], ◌∷◌, reverse}
use itcenter.Base.Tests.{leb, ◌==◌, if◌then◌else◌}
use itcenter.Base.Lists.{is_empty}

abbrev pub Text : Type 0
Text = List ℕ

-- White space and line terminators, those that `String.prototype.trim` removes.
unfoldable pub is_space : ℕ → Bool
is_space c =
    (leb 9 c && leb c 13)
    || c == 32
    || c == 160
    || c == 5760
    || (leb 8192 c && leb c 8202)
    || c == 8232
    || c == 8233
    || c == 8239
    || c == 8287
    || c == 12288
    || c == 65279

unfoldable pub trim_start : Text → Text
trim_start [] = []
trim_start (c ∷ cs) = let rest = trim_start cs in if is_space c then rest else c ∷ cs

unfoldable pub trim : Text → Text
trim t = reverse (trim_start (reverse (trim_start t)))

-- `!text.trim()`.
unfoldable pub is_blank : Text → Bool
unfolding trim trim_start is_space
is_blank t = is_empty (trim t)
