-- ===== src/Base/Int.antt =====
-- Integers over the native numbers; `negsuc n` is -(n + 1).
use Prim.Native.Nat.{ℕ}
use mathlib.Core.Bool.{Bool, true, false}
use itcenter.Base.Tests.{leb, ltb}

pub data ℤ : Type 0 where
  pos negsuc : ℕ → ℤ

abbrev pub leℤ : ℤ → ℕ → Bool
leℤ (pos n) k = leb n k
leℤ (negsuc n) k = true

-- `a < b`.
abbrev pub ltbℤ : ℤ → ℤ → Bool
ltbℤ (pos a) (pos b) = ltb a b
ltbℤ (pos a) (negsuc b) = false
ltbℤ (negsuc a) (pos b) = true
ltbℤ (negsuc a) (negsuc b) = ltb b a
