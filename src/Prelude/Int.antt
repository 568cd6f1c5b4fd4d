-- ===== src/Prelude/Int.antt =====
-- Go's signed integers, where they stay within their width.
use Prim.Native.Nat.{ℕ, zero, suc}

pub data ℤ : Type 0 where
  pos negsuc : ℕ → ℤ

abbrev pub magnitude : ℤ → ℕ
magnitude (pos n) = n
magnitude (negsuc n) = suc n

-- -n for a number from 0 on
abbrev pub minus : ℕ → ℤ
minus zero = pos zero
minus (suc n) = negsuc n
