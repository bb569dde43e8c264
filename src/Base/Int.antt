-- ===== src/Base/Int.antt =====
-- Go's `int` where it may be negative: `negsuc n` is -(n + 1).
use shinel.Base.{ℕ, zero, suc, ◌<◌, arith}

pub data ℤ : Type 0 where
  pos : ℕ → ℤ
  negsuc : ℕ → ℤ

-- `n`, or the default where `n <= 0`.
abbrev pub positive_or : ℕ → ℤ → ℕ
positive_or d (pos zero) = d
positive_or d (pos (suc n)) = suc n
positive_or d (negsuc n) = d

pub positive_or-pos : (d : ℕ) (i : ℤ) → 0 < d → 0 < positive_or d i
positive_or-pos d (pos zero) h = h
positive_or-pos d (pos (suc n)) h = omega arith
positive_or-pos d (negsuc n) h = h
