-- ===== src/Analyzer/Luhn.antt =====
-- internal/analyzer/luhn.go: the Luhn checksum. The loop runs from the last digit to the first.
pub mod Errors
use mathlib.Core.List.{reverse}
use shinel.Base.{
  ℕ, ◌+◌, ◌-◌, ◌*◌, ◌%◌, ◌<◌, Bool, true, false, not, [], ◌∷◌, ◌++◌, ◌≡◌, refl, ap, ◌∙◌, arith, ltb,
  ◌==◌, if◌then◌else◌, ==_iff,
}
use shinel.Base.Bytes.{Bytes, is_digit, codes}
use shinel.Base.Sort.{All}

-- `d *= 2; if d > 9 { d -= 9 }` under `if double`.
unfoldable pub luhn_digit : Bool → ℕ → ℕ
luhn_digit double c =
    let d = c - b'0' in if double then (if ltb 9 (d * 2) then d * 2 - 9 else d * 2) else d

-- The loop, over the digits that are left, the last one first.
unfoldable pub luhn_loop : Bytes → ℕ → Bool → ℕ
luhn_loop [] sum double = sum
luhn_loop (c ∷ cs) sum double = luhn_loop cs (sum + luhn_digit double c) (not double)

unfoldable pub luhn : Bytes → Bool
unfolding luhn_loop luhn_digit
luhn digits = luhn_loop (reverse digits) 0 false % 10 == 0
