-- ===== src/Analyzer/Luhn/Errors.antt =====
-- What the checksum of internal/analyzer/luhn.go detects.
use mathlib.Core.List.{reverse, reverse-append}
use shinel.Base.{
  ℕ, ◌+◌, ◌-◌, ◌%◌, ◌≤◌, Bool, true, false, not, [], ◌∷◌, ◌++◌, ◌≡◌, refl, ap, ◌∙◌, arith, ==_iff,
  append_assoc, ◌≢◌, Bool-cases, inl, inr,
}
use shinel.Base.Bytes.{Bytes, is_digit}
use shinel.Analyzer.Luhn.{luhn_digit, luhn_loop, luhn}

-- `double` behind a stretch of digits.
abbrev toggled : Bytes → Bool → Bool
toggled [] d = d
toggled (c ∷ cs) d = toggled cs (not d)

luhn_loop-append :
    (us vs : Bytes) (sum : ℕ) (d : Bool)
    → luhn_loop (us ++ vs) sum d ≡ luhn_loop vs (luhn_loop us sum d) (toggled us d)
unfolding luhn_loop
luhn_loop-append [] vs sum d = refl
luhn_loop-append (c ∷ us) vs sum d = luhn_loop-append us vs _ (not d)

luhn_loop_sum : (us : Bytes) (sum : ℕ) (d : Bool) → luhn_loop us sum d ≡ sum + luhn_loop us 0 d
unfolding luhn_loop
luhn_loop_sum [] sum d = omega arith
luhn_loop_sum (c ∷ us) sum d = omega (
  arith,
  luhn_loop_sum us (sum + luhn_digit d c) (not d),
  luhn_loop_sum us (0 + luhn_digit d c) (not d),
)

luhn_digit_le : (d : Bool) (c : ℕ) → is_digit c ≡ true → luhn_digit d c ≤ 9
unfolding luhn_digit
luhn_digit_le d c h = ground arith

luhn_digit-injective :
    (d : Bool) (a b : ℕ)
    → is_digit a ≡ true
    → is_digit b ≡ true
    → luhn_digit d a ≡ luhn_digit d b
    → a ≡ b
unfolding luhn_digit
luhn_digit-injective d a b h k e = ground arith

loop-cons :
    (us : Bytes) (d : Bool) (c sum : ℕ)
    → luhn_loop (c ∷ us) sum d ≡ sum + luhn_digit d c + luhn_loop us 0 (not d)
unfolding luhn_loop
loop-cons us d c sum = luhn_loop_sum us (sum + luhn_digit d c) (not d)

-- The sum of a number, split at one digit.
sum_at :
    (xs ys : Bytes) (c : ℕ)
    → luhn_loop (reverse (xs ++ c ∷ ys)) 0 false
      ≡ luhn_loop (reverse ys) 0 false
        + luhn_digit (toggled (reverse ys) false) c
        + luhn_loop (reverse xs) 0 (not (toggled (reverse ys) false))
sum_at xs ys c =
    ap (λ l. luhn_loop l 0 false)
      (reverse-append xs (c ∷ ys)
        ∙ ap (λ l. l ++ reverse xs) (reverse-append (c ∷ []) ys)
        ∙ append_assoc (reverse ys) (c ∷ []) (reverse xs))
    ∙ luhn_loop-append (reverse ys) (c ∷ reverse xs) 0 false
    ∙ loop-cons (reverse xs) (toggled (reverse ys) false) c (luhn_loop (reverse ys) 0 false)

both_pass :
    (xs ys : Bytes) (a b : ℕ)
    → is_digit a ≡ true
    → is_digit b ≡ true
    → luhn (xs ++ a ∷ ys) ≡ true
    → luhn (xs ++ b ∷ ys) ≡ true
    → a ≡ b
unfolding luhn
both_pass xs ys a b ha hb ea eb =
    let d = toggled (reverse ys) false in
    luhn_digit-injective d a b ha hb (
      omega (
        arith,
        sum_at xs ys a,
        sum_at xs ys b,
        luhn_digit_le d a ha,
        luhn_digit_le d b hb,
        (==_iff _ 0).0 ea,
        (==_iff _ 0).0 eb,
      ))

-- A number that passes does not pass with one of its digits changed.
pub luhn-single_error :
    (xs ys : Bytes) (a b : ℕ)
    → is_digit a ≡ true
    → is_digit b ≡ true
    → a ≢ b
    → luhn (xs ++ a ∷ ys) ≡ true
    → luhn (xs ++ b ∷ ys) ≡ false
luhn-single_error xs ys a b ha hb ne ea = elim (Bool-cases (luhn (xs ++ b ∷ ys))) [
  | inl eb ↦ absurd (ne (both_pass xs ys a b ha hb ea eb))
  | inr eb ↦ eb
]

loop-nil : luhn_loop [] 0 false ≡ 0
unfolding luhn_loop
loop-nil = refl

-- The check digit for the sum of the digits before it.
abbrev check_digit : ℕ → ℕ
check_digit sum = b'0' + (10 - sum % 10) % 10

luhn_digit-check_digit : (n : ℕ) → luhn_digit false (check_digit n) ≡ (10 - n % 10) % 10
unfolding luhn_digit
luhn_digit-check_digit n = omega arith

-- Every number has a digit that, put behind it, makes it pass.
pub luhn-check_digit : (xs : Bytes) → (c : ℕ) × (is_digit c ≡ true) × (luhn (xs ++ c ∷ []) ≡ true)
unfolding luhn
luhn-check_digit xs =
    let n = luhn_loop (reverse xs) 0 true in
    (
      check_digit n,
      ground arith,
      (==_iff _ 0).1
          (omega (arith, sum_at xs [] (check_digit n), luhn_digit-check_digit n, loop-nil)),
    )
