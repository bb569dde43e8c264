-- ===== src/Base/Decimal.antt =====
-- Decimal numbers, as fmt's `%d` and strconv.Itoa print a number that is not negative.
use native.Mathlib.Nat.{pow-suc}
use shinel.Base.{
  ℕ, zero, suc, ◌+◌, ◌-◌, ◌*◌, ◌/◌, ◌%◌, ◌^◌, ◌≤◌, ◌<◌, ◌≡◌, refl, sym, ap, ◌∙◌, [], ◌∷◌, arith,
  ltb, length, if◌then◌else◌, Bool-cases, inl, inr,
}
use shinel.Base.Bytes.{Bytes, codes}

-- The digits of `n` in front of `out`; the first argument bounds their number.
unfoldable pub digits_onto : ℕ → ℕ → Bytes → Bytes
digits_onto zero n out = out
digits_onto (suc f) n out =
    let out' = (b'0' + n % 10) ∷ out in
    let more = digits_onto f (n / 10) out' in if ltb n 10 then out' else more

unfoldable pub decimal : ℕ → Bytes
unfolding digits_onto
decimal n = digits_onto (suc n) n []

-- The number that digits spell behind `n`.
abbrev pub read_digits : ℕ → Bytes → ℕ
read_digits n [] = n
read_digits n (c ∷ s) = read_digits (n * 10 + (c - b'0')) s

read-digits_onto :
    (f n : ℕ) (out : Bytes) → n < f → read_digits 0 (digits_onto f n out) ≡ read_digits n out
unfolding digits_onto
read-digits_onto zero n out h = elim h [ ]
read-digits_onto (suc f) n out h = elim (Bool-cases (ltb n 10)) [
  | inl e ↦ rw e (ap (λ k. read_digits k out) (ground arith))
  | inr e ↦
      rw e
        (read-digits_onto f (n / 10) _ (ground arith) ∙ ap (λ k. read_digits k out) (omega arith))
]

-- A printed number reads back.
pub read-decimal : (n : ℕ) → read_digits 0 (decimal n) ≡ n
unfolding decimal
read-decimal n = read-digits_onto (suc n) n [] (omega arith)

pub decimal-injective : (m n : ℕ) → decimal m ≡ decimal n → m ≡ n
decimal-injective m n e = sym (read-decimal m) ∙ ap (read_digits 0) e ∙ read-decimal n

length-digits_onto :
    (f n k : ℕ) (out : Bytes) → n < 10 ^ k → 0 < k → length (digits_onto f n out) ≤ k + length out
unfolding digits_onto
length-digits_onto zero n k out h p = omega arith
length-digits_onto (suc f) n zero out h p = elim p [ ]
length-digits_onto (suc f) n (suc zero) out h p = ground arith
length-digits_onto (suc f) n (suc (suc k)) out h p = elim (Bool-cases (ltb n 10)) [
  | inl e ↦ rw e (omega arith)
  | inr e ↦ rw e (
      omega (
        arith,
        length-digits_onto f (n / 10) (suc k) ((b'0' + n % 10) ∷ out)
            (omega (arith, pow-suc 10 (suc k))) (omega arith),
      ))
]

-- A number below a power of ten has no more digits than the power.
pub length-decimal : (n k : ℕ) → n < 10 ^ k → 0 < k → length (decimal n) ≤ k
unfolding decimal
length-decimal n k h p = omega (arith, length-digits_onto (suc n) n k [] h p)

decimal_forty_two : decimal 42 ≡ codes "42"
unfolding decimal
decimal_forty_two = refl
