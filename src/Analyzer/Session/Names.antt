-- ===== src/Analyzer/Session/Names.antt =====
-- The tokens that internal/analyzer/analyzer.go spells.
use shinel.Base.{
  ℕ, zero, suc, ◌+◌, ◌/◌, ◌%◌, ◌≤◌, ◌<◌, ◌^◌, ◌≡◌, refl, true, [], ◌∷◌, ◌++◌, ltb, arith, length,
  length-append, Bool-cases, inl, inr,
}
use shinel.Base.Bytes.{Bytes, is_upper, is_digit}
use shinel.Base.Decimal.{digits_onto, decimal, decimal-injective, length-decimal}
use shinel.Base.Sort.{All}
use shinel.Base.Split.{split_unique}
use shinel.Analyzer.Session.{token_text}
use shinel.Proxy.Token.{Letters, Digits, IsToken}

digits_onto-Digits : (f n : ℕ) (out : Bytes) → Digits out → Digits (digits_onto f n out)
unfolding digits_onto
digits_onto-Digits zero n out h = h
digits_onto-Digits (suc f) n out h =
    let d : Digits ((b'0' + n % 10) ∷ out) = Digits.more (ground arith) h in
    elim (Bool-cases (ltb n 10)) [
      | inl e ↦ rw e d
      | inr e ↦ rw e (digits_onto-Digits f (n / 10) _ d)
    ]

pub decimal-Digits : (n : ℕ) → Digits (decimal n)
unfolding decimal digits_onto
decimal-Digits n =
    let d : Digits ((b'0' + n % 10) ∷ []) = Digits.last (ground arith) in
    elim (Bool-cases (ltb n 10)) [
      | inl e ↦ rw e d
      | inr e ↦ rw e (digits_onto-Digits n (n / 10) _ d)
    ]

-- What is spelled for a kind of letters is a token.
pub token_text-IsToken : {kind : Bytes} (n : ℕ) → Letters kind → IsToken (token_text kind n)
token_text-IsToken {kind} n h = record {
  kind = kind;
  number = decimal n;
  kind_letters = h;
  number_digits = decimal-Digits n;
  spelled = unfold token_text in refl;
}

Letters-All : {ks : Bytes} → Letters ks → All (λ b. is_upper b ≡ true) ks
Letters-All (Letters.last h) = (h, tt)
Letters-All (Letters.more h t) = (h, Letters-All t)

Digits-All : {ds : Bytes} → Digits ds → All (λ b. is_digit b ≡ true) ds
Digits-All (Digits.last h) = (h, tt)
Digits-All (Digits.more h t) = (h, Digits-All t)

-- Two tokens are the same only for the same kind and number.
pub token_text-injective :
    {j k : Bytes} (m n : ℕ)
    → Letters j
    → Letters k
    → token_text j m ≡ token_text k n
    → (j ≡ k) × (m ≡ n)
unfolding token_text
token_text-injective {j} {k} m n hj hk e =
    let (p, q) =
      split_unique is_upper b'_' j k _ _ refl (Letters-All hj) (Letters-All hk) (ground arith) in
    let (d, _) =
      split_unique is_digit b']' (decimal m) (decimal n) [] [] refl (Digits-All (decimal-Digits m))
        (Digits-All (decimal-Digits n)) q in
    (p, decimal-injective m n d)

-- How long a token gets.
pub length-token_text :
    (kind : Bytes) (n k : ℕ) → n < 10 ^ k → 0 < k → length (token_text kind n) ≤ length kind + k + 3
length-token_text kind n k h p =
    unfold token_text in
    omega (
      arith,
      length-append kind (b'_' ∷ (decimal n ++ b']' ∷ [])),
      length-append (decimal n) (b']' ∷ []),
      length-decimal n k h p,
    )
