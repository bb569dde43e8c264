-- ===== src/Base/Utf8/Tails.antt =====
-- The bytes of a rune of several bytes.
use shinel.Base.{
  ℕ, suc, ◌-◌, ◌≤◌, ◌≡◌, Bool, true, false, ◌&&◌, [], ◌∷◌, arith, leb, ltb, ◌==◌, slice, length,
  if◌then◌else◌, Bool-cases, inl, inr,
}
use shinel.Base.Bytes.{Bytes}
use shinel.Base.Sort.{All}
use shinel.Base.Utf8.{
  Rune, invalid, rune_error, is_tail, is_second, decode_two, decode_three, decode_four, decode_rune,
}

-- A byte of a rune of several bytes.
abbrev pub IsHigh : ℕ → Type 0
IsHigh b = 0x80 ≤ b

-- A rune is an error over one byte, or its bytes behind the first are there and high.
abbrev pub IsWhole : Bytes → Rune → Type 0
IsWhole bs (r, size) =
    (r == rune_error && size == 1) ≡ false
    → (size ≤ suc (length bs)) × ((1 ≤ size) × All IsHigh (slice 0 (size - 1) bs))

is_second-IsHigh : (a b : ℕ) → is_second a b ≡ true → IsHigh b
unfolding is_second
is_second-IsHigh a b e = ground (arith, e)

is_tail-IsHigh : (b : ℕ) → is_tail b ≡ true → IsHigh b
is_tail-IsHigh b e = ground (arith, e)

invalid-IsWhole : (bs : Bytes) → IsWhole bs invalid
invalid-IsWhole bs h = absurd (ground (arith, h))

decode_two-IsWhole : (a : ℕ) (bs : Bytes) → IsWhole bs (decode_two a bs)
unfolding decode_two
decode_two-IsWhole a [] = invalid-IsWhole []
decode_two-IsWhole a (b ∷ bs) = elim (Bool-cases (is_tail b)) [
  | inl y ↦ rw y (λ h. (omega arith, (omega arith, (is_tail-IsHigh b y, tt))))
  | inr n ↦ rw n (invalid-IsWhole (b ∷ bs))
]

decode_three-IsWhole : (a : ℕ) (bs : Bytes) → IsWhole bs (decode_three a bs)
unfolding decode_three
decode_three-IsWhole a [] = invalid-IsWhole []
decode_three-IsWhole a (b ∷ []) = invalid-IsWhole (b ∷ [])
decode_three-IsWhole a (b ∷ c ∷ bs) = elim (Bool-cases (is_second a b && is_tail c)) [
  | inl y ↦ rw y (λ h. (
    omega arith,
    (
      omega arith,
      (is_second-IsHigh a b (ground (arith, y)), (is_tail-IsHigh c (ground (arith, y)), tt)),
    ),
  ))
  | inr n ↦ rw n (invalid-IsWhole (b ∷ c ∷ bs))
]

decode_four-IsWhole : (a : ℕ) (bs : Bytes) → IsWhole bs (decode_four a bs)
unfolding decode_four
decode_four-IsWhole a [] = invalid-IsWhole []
decode_four-IsWhole a (b ∷ []) = invalid-IsWhole (b ∷ [])
decode_four-IsWhole a (b ∷ c ∷ []) = invalid-IsWhole (b ∷ c ∷ [])
decode_four-IsWhole a (b ∷ c ∷ d ∷ bs) =
    elim (Bool-cases (is_second a b && is_tail c && is_tail d)) [
      | inl y ↦ rw y (λ h. (
        omega arith,
        (
          omega arith,
          (
            is_second-IsHigh a b (ground (arith, y)),
            (is_tail-IsHigh c (ground (arith, y)), (is_tail-IsHigh d (ground (arith, y)), tt)),
          ),
        ),
      ))
      | inr n ↦ rw n (invalid-IsWhole (b ∷ c ∷ d ∷ bs))
    ]

either-IsWhole :
    (bs : Bytes) (t : Bool) (r r' : Rune)
    → IsWhole bs r
    → IsWhole bs r'
    → IsWhole bs (if t then r else r')
either-IsWhole bs true r r' h h' = h
either-IsWhole bs false r r' h h' = h'

-- What is read from a byte that is high.
pub decode_rune-IsWhole : (a : ℕ) (bs : Bytes) → IsHigh a → IsWhole bs (decode_rune (a ∷ bs))
unfolding decode_rune
decode_rune-IsWhole a bs high =
    let e : ltb a 0x80 ≡ false = ground arith in
    rw e (
      either-IsWhole bs (ltb a 0xc2) _ _ (invalid-IsWhole bs) (
        either-IsWhole bs (leb a 0xdf) _ _ (decode_two-IsWhole a bs) (
          either-IsWhole bs (leb a 0xef) _ _ (decode_three-IsWhole a bs)
            (either-IsWhole bs (leb a 0xf4) _ _ (decode_four-IsWhole a bs) (invalid-IsWhole bs)))))
