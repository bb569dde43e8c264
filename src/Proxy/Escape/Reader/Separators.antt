-- ===== src/Proxy/Escape/Reader/Separators.antt =====
-- The line separators U+2028 and U+2029, which internal/proxy/streaming.go escapes.
use shinel.Base.{
  ℕ, ◌+◌, ◌-◌, ◌*◌, ◌≤◌, ◌<◌, ◌≡◌, refl, ap, ap₂, ◌∙◌, Bool, true, false, ◌&&◌, ◌||◌, [], ◌∷◌, some,
  leb, ltb, ◌==◌, if◌then◌else◌, slice, arith, Bool-cases, inl, inr,
}
use shinel.Base.Bytes.{Bytes}
use shinel.Base.Utf8.{
  Rune, invalid, is_tail, is_second, decode_two, decode_three, decode_four, decode_rune,
}
use shinel.Base.Utf8.Tails.{IsHigh}
use shinel.Proxy.Escape.Reader.{encode_rune}

-- The separators U+2028 and U+2029 are three bytes.
abbrev pub is_separator : ℕ → Bool
is_separator c = c == 0x2028 || c == 0x2029

-- A rune of several bytes that is a separator has the bytes that encode it.
abbrev pub SeparatorIsWhole : ℕ → Bytes → Rune → Type 0
SeparatorIsWhole b bs r =
    is_separator r.0 ≡ true → encode_rune r.0 ≡ some (b ∷ slice 0 (r.1 - 1) bs)

no_separator : (b : ℕ) (bs : Bytes) (r : Rune) → is_separator r.0 ≡ false → SeparatorIsWhole b bs r
no_separator b bs r n y = absurd (ground (arith, n, y))

either_separator :
    (b : ℕ) (bs : Bytes) (t : Bool) (r r' : Rune)
    → (t ≡ true → SeparatorIsWhole b bs r)
    → (t ≡ false → SeparatorIsWhole b bs r')
    → SeparatorIsWhole b bs (if t then r else r')
either_separator b bs true r r' h h' = h refl
either_separator b bs false r r' h h' = h' refl

two_no_separator :
    (a : ℕ) (bs : Bytes) → leb a 0xdf ≡ true → SeparatorIsWhole a bs (decode_two a bs)
unfolding decode_two
two_no_separator a [] h = no_separator a [] invalid refl
two_no_separator a (b ∷ bs) h =
    either_separator a (b ∷ bs) (is_tail b) _ invalid
      (λ y. no_separator a (b ∷ bs) ((a - 0xc0) * 64 + (b - 0x80), 2) (ground (arith, h, y)))
      (λ _. no_separator a (b ∷ bs) invalid refl)

three_bytes :
    (a b c v : ℕ)
    → 0xdf < a
    → a ≤ 0xef
    → 0x80 ≤ b
    → b ≤ 0xbf
    → 0x80 ≤ c
    → c ≤ 0xbf
    → v ≡ (a - 0xe0) * 4096 + (b - 0x80) * 64 + (c - 0x80)
    → is_separator v ≡ true
    → encode_rune v ≡ some (a ∷ b ∷ c ∷ [])
unfolding encode_rune
three_bytes a b c v ha ha' hb hb' hc hc' e y =
    let out : ℕ → Bytes = λ k. 0xe2 ∷ 0x80 ∷ (0x80 + k) ∷ [] in
    let known : (k : ℕ)
        → encode_rune (0x2000 + k) ≡ some (out k)
        → v ≡ 0x2000 + k
        → k < 64
        → encode_rune v ≡ some (a ∷ b ∷ c ∷ []) =
      λ k f g small.
        ap encode_rune g
        ∙ f
        ∙ ap some (
            let a_is : 0xe2 ≡ a = omega (arith, e, g) in
            let b_is : 0x80 ≡ b = omega (arith, e, g) in
            let c_is : 0x80 + k ≡ c = omega (arith, e, g) in
            ap₂ ◌∷◌ a_is (ap₂ ◌∷◌ b_is (ap (λ x. x ∷ []) c_is))) in
    elim (Bool-cases (v == 0x2028)) [
      | inl f ↦ known 40 refl (ground (arith, f)) (omega arith)
      | inr n ↦ known 41 refl (ground (arith, y, n)) (omega arith)
    ]

three_separator :
    (a : ℕ) (bs : Bytes)
    → leb a 0xdf ≡ false
    → leb a 0xef ≡ true
    → SeparatorIsWhole a bs (decode_three a bs)
unfolding decode_three is_second
three_separator a [] l h = no_separator a [] invalid refl
three_separator a (b ∷ []) l h = no_separator a (b ∷ []) invalid refl
three_separator a (b ∷ c ∷ bs) l h =
    either_separator a (b ∷ c ∷ bs) (is_second a b && is_tail c) _ invalid
      (λ y.
        three_bytes a b c _ (ground (arith, l)) (ground (arith, h)) (ground (arith, y))
          (ground (arith, y)) (ground (arith, y)) (ground (arith, y)) refl)
      (λ _. no_separator a (b ∷ c ∷ bs) invalid refl)

four_no_separator :
    (a : ℕ) (bs : Bytes) → leb a 0xef ≡ false → SeparatorIsWhole a bs (decode_four a bs)
unfolding decode_four is_second
four_no_separator a [] l = no_separator a [] invalid refl
four_no_separator a (b ∷ []) l = no_separator a (b ∷ []) invalid refl
four_no_separator a (b ∷ c ∷ []) l = no_separator a (b ∷ c ∷ []) invalid refl
four_no_separator a (b ∷ c ∷ d ∷ bs) l =
    either_separator a (b ∷ c ∷ d ∷ bs) (is_second a b && is_tail c && is_tail d) _ invalid
      (λ y.
        no_separator a (b ∷ c ∷ d ∷ bs)
          ((a - 0xf0) * 262144 + (b - 0x80) * 4096 + (c - 0x80) * 64 + (d - 0x80), 4)
          (ground (arith, l, y)))
      (λ _. no_separator a (b ∷ c ∷ d ∷ bs) invalid refl)

pub separator_bytes : (b : ℕ) (bs : Bytes) → IsHigh b → SeparatorIsWhole b bs (decode_rune (b ∷ bs))
unfolding decode_rune
separator_bytes b bs high =
    let e : ltb b 0x80 ≡ false = ground arith in
    let bad_rune = no_separator b bs invalid refl in
    rw e (
      either_separator b bs (ltb b 0xc2) _ _ (λ _. bad_rune)
        (λ _. either_separator b bs (leb b 0xdf) _ _ (two_no_separator b bs) (λ l.
          either_separator b bs (leb b 0xef) _ _ (three_separator b bs l) (λ l'.
            either_separator b bs (leb b 0xf4) _ _ (λ _. four_no_separator b bs l')
              (λ _. bad_rune)))))
