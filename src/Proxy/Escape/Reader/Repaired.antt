-- ===== src/Proxy/Escape/Reader/Repaired.antt =====
-- What is read of a string that internal/proxy/streaming.go has escaped.
use shinel.Base.{
  ℕ, ◌+◌, ◌-◌, ◌*◌, ◌/◌, ◌%◌, ◌<◌, ◌≡◌, refl, sym, ap, subst, ◌∙◌, true, false, ◌&&◌, ◌||◌, [], ◌∷◌,
  ◌++◌, Option, none, some, ltb, ◌==◌, slice, arith, Bool-cases, inl, inr, append_assoc,
}
use shinel.Base.Bytes.{Bytes}
use shinel.Base.Sort.{All}
use shinel.Base.Utf8.{rune_error}
use shinel.Base.Utf8.Tails.{IsHigh, IsWhole, decode_rune-IsWhole}
use shinel.Proxy.Escape.{hex_digit, escape_ascii, is_html_safe, escape_wide, escape_rune}
use shinel.Proxy.Escape.Reader.Separators.{is_separator, separator_bytes}
use shinel.Proxy.Escape.Reader.{
  Mode, plain, escaped, hex, go, encode_rune, hex_value, step_plain, step_escaped, last_digit,
  step_hex, step_of, prepend, read_string, replacement, repair_wide, repair_rune,
}

-- A byte that goes on gives its bytes.
pub read-go :
    (m m' : Mode) (b : ℕ) (out bs : Bytes)
    → step_of m b ≡ go m' out
    → read_string m (b ∷ bs) ≡ prepend out (read_string m' bs)
unfolding read_string
read-go m m' b out bs e = rw (read_string, e) refl

pub prepend-nil : (r : Option (Bytes × Bytes)) → prepend [] r ≡ r
prepend-nil none = refl
prepend-nil (some (s, rest)) = refl

pub prepend-append :
    (a b : Bytes) (r : Option (Bytes × Bytes)) → prepend a (prepend b r) ≡ prepend (a ++ b) r
prepend-append a b none = refl
prepend-append a b (some (s, rest)) = ap (λ t. some (t, rest)) (sym (append_assoc a b s))

-- A byte that stands for itself.
abbrev pub StandsForItself : ℕ → Type 0
StandsForItself b = step_plain b ≡ go plain (b ∷ [])

high-StandsForItself : (b : ℕ) → IsHigh b → StandsForItself b
unfolding step_plain
high-StandsForItself b h = ground arith

read-high :
    (s bs : Bytes) → All IsHigh s → read_string plain (s ++ bs) ≡ prepend s (read_string plain bs)
unfolding step_of
read-high [] bs h = sym (prepend-nil _)
read-high (b ∷ s) bs (hb, h) =
    read-go plain plain b (b ∷ []) (s ++ bs) (high-StandsForItself b hb)
    ∙ ap (prepend (b ∷ [])) (read-high s bs h)
    ∙ prepend-append (b ∷ []) s (read_string plain bs)

-- A backslash and a letter.
read-escape :
    (b c : ℕ) (bs : Bytes)
    → step_escaped c ≡ go plain (b ∷ [])
    → read_string plain (b'\\' ∷ c ∷ bs) ≡ prepend (b ∷ []) (read_string plain bs)
unfolding step_of step_plain
read-escape b c bs e =
    read-go plain escaped b'\\' [] (c ∷ bs) refl
    ∙ prepend-nil _
    ∙ read-go escaped plain c (b ∷ []) bs e

-- `\u` and four digits.
read-hex :
    (h i j k p q r s : ℕ) (out bs : Bytes)
    → hex_value h ≡ some p
    → hex_value i ≡ some q
    → hex_value j ≡ some r
    → hex_value k ≡ some s
    → encode_rune (((p * 16 + q) * 16 + r) * 16 + s) ≡ some out
    → read_string plain (b'\\' ∷ b'u' ∷ h ∷ i ∷ j ∷ k ∷ bs) ≡ prepend out (read_string plain bs)
unfolding step_of step_plain step_escaped step_hex last_digit
read-hex h i j k p q r s out bs eh ei ej ek e =
    read-go plain escaped b'\\' [] (b'u' ∷ h ∷ i ∷ j ∷ k ∷ bs) refl
    ∙ prepend-nil _
    ∙ read-go escaped (hex 3 0) b'u' [] (h ∷ i ∷ j ∷ k ∷ bs) refl
    ∙ prepend-nil _
    ∙ read-go (hex 3 0) (hex 2 p) h [] (i ∷ j ∷ k ∷ bs) (ground (arith, eh))
    ∙ prepend-nil _
    ∙ read-go (hex 2 p) (hex 1 (p * 16 + q)) i [] (j ∷ k ∷ bs) (ground (arith, ei))
    ∙ prepend-nil _
    ∙ read-go (hex 1 (p * 16 + q)) (hex 0 ((p * 16 + q) * 16 + r)) j [] (k ∷ bs)
        (ground (arith, ej))
    ∙ prepend-nil _
    ∙ read-go (hex 0 ((p * 16 + q) * 16 + r)) plain k out bs (ground (arith, ek, e))

hex_value-hex_digit : (n : ℕ) → n < 16 → hex_value (hex_digit n) ≡ some n
unfolding hex_value hex_digit
hex_value-hex_digit n h = ground arith

encode_rune-ascii : (c : ℕ) → c < 0x80 → encode_rune c ≡ some (c ∷ [])
unfolding encode_rune
encode_rune-ascii c h = ground arith

-- The writer's choices for an ASCII byte, one equation each.
escape_ascii_self : (b : ℕ) → (b == b'"' || b == b'\\') ≡ true → escape_ascii b ≡ b'\\' ∷ b ∷ []
unfolding escape_ascii
escape_ascii_self b e = rw e refl

escape_ascii-hex :
    (b : ℕ)
    → (b == b'"' || b == b'\\') ≡ false
    → (b == 8 || b == 12 || b == 10 || b == 13 || b == 9) ≡ false
    → escape_ascii b ≡ b'\\' ∷ b'u' ∷ b'0' ∷ b'0' ∷ hex_digit (b / 16) ∷ hex_digit (b % 16) ∷ []
unfolding escape_ascii
escape_ascii-hex b e f = ground (arith, e, f)

-- The five control characters with an escape of two bytes.
read-escape_ascii-short :
    (b : ℕ) (bs : Bytes)
    → (b == 8 || b == 12 || b == 10 || b == 13 || b == 9) ≡ true
    → read_string plain (escape_ascii b ++ bs) ≡ prepend (b ∷ []) (read_string plain bs)
unfolding escape_ascii step_escaped
read-escape_ascii-short b bs e =
    let to : (n : ℕ)
        → (b == n) ≡ true
        → read_string plain (escape_ascii n ++ bs) ≡ prepend (n ∷ []) (read_string plain bs)
        → read_string plain (escape_ascii b ++ bs) ≡ prepend (b ∷ []) (read_string plain bs) =
      λ n f q.
        let same : n ≡ b = ground (arith, f) in
        subst
          (λ m. read_string plain (escape_ascii m ++ bs) ≡ prepend (m ∷ []) (read_string plain bs))
          same q in
    elim (Bool-cases (b == 8)) [
      | inl y ↦ to 8 y (read-escape 8 b'b' bs refl)
      | inr n8 ↦ elim (Bool-cases (b == 12)) [
        | inl y ↦ to 12 y (read-escape 12 b'f' bs refl)
        | inr n12 ↦ elim (Bool-cases (b == 10)) [
          | inl y ↦ to 10 y (read-escape 10 b'n' bs refl)
          | inr n10 ↦ elim (Bool-cases (b == 13)) [
            | inl y ↦ to 13 y (read-escape 13 b'r' bs refl)
            | inr n13 ↦ to 9 (ground (arith, e, n8, n12, n10, n13)) (read-escape 9 b't' bs refl)
          ]
        ]
      ]
    ]

pub read-escape_ascii :
    (b : ℕ) (bs : Bytes)
    → b < 0x80
    → read_string plain (escape_ascii b ++ bs) ≡ prepend (b ∷ []) (read_string plain bs)
unfolding step_escaped
read-escape_ascii b bs small = elim (Bool-cases (b == b'"' || b == b'\\')) [
  | inl y ↦ rw (escape_ascii_self b y) (read-escape b b bs (ground (arith, y)))
  | inr n ↦ elim (Bool-cases (b == 8 || b == 12 || b == 10 || b == 13 || b == 9)) [
    | inl y ↦ read-escape_ascii-short b bs y
    | inr m ↦ rw (escape_ascii-hex b n m) (
        read-hex b'0' b'0' (hex_digit (b / 16)) (hex_digit (b % 16)) 0 0 (b / 16) (b % 16) (b ∷ [])
          bs (unfold hex_value in refl) (unfold hex_value in refl)
          (hex_value-hex_digit (b / 16) (omega arith)) (hex_value-hex_digit (b % 16) (omega arith))
          (ap encode_rune (omega arith) ∙ encode_rune-ascii b small))
  ]
]

pub read-escape_wide :
    (b : ℕ) (bs after : Bytes) (c size : ℕ)
    → IsHigh b
    → IsWhole bs (c, size)
    → (is_separator c ≡ true → encode_rune c ≡ some (b ∷ slice 0 (size - 1) bs))
    → (read_string plain ((escape_wide b bs (c, size)).0 ++ after)
        ≡ prepend (repair_wide b bs (c, size)).0 (read_string plain after))
      × ((escape_wide b bs (c, size)).1 ≡ (repair_wide b bs (c, size)).1)
unfolding escape_wide repair_wide
read-escape_wide b bs after c size high whole separator =
    elim (Bool-cases (c == rune_error && size == 1)) [
      | inl y ↦ rw y (
        read-hex b'f' b'f' b'f' b'd' 15 15 15 13 replacement after (unfold hex_value in refl)
            (unfold hex_value in refl) (unfold hex_value in refl) (unfold hex_value in refl)
            (unfold encode_rune in refl),
        refl,
      )
      | inr n ↦ elim (Bool-cases (is_separator c)) [
        | inl y ↦
            rw (n, y)
              (
                read-hex b'2' b'0' b'2' (hex_digit (c % 16)) 2 0 2 (c % 16)
                    (b ∷ slice 0 (size - 1) bs) after (unfold hex_value in refl)
                    (unfold hex_value in refl) (unfold hex_value in refl)
                    (hex_value-hex_digit (c % 16) (omega arith))
                    (ap encode_rune (ground (arith, y)) ∙ separator y),
                refl,
              )
        | inr m ↦
            rw (n, m) (read-high (b ∷ slice 0 (size - 1) bs) after (high, (whole n).1.1), refl)
      ]
    ]

safe-StandsForItself : (b : ℕ) → is_html_safe b ≡ true → StandsForItself b
unfolding is_html_safe step_plain
safe-StandsForItself b z = ground (arith, z)

-- The text of one character is read as that character.
pub read-escape_rune :
    (b : ℕ) (bs after : Bytes)
    → (read_string plain ((escape_rune b bs).0 ++ after)
        ≡ prepend (repair_rune b bs).0 (read_string plain after))
      × ((escape_rune b bs).1 ≡ (repair_rune b bs).1)
unfolding escape_rune repair_rune step_of
read-escape_rune b bs after = elim (Bool-cases (ltb b 0x80)) [
  | inl y ↦ elim (Bool-cases (is_html_safe b)) [
    | inl z ↦ rw (y, z) (read-go plain plain b (b ∷ []) after (safe-StandsForItself b z), refl)
    | inr n ↦ rw (y, n) (read-escape_ascii b after (ground (arith, y)), refl)
  ]
  | inr n ↦
      let high : IsHigh b = ground (arith, n) in
      rw n (
        read-escape_wide b bs after _ _ high (decode_rune-IsWhole b bs high)
          (separator_bytes b bs high))
]
