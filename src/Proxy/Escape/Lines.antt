-- ===== src/Proxy/Escape/Lines.antt =====
-- A string that encoding/json writes, in internal/proxy/streaming.go and internal/admin/admin.go,
-- holds no control character.
use shinel.Base.{
  ℕ, zero, suc, ◌/◌, ◌%◌, ◌≤◌, ◌≡◌, refl, Bool, true, false, ◌&&◌, ◌||◌, [], ◌∷◌, arith, ltb, ◌==◌,
  if◌then◌else◌, Bool-cases, inl, inr,
}
use shinel.Base.Bytes.{Bytes}
use shinel.Base.Sort.{All, All-append, All-map}
use shinel.Base.Utf8.{rune_error}
use shinel.Base.Utf8.Tails.{IsHigh, IsWhole, decode_rune-IsWhole}
use shinel.Proxy.Escape.{
  hex_digit, escape_ascii, is_html_safe, escape_wide, escape_rune, escape_from, marshal_string,
}

-- No control character, so no line break.
abbrev pub IsPlain : ℕ → Type 0
IsPlain b = 32 ≤ b

hex_digit-IsPlain : (n : ℕ) → IsPlain (hex_digit n)
unfolding hex_digit
hex_digit-IsPlain n = ground arith

All-if :
    (t : Bool) (xs ys : Bytes)
    → (t ≡ true → All IsPlain xs)
    → (t ≡ false → All IsPlain ys)
    → All IsPlain (if t then xs else ys)
All-if true xs ys h h' = h refl
All-if false xs ys h h' = h' refl

escape_ascii-IsPlain : (b : ℕ) → All IsPlain (escape_ascii b)
unfolding escape_ascii
escape_ascii-IsPlain b =
    let two : (c : ℕ) → IsPlain c → All IsPlain (b'\\' ∷ c ∷ []) = λ c p. (omega arith, (p, tt)) in
    All-if (b == b'"' || b == b'\\') _ _ (λ e. two b (ground (arith, e)))
      (λ _.
        All-if (b == 8) _ _ (λ _. two b'b' (omega arith))
          (λ _.
            All-if (b == 12) _ _ (λ _. two b'f' (omega arith))
              (λ _.
                All-if (b == 10) _ _ (λ _. two b'n' (omega arith))
                  (λ _.
                    All-if (b == 13) _ _ (λ _. two b'r' (omega arith))
                      (λ _.
                        All-if (b == 9) _ _ (λ _. two b't' (omega arith))
                          (λ _. (
                            omega arith,
                            (
                              omega arith,
                              (
                                omega arith,
                                (
                                  omega arith,
                                  (hex_digit-IsPlain (b / 16), (hex_digit-IsPlain (b % 16), tt)),
                                ),
                              ),
                            ),
                          )))))))

-- Behind the decoding of a rune that begins with a high byte.
escape_wide-IsPlain :
    (b : ℕ) (bs : Bytes) (c size : ℕ)
    → IsHigh b
    → IsWhole bs (c, size)
    → All IsPlain (escape_wide b bs (c, size)).0
unfolding escape_wide
escape_wide-IsPlain b bs c size high whole = elim (Bool-cases (c == rune_error && size == 1)) [
  | inl y ↦ rw y (omega arith)
  | inr n ↦ elim (Bool-cases (c == 0x2028 || c == 0x2029)) [
    | inl y ↦
        rw (n, y)
          (
            omega arith,
            (
              omega arith,
              (omega arith, (omega arith, (omega arith, (hex_digit-IsPlain (c % 16), tt)))),
            ),
          )
    | inr m ↦ rw (n, m) (omega arith, All-map _ (λ x h. omega arith) (whole n).1.1)
  ]
]

escape_rune-IsPlain : (b : ℕ) (bs : Bytes) → All IsPlain (escape_rune b bs).0
unfolding escape_rune is_html_safe
escape_rune-IsPlain b bs = elim (Bool-cases (ltb b 0x80)) [
  | inl y ↦ elim (Bool-cases (is_html_safe b)) [
    | inl z ↦ rw (y, z) (ground (arith, z), tt)
    | inr n ↦ rw (y, n) (escape_ascii-IsPlain b)
  ]
  | inr n ↦
      let high : IsHigh b = ground (arith, n) in
      rw n (escape_wide-IsPlain b bs _ _ high (decode_rune-IsWhole b bs high))
]

escape_from-IsPlain : (skip : ℕ) (bs : Bytes) → All IsPlain (escape_from skip bs)
unfolding escape_from
escape_from-IsPlain skip [] = tt
escape_from-IsPlain zero (b ∷ bs) =
    All-append IsPlain _ _ (escape_rune-IsPlain b bs) (escape_from-IsPlain (escape_rune b bs).1 bs)
escape_from-IsPlain (suc skip) (b ∷ bs) = escape_from-IsPlain skip bs

-- Whatever a string holds, its JSON has no line break.
pub marshal_string-IsPlain : (value : Bytes) → All IsPlain (marshal_string value)
unfolding marshal_string
marshal_string-IsPlain value =
    (omega arith, All-append IsPlain _ _ (escape_from-IsPlain 0 value) (omega arith, tt))
