-- ===== src/Proxy/Escape/Plain.antt =====
-- encoding/json's encoding of a string with `SetEscapeHTML(false)`, as internal/analyzer/json.go
-- sets it, in front of what is written next.
pub mod Runes
use shinel.Base.{
  ℕ, zero, suc, ◌+◌, ◌-◌, ◌≡◌, ◌≢◌, refl, sym, ap, ◌∙◌, Bool, true, false, ◌&&◌, ◌||◌, not, [], ◌∷◌,
  ◌++◌, ltb, ◌==◌, if◌then◌else◌, arith, Bool-cases, inl, inr, ◌⊎◌, append_assoc, slice,
}
use shinel.Base.Bytes.{Bytes, codes, is_upper, is_digit}
use shinel.Base.Sort.{All}
use shinel.Base.Utf8.{decode_rune, rune_error}
use shinel.Base.Utf8.Tails.{IsHigh, decode_rune-IsWhole}
use shinel.Proxy.Escape.{hex_digit, escape_ascii, escape_wide}
use shinel.Proxy.Escape.Reader.{
  plain, step_of, step_plain, go, prepend, read_string, repair_wide, repair_rune,
}
use shinel.Proxy.Escape.Reader.Repaired.{
  StandsForItself, read-go, read-escape_ascii, read-escape_wide,
}
use shinel.Proxy.Escape.Reader.Separators.{separator_bytes}

-- The bytes below 0x80 that need no escape.
unfoldable pub is_safe : ℕ → Bool
is_safe b = not (ltb b 32) && not (b == b'"') && not (b == b'\\')

unfoldable pub plain_rune : ℕ → Bytes → Bytes × ℕ
plain_rune b bs =
    if ltb b 0x80
    then (if is_safe b then (b ∷ [], 0) else (escape_ascii b, 0))
    else escape_wide b bs (decode_rune (b ∷ bs))

unfoldable pub plain_from : ℕ → Bytes → Bytes → Bytes
plain_from skip [] rest = rest
plain_from zero (b ∷ bs) rest =
    let (text, size) = plain_rune b bs in text ++ plain_from size bs rest
plain_from (suc skip) (b ∷ bs) rest = plain_from skip bs rest

unfoldable pub write_string : Bytes → Bytes → Bytes
unfolding hex_digit escape_ascii escape_wide decode_rune is_safe plain_rune plain_from
write_string s rest = b'"' ∷ plain_from 0 s (b'"' ∷ rest)

safe-StandsForItself : (b : ℕ) → is_safe b ≡ true → StandsForItself b
unfolding is_safe step_plain
safe-StandsForItself b z = ground (arith, z)

-- The text of one character is read as that character.
pub read-plain_rune :
    (b : ℕ) (bs after : Bytes)
    → (read_string plain ((plain_rune b bs).0 ++ after)
        ≡ prepend (repair_rune b bs).0 (read_string plain after))
      × ((plain_rune b bs).1 ≡ (repair_rune b bs).1)
unfolding plain_rune repair_rune step_of
read-plain_rune b bs after = elim (Bool-cases (ltb b 0x80)) [
  | inl y ↦ elim (Bool-cases (is_safe b)) [
    | inl z ↦ rw (y, z) (read-go plain plain b (b ∷ []) after (safe-StandsForItself b z), refl)
    | inr n ↦ rw (y, n) (read-escape_ascii b after (ground (arith, y)), refl)
  ]
  | inr n ↦
      let high : IsHigh b = ground (arith, n) in
      rw n (
        read-escape_wide b bs after _ _ high (decode_rune-IsWhole b bs high)
          (separator_bytes b bs high))
]
