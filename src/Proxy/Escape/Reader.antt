-- ===== src/Proxy/Escape/Reader.antt =====
-- A reader of JSON strings as RFC 8259 has them, for what internal/proxy/streaming.go and
-- internal/admin/admin.go write. It takes no pair of surrogates, which they never write.
pub mod Separators
pub mod Repaired
pub mod Whole
pub mod Valid
use shinel.Base.{
  ℕ, zero, suc, ◌+◌, ◌-◌, ◌*◌, ◌/◌, ◌%◌, ◌≡◌, Bool, true, false, ◌&&◌, ◌||◌, [], ◌∷◌, ◌++◌, Option,
  none, some, leb, ltb, ◌==◌, if◌then◌else◌, length, slice,
}
use shinel.Base.Bytes.{Bytes}
use shinel.Base.Utf8.{decode_rune, rune_error}

-- Inside a string; behind a backslash; or behind `\u` with one more digit to come than the number,
-- and what the digits so far make.
pub data Mode : Type 0 where
  plain : Mode
  escaped : Mode
  hex : ℕ → ℕ → Mode

-- What a byte does: it ends the string, it is not allowed, or it gives some bytes.
pub data Step : Type 0 where
  ending : Step
  bad : Step
  go : Mode → Bytes → Step

-- The UTF-8 of a code point below 0x10000 that is no surrogate.
unfoldable pub encode_rune : ℕ → Option Bytes
encode_rune c =
    if ltb c 0x80
    then some (c ∷ [])
    else if ltb c 0x800
    then some ((0xc0 + c / 64) ∷ (0x80 + c % 64) ∷ [])
    else if (leb 0xd800 c && ltb c 0xe000) || leb 0x10000 c
    then none
    else some ((0xe0 + c / 4096) ∷ (0x80 + c / 64 % 64) ∷ (0x80 + c % 64) ∷ [])

unfoldable pub hex_value : ℕ → Option ℕ
hex_value b =
    if leb b'0' b && leb b b'9'
    then some (b - b'0')
    else if leb b'a' b && leb b b'f'
    then some (b - b'a' + 10)
    else if leb b'A' b && leb b b'F'
    then some (b - b'A' + 10)
    else none

unfoldable pub step_plain : ℕ → Step
step_plain b =
    if b == b'"'
    then ending
    else if b == b'\\'
    then go escaped []
    else if ltb b 32
    then bad
    else go plain (b ∷ [])

unfoldable pub step_escaped : ℕ → Step
step_escaped b =
    if b == b'"' || b == b'\\' || b == b'/'
    then go plain (b ∷ [])
    else if b == b'b'
    then go plain (8 ∷ [])
    else if b == b'f'
    then go plain (12 ∷ [])
    else if b == b'n'
    then go plain (10 ∷ [])
    else if b == b'r'
    then go plain (13 ∷ [])
    else if b == b't'
    then go plain (9 ∷ [])
    else if b == b'u'
    then go (hex 3 0) []
    else bad

unfoldable pub last_digit : ℕ → Step
last_digit c = elim (encode_rune c) [ none ↦ bad | some out ↦ go plain out ]

unfoldable pub step_hex : ℕ → ℕ → ℕ → Step
step_hex left acc b = elim (hex_value b) [
  | none ↦ bad
  | some v ↦ elim left [ zero ↦ last_digit (acc * 16 + v) | suc k ↦ go (hex k (acc * 16 + v)) [] ]
]

unfoldable pub step_of : Mode → ℕ → Step
step_of plain b = step_plain b
step_of escaped b = step_escaped b
step_of (hex left acc) b = step_hex left acc b

abbrev pub prepend : Bytes → Option (Bytes × Bytes) → Option (Bytes × Bytes)
prepend out none = none
prepend out (some (s, rest)) = some (out ++ s, rest)

-- The content of a string whose opening quote is read, and what is behind its closing quote.
unfoldable pub read_string : Mode → Bytes → Option (Bytes × Bytes)
read_string m [] = none
read_string m (b ∷ bs) = elim (step_of m b) [
  | ending ↦ some ([], bs)
  | bad ↦ none
  | go m' out ↦ prepend out (read_string m' bs)
]

-- The bytes of U+FFFD.
abbrev pub replacement : Bytes
replacement = 0xef ∷ 0xbf ∷ 0xbd ∷ []

unfoldable pub repair_wide : ℕ → Bytes → ℕ × ℕ → Bytes × ℕ
repair_wide b bs (c, size) =
    if c == rune_error && size == 1 then (replacement, 0) else (b ∷ slice 0 (size - 1) bs, size - 1)

unfoldable pub repair_rune : ℕ → Bytes → Bytes × ℕ
repair_rune b bs = if ltb b 0x80 then (b ∷ [], 0) else repair_wide b bs (decode_rune (b ∷ bs))

-- A text with U+FFFD for every byte that is no part of an encoding; the number counts bytes already
-- dealt with.
unfoldable pub repaired_from : ℕ → Bytes → Bytes
repaired_from skip [] = []
repaired_from zero (b ∷ bs) = let (text, size) = repair_rune b bs in text ++ repaired_from size bs
repaired_from (suc skip) (b ∷ bs) = repaired_from skip bs

abbrev pub repaired : Bytes → Bytes
repaired text = repaired_from 0 text
