-- ===== src/Proxy/Escape.antt =====
-- internal/proxy/streaming.go: `jsonEscape`, over encoding/json's encoding of a string.
pub mod Lines
pub mod Plain
pub mod Reader
use shinel.Base.{
  ℕ, zero, suc, ◌+◌, ◌-◌, ◌/◌, ◌%◌, Bool, true, false, ◌&&◌, ◌||◌, [], ◌∷◌, ◌++◌, ltb, ◌==◌,
  if◌then◌else◌, length, slice,
}
use shinel.Base.Bytes.{Bytes, codes}
use shinel.Base.Utf8.{decode_rune, rune_error}

pub hex_digit : ℕ → ℕ
hex_digit n = if ltb n 10 then b'0' + n else b'a' + (n - 10)

-- The two-byte escapes of encoding/json, then `\u00xx`.
pub escape_ascii : ℕ → Bytes
unfolding hex_digit
escape_ascii b =
    if b == b'"' || b == b'\\'
    then b'\\' ∷ b ∷ []
    else if b == 8
    then b'\\' ∷ b'b' ∷ []
    else if b == 12
    then b'\\' ∷ b'f' ∷ []
    else if b == 10
    then b'\\' ∷ b'n' ∷ []
    else if b == 13
    then b'\\' ∷ b'r' ∷ []
    else if b == 9
    then b'\\' ∷ b't' ∷ []
    else b'\\' ∷ b'u' ∷ b'0' ∷ b'0' ∷ hex_digit (b / 16) ∷ hex_digit (b % 16) ∷ []

-- The bytes below 0x80 that need no escape when HTML is escaped too.
pub is_html_safe : ℕ → Bool
is_html_safe b =
    if ltb b 32
    then false
    else if b == b'"' || b == b'\\' || b == b'<' || b == b'>' || b == b'&'
    then false
    else true

-- Behind the decoding of a rune at a byte from 0x80 on.
pub escape_wide : ℕ → Bytes → ℕ × ℕ → Bytes × ℕ
escape_wide b bs (c, size) =
    if c == rune_error && size == 1
    then (codes "\\ufffd", 0)
    else if c == 0x2028 || c == 0x2029
    then (codes "\\u202" ++ hex_digit (c % 16) ∷ [], size - 1)
    else (b ∷ slice 0 (size - 1) bs, size - 1)

-- What is written for the character at the front of a text, and how many bytes behind its first
-- one belong to it.
pub escape_rune : ℕ → Bytes → Bytes × ℕ
escape_rune b bs =
    if ltb b 0x80
    then (if is_html_safe b then (b ∷ [], 0) else (escape_ascii b, 0))
    else escape_wide b bs (decode_rune (b ∷ bs))

-- The bytes of a string, escaped; the number counts bytes already dealt with.
pub escape_from : ℕ → Bytes → Bytes
escape_from skip [] = []
escape_from zero (b ∷ bs) = let (text, size) = escape_rune b bs in text ++ escape_from size bs
escape_from (suc skip) (b ∷ bs) = escape_from skip bs

-- `json.Marshal` of a string.
unfoldable pub marshal_string : Bytes → Bytes
unfolding hex_digit escape_ascii is_html_safe escape_wide escape_rune escape_from decode_rune
marshal_string value = b'"' ∷ (escape_from 0 value ++ b'"' ∷ [])

-- `b[1 : len(b)-1]`.
unfoldable pub json_escape : Bytes → Bytes
unfolding marshal_string
json_escape value = let b = marshal_string value in slice 1 (length b - 1) b
