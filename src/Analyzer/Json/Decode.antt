-- ===== src/Analyzer/Json/Decode.antt =====
-- A reader of JSON text as RFC 8259 has it, for texts without spaces: what a client makes of a text
-- that the encoder of internal/analyzer/json.go writes.
mod Shorter
pub mod Reads
use shinel.Base.{
  ℕ, zero, suc, Bool, true, false, ◌||◌, [], ◌∷◌, ◌++◌, Option, none, some, ◌==◌, if◌then◌else◌,
  length,
}
use shinel.Base.Bytes.{Bytes, codes, is_digit}
use shinel.Analyzer.Json.{
  Json, null, boolean, number, string, array, object, Items, no_items, item, Fields, no_fields,
  field,
}
use shinel.Analyzer.Json.Encode.{is_number_char}
use shinel.Proxy.Escape.Reader.{plain, read_string}

-- What begins with a byte.
pub data Start : Type 0 where
  word : Bytes → Json → Start
  quote : Start
  bracket : Start
  brace : Start
  numeral : Start
  other : Start

unfoldable pub start_of : ℕ → Start
start_of b =
    if b == b'"'
    then quote
    else if b == b'['
    then bracket
    else if b == b'{'
    then brace
    else if b == b'n'
    then word (codes "ull") null
    else if b == b't'
    then word (codes "rue") (boolean true)
    else if b == b'f'
    then word (codes "alse") (boolean false)
    else if is_digit b || b == b'-'
    then numeral
    else other

unfoldable pub read_word : Bytes → Json → Bytes → Option (Json × Bytes)
read_word [] v text = some (v, text)
read_word (c ∷ w) v [] = none
read_word (c ∷ w) v (b ∷ bs) = if b == c then read_word w v bs else none

-- The bytes of a number in front, and what is behind them.
unfoldable pub number_of : Bytes → Bytes × Bytes
number_of [] = ([], [])
number_of (b ∷ bs) =
    let (n, rest) = number_of bs in if is_number_char b then (b ∷ n, rest) else ([], b ∷ bs)

abbrev pub as_number : Bytes × Bytes → Option (Json × Bytes)
as_number (n, rest) = some (number n, rest)

abbrev pub as_string : Option (Bytes × Bytes) → Option (Json × Bytes)
as_string none = none
as_string (some (s, rest)) = some (string s, rest)

-- A text in front of which a byte stands.
unfoldable pub behind : ℕ → Bytes → Option Bytes
behind c [] = none
behind c (b ∷ bs) = if b == c then some bs else none

abbrev pub behind_colon : Bytes → Option Bytes → Option (Bytes × Bytes)
behind_colon k none = none
behind_colon k (some rest) = some (k, rest)

abbrev pub as_key : Option (Bytes × Bytes) → Option (Bytes × Bytes)
as_key none = none
as_key (some (k, rest)) = behind_colon k (behind b':' rest)

abbrev pub quoted : Option Bytes → Option (Bytes × Bytes)
quoted none = none
quoted (some text) = as_key (read_string plain text)

-- A key with its colon.
unfoldable pub read_key : Bytes → Option (Bytes × Bytes)
unfolding behind read_string
read_key text = quoted (behind b'"' text)

abbrev pub with_item : Json → Option (Items × Bytes) → Option (Items × Bytes)
with_item v none = none
with_item v (some (is, rest)) = some (item v is, rest)

abbrev pub with_field : Bytes → Json → Option (Fields × Bytes) → Option (Fields × Bytes)
with_field k v none = none
with_field k v (some (fs, rest)) = some (field k v fs, rest)

abbrev pub as_array : Option (Items × Bytes) → Option (Json × Bytes)
as_array none = none
as_array (some (is, rest)) = some (array is, rest)

abbrev pub as_object : Option (Fields × Bytes) → Option (Json × Bytes)
as_object none = none
as_object (some (fs, rest)) = some (object fs, rest)

-- On fuel; the number of bytes is enough.
unfoldable mutual
  unfolding start_of read_word number_of behind read_string read_key

  pub read_value : ℕ → Bytes → Option (Json × Bytes)
  read_value zero text = none
  read_value (suc n) [] = none
  read_value (suc n) (b ∷ bs) = elim (start_of b) [
    | word w v ↦ read_word w v bs
    | quote ↦ as_string (read_string plain bs)
    | bracket ↦ elim (behind b']' bs) [
      | some rest ↦ some (array no_items, rest)
      | none ↦ elim (read_value n bs) [
        | none ↦ none
        | some (v, t) ↦ as_array (with_item v (read_more n t))
      ]
    ]
    | brace ↦ elim (behind b'}' bs) [
      | some rest ↦ some (object no_fields, rest)
      | none ↦ as_object (read_field n bs)
    ]
    | numeral ↦ as_number (number_of (b ∷ bs))
    | other ↦ none
  ]

  pub read_more : ℕ → Bytes → Option (Items × Bytes)
  read_more zero text = none
  read_more (suc n) text = elim (behind b']' text) [
    | some rest ↦ some (no_items, rest)
    | none ↦ elim (behind b',' text) [
      | none ↦ none
      | some bs ↦ elim (read_value n bs) [ none ↦ none | some (v, t) ↦ with_item v (read_more n t) ]
    ]
  ]

  -- A key, a value and the fields behind them.
  pub read_field : ℕ → Bytes → Option (Fields × Bytes)
  read_field zero text = none
  read_field (suc n) text = elim (read_key text) [
    | none ↦ none
    | some (k, t) ↦ elim (read_value n t) [
      | none ↦ none
      | some (v, u) ↦ with_field k v (read_more_fields n u)
    ]
  ]

  pub read_more_fields : ℕ → Bytes → Option (Fields × Bytes)
  read_more_fields zero text = none
  read_more_fields (suc n) text = elim (behind b'}' text) [
    | some rest ↦ some (no_fields, rest)
    | none ↦ elim (behind b',' text) [ none ↦ none | some bs ↦ read_field n bs ]
  ]

-- The value at the front of a text.
unfoldable pub read_json : Bytes → Option (Json × Bytes)
unfolding read_value
read_json text = read_value (length text) text
