-- ===== src/Analyzer/Json/Lines.antt =====
-- `marshalJSON` of internal/analyzer/json.go cuts off the line end that the encoder writes, and
-- nothing else.
use shinel.Base.{ℕ, zero, suc, ◌≤◌, ◌≡◌, refl, ap, ◌∙◌, true, false, [], ◌∷◌, ◌++◌, some, arith}
use shinel.Base.Bytes.{Bytes, codes}
use shinel.Base.Sort.{All}
use shinel.Analyzer.Json.{Json, Items, Fields}
use shinel.Analyzer.Json.Encode.{
  all_number_chars, is_number, write, write_items, write_more, write_fields, write_more_fields,
  encode, AllTexts, null_texts, boolean_texts, number_texts, string_texts, array_texts,
  object_texts, AllItems, no_item_texts, item_texts, AllFields, no_field_texts, field_texts,
}
use shinel.Analyzer.Json.Parse.{trim_newlines, marshal_json}
use shinel.Proxy.Escape.Plain.{plain_rune, plain_from, write_string}
use shinel.Proxy.Escape.Plain.Runes.{plain_rune-Written, plain_rune_printed, valid-zero}
use shinel.Proxy.Escape.Reader.Valid.{valid_from, IsUtf8}

trim-printed :
    (w rest : Bytes) → All (λ c. 32 ≤ c) w → trim_newlines (w ++ rest) ≡ w ++ trim_newlines rest
unfolding trim_newlines
trim-printed [] rest h = refl
trim-printed (b ∷ w) rest (hb, h) = ground (arith, hb, trim-printed w rest h)

trim-byte : (b : ℕ) (rest : Bytes) → 32 ≤ b → trim_newlines (b ∷ rest) ≡ b ∷ trim_newlines rest
trim-byte b rest h = trim-printed (b ∷ []) rest (h, tt)

trim-plain_from :
    (skip : ℕ) (s rest : Bytes)
    → valid_from skip s ≡ true
    → trim_newlines (plain_from skip s rest) ≡ plain_from skip s (trim_newlines rest)
unfolding plain_from
trim-plain_from skip [] rest h = refl
trim-plain_from zero (b ∷ s) rest h =
    let (front, back) = valid-zero b s h in
    trim-printed (plain_rune b s).0 _ (plain_rune_printed b s (plain_rune-Written b s front))
    ∙ ap (λ x. (plain_rune b s).0 ++ x) (trim-plain_from (plain_rune b s).1 s rest back)
trim-plain_from (suc skip) (b ∷ s) rest h = trim-plain_from skip s rest (unfold valid_from in h)

trim-write_string :
    (s rest : Bytes)
    → IsUtf8 s
    → trim_newlines (write_string s rest) ≡ write_string s (trim_newlines rest)
unfolding write_string
trim-write_string s rest h =
    trim-byte b'"' _ (omega arith)
    ∙ ap (◌∷◌ b'"') (
        trim-plain_from 0 s (b'"' ∷ rest) h
        ∙ ap (plain_from 0 s) (trim-byte b'"' rest (omega arith)))

all_number_chars-printed : (n : Bytes) → all_number_chars n ≡ true → All (λ c. 32 ≤ c) n
unfolding all_number_chars
all_number_chars-printed [] h = tt
all_number_chars-printed (b ∷ n) h =
    (ground (arith, h), all_number_chars-printed n (ground (arith, h)))

is_number-printed : (n : Bytes) → is_number n ≡ true → All (λ c. 32 ≤ c) n
unfolding is_number
is_number-printed [] h = tt
is_number-printed (b ∷ n) h = (ground (arith, h), all_number_chars-printed n (ground (arith, h)))

mutual
  unfolding write write_items write_more write_fields write_more_fields

  trim-write :
      {v : Json} (rest : Bytes)
      → AllTexts IsUtf8 v
      → trim_newlines (write v rest) ≡ write v (trim_newlines rest)
  trim-write rest null_texts = trim-printed (codes "null") rest (omega arith)
  trim-write rest (boolean_texts true) = trim-printed (codes "true") rest (omega arith)
  trim-write rest (boolean_texts false) = trim-printed (codes "false") rest (omega arith)
  trim-write rest (number_texts {n} h) = trim-printed n rest (is_number-printed n h)
  trim-write rest (string_texts {s} h) = trim-write_string s rest h
  trim-write rest (array_texts {is} h) =
      trim-byte b'[' _ (omega arith) ∙ ap (◌∷◌ b'[') (trim-write_items rest h)
  trim-write rest (object_texts {fs} h) =
      trim-byte b'{' _ (omega arith) ∙ ap (◌∷◌ b'{') (trim-write_fields rest h)

  trim-write_items :
      {is : Items} (rest : Bytes)
      → AllItems IsUtf8 is
      → trim_newlines (write_items is rest) ≡ write_items is (trim_newlines rest)
  trim-write_items rest no_item_texts = trim-byte b']' rest (omega arith)
  trim-write_items rest (item_texts {v} h hs) =
      trim-write _ h ∙ ap (write v) (trim-write_more rest hs)

  trim-write_more :
      {is : Items} (rest : Bytes)
      → AllItems IsUtf8 is
      → trim_newlines (write_more is rest) ≡ write_more is (trim_newlines rest)
  trim-write_more rest no_item_texts = trim-byte b']' rest (omega arith)
  trim-write_more rest (item_texts {v} h hs) =
      trim-byte b',' _ (omega arith)
      ∙ ap (◌∷◌ b',') (trim-write _ h ∙ ap (write v) (trim-write_more rest hs))

  trim-write_fields :
      {fs : Fields} (rest : Bytes)
      → AllFields IsUtf8 fs
      → trim_newlines (write_fields fs rest) ≡ write_fields fs (trim_newlines rest)
  trim-write_fields rest no_field_texts = trim-byte b'}' rest (omega arith)
  trim-write_fields rest (field_texts {k} {v} {fs} hk h hs) =
      trim-write_string k _ hk
      ∙ ap (write_string k) (
          trim-byte b':' _ (omega arith)
          ∙ ap (◌∷◌ b':') (trim-write _ h ∙ ap (write v) (trim-write_more_fields rest hs)))

  trim-write_more_fields :
      {fs : Fields} (rest : Bytes)
      → AllFields IsUtf8 fs
      → trim_newlines (write_more_fields fs rest) ≡ write_more_fields fs (trim_newlines rest)
  trim-write_more_fields rest no_field_texts = trim-byte b'}' rest (omega arith)
  trim-write_more_fields rest (field_texts {k} {v} {fs} hk h hs) =
      trim-byte b',' _ (omega arith)
      ∙ ap (◌∷◌ b',') (
          trim-write_string k _ hk
          ∙ ap (write_string k) (
              trim-byte b':' _ (omega arith)
              ∙ ap (◌∷◌ b':') (trim-write _ h ∙ ap (write v) (trim-write_more_fields rest hs))))

-- What `marshalJSON` makes of a tree.
pub marshal_json-encode : (v : Json) → AllTexts IsUtf8 v → marshal_json encode v ≡ some (write v [])
unfolding marshal_json encode trim_newlines
marshal_json-encode v h = ap some (trim-write (b'\n' ∷ []) h)
