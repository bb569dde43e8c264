-- ===== src/Analyzer/Json/Encode.antt =====
-- The encoder of encoding/json on the trees of internal/analyzer/json.go, with
-- `SetEscapeHTML(false)`, and what it means that a text is the JSON text of a tree, as RFC 8259 has
-- it for texts without spaces.
use shinel.Base.{ℕ, ◌≡◌, Bool, true, false, ◌&&◌, ◌||◌, not, [], ◌∷◌, ◌++◌, Option, some, ◌==◌}
use shinel.Base.Bytes.{Bytes, codes, is_digit}
use shinel.Analyzer.Json.{
  Json, null, boolean, number, string, array, object, Items, no_items, item, Fields, no_fields,
  field,
}
use shinel.Proxy.Escape.Plain.{write_string}
use shinel.Proxy.Escape.Reader.{plain, read_string}

abbrev pub is_number_char : ℕ → Bool
is_number_char b = is_digit b || b == b'-' || b == b'+' || b == b'.' || b == b'e' || b == b'E'

unfoldable pub all_number_chars : Bytes → Bool
all_number_chars [] = true
all_number_chars (b ∷ bs) = is_number_char b && all_number_chars bs

-- A literal of a number begins with a digit or a minus.
unfoldable pub is_number : Bytes → Bool
unfolding all_number_chars
is_number [] = false
is_number (b ∷ bs) = (is_digit b || b == b'-') && all_number_chars bs

-- Where a number ends.
unfoldable pub stops : Bytes → Bool
stops [] = true
stops (b ∷ bs) = not (is_number_char b)

-- A value in front of what is written next.
unfoldable mutual
  unfolding write_string

  pub write : Json → Bytes → Bytes
  write null rest = codes "null" ++ rest
  write (boolean true) rest = codes "true" ++ rest
  write (boolean false) rest = codes "false" ++ rest
  write (number n) rest = n ++ rest
  write (string s) rest = write_string s rest
  write (array is) rest = b'[' ∷ write_items is rest
  write (object fs) rest = b'{' ∷ write_fields fs rest

  pub write_items : Items → Bytes → Bytes
  write_items no_items rest = b']' ∷ rest
  write_items (item v is) rest = write v (write_more is rest)

  pub write_more : Items → Bytes → Bytes
  write_more no_items rest = b']' ∷ rest
  write_more (item v is) rest = b',' ∷ write v (write_more is rest)

  pub write_fields : Fields → Bytes → Bytes
  write_fields no_fields rest = b'}' ∷ rest
  write_fields (field k v fs) rest = write_string k (b':' ∷ write v (write_more_fields fs rest))

  pub write_more_fields : Fields → Bytes → Bytes
  write_more_fields no_fields rest = b'}' ∷ rest
  write_more_fields (field k v fs) rest =
      b',' ∷ write_string k (b':' ∷ write v (write_more_fields fs rest))

-- `Encoder.Encode`, which writes a line.
unfoldable pub encode : Json → Option Bytes
unfolding write
encode v = some (write v (b'\n' ∷ []))

-- A string in quotes, and what is behind it.
abbrev pub StringText : Bytes → Bytes → Bytes → Type 0
StringText s text rest = (t : Bytes) × (text ≡ b'"' ∷ t) × (read_string plain t ≡ some (s, rest))

-- A text begins with that of a value, and goes on with the rest.
mutual
  pub data JsonText : Json → Bytes → Bytes → Type 0 where
    null_text : {text rest : Bytes} → text ≡ codes "null" ++ rest → JsonText null text rest
    true_text :
        {text rest : Bytes} → text ≡ codes "true" ++ rest → JsonText (boolean true) text rest
    false_text :
        {text rest : Bytes} → text ≡ codes "false" ++ rest → JsonText (boolean false) text rest
    number_text :
        {n text rest : Bytes}
        → is_number n ≡ true
        → stops rest ≡ true
        → text ≡ n ++ rest
        → JsonText (number n) text rest
    string_text : {s text rest : Bytes} → StringText s text rest → JsonText (string s) text rest
    array_text :
        {is : Items} {text inner rest : Bytes}
        → text ≡ b'[' ∷ inner
        → ItemsText is inner rest
        → JsonText (array is) text rest
    object_text :
        {fs : Fields} {text inner rest : Bytes}
        → text ≡ b'{' ∷ inner
        → FieldsText fs inner rest
        → JsonText (object fs) text rest

  pub data ItemsText : Items → Bytes → Bytes → Type 0 where
    no_item_text : {text rest : Bytes} → text ≡ b']' ∷ rest → ItemsText no_items text rest
    first_item :
        {v : Json} {is : Items} {text more rest : Bytes}
        → JsonText v text more
        → MoreItems is more rest
        → ItemsText (item v is) text rest

  pub data MoreItems : Items → Bytes → Bytes → Type 0 where
    last_item : {text rest : Bytes} → text ≡ b']' ∷ rest → MoreItems no_items text rest
    next_item :
        {v : Json} {is : Items} {text front more rest : Bytes}
        → text ≡ b',' ∷ front
        → JsonText v front more
        → MoreItems is more rest
        → MoreItems (item v is) text rest

  pub data FieldsText : Fields → Bytes → Bytes → Type 0 where
    no_field_text : {text rest : Bytes} → text ≡ b'}' ∷ rest → FieldsText no_fields text rest
    first_field :
        {k text behind front more rest : Bytes} {v : Json} {fs : Fields}
        → StringText k text behind
        → behind ≡ b':' ∷ front
        → JsonText v front more
        → MoreFields fs more rest
        → FieldsText (field k v fs) text rest

  pub data MoreFields : Fields → Bytes → Bytes → Type 0 where
    last_field : {text rest : Bytes} → text ≡ b'}' ∷ rest → MoreFields no_fields text rest
    next_field :
        {k text start behind front more rest : Bytes} {v : Json} {fs : Fields}
        → text ≡ b',' ∷ start
        → StringText k start behind
        → behind ≡ b':' ∷ front
        → JsonText v front more
        → MoreFields fs more rest
        → MoreFields (field k v fs) text rest

-- The strings and keys of a tree have a property, and its numbers are literals of numbers.
mutual
  pub data AllTexts (P : Bytes → Type 0) : Json → Type 0 where
    null_texts : AllTexts P null
    boolean_texts : (b : Bool) → AllTexts P (boolean b)
    number_texts : {n : Bytes} → is_number n ≡ true → AllTexts P (number n)
    string_texts : {s : Bytes} → P s → AllTexts P (string s)
    array_texts : {is : Items} → AllItems P is → AllTexts P (array is)
    object_texts : {fs : Fields} → AllFields P fs → AllTexts P (object fs)

  pub data AllItems (P : Bytes → Type 0) : Items → Type 0 where
    no_item_texts : AllItems P no_items
    item_texts : {v : Json} {is : Items} → AllTexts P v → AllItems P is → AllItems P (item v is)

  pub data AllFields (P : Bytes → Type 0) : Fields → Type 0 where
    no_field_texts : AllFields P no_fields
    field_texts :
        {k : Bytes} {v : Json} {fs : Fields}
        → P k
        → AllTexts P v
        → AllFields P fs
        → AllFields P (field k v fs)
