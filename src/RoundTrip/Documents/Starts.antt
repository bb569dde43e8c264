-- ===== src/RoundTrip/Documents/Starts.antt =====
-- How the values of a JSON text begin and what stands behind them, as far as the tokens of
-- internal/proxy are concerned.
use shinel.Base.{◌≡◌, refl, ap, ◌∙◌, Bool, true, false, [], ◌∷◌, ◌++◌, arith, append_assoc, ℕ}
use shinel.Base.Bytes.{Bytes, is_upper}
use shinel.Base.Maps.{Map}
use shinel.Analyzer.Json.{Json, string, Items, Fields}
use shinel.Analyzer.Json.Encode.{
  is_number_char, all_number_chars, is_number, stops, write, write_items, StringText, JsonText,
  MoreItems, last_item, next_item, MoreFields, last_field, next_field, AllTexts, null_texts,
  boolean_texts, number_texts, string_texts, array_texts, object_texts, AllItems, no_item_texts,
  item_texts,
}
use shinel.Analyzer.Sweep.Masks.{Masks, done, keep}
use shinel.Proxy.Escape.Plain.{write_string}
use shinel.Proxy.Stream.Positions.{NoBracket, end, on}
use shinel.Proxy.Stream.Spec.{NoTokenHere}
use shinel.Proxy.Token.{Letters}

abbrev starts_upper : Bytes → Bool
starts_upper [] = false
starts_upper (b ∷ bs) = is_upper b

Letters-starts : {k : Bytes} (rest : Bytes) → Letters k → starts_upper (k ++ rest) ≡ true
Letters-starts rest (Letters.last u) = u
Letters-starts rest (Letters.more u h) = u

-- A bracket in front of anything but a letter begins no token.
pub no_token_at_array : (text : Bytes) → starts_upper text ≡ false → NoTokenHere (b'[' ∷ text)
no_token_at_array text f t rest e short i =
    let tail : Bytes = b'_' ∷ (i.number ++ b']' ∷ []) in
    let e' : text ≡ (i.kind ++ tail) ++ rest = ground (arith, e, i.spelled) in
    let u = ap starts_upper (e' ∙ append_assoc i.kind tail rest) in
    absurd (cc (f, u, Letters-starts (tail ++ rest) i.kind_letters))

number-starts : (n rest : Bytes) → is_number n ≡ true → starts_upper (n ++ rest) ≡ false
unfolding is_number
number-starts [] rest h = absurd (cc)
number-starts (b ∷ n) rest h = ground (arith, h)

write-starts :
    {Q : Bytes → Type 0} {v : Json} (rest : Bytes)
    → AllTexts Q v
    → starts_upper (write v rest) ≡ false
unfolding write write_string
write-starts rest null_texts = refl
write-starts rest (boolean_texts true) = refl
write-starts rest (boolean_texts false) = refl
write-starts rest (number_texts {n} h) = number-starts n rest h
write-starts rest (string_texts h) = refl
write-starts rest (array_texts h) = refl
write-starts rest (object_texts h) = refl

pub write_items-starts :
    {Q : Bytes → Type 0} {is : Items} (rest : Bytes)
    → AllItems Q is
    → starts_upper (write_items is rest) ≡ false
unfolding write_items
write_items-starts rest no_item_texts = refl
write_items-starts rest (item_texts h hs) = write-starts _ h

number-NoBracket : (n : Bytes) → all_number_chars n ≡ true → NoBracket n
unfolding all_number_chars
number-NoBracket [] h = end
number-NoBracket (b ∷ n) h = on (λ e. ground (arith, h, e)) (number-NoBracket n (ground (arith, h)))

pub is_number-NoBracket : (n : Bytes) → is_number n ≡ true → NoBracket n
unfolding is_number
is_number-NoBracket [] h = end
is_number-NoBracket (b ∷ n) h =
    on (λ e. ground (arith, h, e)) (number-NoBracket n (ground (arith, h)))

-- A key is written as it is.
pub Masks-self : {m : Map Bytes} (k : Bytes) → Masks m k k k
Masks-self [] = done
Masks-self (b ∷ k) = keep (Masks-self k)

abbrev pub Stop : (Bytes → Type 0) → Type 0
Stop C = (o : Bytes) → C o → stops o ≡ true

-- What is left of a value, of the items of an array and of the fields of an object.
abbrev pub Value : Json → (Bytes → Type 0) → Bytes → Type 0
Value v C out = (o : Bytes) × C o × JsonText v out o

stops-at : {o : Bytes} (b : ℕ) (t : Bytes) → is_number_char b ≡ false → o ≡ b ∷ t → stops o ≡ true
unfolding stops
stops-at b t h e = ground (arith, e, h)

pub MoreItems-stops : {is : Items} {o r : Bytes} → MoreItems is o r → stops o ≡ true
MoreItems-stops (last_item {rest = r} e) = stops-at b']' r refl e
MoreItems-stops (next_item {front = t} e h hs) = stops-at b',' t refl e

pub MoreFields-stops : {fs : Fields} {o r : Bytes} → MoreFields fs o r → stops o ≡ true
MoreFields-stops (last_field {rest = r} e) = stops-at b'}' r refl e
MoreFields-stops (next_field {start = t} e s f h hs) = stops-at b',' t refl e

-- A key and a value, and what is behind them.
abbrev pub Entry : Bytes → Json → (Bytes → Type 0) → Bytes → Type 0
Entry k v C out =
    (o : Bytes) × C o
    × ((behind : Bytes) × (front : Bytes) × StringText k out behind
        × (behind ≡ b':' ∷ front)
        × JsonText v front o)

pub string_text-of : {Q : Bytes → Type 0} {s : Bytes} → AllTexts Q (string s) → Q s
string_text-of (string_texts h) = h
