-- ===== src/Analyzer/Json/Decode/Reads.antt =====
-- The reader of JSON text reads every text that is the JSON text of a value, as that value.
use shinel.Base.{
  ℕ, zero, suc, ◌+◌, ◌≤◌, ◌≡◌, refl, ap, true, false, ◌||◌, [], ◌∷◌, ◌++◌, none, some, ◌==◌, arith,
  length,
}
use shinel.Base.Bytes.{Bytes, codes, is_digit}
use shinel.Analyzer.Json.{Json, null, boolean, Items, Fields, field}
use shinel.Analyzer.Json.Encode.{
  all_number_chars, is_number, stops, StringText, JsonText, null_text, true_text, false_text,
  number_text, string_text, array_text, object_text, no_item_text, first_item, MoreItems, last_item,
  next_item, no_field_text, first_field, MoreFields, last_field, next_field,
}
use shinel.Analyzer.Json.Decode.{
  numeral, start_of, read_word, number_of, behind, read_value, read_more, read_field,
  read_more_fields, read_json, read_key,
}
use shinel.Analyzer.Json.Decode.Shorter.{
  JsonText-shorter, MoreItems-shorter, MoreFields-shorter, string-shorter,
}

read_word-append :
    (w : Bytes) (v : Json) (rest : Bytes) → read_word w v (w ++ rest) ≡ some (v, rest)
unfolding read_word
read_word-append [] v rest = refl
read_word-append (c ∷ w) v rest = ground (arith, read_word-append w v rest)

number_of-stops :
    (n rest : Bytes)
    → all_number_chars n ≡ true
    → stops rest ≡ true
    → number_of (n ++ rest) ≡ (n, rest)
unfolding number_of all_number_chars stops
number_of-stops [] [] h s = refl
number_of-stops [] (b ∷ rest) h s = ground (arith, s)
number_of-stops (b ∷ n) rest h s =
    let i = number_of-stops n rest (ground (arith, h)) s in
    rw (ap (λ x. x.0) i, ap (λ x. x.1) i) (ground (arith, h))

read_key-text :
    {k text behind front : Bytes}
    → StringText k text behind
    → behind ≡ b':' ∷ front
    → read_key text ≡ some (k, front)
unfolding behind read_key
read_key-text (t, e, r) f = rw (e, r, f) refl

start_of-number : (b : ℕ) → (is_digit b || b == b'-') ≡ true → start_of b ≡ numeral
unfolding start_of
start_of-number b h = ground (arith, h)

-- What begins a value closes nothing.
opens : {v : Json} {text rest : Bytes} → JsonText v text rest → behind b']' text ≡ none
unfolding behind is_number
opens (null_text e) = rw e refl
opens (true_text e) = rw e refl
opens (false_text e) = rw e refl
opens (number_text {n = []} h s e) = absurd (cc)
opens (number_text {n = b ∷ n} h s e) = rw e (ground (arith, h))
opens (string_text (t, e, r)) = rw e refl
opens (array_text e s) = rw e refl
opens (object_text e s) = rw e refl

no_brace : {k text rest : Bytes} → StringText k text rest → behind b'}' text ≡ none
unfolding behind
no_brace (t, e, r) = rw e refl

mutual
  unfolding read_value read_more read_field read_more_fields start_of behind is_number
      all_number_chars

  read-Value :
      (n : ℕ) {v : Json} {text rest : Bytes}
      → JsonText v text rest
      → length text ≤ n + length rest
      → read_value n text ≡ some (v, rest)
  read-Value zero j h = absurd (omega (arith, h, JsonText-shorter j))
  read-Value (suc n) (null_text e) h = rw e (read_word-append (codes "ull") null _)
  read-Value (suc n) (true_text e) h = rw e (read_word-append (codes "rue") (boolean true) _)
  read-Value (suc n) (false_text e) h = rw e (read_word-append (codes "alse") (boolean false) _)
  read-Value (suc n) (number_text {n = []} d s e) h = absurd (cc)
  read-Value (suc n) (number_text {n = b ∷ m} d s e) h =
      rw (e, start_of-number b (ground (arith, d)), number_of-stops (b ∷ m) _ (ground (arith, d)) s)
        refl
  read-Value (suc n) (string_text (t, e, r)) h = rw (e, r) refl
  read-Value (suc n) (array_text e (no_item_text f)) h = rw (e, f) refl
  read-Value (suc n) (array_text e (first_item v s)) h =
      let l = JsonText-shorter v in
      let k = MoreItems-shorter s in
      let a = read-Value n v (omega (arith, h, ap length e, k)) in
      let b = read-More n s (omega (arith, h, ap length e, l)) in rw (e, opens v, a, b) refl
  read-Value (suc n) (object_text e (no_field_text f)) h = rw (e, f) refl
  read-Value (suc n) (object_text e (first_field q f v s)) h =
      rw (e, no_brace q, read-Field n q f v s (omega (arith, h, ap length e))) refl

  read-More :
      (n : ℕ) {is : Items} {text rest : Bytes}
      → MoreItems is text rest
      → length text ≤ n + length rest
      → read_more n text ≡ some (is, rest)
  read-More zero j h = absurd (omega (arith, h, MoreItems-shorter j))
  read-More (suc n) (last_item e) h = rw e refl
  read-More (suc n) (next_item e v s) h =
      let l = JsonText-shorter v in
      let k = MoreItems-shorter s in
      let a = read-Value n v (omega (arith, h, ap length e, k)) in
      let b = read-More n s (omega (arith, h, ap length e, l)) in rw (e, a, b) refl

  read-Field :
      (n : ℕ) {k text behind front more rest : Bytes} {v : Json} {fs : Fields}
      → StringText k text behind
      → behind ≡ b':' ∷ front
      → JsonText v front more
      → MoreFields fs more rest
      → length text ≤ n + length rest
      → read_field n text ≡ some (field k v fs, rest)
  read-Field zero q e v s h =
      let k = string-shorter q in
      let l = JsonText-shorter v in
      let m = MoreFields-shorter s in absurd (omega (arith, h, ap length e, k, l, m))
  read-Field (suc n) q e v s h =
      let k = string-shorter q in
      let l = JsonText-shorter v in
      let m = MoreFields-shorter s in
      let a = read-Value n v (omega (arith, h, ap length e, k, m)) in
      let b = read-MoreFields n s (omega (arith, h, ap length e, k, l)) in
      rw (read_field, read_key-text q e, a, b) refl

  read-MoreFields :
      (n : ℕ) {fs : Fields} {text rest : Bytes}
      → MoreFields fs text rest
      → length text ≤ n + length rest
      → read_more_fields n text ≡ some (fs, rest)
  read-MoreFields zero j h = absurd (omega (arith, h, MoreFields-shorter j))
  read-MoreFields (suc n) (last_field e) h = rw e refl
  read-MoreFields (suc n) (next_field e q f v s) h =
      rw (e, read-Field n q f v s (omega (arith, h, ap length e))) refl

-- The JSON text of a value is read as that value.
pub read_json-JsonText :
    {v : Json} {text : Bytes} → JsonText v text [] → read_json text ≡ some (v, [])
unfolding read_json
read_json-JsonText {v} {text} j = read-Value (length text) j (omega arith)
