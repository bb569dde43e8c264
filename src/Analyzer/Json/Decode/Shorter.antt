-- ===== src/Analyzer/Json/Decode/Shorter.antt =====
-- A value in a JSON text takes some of it: what is left is shorter.
use shinel.Base.{
  ℕ, suc, ◌≤◌, ◌≡◌, refl, ap, true, [], ◌∷◌, ◌++◌, Option, none, some, arith, length, length-append,
}
use shinel.Base.Bytes.{Bytes, codes}
use shinel.Analyzer.Json.{Json, Items, Fields}
use shinel.Analyzer.Json.Encode.{
  is_number, StringText, JsonText, null_text, true_text, false_text, number_text, string_text,
  array_text, object_text, ItemsText, no_item_text, first_item, MoreItems, last_item, next_item,
  FieldsText, no_field_text, first_field, MoreFields, last_field, next_field,
}
use shinel.Proxy.Escape.Reader.{Mode, Step, ending, bad, go, plain, prepend, step_of, read_string}

-- What is left is shorter.
prepend-shorter :
    (out bs : Bytes) (found : Option (Bytes × Bytes)) {s r : Bytes}
    → ((s' r' : Bytes) → found ≡ some (s', r') → suc (length r') ≤ length bs)
    → prepend out found ≡ some (s, r)
    → suc (length r) ≤ suc (length bs)
prepend-shorter out bs none h e = absurd (cc)
prepend-shorter out bs (some (s', r')) h e = let j = h s' r' refl in ground (arith, j, e)

abbrev after_step : Bytes → Step → Option (Bytes × Bytes)
after_step bs x = elim x [
  | ending ↦ some ([], bs)
  | bad ↦ none
  | go mode out ↦ prepend out (read_string mode bs)
]

step-shorter :
    (x : Step) (bs : Bytes) {s r : Bytes}
    → ((mode : Mode) (s' r' : Bytes)
        → read_string mode bs ≡ some (s', r')
        → suc (length r') ≤ length bs)
    → after_step bs x ≡ some (s, r)
    → suc (length r) ≤ suc (length bs)
step-shorter ending bs h e = ground (arith, e)
step-shorter bad bs h e = absurd (cc)
step-shorter (go mode out) bs h e = prepend-shorter out bs (read_string mode bs) (h mode) e

read_string-shorter :
    (mode : Mode) (t : Bytes) {s r : Bytes}
    → read_string mode t ≡ some (s, r)
    → suc (length r) ≤ length t
unfolding read_string
read_string-shorter mode [] e = absurd (cc)
read_string-shorter mode (b ∷ bs) e =
    step-shorter (step_of mode b) bs (λ mode' s' r' i. read_string-shorter mode' bs i) e

number-shorter :
    (n rest : Bytes) {text : Bytes}
    → is_number n ≡ true
    → text ≡ n ++ rest
    → suc (length rest) ≤ length text
unfolding is_number
number-shorter [] rest h e = absurd (cc)
number-shorter (b ∷ n) rest h e = rw (e, length-append n rest) (omega arith)

word-shorter :
    (c : ℕ) (w rest : Bytes) {text : Bytes} → text ≡ c ∷ w ++ rest → suc (length rest) ≤ length text
word-shorter c w rest e = rw (e, length-append w rest) (omega arith)

pub string-shorter :
    {s text rest : Bytes} → StringText s text rest → suc (length rest) ≤ length text
string-shorter (t, e, r) = let h = read_string-shorter plain t r in rw e (omega (arith, h))

mutual
  pub JsonText-shorter :
      {v : Json} {text rest : Bytes} → JsonText v text rest → suc (length rest) ≤ length text
  JsonText-shorter (null_text e) = word-shorter b'n' (codes "ull") _ e
  JsonText-shorter (true_text e) = word-shorter b't' (codes "rue") _ e
  JsonText-shorter (false_text e) = word-shorter b'f' (codes "alse") _ e
  JsonText-shorter (number_text {n} h s e) = number-shorter n _ h e
  JsonText-shorter (string_text s) = string-shorter s
  JsonText-shorter (array_text e s) = let h = ItemsText-shorter s in rw e (omega (arith, h))
  JsonText-shorter (object_text e s) = let h = FieldsText-shorter s in rw e (omega (arith, h))

  ItemsText-shorter :
      {is : Items} {text rest : Bytes} → ItemsText is text rest → suc (length rest) ≤ length text
  ItemsText-shorter (no_item_text e) = word-shorter b']' [] _ e
  ItemsText-shorter (first_item v s) =
      let h = JsonText-shorter v in let i = MoreItems-shorter s in omega (arith, h, i)

  pub MoreItems-shorter :
      {is : Items} {text rest : Bytes} → MoreItems is text rest → suc (length rest) ≤ length text
  MoreItems-shorter (last_item e) = word-shorter b']' [] _ e
  MoreItems-shorter (next_item e v s) =
      let h = JsonText-shorter v in let i = MoreItems-shorter s in rw e (omega (arith, h, i))

  FieldsText-shorter :
      {fs : Fields} {text rest : Bytes} → FieldsText fs text rest → suc (length rest) ≤ length text
  FieldsText-shorter (no_field_text e) = word-shorter b'}' [] _ e
  FieldsText-shorter (first_field q e v s) =
      let k = string-shorter q in
      let h = JsonText-shorter v in
      let i = MoreFields-shorter s in omega (arith, k, ap length e, h, i)

  pub MoreFields-shorter :
      {fs : Fields} {text rest : Bytes} → MoreFields fs text rest → suc (length rest) ≤ length text
  MoreFields-shorter (last_field e) = word-shorter b'}' [] _ e
  MoreFields-shorter (next_field e q f v s) =
      let k = string-shorter q in
      let h = JsonText-shorter v in
      let i = MoreFields-shorter s in rw e (omega (arith, k, ap length f, h, i))
