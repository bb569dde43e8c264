-- ===== src/Analyzer/Json/Masked.antt =====
-- Which trees the walk of internal/analyzer/json.go may leave of a tree.
use shinel.Base.{
  ◌≡◌, refl, ap, Bool, true, false, ◌||◌, ◌==◌, List, [], ◌∷◌, if◌then◌else◌, some, arith,
}
use shinel.Base.Bytes.{Bytes, codes, bytes_eq}
use shinel.Base.Maps.{Map, lookup}
use shinel.Base.Sort.{any}
use shinel.Analyzer.Json.{
  Json, null, boolean, number, string, array, object, Items, no_items, item, Fields, no_fields,
  field, underscored, secret_key, taken_whole, text_of,
}
use shinel.Analyzer.Span.{Span}
use shinel.Analyzer.Sweep.Hides.{Hidden}
use shinel.Analyzer.Sweep.Masks.{Masks}
use shinel.Proxy.Token.{IsToken}

-- The keys under which a string is a secret, in lower case and with underscores.
abbrev secret_keys : List Bytes
secret_keys =
    codes "password"
    ∷ codes "passwd"
    ∷ codes "pwd"
    ∷ codes "passphrase"
    ∷ codes "secret"
    ∷ codes "api_key"
    ∷ codes "apikey"
    ∷ codes "token"
    ∷ []

-- A key with underscores in the place of its dashes.
abbrev pub dashless : Bytes → Bytes
dashless [] = []
dashless (b ∷ bs) = (if b == b'-' then b'_' else b) ∷ dashless bs

-- Whether a value is to be taken as a whole: it is a string with something in it, and its key is one
-- of the secret ones.
abbrev pub takes : (Bytes → Bytes) → Bytes → Json → Bool
takes to_lower k (string (b ∷ bs)) = any (bytes_eq (to_lower (dashless k))) secret_keys
takes to_lower k v = false

-- The second tree is the first one, with a string under a secret key replaced by a token as a
-- whole, and each other string with the spans that are found in it hidden; keys, numbers, truth
-- values and the shape are the same.
mutual
  pub data MaskedJson (to_lower : Bytes → Bytes) (found : Bytes → List Span) (m : Map Bytes)
      : Json → Json → Type 0 where
    same_null : MaskedJson to_lower found m null null
    same_boolean : (b : Bool) → MaskedJson to_lower found m (boolean b) (boolean b)
    same_number : (n : Bytes) → MaskedJson to_lower found m (number n) (number n)
    masked_string :
        {s s' shown : Bytes}
        → Masks m s s' shown
        → Hidden m (found s) s s'
        → MaskedJson to_lower found m (string s) (string s')
    masked_array :
        {is is' : Items}
        → MaskedItems to_lower found m is is'
        → MaskedJson to_lower found m (array is) (array is')
    masked_object :
        {fs fs' : Fields}
        → MaskedFields to_lower found m fs fs'
        → MaskedJson to_lower found m (object fs) (object fs')

  pub data MaskedItems (to_lower : Bytes → Bytes) (found : Bytes → List Span) (m : Map Bytes)
      : Items → Items → Type 0 where
    same_items : MaskedItems to_lower found m no_items no_items
    masked_item :
        {v v' : Json} {is is' : Items}
        → MaskedJson to_lower found m v v'
        → MaskedItems to_lower found m is is'
        → MaskedItems to_lower found m (item v is) (item v' is')

  pub data MaskedFields (to_lower : Bytes → Bytes) (found : Bytes → List Span) (m : Map Bytes)
      : Fields → Fields → Type 0 where
    same_fields : MaskedFields to_lower found m no_fields no_fields
    masked_field :
        {v v' : Json} {fs fs' : Fields} (k : Bytes)
        → takes to_lower k v ≡ false
        → MaskedJson to_lower found m v v'
        → MaskedFields to_lower found m fs fs'
        → MaskedFields to_lower found m (field k v fs) (field k v' fs')
    taken_field :
        {s t : Bytes} {v : Json} {fs fs' : Fields} (k : Bytes)
        → takes to_lower k v ≡ true
        → v ≡ string s
        → lookup t m ≡ some s
        → IsToken t
        → MaskedFields to_lower found m fs fs'
        → MaskedFields to_lower found m (field k v fs) (field k (string t) fs')

underscored-dashless : (k : Bytes) → underscored k ≡ dashless k
unfolding underscored
underscored-dashless [] = refl
underscored-dashless (b ∷ bs) =
    ap (λ r. (if b == b'-' then b'_' else b) ∷ r) (underscored-dashless bs)

or_chain :
    (a b c d e f g h : Bool)
    → (a || b || c || d || e || f || g || h)
      ≡ (a || (b || (c || (d || (e || (f || (g || (h || false))))))))
or_chain true b c d e f g h = refl
or_chain false true c d e f g h = refl
or_chain false false true d e f g h = refl
or_chain false false false true e f g h = refl
or_chain false false false false true f g h = refl
or_chain false false false false false true g h = refl
or_chain false false false false false false true h = refl
or_chain false false false false false false false true = refl
or_chain false false false false false false false false = refl

pub taken_whole-takes :
    (to_lower : Bytes → Bytes) (k : Bytes) (v : Json)
    → taken_whole to_lower k v ≡ takes to_lower k v
unfolding taken_whole secret_key any
taken_whole-takes to_lower k null = refl
taken_whole-takes to_lower k (boolean b) = refl
taken_whole-takes to_lower k (number n) = refl
taken_whole-takes to_lower k (string []) = refl
taken_whole-takes to_lower k (string (b ∷ bs)) =
    let is = bytes_eq (to_lower (dashless k)) in
    rw (underscored-dashless k) (
      or_chain (is (codes "password")) (is (codes "passwd")) (is (codes "pwd"))
        (is (codes "passphrase")) (is (codes "secret")) (is (codes "api_key")) (is (codes "apikey"))
        (is (codes "token")))
taken_whole-takes to_lower k (array is) = refl
taken_whole-takes to_lower k (object fs) = refl

pub taken_whole-string :
    (to_lower : Bytes → Bytes) (k : Bytes) (v : Json)
    → taken_whole to_lower k v ≡ true
    → v ≡ string (text_of v)
unfolding taken_whole text_of
taken_whole-string to_lower k null h = absurd (ground (arith, h))
taken_whole-string to_lower k (boolean b) h = absurd (ground (arith, h))
taken_whole-string to_lower k (number n) h = absurd (ground (arith, h))
taken_whole-string to_lower k (string s) h = refl
taken_whole-string to_lower k (array is) h = absurd (ground (arith, h))
taken_whole-string to_lower k (object fs) h = absurd (ground (arith, h))
