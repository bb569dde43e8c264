-- ===== src/Analyzer/Json.antt =====
-- internal/analyzer/json.go: the walk over a JSON tree. A Go map has no order; the walk and the
-- encoder take its keys in order, and here an object is its fields in that order. The masking of a
-- string is an argument, `anonymizeText`.
pub mod Masked
pub mod Walk
pub mod Encode
pub mod Decode
pub mod Lines
pub mod Parse
use shinel.Base.{
  ℕ, Bool, true, false, ◌||◌, ◌==◌, [], ◌∷◌, List, if◌then◌else◌, is_empty, Option, none, some,
}
use shinel.Base.Bytes.{Bytes, codes, bytes_eq}
use shinel.Base.Maps.{Map}
use shinel.Analyzer.Session.{Session, new_session, token_for}

mutual
  pub data Json : Type 0 where
    null : Json
    boolean : Bool → Json
    number : Bytes → Json
    string : Bytes → Json
    array : Items → Json
    object : Fields → Json

  pub data Items : Type 0 where
    no_items : Items
    item : Json → Items → Items

  pub data Fields : Type 0 where
    no_fields : Fields
    field : Bytes → Json → Fields → Fields

-- `strings.ReplaceAll(k, "-", "_")`.
unfoldable pub underscored : Bytes → Bytes
underscored [] = []
underscored (b ∷ bs) = (if b == b'-' then b'_' else b) ∷ underscored bs

-- `secretKey` of secrets.go; the argument is `strings.ToLower`.
unfoldable pub secret_key : (Bytes → Bytes) → Bytes → Bool
secret_key to_lower k =
    let l = to_lower (underscored k) in
    bytes_eq l (codes "password")
    || bytes_eq l (codes "passwd")
    || bytes_eq l (codes "pwd")
    || bytes_eq l (codes "passphrase")
    || bytes_eq l (codes "secret")
    || bytes_eq l (codes "api_key")
    || bytes_eq l (codes "apikey")
    || bytes_eq l (codes "token")

-- Whether the value under a key is taken as a whole: a string under a secret key that is not empty.
unfoldable pub taken_whole : (Bytes → Bytes) → Bytes → Json → Bool
taken_whole to_lower k (string s) = if is_empty s then false else secret_key to_lower k
taken_whole to_lower k v = false

-- The string that is taken.
unfoldable pub text_of : Json → Bytes
text_of (string s) = s
text_of v = []

unfoldable pub is_scalar : Json → Bool
is_scalar null = true
is_scalar (boolean b) = true
is_scalar (number n) = true
is_scalar (string s) = false
is_scalar (array is) = false
is_scalar (object fs) = false

-- Where the encoder fails the text is empty.
unfoldable pub encoded : Option Bytes → Bytes
encoded none = []
encoded (some text) = text

module _ (to_lower : Bytes → Bytes) (mask : Bytes → Session → Session × Bytes) where
  unfoldable mutual
    pub walk_json : Json → Session → Session × Json
    walk_json null sess = (sess, null)
    walk_json (boolean b) sess = (sess, boolean b)
    walk_json (number n) sess = (sess, number n)
    walk_json (string s) sess = let (sess', masked) = mask s sess in (sess', string masked)
    walk_json (array is) sess = let (sess', is') = walk_items is sess in (sess', array is')
    walk_json (object fs) sess = let (sess', fs') = walk_fields fs sess in (sess', object fs')

    pub walk_items : Items → Session → Session × Items
    walk_items no_items sess = (sess, no_items)
    walk_items (item v is) sess =
        let (sess', v') = walk_json v sess in
        let (sess'', is') = walk_items is sess' in (sess'', item v' is')

    -- The loop over the keys of an object.
    pub walk_fields : Fields → Session → Session × Fields
    walk_fields no_fields sess = (sess, no_fields)
    walk_fields (field k v fs) sess =
        let walked = walk_json v sess in
        let (taken, t) = token_for sess (codes "PASSWORD") (text_of v) in
        let (sess', v') = if taken_whole to_lower k v then (taken, string t) else walked in
        let (sess'', fs') = walk_fields fs sess' in (sess'', field k v' fs')

  -- Behind the test for a bare number, truth value or null, which is left as it is.
  unfoldable pub anonymize_tree : (Json → Option Bytes) → Session → Json → Bool → Map Bytes × Bytes
  anonymize_tree marshal sess v true = (sess.mapping, encoded (marshal v))
  anonymize_tree marshal sess v false =
      let (sess', v') = walk_json v sess in (sess'.mapping, encoded (marshal v'))

  -- `anonymizeJSON`; the argument is `marshalJSON`, `none` where that fails.
  unfoldable pub anonymize_json : (Json → Option Bytes) → Json → Map Bytes × Bytes
  anonymize_json marshal v = anonymize_tree marshal new_session v (is_scalar v)

  -- Behind `parseJSON`.
  unfoldable pub anonymize_parsed : (Json → Option Bytes) → Bytes → Option Json → Map Bytes × Bytes
  anonymize_parsed marshal text none =
      let (sess, masked) = mask text new_session in (sess.mapping, masked)
  anonymize_parsed marshal text (some v) = anonymize_json marshal v

  -- `Anonymize`; the arguments are `parseJSON` and `marshalJSON`.
  unfoldable pub anonymize :
      (Bytes → Option Json) → (Json → Option Bytes) → Bytes → Map Bytes × Bytes
  anonymize parse marshal text = anonymize_parsed marshal text (parse text)
