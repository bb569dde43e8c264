-- ===== src/Admin/Access.antt =====
-- internal/admin/admin.go: who may see the dashboard. The hash is `hex.EncodeToString` of the
-- HMAC with SHA-256 of a key and a text.
pub mod Entry
use shinel.Base.{
  ℕ, Bool, true, false, ◌&&◌, [], ◌∷◌, ◌++◌, Option, none, some, if◌then◌else◌, is_empty,
}
use shinel.Base.Bytes.{Bytes, codes, bytes_eq}
use shinel.Base.Int.{ℤ, pos, negsuc}

abbrev pub session_cookie : Bytes
session_cookie = codes "shinel_admin"

-- The parts of a request that authorization reads: the session cookie's value, and the user and
-- the password of the basic authentication.
pub record Credentials : Type 0 where
  pub cookie : Option Bytes
  pub basic : Option (Bytes × Bytes)

-- The fields of `http.Cookie` that are set.
pub record Cookie : Type 0 where
  pub name : Bytes
  pub value : Bytes
  pub path : Bytes
  pub max_age : ℤ
  pub http_only : Bool
  pub lax : Bool

-- What a handler answers, with the cookie that it sets.
pub data Answer : Type 0 where
  status_ok : Option Cookie → Answer
  bad_request : Answer
  unauthorized : Answer

-- `BindIsLoopback`; the argument is `IsLoopback` of `net.ParseIP`, `none` where that is nil.
unfoldable pub bind_is_loopback : (Bytes → Option Bool) → Bytes → Bool
bind_is_loopback parse_ip bind =
    if bytes_eq bind (codes "127.0.0.1")
    then true
    else if bytes_eq bind (codes "::1")
    then true
    else if bytes_eq bind (codes "localhost")
    then true
    else elim (parse_ip bind) [ none ↦ false | some loopback ↦ loopback ]

-- `EnsureToken`: the password and whether it is a new one, or the error of `rand.Read`. The
-- argument `random` is what that gives, in hex.
pub data Ensured : Type 0 where
  password : Bytes → Bool → Ensured
  no_random : Bytes → Ensured

pub data Random : Type 0 where
  hex : Bytes → Random
  rand_error : Bytes → Random

pub generated : Random → Ensured
generated (hex t) = password t true
generated (rand_error why) = no_random why

unfoldable pub ensure_token : (Bytes → Option Bool) → Random → Bytes → Bytes → Ensured
unfolding generated
ensure_token parse_ip random bind [] =
    if bind_is_loopback parse_ip bind then password [] false else generated random
ensure_token parse_ip random bind (c ∷ cs) = password (c ∷ cs) false

module _ (hash : Bytes → Bytes → Bytes) where
  unfoldable pub cookie_value : Bytes → Bytes
  cookie_value token = hash token (codes "shinel-admin")

  unfoldable pub cookie_fits : Bytes → Option Bytes → Bool
  cookie_fits token none = false
  cookie_fits token (some value) = bytes_eq value (cookie_value token)

  unfoldable pub basic_fits : Bytes → Option (Bytes × Bytes) → Bool
  basic_fits token none = false
  basic_fits token (some (user, pass)) = bytes_eq user (codes "admin") && bytes_eq pass token

  unfoldable pub authorized : Credentials → Bytes → Bool
  authorized r token =
      if is_empty token
      then true
      else if cookie_fits token r.cookie
      then true
      else basic_fits token r.basic

  -- `h.auth(next)`.
  unfoldable pub auth : {A : Type 0} → Bytes → (Credentials → A) → A → Credentials → A
  auth token next refused r = if authorized r token then next r else refused

  unfoldable pub set_session : Bytes → Cookie
  set_session token = record {
    name = session_cookie;
    value = cookie_value token;
    path = codes "/";
    max_age = pos 0;
    http_only = true;
    lax = true;
  }

  -- `login`; the argument is the password in the body, `none` where it does not decode.
  unfoldable pub login : Bytes → Option Bytes → Answer
  login token sent = if is_empty token then status_ok none else elim sent [
    | none ↦ bad_request
    | some given ↦
        if bytes_eq given token then status_ok (some (set_session token)) else unauthorized
  ]

unfoldable pub clear_session : Cookie
clear_session = record {
  name = session_cookie;
  value = [];
  path = codes "/";
  max_age = negsuc 0;
  http_only = true;
  lax = true;
}

unfoldable pub logout : Answer
logout = status_ok (some clear_session)
