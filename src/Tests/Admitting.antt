-- ===== src/Tests/Admitting.antt =====
-- internal/admin/admin.go on concrete requests and configurations.
use shinel.Base.{◌≡◌, ◌↔◌, ◌++◌, List, refl, true, [], ◌∷◌, none, some}
use shinel.Base.Bytes.{Bytes, codes, bytes_eq}
use shinel.Base.Maps.{Map}
use shinel.Admin.Access.{
  Credentials, status_ok, bind_is_loopback, password, hex, ensure_token, authorized, set_session,
  login,
}
use shinel.Admin.Access.Entry.{Shows, authorized-Shows, login-authorized}
use shinel.Admin.View.{Urls}
use shinel.Config.{Config, defaults}

abbrev pub hash : Bytes → Bytes → Bytes
hash k t = k ++ t

abbrev with_password : Credentials
with_password = record { cookie = none; basic = some (codes "admin", codes "pw") }

authorized-Shows_example :
    authorized hash with_password (codes "pw") ≡ true ↔ Shows hash (codes "pw") with_password
authorized-Shows_example = authorized-Shows hash with_password (codes "pw") (cc)

logged_in :
    login hash (codes "pw") (some (codes "pw")) ≡ status_ok (some (set_session hash (codes "pw")))
unfolding login bytes_eq
logged_in = refl

login-authorized_example :
    (some (codes "pw") ≡ some (codes "pw"))
    × (authorized hash
          (record { cookie = some (set_session hash (codes "pw")).value; basic = none })
          (codes "pw")
        ≡ true)
login-authorized_example =
    login-authorized hash (codes "pw") (some (codes "pw")) (set_session hash (codes "pw")) none
      logged_in

ensured :
    ensure_token (λ ip. none) (hex (codes "0a")) (codes "0.0.0.0") [] ≡ password (codes "0a") true
unfolding ensure_token bind_is_loopback bytes_eq
ensured = refl

abbrev first_value : Map (List Bytes) → Bytes
first_value [] = []
first_value ((k, []) ∷ q) = k ++ codes "="
first_value ((k, v ∷ vs) ∷ q) = k ++ (codes "=" ++ v)

-- URLs whose text is their password and the value of their one query key.
abbrev pub urls : Urls
urls = record {
  parse = λ raw. some (record {
    user = some (record { username = codes "u"; password = some raw });
    raw_query = raw;
    others = codes "https://h/";
  });
  query = λ q. (codes "token", q ∷ []) ∷ [];
  encode = first_value;
  to_string = λ u. u.others ++ u.raw_query;
  to_lower = λ k. k;
}

abbrev shown_once : Config
shown_once = record defaults { providers = (codes "openai", codes "a") ∷ [] }
