-- ===== src/Admin/View.antt =====
-- internal/admin/admin.go: the configuration as the dashboard shows it. What net/url reads and
-- writes is given by `Urls`.
pub mod Hidden
use shinel.Base.{ℕ, Bool, true, false, ◌||◌, List, [], ◌∷◌, Option, none, some, if◌then◌else◌}
use shinel.Base.Bytes.{Bytes, codes, bytes_eq}
use shinel.Base.Int.{ℤ}
use shinel.Base.Maps.{Map}
use shinel.Config.{VaultConfig, MlEngineConfig, AdminConfig, Config}

-- A user of a URL, with a password if one is set.
pub record UserInfo : Type 0 where
  pub username : Bytes
  pub password : Option Bytes

-- A parsed URL; the fields that are left alone are one value.
pub record Url : Type 0 where
  pub user : Option UserInfo
  pub raw_query : Bytes
  pub others : Bytes

-- `url.Parse`, `Values` of a raw query, their `Encode`, `String`, and `strings.ToLower`.
pub record Urls : Type 0 where
  pub parse : Bytes → Option Url
  pub query : Bytes → Map (List Bytes)
  pub encode : Map (List Bytes) → Bytes
  pub to_string : Url → Bytes
  pub to_lower : Bytes → Bytes

abbrev pub stars : Bytes
stars = codes "****"

unfoldable pub secret_query_key : (Bytes → Bytes) → Bytes → Bool
secret_query_key to_lower k =
    let l = to_lower k in
    bytes_eq l (codes "password")
    || bytes_eq l (codes "pass")
    || bytes_eq l (codes "pwd")
    || bytes_eq l (codes "token")
    || bytes_eq l (codes "api_key")
    || bytes_eq l (codes "apikey")
    || bytes_eq l (codes "access_token")
    || bytes_eq l (codes "secret")

unfoldable pub redact_user : Option UserInfo → Option UserInfo
redact_user none = none
redact_user (some u) = elim u.password [
  | some _ ↦ some (record { username = u.username; password = some stars })
  | none ↦ some (record { username = stars; password = none })
]

-- The loop over the query: its values, and whether one was changed.
unfoldable pub redact_values : (Bytes → Bytes) → Map (List Bytes) → Map (List Bytes) × Bool
redact_values to_lower [] = ([], false)
redact_values to_lower ((k, vs) ∷ q) =
    let (rest, changed) = redact_values to_lower q in
    if secret_query_key to_lower k
    then ((k, stars ∷ []) ∷ rest, true)
    else ((k, vs) ∷ rest, changed)

module _ (urls : Urls) where
  open urls use {parse, query, encode, to_string, to_lower}

  unfoldable pub redact_query : Bytes → Bytes
  redact_query raw =
      let (q, changed) = redact_values to_lower (query raw) in if changed then encode q else raw

  unfoldable pub redact_url : Bytes → Bytes
  redact_url raw = elim (parse raw) [
    | none ↦ raw
    | some u ↦
        to_string (record u { user = redact_user u.user; raw_query = redact_query u.raw_query })
  ]

  unfoldable pub display_url : Bool → Bytes → Bytes
  display_url redact raw = if redact then redact_url raw else raw

  unfoldable pub display_urls : Bool → Map Bytes → Map Bytes
  display_urls redact [] = []
  display_urls redact ((name, raw) ∷ m) = (name, display_url redact raw) ∷ display_urls redact m

pub record ShownEngine : Type 0 where
  pub url : Bytes
  pub model : Bytes
  pub labels : List Bytes
  pub timeout_ms : ℤ

pub record View : Type 0 where
  pub log_level : Bytes
  pub server_port : ℤ
  pub providers : Map Bytes
  pub custom_words : List Bytes
  pub vault : VaultConfig
  pub ml_engine : ShownEngine
  pub admin_port : ℤ
  pub admin_bind : Bytes
  pub admin_redact : Bool

-- `publicConfig`.
unfoldable pub public_config : Urls → Config → View
public_config urls cfg = record {
  log_level = cfg.log_level;
  server_port = cfg.server_port;
  providers = display_urls urls cfg.admin.redact cfg.providers;
  custom_words = cfg.custom_words;
  vault = record {
    type = cfg.vault.type;
    redis_url = display_url urls cfg.admin.redact cfg.vault.redis_url;
  };
  ml_engine = record {
    url = display_url urls cfg.admin.redact cfg.ml_engine.url;
    model = cfg.ml_engine.model;
    labels = cfg.ml_engine.labels;
    timeout_ms = cfg.ml_engine.timeout_ms;
  };
  admin_port = cfg.admin.port;
  admin_bind = cfg.admin.bind;
  admin_redact = cfg.admin.redact;
}
