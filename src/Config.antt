-- ===== src/Config.antt =====
-- internal/config/config.go: the settings. The file's YAML is read by a package, whose
-- `Unmarshal` is an argument: it puts the fields that the file has over those of a configuration.
pub mod Overlay
use shinel.Base.{
  ℕ, zero, suc, ◌*◌, ◌^◌, Bool, true, false, ◌||◌, List, [], ◌∷◌, ◌++◌, Option, none, some,
  if◌then◌else◌, is_empty, ◌-◌, ◌%◌, ltb,
}
use shinel.Base.Bytes.{Bytes, codes, bytes_eq}
use shinel.Base.Int.{ℤ, pos, negsuc}
use shinel.Base.Maps.{Map, insert}

pub record VaultConfig : Type 0 where
  pub type : Bytes
  pub redis_url : Bytes

pub record MlEngineConfig : Type 0 where
  pub url : Bytes
  pub labels : List Bytes
  pub model : Bytes
  pub timeout_ms : ℤ

pub record AdminConfig : Type 0 where
  pub port : ℤ
  pub bind : Bytes
  pub token : Bytes
  pub redact : Bool

-- A nil map of providers is empty.
pub record Config : Type 0 where
  pub server_port : ℤ
  pub providers : Map Bytes
  pub vault : VaultConfig
  pub custom_words : List Bytes
  pub ml_engine : MlEngineConfig
  pub admin : AdminConfig
  pub log_level : Bytes

unfoldable pub defaults : Config
defaults = record {
  server_port = pos 8080;
  providers =
      (codes "openai", codes "https://api.openai.com")
      ∷ (codes "anthropic", codes "https://api.anthropic.com")
      ∷ (codes "gemini", codes "https://generativelanguage.googleapis.com")
      ∷ [];
  vault = record { type = codes "memory"; redis_url = codes "redis://localhost:6379/0" };
  custom_words = [];
  ml_engine = record {
    url = [];
    labels =
        codes "PERSON" ∷ codes "ORG" ∷ codes "LOCATION" ∷ codes "PASSWORD" ∷ codes "SECRET" ∷ [];
    model = codes "urchade/gliner_multi-v2.1";
    timeout_ms = pos 2000;
  };
  admin = record { port = pos 8081; bind = codes "127.0.0.1"; token = []; redact = true };
  log_level = codes "info";
}

-- An integer of 64 bits with sign, by what it is modulo 2 ^ 64.
unfoldable pub signed : ℕ → ℤ
signed m = if ltb m (2 ^ 63) then pos m else negsuc (2 ^ 64 - 1 - m)

-- `Timeout`, in nanoseconds: a duration has 64 bits.
unfoldable pub timeout : MlEngineConfig → ℤ
timeout m = elim m.timeout_ms [
  | pos zero ↦ pos (2 * 10 ^ 9)
  | pos (suc n) ↦ signed (suc n * 10 ^ 6 % 2 ^ 64)
  | negsuc n ↦ pos (2 * 10 ^ 9)
]

pub data Level : Type 0 where
  debug info warn error : Level

-- `SlogLevel`; the first argument is `strings.ToLower` of `strings.TrimSpace`.
unfoldable pub slog_level : (Bytes → Bytes) → Config → Level
slog_level normalise c =
    let l = normalise c.log_level in
    if bytes_eq l (codes "debug")
    then debug
    else if bytes_eq l (codes "warn") || bytes_eq l (codes "warning")
    then warn
    else if bytes_eq l (codes "error")
    then error
    else info

-- Why a configuration is not loaded.
pub data LoadError : Type 0 where
  unreadable unparsable target_url_removed : LoadError

pub data Loaded : Type 0 where
  ok : Config → Loaded
  err : LoadError → Loaded

-- A variable of the environment that is set and not empty.
unfoldable pub if_set : Bytes → (Bytes → Config → Config) → Config → Config
if_set [] put cfg = cfg
if_set (b ∷ v) put cfg = put (b ∷ v) cfg

pub set_ml_url : Bytes → Config → Config
set_ml_url v cfg = record cfg { ml_engine = record cfg.ml_engine { url = v } }

pub set_redis_url : Bytes → Config → Config
set_redis_url v cfg = record cfg { vault = record cfg.vault { redis_url = v } }

pub set_target_url : Bytes → Config → Config
set_target_url v cfg = record cfg { providers = insert (codes "openai") v cfg.providers }

pub set_admin_bind : Bytes → Config → Config
set_admin_bind v cfg = record cfg { admin = record cfg.admin { bind = v } }

pub set_admin_token : Bytes → Config → Config
set_admin_token v cfg = record cfg { admin = record cfg.admin { token = v } }

-- The environment over a configuration, one variable after the other.
unfoldable pub overlay : (Bytes → Bytes) → Config → Config
unfolding set_ml_url set_redis_url set_target_url set_admin_bind set_admin_token
overlay env cfg = if_set (env (codes "SHINEL_ADMIN_TOKEN")) set_admin_token (
    if_set (env (codes "SHINEL_ADMIN_BIND")) set_admin_bind (
      if_set (env (codes "SHINEL_TARGET_URL")) set_target_url (
        if_set (env (codes "SHINEL_REDIS_URL")) set_redis_url
          (if_set (env (codes "SHINEL_ML_URL")) set_ml_url cfg))))

-- `Load`. The file's bytes are `none` where it cannot be read; `unmarshal` is yaml's over a
-- configuration and `leftover` its reading of the field `target_url`, `none` where they fail.
unfoldable pub load :
    (Bytes → Config → Option Config)
    → (Bytes → Option Bytes)
    → (Bytes → Bytes)
    → Option Bytes
    → Loaded
load unmarshal leftover env none = err unreadable
load unmarshal leftover env (some data_read) = elim (unmarshal data_read defaults) [
  | none ↦ err unparsable
  | some cfg ↦ elim (leftover data_read) [
    | none ↦ err unparsable
    | some url ↦ if is_empty url then ok (overlay env cfg) else err target_url_removed
  ]
]
