-- ===== src/Start.antt =====
-- cmd/shinel/main.go: how the program starts, and what it serves then. What the packages and the
-- system give is `Host`.
pub mod Guarded
pub mod Refuses
pub mod Masks
use shinel.Base.{
  ℕ, zero, suc, Bool, true, false, List, [], ◌∷◌, Option, none, some, if◌then◌else◌, is_empty,
}
use shinel.Base.Bytes.{Bytes, codes, bytes_eq}
use shinel.Base.Int.{ℤ, pos, negsuc}
use shinel.Base.Maps.{Map}
use shinel.Admin.Access.{Ensured, password, no_random, Random, ensure_token}
use shinel.Admin.Dashboard.{Handler}
use shinel.Admin.Logs.{LogSink, new_log_sink}
use shinel.Analyzer.Collect.{Detectors, AnalyzerEngine, new_engine}
use shinel.Analyzer.Guesses.{Entity}
use shinel.Analyzer.MlClient.{MlHttp, MlEngineClient, new_ml_engine_client, engine_of}
use shinel.Config.{VaultConfig, MlEngineConfig, Config, timeout, LoadError, ok, err, load}
use shinel.Proxy.Gateway.{NewError, origins, refused, new_origins}
use shinel.Proxy.Route.{Origin}
use shinel.Stats.{Store, new_store}

-- The arguments of `load`, then whether `redis.ParseURL` takes a URL, `url.Parse`, `IsLoopback` of
-- `net.ParseIP`, the random bytes in hex, whether `net.Listen` can listen, and the dashboard's page.
pub record Host : Type 0 where
  pub unmarshal : Bytes → Config → Option Config
  pub leftover : Bytes → Option Bytes
  pub env : Bytes → Bytes
  pub file : Option Bytes
  pub redis_takes : Bytes → Bool
  pub parse_url : Bytes → Option Origin
  pub parse_ip : Bytes → Option Bool
  pub random : Random
  pub listens : Bytes → ℤ → Bool
  pub pages : Option Bytes

pub data VaultKind : Type 0 where
  in_memory : VaultKind
  in_redis : Bytes → VaultKind

pub data NewVault : Type 0 where
  made : VaultKind → NewVault
  bad_redis_url unknown_type : NewVault

-- `vault.New`, with `NewRedisVault`.
unfoldable pub new_vault : (Bytes → Bool) → VaultConfig → NewVault
new_vault redis_takes cfg =
    if bytes_eq cfg.type (codes "memory")
    then made in_memory
    else if bytes_eq cfg.type (codes "redis")
    then (if redis_takes cfg.redis_url then made (in_redis cfg.redis_url) else bad_redis_url)
    else unknown_type

unfoldable pub new_ml : MlEngineConfig → Option MlEngineClient
new_ml cfg =
    if is_empty cfg.url then none else some (new_ml_engine_client cfg.url cfg.labels (timeout cfg))

unfoldable pub is_positive : ℤ → Bool
is_positive (pos zero) = false
is_positive (pos (suc n)) = true
is_positive (negsuc n) = false

-- The engine as `collectML` asks it.
unfoldable pub ml_entities : MlHttp → Option MlEngineClient → Option (Bytes → Option (List Entity))
ml_entities http none = none
ml_entities http (some c) = some (engine_of http c)

-- Why the program exits.
pub data Fatal : Type 0 where
  config_failed : LoadError → Fatal
  vault_failed : Fatal
  proxy_failed : NewError → Fatal
  token_failed : Bytes → Fatal

-- What runs: the proxy on a port, with its settings, its vault, the ML engine's client if there is
-- one, and its origins; and the dashboard, if it is served.
pub record Running : Type 0 where
  pub cfg : Config
  pub vault : VaultKind
  pub ml : Option MlEngineClient
  pub routes : Map Origin
  pub port : ℤ
  pub dashboard : Option Handler

-- `analyzer.New(cfg.CustomWords, ml)`.
unfoldable pub engine_with :
    Detectors → (List Bytes → Bytes → List ℕ) → MlHttp → Running → AnalyzerEngine
engine_with d new_matcher http r =
    new_engine d.lower new_matcher r.cfg.custom_words (ml_entities http r.ml)

pub data Started : Type 0 where
  exits : Fatal → Started
  running : Running → Started

module _ (host : Host) where
  unfoldable pub run_with : Config → VaultKind → Map Origin → Option Handler → Started
  run_with cfg vault routes dashboard = running (record {
    cfg = cfg;
    vault = vault;
    ml = new_ml cfg.ml_engine;
    routes = routes;
    port = cfg.server_port;
    dashboard = dashboard;
  })

  -- `serveAdmin`: no dashboard where its port cannot be listened on.
  unfoldable pub serve_admin : Config → Option Handler
  serve_admin cfg =
      if host.listens cfg.admin.bind cfg.admin.port
      then some (record {
        cfg = cfg;
        stats = new_store (pos 100);
        logs = new_log_sink (pos 500);
        pages = host.pages;
      })
      else none

  abbrev pub with_password : Config → Bytes → Config
  with_password cfg tok = record cfg { admin = record cfg.admin { token = tok } }

  -- Behind `EnsureToken`.
  unfoldable pub with_token : Config → VaultKind → Map Origin → Ensured → Started
  with_token cfg vault routes (no_random why) = exits (token_failed why)
  with_token cfg vault routes (password tok new) =
      run_with (with_password cfg tok) vault routes (serve_admin (with_password cfg tok))

  -- Behind `proxy.New`.
  unfoldable pub with_routes : Config → VaultKind → Map Origin → Started
  with_routes cfg vault routes =
      if is_positive cfg.admin.port
      then with_token cfg vault routes
          (ensure_token host.parse_ip host.random cfg.admin.bind cfg.admin.token)
      else run_with cfg vault routes none

  -- Behind `vault.New`.
  unfoldable pub with_vault : Config → NewVault → Started
  with_vault cfg bad_redis_url = exits vault_failed
  with_vault cfg unknown_type = exits vault_failed
  with_vault cfg (made vault) = elim (new_origins host.parse_url cfg) [
    | refused why ↦ exits (proxy_failed why)
    | origins routes ↦ with_routes cfg vault routes
  ]

  -- `main`.
  unfoldable pub start : Started
  start = elim (load host.unmarshal host.leftover host.env host.file) [
    | err why ↦ exits (config_failed why)
    | ok cfg ↦ with_vault cfg (new_vault host.redis_takes cfg.vault)
  ]
