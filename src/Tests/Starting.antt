-- ===== src/Tests/Starting.antt =====
-- cmd/shinel/main.go with a dashboard that is open to other hosts, and requests to it.
use shinel.Base.{List, ℕ, ◌≡◌, ◌≢◌, refl, true, false, inl, inr, [], ◌∷◌, none, some, arith}
use shinel.Base.Bytes.{Bytes, codes, bytes_eq}
use shinel.Base.Int.{pos}
use shinel.Admin.Access.{hex, bind_is_loopback, ensure_token}
use shinel.Admin.Access.Entry.{Shows}
use shinel.Admin.Dashboard.{
  AdminRequest, Handler, unauthorized, is_get, if_method, mux, config_page, serve_http,
}
use shinel.Admin.Dashboard.Guard.{Alike, serve_http-Alike}
use shinel.Admin.Logs.{new_log_sink}
use shinel.Config.{Config, defaults, if_set, overlay, load}
use shinel.Proxy.Gateway.{new_origins}
use shinel.Proxy.Route.{Origin, parse_origin, parse_providers}
use shinel.Start.{
  Host, in_memory, new_vault, new_ml, is_positive, Running, running, run_with, serve_admin,
  with_token, with_routes, with_vault, start,
}
use shinel.Start.Guarded.{IsReady, start-IsReady}
use shinel.Start.Refuses.{start-unauthorized}
use shinel.Stats.{new_store}
use shinel.Tests.Admitting.{hash, urls}
use shinel.Analyzer.Collect.Fit.{detect-Fits}
use shinel.Analyzer.Session.{Session}
use shinel.Analyzer.Span.{Span}
use shinel.Analyzer.Sweep.{anonymize_spans}
use shinel.Proxy.Gateway.{Recorder}
use shinel.Start.{ml_entities}
use shinel.Tests.Collecting.{detectors, first_word, first_word-HitsInside}
use shinel.Tests.Walking.{http}

abbrev open_cfg : Config
open_cfg = record defaults { admin = record defaults.admin { bind = codes "0.0.0.0" } }

abbrev host : Host
host = record {
  unmarshal = λ t cfg. some open_cfg;
  leftover = λ t. some [];
  env = λ name. [];
  file = some [];
  redis_takes = λ url. true;
  parse_url = λ raw. some (record { scheme = codes "https"; host = codes "h" });
  parse_ip = λ ip. none;
  random = hex (codes "0a");
  listens = λ bind port. true;
  pages = none;
}

abbrev guarded_cfg : Config
guarded_cfg = record open_cfg { admin = record open_cfg.admin { token = codes "0a" } }

abbrev dash : Handler
dash = record {
  cfg = guarded_cfg;
  stats = new_store (pos 100);
  logs = new_log_sink (pos 500);
  pages = none;
}

abbrev origin : Origin
origin = record { scheme = codes "https"; host = codes "h" }

abbrev runs : Running
runs = record {
  cfg = guarded_cfg;
  vault = in_memory;
  ml = none;
  routes = (codes "openai", origin) ∷ (codes "anthropic", origin) ∷ (codes "gemini", origin) ∷ [];
  port = pos 8080;
  dashboard = some dash;
}

started : start host ≡ running runs
unfolding start load overlay if_set with_vault new_vault new_origins parse_providers parse_origin
    with_routes is_positive with_token ensure_token bind_is_loopback serve_admin run_with new_ml
    defaults bytes_eq
started = refl

some_random : (b : Bytes) → host.random ≡ hex b → b ≢ []
some_random b e n = ground (arith, e, n)

start-IsReady_example : IsReady host runs
start-IsReady_example = start-IsReady host some_random runs started

-- A request that shows nothing.
abbrev stranger : AdminRequest
stranger = record {
  method = codes "GET";
  path = codes "/api/config";
  credentials = record { cookie = none; basic = none };
  sent = none;
}

private : mux stranger.method stranger.path ≡ config_page
unfolding mux is_get if_method bytes_eq
private = refl

hidden : (t : Bytes) → ¬ (Shows hash t stranger.credentials)
hidden t (inl e) = absurd (ground (arith, e))
hidden t (inr e) = absurd (ground (arith, e))

open_bind : bind_is_loopback host.parse_ip dash.cfg.admin.bind ≡ false
unfolding bind_is_loopback bytes_eq defaults
open_bind = refl

start-unauthorized_example :
    serve_http hash urls true (λ logs. logs) dash stranger ≡ (dash.logs, unauthorized)
start-unauthorized_example =
    start-unauthorized hash urls true (λ logs. logs) host runs dash stranger some_random started
      refl open_bind (inl private) (hidden dash.cfg.admin.token)

abbrev other_dash : Handler
other_dash = record dash { cfg = record guarded_cfg { custom_words = codes "bob" ∷ [] } }

serve_http-Alike_example :
    Alike hash urls true
      (λ logs. logs)
      (serve_http hash urls true (λ logs. logs) dash stranger)
      (serve_http hash urls true (λ logs. logs) other_dash stranger)
      dash.logs
      other_dash.logs
serve_http-Alike_example =
    serve_http-Alike hash urls true (λ logs. logs) dash other_dash stranger (λ e. ground (arith, e))
      (hidden (codes "0a")) refl refl

-- What the engine of these settings makes of a text, and that it does.
abbrev found_in : Bytes → List Span
found_in t =
    let (found, _, _) =
      detect-Fits detectors first_word first_word-HitsInside runs.cfg.custom_words
        (ml_entities http runs.ml) t in
    found

abbrev masks_to : Bytes → Session → Session × Bytes
masks_to t sess = anonymize_spans t (found_in t) sess

abbrev no_recorder : Recorder ℕ
no_recorder = none
