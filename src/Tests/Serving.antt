-- ===== src/Tests/Serving.antt =====
-- internal/proxy/proxy.go on concrete requests and responses.
use shinel.Base.{ℕ, ◌+◌, ◌≡◌, refl, false, [], ◌∷◌, Option, none, some}
use shinel.Base.Bytes.{Bytes, codes, bytes_eq}
use shinel.Base.Int.{pos, negsuc}
use shinel.Base.Maps.{Map, lookup}
use shinel.Proxy.Body.{Source}
use shinel.Proxy.Request.{Request}
use shinel.Proxy.Response.{upstream, Response, is_event_stream}
use shinel.Proxy.Response.Complete
use shinel.Proxy.Response.Complete.{restore_response-answered_or_error}
use shinel.Proxy.Status.{Below}
use shinel.Proxy.Route.{
  Origin, trim_slash, cut_slash, split_prefix, route, parse_origin, parse_providers,
}
use shinel.Proxy.Route.Prefix.{route-segment}
use shinel.Vault.{value, not_found, VaultOps}

-- A vault that holds the entries of one request.
abbrev list_vault : VaultOps (Map Bytes)
list_vault = record {
  save_mapping = λ ctx r t x m. ((t, x) ∷ m, none);
  get_mapping = λ ctx r t m. (m, elim (lookup t m) [ none ↦ not_found | some x ↦ value x ]);
}

-- An analyzer that takes every body for one secret.
abbrev all_secret : Bytes → Bytes × Map Bytes
all_secret body = (codes "[SECRET_1]", (codes "[SECRET_1]", body) ∷ [])

abbrev question : Source
question = record { content = codes "hunter2"; failure = none }

abbrev asked : Request
asked = record {
  method = codes "POST";
  path = codes "/v1";
  body = some question;
  get_body = none;
  content_length = pos 7;
  length_header = some (codes "7");
}

abbrev echoed : Source
echoed = record { content = codes "{\"a\":\"[SECRET_1]\"}"; failure = none }

abbrev reply : Response
reply = record {
  content_type = codes "application/json";
  content_length = negsuc 0;
  length_header = none;
  body = upstream echoed;
}

not_a_stream : is_event_stream (λ v. some v) (codes "application/json") ≡ false
unfolding is_event_stream bytes_eq
not_a_stream = refl

restore_response-answered_or_error_example :
    Complete.Outcome list_vault none
      (codes "r1")
      (λ v. some v)
      reply
      echoed
      ((codes "[SECRET_1]", codes "hunter2") ∷ [])
restore_response-answered_or_error_example =
    restore_response-answered_or_error list_vault none (codes "r1") (λ v. some v) reply echoed
      ((codes "[SECRET_1]", codes "hunter2") ∷ []) not_a_stream

abbrev openai : Origin
openai = record { scheme = codes "https"; host = codes "api.openai.com" }

abbrev providers : Map Origin
providers = (codes "openai", openai) ∷ []

routed :
    route (codes "/openai/v1/chat") providers
    ≡ some (record { name = codes "openai"; origin = openai; rest = codes "/v1/chat" })
unfolding route split_prefix trim_slash cut_slash lookup bytes_eq
routed = refl

route-segment_example :
    (route (codes "/a/v1") providers ≡ elim (lookup (codes "a") providers) [
      | none ↦ none
      | some u ↦ some (record { name = codes "a"; origin = u; rest = codes "/v1" })
    ])
    × (route (codes "/a") providers ≡ elim (lookup (codes "a") providers) [
      | none ↦ none
      | some u ↦ some (record { name = codes "a"; origin = u; rest = codes "/" })
    ])
route-segment_example = route-segment b'a' [] (codes "v1") providers (refl, tt)

-- One URL that parses.
abbrev parse_url : Bytes → Option Origin
parse_url raw = some (record { scheme = codes "https"; host = raw })

parsed :
    parse_providers parse_url ((codes "a", codes "h") ∷ [])
    ≡ some ((codes "a", record { scheme = codes "https"; host = codes "h" }) ∷ [])
unfolding parse_providers parse_origin
parsed = refl

-- A writer below that counts the calls, and is no `http.Flusher`.
abbrev counter : Below ℕ
counter = record { write_header = λ n code. n + 1; flusher = none }
