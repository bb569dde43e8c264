-- ===== src/Analyzer/MlClient.antt =====
-- internal/analyzer/mlclient.go: the client of the ML engine. What encoding/json and net/http do is
-- `MlHttp`.
use shinel.Base.{
  ℕ, ◌*◌, ◌^◌, Bool, ◌||◌, List, [], Option, none, some, ◌==◌, if◌then◌else◌, is_empty,
}
use shinel.Base.Bytes.{Bytes, codes}
use shinel.Base.Int.{ℤ, positive_or}
use shinel.Analyzer.Guesses.{Entity}
use shinel.Proxy.Body.{Source, read_limited}

-- `8 << 20`.
abbrev pub max_ml_response : ℕ
max_ml_response = 8 * 2 ^ 20

-- `timeout` is that of the client of net/http, in nanoseconds.
pub record MlEngineClient : Type 0 where
  pub url : Bytes
  pub labels : List Bytes
  pub timeout : ℕ

unfoldable pub new_ml_engine_client : Bytes → List Bytes → ℤ → MlEngineClient
new_ml_engine_client url labels timeout = record {
  url = url;
  labels = labels;
  timeout = positive_or (2 * 10 ^ 9) timeout;
}

-- A request to the engine: the body, and the header Content-Type.
pub record MlRequest : Type 0 where
  pub url : Bytes
  pub payload : Bytes
  pub content_type : Bytes

pub record MlReply : Type 0 where
  pub status : ℕ
  pub body : Source

-- `json.Marshal` of a text and the labels, whether `NewRequestWithContext` takes a URL, `Do` with a
-- timeout, and the decoder over what a limited body gives; `none` where one fails.
pub record MlHttp : Type 0 where
  pub marshal : Bytes → List Bytes → Option Bytes
  pub accepts : Bytes → Bool
  pub do_request : ℕ → MlRequest → Option MlReply
  pub decode : Bytes × Option Bytes → Option (List Entity)

pub data AnalyzeError : Type 0 where
  encode_request build_request call_engine bad_status decode_response : AnalyzeError

pub data Analyzed : Type 0 where
  found : List Entity → Analyzed
  failed : AnalyzeError → Analyzed

module _ (http : MlHttp) where
  unfoldable pub decoded : Option (List Entity) → Analyzed
  decoded none = failed decode_response
  decoded (some entities) = found entities

  -- Behind `Do`.
  unfoldable pub answered : Option MlReply → Analyzed
  answered none = failed call_engine
  answered (some r) =
      if r.status == 200
      then decoded (http.decode (read_limited max_ml_response r.body))
      else failed bad_status

  unfoldable pub request_of : MlEngineClient → Bytes → MlRequest
  request_of c payload = record {
    url = c.url;
    payload = payload;
    content_type = codes "application/json";
  }

  -- Behind the encoding of the request.
  unfoldable pub sent : MlEngineClient → Option Bytes → Analyzed
  sent c none = failed encode_request
  sent c (some payload) =
      if http.accepts c.url
      then answered (http.do_request c.timeout (request_of c payload))
      else failed build_request

  unfoldable pub analyze : MlEngineClient → Bytes → Analyzed
  analyze c text =
      if is_empty c.labels || is_empty text then found [] else sent c (http.marshal text c.labels)

  -- The engine as `collectML` takes it: an error counts as no reply.
  unfoldable pub entities_of : Analyzed → Option (List Entity)
  entities_of (found entities) = some entities
  entities_of (failed why) = none

  abbrev pub engine_of : MlEngineClient → Bytes → Option (List Entity)
  engine_of c text = entities_of (analyze c text)
