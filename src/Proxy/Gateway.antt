-- ===== src/Proxy/Gateway.antt =====
-- internal/proxy/proxy.go: `New`, the handler that it builds, and the request log. The upstream is
-- an argument, and so is the analyzer. Between the director and the upstream, and between the
-- upstream and `ModifyResponse`, net/http/httputil's `ReverseProxy` is taken to pass things on as
-- they are, statuses 1xx included, to call `ErrorHandler` where the upstream or `ModifyResponse`
-- fails, and to panic with `ErrAbortHandler` where a body breaks off while it is copied, as it does
-- below an `http.Server`. A switch of protocols is not modelled.
pub mod Sends
pub mod Noted
use shinel.Base.{
  ℕ, Bool, true, false, not, ◌||◌, List, [], ◌∷◌, Option, none, some, if◌then◌else◌, length,
}
use shinel.Base.Bytes.{Bytes, codes}
use shinel.Base.Maps.{Map}
use shinel.Config.{Config}
use shinel.Proxy.Body.{Source}
use shinel.Proxy.Request.{Request, Masked, mask_request}
use shinel.Proxy.Response.{ResponseBody, Response, Restored, ok, err, restore_response}
use shinel.Proxy.Route.{Origin, Target, route, parse_providers}
use shinel.Proxy.Status.{Below, StatusWriter, write_header, write_headers, status}
use shinel.Vault.{VaultOps}

-- The request that goes out: its URL, and the headers that the director sets or removes.
pub record Outbound : Type 0 where
  pub request : Request
  pub scheme : Bytes
  pub url_host : Bytes
  pub raw_path : Bytes
  pub host : Bytes
  pub accept_encoding : Option Bytes
  pub user_agent : Option Bytes

-- The header User-Agent, empty where there is none.
unfoldable pub set_user_agent : Option Bytes → Option Bytes
set_user_agent none = some []
set_user_agent (some u) = some u

-- The director's edits in front of `maskRequest`.
unfoldable pub retarget : Target → Outbound → Outbound
retarget t out = record {
  request = record out.request { path = t.rest };
  scheme = t.origin.scheme;
  url_host = t.origin.host;
  raw_path = [];
  host = t.origin.host;
  accept_encoding = none;
  user_agent = set_user_agent out.user_agent;
}

-- `Recorder`, over its state; `none` is a nil one.
abbrev pub Recorder : Type 0 → Type 0
Recorder R = Option (Bytes → Bytes → Map Bytes → R → R)

unfoldable pub record_mapping : {R : Type 0} → Recorder R → Request → Map Bytes → R → R
record_mapping none req mapping r = r
record_mapping (some record_it) req mapping r = record_it req.method req.path mapping r

-- What the director leaves behind: the request, the vault, the recorder, and what the request log
-- is told.
pub record Directed (S R : Type 0) : Type 0 where
  pub outbound : Outbound
  pub vault : S
  pub recorded : R
  pub provider : Bytes
  pub masked : ℕ

-- What the upstream answers with: a status, and a response whose body is the source.
pub record Answered : Type 0 where
  pub code : ℕ
  pub response : Response
  pub source : Source

-- One exchange of `ReverseProxy` with the upstream: the statuses 1xx that the upstream sends first,
-- what it answers with, if it does, and whether the client takes the body to its end.
pub record Exchanged : Type 0 where
  pub interim : List ℕ
  pub answered : Option Answered
  pub taken : Bool

-- What the client gets: an error, or the upstream's response, with as much of its body as can be
-- copied.
pub data ClientAnswer : Type 0 where
  failure : ℕ → Bytes → ClientAnswer
  forwarded : ℕ → Response → ClientAnswer

-- The line of the request log, without the time that the request took.
pub record LogLine : Type 0 where
  pub method : Bytes
  pub path : Bytes
  pub provider : Bytes
  pub status : ℕ
  pub masked : ℕ

-- What a request leads to: what was sent upstream, if anything, the statuses 1xx that are passed on
-- in front of the answer, the answer, and whether the handler panics behind it.
pub record Served (S R : Type 0) : Type 0 where
  pub asked : Option Outbound
  pub vault : S
  pub recorded : R
  pub interim : List ℕ
  pub answer : ClientAnswer
  pub aborted : Bool
  pub provider : Bytes
  pub masked : ℕ

unfoldable pub unknown_provider : ClientAnswer
unknown_provider = failure 404 (codes "unknown provider")

-- `ErrorHandler`.
unfoldable pub upstream_failed : ClientAnswer
upstream_failed = failure 502 (codes "upstream request failed")

-- The status that a handler gives to `WriteHeader`.
unfoldable pub code_of : ClientAnswer → ℕ
code_of (failure code text) = code
code_of (forwarded code resp) = code

-- Whether a body ends with the upstream's error while it is copied.
abbrev pub breaks_off : ResponseBody → Bool
breaks_off (ResponseBody.upstream source) = elim source.failure [ none ↦ false | some e ↦ true ]
breaks_off (ResponseBody.restoring source) = elim source.failure [ none ↦ false | some e ↦ true ]
breaks_off (ResponseBody.complete body) = false

-- Whether copying the answer's body fails, at either side; `http.Error` is done.
abbrev pub copy_fails : Bool → ClientAnswer → Bool
copy_fails taken (failure code text) = false
copy_fails taken (forwarded code resp) = not taken || breaks_off resp.body

-- Why there is no proxy.
pub data NewError : Type 0 where
  bad_provider no_providers : NewError

pub data Made : Type 0 where
  origins : Map Origin → Made
  refused : NewError → Made

-- The origins that `New` routes to, or its error.
unfoldable pub new_origins : (Bytes → Option Origin) → Config → Made
new_origins parse_url cfg = elim (parse_providers parse_url cfg.providers) [
  | none ↦ refused bad_provider
  | some [] ↦ refused no_providers
  | some (o ∷ os) ↦ origins (o ∷ os)
]

module _ {S R : Type 0} (vault : VaultOps S) (ctx_err : Option Bytes) (req_id : Bytes)
    (anonymize : Bytes → Bytes × Map Bytes) (recorder : Recorder R) (providers : Map Origin) where
  -- Behind `maskRequest` of the retargeted request, with its deferred function.
  unfoldable pub directed : Bytes → Outbound → R → Masked S → Directed S R
  directed name out r m = record {
    outbound = record out { request = m.request };
    vault = m.vault;
    recorded = record_mapping recorder m.request m.mapping r;
    provider = name;
    masked = length m.mapping;
  }

  unfoldable pub direct : Outbound → S → R → Directed S R
  direct out v r = elim (route out.request.path providers) [
    | none ↦ record { outbound = out; vault = v; recorded = r; provider = []; masked = 0 }
    | some t ↦
        directed t.name (retarget t out) r
          (mask_request vault ctx_err req_id anonymize (retarget t out).request v)
  ]

  module _ (media_type : Bytes → Option Bytes) (upstream : Outbound → Exchanged) where
    unfoldable pub served : Directed S R → Exchanged → S → ClientAnswer → Served S R
    served d x v answer = record {
      asked = some d.outbound;
      vault = v;
      recorded = d.recorded;
      interim = x.interim;
      answer = answer;
      aborted = copy_fails x.taken answer;
      provider = d.provider;
      masked = d.masked;
    }

    -- Behind `ModifyResponse`.
    unfoldable pub modified : Directed S R → Exchanged → ℕ → S × Restored → Served S R
    modified d x code (v, err why) = served d x v upstream_failed
    modified d x code (v, ok resp) = served d x v (forwarded code resp)

    -- Behind the exchange.
    unfoldable pub exchanged : Directed S R → Exchanged → Served S R
    exchanged d x = elim x.answered [
      | none ↦ served d x d.vault upstream_failed
      | some a ↦
          modified d x a.code
            (restore_response vault ctx_err req_id media_type a.response a.source d.vault)
    ]

    -- `rp.ServeHTTP`.
    unfoldable pub reverse_proxy : Directed S R → Served S R
    reverse_proxy d = exchanged d (upstream d.outbound)

    -- The handler that `New` wraps.
    unfoldable pub handle : Outbound → S → R → Served S R
    handle out v r = elim (route out.request.path providers) [
      | none ↦ record {
        asked = none;
        vault = v;
        recorded = r;
        interim = [];
        answer = unknown_provider;
        aborted = false;
        provider = [];
        masked = 0;
      }
      | some _ ↦ reverse_proxy (direct out v r)
    ]

    -- `withRequestLog`; the director works on a copy of the request. A panic goes past the log.
    unfoldable pub with_request_log :
        {W : Type 0} → Below W → W → Outbound → S → R → Served S R × Option LogLine
    with_request_log below w out v r =
        let s = handle out v r in
        let informed = write_headers below (record { w = w; code = 0 }) s.interim in
        let sw = write_header below informed (code_of s.answer) in
        (
          s,
          if s.aborted
              then none
              else some (record {
                method = out.request.method;
                path = out.request.path;
                provider = s.provider;
                status = status sw;
                masked = s.masked;
              }),
        )
