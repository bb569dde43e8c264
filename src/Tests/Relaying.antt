-- ===== src/Tests/Relaying.antt =====
-- The handler of internal/proxy/proxy.go on concrete requests.
use shinel.Base.{
  true, false, ℕ, ◌≡◌, ◌⊎◌, refl, sym, ◌+◌, Bool, false, [], ◌∷◌, Option, none, some, arith, length,
}
use shinel.Base.Bytes.{Bytes, codes, bytes_eq}
use shinel.Base.Int.{negsuc}
use shinel.Base.Maps.{Map, lookup}
use shinel.Analyzer.Json.{Json, anonymize, anonymize_parsed}
use shinel.EndToEnd.Exchange.{echo, analyzer, Shown, handle-Shown}
use shinel.Proxy.Body.{Source}
use shinel.Proxy.Body.Reads.{IsReadable}
use shinel.Proxy.Gateway.{Outbound, Recorder, Exchanged, unknown_provider, handle}
use shinel.Proxy.Gateway.Sends.{SentTo, handle-Sends}
use shinel.EndToEnd.Streaming.{Streams, handle-Streams}
use shinel.Proxy.Reader.{Upstream, more, last, eof}
use shinel.Proxy.Status.{Below}
use shinel.Proxy.Response.{Response, upstream, is_event_stream}
use shinel.Proxy.Route.{Origin, Target, route, split_prefix, trim_slash, cut_slash}
use shinel.Tests.Masking.{text, spans, spans_fit, text-TokenFree, mapping-AllShort, masked_text}
use shinel.Tests.Storing.{function_cache}
use shinel.Vault.Memory.{memory_vault}

abbrev pub openai : Origin
openai = record { scheme = codes "https"; host = codes "api.openai.com" }

abbrev pub origins : Map Origin
origins = (codes "openai", openai) ∷ []

abbrev pub source : Source
source = record { content = text; failure = none }

abbrev pub out : Outbound
out = record {
  request = record {
    method = codes "POST";
    path = codes "/openai/v1/chat";
    body = some source;
    get_body = none;
    content_length = negsuc 0;
    length_header = none;
  };
  scheme = [];
  url_host = [];
  raw_path = [];
  host = codes "localhost";
  accept_encoding = some (codes "gzip");
  user_agent = none;
}

abbrev pub resp : Response
resp = record {
  content_type = codes "text/plain";
  content_length = negsuc 0;
  length_header = none;
  body = upstream source;
}

abbrev no_json : Bytes → Option Json
no_json t = none

abbrev no_marshal : Json → Option Bytes
no_marshal v = none

abbrev pub target : Target
target = record { name = codes "openai"; origin = openai; rest = codes "/v1/chat" }

pub out_route : route out.request.path origins ≡ some target
unfolding route split_prefix trim_slash cut_slash lookup bytes_eq
out_route = refl

abbrev pub no_recorder : Recorder ℕ
no_recorder = none

abbrev mask_text : Bytes → Bytes × Map Bytes
mask_text = analyzer (λ b. b) (λ t. spans) no_json no_marshal

source-IsReadable : IsReadable source (negsuc 0)
source-IsReadable = record { declared = refl; small = omega arith; whole = refl }

handle-Shown_example :
    let (masked, m) = mask_text text in
    Shown
      (λ b. b)
      (λ t. spans)
      no_json
      no_marshal
      function_cache
      (codes "r1")
      no_recorder
      origins
      (λ t. some t)
      (handle
        (memory_vault function_cache)
        none
        (codes "r1")
        mask_text
        no_recorder
        origins
        (λ t. some t)
        (echo 200 resp)
        out
        (λ k. none)
        0).answer
      200
      resp
      m
      text
      masked
unfolding is_event_stream bytes_eq anonymize anonymize_parsed
handle-Shown_example =
    handle-Shown (λ b. b) (λ t. spans) no_json no_marshal function_cache (codes "r1") no_recorder
      origins (λ t. some t) target out source 200 resp (λ k. none) 0 out_route refl
      (λ e. absurd (ground (arith, e))) source-IsReadable refl refl (rw masked_text (omega arith))
      refl spans_fit text-TokenFree mapping-AllShort

-- The upstream's answer as a stream of events, in two reads.
abbrev stream_resp : Response
stream_resp = record resp { content_type = codes "text/event-stream" }

-- An upstream that sends early hints, and then breaks off in the middle of a stream of events.
abbrev pub breaking : Outbound → Exchanged
breaking sent = record {
  interim = 103 ∷ [];
  answered = some (record {
    code = 200;
    response = stream_resp;
    source = record { content = codes "data: "; failure = some (codes "EOF") };
  });
  taken = true;
}

handle-Sends_example :
    let s =
      handle
        (memory_vault function_cache)
        none
        (codes "r1")
        mask_text
        no_recorder
        origins
        (λ t. some t)
        breaking
        out
        (λ k. none)
        0 in
    ((route out.request.path origins ≡ none)
      × (s ≡ record {
        asked = none;
        vault = λ k. none;
        recorded = 0;
        interim = [];
        answer = unknown_provider;
        aborted = false;
        provider = [];
        masked = 0;
      }))
    ⊎ ((t : Target) × (route out.request.path origins ≡ some t)
        × SentTo
            (memory_vault function_cache)
            none
            (codes "r1")
            mask_text
            no_recorder
            origins
            (λ t. some t)
            breaking
            t
            out
            s)
handle-Sends_example =
    handle-Sends (memory_vault function_cache) none (codes "r1") mask_text no_recorder origins
      (λ t. some t) breaking out (λ k. none) 0

abbrev reads : Upstream
reads = more (codes "[PERSON_1] [EM") (last (codes "AIL_1], [EMAIL_1]") eof)

handle-Streams_example :
    let (sent, m) = mask_text text in
    Streams
      (λ b. b)
      (λ t. spans)
      no_json
      no_marshal
      function_cache
      (codes "r1")
      no_recorder
      origins
      (λ t. some t)
      (handle
        (memory_vault function_cache)
        none
        (codes "r1")
        mask_text
        no_recorder
        origins
        (λ t. some t)
        (echo 200 stream_resp)
        out
        (λ k. none)
        0)
      200
      stream_resp
      m
      text
      sent
      7
      reads
unfolding is_event_stream bytes_eq anonymize anonymize_parsed
handle-Streams_example =
    handle-Streams (λ b. b) (λ t. spans) no_json no_marshal function_cache (codes "r1") no_recorder
      origins (λ t. some t) target out source 200 stream_resp (λ k. none) 0 7 reads out_route refl
      (λ e. absurd (ground (arith, e))) source-IsReadable refl refl spans_fit text-TokenFree
      mapping-AllShort (sym masked_text)

-- A recorder that counts the values.
abbrev count_values : Bytes → Bytes → Map Bytes → ℕ → ℕ
count_values method path m n = n + length m

-- A writer that takes no notice.
abbrev below : Below Bool
below = record { write_header = λ w code. w; flusher = none }
