-- ===== src/EndToEnd/Documents.antt =====
-- One exchange of a JSON body through the whole handler of internal/proxy/proxy.go, with the vault
-- of internal/vault/memory.go, the encoder of encoding/json, and an upstream that sends back the
-- body that it gets.
use shinel.Base.{ℕ, ◌≤◌, ◌≡◌, ◌≢◌, refl, sym, subst, [], false, List, Option, none, some, length}
use shinel.Base.Bytes.{Bytes}
use shinel.Base.Int.{pos}
use shinel.Base.Maps.{Map}
use shinel.Base.Sort.{All}
use shinel.Analyzer.Json.{
  Json, walk_json, is_scalar, encoded, anonymize_tree, anonymize_json, anonymize_parsed, anonymize,
}
use shinel.Analyzer.Json.Encode.{write, encode, JsonText, AllTexts}
use shinel.Analyzer.Json.Decode.{read_json}
use shinel.Analyzer.Json.Decode.Reads.{read_json-JsonText}
use shinel.Analyzer.Json.Lines.{marshal_json-encode}
use shinel.Analyzer.Json.Parse.{marshal_json}
use shinel.Analyzer.Json.Walk.{walk_json-Masked}
use shinel.Analyzer.Session.{Session, new_session}
use shinel.Analyzer.Session.Sound.{new_session-IsSound}
use shinel.Analyzer.Span.{Span}
use shinel.Analyzer.Sweep.{anonymize_spans}
use shinel.Analyzer.Sweep.Masks.{Fits}
use shinel.EndToEnd.{Holds-Serves}
use shinel.EndToEnd.Exchange.{echo, with_body, analyzer, answer-handle-echo}
use shinel.Proxy.Body.{Source, max_body_bytes, exceeds}
use shinel.Proxy.Body.Reads.{IsReadable}
use shinel.Proxy.Demask.{demask}
use shinel.Proxy.Escape.Reader.Valid.{IsUtf8}
use shinel.Proxy.Gateway.{Outbound, Recorder, ClientAnswer, forwarded, handle}
use shinel.Proxy.Request.{save_all}
use shinel.Proxy.Request.Saved.{left-save_all}
use shinel.Proxy.Response.{Response, is_event_stream, lookup_token}
use shinel.Proxy.Route.{Origin, Target, route}
use shinel.RoundTrip.{TokenFree, AllShort}
use shinel.RoundTrip.Documents.{demask-write}
use shinel.RoundTrip.Quoted.{AllUtf8}
use shinel.Vault.{ttl}
use shinel.Vault.Memory.{Cache, memory_vault}

module _ (to_lower : Bytes → Bytes) (detect : Bytes → List Span)
    (fit : (text : Bytes) → All (Fits text) (detect text)) (parse : Bytes → Option Json) where
  abbrev pub walked : Json → Session × Json
  walked v = walk_json to_lower (λ t sess. anonymize_spans t (detect t) sess) v new_session

  abbrev pub body_analyzer : Bytes → Bytes × Map Bytes
  body_analyzer = analyzer to_lower detect parse (marshal_json encode)

  body_analyzer-json :
      (text : Bytes) (v : Json)
      → parse text ≡ some v
      → is_scalar v ≡ false
      → AllTexts IsUtf8 (walked v).1
      → body_analyzer text ≡ (write (walked v).1 [], (walked v).0.mapping)
  unfolding anonymize anonymize_parsed anonymize_json anonymize_tree encoded
  body_analyzer-json text v e s w =
      let f = marshal_json-encode (walked v).1 w in
      rw (anonymize, e, anonymize_json, s, anonymize_tree, f) refl

  module _ (c : Cache) (req_id : Bytes) {R : Type 0} (recorder : Recorder R)
      (providers : Map Origin) (media_type : Bytes → Option Bytes) where
    open c use {State}

    demask-saved :
        (v : Json) (s : State)
        → let (sess, v') = walked v in
          AllTexts TokenFree v
          → AllTexts IsUtf8 v'
          → AllShort sess.mapping
          → AllUtf8 sess.mapping
          → JsonText v
              (demask
                (lookup_token (memory_vault c) none req_id)
                (save_all (memory_vault c) none req_id sess.mapping s)
                (write v' [])).1
              []
    demask-saved v s free w short valid =
        let (sess, v') = walked v in
        let (masks, sound) =
          walk_json-Masked to_lower detect fit v new_session new_session-IsSound in
        demask-write to_lower detect (lookup_token (memory_vault c) none req_id) sess.mapping
          (Holds-Serves c req_id sess.mapping) short valid
          (save_all (memory_vault c) none req_id sess.mapping s)
          (λ t x e. (ttl, left-save_all c req_id sess.mapping t x s sound.distinct e)) masks free w

    -- What the client gets: the upstream's response with a body that is the JSON text of a tree, and
    -- with its length; the client reads all of it, as that tree.
    abbrev pub GetsJson : ClientAnswer → ℕ → Response → Json → Type 0
    GetsJson answer code resp v =
        (shown : Bytes) × (answer ≡ forwarded code (with_body resp shown))
        × JsonText v shown []
        × (read_json shown ≡ some (v, []))

    JsonText-GetsJson :
        {answer : ClientAnswer} {code : ℕ} (resp : Response) {v : Json} (shown : Bytes)
        → answer ≡ forwarded code (with_body resp shown)
        → JsonText v shown []
        → GetsJson answer code resp v
    JsonText-GetsJson resp shown e text = (shown, e, text, read_json-JsonText text)

    -- A request through the whole handler: its path names a provider, its body is readable and a
    -- JSON value other than a number, a truth value or null, with no token in its strings and
    -- keys, and the detectors find spans that fit in every text. If the upstream sends back the
    -- body that it gets, in a response that is no event stream and declares no length over the
    -- limit, then the client gets that response with the JSON text of the very value that it
    -- sent, whatever characters its strings hold, and with its length, and a reader of JSON makes
    -- that value of it; whatever the vault in memory held before. Numbers are written as literals
    -- of numbers; the masked strings and the masked values are in UTF-8, no token is longer than
    -- the restoring writer's limit, and the masked body is not over the limit.
    pub handle-GetsJson :
        (t : Target) (out : Outbound) (source : Source) (v : Json) (code : ℕ) (resp : Response)
        (s : State) (r : R)
        → let (sess, v') = walked v in
          route out.request.path providers ≡ some t
          → out.request.body ≡ some source
          → out.request.content_length ≢ pos 0
          → IsReadable source out.request.content_length
          → is_event_stream media_type resp.content_type ≡ false
          → exceeds resp.content_length max_body_bytes ≡ false
          → length (write v' []) ≤ max_body_bytes
          → parse source.content ≡ some v
          → is_scalar v ≡ false
          → AllTexts TokenFree v
          → AllTexts IsUtf8 v'
          → AllShort sess.mapping
          → AllUtf8 sess.mapping
          → GetsJson
              (handle
                (memory_vault c)
                none
                req_id
                body_analyzer
                recorder
                providers
                media_type
                (echo code resp)
                out
                s
                r).answer
              code
              resp
              v
    handle-GetsJson t out source v code resp s r e b nonzero readable plain declared small parsed
          tree free w short valid =
        let same = body_analyzer-json source.content v parsed tree w in
        JsonText-GetsJson resp _
          (answer-handle-echo (memory_vault c) none req_id body_analyzer recorder providers
            media_type t out source code resp s r e b nonzero readable plain declared
            (subst (λ x. length x.0 ≤ max_body_bytes) (sym same) small))
          (subst
            (λ x.
              JsonText v
                (demask (lookup_token (memory_vault c) none req_id)
                  (save_all (memory_vault c) none req_id x.1 s) x.0).1
                [])
            (sym same) (demask-saved v s free w short valid))
