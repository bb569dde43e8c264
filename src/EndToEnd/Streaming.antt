-- ===== src/EndToEnd/Streaming.antt =====
-- One exchange through the whole handler of internal/proxy/proxy.go, whose response is a stream of
-- events that the client reads through the reader of internal/proxy/demask.go.
use shinel.Base.{
  ℕ, suc, ◌+◌, ◌<◌, ◌≡◌, ◌≢◌, refl, ap, sym, subst, ◌∙◌, true, List, Option, none, some, arith,
  length,
}
use shinel.Base.Bytes.{Bytes}
use shinel.Base.Int.{pos, negsuc}
use shinel.Base.Maps.{Map}
use shinel.Base.Sort.{All}
use shinel.Analyzer.Json.{Json}
use shinel.Analyzer.Span.{Span}
use shinel.Analyzer.Sweep.Masks.{Masks, Fits}
use shinel.EndToEnd.{demask-save_all}
use shinel.EndToEnd.Exchange.{echo, behind-masked, analyzer, analyzer-text}
use shinel.Proxy.Body.{Source}
use shinel.Proxy.Body.Reads.{IsReadable}
use shinel.Proxy.Demask.{demask}
use shinel.Proxy.Gateway.{
  Outbound, retarget, Recorder, Directed, Answered, Exchanged, Served, forwarded, directed, served,
  modified, exchanged, reverse_proxy, handle,
}
use shinel.Proxy.Gateway.Sends.{handle-some}
use shinel.Proxy.Reader.{Upstream, new_demask_reader}
use shinel.Proxy.Reader.Total.{body_of, end_of, read_all, read_all-demask}
use shinel.Proxy.Request.{set_body, save_all}
use shinel.Proxy.Request.FailSafe.{masked}
use shinel.Proxy.Response.{restoring, Response, ok, is_event_stream, lookup_token, restore_response}
use shinel.Proxy.Route.{Origin, Target, route}
use shinel.RoundTrip.{TokenFree, AllShort}
use shinel.Vault.{VaultOps}
use shinel.Vault.Memory.{Cache, memory_vault}

-- A response whose body is restored while it is read, with no length.
abbrev pub streamed : Response → Source → Response
streamed resp source = record resp {
  body = restoring source;
  content_length = negsuc 0;
  length_header = none;
}

module _ {S R : Type 0} (vault : VaultOps S) (ctx_err : Option Bytes) (req_id : Bytes)
    (anonymize : Bytes → Bytes × Map Bytes) (recorder : Recorder R) (providers : Map Origin)
    (media_type : Bytes → Option Bytes) where
  restore_response-stream :
      (resp : Response) (source : Source) (v : S)
      → is_event_stream media_type resp.content_type ≡ true
      → restore_response vault ctx_err req_id media_type resp source v
        ≡ (v, ok (streamed resp source))
  unfolding restore_response
  restore_response-stream resp source v h = rw h refl

  -- What the client gets, and the vault behind.
  reverse_proxy-stream :
      (upstream : Outbound → Exchanged) (d : Directed S R) (a : Answered)
      → (upstream d.outbound).answered ≡ some a
      → is_event_stream media_type a.response.content_type ≡ true
      → let s =
          reverse_proxy vault ctx_err req_id anonymize recorder providers media_type upstream d in
        (s.answer ≡ forwarded a.code (streamed a.response a.source)) × (s.vault ≡ d.vault)
  unfolding reverse_proxy exchanged modified served
  reverse_proxy-stream upstream d a e h =
      rw (reverse_proxy, e)
        (rw (restore_response-stream a.response a.source d.vault h) (refl, refl))

  handle-stream :
      (t : Target) (out : Outbound) (source : Source) (code : ℕ) (resp : Response) (v : S) (r : R)
      → route out.request.path providers ≡ some t
      → out.request.body ≡ some source
      → out.request.content_length ≢ pos 0
      → IsReadable source out.request.content_length
      → is_event_stream media_type resp.content_type ≡ true
      → let (text, m) = anonymize source.content in
        let s =
          handle vault ctx_err req_id anonymize recorder providers media_type
            (echo code resp)
            out
            v
            r in
        (s.answer ≡ forwarded code (streamed resp (record { content = text; failure = none })))
        × (s.vault ≡ save_all vault ctx_err req_id m v)
  unfolding directed set_body
  handle-stream t out source code resp v r e b nonzero readable stream =
      let back : Source = record { content = (anonymize source.content).0; failure = none } in
      let d =
        directed vault ctx_err req_id anonymize recorder providers t.name (retarget t out) r
          (masked vault ctx_err req_id anonymize (retarget t out).request v source.content) in
      let same =
        handle-some vault ctx_err req_id anonymize recorder providers media_type (echo code resp) t
          out v r e
        ∙ ap
            (reverse_proxy vault ctx_err req_id anonymize recorder providers media_type
              (echo code resp))
            (behind-masked vault ctx_err req_id anonymize recorder providers media_type
              (echo code resp) t out source v r b nonzero readable) in
      let (answer, left) =
        reverse_proxy-stream (echo code resp) d
          (record { code = code; response = resp; source = back }) refl stream in
      (ap (λ s. s.answer) same ∙ answer, ap (λ s. s.vault) same ∙ left)

module _ (to_lower : Bytes → Bytes) (detect : Bytes → List Span) (parse : Bytes → Option Json)
    (marshal : Json → Option Bytes) (c : Cache) (req_id : Bytes) {R : Type 0}
    (recorder : Recorder R) (providers : Map Origin) (media_type : Bytes → Option Bytes) where
  open c use {State}

  abbrev mask : Bytes → Bytes × Map Bytes
  mask = analyzer to_lower detect parse marshal

  -- What a client gets that reads a response on until its end, in calls with room for `suc n` bytes
  -- each, where the upstream's reads give `src`.
  abbrev pub Streams :
      Served State R → ℕ → Response → Map Bytes → Bytes → Bytes → ℕ → Upstream → Type 0
  Streams s code resp m text sent n src =
      (shown : Bytes) × (s.answer
        ≡ forwarded code (streamed resp (record { content = sent; failure = none })))
      × ((calls : ℕ) × (read_all (lookup_token (memory_vault c) none req_id) calls (suc n)
              (new_demask_reader src s.vault)
            ≡ (shown, some (end_of src))))
      × Masks m text sent shown

  -- A request through the whole handler: its path names a provider, its body is readable, is no
  -- JSON value and has no token in it, and the detectors find spans in it that fit. If the upstream
  -- sends back the body that it gets as a stream of events, then the client that reads on to the
  -- end gets the text, in which the stretches that were masked are escaped for JSON, and then the
  -- upstream's end; whatever room it gives each call, however the upstream cuts the stream, and
  -- whatever the vault in memory held before. No token is longer than the restoring writer's limit.
  pub handle-Streams :
      (t : Target) (out : Outbound) (source : Source) (code : ℕ) (resp : Response) (s : State)
      (r : R) (n : ℕ) (src : Upstream)
      → let (sent, m) = mask source.content in
        route out.request.path providers ≡ some t
        → out.request.body ≡ some source
        → out.request.content_length ≢ pos 0
        → IsReadable source out.request.content_length
        → is_event_stream media_type resp.content_type ≡ true
        → parse source.content ≡ none
        → All (Fits source.content) (detect source.content)
        → TokenFree source.content
        → AllShort m
        → body_of src ≡ sent
        → Streams
            (handle
              (memory_vault c)
              none
              req_id
              mask
              recorder
              providers
              media_type
              (echo code resp)
              out
              s
              r)
            code
            resp
            m
            source.content
            sent
            n
            src
  handle-Streams t out source code resp s r n src e b nonzero readable stream text fits free short
        cut =
      let same = analyzer-text to_lower detect parse marshal source.content text in
      let get = lookup_token (memory_vault c) none req_id in
      let (answer, left) =
        handle-stream (memory_vault c) none req_id mask recorder providers media_type t out source
          code resp s r e b nonzero readable stream in
      let saved = save_all (memory_vault c) none req_id (mask source.content).1 s in
      let shown = (demask get saved (mask source.content).0).1 in
      (
        shown,
        answer,
        (
          length shown + 1,
          subst
              (λ v.
                read_all get (length shown + 1) (suc n) (new_demask_reader src v)
                ≡ (shown, some (end_of src)))
              (sym left)
              (read_all-demask get (length shown + 1) n src saved (
                  subst (λ x. length (demask get saved x).1 < length shown + 1) (sym cut)
                    (omega arith))
                ∙ ap (λ x. ((demask get saved x).1, some (end_of src))) cut),
        ),
        subst
            (λ x.
              Masks x.1 source.content x.0
                (demask get (save_all (memory_vault c) none req_id x.1 s) x.0).1)
            (sym same)
            (demask-save_all c req_id source.content (detect source.content) s fits free
              (subst (λ x. AllShort x.1) same short)),
      )
