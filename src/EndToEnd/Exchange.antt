-- ===== src/EndToEnd/Exchange.antt =====
-- One exchange through the whole handler of internal/proxy/proxy.go, with the vault of
-- internal/vault/memory.go and an upstream that sends back the body that it gets.
use shinel.Base.{
  ℕ, ◌≤◌, ◌≡◌, ◌≢◌, refl, ap, sym, subst, ◌∙◌, true, false, [], List, Option, none, some, inl, inr,
  length,
}
use shinel.Base.Bytes.{Bytes}
use shinel.Base.Decimal.{decimal}
use shinel.Base.Int.{pos}
use shinel.Base.Maps.{Map}
use shinel.Base.Sort.{All}
use shinel.Analyzer.Json.{Json, anonymize_parsed, anonymize}
use shinel.Analyzer.Session.{new_session}
use shinel.Analyzer.Span.{Span}
use shinel.Analyzer.Sweep.{anonymize_spans}
use shinel.Analyzer.Sweep.Masks.{Masks, Fits}
use shinel.EndToEnd.{demask-save_all}
use shinel.Proxy.Body.{Source, max_body_bytes, exceeds}
use shinel.Proxy.Body.Reads.{IsReadable}
use shinel.Proxy.Demask.{demask}
use shinel.Proxy.Gateway.{
  Outbound, retarget, Recorder, Directed, Answered, Exchanged, ClientAnswer, forwarded, directed,
  served, modified, exchanged, reverse_proxy, handle,
}
use shinel.Proxy.Gateway.Sends.{behind, handle-some, mask_request-some}
use shinel.Proxy.Request.{set_body, save_all}
use shinel.Proxy.Request.FailSafe.{masked, mask_source-masked_or_dropped}
use shinel.Proxy.Response.{complete, Response, ok, is_event_stream, lookup_token, restore_response}
use shinel.Proxy.Response.Complete.{restore_response-answered_or_error}
use shinel.Proxy.Route.{Origin, Target, route}
use shinel.RoundTrip.{TokenFree, AllShort}
use shinel.Vault.{VaultOps}
use shinel.Vault.Memory.{Cache, memory_vault}

-- An upstream that answers with the body that it gets, to a client that takes it all.
abbrev pub echo : ℕ → Response → Outbound → Exchanged
echo code resp sent = record {
  interim = [];
  answered = elim sent.request.body [
    | none ↦ none
    | some source ↦ some (record { code = code; response = resp; source = source })
  ];
  taken = true;
}

-- A response with a restored body and its length.
abbrev pub with_body : Response → Bytes → Response
with_body resp shown = record resp {
  body = complete shown;
  content_length = pos (length shown);
  length_header = some (decimal (length shown));
}

module _ {S R : Type 0} (vault : VaultOps S) (ctx_err : Option Bytes) (req_id : Bytes)
    (anonymize : Bytes → Bytes × Map Bytes) (recorder : Recorder R) (providers : Map Origin)
    (media_type : Bytes → Option Bytes) where
  pub answer-reverse_proxy :
      (upstream : Outbound → Exchanged) (d : Directed S R) (a : Answered) (v : S) (resp : Response)
      → (upstream d.outbound).answered ≡ some a
      → restore_response vault ctx_err req_id media_type a.response a.source d.vault ≡ (v, ok resp)
      → (reverse_proxy vault ctx_err req_id anonymize recorder providers media_type upstream
          d).answer
        ≡ forwarded a.code resp
  unfolding reverse_proxy exchanged modified served
  answer-reverse_proxy upstream d a v resp e f =
      rw (reverse_proxy, e)
        (ap
          (λ x.
            (modified vault ctx_err req_id anonymize recorder providers media_type upstream d
              (upstream d.outbound) a.code x).answer)
          f)

  -- The director's request for a body that can be read.
  pub behind-masked :
      (upstream : Outbound → Exchanged) (t : Target) (out : Outbound) (source : Source) (v : S)
      (r : R)
      → out.request.body ≡ some source
      → out.request.content_length ≢ pos 0
      → IsReadable source out.request.content_length
      → behind vault ctx_err req_id anonymize recorder providers media_type upstream t out v r
        ≡ directed vault ctx_err req_id anonymize recorder providers t.name
            (retarget t out)
            r
            (masked vault ctx_err req_id anonymize (retarget t out).request v source.content)
  unfolding retarget
  behind-masked upstream t out source v r b nonzero readable =
      ap (directed vault ctx_err req_id anonymize recorder providers t.name (retarget t out) r) (
        mask_request-some vault ctx_err req_id anonymize (retarget t out).request v source b
        ∙ elim (mask_source-masked_or_dropped vault ctx_err req_id anonymize
            (retarget t out).request v source out.request.content_length nonzero) [
              | inl (_, e) ↦ e
              | inr (n, _) ↦ absurd (n readable)
            ])

  -- A request that the handler masks, to an upstream that sends the masked body back.
  pub answer-handle-echo :
      (t : Target) (out : Outbound) (source : Source) (code : ℕ) (resp : Response) (v : S) (r : R)
      → route out.request.path providers ≡ some t
      → out.request.body ≡ some source
      → out.request.content_length ≢ pos 0
      → IsReadable source out.request.content_length
      → is_event_stream media_type resp.content_type ≡ false
      → exceeds resp.content_length max_body_bytes ≡ false
      → length (anonymize source.content).0 ≤ max_body_bytes
      → (handle vault ctx_err req_id anonymize recorder providers media_type
          (echo code resp)
          out
          v
          r).answer
        ≡ forwarded code (
            with_body resp
              (demask
                (lookup_token vault ctx_err req_id)
                (save_all vault ctx_err req_id (anonymize source.content).1 v)
                (anonymize source.content).0).1)
  unfolding directed set_body
  answer-handle-echo t out source code resp v r e b nonzero readable plain declared small =
      let text = (anonymize source.content).0 in
      let back : Source = record { content = text; failure = none } in
      let saved = save_all vault ctx_err req_id (anonymize source.content).1 v in
      let d =
        directed vault ctx_err req_id anonymize recorder providers t.name (retarget t out) r
          (masked vault ctx_err req_id anonymize (retarget t out).request v source.content) in
      ap (λ s. s.answer)
        (handle-some vault ctx_err req_id anonymize recorder providers media_type (echo code resp) t
            out v r e
          ∙ ap
              (reverse_proxy vault ctx_err req_id anonymize recorder providers media_type
                (echo code resp))
              (behind-masked (echo code resp) t out source v r b nonzero readable))
      ∙ elim (restore_response-answered_or_error vault ctx_err req_id media_type resp back saved
          plain) [
            | inl (_, f) ↦
                answer-reverse_proxy (echo code resp) d
                  (record { code = code; response = resp; source = back }) _ _ refl f
            | inr (n, _) ↦ absurd (n (record { declared = declared; small = small; whole = refl }))
          ]

module _ (to_lower : Bytes → Bytes) (detect : Bytes → List Span) (parse : Bytes → Option Json)
    (marshal : Json → Option Bytes) where
  -- `Anonymize`, with the text in front of the mapping, over what the detectors find.
  abbrev pub analyzer : Bytes → Bytes × Map Bytes
  analyzer text =
      let (m, sent) =
        anonymize to_lower (λ t sess. anonymize_spans t (detect t) sess) parse marshal text in
      (sent, m)

  pub analyzer-text :
      (text : Bytes)
      → parse text ≡ none
      → analyzer text ≡ (
          let (sess, masked) = anonymize_spans text (detect text) new_session in
          (masked, sess.mapping))
  unfolding anonymize anonymize_parsed
  analyzer-text text e = rw (anonymize, e) refl

  module _ (c : Cache) (req_id : Bytes) {R : Type 0} (recorder : Recorder R)
      (providers : Map Origin) (media_type : Bytes → Option Bytes) where
    open c use {State}

    -- What the client gets for a text that was masked to `masked` under a mapping.
    abbrev pub Shown : ClientAnswer → ℕ → Response → Map Bytes → Bytes → Bytes → Type 0
    Shown answer code resp m text masked =
        (shown : Bytes) × (answer ≡ forwarded code (with_body resp shown))
        × Masks m text masked shown

    -- A request through the whole handler: its path names a provider, its body is readable, is no
    -- JSON value and has no token in it, and the detectors find spans in it that fit. If the
    -- upstream sends back the body that it gets, in a response that is no event stream and declares
    -- no length over the limit, then the client gets that response with the text, in which the
    -- stretches that were masked are escaped for JSON, and with its length; whatever the vault in
    -- memory held before. No token is longer than the restoring writer's limit, and the masked text
    -- is not over the limit of a body.
    pub handle-Shown :
        (t : Target) (out : Outbound) (source : Source) (code : ℕ) (resp : Response) (s : State)
        (r : R)
        → let (masked, m) = analyzer source.content in
          route out.request.path providers ≡ some t
          → out.request.body ≡ some source
          → out.request.content_length ≢ pos 0
          → IsReadable source out.request.content_length
          → is_event_stream media_type resp.content_type ≡ false
          → exceeds resp.content_length max_body_bytes ≡ false
          → length masked ≤ max_body_bytes
          → parse source.content ≡ none
          → All (Fits source.content) (detect source.content)
          → TokenFree source.content
          → AllShort m
          → Shown
              (handle
                (memory_vault c)
                none
                req_id
                analyzer
                recorder
                providers
                media_type
                (echo code resp)
                out
                s
                r).answer
              code
              resp
              m
              source.content
              masked
    handle-Shown t out source code resp s r e b nonzero readable plain declared small text fits free
          short =
        let same = analyzer-text source.content text in
        (
          _,
          answer-handle-echo (memory_vault c) none req_id analyzer recorder providers media_type t
              out source code resp s r e b nonzero readable plain declared small,
          subst
              (λ x.
                Masks x.1 source.content x.0
                  (demask (lookup_token (memory_vault c) none req_id)
                    (save_all (memory_vault c) none req_id x.1 s) x.0).1)
              (sym same)
              (demask-save_all c req_id source.content (detect source.content) s fits free
                (subst (λ x. AllShort x.1) same short)),
        )
