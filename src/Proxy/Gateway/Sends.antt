-- ===== src/Proxy/Gateway/Sends.antt =====
-- What the handler of internal/proxy/proxy.go sends upstream.
use shinel.Base.{
  ℕ, zero, suc, ◌≡◌, ◌≢◌, false, refl, ap, sym, subst, ◌∙◌, [], ◌⊎◌, inl, inr, Option, none, some,
  arith, Option-cases,
}
use shinel.Base.Bytes.{Bytes}
use shinel.Base.Int.{ℤ, pos, negsuc}
use shinel.Base.Maps.{Map}
use shinel.Proxy.Body.{Source}
use shinel.Proxy.Body.Reads.{IsReadable}
use shinel.Proxy.Gateway.{
  Outbound, set_user_agent, retarget, Recorder, Directed, Exchanged, Served, unknown_provider,
  directed, direct, served, modified, exchanged, reverse_proxy, handle,
}
use shinel.Proxy.Request.{Request, set_body, mask_source, mask_request}
use shinel.Proxy.Request.FailSafe.{mask_source-masked_or_dropped}
use shinel.Proxy.Response.{Restored, ok, err}
use shinel.Proxy.Route.{Origin, Target, route}
use shinel.Vault.{VaultOps}

-- What becomes of a request on its way upstream.
pub data Sends (anonymize : Bytes → Bytes × Map Bytes) (req sent : Request) : Type 0 where
  no_body : req.body ≡ none → sent ≡ req → Sends anonymize req sent
  declared_empty : req.content_length ≡ pos 0 → sent ≡ req → Sends anonymize req sent
  masked :
      (source : Source)
      → req.body ≡ some source
      → IsReadable source req.content_length
      → sent ≡ set_body req (anonymize source.content).0
      → Sends anonymize req sent
  dropped :
      (source : Source)
      → req.body ≡ some source
      → ¬ (IsReadable source req.content_length)
      → sent ≡ set_body req []
      → Sends anonymize req sent

-- The header User-Agent, empty where there is none.
abbrev pub agent_of : Option Bytes → Bytes
agent_of none = []
agent_of (some u) = u

set_user_agent-agent_of : (u : Option Bytes) → set_user_agent u ≡ some (agent_of u)
unfolding set_user_agent
set_user_agent-agent_of none = refl
set_user_agent-agent_of (some u) = refl

pub is_zero_or : (n : ℤ) → (n ≡ pos 0) ⊎ (n ≢ pos 0)
is_zero_or (pos zero) = inl refl
is_zero_or (pos (suc n)) = inr (λ e. absurd (ground (arith, e)))
is_zero_or (negsuc n) = inr (λ e. absurd (ground (arith, e)))

module _ {S : Type 0} (vault : VaultOps S) (ctx_err : Option Bytes) (req_id : Bytes)
    (anonymize : Bytes → Bytes × Map Bytes) where
  pub mask_source-zero :
      (req : Request) (v : S) (source : Source)
      → (mask_source vault ctx_err req_id anonymize req v source (pos 0)).request ≡ req
  unfolding mask_source
  mask_source-zero req v source = refl

  pub Sends-source :
      (req : Request) (v : S) (source : Source)
      → req.body ≡ some source
      → Sends anonymize req
          (mask_source vault ctx_err req_id anonymize req v source req.content_length).request
  Sends-source req v source b = elim (is_zero_or req.content_length) [
    | inl e ↦ declared_empty e (
        ap (λ n. (mask_source vault ctx_err req_id anonymize req v source n).request) e
        ∙ mask_source-zero req v source)
    | inr ne ↦
        elim (mask_source-masked_or_dropped vault ctx_err req_id anonymize req v source
          req.content_length ne) [
            | inl (readable, e) ↦ masked source b readable (ap (λ m. m.request) e)
            | inr (not_readable, e) ↦ dropped source b not_readable (ap (λ m. m.request) e)
          ]
  ]

  pub mask_request-none :
      (req : Request) (v : S)
      → req.body ≡ none
      → (mask_request vault ctx_err req_id anonymize req v).request ≡ req
  unfolding mask_request
  mask_request-none req v e = ground (arith, e)

  pub mask_request-some :
      (req : Request) (v : S) (source : Source)
      → req.body ≡ some source
      → mask_request vault ctx_err req_id anonymize req v
        ≡ mask_source vault ctx_err req_id anonymize req v source req.content_length
  unfolding mask_request
  mask_request-some req v source e = ground (arith, e)

  pub mask_request-Sends :
      (req : Request) (v : S)
      → Sends anonymize req (mask_request vault ctx_err req_id anonymize req v).request
  mask_request-Sends req v = elim (Option-cases req.body) [
    | inl e ↦ no_body e (mask_request-none req v e)
    | inr (source, e) ↦
        subst (λ m. Sends anonymize req m.request) (sym (mask_request-some req v source e))
          (Sends-source req v source e)
  ]

  module _ {R : Type 0} (recorder : Recorder R) (providers : Map Origin)
      (media_type : Bytes → Option Bytes) (upstream : Outbound → Exchanged) where
    abbrev run : Outbound → S → R → Served S R
    run = handle vault ctx_err req_id anonymize recorder providers media_type upstream

    -- What the director leaves behind for a provider.
    abbrev pub behind : Target → Outbound → S → R → Directed S R
    behind t out v r =
        directed vault ctx_err req_id anonymize recorder providers t.name (retarget t out) r
          (mask_request vault ctx_err req_id anonymize (retarget t out).request v)

    pub direct-some :
        (t : Target) (out : Outbound) (v : S) (r : R)
        → route out.request.path providers ≡ some t
        → direct vault ctx_err req_id anonymize recorder providers out v r ≡ behind t out v r
    unfolding direct
    direct-some t out v r e = rw (direct, e) refl

    pub handle-some :
        (t : Target) (out : Outbound) (v : S) (r : R)
        → route out.request.path providers ≡ some t
        → run out v r
          ≡ reverse_proxy vault ctx_err req_id anonymize recorder providers media_type upstream
              (behind t out v r)
    unfolding handle
    handle-some t out v r e =
        rw (handle, e)
          (ap (reverse_proxy vault ctx_err req_id anonymize recorder providers media_type upstream)
            (direct-some t out v r e))

    asked-modified :
        (d : Directed S R) (ex : Exchanged) (code : ℕ) (x : S × Restored)
        → (modified vault ctx_err req_id anonymize recorder providers media_type upstream d ex code
            x).asked
          ≡ some d.outbound
    unfolding modified served
    asked-modified d ex code (v, ok resp) = refl
    asked-modified d ex code (v, err why) = refl

    pub asked-reverse_proxy :
        (d : Directed S R)
        → (reverse_proxy vault ctx_err req_id anonymize recorder providers media_type upstream
            d).asked
          ≡ some d.outbound
    unfolding reverse_proxy exchanged served
    asked-reverse_proxy d = elim (Option-cases (upstream d.outbound).answered) [
      | inl e ↦ rw (reverse_proxy, e) refl
      | inr (a, e) ↦ rw (reverse_proxy, e) (asked-modified d _ a.code _)
    ]

    -- The request goes to the provider's origin, and with its body as `Sends` has it.
    abbrev pub SentTo : Target → Outbound → Served S R → Type 0
    SentTo t out s =
        (sent : Outbound) × (s.asked ≡ some sent)
        × (sent ≡ record {
          request = sent.request;
          scheme = t.origin.scheme;
          url_host = t.origin.host;
          raw_path = [];
          host = t.origin.host;
          accept_encoding = none;
          user_agent = some (agent_of out.user_agent);
        })
        × Sends anonymize (record out.request { path = t.rest }) sent.request

    -- A request whose path names no provider is answered with 404, sent nowhere and leaves the
    -- vault and the recorder alone. Any other is sent to the provider's origin under the rest of
    -- its path, with no Accept-Encoding and with some User-Agent: unchanged if it has no body or
    -- declares an empty one, with its body masked as a whole if that can be read to its end within
    -- the limit, and else with nothing of it.
    pub handle-Sends :
        (out : Outbound) (v : S) (r : R)
        → ((route out.request.path providers ≡ none)
            × (run out v r ≡ record {
              asked = none;
              vault = v;
              recorded = r;
              interim = [];
              answer = unknown_provider;
              aborted = false;
              provider = [];
              masked = 0;
            }))
          ⊎ ((t : Target) × (route out.request.path providers ≡ some t)
              × SentTo t out (run out v r))
    unfolding handle directed retarget
    handle-Sends out v r = elim (Option-cases (route out.request.path providers)) [
      | inl e ↦ inl (e, rw (handle, e) refl)
      | inr (t, e) ↦
          let d = behind t out v r in
          inr (
            t,
            e,
            subst (SentTo t out) (sym (handle-some t out v r e)) (
              d.outbound,
              asked-reverse_proxy d,
              ap (λ u. record d.outbound { user_agent = u })
                  (set_user_agent-agent_of out.user_agent),
              mask_request-Sends (record out.request { path = t.rest }) v,
            ),
          )
    ]
