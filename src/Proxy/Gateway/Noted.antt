-- ===== src/Proxy/Gateway/Noted.antt =====
-- What internal/proxy/proxy.go notes of a request: the recorder's event and the line of the log.
use shinel.Base.{◌≡◌, [], Option, none, some, length, if◌then◌else◌}
use shinel.Base.Bytes.{Bytes}
use shinel.Base.Maps.{Map}
use shinel.Proxy.Body.{Source}
use shinel.Proxy.Body.Reads.{IsReadable}
use shinel.Proxy.Gateway.{
  Outbound, Directed, Exchanged, Served, LogLine, code_of, copy_fails, reverse_proxy, handle,
}
use shinel.Proxy.Gateway.Sends.{masked}
use shinel.Proxy.Request.{Request, Masked, mask_request}
use shinel.Proxy.Route.{Origin, Target}
use shinel.Proxy.Status.First.{first_status}
use shinel.Vault.{VaultOps}

-- The mapping that is noted for a request: that of its whole body, or none where nothing of it was
-- masked.
pub data NotedMapping (anonymize : Bytes → Bytes × Map Bytes) (req : Request) (m : Map Bytes)
    : Type 0 where
  of_body :
      (source : Source)
      → req.body ≡ some source
      → IsReadable source req.content_length
      → m ≡ (anonymize source.content).1
      → NotedMapping anonymize req m
  of_nothing : m ≡ [] → NotedMapping anonymize req m

module _ {S : Type 0} (vault : VaultOps S) (ctx_err : Option Bytes) (req_id : Bytes)
    (anonymize : Bytes → Bytes × Map Bytes) where
  abbrev mask : Request → S → Masked S
  mask = mask_request vault ctx_err req_id anonymize

  module _ {R : Type 0} (record_it : Bytes → Bytes → Map Bytes → R → R) (providers : Map Origin)
      (media_type : Bytes → Option Bytes) (upstream : Outbound → Exchanged) where
    abbrev run : Outbound → S → R → Served S R
    run = handle vault ctx_err req_id anonymize (some record_it) providers media_type upstream

    abbrev back : Directed S R → Served S R
    back =
        reverse_proxy vault ctx_err req_id anonymize (some record_it) providers media_type upstream

    -- What the director told the log stays, the statuses 1xx are those of the exchange, and the
    -- handler panics where the answer's body cannot be copied to its end.
    record Kept (d : Directed S R) (ex : Exchanged) (s : Served S R) : Type 0 where
      asked : s.asked ≡ some d.outbound
      interim : s.interim ≡ ex.interim
      aborted : s.aborted ≡ copy_fails ex.taken s.answer
      provider : s.provider ≡ d.provider
      masked : s.masked ≡ d.masked
      recorded : s.recorded ≡ d.recorded

    -- The line of the log, and the recorder behind, for a request to a provider.
    abbrev pub Notes : Target → Outbound → R → Served S R × Option LogLine → Type 0
    Notes t out r x =
        (m : Map Bytes) × (sent : Outbound) × NotedMapping anonymize
          (record out.request { path = t.rest }) m
        × (x.0.recorded ≡ record_it out.request.method t.rest m r)
        × (x.0.asked ≡ some sent)
        × (x.1 ≡ (
            if copy_fails (upstream sent).taken x.0.answer
            then none
            else some (record {
              method = out.request.method;
              path = out.request.path;
              provider = t.name;
              status = first_status (upstream sent).interim (code_of x.0.answer);
              masked = length m;
            })))
