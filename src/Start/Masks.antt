-- ===== src/Start/Masks.antt =====
-- What the proxy that cmd/shinel/main.go runs lets out of a request's body.
use shinel.Base.{ℕ, ◌≡◌, List, [], Option, none, some}
use shinel.Base.Bytes.{Bytes}
use shinel.Base.Int.{pos}
use shinel.Base.Maps.{Map}
use shinel.Analyzer.Collect.{Detectors, detect, anonymize_text}
use shinel.Analyzer.Collect.Fit.{HitsInside}
use shinel.Analyzer.Json.{Json, anonymize}
use shinel.Analyzer.Json.Parse.{parse_json, marshal_json}
use shinel.Analyzer.Json.Walk.{Sent}
use shinel.Analyzer.MlClient.{MlHttp}
use shinel.Analyzer.Session.{Session}
use shinel.Analyzer.Span.{Span}
use shinel.Proxy.Body.{Source}
use shinel.Proxy.Body.Reads.{IsReadable}
use shinel.Proxy.Request.{Request, Masked, set_body, save_all}
use shinel.Start.{Running, engine_with}
use shinel.Vault.{VaultOps}

module _ (to_lower : Bytes → Bytes) (decode : Bytes → Option (Json × Bytes))
    (encode : Json → Option Bytes) where
  abbrev pub Mask : Type 0
  Mask = Bytes → Session → Session × Bytes

  -- `Anonymize`, with the text in front of the mapping, over `anonymizeText`.
  abbrev pub anonymizer : Mask → Bytes → Bytes × Map Bytes
  anonymizer mask text =
      let (m, sent) = anonymize to_lower mask (parse_json decode) (marshal_json encode) text in
      (sent, m)

module _ (d : Detectors) (new_matcher : List Bytes → Bytes → List ℕ) (http : MlHttp)
    (to_lower : Bytes → Bytes) (decode : Bytes → Option (Json × Bytes))
    (encode : Json → Option Bytes) (found : Bytes → List Span) where
  abbrev masking : (Bytes → Session → Session × Bytes) → Bytes → Bytes × Map Bytes
  masking mask = anonymizer to_lower decode encode mask

  module _ {S : Type 0} (vault : VaultOps S) (ctx_err : Option Bytes) (req_id : Bytes) where
    -- What becomes of a request's body, and of the vault: it is missing or declared empty; or it
    -- goes out as `Sent` has it, with the mapping filed for the request; or nothing of it does.
    pub data LetsOut (req : Request) (v : S) (sent : Request) (left : S) : Type 0 where
      missing : req.body ≡ none → sent ≡ req → left ≡ v → LetsOut req v sent left
      empty : req.content_length ≡ pos 0 → sent ≡ req → left ≡ v → LetsOut req v sent left
      as_masked :
          (source : Source) (m : Map Bytes) (text : Bytes)
          → req.body ≡ some source
          → IsReadable source req.content_length
          → Sent to_lower found
              (marshal_json encode)
              source.content
              (parse_json decode source.content)
              (m, text)
          → sent ≡ set_body req text
          → left ≡ save_all vault ctx_err req_id m v
          → LetsOut req v sent left
      nothing :
          (source : Source)
          → req.body ≡ some source
          → ¬ (IsReadable source req.content_length)
          → sent ≡ set_body req []
          → left ≡ v
          → LetsOut req v sent left

  module _ (hits : HitsInside new_matcher) (r : Running)
      (finds : (t : Bytes) → detect d (engine_with d new_matcher http r) t ≡ some (found t))
      (mask : Bytes → Session → Session × Bytes)
      (masks : (t : Bytes) (sess : Session)
        → anonymize_text d (engine_with d new_matcher http r) t sess ≡ some (mask t sess)) where
    module _ {S : Type 0} (vault : VaultOps S) (ctx_err : Option Bytes) (req_id : Bytes) where
      abbrev Lets : Request → S → Masked S → Type 0
      Lets req v m = LetsOut vault ctx_err req_id req v m.request m.vault
