-- ===== src/Proxy/Request.antt =====
-- internal/proxy/proxy.go: `maskRequest` and `setBody`. The context gives the request's name and
-- `ctx.Err()`; the analyzer is its `Anonymize`.
pub mod FailSafe
pub mod Saved
use shinel.Base.{
  ℕ, zero, ◌+◌, Bool, true, false, List, [], ◌∷◌, Option, none, some, ltb, if◌then◌else◌, length,
}
use shinel.Base.Bytes.{Bytes}
use shinel.Base.Decimal.{decimal}
use shinel.Base.Int.{ℤ, pos, negsuc}
use shinel.Base.Maps.{Map}
use shinel.Proxy.Body.{Source, max_body_bytes, read_limited, exceeds}
use shinel.Vault.{VaultOps}

-- The fields of an outbound request that the director reads or writes. `get_body` is what
-- `GetBody` gives again, and `length_header` the header Content-Length.
pub record Request : Type 0 where
  pub method : Bytes
  pub path : Bytes
  pub body : Option Source
  pub get_body : Option Bytes
  pub content_length : ℤ
  pub length_header : Option Bytes

unfoldable pub set_body : Request → Bytes → Request
set_body req body = record req {
  body = some (record { content = body; failure = none });
  get_body = some body;
  content_length = pos (length body);
  length_header = some (decimal (length body));
}

-- What `maskRequest` leaves behind: the request, the vault, and the mapping that the deferred
-- function counts and records.
pub record Masked (S : Type 0) : Type 0 where
  pub request : Request
  pub vault : S
  pub mapping : Map Bytes

module _ {S : Type 0} (vault : VaultOps S) (ctx_err : Option Bytes) (req_id : Bytes) where
  -- The loop over the mapping: an error of `SaveMapping` is logged and passed over.
  unfoldable pub save_all : Map Bytes → S → S
  save_all [] v = v
  save_all ((token, value) ∷ m) v = save_all m (vault.save_mapping ctx_err req_id token value v).0

  module _ (anonymize : Bytes → Bytes × Map Bytes) where
    -- Behind `io.ReadAll`.
    unfoldable pub mask_body : Request → S → Bytes × Option Bytes → Masked S
    mask_body req v (body, some e) = record { request = set_body req []; vault = v; mapping = [] }
    mask_body req v (body, none) =
        if ltb max_body_bytes (length body)
        then record { request = set_body req []; vault = v; mapping = [] }
        else let (masked, mapping) = anonymize body in
          record { request = set_body req masked; vault = save_all mapping v; mapping = mapping }

    -- Where there is a body, with the declared length `n`.
    unfoldable pub mask_source : Request → S → Source → ℤ → Masked S
    mask_source req v source (pos zero) = record { request = req; vault = v; mapping = [] }
    mask_source req v source n =
        if exceeds n max_body_bytes
        then record { request = set_body req []; vault = v; mapping = [] }
        else mask_body req v (read_limited (max_body_bytes + 1) source)

    unfoldable pub mask_request : Request → S → Masked S
    mask_request req v = elim req.body [
      | none ↦ record { request = req; vault = v; mapping = [] }
      | some source ↦ mask_source req v source req.content_length
    ]
