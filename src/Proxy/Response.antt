-- ===== src/Proxy/Response.antt =====
-- internal/proxy/proxy.go: `restoreResponse` and `isEventStream`. The media type of a header value
-- is `mime.ParseMediaType`'s, `none` where that fails.
pub mod Complete
use shinel.Base.{
  ℕ, ◌+◌, ◌-◌, Bool, true, false, ◌≡◌, List, [], ◌∷◌, Option, none, some, ltb, if◌then◌else◌,
  length,
}
use shinel.Base.Bytes.{Bytes, codes, bytes_eq}
use shinel.Base.Decimal.{decimal}
use shinel.Base.Int.{ℤ, pos, negsuc}
use shinel.Proxy.Body.{Source, max_body_bytes, read_limited, exceeds}
use shinel.Proxy.Demask.{demask}
use shinel.Vault.{Reply, VaultOps}

-- A response body: the upstream's, one that a `demaskReader` restores while it is read, or bytes.
pub data ResponseBody : Type 0 where
  upstream : Source → ResponseBody
  restoring : Source → ResponseBody
  complete : Bytes → ResponseBody

pub record Response : Type 0 where
  pub content_type : Bytes
  pub content_length : ℤ
  pub length_header : Option Bytes
  pub body : ResponseBody

pub data RestoreError : Type 0 where
  declared_too_large unreadable too_large : RestoreError

pub data Restored : Type 0 where
  ok : Response → Restored
  err : RestoreError → Restored

unfoldable pub is_event_stream : (Bytes → Option Bytes) → Bytes → Bool
is_event_stream media_type content_type = elim (media_type content_type) [
  | none ↦ false
  | some base ↦ bytes_eq base (codes "text/event-stream")
]

-- The vault as the restoring writer sees it.
abbrev pub lookup_token : {S : Type 0} → VaultOps S → Option Bytes → Bytes → S → Bytes → S × Reply
lookup_token vault ctx_err req_id v token = vault.get_mapping ctx_err req_id token v

module _ {S : Type 0} (vault : VaultOps S) (ctx_err : Option Bytes) (req_id : Bytes)
    (media_type : Bytes → Option Bytes) where
  -- Behind `io.ReadAll`.
  unfoldable pub restore_body : Response → S → Bytes × Option Bytes → S × Restored
  restore_body resp v (body, some e) = (v, err unreadable)
  restore_body resp v (body, none) =
      if ltb max_body_bytes (length body)
      then (v, err too_large)
      else let (v', restored) = demask (lookup_token vault ctx_err req_id) v body in
        (
          v',
          ok (record resp {
            body = complete restored;
            content_length = pos (length restored);
            length_header = some (decimal (length restored));
          }),
        )

  unfoldable pub restore_response : Response → Source → S → S × Restored
  restore_response resp source v =
      if is_event_stream media_type resp.content_type
      then (
        v,
        ok (record resp {
          body = restoring source;
          content_length = negsuc 0;
          length_header = none;
        }),
      )
      else if exceeds resp.content_length max_body_bytes
      then (v, err declared_too_large)
      else restore_body resp v (read_limited (max_body_bytes + 1) source)
