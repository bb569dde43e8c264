-- ===== src/Proxy/Response/Complete.antt =====
-- What internal/proxy/proxy.go answers the client with.
use native.Mathlib.Decide.{dec_lt}
use shinel.Base.{
  ◌+◌, ◌≤◌, ◌<◌, ◌≡◌, refl, ap, ◌∙◌, true, false, Option, none, some, ltb, if◌then◌else◌, length,
  arith, length-take, take, Bool-cases, inl, inr, ◌⊎◌,
}
use shinel.Base.Bytes.{Bytes}
use shinel.Base.Int.{pos}
use shinel.Base.Decimal.{decimal}
use shinel.Proxy.Body.{Source, max_body_bytes, read_limited, exceeds}
use shinel.Proxy.Demask.{demask}
use shinel.Proxy.Response.{
  complete, Response, RestoreError, Restored, ok, err, is_event_stream, lookup_token, restore_body,
  restore_response, declared_too_large, unreadable, too_large,
}
use shinel.Proxy.Body.Reads.{IsReadable, read_small, read_large}
use shinel.Vault.{VaultOps}

module _ {S : Type 0} (vault : VaultOps S) (ctx_err : Option Bytes) (req_id : Bytes)
    (media_type : Bytes → Option Bytes) where
  abbrev shown : S → Bytes → S × Bytes
  shown = demask (lookup_token vault ctx_err req_id)

  -- The response with a restored body, and the vault behind.
  abbrev pub answered : Response → S × Bytes → S × Restored
  answered resp (v, body) = (
    v,
    ok (record resp {
      body = complete body;
      content_length = pos (length body);
      length_header = some (decimal (length body));
    }),
  )

  abbrev behind_read : Response → S → Bytes × Option Bytes → S × Restored
  behind_read = restore_body vault ctx_err req_id media_type

  abbrev run : Response → Source → S → S × Restored
  run = restore_response vault ctx_err req_id media_type

  -- What becomes of a response that is no event stream.
  abbrev pub Outcome : Response → Source → S → Type 0
  Outcome resp source v =
      (IsReadable source resp.content_length
        × (run resp source v ≡ answered resp (shown v source.content)))
      ⊎ (¬ (IsReadable source resp.content_length)
          × ((e : RestoreError) × (run resp source v ≡ (v, err e))))

  restore_step :
      (resp : Response) (source : Source) (v : S)
      → is_event_stream media_type resp.content_type ≡ false
      → run resp source v ≡ (
          if exceeds resp.content_length max_body_bytes
          then (v, err declared_too_large)
          else behind_read resp v (read_limited (max_body_bytes + 1) source))
  unfolding restore_response
  restore_step resp source v h = rw h

  restore_body_small :
      (resp : Response) (v : S) (body : Bytes)
      → length body ≤ max_body_bytes
      → behind_read resp v (body, none) ≡ answered resp (shown v body)
  unfolding restore_body
  restore_body_small resp v body h =
      let e : ltb max_body_bytes (length body) ≡ false = ground arith in rw e

  restore_body_large :
      (resp : Response) (v : S) (body : Bytes)
      → max_body_bytes < length body
      → behind_read resp v (body, none) ≡ (v, err too_large)
  unfolding restore_body
  restore_body_large resp v body h =
      let e : ltb max_body_bytes (length body) ≡ true = ground arith in rw e

  restore_body_failed :
      (resp : Response) (v : S) (body why : Bytes)
      → behind_read resp v (body, some why) ≡ (v, err unreadable)
  unfolding restore_body
  restore_body_failed resp v body why = refl

  Outcome-read :
      (resp : Response) (source : Source) (v : S)
      → is_event_stream media_type resp.content_type ≡ false
      → exceeds resp.content_length max_body_bytes ≡ false
      → length source.content ≤ max_body_bytes
      → (f : Option Bytes) → source.failure ≡ f
      → Outcome resp source v
  Outcome-read resp source v h d small none e = inl (
    record { declared = d; small = small; whole = e },
    restore_step resp source v h
        ∙ rw d (
            ap (behind_read resp v) (read_small source small ∙ ap (λ f. (source.content, f)) e)
            ∙ restore_body_small resp v source.content small),
  )
  Outcome-read resp source v h d small (some why) e = inr (
    λ r. cc (r.whole, e),
    (
      unreadable,
      restore_step resp source v h
          ∙ rw d (
              ap (behind_read resp v) (read_small source small ∙ ap (λ f. (source.content, f)) e)
              ∙ restore_body_failed resp v source.content why),
    ),
  )

  Outcome-large :
      (resp : Response) (source : Source) (v : S)
      → is_event_stream media_type resp.content_type ≡ false
      → exceeds resp.content_length max_body_bytes ≡ false
      → max_body_bytes < length source.content
      → Outcome resp source v
  Outcome-large resp source v h d large = inr (
    λ r. absurd (omega (arith, r.small)),
    (
      too_large,
      restore_step resp source v h
          ∙ rw d (
              ap (behind_read resp v) (read_large source large)
              ∙ restore_body_large resp v (take (max_body_bytes + 1) source.content)
                  (omega (arith, length-take (max_body_bytes + 1) source.content))),
    ),
  )

  -- A response that is no event stream is answered, if its body can be read to its end within the
  -- limit, with the whole body restored and its new length declared, and else with an error.
  pub restore_response-answered_or_error :
      (resp : Response) (source : Source) (v : S)
      → is_event_stream media_type resp.content_type ≡ false
      → Outcome resp source v
  restore_response-answered_or_error resp source v h =
      elim (Bool-cases (exceeds resp.content_length max_body_bytes)) [
        | inl over ↦ inr (
          λ r. cc (r.declared, over),
          (declared_too_large, restore_step resp source v h ∙ rw over),
        )
        | inr fits ↦ elim (dec_lt max_body_bytes (length source.content)) [
          | yes large ↦ Outcome-large resp source v h fits large
          | no small ↦ Outcome-read resp source v h fits (omega arith) source.failure refl
        ]
      ]
