-- ===== src/Proxy/Request/FailSafe.antt =====
-- What internal/proxy/proxy.go sends upstream for a request with a body.
use native.Mathlib.Decide.{dec_lt}
use shinel.Base.{
  zero, suc, ◌+◌, ◌≤◌, ◌<◌, ◌≡◌, ◌≢◌, ◌⊎◌, refl, ap, ◌∙◌, true, false, [], Option, none, some, ltb,
  if◌then◌else◌, length, arith, inl, inr, Bool-cases, length-take, take,
}
use shinel.Base.Bytes.{Bytes}
use shinel.Base.Int.{ℤ, pos, negsuc}
use shinel.Base.Maps.{Map}
use shinel.Proxy.Body.{Source, max_body_bytes, read_limited, exceeds}
use shinel.Proxy.Body.Reads.{IsReadable, read_small, read_large}
use shinel.Proxy.Request.{Request, set_body, Masked, save_all, mask_body, mask_source}
use shinel.Vault.{VaultOps}

abbrev pub dropped : {S : Type 0} → Request → S → Masked S
dropped req v = record { request = set_body req []; vault = v; mapping = [] }

module _ {S : Type 0} (vault : VaultOps S) (ctx_err : Option Bytes) (req_id : Bytes)
    (anonymize : Bytes → Bytes × Map Bytes) where
  -- The request with its body masked, and the mapping saved.
  abbrev pub masked : Request → S → Bytes → Masked S
  masked req v body = record {
    request = set_body req (anonymize body).0;
    vault = save_all vault ctx_err req_id (anonymize body).1 v;
    mapping = (anonymize body).1;
  }

  abbrev run : Request → S → Source → ℤ → Masked S
  run = mask_source vault ctx_err req_id anonymize

  abbrev behind_read : Request → S → Bytes × Option Bytes → Masked S
  behind_read = mask_body vault ctx_err req_id anonymize

  mask_source_step :
      (req : Request) (v : S) (source : Source) (n : ℤ)
      → n ≢ pos 0
      → run req v source n ≡ (
          if exceeds n max_body_bytes
          then dropped req v
          else behind_read req v (read_limited (max_body_bytes + 1) source))
  unfolding mask_source
  mask_source_step req v source (pos zero) h = absurd (h refl)
  mask_source_step req v source (pos (suc n)) h = refl
  mask_source_step req v source (negsuc n) h = refl

  mask_body_small :
      (req : Request) (v : S) (body : Bytes)
      → length body ≤ max_body_bytes
      → behind_read req v (body, none) ≡ masked req v body
  unfolding mask_body
  mask_body_small req v body h =
      let e : ltb max_body_bytes (length body) ≡ false = ground arith in rw e

  mask_body_large :
      (req : Request) (v : S) (body : Bytes)
      → max_body_bytes < length body
      → behind_read req v (body, none) ≡ dropped req v
  unfolding mask_body
  mask_body_large req v body h =
      let e : ltb max_body_bytes (length body) ≡ true = ground arith in rw e

  mask_body_failed :
      (req : Request) (v : S) (body why : Bytes)
      → behind_read req v (body, some why) ≡ dropped req v
  unfolding mask_body
  mask_body_failed req v body why = refl

  -- What becomes of a body.
  abbrev pub Outcome : Request → S → Source → ℤ → Type 0
  Outcome req v source n =
      (IsReadable source n × (run req v source n ≡ masked req v source.content))
      ⊎ (¬ (IsReadable source n) × (run req v source n ≡ dropped req v))

  Outcome-read :
      (req : Request) (v : S) (source : Source) (n : ℤ)
      → n ≢ pos 0
      → exceeds n max_body_bytes ≡ false
      → length source.content ≤ max_body_bytes
      → (f : Option Bytes) → source.failure ≡ f
      → Outcome req v source n
  Outcome-read req v source n h d small none e = inl (
    record { declared = d; small = small; whole = e },
    mask_source_step req v source n h
        ∙ rw d (
            ap (behind_read req v) (read_small source small ∙ ap (λ f. (source.content, f)) e)
            ∙ mask_body_small req v source.content small),
  )
  Outcome-read req v source n h d small (some why) e = inr (
    λ r. cc (r.whole, e),
    mask_source_step req v source n h
        ∙ rw d (
            ap (behind_read req v) (read_small source small ∙ ap (λ f. (source.content, f)) e)
            ∙ mask_body_failed req v source.content why),
  )

  Outcome-large :
      (req : Request) (v : S) (source : Source) (n : ℤ)
      → n ≢ pos 0
      → exceeds n max_body_bytes ≡ false
      → max_body_bytes < length source.content
      → Outcome req v source n
  Outcome-large req v source n h d large = inr (
    λ r. absurd (omega (arith, r.small)),
    mask_source_step req v source n h
        ∙ rw d (
            ap (behind_read req v) (read_large source large)
            ∙ mask_body_large req v (take (max_body_bytes + 1) source.content)
                (omega (arith, length-take (max_body_bytes + 1) source.content))),
  )

  -- A body that is not declared empty is sent upstream masked as a whole, its mapping saved, if it
  -- can be read to its end and is not over the limit; else nothing of it is sent.
  pub mask_source-masked_or_dropped :
      (req : Request) (v : S) (source : Source) (n : ℤ) → n ≢ pos 0 → Outcome req v source n
  mask_source-masked_or_dropped req v source n h = elim (Bool-cases (exceeds n max_body_bytes)) [
    | inl over ↦ inr (λ r. cc (r.declared, over), mask_source_step req v source n h ∙ rw over)
    | inr fits ↦ elim (dec_lt max_body_bytes (length source.content)) [
      | yes large ↦ Outcome-large req v source n h fits large
      | no small ↦ Outcome-read req v source n h fits (omega arith) source.failure refl
    ]
  ]
