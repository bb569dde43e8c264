-- ===== src/Proxy/Body/Reads.antt =====
-- What `io.ReadAll` of a limited body gives, for internal/proxy/proxy.go.
use shinel.Base.{◌+◌, ◌≤◌, ◌<◌, ◌≡◌, true, false, none, leb, length, arith, take}
use shinel.Base.Int.{ℤ}
use shinel.Proxy.Body.{Source, max_body_bytes, read_limited, exceeds}

-- The body can be read to its end and is not too large.
pub record IsReadable (source : Source) (n : ℤ) : Type 0 where
  pub declared : exceeds n max_body_bytes ≡ false
  pub small : length source.content ≤ max_body_bytes
  pub whole : source.failure ≡ none

pub read_small :
    (source : Source)
    → length source.content ≤ max_body_bytes
    → read_limited (max_body_bytes + 1) source ≡ (source.content, source.failure)
unfolding read_limited
read_small source h =
    let e : leb (max_body_bytes + 1) (length source.content) ≡ false = ground arith in rw e

pub read_large :
    (source : Source)
    → max_body_bytes < length source.content
    → read_limited (max_body_bytes + 1) source ≡ (take (max_body_bytes + 1) source.content, none)
unfolding read_limited
read_large source h =
    let e : leb (max_body_bytes + 1) (length source.content) ≡ true = ground arith in rw e
