-- ===== src/Proxy/Body.antt =====
-- internal/proxy/proxy.go: bodies of requests and responses, and how much of one is read.
pub mod Reads
use shinel.Base.{
  ℕ, ◌+◌, ◌*◌, ◌^◌, ◌≤◌, ◌<◌, ◌≡◌, Bool, true, false, List, [], Option, none, some, leb, ltb,
  if◌then◌else◌, length, take,
}
use shinel.Base.Bytes.{Bytes}
use shinel.Base.Int.{ℤ, pos, negsuc}

-- `16 << 20`.
abbrev pub max_body_bytes : ℕ
max_body_bytes = 16 * 2 ^ 20

-- A stream: what it gives, and the error that it ends with, if it does not end well.
pub record Source : Type 0 where
  pub content : Bytes
  pub failure : Option Bytes

-- `io.ReadAll(io.LimitReader(source, n))`: an error beyond the limit is not met.
unfoldable pub read_limited : ℕ → Source → Bytes × Option Bytes
read_limited n s =
    if leb n (length s.content) then (take n s.content, none) else (s.content, s.failure)

-- `length > max` for a declared length, which is -1 where it is not known.
abbrev pub exceeds : ℤ → ℕ → Bool
exceeds (pos n) m = ltb m n
exceeds (negsuc n) m = false
