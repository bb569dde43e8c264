-- ===== src/Proxy/Stream/Header.antt =====
-- internal/proxy/streaming.go: `Header` and `WriteHeader` of `StreamingResponseWriter`. The
-- `http.ResponseWriter` below is given by the operations that they use.
use shinel.Base.{ℕ, Option}
use shinel.Base.Bytes.{Bytes, codes}
use shinel.Proxy.Stream.{Writer}

-- Its headers, with `Del` on them, and `WriteHeader`.
pub record HeaderOps (W : Type 0) : Type 0 where
  pub headers : W → Bytes → Option Bytes
  pub delete : W → Bytes → W
  pub write_header : W → ℕ → W

module _ {V W : Type 0} (below : HeaderOps W) where
  unfoldable pub header : Writer V W → Bytes → Option Bytes
  header s = below.headers s.w

  unfoldable pub write_header : Writer V W → ℕ → Writer V W
  write_header s code = record s {
    w = below.write_header (below.delete s.w (codes "Content-Length")) code;
  }
