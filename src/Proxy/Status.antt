-- ===== src/Proxy/Status.antt =====
-- internal/proxy/proxy.go: `statusWriter`, which keeps the status of a response for the request
-- log. The writer below is given by its operations.
pub mod First
use shinel.Base.{ℕ, List, [], ◌∷◌, Option, none, some, ◌==◌, if◌then◌else◌}

-- The `http.ResponseWriter` below, with its `http.Flusher` if it is one.
pub record Below (W : Type 0) : Type 0 where
  pub write_header : W → ℕ → W
  pub flusher : Option (W → W)

pub record StatusWriter (W : Type 0) : Type 0 where
  pub w : W
  pub code : ℕ

module _ {W : Type 0} (below : Below W) where
  unfoldable pub write_header : StatusWriter W → ℕ → StatusWriter W
  write_header s code = record {
    w = below.write_header s.w code;
    code = if s.code == 0 then code else s.code;
  }

  -- One call behind the other.
  unfoldable pub write_headers : StatusWriter W → List ℕ → StatusWriter W
  write_headers s [] = s
  write_headers s (code ∷ codes) = write_headers (write_header s code) codes

  unfoldable pub flush_status : StatusWriter W → StatusWriter W
  flush_status s = elim below.flusher [ none ↦ s | some f ↦ record s { w = f s.w } ]

-- `http.StatusOK` where no status was written.
unfoldable pub status : {W : Type 0} → StatusWriter W → ℕ
status s = if s.code == 0 then 200 else s.code
