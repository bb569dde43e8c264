-- ===== src/Proxy/Status/First.antt =====
-- The status that internal/proxy/proxy.go logs: the first one that is written.
use shinel.Base.{ℕ, zero, suc, ◌≡◌, ◌==◌, List, [], ◌∷◌, arith, if◌then◌else◌}
use shinel.Proxy.Status.{Below, StatusWriter, write_header, write_headers, status}

-- The first of the statuses and of the last one; 0 is none, and 200 is for none at all.
abbrev pub first_status : List ℕ → ℕ → ℕ
first_status [] last = if last == 0 then 200 else last
first_status (zero ∷ codes) last = first_status codes last
first_status (suc n ∷ codes) last = suc n

module _ {W : Type 0} (below : Below W) where
  -- A status that was written stays.
  status-written :
      (codes : List ℕ) (last : ℕ) (s : StatusWriter W) (n : ℕ)
      → s.code ≡ suc n
      → status (write_header below (write_headers below s codes) last) ≡ suc n
  unfolding status write_header write_headers
  status-written [] last s n e = ground (arith, e)
  status-written (code ∷ codes) last s n e =
      status-written codes last (write_header below s code) n (ground (arith, e))

  -- Behind any statuses and a last one the status to log is the first of them.
  pub status-write_headers :
      (codes : List ℕ) (last : ℕ) (s : StatusWriter W)
      → s.code ≡ 0
      → status (write_header below (write_headers below s codes) last) ≡ first_status codes last
  unfolding status write_header write_headers
  status-write_headers [] last s e = ground (arith, e)
  status-write_headers (zero ∷ codes) last s e =
      status-write_headers codes last (write_header below s 0) (ground (arith, e))
  status-write_headers (suc n ∷ codes) last s e =
      status-written codes last (write_header below s (suc n)) n (ground (arith, e))
