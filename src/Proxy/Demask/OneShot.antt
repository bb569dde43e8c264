-- ===== src/Proxy/Demask/OneShot.antt =====
-- What `demask` of internal/proxy/demask.go returns.
use shinel.Base.{ℕ, [], ◌∷◌, ◌++◌, ◌≡◌, refl, none, arith, length, append-nil}
use shinel.Base.Bytes.{Bytes}
use shinel.Proxy.Demask.{buffer_sink, demask}
use shinel.Proxy.Stream.{Writer, feed_all, deliver, write, flush, close_buf, close}
use shinel.Proxy.Stream.Feed.{idle}
use shinel.Proxy.Stream.Restore.{feed_all-Finishes}
use shinel.Proxy.Stream.Spec.{Restores}
use shinel.Vault.{Reply}

module _ {V : Type 0} (get_mapping : V → Bytes → V × Reply) where
  -- Delivering to the buffer puts the bytes behind those that are there.
  pub deliver_to_buffer :
      (s : Writer V Bytes) (out : Bytes) (n : ℕ)
      → deliver get_mapping buffer_sink s out n ≡ (record s { w = s.w ++ out }, n, none)
  unfolding deliver
  deliver_to_buffer s [] n = rw append-nil
  deliver_to_buffer s (b ∷ out) n = refl

  pub close_to_buffer :
      (s : Writer V Bytes) (held : Bytes)
      → s.buf ≡ held
      → close_buf get_mapping buffer_sink s held ≡ (record s { w = s.w ++ held; buf = [] }, none)
  unfolding close_buf flush
  close_to_buffer s [] e = rw append-nil (λ i. (record s { buf = e i }, none))
  close_to_buffer s (b ∷ held) e = refl

  -- One call of `Write` over the buffer, from a writer with no error.
  pub write_to_buffer :
      (w : Bytes) (v : V) (buf p : Bytes)
      → let s = feed_all get_mapping (record { buf = buf; vault = v; out = [] }) p in
        write get_mapping buffer_sink (record { w = w; vault = v; buf = buf; err = none }) p
        ≡ (record { w = w ++ s.out; vault = s.vault; buf = s.buf; err = none }, length p, none)
  unfolding write
  write_to_buffer w v buf p = deliver_to_buffer _ _ _

  pub close_after_write :
      (w : Bytes) (v : V) (buf : Bytes)
      → close get_mapping buffer_sink (record { w = w; vault = v; buf = buf; err = none })
        ≡ (record { w = w ++ buf; vault = v; buf = []; err = none }, none)
  unfolding close
  close_after_write w v buf = close_to_buffer _ buf refl

  -- The result of `demask`, by the loop.
  pub demask-feed_all :
      (v : V) (body : Bytes)
      → let s = feed_all get_mapping (record { buf = []; vault = v; out = [] }) body in
        demask get_mapping v body ≡ (s.vault, s.out ++ s.buf)
  unfolding demask
  demask-feed_all v body =
      let s = feed_all get_mapping (record { buf = []; vault = v; out = [] }) body in
      ground (arith, write_to_buffer [] v [] body, close_after_write s.out s.vault s.buf)

  -- `demask` replaces, from the left, each token of at most 64 bytes by what the vault has for it,
  -- escaped for JSON, and leaves every other byte of the body alone.
  pub demask-Restores :
      (v : V) (body : Bytes)
      → Restores get_mapping (demask get_mapping v body).0 v body (demask get_mapping v body).1
  demask-Restores v body =
      let f = feed_all-Finishes get_mapping body [] v [] idle in
      rw demask-feed_all (rw f.written f.restores)
