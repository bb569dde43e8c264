-- ===== src/Proxy/Demask/Chunked.antt =====
-- Restoring a body chunk by chunk, as internal/proxy/streaming.go does, and in one shot, as
-- internal/proxy/demask.go does, come to the same.
use shinel.Base.{
  List, [], ◌∷◌, ◌++◌, ◌≡◌, refl, sym, ap, ap₂, ◌∙◌, none, append-nil, append_assoc, ◌≢◌,
}
use shinel.Base.Bytes.{Bytes}
use shinel.Proxy.Demask.{buffer_sink, demask}
use shinel.Proxy.Demask.OneShot.{
  write_to_buffer, close_after_write, demask-feed_all, demask-Restores,
}
use shinel.Proxy.Stream.{Writer, new_writer, restored, resolve, feed_all, write, close}
use shinel.Proxy.Stream.Chunks.{behind, feed_all-append, feed_all-behind}
use shinel.Proxy.Stream.Spec.{Restores, done, token, byte}
use shinel.Proxy.Token.{IsToken}
use shinel.Vault.{Reply, value, not_found, failed}

abbrev pub flatten : List Bytes → Bytes
flatten [] = []
flatten (p ∷ ps) = p ++ flatten ps

module _ {V : Type 0} (get_mapping : V → Bytes → V × Reply) where
  -- The calls of `Write` that deliver the chunks of a body in turn.
  abbrev pub write_all : Writer V Bytes → List Bytes → Writer V Bytes
  write_all s [] = s
  write_all s (p ∷ ps) = write_all (write get_mapping buffer_sink s p).0 ps

  pub feed_all-flatten :
      (p q buf : Bytes) (v : V)
      → let s = feed_all get_mapping (record { buf = buf; vault = v; out = [] }) p in
        feed_all get_mapping (record { buf = buf; vault = v; out = [] }) (p ++ q)
        ≡ behind s.out (feed_all get_mapping (record s { out = [] }) q)
  feed_all-flatten p q buf v =
      let s = feed_all get_mapping (record { buf = buf; vault = v; out = [] }) p in
      feed_all-append get_mapping p q (record { buf = buf; vault = v; out = [] })
      ∙ ap (λ (o : Bytes). feed_all get_mapping (record s { out = o }) q) (sym (append-nil s.out))
      ∙ feed_all-behind get_mapping q s.out (record s { out = [] })

  write_all_state :
      (ps : List Bytes) (w buf : Bytes) (v : V)
      → let s = feed_all get_mapping (record { buf = buf; vault = v; out = [] }) (flatten ps) in
        write_all (record { w = w; vault = v; buf = buf; err = none }) ps
        ≡ record { w = w ++ s.out; vault = s.vault; buf = s.buf; err = none }
  write_all_state [] w buf v = unfold feed_all in rw append-nil
  write_all_state (p ∷ ps) w buf v =
      let s = feed_all get_mapping (record { buf = buf; vault = v; out = [] }) p in
      rw (write_to_buffer, feed_all-flatten)
        (write_all_state ps (w ++ s.out) s.buf s.vault ∙ rw append_assoc)

  -- However the body is cut into chunks, the bytes delivered by the end of the stream, and the
  -- vault, are those of `demask` on the whole body.
  pub chunks-demask :
      (ps : List Bytes) (v : V)
      → let (s, e) = close get_mapping buffer_sink (write_all (new_writer v []) ps) in
        (s.vault, s.w) ≡ demask get_mapping v (flatten ps)
  chunks-demask ps v =
      rw (write_all_state, close_after_write) (sym (demask-feed_all get_mapping v (flatten ps)))

  resolve_unknown :
      (v : V) (t : Bytes)
      → ((x : Bytes) → (get_mapping v t).1 ≢ value x)
      → (resolve get_mapping v t).1 ≡ t
  unfolding resolve
  resolve_unknown v t h = go (get_mapping v t).1 h
    where
      go : (r : Reply) → ((x : Bytes) → r ≢ value x) → restored t r ≡ t
      go (value x) h = absurd (h x refl)
      go not_found h = refl
      go (failed e) h = refl

  unchanged :
      {last v : V} {text shown : Bytes}
      → ((u : V) (t x : Bytes) → IsToken t → (get_mapping u t).1 ≢ value x)
      → Restores get_mapping last v text shown
      → shown ≡ text
  unchanged h (done e) = refl
  unchanged h (token {v} {t} i l e r s) =
      s ∙ ap₂ ◌++◌ (resolve_unknown v t (λ x. h v t x i)) (unchanged h r) ∙ sym e
  unchanged h (byte {b} n r) = ap (◌∷◌ b) (unchanged h r)

  -- Where the vault finds none of the tokens, or fails, `demask` returns the body as it is.
  pub demask-unknown :
      (v : V) (body : Bytes)
      → ((u : V) (t x : Bytes) → IsToken t → (get_mapping u t).1 ≢ value x)
      → (demask get_mapping v body).1 ≡ body
  demask-unknown v body h = unchanged h (demask-Restores get_mapping v body)
