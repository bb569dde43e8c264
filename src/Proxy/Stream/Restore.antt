-- ===== src/Proxy/Stream/Restore.antt =====
-- The writer of internal/proxy/streaming.go restores the text that goes through it.
use shinel.Base.{
  ℕ, inl, inr, [], ◌∷◌, ◌++◌, ◌≡◌, ◌≢◌, refl, sym, ap, ◌∙◌, arith, length-append, append-nil,
  append_assoc, ◌==◌, Bool-cases, ==_iff,
}
use shinel.Base.Bytes.{Bytes}
use shinel.Proxy.Stream.{Scan, resolve, feed_on, feed_all}
use shinel.Proxy.Stream.Spec.{Restores, done, token, byte}
use shinel.Proxy.Stream.Feed.{
  Candidate, Pending, idle, held, first_byte, Round, completes, reopens, dies, overflows, holds,
  Round-cases,
}
use shinel.Proxy.Stream.Positions.{
  no_token_off_bracket, no_token_at_end, no_token_when_dead, no_token_when_long,
  advance_all-NoBracket, Restores-quiet,
}
use shinel.Proxy.Token.Automaton.{opened}
use shinel.Vault.{Reply}

module _ {V : Type 0} (get_mapping : V → Bytes → V × Reply) where
  -- What the rest of a stream comes to, from a state of the loop: `s.out` grows by `shown`, which
  -- restores what was held back and the rest.
  pub record Finishes (s : Scan V) (p : Bytes) : Type 0 where
    pub shown : Bytes
    pub written : (feed_all get_mapping s p).out ++ (feed_all get_mapping s p).buf ≡ s.out ++ shown
    pub restores : Restores get_mapping (feed_all get_mapping s p).vault s.vault (s.buf ++ p) shown

  abbrev at : Bytes → V → Bytes → Scan V
  at buf v out = record { buf = buf; vault = v; out = out }

  -- A round that writes `chunk`, in front of the rest.
  carry :
      {s s' : Scan V} {b : ℕ} {p : Bytes} (chunk : Bytes)
      → feed_on get_mapping s.buf s b ≡ s'
      → (f : Finishes s' p) → s'.out ≡ s.out ++ chunk
      → Restores get_mapping
          (feed_all get_mapping s' p).vault
          s.vault
          (s.buf ++ b ∷ p)
          (chunk ++ f.shown)
      → Finishes s (b ∷ p)
  unfolding feed_all
  carry {s} chunk e f g r = record {
    shown = chunk ++ f.shown;
    written =
        rw (feed_all, e) (f.written ∙ ap (λ o. o ++ f.shown) g ∙ append_assoc s.out chunk f.shown);
    restores = rw (feed_all, e) r;
  }

  Finishes-now : {buf : Bytes} (v : V) (out : Bytes) → Pending buf → Finishes (at buf v out) []
  unfolding feed_all
  Finishes-now v out idle = record { shown = []; written = refl; restores = done refl }
  Finishes-now v out (held {r} c) = record {
    shown = b'[' ∷ r ++ [];
    written = rw append-nil;
    restores =
        byte (rw append-nil (no_token_at_end r c.phase c.reads c.unfinished))
          (Restores-quiet (advance_all-NoBracket opened r c.reads) (done refl));
  }

  off_candidate :
      (v : V) (out : Bytes) (b : ℕ) (p : Bytes)
      → b ≢ b'['
      → Finishes (at [] v (out ++ b ∷ [])) p
      → Finishes (at [] v out) (b ∷ p)
  unfolding feed_on
  off_candidate v out b p n f =
      carry (b ∷ []) (ground arith) f refl (byte (no_token_off_bracket n) f.restores)

  on_bracket :
      (v : V) (out : Bytes) (p : Bytes)
      → Finishes (at (b'[' ∷ []) v out) p
      → Finishes (at [] v out) (b'[' ∷ p)
  unfolding feed_on
  on_bracket v out p f = carry [] refl f (sym (append-nil out)) f.restores

  -- Behind a round with a candidate held back, by the way that it ended.
  after-Round :
      {s' : Scan V} {r : Bytes} {b : ℕ} {v : V} {out : Bytes} (p : Bytes)
      → Candidate r
      → feed_on get_mapping (b'[' ∷ r) (at (b'[' ∷ r) v out) b ≡ s'
      → Round get_mapping (at (b'[' ∷ r) v out) r b s'
      → ((buf : Bytes) (v' : V) (out' : Bytes) → Pending buf → Finishes (at buf v' out') p)
      → Finishes (at (b'[' ∷ r) v out) (b ∷ p)
  after-Round {r} {b} {v} {out} p c e (completes t q) ih =
      let f =
        ih [] (resolve get_mapping v (b'[' ∷ r ++ b ∷ [])).0
          (out ++ (resolve get_mapping v (b'[' ∷ r ++ b ∷ [])).1) idle in
      carry _ (e ∙ q) f refl (
        token t (omega (arith, c.short, length-append r (b ∷ [])))
          (ap (◌∷◌ b'[') (sym (append_assoc r (b ∷ []) p))) f.restores refl)
  after-Round {r} {b} {v} {out} p c e (reopens dead x q) ih =
      let f = ih (b'[' ∷ []) v (out ++ b'[' ∷ r) (held first_byte) in
      carry (b'[' ∷ r) (e ∙ q) f refl (
        byte (no_token_when_dead r b p c.phase c.reads c.unfinished dead)
          (Restores-quiet (advance_all-NoBracket opened r c.reads) (rw x f.restores)))
  after-Round {r} {b} {v} {out} p c e (dies dead x q) ih =
      let f = ih [] v (out ++ (b'[' ∷ r ++ b ∷ [])) idle in
      carry (b'[' ∷ r ++ b ∷ []) (e ∙ q) f refl (
        rw append_assoc (
          byte (no_token_when_dead r b p c.phase c.reads c.unfinished dead) (
            Restores-quiet (advance_all-NoBracket opened r c.reads)
              (byte (no_token_off_bracket x) f.restores))))
  after-Round {r} {b} {v} {out} p c e (overflows {q = k} reads unfinished long q) ih =
      let f = ih [] v (out ++ (b'[' ∷ r ++ b ∷ [])) idle in
      carry (b'[' ∷ r ++ b ∷ []) (e ∙ q) f refl (
        rw (← append_assoc r (b ∷ []) p) (
          byte (no_token_when_long (r ++ b ∷ []) p k reads unfinished long)
            (Restores-quiet (advance_all-NoBracket opened (r ++ b ∷ []) reads) f.restores)))
  after-Round {r} {b} {v} {out} p c e (holds c' q) ih =
      let f = ih (b'[' ∷ r ++ b ∷ []) v out (held c') in
      carry [] (e ∙ q) f (sym (append-nil out)) (rw (← append_assoc r (b ∷ []) p) f.restores)

  pub feed_all-Finishes :
      (p : Bytes) (buf : Bytes) (v : V) (out : Bytes) → Pending buf → Finishes (at buf v out) p
  feed_all-Finishes [] buf v out h = Finishes-now v out h
  feed_all-Finishes (b ∷ p) buf v out idle = elim (Bool-cases (b == b'[')) [
    | inl y ↦
        rw ((==_iff b b'[').0 y)
          (on_bracket v out p (feed_all-Finishes p (b'[' ∷ []) v out (held first_byte)))
    | inr n ↦
        off_candidate v out b p (λ e. ground arith) (feed_all-Finishes p [] v (out ++ b ∷ []) idle)
  ]
  feed_all-Finishes (b ∷ p) buf v out (held {r} c) =
      after-Round p c refl (Round-cases get_mapping (at (b'[' ∷ r) v out) r b) (feed_all-Finishes p)
