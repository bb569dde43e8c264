-- ===== src/Proxy/Stream/Chunks.antt =====
-- How internal/proxy/streaming.go cuts the stream into calls of `Write`: what each call leaves
-- behind, and that the cuts do not matter.
use shinel.Base.{
  ℕ, ◌-◌, inl, inr, [], ◌∷◌, ◌++◌, ◌≡◌, refl, arith, length, append_assoc, ◌==◌, Bool-cases, take,
  Option-cases,
}
use shinel.Base.Bytes.{Bytes}
use shinel.Proxy.Stream.{Sink, Scan, Writer, release, judge, feed_on, feed_all, deliver, write}
use shinel.Proxy.Stream.Feed.{
  Pending, idle, held, first_byte, Round, completes, reopens, dies, overflows, holds, Round-cases,
}
use shinel.Proxy.Token.{TokenState, partial_token, complete_token, dead_token}
use shinel.Vault.{Reply}

-- What is already written stands in front.
abbrev pub behind : {V : Type 0} → Bytes → Scan V → Scan V
behind o s = record s { out = o ++ s.out }

release-behind : {V : Type 0} (o : Bytes) (s : Scan V) → release (behind o s) ≡ behind o (release s)
unfolding release
release-behind o s =
    ground (arith, append_assoc o s.out s.buf, append_assoc o s.out (take (length s.buf - 1) s.buf))

module _ {V : Type 0} (get_mapping : V → Bytes → V × Reply) where
  judge-behind :
      (t : TokenState) (o : Bytes) (s : Scan V)
      → judge get_mapping t (behind o s) ≡ behind o (judge get_mapping t s)
  unfolding judge
  judge-behind complete_token o s = rw append_assoc
  judge-behind dead_token o s = release-behind o s
  judge-behind partial_token o s = ground (arith, append_assoc o s.out s.buf)

  feed_on-behind :
      (buf o : Bytes) (s : Scan V) (b : ℕ)
      → feed_on get_mapping buf (behind o s) b ≡ behind o (feed_on get_mapping buf s b)
  unfolding feed_on
  feed_on-behind [] o s b = ground (arith, append_assoc o s.out (b ∷ []))
  feed_on-behind (c ∷ cs) o s b = judge-behind _ o _

  pub feed_all-behind :
      (p o : Bytes) (s : Scan V)
      → feed_all get_mapping (behind o s) p ≡ behind o (feed_all get_mapping s p)
  unfolding feed_all
  feed_all-behind [] o s = refl
  feed_all-behind (b ∷ p) o s = rw (feed_on-behind s.buf o s b) (feed_all-behind p o _)

  pub feed_all-append :
      (p q : Bytes) (s : Scan V)
      → feed_all get_mapping s (p ++ q) ≡ feed_all get_mapping (feed_all get_mapping s p) q
  unfolding feed_all
  feed_all-append [] q s = refl
  feed_all-append (b ∷ p) q s = feed_all-append p q _

  Round-Pending : {s s' : Scan V} {r : Bytes} {b : ℕ} → Round get_mapping s r b s' → Pending s'.buf
  Round-Pending (completes t q) = rw q idle
  Round-Pending (reopens d x q) = rw q (held first_byte)
  Round-Pending (dies d x q) = rw q idle
  Round-Pending (overflows a n l q) = rw q idle
  Round-Pending (holds c q) = rw q (held c)

  feed_on-Pending :
      (s : Scan V) (buf : Bytes) (b : ℕ)
      → s.buf ≡ buf
      → Pending buf
      → Pending (feed_on get_mapping buf s b).buf
  feed_on-Pending s buf b e idle = elim (Bool-cases (b == b'[')) [
    | inl y ↦ unfold feed_on in rw y (held first_byte)
    | inr n ↦ unfold feed_on in rw (n, e) idle
  ]
  feed_on-Pending s buf b e (held {r} c) = Round-Pending (Round-cases get_mapping s r b)

  feed_all-Pending :
      (p : Bytes) (s : Scan V) → Pending s.buf → Pending (feed_all get_mapping s p).buf
  unfolding feed_all
  feed_all-Pending [] s h = h
  feed_all-Pending (b ∷ p) s h = feed_all-Pending p _ (feed_on-Pending s s.buf b refl h)

  module _ {W : Type 0} (sink : Sink W) where
    buf-deliver :
        (s : Writer V W) (out : Bytes) (n : ℕ) → (deliver get_mapping sink s out n).0.buf ≡ s.buf
    unfolding deliver
    buf-deliver s [] n = refl
    buf-deliver s (b ∷ out) n = ground arith

    -- What a call of `Write` leaves held back is nothing or the start of a token that is not
    -- complete, of less than 64 bytes, if that is what it found held back, whatever the vault and
    -- the writer below answer.
    pub write-Pending :
        (s : Writer V W) (p : Bytes) → Pending s.buf → Pending (write get_mapping sink s p).0.buf
    unfolding write
    write-Pending s p h = elim (Option-cases s.err) [
      | inl e ↦
          rw (e, buf-deliver)
            (feed_all-Pending p (record { buf = s.buf; vault = s.vault; out = [] }) h)
      | inr (why, e) ↦ rw e h
    ]
