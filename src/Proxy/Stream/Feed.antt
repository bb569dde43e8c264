-- ===== src/Proxy/Stream/Feed.antt =====
-- One round of the loop of `Write` in internal/proxy/streaming.go, with a candidate held back.
use shinel.Base.{
  ℕ, suc, ◌+◌, ◌-◌, ◌≤◌, ◌<◌, inl, inr, [], ◌∷◌, ◌++◌, ◌≡◌, ◌≢◌, refl, none, some, arith, leb, ◌==◌,
  length, length-append, get_elem?-append, take-append, Bool-cases, Option-cases, ==_iff,
}
use shinel.Base.Bytes.{Bytes}
use shinel.Proxy.Stream.{Scan, max_token_len, resolve, release, judge, feed_on}
use shinel.Proxy.Token.{IsToken, partial_token}
use shinel.Proxy.Token.Automaton.{
  Phase, opened, kind, under, number, closed, advance_all, state_of, classify-advance_all,
}
use shinel.Proxy.Token.Grammar.{IsToken-advance_all}
use shinel.Vault.{Reply}

-- The bytes held back behind their `[`: the start of a token, not yet a whole one, and short.
pub record Candidate (r : Bytes) : Type 0 where
  pub phase : Phase
  pub reads : advance_all opened r ≡ some phase
  pub unfinished : phase ≢ closed
  pub short : suc (length r) < max_token_len

pub data Pending : Bytes → Type 0 where
  idle : Pending []
  held : {r : Bytes} → Candidate r → Pending (b'[' ∷ r)

pub first_byte : Candidate []
unfolding advance_all
first_byte = record { phase = opened; reads = refl; unfinished = cc; short = omega arith }

module _ {V : Type 0} (get_mapping : V → Bytes → V × Reply) where
  -- The ways a round can end, with what each one knows.
  pub data Round (s : Scan V) (r : Bytes) (b : ℕ) : Scan V → Type 0 where
    completes :
        {s' : Scan V}
        → IsToken (b'[' ∷ r ++ b ∷ [])
        → s' ≡ record {
          buf = [];
          vault = (resolve get_mapping s.vault (b'[' ∷ r ++ b ∷ [])).0;
          out = s.out ++ (resolve get_mapping s.vault (b'[' ∷ r ++ b ∷ [])).1;
        }
        → Round s r b s'
    reopens :
        {s' : Scan V}
        → advance_all opened (r ++ b ∷ []) ≡ none
        → b ≡ b'['
        → s' ≡ record { buf = b'[' ∷ []; vault = s.vault; out = s.out ++ b'[' ∷ r }
        → Round s r b s'
    dies :
        {s' : Scan V}
        → advance_all opened (r ++ b ∷ []) ≡ none
        → b ≢ b'['
        → s' ≡ record { buf = []; vault = s.vault; out = s.out ++ (b'[' ∷ r ++ b ∷ []) }
        → Round s r b s'
    overflows :
        {s' : Scan V} {q : Phase}
        → advance_all opened (r ++ b ∷ []) ≡ some q
        → q ≢ closed
        → max_token_len ≤ length (b'[' ∷ r ++ b ∷ [])
        → s' ≡ record { buf = []; vault = s.vault; out = s.out ++ (b'[' ∷ r ++ b ∷ []) }
        → Round s r b s'
    holds :
        {s' : Scan V}
        → Candidate (r ++ b ∷ [])
        → s' ≡ record { buf = b'[' ∷ r ++ b ∷ []; vault = s.vault; out = s.out }
        → Round s r b s'

  -- The candidate with the new byte behind it, as `judge` gets it.
  abbrev with_buf : Scan V → Bytes → ℕ → Scan V
  with_buf s r b = record s { buf = b'[' ∷ r ++ b ∷ [] }

  Round-dead :
      (s : Scan V) (r : Bytes) (b : ℕ)
      → advance_all opened (r ++ b ∷ []) ≡ none
      → Round s r b (release (with_buf s r b))
  unfolding release
  Round-dead s r b e =
      let n : length (r ++ b ∷ []) ≡ length r + 1 = length-append r (b ∷ []) in
      let k : length (b'[' ∷ r ++ b ∷ []) - 1 ≡ length (b'[' ∷ r) = omega arith in
      elim (Bool-cases (b == b'[')) [
        | inl y ↦
            reopens e ((==_iff b b'[').0 y) (
              rw (release, k, get_elem?-append (b'[' ∷ r) b, y, k, take-append (b'[' ∷ r) (b ∷ [])))
        | inr n ↦ dies e (λ h. ground arith) (rw (release, k, get_elem?-append (b'[' ∷ r) b, n))
      ]

  Round-partial :
      (s : Scan V) (r : Bytes) (b : ℕ) (q : Phase)
      → advance_all opened (r ++ b ∷ []) ≡ some q
      → q ≢ closed
      → Round s r b (judge get_mapping partial_token (with_buf s r b))
  unfolding judge
  Round-partial s r b q e n = elim (Bool-cases (leb 64 (length (b'[' ∷ r ++ b ∷ [])))) [
    | inl y ↦ overflows e n (ground arith) (rw y)
    | inr small ↦
        holds (record { phase = q; reads = e; unfinished = n; short = ground arith }) (rw small)
  ]

  -- Every round with a candidate held back ends in one of the ways above.
  pub Round-cases :
      (s : Scan V) (r : Bytes) (b : ℕ) → Round s r b (feed_on get_mapping (b'[' ∷ r) s b)
  unfolding feed_on judge
  Round-cases s r b = elim (Option-cases (advance_all opened (r ++ b ∷ []))) [
    | inl e ↦ rw (classify-advance_all, e) (Round-dead s r b e)
    | inr (q, e) ↦ rw (classify-advance_all, e) (at_phase q e)
  ]
    where
      at_phase :
          (q : Phase)
          → advance_all opened (r ++ b ∷ []) ≡ some q
          → Round s r b (judge get_mapping (state_of (some q)) (with_buf s r b))
      at_phase closed e = completes (IsToken-advance_all _ e) refl
      at_phase opened e = Round-partial s r b opened e (cc)
      at_phase kind e = Round-partial s r b kind e (cc)
      at_phase under e = Round-partial s r b under e (cc)
      at_phase number e = Round-partial s r b number e (cc)
