-- ===== src/Proxy/Stream/Positions.antt =====
-- Where no token can begin: at a byte other than `[`, and at a candidate that the text behind it
-- cannot complete.
use shinel.Base.{
  ℕ, suc, ◌≤◌, ◌⊎◌, inl, inr, [], ◌∷◌, ◌++◌, ◌≡◌, ◌≢◌, refl, sym, ap, ap₂, ◌∙◌, none, some, arith,
  length, length-append, append-nil, append_assoc, Option-cases,
}
use shinel.Base.Bytes.{Bytes}
use shinel.Proxy.Stream.{max_token_len}
use shinel.Proxy.Stream.Spec.{NoTokenHere, Restores, byte}
use shinel.Proxy.Token.{IsToken}
use shinel.Proxy.Token.Automaton.{
  Phase, opened, closed, advance, advance_all, advance_all-append, advance_all-append_none,
}
use shinel.Proxy.Token.Grammar.{advance_all-IsToken}
use shinel.Vault.{Reply}

-- Two ways to cut one text: one front part goes on from the other.
pub append_compare :
    (xs zs ys ws : Bytes)
    → xs ++ ys ≡ zs ++ ws
    → ((u : Bytes) × (zs ≡ xs ++ u) × (ys ≡ u ++ ws))
      ⊎ ((c : ℕ) × (u : Bytes) × (xs ≡ zs ++ c ∷ u) × (ws ≡ c ∷ u ++ ys))
append_compare [] zs ys ws e = inl (zs, refl, e)
append_compare (x ∷ xs) [] ys ws e = inr (x, xs, refl, sym e)
append_compare (x ∷ xs) (z ∷ zs) ys ws e = elim (append_compare xs zs ys ws (ground arith)) [
  | inl (u, p, q) ↦ inl (u, ap₂ ◌∷◌ (ground arith) p, q)
  | inr (c, u, p, q) ↦ inr (c, u, ap₂ ◌∷◌ (ground arith) p, q)
]

pub no_token_off_bracket : {b : ℕ} {text : Bytes} → b ≢ b'[' → NoTokenHere (b ∷ text)
no_token_off_bracket n t rest e short h = let (r, s, _) = advance_all-IsToken h in n (ground arith)

pub closed_ends : (c : ℕ) (u : Bytes) → advance_all closed (c ∷ u) ≡ none
unfolding advance_all advance
closed_ends c u = refl

-- A token that begins at an unfinished candidate goes beyond it.
pub token_beyond :
    (r s t rest : Bytes) (p : Phase)
    → advance_all opened r ≡ some p
    → p ≢ closed
    → b'[' ∷ r ++ s ≡ t ++ rest
    → IsToken t
    → (c : ℕ) × (u : Bytes) × (t ≡ b'[' ∷ r ++ c ∷ u) × (s ≡ c ∷ u ++ rest)
token_beyond r s t rest p e n q h =
    let (r', spelled, accepted) = advance_all-IsToken h in
    elim (append_compare r r' s rest (ground arith)) [
      | inl ([], d, _) ↦ absurd (n (cc (e, accepted, d, append-nil r)))
      | inl (c ∷ u, d, f) ↦ (c, u, spelled ∙ ap (◌∷◌ b'[') d, f)
      | inr (c, u, d, _) ↦
          absurd (cc (e, d, advance_all-append opened r' (c ∷ u) accepted, closed_ends c u))
    ]

pub no_token_at_end :
    (r : Bytes) (p : Phase) → advance_all opened r ≡ some p → p ≢ closed → NoTokenHere (b'[' ∷ r)
no_token_at_end r p e n t rest q short h =
    let (c, u, _, f) = token_beyond r [] t rest p e n (rw append-nil q) h in cc f

pub no_token_when_dead :
    (r : Bytes) (b : ℕ) (s : Bytes) (p : Phase)
    → advance_all opened r ≡ some p
    → p ≢ closed
    → advance_all opened (r ++ b ∷ []) ≡ none
    → NoTokenHere (b'[' ∷ r ++ b ∷ s)
no_token_when_dead r b s p e n dead t rest q short h =
    let (c, u, d, f) = token_beyond r (b ∷ s) t rest p e n q h in
    let (r', spelled, accepted) = advance_all-IsToken h in
    cc (
      f,
      d,
      spelled,
      accepted,
      advance_all-append_none opened (r ++ b ∷ []) u dead,
      append_assoc r (b ∷ []) u,
    )

pub no_token_when_long :
    (r s : Bytes) (p : Phase)
    → advance_all opened r ≡ some p
    → p ≢ closed
    → max_token_len ≤ suc (length r)
    → NoTokenHere (b'[' ∷ r ++ s)
no_token_when_long r s p e n long t rest q short h =
    let (c, u, d, f) = token_beyond r s t rest p e n q h in
    absurd (omega (arith, ap length d, length-append r (c ∷ u)))

pub data NoBracket : Bytes → Type 0 where
  end : NoBracket []
  on : {b : ℕ} {bs : Bytes} → b ≢ b'[' → NoBracket bs → NoBracket (b ∷ bs)

advance-ne-bracket : (p : Phase) (b : ℕ) {q : Phase} → advance p b ≡ some q → b ≢ b'['
unfolding advance
advance-ne-bracket opened b e = ground arith
advance-ne-bracket p b e = ground arith

-- What the automaton reads holds no second `[`.
pub advance_all-NoBracket :
    (p : Phase) (r : Bytes) {q : Phase} → advance_all p r ≡ some q → NoBracket r
advance_all-NoBracket p [] e = end
advance_all-NoBracket p (b ∷ r) {q} e = elim (Option-cases (advance p b)) [
  | inl x ↦ absurd (unfold advance_all in ground arith)
  | inr (p', x) ↦
      on (advance-ne-bracket p b x)
        (advance_all-NoBracket p' r {q = q} (unfold advance_all in ground arith))
]

-- Bytes other than `[` stay as they are.
pub Restores-quiet :
    {V : Type 0} {get_mapping : V → Bytes → V × Reply} {v last : V} {u text out : Bytes}
    → NoBracket u
    → Restores get_mapping last v text out
    → Restores get_mapping last v (u ++ text) (u ++ out)
Restores-quiet end r = r
Restores-quiet (on n t) r = byte (no_token_off_bracket n) (Restores-quiet t r)
