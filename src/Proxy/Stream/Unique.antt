-- ===== src/Proxy/Stream/Unique.antt =====
-- Restoring a text, as internal/proxy/streaming.go means it, has one result.
use shinel.Base.{
  ℕ, ◌≡◌, refl, sym, ◌∙◌, ap, subst, inl, inr, [], ◌∷◌, ◌++◌, arith, append-nil, length, ◌≤◌,
}
use mathlib.Core.Path.{subst₂}
use shinel.Base.Bytes.{Bytes}
use shinel.Proxy.Stream.{resolve, max_token_len}
use shinel.Proxy.Stream.Positions.{append_compare, closed_ends}
use shinel.Proxy.Stream.Spec.{NoTokenHere, Restores, done, token, byte}
use shinel.Proxy.Token.{IsToken}
use shinel.Proxy.Token.Automaton.{opened, advance_all-append}
use shinel.Proxy.Token.Grammar.{advance_all-IsToken}
use shinel.Vault.{Reply}

-- No token goes on to be a longer one.
no_longer : (t : Bytes) (c : ℕ) (u : Bytes) → IsToken t → ¬ (IsToken (t ++ c ∷ u))
no_longer t c u h k =
    let (r, s, a) = advance_all-IsToken h in
    let (r', s', a') = advance_all-IsToken k in
    let e : r' ≡ r ++ c ∷ u = ground (arith, ap (λ x. x ++ c ∷ u) s) in
    cc (e, a', advance_all-append opened r (c ∷ u) a, closed_ends c u)

pub token_unique :
    (t t' rest rest' : Bytes)
    → IsToken t
    → IsToken t'
    → t ++ rest ≡ t' ++ rest'
    → (t ≡ t') × (rest ≡ rest')
token_unique t t' rest rest' h h' e = elim (append_compare t t' rest rest' e) [
  | inl ([], p, q) ↦ (sym (p ∙ append-nil t), q)
  | inl (c ∷ u, p, q) ↦ absurd (no_longer t c u h (subst IsToken p h'))
  | inr (c, u, p, q) ↦ absurd (no_longer t' c u h' (subst IsToken p h))
]

module _ {V : Type 0} (get_mapping : V → Bytes → V × Reply) where
  -- What a derivation for an empty text, for one with a token in front, and for one with another
  -- byte in front consists of.
  of_nothing :
      {last v : V} {text shown : Bytes}
      → Restores get_mapping last v text shown
      → text ≡ []
      → (v ≡ last) × (shown ≡ [])
  of_nothing (done e) q = (e, refl)
  of_nothing (token i l e r s) q = let (t', p, _) = advance_all-IsToken i in absurd (ground arith)
  of_nothing (byte n r) q = absurd (ground arith)

  of_token :
      {last v : V} {text shown : Bytes} (t rest : Bytes)
      → Restores get_mapping last v text shown
      → IsToken t
      → length t ≤ max_token_len
      → text ≡ t ++ rest
      → (out : Bytes) × Restores get_mapping last (resolve get_mapping v t).0 rest out
        × (shown ≡ (resolve get_mapping v t).1 ++ out)
  of_token t rest (done e) i l q = let (t', p, _) = advance_all-IsToken i in absurd (ground arith)
  of_token {last} {v} t rest (token {t = t'} {rest = rest'} {out = out} i' l' e r s) i l q =
      let (same, tails) = token_unique t' t rest' rest i' i (sym e ∙ q) in
      (
        out,
        subst₂ (λ x y. Restores get_mapping last (resolve get_mapping v x).0 y out) same tails r,
        s ∙ ap (λ x. (resolve get_mapping v x).1 ++ out) same,
      )
  of_token t rest (byte n r) i l q = absurd (n t rest q l i)

  of_byte :
      {last v : V} {text shown : Bytes} (b : ℕ) (rest : Bytes)
      → Restores get_mapping last v text shown
      → NoTokenHere (b ∷ rest)
      → text ≡ b ∷ rest
      → (out : Bytes) × Restores get_mapping last v rest out × (shown ≡ b ∷ out)
  of_byte b rest (done e) n q = absurd (ground arith)
  of_byte b rest (token {t} {rest = rest'} i l e r s) n q = absurd (n t rest' (sym q ∙ e) l i)
  of_byte {last} {v} b rest (byte {b = b'} {text} {out} n' r) n q =
      let e : b' ≡ b = ground arith in
      let f : text ≡ rest = ground arith in
      (out, subst (λ x. Restores get_mapping last v x out) f r, ap (λ x. x ∷ out) e)

  -- The text shown, and the vault behind, are determined.
  pub Restores-unique :
      {last last' : V} (v : V) {text shown shown' : Bytes}
      → Restores get_mapping last v text shown
      → Restores get_mapping last' v text shown'
      → (last ≡ last') × (shown ≡ shown')
  Restores-unique v (done e) k = let (p, q) = of_nothing k refl in (sym e ∙ p, sym q)
  Restores-unique v (token {t} {rest} i l e r s) k =
      let (out, r', s') = of_token t rest k i l e in
      let (p, q) = Restores-unique (resolve get_mapping v t).0 r r' in
      (p, s ∙ ap (λ x. (resolve get_mapping v t).1 ++ x) q ∙ sym s')
  Restores-unique v (byte {b} {text} n r) k =
      let (out, r', s') = of_byte b text k n refl in
      let (p, q) = Restores-unique v r r' in (p, ap (λ x. b ∷ x) q ∙ sym s')
