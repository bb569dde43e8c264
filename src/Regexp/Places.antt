-- ===== src/Regexp/Places.antt =====
-- How a match goes through the text: rune by rune, and never past its end.
use shinel.Base.{
  ℕ, suc, ◌+◌, ◌≤◌, ◌<◌, ◌≡◌, refl, ap, Bool, true, false, ◌&&◌, ◌||◌, some, [], ◌∷◌, arith, length,
  drop, Bool-cases, inl, inr, ◌⊎◌, length-drop,
}
use shinel.Base.Bytes.{Bytes}
use shinel.Base.Utf8.Sizes.{decode_rune-HasSize}
use shinel.Regexp.{
  Regexp, nothing, rune, boundary, seq, alt, many, group, Place, step, size_at, mark,
}
use shinel.Regexp.Derives.{Derives, Rounds, done, round}

-- One place behind another by whole runes.
pub data Runes (text : Bytes) (j : ℕ) : ℕ → Type 0 where
  here : Runes text j j
  over : {i : ℕ} → i < length text → Runes text j (i + size_at text i) → Runes text j i

-- An expression whose matches are never empty, by its form.
unfoldable pub takes : Regexp → Bool
takes nothing = false
takes (rune test) = true
takes boundary = false
takes (seq r s) = takes r || takes s
takes (alt r s) = takes r && takes s
takes (many greedy r) = false
takes (group n r) = takes r

-- What an expression repeats without bound is never empty.
unfoldable pub is_proper : Regexp → Bool
is_proper nothing = true
is_proper (rune test) = true
is_proper boundary = true
is_proper (seq r s) = is_proper r && is_proper s
is_proper (alt r s) = is_proper r && is_proper s
is_proper (many greedy r) = takes r && is_proper r
is_proper (group n r) = is_proper r

pub List-cases : (s : Bytes) → (s ≡ []) ⊎ ((b : ℕ) × (t : Bytes) × (s ≡ b ∷ t))
List-cases [] = inl refl
List-cases (b ∷ t) = inr (b, t, refl)

module _ (text : Bytes) where
  -- What is left in front of the end begins with a byte.
  byte_at : (i : ℕ) → i < length text → (b : ℕ) × (t : Bytes) × (drop i text ≡ b ∷ t)
  byte_at i l = elim (List-cases (drop i text)) [
    | inl e ↦ absurd (omega (arith, ap (length {A = ℕ}) e, length-drop i text))
    | inr x ↦ x
  ]

  pub size_at_bounds :
      (i : ℕ) → i < length text → (1 ≤ size_at text i) × (i + size_at text i ≤ length text)
  unfolding size_at
  size_at_bounds i l =
      let (b, t, e) = byte_at i l in
      let (low, high) = decode_rune-HasSize b t in
      let n : length (drop i text) ≡ length (b ∷ t) = ap (length {A = ℕ}) e in
      rw (size_at, e) (low, omega (arith, high, n, length-drop i text))

  pub Runes-trans : {j i k : ℕ} → Runes text j i → Runes text k j → Runes text k i
  Runes-trans here s = s
  Runes-trans (over l r) s = over l (Runes-trans r s)

  pub Runes-le : {j i : ℕ} → Runes text j i → i ≤ j
  Runes-le here = omega arith
  Runes-le (over {i} l r) = omega (arith, Runes-le r)

  pub Runes-inside : {j i : ℕ} → Runes text j i → i ≤ length text → j ≤ length text
  Runes-inside here h = h
  Runes-inside (over {i} l r) h = Runes-inside r (size_at_bounds i l).1

  -- Of two places that runes lead to, the further is behind the nearer by runes.
  pub Runes-between : {j a i : ℕ} → Runes text j i → Runes text a i → a ≤ j → Runes text j a
  Runes-between {a} r here l = r
  Runes-between here (over {i} h s) l = absurd (omega (arith, Runes-le s, (size_at_bounds i h).0))
  Runes-between (over h r) (over h' s) l = Runes-between r s l

  step-over :
      (test : ℕ → Bool) (p : Place) {q : Place}
      → step text test p ≡ some q
      → (p.at < length text) × (q.at ≡ p.at + size_at text p.at)
  unfolding step size_at
  step-over test p {q} e = elim (List-cases (drop p.at text)) [
    | inl d ↦ absurd (ground (arith, e, d))
    | inr (b, t, d) ↦
        let n : length (drop p.at text) ≡ suc (length t) = ap (length {A = ℕ}) d in
        (omega (arith, n, length-drop p.at text), ground (arith, e, d))
  ]

  Rounds-Runes :
      {R : Place → Place → Type 0} {q p : Place}
      → ((p q : Place) → R p q → Runes text q.at p.at)
      → Rounds R q p
      → Runes text q.at p.at
  Rounds-Runes h done = here
  Rounds-Runes h (round {p} {o} d ds) = Runes-trans (h p o d) (Rounds-Runes h ds)

  -- A match goes over whole runes.
  pub Derives-Runes : (r : Regexp) (p q : Place) → Derives text r p q → Runes text q.at p.at
  unfolding mark
  Derives-Runes nothing p q d = rw d here
  Derives-Runes (rune test) p q d = let (l, e) = step-over test p d in over l (rw e here)
  Derives-Runes boundary p q (b, d) = rw d here
  Derives-Runes (seq r s) p q (o, d, d') =
      Runes-trans (Derives-Runes r p o d) (Derives-Runes s o q d')
  Derives-Runes (alt r s) p q (inl d) = Derives-Runes r p q d
  Derives-Runes (alt r s) p q (inr d) = Derives-Runes s p q d
  Derives-Runes (many greedy r) p q d = Rounds-Runes (Derives-Runes r) d
  Derives-Runes (group n r) p q (o, d, e) = rw e (Derives-Runes r p o d)

  pub Derives-lt : (r : Regexp) (p q : Place) → takes r ≡ true → Derives text r p q → p.at < q.at
  unfolding takes mark
  Derives-lt nothing p q t d = absurd (cc)
  Derives-lt (rune test) p q t d =
      let (l, e) = step-over test p d in omega (arith, (size_at_bounds p.at l).0, e)
  Derives-lt boundary p q t d = absurd (cc)
  Derives-lt (seq r s) p q t (o, d, d') =
      let a = Runes-le (Derives-Runes r p o d) in
      let b = Runes-le (Derives-Runes s o q d') in
      elim (Bool-cases (takes r)) [
        | inl x ↦ omega (arith, Derives-lt r p o x d, b)
        | inr x ↦ omega (arith, a, Derives-lt s o q (ground (arith, t, x)) d')
      ]
  Derives-lt (alt r s) p q t (inl d) = Derives-lt r p q (ground (arith, t)) d
  Derives-lt (alt r s) p q t (inr d) = Derives-lt s p q (ground (arith, t)) d
  Derives-lt (many greedy r) p q t d = absurd (cc)
  Derives-lt (group n r) p q t (o, d, e) = rw e (Derives-lt r p o t d)
