-- ===== src/Regexp/Groups.antt =====
-- The bounds of the groups of a match lie in the text, or are negative.
use shinel.Base.{
  ℕ, zero, suc, ◌+◌, ◌*◌, ◌≤◌, ◌≡◌, Bool, some, List, [], ◌∷◌, length, set, arith, drop, inl, inr,
}
use shinel.Base.Bytes.{Bytes}
use shinel.Base.Int.{ℤ, pos}
use shinel.Base.Sort.{All}
use shinel.Regexp.{
  Regexp, nothing, rune, boundary, seq, alt, many, group, Place, Found, mark, step, start_at, unset,
  group_count, submatches,
}
use shinel.Regexp.Derives.{Derives, Rounds, done, round}
use shinel.Regexp.Exhausts.{Exhausts, nothing_left, next_found}
use shinel.Regexp.Places.{Runes-inside, Derives-Runes, List-cases}

abbrev pub IsBound : Bytes → ℤ → Type 0
IsBound text z = (n : ℕ) → z ≡ pos n → n ≤ length text

pos-injective : {m n : ℕ} → pos m ≡ pos n → m ≡ n
pos-injective e = cc

pos-IsBound : (text : Bytes) (i : ℕ) → i ≤ length text → IsBound text (pos i)
pos-IsBound text i l n e = omega (arith, pos-injective e, l)

All-set : (P : ℤ → Type 0) (xs : List ℤ) (i : ℕ) (x : ℤ) → P x → All P xs → All P (set xs i x)
All-set P [] i x p h = tt
All-set P (y ∷ xs) zero x p (q, h) = (p, h)
All-set P (y ∷ xs) (suc i) x p (q, h) = (q, All-set P xs i x p h)

module _ (text : Bytes) where
  unset-IsBound : (n : ℕ) → All (IsBound text) (unset n)
  unfolding unset
  unset-IsBound zero = tt
  unset-IsBound (suc n) = (λ n e. absurd (cc), (λ n e. absurd (cc), unset-IsBound n))

  abbrev Keeps : Place → Place → Type 0
  Keeps p q = p.at ≤ length text → All (IsBound text) p.groups → All (IsBound text) q.groups

  step-groups :
      (test : ℕ → Bool) (p : Place) {q : Place} → step text test p ≡ some q → q.groups ≡ p.groups
  unfolding step
  step-groups test p {q} e = elim (List-cases (drop p.at text)) [
    | inl d ↦ absurd (ground (arith, e, d))
    | inr (b, t, d) ↦ ground (arith, e, d)
  ]

  Rounds-Keeps :
      {R : Place → Place → Type 0} {q p : Place}
      → ((p q : Place) → R p q → Keeps p q)
      → ((p q : Place) → R p q → p.at ≤ length text → q.at ≤ length text)
      → Rounds R q p
      → Keeps p q
  Rounds-Keeps keep inside done l h = h
  Rounds-Keeps keep inside (round {p} {o} d ds) l h =
      Rounds-Keeps keep inside ds (inside p o d l) (keep p o d l h)

  Derives-inside :
      (r : Regexp) (p q : Place) → Derives text r p q → p.at ≤ length text → q.at ≤ length text
  Derives-inside r p q d l = Runes-inside text (Derives-Runes text r p q d) l

  Derives-Keeps : (r : Regexp) (p q : Place) → Derives text r p q → Keeps p q
  unfolding mark
  Derives-Keeps nothing p q d l h = rw d at h
  Derives-Keeps (rune test) p q d l h = rw (step-groups test p d) h
  Derives-Keeps boundary p q (b, d) l h = rw d at h
  Derives-Keeps (seq r s) p q (o, d, d') l h =
      Derives-Keeps s o q d' (Derives-inside r p o d l) (Derives-Keeps r p o d l h)
  Derives-Keeps (alt r s) p q (inl d) l h = Derives-Keeps r p q d l h
  Derives-Keeps (alt r s) p q (inr d) l h = Derives-Keeps s p q d l h
  Derives-Keeps (many greedy r) p q d l h = Rounds-Keeps (Derives-Keeps r) (Derives-inside r) d l h
  Derives-Keeps (group n r) p q (o, d, e) l h = rw e (
      All-set (IsBound text) _ (2 * n + 1) (pos o.at)
        (pos-IsBound text o.at (Derives-inside r p o d l))
        (All-set (IsBound text) o.groups (2 * n) (pos p.at) (pos-IsBound text p.at l)
          (Derives-Keeps r p o d l h)))

  -- All that `FindAllStringSubmatchIndex` gives.
  pub submatches-IsBound :
      (r : Regexp) {i : ℕ} {ms : List Found}
      → Exhausts text r i ms
      → All (All (IsBound text)) (submatches ms)
  unfolding submatches start_at
  submatches-IsBound r (nothing_left h) = tt
  submatches-IsBound r (next_found s q y e h a b rest) =
      let l : s ≤ length text = omega (arith, a, b) in
      (
        (
          pos-IsBound text s l,
          (
            pos-IsBound text q.at b,
            Derives-Keeps r (start_at text r s) q e l (unset-IsBound (group_count r)),
          ),
        ),
        submatches-IsBound r rest,
      )
