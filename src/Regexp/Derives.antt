-- ===== src/Regexp/Derives.antt =====
-- What it means that an expression matches from one place of a text to another, and that a run of
-- the search finds such a match.
use shinel.Base.{
  ℕ, zero, suc, ◌-◌, ◌≡◌, refl, Bool, true, false, some, arith, length, Bool-cases, Option-cases,
  inl, inr, ◌⊎◌,
}
use shinel.Base.Bytes.{Bytes}
use shinel.Regexp.{
  Regexp, nothing, rune, boundary, seq, alt, many, group, Place, Next, Run, both, repeat_run, mark,
  is_boundary, step, run,
}

-- Any number of rounds, to a place.
pub data Rounds (R : Place → Place → Type 0) (q : Place) : Place → Type 0 where
  done : Rounds R q q
  round : {p o : Place} → R p o → Rounds R q o → Rounds R q p

module _ (text : Bytes) where
  abbrev pub Derives : Regexp → Place → Place → Type 0
  Derives nothing p q = p ≡ q
  Derives (rune test) p q = step text test p ≡ some q
  Derives boundary p q = (is_boundary text p.at ≡ true) × (p ≡ q)
  Derives (seq r s) p q = (o : Place) × Derives r p o × Derives s o q
  Derives (alt r s) p q = Derives r p q ⊎ Derives s p q
  Derives (many greedy r) p q = Rounds (Derives r) q p
  Derives (group n r) p q = (o : Place) × Derives r p o × (q ≡ mark n p.at o)

-- A run that ends has matched, and what comes next has ended there.
abbrev pub IsSound : (Place → Place → Type 0) → Run → Type 0
IsSound R m =
    (p : Place) (k : Next) (x : Place) → m p k ≡ some x → (q : Place) × R p q × (k q ≡ some x)

repeat_run-IsSound :
    {R : Place → Place → Type 0} (greedy : Bool) (m : Run) (n : ℕ)
    → IsSound R m
    → IsSound (λ p q. Rounds R q p) (repeat_run greedy m n)
unfolding repeat_run
repeat_run-IsSound greedy m zero h p k x e = (p, done, e)
repeat_run-IsSound true m (suc n) h p k x e =
    elim (Option-cases (m p (λ q. repeat_run true m n q k))) [
      | inl f ↦ (p, done, rw (repeat_run, f) at e)
      | inr (y, f) ↦
          let (o, d, g) = h p (λ q. repeat_run true m n q k) x (ground (arith, e, f)) in
          let (q, ds, l) = repeat_run-IsSound true m n h o k x g in (q, round d ds, l)
    ]
repeat_run-IsSound false m (suc n) h p k x e = elim (Option-cases (k p)) [
  | inl f ↦
      let (o, d, g) = h p (λ q. repeat_run false m n q k) x (rw (repeat_run, f) at e) in
      let (q, ds, l) = repeat_run-IsSound false m n h o k x g in (q, round d ds, l)
  | inr (y, f) ↦ (p, done, ground (arith, e, f))
]

pub run-IsSound : (text : Bytes) (r : Regexp) → IsSound (Derives text r) (run text r)
unfolding run both
run-IsSound text nothing p k x e = (p, refl, e)
run-IsSound text (rune test) p k x e = elim (Option-cases (step text test p)) [
  | inl f ↦ absurd (ground (arith, e, f))
  | inr (q, f) ↦ (q, f, ground (arith, e, f))
]
run-IsSound text boundary p k x e = elim (Bool-cases (is_boundary text p.at)) [
  | inl b ↦ (p, (b, refl), ground (arith, e, b))
  | inr b ↦ absurd (ground (arith, e, b))
]
run-IsSound text (seq r s) p k x e =
    let (o, d, g) = run-IsSound text r p (λ q. run text s q k) x e in
    let (q, d', l) = run-IsSound text s o k x g in (q, (o, d, d'), l)
run-IsSound text (alt r s) p k x e = elim (Option-cases (run text r p k)) [
  | inl f ↦ let (q, d, l) = run-IsSound text s p k x (rw (run, f) at e) in (q, inr d, l)
  | inr (y, f) ↦ let (q, d, l) = run-IsSound text r p k x (ground (arith, e, f)) in (q, inl d, l)
]
run-IsSound text (many greedy r) p k x e =
    repeat_run-IsSound greedy (run text r) (length text - p.at) (run-IsSound text r) p k x e
run-IsSound text (group n r) p k x e =
    let (o, d, l) = run-IsSound text r p (λ q. k (mark n p.at q)) x e in
    (mark n p.at o, (o, d, refl), l)
