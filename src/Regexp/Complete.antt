-- ===== src/Regexp/Complete.antt =====
-- The search misses no match of an expression that repeats nothing empty: its fuel is enough.
use shinel.Base.{
  ℕ, zero, suc, ◌-◌, ◌≤◌, ◌<◌, ◌≡◌, Bool, true, false, some, length, arith, Option-cases, inl, inr,
}
use shinel.Base.Bytes.{Bytes}
use shinel.Regexp.{
  Regexp, nothing, rune, boundary, seq, alt, many, group, Place, Next, Run, both, repeat_run, mark,
  run,
}
use shinel.Regexp.Derives.{Derives, Rounds, done, round}
use shinel.Regexp.Places.{Runes-inside, Derives-Runes, Derives-lt, is_proper}

module _ (text : Bytes) where
  -- Where there is a match and what comes next ends behind it, the run ends.
  abbrev IsComplete : (Place → Place → Type 0) → Run → Type 0
  IsComplete R m =
      (p q : Place) (k : Next) (x : Place)
      → p.at ≤ length text
      → R p q
      → k q ≡ some x
      → (y : Place) × (m p k ≡ some y)

  -- Each round goes on in the text.
  abbrev GoesOn : (Place → Place → Type 0) → Type 0
  GoesOn R = (p q : Place) → p.at ≤ length text → R p q → (p.at < q.at) × (q.at ≤ length text)

  module _ {R : Place → Place → Type 0} (m : Run) (complete : IsComplete R m) (on : GoesOn R) where
    repeat_run-IsComplete :
        (greedy : Bool) (n : ℕ) {q : Place} (p : Place) (k : Next) (x : Place)
        → p.at ≤ length text
        → length text - p.at ≤ n
        → Rounds R q p
        → k q ≡ some x
        → (y : Place) × (repeat_run greedy m n p k ≡ some y)
    unfolding repeat_run
    repeat_run-IsComplete greedy zero p k x l b done e = (x, e)
    repeat_run-IsComplete greedy zero p k x l b (round {o} d ds) e =
        let (a, c) = on p o l d in absurd (omega (arith, a, c))
    repeat_run-IsComplete true (suc n) p k x l b done e =
        elim (Option-cases (m p (λ q. repeat_run true m n q k))) [
          | inl f ↦ (x, rw (repeat_run, f) e)
          | inr (y, f) ↦ (y, rw (repeat_run, f))
        ]
    repeat_run-IsComplete false (suc n) p k x l b done e = (x, rw (repeat_run, e))
    repeat_run-IsComplete true (suc n) p k x l b (round {o} d ds) e =
        let (a, c) = on p o l d in
        let (y, f) = repeat_run-IsComplete true n o k x c (omega (arith, a, c)) ds e in
        let (z, g) = complete p o (λ q. repeat_run true m n q k) y l d f in (z, rw (repeat_run, g))
    repeat_run-IsComplete false (suc n) p k x l b (round {o} d ds) e =
        let (a, c) = on p o l d in
        let (y, f) = repeat_run-IsComplete false n o k x c (omega (arith, a, c)) ds e in
        let (z, g) = complete p o (λ q. repeat_run false m n q k) y l d f in
        elim (Option-cases (k p)) [
          | inl h ↦ (z, rw (repeat_run, h) g)
          | inr (w, h) ↦ (w, rw (repeat_run, h))
        ]

  Derives-inside :
      (r : Regexp) (p q : Place) → p.at ≤ length text → Derives text r p q → q.at ≤ length text
  Derives-inside r p q l d = Runes-inside text (Derives-Runes text r p q d) l

  pub run-IsComplete : (r : Regexp) → is_proper r ≡ true → IsComplete (Derives text r) (run text r)
  unfolding run both is_proper mark
  run-IsComplete nothing w p q k x l d e = (x, rw d e)
  run-IsComplete (rune test) w p q k x l d e = (x, rw (run, d) e)
  run-IsComplete boundary w p q k x l (b, d) e = (x, rw (run, b) (rw d e))
  run-IsComplete (seq r s) w p q k x l (o, d, d') e =
      let (y, f) = run-IsComplete s (ground (arith, w)) o q k x (Derives-inside r p o l d) d' e in
      run-IsComplete r (ground (arith, w)) p o (λ q. run text s q k) y l d f
  run-IsComplete (alt r s) w p q k x l (inl d) e =
      let (y, f) = run-IsComplete r (ground (arith, w)) p q k x l d e in (y, rw (run, f))
  run-IsComplete (alt r s) w p q k x l (inr d) e =
      let (y, f) = run-IsComplete s (ground (arith, w)) p q k x l d e in
      elim (Option-cases (run text r p k)) [
        | inl h ↦ (y, rw (run, h) f)
        | inr (z, h) ↦ (z, rw (run, h))
      ]
  run-IsComplete (many greedy r) w p q k x l d e =
      repeat_run-IsComplete (run text r) (run-IsComplete r (ground (arith, w)))
        (λ p q l d. (Derives-lt text r p q (ground (arith, w)) d, Derives-inside r p q l d)) greedy
        (length text - p.at) p k x l (omega arith) d e
  run-IsComplete (group n r) w p q k x l (o, d, e') e =
      run-IsComplete r w p o (λ q. k (mark n p.at q)) x l d (rw e' at e)
