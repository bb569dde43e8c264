-- ===== src/Regexp/Exhausts.antt =====
-- `FindAll` finds the leftmost match, then the leftmost behind that, until there is none.
use shinel.Base.{
  ℕ, zero, suc, ◌+◌, ◌-◌, ◌≤◌, ◌<◌, ◌≡◌, refl, ap, subst, Bool, true, false, Option, none, some,
  List, [], ◌∷◌, length, arith, leb, ltb, ltb→lt, ◌&&◌, ◌==◌, drop, Bool-cases, Option-cases, inl,
  inr, length-drop,
}
use shinel.Base.Bytes.{Bytes}
use shinel.Base.Sort.{All, any}
use shinel.Regexp.{
  Regexp, Place, Found, run, size_at, start_at, search_from, first_match, all_from, find_all,
}
use shinel.Regexp.Complete.{run-IsComplete}
use shinel.Regexp.Derives.{Derives, run-IsSound}
use shinel.Regexp.Places.{
  Runes, here, over, List-cases, Runes-le, Runes-inside, Runes-trans, Runes-between, Derives-Runes,
  Derives-lt, size_at_bounds, takes, is_proper,
}

some-injective : {A : Type 0} {x y : A} → some x ≡ some y → x ≡ y
some-injective e = cc

abbrev pub is_within : ℕ → Found → Bool
is_within j m = leb m.0 j && ltb j m.1.at

module _ (text : Bytes) (r : Regexp) where
  -- A match that begins at a place, with no group set.
  abbrev pub MatchesAt : ℕ → Place → Type 0
  MatchesAt i q = Derives text r (start_at text r i) q

  -- No match begins at a place or at one that runes lead to from it, in front of another.
  abbrev pub NoneBefore : ℕ → ℕ → Type 0
  NoneBefore i s = (j : ℕ) (q : Place) → Runes text j i → j < s → ¬ (MatchesAt j q)

  pub data Leftmost (i : ℕ) : Option Found → Type 0 where
    nowhere : ((j : ℕ) (q : Place) → Runes text j i → ¬ (MatchesAt j q)) → Leftmost i none
    first :
        (s : ℕ) (q : Place)
        → Runes text s i
        → MatchesAt s q
        → NoneBefore i s
        → Leftmost i (some (s, q))

  Leftmost-over :
      {i : ℕ} (o : Option Found)
      → i < length text
      → ((q : Place) → ¬ (MatchesAt i q))
      → Leftmost (i + size_at text i) o
      → Leftmost i o
  Leftmost-over {i} none l fails (nowhere h) = nowhere (λ j q x d. not_here j q x d)
    where
      not_here : (j : ℕ) (q : Place) → Runes text j i → ¬ (MatchesAt j q)
      not_here j q here d = fails q d
      not_here j q (over _ x) d = h j q x d
  Leftmost-over {i} (some _) l fails (first s q x d h) = first s q (over l x) d not_here
    where
      not_here : NoneBefore i s
      not_here j o here b e = fails o e
      not_here j o (over _ y) b e = h j o y b e

  nothing_behind :
      (i : ℕ)
      → ((q : Place) → ¬ (MatchesAt i q))
      → length text ≤ i
      → (j : ℕ) (q : Place) → Runes text j i
      → ¬ (MatchesAt j q)
  nothing_behind i fails l j q here d = fails q d
  nothing_behind i fails l j q (over b x) d = absurd (omega (arith, l, b))

  module _ (proper : is_proper r ≡ true) where
    run-misses :
        (i : ℕ)
        → i ≤ length text
        → run text r (start_at text r i) some ≡ none
        → (q : Place) → ¬ (MatchesAt i q)
    unfolding start_at
    run-misses i l e q d =
        let (y, f) = run-IsComplete text r proper (start_at text r i) q some q l d refl in
        absurd (ground (arith, e, f))

    search_from-Leftmost :
        (n i : ℕ) → i ≤ length text → length text - i < n → Leftmost i (search_from text r n i)
    unfolding search_from start_at
    search_from-Leftmost zero i l b = absurd (omega arith)
    search_from-Leftmost (suc n) i l b = elim (Option-cases (run text r (start_at text r i) some)) [
      | inr (q, e) ↦
          let (o, d, same) = run-IsSound text r (start_at text r i) some q e in
          let at_q : MatchesAt i q = subst (MatchesAt i) (some-injective same) d in
          rw (search_from, e)
            (first i q here at_q (λ j o x b. absurd (omega (arith, Runes-le text x, b))))
      | inl e ↦ elim (List-cases (drop i text)) [
        | inl d ↦
            let n : length (drop i text) ≡ 0 = ap (length {A = ℕ}) d in
            rw (search_from, e, d)
              (nowhere (nothing_behind i (run-misses i l e) (omega (arith, n, length-drop i text))))
        | inr (c, t, d) ↦
            let m : length (drop i text) ≡ suc (length t) = ap (length {A = ℕ}) d in
            let inside : i < length text = omega (arith, m, length-drop i text) in
            let (low, high) = size_at_bounds text i inside in
            let rest = search_from-Leftmost n (i + size_at text i) high (omega (arith, low, b)) in
            rw (search_from, e, d) (Leftmost-over _ inside (run-misses i l e) rest)
      ]
    ]

    first_match-Leftmost : (i : ℕ) → i ≤ length text → Leftmost i (first_match text r i)
    unfolding first_match
    first_match-Leftmost i l = search_from-Leftmost (suc (length text - i)) i l (omega arith)

  -- Matches one behind the other from a place on, none of them empty, each the leftmost that is
  -- left, and none behind the last.
  pub data Exhausts : ℕ → List Found → Type 0 where
    nothing_left :
        {i : ℕ} → ((j : ℕ) (q : Place) → Runes text j i → ¬ (MatchesAt j q)) → Exhausts i []
    next_found :
        {i : ℕ} (s : ℕ) (q : Place) {ms : List Found}
        → Runes text s i
        → MatchesAt s q
        → NoneBefore i s
        → s < q.at
        → q.at ≤ length text
        → Exhausts q.at ms
        → Exhausts i ((s, q) ∷ ms)

  module _ (proper : is_proper r ≡ true) (taking : takes r ≡ true) where
    all_from-suc :
        (n i : ℕ) (last : Option ℕ) (o : Option Found)
        → i ≤ length text
        → ((k : ℕ) (last : Option ℕ)
            → i < k
            → k ≤ length text
            → Exhausts k (all_from text r n k last))
        → first_match text r i ≡ o
        → Leftmost i o
        → Exhausts i (all_from text r (suc n) i last)
    unfolding all_from
    all_from-suc n i last none l rest e (nowhere h) =
        let b : leb i (length text) ≡ true = ground arith in rw (all_from, b, e) (nothing_left h)
    all_from-suc n i last (some _) l rest e (first s q x d h) =
        let b : leb i (length text) ≡ true = ground arith in
        let a : s < q.at = Derives-lt text r (start_at text r s) q taking d in
        let c : q.at ≤ length text =
          Runes-inside text (Derives-Runes text r (start_at text r s) q d)
            (Runes-inside text x l) in
        let z : (q.at == i) ≡ false = ground (arith, Runes-le text x) in
        rw (all_from, b, e, z)
          (next_found s q x d h a c (rest q.at (some q.at) (omega (arith, Runes-le text x, a)) c))

    all_from-Exhausts :
        (n i : ℕ) (last : Option ℕ)
        → i ≤ length text
        → length text - i < n
        → Exhausts i (all_from text r n i last)
    all_from-Exhausts zero i last l b = absurd (omega arith)
    all_from-Exhausts (suc n) i last l b =
        all_from-suc n i last (first_match text r i) l
          (λ k last' a c. all_from-Exhausts n k last' c (omega (arith, a, b, c))) refl
          (first_match-Leftmost proper i l)

    -- An expression that repeats nothing empty and has no empty match: `FindAll` gives matches one
    -- behind the other from the front of the text on, each the leftmost that begins at or behind the
    -- end of the one before, and it stops only where no further match begins at any rune.
    pub find_all-Exhausts : Exhausts 0 (find_all text r)
    unfolding find_all
    find_all-Exhausts =
        all_from-Exhausts (suc (suc (length text))) 0 none (omega arith) (omega arith)

  -- Every match that begins at a rune begins within one that is found.
  pub Exhausts-covers :
      {i : ℕ} {ms : List Found} (j : ℕ) (q : Place)
      → Exhausts i ms
      → Runes text j i
      → MatchesAt j q
      → any (is_within j) ms ≡ true
  unfolding any start_at
  Exhausts-covers j q (nothing_left h) x d = absurd (h j q x d)
  Exhausts-covers j q (next_found s o y e h a b rest) x d = elim (Bool-cases (ltb j s)) [
    | inl early ↦ absurd (h j q x (ltb→lt j s early) d)
    | inr late ↦ elim (Bool-cases (ltb j o.at)) [
      | inl within ↦ ground (arith, late, within)
      | inr behind ↦
          let z : Runes text o.at s = Derives-Runes text r (start_at text r s) o e in
          let w = Runes-between text x (Runes-trans text y z) (ground (arith, behind)) in
          ground (arith, Exhausts-covers j q rest w d)
    ]
  ]

  -- The bounds of what is found lie in the text.
  pub Exhausts-inside :
      {i : ℕ} {ms : List Found}
      → Exhausts i ms
      → All (λ m. (m.0 ≤ m.1.at) × (m.1.at ≤ length text)) ms
  Exhausts-inside (nothing_left h) = tt
  Exhausts-inside (next_found s o y e h a b rest) = ((omega arith, b), Exhausts-inside rest)
