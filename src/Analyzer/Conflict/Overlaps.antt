-- ===== src/Analyzer/Conflict/Overlaps.antt =====
-- The overlap index of internal/analyzer/conflict.go against a plain search, and what
-- `resolveConflicts` keeps.
use shinel.Base.{
  ℕ, zero, suc, ◌-◌, ◌≤◌, ◌≡◌, refl, sym, ◌∙◌, ap, Bool, true, false, ◌&&◌, ◌||◌, List, [], ◌∷◌,
  ◌++◌, Option, none, some, leb, ltb, ◌==◌, if◌then◌else◌, length, get_elem?, arith, Bool-cases,
  inl, inr, append_assoc, append-nil,
}
use mathlib.Core.Path.{fun_ext}
use shinel.Base.Sort.{any, All, sort_by, IsSorted, IsOrder, any-sort_by, sort_by-IsSorted}
use shinel.Analyzer.Conflict.{
  by_start, furthest, ends_from, new_overlap_index, sort_search, starts_behind, overlaps,
  merge_guesses, resolve_conflicts,
}
use shinel.Analyzer.Conflict.Search.{sort_search_lem}
use shinel.Analyzer.Span.{Span}

-- Two half-open ranges have a byte in common.
abbrev pub meets : Span → Span → Bool
meets g s = ltb s.start g.end && ltb g.start s.end

pub by_start-IsOrder : IsOrder by_start
by_start-IsOrder = record { asym = λ x y h. ground arith; trans = λ x y z h k. ground arith }

-- How many spans, from the front, start before `g` ends.
abbrev lead : Span → List Span → ℕ
lead g [] = 0
lead g (s ∷ ss) = if ltb s.start g.end then suc (lead g ss) else 0

lead-le-length : (g : Span) (ss : List Span) → lead g ss ≤ length ss
lead-le-length g [] = omega arith
lead-le-length g (s ∷ ss) = ground (arith, lead-le-length g ss)

-- Nothing starts before `s`: spans behind one that is too late are too late.
late :
    (g s : Span) (ss : List Span)
    → ltb s.start g.end ≡ false
    → All (λ y. by_start y s ≡ false) ss
    → (i : ℕ) → starts_behind ss g i ≡ true
late g s [] e h i = refl
late g s (x ∷ ss) e (hx, h) zero = ground arith
late g s (x ∷ ss) e (hx, h) (suc i) = late g s ss e h i

starts_behind-lead :
    (g : Span) (ss : List Span)
    → IsSorted by_start ss
    → (i : ℕ) → starts_behind ss g i ≡ leb (lead g ss) i
starts_behind-lead g [] h i = ground arith
starts_behind-lead g (s ∷ ss) (h, k) zero = ground arith
starts_behind-lead g (s ∷ ss) (h, k) (suc i) = elim (Bool-cases (ltb s.start g.end)) [
  | inl e ↦ rw e (starts_behind-lead g ss k i ∙ ground arith)
  | inr e ↦ rw e (late g s ss e h i ∙ ground arith)
]

late-any :
    (g s : Span) (ss : List Span)
    → ltb s.start g.end ≡ false
    → All (λ y. by_start y s ≡ false) ss
    → any (meets g) ss ≡ false
unfolding any
late-any g s [] e h = refl
late-any g s (x ∷ ss) e (hx, h) = ground (arith, late-any g s ss e h)

-- The furthest end before, against the start of `g`.
abbrev reaches : Span → Option ℕ → Bool
reaches g none = false
reaches g (some p) = ltb g.start p

abbrev end_at : Span → List ℕ → ℕ → Bool
end_at g ms i = elim (get_elem? ms i) [ none ↦ false | some m ↦ ltb g.start m ]

reaches-furthest :
    (g : Span) (before : Option ℕ) (s : Span)
    → ltb g.start (furthest before s) ≡ (reaches g before || ltb g.start s.end)
unfolding furthest
reaches-furthest g none s = refl
reaches-furthest g (some p) s = ground arith

-- The entry for the last span that starts before `g` ends tells whether one of those up to there
-- reaches into `g`.
ends_from-any :
    (g : Span) (before : Option ℕ) (s : Span) (ss : List Span)
    → IsSorted by_start (s ∷ ss)
    → ltb s.start g.end ≡ true
    → end_at g (ends_from before (s ∷ ss)) (lead g ss)
      ≡ (reaches g before || any (meets g) (s ∷ ss))
unfolding any ends_from
ends_from-any g before s [] h e = ground (arith, reaches-furthest g before s)
ends_from-any g before s (x ∷ ss) (h, k) e = elim (Bool-cases (ltb x.start g.end)) [
  | inl e' ↦ rw e' (
      unfold any in
      ground
        (arith, ends_from-any g (some (furthest before s)) x ss k e', reaches-furthest g before s))
  | inr e' ↦ rw e' (ground (arith, reaches-furthest g before s, late-any g x ss e' k.0))
]

before_last :
    (g : Span) (ms : List ℕ) (n : ℕ)
    → (if suc n == 0 then false else end_at g ms (suc n - 1)) ≡ end_at g ms n
before_last g ms n = let e : suc n - 1 ≡ n = omega arith in rw e (ground arith)

none_meets :
    (g s : Span) (ss : List Span)
    → ltb s.start g.end ≡ false
    → All (λ y. by_start y s ≡ false) ss
    → any (meets g) (s ∷ ss) ≡ false
unfolding any
none_meets g s ss e h = ground (arith, late-any g s ss e h)

search-lead :
    (g : Span) (ss : List Span)
    → IsSorted by_start ss
    → sort_search (length ss) (starts_behind ss g) ≡ lead g ss
search-lead g ss h =
    ap (sort_search (length ss)) (fun_ext (starts_behind-lead g ss h))
    ∙ sort_search_lem (length ss) (lead g ss) (lead-le-length g ss)

overlaps_sorted :
    (g : Span) (ss : List Span)
    → IsSorted by_start ss
    → overlaps (record { sure = ss; max_end = ends_from none ss }) g ≡ any (meets g) ss
unfolding overlaps
overlaps_sorted g ss h = rw (search-lead g ss h) (at_lead ss h)
  where
    at_lead :
        (ss : List Span)
        → IsSorted by_start ss
        → (if lead g ss == 0 then false else end_at g (ends_from none ss) (lead g ss - 1))
          ≡ any (meets g) ss
    at_lead [] h = unfold any in refl
    at_lead (s ∷ ss) (h, k) = elim (Bool-cases (ltb s.start g.end)) [
      | inl e ↦
          rw e (
            before_last g (ends_from none (s ∷ ss)) (lead g ss)
            ∙ ends_from-any g none s ss (h, k) e)
      | inr e ↦ rw e (sym (none_meets g s ss e h))
    ]

-- The index answers, by a binary search, whether some trusted span overlaps the guess.
pub overlaps-any :
    (sure : List Span) (g : Span) → overlaps (new_overlap_index sure) g ≡ any (meets g) sure
unfolding new_overlap_index
overlaps-any sure g =
    overlaps_sorted g (sort_by by_start sure) (sort_by-IsSorted by_start-IsOrder sure)
    ∙ any-sort_by (meets g) by_start sure

-- The guesses that meet no trusted span, in order.
abbrev pub unclaimed : List Span → List Span → List Span
unclaimed sure [] = []
unclaimed sure (g ∷ gs) = if any (meets g) sure then unclaimed sure gs else g ∷ unclaimed sure gs

merge_guesses-unclaimed :
    (sure merged gs : List Span)
    → merge_guesses (new_overlap_index sure) merged gs ≡ merged ++ unclaimed sure gs
unfolding merge_guesses
merge_guesses-unclaimed sure merged [] = sym (append-nil merged)
merge_guesses-unclaimed sure merged (g ∷ gs) = elim (Bool-cases (any (meets g) sure)) [
  | inl e ↦ rw (overlaps-any, e) (merge_guesses-unclaimed sure merged gs)
  | inr e ↦
      rw (overlaps-any, e)
        (merge_guesses-unclaimed sure (merged ++ g ∷ []) gs ∙ append_assoc merged (g ∷ []) _)
]

-- The trusted spans all stay, in front, and of the guesses exactly those that overlap none of
-- them, in their order.
pub resolve_conflicts-unclaimed :
    (sure guess : List Span) → resolve_conflicts sure guess ≡ sure ++ unclaimed sure guess
unfolding resolve_conflicts
resolve_conflicts-unclaimed sure [] = sym (append-nil sure)
resolve_conflicts-unclaimed sure (g ∷ gs) = merge_guesses-unclaimed sure sure (g ∷ gs)
