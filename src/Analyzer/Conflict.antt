-- ===== src/Analyzer/Conflict.antt =====
-- internal/analyzer/conflict.go: `resolveConflicts` and the overlap index.
pub mod Search
pub mod Overlaps
use shinel.Base.{
  ℕ, zero, suc, ◌+◌, ◌-◌, ◌/◌, Bool, true, false, not, List, [], ◌∷◌, ◌++◌, Option, none, some, leb,
  ltb, if◌then◌else◌, length, get_elem?, is_empty, ◌==◌,
}
use shinel.Base.Sort.{sort_by}
use shinel.Analyzer.Span.{Span}

pub record OverlapIndex : Type 0 where
  pub sure : List Span
  pub max_end : List ℕ

abbrev pub by_start : Span → Span → Bool
by_start a b = ltb a.start b.start

-- `maxEnd[i]`, from the entry before it, if there is one.
unfoldable pub furthest : Option ℕ → Span → ℕ
furthest none s = s.end
furthest (some p) s = if ltb s.end p then p else s.end

-- The loop over `maxEnd`; the first argument is the entry before.
unfoldable pub ends_from : Option ℕ → List Span → List ℕ
ends_from before [] = []
ends_from before (s ∷ ss) = furthest before s ∷ ends_from (some (furthest before s)) ss

unfoldable pub new_overlap_index : List Span → OverlapIndex
new_overlap_index sure =
    let idx = sort_by by_start sure in record { sure = idx; max_end = ends_from none idx }

-- `sort.Search`: the loop `for i < j`, on fuel.
unfoldable pub search_between : ℕ → ℕ → ℕ → (ℕ → Bool) → ℕ
search_between zero i j f = i
search_between (suc fuel) i j f =
    let h = (i + j) / 2 in
    let right = search_between fuel (h + 1) j f in
    let left = search_between fuel i h f in
    if ltb i j then (if not (f h) then right else left) else i

-- `n` rounds are enough: each one makes the range shorter.
unfoldable pub sort_search : ℕ → (ℕ → Bool) → ℕ
sort_search n f = search_between n 0 n f

-- `o.sure[i].start >= g.end`; `sort.Search` asks only below the length.
abbrev pub starts_behind : List Span → Span → ℕ → Bool
starts_behind sure g i = elim (get_elem? sure i) [ none ↦ true | some s ↦ leb g.end s.start ]

unfoldable pub overlaps : OverlapIndex → Span → Bool
overlaps o g =
    let i = sort_search (length o.sure) (starts_behind o.sure g) in
    if i == 0
    then false
    else elim (get_elem? o.max_end (i - 1)) [ none ↦ false | some m ↦ ltb g.start m ]

-- The loop over the guesses; `merged` is what has been kept.
unfoldable pub merge_guesses : OverlapIndex → List Span → List Span → List Span
merge_guesses index merged [] = merged
merge_guesses index merged (g ∷ gs) =
    merge_guesses index (if not (overlaps index g) then merged ++ g ∷ [] else merged) gs

unfoldable pub resolve_conflicts : List Span → List Span → List Span
resolve_conflicts sure [] = sure
resolve_conflicts sure (g ∷ gs) = merge_guesses (new_overlap_index sure) sure (g ∷ gs)
