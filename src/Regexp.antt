-- ===== src/Regexp.antt =====
-- The package regexp on byte strings, as internal/analyzer uses it: expressions as trees, the
-- search for the leftmost match that the order of the alternatives prefers, by backtracking, and
-- `FindAllStringSubmatchIndex`. What is repeated without bound takes at least one rune.
pub mod Classes
pub mod Derives
pub mod Searches
pub mod Groups
pub mod Exhausts
pub mod Complete
pub mod Places
use shinel.Base.{
  ℕ, zero, suc, ◌+◌, ◌-◌, ◌*◌, Bool, true, false, not, ◌&&◌, ◌||◌, List, [], ◌∷◌, Option, none,
  some, leb, max, ◌==◌, if◌then◌else◌, length, get_elem?, set, drop,
}
use shinel.Base.Bytes.{Bytes, is_upper, is_digit}
use shinel.Base.Int.{ℤ, pos, negsuc}
use shinel.Base.Utf8.{decode_rune}

pub data Regexp : Type 0 where
  nothing : Regexp
  rune : (ℕ → Bool) → Regexp
  boundary : Regexp
  seq : Regexp → Regexp → Regexp
  alt : Regexp → Regexp → Regexp
  many : Bool → Regexp → Regexp
  group : ℕ → Regexp → Regexp

-- Where a match stands in the text, and the bounds of its groups, -1 for those that have none.
pub record Place : Type 0 where
  pub at : ℕ
  pub groups : List ℤ

abbrev pub Next : Type 0
Next = Place → Option Place

abbrev pub Run : Type 0
Run = Place → Next → Option Place

unfoldable pub both : Run → Run → Run
both m n p k = m p (λ q. n q k)

unfoldable pub repeat_run : Bool → Run → ℕ → Run
repeat_run greedy m zero p k = k p
repeat_run true m (suc n) p k = elim (m p (λ q. repeat_run true m n q k)) [
  | some r ↦ some r
  | none ↦ k p
]
repeat_run false m (suc n) p k = elim (k p) [
  | some r ↦ some r
  | none ↦ m p (λ q. repeat_run false m n q k)
]

abbrev pub is_word : ℕ → Bool
is_word b = is_digit b || is_upper b || (leb b'a' b && leb b b'z') || b == b'_'

-- The bounds of group `n`, from `start` to where the match stands.
unfoldable pub mark : ℕ → ℕ → Place → Place
mark n start p = record p { groups = set (set p.groups (2 * n) (pos start)) (2 * n + 1) (pos p.at) }

module _ (text : Bytes) where
  -- A rune that is no ASCII has no byte that is.
  unfoldable pub word_at : ℕ → Bool
  word_at i = elim (get_elem? text i) [ none ↦ false | some b ↦ is_word b ]

  unfoldable pub word_before : ℕ → Bool
  unfolding word_at
  word_before zero = false
  word_before (suc i) = word_at i

  unfoldable pub is_boundary : ℕ → Bool
  unfolding word_at word_before
  is_boundary i = if word_before i then not (word_at i) else word_at i

  -- Over one rune that passes the test.
  unfoldable pub step : (ℕ → Bool) → Place → Option Place
  step test p = elim (drop p.at text) [
    | [] ↦ none
    | b ∷ rest ↦
        let (r, size) = decode_rune (b ∷ rest) in
        if test r then some (record p { at = p.at + size }) else none
  ]

  unfoldable pub run : Regexp → Run
  unfolding both repeat_run mark is_boundary step
  run nothing p k = k p
  run (rune test) p k = elim (step test p) [ none ↦ none | some q ↦ k q ]
  run boundary p k = elim (is_boundary p.at) [ true ↦ k p | false ↦ none ]
  run (seq r s) p k = both (run r) (run s) p k
  run (alt r s) p k = elim (run r p k) [ some q ↦ some q | none ↦ run s p k ]
  run (many greedy r) p k = repeat_run greedy (run r) (length text - p.at) p k
  run (group n r) p k = run r p (λ q. k (mark n p.at q))

  -- How many bytes the rune at a place takes.
  unfoldable pub size_at : ℕ → ℕ
  size_at i = (decode_rune (drop i text)).1

unfoldable pub group_count : Regexp → ℕ
group_count nothing = 0
group_count (rune test) = 0
group_count boundary = 0
group_count (seq r s) = group_count r + group_count s
group_count (alt r s) = group_count r + group_count s
group_count (many greedy r) = group_count r
group_count (group n r) = suc (group_count r)

unfoldable pub unset : ℕ → List ℤ
unset zero = []
unset (suc n) = negsuc 0 ∷ negsuc 0 ∷ unset n

-- A match: where it begins, and where it ends with its groups.
abbrev pub Found : Type 0
Found = ℕ × Place

module _ (text : Bytes) (r : Regexp) where
  unfoldable pub start_at : ℕ → Place
  unfolding group_count unset
  start_at i = record { at = i; groups = unset (group_count r) }

  -- The first match that begins at a place or behind it, with fuel for the places.
  unfoldable pub search_from : ℕ → ℕ → Option Found
  unfolding start_at run size_at
  search_from zero i = none
  search_from (suc n) i = elim (run text r (start_at i) some) [
    | some q ↦ some (i, q)
    | none ↦ elim (drop i text) [ [] ↦ none | b ∷ rest ↦ search_from n (i + size_at text i) ]
  ]

  unfoldable pub first_match : ℕ → Option Found
  unfolding search_from
  first_match i = search_from (suc (length text - i)) i

  abbrev pub is_at : Option ℕ → ℕ → Bool
  is_at none i = false
  is_at (some j) i = i == j

  -- The loop of `FindAll`: behind an empty match it goes on by a rune, and an empty match right
  -- behind another match does not count.
  unfoldable pub all_from : ℕ → ℕ → Option ℕ → List Found
  unfolding first_match size_at
  all_from zero i last = []
  all_from (suc n) i last = elim (leb i (length text)) [
    | false ↦ []
    | true ↦ elim (first_match i) [
      | none ↦ []
      | some (s, q) ↦ elim (q.at == i) [
        | false ↦ (s, q) ∷ all_from n q.at (some q.at)
        | true ↦
            let rest = all_from n (i + max 1 (size_at text i)) (some q.at) in
            if is_at last s then rest else (s, q) ∷ rest
      ]
    ]
  ]

  unfoldable pub find_all : List Found
  unfolding all_from
  find_all = all_from (suc (suc (length text))) 0 none

unfoldable pub indices : List Found → List (ℕ × ℕ)
indices [] = []
indices ((s, q) ∷ ms) = (s, q.at) ∷ indices ms

unfoldable pub submatches : List Found → List (List ℤ)
submatches [] = []
submatches ((s, q) ∷ ms) = (pos s ∷ pos q.at ∷ q.groups) ∷ submatches ms

-- `FindAllStringIndex` and `FindAllStringSubmatchIndex`.
unfoldable pub find_all_string_index : Regexp → Bytes → List (ℕ × ℕ)
unfolding find_all indices
find_all_string_index r text = indices (find_all text r)

unfoldable pub find_all_string_submatch_index : Regexp → Bytes → List (List ℤ)
unfolding find_all submatches
find_all_string_submatch_index r text = submatches (find_all text r)
