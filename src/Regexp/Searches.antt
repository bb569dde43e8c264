-- ===== src/Regexp/Searches.antt =====
-- What `FindAllStringIndex` and `FindAllStringSubmatchIndex` give.
use shinel.Base.{◌≤◌, ◌≡◌, true, List, [], ◌∷◌, length}
use shinel.Base.Bytes.{Bytes}
use shinel.Base.Sort.{All}
use shinel.Regexp.{
  Regexp, Found, indices, find_all, find_all_string_index, find_all_string_submatch_index,
}
use shinel.Regexp.Exhausts.{Exhausts-inside, find_all-Exhausts}
use shinel.Regexp.Groups.{IsBound, submatches-IsBound}
use shinel.Regexp.Places.{takes, is_proper}

-- It repeats nothing empty, and has no empty match.
pub record IsSearchable (r : Regexp) : Type 0 where
  pub proper : is_proper r ≡ true
  pub taking : takes r ≡ true

module _ (r : Regexp) (text : Bytes) where
  indices-inside :
      (ms : List Found)
      → All (λ m. (m.0 ≤ m.1.at) × (m.1.at ≤ length text)) ms
      → All (λ m. (m.0 ≤ m.1) × (m.1 ≤ length text)) (indices ms)
  unfolding indices
  indices-inside [] h = tt
  indices-inside ((s, q) ∷ ms) (p, h) = (p, indices-inside ms h)

  pub find_all_string_index-inside :
      IsSearchable r → All (λ m. (m.0 ≤ m.1) × (m.1 ≤ length text)) (find_all_string_index r text)
  unfolding find_all_string_index
  find_all_string_index-inside h =
      indices-inside (find_all text r)
        (Exhausts-inside text r (find_all-Exhausts text r h.proper h.taking))

  pub find_all_string_submatch_index-IsBound :
      IsSearchable r → All (All (IsBound text)) (find_all_string_submatch_index r text)
  unfolding find_all_string_submatch_index
  find_all_string_submatch_index-IsBound h =
      submatches-IsBound text r (find_all-Exhausts text r h.proper h.taking)
