-- ===== src/Analyzer/Dictionary.antt =====
-- internal/analyzer/analyzer.go: the words of the dictionary. The lower case of a character, in
-- UTF-8, and whether it belongs to a word are unicode's; which words of the dictionary occur is
-- the answer of the package ahocorasick.
pub mod Words
use shinel.Base.{
  ℕ, zero, suc, ◌+◌, ◌-◌, Bool, true, false, ◌&&◌, not, List, [], ◌∷◌, ◌++◌, Option, none, some,
  ltb, ◌==◌, if◌then◌else◌, length, get_elem?, drop, take, is_empty,
}
use shinel.Base.Bytes.{Bytes, codes, bytes_eq}
use shinel.Base.Utf8.{decode_rune}
use shinel.Analyzer.Span.{Span}

-- As many times the same offset as there are bytes.
unfoldable pub repeated : ℕ → Bytes → List ℕ
repeated i [] = []
repeated i (b ∷ bs) = i ∷ repeated i bs

-- Whether a word has been added.
unfoldable pub seen_in : Bytes → List Bytes → Bool
seen_in w [] = false
seen_in w (x ∷ xs) = if bytes_eq x w then true else seen_in w xs

module _ (lower : ℕ → Bytes) where
  -- The loop of `foldForMatch` from offset `at`; the first number counts bytes of a character
  -- already seen. The last offset is that of the end.
  unfoldable pub fold_from : ℕ → ℕ → Bytes → Bytes × List ℕ
  fold_from skip at [] = ([], at ∷ [])
  fold_from zero at (b ∷ bs) =
      let (r, size) = decode_rune (b ∷ bs) in
      let low = lower r in
      let (folded, orig_of) = fold_from (size - 1) (at + 1) bs in
      (low ++ folded, repeated at low ++ orig_of)
  fold_from (suc skip) at (b ∷ bs) = fold_from skip (at + 1) bs

  unfoldable pub fold_for_match : Bytes → Bytes × List ℕ
  fold_for_match s = fold_from 0 0 s

  unfoldable pub fold_string : Bytes → Bytes
  fold_string s = (fold_for_match s).0

  -- The loop of `New`: words in lower case, without empty and repeated ones.
  unfoldable pub add_words : List Bytes → List Bytes → List Bytes
  add_words dict [] = dict
  add_words dict (w ∷ ws) =
      let folded = fold_string w in
      if is_empty folded
      then add_words dict ws
      else if seen_in folded dict
      then add_words dict ws
      else add_words (dict ++ folded ∷ []) ws

  unfoldable pub new_dict : List Bytes → List Bytes
  new_dict custom_words = add_words [] custom_words
