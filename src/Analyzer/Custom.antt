-- ===== src/Analyzer/Custom.antt =====
-- internal/analyzer/analyzer.go: `collectCustom`, which finds the words of the dictionary. Which of
-- them occur is the answer of the package ahocorasick, and what a letter or a digit is, of the
-- package unicode. `none` is a panic of an index out of range.
pub mod Found
use shinel.Base.{
  ℕ, zero, suc, ◌+◌, ◌-◌, Bool, true, false, ◌||◌, List, [], ◌∷◌, Option, none, some, ltb, ◌==◌,
  if◌then◌else◌, length, get_elem?, drop, take, is_empty, ◌++◌,
}
use shinel.Base.Bytes.{Bytes, codes}
use shinel.Base.Utf8.{decode_rune, decode_last_rune}
use shinel.Analyzer.Dictionary.{fold_for_match, new_dict}
use shinel.Analyzer.Span.{Span}

-- `strings.HasPrefix(s, word)`.
unfoldable pub has_prefix : Bytes → Bytes → Bool
has_prefix [] s = true
has_prefix (b ∷ word) [] = false
has_prefix (b ∷ word) (c ∷ s) = if b == c then has_prefix word s else false

-- `strings.Index(s, word)`, `none` for -1.
unfoldable pub index_of : Bytes → Bytes → Option ℕ
index_of word [] = if is_empty word then some 0 else none
index_of word (c ∷ s) =
    let later = index_of word s in
    if has_prefix word (c ∷ s) then some 0 else elim later [ none ↦ none | some j ↦ some (j + 1) ]

module _ (is_letter is_digit : ℕ → Bool) where
  unfoldable pub is_word_char : ℕ → Bool
  is_word_char r = is_letter r || is_digit r || r == b'_'

  -- The two tests of `wordBounded`.
  unfoldable pub word_before : Bytes → ℕ → Bool
  word_before text start =
      if ltb 0 start then is_word_char (decode_last_rune (take start text)).0 else false

  unfoldable pub word_behind : Bytes → ℕ → Bool
  word_behind text end =
      if ltb end (length text) then is_word_char (decode_rune (drop end text)).0 else false

  unfoldable pub word_bounded : Bytes → ℕ → ℕ → Bool
  word_bounded text start end =
      if word_before text start then false else if word_behind text end then false else true

  -- The span of one occurrence, if words end there, in front of the rest.
  unfoldable pub put_bounded : Bytes → ℕ → ℕ → List Span → List Span
  put_bounded text start end rest =
      if word_bounded text start end
      then record { start = start; end = end; kind = codes "CUSTOM" } ∷ rest
      else rest

  -- The inner loop from offset `off`, on fuel.
  unfoldable pub occurrences : ℕ → Bytes → Bytes → List ℕ → Bytes → ℕ → Option (List Span)
  occurrences zero text folded orig_of word off = none
  occurrences (suc fuel) text folded orig_of word off = elim (index_of word (drop off folded)) [
    | none ↦ some []
    | some j ↦ elim (get_elem? orig_of (off + j)) [
      | none ↦ none
      | some start ↦ elim (get_elem? orig_of (off + j + length word)) [
        | none ↦ none
        | some end ↦ elim (occurrences fuel text folded orig_of word (off + j + length word)) [
          | none ↦ none
          | some rest ↦ some (put_bounded text start end rest)
        ]
      ]
    ]
  ]

  -- The outer loop, over the words that occur. Each round of the inner loop takes a byte at least.
  unfoldable pub words_found : List Bytes → Bytes → Bytes → List ℕ → List ℕ → Option (List Span)
  words_found dict text folded orig_of [] = some []
  words_found dict text folded orig_of (i ∷ hits) = elim (get_elem? dict i) [
    | none ↦ none
    | some word ↦ elim (occurrences (length folded + 1) text folded orig_of word 0) [
      | none ↦ none
      | some spans ↦ elim (words_found dict text folded orig_of hits) [
        | none ↦ none
        | some rest ↦ some (spans ++ rest)
      ]
    ]
  ]

  -- `collectCustom`; there is a matcher where the dictionary has a word.
  unfoldable pub collect_custom :
      (ℕ → Bytes) → List Bytes → (Bytes → List ℕ) → Bytes → Option (List Span)
  collect_custom lower [] matcher text = some []
  collect_custom lower (w ∷ dict) matcher text =
      let (folded, orig_of) = fold_for_match lower text in
      words_found (w ∷ dict) text folded orig_of (matcher folded)
