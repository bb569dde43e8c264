-- ===== src/Analyzer/Collect.antt =====
-- internal/analyzer/analyzer.go: `collect` and `anonymizeText` over an engine. What the packages net
-- and unicode answer is `Detectors`; `none` is a panic.
pub mod Fit
pub mod Finds
use shinel.Base.{
  ℕ, Bool, true, false, ◌||◌, List, [], ◌∷◌, ◌++◌, Option, none, some, ◌==◌, if◌then◌else◌, slice,
}
use shinel.Base.Bytes.{Bytes, codes}
use shinel.Analyzer.Conflict.{resolve_conflicts}
use shinel.Analyzer.Custom.{collect_custom}
use shinel.Analyzer.Dictionary.{new_dict}
use shinel.Analyzer.Guesses.{Entity, collect_ml}
use shinel.Analyzer.Luhn.{luhn}
use shinel.Analyzer.Patterns.{email_re, ip_re, card_re}
use shinel.Analyzer.Secrets.{all_of, collect_secrets}
use shinel.Analyzer.Session.{Session}
use shinel.Analyzer.Span.{Span}
use shinel.Analyzer.Sweep.{anonymize_spans}
use shinel.Regexp.{find_all_string_index}

-- Whether a text is an address, and what is known of letters.
pub record Detectors : Type 0 where
  pub is_ip : Bytes → Bool
  pub is_letter : ℕ → Bool
  pub is_digit : ℕ → Bool
  pub lower : ℕ → Bytes
  pub to_upper : Bytes → Bytes

-- The matcher is made of the dictionary, by the package ahocorasick.
pub record AnalyzerEngine : Type 0 where
  pub matcher : Bytes → List ℕ
  pub dict : List Bytes
  pub ml : Option (Bytes → Option (List Entity))

-- `New`.
unfoldable pub new_engine :
    (ℕ → Bytes)
    → (List Bytes → Bytes → List ℕ)
    → List Bytes
    → Option (Bytes → Option (List Entity))
    → AnalyzerEngine
new_engine lower new_matcher custom_words ml =
    let dict = new_dict lower custom_words in
    record { matcher = new_matcher dict; dict = dict; ml = ml }

-- `cardSeparators.Replace`.
unfoldable pub without_separators : Bytes → Bytes
without_separators [] = []
without_separators (b ∷ bs) =
    let rest = without_separators bs in if b == b' ' || b == b'-' then rest else b ∷ rest

-- The matches whose text passes a test.
unfoldable pub passing : (Bytes → Bool) → Bytes → List (ℕ × ℕ) → List (ℕ × ℕ)
passing test text [] = []
passing test text ((a, b) ∷ ms) =
    let rest = passing test text ms in if test (slice a b text) then (a, b) ∷ rest else rest

abbrev pub is_card : Bytes → Bool
is_card s = luhn (without_separators s)

-- `collect` without the words of the dictionary.
unfoldable pub collect_patterns : Detectors → Bytes → List Span
collect_patterns d text =
    all_of (codes "EMAIL") (find_all_string_index email_re text)
    ++ (all_of (codes "IP") (passing d.is_ip text (find_all_string_index ip_re text))
        ++ (all_of (codes "CARD") (passing is_card text (find_all_string_index card_re text))
            ++ collect_secrets d.is_letter text))

unfoldable pub collect : Detectors → AnalyzerEngine → Bytes → Option (List Span)
collect d e text = elim (collect_custom d.is_letter d.is_digit d.lower e.dict e.matcher text) [
  | none ↦ none
  | some custom ↦ some (collect_patterns d text ++ custom)
]

-- The spans that `anonymizeText` sorts.
unfoldable pub detect : Detectors → AnalyzerEngine → Bytes → Option (List Span)
detect d e text = elim (collect d e text) [
  | none ↦ none
  | some sure ↦ some (resolve_conflicts sure (collect_ml d.is_letter d.to_upper e.ml text))
]

unfoldable pub anonymize_text :
    Detectors → AnalyzerEngine → Bytes → Session → Option (Session × Bytes)
anonymize_text d e text sess = elim (detect d e text) [
  | none ↦ none
  | some spans ↦ some (anonymize_spans text spans sess)
]
