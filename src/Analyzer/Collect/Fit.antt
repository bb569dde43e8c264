-- ===== src/Analyzer/Collect/Fit.antt =====
-- What all the detectors of internal/analyzer/analyzer.go find together.
use shinel.Base.{
  ℕ, ◌≤◌, ◌<◌, ◌≡◌, refl, Bool, List, [], ◌∷◌, ◌++◌, Option, some, length, slice, Bool-cases, inl,
  inr,
}
use shinel.Base.Bytes.{Bytes, codes}
use shinel.Base.Sort.{All, All-append, any}
use shinel.Analyzer.Collect.{
  Detectors, AnalyzerEngine, new_engine, passing, is_card, collect_patterns, collect, detect,
  anonymize_text,
}
use shinel.Analyzer.Conflict.{resolve_conflicts}
use shinel.Analyzer.Conflict.Overlaps.{meets, unclaimed, resolve_conflicts-unclaimed}
use shinel.Analyzer.Custom.Found.{collect_custom-Fits}
use shinel.Analyzer.Dictionary.Words.{new_dict-IsDict}
use shinel.Analyzer.Dictionary.{new_dict}
use shinel.Analyzer.Guesses.{Entity, collect_ml}
use shinel.Analyzer.Guesses.Valid.{collect_ml-Fits}
use shinel.Analyzer.Json.{Json}
use shinel.Analyzer.Patterns.{email_re, ip_re, card_re}
use shinel.Analyzer.Patterns.Searchable.{
  email_re-IsSearchable, ip_re-IsSearchable, card_re-IsSearchable,
}
use shinel.Analyzer.Secrets.Located.{all_of-Fits, collect_secrets-Fits}
use shinel.Analyzer.Session.{Session}
use shinel.Analyzer.Session.Sound.{IsSound}
use shinel.Analyzer.Span.{Span}
use shinel.Analyzer.Sweep.{anonymize_spans}
use shinel.Analyzer.Sweep.Masks.{Fits, Swept, anonymize_spans-Swept}
use shinel.Proxy.Token.{Letters}
use shinel.Proxy.Token.Tests.{Letters-of_all_upper}
use shinel.Regexp.{Regexp}
use shinel.Regexp.Searches.{IsSearchable, find_all_string_index-inside}

-- What the package ahocorasick says of its hits: each is the index of a word.
abbrev pub HitsInside : (List Bytes → Bytes → List ℕ) → Type 0
HitsInside new_matcher =
    (dict : List Bytes) (s : Bytes) → All (λ i. i < length dict) (new_matcher dict s)

abbrev Inside : Bytes → List (ℕ × ℕ) → Type 0
Inside text ms = All (λ m. (m.0 ≤ m.1) × (m.1 ≤ length text)) ms

passing-Inside :
    (test : Bytes → Bool) (text : Bytes) (ms : List (ℕ × ℕ))
    → Inside text ms
    → Inside text (passing test text ms)
unfolding passing
passing-Inside test text [] h = tt
passing-Inside test text ((a, b) ∷ ms) (p, h) = elim (Bool-cases (test (slice a b text))) [
  | inl y ↦ rw y (p, passing-Inside test text ms h)
  | inr n ↦ rw n (passing-Inside test text ms h)
]

email-Letters : Letters (codes "EMAIL")
email-Letters = Letters-of_all_upper b'E' (codes "MAIL") refl

ip-Letters : Letters (codes "IP")
ip-Letters = Letters-of_all_upper b'I' (codes "P") refl

card-Letters : Letters (codes "CARD")
card-Letters = Letters-of_all_upper b'C' (codes "ARD") refl

collect_patterns-Fits : (d : Detectors) (text : Bytes) → All (Fits text) (collect_patterns d text)
unfolding collect_patterns
collect_patterns-Fits d text =
    let inside = λ (r : Regexp) (s : IsSearchable r). find_all_string_index-inside r text s in
    All-append (Fits text) _ _
      (all_of-Fits text email-Letters _ (inside email_re email_re-IsSearchable))
      (All-append (Fits text) _ _
        (all_of-Fits text ip-Letters _
          (passing-Inside d.is_ip text _ (inside ip_re ip_re-IsSearchable)))
        (All-append (Fits text) _ _
          (all_of-Fits text card-Letters _
            (passing-Inside is_card text _ (inside card_re card_re-IsSearchable)))
          (collect_secrets-Fits d.is_letter text)))

unclaimed-Fits :
    (text : Bytes) (sure guess : List Span)
    → All (Fits text) guess
    → All (Fits text) (unclaimed sure guess)
unclaimed-Fits text sure [] h = tt
unclaimed-Fits text sure (g ∷ gs) (p, h) = elim (Bool-cases (any (meets g) sure)) [
  | inl y ↦ rw y (unclaimed-Fits text sure gs h)
  | inr n ↦ rw n (p, unclaimed-Fits text sure gs h)
]

module _ (d : Detectors) (new_matcher : List Bytes → Bytes → List ℕ) (hits : HitsInside new_matcher)
    (custom_words : List Bytes) (ml : Option (Bytes → Option (List Entity))) where
  abbrev engine : AnalyzerEngine
  engine = new_engine d.lower new_matcher custom_words ml

  -- Where the matcher reports words of the dictionary:
  -- an engine that `New` makes finds spans in every text, its loops end and no index is out of range,
  -- and every span lies in the text, in order, with a kind of capital letters.
  pub detect-Fits :
      (text : Bytes)
      → (spans : List Span) × (detect d engine text ≡ some spans) × All (Fits text) spans
  unfolding detect collect new_engine
  detect-Fits text =
      let dict = new_dict d.lower custom_words in
      let (custom, e, f) =
        collect_custom-Fits d.is_letter d.is_digit d.lower dict (new_matcher dict) text
          (new_dict-IsDict d.lower custom_words).no_empty (hits dict) in
      let sure = collect_patterns d text ++ custom in
      let guess = collect_ml d.is_letter d.to_upper ml text in
      let h = All-append (Fits text) _ custom (collect_patterns-Fits d text) f in
      (
        resolve_conflicts sure guess,
        rw (detect, collect, e),
        rw resolve_conflicts-unclaimed (
            All-append (Fits text) sure _ h
              (unclaimed-Fits text sure guess (collect_ml-Fits d.is_letter d.to_upper ml text))),
      )

  -- Whatever the text, the custom words and the replies of the ML engine are, `anonymizeText` on an
  -- engine that `New` makes ends without a panic, with the text in which stretches are replaced by
  -- tokens that the session has for those very stretches, and with a session that is sound again
  -- and has all that it had.
  pub anonymize_text-Swept :
      (text : Bytes) (sess : Session)
      → IsSound sess
      → (r : Session × Bytes) × (anonymize_text d engine text sess ≡ some r)
        × Swept text 0 sess [] r
  unfolding anonymize_text
  anonymize_text-Swept text sess s =
      let (spans, e, f) = detect-Fits text in
      (
        anonymize_spans text spans sess,
        rw (anonymize_text, e),
        anonymize_spans-Swept text spans f s,
      )
