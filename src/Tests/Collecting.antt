-- ===== src/Tests/Collecting.antt =====
-- internal/analyzer/analyzer.go on a text with a custom word.
use shinel.Base.{
  ℕ, ◌≡◌, refl, Bool, true, false, ◌&&◌, List, [], ◌∷◌, Option, none, some, arith, leb,
}
use shinel.Base.Bytes.{Bytes, codes}
use shinel.Base.Sort.{All, any}
use shinel.Base.Utf8.{decode_rune}
use shinel.Analyzer.Collect.{Detectors, new_engine, detect}
use shinel.Analyzer.Collect.Fit.{HitsInside, detect-Fits}
use shinel.Analyzer.Collect.Finds.{covers, mail, detect-Finds}
use shinel.Analyzer.Patterns.{email_re}
use shinel.Regexp.{Place, start_at, run}
use shinel.Regexp.Derives.{run-IsSound}
use shinel.Regexp.Places.{here}
use shinel.Analyzer.Json.{Json, string, array, object, no_items, item, no_fields, field}
use shinel.Analyzer.Session.{Session, new_session}
use shinel.Analyzer.Span.{Span}
use shinel.Analyzer.Sweep.{anonymize_spans}
use shinel.Analyzer.Sweep.Covers.{replace_all, Chosen, anonymize_spans-Covered}
use shinel.Analyzer.Sweep.Masks.{Fits}
use shinel.Tests.Masking.{text, spans}

-- A matcher that reports the first word.
abbrev pub first_word : List Bytes → Bytes → List ℕ
first_word [] s = []
first_word (w ∷ dict) s = 0 ∷ []

pub first_word-HitsInside : HitsInside first_word
first_word-HitsInside [] s = tt
first_word-HitsInside (w ∷ dict) s = (omega arith, tt)

abbrev is_lower : ℕ → Bool
is_lower r = leb b'a' r && leb r b'z'

abbrev pub detectors : Detectors
detectors = record {
  is_ip = λ t. false;
  is_letter = is_lower;
  is_digit = λ r. false;
  lower = λ r. r ∷ [];
  to_upper = λ t. t;
}

abbrev words : List Bytes
words = codes "bob" ∷ []

detect-Fits_example :
    (spans : List Span) × (detect detectors
        (new_engine detectors.lower first_word words none)
        (codes "hi bob")
      ≡ some spans)
    × All (Fits (codes "hi bob")) spans
detect-Fits_example =
    detect-Fits detectors first_word first_word-HitsInside words none (codes "hi bob")

abbrev no_marshal : Json → Option Bytes
no_marshal v = none

-- A decoder that takes every text for an object with a secret.
abbrev secret_tree : Json
secret_tree = object (
    field (codes "api-key") (string (codes "k"))
      (field (codes "said") (array (item (string (codes "hi bob")) no_items)) no_fields))

abbrev one_parse : Bytes → Option Json
one_parse t = some secret_tree

anonymize_spans-Covered_example :
    (ts : List Span) × (anonymize_spans text spans new_session
      ≡ replace_all text ts 0 new_session [])
    × Chosen spans ts
anonymize_spans-Covered_example = anonymize_spans-Covered text spans new_session

abbrev mail_text : Bytes
mail_text = codes "a@b.cd"

abbrev mail_start : Place
mail_start = start_at mail_text email_re 0

mail_run : run mail_text email_re mail_start some ≡ some (record { at = 6; groups = [] })
unfolding run email_re start_at decode_rune
mail_run = refl

detect-Finds_example :
    (spans : List Span) × (detect detectors
        (new_engine detectors.lower first_word words none)
        mail_text
      ≡ some spans)
    × (any (covers (codes "EMAIL") 0) spans ≡ true)
detect-Finds_example =
    let (q, d, _) = run-IsSound mail_text email_re mail_start some _ mail_run in
    detect-Finds mail_text 0 q here detectors first_word first_word-HitsInside words none mail d
