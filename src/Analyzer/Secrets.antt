-- ===== src/Analyzer/Secrets.antt =====
-- internal/analyzer/secrets.go: `contextSpans` and `collectSecrets`.
pub mod Located
use shinel.Base.{
  ℕ, ◌+◌, ◌*◌, Bool, true, false, ◌&&◌, ◌||◌, List, [], ◌∷◌, ◌++◌, Option, none, some, leb, ◌==◌,
  if◌then◌else◌, length, get_elem?, slice, is_empty,
}
use shinel.Base.Bytes.{Bytes, codes}
use shinel.Base.Int.{ℤ, pos, negsuc}
use shinel.Analyzer.Guesses.{looks_like_prose}
use shinel.Analyzer.Patterns.{password_assign_re, password_is_re, key_res}
use shinel.Analyzer.Span.{Span}
use shinel.Regexp.{Regexp, find_all_string_index, find_all_string_submatch_index}

-- One round of the loop of `valueRange`: the bounds of a group that has matched.
unfoldable pub group_at : List ℤ → ℕ → Option (ℤ × ℤ)
group_at idx i = elim (get_elem? idx (3 + 2 * i)) [
  | none ↦ none
  | some b ↦ elim (get_elem? idx (2 + 2 * i)) [
    | none ↦ none
    | some a ↦ elim a [ pos n ↦ some (pos n, b) | negsuc n ↦ none ]
  ]
]

-- The first of the groups that has matched, and whether it was quoted.
unfoldable pub first_group : List ℤ → List (ℕ × Bool) → ℤ × ℤ × Bool
first_group idx [] = (negsuc 0, negsuc 0, false)
first_group idx ((i, q) ∷ groups) = elim (group_at idx i) [
  | none ↦ first_group idx groups
  | some (a, b) ↦ (a, b, q)
]

unfoldable pub value_range : List ℤ → ℤ × ℤ × Bool
value_range idx = first_group idx ((0, true) ∷ (1, true) ∷ (2, false) ∷ [])

-- `strings.TrimRight(s, ".,;")`.
unfoldable pub trim_marks : Bytes → Bytes
trim_marks [] = []
trim_marks (b ∷ bs) =
    let rest = trim_marks bs in
    if is_empty rest && (b == b'.' || b == b',' || b == b';') then [] else b ∷ rest

abbrev pub password_at : ℕ → ℕ → Option Span
password_at start end = some (record { start = start; end = end; kind = codes "PASSWORD" })

module _ (is_letter : ℕ → Bool) where
  -- The tests on a value that is not quoted.
  unfoldable pub bare_value : Bool → Bytes → ℕ → ℕ → Option Span
  bare_value skip_prose text start end =
      let stop = start + length (trim_marks (slice start end text)) in
      if leb stop start
      then none
      else if skip_prose && looks_like_prose is_letter (slice start stop text)
      then none
      else password_at start stop

  -- One round of the loop of `contextSpans`.
  unfoldable pub context_span : Bool → Bytes → ℤ × ℤ × Bool → Option Span
  context_span skip_prose text (negsuc s, end, quoted) = none
  context_span skip_prose text (pos s, negsuc e, quoted) = none
  context_span skip_prose text (pos s, pos e, quoted) =
      if leb e s then none else if quoted then password_at s e else bare_value skip_prose text s e

  unfoldable pub spans_of : Bool → Bytes → List (List ℤ) → List Span
  spans_of skip_prose text [] = []
  spans_of skip_prose text (idx ∷ matches) =
      let rest = spans_of skip_prose text matches in
      elim (context_span skip_prose text (value_range idx)) [ none ↦ rest | some s ↦ s ∷ rest ]

  unfoldable pub context_spans : Bytes → Regexp → Bool → List Span
  context_spans text re skip_prose =
      spans_of skip_prose text (find_all_string_submatch_index re text)

  unfoldable pub collect_password_context : Bytes → List Span
  collect_password_context text =
      context_spans text password_assign_re false ++ context_spans text password_is_re true

unfoldable pub all_of : Bytes → List (ℕ × ℕ) → List Span
all_of kind [] = []
all_of kind ((a, b) ∷ ms) = record { start = a; end = b; kind = kind } ∷ all_of kind ms

-- The loop over the expressions for keys of known forms.
unfoldable pub keys_in : List Regexp → Bytes → List Span
keys_in [] text = []
keys_in (re ∷ res) text =
    all_of (codes "SECRET") (find_all_string_index re text) ++ keys_in res text

unfoldable pub collect_secrets : (ℕ → Bool) → Bytes → List Span
collect_secrets is_letter text = collect_password_context is_letter text ++ keys_in key_res text
