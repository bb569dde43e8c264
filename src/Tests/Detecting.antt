-- ===== src/Tests/Detecting.antt =====
-- internal/analyzer/secrets.go and the dictionary of internal/analyzer/analyzer.go on concrete
-- texts.
use shinel.Base.{ℕ, ◌≡◌, refl, Bool, true, false, List, [], ◌∷◌, if◌then◌else◌, ◌+◌}
use shinel.Base.Bytes.{Bytes, codes, bytes_eq, is_upper}
use shinel.Base.Utf8.{decode_rune}
use shinel.Analyzer.Dictionary.{
  fold_from, fold_for_match, fold_string, repeated, seen_in, add_words, new_dict,
}
use shinel.Analyzer.Dictionary.Words.{IsDict, new_dict-IsDict}
use shinel.Analyzer.Guesses.{prose_from, looks_like_prose}
use shinel.Analyzer.Secrets.{
  all_of, group_at, first_group, value_range, trim_marks, bare_value, context_span, spans_of,
  context_spans, collect_password_context, keys_in, collect_secrets,
}
use shinel.Analyzer.Patterns.{password_assign_re, password_is_re, key_res}
use shinel.Regexp.{find_all_string_index, find_all_string_submatch_index}

abbrev no_letter : ℕ → Bool
no_letter r = false

located :
    collect_secrets no_letter (codes "pwd=hunter2.,")
    ≡ record { start = 4; end = 11; kind = codes "PASSWORD" } ∷ []
unfolding collect_secrets collect_password_context context_spans spans_of context_span bare_value
    value_range first_group group_at trim_marks keys_in looks_like_prose prose_from decode_rune
    find_all_string_submatch_index find_all_string_index password_assign_re password_is_re key_res
    all_of
located = refl

-- A bare word behind "is" is prose; in quotes it is a password.
said :
    collect_password_context (λ r. true) (codes "pwd is bad, pwd is \"bad\"")
    ≡ record { start = 20; end = 23; kind = codes "PASSWORD" } ∷ []
unfolding collect_password_context context_spans spans_of context_span bare_value value_range
    first_group group_at trim_marks looks_like_prose prose_from decode_rune
    find_all_string_submatch_index password_assign_re password_is_re
said = refl

-- The lower case of ASCII.
abbrev lower : ℕ → Bytes
lower r = if is_upper r then (r + 32) ∷ [] else r ∷ []

abbrev words : List Bytes
words = codes "John" ∷ [] ∷ codes "john" ∷ codes "ACME" ∷ []

folded_words : new_dict lower words ≡ codes "john" ∷ codes "acme" ∷ []
unfolding new_dict add_words seen_in fold_string fold_for_match fold_from repeated decode_rune
    bytes_eq
folded_words = refl

new_dict-IsDict_example : IsDict lower [] words (new_dict lower words)
new_dict-IsDict_example = new_dict-IsDict lower words
