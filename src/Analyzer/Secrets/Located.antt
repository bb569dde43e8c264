-- ===== src/Analyzer/Secrets/Located.antt =====
-- Where internal/analyzer/secrets.go finds secrets.
use shinel.Base.{
  ℕ, ◌+◌, ◌*◌, ◌-◌, ◌≤◌, ◌<◌, ◌≡◌, refl, sym, subst, Bool, true, false, List, [], ◌∷◌, some, length,
  get_elem?, slice, arith, Option-cases, inl, inr, length-take, drop,
}
use shinel.Base.Bytes.{Bytes, codes}
use shinel.Base.Int.{ℤ, pos, negsuc}
use shinel.Base.Sort.{All, All-append, All-get_elem?}
use shinel.Analyzer.Secrets.{
  group_at, first_group, value_range, trim_marks, password_at, bare_value, context_span, spans_of,
  context_spans, collect_password_context, all_of, keys_in, collect_secrets,
}
use shinel.Analyzer.Patterns.{password_assign_re, password_is_re, key_res}
use shinel.Analyzer.Patterns.Searchable.{
  password_assign_re-IsSearchable, password_is_re-IsSearchable, key_res-IsSearchable,
}
use shinel.Analyzer.Span.{Span}
use shinel.Analyzer.Sweep.Masks.{Fits}
use shinel.Proxy.Token.{Letters}
use shinel.Regexp.{Regexp}
use shinel.Regexp.Groups.{IsBound}
use shinel.Regexp.Searches.{
  IsSearchable, find_all_string_index-inside, find_all_string_submatch_index-IsBound,
}
use shinel.Proxy.Token.Tests.{Letters-of_all_upper}

group_at-IsBound :
    (text : Bytes) (idx : List ℤ) (i : ℕ) {r : ℤ × ℤ}
    → All (IsBound text) idx
    → group_at idx i ≡ some r
    → IsBound text r.1
unfolding group_at
group_at-IsBound text idx i {r} h e = elim (Option-cases (get_elem? idx (3 + 2 * i))) [
  | inl m ↦ absurd (ground (arith, e, m))
  | inr (b, m) ↦
      let same : r.1 ≡ b = ground (arith, e, m) in
      rw same (All-get_elem? (IsBound text) idx (3 + 2 * i) h m)
]

first_group-IsBound :
    (text : Bytes) (idx : List ℤ) (groups : List (ℕ × Bool))
    → All (IsBound text) idx
    → IsBound text (first_group idx groups).1
unfolding first_group
first_group-IsBound text idx [] h = λ n e. absurd (ground (arith, e))
first_group-IsBound text idx ((i, q) ∷ groups) h = elim (Option-cases (group_at idx i)) [
  | inl m ↦
      let same : (first_group idx ((i, q) ∷ groups)).1 ≡ (first_group idx groups).1 =
        ground (arith, m) in
      subst (IsBound text) (sym same) (first_group-IsBound text idx groups h)
  | inr (r, m) ↦
      let same : (first_group idx ((i, q) ∷ groups)).1 ≡ r.1 = ground (arith, m) in
      subst (IsBound text) (sym same) (group_at-IsBound text idx i h m)
]

length-trim_marks : (s : Bytes) → length (trim_marks s) ≤ length s
unfolding trim_marks
length-trim_marks [] = omega arith
length-trim_marks (b ∷ bs) = ground (arith, length-trim_marks bs)

length-slice : (a b : ℕ) (s : Bytes) → length (slice a b s) ≤ b - a
length-slice a b s = omega (arith, length-take (b - a) (drop a s))

password-Letters : Letters (codes "PASSWORD")
password-Letters = Letters-of_all_upper b'P' (codes "ASSWORD") refl

secret-Letters : Letters (codes "SECRET")
secret-Letters = Letters-of_all_upper b'S' (codes "ECRET") refl

password_at-Fits :
    (text : Bytes) (a b : ℕ) {s : Span}
    → a ≤ b
    → b ≤ length text
    → password_at a b ≡ some s
    → Fits text s
password_at-Fits text a b {s} l u e =
    let same : s ≡ record { start = a; end = b; kind = codes "PASSWORD" } = ground (arith, e) in
    rw same (record { ordered = l; inside = u; letters = password-Letters })

pub all_of-Fits :
    (text : Bytes) {kind : Bytes}
    → Letters kind
    → (ms : List (ℕ × ℕ)) → All (λ m. (m.0 ≤ m.1) × (m.1 ≤ length text)) ms
    → All (Fits text) (all_of kind ms)
unfolding all_of
all_of-Fits text k [] h = tt
all_of-Fits text k ((a, b) ∷ ms) ((l, u), h) =
    (record { ordered = l; inside = u; letters = k }, all_of-Fits text k ms h)

keys_in-Fits :
    (res : List Regexp) (text : Bytes) → All IsSearchable res → All (Fits text) (keys_in res text)
unfolding keys_in
keys_in-Fits [] text h = tt
keys_in-Fits (re ∷ res) text (hr, h) =
    All-append (Fits text) _ _
      (all_of-Fits text secret-Letters _ (find_all_string_index-inside re text hr))
      (keys_in-Fits res text h)

module _ (is_letter : ℕ → Bool) where
  bare_value-Fits :
      (skip : Bool) (text : Bytes) (a b : ℕ) {s : Span}
      → a < b
      → b ≤ length text
      → bare_value is_letter skip text a b ≡ some s
      → Fits text s
  unfolding bare_value
  bare_value-Fits skip text a b l u e =
      let trimmed = trim_marks (slice a b text) in
      let short : length trimmed ≤ b - a =
        omega (arith, length-trim_marks (slice a b text), length-slice a b text) in
      password_at-Fits text a (a + length trimmed) (omega arith) (omega (arith, short, l, u))
        (ground (arith, e))

  context_span-Fits :
      (skip : Bool) (text : Bytes) (r : ℤ × ℤ × Bool) {s : Span}
      → IsBound text r.1
      → context_span is_letter skip text r ≡ some s
      → Fits text s
  unfolding context_span
  context_span-Fits skip text (negsuc a, b, q) h e = absurd (ground (arith, e))
  context_span-Fits skip text (pos a, negsuc b, q) h e = absurd (ground (arith, e))
  context_span-Fits skip text (pos a, pos b, true) h e =
      let l : a < b = ground (arith, e) in
      password_at-Fits text a b (omega (arith, l)) (h b refl) (ground (arith, e))
  context_span-Fits skip text (pos a, pos b, false) h e =
      let l : a < b = ground (arith, e) in
      bare_value-Fits skip text a b l (h b refl) (ground (arith, e))

  spans_of-Fits :
      (skip : Bool) (text : Bytes) (ms : List (List ℤ))
      → All (All (IsBound text)) ms
      → All (Fits text) (spans_of is_letter skip text ms)
  unfolding spans_of value_range
  spans_of-Fits skip text [] h = tt
  spans_of-Fits skip text (idx ∷ ms) (hi, h) =
      elim (Option-cases (context_span is_letter skip text (value_range idx))) [
        | inl n ↦ rw (All, spans_of, n) (spans_of-Fits skip text ms h)
        | inr (s, e) ↦
            rw (All, spans_of, e)
              (
                context_span-Fits skip text (value_range idx) (first_group-IsBound text idx _ hi) e,
                spans_of-Fits skip text ms h,
              )
      ]

  -- Every secret that is found is a stretch of the text, also behind its trailing marks are cut
  -- off, and has a kind that the proxy can read back.
  pub collect_secrets-Fits : (text : Bytes) → All (Fits text) (collect_secrets is_letter text)
  unfolding collect_secrets collect_password_context context_spans
  collect_secrets-Fits text =
      All-append (Fits text) _ _
        (All-append (Fits text) _ _
          (spans_of-Fits false text _ (
            find_all_string_submatch_index-IsBound password_assign_re text
              password_assign_re-IsSearchable))
          (spans_of-Fits true text _ (
            find_all_string_submatch_index-IsBound password_is_re text
              password_is_re-IsSearchable)))
        (keys_in-Fits key_res text key_res-IsSearchable)
