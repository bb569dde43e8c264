-- ===== src/Analyzer/Collect/Finds.antt =====
-- What analyzer.go and secrets.go never miss: addresses of mail, and keys of known forms.
use shinel.Base.{
  ℕ, zero, suc, ◌≡◌, refl, Bool, true, ◌&&◌, List, [], ◌∷◌, ◌++◌, Option, some, leb, ltb, get_elem?,
  arith,
}
use shinel.Base.Bytes.{Bytes, codes, bytes_eq, bytes_eq_iff}
use shinel.Base.Sort.{any}
use shinel.Analyzer.Collect.{
  Detectors, new_engine, passing, is_card, collect_patterns, collect, detect,
}
use shinel.Analyzer.Collect.Fit.{HitsInside}
use shinel.Analyzer.Conflict.{resolve_conflicts}
use shinel.Analyzer.Conflict.Overlaps.{resolve_conflicts-unclaimed}
use shinel.Analyzer.Custom.Found.{collect_custom-Fits}
use shinel.Analyzer.Dictionary.Words.{new_dict-IsDict}
use shinel.Analyzer.Dictionary.{new_dict}
use shinel.Analyzer.Guesses.{Entity, collect_ml}
use shinel.Analyzer.Patterns.{email_re, key_res}
use shinel.Analyzer.Patterns.Searchable.{email_re-IsSearchable, key_res-IsSearchable}
use shinel.Analyzer.Secrets.{all_of, keys_in, collect_password_context, collect_secrets}
use shinel.Analyzer.Span.{Span}
use shinel.Base.Sort.{All}
use shinel.Regexp.{Regexp, Found, Place, indices, find_all, find_all_string_index}
use shinel.Regexp.Exhausts.{MatchesAt, is_within, Exhausts-covers, find_all-Exhausts}
use shinel.Regexp.Places.{Runes}
use shinel.Regexp.Searches.{IsSearchable}

-- A span of a kind that a place lies in.
abbrev pub covers : Bytes → ℕ → Span → Bool
covers kind j s = bytes_eq s.kind kind && (leb s.start j && ltb j s.end)

-- The expressions whose matches are taken as they are, and their kinds.
pub data Certain : Regexp → Bytes → Type 0 where
  mail : Certain email_re (codes "EMAIL")
  key : (i : ℕ) {r : Regexp} → get_elem? key_res i ≡ some r → Certain r (codes "SECRET")

any-append_left {ℓ} :
    {A : Type ℓ} (p : A → Bool) (xs ys : List A) → any p xs ≡ true → any p (xs ++ ys) ≡ true
unfolding any
any-append_left p [] ys h = absurd (cc)
any-append_left p (x ∷ xs) ys h = ground (arith, any-append_left p xs ys)

any-append_right {ℓ} :
    {A : Type ℓ} (p : A → Bool) (xs ys : List A) → any p ys ≡ true → any p (xs ++ ys) ≡ true
unfolding any
any-append_right p [] ys h = h
any-append_right p (x ∷ xs) ys h = ground (arith, any-append_right p xs ys)

any-all_of :
    (kind : Bytes) (j : ℕ) (ms : List Found)
    → any (is_within j) ms ≡ true
    → any (covers kind j) (all_of kind (indices ms)) ≡ true
unfolding any all_of indices
any-all_of kind j [] h = h
any-all_of kind j ((s, q) ∷ ms) h =
    let e : bytes_eq kind kind ≡ true = (bytes_eq_iff kind kind).1 refl in
    ground (arith, e, any-all_of kind j ms)

module _ (text : Bytes) (j : ℕ) (q : Place) (reached : Runes text j 0) where
  all_of-covers :
      (kind : Bytes) (r : Regexp)
      → IsSearchable r
      → MatchesAt text r j q
      → any (covers kind j) (all_of kind (find_all_string_index r text)) ≡ true
  unfolding find_all_string_index
  all_of-covers kind r s d =
      any-all_of kind j (find_all text r)
        (Exhausts-covers text r j q (find_all-Exhausts text r s.proper s.taking) reached d)

  keys_in-covers :
      (res : List Regexp) (i : ℕ) {r : Regexp}
      → All IsSearchable res
      → get_elem? res i ≡ some r
      → MatchesAt text r j q
      → any (covers (codes "SECRET") j) (keys_in res text) ≡ true
  unfolding keys_in
  keys_in-covers [] i h e d = absurd (ground (arith, e))
  keys_in-covers (x ∷ res) zero {r} (s, h) e d =
      let same : x ≡ r = ground (arith, e) in
      any-append_left (covers (codes "SECRET") j) (all_of _ (find_all_string_index x text))
        (keys_in res text) (all_of-covers (codes "SECRET") x s (subst⁻¹ d same))
    where
      subst⁻¹ : MatchesAt text r j q → x ≡ r → MatchesAt text x j q
      subst⁻¹ d e = rw e d
  keys_in-covers (x ∷ res) (suc i) {r} (s, h) e d =
      any-append_right (covers (codes "SECRET") j) (all_of _ (find_all_string_index x text))
        (keys_in res text) (keys_in-covers res i h e d)

  collect_patterns-covers :
      (d : Detectors) {r : Regexp} {kind : Bytes}
      → Certain r kind
      → MatchesAt text r j q
      → any (covers kind j) (collect_patterns d text) ≡ true
  unfolding collect_patterns collect_secrets
  collect_patterns-covers d mail m =
      any-append_left _ (all_of _ (find_all_string_index email_re text)) _
        (all_of-covers (codes "EMAIL") email_re email_re-IsSearchable m)
  collect_patterns-covers d (key i e) m =
      any-append_right _ (all_of _ (find_all_string_index email_re text)) _ (
        any-append_right _ (all_of _ (passing d.is_ip text _)) _ (
          any-append_right _ (all_of _ (passing is_card text _)) _ (
            any-append_right _ (collect_password_context d.is_letter text) _
              (keys_in-covers key_res i key_res-IsSearchable e m))))

  -- Where the matcher reports words of the dictionary: an engine that `New` makes finds spans in every
  -- text, and at each place that runes lead to from the front, at which an e-mail address or a key of
  -- a known form begins as its expression has it, one of the spans is of that kind and goes over it.
  pub detect-Finds :
      (d : Detectors) (new_matcher : List Bytes → Bytes → List ℕ)
      → HitsInside new_matcher
      → (custom_words : List Bytes) (ml : Option (Bytes → Option (List Entity))) {r : Regexp}
        {kind : Bytes}
      → Certain r kind
      → MatchesAt text r j q
      → (spans : List Span) × (detect d (new_engine d.lower new_matcher custom_words ml) text
          ≡ some spans)
        × (any (covers kind j) spans ≡ true)
  unfolding detect collect new_engine
  detect-Finds d new_matcher hits custom_words ml {kind = kind} c m =
      let dict = new_dict d.lower custom_words in
      let (custom, e, _) =
        collect_custom-Fits d.is_letter d.is_digit d.lower dict (new_matcher dict) text
          (new_dict-IsDict d.lower custom_words).no_empty (hits dict) in
      let sure = collect_patterns d text ++ custom in
      let guess = collect_ml d.is_letter d.to_upper ml text in
      (
        resolve_conflicts sure guess,
        rw (detect, collect, e),
        rw resolve_conflicts-unclaimed (
            any-append_left (covers kind j) sure _ (
              any-append_left (covers kind j) (collect_patterns d text) custom
                (collect_patterns-covers d c m))),
      )
