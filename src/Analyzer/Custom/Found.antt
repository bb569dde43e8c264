-- ===== src/Analyzer/Custom/Found.antt =====
-- Where `collectCustom` of internal/analyzer/analyzer.go finds the words of the dictionary.
use shinel.Base.{
  ℕ, zero, suc, ◌+◌, ◌-◌, ◌≤◌, ◌<◌, ◌≡◌, ◌≢◌, refl, ap, subst, Bool, true, List, [], ◌∷◌, ◌++◌,
  some, length, length-append, length-drop, get_elem?, drop, arith, Bool-cases, Option-cases, inl,
  inr,
}
use shinel.Base.Bytes.{Bytes, codes}
use shinel.Base.Sort.{All, All-append, All-get_elem?}
use shinel.Base.Utf8.{decode_rune}
use shinel.Analyzer.Custom.{
  has_prefix, index_of, put_bounded, occurrences, words_found, collect_custom, word_bounded,
}
use shinel.Analyzer.Dictionary.{repeated, fold_from, fold_for_match}
use shinel.Analyzer.Span.{Span}
use shinel.Analyzer.Sweep.Masks.{Fits}
use shinel.Proxy.Token.{Letters}
use shinel.Proxy.Token.Tests.{Letters-of_all_upper}

-- Offsets that never fall, from `lo` to `hi`.
abbrev Climbs : ℕ → ℕ → List ℕ → Type 0
Climbs lo hi [] = Unit
Climbs lo hi (x ∷ xs) = (lo ≤ x) × (x ≤ hi) × Climbs x hi xs

Climbs-from : (lo lo' hi : ℕ) (xs : List ℕ) → lo' ≤ lo → Climbs lo hi xs → Climbs lo' hi xs
Climbs-from lo lo' hi [] l h = tt
Climbs-from lo lo' hi (x ∷ xs) l (a, b, c) = (omega (arith, l, a), b, c)

Climbs-repeated :
    (at hi : ℕ) (low : Bytes) (rest : List ℕ)
    → at ≤ hi
    → Climbs at hi rest
    → Climbs at hi (repeated at low ++ rest)
unfolding repeated
Climbs-repeated at hi [] rest l h = h
Climbs-repeated at hi (b ∷ low) rest l h = (omega arith, l, Climbs-repeated at hi low rest l h)

Climbs-bounds :
    (lo hi i a : ℕ) (xs : List ℕ) → Climbs lo hi xs → get_elem? xs i ≡ some a → (lo ≤ a) × (a ≤ hi)
Climbs-bounds lo hi i a [] h e = absurd (ground (arith, e))
Climbs-bounds lo hi zero a (x ∷ xs) (l, u, h) e = ground (arith, e, l, u)
Climbs-bounds lo hi (suc i) a (x ∷ xs) (l, u, h) e =
    let (l', u') = Climbs-bounds x hi i a xs h e in (omega (arith, l, l'), u')

Climbs-ordered :
    (lo hi i j a b : ℕ) (xs : List ℕ)
    → Climbs lo hi xs
    → i ≤ j
    → get_elem? xs i ≡ some a
    → get_elem? xs j ≡ some b
    → a ≤ b
Climbs-ordered lo hi i j a b [] h l e f = absurd (ground (arith, e))
Climbs-ordered lo hi zero zero a b (x ∷ xs) h l e f = ground (arith, e, f)
Climbs-ordered lo hi zero (suc j) a b (x ∷ xs) (p, q, h) l e f =
    let same : x ≡ a = ground (arith, e) in omega (arith, (Climbs-bounds x hi j b xs h f).0, same)
Climbs-ordered lo hi (suc i) zero a b (x ∷ xs) h l e f = absurd (omega (arith, l))
Climbs-ordered lo hi (suc i) (suc j) a b (x ∷ xs) (p, q, h) l e f =
    Climbs-ordered x hi i j a b xs h (omega (arith, l)) e f

Climbs-later :
    (at n : ℕ) (xs : List ℕ) → Climbs (at + 1) (at + 1 + n) xs → Climbs at (at + suc n) xs
Climbs-later at n xs h =
    let same : at + 1 + n ≡ at + suc n = omega arith in
    Climbs-from (at + 1) at (at + suc n) xs (omega arith)
      (subst (λ hi. Climbs (at + 1) hi xs) same h)

length-repeated : (at : ℕ) (low : Bytes) → length (repeated at low) ≡ length low
unfolding repeated
length-repeated at [] = refl
length-repeated at (b ∷ low) = ap suc (length-repeated at low)

get_elem?-inside {ℓ} :
    {A : Type ℓ} (xs : List A) (i : ℕ) → i < length xs → (x : A) × (get_elem? xs i ≡ some x)
get_elem?-inside [] i h = absurd (omega (arith, h))
get_elem?-inside (x ∷ xs) zero h = (x, refl)
get_elem?-inside (x ∷ xs) (suc i) h = get_elem?-inside xs i (omega (arith, h))

length-has_prefix : (word s : Bytes) → has_prefix word s ≡ true → length word ≤ length s
unfolding has_prefix
length-has_prefix [] s e = omega arith
length-has_prefix (b ∷ word) [] e = absurd (ground (arith, e))
length-has_prefix (b ∷ word) (c ∷ s) e =
    let shorter = length-has_prefix word s (ground (arith, e)) in omega (arith, shorter)

-- An occurrence lies in the text.
index_of-inside : (word s : Bytes) {j : ℕ} → index_of word s ≡ some j → j + length word ≤ length s
unfolding index_of
index_of-inside [] [] e = ground (arith, e)
index_of-inside (b ∷ word) [] e = absurd (ground (arith, e))
index_of-inside word (c ∷ s) {j} e = elim (Bool-cases (has_prefix word (c ∷ s))) [
  | inl y ↦ ground (arith, e, y, length-has_prefix word (c ∷ s) y)
  | inr n ↦ elim (Option-cases (index_of word s)) [
    | inl m ↦ absurd (ground (arith, e, n, m))
    | inr (k, m) ↦
        let same : j ≡ k + 1 = ground (arith, e, n, m) in
        omega (arith, same, index_of-inside word s m)
  ]
]

custom-Letters : Letters (codes "CUSTOM")
custom-Letters = Letters-of_all_upper b'C' (codes "USTOM") refl

module _ (lower : ℕ → Bytes) where
  fold_from-Climbs :
      (skip at : ℕ) (bs : Bytes) → Climbs at (at + length bs) (fold_from lower skip at bs).1
  unfolding fold_from
  fold_from-Climbs skip at [] = (omega arith, omega arith, tt)
  fold_from-Climbs zero at (b ∷ bs) =
      let (r, size) = decode_rune (b ∷ bs) in
      let rest = (fold_from lower (size - 1) (at + 1) bs).1 in
      Climbs-repeated at (at + suc (length bs)) (lower r) rest (omega arith)
        (Climbs-later at (length bs) rest (fold_from-Climbs (size - 1) (at + 1) bs))
  fold_from-Climbs (suc skip) at (b ∷ bs) =
      Climbs-later at (length bs) _ (fold_from-Climbs skip (at + 1) bs)

  length-fold_from :
      (skip at : ℕ) (bs : Bytes)
      → length (fold_from lower skip at bs).1 ≡ length (fold_from lower skip at bs).0 + 1
  unfolding fold_from
  length-fold_from skip at [] = refl
  length-fold_from zero at (b ∷ bs) =
      let (r, size) = decode_rune (b ∷ bs) in
      let (folded, orig_of) = fold_from lower (size - 1) (at + 1) bs in
      omega (
        arith,
        length-append (repeated at (lower r)) orig_of,
        length-append (lower r) folded,
        length-repeated at (lower r),
        length-fold_from (size - 1) (at + 1) bs,
      )
  length-fold_from (suc skip) at (b ∷ bs) = length-fold_from skip (at + 1) bs

module _ (is_letter is_digit : ℕ → Bool) (text : Bytes) where
  put_bounded-Fits :
      (a b : ℕ) (rest : List Span)
      → a ≤ b
      → b ≤ length text
      → All (Fits text) rest
      → All (Fits text) (put_bounded is_letter is_digit text a b rest)
  unfolding put_bounded
  put_bounded-Fits a b rest l u h = elim (Bool-cases (word_bounded is_letter is_digit text a b)) [
    | inl y ↦ rw y (record { ordered = l; inside = u; letters = custom-Letters }, h)
    | inr n ↦ rw n h
  ]

  module _ (folded : Bytes) (orig_of : List ℕ) (climbs : Climbs 0 (length text) orig_of)
      (aligned : length orig_of ≡ length folded + 1) where
    -- The loop over the occurrences ends by its test, with no index out of range.
    occurrences-Fits :
        (fuel : ℕ) (word : Bytes) (off : ℕ)
        → word ≢ []
        → off ≤ length folded
        → length folded - off < fuel
        → (spans : List Span) × (occurrences is_letter is_digit fuel text folded orig_of word off
            ≡ some spans)
          × All (Fits text) spans
    unfolding occurrences
    occurrences-Fits zero word off n l f = absurd (omega (arith, f))
    occurrences-Fits (suc fuel) [] off n l f = absurd (n refl)
    occurrences-Fits (suc fuel) (c ∷ cs) off n l f =
        elim (Option-cases (index_of (c ∷ cs) (drop off folded))) [
          | inl m ↦ ([], rw (occurrences, m), tt)
          | inr (j, m) ↦
              let stop = off + j + length (c ∷ cs) in
              let inside = index_of-inside (c ∷ cs) (drop off folded) m in
              let u : stop ≤ length folded = omega (arith, inside, length-drop off folded, l) in
              let (a, p) = get_elem?-inside orig_of (off + j) (omega (arith, u, aligned)) in
              let (b, q) = get_elem?-inside orig_of stop (omega (arith, u, aligned)) in
              let (rest, r, h) = occurrences-Fits fuel (c ∷ cs) stop (cc) u (omega (arith, f, u)) in
              let order =
                Climbs-ordered 0 (length text) (off + j) stop a b orig_of climbs (omega arith) p
                  q in
              let below = (Climbs-bounds 0 (length text) stop b orig_of climbs q).1 in
              (
                put_bounded is_letter is_digit text a b rest,
                rw (occurrences, m, p, q, r),
                put_bounded-Fits a b rest order below h,
              )
        ]

    words_found-Fits :
        (dict : List Bytes) (hits : List ℕ)
        → All (λ w. w ≢ []) dict
        → All (λ i. i < length dict) hits
        → (spans : List Span) × (words_found is_letter is_digit dict text folded orig_of hits
            ≡ some spans)
          × All (Fits text) spans
    unfolding words_found
    words_found-Fits dict [] d h = ([], refl, tt)
    words_found-Fits dict (i ∷ hits) d (hi, h) =
        let (word, e) = get_elem?-inside dict i hi in
        let (spans, p, f) =
          occurrences-Fits (length folded + 1) word 0 (All-get_elem? (λ w. w ≢ []) dict i d e)
            (omega arith) (omega arith) in
        let (rest, q, g) = words_found-Fits dict hits d h in
        (spans ++ rest, rw (words_found, e, p, q), All-append (Fits text) spans rest f g)

-- Where each word that the matcher reports is one of the dictionary, which has no empty word, the
-- search for words ends without an index out of range, and each span that it finds lies in the
-- text, in order, with a kind that the proxy can read back.
pub collect_custom-Fits :
    (is_letter is_digit : ℕ → Bool) (lower : ℕ → Bytes) (dict : List Bytes)
    (matcher : Bytes → List ℕ) (text : Bytes)
    → All (λ w. w ≢ []) dict
    → ((s : Bytes) → All (λ i. i < length dict) (matcher s))
    → (spans : List Span) × (collect_custom is_letter is_digit lower dict matcher text ≡ some spans)
      × All (Fits text) spans
unfolding collect_custom fold_for_match
collect_custom-Fits is_letter is_digit lower [] matcher text d h = ([], refl, tt)
collect_custom-Fits is_letter is_digit lower (w ∷ dict) matcher text d h =
    let (folded, orig_of) = fold_from lower 0 0 text in
    let zero-add : 0 + length text ≡ length text = omega arith in
    words_found-Fits is_letter is_digit text folded orig_of
      (subst (λ hi. Climbs 0 hi orig_of) zero-add (fold_from-Climbs lower 0 0 text))
      (length-fold_from lower 0 0 text) (w ∷ dict) (matcher folded) d (h folded)
