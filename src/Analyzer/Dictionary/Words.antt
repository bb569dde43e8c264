-- ===== src/Analyzer/Dictionary/Words.antt =====
-- The dictionary that internal/analyzer/analyzer.go builds.
use shinel.Base.{
  ℕ, ◌≡◌, ◌≢◌, refl, true, false, List, [], ◌∷◌, ◌++◌, arith, Bool-cases, inl, inr, is_empty, ◌⊎◌,
  ◌||◌,
}
use shinel.Base.Bytes.{Bytes, bytes_eq_iff}
use shinel.Base.Sort.{All}
use shinel.Analyzer.Dictionary.{fold_string, seen_in, add_words, new_dict}

-- No word stands twice.
abbrev pub NoneTwice : List Bytes → Type 0
NoneTwice [] = Unit
NoneTwice (w ∷ ws) = (seen_in w ws ≡ false) × NoneTwice ws

seen_in-append : (w : Bytes) (a b : List Bytes) → seen_in w (a ++ b) ≡ (seen_in w a || seen_in w b)
unfolding seen_in
seen_in-append w [] b = refl
seen_in-append w (x ∷ a) b = ground (arith, seen_in-append w a b)

seen_in-own : (w : Bytes) (a : List Bytes) → seen_in w (a ++ w ∷ []) ≡ true
unfolding seen_in
seen_in-own w [] = ground (arith, bytes_eq_iff w w)
seen_in-own w (x ∷ a) = ground (arith, seen_in-own w a)

NoneTwice-append :
    (w : Bytes) (a : List Bytes) → seen_in w a ≡ false → NoneTwice a → NoneTwice (a ++ w ∷ [])
unfolding seen_in
NoneTwice-append w [] e h = (refl, tt)
NoneTwice-append w (x ∷ a) e (hx, h) = (
  ground (arith, e, hx, seen_in-append x a (w ∷ []), bytes_eq_iff x w, bytes_eq_iff w x),
  NoneTwice-append w a (ground (arith, e)) h,
)

All-put :
    (w : Bytes) (a : List Bytes) → w ≢ [] → All (λ x. x ≢ []) a → All (λ x. x ≢ []) (a ++ w ∷ [])
All-put w [] n h = (n, tt)
All-put w (x ∷ a) n (hx, h) = (hx, All-put w a n h)

module _ (lower : ℕ → Bytes) where
  -- A dictionary that has what `dict` has, and the words, each once.
  pub record IsDict (dict words result : List Bytes) : Type 0 where
    pub no_empty : All (λ w. w ≢ []) result
    pub none_twice : NoneTwice result
    pub grows : (w : Bytes) → seen_in w dict ≡ true → seen_in w result ≡ true
    pub words_in :
        All (λ w. (fold_string lower w ≡ []) ⊎ (seen_in (fold_string lower w) result ≡ true)) words

  add_words-IsDict :
      (ws dict : List Bytes)
      → All (λ w. w ≢ []) dict
      → NoneTwice dict
      → IsDict dict ws (add_words lower dict ws)
  unfolding add_words
  add_words-IsDict [] dict n t = record {
    no_empty = n;
    none_twice = t;
    grows = λ w e. e;
    words_in = tt;
  }
  add_words-IsDict (w ∷ ws) dict n t =
      let f = fold_string lower w in
      elim (Bool-cases (is_empty f)) [
        | inl y ↦
            rw (add_words, y)
              (let r = add_words-IsDict ws dict n t in
                record {
                  no_empty = r.no_empty;
                  none_twice = r.none_twice;
                  grows = r.grows;
                  words_in = (inl (ground (arith, y)), r.words_in);
                })
        | inr full ↦ elim (Bool-cases (seen_in f dict)) [
          | inl s ↦
              rw (add_words, full, s)
                (let r = add_words-IsDict ws dict n t in
                  record {
                    no_empty = r.no_empty;
                    none_twice = r.none_twice;
                    grows = r.grows;
                    words_in = (inr (r.grows f s), r.words_in);
                  })
          | inr u ↦
              rw (add_words, full, u)
                (let r =
                    add_words-IsDict ws (dict ++ f ∷ [])
                      (All-put f dict (λ e. ground (arith, full, e)) n)
                      (NoneTwice-append f dict u t) in
                  record {
                    no_empty = r.no_empty;
                    none_twice = r.none_twice;
                    grows = λ x e. r.grows x (ground (arith, e, seen_in-append x dict (f ∷ [])));
                    words_in = (inr (r.grows f (seen_in-own f dict)), r.words_in);
                  })
        ]
      ]

  -- The dictionary of custom words has the lower case of each of them that is not empty, has no
  -- empty word, and has no word twice.
  pub new_dict-IsDict :
      (custom_words : List Bytes) → IsDict [] custom_words (new_dict lower custom_words)
  unfolding new_dict
  new_dict-IsDict custom_words = add_words-IsDict custom_words [] tt tt
