-- ===== src/Analyzer/Sweep/Covers.antt =====
-- Which spans the loop of `anonymizeText` in internal/analyzer/analyzer.go masks.
use mathlib.Core.List.{Memᴰ}
use shinel.Base.{
  ℕ, ◌≤◌, ◌≡◌, refl, subst, Bool, true, ◌&&◌, ◌||◌, List, [], ◌∷◌, ◌++◌, arith, leb, ltb, ◌==◌,
  Bool-cases, inl, inr, if◌then◌else◌, drop, slice,
}
use shinel.Base.Bytes.{Bytes}
use shinel.Base.Sort.{
  any, All, All-map, All-sort_by, All-of_sort_by, IsSorted, IsOrder, sort_by, sort_by-IsSorted,
}
use shinel.Analyzer.Session.{Session, token_for}
use shinel.Analyzer.Span.{Span}
use shinel.Analyzer.Sweep.{leftmost_longest, sort_spans, sweep, anonymize_spans}

leftmost_longest-IsOrder : IsOrder leftmost_longest
leftmost_longest-IsOrder = record {
  asym = λ x y h. ground arith;
  trans = λ x y z h k. ground arith;
}

-- The spans that are masked: each one that begins behind the one before.
abbrev pub taken : List Span → ℕ → List Span
taken [] last = []
taken (s ∷ ss) last = if ltb s.start last then taken ss last else s ∷ taken ss s.end

-- A text with every span of a list replaced by its token.
abbrev pub replace_all : Bytes → List Span → ℕ → Session → Bytes → Session × Bytes
replace_all text [] last sess out = (sess, out ++ drop last text)
replace_all text (s ∷ ss) last sess out =
    let (sess', t) = token_for sess s.kind (slice s.start s.end text) in
    replace_all text ss s.end sess' ((out ++ slice last s.start text) ++ t)

-- Spans one behind the other.
abbrev pub Apart : ℕ → List Span → Type 0
Apart last [] = Unit
Apart last (s ∷ ss) = (last ≤ s.start) × Apart s.end ss

-- `s` begins within `t`, or where `t` does and ends no later.
abbrev pub begins_in : Span → Span → Bool
begins_in s t =
    (ltb t.start s.start && ltb s.start t.end) || (s.start == t.start && leb s.end t.end)

pub sweep-replace_all :
    (text : Bytes) (ss : List Span) (last : ℕ) (sess : Session) (out : Bytes)
    → sweep text ss last sess out ≡ replace_all text (taken ss last) last sess out
unfolding sweep
sweep-replace_all text [] last sess out = refl
sweep-replace_all text (s ∷ ss) last sess out = elim (Bool-cases (ltb s.start last)) [
  | inl e ↦ rw e (sweep-replace_all text ss last sess out)
  | inr e ↦ rw e (sweep-replace_all text ss s.end _ _)
]

taken-Apart : (ss : List Span) (last : ℕ) → Apart last (taken ss last)
taken-Apart [] last = tt
taken-Apart (s ∷ ss) last = elim (Bool-cases (ltb s.start last)) [
  | inl e ↦ rw e (taken-Apart ss last)
  | inr e ↦ rw e (ground arith, taken-Apart ss s.end)
]

-- Every span of a list begins in one of the others.
abbrev pub Covered : List Span → List Span → Type 0
Covered ts ss = All (λ s. any (begins_in s) ts ≡ true) ss

-- Behind `t`, the last span masked so far.
taken-covers :
    (t : Span) (ss : List Span)
    → IsSorted leftmost_longest (t ∷ ss)
    → Covered (t ∷ taken ss t.end) ss
unfolding any
taken-covers t [] h = tt
taken-covers t (s ∷ ss) ((hs, ht), (h, k)) = elim (Bool-cases (ltb s.start t.end)) [
  | inl e ↦
      let same : taken ss t.end ≡ taken (s ∷ ss) t.end = ground (arith, e) in
      subst (λ ts. Covered (t ∷ ts) (s ∷ ss)) same (ground arith, taken-covers t ss (ht, k))
  | inr e ↦
      let same : s ∷ taken ss s.end ≡ taken (s ∷ ss) t.end = ground (arith, e) in
      let rest : Covered (t ∷ s ∷ taken ss s.end) ss =
        All-map ss (λ r b. ground (arith, b)) (taken-covers s ss (h, k)) in
      subst (λ ts. Covered (t ∷ ts) (s ∷ ss)) same (ground arith, rest)
]

taken-begins : (ss : List Span) → IsSorted leftmost_longest ss → Covered (taken ss 0) ss
unfolding any
taken-begins [] h = tt
taken-begins (s ∷ ss) h =
    let same : s ∷ taken ss s.end ≡ taken (s ∷ ss) 0 = ground arith in
    subst (λ ts. Covered ts (s ∷ ss)) same (ground arith, taken-covers s ss h)

-- All of the spans are among the others.
abbrev pub Among : List Span → List Span → Type 0
Among ts ss = All (λ t. Memᴰ t ss) ts

pub All-taken : (P : Span → Type 0) (ss : List Span) (last : ℕ) → All P ss → All P (taken ss last)
All-taken P [] last h = tt
All-taken P (s ∷ ss) last (p, h) = elim (Bool-cases (ltb s.start last)) [
  | inl e ↦ rw e (All-taken P ss last h)
  | inr e ↦ rw e (p, All-taken P ss s.end h)
]

Among-self : (ss : List Span) → Among ss ss
Among-self [] = tt
Among-self (s ∷ ss) = (Memᴰ.head refl, All-map ss (λ t m. Memᴰ.tail m) (Among-self ss))

-- Which of the spans that are found are masked: they are among them, they lie one behind the other,
-- and each span that is found begins within one of them, or where one of them does and ends no
-- later.
pub record Chosen (spans ts : List Span) : Type 0 where
  pub among : Among ts spans
  pub apart : Apart 0 ts
  pub covered : Covered ts spans

pub taken-Chosen : (spans : List Span) → Chosen spans (taken (sort_by leftmost_longest spans) 0)
taken-Chosen spans =
    let sorted = sort_by leftmost_longest spans in
    record {
      among = All-taken _ sorted 0 (All-sort_by _ leftmost_longest spans (Among-self spans));
      apart = taken-Apart sorted 0;
      covered =
          All-of_sort_by (λ s. any (begins_in s) (taken sorted 0) ≡ true) leftmost_longest spans
            (taken-begins sorted (sort_by-IsSorted leftmost_longest-IsOrder spans));
    }

-- Masking replaces some of the spans that were found, all of them whole, by their tokens. They lie
-- one behind the other, and each span that was found begins within one of them, or where one of them
-- does and ends no later.
pub anonymize_spans-Covered :
    (text : Bytes) (spans : List Span) (sess : Session)
    → (ts : List Span) × (anonymize_spans text spans sess ≡ replace_all text ts 0 sess [])
      × Chosen spans ts
unfolding anonymize_spans sort_spans
anonymize_spans-Covered text spans sess =
    let sorted = sort_by leftmost_longest spans in
    (taken sorted 0, sweep-replace_all text sorted 0 sess [], taken-Chosen spans)
