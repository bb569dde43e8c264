-- ===== src/Proxy/Token/Automaton.antt =====
-- The token grammar as an automaton that reads one byte at a time, and its agreement with
-- `classify` of internal/proxy/streaming.go, which rescans the whole candidate.
use shinel.Base.{
  ℕ, ◌+◌, ◌<◌, inl, inr, [], ◌∷◌, ◌++◌, ◌≡◌, refl, Option, none, some, arith, ◌==◌, if◌then◌else◌,
  Option-cases,
}
use shinel.Base.Bytes.{Bytes, is_upper, is_digit}
use shinel.Proxy.Token.{
  TokenState, partial_token, complete_token, dead_token, skip_letters, skip_digits, after_digits,
  after_letters, classify,
}

pub data Phase : Type 0 where
  opened kind under number closed : Phase

unfoldable pub advance : Phase → ℕ → Option Phase
advance opened b = if is_upper b then some kind else none
advance kind b = if is_upper b then some kind else if b == b'_' then some under else none
advance under b = if is_digit b then some number else none
advance number b = if is_digit b then some number else if b == b']' then some closed else none
advance closed b = none

unfoldable pub advance_all : Phase → Bytes → Option Phase
advance_all p [] = some p
advance_all p (b ∷ bs) = elim (advance p b) [ none ↦ none | some q ↦ advance_all q bs ]

abbrev pub state_of : Option Phase → TokenState
state_of none = dead_token
state_of (some closed) = complete_token
state_of (some _) = partial_token

-- A failed prefix fails, and what follows a good one goes on from its phase.
pub advance_all-append :
    (p : Phase) (s t : Bytes) {q : Phase}
    → advance_all p s ≡ some q
    → advance_all p (s ++ t) ≡ advance_all q t
unfolding advance_all
advance_all-append p [] t h = ground arith
advance_all-append p (b ∷ s) t {q} h = elim (Option-cases (advance p b)) [
  | inl e ↦ absurd (ground arith)
  | inr (p', e) ↦ rw (e, advance_all) (advance_all-append p' s t (rw (e, advance_all) at h))
]

pub advance_all-append_none :
    (p : Phase) (s t : Bytes) → advance_all p s ≡ none → advance_all p (s ++ t) ≡ none
unfolding advance_all
advance_all-append_none p [] t h = absurd (ground arith)
advance_all-append_none p (b ∷ s) t h = elim (Option-cases (advance p b)) [
  | inl e ↦ rw (e, advance_all)
  | inr (p', e) ↦ rw (e, advance_all) (advance_all-append_none p' s t (rw (e, advance_all) at h))
]

in_number :
    (r : Bytes) (d i : ℕ)
    → d < i
    → after_digits d (skip_digits i r) ≡ state_of (advance_all number r)
unfolding after_digits skip_digits advance advance_all
in_number [] d i h = refl
in_number (b ∷ []) d i h = ground arith
in_number (b ∷ c ∷ r) d i h = ground (arith, in_number (c ∷ r) d (i + 1))

after_underscore :
    (r : Bytes) (d : ℕ) → after_digits d (skip_digits d r) ≡ state_of (advance_all under r)
unfolding after_digits skip_digits advance advance_all
after_underscore [] d = refl
after_underscore (b ∷ r) d = ground (arith, in_number r d (d + 1))

in_kind :
    (r : Bytes) (i : ℕ) → 1 < i → after_letters (skip_letters i r) ≡ state_of (advance_all kind r)
unfolding after_letters skip_letters advance advance_all
in_kind [] i h = refl
in_kind (b ∷ r) i h = ground (arith, in_kind r (i + 1), after_underscore r (i + 1))

-- `classify` computes the automaton's verdict.
pub classify-advance_all : (b : ℕ) (r : Bytes) → classify (b ∷ r) ≡ state_of (advance_all opened r)
unfolding classify after_letters skip_letters advance advance_all
classify-advance_all b [] = refl
classify-advance_all b (c ∷ r) = ground (arith, in_kind r 2)
