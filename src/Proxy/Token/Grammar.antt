-- ===== src/Proxy/Token/Grammar.antt =====
-- `classify` of internal/proxy/streaming.go decides the token grammar.
use shinel.Base.{
  ℕ, true, false, inl, inr, [], ◌∷◌, ◌++◌, ◌≡◌, ◌≢◌, ◌↔◌, refl, ap, ap₂, ◌∙◌, some, arith,
  Bool-cases, Option-cases,
}
use shinel.Base.Bytes.{Bytes, is_upper, is_digit}
use shinel.Proxy.Token.{
  TokenState, partial_token, complete_token, dead_token, classify, Letters, Digits, IsToken,
}
use shinel.Proxy.Token.Automaton.{
  Phase, opened, kind, under, number, closed, advance, advance_all, state_of, advance_all-append,
  advance_all-append_none, classify-advance_all,
}

advance_all-Digits :
    {ds : Bytes}
    → Digits ds
    → (advance_all under (ds ++ b']' ∷ []) ≡ some closed)
      × (advance_all number (ds ++ b']' ∷ []) ≡ some closed)
unfolding advance advance_all
advance_all-Digits (Digits.last h) = ground arith
advance_all-Digits (Digits.more h t) = ground (arith, advance_all-Digits t)

advance_all-Letters :
    {ks ds : Bytes}
    → Letters ks
    → Digits ds
    → (advance_all opened (ks ++ b'_' ∷ (ds ++ b']' ∷ [])) ≡ some closed)
      × (advance_all kind (ks ++ b'_' ∷ (ds ++ b']' ∷ [])) ≡ some closed)
unfolding advance advance_all
advance_all-Letters (Letters.last h) d = ground (arith, advance_all-Digits d)
advance_all-Letters (Letters.more h t) d = ground (arith, advance_all-Letters t d)

closing :
    (b : ℕ) (r : Bytes)
    → is_digit b ≡ false
    → advance_all number (b ∷ r) ≡ some closed
    → b ∷ r ≡ b']' ∷ []
unfolding advance advance_all
closing b [] n e = ground arith
closing b (c ∷ r) n e = absurd (ground arith)

Digits-of :
    (c : ℕ) (r : Bytes)
    → is_digit c ≡ true
    → advance_all number r ≡ some closed
    → (ds : Bytes) × Digits (c ∷ ds) × (r ≡ ds ++ b']' ∷ [])
Digits-of c [] hc e = absurd (unfold advance_all in ground arith)
Digits-of c (b ∷ r) hc e = elim (Bool-cases (is_digit b)) [
  | inl y ↦
      let (ds, d, s) = Digits-of b r y (unfold advance_all advance in ground arith) in
      (b ∷ ds, Digits.more hc d, ap (◌∷◌ b) s)
  | inr n ↦ ([], Digits.last hc, closing b r n e)
]

number_of :
    (r : Bytes)
    → advance_all under r ≡ some closed
    → (ds : Bytes) × Digits ds × (r ≡ ds ++ b']' ∷ [])
unfolding advance advance_all
number_of [] e = absurd (ground arith)
number_of (b ∷ r) e = elim (Bool-cases (is_digit b)) [
  | inl y ↦ let (ds, d, s) = Digits-of b r y (ground arith) in (b ∷ ds, d, ap (◌∷◌ b) s)
  | inr n ↦ absurd (ground arith)
]

-- A byte behind a letter of the kind: another letter, or the underscore.
kind_next :
    (b : ℕ) (r : Bytes)
    → is_upper b ≡ false
    → advance_all kind (b ∷ r) ≡ some closed
    → (b ≡ b'_') × (advance_all under r ≡ some closed)
unfolding advance advance_all
kind_next b r n e = ground arith

Letters-of :
    (c : ℕ) (r : Bytes)
    → is_upper c ≡ true
    → advance_all kind r ≡ some closed
    → (ks ds : Bytes) × Letters (c ∷ ks) × Digits ds × (r ≡ ks ++ b'_' ∷ (ds ++ b']' ∷ []))
Letters-of c [] hc e = absurd (unfold advance_all in ground arith)
Letters-of c (b ∷ r) hc e = elim (Bool-cases (is_upper b)) [
  | inl y ↦
      let (ks, ds, k, d, s) = Letters-of b r y (unfold advance_all advance in ground arith) in
      (b ∷ ks, ds, Letters.more hc k, d, ap (◌∷◌ b) s)
  | inr n ↦
      let (u, e') = kind_next b r n e in
      let (ds, d, s) = number_of r e' in ([], ds, Letters.last hc, d, ap₂ ◌∷◌ u s)
]

-- The automaton accepts the tokens and nothing else.
pub advance_all-IsToken :
    {t : Bytes} (h : IsToken t)
    → (r : Bytes) × (t ≡ b'[' ∷ r) × (advance_all opened r ≡ some closed)
advance_all-IsToken h = (
  h.kind ++ b'_' ∷ (h.number ++ b']' ∷ []),
  h.spelled,
  (advance_all-Letters h.kind_letters h.number_digits).0,
)

pub IsToken-advance_all : (r : Bytes) → advance_all opened r ≡ some closed → IsToken (b'[' ∷ r)
unfolding advance advance_all
IsToken-advance_all [] e = absurd (ground arith)
IsToken-advance_all (b ∷ r) e = elim (Bool-cases (is_upper b)) [
  | inl y ↦
      let (ks, ds, k, d, s) = Letters-of b r y (ground arith) in
      record {
        kind = b ∷ ks;
        number = ds;
        kind_letters = k;
        number_digits = d;
        spelled = ap (λ u. b'[' ∷ b ∷ u) s;
      }
  | inr n ↦ absurd (ground arith)
]

-- Every phase but the last can still be brought to the end.
completion : (p : Phase) → p ≢ closed → (s : Bytes) × (s ≢ []) × (advance_all p s ≡ some closed)
unfolding advance advance_all
completion opened n = (b'A' ∷ b'_' ∷ b'0' ∷ b']' ∷ [], cc, refl)
completion kind n = (b'_' ∷ b'0' ∷ b']' ∷ [], cc, refl)
completion under n = (b'0' ∷ b']' ∷ [], cc, refl)
completion number n = (b']' ∷ [], cc, refl)
completion closed n = absurd (n refl)

-- `classify` answers `completeToken` exactly for the tokens.
pub classify-complete_iff :
    (r : Bytes) → (classify (b'[' ∷ r) ≡ complete_token) ↔ IsToken (b'[' ∷ r)
classify-complete_iff r = (there, back)
  where
    there : classify (b'[' ∷ r) ≡ complete_token → IsToken (b'[' ∷ r)
    there e = IsToken-advance_all r (ground (arith, classify-advance_all b'[' r))

    back : IsToken (b'[' ∷ r) → classify (b'[' ∷ r) ≡ complete_token
    back h = let (r', e, a) = advance_all-IsToken h in ground (arith, classify-advance_all b'[' r)

-- What each verdict of `classify` means for the bytes that may still come.
abbrev pub Verdict : TokenState → Bytes → Type 0
Verdict complete_token buf = IsToken buf
Verdict partial_token buf = ¬ (IsToken buf) × ((s : Bytes) × IsToken (buf ++ s))
Verdict dead_token buf = (s : Bytes) → ¬ (IsToken (buf ++ s))

IsToken-rest : {r : Bytes} → IsToken (b'[' ∷ r) → advance_all opened r ≡ some closed
IsToken-rest h = let (r', e, a) = advance_all-IsToken h in ground arith

unfinished :
    (r : Bytes) (p : Phase)
    → p ≢ closed
    → advance_all opened r ≡ some p
    → ¬ (IsToken (b'[' ∷ r)) × ((s : Bytes) × IsToken (b'[' ∷ r ++ s))
unfinished r p n e =
    let (s, _, done) = completion p n in
    (
      λ h. n (cc (e, IsToken-rest h)),
      (s, IsToken-advance_all (r ++ s) (advance_all-append opened r s e ∙ done)),
    )

-- `classify` is right in each of its three answers, whatever follows the candidate: a complete one
-- is a token, a partial one is no token but is the start of one, and a dead one starts no token.
pub classify-Verdict : (r : Bytes) → Verdict (classify (b'[' ∷ r)) (b'[' ∷ r)
classify-Verdict r = elim (Option-cases (advance_all opened r)) [
  | inl e ↦
      rw (classify-advance_all, e)
        (λ s h. cc (IsToken-rest h, advance_all-append_none opened r s e))
  | inr (p, e) ↦ rw (classify-advance_all, e) (at_phase p e)
]
  where
    at_phase : (p : Phase) → advance_all opened r ≡ some p → Verdict (state_of (some p)) (b'[' ∷ r)
    at_phase closed e = IsToken-advance_all r e
    at_phase opened e = unfinished r opened (cc) e
    at_phase kind e = unfinished r kind (cc) e
    at_phase under e = unfinished r under (cc) e
    at_phase number e = unfinished r number (cc) e
