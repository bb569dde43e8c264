-- ===== src/RoundTrip/Strings/Safe.antt =====
-- Which bytes of a string of a JSON text may belong to a token of internal/proxy.
use shinel.Base.{
  ℕ, ◌≡◌, refl, sym, ap, ap₂, ◌∙◌, true, ◌&&◌, [], ◌∷◌, ◌++◌, some, ltb, arith, inl, inr,
  Option-cases,
}
use shinel.Base.Bytes.{Bytes}
use shinel.Base.Maps.{Map}
use shinel.Base.Sort.{All}
use shinel.Analyzer.Sweep.Masks.{Masks}
use shinel.Proxy.Escape.Plain.Runes.{
  is_token_char, plain_rune-Written, plain_rune-token_char, valid-zero,
}
use shinel.Proxy.Escape.Plain.{is_safe, plain_rune, plain_from}
use shinel.Proxy.Escape.Reader.Valid.{valid_from}
use shinel.Proxy.Stream.Positions.{advance_all-NoBracket}
use shinel.Proxy.Stream.Spec.{NoTokenHere}
use shinel.Proxy.Token.{IsToken}
use shinel.Proxy.Token.Automaton.{Phase, opened, advance, advance_all}
use shinel.Proxy.Token.Grammar.{advance_all-IsToken}
use shinel.RoundTrip.{TokenFree, Masks-quiet}

abbrev TokenChars : Bytes → Type 0
TokenChars r = All (λ b. is_token_char b ≡ true) r

advance-is_token_char :
    (p : Phase) (b : ℕ) {q : Phase} → advance p b ≡ some q → is_token_char b ≡ true
unfolding advance
advance-is_token_char opened b e = ground arith
advance-is_token_char p b e = ground arith

advance_all-TokenChars :
    (p : Phase) (r : Bytes) {q : Phase} → advance_all p r ≡ some q → TokenChars r
advance_all-TokenChars p [] e = tt
advance_all-TokenChars p (b ∷ r) {q} e = elim (Option-cases (advance p b)) [
  | inl x ↦ absurd (unfold advance_all in ground arith)
  | inr (p', x) ↦ (
    advance-is_token_char p b x,
    advance_all-TokenChars p' r {q = q} (unfold advance_all in ground arith),
  )
]

-- What stands in front of an encoded text, and is part of a token, stands in front of the text.
plain_from-quiet :
    (s r : Bytes) (rest rest' : Bytes)
    → valid_from 0 s ≡ true
    → TokenChars r
    → plain_from 0 s (b'"' ∷ rest) ≡ r ++ rest'
    → (s' : Bytes) × (s ≡ r ++ s')
unfolding plain_from
plain_from-quiet s [] rest rest' v h e = (s, refl)
plain_from-quiet [] (c ∷ r) rest rest' v (hc, h) e = absurd (ground (arith, hc, e))
plain_from-quiet (b ∷ s) (c ∷ r) rest rest' v (hc, h) e =
    let (front, back) = valid-zero b s v in
    let (same, tail, size) =
      plain_rune-token_char b c s (plain_from (plain_rune b s).1 s (b'"' ∷ rest)) (r ++ rest')
        (plain_rune-Written b s front) hc e in
    let (s', f) =
      plain_from-quiet s r rest rest' (rw size at back) h
        (ap (λ n. plain_from n s (b'"' ∷ rest)) (sym size) ∙ tail) in
    (s', ap₂ ◌∷◌ same f)

-- The bytes of a token need no escape.
abbrev pub Simple : Bytes → Type 0
Simple t = All (λ b. (ltb b 0x80 && is_safe b) ≡ true) t

TokenChars-Simple : (r : Bytes) → TokenChars r → Simple r
unfolding is_safe
TokenChars-Simple [] h = tt
TokenChars-Simple (b ∷ r) (hb, h) = (ground (arith, hb), TokenChars-Simple r h)

pub IsToken-Simple : {t : Bytes} → IsToken t → Simple t
unfolding is_safe
IsToken-Simple i =
    let (r, s, a) = advance_all-IsToken i in
    rw s (refl, TokenChars-Simple r (advance_all-TokenChars opened r a))

pub plain_from-IsSimple :
    (t s rest : Bytes) → Simple t → plain_from 0 (t ++ s) rest ≡ t ++ plain_from 0 s rest
unfolding plain_from plain_rune
plain_from-IsSimple [] s rest h = refl
plain_from-IsSimple (b ∷ t) s rest (hb, h) = ground (arith, hb, plain_from-IsSimple t s rest h)

pub valid_from-IsSimple :
    (t s : Bytes) → Simple t → valid_from 0 (t ++ s) ≡ true → valid_from 0 s ≡ true
unfolding valid_from
valid_from-IsSimple [] s h v = v
valid_from-IsSimple (b ∷ t) s (hb, h) v = valid_from-IsSimple t s h (ground (arith, hb, v))

-- No token begins at a `[` that was kept, unless the string itself had one there.
pub bracket_is_quiet :
    {m : Map Bytes} {text masked shown : Bytes} (rest : Bytes)
    → TokenFree (b'[' ∷ text)
    → Masks m text masked shown
    → valid_from 0 masked ≡ true
    → NoTokenHere (b'[' ∷ plain_from 0 masked (b'"' ∷ rest))
bracket_is_quiet {masked = masked} rest free masks w t rest' e short i =
    let (r, spelled, a) = advance_all-IsToken i in
    let (s, f) =
      plain_from-quiet masked r rest rest' w (advance_all-TokenChars opened r a) (ground arith) in
    let (after, g) = Masks-quiet s (advance_all-NoBracket opened r a) masks f in
    free [] t after (ap (◌∷◌ b'[') g ∙ ap (λ x. x ++ after) (sym spelled)) i
