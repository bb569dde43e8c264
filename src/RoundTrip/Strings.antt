-- ===== src/RoundTrip/Strings.antt =====
-- A masked string of a JSON text, restored by internal/proxy.
mod Safe
pub mod Outputs
use shinel.Base.{
  ℕ, zero, suc, ◌≤◌, ◌≡◌, refl, sym, ap, ap₂, ◌∙◌, subst, true, ◌&&◌, ◌||◌, [], ◌∷◌, ◌++◌, some,
  ltb, ◌==◌, arith, Bool-cases, inl, inr, length, take, Option-cases,
}
use shinel.Base.Bytes.{Bytes}
use shinel.Base.Maps.{Map, lookup}
use shinel.Base.Sort.{All}
use shinel.Base.Utf8.{decode_rune}
use shinel.Base.Utf8.Tails.{IsHigh}
use shinel.Analyzer.Sweep.Masks.{Masks, done, keep, token}
use shinel.Proxy.Escape.{json_escape}
use shinel.Proxy.Escape.Plain.Runes.{
  is_token_char, plain_rune-Written, plain_rune-token_char, plain_rune_quiet, plain_rune_bracket,
  read-plain_rune_valid, valid-zero,
}
use shinel.Proxy.Escape.Plain.{is_safe, plain_rune, plain_from}
use shinel.Proxy.Escape.Reader.{plain, prepend, read_string}
use shinel.Proxy.Escape.Reader.Repaired.{prepend-nil, prepend-append}
use shinel.Proxy.Escape.Reader.Valid.{valid_from, no_error, repaired_valid}
use shinel.Proxy.Escape.Reader.Whole.{read-json_escape}
use shinel.Proxy.Stream.{resolve}
use shinel.Proxy.Stream.Positions.{NoBracket, Restores-quiet, advance_all-NoBracket}
use shinel.Proxy.Stream.Spec.{NoTokenHere, Restores}
use shinel.Proxy.Token.{IsToken}
use shinel.Proxy.Token.Automaton.{Phase, opened, advance, advance_all}
use shinel.Proxy.Token.Grammar.{advance_all-IsToken}
use shinel.RoundTrip.{
  TokenFree, TokenFree-append, AllShort, Serves, Masks-quiet, resolve_known, resolve_keeps,
}
use shinel.RoundTrip.Quoted.{AllUtf8}
use shinel.Vault.{Reply}
use shinel.RoundTrip.Strings.Safe.{
  IsToken-Simple, plain_from-IsSimple, valid_from-IsSimple, bracket_is_quiet,
}
use shinel.RoundTrip.Strings.Outputs.{Shown, Reads, Shown-quiet, Shown-byte, Shown-map, Shown-token}

module _ {V : Type 0} (get_mapping : V → Bytes → V × Reply) (m : Map Bytes) {P : V → Type 0}
    (serves : Serves get_mapping m P) (short : AllShort m) where
  module _ (valid : AllUtf8 m) {C : Bytes → Type 0} (rest : Bytes)
      (behind : Shown get_mapping m serves short C (b'"' ∷ rest)) where
    abbrev pub Reading : Bytes → Bytes → ℕ → Type 0
    Reading text masked skip =
        (text' : Bytes) × (text ≡ take skip masked ++ text')
        × Shown get_mapping m serves short (Reads get_mapping m serves short text' C)
            (plain_from skip masked (b'"' ∷ rest))

    -- A kept character, with all its bytes.
    character :
        {D : Bytes → Type 0} {text shown : Bytes} (b : ℕ) (masked : Bytes)
        → (ltb b 0x80 || no_error (decode_rune (b ∷ masked))) ≡ true
        → TokenFree (b ∷ text)
        → Masks m text masked shown
        → valid_from (plain_rune b masked).1 masked ≡ true
        → Shown get_mapping m serves short D
            (plain_from (plain_rune b masked).1 masked (b'"' ∷ rest))
        → Shown get_mapping m serves short
            (λ out. (o : Bytes) × D o × (out ≡ (plain_rune b masked).0 ++ o))
            ((plain_rune b masked).0 ++ plain_from (plain_rune b masked).1 masked (b'"' ∷ rest))
    character {D} {text} b masked front free masks back s = elim (Bool-cases (b == b'[')) [
      | inl y ↦
          let same : b ≡ b'[' = ground (arith, y) in
          let w = ap (λ c. plain_rune c masked) same ∙ plain_rune_bracket masked in
          let none_here =
            bracket_is_quiet rest (subst (λ c. TokenFree (c ∷ text)) same free) masks
              (subst (λ x. valid_from x.1 masked ≡ true) w back) in
          subst
            (λ x.
              Shown get_mapping m serves short (λ out. (o : Bytes) × D o × (out ≡ x.0 ++ o))
                (x.0 ++ plain_from x.1 masked (b'"' ∷ rest)))
            (sym w)
            (Shown-byte get_mapping m serves short none_here (
              subst (λ x. Shown get_mapping m serves short D (plain_from x.1 masked (b'"' ∷ rest)))
                w s))
      | inr n ↦
          Shown-quiet get_mapping m serves short
            (plain_rune_quiet b masked (plain_rune-Written b masked front) (ground (arith, n))) s
    ]

    pub string-Reading :
        (skip : ℕ) {text masked shown : Bytes}
        → Masks m text masked shown
        → TokenFree text
        → valid_from skip masked ≡ true
        → skip ≤ length masked
        → All IsHigh (take skip masked)
        → Reading text masked skip
    unfolding plain_from
    string-Reading zero done free w l h = (
      [],
      refl,
      Shown-map get_mapping m serves short (λ out c. (out, c, sym (prepend-nil _))) behind,
    )
    string-Reading (suc k) done free w l h = absurd (omega (arith, l))
    string-Reading (suc k) (keep {b} masks) free w l (hb, h) =
        let (text', e, s) =
          string-Reading k masks (TokenFree-append (b ∷ []) _ free) (unfold valid_from in w)
            (omega (arith, l)) h in
        (text', ap (◌∷◌ b) e, s)
    string-Reading zero (keep {b} {text} {masked} masks) free w l h =
        let (front, back) = valid-zero b masked w in
        let (_, small, hi) = read-plain_rune_valid b masked [] front in
        let (text', e, s) =
          string-Reading (plain_rune b masked).1 masks (TokenFree-append (b ∷ []) _ free) back small
            hi in
        (
          b ∷ text,
          refl,
          Shown-map get_mapping m serves short
              (λ out (o, (o', c, reads), q). (
                o',
                c,
                ap (read_string plain) q
                    ∙ (read-plain_rune_valid b masked o front).0
                    ∙ ap (prepend (b ∷ take (plain_rune b masked).1 masked)) reads
                    ∙ prepend-append (b ∷ take (plain_rune b masked).1 masked) text'
                        (read_string plain o')
                    ∙ ap (λ x. prepend (b ∷ x) (read_string plain o')) (sym e),
              ))
              (character b masked front free masks back s),
        )
    string-Reading (suc k) (token {t} {masked = behind_t} found i p q o masks) free w l h =
        let (r, spelled, _) = advance_all-IsToken i in
        let high =
          subst (λ x. All IsHigh (take (suc k) x)) (q ∙ ap (λ x. x ++ behind_t) spelled) h in
        absurd (omega (arith, high.0))
    string-Reading zero (token {t} {value} {text = tail} {masked} found i p q o masks) free w l h =
        let (text', e, s) =
          string-Reading zero masks (TokenFree-append value tail (subst TokenFree p free))
            (valid_from-IsSimple t masked (IsToken-Simple i)
              (subst (λ x. valid_from 0 x ≡ true) q w))
            (omega arith) tt in
        (
          value ++ tail,
          p,
          subst
              (λ x.
                Shown get_mapping m serves short
                  (Reads get_mapping m serves short (value ++ tail) C) x)
              (sym (
                ap (λ x. plain_from 0 x (b'"' ∷ rest)) q
                ∙ plain_from-IsSimple t masked (b'"' ∷ rest) (IsToken-Simple i)))
              (Shown-map get_mapping m serves short
                (λ out (o, (o', c, reads), f). (
                  o',
                  c,
                  ap (read_string plain) f
                      ∙ read-json_escape value o
                      ∙ ap₂ prepend (repaired_valid value (valid t value found)) reads
                      ∙ prepend-append value text' (read_string plain o')
                      ∙ ap (λ x. prepend (value ++ x) (read_string plain o')) (sym e),
                ))
                (Shown-token get_mapping m serves short i found s)),
        )
