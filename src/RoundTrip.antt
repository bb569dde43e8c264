-- ===== src/RoundTrip.antt =====
-- A text that internal/analyzer masks and internal/proxy restores comes back.
pub mod Quoted
pub mod Strings
pub mod Documents
use shinel.Base.{
  ℕ, ◌≤◌, ◌≡◌, refl, sym, ◌∙◌, ap, ap₂, subst, List, [], ◌∷◌, ◌++◌, some, arith, length,
  append_assoc,
}
use shinel.Base.Bytes.{Bytes}
use shinel.Base.Maps.{Map, lookup}
use shinel.Base.Sort.{All}
use shinel.Analyzer.Session.{new_session}
use shinel.Analyzer.Session.Sound.{new_session-IsSound}
use shinel.Analyzer.Span.{Span}
use shinel.Analyzer.Sweep.{anonymize_spans}
use shinel.Analyzer.Sweep.Masks.{Masks, done, keep, token, Fits, anonymize_spans-Masks}
use shinel.Proxy.Demask.{demask}
use shinel.Proxy.Demask.OneShot.{demask-Restores}
use shinel.Proxy.Escape.{json_escape}
use shinel.Proxy.Stream.{max_token_len, resolve}
use shinel.Proxy.Stream.Positions.{NoBracket, end, on, advance_all-NoBracket}
use shinel.Proxy.Stream.Spec.{NoTokenHere, Restores}
use shinel.Proxy.Stream.Unique.{Restores-unique}
use shinel.Proxy.Token.{IsToken}
use shinel.Proxy.Token.Automaton.{opened}
use shinel.Proxy.Token.Grammar.{advance_all-IsToken}
use shinel.Vault.{Reply, value}

-- Nothing in the text looks like a token.
abbrev pub TokenFree : Bytes → Type 0
TokenFree text = (before t after : Bytes) → text ≡ before ++ (t ++ after) → ¬ (IsToken t)

pub TokenFree-append : (a b : Bytes) → TokenFree (a ++ b) → TokenFree b
TokenFree-append a b h before t after e =
    h (a ++ before) t after (ap (λ r. a ++ r) e ∙ sym (append_assoc a before (t ++ after)))

-- A text without `[` has no token.
pub NoBracket-TokenFree : {text : Bytes} → NoBracket text → TokenFree text
NoBracket-TokenFree end [] t after e i = let (r, s, _) = advance_all-IsToken i in ground arith
NoBracket-TokenFree end (b ∷ before) t after e i = ground arith
NoBracket-TokenFree (on n q) [] t after e i =
    let (r, s, _) = advance_all-IsToken i in n (ground arith)
NoBracket-TokenFree (on n q) (b ∷ before) t after e i =
    NoBracket-TokenFree q before t after (ground arith) i

-- Bytes other than `[` at the front of the masked text are those of the text.
pub Masks-quiet :
    {m : Map Bytes} {text masked shown r : Bytes} (rest : Bytes)
    → NoBracket r
    → Masks m text masked shown
    → masked ≡ r ++ rest
    → (rest' : Bytes) × (text ≡ r ++ rest')
Masks-quiet {text = text} rest end h e = (text, refl)
Masks-quiet rest (on n q) done e = absurd (ground arith)
Masks-quiet rest (on n q) (keep {b} h) e =
    let (rest', f) = Masks-quiet rest q h (ground arith) in (rest', ap₂ ◌∷◌ (ground arith) f)
Masks-quiet rest (on n q) (token l i t o s h) e =
    let (r, spelled, _) = advance_all-IsToken i in absurd (n (ground arith))

-- No token begins at a byte that was kept, unless the text itself had one there.
kept_is_quiet :
    {m : Map Bytes} {text masked shown : Bytes} (b : ℕ)
    → TokenFree (b ∷ text)
    → Masks m text masked shown
    → NoTokenHere (b ∷ masked)
kept_is_quiet b free h t rest e short i =
    let (r, spelled, a) = advance_all-IsToken i in
    let (rest', f) = Masks-quiet rest (advance_all-NoBracket opened r a) h (ground arith) in
    free [] t rest' (ap₂ ◌∷◌ (ground arith) f ∙ ap (λ x. x ++ rest') (sym spelled)) i

pub resolve_known :
    {V : Type 0} (get_mapping : V → Bytes → V × Reply) (v : V) (t x : Bytes)
    → (get_mapping v t).1 ≡ value x
    → (resolve get_mapping v t).1 ≡ json_escape x
unfolding resolve
resolve_known get_mapping v t x e = rw e

-- Every token of the mapping is short enough to be recognised in the stream.
abbrev pub AllShort : Map Bytes → Type 0
AllShort m = (t x : Bytes) → lookup t m ≡ some x → length t ≤ max_token_len

-- The values that need no escape in a JSON string.
abbrev pub AllPlain : Map Bytes → Type 0
AllPlain m = (t x : Bytes) → lookup t m ≡ some x → json_escape x ≡ x

shown-plain :
    {m : Map Bytes} {text masked shown : Bytes}
    → AllPlain m
    → Masks m text masked shown
    → shown ≡ text
shown-plain plain done = refl
shown-plain plain (keep {b} h) = ap (λ r. b ∷ r) (shown-plain plain h)
shown-plain plain (token {t} {value} l i e o s h) =
    s ∙ ap₂ ◌++◌ (plain t value l) (shown-plain plain h) ∙ sym e

module _ {V : Type 0} (get_mapping : V → Bytes → V × Reply) (m : Map Bytes) where
  -- The vault answers for the mapping, in every state that satisfies `P`, and stays in such states.
  pub record Serves (P : V → Type 0) : Type 0 where
    pub answers : (v : V) (t x : Bytes) → P v → lookup t m ≡ some x → (get_mapping v t).1 ≡ value x
    pub keeps : (v : V) (t : Bytes) → P v → P (get_mapping v t).0

  pub resolve_keeps :
      {P : V → Type 0} (v : V) (t : Bytes) → Serves P → P v → P (resolve get_mapping v t).0
  unfolding resolve
  resolve_keeps v t serves p = serves.keeps v t p

  pub Masks-Restores :
      {P : V → Type 0} {text masked shown : Bytes} (v : V)
      → Serves P
      → AllShort m
      → Masks m text masked shown
      → TokenFree text
      → P v
      → (last : V) × Restores get_mapping last v masked shown
  Masks-Restores v serves short done free p = (v, Restores.done refl)
  Masks-Restores v serves short (keep {b} h) free p =
      let (last, r) = Masks-Restores v serves short h (TokenFree-append (b ∷ []) _ free) p in
      (last, Restores.byte (kept_is_quiet b free h) r)
  Masks-Restores v serves short (token {t} {value} {text} {shown = tail} l i e o s h) free p =
      let (last, r) =
        Masks-Restores (resolve get_mapping v t).0 serves short h
          (TokenFree-append value text (subst TokenFree e free)) (resolve_keeps v t serves p) in
      (
        last,
        Restores.token i (short t value l) o r (
            s
            ∙ ap (λ x. x ++ tail)
                (sym (resolve_known get_mapping v t value (serves.answers v t value p l)))),
      )

-- A text with no token in it, masked with any spans that fit it, then sent back as it is through
-- `demask` with a vault that serves the mapping: the stretches that were masked come back escaped
-- for JSON, and the rest of the text is untouched. No token is longer than the restoring writer's
-- limit.
pub demask-anonymize_spans :
    {V : Type 0} (get_mapping : V → Bytes → V × Reply) (P : V → Type 0) (text : Bytes)
    (spans : List Span) (v : V)
    → let (sess, masked) = anonymize_spans text spans new_session in
      All (Fits text) spans
      → TokenFree text
      → AllShort sess.mapping
      → Serves get_mapping sess.mapping P
      → P v
      → Masks sess.mapping text masked (demask get_mapping v masked).1
demask-anonymize_spans get_mapping P text spans v fits free short serves p =
    let (sess, masked) = anonymize_spans text spans new_session in
    let (shown, h, _) = anonymize_spans-Masks text spans fits new_session-IsSound in
    let (last, r) = Masks-Restores get_mapping sess.mapping v serves short h free p in
    let (_, same) = Restores-unique get_mapping v (demask-Restores get_mapping v masked) r in
    subst (λ x. Masks sess.mapping text masked x) (sym same) h

-- Where no masked value needs an escape in JSON, the text comes back as it was.
pub demask-anonymize_spans_plain :
    {V : Type 0} (get_mapping : V → Bytes → V × Reply) (P : V → Type 0) (text : Bytes)
    (spans : List Span) (v : V)
    → let (sess, masked) = anonymize_spans text spans new_session in
      All (Fits text) spans
      → TokenFree text
      → AllShort sess.mapping
      → AllPlain sess.mapping
      → Serves get_mapping sess.mapping P
      → P v
      → (demask get_mapping v masked).1 ≡ text
demask-anonymize_spans_plain get_mapping P text spans v fits free short plain serves p =
    shown-plain plain (demask-anonymize_spans get_mapping P text spans v fits free short serves p)
