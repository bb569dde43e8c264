-- ===== src/RoundTrip/Quoted.antt =====
-- A text that internal/analyzer masks, that an upstream puts into a JSON string, and that
-- internal/proxy restores there.
use shinel.Base.{
  ◌≡◌, sym, ap, subst, ◌∙◌, true, [], ◌∷◌, ◌++◌, some, append_assoc, append-nil, List,
}
use shinel.Base.Bytes.{Bytes}
use shinel.Base.Maps.{Map, lookup}
use shinel.Base.Sort.{All}
use shinel.Analyzer.Session.{new_session}
use shinel.Analyzer.Span.{Span}
use shinel.Analyzer.Sweep.{anonymize_spans}
use shinel.Analyzer.Sweep.Masks.{Masks, done, keep, token, Fits}
use shinel.Proxy.Demask.{demask}
use shinel.Proxy.Escape.{json_escape}
use shinel.Proxy.Escape.Reader.{plain, step_of, prepend, read_string, repaired}
use shinel.Proxy.Escape.Reader.Repaired.{StandsForItself, prepend-append, prepend-nil, read-go}
use shinel.Proxy.Escape.Reader.Valid.{valid_from, repaired_valid}
use shinel.Proxy.Escape.Reader.Whole.{read-json_escape, read-quote}
use shinel.RoundTrip.{TokenFree, AllShort, Serves, demask-anonymize_spans}
use shinel.Vault.{Reply}

-- No byte of the text needs an escape in a JSON string.
abbrev pub NeedsNoEscape : Bytes → Type 0
NeedsNoEscape text = All StandsForItself text

-- Every value of a mapping is in UTF-8.
abbrev pub AllUtf8 : Map Bytes → Type 0
AllUtf8 m = (t x : Bytes) → lookup t m ≡ some x → valid_from 0 x ≡ true

All-behind : (t rest : Bytes) → NeedsNoEscape (t ++ rest) → NeedsNoEscape rest
All-behind [] rest h = h
All-behind (b ∷ t) rest (hb, h) = All-behind t rest h

-- What is shown for a masked text is read as the text.
read-Masks :
    {m : Map Bytes} {text masked shown : Bytes} (after : Bytes)
    → AllUtf8 m
    → Masks m text masked shown
    → NeedsNoEscape masked
    → read_string plain (shown ++ after) ≡ prepend text (read_string plain after)
unfolding step_of
read-Masks after valid done h = sym (prepend-nil _)
read-Masks after valid (keep {b} {text} {masked} {shown} masks) (hb, h) =
    read-go plain plain b (b ∷ []) (shown ++ after) hb
    ∙ ap (prepend (b ∷ [])) (read-Masks after valid masks h)
    ∙ prepend-append (b ∷ []) text (read_string plain after)
read-Masks after valid (token {t} {value} {text} {masked} {shown} found is_token o p q masks) h =
    let rest = read_string plain after in
    ap (λ s. read_string plain (s ++ after)) q
    ∙ ap (read_string plain) (append_assoc (json_escape value) shown after)
    ∙ read-json_escape value (shown ++ after)
    ∙ ap (prepend (repaired value))
        (read-Masks after valid masks (All-behind t masked (subst NeedsNoEscape p h)))
    ∙ prepend-append (repaired value) text rest
    ∙ ap (λ v. prepend (v ++ text) rest) (repaired_valid value (valid t value found))
    ∙ ap (λ s. prepend s rest) (sym o)

-- A text with no token in it, masked with any spans that fit it, and put into a JSON string by the
-- upstream as it is. Sent through `demask` with a vault that serves the mapping, it is read there as
-- the text that was masked, whatever bytes the values hold, quotes and backslashes included, and
-- the string ends where it should. No token is longer than the restoring writer's limit, no byte
-- that is sent needs an escape in a JSON string, and the values are in UTF-8.
pub read-demask-anonymize_spans :
    {V : Type 0} (get_mapping : V → Bytes → V × Reply) (P : V → Type 0) (text : Bytes)
    (spans : List Span) (v : V) (rest : Bytes)
    → let (sess, masked) = anonymize_spans text spans new_session in
      All (Fits text) spans
      → TokenFree text
      → AllShort sess.mapping
      → Serves get_mapping sess.mapping P
      → P v
      → NeedsNoEscape masked
      → AllUtf8 sess.mapping
      → read_string plain ((demask get_mapping v masked).1 ++ b'"' ∷ rest) ≡ some (text, rest)
read-demask-anonymize_spans get_mapping P text spans v rest fits free short serves p safe valid =
    read-Masks (b'"' ∷ rest) valid
      (demask-anonymize_spans get_mapping P text spans v fits free short serves p) safe
    ∙ ap (prepend text) (read-quote rest)
    ∙ ap (λ s. some (s, rest)) (append-nil text)
