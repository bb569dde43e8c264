-- ===== src/Analyzer/Sweep/Hides.antt =====
-- What `anonymizeText` of internal/analyzer/analyzer.go leaves of a text whose spans are known.
use shinel.Base.{
  ◌≡◌, refl, sym, ◌∙◌, subst, append_assoc, ℕ, List, [], ◌∷◌, ◌++◌, some, drop, slice,
}
use shinel.Base.Bytes.{Bytes}
use shinel.Base.Maps.{Map, lookup}
use shinel.Base.Sort.{All, sort_by, All-sort_by}
use shinel.Analyzer.Session.{Session, token_for}
use shinel.Analyzer.Session.Sound.{
  IsSound, token_for-lookup, token_for-keeps, token_for-IsToken, token_for-IsSound,
}
use shinel.Analyzer.Span.{Span}
use shinel.Analyzer.Sweep.{leftmost_longest, sort_spans, anonymize_spans}
use shinel.Analyzer.Sweep.Covers.{
  taken, replace_all, sweep-replace_all, All-taken, Chosen, taken-Chosen,
}
use shinel.Analyzer.Sweep.Masks.{Fits}
use shinel.Proxy.Token.{IsToken}

-- The text from a place on, with every span of a list replaced by a token that `m` has for what
-- stands there.
pub data Replaced (m : Map Bytes) (text : Bytes) : ℕ → List Span → Bytes → Type 0 where
  kept : {last : ℕ} {out : Bytes} → out ≡ drop last text → Replaced m text last [] out
  replaced :
      {last : ℕ} {s : Span} {ts : List Span} {t rest out : Bytes}
      → lookup t m ≡ some (slice s.start s.end text)
      → IsToken t
      → out ≡ slice last s.start text ++ (t ++ rest)
      → Replaced m text s.end ts rest
      → Replaced m text last (s ∷ ts) out

-- The text with the spans that were chosen of all the spans that were found replaced.
abbrev pub Hidden : Map Bytes → List Span → Bytes → Bytes → Type 0
Hidden m spans text out = (ts : List Span) × Chosen spans ts × Replaced m text 0 ts out

-- `m'` has what `m` has.
abbrev pub Keeps : Map Bytes → Map Bytes → Type 0
Keeps m m' = (t v : Bytes) → lookup t m ≡ some v → lookup t m' ≡ some v

record Filled (text : Bytes) (last : ℕ) (ts : List Span) (sess : Session) (out : Bytes)
    (r : Session × Bytes) : Type 0 where
  rest : Bytes
  writes : r.1 ≡ out ++ rest
  keeps : Keeps sess.mapping r.0.mapping
  fills : (m : Map Bytes) → Keeps r.0.mapping m → Replaced m text last ts rest

replace_all-Filled :
    (text : Bytes) (ts : List Span) (last : ℕ) (sess : Session) (out : Bytes)
    → All (Fits text) ts
    → IsSound sess
    → Filled text last ts sess out (replace_all text ts last sess out)
replace_all-Filled text [] last sess out f h = record {
  rest = drop last text;
  writes = refl;
  keeps = λ t v e. e;
  fills = λ m k. kept refl;
}
replace_all-Filled text (s ∷ ts) last sess out (fs, f) h =
    let value = slice s.start s.end text in
    let front = slice last s.start text in
    let t = (token_for sess s.kind value).1 in
    let w =
      replace_all-Filled text ts s.end (token_for sess s.kind value).0 ((out ++ front) ++ t) f
        (token_for-IsSound s.kind value fs.letters h) in
    record {
      rest = front ++ (t ++ w.rest);
      writes =
          w.writes ∙ append_assoc (out ++ front) t w.rest ∙ append_assoc out front (t ++ w.rest);
      keeps = λ u v e. w.keeps u v (token_for-keeps s.kind value fs.letters h u v e);
      fills = λ m k.
          replaced (k t value (w.keeps t value (token_for-lookup s.kind value fs.letters h)))
            (token_for-IsToken s.kind value fs.letters h) refl (w.fills m k);
    }

-- With every mapping that has the entries of the session behind, the masked text is the text with
-- the chosen spans replaced.
pub anonymize_spans-Hidden :
    (text : Bytes) (spans : List Span) {sess : Session}
    → All (Fits text) spans
    → IsSound sess
    → let (sess', out) = anonymize_spans text spans sess in
      (m : Map Bytes) → Keeps sess'.mapping m → Hidden m spans text out
unfolding anonymize_spans sort_spans
anonymize_spans-Hidden text spans {sess} f h =
    let ts = taken (sort_by leftmost_longest spans) 0 in
    let fits = All-taken (Fits text) _ 0 (All-sort_by (Fits text) leftmost_longest spans f) in
    let w = replace_all-Filled text ts 0 sess [] fits h in
    subst (λ r. (m : Map Bytes) → Keeps r.0.mapping m → Hidden m spans text r.1)
      (sym (sweep-replace_all text (sort_by leftmost_longest spans) 0 sess []))
      (λ m k. (ts, taken-Chosen spans, subst (Replaced m text 0 ts) (sym w.writes) (w.fills m k)))
