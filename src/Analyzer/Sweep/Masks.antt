-- ===== src/Analyzer/Sweep/Masks.antt =====
-- What the loop of `anonymizeText` in internal/analyzer/analyzer.go makes of a text.
use shinel.Base.{
  ℕ, ◌-◌, ◌≤◌, ◌≡◌, refl, sym, ◌∙◌, ap, subst, List, [], ◌∷◌, ◌++◌, some, arith, ltb, Bool-cases,
  inl, inr, length, drop, slice, take-append-drop, drop-drop, append_assoc, append-nil,
}
use shinel.Base.Bytes.{Bytes}
use shinel.Base.Maps.{Map, lookup}
use shinel.Base.Sort.{All, sort_by, All-sort_by}
use shinel.Analyzer.Session.{Session, token_for}
use shinel.Analyzer.Session.Sound.{
  IsSound, token_for-lookup, token_for-keeps, token_for-IsToken, token_for-IsSound,
}
use shinel.Analyzer.Span.{Span}
use shinel.Analyzer.Sweep.{leftmost_longest, sort_spans, sweep, anonymize_spans}
use shinel.Proxy.Escape.{json_escape}
use shinel.Proxy.Token.{Letters, IsToken}

-- `masked` is `text` with some stretches replaced by tokens that `m` has for them, and `shown` is
-- `text` with the same stretches escaped for JSON.
pub data Masks (m : Map Bytes) : Bytes → Bytes → Bytes → Type 0 where
  done : Masks m [] [] []
  keep :
      {b : ℕ} {text masked shown : Bytes}
      → Masks m text masked shown
      → Masks m (b ∷ text) (b ∷ masked) (b ∷ shown)
  token :
      {t value text masked shown text' masked' shown' : Bytes}
      → lookup t m ≡ some value
      → IsToken t
      → text' ≡ value ++ text
      → masked' ≡ t ++ masked
      → shown' ≡ json_escape value ++ shown
      → Masks m text masked shown
      → Masks m text' masked' shown'

-- A span lies in the text and has a kind of letters.
pub record Fits (text : Bytes) (s : Span) : Type 0 where
  pub ordered : s.start ≤ s.end
  pub inside : s.end ≤ length text
  pub letters : Letters s.kind

Masks-literal :
    {m : Map Bytes} {text masked shown : Bytes} (lit : Bytes)
    → Masks m text masked shown
    → Masks m (lit ++ text) (lit ++ masked) (lit ++ shown)
Masks-literal [] h = h
Masks-literal (b ∷ lit) h = keep (Masks-literal lit h)

Masks-text :
    {m : Map Bytes} {text text' masked shown : Bytes}
    → text' ≡ text
    → Masks m text masked shown
    → Masks m text' masked shown
Masks-text {m} {masked = masked} {shown = shown} e h = subst (λ x. Masks m x masked shown) (sym e) h

drop-slice : (a b : ℕ) (xs : Bytes) → a ≤ b → drop a xs ≡ slice a b xs ++ drop b xs
drop-slice a b xs h =
    sym (take-append-drop (b - a) (drop a xs))
    ∙ ap (λ r. slice a b xs ++ r) (drop-drop (b - a) a xs ∙ ap (λ k. drop k xs) (omega arith))

-- What the loop returns from `last` on.
pub record Swept (text : Bytes) (last : ℕ) (sess : Session) (out : Bytes) (r : Session × Bytes)
    : Type 0 where
  pub rest : Bytes
  pub shown : Bytes
  pub writes : r.1 ≡ out ++ rest
  pub masks : Masks r.0.mapping (drop last text) rest shown
  pub sound : IsSound r.0
  pub keeps : (t v : Bytes) → lookup t sess.mapping ≡ some v → lookup t r.0.mapping ≡ some v

replaced-Swept :
    (text : Bytes) (s : Span) (last : ℕ) (sess : Session) (out : Bytes) {r : Session × Bytes}
    → last ≤ s.start
    → Fits text s
    → IsSound sess
    → Swept text s.end
        (token_for sess s.kind (slice s.start s.end text)).0
        ((out ++ slice last s.start text) ++ (token_for sess s.kind (slice s.start s.end text)).1)
        r
    → Swept text last sess out r
replaced-Swept text s last sess out l f h w =
    let value = slice s.start s.end text in
    let t = (token_for sess s.kind value).1 in
    record {
      rest = slice last s.start text ++ (t ++ w.rest);
      shown = slice last s.start text ++ (json_escape value ++ w.shown);
      writes =
          w.writes
          ∙ append_assoc (out ++ slice last s.start text) t w.rest
          ∙ append_assoc out (slice last s.start text) (t ++ w.rest);
      masks = Masks-text (drop-slice last s.start text l) (
          Masks-literal (slice last s.start text) (
            token (w.keeps t value (token_for-lookup s.kind value f.letters h))
              (token_for-IsToken s.kind value f.letters h) (drop-slice s.start s.end text f.ordered)
              refl refl w.masks));
      sound = w.sound;
      keeps = λ u v e. w.keeps u v (token_for-keeps s.kind value f.letters h u v e);
    }

sweep-Swept :
    (text : Bytes) (ss : List Span) (last : ℕ) (sess : Session) (out : Bytes)
    → All (Fits text) ss
    → IsSound sess
    → Swept text last sess out (sweep text ss last sess out)
unfolding sweep
sweep-Swept text [] last sess out f h = record {
  rest = drop last text;
  shown = drop last text;
  writes = refl;
  masks = rw (← append-nil (drop last text)) (Masks-literal (drop last text) done);
  sound = h;
  keeps = λ t v e. e;
}
sweep-Swept text (s ∷ ss) last sess out (fs, f) h = elim (Bool-cases (ltb s.start last)) [
  | inl e ↦ rw e (sweep-Swept text ss last sess out f h)
  | inr e ↦ rw e (
      replaced-Swept text s last sess out (ground arith) fs h (
        sweep-Swept text ss s.end _ _ f
          (token_for-IsSound s.kind (slice s.start s.end text) fs.letters h)))
]

-- The whole of `anonymizeText`.
pub anonymize_spans-Swept :
    (text : Bytes) (spans : List Span) {sess : Session}
    → All (Fits text) spans
    → IsSound sess
    → Swept text 0 sess [] (anonymize_spans text spans sess)
unfolding anonymize_spans sort_spans
anonymize_spans-Swept text spans {sess} f h =
    sweep-Swept text (sort_by leftmost_longest spans) 0 sess []
      (All-sort_by (Fits text) leftmost_longest spans f) h

-- Whatever spans of the text are found, the result is the text with stretches of it replaced by
-- tokens, and the session has each of those tokens with the very stretch that it replaced.
pub anonymize_spans-Masks :
    (text : Bytes) (spans : List Span) {sess : Session}
    → All (Fits text) spans
    → IsSound sess
    → let (sess', masked) = anonymize_spans text spans sess in
      (shown : Bytes) × Masks sess'.mapping text masked shown × IsSound sess'
anonymize_spans-Masks text spans f h =
    let w = anonymize_spans-Swept text spans f h in (w.shown, rw w.writes w.masks, w.sound)
