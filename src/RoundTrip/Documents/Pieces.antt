-- ===== src/RoundTrip/Documents/Pieces.antt =====
-- The pieces of a JSON text, restored by internal/proxy.
use shinel.Base.{◌≡◌, sym, ap, ◌∙◌, subst, [], ◌∷◌, ◌++◌, some, arith, append-nil, ℕ, ◌≢◌}
use shinel.Base.Bytes.{Bytes}
use shinel.Base.Maps.{Map, lookup}
use shinel.Analyzer.Json.{Json, string}
use shinel.Analyzer.Json.Encode.{StringText, JsonText, string_text, AllTexts}
use shinel.Analyzer.Sweep.Masks.{Masks, done, token}
use shinel.Proxy.Escape.{json_escape}
use shinel.Proxy.Escape.Plain.{write_string}
use shinel.Proxy.Escape.Reader.{plain, prepend, read_string}
use shinel.Proxy.Escape.Reader.Valid.{IsUtf8}
use shinel.Proxy.Escape.Reader.Whole.{read-quote}
use shinel.Proxy.Stream.Positions.{NoBracket, no_token_off_bracket}
use shinel.Proxy.Token.{IsToken}
use shinel.RoundTrip.{TokenFree, AllShort, Serves}
use shinel.RoundTrip.Quoted.{AllUtf8}
use shinel.RoundTrip.Strings.{string-Reading}
use shinel.RoundTrip.Strings.Outputs.{Shown, Shown-byte, Shown-quiet, Shown-map}
use shinel.Vault.{Reply}
use shinel.RoundTrip.Documents.Starts.{Masks-self, string_text-of, Value, Entry}

module _ {V : Type 0} (get_mapping : V → Bytes → V × Reply) (m : Map Bytes) {P : V → Type 0}
    (serves : Serves get_mapping m P) (short : AllShort m) (valid : AllUtf8 m) where
  abbrev pub Out : (Bytes → Type 0) → Bytes → Type 0
  Out C text = Shown get_mapping m serves short C text

  -- One byte that is no bracket.
  pub byte-Out :
      {C : Bytes → Type 0} (b : ℕ) {text : Bytes}
      → b ≢ b'['
      → Out C text
      → Out (λ out. (o : Bytes) × C o × (out ≡ b ∷ o)) (b ∷ text)
  byte-Out b n s = Shown-byte get_mapping m serves short (no_token_off_bracket n) s

  pub string-Out :
      {C : Bytes → Type 0} {s masked shown : Bytes} (rest : Bytes)
      → Masks m s masked shown
      → TokenFree s
      → IsUtf8 masked
      → Out C rest
      → Out (λ out. (o : Bytes) × C o × StringText s out o) (write_string masked rest)
  unfolding write_string
  string-Out {C} {s} {masked} rest masks free w out =
      let quoted = byte-Out b'"' (λ e. ground arith) out in
      let (s', e, shown) =
        string-Reading get_mapping m serves short valid rest quoted 0 masks free w (omega arith)
          tt in
      Shown-map get_mapping m serves short
        (λ out (t, (q, (o, c, f), reads), g). (
          o,
          c,
          (
            t,
            g,
            reads
                ∙ ap (λ x. prepend s' (read_string plain x)) f
                ∙ ap (prepend s') (read-quote o)
                ∙ ap (λ x. some (x, o)) (append-nil s' ∙ sym e),
          ),
        ))
        (byte-Out b'"' (λ e. ground arith) shown)

  pub literal-Out :
      {C : Bytes → Type 0} {v : Json} (word : Bytes) (rest : Bytes)
      → NoBracket word
      → ((out o : Bytes) → out ≡ word ++ o → JsonText v out o)
      → Out C rest
      → Out (Value v C) (word ++ rest)
  literal-Out word rest q f out =
      Shown-map get_mapping m serves short (λ t (o, c, e). (o, c, f t o e))
        (Shown-quiet get_mapping m serves short q out)

  pub entry-Out :
      {C : Bytes → Type 0} {v : Json} (k text : Bytes)
      → TokenFree k
      → IsUtf8 k
      → Out (Value v C) text
      → Out (Entry k v C) (write_string k (b':' ∷ text))
  entry-Out k text f w out =
      Shown-map get_mapping m serves short
        (λ t (behind, (front, (o, c, h), e), q). (o, c, (behind, front, q, e, h)))
        (string-Out _ (Masks-self k) f w (byte-Out b':' (λ e. ground arith) out))

  -- A value that was taken as a whole.
  pub taken-Out :
      {C : Bytes → Type 0} {v : Json} {s t : Bytes} (rest : Bytes)
      → v ≡ string s
      → lookup t m ≡ some s
      → IsToken t
      → AllTexts TokenFree v
      → AllTexts IsUtf8 (string t)
      → Out C rest
      → Out (Value v C) (write_string t rest)
  taken-Out {s = s} {t} rest e l i f w out =
      let whole : (r : Bytes) → r ≡ r ++ [] = λ r. sym (append-nil r) in
      let masks : Masks m s t (json_escape s) = token l i (whole s) (whole t) (whole _) done in
      Shown-map get_mapping m serves short (λ t (o, c, q). (o, c, rw e (string_text q)))
        (string-Out rest masks (string_text-of (subst (AllTexts TokenFree) e f)) (string_text-of w)
          out)
