-- ===== src/RoundTrip/Documents.antt =====
-- A JSON body that internal/analyzer masks, that comes back as it was sent, and that
-- internal/proxy restores, is the JSON text of the tree that was masked.
mod Starts
mod Pieces
use shinel.Base.{
  List, ◌≡◌, refl, sym, ap, ◌∙◌, subst, Bool, true, false, [], ◌∷◌, ◌++◌, some, arith, append-nil,
  append_assoc, ℕ, ◌≢◌,
}
use shinel.Base.Bytes.{Bytes, codes, is_upper}
use shinel.Base.Maps.{Map, lookup}
use shinel.Analyzer.Json.{Json, string, Items, Fields}
use shinel.Analyzer.Json.Encode.{
  is_number_char, all_number_chars, is_number, stops, write, write_items, write_more, write_fields,
  write_more_fields, StringText, JsonText, null_text, true_text, false_text, number_text,
  string_text, array_text, object_text, ItemsText, no_item_text, first_item, MoreItems, last_item,
  next_item, FieldsText, no_field_text, first_field, MoreFields, last_field, next_field, AllTexts,
  null_texts, boolean_texts, number_texts, string_texts, array_texts, object_texts, AllItems,
  no_item_texts, item_texts, AllFields, field_texts,
}
use shinel.Analyzer.Json.Masked.{
  MaskedJson, same_null, same_boolean, same_number, masked_string, masked_array, masked_object,
  MaskedItems, same_items, masked_item, MaskedFields, same_fields, masked_field, taken_field,
}
use shinel.Analyzer.Span.{Span}
use shinel.Analyzer.Sweep.Masks.{Masks, done, keep, token}
use shinel.Proxy.Escape.{json_escape}
use shinel.Proxy.Escape.Plain.{write_string}
use shinel.Proxy.Escape.Reader.{plain, prepend, read_string}
use shinel.Proxy.Escape.Reader.Valid.{IsUtf8}
use shinel.Proxy.Escape.Reader.Whole.{read-quote}
use shinel.Proxy.Stream.Positions.{NoBracket, end, on, no_token_off_bracket}
use shinel.Proxy.Demask.{demask}
use shinel.Proxy.Demask.OneShot.{demask-Restores}
use shinel.Proxy.Stream.Unique.{Restores-unique}
use shinel.Proxy.Stream.Spec.{NoTokenHere, Restores}
use shinel.Proxy.Token.{IsToken, Letters}
use shinel.Proxy.Token.Tests.{NoBracket-of_no_bracket}
use shinel.RoundTrip.{TokenFree, AllShort, Serves}
use shinel.RoundTrip.Quoted.{AllUtf8}
use shinel.RoundTrip.Strings.{string-Reading}
use shinel.RoundTrip.Strings.Outputs.{Shown, Shown-byte, Shown-quiet, Shown-map}
use shinel.Vault.{Reply}
use shinel.RoundTrip.Documents.Starts.{
  no_token_at_array, write_items-starts, is_number-NoBracket, Value, Stop, MoreItems-stops,
  MoreFields-stops,
}
use shinel.RoundTrip.Documents.Pieces.{Out, byte-Out, string-Out, literal-Out, entry-Out, taken-Out}

module _ (to_lower : Bytes → Bytes) (found : Bytes → List Span) {V : Type 0}
    (get_mapping : V → Bytes → V × Reply) (m : Map Bytes) {P : V → Type 0}
    (serves : Serves get_mapping m P) (short : AllShort m) (valid : AllUtf8 m) where
  mutual
    unfolding write write_items write_more write_fields write_more_fields

    Value-Out :
        {C : Bytes → Type 0} {v v' : Json} (rest : Bytes)
        → Stop C
        → MaskedJson to_lower found m v v'
        → AllTexts TokenFree v
        → AllTexts IsUtf8 v'
        → Out get_mapping m serves short valid C rest
        → Out get_mapping m serves short valid (Value v C) (write v' rest)
    Value-Out rest stop same_null free valid' out =
        literal-Out get_mapping m serves short valid (codes "null") rest
          (NoBracket-of_no_bracket _ refl) (λ t o e. null_text e) out
    Value-Out rest stop (same_boolean true) free valid' out =
        literal-Out get_mapping m serves short valid (codes "true") rest
          (NoBracket-of_no_bracket _ refl) (λ t o e. true_text e) out
    Value-Out rest stop (same_boolean false) free valid' out =
        literal-Out get_mapping m serves short valid (codes "false") rest
          (NoBracket-of_no_bracket _ refl) (λ t o e. false_text e) out
    Value-Out rest stop (same_number n) (number_texts h) valid' out =
        Shown-map get_mapping m serves short (λ t (o, c, e). (o, c, number_text h (stop o c) e))
          (Shown-quiet get_mapping m serves short (is_number-NoBracket n h) out)
    Value-Out rest stop (masked_string masks hidden) (string_texts f) (string_texts w) out =
        Shown-map get_mapping m serves short (λ t (o, c, s). (o, c, string_text s))
          (string-Out get_mapping m serves short valid rest masks f w out)
    Value-Out rest stop (masked_array masks) (array_texts f) (array_texts w) out =
        Shown-map get_mapping m serves short (λ t (i, (o, c, s), e). (o, c, array_text e s))
          (Shown-byte get_mapping m serves short (no_token_at_array _ (write_items-starts rest w))
            (items-Out rest masks f w out))
    Value-Out rest stop (masked_object masks) (object_texts f) (object_texts w) out =
        Shown-map get_mapping m serves short (λ t (i, (o, c, s), e). (o, c, object_text e s))
          (byte-Out get_mapping m serves short valid b'{' (λ e. ground arith)
            (fields-Out rest masks f w out))

    items-Out :
        {C : Bytes → Type 0} {is is' : Items} (rest : Bytes)
        → MaskedItems to_lower found m is is'
        → AllItems TokenFree is
        → AllItems IsUtf8 is'
        → Out get_mapping m serves short valid C rest
        → Out get_mapping m serves short valid
            (λ out. (o : Bytes) × C o × ItemsText is out o)
            (write_items is' rest)
    items-Out rest same_items f w out =
        Shown-map get_mapping m serves short (λ t (o, c, e). (o, c, no_item_text e))
          (byte-Out get_mapping m serves short valid b']' (λ e. ground arith) out)
    items-Out rest (masked_item masks more) (item_texts f fs) (item_texts w ws) out =
        Shown-map get_mapping m serves short (λ t (u, (o, c, s), h). (o, c, first_item h s))
          (Value-Out _ (λ o (r, c, s). MoreItems-stops s) masks f w (more-Out rest more fs ws out))

    more-Out :
        {C : Bytes → Type 0} {is is' : Items} (rest : Bytes)
        → MaskedItems to_lower found m is is'
        → AllItems TokenFree is
        → AllItems IsUtf8 is'
        → Out get_mapping m serves short valid C rest
        → Out get_mapping m serves short valid
            (λ out. (o : Bytes) × C o × MoreItems is out o)
            (write_more is' rest)
    more-Out rest same_items f w out =
        Shown-map get_mapping m serves short (λ t (o, c, e). (o, c, last_item e))
          (byte-Out get_mapping m serves short valid b']' (λ e. ground arith) out)
    more-Out rest (masked_item masks more) (item_texts f fs) (item_texts w ws) out =
        Shown-map get_mapping m serves short
          (λ t (x, (u, (o, c, s), h), e). (o, c, next_item e h s))
          (byte-Out get_mapping m serves short valid b',' (λ e. ground arith)
            (Value-Out _ (λ o (r, c, s). MoreItems-stops s) masks f w
              (more-Out rest more fs ws out)))

    fields-Out :
        {C : Bytes → Type 0} {fs fs' : Fields} (rest : Bytes)
        → MaskedFields to_lower found m fs fs'
        → AllFields TokenFree fs
        → AllFields IsUtf8 fs'
        → Out get_mapping m serves short valid C rest
        → Out get_mapping m serves short valid
            (λ out. (o : Bytes) × C o × FieldsText fs out o)
            (write_fields fs' rest)
    fields-Out rest same_fields f w out =
        Shown-map get_mapping m serves short (λ t (o, c, e). (o, c, no_field_text e))
          (byte-Out get_mapping m serves short valid b'}' (λ e. ground arith) out)
    fields-Out rest (masked_field k left masks more) (field_texts fk f fs) (field_texts wk w ws)
          out =
        Shown-map get_mapping m serves short
          (λ t (x, (o, c, r), (_, _, q, e, h)). (o, c, first_field q e h r))
          (entry-Out get_mapping m serves short valid k _ fk wk (
            Value-Out _ (λ o (r, c, s). MoreFields-stops s) masks f w
              (MoreFields-Out rest more fs ws out)))
    fields-Out rest (taken_field k secret e l i more) (field_texts fk f fs) (field_texts wk w ws)
          out =
        Shown-map get_mapping m serves short
          (λ t (x, (o, c, r), (_, _, q, e, h)). (o, c, first_field q e h r))
          (entry-Out get_mapping m serves short valid k _ fk wk (
            taken-Out get_mapping m serves short valid _ e l i f w
              (MoreFields-Out rest more fs ws out)))

    MoreFields-Out :
        {C : Bytes → Type 0} {fs fs' : Fields} (rest : Bytes)
        → MaskedFields to_lower found m fs fs'
        → AllFields TokenFree fs
        → AllFields IsUtf8 fs'
        → Out get_mapping m serves short valid C rest
        → Out get_mapping m serves short valid
            (λ out. (o : Bytes) × C o × MoreFields fs out o)
            (write_more_fields fs' rest)
    MoreFields-Out rest same_fields f w out =
        Shown-map get_mapping m serves short (λ t (o, c, e). (o, c, last_field e))
          (byte-Out get_mapping m serves short valid b'}' (λ e. ground arith) out)
    MoreFields-Out rest (masked_field k left masks more) (field_texts fk f fs) (field_texts wk w ws)
          out =
        Shown-map get_mapping m serves short
          (λ t (y, (x, (o, c, r), (_, _, q, e, h)), d). (o, c, next_field d q e h r))
          (byte-Out get_mapping m serves short valid b',' (λ e. ground arith)
            (entry-Out get_mapping m serves short valid k _ fk wk (
              Value-Out _ (λ o (r, c, s). MoreFields-stops s) masks f w
                (MoreFields-Out rest more fs ws out))))
    MoreFields-Out rest (taken_field k secret e l i more) (field_texts fk f fs)
          (field_texts wk w ws) out =
        Shown-map get_mapping m serves short
          (λ t (y, (x, (o, c, r), (_, _, q, e, h)), d). (o, c, next_field d q e h r))
          (byte-Out get_mapping m serves short valid b',' (λ e. ground arith)
            (entry-Out get_mapping m serves short valid k _ fk wk (
              taken-Out get_mapping m serves short valid _ e l i f w
                (MoreFields-Out rest more fs ws out))))

  -- What is restored of the JSON text of a masked tree is the JSON text of the tree.
  pub demask-write :
      (v : V) {j j' : Json}
      → P v
      → MaskedJson to_lower found m j j'
      → AllTexts TokenFree j
      → AllTexts IsUtf8 j'
      → JsonText j (demask get_mapping v (write j' [])).1 []
  unfolding stops
  demask-write v {j} {j'} p masks free w =
      let (last, out, r, (o, e, text)) =
        Value-Out {C = λ o. o ≡ []} [] (λ o e. rw e refl) masks free w
          (λ v p. (v, [], Restores.done refl, refl)) v p in
      let (_, same) =
        Restores-unique get_mapping v (demask-Restores get_mapping v (write j' [])) r in
      rw same (subst (JsonText j out) e text)
