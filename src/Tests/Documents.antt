-- ===== src/Tests/Documents.antt =====
-- A JSON body through the handler of internal/proxy/proxy.go and back.
use shinel.Base.{
  ◌≤◌, ◌≡◌, refl, [], ◌∷◌, List, if◌then◌else◌, is_empty, Option, none, some, arith, length, true,
}
use shinel.Base.Bytes.{Bytes, codes, bytes_eq}
use shinel.Base.Maps.{Map, lookup, insert, All-lookup}
use shinel.Base.Sort.{All, sort_by}
use shinel.Analyzer.Json.{
  Json, number, string, array, object, no_items, item, no_fields, field, walk_json, taken_whole,
  secret_key, underscored, text_of, is_scalar,
}
use shinel.Analyzer.Json.Encode.{
  write, is_number, AllTexts, number_texts, string_texts, array_texts, object_texts, no_item_texts,
  item_texts, no_field_texts, field_texts,
}
use shinel.Analyzer.Json.Decode.{
  read_json, read_value, read_field, read_more_fields, read_more, read_key, start_of, number_of,
  behind,
}
use shinel.Analyzer.Session.{token_for, token_text, count_of}
use shinel.Analyzer.Span.{Span}
use shinel.Analyzer.Sweep.{anonymize_spans, sort_spans, sweep}
use shinel.Analyzer.Sweep.Masks.{Fits}
use shinel.EndToEnd.Documents.{walked, body_analyzer, GetsJson, handle-GetsJson}
use shinel.EndToEnd.Exchange.{echo}
use shinel.Proxy.Escape.Plain.{write_string}
use shinel.Proxy.Escape.Reader.{read_string, step_of, step_plain, step_escaped}
use shinel.Proxy.Escape.Reader.Valid.{valid_from, IsUtf8}
use shinel.Proxy.Gateway.{handle}
use shinel.Proxy.Response.{is_event_stream}
use shinel.Proxy.Stream.{max_token_len}
use shinel.Proxy.Token.Tests.{Letters-of_all_upper, NoBracket-of_no_bracket, no_bracket}
use shinel.RoundTrip.{TokenFree, NoBracket-TokenFree}
use shinel.Tests.Relaying.{out, resp, origins, no_recorder, target, out_route}
use shinel.Tests.Storing.{function_cache}
use shinel.Vault.Memory.{memory_vault}

abbrev tree : Json
tree = object (
    field (codes "api-key") (string (codes "k")) (
      field (codes "n") (array (item (number (codes "41")) no_items))
        (field (codes "name") (string (codes "a\"b")) no_fields)))

abbrev body : Bytes
body = codes "{\"api-key\":\"k\",\"n\":[41],\"name\":\"a\\\"b\"}"

-- All of a text is one value.
abbrev whole : Bytes → List Span
whole text = record { start = 0; end = length text; kind = codes "EMAIL" } ∷ []

whole-Fits : (text : Bytes) → All (Fits text) (whole text)
whole-Fits text = (
  record {
    ordered = omega arith;
    inside = omega arith;
    letters = Letters-of_all_upper b'E' (codes "MAIL") refl;
  },
  tt,
)

abbrev same_case : Bytes → Bytes
same_case t = t

-- A text that is one value, without spaces.
abbrev parse : Bytes → Option Json
parse text = elim (read_json text) [
  | none ↦ none
  | some (v, rest) ↦ if is_empty rest then some v else none
]

parse-body : parse body ≡ some tree
unfolding read_json read_value read_field read_more_fields read_more read_key start_of number_of
    behind read_string step_of step_plain step_escaped
parse-body = refl

abbrev masked : Json
masked = object (
    field (codes "api-key") (string (codes "[PASSWORD_1]")) (
      field (codes "n") (array (item (number (codes "41")) no_items))
        (field (codes "name") (string (codes "[EMAIL_1]")) no_fields)))

abbrev mapping : Map Bytes
mapping = (codes "[PASSWORD_1]", codes "k") ∷ (codes "[EMAIL_1]", codes "a\"b") ∷ []

walked-tree : (walked same_case whole whole-Fits parse tree).1 ≡ masked
unfolding walk_json taken_whole secret_key underscored text_of anonymize_spans sort_spans sort_by
    sweep token_for token_text count_of lookup insert bytes_eq
walked-tree = refl

walked-mapping : (walked same_case whole whole-Fits parse tree).0.mapping ≡ mapping
unfolding walk_json taken_whole secret_key underscored text_of anonymize_spans sort_spans sort_by
    sweep token_for token_text count_of lookup insert bytes_eq
walked-mapping = refl

written : write masked [] ≡ codes "{\"api-key\":\"[PASSWORD_1]\",\"n\":[41],\"name\":\"[EMAIL_1]\"}"
unfolding write write_string
written = refl

free : (s : Bytes) → no_bracket s ≡ true → TokenFree s
free s h = NoBracket-TokenFree (NoBracket-of_no_bracket s h)

tree-TokenFree : AllTexts TokenFree tree
unfolding is_number
tree-TokenFree = object_texts (
    field_texts (free (codes "api-key") refl) (string_texts (free (codes "k") refl)) (
      field_texts (free (codes "n") refl)
        (array_texts (item_texts (number_texts refl) no_item_texts))
        (field_texts (free (codes "name") refl) (string_texts (free (codes "a\"b") refl))
          no_field_texts)))

masked-IsUtf8 : AllTexts IsUtf8 masked
unfolding is_number valid_from
masked-IsUtf8 = object_texts (
    field_texts refl (string_texts refl) (
      field_texts refl (array_texts (item_texts (number_texts refl) no_item_texts))
        (field_texts refl (string_texts refl) no_field_texts)))

mapping_utf8 : All (λ (e : Bytes × Bytes). valid_from 0 e.1 ≡ true) mapping
unfolding valid_from
mapping_utf8 = (refl, (refl, tt))

handle-GetsJson_example :
    GetsJson same_case whole whole-Fits parse function_cache
      (codes "r1")
      no_recorder
      origins
      (λ t. some t)
      (handle
        (memory_vault function_cache)
        none
        (codes "r1")
        (body_analyzer same_case whole whole-Fits parse)
        no_recorder
        origins
        (λ t. some t)
        (echo 200 resp)
        (record out {
          request = record out.request { body = some (record { content = body; failure = none }) };
        })
        (λ k. none)
        0).answer
      200
      resp
      tree
unfolding is_event_stream bytes_eq
handle-GetsJson_example =
    handle-GetsJson same_case whole whole-Fits parse function_cache (codes "r1") no_recorder origins
      (λ t. some t) target
      (record out {
        request = record out.request { body = some (record { content = body; failure = none }) };
      })
      (record { content = body; failure = none }) tree 200 resp (λ k. none) 0 out_route refl
      (λ e. absurd (ground (arith, e)))
      (record { declared = refl; small = omega arith; whole = refl }) refl refl
      (rw (walked-tree, written) (omega arith)) parse-body (unfold is_scalar in refl) tree-TokenFree
      (rw walked-tree masked-IsUtf8)
      (rw walked-mapping
        (λ t x e. All-lookup (λ t x. length t ≤ max_token_len) mapping t x (omega arith) e))
      (rw walked-mapping
        (λ t x e. All-lookup (λ t x. valid_from 0 x ≡ true) mapping t x mapping_utf8 e))
