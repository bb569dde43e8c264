-- ===== src/Tests/Walking.antt =====
-- internal/analyzer/json.go on a concrete tree, with the guesses of a concrete ML engine.
use shinel.Base.{ℕ, ◌≡◌, ◌↔◌, refl, Bool, false, true, [], ◌∷◌, List, Option, none, some}
use shinel.Base.Bytes.{Bytes, codes, bytes_eq}
use shinel.Base.Int.{pos, negsuc}
use shinel.Base.Maps.{insert, lookup}
use shinel.Base.Sort.{sort_by}
use shinel.Base.Utf8.{decode_rune}
use shinel.Analyzer.Guesses.{
  Entity, offsets_from, rune_offsets, byte_range, upper_only, sanitize_label, prose_from,
  looks_like_prose, usable, guess_of, guesses_of, collect_ml,
}
use shinel.Analyzer.Json.{
  Json, number, string, object, no_fields, field, underscored, secret_key, taken_whole, text_of,
  walk_json,
}
use shinel.Analyzer.Json.Parse.{more, parse_json, Ends, parse_json-Ends}
use shinel.Analyzer.MlClient.{
  MlHttp, MlEngineClient, new_ml_engine_client, found, decoded, answered, sent, analyze,
}
use shinel.Proxy.Body.{read_limited}
use shinel.Analyzer.Session.{new_session, token_text, count_of, token_for}
use shinel.Analyzer.Span.{Span}
use shinel.Analyzer.Sweep.{sort_spans, sweep, anonymize_spans}

-- One person in the first four characters, one entity out of range, and one without a label.
abbrev engine : Bytes → Option (List Entity)
engine text = some (
    record { entity = []; label = codes "PERSON"; start = pos 0; end = pos 4 }
    ∷ record { entity = []; label = codes "PERSON"; start = negsuc 0; end = pos 99 }
    ∷ record { entity = []; label = codes "_"; start = pos 1; end = pos 2 }
    ∷ [])

abbrev no_letter : ℕ → Bool
no_letter r = false

abbrev pub same_case : Bytes → Bytes
same_case s = s

abbrev guesses : Bytes → List Span
guesses = collect_ml no_letter same_case (some engine)

guessed : guesses (codes "Ivan is in") ≡ record { start = 0; end = 4; kind = codes "PERSON" } ∷ []
unfolding collect_ml guesses_of guess_of usable byte_range rune_offsets offsets_from sanitize_label
    upper_only looks_like_prose prose_from decode_rune bytes_eq
guessed = refl

abbrev pub tree : Json
tree = object (
    field (codes "age") (number (codes "41")) (
      field (codes "api-key") (string (codes "k"))
        (field (codes "name") (string (codes "Ivan I")) no_fields)))

walked :
    (walk_json same_case (λ text sess. anonymize_spans text (guesses text) sess) tree new_session).1
    ≡ object (
        field (codes "age") (number (codes "41")) (
          field
            (codes "api-key")
            (string (codes "[PASSWORD_1]"))
            (field (codes "name") (string (codes "[PERSON_1] I")) no_fields)))
unfolding walk_json taken_whole secret_key underscored text_of anonymize_spans sort_spans sort_by
    sweep token_for token_text count_of lookup insert collect_ml guesses_of guess_of usable
    byte_range rune_offsets offsets_from sanitize_label upper_only looks_like_prose prose_from
    decode_rune bytes_eq
walked = refl

-- A parser that knows one text, and an encoder that fails.
abbrev parse : Bytes → Option Json
parse text = some tree

abbrev pub marshal : Json → Option Bytes
marshal v = none

-- An engine that takes every request and replies with nothing found.
abbrev pub http : MlHttp
http = record {
  marshal = λ text labels. some text;
  accepts = λ url. true;
  do_request =
      λ t req. some (record { status = 200; body = record { content = []; failure = none } });
  decode = λ read. some [];
}

abbrev none_found : List Entity
none_found = []

abbrev client : MlEngineClient
client = new_ml_engine_client (codes "http://ml") (codes "PERSON" ∷ []) (pos 0)

analyzed : analyze http client (codes "Ivan") ≡ found none_found
unfolding analyze sent answered decoded read_limited new_ml_engine_client
analyzed = refl

-- A decoder that finds a value in front of any text.
abbrev pub decode : Bytes → Option (Json × Bytes)
decode text = some (tree, text)

closed : parse_json decode (codes " ] secret") ≡ some tree
unfolding parse_json more
closed = refl

parse_json-Ends_example :
    parse_json decode (codes " ] secret") ≡ some tree
    ↔ ((rest : Bytes) × (decode (codes " ] secret") ≡ some (tree, rest)) × Ends rest)
parse_json-Ends_example = parse_json-Ends decode (codes " ] secret") tree
