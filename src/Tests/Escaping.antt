-- ===== src/Tests/Escaping.antt =====
-- Strings that internal/proxy/streaming.go and internal/admin/admin.go write into JSON.
use shinel.Base.{◌≡◌, refl, [], ◌∷◌, ◌++◌, some, map}
use shinel.Base.Bytes.{Bytes, codes}
use shinel.Base.Utf8.{decode_rune}
use shinel.Admin.Dashboard.{write_sse, write_sse_all}
use shinel.Admin.Dashboard.Events.{split_lines, events_of, events_of-write_sse_all}
use shinel.Proxy.Escape.{json_escape, marshal_string}
use shinel.Proxy.Escape.Reader.{
  step_of, step_plain, step_escaped, step_hex, last_digit, hex_value, encode_rune, plain,
  read_string, repaired, repaired_from, repair_rune, repair_wide,
}

abbrev quoted : Bytes
quoted = codes "a\"b\n<"

sent : write_sse (codes "a\"") ≡ codes "data: \"a\\\"\"\n\n"
unfolding write_sse marshal_string
sent = refl

-- What is escaped is read again.
read_back : read_string plain (json_escape quoted ++ b'"' ∷ codes ",") ≡ some (quoted, codes ",")
unfolding read_string step_of step_plain step_escaped step_hex last_digit hex_value encode_rune
    json_escape
read_back = refl

-- A byte that is no part of an encoding.
repaired_lem : repaired (b'a' ∷ 0xff ∷ []) ≡ b'a' ∷ 0xef ∷ 0xbf ∷ 0xbd ∷ []
unfolding repaired_from repair_rune repair_wide decode_rune
repaired_lem = refl

events_of-write_sse_all_example :
    events_of (split_lines (write_sse_all (codes "one" ∷ quoted ∷ [])))
    ≡ map repaired (codes "one" ∷ quoted ∷ [])
events_of-write_sse_all_example = events_of-write_sse_all (codes "one" ∷ quoted ∷ [])
