-- ===== src/Admin/Dashboard/Events.antt =====
-- The log lines that internal/admin/admin.go sends as events, as a client reads them.
use shinel.Base.{
  ℕ, ◌≡◌, refl, ap, ◌∙◌, false, List, [], ◌∷◌, ◌++◌, Option, none, some, ◌==◌, if◌then◌else◌, take,
  drop, map, arith, append_assoc, append-nil,
}
use shinel.Base.Bytes.{Bytes, codes, bytes_eq}
use shinel.Base.Sort.{All, All-append}
use shinel.Admin.Dashboard.{write_sse, write_sse_all}
use shinel.Proxy.Escape.{marshal_string}
use shinel.Proxy.Escape.Lines.{IsPlain, marshal_string-IsPlain}
use shinel.Proxy.Escape.Reader.{plain, prepend, read_string, repaired}
use shinel.Proxy.Escape.Reader.Whole.{read-escape_from, read-quote}

abbrev pub put_first : ℕ → List Bytes → List Bytes
put_first b [] = (b ∷ []) ∷ []
put_first b (l ∷ ls) = (b ∷ l) ∷ ls

-- The lines of a stream of events.
unfoldable pub split_lines : Bytes → List Bytes
split_lines [] = [] ∷ []
split_lines (b ∷ bs) =
    let rest = split_lines bs in if b == b'\n' then [] ∷ rest else put_first b rest

abbrev pub content_of : Option (Bytes × Bytes) → List Bytes
content_of none = []
content_of (some (s, rest)) = s ∷ []

-- The text of a line that gives a string as an event's data; other lines give none.
unfoldable pub event_of : Bytes → List Bytes
event_of l =
    if bytes_eq (take 7 l) (codes "data: \"") then content_of (read_string plain (drop 7 l)) else []

unfoldable pub events_of : List Bytes → List Bytes
events_of [] = []
events_of (l ∷ ls) = event_of l ++ events_of ls

split_lines-plain :
    (p rest : Bytes) → All IsPlain p → split_lines (p ++ b'\n' ∷ rest) ≡ p ∷ split_lines rest
unfolding split_lines
split_lines-plain [] rest h = refl
split_lines-plain (b ∷ p) rest (hb, h) =
    let n : (b == b'\n') ≡ false = ground (arith, hb) in rw (split_lines-plain p rest h, n) refl

data_line-IsPlain : (line : Bytes) → All IsPlain (codes "data: " ++ marshal_string line)
data_line-IsPlain line =
    All-append IsPlain (codes "data: ") (marshal_string line) (omega arith)
      (marshal_string-IsPlain line)

event_of-data :
    (line : Bytes) → event_of (codes "data: " ++ marshal_string line) ≡ repaired line ∷ []
unfolding event_of marshal_string bytes_eq
event_of-data line = ap content_of (
    read-escape_from 0 line (b'"' ∷ [])
    ∙ ap (prepend (repaired line)) (read-quote [])
    ∙ ap (λ t. some (t, [])) (append-nil (repaired line)))

split_lines-write_sse :
    (line rest : Bytes)
    → split_lines (write_sse line ++ rest)
      ≡ (codes "data: " ++ marshal_string line) ∷ [] ∷ split_lines rest
unfolding write_sse split_lines
split_lines-write_sse line rest =
    let data_line = codes "data: " ++ marshal_string line in
    ap (λ s. split_lines (codes "data: " ++ s))
      (append_assoc (marshal_string line) (codes "\n\n") rest)
    ∙ split_lines-plain data_line (b'\n' ∷ rest) (data_line-IsPlain line)

event_of-empty : event_of [] ≡ []
unfolding event_of bytes_eq
event_of-empty = refl

-- A client that splits the stream of events into lines and reads the strings that they give gets
-- each log line that was sent, in their order, whatever bytes they hold, with U+FFFD for every byte
-- that is no part of an encoding in UTF-8.
pub events_of-write_sse_all :
    (lines : List Bytes) → events_of (split_lines (write_sse_all lines)) ≡ map repaired lines
unfolding events_of write_sse_all
events_of-write_sse_all [] = unfold split_lines event_of bytes_eq in refl
events_of-write_sse_all (line ∷ lines) =
    ap events_of (split_lines-write_sse line (write_sse_all lines))
    ∙ ap (λ l. l ++ (event_of [] ++ events_of (split_lines (write_sse_all lines))))
        (event_of-data line)
    ∙ ap (λ l. repaired line ∷ l)
        (ap (λ l. l ++ events_of (split_lines (write_sse_all lines))) event_of-empty
          ∙ events_of-write_sse_all lines)
