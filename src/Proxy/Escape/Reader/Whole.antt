-- ===== src/Proxy/Escape/Reader/Whole.antt =====
-- What is read of a whole text that internal/proxy/streaming.go has escaped.
use shinel.Base.{
  ℕ, zero, suc, ◌-◌, ◌≡◌, refl, sym, ap, ◌∙◌, [], ◌∷◌, ◌++◌, some, length, take, arith,
  append_assoc, length-append, take-append,
}
use shinel.Base.Bytes.{Bytes}
use shinel.Proxy.Escape.{escape_rune, escape_from, marshal_string, json_escape}
use shinel.Proxy.Escape.Reader.{
  plain, step_of, step_plain, prepend, read_string, repair_rune, repaired_from, repaired,
}
use shinel.Proxy.Escape.Reader.Repaired.{prepend-nil, prepend-append, read-escape_rune}

-- What is written for a text is read as that text, repaired, and then what is behind it.
pub read-escape_from :
    (skip : ℕ) (text after : Bytes)
    → read_string plain (escape_from skip text ++ after)
      ≡ prepend (repaired_from skip text) (read_string plain after)
unfolding escape_from repaired_from
read-escape_from skip [] after = sym (prepend-nil _)
read-escape_from zero (b ∷ bs) after =
    let (reads, same) = read-escape_rune b bs (escape_from (escape_rune b bs).1 bs ++ after) in
    ap (read_string plain) (append_assoc (escape_rune b bs).0 _ _)
    ∙ reads
    ∙ ap (prepend (repair_rune b bs).0) (
        read-escape_from (escape_rune b bs).1 bs after
        ∙ ap (λ n. prepend (repaired_from n bs) (read_string plain after)) same)
    ∙ prepend-append (repair_rune b bs).0 _ (read_string plain after)
read-escape_from (suc skip) (b ∷ bs) after = read-escape_from skip bs after

-- `jsonEscape` is what stands between the quotes.
json_escape-escape_from : (text : Bytes) → json_escape text ≡ escape_from 0 text
unfolding json_escape marshal_string
json_escape-escape_from text =
    let e = escape_from 0 text in
    let n : suc (length (e ++ b'"' ∷ [])) - 1 - 1 ≡ length e =
      omega (arith, length-append e (b'"' ∷ [])) in
    ap (λ k. take k (e ++ b'"' ∷ [])) n ∙ take-append e (b'"' ∷ [])

-- A text that is escaped into the middle of a JSON string is read there as itself, with U+FFFD for
-- every byte that is no part of an encoding in UTF-8.
pub read-json_escape :
    (text after : Bytes)
    → read_string plain (json_escape text ++ after)
      ≡ prepend (repaired text) (read_string plain after)
read-json_escape text after =
    ap (λ s. read_string plain (s ++ after)) (json_escape-escape_from text)
    ∙ read-escape_from 0 text after

-- Where a string ends.
pub read-quote : (rest : Bytes) → read_string plain (b'"' ∷ rest) ≡ some ([], rest)
unfolding read_string step_of step_plain
read-quote rest = refl
