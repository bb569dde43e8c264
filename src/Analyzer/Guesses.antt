-- ===== src/Analyzer/Guesses.antt =====
-- internal/analyzer/conflict.go: `collectML`, which turns the entities of the ML engine into spans,
-- and `looksLikeProse` of secrets.go. What package unicode knows of letters is an argument.
pub mod Valid
use shinel.Base.{
  ℕ, zero, suc, ◌+◌, ◌-◌, Bool, true, false, not, ◌&&◌, ◌||◌, List, [], ◌∷◌, Option, none, some,
  leb, ltb, ◌==◌, if◌then◌else◌, length, get_elem?, slice, is_empty,
}
use shinel.Base.Bytes.{Bytes, codes, bytes_eq, is_upper}
use shinel.Base.Int.{ℤ, pos, negsuc}
use shinel.Base.Utf8.{decode_rune}
use shinel.Analyzer.Span.{Span}

-- What the engine says of a stretch of characters.
pub record Entity : Type 0 where
  pub entity : Bytes
  pub label : Bytes
  pub start : ℤ
  pub end : ℤ

-- The offset `at` of every character, then that of the end; the first number counts bytes of a
-- character already seen.
unfoldable pub offsets_from : ℕ → ℕ → Bytes → List ℕ
offsets_from skip at [] = at ∷ []
offsets_from zero at (b ∷ bs) =
    let (r, size) = decode_rune (b ∷ bs) in at ∷ offsets_from (size - 1) (at + 1) bs
offsets_from (suc skip) at (b ∷ bs) = offsets_from skip (at + 1) bs

unfoldable pub rune_offsets : Bytes → List ℕ
rune_offsets text = offsets_from 0 0 text

-- `none` stands for the third result being false.
unfoldable pub byte_range : List ℕ → ℤ → ℤ → Option (ℕ × ℕ)
byte_range offsets (negsuc s) end = none
byte_range offsets (pos s) (negsuc e) = none
byte_range offsets (pos s) (pos e) =
    if leb e s || ltb (length offsets - 1) e then none else elim (get_elem? offsets s) [
      | none ↦ none
      | some start ↦ elim (get_elem? offsets e) [ none ↦ none | some end ↦ some (start, end) ]
    ]

-- The characters from A to Z; a byte of another character is none of them.
unfoldable pub upper_only : Bytes → Bytes
upper_only [] = []
upper_only (b ∷ bs) = if is_upper b then b ∷ upper_only bs else upper_only bs

-- `sanitizeLabel`; the argument is `strings.ToUpper`.
unfoldable pub sanitize_label : (Bytes → Bytes) → Bytes → Bytes
sanitize_label to_upper label = upper_only (to_upper label)

module _ (is_letter : ℕ → Bool) where
  -- The loop of `looksLikeProse`; the number counts bytes of a character already seen.
  unfoldable pub prose_from : ℕ → Bytes → Bool
  prose_from skip [] = true
  prose_from zero (b ∷ bs) =
      let (r, size) = decode_rune (b ∷ bs) in
      if is_letter r || r == b'-' || r == b'\'' then prose_from (size - 1) bs else false
  prose_from (suc skip) (b ∷ bs) = prose_from skip bs

  unfoldable pub looks_like_prose : Bytes → Bool
  looks_like_prose s = if is_empty s then true else prose_from 0 s

  module _ (to_upper : Bytes → Bytes) where
    -- The tests behind `byteRange`, for the entity with label `kind` and text `got`.
    unfoldable pub usable : Bytes → Bytes → Bytes → Bool
    usable kind got entity =
        if is_empty kind
        then false
        else if not (is_empty entity) && not (bytes_eq got entity)
        then false
        else if (bytes_eq kind (codes "PASSWORD") || bytes_eq kind (codes "SECRET"))
            && looks_like_prose got
        then false
        else true

    -- One round of the loop of `collectML`.
    unfoldable pub guess_of : Bytes → List ℕ → Entity → Option Span
    guess_of text offsets ent = elim (byte_range offsets ent.start ent.end) [
      | none ↦ none
      | some (start, end) ↦
          let kind = sanitize_label to_upper ent.label in
          if usable kind (slice start end text) ent.entity
          then some (record { start = start; end = end; kind = kind })
          else none
    ]

    unfoldable pub guesses_of : Bytes → List ℕ → List Entity → List Span
    guesses_of text offsets [] = []
    guesses_of text offsets (ent ∷ ents) =
        let rest = guesses_of text offsets ents in
        elim (guess_of text offsets ent) [ none ↦ rest | some s ↦ s ∷ rest ]

    -- `collectML`; the engine is `Analyze`, `none` where it fails, and is missing where it is nil.
    unfoldable pub collect_ml : Option (Bytes → Option (List Entity)) → Bytes → List Span
    collect_ml none text = []
    collect_ml (some analyze) text = elim (analyze text) [
      | none ↦ []
      | some entities ↦ guesses_of text (rune_offsets text) entities
    ]
