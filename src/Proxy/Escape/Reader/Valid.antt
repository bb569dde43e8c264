-- ===== src/Proxy/Escape/Reader/Valid.antt =====
-- Texts in UTF-8 that internal/proxy/streaming.go puts into JSON strings.
use shinel.Base.{
  ℕ, zero, suc, ◌≤◌, ◌≡◌, refl, ap, ◌∙◌, Bool, true, false, not, ◌&&◌, ◌||◌, [], ◌∷◌, ◌++◌, some,
  ltb, ◌==◌, length, take, arith, Bool-cases, inl, inr, append-nil,
}
use shinel.Base.Bytes.{Bytes}
use shinel.Base.Utf8.{decode_rune, rune_error}
use shinel.Base.Utf8.Tails.{decode_rune-IsWhole}
use shinel.Proxy.Escape.{json_escape}
use shinel.Proxy.Escape.Reader.{
  plain, prepend, read_string, repair_wide, repair_rune, repaired_from, repaired,
}
use shinel.Proxy.Escape.Reader.Whole.{read-json_escape, read-quote}

abbrev pub no_error : ℕ × ℕ → Bool
no_error (c, size) = not (c == rune_error && size == 1)

-- Whether a text is in UTF-8, as `utf8.Valid` has it; the number counts bytes already dealt with.
unfoldable pub valid_from : ℕ → Bytes → Bool
unfolding repair_rune repair_wide
valid_from skip [] = true
valid_from zero (b ∷ bs) =
    (ltb b 0x80 || no_error (decode_rune (b ∷ bs))) && valid_from (repair_rune b bs).1 bs
valid_from (suc skip) (b ∷ bs) = valid_from skip bs

abbrev pub IsUtf8 : Bytes → Type 0
IsUtf8 s = valid_from 0 s ≡ true

-- A character that is no error stays what it is.
pub repair_rune-valid :
    (b : ℕ) (bs : Bytes)
    → (ltb b 0x80 || no_error (decode_rune (b ∷ bs))) ≡ true
    → ((repair_rune b bs).0 ≡ b ∷ take (repair_rune b bs).1 bs) × ((repair_rune b bs).1 ≤ length bs)
unfolding repair_rune repair_wide
repair_rune-valid b bs e = elim (Bool-cases (ltb b 0x80)) [
  | inl y ↦ rw y (refl, omega arith)
  | inr n ↦
      let fine : ((decode_rune (b ∷ bs)).0 == rune_error && (decode_rune (b ∷ bs)).1 == 1) ≡ false =
        ground (arith, e, n) in
      let (size, (one, _)) = decode_rune-IsWhole b bs (ground (arith, n)) fine in
      rw (n, fine) (ap (λ m. b ∷ take m bs) (omega arith), omega (arith, size, one))
]

repaired_from-valid :
    (n : ℕ) (text : Bytes)
    → valid_from n text ≡ true
    → n ≤ length text
    → take n text ++ repaired_from n text ≡ text
unfolding valid_from repaired_from
repaired_from-valid zero [] h l = refl
repaired_from-valid (suc n) [] h l = absurd (omega (arith, l))
repaired_from-valid zero (b ∷ bs) h l =
    let (same, small) = repair_rune-valid b bs (ground (arith, h)) in
    ap (λ s. s ++ repaired_from (repair_rune b bs).1 bs) same
    ∙ ap (λ s. b ∷ s) (repaired_from-valid (repair_rune b bs).1 bs (ground (arith, h)) small)
repaired_from-valid (suc n) (b ∷ bs) h l =
    ap (λ s. b ∷ s) (repaired_from-valid n bs h (omega (arith, l)))

pub repaired_valid : (text : Bytes) → valid_from 0 text ≡ true → repaired text ≡ text
repaired_valid text h = repaired_from-valid 0 text h (omega arith)

-- A text in UTF-8 that is escaped into the middle of a JSON string is read there as itself, and the
-- string ends where it should.
pub read-json_escape_valid :
    (text rest : Bytes)
    → valid_from 0 text ≡ true
    → read_string plain (json_escape text ++ b'"' ∷ rest) ≡ some (text, rest)
read-json_escape_valid text rest h =
    read-json_escape text (b'"' ∷ rest)
    ∙ ap (prepend (repaired text)) (read-quote rest)
    ∙ ap (λ t. some (t, rest)) (append-nil (repaired text) ∙ repaired_valid text h)
