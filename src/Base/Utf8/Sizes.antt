-- ===== src/Base/Utf8/Sizes.antt =====
-- How many bytes `DecodeRune` takes: at least one of a text that is not empty, and no more than
-- there are.
use shinel.Base.{ℕ, ◌≤◌, [], ◌∷◌, arith, length}
use shinel.Base.Bytes.{Bytes}
use shinel.Base.Utf8.{Rune, decode_two, decode_three, decode_four, decode_rune}

abbrev HasSize : Bytes → Rune → Type 0
HasSize s r = (1 ≤ r.1) × (r.1 ≤ length s)

decode_two-HasSize : (a : ℕ) (s : Bytes) → HasSize (a ∷ s) (decode_two a s)
unfolding decode_two
decode_two-HasSize a [] = omega arith
decode_two-HasSize a (b ∷ s) = ground arith

decode_three-HasSize : (a : ℕ) (s : Bytes) → HasSize (a ∷ s) (decode_three a s)
unfolding decode_three
decode_three-HasSize a [] = omega arith
decode_three-HasSize a (b ∷ []) = omega arith
decode_three-HasSize a (b ∷ c ∷ s) = ground arith

decode_four-HasSize : (a : ℕ) (s : Bytes) → HasSize (a ∷ s) (decode_four a s)
unfolding decode_four
decode_four-HasSize a [] = omega arith
decode_four-HasSize a (b ∷ []) = omega arith
decode_four-HasSize a (b ∷ c ∷ []) = omega arith
decode_four-HasSize a (b ∷ c ∷ d ∷ s) = ground arith

pub decode_rune-HasSize :
    (a : ℕ) (s : Bytes) → (1 ≤ (decode_rune (a ∷ s)).1) × ((decode_rune (a ∷ s)).1 ≤ length (a ∷ s))
unfolding decode_rune
decode_rune-HasSize a s =
    ground (arith, decode_two-HasSize a s, decode_three-HasSize a s, decode_four-HasSize a s)
