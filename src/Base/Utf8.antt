-- ===== src/Base/Utf8.antt =====
-- Go's unicode/utf8 on byte lists: `DecodeRune` gives the code point at the front and how many
-- bytes it takes; a byte that starts no encoding is U+FFFD over one byte.
pub mod Sizes
pub mod Tails
use shinel.Base.{
  ℕ, ◌+◌, ◌-◌, ◌*◌, Bool, ◌&&◌, [], ◌∷◌, leb, ltb, ◌==◌, zero, suc, Option, none, some, length,
  get_elem?, drop, if◌then◌else◌,
}
use shinel.Base.Bytes.{Bytes}

abbrev pub rune_error : ℕ
rune_error = 0xfffd

abbrev pub Rune : Type 0
Rune = ℕ × ℕ

abbrev pub invalid : Rune
invalid = (rune_error, 1)

-- A continuation byte.
abbrev pub is_tail : ℕ → Bool
is_tail b = leb 0x80 b && leb b 0xbf

-- The second byte that each first byte of three or four accepts.
unfoldable pub is_second : ℕ → ℕ → Bool
is_second a b =
    let lo : ℕ = if a == 0xe0 then 0xa0 else if a == 0xf0 then 0x90 else 0x80 in
    let hi : ℕ = if a == 0xed then 0x9f else if a == 0xf4 then 0x8f else 0xbf in
    leb lo b && leb b hi

unfoldable pub decode_two : ℕ → Bytes → Rune
decode_two a [] = invalid
decode_two a (b ∷ _) = if is_tail b then ((a - 0xc0) * 64 + (b - 0x80), 2) else invalid

unfoldable pub decode_three : ℕ → Bytes → Rune
unfolding is_second
decode_three a (b ∷ c ∷ _) =
    if is_second a b && is_tail c
    then ((a - 0xe0) * 4096 + (b - 0x80) * 64 + (c - 0x80), 3)
    else invalid
decode_three a _ = invalid

unfoldable pub decode_four : ℕ → Bytes → Rune
unfolding is_second
decode_four a (b ∷ c ∷ d ∷ _) =
    if is_second a b && is_tail c && is_tail d
    then ((a - 0xf0) * 262144 + (b - 0x80) * 4096 + (c - 0x80) * 64 + (d - 0x80), 4)
    else invalid
decode_four a _ = invalid

unfoldable pub decode_rune : Bytes → Rune
unfolding decode_two decode_three decode_four
decode_rune [] = (rune_error, 0)
decode_rune (a ∷ s) =
    if ltb a 0x80
    then (a, 1)
    else if ltb a 0xc2
    then invalid
    else if leb a 0xdf
    then decode_two a s
    else if leb a 0xef
    then decode_three a s
    else if leb a 0xf4
    then decode_four a s
    else invalid

-- The loop of `DecodeLastRune` towards the front, over one more than its `start`, while that is
-- above `lim`: it stops at a byte that begins a rune.
back_to_start : ℕ → Bytes → ℕ → ℕ
back_to_start lim s zero = 0
back_to_start lim s (suc i) =
    let further = back_to_start lim s i in
    if ltb lim (suc i)
    then elim (get_elem? s i) [ none ↦ suc i | some b ↦ if is_tail b then further else suc i ]
    else suc i

-- The rune at the end of a text; a byte that ends no encoding is U+FFFD over one byte.
unfoldable pub decode_last_rune : Bytes → Rune
unfolding back_to_start
decode_last_rune s =
    let n = length s in
    elim (get_elem? s (n - 1)) [
      | none ↦ (rune_error, 0)
      | some b ↦
          if ltb b 0x80
          then (b, 1)
          else let start = back_to_start (n - 4) s (n - 1) - 1 in
            let (r, size) = decode_rune (drop start s) in
            if start + size == n then (r, size) else invalid
    ]
