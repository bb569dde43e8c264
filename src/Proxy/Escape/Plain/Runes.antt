-- ===== src/Proxy/Escape/Plain/Runes.antt =====
-- What encoding/json writes for one character of a string, where HTML is not escaped.
use shinel.Base.{
  ℕ, ◌-◌, ◌/◌, ◌%◌, ◌≤◌, ◌<◌, ◌≡◌, ◌≢◌, refl, sym, ap, ◌∙◌, subst, Bool, true, false, ◌&&◌, ◌||◌,
  [], ◌∷◌, ◌++◌, ltb, ◌==◌, arith, Bool-cases, inl, inr, length, take, drop, slice, not, leb,
}
use shinel.Base.Bytes.{Bytes, is_upper, is_digit, codes}
use shinel.Base.Sort.{All, All-map}
use shinel.Base.Utf8.{decode_rune, rune_error}
use shinel.Base.Utf8.Tails.{IsHigh, decode_rune-IsWhole}
use shinel.Proxy.Escape.{escape_ascii, escape_wide, hex_digit}
use shinel.Proxy.Escape.Plain.{is_safe, plain_rune, read-plain_rune}
use shinel.Proxy.Escape.Reader.{plain, prepend, read_string, repair_wide, repair_rune}
use shinel.Proxy.Escape.Reader.Valid.{no_error, valid_from, repair_rune-valid}
use shinel.Proxy.Stream.Positions.{NoBracket, end, on}

-- The bytes of a token behind its first.
abbrev pub is_token_char : ℕ → Bool
is_token_char b = is_upper b || is_digit b || b == b'_' || b == b']'

-- Neither a control character nor a bracket.
unfoldable pub all_quiet : Bytes → Bool
all_quiet [] = true
all_quiet (b ∷ bs) = leb 32 b && not (b == b'[') && all_quiet bs

NoBracket-of_all_quiet : (t : Bytes) → all_quiet t ≡ true → NoBracket t
unfolding all_quiet
NoBracket-of_all_quiet [] h = end
NoBracket-of_all_quiet (b ∷ t) h =
    on (λ e. ground (arith, h, e)) (NoBracket-of_all_quiet t (ground (arith, h)))

-- A character is written as itself, behind a backslash, or as its bytes of several.
pub data Written (b : ℕ) : Bytes × ℕ → Type 0 where
  itself : {w : Bytes × ℕ} → leb 32 b ≡ true → w ≡ (b ∷ [], 0) → Written b w
  behind :
      {w : Bytes × ℕ} (t : Bytes) → all_quiet t ≡ true → b ≢ b'[' → w.0 ≡ b'\\' ∷ t → Written b w
  high : {w : Bytes × ℕ} (t : Bytes) → IsHigh b → All IsHigh t → w.0 ≡ b ∷ t → Written b w

hex_digit_quiet : (n : ℕ) → n < 16 → (leb 32 (hex_digit n) && not (hex_digit n == b'[')) ≡ true
unfolding hex_digit
hex_digit_quiet n h = ground arith

escape_ascii-backslash : (b : ℕ) → escape_ascii b ≡ b'\\' ∷ drop 1 (escape_ascii b)
unfolding escape_ascii
escape_ascii-backslash b = ground arith

escape_ascii_quiet : (b : ℕ) → b < 0x80 → all_quiet (drop 1 (escape_ascii b)) ≡ true
unfolding escape_ascii all_quiet
escape_ascii_quiet b h =
    ground (arith, hex_digit_quiet (b / 16) (omega arith), hex_digit_quiet (b % 16) (omega arith))

ascii-Written : (b : ℕ) (bs : Bytes) → ltb b 0x80 ≡ true → Written b (plain_rune b bs)
unfolding plain_rune is_safe
ascii-Written b bs y = elim (Bool-cases (is_safe b)) [
  | inl z ↦ itself (ground (arith, z)) (ground (arith, y, z))
  | inr z ↦
      behind (drop 1 (escape_ascii b)) (escape_ascii_quiet b (ground (arith, y)))
        (λ e. ground (arith, z, e)) (rw (y, z) (escape_ascii-backslash b))
]

wide-Written :
    (b : ℕ) (bs : Bytes) (c size : ℕ)
    → IsHigh b
    → (c == rune_error && size == 1) ≡ false
    → All IsHigh (slice 0 (size - 1) bs)
    → Written b (escape_wide b bs (c, size))
unfolding escape_wide all_quiet
wide-Written b bs c size l fine tail = elim (Bool-cases (c == 0x2028 || c == 0x2029)) [
  | inl y ↦
      behind (codes "u202" ++ hex_digit (c % 16) ∷ [])
        (ground (arith, hex_digit_quiet (c % 16) (omega arith))) (λ e. omega (arith, e, l))
        (ground (arith, fine, y))
  | inr n ↦ high (slice 0 (size - 1) bs) l tail (ground (arith, fine, n))
]

pub plain_rune-Written :
    (b : ℕ) (bs : Bytes)
    → (ltb b 0x80 || no_error (decode_rune (b ∷ bs))) ≡ true
    → Written b (plain_rune b bs)
unfolding plain_rune
plain_rune-Written b bs e = elim (Bool-cases (ltb b 0x80)) [
  | inl y ↦ ascii-Written b bs y
  | inr n ↦
      let l : IsHigh b = ground (arith, n) in
      let fine : ((decode_rune (b ∷ bs)).0 == rune_error && (decode_rune (b ∷ bs)).1 == 1) ≡ false =
        ground (arith, e, n) in
      rw n (wide-Written b bs _ _ l fine (decode_rune-IsWhole b bs l fine).1.1)
]

-- Where an encoded byte is one of a token, it stands for itself.
pub plain_rune-token_char :
    (b c : ℕ) (bs tail rest : Bytes)
    → Written b (plain_rune b bs)
    → is_token_char c ≡ true
    → (plain_rune b bs).0 ++ tail ≡ c ∷ rest
    → (b ≡ c) × (tail ≡ rest) × ((plain_rune b bs).1 ≡ 0)
plain_rune-token_char b c bs tail rest (itself _ w) h e =
    (ground (arith, w, e), ground (arith, w, e), ground (arith, w))
plain_rune-token_char b c bs tail rest (behind t q n w) h e = absurd (ground (arith, w, e, h))
plain_rune-token_char b c bs tail rest (high t l q w) h e = absurd (ground (arith, w, e, h, l))

NoBracket-high : (t : Bytes) → All IsHigh t → NoBracket t
NoBracket-high [] h = end
NoBracket-high (b ∷ t) (hb, h) = on (λ e. omega (arith, e, hb)) (NoBracket-high t h)

-- A character other than `[` is written without one.
pub plain_rune_quiet :
    (b : ℕ) (bs : Bytes) → Written b (plain_rune b bs) → b ≢ b'[' → NoBracket (plain_rune b bs).0
plain_rune_quiet b bs (itself _ w) n = rw w (on n end)
plain_rune_quiet b bs (behind t q _ w) n =
    rw w (on (λ e. omega (arith, e)) (NoBracket-of_all_quiet t q))
plain_rune_quiet b bs (high t l q w) n = rw w (on n (NoBracket-high t q))

repair_rune-IsHigh :
    (b : ℕ) (bs : Bytes)
    → (ltb b 0x80 || no_error (decode_rune (b ∷ bs))) ≡ true
    → All IsHigh (take (repair_rune b bs).1 bs)
unfolding repair_rune repair_wide
repair_rune-IsHigh b bs e = elim (Bool-cases (ltb b 0x80)) [
  | inl y ↦ rw y tt
  | inr n ↦
      let l : IsHigh b = ground (arith, n) in
      let fine : ((decode_rune (b ∷ bs)).0 == rune_error && (decode_rune (b ∷ bs)).1 == 1) ≡ false =
        ground (arith, e, n) in
      rw (n, fine)
        (subst (λ k. All IsHigh (take k bs)) (omega arith) (decode_rune-IsWhole b bs l fine).1.1)
]

-- It is read as the bytes of the text that it takes, and those behind the first are high.
pub read-plain_rune_valid :
    (b : ℕ) (bs after : Bytes)
    → (ltb b 0x80 || no_error (decode_rune (b ∷ bs))) ≡ true
    → let size = (plain_rune b bs).1 in
      (read_string plain ((plain_rune b bs).0 ++ after)
        ≡ prepend (b ∷ take size bs) (read_string plain after))
      × (size ≤ length bs)
      × All IsHigh (take size bs)
read-plain_rune_valid b bs after e =
    let (reads, same) = read-plain_rune b bs after in
    let (whole, short) = repair_rune-valid b bs e in
    (
      reads
          ∙ ap (λ s. prepend s (read_string plain after))
              (whole ∙ ap (λ n. b ∷ take n bs) (sym same)),
      omega (arith, same, short),
      subst (λ n. All IsHigh (take n bs)) (sym same) (repair_rune-IsHigh b bs e),
    )

pub plain_rune_bracket : (bs : Bytes) → plain_rune b'[' bs ≡ (b'[' ∷ [], 0)
unfolding plain_rune is_safe
plain_rune_bracket bs = refl

all_quiet_printed : (t : Bytes) → all_quiet t ≡ true → All (λ c. 32 ≤ c) t
unfolding all_quiet
all_quiet_printed [] h = tt
all_quiet_printed (c ∷ t) h = (ground (arith, h), all_quiet_printed t (ground (arith, h)))

-- No control character is written.
pub plain_rune_printed :
    (b : ℕ) (bs : Bytes) → Written b (plain_rune b bs) → All (λ c. 32 ≤ c) (plain_rune b bs).0
plain_rune_printed b bs (itself l w) = rw w (ground (arith, l), tt)
plain_rune_printed b bs (behind t q _ w) = rw w (omega arith, all_quiet_printed t q)
plain_rune_printed b bs (high t l q w) =
    rw w (omega (arith, l), All-map t (λ c h. omega (arith, h)) q)

-- A text in UTF-8 begins with a character that is no error.
pub valid-zero :
    (b : ℕ) (bs : Bytes)
    → valid_from 0 (b ∷ bs) ≡ true
    → ((ltb b 0x80 || no_error (decode_rune (b ∷ bs))) ≡ true)
      × (valid_from (plain_rune b bs).1 bs ≡ true)
unfolding valid_from
valid-zero b bs h =
    let same = (read-plain_rune b bs []).1 in
    let front : (ltb b 0x80 || no_error (decode_rune (b ∷ bs))) ≡ true = ground (arith, h) in
    let back : valid_from (repair_rune b bs).1 bs ≡ true = ground (arith, h) in
    (front, rw same back)
