-- ===== src/Regexp/Classes.antt =====
-- How the expressions of internal/analyzer are written: classes, repetition, and literals.
use shinel.Base.{ℕ, zero, suc, Bool, true, false, ◌||◌, ◌&&◌, [], ◌∷◌, leb, ◌==◌, ◌+◌}
use shinel.Base.Bytes.{Bytes}
use shinel.Regexp.{Regexp, nothing, rune, seq, alt, many}

abbrev pub is_lower : ℕ → Bool
is_lower c = leb b'a' c && leb c b'z'

abbrev pub one_of : Bytes → ℕ → Bool
one_of [] c = false
one_of (b ∷ bs) c = c == b || one_of bs c

-- `\s`, which in Go has no vertical tab.
abbrev pub is_space : ℕ → Bool
is_space c = c == 9 || c == 10 || c == 12 || c == 13 || c == 32

-- `r*`, `r+`, `r?`, `r{n}`, `r{n,m}` with the `m - n` that may follow, and `r{n,}`.
abbrev pub star : Regexp → Regexp
star r = many true r

abbrev pub plus : Regexp → Regexp
plus r = seq r (star r)

abbrev pub opt : Regexp → Regexp
opt r = alt r nothing

abbrev pub up_to : ℕ → Regexp → Regexp
up_to zero r = nothing
up_to (suc n) r = opt (seq r (up_to n r))

abbrev pub times : ℕ → Regexp → Regexp → Regexp
times zero r behind = behind
times (suc n) r behind = seq r (times n r behind)

abbrev pub literal : Bytes → Regexp → Regexp
literal [] behind = behind
literal (b ∷ bs) behind = seq (rune (λ c. c == b)) (literal bs behind)

-- A letter under `(?i)`: both cases, and what else folds to it: U+017F to s, U+212A to k.
abbrev pub folds_to : ℕ → ℕ → Bool
folds_to b c =
    c == b || (is_lower b && c + 32 == b) || (b == b's' && c == 0x17f) || (b == b'k' && c == 0x212a)

abbrev pub folded : Bytes → Regexp
folded [] = nothing
folded (b ∷ bs) = seq (rune (folds_to b)) (folded bs)
