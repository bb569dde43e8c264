-- ===== src/Proxy/Token.antt =====
-- internal/proxy/streaming.go: `classify`, which tells whether the bytes held back may still
-- become a token `[KIND_N]`. The index `i` of the source goes along with the bytes from `i` on.
pub mod Automaton
pub mod Grammar
pub mod Tests
use shinel.Base.{ℕ, ◌+◌, true, not, ◌&&◌, [], ◌∷◌, ◌++◌, ◌≡◌, ◌==◌, if◌then◌else◌, drop, is_empty}
use shinel.Base.Bytes.{Bytes, is_upper, is_digit}

pub data TokenState : Type 0 where
  partial_token complete_token dead_token : TokenState

-- `for i < len(buf) && buf[i] >= 'A' && buf[i] <= 'Z' { i++ }`
pub skip_letters : ℕ → Bytes → ℕ × Bytes
skip_letters i [] = (i, [])
skip_letters i (b ∷ bs) = if is_upper b then skip_letters (i + 1) bs else (i, b ∷ bs)

-- `for i < len(buf) && buf[i] >= '0' && buf[i] <= '9' { i++ }`
pub skip_digits : ℕ → Bytes → ℕ × Bytes
skip_digits i [] = (i, [])
skip_digits i (b ∷ bs) = if is_digit b then skip_digits (i + 1) bs else (i, b ∷ bs)

-- Behind the digits, which begin at index `digits`.
pub after_digits : ℕ → ℕ × Bytes → TokenState
after_digits digits (i, []) = partial_token
after_digits digits (i, b ∷ bs) =
    if i == digits
    then dead_token
    else if b == b']' && is_empty bs
    then complete_token
    else dead_token

-- Behind the letters.
pub after_letters : ℕ × Bytes → TokenState
after_letters (i, []) = partial_token
after_letters (i, b ∷ bs) =
    if i == 1
    then dead_token
    else if not (b == b'_')
    then dead_token
    else after_digits (i + 1) (skip_digits (i + 1) bs)

unfoldable pub classify : Bytes → TokenState
unfolding skip_letters skip_digits after_digits after_letters
classify buf = after_letters (skip_letters 1 (drop 1 buf))

-- The tokens that the analyzer produces: `[`, letters, `_`, digits, `]`.
pub data Letters : Bytes → Type 0 where
  last : {c : ℕ} → is_upper c ≡ true → Letters (c ∷ [])
  more : {c : ℕ} {cs : Bytes} → is_upper c ≡ true → Letters cs → Letters (c ∷ cs)

pub data Digits : Bytes → Type 0 where
  last : {c : ℕ} → is_digit c ≡ true → Digits (c ∷ [])
  more : {c : ℕ} {cs : Bytes} → is_digit c ≡ true → Digits cs → Digits (c ∷ cs)

pub record IsToken (t : Bytes) : Type 0 where
  pub kind : Bytes
  pub number : Bytes
  pub kind_letters : Letters kind
  pub number_digits : Digits number
  pub spelled : t ≡ b'[' ∷ (kind ++ (b'_' ∷ (number ++ (b']' ∷ []))))
