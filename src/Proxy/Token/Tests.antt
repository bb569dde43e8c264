-- ===== src/Proxy/Token/Tests.antt =====
-- Tests for the predicates on bytes that tokens are described with.
use shinel.Base.{ℕ, Bool, true, not, ◌&&◌, [], ◌∷◌, ◌≡◌, arith, ◌==◌}
use shinel.Base.Bytes.{Bytes, is_upper}
use shinel.Proxy.Stream.Positions.{NoBracket, end, on}
use shinel.Proxy.Token.{Letters}

abbrev pub all_upper : Bytes → Bool
all_upper [] = true
all_upper (c ∷ cs) = is_upper c && all_upper cs

-- Letters that are not none are a kind.
pub Letters-of_all_upper : (c : ℕ) (cs : Bytes) → all_upper (c ∷ cs) ≡ true → Letters (c ∷ cs)
Letters-of_all_upper c [] h = Letters.last (ground arith)
Letters-of_all_upper c (d ∷ ds) h =
    Letters.more (ground arith) (Letters-of_all_upper d ds (ground arith))

abbrev pub no_bracket : Bytes → Bool
no_bracket [] = true
no_bracket (c ∷ cs) = not (c == b'[') && no_bracket cs

pub NoBracket-of_no_bracket : (s : Bytes) → no_bracket s ≡ true → NoBracket s
NoBracket-of_no_bracket [] h = end
NoBracket-of_no_bracket (c ∷ cs) h =
    on (λ e. ground arith) (NoBracket-of_no_bracket cs (ground arith))
