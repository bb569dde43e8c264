-- ===== src/Analyzer/Json/Parse.antt =====
-- internal/analyzer/json.go: `parseJSON` and `marshalJSON`. The decoder and the encoder of
-- encoding/json are arguments: a value with what is behind it, and the text of a value.
use shinel.Base.{
  ℕ, ◌≡◌, ◌↔◌, refl, ap, ◌∙◌, inl, inr, Bool, true, false, ◌||◌, ◌&&◌, not, [], ◌∷◌, Option, none,
  some, ◌==◌, if◌then◌else◌, is_empty, arith, Bool-cases, Option-cases,
}
use shinel.Base.Bytes.{Bytes}
use shinel.Analyzer.Json.{Json}

abbrev is_space : ℕ → Bool
is_space b = b == 32 || b == 9 || b == 13 || b == 10

-- The decoder's `More` behind a value: whether the next byte that is no space is there and is
-- neither `]` nor `}`.
unfoldable pub more : Bytes → Bool
more [] = false
more (b ∷ bs) = let rest = more bs in if is_space b then rest else not (b == b']' || b == b'}')

unfoldable pub parse_json : (Bytes → Option (Json × Bytes)) → Bytes → Option Json
parse_json decode text = elim (decode text) [
  | none ↦ none
  | some (v, rest) ↦ if more rest then none else some v
]

-- `bytes.TrimRight(b, "\n")`.
unfoldable pub trim_newlines : Bytes → Bytes
trim_newlines [] = []
trim_newlines (b ∷ bs) =
    let rest = trim_newlines bs in if is_empty rest && b == b'\n' then [] else b ∷ rest

unfoldable pub marshal_json : (Json → Option Bytes) → Json → Option Bytes
marshal_json encode v = elim (encode v) [ none ↦ none | some text ↦ some (trim_newlines text) ]

-- What may stand behind a value: spaces alone, or a bracket that closes and then anything.
pub data Ends : Bytes → Type 0 where
  nothing : Ends []
  space : {b : ℕ} {bs : Bytes} → is_space b ≡ true → Ends bs → Ends (b ∷ bs)
  closing : {b : ℕ} {bs : Bytes} → (b == b']' || b == b'}') ≡ true → Ends (b ∷ bs)

more-Ends : (rest : Bytes) → more rest ≡ false → Ends rest
unfolding more
more-Ends [] e = nothing
more-Ends (b ∷ bs) e = elim (Bool-cases (is_space b)) [
  | inl y ↦ space y (more-Ends bs (ground (arith, e, y)))
  | inr n ↦ closing (ground (arith, e, n))
]

Ends-more : {rest : Bytes} → Ends rest → more rest ≡ false
unfolding more
Ends-more nothing = refl
Ends-more (space y h) = ground (arith, y, Ends-more h)
Ends-more (closing y) = ground (arith, y)

-- A text is taken for a JSON value just when the decoder finds that value at its front and behind
-- it there are spaces alone, or spaces and a closing bracket and then anything at all.
pub parse_json-Ends :
    (decode : Bytes → Option (Json × Bytes)) (text : Bytes) (v : Json)
    → parse_json decode text ≡ some v
      ↔ ((rest : Bytes) × (decode text ≡ some (v, rest)) × Ends rest)
unfolding parse_json
parse_json-Ends decode text v = (
  λ e. elim (Option-cases (decode text)) [
    | inl f ↦ absurd (ground (arith, e, f))
    | inr ((w, rest), f) ↦ elim (Bool-cases (more rest)) [
      | inl y ↦ absurd (ground (arith, e, f, y))
      | inr n ↦
          let same : w ≡ v = ground (arith, e, f, n) in
          (rest, f ∙ ap (λ x. some (x, rest)) same, more-Ends rest n)
    ]
  ],
  λ (rest, f, h). ground (arith, f, Ends-more h),
)
