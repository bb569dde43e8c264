-- ===== src/Analyzer/Guesses/Valid.antt =====
-- Whatever the ML engine replies, internal/analyzer/conflict.go makes sound spans of it.
use shinel.Base.{
  ℕ, zero, suc, ◌+◌, ◌-◌, ◌≤◌, ◌<◌, ◌≡◌, ◌≢◌, refl, Bool, true, List, [], ◌∷◌, Option, none, some,
  length, slice, get_elem?, arith, Bool-cases, Option-cases, inl, inr,
}
use shinel.Base.Bytes.{Bytes, is_upper}
use shinel.Base.Int.{ℤ, pos, negsuc}
use shinel.Base.Sort.{All}
use shinel.Base.Utf8.{decode_rune}
use shinel.Analyzer.Guesses.{
  Entity, offsets_from, rune_offsets, byte_range, upper_only, sanitize_label, usable, guess_of,
  guesses_of, collect_ml,
}
use shinel.Analyzer.Span.{Span}
use shinel.Analyzer.Sweep.Masks.{Fits}
use shinel.Proxy.Token.{Letters}

-- Every offset lies between where the text begins and where it ends.
offsets_from-bounds :
    (skip at i a : ℕ) (bs : Bytes)
    → get_elem? (offsets_from skip at bs) i ≡ some a
    → (at ≤ a) × (a ≤ at + length bs)
unfolding offsets_from
offsets_from-bounds skip at zero a [] e = ground arith
offsets_from-bounds skip at (suc i) a [] e = absurd (ground arith)
offsets_from-bounds zero at zero a (b ∷ bs) e = ground arith
offsets_from-bounds zero at (suc i) a (b ∷ bs) e =
    let (l, u) = offsets_from-bounds ((decode_rune (b ∷ bs)).1 - 1) (at + 1) i a bs e in
    (omega (arith, l), omega (arith, u))
offsets_from-bounds (suc skip) at i a (b ∷ bs) e =
    let (l, u) = offsets_from-bounds skip (at + 1) i a bs e in (omega (arith, l), omega (arith, u))

-- Offsets of later characters are further on.
offsets_from-increase :
    (skip at i j a b : ℕ) (bs : Bytes)
    → i < j
    → get_elem? (offsets_from skip at bs) i ≡ some a
    → get_elem? (offsets_from skip at bs) j ≡ some b
    → a < b
unfolding offsets_from
offsets_from-increase skip at i zero a b bs h e f = absurd (omega (arith, h))
offsets_from-increase skip at i (suc j) a b [] h e f = absurd (ground arith)
offsets_from-increase zero at zero (suc j) a b (c ∷ bs) h e f =
    let (l, u) = offsets_from-bounds ((decode_rune (c ∷ bs)).1 - 1) (at + 1) j b bs f in
    let same : at ≡ a = ground (arith, e) in omega (arith, l, same)
offsets_from-increase zero at (suc i) (suc j) a b (c ∷ bs) h e f =
    offsets_from-increase ((decode_rune (c ∷ bs)).1 - 1) (at + 1) i j a b bs (omega (arith, h)) e f
offsets_from-increase (suc skip) at i (suc j) a b (c ∷ bs) h e f =
    offsets_from-increase skip (at + 1) i (suc j) a b bs h e f

byte_range-inside :
    (text : Bytes) (s e : ℤ) {r : ℕ × ℕ}
    → byte_range (rune_offsets text) s e ≡ some r
    → (r.0 < r.1) × (r.1 ≤ length text)
unfolding byte_range rune_offsets
byte_range-inside text (negsuc s) e h = absurd (ground arith)
byte_range-inside text (pos s) (negsuc e) h = absurd (ground arith)
byte_range-inside text (pos s) (pos e) {r} h =
    elim (Option-cases (get_elem? (offsets_from 0 0 text) s)) [
      | inl m ↦ absurd (ground (arith, h, m))
      | inr (a, m) ↦ elim (Option-cases (get_elem? (offsets_from 0 0 text) e)) [
        | inl n ↦ absurd (ground (arith, h, m, n))
        | inr (b, n) ↦
            let order : s < e = ground (arith, h) in
            let same : r ≡ (a, b) = ground (arith, h, m, n) in
            let u = (offsets_from-bounds 0 0 e b text n).1 in
            let l = offsets_from-increase 0 0 s e a b text order m n in
            rw same (l, omega (arith, u))
      ]
    ]

Letters-front :
    (b : ℕ) (rest : Bytes) → is_upper b ≡ true → (rest ≢ [] → Letters rest) → Letters (b ∷ rest)
Letters-front b [] y h = Letters.last y
Letters-front b (c ∷ cs) y h = Letters.more y (h (cc))

upper_only-Letters : (bs : Bytes) → upper_only bs ≢ [] → Letters (upper_only bs)
unfolding upper_only
upper_only-Letters [] h = absurd (h refl)
upper_only-Letters (b ∷ bs) h = elim (Bool-cases (is_upper b)) [
  | inl y ↦ rw y (Letters-front b (upper_only bs) y (upper_only-Letters bs))
  | inr n ↦ rw n (upper_only-Letters bs (λ e. h (rw n e)))
]

module _ (is_letter : ℕ → Bool) (to_upper : Bytes → Bytes) where
  usable-kind :
      (kind got entity : Bytes) → usable is_letter to_upper kind got entity ≡ true → kind ≢ []
  unfolding usable
  usable-kind kind got entity h e = ground (arith, h, e)

  guess_of-Fits :
      (text : Bytes) (ent : Entity) {s : Span}
      → guess_of is_letter to_upper text (rune_offsets text) ent ≡ some s
      → Fits text s
  unfolding guess_of sanitize_label
  guess_of-Fits text ent {s} h =
      elim (Option-cases (byte_range (rune_offsets text) ent.start ent.end)) [
        | inl m ↦ absurd (ground (arith, h, m))
        | inr ((a, b), m) ↦
            let kind = upper_only (to_upper ent.label) in
            let (l, u) = byte_range-inside text ent.start ent.end m in
            elim (Bool-cases (usable is_letter to_upper kind (slice a b text) ent.entity)) [
              | inl y ↦
                  let same : s ≡ record { start = a; end = b; kind = kind } =
                    ground (arith, h, m, y) in
                  let letters = upper_only-Letters (to_upper ent.label) (usable-kind kind _ _ y) in
                  rw same (record { ordered = omega (arith, l); inside = u; letters = letters })
              | inr n ↦ absurd (ground (arith, h, m, n))
            ]
      ]

  guesses_of-Fits :
      (text : Bytes) (ents : List Entity)
      → All (Fits text) (guesses_of is_letter to_upper text (rune_offsets text) ents)
  unfolding guesses_of
  guesses_of-Fits text [] = tt
  guesses_of-Fits text (ent ∷ ents) =
      elim (Option-cases (guess_of is_letter to_upper text (rune_offsets text) ent)) [
        | inl n ↦ rw (All, guesses_of, n) (guesses_of-Fits text ents)
        | inr (s, e) ↦ rw (All, guesses_of, e) (guess_of-Fits text ent e, guesses_of-Fits text ents)
      ]

  -- Whatever the ML engine replies, each span that is made of it lies in the text, is not cut off
  -- in the wrong order, and has a kind of letters that the proxy can read back.
  pub collect_ml-Fits :
      (ml : Option (Bytes → Option (List Entity))) (text : Bytes)
      → All (Fits text) (collect_ml is_letter to_upper ml text)
  unfolding collect_ml
  collect_ml-Fits none text = tt
  collect_ml-Fits (some analyze) text = elim (Option-cases (analyze text)) [
    | inl n ↦ rw n tt
    | inr (ents, e) ↦ rw e (guesses_of-Fits text ents)
  ]
