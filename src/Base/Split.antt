-- ===== src/Base/Split.antt =====
-- Cutting a text at the first byte that fails a test.
use shinel.Base.{ℕ, Bool, true, false, [], ◌∷◌, ◌++◌, ◌≡◌, refl, ap₂, arith}
use shinel.Base.Bytes.{Bytes}
use shinel.Base.Sort.{All}

-- The cut is where the separator stands, so it is unique.
pub split_unique :
    (p : ℕ → Bool) (c : ℕ) (xs ys r s : Bytes)
    → p c ≡ false
    → All (λ b. p b ≡ true) xs
    → All (λ b. p b ≡ true) ys
    → xs ++ c ∷ r ≡ ys ++ c ∷ s
    → (xs ≡ ys) × (r ≡ s)
split_unique p c [] [] r s n h k e = (refl, ground arith)
split_unique p c [] (y ∷ ys) r s n h (ky, k) e = absurd (ground arith)
split_unique p c (x ∷ xs) [] r s n (hx, h) k e = absurd (ground arith)
split_unique p c (x ∷ xs) (y ∷ ys) r s n (hx, h) (ky, k) e =
    let (f, g) = split_unique p c xs ys r s n h k (ground arith) in (ap₂ ◌∷◌ (ground arith) f, g)
