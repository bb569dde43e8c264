-- ===== src/Base/Maps.antt =====
-- Go maps with string keys, as association lists: a write replaces the entry of its key.
use mathlib.Core.Path.{◌≡◌, refl, subst, subst₂}
use mathlib.Core.List.{List, [], ◌∷◌}
use mathlib.Core.Option.{Option, none, some}
use native.Mathlib.Omega.{arith}
use mathlib.Core.Logic.{inl, inr}
use shinel.Base.Tests.{if◌then◌else◌, Bool-cases}
use shinel.Base.Sort.{All}
use shinel.Base.Bytes.{Bytes, bytes_eq, bytes_eq_iff}

abbrev pub Map {ℓ} : Type ℓ → Type ℓ
Map V = List (Bytes × V)

module _ {ℓ} {V : Type ℓ} where
  unfoldable pub lookup : Bytes → Map V → Option V
  lookup k [] = none
  lookup k ((j, v) ∷ m) = if bytes_eq j k then some v else lookup k m

  unfoldable pub insert : Bytes → V → Map V → Map V
  insert k v [] = (k, v) ∷ []
  insert k v ((j, w) ∷ m) = if bytes_eq j k then (k, v) ∷ m else (j, w) ∷ insert k v m

  pub lookup-insert :
      (k j : Bytes) (v : V) (m : Map V)
      → lookup j (insert k v m) ≡ (if bytes_eq k j then some v else lookup j m)
  unfolding lookup insert
  lookup-insert k j v [] = refl
  lookup-insert k j v ((i, w) ∷ m) =
      ground (arith, bytes_eq_iff k j, bytes_eq_iff i k, bytes_eq_iff i j, lookup-insert k j v m)

-- What holds of every entry holds of what is looked up.
pub All-lookup {ℓ κ} :
    {V : Type ℓ} (Q : Bytes → V → Type κ) (m : Map V) (k : Bytes) (v : V)
    → All (λ e. Q e.0 e.1) m
    → lookup k m ≡ some v
    → Q k v
unfolding lookup
All-lookup Q [] k v h e = absurd (ground arith)
All-lookup Q ((j, w) ∷ m) k v (q, h) e = elim (Bool-cases (bytes_eq j k)) [
  | inl y ↦ subst₂ Q ((bytes_eq_iff j k).0 y) (ground arith) q
  | inr n ↦ All-lookup Q m k v h (ground arith)
]

-- No key stands twice.
abbrev pub Distinct {ℓ} : {V : Type ℓ} → Map V → Type ℓ
Distinct [] = Unit
Distinct ((k, v) ∷ m) = (lookup k m ≡ none) × Distinct m

pub Distinct-insert {ℓ} :
    {V : Type ℓ} (k : Bytes) (v : V) (m : Map V) → Distinct m → Distinct (insert k v m)
unfolding insert
Distinct-insert k v [] h = (unfold lookup in refl, tt)
Distinct-insert k v ((j, w) ∷ m) (n, h) = elim (Bool-cases (bytes_eq j k)) [
  | inl e ↦ rw e (subst (λ i. lookup i m ≡ none) ((bytes_eq_iff j k).0 e) n, h)
  | inr e ↦ rw e (
    ground (arith, lookup-insert k j v m, bytes_eq_iff k j, bytes_eq_iff j k),
    Distinct-insert k v m h,
  )
]
