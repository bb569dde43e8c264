-- ===== src/Base/Sort.antt =====
-- sort.SliceStable and sort.Slice over a strict order given as a test: stable insertion sort. The
-- order that `sort.Slice` leaves equal elements in is not used by what is proved.
use shinel.Base.{
  ℕ, zero, suc, some, get_elem?, subst, ◌++◌, Bool, true, false, ◌||◌, List, [], ◌∷◌, ◌≡◌, refl, ap,
  ◌∙◌, arith, if◌then◌else◌, Bool-cases, inl, inr,
}

module _ {ℓ} {A : Type ℓ} where
  unfoldable pub any : (A → Bool) → List A → Bool
  any p [] = false
  any p (x ∷ xs) = p x || any p xs

  abbrev pub All {κ} : (A → Type κ) → List A → Type κ
  All P [] = Unit
  All P (x ∷ xs) = P x × All P xs

  pub All-append {κ} : (P : A → Type κ) (xs ys : List A) → All P xs → All P ys → All P (xs ++ ys)
  All-append P [] ys hx hy = hy
  All-append P (x ∷ xs) ys (px, hx) hy = (px, All-append P xs ys hx hy)

  pub All-get_elem? {κ} :
      (P : A → Type κ) (xs : List A) (i : ℕ) {x : A} → All P xs → get_elem? xs i ≡ some x → P x
  All-get_elem? P [] i h e = absurd (ground (arith, e))
  All-get_elem? P (y ∷ xs) zero {x} (py, h) e =
      let same : y ≡ x = ground (arith, e) in subst P same py
  All-get_elem? P (y ∷ xs) (suc i) (py, h) e = All-get_elem? P xs i h e

  unfoldable pub insert_by : (A → A → Bool) → A → List A → List A
  insert_by less x [] = x ∷ []
  insert_by less x (y ∷ ys) = if less y x then y ∷ insert_by less x ys else x ∷ y ∷ ys

  unfoldable pub sort_by : (A → A → Bool) → List A → List A
  unfolding insert_by
  sort_by less [] = []
  sort_by less (x ∷ xs) = insert_by less x (sort_by less xs)

  -- No element is before the one in front of it.
  abbrev pub IsSorted : (A → A → Bool) → List A → Type 0
  IsSorted less [] = Unit
  IsSorted less (x ∷ xs) = All (λ y. less y x ≡ false) xs × IsSorted less xs

  any-insert_by :
      (p : A → Bool) (less : A → A → Bool) (x : A) (xs : List A)
      → any p (insert_by less x xs) ≡ (p x || any p xs)
  unfolding any insert_by
  any-insert_by p less x [] = refl
  any-insert_by p less x (y ∷ ys) = ground (arith, any-insert_by p less x ys)

  pub any-sort_by :
      (p : A → Bool) (less : A → A → Bool) (xs : List A) → any p (sort_by less xs) ≡ any p xs
  unfolding any sort_by
  any-sort_by p less [] = refl
  any-sort_by p less (x ∷ xs) =
      any-insert_by p less x (sort_by less xs) ∙ ap (λ b. p x || b) (any-sort_by p less xs)

  pub All-insert_by {κ} :
      (P : A → Type κ) (less : A → A → Bool) (x : A) (xs : List A)
      → P x
      → All P xs
      → All P (insert_by less x xs)
  unfolding insert_by
  All-insert_by P less x [] px h = (px, tt)
  All-insert_by P less x (y ∷ ys) px (py, h) = elim (Bool-cases (less y x)) [
    | inl e ↦ rw e (py, All-insert_by P less x ys px h)
    | inr e ↦ rw e (px, (py, h))
  ]

  pub All-sort_by {κ} :
      (P : A → Type κ) (less : A → A → Bool) (xs : List A) → All P xs → All P (sort_by less xs)
  unfolding sort_by
  All-sort_by P less [] h = tt
  All-sort_by P less (x ∷ xs) (px, h) = All-insert_by P less x _ px (All-sort_by P less xs h)

  All-of_insert_by {κ} :
      (P : A → Type κ) (less : A → A → Bool) (x : A) (xs : List A)
      → All P (insert_by less x xs)
      → P x × All P xs
  unfolding insert_by
  All-of_insert_by P less x [] h = h
  All-of_insert_by P less x (y ∷ ys) h = elim (Bool-cases (less y x)) [
    | inl e ↦
        let (py, k) = rw e at h in let (px, hs) = All-of_insert_by P less x ys k in (px, (py, hs))
    | inr e ↦ rw e at h
  ]

  pub All-of_sort_by {κ} :
      (P : A → Type κ) (less : A → A → Bool) (xs : List A) → All P (sort_by less xs) → All P xs
  unfolding sort_by
  All-of_sort_by P less [] h = tt
  All-of_sort_by P less (x ∷ xs) h =
      let (px, k) = All-of_insert_by P less x (sort_by less xs) h in
      (px, All-of_sort_by P less xs k)

  pub All-map {κ} : {P Q : A → Type κ} (xs : List A) → ((x : A) → P x → Q x) → All P xs → All Q xs
  All-map [] f h = tt
  All-map (x ∷ xs) f (p, h) = (f x p, All-map xs f h)

  -- What a sorted result needs of the test.
  pub record IsOrder (less : A → A → Bool) : Type ℓ where
    pub asym : (x y : A) → less x y ≡ true → less y x ≡ false
    pub trans : (x y z : A) → less y x ≡ false → less z y ≡ false → less z x ≡ false

  insert_by-IsSorted :
      {less : A → A → Bool} (o : IsOrder less) (x : A) (xs : List A)
      → IsSorted less xs
      → IsSorted less (insert_by less x xs)
  unfolding insert_by
  insert_by-IsSorted o x [] h = (tt, tt)
  insert_by-IsSorted {less} o x (y ∷ ys) (h, s) = elim (Bool-cases (less y x)) [
    | inl e ↦ rw e (All-insert_by _ less x ys (o.asym y x e) h, insert_by-IsSorted o x ys s)
    | inr e ↦ rw e ((e, All-map ys (λ z k. o.trans x y z e k) h), (h, s))
  ]

  pub sort_by-IsSorted :
      {less : A → A → Bool} (o : IsOrder less) (xs : List A) → IsSorted less (sort_by less xs)
  unfolding sort_by
  sort_by-IsSorted o [] = tt
  sort_by-IsSorted o (x ∷ xs) = insert_by-IsSorted o x _ (sort_by-IsSorted o xs)
