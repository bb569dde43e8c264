-- ===== src/Base/Ring.antt =====
-- The slice that keeps the last entries, as internal/stats/stats.go and internal/admin/logs.go
-- both write it: grow up to the capacity, then shift down by one and overwrite the last place.
use native.Mathlib.Decide.{dec_lt}
use shinel.Base.{
  ℕ, zero, suc, ◌+◌, ◌-◌, ◌≤◌, ◌<◌, ◌≡◌, refl, sym, ap, ◌∙◌, List, [], ◌∷◌, ◌++◌, arith, ◌==◌, true,
  false, length-drop, drop-drop, drop-nil, if◌then◌else◌, length, length-append, drop, set,
  append-nil, append_assoc,
}

module _ {ℓ} {A : Type ℓ} where
  -- `copy(dst, src)`: as many elements as fit.
  abbrev pub copy : List A → List A → List A
  copy [] src = []
  copy (x ∷ dst) [] = x ∷ dst
  copy (x ∷ dst) (y ∷ src) = y ∷ copy dst src

  unfoldable pub push : ℕ → List A → A → List A
  push cap xs x = if length xs == cap then set (copy xs (drop 1 xs)) (cap - 1) x else xs ++ x ∷ []

  -- The last `cap` entries of a history, oldest first.
  abbrev pub last_of : ℕ → List A → List A
  last_of cap xs = drop (length xs - cap) xs

  set-copy : (y x : A) (ys : List A) → set (copy (y ∷ ys) ys) (length ys) x ≡ ys ++ x ∷ []
  set-copy y x [] = refl
  set-copy y x (z ∷ ys) = ap (λ r. z ∷ r) (set-copy z x ys)

  push-full :
      (xs : List A) (x : A) (cap : ℕ)
      → length xs ≡ suc cap
      → push (suc cap) xs x ≡ drop 1 xs ++ x ∷ []
  unfolding push
  push-full [] x cap e = absurd (omega arith)
  push-full (y ∷ ys) x cap e =
      let k : suc cap - 1 ≡ length ys = omega arith in
      let h : (length (y ∷ ys) == suc cap) ≡ true = ground arith in rw (h, k) (set-copy y x ys)

  push-room : (xs : List A) (x : A) (cap : ℕ) → length xs < cap → push cap xs x ≡ xs ++ x ∷ []
  unfolding push
  push-room xs x cap h = let e : (length xs == cap) ≡ false = ground arith in rw e

  drop-append_le : (n : ℕ) (xs ys : List A) → n ≤ length xs → drop n (xs ++ ys) ≡ drop n xs ++ ys
  drop-append_le zero xs ys h = refl
  drop-append_le (suc n) [] ys h = absurd (omega arith)
  drop-append_le (suc n) (x ∷ xs) ys h = drop-append_le n xs ys (omega arith)

  -- One more entry in the ring of a history is the ring of one more entry.
  pub push-last_of :
      (cap : ℕ) (h : List A) (x : A)
      → 0 < cap
      → push cap (last_of cap h) x ≡ last_of cap (h ++ x ∷ [])
  push-last_of zero h x p = absurd (omega arith)
  push-last_of (suc cap) h x p = elim (dec_lt (length h) (suc cap)) [
    | yes room ↦
        let a : length h - suc cap ≡ 0 = omega arith in
        let b : length (h ++ x ∷ []) - suc cap ≡ 0 = omega (arith, length-append h (x ∷ [])) in
        rw (a, b) (push-room h x (suc cap) room)
    | no full ↦
        let n = length h - suc cap in
        let b : length (h ++ x ∷ []) - suc cap ≡ n + 1 = omega (arith, length-append h (x ∷ [])) in
        push-full (drop n h) x cap (omega (arith, length-drop n h))
        ∙ ap (λ r. r ++ x ∷ []) (drop-drop 1 n h)
        ∙ sym (drop-append_le (n + 1) h (x ∷ []) (omega arith))
        ∙ ap (λ k. drop k (h ++ x ∷ [])) (sym b)
  ]

  -- Entries pushed in turn on an empty ring leave the last of them.
  abbrev pub push_all : ℕ → List A → List A → List A
  push_all cap xs [] = xs
  push_all cap xs (y ∷ ys) = push_all cap (push cap xs y) ys

  pub push_all-last_of :
      (cap : ℕ) (h ys : List A) → 0 < cap → push_all cap (last_of cap h) ys ≡ last_of cap (h ++ ys)
  push_all-last_of cap h [] p = ap (last_of cap) (sym (append-nil h))
  push_all-last_of cap h (y ∷ ys) p =
      ap (λ r. push_all cap r ys) (push-last_of cap h y p)
      ∙ push_all-last_of cap (h ++ y ∷ []) ys p
      ∙ ap (last_of cap) (append_assoc h (y ∷ []) ys)

  -- From empty.
  pub push_all-nil : (cap : ℕ) (ys : List A) → 0 < cap → push_all cap [] ys ≡ last_of cap ys
  push_all-nil cap ys p =
      ap (λ r. push_all cap r ys) (sym (drop-nil A (0 - cap))) ∙ push_all-last_of cap [] ys p

  pub length-push :
      (cap : ℕ) (xs : List A) (x : A) → length xs ≤ cap → 0 < cap → length (push cap xs x) ≤ cap
  length-push zero xs x h p = absurd (omega arith)
  length-push (suc cap) xs x h p = elim (dec_lt (length xs) (suc cap)) [
    | yes room ↦ rw (push-room xs x (suc cap) room) (omega (arith, length-append xs (x ∷ [])))
    | no full ↦
        rw (push-full xs x cap (omega arith))
          (omega (arith, length-append (drop 1 xs) (x ∷ []), length-drop 1 xs))
  ]
