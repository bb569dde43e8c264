-- ===== src/Proxy/Request/Saved.antt =====
-- The mapping that `maskRequest` of internal/proxy/proxy.go files in the vault of
-- internal/vault/memory.go.
use shinel.Base.{
  ◌≡◌, refl, sym, ap, ◌∙◌, false, [], ◌∷◌, ◌++◌, none, some, arith, Bool-cases, inl, inr,
  if◌then◌else◌,
}
use shinel.Base.Bytes.{Bytes, bytes_eq, bytes_eq_iff}
use shinel.Base.Maps.{Map, lookup, Distinct}
use shinel.Proxy.Request.{save_all}
use shinel.Vault.{value, key, ttl}
use shinel.Vault.Memory.{text, Cache, save_mapping, get_mapping, memory_vault}
use shinel.Vault.Memory.Alive.{get_mapping-alive}

append_cancel : (r a b : Bytes) → r ++ a ≡ r ++ b → a ≡ b
append_cancel [] a b e = e
append_cancel (x ∷ r) a b e = append_cancel r a b (ground (arith, e))

-- Keys of one request are equal where the tokens are.
bytes_eq-key : (r i j : Bytes) → bytes_eq (key r i) (key r j) ≡ bytes_eq i j
unfolding key
bytes_eq-key r i j =
    let cancel : r ++ b':' ∷ i ≡ r ++ b':' ∷ j → i ≡ j =
      λ e. let f = append_cancel r (b':' ∷ i) (b':' ∷ j) e in ground (arith, f) in
    elim (Bool-cases (bytes_eq i j)) [
      | inl y ↦ (bytes_eq_iff _ _).1 (ap (λ t. r ++ b':' ∷ t) ((bytes_eq_iff i j).0 y)) ∙ sym y
      | inr n ↦ elim (Bool-cases (bytes_eq (r ++ b':' ∷ i) (r ++ b':' ∷ j))) [
        | inl y ↦ absurd (ground (arith, n, bytes_eq_iff i j, cancel ((bytes_eq_iff _ _).0 y)))
        | inr m ↦ m ∙ sym n
      ]
    ]

module _ (c : Cache) (req_id : Bytes) where
  open c use {State, left, left-set}

  left-save_mapping-key :
      (i j x : Bytes) (s : State)
      → left (save_mapping c none req_id i x s).0 (key req_id j)
        ≡ (if bytes_eq i j then some (text x, ttl) else left s (key req_id j))
  unfolding save_mapping
  left-save_mapping-key i j x s = left-set s (key req_id i) (key req_id j) x ttl ∙ rw bytes_eq-key

  -- Saving touches no token that the mapping does not have.
  save_all-untouched :
      (m : Map Bytes) (j : Bytes) (s : State)
      → lookup j m ≡ none
      → left (save_all (memory_vault c) none req_id m s) (key req_id j) ≡ left s (key req_id j)
  unfolding save_all lookup
  save_all-untouched [] j s e = refl
  save_all-untouched ((i, x) ∷ m) j s e =
      let apart : bytes_eq i j ≡ false = ground (arith, e) in
      save_all-untouched m j (save_mapping c none req_id i x s).0 (ground (arith, e))
      ∙ left-save_mapping-key i j x s
      ∙ rw apart

  pub left-save_all :
      (m : Map Bytes) (j x : Bytes) (s : State)
      → Distinct m
      → lookup j m ≡ some x
      → left (save_all (memory_vault c) none req_id m s) (key req_id j) ≡ some (text x, ttl)
  unfolding save_all lookup
  left-save_all [] j x s d e = absurd (ground (arith, e))
  left-save_all ((i, y) ∷ m) j x s (n, d) e = elim (Bool-cases (bytes_eq i j)) [
    | inl same ↦
        let gone : lookup j m ≡ none = ap (λ k. lookup k m) (sym ((bytes_eq_iff i j).0 same)) ∙ n in
        let y_is_x : y ≡ x = ground (arith, e, same) in
        save_all-untouched m j (save_mapping c none req_id i y s).0 gone
        ∙ left-save_mapping-key i j y s
        ∙ rw (same, y_is_x)
    | inr apart ↦
        left-save_all m j x (save_mapping c none req_id i y s).0 d (ground (arith, e, apart))
  ]

  -- Every token of a mapping that is filed in the memory vault is found again for the same request,
  -- with its value.
  pub get_mapping-save_all :
      (m : Map Bytes) (j x : Bytes) (s : State)
      → Distinct m
      → lookup j m ≡ some x
      → (get_mapping c none req_id j (save_all (memory_vault c) none req_id m s)).1 ≡ value x
  get_mapping-save_all m j x s d e =
      (get_mapping-alive c req_id j x _ ttl (left-save_all m j x s d e)).0
