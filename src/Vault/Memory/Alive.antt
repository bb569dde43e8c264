-- ===== src/Vault/Memory/Alive.antt =====
-- How long the vault of internal/vault/memory.go keeps a mapping.
use shinel.Base.{
  ℕ, ◌-◌, ◌≡◌, ◌<◌, refl, ap, ◌∙◌, List, [], ◌∷◌, Option, none, some, arith, Bool-cases, inl, inr,
}
use shinel.Base.Bytes.{Bytes, bytes_eq, bytes_eq_iff}
use shinel.Base.Sort.{All}
use shinel.Vault.{Reply, value, ttl, key}
use shinel.Vault.Memory.{Stored, text, other, stored, Cache, save_mapping, refresh, get_mapping}

module _ (c : Cache) where
  open c use {State, set, get, elapse, left, get-left, left-set, left-elapse}

  -- A saved mapping is there, for the whole time to live.
  pub left-save_mapping :
      (req_id token x : Bytes) (s : State)
      → left (save_mapping c none req_id token x s).0 (key req_id token) ≡ some (text x, ttl)
  unfolding save_mapping
  left-save_mapping req_id token x s = ground (
    arith,
    left-set s (key req_id token) (key req_id token) x ttl,
    bytes_eq_iff (key req_id token) (key req_id token),
  )

  -- What is there is found, and has the whole time to live again.
  pub get_mapping-alive :
      (req_id token x : Bytes) (s : State) (r : ℕ)
      → left s (key req_id token) ≡ some (text x, r)
      → (get_mapping c none req_id token s).1 ≡ value x
        × (left (get_mapping c none req_id token s).0 (key req_id token) ≡ some (text x, ttl))
  unfolding get_mapping refresh
  get_mapping-alive req_id token x s r e =
      let g : get s (key req_id token) ≡ some (text x) =
        get-left s (key req_id token) ∙ ap stored e in
      (
        rw g,
        rw g (
            ground (
              arith,
              left-set s (key req_id token) (key req_id token) x ttl,
              bytes_eq_iff (key req_id token) (key req_id token),
            )),
      )

  refresh-keeps :
      (k j x : Bytes) (s : State) (r : ℕ) (o : Option Stored)
      → get s k ≡ o
      → left s j ≡ some (text x, r)
      → (r' : ℕ) × (left (refresh c k s o).0 j ≡ some (text x, r'))
  unfolding refresh
  refresh-keeps k j x s r none g e = (r, e)
  refresh-keeps k j x s r (some other) g e = (r, e)
  refresh-keeps k j x s r (some (text y)) g e = elim (Bool-cases (bytes_eq k j)) [
    | inl same ↦
        let k_is_j = (bytes_eq_iff k j).0 same in
        let y_is_x : y ≡ x = ground (arith, get-left s k, ap (left s) k_is_j) in
        (ttl, left-set s k j y ttl ∙ rw (same, y_is_x))
    | inr apart ↦ (r, left-set s k j y ttl ∙ rw apart e)
  ]

  -- A lookup takes no mapping away.
  pub get_mapping-keeps :
      (req_id token j x : Bytes) (s : State) (r : ℕ)
      → left s j ≡ some (text x, r)
      → (r' : ℕ) × (left (get_mapping c none req_id token s).0 j ≡ some (text x, r'))
  unfolding get_mapping
  get_mapping-keeps req_id token j x s r e =
      refresh-keeps (key req_id token) j x s r (get s (key req_id token)) refl e

  -- Lookups of one token, each behind a wait.
  abbrev pub lookups : Bytes → Bytes → List ℕ → State → List Reply
  lookups req_id token [] s = []
  lookups req_id token (d ∷ ds) s =
      let (s', reply) = get_mapping c none req_id token (elapse d s) in
      reply ∷ lookups req_id token ds s'

  lookups_from :
      (req_id token x : Bytes) (ds : List ℕ) (s : State)
      → All (λ d. d < ttl) ds
      → left s (key req_id token) ≡ some (text x, ttl)
      → All (λ reply. reply ≡ value x) (lookups req_id token ds s)
  lookups_from req_id token x [] s h e = tt
  lookups_from req_id token x (d ∷ ds) s (hd, h) e =
      let there : left (elapse d s) (key req_id token) ≡ some (text x, ttl - d) =
        ground (arith, left-elapse d s (key req_id token)) in
      let (found, again) = get_mapping-alive req_id token x (elapse d s) (ttl - d) there in
      (found, lookups_from req_id token x ds _ h again)

  -- A saved mapping is found by any number of lookups, however long they go on, as long as each
  -- wait between two of them is shorter than the time to live.
  pub lookups-save_mapping :
      (req_id token x : Bytes) (ds : List ℕ) (s : State)
      → All (λ d. d < ttl) ds
      → All
          (λ reply. reply ≡ value x)
          (lookups req_id token ds (save_mapping c none req_id token x s).0)
  lookups-save_mapping req_id token x ds s h =
      lookups_from req_id token x ds _ h (left-save_mapping req_id token x s)
