-- ===== src/Vault/Spec/Apart.antt =====
-- Requests that share a vault of internal/vault do not disturb one another.
use shinel.Base.{
  ◌≡◌, refl, ap, sym, subst, ◌∙◌, false, some, List, [], ◌∷◌, none, arith, if◌then◌else◌,
  Bool-cases, inl, inr,
}
use shinel.Base.Bytes.{Bytes, bytes_eq, bytes_eq_iff}
use shinel.Base.Sort.{All}
use shinel.Vault.{ttl, key, VaultOps}
use shinel.Vault.Keys.{ColonFree}
use shinel.Vault.Spec.{
  Entry, renewed, waned, reply_of, Op, save, get, wait, Store, put, spec_after, spec_run, Backed,
  run,
}
use shinel.Vault.Spec.Refines.{Named, run-Shows}

-- What is for the request `r`, and the time that passes.
abbrev pub own : Bytes → List Op → List Op
own r [] = []
own r (save r' t x ∷ ops) = if bytes_eq r' r then save r' t x ∷ own r ops else own r ops
own r (get r' t ∷ ops) = if bytes_eq r' r then get r' t ∷ own r ops else own r ops
own r (wait d ∷ ops) = wait d ∷ own r ops

-- Two abstract stores have the same entries for one request.
abbrev Agree : Bytes → Store → Store → Type 0
Agree r σ τ = (t : Bytes) → σ r t ≡ τ r t

module _ (r : Bytes) where
  put-Agree-other :
      (r' t : Bytes) (σ τ : Store) (e : Entry)
      → bytes_eq r' r ≡ false
      → Agree r σ τ
      → Agree r (put r' t e σ) τ
  put-Agree-other r' t σ τ e apart agree t' = rw apart (agree t')

  after-Agree : (op : Op) (σ τ : Store) → Agree r σ τ → Agree r (spec_after op σ) (spec_after op τ)
  after-Agree (save r' t x) σ τ agree t' = rw (agree t') refl
  after-Agree (get r' t) σ τ agree t' = ground (
    arith,
    agree t',
    agree t,
    bytes_eq_iff r' r,
    λ (e : r' ≡ r). subst (λ q. σ q t ≡ τ q t) (sym e) (agree t),
  )
  after-Agree (wait d) σ τ agree t' = ap (waned d) (agree t')

  spec_run-own :
      (ops : List Op) (σ τ : Store)
      → Agree r σ τ
      → Agree r (spec_run ops σ) (spec_run (own r ops) τ)
  spec_run-own [] σ τ agree = agree
  spec_run-own (save r' t x ∷ ops) σ τ agree = elim (Bool-cases (bytes_eq r' r)) [
    | inl e ↦ rw e (spec_run-own ops _ _ (after-Agree (save r' t x) σ τ agree))
    | inr e ↦ rw e (spec_run-own ops _ _ (put-Agree-other r' t σ τ (some (x, ttl)) e agree))
  ]
  spec_run-own (get r' t ∷ ops) σ τ agree = elim (Bool-cases (bytes_eq r' r)) [
    | inl e ↦ rw e (spec_run-own ops _ _ (after-Agree (get r' t) σ τ agree))
    | inr e ↦ rw e (spec_run-own ops _ _ (put-Agree-other r' t σ τ (renewed (σ r' t)) e agree))
  ]
  spec_run-own (wait d ∷ ops) σ τ agree = spec_run-own ops _ _ (after-Agree (wait d) σ τ agree)

own-Named : (r : Bytes) (ops : List Op) → All Named ops → All Named (own r ops)
own-Named r [] h = tt
own-Named r (save r' t x ∷ ops) (h, hs) = elim (Bool-cases (bytes_eq r' r)) [
  | inl e ↦ rw e (h, own-Named r ops hs)
  | inr e ↦ rw e (own-Named r ops hs)
]
own-Named r (get r' t ∷ ops) (h, hs) = elim (Bool-cases (bytes_eq r' r)) [
  | inl e ↦ rw e (h, own-Named r ops hs)
  | inr e ↦ rw e (own-Named r ops hs)
]
own-Named r (wait d ∷ ops) (h, hs) = (tt, own-Named r ops hs)

module _ {S : Type 0} {vault : VaultOps S} (b : Backed S vault) where
  -- A lookup in a vault over a store of strings answers as if the other requests had made no calls:
  -- whatever they save and look up under whatever tokens, and in whatever order. The names of the
  -- requests hold no colon.
  pub get_mapping-own :
      (r t : Bytes) (ops : List Op) (s : S)
      → ColonFree r
      → All Named ops
      → (vault.get_mapping none r t (run b ops s)).1
        ≡ (vault.get_mapping none r t (run b (own r ops) s)).1
  get_mapping-own r t ops s h hs =
      let σ : Store = λ q u. b.left s (key q u) in
      let all = run-Shows b ops s σ hs (λ q u _. refl) r t h in
      let mine = run-Shows b (own r ops) s σ (own-Named r ops hs) (λ q u _. refl) r t h in
      b.get-reply r t _
      ∙ ap reply_of (all ∙ spec_run-own r ops σ σ (λ u. refl) t ∙ sym mine)
      ∙ sym (b.get-reply r t _)
