-- ===== src/Vault/Spec/Refines.antt =====
-- A vault over a store of strings answers as internal/vault/vault.go promises.
use shinel.Base.{◌≡◌, refl, ap, ap₂, ◌∙◌, ◌&&◌, List, [], ◌∷◌, arith}
use shinel.Base.Bytes.{Bytes, bytes_eq, bytes_eq_iff}
use shinel.Base.Sort.{All}
use shinel.Vault.{key, VaultOps}
use shinel.Vault.Keys.{ColonFree, key-injective}
use shinel.Vault.Spec.{
  waned, reply_of, Op, save, get, wait, saved, got, Store, spec_after, spec_outcome, spec_run,
  spec_outcomes, Backed, after, outcome, run, outcomes,
}

-- The requests that the calls are for have names without a colon, as UUIDs are.
abbrev pub Named : Op → Type 0
Named (save r t x) = ColonFree r
Named (get r t) = ColonFree r
Named (wait d) = Unit

-- Two keys are one just when the requests and the tokens are.
bytes_eq-key :
    (r t r' t' : Bytes)
    → ColonFree r
    → ColonFree r'
    → bytes_eq (key r t) (key r' t') ≡ (bytes_eq r r' && bytes_eq t t')
bytes_eq-key r t r' t' h h' = ground (
  arith,
  bytes_eq_iff (key r t) (key r' t'),
  bytes_eq_iff r r',
  bytes_eq_iff t t',
  key-injective r r' t t' h h',
  λ (e : r ≡ r') (f : t ≡ t'). ap₂ key e f,
)

module _ {S : Type 0} {vault : VaultOps S} (b : Backed S vault) where
  open b use {left, save-none, left-save, get-reply, left-get, left-elapse}

  -- A state shows an abstract store: under the key of each request and token stands its entry.
  abbrev pub Shows : S → Store → Type 0
  Shows s σ = (r t : Bytes) → ColonFree r → left s (key r t) ≡ σ r t

  after-Shows :
      (op : Op) (s : S) (σ : Store) → Named op → Shows s σ → Shows (after b op s) (spec_after op σ)
  unfolding after
  after-Shows (save r t x) s σ h shows r' t' h' =
      left-save r t x (key r' t') s ∙ rw (bytes_eq-key r t r' t' h h', shows r' t' h') refl
  after-Shows (get r t) s σ h shows r' t' h' =
      left-get r t (key r' t') s
      ∙ rw (bytes_eq-key r t r' t' h h', shows r' t' h', shows r t h) refl
  after-Shows (wait d) s σ h shows r' t' h' =
      left-elapse d s (key r' t') ∙ ap (waned d) (shows r' t' h')

  outcome-Shows :
      (op : Op) (s : S) (σ : Store) → Named op → Shows s σ → outcome b op s ≡ spec_outcome op σ
  unfolding outcome
  outcome-Shows (save r t x) s σ h shows = ap saved (save-none r t x s)
  outcome-Shows (get r t) s σ h shows = ap got (get-reply r t s ∙ ap reply_of (shows r t h))
  outcome-Shows (wait d) s σ h shows = refl

  pub run-Shows :
      (ops : List Op) (s : S) (σ : Store)
      → All Named ops
      → Shows s σ
      → Shows (run b ops s) (spec_run ops σ)
  run-Shows [] s σ h shows = shows
  run-Shows (op ∷ ops) s σ (h, hs) shows =
      run-Shows ops (after b op s) (spec_after op σ) hs (after-Shows op s σ h shows)

  pub outcomes-Shows :
      (ops : List Op) (s : S) (σ : Store)
      → All Named ops
      → Shows s σ
      → outcomes b ops s ≡ spec_outcomes ops σ
  outcomes-Shows [] s σ h shows = refl
  outcomes-Shows (op ∷ ops) s σ (h, hs) shows =
      ap₂ ◌∷◌ (outcome-Shows op s σ h shows)
        (outcomes-Shows ops (after b op s) (spec_after op σ) hs (after-Shows op s σ h shows))
