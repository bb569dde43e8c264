-- ===== src/Vault/Memory/Keeps.antt =====
-- The vault of internal/vault/memory.go is what internal/vault/vault.go promises.
use shinel.Base.{ℕ, ◌≡◌, refl, ap, ◌∙◌, List, Option, none, some, arith, if◌then◌else◌}
use shinel.Base.Bytes.{Bytes, bytes_eq, bytes_eq_iff}
use shinel.Base.Sort.{All}
use shinel.Vault.{ttl, key}
use shinel.Vault.Memory.{
  Stored, text, other, stored, aged, Cache, save_mapping, refresh, get_mapping, memory_vault,
}
use shinel.Vault.Spec.{Entry, renewed, waned, reply_of, Op, Store, spec_outcomes, Backed, outcomes}
use shinel.Vault.Spec.Refines.{Named, Shows, outcomes-Shows}

-- The entry that a lookup sees: a value of another type is none.
abbrev pub textual : Option (Stored × ℕ) → Entry
textual none = none
textual (some (text x, r)) = some (x, r)
textual (some (other, r)) = none

pub textual-aged : (d : ℕ) (e : Option (Stored × ℕ)) → textual (aged d e) ≡ waned d (textual e)
textual-aged d none = refl
textual-aged d (some (text x, r)) = ground arith
textual-aged d (some (other, r)) = ground arith

module _ (c : Cache) where
  open c use {State, set, get, elapse, get-left, left-set, left-elapse}

  abbrev pub seen : State → Bytes → Entry
  seen s j = textual (c.left s j)

  seen-set :
      (s : State) (k j x : Bytes) (d : ℕ)
      → seen (set s k x d) j ≡ (if bytes_eq k j then some (x, d) else seen s j)
  seen-set s k j x d = ground (arith, left-set s k j x d)

  refresh-reply :
      (k : Bytes) (s : State) (e : Option (Stored × ℕ))
      → c.left s k ≡ e
      → (refresh c k s (stored e)).1 ≡ reply_of (textual e)
  unfolding refresh
  refresh-reply k s none h = refl
  refresh-reply k s (some (text x, r)) h = refl
  refresh-reply k s (some (other, r)) h = refl

  seen-refresh :
      (k j : Bytes) (s : State) (e : Option (Stored × ℕ))
      → c.left s k ≡ e
      → seen (refresh c k s (stored e)).0 j
        ≡ (if bytes_eq k j then renewed (textual e) else seen s j)
  unfolding refresh
  seen-refresh k j s none h = ground (arith, bytes_eq_iff k j, ap (c.left s))
  seen-refresh k j s (some (text x, r)) h = seen-set s k j x ttl
  seen-refresh k j s (some (other, r)) h = ground (arith, bytes_eq_iff k j, ap (c.left s))

  pub save_mapping-none : (r t x : Bytes) (s : State) → (save_mapping c none r t x s).1 ≡ none
  unfolding save_mapping
  save_mapping-none r t x s = refl

  pub seen-save_mapping :
      (r t x j : Bytes) (s : State)
      → seen (save_mapping c none r t x s).0 j
        ≡ (if bytes_eq (key r t) j then some (x, ttl) else seen s j)
  unfolding save_mapping
  seen-save_mapping r t x j s = seen-set s (key r t) j x ttl

  pub get_mapping-reply :
      (r t : Bytes) (s : State) → (get_mapping c none r t s).1 ≡ reply_of (seen s (key r t))
  unfolding get_mapping
  get_mapping-reply r t s = rw (get-left s (key r t)) (refresh-reply (key r t) s _ refl)

  pub seen-get_mapping :
      (r t j : Bytes) (s : State)
      → seen (get_mapping c none r t s).0 j
        ≡ (if bytes_eq (key r t) j then renewed (seen s (key r t)) else seen s j)
  unfolding get_mapping
  seen-get_mapping r t j s = rw (get-left s (key r t)) (seen-refresh (key r t) j s _ refl)

  abbrev pub backed : Backed State (memory_vault c)
  backed = record {
    elapse = elapse;
    left = seen;
    save-none = save_mapping-none;
    left-save = seen-save_mapping;
    get-reply = get_mapping-reply;
    left-get = seen-get_mapping;
    left-elapse = λ d s j. ap textual (left-elapse d s j) ∙ textual-aged d (c.left s j);
  }

  -- The vault in memory answers saves and lookups, whoever makes them and however much time passes
  -- between them, as the abstract store does that it shows at first. The names of the requests hold
  -- no colon.
  pub memory-Refines :
      (ops : List Op) (s : State) (σ : Store)
      → All Named ops
      → Shows backed s σ
      → outcomes backed ops s ≡ spec_outcomes ops σ
  memory-Refines ops s σ h shows = outcomes-Shows backed ops s σ h shows
