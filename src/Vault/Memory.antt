-- ===== src/Vault/Memory.antt =====
-- internal/vault/memory.go: the vault in the process, over the package go-cache.
pub mod Alive
pub mod Keeps
use shinel.Base.{ℕ, ◌-◌, ◌≡◌, ◌<◌, Bool, Option, none, some, ltb, if◌then◌else◌}
use shinel.Base.Bytes.{Bytes, bytes_eq}
use shinel.Vault.{Reply, value, not_found, failed, ttl, key, VaultOps}

-- What a cache holds under a key: a string, or a value of another type.
pub data Stored : Type 0 where
  text : Bytes → Stored
  other : Stored

-- Behind `d` seconds an entry is there with less time left, or gone.
abbrev pub aged : ℕ → Option (Stored × ℕ) → Option (Stored × ℕ)
aged d none = none
aged d (some (x, r)) = if ltb d r then some (x, r - d) else none

abbrev pub stored : Option (Stored × ℕ) → Option Stored
stored none = none
stored (some (x, r)) = some x

-- The package go-cache as its documentation has it: `Set` stores an item for a time, `Get` finds
-- the items that have not expired. `left` is the item under a key with the time that it has left,
-- and `elapse` lets seconds pass.
pub record Cache : Type 1 where
  pub State : Type 0
  pub set : State → Bytes → Bytes → ℕ → State
  pub get : State → Bytes → Option Stored
  pub elapse : ℕ → State → State
  pub left : State → Bytes → Option (Stored × ℕ)
  pub get-left : (s : State) (k : Bytes) → get s k ≡ stored (left s k)
  pub left-set :
      (s : State) (k j x : Bytes) (d : ℕ)
      → left (set s k x d) j ≡ (if bytes_eq k j then some (text x, d) else left s j)
  pub left-elapse : (d : ℕ) (s : State) (k : Bytes) → left (elapse d s) k ≡ aged d (left s k)

module _ (c : Cache) where
  open c use {State, set, get}

  unfoldable pub save_mapping : Option Bytes → Bytes → Bytes → Bytes → State → State × Option Bytes
  save_mapping (some e) req_id token real_value s = (s, some e)
  save_mapping none req_id token real_value s = (set s (key req_id token) real_value ttl, none)

  -- Behind `v.c.Get`: a string is stored anew, so that its time starts again.
  unfoldable pub refresh : Bytes → State → Option Stored → State × Reply
  refresh k s none = (s, not_found)
  refresh k s (some other) = (s, not_found)
  refresh k s (some (text x)) = (set s k x ttl, value x)

  unfoldable pub get_mapping : Option Bytes → Bytes → Bytes → State → State × Reply
  get_mapping (some e) req_id token s = (s, failed e)
  get_mapping none req_id token s = refresh (key req_id token) s (get s (key req_id token))

  -- `InMemoryVault` as a `Vault`.
  abbrev pub memory_vault : VaultOps State
  memory_vault = record { save_mapping = save_mapping; get_mapping = get_mapping }
