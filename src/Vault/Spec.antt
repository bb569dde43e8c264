-- ===== src/Vault/Spec.antt =====
-- What internal/vault/vault.go promises of a `Vault`: each request has values of its own under its
-- tokens, and a value stays while it is looked up in time.
pub mod Refines
pub mod Apart
use shinel.Base.{ℕ, ◌-◌, ◌≡◌, ◌&&◌, List, [], ◌∷◌, Option, none, some, ltb, if◌then◌else◌}
use shinel.Base.Bytes.{Bytes, bytes_eq}
use shinel.Vault.{Reply, value, not_found, ttl, key, VaultOps}

-- The value of an entry with the time that it has left.
abbrev pub Entry : Type 0
Entry = Option (Bytes × ℕ)

-- The entry that a lookup leaves behind.
abbrev pub renewed : Entry → Entry
renewed none = none
renewed (some (x, r)) = some (x, ttl)

-- The entry behind `d` seconds.
abbrev pub waned : ℕ → Entry → Entry
waned d none = none
waned d (some (x, r)) = if ltb d r then some (x, r - d) else none

abbrev pub reply_of : Entry → Reply
reply_of none = not_found
reply_of (some (x, r)) = value x

-- The calls that requests make while nobody cancels them, and the time between them.
pub data Op : Type 0 where
  save : Bytes → Bytes → Bytes → Op
  get : Bytes → Bytes → Op
  wait : ℕ → Op

pub data Outcome : Type 0 where
  saved : Option Bytes → Outcome
  got : Reply → Outcome
  waited : Outcome

-- The abstract store: an entry for each request and token.
abbrev pub Store : Type 0
Store = Bytes → Bytes → Entry

abbrev pub put : Bytes → Bytes → Entry → Store → Store
put r t e σ r' t' = if bytes_eq r r' && bytes_eq t t' then e else σ r' t'

abbrev pub spec_after : Op → Store → Store
spec_after (save r t x) σ = put r t (some (x, ttl)) σ
spec_after (get r t) σ = put r t (renewed (σ r t)) σ
spec_after (wait d) σ = λ r t. waned d (σ r t)

abbrev pub spec_outcome : Op → Store → Outcome
spec_outcome (save r t x) σ = saved none
spec_outcome (get r t) σ = got (reply_of (σ r t))
spec_outcome (wait d) σ = waited

abbrev pub spec_run : List Op → Store → Store
spec_run [] σ = σ
spec_run (op ∷ ops) σ = spec_run ops (spec_after op σ)

abbrev pub spec_outcomes : List Op → Store → List Outcome
spec_outcomes [] σ = []
spec_outcomes (op ∷ ops) σ = spec_outcome op σ ∷ spec_outcomes ops (spec_after op σ)

-- A vault over a store of strings with keys: what the calls do to the entry under each key, while
-- nobody cancels them.
pub record Backed (S : Type 0) (vault : VaultOps S) : Type 0 where
  pub elapse : ℕ → S → S
  pub left : S → Bytes → Entry
  pub save-none : (r t x : Bytes) (s : S) → (vault.save_mapping none r t x s).1 ≡ none
  pub left-save :
      (r t x j : Bytes) (s : S)
      → left (vault.save_mapping none r t x s).0 j
        ≡ (if bytes_eq (key r t) j then some (x, ttl) else left s j)
  pub get-reply :
      (r t : Bytes) (s : S) → (vault.get_mapping none r t s).1 ≡ reply_of (left s (key r t))
  pub left-get :
      (r t j : Bytes) (s : S)
      → left (vault.get_mapping none r t s).0 j
        ≡ (if bytes_eq (key r t) j then renewed (left s (key r t)) else left s j)
  pub left-elapse : (d : ℕ) (s : S) (j : Bytes) → left (elapse d s) j ≡ waned d (left s j)

module _ {S : Type 0} {vault : VaultOps S} (b : Backed S vault) where
  unfoldable pub after : Op → S → S
  after (save r t x) s = (vault.save_mapping none r t x s).0
  after (get r t) s = (vault.get_mapping none r t s).0
  after (wait d) s = b.elapse d s

  unfoldable pub outcome : Op → S → Outcome
  outcome (save r t x) s = saved (vault.save_mapping none r t x s).1
  outcome (get r t) s = got (vault.get_mapping none r t s).1
  outcome (wait d) s = waited

  abbrev pub run : List Op → S → S
  run [] s = s
  run (op ∷ ops) s = run ops (after op s)

  abbrev pub outcomes : List Op → S → List Outcome
  outcomes [] s = []
  outcomes (op ∷ ops) s = outcome op s ∷ outcomes ops (after op s)
