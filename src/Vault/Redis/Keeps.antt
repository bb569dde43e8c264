-- ===== src/Vault/Redis/Keeps.antt =====
-- The vault of internal/vault/redis.go is what internal/vault/vault.go promises, over a server that
-- answers.
use shinel.Base.{ℕ, ◌≡◌, refl, List, none, some, arith, if◌then◌else◌}
use shinel.Base.Bytes.{Bytes, bytes_eq}
use shinel.Base.Sort.{All}
use shinel.Vault.{ttl, key}
use shinel.Vault.Redis.{Answer, result, nil, Client, save_mapping, get_mapping, redis_vault}
use shinel.Vault.Spec.{Entry, renewed, waned, reply_of, Op, Store, spec_outcomes, Backed, outcomes}
use shinel.Vault.Spec.Refines.{Named, Shows, outcomes-Shows}

abbrev pub answer_of : Entry → Answer
answer_of none = nil
answer_of (some (x, r)) = result x

-- The entry behind a `GETEX` with a time to live of `d`.
abbrev pub timed : ℕ → Entry → Entry
timed d none = none
timed d (some (x, r)) = some (x, d)

-- The commands as Redis documents them, while the server answers: `SET` with an expiry puts a
-- string under a key for a time, `GETEX` with one gives the string under a key and sets its time
-- anew, and entries go when their time is over.
pub record Server {S : Type 0} (client : Client S) : Type 0 where
  pub elapse : ℕ → S → S
  pub left : S → Bytes → Entry
  pub set-none : (s : S) (k x : Bytes) (d : ℕ) → (client.set none s k x d).1 ≡ none
  pub left-set :
      (s : S) (k j x : Bytes) (d : ℕ)
      → left (client.set none s k x d).0 j ≡ (if bytes_eq k j then some (x, d) else left s j)
  pub get_ex-answer :
      (s : S) (k : Bytes) (d : ℕ) → (client.get_ex none s k d).1 ≡ answer_of (left s k)
  pub left-get_ex :
      (s : S) (k j : Bytes) (d : ℕ)
      → left (client.get_ex none s k d).0 j
        ≡ (if bytes_eq k j then timed d (left s k) else left s j)
  pub left-elapse : (d : ℕ) (s : S) (j : Bytes) → left (elapse d s) j ≡ waned d (left s j)

module _ {S : Type 0} {client : Client S} (server : Server client) where
  open server use {elapse, left, set-none, left-set, get_ex-answer, left-get_ex, left-elapse}

  pub save_mapping-none : (r t x : Bytes) (s : S) → (save_mapping client none r t x s).1 ≡ none
  unfolding save_mapping
  save_mapping-none r t x s = rw (set-none s (key r t) x ttl) refl

  pub left-save_mapping :
      (r t x j : Bytes) (s : S)
      → left (save_mapping client none r t x s).0 j
        ≡ (if bytes_eq (key r t) j then some (x, ttl) else left s j)
  unfolding save_mapping
  left-save_mapping r t x j s = left-set s (key r t) j x ttl

  pub get_mapping-reply :
      (r t : Bytes) (s : S) → (get_mapping client none r t s).1 ≡ reply_of (left s (key r t))
  unfolding get_mapping
  get_mapping-reply r t s = ground (arith, get_ex-answer s (key r t) ttl)

  pub left-get_mapping :
      (r t j : Bytes) (s : S)
      → left (get_mapping client none r t s).0 j
        ≡ (if bytes_eq (key r t) j then renewed (left s (key r t)) else left s j)
  unfolding get_mapping
  left-get_mapping r t j s = ground (arith, left-get_ex s (key r t) j ttl)

  abbrev pub backed : Backed S (redis_vault client)
  backed = record {
    elapse = elapse;
    left = left;
    save-none = save_mapping-none;
    left-save = left-save_mapping;
    get-reply = get_mapping-reply;
    left-get = left-get_mapping;
    left-elapse = left-elapse;
  }

  -- The vault in Redis, over a server that answers, answers saves and lookups, whoever makes them
  -- and however much time passes between them, as the abstract store does that it shows at first.
  -- The names of the requests hold no colon.
  pub redis-Refines :
      (ops : List Op) (s : S) (σ : Store)
      → All Named ops
      → Shows backed s σ
      → outcomes backed ops s ≡ spec_outcomes ops σ
  redis-Refines ops s σ h shows = outcomes-Shows backed ops s σ h shows
