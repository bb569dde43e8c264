-- ===== src/Vault/Redis.antt =====
-- internal/vault/redis.go: the vault in Redis, over the package go-redis.
pub mod Keeps
use shinel.Base.{ℕ, ◌++◌, Option, none, some}
use shinel.Base.Bytes.{Bytes, codes}
use shinel.Vault.{Reply, value, not_found, failed, ttl, key, VaultOps}

-- What a command answers: a value, `redis.Nil`, or an error with its message.
pub data Answer : Type 0 where
  result : Bytes → Answer
  nil : Answer
  error : Bytes → Answer

-- The commands of the package go-redis that the vault sends, over the state of the server and the
-- connection. The first argument is `ctx.Err()`.
pub record Client (S : Type 0) : Type 0 where
  pub set : Option Bytes → S → Bytes → Bytes → ℕ → S × Option Bytes
  pub get_ex : Option Bytes → S → Bytes → ℕ → S × Answer

module _ {S : Type 0} (client : Client S) where
  unfoldable pub save_mapping : Option Bytes → Bytes → Bytes → Bytes → S → S × Option Bytes
  save_mapping ctx req_id token real_value s =
      let (s', e) = client.set ctx s (key req_id token) real_value ttl in
      (s', elim e [ none ↦ none | some why ↦ some (codes "vault: save mapping: " ++ why) ])

  unfoldable pub get_mapping : Option Bytes → Bytes → Bytes → S → S × Reply
  get_mapping ctx req_id token s =
      let (s', a) = client.get_ex ctx s (key req_id token) ttl in
      (
        s',
        elim a [
          | result x ↦ value x
          | nil ↦ not_found
          | error why ↦ failed (codes "vault: get mapping: " ++ why)
        ],
      )

  -- `RedisVault` as a `Vault`.
  abbrev pub redis_vault : VaultOps S
  redis_vault = record { save_mapping = save_mapping; get_mapping = get_mapping }
