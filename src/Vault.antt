-- ===== src/Vault.antt =====
-- internal/vault: the token to value mappings of each request.
pub mod Spec
pub mod Memory
pub mod Redis
pub mod Keys
use shinel.Base.{ℕ, ◌*◌, [], ◌∷◌, ◌++◌, Option, none, some}
use shinel.Base.Bytes.{Bytes, codes}

-- What `GetMapping` answers: the value, `ErrNotFound`, or another error with its message.
pub data Reply : Type 0 where
  value : Bytes → Reply
  not_found : Reply
  failed : Bytes → Reply

-- `5 * time.Minute`, in seconds.
abbrev pub ttl : ℕ
ttl = 5 * 60

unfoldable pub key : Bytes → Bytes → Bytes
key req_id token = req_id ++ b':' ∷ token

-- The two operations of the interface `Vault`, over the state of an implementation. The first
-- argument is `ctx.Err()`.
pub record VaultOps (S : Type 0) : Type 0 where
  pub save_mapping : Option Bytes → Bytes → Bytes → Bytes → S → S × Option Bytes
  pub get_mapping : Option Bytes → Bytes → Bytes → S → S × Reply
