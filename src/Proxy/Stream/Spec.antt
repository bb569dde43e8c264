-- ===== src/Proxy/Stream/Spec.antt =====
-- What restoring a response means, said of the whole text at once.
use shinel.Base.{ℕ, ◌≤◌, [], ◌∷◌, ◌++◌, ◌≡◌, length}
use shinel.Base.Bytes.{Bytes}
use shinel.Proxy.Stream.{max_token_len, resolve}
use shinel.Proxy.Token.{IsToken}
use shinel.Vault.{Reply}

-- No token of at most 64 bytes begins here.
abbrev pub NoTokenHere : Bytes → Type 0
NoTokenHere text = (t rest : Bytes) → text ≡ t ++ rest → length t ≤ max_token_len → ¬ (IsToken t)

-- From the left, each token of at most 64 bytes gives way to what the vault has for it, and every
-- other byte stays.
pub data Restores {V : Type 0} (get_mapping : V → Bytes → V × Reply) (last : V)
    : V → Bytes → Bytes → Type 0 where
  done : {v : V} → v ≡ last → Restores get_mapping last v [] []
  token :
      {v : V} {t rest text shown out : Bytes}
      → IsToken t
      → length t ≤ max_token_len
      → text ≡ t ++ rest
      → Restores get_mapping last (resolve get_mapping v t).0 rest out
      → shown ≡ (resolve get_mapping v t).1 ++ out
      → Restores get_mapping last v text shown
  byte :
      {v : V} {b : ℕ} {text out : Bytes}
      → NoTokenHere (b ∷ text)
      → Restores get_mapping last v text out
      → Restores get_mapping last v (b ∷ text) (b ∷ out)
