-- ===== src/Vault/Keys.antt =====
-- Keys of internal/vault/vault.go: requests do not see one another's tokens.
use shinel.Base.{true, not, ◌≡◌, refl, ◌==◌}
use shinel.Base.Bytes.{Bytes}
use shinel.Base.Sort.{All}
use shinel.Base.Split.{split_unique}
use shinel.Vault.{key}

-- A request's name, such as a UUID, holds no colon.
abbrev pub ColonFree : Bytes → Type 0
ColonFree s = All (λ b. not (b == b':') ≡ true) s

-- Two entries have one key only if they are for one request and one token.
pub key-injective :
    (r r' t t' : Bytes) → ColonFree r → ColonFree r' → key r t ≡ key r' t' → (r ≡ r') × (t ≡ t')
unfolding key
key-injective r r' t t' h h' e = split_unique (λ b. not (b == b':')) b':' r r' t t' refl h h' e
