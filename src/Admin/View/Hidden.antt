-- ===== src/Admin/View/Hidden.antt =====
-- What the dashboard of internal/admin/admin.go does not show.
use shinel.Base.{◌≡◌, Bool, true, List, [], ◌∷◌, Option, none, some, ◌⊎◌}
use shinel.Base.Bytes.{Bytes}
use shinel.Base.Maps.{Map}
use shinel.Base.Sort.{any}
use shinel.Config.{Config}
use shinel.Admin.View.{UserInfo, Url, Urls, secret_query_key}

-- Users that differ in their passwords alone, or in names that stand without a password.
pub data SameUser : Option UserInfo → Option UserInfo → Type 0 where
  nobody : SameUser none none
  other_password :
      (name p p' : Bytes)
      → SameUser
          (some (record { username = name; password = some p }))
          (some (record { username = name; password = some p' }))
  no_password :
      (name name' : Bytes)
      → SameUser
          (some (record { username = name; password = none }))
          (some (record { username = name'; password = none }))

module _ (urls : Urls) where
  -- Whether a query has a secret key.
  abbrev pub has_secret : Map (List Bytes) → Bool
  has_secret q = any (λ (e : Bytes × List Bytes). secret_query_key urls.to_lower e.0) q

  -- Queries that differ in the values of secret keys alone.
  pub data SameValues : Map (List Bytes) → Map (List Bytes) → Type 0 where
    none_left : SameValues [] []
    same :
        (k : Bytes) (vs : List Bytes) {q q' : Map (List Bytes)}
        → SameValues q q'
        → SameValues ((k, vs) ∷ q) ((k, vs) ∷ q')
    secret :
        (k : Bytes) (vs vs' : List Bytes) {q q' : Map (List Bytes)}
        → secret_query_key urls.to_lower k ≡ true
        → SameValues q q'
        → SameValues ((k, vs) ∷ q) ((k, vs') ∷ q')

  pub record SameUrl (raw raw' : Bytes) : Type 0 where
    pub url : Url
    pub url' : Url
    pub parses : urls.parse raw ≡ some url
    pub parses' : urls.parse raw' ≡ some url'
    pub users : SameUser url.user url'.user
    pub others : url.others ≡ url'.others
    pub queries :
        (url.raw_query ≡ url'.raw_query)
        ⊎ (SameValues (urls.query url.raw_query) (urls.query url'.raw_query)
            × (has_secret (urls.query url.raw_query) ≡ true))

  -- URLs that are the same text, or that net/url parses and that differ in secrets alone.
  abbrev pub Alike : Bytes → Bytes → Type 0
  Alike raw raw' = (raw ≡ raw') ⊎ SameUrl raw raw'

  pub data SameProviders : Map Bytes → Map Bytes → Type 0 where
    no_more : SameProviders [] []
    provider :
        (name raw raw' : Bytes) {m m' : Map Bytes}
        → Alike raw raw'
        → SameProviders m m'
        → SameProviders ((name, raw) ∷ m) ((name, raw') ∷ m')
