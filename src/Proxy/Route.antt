-- ===== src/Proxy/Route.antt =====
-- internal/proxy/proxy.go: `splitPrefix` and `route`. An origin is the scheme and the host of a
-- parsed URL, which net/url gives.
pub mod Prefix
use shinel.Base.{ℕ, Bool, true, false, [], ◌∷◌, Option, none, some, ◌==◌, if◌then◌else◌}
use shinel.Base.Bytes.{Bytes, codes}
use shinel.Base.Maps.{Map, lookup}

pub record Origin : Type 0 where
  pub scheme : Bytes
  pub host : Bytes

-- `strings.TrimPrefix(path, "/")`.
unfoldable pub trim_slash : Bytes → Bytes
trim_slash [] = []
trim_slash (b ∷ p) = if b == b'/' then p else b ∷ p

-- `p[:i]` and `p[i:]` at `i := strings.IndexByte(p, '/')`; without a slash all of `p` and nothing.
unfoldable pub cut_slash : Bytes → Bytes × Bytes
cut_slash [] = ([], [])
cut_slash (b ∷ p) =
    let (first, rest) = cut_slash p in if b == b'/' then ([], b ∷ p) else (b ∷ first, rest)

-- The segment `p[:i]` and the rest `p[i:]`, which is `/` where there is none.
pub segment_of : Bytes → Bytes × Bytes → Bytes × Bytes
segment_of p (first, []) = (p, codes "/")
segment_of p (first, c ∷ rest) = (first, c ∷ rest)

-- The first segment and the rest, if the path has a segment.
unfoldable pub split_prefix : Bytes → Option (Bytes × Bytes)
unfolding segment_of
split_prefix path = elim (trim_slash path) [
  | [] ↦ none
  | b ∷ p ↦ some (segment_of (b ∷ p) (cut_slash (b ∷ p)))
]

-- The provider, its origin and the path to ask it for.
pub record Target : Type 0 where
  pub name : Bytes
  pub origin : Origin
  pub rest : Bytes

unfoldable pub route : Bytes → Map Origin → Option Target
route path providers = elim (split_prefix path) [
  | none ↦ none
  | some (first, rest) ↦ elim (lookup first providers) [
    | none ↦ none
    | some u ↦ some (record { name = first; origin = u; rest = rest })
  ]
]

-- `parseOrigin`; the argument is `url.Parse`, `none` where it fails.
unfoldable pub parse_origin : (Bytes → Option Origin) → Bytes → Option Origin
parse_origin parse_url raw = elim (parse_url raw) [
  | none ↦ none
  | some u ↦ elim u.scheme [ [] ↦ none | _ ↦ elim u.host [ [] ↦ none | _ ↦ some u ] ]
]

-- `parseProviders`.
unfoldable pub parse_providers : (Bytes → Option Origin) → Map Bytes → Option (Map Origin)
parse_providers parse_url [] = some []
parse_providers parse_url ((name, raw) ∷ m) = elim (parse_origin parse_url raw) [
  | none ↦ none
  | some u ↦ elim (parse_providers parse_url m) [ none ↦ none | some out ↦ some ((name, u) ∷ out) ]
]
