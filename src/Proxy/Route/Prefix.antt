-- ===== src/Proxy/Route/Prefix.antt =====
-- What internal/proxy/proxy.go makes of a path.
use shinel.Base.{
  ℕ, true, not, [], ◌∷◌, ◌++◌, ◌≡◌, ◌≢◌, inl, inr, refl, ap, Option, none, some, ◌==◌, arith, map,
  Option-cases,
}
use shinel.Base.Bytes.{Bytes, codes}
use shinel.Base.Maps.{Map, lookup}
use shinel.Base.Sort.{All}
use shinel.Proxy.Route.{
  Origin, trim_slash, cut_slash, segment_of, split_prefix, route, parse_origin, parse_providers,
}

abbrev pub SlashFree : Bytes → Type 0
SlashFree s = All (λ b. not (b == b'/') ≡ true) s

-- A path of the form /provider/rest, or /provider alone.
cut_slash-append :
    (seg rest : Bytes) → SlashFree seg → cut_slash (seg ++ b'/' ∷ rest) ≡ (seg, b'/' ∷ rest)
unfolding cut_slash
cut_slash-append [] rest h = refl
cut_slash-append (b ∷ seg) rest (hb, h) = ground (arith, cut_slash-append seg rest h)

cut_slash-SlashFree : (seg : Bytes) → SlashFree seg → cut_slash seg ≡ (seg, [])
unfolding cut_slash
cut_slash-SlashFree [] h = refl
cut_slash-SlashFree (b ∷ seg) (hb, h) = ground (arith, cut_slash-SlashFree seg h)

-- `/seg/rest` gives the provider `seg` the path `/rest`.
split_prefix-segment :
    (c : ℕ) (seg rest : Bytes)
    → SlashFree (c ∷ seg)
    → split_prefix (b'/' ∷ c ∷ seg ++ b'/' ∷ rest) ≡ some (c ∷ seg, b'/' ∷ rest)
unfolding split_prefix trim_slash
split_prefix-segment c seg rest h =
    ap (λ r. some (segment_of (c ∷ seg ++ b'/' ∷ rest) r)) (cut_slash-append (c ∷ seg) rest h)

split_prefix-alone :
    (c : ℕ) (seg : Bytes)
    → SlashFree (c ∷ seg)
    → split_prefix (b'/' ∷ c ∷ seg) ≡ some (c ∷ seg, codes "/")
unfolding split_prefix trim_slash
split_prefix-alone c seg h =
    ap (λ r. some (segment_of (c ∷ seg) r)) (cut_slash-SlashFree (c ∷ seg) h)

-- A path below a provider goes to the origin of that provider with the provider's segment taken
-- off, `/` if nothing is left, and a path below no provider goes nowhere.
pub route-segment :
    (c : ℕ) (seg rest : Bytes) (providers : Map Origin)
    → SlashFree (c ∷ seg)
    → (route (b'/' ∷ c ∷ seg ++ b'/' ∷ rest) providers ≡ elim (lookup (c ∷ seg) providers) [
      | none ↦ none
      | some u ↦ some (record { name = c ∷ seg; origin = u; rest = b'/' ∷ rest })
    ])
      × (route (b'/' ∷ c ∷ seg) providers ≡ elim (lookup (c ∷ seg) providers) [
        | none ↦ none
        | some u ↦ some (record { name = c ∷ seg; origin = u; rest = codes "/" })
      ])
unfolding route
route-segment c seg rest providers h =
    (rw (route, split_prefix-segment c seg rest h), rw (route, split_prefix-alone c seg h))

parse_origin-parts :
    (parse_url : Bytes → Option Origin) (raw : Bytes) {u : Origin}
    → parse_origin parse_url raw ≡ some u
    → (parse_url raw ≡ some u) × (u.scheme ≢ []) × (u.host ≢ [])
unfolding parse_origin
parse_origin-parts parse_url raw e = ground arith

-- Whether an origin can be asked.
abbrev pub IsUsable : Origin → Type 0
IsUsable u = (u.scheme ≢ []) × (u.host ≢ [])

-- Providers that are accepted keep their names, and each has a scheme and a host.
pub parse_providers-IsUsable :
    (parse_url : Bytes → Option Origin) (m : Map Bytes) {out : Map Origin}
    → parse_providers parse_url m ≡ some out
    → (map (λ e. e.0) out ≡ map (λ e. e.0) m) × All (λ e. IsUsable e.1) out
unfolding parse_providers
parse_providers-IsUsable parse_url [] {out} e =
    let none_left : out ≡ [] = ground arith in rw none_left (refl, tt)
parse_providers-IsUsable parse_url ((name, raw) ∷ m) {out} e =
    elim (Option-cases (parse_origin parse_url raw)) [
      | inl f ↦ absurd (ground arith)
      | inr (u, f) ↦ elim (Option-cases (parse_providers parse_url m)) [
        | inl g ↦ absurd (ground arith)
        | inr (rest, g) ↦
            let (names, usable) = parse_providers-IsUsable parse_url m g in
            let (_, scheme, host) = parse_origin-parts parse_url raw f in
            let same : out ≡ (name, u) ∷ rest = ground arith in
            rw same (ap (λ l. name ∷ l) names, ((scheme, host), usable))
      ]
    ]
