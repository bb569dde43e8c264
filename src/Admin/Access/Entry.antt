-- ===== src/Admin/Access/Entry.antt =====
-- Who gets past the guard of internal/admin/admin.go.
use shinel.Base.{
  ◌≡◌, ◌≢◌, ◌⊎◌, inl, inr, refl, ap, Bool, true, [], ◌∷◌, Option, none, some, arith, Bool-cases,
  ◌↔◌,
}
use shinel.Base.Bytes.{Bytes, codes, bytes_eq, bytes_eq_iff}
use shinel.Admin.Access.{
  Credentials, Cookie, status_ok, bind_is_loopback, password, Random, hex, rand_error, generated,
  ensure_token, cookie_value, cookie_fits, basic_fits, authorized, set_session, login,
}

module _ (hash : Bytes → Bytes → Bytes) where
  -- What a request shows to get in where a password is set.
  abbrev pub Shows : Bytes → Credentials → Type 0
  Shows t r = (r.cookie ≡ some (cookie_value hash t)) ⊎ (r.basic ≡ some (codes "admin", t))

  cookie_fits_iff :
      (t : Bytes) (c : Option Bytes)
      → cookie_fits hash t c ≡ true ↔ (c ≡ some (cookie_value hash t))
  unfolding cookie_fits
  cookie_fits_iff t none = ground arith
  cookie_fits_iff t (some v) = ground (arith, bytes_eq_iff v (cookie_value hash t))

  basic_fits_iff :
      (t : Bytes) (b : Option (Bytes × Bytes))
      → basic_fits hash t b ≡ true ↔ (b ≡ some (codes "admin", t))
  unfolding basic_fits
  basic_fits_iff t none = ground arith
  basic_fits_iff t (some (user, pass)) =
      ground (arith, bytes_eq_iff user (codes "admin"), bytes_eq_iff pass t)

  -- Where a password is set, a request is let in if and only if it has the session cookie of that
  -- password or basic authentication as admin with it.
  pub authorized-Shows :
      (r : Credentials) (t : Bytes) → t ≢ [] → authorized hash r t ≡ true ↔ Shows t r
  unfolding authorized
  authorized-Shows r [] h = absurd (h refl)
  authorized-Shows r (c ∷ cs) h =
      let (cookie_in, cookie_out) = cookie_fits_iff (c ∷ cs) r.cookie in
      let (basic_in, basic_out) = basic_fits_iff (c ∷ cs) r.basic in
      (
        λ e. elim (Bool-cases (cookie_fits hash (c ∷ cs) r.cookie)) [
          | inl y ↦ inl (cookie_in y)
          | inr n ↦ inr (basic_in (ground (arith, e, n)))
        ],
        λ s. elim s [ inl k ↦ rw (cookie_out k) refl | inr b ↦ ground (arith, basic_out b) ],
      )

  -- A login that sets a cookie was given the password, and the cookie lets the next request in.
  pub login-authorized :
      (t : Bytes) (sent : Option Bytes) (cookie : Cookie) (basic : Option (Bytes × Bytes))
      → login hash t sent ≡ status_ok (some cookie)
      → (sent ≡ some t)
        × (authorized hash (record { cookie = some cookie.value; basic = basic }) t ≡ true)
  unfolding login set_session authorized cookie_fits
  login-authorized [] sent cookie basic e = absurd (ground arith)
  login-authorized (c ∷ cs) none cookie basic e = absurd (ground arith)
  login-authorized (c ∷ cs) (some given) cookie basic e =
      elim (Bool-cases (bytes_eq given (c ∷ cs))) [
        | inl y ↦
            let set : cookie ≡ set_session hash (c ∷ cs) = ground arith in
            let fits : bytes_eq cookie.value (cookie_value hash (c ∷ cs)) ≡ true =
              (bytes_eq_iff _ _).1 (ap (λ k. k.value) set) in
            (ap some ((bytes_eq_iff given (c ∷ cs)).0 y), rw fits)
        | inr n ↦ absurd (ground arith)
      ]

-- A dashboard that is not bound to loopback alone never goes without a password, if the random
-- bytes are not none.
pub ensure_token-closed :
    (parse_ip : Bytes → Option Bool) (random : Random) (bind given t : Bytes) (new : Bool)
    → ((r : Bytes) → random ≡ hex r → r ≢ [])
    → ensure_token parse_ip random bind given ≡ password t new
    → (bind_is_loopback parse_ip bind ≡ true) ⊎ (t ≢ [])
unfolding ensure_token generated
ensure_token-closed parse_ip random bind (c ∷ cs) t new h e = inr (λ n. ground (arith, e, n))
ensure_token-closed parse_ip (hex r) bind [] t new h e =
    elim (Bool-cases (bind_is_loopback parse_ip bind)) [
      | inl y ↦ inl y
      | inr n ↦ inr (λ m. ground (arith, e, n, m, h r refl))
    ]
ensure_token-closed parse_ip (rand_error why) bind [] t new h e =
    elim (Bool-cases (bind_is_loopback parse_ip bind)) [
      | inl y ↦ inl y
      | inr n ↦ absurd (ground (arith, e, n))
    ]
