-- ===== src/Start/Guarded.antt =====
-- What holds of everything that cmd/shinel/main.go serves.
use shinel.Base.{
  ◌≡◌, ◌≢◌, refl, sym, subst, ◌⊎◌, inl, inr, true, [], ◌∷◌, Option, none, some, arith, Bool-cases,
  Option-cases,
}
use shinel.Base.Bytes.{Bytes}
use shinel.Base.Maps.{Map}
use shinel.Base.Sort.{All}
use shinel.Admin.Access.{Ensured, password, no_random, hex, bind_is_loopback, ensure_token}
use shinel.Admin.Access.Entry.{ensure_token-closed}
use shinel.Admin.Dashboard.{Handler}
use shinel.Config.{Config, Loaded, load, ok, err}
use shinel.Proxy.Gateway.{Made, origins, refused, new_origins}
use shinel.Proxy.Route.{Origin, parse_providers}
use shinel.Proxy.Route.Prefix.{IsUsable, parse_providers-IsUsable}
use shinel.Start.{
  Host, VaultKind, NewVault, made, bad_redis_url, unknown_type, Running, Started, exits, running,
  run_with, serve_admin, with_password, with_token, with_routes, with_vault, start, is_positive,
}

module _ (host : Host) where
  -- A dashboard that is not bound to loopback alone has a password.
  abbrev pub HasPassword : Handler → Type 0
  HasPassword h =
      (bind_is_loopback host.parse_ip h.cfg.admin.bind ≡ true) ⊎ (h.cfg.admin.token ≢ [])

  -- What holds of what runs.
  pub record IsReady (r : Running) : Type 0 where
    pub some_route : r.routes ≢ []
    pub usable : All (λ e. IsUsable e.1) r.routes
    pub guarded : (h : Handler) → r.dashboard ≡ some h → HasPassword h

  abbrev Ready : Started → Type 0
  Ready (exits why) = Unit
  Ready (running r) = IsReady r

  run_with-Ready :
      (cfg : Config) (vault : VaultKind) (routes : Map Origin) (dashboard : Option Handler)
      → routes ≢ []
      → All (λ e. IsUsable e.1) routes
      → ((h : Handler) → dashboard ≡ some h → HasPassword h)
      → Ready (run_with host cfg vault routes dashboard)
  unfolding run_with
  run_with-Ready cfg vault routes dashboard n u g = record {
    some_route = n;
    usable = u;
    guarded = g;
  }

  serve_admin-cfg : (cfg : Config) (h : Handler) → serve_admin host cfg ≡ some h → h.cfg ≡ cfg
  unfolding serve_admin
  serve_admin-cfg cfg h e = ground arith

  module _ (some_random : (r : Bytes) → host.random ≡ hex r → r ≢ []) where
    with_token-Ready :
        (cfg : Config) (vault : VaultKind) (routes : Map Origin) (ensured : Ensured)
        → ensure_token host.parse_ip host.random cfg.admin.bind cfg.admin.token ≡ ensured
        → routes ≢ []
        → All (λ e. IsUsable e.1) routes
        → Ready (with_token host cfg vault routes ensured)
    unfolding with_token
    with_token-Ready cfg vault routes (no_random why) e n u = tt
    with_token-Ready cfg vault routes (password tok new) e n u =
        run_with-Ready (with_password host cfg tok) vault routes _ n u (λ h f.
          subst (λ c. (bind_is_loopback host.parse_ip c.admin.bind ≡ true) ⊎ (c.admin.token ≢ []))
            (sym (serve_admin-cfg (with_password host cfg tok) h f))
            (ensure_token-closed host.parse_ip host.random cfg.admin.bind cfg.admin.token tok new
              some_random e))

    with_routes-Ready :
        (cfg : Config) (vault : VaultKind) (routes : Map Origin)
        → routes ≢ []
        → All (λ e. IsUsable e.1) routes
        → Ready (with_routes host cfg vault routes)
    unfolding with_routes
    with_routes-Ready cfg vault routes n u = elim (Bool-cases (is_positive cfg.admin.port)) [
      | inl y ↦ rw y (with_token-Ready cfg vault routes _ refl n u)
      | inr z ↦ rw z (run_with-Ready cfg vault routes none n u (λ h f. absurd (ground (arith, f))))
    ]

    new_origins-IsUsable :
        (cfg : Config) (routes : Map Origin)
        → new_origins host.parse_url cfg ≡ origins routes
        → (routes ≢ []) × All (λ e. IsUsable e.1) routes
    unfolding new_origins
    new_origins-IsUsable cfg routes e =
        elim (Option-cases (parse_providers host.parse_url cfg.providers)) [
          | inl f ↦ absurd (ground arith)
          | inr ([], f) ↦ absurd (ground arith)
          | inr (o ∷ os, f) ↦
              let same : routes ≡ o ∷ os = ground arith in
              (
                λ z. ground (arith, same, z),
                subst (All (λ e. IsUsable e.1)) (sym same)
                    (parse_providers-IsUsable host.parse_url cfg.providers f).1,
              )
        ]

    with_made-Ready :
        (cfg : Config) (vault : VaultKind) (m : Made)
        → new_origins host.parse_url cfg ≡ m
        → Ready (with_vault host cfg (made vault))
    unfolding with_vault
    with_made-Ready cfg vault (refused why) e = rw (with_vault, e) tt
    with_made-Ready cfg vault (origins routes) e =
        let (n, u) = new_origins-IsUsable cfg routes e in
        rw (with_vault, e) (with_routes-Ready cfg vault routes n u)

    with_vault-Ready : (cfg : Config) (v : NewVault) → Ready (with_vault host cfg v)
    unfolding with_vault
    with_vault-Ready cfg bad_redis_url = tt
    with_vault-Ready cfg unknown_type = tt
    with_vault-Ready cfg (made vault) = with_made-Ready cfg vault _ refl

    start-loaded :
        (l : Loaded) → load host.unmarshal host.leftover host.env host.file ≡ l → Ready (start host)
    unfolding start
    start-loaded (err why) e = rw (start, e) tt
    start-loaded (ok cfg) e = rw (start, e) (with_vault-Ready cfg _)

    -- What `main` runs has origins to route to, each with a scheme and a host, and a dashboard that
    -- is not bound to loopback alone has a password, if the random bytes are not none.
    pub start-IsReady : (r : Running) → start host ≡ running r → IsReady r
    start-IsReady r e = subst Ready e (start-loaded _ refl)
