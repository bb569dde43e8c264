-- ===== src/Admin/Dashboard/Guard.antt =====
-- Who gets what from the dashboard of internal/admin/admin.go.
use shinel.Base.{◌≡◌, ◌≢◌, refl, sym, ap, ◌∙◌, Bool, false, [], Bool-cases, inl, inr}
use shinel.Base.Bytes.{Bytes}
use shinel.Admin.Access.{Credentials, authorized, auth, login}
use shinel.Admin.Logs.{LogSink}
use shinel.Admin.Access.Entry.{Shows, authorized-Shows}
use shinel.Admin.Dashboard.{
  Route, index, login_page, logout_page, config_page, stats_page, logs_page, not_found,
  method_not_allowed, Page, AdminRequest, Handler, unauthorized, page_of, index_page, serve, mux,
  serve_http,
}
use shinel.Admin.View.{Urls}

module _ (hash : Bytes → Bytes → Bytes) (urls : Urls) (flushes : Bool)
    (between : LogSink → LogSink) where
  -- What two dashboards have in common for somebody without credentials.
  abbrev pub Alike : LogSink × Page → LogSink × Page → LogSink → LogSink → Type 0
  Alike x y logs logs' = (x.1 ≡ y.1) × (x.0 ≡ logs) × (y.0 ≡ logs')

  auth-Alike :
      {token token' : Bytes} (next next' : Credentials → LogSink × Page) (logs logs' : LogSink)
      (r : Credentials)
      → authorized hash r token ≡ false
      → token' ≡ token
      → Alike
          (auth hash token next (logs, unauthorized) r)
          (auth hash token' next' (logs', unauthorized) r)
          logs
          logs'
  unfolding auth
  auth-Alike next next' logs logs' r e t =
      let f = ap (authorized hash r) t ∙ e in rw (e, f) (refl, refl, refl)

  serve-Alike :
      (h h' : Handler) (r : AdminRequest) (route : Route)
      → authorized hash r.credentials h.cfg.admin.token ≡ false
      → h'.cfg.admin.token ≡ h.cfg.admin.token
      → h'.pages ≡ h.pages
      → Alike
          (serve hash urls flushes between h r route)
          (serve hash urls flushes between h' r route)
          h.logs
          h'.logs
  unfolding serve
  serve-Alike h h' r index e t p = (ap index_page (sym p), refl, refl)
  serve-Alike h h' r login_page e t p =
      (ap (λ k. page_of (login hash k r.sent)) (sym t), refl, refl)
  serve-Alike h h' r logout_page e t p = (refl, refl, refl)
  serve-Alike h h' r config_page e t p = auth-Alike _ _ h.logs h'.logs r.credentials e t
  serve-Alike h h' r stats_page e t p = auth-Alike _ _ h.logs h'.logs r.credentials e t
  serve-Alike h h' r logs_page e t p = auth-Alike _ _ h.logs h'.logs r.credentials e t
  serve-Alike h h' r not_found e t p = (refl, refl, refl)
  serve-Alike h h' r method_not_allowed e t p = (refl, refl, refl)

  -- Where a password is set, two dashboards with the same password and the same page answer a
  -- request alike that has neither the session cookie nor the basic authentication for it, whatever
  -- their configurations, statistics and logs are: such a request learns nothing of them, and opens
  -- no channel of the log.
  pub serve_http-Alike :
      (h h' : Handler) (r : AdminRequest)
      → h.cfg.admin.token ≢ []
      → ¬ (Shows hash h.cfg.admin.token r.credentials)
      → h'.cfg.admin.token ≡ h.cfg.admin.token
      → h'.pages ≡ h.pages
      → Alike
          (serve_http hash urls flushes between h r)
          (serve_http hash urls flushes between h' r)
          h.logs
          h'.logs
  unfolding serve_http
  serve_http-Alike h h' r set hidden t p =
      elim (Bool-cases (authorized hash r.credentials h.cfg.admin.token)) [
        | inl y ↦ absurd (hidden ((authorized-Shows hash r.credentials _ set).0 y))
        | inr n ↦ serve-Alike h h' r (mux r.method r.path) n t p
      ]
