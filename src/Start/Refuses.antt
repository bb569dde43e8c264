-- ===== src/Start/Refuses.antt =====
-- The dashboard of internal/admin/admin.go as cmd/shinel/main.go serves it.
use shinel.Base.{◌≡◌, ◌≢◌, refl, ◌⊎◌, inl, inr, Bool, false, [], some, arith, Bool-cases}
use shinel.Base.Bytes.{Bytes}
use shinel.Admin.Access.{Credentials, hex, authorized, auth, bind_is_loopback}
use shinel.Admin.Access.Entry.{Shows, authorized-Shows}
use shinel.Admin.Dashboard.{
  Route, config_page, stats_page, logs_page, AdminRequest, Handler, unauthorized, serve, mux,
  serve_http,
}
use shinel.Admin.Logs.{LogSink}
use shinel.Admin.View.{Urls}
use shinel.Start.{Host, Running, running, start}
use shinel.Start.Guarded.{start-IsReady}

-- The routes that show the configuration, the statistics and the logs.
abbrev pub IsPrivate : Route → Type 0
IsPrivate r = (r ≡ config_page) ⊎ ((r ≡ stats_page) ⊎ (r ≡ logs_page))

module _ (hash : Bytes → Bytes → Bytes) (urls : Urls) (flushes : Bool)
    (between : LogSink → LogSink) where
  not_authorized :
      (r : Credentials) (t : Bytes) → t ≢ [] → ¬ (Shows hash t r) → authorized hash r t ≡ false
  not_authorized r t set hidden = elim (Bool-cases (authorized hash r t)) [
    | inl y ↦ absurd (hidden ((authorized-Shows hash r t set).0 y))
    | inr n ↦ n
  ]

  serve-unauthorized :
      (h : Handler) (q : AdminRequest) (route : Route)
      → IsPrivate route
      → authorized hash q.credentials h.cfg.admin.token ≡ false
      → serve hash urls flushes between h q route ≡ (h.logs, unauthorized)
  unfolding serve auth
  serve-unauthorized h q route (inl e) n = rw (e, n) refl
  serve-unauthorized h q route (inr (inl e)) n = rw (e, n) refl
  serve-unauthorized h q route (inr (inr e)) n = rw (e, n) refl

  -- What `main` serves as a dashboard that is not bound to loopback alone answers every request for
  -- the configuration, the statistics or the logs with 401 and opens no channel of the log, unless
  -- the request has the session cookie of its password or basic authentication as admin with it; if
  -- the random bytes that a missing password is made of are not none.
  pub start-unauthorized :
      (host : Host) (r : Running) (h : Handler) (q : AdminRequest)
      → ((b : Bytes) → host.random ≡ hex b → b ≢ [])
      → start host ≡ running r
      → r.dashboard ≡ some h
      → bind_is_loopback host.parse_ip h.cfg.admin.bind ≡ false
      → IsPrivate (mux q.method q.path)
      → ¬ (Shows hash h.cfg.admin.token q.credentials)
      → serve_http hash urls flushes between h q ≡ (h.logs, unauthorized)
  unfolding serve_http
  start-unauthorized host r h q some_random started served open_bind private hidden =
      elim ((start-IsReady host some_random r started).guarded h served) [
        | inl loopback ↦ absurd (ground (arith, loopback, open_bind))
        | inr set ↦
            serve-unauthorized h q (mux q.method q.path) private
              (not_authorized q.credentials h.cfg.admin.token set hidden)
      ]
