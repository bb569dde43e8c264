-- ===== src/Admin/Dashboard.antt =====
-- internal/admin/admin.go: the dashboard's handlers. A path is taken as cleaned, as `ServeMux`
-- redirects others.
pub mod Guard
pub mod Events
use shinel.Base.{
  ℕ, Bool, true, false, ◌||◌, List, [], ◌∷◌, ◌++◌, Option, none, some, ◌==◌, if◌then◌else◌,
}
use shinel.Base.Bytes.{Bytes, codes, bytes_eq}
use shinel.Admin.Access
use shinel.Admin.Access.{Credentials, Cookie, Answer, auth, login, logout}
use shinel.Admin.Logs
use shinel.Admin.Logs.{Channel, LogSink, subscribe}
use shinel.Admin.View.{Urls, View, public_config}
use shinel.Config.{Config}
use shinel.Proxy.Escape.{marshal_string}
use shinel.Stats
use shinel.Stats.{Store}

-- The patterns of `New`, and what `ServeMux` answers itself.
pub data Route : Type 0 where
  index login_page logout_page config_page stats_page logs_page : Route
  not_found method_not_allowed : Route

-- A pattern for GET takes HEAD too.
unfoldable pub is_get : Bytes → Bool
is_get m = bytes_eq m (codes "GET") || bytes_eq m (codes "HEAD")

unfoldable pub is_post : Bytes → Bool
is_post m = bytes_eq m (codes "POST")

unfoldable pub if_method : Bool → Route → Route
if_method allowed r = if allowed then r else method_not_allowed

unfoldable pub mux : Bytes → Bytes → Route
mux method path =
    if bytes_eq path (codes "/")
    then if_method (is_get method) index
    else if bytes_eq path (codes "/api/login")
    then if_method (is_post method) login_page
    else if bytes_eq path (codes "/api/logout")
    then if_method (is_post method) logout_page
    else if bytes_eq path (codes "/api/config")
    then if_method (is_get method) config_page
    else if bytes_eq path (codes "/api/stats")
    then if_method (is_get method) stats_page
    else if bytes_eq path (codes "/api/logs")
    then if_method (is_get method) logs_page
    else not_found

-- What `writeJSON` is given.
pub data Document : Type 0 where
  ok_status : Document
  configuration : View → Document
  statistics : Stats.Snapshot → Document

-- What the client gets: an error with its status, the page, a document with a cookie if one is set,
-- or events, of which more come while the client stays.
pub data Page : Type 0 where
  error : ℕ → Bytes → Page
  html : Bytes → Page
  json : Option Cookie → Document → Page
  events : Bytes → Page

-- A request as the handlers read it; `sent` is the password in its body, `none` where it does not
-- decode.
pub record AdminRequest : Type 0 where
  pub method : Bytes
  pub path : Bytes
  pub credentials : Credentials
  pub sent : Option Bytes

pub record Handler : Type 0 where
  pub cfg : Config
  pub stats : Store
  pub logs : LogSink
  pub pages : Option Bytes

unfoldable pub unauthorized : Page
unauthorized = error 401 (codes "unauthorized")

-- What `login` and `logout` answer, as a page.
unfoldable pub page_of : Answer → Page
page_of (Access.status_ok cookie) = json cookie ok_status
page_of Access.bad_request = error 400 (codes "bad request")
page_of Access.unauthorized = unauthorized

-- `index`.
unfoldable pub index_page : Option Bytes → Page
index_page none = error 500 (codes "ui missing")
index_page (some b) = html b

-- `writeSSE`.
unfoldable pub write_sse : Bytes → Bytes
write_sse line = codes "data: " ++ (marshal_string line ++ codes "\n\n")

unfoldable pub write_sse_all : List Bytes → Bytes
write_sse_all [] = []
write_sse_all (line ∷ lines) = write_sse line ++ write_sse_all lines

unfoldable pub snapshot_event : Bytes
snapshot_event = codes "event: snapshot\ndata: {}\n\n"

-- `streamLogs` in front of its loop: the events of the lines so far, and the sink with a channel.
-- `between` is what others do to the sink between `Snapshot` and `Subscribe`.
unfoldable pub stream_logs : Bool → (LogSink → LogSink) → LogSink → LogSink × Page
stream_logs false between logs = (logs, error 500 (codes "streaming unsupported"))
stream_logs true between logs =
    ((subscribe (between logs)).0, events (snapshot_event ++ write_sse_all (Logs.snapshot logs)))

-- The first line in a channel, and the channels without it.
unfoldable pub take_line : ℕ → List Channel → List Channel × Option Bytes
take_line id [] = ([], none)
take_line id (ch ∷ subs) =
    let (rest, line) = take_line id subs in
    if ch.id == id
    then elim ch.queue [
      | [] ↦ (ch ∷ subs, none)
      | first ∷ queue ↦ (record ch { queue = queue } ∷ subs, some first)
    ]
    else (ch ∷ rest, line)

-- One round of the loop of `streamLogs`, once a line is there: the sink and what is written.
unfoldable pub stream_next : ℕ → LogSink → LogSink × Bytes
stream_next id logs =
    let (subs, line) = take_line id logs.subs in
    (record logs { subs = subs }, elim line [ none ↦ [] | some l ↦ write_sse l ])

module _ (hash : Bytes → Bytes → Bytes) (urls : Urls) (flushes : Bool)
    (between : LogSink → LogSink) where
  -- The handler behind a route, and the log sink behind it.
  unfoldable pub serve : Handler → AdminRequest → Route → LogSink × Page
  serve h r index = (h.logs, index_page h.pages)
  serve h r login_page = (h.logs, page_of (login hash h.cfg.admin.token r.sent))
  serve h r logout_page = (h.logs, page_of logout)
  serve h r config_page =
      auth hash h.cfg.admin.token
        (λ _. (h.logs, json none (configuration (public_config urls h.cfg)))) (h.logs, unauthorized)
        r.credentials
  serve h r stats_page =
      auth hash h.cfg.admin.token (λ _. (h.logs, json none (statistics (Stats.snapshot h.stats))))
        (h.logs, unauthorized) r.credentials
  serve h r logs_page =
      auth hash h.cfg.admin.token (λ _. stream_logs flushes between h.logs) (h.logs, unauthorized)
        r.credentials
  serve h r not_found = (h.logs, error 404 (codes "404 page not found"))
  serve h r method_not_allowed = (h.logs, error 405 (codes "Method Not Allowed"))

  -- The mux that `New` returns.
  unfoldable pub serve_http : Handler → AdminRequest → LogSink × Page
  serve_http h r = serve h r (mux r.method r.path)
