-- ===== src/Lib.antt =====
-- Shinel is a reverse proxy between a client and the API of a language model. On the way out it
-- masks sensitive values in the body of a request with tokens such as [EMAIL_1] and files the
-- mapping from tokens to values in a vault; on the way back it finds the tokens in the response
-- and puts the values in their place.
--
-- Text is `Bytes`, a list of natural numbers below 256 where the code relies on that; positions and
-- counters are the native ℕ. A Go map is an association list that `insert` keeps free of double
-- keys (Base/Maps); where the code ranges over a map, the order is the order of that list. State
-- is passed on explicitly; an error is a value of a result type; a nil pointer, a missing key and
-- an error that may be nil are options. A mutex makes a call one step, so the calls of all
-- goroutines are one list of steps.
--
-- The parts, with their files here and in the repository:
--
-- * internal/analyzer. Analyzer/Span and Analyzer/Conflict are the spans of detected values and
--   `resolveConflicts` of conflict.go, with the index of overlaps and its binary search;
--   Analyzer/Collect is `New`, `collect` and `anonymizeText` of analyzer.go over all the
--   detectors, Analyzer/Custom its search for the words of the dictionary, Analyzer/MlClient is
--   mlclient.go; Analyzer/Session is `tokenFor` with the maps of a session; Analyzer/Sweep is
--   `sortSpans` and the loop of `anonymizeText`; Analyzer/Json is the walk of json.go over a JSON
--   tree, Analyzer/Json/Masked what it may leave of one, and Analyzer/Json/Parse what json.go asks of the decoder and the encoder;
--   Analyzer/Json/Encode is the encoder of encoding/json with the settings of `marshalJSON`, and
--   the grammar of JSON text, Analyzer/Json/Lines what `marshalJSON` makes of that encoder's
--   text, and Analyzer/Json/Decode a reader of such text for a client, which the code does not
--   have; Analyzer/Luhn is luhn.go; Analyzer/Patterns has the regular expressions of analyzer.go
--   and secrets.go, Analyzer/Secrets what secrets.go does with their matches, Analyzer/Dictionary
--   the dictionary of custom words that `New` builds, and Analyzer/Guesses what conflict.go does
--   with the entities of the ML engine.
-- * internal/proxy. Proxy/Token is `classify` of streaming.go with the grammar of tokens,
--   Proxy/Escape its `jsonEscape`, and Proxy/Stream its `StreamingResponseWriter`: `write`, `close`
--   and `flush` are the methods, `feed_on` one round of the loop of `Write`. Proxy/Demask is
--   `demask` and `bufferSink` of demask.go, Proxy/Reader its `demaskReader`. Of proxy.go,
--   Proxy/Route is `route` with the providers, Proxy/Request `maskRequest`, Proxy/Response
--   `restoreResponse`, Proxy/Body the limits on a body that those two share, Proxy/Status
--   `statusWriter`, and Proxy/Gateway `New` with the director, the handlers and the request log.
--   Proxy/Escape/Reader is a reader of JSON strings, which the code does not have, for what
--   `jsonEscape` writes, and Proxy/Escape/Plain the strings as that encoder writes them.
-- * internal/vault. Vault has the interface as a record of operations over a state, which
--   the proxy's models take as an argument; Vault/Memory and Vault/Redis are the two vaults, and
--   Vault/Spec is the abstract store that both are held to, with the interface `Backed` that they
--   fill for it.
-- * internal/stats/stats.go is Stats; internal/admin/logs.go is Admin/Logs, internal/admin/admin.go
--   Admin/Access (who may see the dashboard), Admin/View (what it shows of the settings) and
--   Admin/Dashboard (the mux and the handlers); internal/config/config.go is Config, and
--   cmd/shinel/main.go is Start.
-- * RoundTrip puts the analyzer and the proxy together, for any vault that serves a mapping, with
--   RoundTrip/Strings and RoundTrip/Documents for the strings and the values of a JSON text;
--   EndToEnd puts the memory vault between them, EndToEnd/Exchange the whole handler around,
--   EndToEnd/Streaming has the response as a stream of events, and EndToEnd/Documents a body in
--   JSON.
-- * Base has the types and lemmas that the parts share; Tests runs the models on concrete inputs.
--
-- What comes from outside the repository is an argument: the vault that a writer asks, the writer
-- below it, the cache of go-cache and the client of go-redis, `url.Parse` and
-- `mime.ParseMediaType`, the package yaml, the hash of a session cookie, the random bytes of a
-- new password, the hits of ahocorasick, the exchange with the ML engine, the upstream. Laws are
-- asked of the cache (Vault/Memory), of the Redis server (Vault/Redis/Keeps), and of the hits of
-- ahocorasick and the length of random bytes where a theorem says so, as their documentation has
-- them. `json.Marshal` of a string, the encoder of a JSON tree, `utf8.DecodeRune`,
-- `strconv.Itoa`, `sort.Slice`, `sort.Search` and the package regexp are of the standard library,
-- and modelled: Regexp has expressions as trees and the search for the leftmost match by
-- backtracking, in the order of preference that the package documents, and Regexp/Exhausts what
-- `FindAll` finds.
--
-- Bounds and fuel: the recursion of each loop is structural, over the bytes, the spans, the list
-- of calls or the upstream's results, but for `sort.Search`, whose fuel is the length of what it
-- searches, for the search for one word of the dictionary, whose fuel is one more than the length
-- of the text and is proved enough, and for the client's loop of Proxy/Reader/Total, whose fuel
-- the theorem bounds. The fuel of the reader of JSON is the length of the text, which is proved
-- enough. The fuel of Regexp is what is left of the text, and is proved enough for expressions
-- that repeat nothing empty, which those of the code are. The sizes of bodies, counters and
-- tallies stay below 2 ^ 63 in any run, so that Go's int does not wrap there; the product of
-- `Timeout` wraps at 64 bits in the model too.
--
-- Not modelled: the package ahocorasick, whose answers the models take; httputil.ReverseProxy,
-- which Proxy/Gateway takes to pass a request, a response and the statuses 1xx in front of it on
-- as they are, and to panic where a body breaks off while it is copied; its switch of protocols;
-- the debug log, the headers and the encoding of the dashboard's documents; the servers of
-- net/http; the ML engine in Python. Cancellation of a context is the value of `ctx.Err()`, which
-- is given to the vault.
pub mod Admin
pub mod Analyzer
pub mod Base
pub mod Config
pub mod EndToEnd
pub mod Proxy
pub mod Regexp
pub mod RoundTrip
pub mod Start
pub mod Stats
pub mod Tests
pub mod Vault
