-- ===== src/Stats/History.antt =====
-- What a snapshot of internal/stats/stats.go says of the requests so far.
use shinel.Base.{ℕ, ◌+◌, ◌≡◌, refl, List, [], ◌∷◌, arith, length, some, Option}
use shinel.Base.Bytes.{Bytes}
use shinel.Base.Int.{ℤ, positive_or, positive_or-pos}
use shinel.Base.Maps.{Map}
use shinel.Base.Ring.{last_of, push_all, push_all-nil}
use shinel.Stats.{
  Event, Store, default_recent, new_store, event_of, record_event, record_request, snapshot,
}

-- One request, as the proxy reports it.
pub record Call : Type 0 where
  pub now : ℕ
  pub method : Bytes
  pub path : Bytes
  pub mapping : Map Bytes

abbrev pub event : Call → Event
event c = event_of c.now c.method c.path c.mapping

abbrev pub events : List Call → List Event
events [] = []
events (c ∷ cs) = event c ∷ events cs

-- How many values the requests masked together.
abbrev pub masked_in : List Call → ℕ
masked_in [] = 0
masked_in (c ∷ cs) = length c.mapping + masked_in cs

abbrev pub record_all : Option Store → List Call → Option Store
record_all s [] = s
record_all s (c ∷ cs) = record_all (record_request s c.now c.method c.path c.mapping) cs

event_of-masked :
    (now : ℕ) (method path : Bytes) (m : Map Bytes) → (event_of now method path m).masked ≡ length m
unfolding event_of
event_of-masked now method path [] = refl
event_of-masked now method path (e ∷ m) = refl

record_all_from :
    (cs : List Call) (s : Store)
    → record_all (some s) cs
      ≡ some (record {
        requests = s.requests + length cs;
        masked = s.masked + masked_in cs;
        recent = push_all s.cap s.recent (events cs);
        cap = s.cap;
      })
unfolding record_request record_event
record_all_from [] s = ground arith
record_all_from (c ∷ cs) s = ground (
  arith,
  record_all_from cs (record_event s (event c)),
  event_of-masked c.now c.method c.path c.mapping,
)

-- What the store of `New` shows behind any requests: how many there were, how many values they
-- masked, and the last of them, as many as fit, oldest first.
pub snapshot-record_all :
    (recent : ℤ) (cs : List Call)
    → (s : Store) × (record_all (some (new_store recent)) cs ≡ some s)
      × (snapshot s ≡ record {
        requests = length cs;
        masked = masked_in cs;
        recent = last_of (positive_or default_recent recent) (events cs);
      })
unfolding snapshot new_store
snapshot-record_all recent cs =
    let cap = positive_or default_recent recent in
    (
      record {
        requests = 0 + length cs;
        masked = 0 + masked_in cs;
        recent = push_all cap [] (events cs);
        cap = cap;
      },
      record_all_from cs (new_store recent),
      ground (arith, push_all-nil cap (events cs), positive_or-pos default_recent recent),
    )
