-- ===== src/Stats.antt =====
-- internal/stats/stats.go: the tally of proxied requests. A time is a number; the clock is an
-- argument. The mutex makes each call one step, so the calls of all goroutines are a list.
pub mod History
use shinel.Base.{
  ℕ, ◌+◌, Bool, true, false, List, [], ◌∷◌, Option, none, some, ltb, ◌==◌, if◌then◌else◌, length,
  is_empty,
}
use shinel.Base.Bytes.{Bytes}
use shinel.Base.Int.{ℤ, positive_or}
use shinel.Base.Maps.{Map}
use shinel.Base.Ring.{push}
use shinel.Base.Sort.{sort_by}

abbrev pub default_recent : ℕ
default_recent = 100

pub record Pair : Type 0 where
  pub value : Bytes
  pub token : Bytes

pub record Event : Type 0 where
  pub time : ℕ
  pub method : Bytes
  pub path : Bytes
  pub masked : ℕ
  pub mapping : List Pair

pub record Snapshot : Type 0 where
  pub requests : ℕ
  pub masked : ℕ
  pub recent : List Event

pub record Store : Type 0 where
  pub requests : ℕ
  pub masked : ℕ
  pub recent : List Event
  pub cap : ℕ

-- `New`.
unfoldable pub new_store : ℤ → Store
new_store recent = record {
  requests = 0;
  masked = 0;
  recent = [];
  cap = positive_or default_recent recent;
}

-- `<` on Go strings.
unfoldable pub bytes_less : Bytes → Bytes → Bool
bytes_less [] [] = false
bytes_less [] (y ∷ ys) = true
bytes_less (x ∷ xs) [] = false
bytes_less (x ∷ xs) (y ∷ ys) = if ltb x y then true else if ltb y x then false else bytes_less xs ys

abbrev pub pair_less : Pair → Pair → Bool
pair_less a b = bytes_less a.token b.token

unfoldable pub pairs_of : Map Bytes → List Pair
pairs_of [] = []
pairs_of ((t, v) ∷ m) = record { value = v; token = t } ∷ pairs_of m

-- The event of one request; an empty mapping leaves `Mapping` nil.
unfoldable pub event_of : ℕ → Bytes → Bytes → Map Bytes → Event
event_of now method path [] = record {
  time = now;
  method = method;
  path = path;
  masked = 0;
  mapping = [];
}
event_of now method path (e ∷ m) = record {
  time = now;
  method = method;
  path = path;
  masked = length (e ∷ m);
  mapping = sort_by pair_less (pairs_of (e ∷ m));
}

-- `Record`, behind the nil test.
unfoldable pub record_event : Store → Event → Store
record_event s ev = record {
  requests = s.requests + 1;
  masked = s.masked + ev.masked;
  recent = push s.cap s.recent ev;
  cap = s.cap;
}

-- `Record` on a pointer that may be nil.
unfoldable pub record_request : Option Store → ℕ → Bytes → Bytes → Map Bytes → Option Store
record_request none now method path mapping = none
record_request (some s) now method path mapping =
    some (record_event s (event_of now method path mapping))

-- `Snapshot`; the copies of slices are the lists themselves.
unfoldable pub snapshot : Store → Snapshot
snapshot s = record { requests = s.requests; masked = s.masked; recent = s.recent }
