-- ===== src/Tests/Storing.antt =====
-- internal/vault, internal/stats and internal/admin/logs.go on concrete inputs.
use shinel.Base.{ℕ, ◌≡◌, refl, List, [], ◌∷◌, Option, none, some, if◌then◌else◌, length, arith}
use shinel.Base.Bytes.{Bytes, codes, bytes_eq}
use shinel.Base.Int.{pos, positive_or}
use shinel.Base.Ring.{last_of}
use shinel.Base.Sort.{All}
use shinel.Admin.Logs.{new_log_sink, subscribe}
use shinel.Admin.Logs.Delivery.{lines_of, write_all, fill_all, write_all_lem}
use shinel.Base.Ring.{push_all}
use shinel.Stats
use shinel.Stats.{Store, default_recent, new_store}
use shinel.Stats.History.{Call, events, masked_in, record_all, snapshot-record_all}
use shinel.Base.Maps.{lookup}
use shinel.Vault.{value, not_found}
use shinel.Vault.Memory
use shinel.Vault.Memory.Keeps.{memory-Refines}
use shinel.Vault.Redis
use shinel.Vault.Redis.{Client}
use shinel.Vault.Redis.Keeps.{Server, timed, answer_of, redis-Refines}
use shinel.Vault.Spec.{
  Op, save, get, wait, saved, got, waited, Entry, waned, Store as SpecStore, spec_outcomes, run,
  outcomes,
}
use shinel.Vault.Spec.Apart.{own, get_mapping-own}
use shinel.Vault.Keys.{ColonFree}
use shinel.Vault.Spec.Refines.{Named}
use shinel.Vault.Memory.{Stored, text, aged, stored, Cache, save_mapping, get_mapping, memory_vault}
use shinel.Vault.Memory.Alive.{lookups, lookups-save_mapping}

-- A cache as a function from keys.
abbrev pub function_cache : Cache
function_cache = record {
  State = Bytes → Option (Stored × ℕ);
  set = λ s k x d j. if bytes_eq k j then some (text x, d) else s j;
  get = λ s k. stored (s k);
  elapse = λ d s k. aged d (s k);
  left = λ s k. s k;
  get-left = λ s k. refl;
  left-set = λ s k j x d. refl;
  left-elapse = λ d s k. refl;
}

abbrev email : Bytes
email = codes "[EMAIL_1]"

lookups-save_mapping_example :
    All
      (λ reply. reply ≡ value (codes "a@b.c"))
      (lookups function_cache
        (codes "r1")
        email
        (299 ∷ 0 ∷ 200 ∷ [])
        (save_mapping function_cache none (codes "r1") email (codes "a@b.c") (λ k. none)).0)
lookups-save_mapping_example =
    lookups-save_mapping function_cache (codes "r1") email (codes "a@b.c") (299 ∷ 0 ∷ 200 ∷ [])
      (λ k. none) (omega arith, (omega arith, (omega arith, tt)))

abbrev calls : List Call
calls =
    record {
      now = 3;
      method = codes "POST";
      path = codes "/a";
      mapping = (email, codes "a@b.c") ∷ [];
    }
    ∷ record { now = 5; method = codes "GET"; path = codes "/b"; mapping = [] }
    ∷ []

snapshot-record_all_example :
    (s : Store) × (record_all (some (new_store (pos 1))) calls ≡ some s)
    × (Stats.snapshot s ≡ record {
      requests = length calls;
      masked = masked_in calls;
      recent = last_of (positive_or default_recent (pos 1)) (events calls);
    })
snapshot-record_all_example = snapshot-record_all (pos 1) calls

abbrev writes : List Bytes
writes = codes "one\n" ∷ codes "\n" ∷ codes "two" ∷ []

write_all_lem_example :
    let s = (subscribe (new_log_sink (pos 1))).0 in
    write_all s writes ≡ record s {
      lines = push_all s.cap s.lines (lines_of writes);
      subs = fill_all (lines_of writes) s.subs;
    }
write_all_lem_example = write_all_lem writes (subscribe (new_log_sink (pos 1))).0

first_entry : lookup email ((email, codes "a@b.c") ∷ []) ≡ some (codes "a@b.c")
unfolding lookup bytes_eq
first_entry = refl

-- Two requests use one token, and one of them looks it up late.
abbrev ops : List Op
ops =
    save (codes "r1") email (codes "a@b.c")
    ∷ save (codes "r2") email (codes "x@y.z")
    ∷ wait 200
    ∷ get (codes "r1") email
    ∷ wait 200
    ∷ get (codes "r1") email
    ∷ get (codes "r2") email
    ∷ []

ops-Named : All Named ops
ops-Named =
    let two : ColonFree (codes "r1") = (refl, (refl, tt)) in
    (two, (two, (tt, (two, (tt, (two, (two, tt)))))))

abbrev no_entries : SpecStore
no_entries r t = none

memory-Refines_example :
    outcomes (Memory.Keeps.backed function_cache) ops (λ k. none) ≡ spec_outcomes ops no_entries
memory-Refines_example =
    memory-Refines function_cache ops (λ k. none) no_entries ops-Named (λ r t h. refl)

-- A server as a function from keys.
abbrev function_client : Client (Bytes → Entry)
function_client = record {
  set = λ e s k x d. ((λ j. if bytes_eq k j then some (x, d) else s j), none);
  get_ex = λ e s k d. ((λ j. if bytes_eq k j then timed d (s k) else s j), answer_of (s k));
}

abbrev function_server : Server function_client
function_server = record {
  elapse = λ d s j. waned d (s j);
  left = λ s. s;
  set-none = λ s k x d. refl;
  left-set = λ s k j x d. refl;
  get_ex-answer = λ s k d. refl;
  left-get_ex = λ s k j d. refl;
  left-elapse = λ d s j. refl;
}

redis-Refines_example :
    outcomes (Redis.Keeps.backed function_server) ops (λ k. none) ≡ spec_outcomes ops no_entries
redis-Refines_example =
    redis-Refines function_server ops (λ k. none) no_entries ops-Named (λ r t h. refl)

-- What the abstract store answers: r1 refreshes its value in time, and r2 comes too late.
spec_outcomes_lem :
    spec_outcomes ops no_entries
    ≡ saved none
      ∷ saved none
      ∷ waited
      ∷ got (value (codes "a@b.c"))
      ∷ waited
      ∷ got (value (codes "a@b.c"))
      ∷ got not_found
      ∷ []
unfolding bytes_eq
spec_outcomes_lem = refl

get_mapping-own_example :
    let b = Memory.Keeps.backed function_cache in
    (get_mapping function_cache none (codes "r2") email (run b ops (λ k. none))).1
    ≡ (get_mapping function_cache none
        (codes "r2")
        email
        (run b (own (codes "r2") ops) (λ k. none))).1
get_mapping-own_example =
    get_mapping-own (Memory.Keeps.backed function_cache) (codes "r2") email ops (λ k. none)
      (refl, (refl, tt)) ops-Named
