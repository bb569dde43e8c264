-- ===== src/EndToEnd.antt =====
-- One request through internal/proxy/proxy.go with the vault of internal/vault/memory.go: the text
-- is masked, its mapping filed, and an upstream that sends the masked text back is restored.
pub mod Documents
pub mod Exchange
pub mod Streaming
use shinel.Base.{ℕ, ◌≡◌, List, none, some}
use shinel.Base.Bytes.{Bytes}
use shinel.Base.Maps.{Map, lookup}
use shinel.Base.Sort.{All}
use shinel.Analyzer.Session.{new_session}
use shinel.Analyzer.Session.Sound.{new_session-IsSound}
use shinel.Analyzer.Span.{Span}
use shinel.Analyzer.Sweep.{anonymize_spans}
use shinel.Analyzer.Sweep.Masks.{Masks, Fits, anonymize_spans-Swept}
use shinel.Proxy.Demask.{demask}
use shinel.Proxy.Request.{save_all}
use shinel.Proxy.Request.Saved.{left-save_all}
use shinel.Proxy.Response.{lookup_token}
use shinel.RoundTrip.{TokenFree, AllShort, Serves, demask-anonymize_spans}
use shinel.Vault.{key, ttl}
use shinel.Vault.Memory.{Stored, Cache, memory_vault}
use shinel.Vault.Memory.Alive.{get_mapping-alive, get_mapping-keeps}

module _ (c : Cache) (req_id : Bytes) where
  open c use {State, left}

  -- The vault has every entry of a mapping, with some time left.
  abbrev Holds : Map Bytes → State → Type 0
  Holds m s =
      (t x : Bytes)
      → lookup t m ≡ some x
      → (r : ℕ) × (left s (key req_id t) ≡ some (Stored.text x, r))

  Holds-Serves : (m : Map Bytes) → Serves (lookup_token (memory_vault c) none req_id) m (Holds m)
  Holds-Serves m = record {
    answers = λ s t x h e. let (r, f) = h t x e in (get_mapping-alive c req_id t x s r f).0;
    keeps =
        λ s u h t x e. let (r, f) = h t x e in get_mapping-keeps c req_id u (key req_id t) x s r f;
  }

  -- A text with no token in it, masked with any spans that fit it, its mapping filed in the memory
  -- vault whatever that held before: the masked text sent back under the same request is restored
  -- to the text, with the stretches that were masked escaped for JSON.
  pub demask-save_all :
      (body : Bytes) (spans : List Span) (s : State)
      → let (sess, masked) = anonymize_spans body spans new_session in
        All (Fits body) spans
        → TokenFree body
        → AllShort sess.mapping
        → Masks sess.mapping body masked
            (demask
              (lookup_token (memory_vault c) none req_id)
              (save_all (memory_vault c) none req_id sess.mapping s)
              masked).1
  demask-save_all body spans s fits free short =
      let (sess, masked) = anonymize_spans body spans new_session in
      let sound = (anonymize_spans-Swept body spans fits new_session-IsSound).sound in
      demask-anonymize_spans (lookup_token (memory_vault c) none req_id) (Holds sess.mapping) body
        spans (save_all (memory_vault c) none req_id sess.mapping s) fits free short
        (Holds-Serves sess.mapping)
        (λ t x e. (ttl, left-save_all c req_id sess.mapping t x s sound.distinct e))
