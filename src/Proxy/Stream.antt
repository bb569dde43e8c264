-- ===== src/Proxy/Stream.antt =====
-- internal/proxy/streaming.go: `StreamingResponseWriter`, which restores masked values in a
-- response as it streams by. The vault is its `GetMapping`, which may change its state; the
-- writer below is an `http.ResponseWriter`, given by its operations.
pub mod Spec
pub mod Header
pub mod Feed
pub mod Positions
pub mod Restore
pub mod Chunks
pub mod Unique
use shinel.Base.{
  ℕ, ◌+◌, ◌-◌, Bool, true, false, List, [], ◌∷◌, ◌++◌, Option, none, some, leb, ◌==◌, if◌then◌else◌,
  length, take, get_elem?,
}
use shinel.Base.Bytes.{Bytes}
use shinel.Proxy.Escape.{json_escape}
use shinel.Proxy.Token.{TokenState, partial_token, complete_token, dead_token, classify}
use shinel.Vault.{Reply, value, not_found, failed}

abbrev pub max_token_len : ℕ
max_token_len = 64

-- The `http.ResponseWriter` below, with its `http.Flusher` if it is one. A write answers with
-- an error or none.
pub record Sink (W : Type 0) : Type 0 where
  pub put : W → Bytes → W × Option Bytes
  pub flusher : Option (W → W)

-- The fields that change; `out` is the local slice of one call of `Write`.
pub record Scan (V : Type 0) : Type 0 where
  pub buf : Bytes
  pub vault : V
  pub out : Bytes

pub record Writer (V W : Type 0) : Type 0 where
  pub w : W
  pub vault : V
  pub buf : Bytes
  pub err : Option Bytes

-- `NewStreamingResponseWriter`.
abbrev pub new_writer : {V W : Type 0} → V → W → Writer V W
new_writer v w = record { w = w; vault = v; buf = []; err = none }

-- An unknown token and a failing vault both let the token through.
pub restored : Bytes → Reply → Bytes
restored token (value v) = json_escape v
restored token not_found = token
restored token (failed e) = token

module _ {V : Type 0} (get_mapping : V → Bytes → V × Reply) where
  unfoldable pub resolve : V → Bytes → V × Bytes
  unfolding restored
  resolve v token = let (v', reply) = get_mapping v token in (v', restored token reply)

-- The candidate has just died: its last byte may open the next one.
unfoldable pub release : {V : Type 0} → Scan V → Scan V
release s =
    let last = length s.buf - 1 in
    elim (get_elem? s.buf last) [
      | none ↦ s
      | some b ↦
          if b == b'['
          then record s { out = s.out ++ take last s.buf; buf = b'[' ∷ [] }
          else record s { out = s.out ++ s.buf; buf = [] }
    ]

module _ {V : Type 0} (get_mapping : V → Bytes → V × Reply) where
  -- The `switch classify(s.buf)`.
  unfoldable pub judge : TokenState → Scan V → Scan V
  judge complete_token s =
      let (v, text) = resolve get_mapping s.vault s.buf in
      record { buf = []; vault = v; out = s.out ++ text }
  judge dead_token s = release s
  judge partial_token s =
      if leb max_token_len (length s.buf) then record s { out = s.out ++ s.buf; buf = [] } else s

  -- One round of the loop of `Write`; the first argument is `s.buf`.
  unfoldable pub feed_on : Bytes → Scan V → ℕ → Scan V
  feed_on [] s b =
      if b == b'[' then record s { buf = b'[' ∷ [] } else record s { out = s.out ++ b ∷ [] }
  feed_on (c ∷ cs) s b = let buf = c ∷ cs ++ b ∷ [] in judge (classify buf) (record s { buf = buf })

  unfoldable pub feed_all : Scan V → Bytes → Scan V
  feed_all s [] = s
  feed_all s (b ∷ p) = feed_all (feed_on s.buf s b) p

  module _ {W : Type 0} (sink : Sink W) where
    -- The part of `Write` behind the loop.
    unfoldable pub deliver : Writer V W → Bytes → ℕ → Writer V W × ℕ × Option Bytes
    deliver s [] n = (s, n, none)
    deliver s (b ∷ out) n =
        let (w, e) = sink.put s.w (b ∷ out) in
        elim e [
          | none ↦ (record s { w = w }, n, none)
          | some why ↦ (record s { w = w; err = some why }, 0, some why)
        ]

    -- `Write`: the new state, the count and the error that it returns.
    unfoldable pub write : Writer V W → Bytes → Writer V W × ℕ × Option Bytes
    write s p = elim s.err [
      | some why ↦ (s, 0, some why)
      | none ↦
          let done = feed_all (record { buf = s.buf; vault = s.vault; out = [] }) p in
          deliver (record s { buf = done.buf; vault = done.vault }) done.out (length p)
    ]

    unfoldable pub flush : Writer V W → Writer V W
    flush s = elim sink.flusher [ none ↦ s | some f ↦ record s { w = f s.w } ]

    -- `s.w.Write(s.buf)` in `Close`, if bytes are held back.
    unfoldable pub close_buf : Writer V W → Bytes → Writer V W × Option Bytes
    close_buf s [] = (flush s, none)
    close_buf s (b ∷ bs) =
        let (w, e) = sink.put s.w (b ∷ bs) in
        elim e [
          | none ↦ (flush (record s { w = w; buf = [] }), none)
          | some why ↦ (record s { w = w; err = some why }, some why)
        ]

    unfoldable pub close : Writer V W → Writer V W × Option Bytes
    close s = elim s.err [ some why ↦ (s, some why) | none ↦ close_buf s s.buf ]
