-- ===== src/Proxy/Demask.antt =====
-- internal/proxy/demask.go: `bufferSink`, and `demask`, which restores a complete body.
pub mod OneShot
pub mod Chunked
use shinel.Base.{List, [], ◌∷◌, ◌++◌, Option, none, some}
use shinel.Base.Bytes.{Bytes}
use shinel.Proxy.Stream.{Sink, Writer, new_writer, write, close}
use shinel.Vault.{Reply}

-- `bufferSink`: it collects what is written, never fails and is no `http.Flusher`.
abbrev pub buffer_sink : Sink Bytes
buffer_sink = record { put = λ buf p. (buf ++ p, none); flusher = none }

module _ {V : Type 0} (get_mapping : V → Bytes → V × Reply) where
  -- The vault behind the call, and the restored body.
  unfoldable pub demask : V → Bytes → V × Bytes
  demask v body =
      let (s, _, e) = write get_mapping buffer_sink (new_writer v []) body in
      elim e [
        | some why ↦ (s.vault, body)
        | none ↦
            let (s', e') = close get_mapping buffer_sink s in
            elim e' [ some why ↦ (s'.vault, body) | none ↦ (s'.vault, s'.w) ]
      ]
