-- ===== src/Proxy/Reader.antt =====
-- internal/proxy/demask.go: `demaskReader`, which restores a body while it is read. The sink's
-- unread bytes are what its writer has put out and no call of `Read` has taken yet.
pub mod Total
use shinel.Base.{ℕ, Bool, true, false, [], ◌∷◌, Option, none, some, if◌then◌else◌, take, drop}
use shinel.Base.Bytes.{Bytes}
use shinel.Proxy.Demask.{buffer_sink}
use shinel.Proxy.Stream.{Writer, new_writer, write, close}
use shinel.Vault.{Reply}

-- Why a stream gives no more: `io.EOF`, or another error.
pub data End : Type 0 where
  eof : End
  failed : Bytes → End

-- The results of the calls of the upstream's `Read`: bytes, and with the last ones the end.
pub data Upstream : Type 0 where
  more : Bytes → Upstream → Upstream
  last : Bytes → End → Upstream

pub record DemaskReader (V : Type 0) : Type 0 where
  pub src : Upstream
  pub w : Writer V Bytes
  pub drain : Bool
  pub read_err : Option Bytes

unfoldable pub new_demask_reader : {V : Type 0} → Upstream → V → DemaskReader V
new_demask_reader src v = record { src = src; w = new_writer v []; drain = false; read_err = none }

-- `d.sink.buf.Read(p)` with room for `n` bytes.
unfoldable pub take_out : {V : Type 0} → ℕ → DemaskReader V → DemaskReader V × Bytes × Option End
take_out n d = (record d { w = record d.w { w = drop n d.w.w } }, take n d.w.w, none)

-- The sink is empty and the upstream is exhausted; an error is returned once.
unfoldable pub stop : {V : Type 0} → DemaskReader V → DemaskReader V × Bytes × Option End
stop d = elim d.read_err [
  | some why ↦ (record d { read_err = none }, [], some (failed why))
  | none ↦ (d, [], some eof)
]

pub err_of : End → Option Bytes
err_of eof = none
err_of (failed why) = some why

-- The round behind which `drain` is set.
unfoldable pub serve_drained :
    {V : Type 0} → ℕ → DemaskReader V → DemaskReader V × Bytes × Option End
serve_drained n d = elim d.w.w [ [] ↦ stop d | _ ∷ _ ↦ take_out n d ]

-- Behind the writer's `Close`, which lets go of a token that the upstream ended within.
unfoldable pub finish :
    {V : Type 0} → ℕ → End → Writer V Bytes × Option Bytes → DemaskReader V × Bytes × Option End
unfolding err_of
finish n end (w, some why) =
    (record { src = last [] end; w = w; drain = true; read_err = none }, [], some (failed why))
finish n end (w, none) =
    serve_drained n (record { src = last [] end; w = w; drain = true; read_err = err_of end })

-- Behind the writer's `Write` of a chunk that is not the last; `again` is the next round.
unfoldable pub go_on :
    {V : Type 0}
    → ℕ
    → Upstream
    → (Writer V Bytes → DemaskReader V × Bytes × Option End)
    → Writer V Bytes × Option Bytes
    → DemaskReader V × Bytes × Option End
go_on n src again (w, some why) =
    (record { src = src; w = w; drain = false; read_err = none }, [], some (failed why))
go_on n src again (w, none) = elim w.w [
  | [] ↦ again w
  | _ ∷ _ ↦ take_out n (record { src = src; w = w; drain = false; read_err = none })
]

module _ {V : Type 0} (get_mapping : V → Bytes → V × Reply) where
  -- `if n > 0 { d.w.Write(d.chunk[:n]) }`.
  unfoldable pub write_chunk : Writer V Bytes → Bytes → Writer V Bytes × Option Bytes
  write_chunk w [] = (w, none)
  write_chunk w (b ∷ chunk) =
      let (w', _, e) = write get_mapping buffer_sink w (b ∷ chunk) in (w', e)

  -- Behind the writer's `Write` of the last chunk.
  unfoldable pub close_last :
      ℕ → End → Writer V Bytes × Option Bytes → DemaskReader V × Bytes × Option End
  close_last n end (w, some why) =
      (record { src = last [] end; w = w; drain = false; read_err = none }, [], some (failed why))
  close_last n end (w, none) = finish n end (close get_mapping buffer_sink w)

  -- The loop of `Read` while the sink is empty and the upstream is not exhausted.
  unfoldable pub read_more : ℕ → Writer V Bytes → Upstream → DemaskReader V × Bytes × Option End
  read_more n w (more chunk src) = go_on n src (λ w'. read_more n w' src) (write_chunk w chunk)
  read_more n w (last chunk end) = close_last n end (write_chunk w chunk)

  -- `Read` into room for `n` bytes: the new state, the bytes and the error.
  unfoldable pub read : ℕ → DemaskReader V → DemaskReader V × Bytes × Option End
  read n d = elim d.w.w [
    | [] ↦ elim d.drain [ true ↦ stop d | false ↦ read_more n d.w d.src ]
    | _ ∷ _ ↦ take_out n d
  ]
