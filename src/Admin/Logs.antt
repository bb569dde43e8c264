-- ===== src/Admin/Logs.antt =====
-- internal/admin/logs.go: `LogSink`, the recent log lines and the channels of live readers. The
-- mutex makes each call one step. A channel is named by a number and holds the lines in it.
pub mod Delivery
use shinel.Base.{
  ℕ, suc, ◌+◌, ◌-◌, Bool, true, false, not, ◌&&◌, ◌||◌, List, [], ◌∷◌, ◌++◌, Option, none, some,
  ltb, ◌==◌, if◌then◌else◌, length, take, get_elem?, is_empty,
}
use shinel.Base.Bytes.{Bytes}
use shinel.Base.Int.{ℤ, positive_or}
use shinel.Base.Ring.{push}

abbrev pub default_log_lines : ℕ
default_log_lines = 500

-- `make(chan string, 32)`.
abbrev pub channel_size : ℕ
channel_size = 32

pub record Channel : Type 0 where
  pub id : ℕ
  pub queue : List Bytes

-- `next` names the next channel that is made.
pub record LogSink : Type 0 where
  pub lines : List Bytes
  pub cap : ℕ
  pub subs : List Channel
  pub next : ℕ

unfoldable pub new_log_sink : ℤ → LogSink
new_log_sink n = record { lines = []; cap = positive_or default_log_lines n; subs = []; next = 0 }

-- The text of a log record, without the newline at its end.
unfoldable pub trim_newline : Bytes → Bytes
trim_newline p = elim (get_elem? p (length p - 1)) [
  | none ↦ p
  | some b ↦ if b == b'\n' then take (length p - 1) p else p
]

-- `select { case ch <- line: default: }`: a full channel drops the line.
unfoldable pub offer : Bytes → Channel → Channel
offer line ch =
    if ltb (length ch.queue) channel_size then record ch { queue = ch.queue ++ line ∷ [] } else ch

unfoldable pub offer_all : Bytes → List Channel → List Channel
unfolding offer
offer_all line [] = []
offer_all line (ch ∷ subs) = offer line ch ∷ offer_all line subs

-- `Write`: the new sink and the count that it returns.
unfoldable pub write : LogSink → Bytes → LogSink × ℕ
write s p =
    let line = trim_newline p in
    if is_empty line
    then (s, length p)
    else (record s { lines = push s.cap s.lines line; subs = offer_all line s.subs }, length p)

-- `Snapshot`: a copy of the lines.
unfoldable pub snapshot : LogSink → List Bytes
snapshot s = s.lines

-- `Subscribe`: the new sink, and the number of the channel.
unfoldable pub subscribe : LogSink → LogSink × ℕ
subscribe s =
    (record s { subs = record { id = s.next; queue = [] } ∷ s.subs; next = s.next + 1 }, s.next)

-- `delete(s.subs, ch)`.
unfoldable pub remove : ℕ → List Channel → List Channel
remove id [] = []
remove id (ch ∷ subs) = if ch.id == id then remove id subs else ch ∷ remove id subs

-- The function that `Subscribe` returns, called once.
unfoldable pub unsubscribe : LogSink → ℕ → LogSink
unsubscribe s id = record s { subs = remove id s.subs }
