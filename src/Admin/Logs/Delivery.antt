-- ===== src/Admin/Logs/Delivery.antt =====
-- What readers of internal/admin/logs.go get.
use shinel.Base.{
  ℕ, zero, suc, ◌-◌, ◌≡◌, refl, sym, ap, ap₂, ◌∙◌, List, [], ◌∷◌, ◌++◌, arith, length,
  length-append, take, ltb, Bool-cases, inl, inr, append-nil, append_assoc, is_empty, if◌then◌else◌,
}
use shinel.Base.Bytes.{Bytes}
use shinel.Base.Int.{ℤ, positive_or, positive_or-pos}
use shinel.Base.Ring.{last_of, push_all, push_all-nil}
use shinel.Admin.Logs.{
  Channel, LogSink, channel_size, default_log_lines, new_log_sink, trim_newline, offer, offer_all,
  write, snapshot,
}

-- The lines that a list of writes amounts to.
abbrev pub lines_of : List Bytes → List Bytes
lines_of [] = []
lines_of (p ∷ ps) = if is_empty (trim_newline p) then lines_of ps else trim_newline p ∷ lines_of ps

abbrev pub write_all : LogSink → List Bytes → LogSink
write_all s [] = s
write_all s (p ∷ ps) = write_all (write s p).0 ps

-- A channel that nobody reads, behind some lines.
abbrev pub filled : List Bytes → Channel → Channel
filled ls ch = record ch { queue = ch.queue ++ take (channel_size - length ch.queue) ls }

abbrev pub fill_all : List Bytes → List Channel → List Channel
fill_all ls [] = []
fill_all ls (ch ∷ subs) = filled ls ch ∷ fill_all ls subs

offer-filled :
    (line : Bytes) (ls : List Bytes) (ch : Channel)
    → filled ls (offer line ch) ≡ filled (line ∷ ls) ch
unfolding offer
offer-filled line ls ch = elim (Bool-cases (ltb (length ch.queue) channel_size)) [
  | inl room ↦
      let n = length-append ch.queue (line ∷ []) in
      let k : channel_size - length ch.queue ≡ suc (channel_size - length (ch.queue ++ line ∷ [])) =
        ground (arith, n) in
      rw (room, k)
        (ap (λ q. record ch { queue = q })
          (append_assoc ch.queue (line ∷ [])
            (take (channel_size - length (ch.queue ++ line ∷ [])) ls)))
  | inr full ↦ let k : channel_size - length ch.queue ≡ 0 = ground arith in rw (full, k)
]

offer_all-fill_all :
    (line : Bytes) (ls : List Bytes) (subs : List Channel)
    → fill_all ls (offer_all line subs) ≡ fill_all (line ∷ ls) subs
unfolding offer_all
offer_all-fill_all line ls [] = refl
offer_all-fill_all line ls (ch ∷ subs) =
    ap₂ ◌∷◌ (offer-filled line ls ch) (offer_all-fill_all line ls subs)

take-nil : (n : ℕ) → take {A = Bytes} n [] ≡ []
take-nil zero = refl
take-nil (suc n) = refl

fill_all-nil : (subs : List Channel) → fill_all [] subs ≡ subs
fill_all-nil [] = refl
fill_all-nil (ch ∷ subs) =
    ap₂ ◌∷◌
      (ap (λ q. record ch { queue = q })
        (ap (λ r. ch.queue ++ r) (take-nil (channel_size - length ch.queue)) ∙ append-nil ch.queue))
      (fill_all-nil subs)

-- Writes in turn push their lines on the ring, and put in each channel, while nobody reads it, the
-- first of them, as many as there is room for.
pub write_all_lem :
    (ps : List Bytes) (s : LogSink)
    → write_all s ps ≡ record s {
      lines = push_all s.cap s.lines (lines_of ps);
      subs = fill_all (lines_of ps) s.subs;
    }
unfolding write
write_all_lem [] s = ap (λ l. record s { subs = l }) (sym (fill_all-nil s.subs))
write_all_lem (p ∷ ps) s = elim (Bool-cases (is_empty (trim_newline p))) [
  | inl none ↦ rw none (write_all_lem ps s)
  | inr some ↦ rw some (
      write_all_lem ps _
      ∙ ap
          (λ l. record s {
            lines = push_all s.cap s.lines (trim_newline p ∷ lines_of ps);
            subs = l;
          })
          (offer_all-fill_all (trim_newline p) (lines_of ps) s.subs))
]

-- A new sink shows, behind any writes, the last of the lines that are not empty, as many as fit.
pub snapshot-write_all :
    (n : ℤ) (ps : List Bytes)
    → snapshot (write_all (new_log_sink n) ps)
      ≡ last_of (positive_or default_log_lines n) (lines_of ps)
unfolding snapshot new_log_sink
snapshot-write_all n ps =
    let cap = positive_or default_log_lines n in
    rw write_all_lem
      (push_all-nil cap (lines_of ps) (positive_or-pos default_log_lines n (omega arith)))
