-- ===== src/Tests/Streaming.antt =====
-- internal/proxy/streaming.go and internal/proxy/demask.go on concrete streams.
use shinel.Base.{◌≡◌, ◌<◌, refl, [], ◌∷◌, List, some, length, arith}
use shinel.Base.Bytes.{Bytes, codes, bytes_eq}
use mathlib.Core.Bool.{Bool}
use shinel.Proxy.Demask.{buffer_sink, demask}
use shinel.Proxy.Demask.Chunked.{flatten, write_all, chunks-demask, demask-unknown}
use shinel.Proxy.Demask.OneShot.{demask-Restores}
use shinel.Proxy.Escape.{json_escape}
use shinel.Proxy.Reader.{
  failed, Upstream, more, last, new_demask_reader, take_out, stop, serve_drained, finish, go_on,
  write_chunk, close_last, read_more, read,
}
use shinel.Proxy.Reader.Total.{body_of, end_of, read_all, read_all-demask}
use shinel.Proxy.Stream.{
  new_writer, release, judge, feed_on, feed_all, resolve, deliver, write, close, close_buf, flush,
}
use shinel.Proxy.Stream.Chunks.{write-Pending}
use shinel.Proxy.Stream.Feed.{Pending, idle}
use shinel.Proxy.Stream.Spec.{Restores}
use shinel.Proxy.Token.{partial_token, complete_token, dead_token, classify}
use shinel.Proxy.Token.Grammar.{Verdict, classify-Verdict}
use shinel.Vault.{Reply, value, not_found}

verdicts :
    (classify (codes "[EMA") ≡ partial_token)
    × (classify (codes "[EMAIL_12]") ≡ complete_token)
    × (classify (codes "[EMAIL_]") ≡ dead_token)
    × (classify (codes "[_") ≡ dead_token)
unfolding classify
verdicts = (refl, refl, refl, refl)

classify-Verdict_example : Verdict (classify (codes "[EMAIL_")) (codes "[EMAIL_")
classify-Verdict_example = classify-Verdict (codes "EMAIL_")

-- A vault with one entry, whose value wants an escape.
abbrev one_entry : Bytes → Bytes → Bytes × Reply
one_entry v t = (
  v,
  elim (bytes_eq t (codes "[EMAIL_1]")) [
    | Bool.true ↦ value (codes "a\"b@c")
    | Bool.false ↦ not_found
  ],
)

abbrev chunks : List Bytes
chunks = codes "to [" ∷ codes "EMAIL_" ∷ codes "1] or [EMAIL_2] [[X" ∷ []

delivered : (demask one_entry [] (flatten chunks)).1 ≡ codes "to a\\\"b@c or [EMAIL_2] [[X"
unfolding demask write close close_buf flush deliver feed_all feed_on judge resolve release classify
    json_escape bytes_eq
delivered = refl

chunks-demask_example :
    let (s, e) = close one_entry buffer_sink (write_all one_entry (new_writer [] []) chunks) in
    (s.vault, s.w) ≡ demask one_entry [] (flatten chunks)
chunks-demask_example = chunks-demask one_entry chunks []

demask-Restores_example :
    Restores one_entry
      (demask one_entry [] (flatten chunks)).0
      []
      (flatten chunks)
      (demask one_entry [] (flatten chunks)).1
demask-Restores_example = demask-Restores one_entry [] (flatten chunks)

abbrev empty_vault : Bytes → Bytes → Bytes × Reply
empty_vault v t = (v, not_found)

demask-unknown_example : (demask empty_vault [] (flatten chunks)).1 ≡ flatten chunks
demask-unknown_example = demask-unknown empty_vault [] (flatten chunks) (λ u t x i. cc)

write-Pending_example :
    Pending (write one_entry buffer_sink (new_writer [] []) (codes "see [EMA")).0.buf
write-Pending_example =
    write-Pending one_entry buffer_sink (new_writer [] []) (codes "see [EMA") idle

-- An upstream that cuts the token, gives a chunk of nothing, and breaks off.
abbrev upstream : Upstream
upstream =
    more (codes "to [")
      (more (codes "EMAIL_1") (more [] (last (codes "]!") (failed (codes "reset")))))

read_in_threes :
    read_all one_entry 9 3 (new_demask_reader upstream [])
    ≡ (codes "to a\\\"b@c!", some (failed (codes "reset")))
unfolding new_demask_reader read read_more close_last finish go_on write_chunk take_out stop
    serve_drained write close close_buf flush deliver feed_all feed_on judge resolve release
    classify json_escape bytes_eq
read_in_threes = refl

long_enough : length (demask one_entry [] (body_of upstream)).1 < 40
unfolding demask write close close_buf flush deliver feed_all feed_on judge resolve release classify
    json_escape bytes_eq
long_enough = omega arith

read_all-demask_example :
    read_all one_entry 40 3 (new_demask_reader upstream [])
    ≡ ((demask one_entry [] (body_of upstream)).1, some (end_of upstream))
read_all-demask_example = read_all-demask one_entry 40 2 upstream [] long_enough
