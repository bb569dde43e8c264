-- ===== src/Proxy/Reader/Total.antt =====
-- What a client gets that reads a stream of internal/proxy/demask.go to its end.
use shinel.Base.{
  ℕ, zero, suc, ◌<◌, ◌≡◌, ◌≢◌, refl, sym, ap, subst, ◌∙◌, true, false, [], ◌∷◌, ◌++◌, Option, none,
  some, take, drop, length, length-append, append_assoc, take-append-drop, arith,
}
use shinel.Base.Bytes.{Bytes}
use shinel.Proxy.Demask.{demask}
use shinel.Proxy.Demask.OneShot.{write_to_buffer, close_after_write, demask-feed_all}
use shinel.Proxy.Demask.Chunked.{feed_all-flatten}
use shinel.Proxy.Reader.{
  End, eof, failed, Upstream, more, last, DemaskReader, new_demask_reader, take_out, stop, err_of,
  serve_drained, finish, go_on, write_chunk, close_last, read_more, read,
}
use shinel.Proxy.Stream.{Scan, Writer, feed_all}
use shinel.Vault.{Reply}

abbrev pub body_of : Upstream → Bytes
body_of (more chunk src) = chunk ++ body_of src
body_of (last chunk end) = chunk

abbrev pub end_of : Upstream → End
end_of (more chunk src) = end_of src
end_of (last chunk end) = end

append-take-drop : (n : ℕ) (x rest : Bytes) → x ++ rest ≡ take n x ++ (drop n x ++ rest)
append-take-drop n x rest =
    ap (λ y. y ++ rest) (sym (take-append-drop n x)) ∙ append_assoc (take n x) (drop n x) rest

module _ {V : Type 0} (get_mapping : V → Bytes → V × Reply) where
  abbrev scan : V → Bytes → Bytes → Scan V
  scan v buf body = feed_all get_mapping (record { buf = buf; vault = v; out = [] }) body

  -- What is still to come of a body with `buf` held back.
  abbrev rest_of : V → Bytes → Bytes → Bytes
  rest_of v buf body = (scan v buf body).out ++ (scan v buf body).buf

  abbrev fine : Bytes → V → Bytes → Writer V Bytes
  fine w v buf = record { w = w; vault = v; buf = buf; err = none }

  abbrev open_reader : Bytes → V → Bytes → Upstream → DemaskReader V
  open_reader w v buf src = record { src = src; w = fine w v buf; drain = false; read_err = none }

  abbrev drained_reader : Bytes → V → Upstream → End → DemaskReader V
  drained_reader w v src e = record {
    src = src;
    w = fine w v [];
    drain = true;
    read_err = err_of e;
  }

  -- A reader that is to give `left` and then end with `e`.
  data Live (left : Bytes) (e : End) (d : DemaskReader V) : Type 0 where
    reading :
        (w : Bytes) (v : V) (buf : Bytes) (src : Upstream)
        → d ≡ open_reader w v buf src
        → left ≡ w ++ rest_of v buf (body_of src)
        → e ≡ end_of src
        → Live left e d
    drained :
        (w : Bytes) (v : V) (src : Upstream)
        → d ≡ drained_reader w v src e
        → left ≡ w
        → Live left e d

  -- A call of `Read` gives some of what is left, or the end if nothing is.
  data Step (left : Bytes) (e : End) (r : DemaskReader V × Bytes × Option End) : Type 0 where
    gives :
        (d : DemaskReader V) (b : Bytes) (left' : Bytes)
        → r ≡ (d, b, none)
        → b ≢ []
        → left ≡ b ++ left'
        → Live left' e d
        → Step left e r
    ends : (d : DemaskReader V) → r ≡ (d, [], some e) → left ≡ [] → Step left e r

  take_out-open :
      (n c : ℕ) (cs : Bytes) (v : V) (buf : Bytes) (src : Upstream)
      → Step
          ((c ∷ cs) ++ rest_of v buf (body_of src))
          (end_of src)
          (take_out (suc n) (open_reader (c ∷ cs) v buf src))
  unfolding take_out
  take_out-open n c cs v buf src =
      gives (open_reader (drop n cs) v buf src) (c ∷ take n cs)
        (drop n cs ++ rest_of v buf (body_of src)) refl (cc)
        (append-take-drop (suc n) (c ∷ cs) (rest_of v buf (body_of src)))
        (reading (drop n cs) v buf src refl refl refl)

  take_out-drained :
      (n c : ℕ) (cs : Bytes) (v : V) (src : Upstream) (e : End)
      → Step (c ∷ cs) e (take_out (suc n) (drained_reader (c ∷ cs) v src e))
  unfolding take_out
  take_out-drained n c cs v src e =
      gives (drained_reader (drop n cs) v src e) (c ∷ take n cs) (drop n cs) refl (cc)
        (sym (take-append-drop (suc n) (c ∷ cs))) (drained (drop n cs) v src refl refl)

  stop-drained : (v : V) (src : Upstream) (e : End) → Step [] e (stop (drained_reader [] v src e))
  unfolding stop err_of
  stop-drained v src eof = ends (drained_reader [] v src eof) refl refl
  stop-drained v src (failed why) = ends (drained_reader [] v src eof) refl refl

  serve_drained-Step :
      (n : ℕ) (w : Bytes) (v : V) (src : Upstream) (e : End)
      → Step w e (serve_drained (suc n) (drained_reader w v src e))
  unfolding serve_drained
  serve_drained-Step n [] v src e = stop-drained v src e
  serve_drained-Step n (c ∷ cs) v src e = take_out-drained n c cs v src e

  write_chunk-fine :
      (v : V) (buf chunk : Bytes)
      → write_chunk get_mapping (fine [] v buf) chunk
        ≡ (fine (scan v buf chunk).out (scan v buf chunk).vault (scan v buf chunk).buf, none)
  unfolding write_chunk
  write_chunk-fine v buf [] = unfold feed_all in refl
  write_chunk-fine v buf (b ∷ chunk) = rw write_to_buffer

  rest_of-append :
      (v : V) (buf p q : Bytes)
      → rest_of v buf (p ++ q)
        ≡ (scan v buf p).out ++ rest_of (scan v buf p).vault (scan v buf p).buf q
  rest_of-append v buf p q = rw feed_all-flatten (append_assoc (scan v buf p).out _ _)

  finish-Step :
      (n : ℕ) (w : Bytes) (v : V) (buf : Bytes) (e : End)
      → Step (w ++ buf) e (close_last get_mapping (suc n) e (fine w v buf, none))
  unfolding close_last finish
  finish-Step n w v buf e =
      subst (λ r. Step (w ++ buf) e (finish (suc n) e r))
        (sym (close_after_write get_mapping w v buf))
        (serve_drained-Step n (w ++ buf) v (last [] e) e)

  -- The loop goes on while a chunk puts nothing out.
  go_on-Step :
      (n : ℕ) (src : Upstream) (o : Bytes) (v : V) (buf : Bytes)
      → Step
          (rest_of v buf (body_of src))
          (end_of src)
          (read_more get_mapping (suc n) (fine [] v buf) src)
      → Step
          (o ++ rest_of v buf (body_of src))
          (end_of src)
          (go_on (suc n) src (λ w. read_more get_mapping (suc n) w src) (fine o v buf, none))
  unfolding go_on
  go_on-Step n src [] v buf h = h
  go_on-Step n src (c ∷ cs) v buf h = take_out-open n c cs v buf src

  read_more-Step :
      (n : ℕ) (src : Upstream) (v : V) (buf : Bytes)
      → Step
          (rest_of v buf (body_of src))
          (end_of src)
          (read_more get_mapping (suc n) (fine [] v buf) src)
  unfolding read_more
  read_more-Step n (more chunk src) v buf =
      let s = scan v buf chunk in
      rw rest_of-append (
        subst
          (λ r.
            Step (s.out ++ rest_of s.vault s.buf (body_of src)) (end_of src)
              (go_on (suc n) src (λ w. read_more get_mapping (suc n) w src) r))
          (sym (write_chunk-fine v buf chunk))
          (go_on-Step n src s.out s.vault s.buf (read_more-Step n src s.vault s.buf)))
  read_more-Step n (last chunk e) v buf =
      let s = scan v buf chunk in
      subst (λ r. Step (s.out ++ s.buf) e (close_last get_mapping (suc n) e r))
        (sym (write_chunk-fine v buf chunk)) (finish-Step n s.out s.vault s.buf e)

  read-Step :
      (n : ℕ) (left : Bytes) (e : End) (d : DemaskReader V)
      → Live left e d
      → Step left e (read get_mapping (suc n) d)
  unfolding read
  read-Step n left e d (reading [] v buf src p q r) = rw (p, q, r) (read_more-Step n src v buf)
  read-Step n left e d (reading (c ∷ cs) v buf src p q r) =
      rw (p, q, r) (take_out-open n c cs v buf src)
  read-Step n left e d (drained [] v src p q) = rw (p, q) (stop-drained v src e)
  read-Step n left e d (drained (c ∷ cs) v src p q) = rw (p, q) (take_out-drained n c cs v src e)

  -- A client that calls `Read` with room for `n` bytes until it gets an error, `k` times at most:
  -- the bytes that it got, and the error.
  abbrev pub read_all : ℕ → ℕ → DemaskReader V → Bytes × Option End
  read_all zero n d = ([], none)
  read_all (suc k) n d =
      let (d', b, e) = read get_mapping n d in
      let (bs, e') = read_all k n d' in elim e [ some why ↦ (b, some why) | none ↦ (b ++ bs, e') ]

  read_all-Live :
      (k n : ℕ) (left : Bytes) (e : End) (d : DemaskReader V)
      → Live left e d
      → length left < k
      → read_all k (suc n) d ≡ (left, some e)
  read_all-Live zero n left e d l h = absurd (omega (arith, h))
  read_all-Live (suc k) n left e d l h = elim (read-Step n left e d l) [
    | ends d' r q ↦ ground (arith, r, q)
    | gives d' [] left' r x q l' ↦ absurd (x refl)
    | gives d' (c ∷ b) left' r x q l' ↦
        let short : length left' < k = ground (arith, length-append (c ∷ b) left', ap length q) in
        ground (arith, r, q, read_all-Live k n left' e d' l' short)
  ]

  -- A client that reads on until it gets an error gets the bytes that `demask` makes of the whole
  -- body, and the error that the upstream ended with, whatever room it gives each call and however
  -- the upstream cuts the body; as many calls as there are bytes, and one, are enough.
  pub read_all-demask :
      (k n : ℕ) (src : Upstream) (v : V)
      → length (demask get_mapping v (body_of src)).1 < k
      → read_all k (suc n) (new_demask_reader src v)
        ≡ ((demask get_mapping v (body_of src)).1, some (end_of src))
  unfolding new_demask_reader
  read_all-demask k n src v h =
      let same = demask-feed_all get_mapping v (body_of src) in
      read_all-Live k n _ (end_of src) _ (reading [] v [] src refl (ap (λ r. r.1) same) refl) h
