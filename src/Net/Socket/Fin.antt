-- ===== src/Net/Socket/Fin.antt =====
-- When the FIN goes out: after the data, unless a listener of `drain` ends the socket with data.
use quickjab.Prelude.{
  append-nil, if_cases, sym, length, [], ℕ, ◌≡◌, refl, ap, ◌∙◌, List, ◌∷◌, ◌++◌, none, some, String,
  true, false, arith, ◌==◌, Option, not, ◌&&◌,
}
use quickjab.Outcome.{ok}
use quickjab.Buf
use quickjab.Buf.{Buf, size, data_view}
use quickjab.Buf.Inv.{IsBuf, reset-IsBuf}
use quickjab.Buf.Refine.{live_length}
use quickjab.Net.Socket.{
  end_written, closed_fd, closing, asked_out, error, begin_end, Env, Socket, Event, drain, emitted,
  note, Effect, shut_write, flush, flushed, send_loop, end, emit, finish, fatal, do_close,
}
use quickjab.Net.Socket.Flush.{out_of, IsKernel, send_loop-Drains}
use quickjab.Net.Socket.Fifo.{write_appends}

-- No listener touches the socket.
abbrev pub IsQuiet : Env → Type 0
IsQuiet env = (e : Event) (s : Socket) → env.listen e s ≡ s

size-finish : (env : Env) (t : Socket) → size (finish env t).wb ≡ size t.wb
size-finish env t =
    if_cases (λ (r : Socket). size r.wb ≡ size t.wb) (t.ending && not t.wr_shut) (λ e. refl)
      (λ e. refl)

empty : (l : List ℕ) → length l ≡ 0 → l ≡ []
empty [] h = refl
empty (x ∷ l) h = absurd (omega (arith, h))

size-reset : (b : Buf) → size (Buf.reset b) ≡ 0
unfolding Buf.reset
size-reset b = refl

-- The FIN is the last thing that was done; before it the bytes went out, and nothing waits.
abbrev pub FinLast : List ℕ → Socket → Type 0
FinLast bytes t =
    (h : List Effect) × (t.history ≡ shut_write ∷ h) × (out_of h ≡ bytes) × (size t.wb ≡ 0)

module _ (env : Env) (kernel : IsKernel env) (quiet : IsQuiet env) where
  do_close_shut : (s : Socket) → (do_close env s).wr_shut ≡ s.wr_shut
  unfolding do_close emit
  do_close_shut s =
      if_cases (λ (t : Socket). t.wr_shut ≡ s.wr_shut) s.closed (λ done. refl)
        (λ up.
          ap (λ (t : Socket). t.wr_shut)
            (quiet closing (note (emitted closing) (note closed_fd (record s { closed = true })))))

  fatal_shut : (x : String) (s : Socket) → (fatal env x s).wr_shut ≡ s.wr_shut
  unfolding fatal emit
  fatal_shut x s =
      do_close_shut (emit env (error x) s)
      ∙ ap (λ (t : Socket). t.wr_shut) (quiet (error x) (note (emitted (error x)) s))

  finished_shut :
      (t : Socket)
      → t.wr_shut ≡ false
      → (finish env t).wr_shut ≡ true
      → (finish env t).history ≡ shut_write ∷ t.history
  finished_shut t unshut =
      if_cases (λ (r : Socket). r.wr_shut ≡ true → r.history ≡ shut_write ∷ t.history)
        (t.ending && not t.wr_shut) (λ e h. refl) (λ e h. absurd (ground (arith, unshut, h)))

  flushed_shut :
      (r : Socket × Option String)
      → r.0.wr_shut ≡ false
      → (flushed env r).wr_shut ≡ true
      → FinLast (out_of r.0.history) (flushed env r) × (size r.0.wb ≡ 0)
  unfolding emit
  flushed_shut (s, some e) unshut shut = absurd (ground (arith, unshut, shut, fatal_shut e s))
  flushed_shut (s, none) unshut shut =
      let bare : Socket = record s { wb = Buf.reset s.wb } in
      let heard = quiet drain (note (emitted drain) bare) in
      if_cases (λ (t : Socket). t.wr_shut ≡ true → FinLast (out_of s.history) t × (size s.wb ≡ 0))
        (size s.wb == 0)
        (λ e h. (
          (
            (emit env drain bare).history,
            finished_shut (emit env drain bare) (ap (λ (t : Socket). t.wr_shut) heard ∙ unshut) h,
            ap (λ (t : Socket). out_of t.history) heard,
            size-finish env (emit env drain bare)
                ∙ ap (λ (t : Socket). size t.wb) heard
                ∙ size-reset s.wb,
          ),
          ground (arith, e),
        ))
        (λ e h. absurd (ground (arith, unshut, h))) shut

  -- If the listeners leave the socket alone, a flush that sends the FIN sends it last, when all that
  -- waited has gone out, in order and without a gap, and nothing waits any more. The kernel takes at
  -- least one byte, and no more than it was given, when it takes some.
  pub flush_shut_empty :
      (s : Socket)
      → IsBuf s.wb
      → s.wr_shut ≡ false
      → (flush env s).wr_shut ≡ true
      → FinLast (out_of s.history ++ data_view s.wb) (flush env s)
  unfolding flush
  flush_shut_empty s v unshut shut =
      let sent = send_loop env (size s.wb) s in
      let d = (send_loop-Drains env kernel (size s.wb) s v (omega arith)).0 in
      let ((h, last, out, bare), nothing) = flushed_shut sent (d.same_shut ∙ unshut) shut in
      let drained : data_view sent.0.wb ≡ [] =
        empty (data_view sent.0.wb) (live_length d.buf ∙ nothing) in
      (
        h,
        last,
        out
            ∙ sym (append-nil (out_of sent.0.history))
            ∙ ap (λ l. out_of sent.0.history ++ l) (sym drained)
            ∙ d.in_order,
        bare,
      )

flushed_bare :
    (env : Env) (s : Socket)
    → size s.wb ≡ 0
    → flushed env (s, none)
      ≡ finish env (env.listen drain (note (emitted drain) (record s { wb = Buf.reset s.wb })))
unfolding emit
flushed_bare env s bare = rw bare

finish_ended :
    (env inner : Env) (s : Socket)
    → s.closed ≡ false
    → s.wr_shut ≡ false
    → ((finish env (begin_end inner (note asked_out s))).wr_shut ≡ true)
      × ((finish env (begin_end inner (note asked_out s))).wb ≡ s.wb)
finish_ended env inner s up unshut = ground (arith, up, unshut)

reset_view : (u : List ℕ) (b : Buf) → data_view (Buf.reset b) ++ u ≡ u
unfolding Buf.reset
reset_view u b = refl

-- A listener of `drain` that calls `end(data)` on an open socket with nothing to send: the FIN goes
-- out in the same flush, while the data still waits. The descriptor is tracked by the poll loop.
pub drain_end_cut :
    (env inner : Env) (s : Socket) (u : List ℕ)
    → IsBuf s.wb
    → size s.wb ≡ 0
    → s.closed ≡ false
    → s.ending ≡ false
    → s.wr_shut ≡ false
    → ((t : Socket) → env.listen drain t ≡ (end inner (some u) t).0)
    → inner.more (emitted drain ∷ s.history) ≡ ok tt
    → ((flush env s).wr_shut ≡ true) × (data_view (flush env s).wb ≡ u)
unfolding flush send_loop emit end
drain_end_cut env inner s u v bare up going unshut listens tracked =
    let s0 : Socket = note (emitted drain) (record s { wb = Buf.reset s.wb }) in
    let (c, e, appended, valid) = write_appends inner s0 (reset-IsBuf v) u up going tracked in
    let t : Socket = begin_end inner (note asked_out (record s0 { wb = c })) in
    let ended : env.listen drain s0 ≡ t = listens s0 ∙ ap (λ r. (end_written inner r).0) e in
    let emptied : flush env s ≡ finish env t =
      ap (λ n. flushed env (send_loop env n s)) bare
      ∙ flushed_bare env s bare
      ∙ ap (finish env) ended in
    let done = finish_ended env inner (record s0 { wb = c }) up unshut in
    (
      ap (λ (r : Socket). r.wr_shut) emptied ∙ done.0,
      ap (λ (r : Socket). data_view r.wb) emptied
          ∙ ap data_view done.1
          ∙ appended
          ∙ reset_view u s.wb,
    )
