-- ===== src/Net/Socket/Once.antt =====
-- A socket closes, shuts its write side and announces the end once, whatever its listeners do.
use quickjab.Buf
use quickjab.Buf.{Buf, size, data_view}
use quickjab.Int.{pos}
use quickjab.Prelude.{
  ◌||◌, ◌&&◌, not, ◌==◌, ◌∙◌, ap, if_cases, ℕ, zero, suc, ◌≡◌, refl, List, [], ◌∷◌, Option, none,
  some, String, Bool, true, false, arith,
}
use quickjab.Outcome.{Outcome, ok, err}
use quickjab.Net.Socket.{
  busy, nothing_yet, poll_rest, skipped, took, drain, make_room, send_threw, data_in, got,
  recv_threw, answered, received, flushed, widened, poll_in, fed_in, end_written, RecvAnswer,
  SendAnswer, finish, begin_end, error, note, Env, Socket, Event, Effect, emitted, shut_write,
  closed_fd, asked_out, end_in, closing, emit, do_close, fatal, write, end, destroy, read_end,
  send_loop, flush, mask, poll, Ready,
}

abbrev pub count : Bool → ℕ
count true = 1
count false = 0

abbrev pub closes : List Effect → ℕ
closes [] = 0
closes (closed_fd ∷ h) = suc (closes h)
closes (_ ∷ h) = closes h

abbrev pub shuts : List Effect → ℕ
shuts [] = 0
shuts (shut_write ∷ h) = suc (shuts h)
shuts (_ ∷ h) = shuts h

abbrev pub ends : List Effect → ℕ
ends [] = 0
ends (emitted end_in ∷ h) = suc (ends h)
ends (_ ∷ h) = ends h

-- The flags count what happened: each of the three once, or not yet.
pub record IsOnce (s : Socket) : Type 0 where
  pub close_once : closes s.history ≡ count s.closed
  pub shut_once : shuts s.history ≡ count s.wr_shut
  pub end_once : ends s.history ≡ count s.read_ended

same-IsOnce :
    (s : Socket) (b : Buf) (e : Bool) → IsOnce s → IsOnce (record s { wb = b; ending = e })
same-IsOnce s b e v = record {
  close_once = v.close_once;
  shut_once = v.shut_once;
  end_once = v.end_once;
}

asked-IsOnce :
    (s : Socket) (b : Buf) (e : Bool)
    → IsOnce s
    → IsOnce (note asked_out (record s { wb = b; ending = e }))
asked-IsOnce s b e v = record {
  close_once = v.close_once;
  shut_once = v.shut_once;
  end_once = v.end_once;
}

-- An effect that is none of the three counted ones.
logged-IsOnce :
    (x : Effect) (s : Socket)
    → closes (x ∷ s.history) ≡ closes s.history
    → shuts (x ∷ s.history) ≡ shuts s.history
    → ends (x ∷ s.history) ≡ ends s.history
    → IsOnce s
    → IsOnce (note x s)
logged-IsOnce x s c h e v = record {
  close_once = c ∙ v.close_once;
  shut_once = h ∙ v.shut_once;
  end_once = e ∙ v.end_once;
}

not_yet : (e b : Bool) → (e && not b) ≡ true → b ≡ false
not_yet e b h = ground (arith, h)

abbrev IsOnceIn : {R : Type 0} → Socket × R → Type 0
IsOnceIn r = IsOnce r.0

module _ (env : Env) (keeps : (e : Event) (s : Socket) → IsOnce s → IsOnce (env.listen e s)) where
  emit-IsOnce : (e : Event) (s : Socket) → IsOnce (note (emitted e) s) → IsOnce (emit env e s)
  unfolding emit
  emit-IsOnce e s v = keeps e (note (emitted e) s) v

  do_close-IsOnce : (s : Socket) → IsOnce s → IsOnce (do_close env s)
  unfolding do_close
  do_close-IsOnce s v =
      if_cases IsOnce s.closed (λ done. v)
        (λ up. emit-IsOnce closing (note closed_fd (record s { closed = true })) (record {
          close_once = ap suc (v.close_once ∙ ap count up);
          shut_once = v.shut_once;
          end_once = v.end_once;
        }))

  fatal-IsOnce : (x : String) (s : Socket) → IsOnce s → IsOnce (fatal env x s)
  unfolding fatal
  fatal-IsOnce x s v = do_close-IsOnce _ (
      emit-IsOnce (error x) s
        (record { close_once = v.close_once; shut_once = v.shut_once; end_once = v.end_once }))

  begin_end-IsOnce : (s : Socket) → IsOnce s → IsOnce (begin_end env s)
  begin_end-IsOnce s v =
      if_cases IsOnce s.closed (λ done. same-IsOnce s _ _ v) (λ up. asked-IsOnce s _ _ v)

  fed_in-IsOnce : (s : Socket) (o : Outcome (ℕ × Buf)) → IsOnce s → IsOnce (fed_in env s o).0
  fed_in-IsOnce s (err e) v = v
  fed_in-IsOnce s (ok (n, fed)) v = asked-IsOnce s _ _ v

  widened-IsOnce :
      (u : List ℕ) (s : Socket) (o : Outcome Buf) → IsOnce s → IsOnce (widened env u s o).0
  widened-IsOnce u s (err e) v = v
  widened-IsOnce u s (ok wide) v = fed_in-IsOnce _ (Buf.feed u wide) (same-IsOnce _ _ _ v)

  pub write-IsOnce : (u : List ℕ) (s : Socket) → IsOnce s → IsOnce (write env u s).0
  unfolding write
  write-IsOnce u s v =
      if_cases IsOnceIn (s.closed || s.ending) (λ refused. v)
        (λ allowed. widened-IsOnce u s (make_room u s.wb) v)

  end_written-IsOnce : (r : Socket × Outcome Bool) → IsOnce r.0 → IsOnce (end_written env r).0
  end_written-IsOnce (s, err e) v = v
  end_written-IsOnce (s, ok b) v = begin_end-IsOnce s v

  pub end-IsOnce : (u : Option (List ℕ)) (s : Socket) → IsOnce s → IsOnce (end env u s).0
  unfolding end
  end-IsOnce none s v = begin_end-IsOnce s v
  end-IsOnce (some u) s v = end_written-IsOnce (write env u s) (write-IsOnce u s v)

  pub destroy-IsOnce : (s : Socket) → IsOnce s → IsOnce (destroy env s)
  unfolding destroy
  destroy-IsOnce s v = do_close-IsOnce (record s { ending = true }) (same-IsOnce _ _ _ v)

  read_end-IsOnce : (s : Socket) → IsOnce s → IsOnce (read_end env s)
  unfolding read_end emit
  read_end-IsOnce s v =
      if_cases IsOnce s.read_ended (λ done. v)
        (λ fresh. begin_end-IsOnce _ (
          keeps end_in (note (emitted end_in) (record s { read_ended = true })) (record {
            close_once = v.close_once;
            shut_once = v.shut_once;
            end_once = ap suc (v.end_once ∙ ap count fresh);
          })))

  skipped-IsOnce :
      (next : Socket → Socket × Option String)
      → ((s : Socket) → IsOnce s → IsOnce (next s).0)
      → (s : Socket) (o : Outcome Buf) → IsOnce s
      → IsOnce (skipped env next s o).0
  skipped-IsOnce next rest s (err e) v = v
  skipped-IsOnce next rest s (ok wb) v = rest _ (same-IsOnce s _ _ v)

  answered-IsOnce :
      (next : Socket → Socket × Option String)
      → ((s : Socket) → IsOnce s → IsOnce (next s).0)
      → (s : Socket) (a : SendAnswer) → IsOnce s
      → IsOnce (answered env next s a).0
  answered-IsOnce next rest s busy v = logged-IsOnce _ s refl refl refl v
  answered-IsOnce next rest s (send_threw e) v = v
  answered-IsOnce next rest s (took n) v =
      skipped-IsOnce next rest _ (Buf.skip (pos n) s.wb) (logged-IsOnce _ s refl refl refl v)

  send_loop-IsOnce : (fuel : ℕ) (s : Socket) → IsOnce s → IsOnce (send_loop env fuel s).0
  unfolding send_loop
  send_loop-IsOnce zero s v = v
  send_loop-IsOnce (suc fuel) s v =
      if_cases IsOnceIn (size s.wb == 0) (λ done. v)
        (λ more.
          answered-IsOnce (send_loop env fuel) (send_loop-IsOnce fuel) s
            (env.send s.history (data_view s.wb)) v)

  finish-IsOnce : (s : Socket) → IsOnce s → IsOnce (finish env s)
  finish-IsOnce s v =
      if_cases IsOnce (s.ending && not s.wr_shut)
        (λ due. record {
          close_once = v.close_once;
          shut_once = ap suc (v.shut_once ∙ ap count (not_yet s.ending s.wr_shut due));
          end_once = v.end_once;
        })
        (λ other. v)

  flushed-IsOnce : (r : Socket × Option String) → IsOnce r.0 → IsOnce (flushed env r)
  flushed-IsOnce (s, some e) v = fatal-IsOnce e s v
  flushed-IsOnce (s, none) v =
      let empty : Socket = record s { wb = Buf.reset s.wb } in
      if_cases IsOnce (size s.wb == 0)
        (λ e. finish-IsOnce _ (
          emit-IsOnce drain empty
            (logged-IsOnce (emitted drain) empty refl refl refl (same-IsOnce s _ _ v))))
        (λ more. v)

  flush-IsOnce : (s : Socket) → IsOnce s → IsOnce (flush env s)
  unfolding flush
  flush-IsOnce s v = flushed-IsOnce _ (send_loop-IsOnce (size s.wb) s v)

  mask-IsOnce : (s : Socket) → IsOnce s → IsOnce (mask env s).0
  unfolding mask
  mask-IsOnce s v =
      if_cases IsOnceIn s.closed (λ done. v)
        (λ up.
          if_cases IsOnceIn (s.read_ended && s.wr_shut) (λ both. do_close-IsOnce s v) (λ other. v))

  received-IsOnce : (s : Socket) (a : RecvAnswer) → IsOnce s → IsOnce (received env s a).0
  received-IsOnce s (recv_threw e) v = fatal-IsOnce e s v
  received-IsOnce s nothing_yet v = v
  received-IsOnce s (got []) v = read_end-IsOnce s v
  received-IsOnce s (got (c ∷ cs)) v =
      emit-IsOnce (data_in (c ∷ cs)) s (logged-IsOnce _ s refl refl refl v)

  poll_in-IsOnce : (r : Ready) (t : Socket × Bool) → IsOnce t.0 → IsOnce (poll_in env r t).0
  poll_in-IsOnce r (s, false) v = v
  poll_in-IsOnce r (s, true) v =
      mask-IsOnce _
        (if_cases IsOnce (r.hup && not r.into) (λ hup. read_end-IsOnce s v) (λ other. v))

  poll_rest-IsOnce : (r : Ready) (t : Socket) → IsOnce t → IsOnce (poll_rest env r t).0
  poll_rest-IsOnce r t v =
      if_cases IsOnceIn (r.out && t.closed) (λ gone. v)
        (λ here.
          poll_in-IsOnce r _
            (if_cases IsOnceIn r.into (λ i. received-IsOnce t (env.recv t.history) v) (λ i. v)))

  -- A tick of the poll loop keeps the counts: the descriptor is closed, its write side shut, and
  -- the end announced at most once each, and just when the flag says so. The listeners may do
  -- anything to the socket that keeps the counts too, as its own methods do.
  pub poll-IsOnce : (r : Ready) (s : Socket) → IsOnce s → IsOnce (poll env r s).0
  unfolding poll
  poll-IsOnce r s v =
      if_cases IsOnceIn r.failed (λ bad. fatal-IsOnce "socket error" s v)
        (λ good. poll_rest-IsOnce r _ (if_cases IsOnce r.out (λ o. flush-IsOnce s v) (λ o. v)))
