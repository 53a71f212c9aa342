-- ===== src/Net/Socket.antt =====
-- The Socket class of net.c. The kernel, `pol.more` and the listeners are given by `Env`; a
-- listener may call the socket again, and does not throw. The read buffer holds nothing from one
-- tick to the next, so the bytes received stand in the `data` event.
pub mod Fifo
pub mod Flush
pub mod Once
pub mod Fin
use quickjab.Prelude.{
  ℕ, zero, suc, ◌+◌, ◌*◌, max, Bool, true, false, not, ◌&&◌, ◌||◌, List, [], ◌∷◌, Option, none,
  some, String, ltb, ◌==◌, if◌then◌else◌, length, take,
}
use quickjab.Int.{pos}
use quickjab.Outcome.{Outcome, ok, err, ◌>>=◌}
use quickjab.Buf
use quickjab.Buf.{Buf, size, room, data_view}

pub data Event : Type 0 where
  data_in : List ℕ → Event
  end_in : Event
  drain : Event
  error : String → Event
  closing : Event

-- What a socket did to the outside, for the history.
pub data Effect : Type 0 where
  emitted : Event → Effect
  sent_out : List ℕ → Effect
  would_block : Effect
  shut_write : Effect
  closed_fd : Effect
  asked_out : Effect

pub record Socket : Type 0 where
  pub wb : Buf
  pub read_ended : Bool
  pub ending : Bool
  pub wr_shut : Bool
  pub closed : Bool
  -- The last effect first.
  pub history : List Effect

-- The answer of net._send: a count, -1, or a throw.
pub data SendAnswer : Type 0 where
  took : ℕ → SendAnswer
  busy : SendAnswer
  send_threw : String → SendAnswer

-- The answer of net._recv: bytes (none at the end of the stream), -1, or a throw.
pub data RecvAnswer : Type 0 where
  got : List ℕ → RecvAnswer
  nothing_yet : RecvAnswer
  recv_threw : String → RecvAnswer

-- Each answer may depend on all that the socket did before.
pub record Env : Type 0 where
  pub send : List Effect → List ℕ → SendAnswer
  pub recv : List Effect → RecvAnswer
  pub more : List Effect → Outcome (Unit {0})
  pub listen : Event → Socket → Socket

abbrev pub note : Effect → Socket → Socket
note x s = record s { history = x ∷ s.history }

-- The bits of `revents` that `_poll` reads.
pub record Ready : Type 0 where
  pub failed : Bool
  pub out : Bool
  pub into : Bool
  pub hup : Bool

-- The interest mask that a tick returns; `dropped` is 0.
pub data Mask : Type 0 where
  dropped : Mask
  interest : Bool → Bool → Mask

-- The FIFO makes room: first by compaction, then by growing to twice the size or more.
unfoldable pub make_room : List ℕ → Buf → Outcome Buf
make_room u wb =
    if ltb (room wb) (length u)
    then (let moved = Buf.shift wb in
        if ltb (room moved) (length u)
        then Buf.grow (max (moved.cap * 2) (size moved + length u)) moved
        else ok moved)
    else ok wb

module _ (env : Env) where
  unfoldable pub emit : Event → Socket → Socket
  emit e s = env.listen e (note (emitted e) s)

  -- `_doClose`
  unfoldable pub do_close : Socket → Socket
  unfolding emit
  do_close s = if s.closed then s else emit closing (note closed_fd (record s { closed = true }))

  -- `_fatal`
  unfoldable pub fatal : String → Socket → Socket
  unfolding emit do_close
  fatal e s = do_close (emit (error e) s)

  abbrev pub ask_more : Socket → Socket × Outcome (Unit {0})
  ask_more s = (note asked_out s, env.more s.history)

  abbrev pub fed_in : Socket → Outcome (ℕ × Buf) → Socket × Outcome Bool
  fed_in s (err e) = (s, err e)
  fed_in s (ok (n, fed)) =
      let (t, asked) = ask_more (record s { wb = fed }) in
      (t, asked >>= λ done. ok (ltb (size fed) 262144))

  abbrev pub widened : List ℕ → Socket → Outcome Buf → Socket × Outcome Bool
  widened u s (err e) = (s, err e)
  widened u s (ok wide) = fed_in (record s { wb = wide }) (Buf.feed u wide)

  -- What the caller gets, with the socket that is left also after a throw.
  unfoldable pub write : List ℕ → Socket → Socket × Outcome Bool
  unfolding make_room
  write u s = if s.closed || s.ending then (s, ok false) else widened u s (make_room u s.wb)

  -- `end(data)`; a throw of `pol.more` is caught here, one of `write` is not.
  abbrev pub begin_end : Socket → Socket
  begin_end s =
      if s.closed then record s { ending = true } else note asked_out (record s { ending = true })

  abbrev pub end_written : Socket × Outcome Bool → Socket × Outcome (Unit {0})
  end_written (s, err e) = (s, err e)
  end_written (s, ok b) = (begin_end s, ok tt)

  unfoldable pub end : Option (List ℕ) → Socket → Socket × Outcome (Unit {0})
  unfolding write
  end none s = (begin_end s, ok tt)
  end (some u) s = end_written (write u s)

  unfoldable pub destroy : Socket → Socket
  unfolding do_close
  destroy s = do_close (record s { ending = true })

  -- `_readEnd`
  unfoldable pub read_end : Socket → Socket
  unfolding emit
  read_end s = if s.read_ended then s else begin_end (emit end_in (record s { read_ended = true }))

  -- One round of the loop of `_flush`; `next` is the rest, the text is what was thrown out of it.
  abbrev pub skipped :
      (Socket → Socket × Option String) → Socket → Outcome Buf → Socket × Option String
  skipped next s (err e) = (s, some e)
  skipped next s (ok wb) = next (record s { wb = wb })

  abbrev pub answered :
      (Socket → Socket × Option String) → Socket → SendAnswer → Socket × Option String
  answered next s busy = (note would_block s, none)
  answered next s (send_threw e) = (s, some e)
  answered next s (took n) =
      skipped next (note (sent_out (take n (data_view s.wb))) s) (Buf.skip (pos n) s.wb)

  unfoldable pub send_loop : ℕ → Socket → Socket × Option String
  send_loop zero s = (s, none)
  send_loop (suc fuel) s =
      if size s.wb == 0
      then (s, none)
      else answered (send_loop fuel) s (env.send s.history (data_view s.wb))

  -- The FIN that is due once the listeners of `drain` returned.
  abbrev pub finish : Socket → Socket
  finish s = if s.ending && not s.wr_shut then note shut_write (record s { wr_shut = true }) else s

  abbrev pub flushed : Socket × Option String → Socket
  flushed (s, some e) = fatal e s
  flushed (s, none) =
      if size s.wb == 0 then finish (emit drain (record s { wb = Buf.reset s.wb })) else s

  -- `_flush`, with as much fuel as there are bytes.
  unfoldable pub flush : Socket → Socket
  unfolding send_loop emit fatal
  flush s = flushed (send_loop (size s.wb) s)

  -- `_mask`
  unfoldable pub mask : Socket → Socket × Mask
  unfolding do_close
  mask s =
      if s.closed
      then (s, dropped)
      else if s.read_ended && s.wr_shut
      then (do_close s, dropped)
      else (let in_bit = not s.read_ended in
          let out_bit = not (size s.wb == 0) || (s.ending && not s.wr_shut) in
          (s, if in_bit || out_bit then interest in_bit out_bit else interest true false))

  -- The read part of a tick; false where the socket failed.
  abbrev pub received : Socket → RecvAnswer → Socket × Bool
  received s (recv_threw e) = (fatal e s, false)
  received s nothing_yet = (s, true)
  received s (got []) = (read_end s, true)
  received s (got (c ∷ cs)) = (emit (data_in (c ∷ cs)) s, true)

  abbrev pub read_in : Socket → Socket × Bool
  read_in s = received s (env.recv s.history)

  abbrev pub poll_end : Ready → Socket → Socket × Mask
  poll_end r s = mask (if r.hup && not r.into then read_end s else s)

  abbrev pub poll_in : Ready → Socket × Bool → Socket × Mask
  poll_in r (s, false) = (s, dropped)
  poll_in r (s, true) = poll_end r s

  abbrev pub poll_rest : Ready → Socket → Socket × Mask
  poll_rest r t =
      if r.out && t.closed
      then (t, dropped)
      else poll_in r (if r.into then read_in t else (t, true))

  -- One tick of the poll loop.
  unfoldable pub poll : Ready → Socket → Socket × Mask
  unfolding fatal flush mask read_end
  poll r s =
      if r.failed
      then (fatal "socket error" s, dropped)
      else poll_rest r (if r.out then flush s else s)
