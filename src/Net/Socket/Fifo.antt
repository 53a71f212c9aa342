-- ===== src/Net/Socket/Fifo.antt =====
-- `write` appends to the bytes that wait in the FIFO.
use quickjab.Prelude.{
  ap, ◌∙◌, ℕ, ◌+◌, ◌≤◌, ◌≡◌, refl, List, ◌++◌, false, true, arith, ltb, length, max, ◌*◌,
  Bool-cases, inl, inr,
}
use quickjab.Outcome.{ok, Outcome-cases}
use quickjab.Buf
use quickjab.Buf.{Buf, size, room, data_view}
use quickjab.Buf.Queue
use quickjab.Bytes.{overwrite}
use quickjab.Bytes.Laws.{slice-overwrite_extend, length-overwrite}
use quickjab.Buf.Inv.{IsBuf, shift-IsBuf, grow-IsBuf}
use quickjab.Buf.Refine.{shift_refines, grow_refines, view}
use quickjab.Net.Socket.{asked_out, note, Env, Socket, make_room, write}

-- The same waiting bytes, and room for n more.
record IsRoomy (n : ℕ) (b c : Buf) : Type 0 where
  buf : IsBuf c
  same : data_view c ≡ data_view b
  fits : n ≤ room c

shift_same : {b : Buf} (v : IsBuf b) → data_view (Buf.shift b) ≡ data_view b
unfolding quickjab.Buf.Queue.shift
shift_same v = ap (λ q. q.live) (shift_refines v)

shift_places : (b : Buf) → ((Buf.shift b).data_at ≡ 0) × ((Buf.shift b).idle_at ≡ size b)
unfolding Buf.shift
shift_places b = ground arith

grow_lem :
    (n k : ℕ) {b : Buf} (v : IsBuf b)
    → b.idle_at + k ≤ n
    → (c : Buf) × (Buf.grow n b ≡ ok c) × IsRoomy k b c
unfolding quickjab.Buf.Queue.grow Buf.grow
grow_lem n k {b} v h = elim (Outcome-cases (Buf.grow n b)) [
  | inr (x, e) ↦ absurd (ground (arith, e, grow_refines v n))
  | inl (c, e) ↦ (c, e, record { buf = grow-IsBuf v n e; same = same_live c e; fits = wide c e })
]
  where
    seen_c : (c : Buf) → Buf.grow n b ≡ ok c → view c ≡ Queue.grow n (view b)
    seen_c c e = ground (arith, e, grow_refines v n)

    same_live : (c : Buf) → Buf.grow n b ≡ ok c → data_view c ≡ data_view b
    same_live c e = ap (λ q. q.live) (seen_c c e)

    wide : (c : Buf) → Buf.grow n b ≡ ok c → k ≤ room c
    wide c e = ground (arith, e)

make_room_lem :
    (u : List ℕ) {b : Buf} (v : IsBuf b)
    → (c : Buf) × (make_room u b ≡ ok c) × IsRoomy (length u) b c
unfolding make_room
make_room_lem u {b} v = elim (Bool-cases (ltb (room b) (length u))) [
  | inr fits ↦ (b, rw fits, record { buf = v; same = refl; fits = ground (arith, fits) })
  | inl over ↦ elim (Bool-cases (ltb (room (Buf.shift b)) (length u))) [
    | inr fits ↦ (
      Buf.shift b,
      rw (over, fits),
      record { buf = shift-IsBuf v; same = shift_same v; fits = ground (arith, fits) },
    )
    | inl short ↦ regrown over short
  ]
]
  where
    moved : Buf
    moved = Buf.shift b

    wanted : ℕ
    wanted = max (moved.cap * 2) (size moved + length u)

    regrown :
        ltb (room b) (length u) ≡ true
        → ltb (room moved) (length u) ≡ true
        → (c : Buf) × (make_room u b ≡ ok c) × IsRoomy (length u) b c
    regrown over short =
        let (c, e, roomy) =
          grow_lem wanted (length u) (shift-IsBuf v) (omega (arith, shift_places b)) in
        (
          c,
          rw (over, short) e,
          record { buf = roomy.buf; same = roomy.same ∙ shift_same v; fits = roomy.fits },
        )

feed_lem :
    (u : List ℕ) {b : Buf} (v : IsBuf b)
    → length u ≤ room b
    → (c : Buf) × (Buf.feed u b ≡ ok (length u, c)) × (data_view c ≡ data_view b ++ u) × IsBuf c
unfolding Buf.feed
feed_lem u {b} v h =
    let laid = length-overwrite b.bytes b.idle_at u in
    (
      record b { bytes = overwrite b.bytes b.idle_at u; idle_at = b.idle_at + length u },
      ground (arith, laid),
      ground (arith, slice-overwrite_extend b.bytes b.data_at b.idle_at u),
      ground (arith, laid),
    )

module _ (env : Env) (s : Socket) (v : IsBuf s.wb) where
  -- On an open socket whose end was not asked for, `write` never fails for want of room: it puts
  -- its bytes behind those that wait, asks the poll loop to drain them, and answers whether fewer
  -- than 256 KiB wait now. The descriptor is tracked by the poll loop.
  pub write_appends :
      (u : List ℕ)
      → s.closed ≡ false
      → s.ending ≡ false
      → env.more s.history ≡ ok tt
      → (c : Buf) × (write env u s
          ≡ (note asked_out (record s { wb = c }), ok (ltb (size c) 262144)))
        × (data_view c ≡ data_view s.wb ++ u)
        × IsBuf c
  unfolding write
  write_appends u up going tracked =
      let (wide, e, roomy) = make_room_lem u v in
      let (fed, f, appended, valid) = feed_lem u roomy.buf roomy.fits in
      (fed, rw (up, going, e, f, tracked), appended ∙ ap (λ l. l ++ u) roomy.same, valid)
