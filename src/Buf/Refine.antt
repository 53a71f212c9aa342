-- ===== src/Buf/Refine.antt =====
-- Each method of a well-formed Buf does to its live bytes what the queue does.
use quickjab.Prelude.{
  ℕ, ◌+◌, ◌-◌, ◌%◌, ◌≤◌, ◌≡◌, refl, List, ◌++◌, arith, length, replicate, take, drop,
  length-replicate,
}
use quickjab.Int.{ℤ, pos, negsuc}
use quickjab.Outcome.{Outcome, ok, err}
use quickjab.Bytes.{slice}
use quickjab.Bytes.Laws.{
  length-slice, slice-overwrite_extend, slice-overwrite_apart, slice-append-slice,
  slice-overwrite_self, slice-slice, slice-overwrite_inside, take-slice, drop-slice,
  slice-set_extend, slice-set_before, get_elem?-slice,
}
use quickjab.Buf.{
  Buf, feed, feed1, take_front, skip, shed, pop, reset, shift, grow, room, size, data_view,
  past_view,
}
use quickjab.Buf.Inv.{IsBuf}
use quickjab.Buf.Queue
use quickjab.Buf.Queue.{Queue}

abbrev pub view : Buf → Queue
view b = record { past = past_view b; live = data_view b; free = room b }

-- The same reply with the state seen as a queue.
abbrev pub seen {ℓ} : {R : Type ℓ} → Outcome (R × Buf) → Outcome (R × Queue)
seen (ok (r, b)) = ok (r, view b)
seen (err e) = err e

abbrev pub seen_state : Outcome Buf → Outcome Queue
seen_state (ok b) = ok (view b)
seen_state (err e) = err e

module _ {b : Buf} (v : IsBuf b) where
  pub feed_refines : (s : List ℕ) → seen (feed s b) ≡ Queue.feed s (view b)
  unfolding feed Queue.feed
  feed_refines s = ground (
    arith,
    slice-overwrite_extend b.bytes b.data_at b.idle_at s,
    slice-overwrite_apart b.bytes 0 b.data_at b.idle_at s,
  )

  -- What a count inside the live bytes splits them into.
  split_live :
      (k : ℕ)
      → k ≤ size b
      → (take k (data_view b) ≡ slice b.bytes b.data_at (b.data_at + k))
        × (drop k (data_view b) ≡ slice b.bytes (b.data_at + k) b.idle_at)
        × (past_view b ++ slice b.bytes b.data_at (b.data_at + k) ≡ slice b.bytes 0 (b.data_at + k))
  split_live k h = (
    take-slice b.bytes b.data_at b.idle_at k (omega arith),
    drop-slice b.bytes b.data_at b.idle_at k,
    slice-append-slice b.bytes 0 b.data_at (b.data_at + k) (omega arith) (omega arith)
        (omega arith),
  )

  pub live_length : length (data_view b) ≡ size b
  live_length = length-slice b.bytes b.data_at b.idle_at (omega arith)

  pub take_front_refines : (n : ℤ) → seen (take_front n b) ≡ Queue.take_front n (view b)
  unfolding take_front Queue.take_front
  take_front_refines (pos k) = ground (arith, live_length, split_live k)
  take_front_refines (negsuc k) = refl

  pub skip_refines : (n : ℤ) → seen_state (skip n b) ≡ Queue.skip n (view b)
  unfolding skip Queue.skip
  skip_refines (pos k) = ground (arith, live_length, split_live k)
  skip_refines (negsuc k) = refl

  pub shed_refines : (n : ℤ) → seen_state (shed n b) ≡ Queue.shed n (view b)
  unfolding shed Queue.shed
  shed_refines (pos k) =
      ground (arith, live_length, take-slice b.bytes b.data_at b.idle_at (size b - k))
  shed_refines (negsuc k) = refl

  pub pop_refines : seen (pop b) ≡ Queue.pop (view b)
  unfolding pop Queue.pop
  pop_refines = ground (
    arith,
    live_length,
    take-slice b.bytes b.data_at b.idle_at (size b - 1),
    get_elem?-slice b.bytes b.data_at b.idle_at (size b - 1),
  )

  past_length : length (past_view b) ≡ b.data_at
  past_length = omega (arith, length-slice b.bytes 0 b.data_at)

  pub reset_refines : view (reset b) ≡ Queue.reset (view b)
  unfolding reset Queue.reset
  reset_refines = ground (arith, live_length, past_length)

  pub shift_refines : view (shift b) ≡ Queue.shift (view b)
  unfolding shift Queue.shift
  shift_refines = ground (
    arith,
    past_length,
    length-slice b.bytes b.data_at b.idle_at,
    slice-overwrite_self b.bytes 0 (slice b.bytes b.data_at b.idle_at),
  )

  pub grow_refines : (n : ℕ) → seen_state (grow n b) ≡ ok (Queue.grow n (view b))
  unfolding grow Queue.grow
  grow_refines n =
      let zero_byte : ℕ = 0 in
      ground (
        arith,
        past_length,
        live_length,
        length-slice b.bytes 0 b.idle_at,
        length-replicate {A = ℕ} n zero_byte,
        slice-overwrite_inside (replicate n zero_byte) 0 b.data_at 0 (slice b.bytes 0 b.idle_at),
        slice-overwrite_inside (replicate n zero_byte) b.data_at b.idle_at 0
            (slice b.bytes 0 b.idle_at),
        slice-slice b.bytes 0 b.idle_at 0 b.data_at,
        slice-slice b.bytes 0 b.idle_at b.data_at b.idle_at,
      )

  pub feed1_refines : (x : ℕ) → seen (feed1 x b) ≡ Queue.feed1 x (view b)
  unfolding feed1 Queue.feed1
  feed1_refines x = ground (
    arith,
    slice-set_extend b.bytes b.data_at b.idle_at (x % 256),
    slice-set_before b.bytes 0 b.data_at b.idle_at (x % 256),
  )
