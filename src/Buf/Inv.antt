-- ===== src/Buf/Inv.antt =====
-- The representation invariant of Buf: PAST, DATA and IDLE lie in this order inside the bytes.
use quickjab.Prelude.{
  ℕ, ◌%◌, ◌≤◌, ◌≡◌, List, some, Option, arith, length, length-set, length-replicate, replicate,
}
use quickjab.Int.{ℤ}
use quickjab.Outcome.{ok}
use quickjab.Bytes.{slice}
use quickjab.Bytes.Laws.{length-slice, length-overwrite}
use quickjab.Buf.{
  Buf, over, into, feed, feed1, fed, take_front, skip, shed, pop, reset, shift, grow,
}

pub record IsBuf (b : Buf) : Type 0 where
  pub ordered : b.data_at ≤ b.idle_at
  pub within : b.idle_at ≤ b.cap
  pub sized : b.cap ≡ length b.bytes

pub over-IsBuf : (u : List ℕ) {b : Buf} → over u ≡ some b → IsBuf b
unfolding over
over-IsBuf u e = ground arith

pub into-IsBuf : (u : List ℕ) {b : Buf} → into u ≡ some b → IsBuf b
unfolding into
into-IsBuf u e = ground arith

module _ {b : Buf} (v : IsBuf b) where
  pub feed-IsBuf : (s : List ℕ) {n : ℕ} {c : Buf} → feed s b ≡ ok (n, c) → IsBuf c
  unfolding feed
  feed-IsBuf s e = ground (arith, length-overwrite b.bytes b.idle_at s)

  pub feed1-IsBuf : (x : ℕ) {n : ℕ} {c : Buf} → feed1 x b ≡ ok (n, c) → IsBuf c
  unfolding feed1
  feed1-IsBuf x e = ground (arith, length-set b.bytes b.idle_at (x % 256))

  pub fed-IsBuf : (n : ℤ) {c : Buf} → fed n b ≡ ok c → IsBuf c
  unfolding fed
  fed-IsBuf n e = ground arith

  pub take_front-IsBuf : (n : ℤ) {s : List ℕ} {c : Buf} → take_front n b ≡ ok (s, c) → IsBuf c
  unfolding take_front
  take_front-IsBuf n e = ground arith

  pub skip-IsBuf : (n : ℤ) {c : Buf} → skip n b ≡ ok c → IsBuf c
  unfolding skip
  skip-IsBuf n e = ground arith

  pub shed-IsBuf : (n : ℤ) {c : Buf} → shed n b ≡ ok c → IsBuf c
  unfolding shed
  shed-IsBuf n e = ground arith

  pub pop-IsBuf : {x : Option ℕ} {c : Buf} → pop b ≡ ok (x, c) → IsBuf c
  unfolding pop
  pop-IsBuf e = ground arith

  pub reset-IsBuf : IsBuf (reset b)
  unfolding reset
  reset-IsBuf = ground arith

  pub shift-IsBuf : IsBuf (shift b)
  unfolding shift
  shift-IsBuf = ground (
    arith,
    length-slice b.bytes b.data_at b.idle_at,
    length-overwrite b.bytes 0 (slice b.bytes b.data_at b.idle_at),
  )

  pub grow-IsBuf : (n : ℕ) {c : Buf} → grow n b ≡ ok c → IsBuf c
  unfolding grow
  grow-IsBuf n e =
      let zero_byte : ℕ = 0 in
      ground (
        arith,
        length-overwrite (replicate n zero_byte) 0 (slice b.bytes 0 b.idle_at),
        length-replicate n zero_byte,
      )
