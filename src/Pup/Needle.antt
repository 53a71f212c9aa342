-- ===== src/Pup/Needle.antt =====
-- The needles and keys of the index leaves: what the gate of a lane makes of a JS value.
use quickjab.Prelude.{ℕ, ◌≡◌, ◌≤◌, ◌↔◌, not, ◌||◌, arith, if◌then◌else◌}
use quickjab.Int.{pos, negsuc}
use quickjab.Outcome.{Outcome, ok, err, ◌>>=◌}
use quickjab.Arg.{
  Value, object, number, unconvertible, whole, scalar, at_least_zero, above, is_whole, to_u64,
}
use quickjab.Heap.Lanes.{big_u64_of}
use quickjab.Pup.Table.{IndexLane, kv64, wh128, u64, u32}

abbrev pub max_u32 : ℕ
max_u32 = 4294967295

-- JABCPupU32
unfoldable pub u32_needle : Value → Outcome ℕ
unfolding scalar
u32_needle v = scalar v >>= λ d.
    if not (at_least_zero d) || above max_u32 d || not (is_whole d)
    then err "the u32 index takes a whole number under 2^32"
    else ok (to_u64 d)

-- PUP_RD, whose pair lanes read the key alone; the conversion of a BigInt is given.
unfoldable pub needle_of : (Value → Outcome ℕ) → IndexLane → Value → Outcome ℕ
unfolding u32_needle big_u64_of
needle_of int64_ext kv64 v = big_u64_of int64_ext v
needle_of int64_ext wh128 v = big_u64_of int64_ext v
needle_of int64_ext u64 v = big_u64_of int64_ext v
needle_of int64_ext u32 v = u32_needle v

-- The u32 lane takes the whole numbers below 2^32, as they are, and nothing else.
pub u32_needle_iff :
    (v : Value) (n : ℕ) → (u32_needle v ≡ ok n) ↔ ((v ≡ number (whole (pos n))) × (n ≤ max_u32))
unfolding u32_needle
u32_needle_iff v n = (sound v, complete)
  where
    sound : (w : Value) → u32_needle w ≡ ok n → (w ≡ number (whole (pos n))) × (n ≤ max_u32)
    sound object e = cc e
    sound (unconvertible x) e = cc e
    sound (number (whole (pos m))) e = ground (arith, e)
    sound (number (whole (negsuc m))) e = cc e
    sound (number d) e = ground (arith, e)

    complete : (v ≡ number (whole (pos n))) × (n ≤ max_u32) → u32_needle v ≡ ok n
    complete h = rw h.0 (ground (arith, h.1))
