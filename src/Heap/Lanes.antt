-- ===== src/Heap/Lanes.antt =====
-- The marshal shapes of heap.c: how a pushed JS value becomes an element of its lane, and back.
use quickjab.Prelude.{
  String, ℕ, ◌<◌, ◌^◌, ◌≡◌, Bool, false, not, List, arith, ltb, ◌==◌, if◌then◌else◌,
}
use quickjab.Int.{pos, negsuc}
use quickjab.Outcome.{Outcome, ok, err, ◌>>=◌}
use quickjab.Abc.{Abc}
use quickjab.Arg.{
  Double, whole, between, Value, object, number, Array, scalar, to_u64, data_of, data_length,
}
use quickjab.Bytes.{slice}

-- The double's whole part is a number of this many bits.
abbrev pub castable : ℕ → Double → Bool
castable w (whole (pos n)) = ltb n (2 ^ w)
castable w (between (pos n)) = ltb n (2 ^ w)
castable w (between (negsuc n)) = n == 0
castable w _ = false

-- JABCNumOf, then `(LANE)d_`, which C leaves open (`cast`) where the value does not fit.
unfoldable pub num_of : ℕ → (Double → ℕ) → Value → Outcome ℕ
unfolding scalar
num_of w cast v = scalar v >>= λ d. ok (if castable w d then to_u64 d else cast d)

-- JABCBigU64Of; JS_ToInt64Ext is the engine's, its 64 bits as they are.
unfoldable pub big_u64_of : (Value → Outcome ℕ) → Value → Outcome ℕ
big_u64_of int64_ext object = err "expected a number, not an object"
big_u64_of int64_ext v = int64_ext v

-- HEAP_PN and HEAP_PB: the key is read first.
unfoldable pub pair_of : (Value → Outcome ℕ) → Value → Value → Outcome (ℕ × ℕ)
pair_of read k v = read k >>= λ key. read v >>= λ val. ok (key, val)

-- HEAP_BLOB and HASH_BLOB_RD: exactly `sizeof(LANE)` bytes, or the text given.
unfoldable pub blob_of : String → Abc → ℕ → Array → Outcome (List ℕ)
unfolding data_of
blob_of message abc size arg = data_of abc arg >>= λ b.
    if not (data_length b == size) then err message else ok (slice b.mem b.data_at b.idle_at)

-- A number that a NUM lane hands back reads as itself when it is pushed again, on a lane of any
-- width that it fits.
pub num_of-number :
    (w : ℕ) (cast : Double → ℕ) (n : ℕ) → n < 2 ^ w → num_of w cast (number (whole (pos n))) ≡ ok n
unfolding num_of scalar
num_of-number w cast n h = ground (arith, h)
