-- ===== src/Cont.antt =====
-- The container constructors of cont.c: the lanes, how many bytes a family needs, the view that is
-- built over a mapping, and `abc.close`. The mapping calls of io.c are a parameter (Io). A length
-- is one of a view that begins `offset` bytes into its mapping.
pub mod Lanes
pub mod Size
pub mod Close
pub mod Pack
use quickjab.Prelude.{
  ℕ, zero, suc, ◌+◌, ◌-◌, ◌*◌, ◌/◌, ◌%◌, Bool, true, false, not, List, [], ◌∷◌, Option, none, some,
  String, ltb, ◌==◌, if◌then◌else◌,
}
use quickjab.Int.{ℤ, pos, negsuc}
use quickjab.Outcome.{Outcome, ok, err, ◌>>=◌}
use quickjab.Net.Timers.{to_int32}
use quickjab.Heap.{LaneArray, Answer}
use quickjab.Abc.{Abc}
use quickjab.Hash.{HashLib, HashLane, put_leaf, get_leaf, del_leaf}

-- The keys of `LANE`.
pub data LaneName : Type 0 where
  u8 : LaneName
  u16 : LaneName
  u32 : LaneName
  u64 : LaneName
  kv32 : LaneName
  kv64 : LaneName
  wh64 : LaneName
  wh128 : LaneName
  sha1 : LaneName
  sha256 : LaneName

-- An entry of `LANE`: `A.BYTES_PER_ELEMENT`, and the elements in a slot.
pub record LaneInfo : Type 0 where
  pub element_bytes : ℕ
  pub w : ℕ
  pub pair : Bool
  pub big : Bool
  pub set_lane : Bool
  pub blob : Bool

abbrev number_lane : ℕ → ℕ → Bool → LaneInfo
number_lane b w pair = record {
  element_bytes = b;
  w = w;
  pair = pair;
  big = false;
  set_lane = false;
  blob = false;
}

abbrev big_lane : ℕ → Bool → LaneInfo
big_lane w pair = record {
  element_bytes = 8;
  w = w;
  pair = pair;
  big = true;
  set_lane = false;
  blob = false;
}

abbrev pub lane_info : LaneName → LaneInfo
lane_info u8 = number_lane 1 1 false
lane_info u16 = number_lane 2 1 false
lane_info u32 = number_lane 4 1 false
lane_info u64 = big_lane 1 false
lane_info kv32 = number_lane 4 2 true
lane_info kv64 = big_lane 2 true
lane_info wh64 = big_lane 1 false
lane_info wh128 = record (big_lane 2 true) { set_lane = true }
lane_info sha1 = record (number_lane 1 20 false) { blob = true }
lane_info sha256 = record (number_lane 1 32 false) { blob = true }

-- The key of `PROTO`: "HEAP" or "HASH" before a lane, the logs, or a text that is none of these.
pub data Family : Type 0 where
  heap_of : LaneName → Family
  hash_of : LaneName → Family
  hunk : Family
  ulog : Family
  cfold : Family
  unknown : Family

abbrev pub slot_bytes : LaneName → ℕ
slot_bytes l = (lane_info l).w * (lane_info l).element_bytes

-- `while (p < n) p *= 2`
unfoldable pub double_up : ℕ → ℕ → ℕ → ℕ
double_up zero p n = p
double_up (suc fuel) p n = let rest = double_up fuel (p * 2) n in if ltb p n then rest else p

unfoldable pub pow2up : ℕ → ℕ
unfolding double_up
pow2up n = double_up n 16 n

-- `bytes(family, slots)`
unfoldable pub bytes : Family → ℕ → Outcome ℕ
unfolding pow2up
bytes (heap_of l) slots = ok (slots * (lane_info l).w * (lane_info l).element_bytes)
bytes (hash_of l) slots = ok (pow2up slots * (lane_info l).w * (lane_info l).element_bytes)
bytes unknown slots = err "TypeError"
bytes _ slots = ok slots

-- A container: the bytes of its mapping, the elements of its typed array, `buffer.watermark`,
-- `buffer._path`, and whether its buffer is attached.
pub record Container : Type 0 where
  pub family : Family
  pub length_bytes : ℕ
  pub count : ℕ
  pub watermark : ℕ
  pub path : Option String
  pub attached : Bool

-- `new M.A(buffer, offset, (bytes / M.A.BYTES_PER_ELEMENT) | 0)`
abbrev pub element_count : LaneName → ℕ → ℕ → Outcome ℕ
element_count l offset n =
    if not (offset % (lane_info l).element_bytes == 0)
    then err "RangeError"
    else (elim (to_int32 (n / (lane_info l).element_bytes)) [
      | pos c ↦ ok c
      | negsuc c ↦ err "RangeError"
    ])

abbrev pub fresh : Family → ℕ → ℕ → Container
fresh f n c = record {
  family = f;
  length_bytes = n;
  count = c;
  watermark = 0;
  path = none;
  attached = true;
}

unfoldable pub build : Family → ℕ → ℕ → Outcome Container
build (heap_of l) offset n = element_count l offset n >>= λ c. ok (fresh (heap_of l) n c)
build (hash_of l) offset n = element_count l offset n >>= λ c. ok (fresh (hash_of l) n c)
build unknown offset n = err "abc: unknown family "
build f offset n = ok (fresh f n n)

-- io._ram and io._mmap: how many bytes they map. `io._truncate` returns or throws.
pub record Io : Type 0 where
  pub ram : ℕ → Outcome ℕ
  pub mmap : String → String → ℕ → Outcome ℕ
  pub truncate : String → ℕ → Outcome (Unit {0})

-- The calls that `abc.close` makes.
pub data Call : Type 0 where
  msync : Call
  truncate : String → ℕ → Call
  munmap : Call

-- `M ? (c.size | 0) * M.w * M.A.BYTES_PER_ELEMENT : (b.watermark | 0)` with `M = LANE[c.lane]`; only
-- the HEAP prototypes have a `lane`. `none` is a negative number.
abbrev pub trim_as : Family → ℤ → Option ℕ
trim_as f (negsuc n) = none
trim_as (heap_of l) (pos n) = some (n * (lane_info l).w * (lane_info l).element_bytes)
trim_as f (pos n) = some n

unfoldable pub trim_of : Container → Option ℕ
trim_of c = trim_as c.family (to_int32 c.watermark)

module _ (io : Io) where
  unfoldable pub ram : Family → ℕ → Outcome Container
  unfolding bytes build
  ram f slots = bytes f slots >>= λ n. io.ram n >>= λ m. build f 0 m

  -- `abc.mmap` with a mode that is not empty; "c" creates the file.
  unfoldable pub mmap : Family → String → String → Bool → ℕ → Outcome Container
  unfolding bytes build
  mmap f path mode creates slots =
      (if creates then bytes f slots else ok 0) >>= λ n. io.mmap path mode n >>= λ m. build f 0 m

  -- `abc.over`, of a view on `n` bytes
  unfoldable pub over : Family → ℕ → ℕ → Outcome Container
  unfolding build
  over f offset n = build f offset n

  unfoldable pub book : Family → String → ℕ → Outcome Container
  unfolding bytes build
  book f path slots = bytes f slots >>= λ n.
      io.mmap path "c" n >>= λ m. build f 0 m >>= λ c. ok (record c { path = some path })

  abbrev pub detached : Container → Container
  detached c = record c { attached = false; length_bytes = 0; count = 0 }

  abbrev pub truncated :
      String → ℕ → Container → Outcome (Unit {0}) → Outcome (Unit {0}) × Container × List Call
  truncated path n c (ok _) = (ok tt, c, msync ∷ truncate path n ∷ munmap ∷ [])
  truncated path n c (err e) = (err e, c, msync ∷ truncate path n ∷ [])

  -- What follows `io._msync`.
  abbrev pub trimmed :
      Option String → Option ℕ → Container → Outcome (Unit {0}) × Container × List Call
  trimmed (some path) (some n) c = truncated path n c (io.truncate path n)
  trimmed _ _ c = (ok tt, c, msync ∷ munmap ∷ [])

  unfoldable pub close : Container → Outcome (Unit {0}) × Container × List Call
  unfolding trim_of
  close c = if not c.attached then (ok tt, c, []) else trimmed c.path (trim_of c) (detached c)

-- The verbs of a HASH container.
pub data Verb (A : Type 0) : Type 0 where
  put : Outcome A → Verb A
  get : Outcome A → Verb A
  del : Outcome A → Verb A

module _ {A : Type 0} (abc : Abc) (lane : HashLane) (lib : HashLib A) where
  -- `put(this, ...)`, `get(this, ...)`, `del(this, ...)`: the slots are all they change.
  unfoldable pub verb : Verb A → LaneArray A × Container → LaneArray A × Container
  unfolding put_leaf get_leaf del_leaf
  verb (put v) (arr, c) = (record arr { slots = (put_leaf abc lane lib lane.put_args arr v).1 }, c)
  verb (get v) (arr, c) = (record arr { slots = (get_leaf abc lane lib lane.key_args arr v).1 }, c)
  verb (del v) (arr, c) = (record arr { slots = (del_leaf abc lane lib lane.key_args arr v).1 }, c)

  unfoldable pub verbs : List (Verb A) → LaneArray A × Container → LaneArray A × Container
  unfolding verb
  verbs [] t = t
  verbs (v ∷ vs) t = verbs vs (verb v t)
