-- ===== src/Cont/Lanes.antt =====
-- How heap.c and hash.c instantiate their leaves for each lane: the sizes of an element, the counts of
-- arguments, and which marshal shape reads and shows it.
use quickjab.Prelude.{ℕ, ◌≡◌, refl, String, List}
use quickjab.Outcome.{Outcome, ok, ◌>>=◌}
use quickjab.Abc.{Abc}
use quickjab.Arg.{Double, Value, object, Array, not_array}
use quickjab.Heap.{Lane}
use quickjab.Heap.Lanes.{num_of, big_u64_of, pair_of, blob_of}
use quickjab.Hash.{HashLane}
use quickjab.Cont.{LaneName, u8, u16, u32, u64, kv32, kv64, wh64, wh128, sha1, sha256, slot_bytes}

-- An element of a lane.
pub data Element : Type 0 where
  scalar_of : ℕ → Element
  key_val : ℕ → ℕ → Element
  blob_bytes : List ℕ → Element

-- An argument: a typed array, or a value that is none.
pub data LaneArg : Type 0 where
  plain_arg : Value → LaneArg
  array_arg : Array → LaneArg

abbrev pub as_value : LaneArg → Value
as_value (plain_arg v) = v
as_value (array_arg a) = object

abbrev pub as_array : LaneArg → Array
as_array (plain_arg v) = not_array
as_array (array_arg a) = a

abbrev pub scalar_element : Outcome ℕ → Outcome Element
scalar_element o = o >>= λ n. ok (scalar_of n)

abbrev pub pair_element : Outcome (ℕ × ℕ) → Outcome Element
pair_element o = o >>= λ p. ok (key_val p.0 p.1)

abbrev pub blob_element : Outcome (List ℕ) → Outcome Element
blob_element o = o >>= λ b. ok (blob_bytes b)

-- `sizeof(LANE)`
unfoldable pub element_size : LaneName → ℕ
element_size u8 = 1
element_size u16 = 2
element_size u32 = 4
element_size u64 = 8
element_size kv32 = 8
element_size kv64 = 16
element_size wh64 = 8
element_size wh128 = 16
element_size sha1 = 20
element_size sha256 = 32

-- The NPUSH of heap.c, with the texts of its usage.
unfoldable pub heap_lane : String → String → LaneName → Lane
unfolding element_size
heap_lane push pop kv32 = record { size = 8; push_args = 4; push_usage = push; pop_usage = pop }
heap_lane push pop kv64 = record { size = 16; push_args = 4; push_usage = push; pop_usage = pop }
heap_lane push pop wh128 = record { size = 16; push_args = 4; push_usage = push; pop_usage = pop }
heap_lane push pop l = record {
  size = element_size l;
  push_args = 3;
  push_usage = push;
  pop_usage = pop;
}

abbrev pub hash_arity : ℕ → ℕ → ℕ → String → String → String → HashLane
hash_arity size put_args key_args put get del = record {
  size = size;
  put_args = put_args;
  key_args = key_args;
  put_usage = put;
  get_usage = get;
  del_usage = del;
}

-- The NPUT and NKEY of hash.c, with the texts of its usage.
unfoldable pub hash_lane : String → String → String → LaneName → HashLane
unfolding element_size
hash_lane put get del kv32 = hash_arity 8 3 2 put get del
hash_lane put get del kv64 = hash_arity 16 3 2 put get del
hash_lane put get del wh128 = hash_arity 16 3 3 put get del
hash_lane put get del l = hash_arity (element_size l) 2 2 put get del

module _ (abc : Abc) (cast : ℕ → Double → ℕ) (int64_ext : Value → Outcome ℕ) where
  -- The element that a push or a put reads from the arguments behind the array, the second of them
  -- where the lane has pairs.
  unfoldable pub element_of : String → LaneName → LaneArg → LaneArg → Outcome Element
  unfolding num_of big_u64_of pair_of blob_of
  element_of blob_text u8 a b = scalar_element (num_of 8 (cast 8) (as_value a))
  element_of blob_text u16 a b = scalar_element (num_of 16 (cast 16) (as_value a))
  element_of blob_text u32 a b = scalar_element (num_of 32 (cast 32) (as_value a))
  element_of blob_text u64 a b = scalar_element (big_u64_of int64_ext (as_value a))
  element_of blob_text wh64 a b = scalar_element (big_u64_of int64_ext (as_value a))
  element_of blob_text kv32 a b =
      pair_element (pair_of (num_of 32 (cast 32)) (as_value a) (as_value b))
  element_of blob_text kv64 a b =
      pair_element (pair_of (big_u64_of int64_ext) (as_value a) (as_value b))
  element_of blob_text wh128 a b =
      pair_element (pair_of (big_u64_of int64_ext) (as_value a) (as_value b))
  element_of blob_text sha1 a b = blob_element (blob_of blob_text abc 20 (as_array a))
  element_of blob_text sha256 a b = blob_element (blob_of blob_text abc 32 (as_array a))

  -- What a lookup of hash.c reads. On a map from keys only the key is set, and the value is whatever
  -- the memory held; the other lanes are looked up by the whole element.
  unfoldable pub key_element : ℕ → LaneName → LaneArg → LaneArg → Outcome Element
  unfolding element_of
  key_element unset kv32 a b = num_of 32 (cast 32) (as_value a) >>= λ k. ok (key_val k unset)
  key_element unset kv64 a b = big_u64_of int64_ext (as_value a) >>= λ k. ok (key_val k unset)
  key_element unset l a b = element_of "hash: blob size" l a b

-- WRGET of hash.c: a map from keys shows the value, the other lanes the element.
unfoldable pub shown_value : LaneName → Element → Element
shown_value kv32 (key_val k v) = scalar_of v
shown_value kv64 (key_val k v) = scalar_of v
shown_value l e = e

-- An element is as large in C as a slot that cont.c reserves for it, on every lane.
pub element_size-slot_bytes : (l : LaneName) → element_size l ≡ slot_bytes l
unfolding element_size
element_size-slot_bytes u8 = refl
element_size-slot_bytes u16 = refl
element_size-slot_bytes u32 = refl
element_size-slot_bytes u64 = refl
element_size-slot_bytes kv32 = refl
element_size-slot_bytes kv64 = refl
element_size-slot_bytes wh64 = refl
element_size-slot_bytes wh128 = refl
element_size-slot_bytes sha1 = refl
element_size-slot_bytes sha256 = refl
