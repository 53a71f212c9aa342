-- ===== src/Hash.antt =====
-- The hash leaves of hash.c over the typed array of one lane, which is the table as a whole. The
-- HASH template of abc is a parameter (HashLib). The marshal shapes are those of Heap.Lanes.
pub mod Shape
use quickjab.Prelude.{
  ℕ, zero, suc, ◌+◌, ◌-◌, ◌*◌, ◌/◌, ◌%◌, Bool, not, ◌||◌, List, Option, none, some, String, ltb,
  ◌==◌, if◌then◌else◌,
}
use quickjab.Outcome.{Outcome, ok, err, ◌>>=◌}
use quickjab.Abc.{Abc}
use quickjab.Arg.{data_of, data_length}
use quickjab.Heap.{LaneArray, Answer, gated}

-- HASH<lane>Put, Get and Del on the slots: the new slots of a Put that finds room, the element that
-- Get finds, and the slots after Del.
pub record HashLib (A : Type 0) : Type 0 where
  pub put : List A → A → Option (List A)
  pub get : List A → A → Option A
  pub del : List A → A → List A

-- `sizeof(LANE)`, the arguments that put and lookups take, and the texts thrown when there are fewer.
pub record HashLane : Type 0 where
  pub size : ℕ
  pub put_args : ℕ
  pub key_args : ℕ
  pub put_usage : String
  pub get_usage : String
  pub del_usage : String

-- `a & b` of numbers below 2^w
unfoldable pub bit_and : ℕ → ℕ → ℕ → ℕ
bit_and zero a b = 0
bit_and (suc w) a b = a % 2 * (b % 2) + 2 * bit_and w (a / 2) (b / 2)

-- `!(n < JABC_HASH_LINE || (n & (n - 1)))`
unfoldable pub is_table : ℕ → Bool
unfolding bit_and
is_table n = not (ltb n 16 || not (bit_and 64 n (n - 1) == 0))

-- JABCLaneArr of hash.c
unfoldable pub table_cap : {A : Type 0} → Abc → HashLane → LaneArray A → Outcome ℕ
unfolding is_table data_of
table_cap abc lane arr = data_of abc arr.view >>= λ b.
    let n = data_length b / lane.size in
    if not (is_table n)
    then (err
        "Error: hash: the table needs a power-of-two slot count of at least 16 (use abc.ram/abc.mmap)")
    else ok n

module _ {A : Type 0} (abc : Abc) (lane : HashLane) (lib : HashLib A) where
  abbrev pub put_result : List A → Option (List A) → Answer A (Unit {0})
  put_result s none = (err "hash: full", s)
  put_result s (some t) = (ok tt, t)

  -- jhash_<lane>_put; the value is what RDPUT reads.
  unfoldable pub put_leaf : ℕ → LaneArray A → Outcome A → Answer A (Unit {0})
  unfolding table_cap
  put_leaf argc arr value =
      if ltb argc lane.put_args
      then (err lane.put_usage, arr.slots)
      else (gated (table_cap abc lane arr) arr.slots
          λ cap. gated value arr.slots λ v. put_result arr.slots (lib.put arr.slots v))

  -- jhash_<lane>_get; `none` is undefined.
  unfoldable pub get_leaf : ℕ → LaneArray A → Outcome A → Answer A (Option A)
  unfolding table_cap
  get_leaf argc arr key =
      if ltb argc lane.key_args
      then (err lane.get_usage, arr.slots)
      else (gated (table_cap abc lane arr) arr.slots
          λ cap. gated key arr.slots λ v. (ok (lib.get arr.slots v), arr.slots))

  -- jhash_<lane>_del
  unfoldable pub del_leaf : ℕ → LaneArray A → Outcome A → Answer A (Unit {0})
  unfolding table_cap
  del_leaf argc arr key =
      if ltb argc lane.key_args
      then (err lane.del_usage, arr.slots)
      else (gated (table_cap abc lane arr) arr.slots
          λ cap. gated key arr.slots λ v. (ok tt, lib.del arr.slots v))
