-- ===== src/Heap.antt =====
-- The heap leaves of heap.c over the typed array of one lane, and the verbs push, feed, pop and
-- peek that cont.c puts on a HEAP container. A leaf gets the array and its watermark from JS, checks
-- them, and calls the HEAP template of abc, which is a parameter (HeapLib).
pub mod Lanes
pub mod Verbs
pub mod Order
pub mod Feed
use quickjab.Prelude.{
  ℕ, zero, suc, ◌+◌, ◌-◌, ◌*◌, ◌/◌, Bool, not, ◌&&◌, ◌||◌, List, [], ◌∷◌, Option, none, some,
  String, ltb, ◌==◌, if◌then◌else◌, length, take, get_elem?,
}
use quickjab.Int.{pos}
use quickjab.Outcome.{Outcome, ok, err, ◌>>=◌}
use quickjab.Abc.{Abc}
use quickjab.Arg.{Value, number, whole, Array, u64_of, data_of, data_length}

-- HEAP<lane>Push and HEAP<lane>Pop on a buffer with DATA [0, n) inside the slots: the slots and the
-- end of DATA after the call. `none` is a return code other than OK, with nothing changed.
pub record HeapLib (A : Type 0) : Type 0 where
  pub push : List A → ℕ → A → Option (List A × ℕ)
  pub pop : List A → ℕ → Option (A × List A)

-- A typed array over the elements of one lane: what the gates see of it, where its bytes begin, and
-- the elements that fit into it.
pub record LaneArray (A : Type 0) : Type 0 where
  pub view : Array
  pub address : ℕ
  pub slots : List A

-- A lane: `sizeof(LANE)`, how many arguments a push takes, and the text thrown when there are fewer.
pub record Lane : Type 0 where
  pub size : ℕ
  pub push_args : ℕ
  pub push_usage : String
  pub pop_usage : String

-- A thrown text or an answer, and the elements after the call.
abbrev pub Answer : Type 0 → Type 0 → Type 0
Answer A X = Outcome X × List A

-- A gate that throws leaves the elements as they are.
abbrev pub gated : {A X Y : Type 0} → Outcome Y → List A → (Y → Answer A X) → Answer A X
gated (ok y) s k = k y
gated (err e) s k = (err e, s)

-- JABCLaneArr: how many elements the array holds.
unfoldable pub lane_cap : {A : Type 0} → Abc → Lane → LaneArray A → Outcome ℕ
unfolding data_of
lane_cap abc lane arr = data_of abc arr.view >>= λ b. ok (data_length b / lane.size)

module _ {A : Type 0} (abc : Abc) (lane : Lane) (lib : HeapLib A) where
  abbrev pub push_result : List A → Option (List A × ℕ) → Answer A ℕ
  push_result s none = (err "heap: push", s)
  push_result s (some (t, n)) = (ok n, t)

  -- jheap_<lane>_push; the value is what its marshal shape reads.
  unfoldable pub push_leaf : ℕ → LaneArray A → Value → Outcome A → Answer A ℕ
  unfolding lane_cap u64_of
  push_leaf argc arr size value =
      if ltb argc lane.push_args
      then (err lane.push_usage, arr.slots)
      else (gated (lane_cap abc lane arr) arr.slots λ cap. gated (u64_of size) arr.slots λ n.
          if not (ltb n cap)
          then (err "heap: full", arr.slots)
          else gated value arr.slots λ v. push_result arr.slots (lib.push arr.slots n v))

  abbrev pub pop_result : List A → Option (A × List A) → Answer A (Option A)
  pop_result s none = (ok none, s)
  pop_result s (some (v, t)) = (ok (some v), t)

  -- jheap_<lane>_pop; `none` is undefined.
  unfoldable pub pop_leaf : ℕ → LaneArray A → Value → Answer A (Option A)
  unfolding lane_cap u64_of
  pop_leaf argc arr size =
      if ltb argc 2
      then (err lane.pop_usage, arr.slots)
      else (gated (lane_cap abc lane arr) arr.slots λ cap. gated (u64_of size) arr.slots λ n.
          if ltb cap n
          then (err "heap: the watermark is past the end", arr.slots)
          else if n == 0
          then (ok none, arr.slots)
          else pop_result arr.slots (lib.pop arr.slots n))

  abbrev pub after_push : List A → Option (List A × ℕ) → (List A → ℕ → Answer A ℕ) → Answer A ℕ
  after_push s none k = (err "heap: push", s)
  after_push s (some (t, m)) k = k t m

  -- The loop of jheap_<lane>_feed over the entries.
  unfoldable pub push_all : List A → ℕ → List A → Answer A ℕ
  push_all s n [] = (ok n, s)
  push_all s n (e ∷ es) = after_push s (lib.push s n e) (λ t m. push_all t m es)

  -- `(u8c *)bb < eb[1] && eb[0] < (u8c *)(bb + cap)`
  abbrev pub overlaps : LaneArray A → ℕ → LaneArray A → ℕ → Bool
  overlaps arr cap entries bytes =
      ltb arr.address (entries.address + bytes)
      && ltb entries.address (arr.address + cap * lane.size)

  abbrev pub fed_entries : LaneArray A → ℕ → ℕ → LaneArray A → ℕ → Answer A ℕ
  fed_entries arr cap n entries bytes =
      let m = bytes / lane.size in
      if not (bytes == m * lane.size)
      then (err "heap: feed align", arr.slots)
      else if ltb cap n || ltb (cap - n) m
      then (err "heap: full", arr.slots)
      else if overlaps arr cap entries bytes
      then (err "heap: feed overlap", arr.slots)
      else push_all arr.slots n (take m entries.slots)

  -- jheap_<lane>_feed
  unfoldable pub feed_leaf : ℕ → LaneArray A → Value → LaneArray A → Answer A ℕ
  unfolding lane_cap u64_of data_of push_all
  feed_leaf argc arr size entries =
      if ltb argc 3
      then (err "heap: feed argc", arr.slots)
      else (gated (lane_cap abc lane arr) arr.slots λ cap. gated (u64_of size) arr.slots λ n.
          gated (data_of abc entries.view) arr.slots
            λ eb. fed_entries arr cap n entries (data_length eb))

-- A HEAP container: its typed array, and `buffer.watermark`.
pub record Heap (A : Type 0) : Type 0 where
  pub arr : LaneArray A
  pub watermark : ℕ

abbrev pub as_number : ℕ → Value
as_number n = number (whole (pos n))

-- `this.buffer.watermark = leaf(...)`
abbrev pub moved : {A : Type 0} → Heap A → Answer A ℕ → Outcome (Unit {0}) × Heap A
moved h (ok n, s) = (ok tt, record { arr = record h.arr { slots = s }; watermark = n })
moved h (err e, s) = (err e, record h { arr = record h.arr { slots = s } })

abbrev pub popped : {A : Type 0} → Heap A → Answer A (Option A) → Outcome (Option A) × Heap A
popped h (ok r, s) =
    (ok r, record { arr = record h.arr { slots = s }; watermark = h.watermark - 1 })
popped h (err e, s) = (err e, record h { arr = record h.arr { slots = s } })

module _ {A : Type 0} (abc : Abc) (lane : Lane) (lib : HeapLib A) where
  -- `p.push`
  unfoldable pub heap_push : Outcome A → Heap A → Outcome (Unit {0}) × Heap A
  unfolding push_leaf
  heap_push v h = moved h (push_leaf abc lane lib lane.push_args h.arr (as_number h.watermark) v)

  -- `p.feed`
  unfoldable pub heap_feed : LaneArray A → Heap A → Outcome (Unit {0}) × Heap A
  unfolding feed_leaf
  heap_feed entries h = moved h (feed_leaf abc lane lib 3 h.arr (as_number h.watermark) entries)

  -- `p.pop`
  unfoldable pub heap_pop : Heap A → Outcome (Option A) × Heap A
  unfolding pop_leaf
  heap_pop h =
      if h.watermark == 0
      then (ok none, h)
      else popped h (pop_leaf abc lane lib 2 h.arr (as_number h.watermark))

-- `p.peek`
unfoldable pub heap_peek : {A : Type 0} → Heap A → Option A
heap_peek h = if h.watermark == 0 then none else get_elem? h.arr.slots 0
