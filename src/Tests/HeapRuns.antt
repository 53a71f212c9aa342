-- ===== src/Tests/HeapRuns.antt =====
-- Runs of the HEAP and HASH containers, of close, and of the scratch memory of a pack.
use mathlib.Core.List.{Perm, Pairwise, Pairwise-singleton}
use quickjab.Prelude.{
  if◌then◌else◌, ltb, ℕ, ◌+◌, ◌/◌, ◌≤◌, ◌≡◌, refl, true, false, List, [], ◌∷◌, ◌++◌, map, none,
  some, arith, length, take, replicate, set,
}
use quickjab.Outcome.{Outcome, ok, err}
use quickjab.Abc.{U8b}
use quickjab.Arg.{view_on, data_of}
use quickjab.Heap.{Lane, LaneArray, Heap, lane_cap, heap_feed}
use quickjab.Heap.Verbs.{IsHeap, live}
use quickjab.Heap.Order.{push_many, pop_many, push_pop_many}
use quickjab.Heap.Feed.{heap_feed_all, is_feedable}
use quickjab.Hash.{HashLib, HashLane, is_table}
use quickjab.Cont.{
  Io, Container, heap_of, hash_of, kv32, u64, msync, truncate, munmap, put, del, bytes, book, close,
  verbs, fresh,
}
use quickjab.Cont.Lanes.{element_size}
use quickjab.Cont.Pack.{Scratch, IsSized, grow_scratch, grow_scratch_succeeds}
use quickjab.Cont.Size.{bytes-is_table}
use quickjab.Cont.Close.{close_booked_hash_empties}
use quickjab.Tests.Plain.{plain}
use quickjab.Tests.SortedSlots.{sorted_slots, sorted_slots-IsHeapLib}

abbrev lane_u8 : Lane
lane_u8 = record {
  size = 1;
  push_args = 3;
  push_usage = "_heap_u8_push(arr, size, v[, val])";
  pop_usage = "_heap_u8_pop(arr, size)";
}

abbrev bytes_at : ℕ → List ℕ → LaneArray ℕ
bytes_at a s = record { view = view_on (some (a, s)) 0 (length s); address = a; slots = s }

-- Four slots, one of them in use.
abbrev one_in : Heap ℕ
one_in = record { arr = bytes_at 100 (5 ∷ 0 ∷ 0 ∷ 0 ∷ []); watermark = 1 }

one_in-IsHeap : IsHeap plain lane_u8 sorted_slots (Pairwise ◌≤◌) one_in
unfolding lane_cap
one_in-IsHeap = record {
  fits = refl;
  small = omega arith;
  within = omega arith;
  shaped = Pairwise-singleton _ 5;
}

push_pop_many_example :
    (g f : Heap ℕ) × (ys : List ℕ) × (push_many plain lane_u8 sorted_slots (9 ∷ 2 ∷ []) one_in
      ≡ (ok tt, g))
    × (pop_many plain lane_u8 sorted_slots (1 + 2) g ≡ (ok (map some ys), f))
    × (f.watermark ≡ 0)
    × Perm ys ((9 ∷ 2 ∷ []) ++ live one_in)
    × Pairwise ◌≤◌ ys
push_pop_many_example =
    push_pop_many plain lane_u8 sorted_slots sorted_slots-IsHeapLib (9 ∷ 2 ∷ []) one_in
      one_in-IsHeap (omega arith)

abbrev three_more : LaneArray ℕ
three_more = bytes_at 200 (7 ∷ 1 ∷ 4 ∷ [])

abbrev three_data : U8b
three_data = record { mem = 7 ∷ 1 ∷ 4 ∷ []; data_at = 0; idle_at = 3 }

three_data_of : data_of plain three_more.view ≡ ok three_data
unfolding data_of
three_data_of = refl

heap_feed_all_example :
    (is_feedable plain lane_u8 sorted_slots one_in three_more 3 ≡ true
      → (heap_feed plain lane_u8 sorted_slots three_more one_in
          ≡ push_many plain lane_u8 sorted_slots (take (3 / 1) (7 ∷ 1 ∷ 4 ∷ [])) one_in)
        × ((heap_feed plain lane_u8 sorted_slots three_more one_in).0 ≡ ok tt))
    × (is_feedable plain lane_u8 sorted_slots one_in three_more 3 ≡ false
        → (e : _) × (heap_feed plain lane_u8 sorted_slots three_more one_in ≡ (err e, one_in)))
heap_feed_all_example =
    heap_feed_all plain lane_u8 sorted_slots sorted_slots-IsHeapLib one_in three_more three_data
      one_in-IsHeap three_data_of

bytes-is_table_example :
    (n : ℕ) × (bytes (hash_of kv32) 100 ≡ ok n)
    × (100 ≤ n / element_size kv32)
    × (is_table (n / element_size kv32) ≡ true)
bytes-is_table_example = bytes-is_table kv32 100 (omega arith)

-- A file system on which all goes well.
abbrev well : Io
well = record { ram = λ n. ok n; mmap = λ path mode n. ok n; truncate = λ path n. ok tt }

-- Ten slots booked, three in use.
abbrev three_used : Container
three_used = record (fresh (heap_of u64) 80 10) { watermark = 3 }

-- A table that keeps one element.
abbrev one_slot : HashLib ℕ
one_slot = record { put = λ s v. some (set s 0 v); get = λ s v. none; del = λ s v. set s 0 0 }

abbrev hash_u8 : HashLane
hash_u8 = record {
  size = 1;
  put_args = 2;
  key_args = 2;
  put_usage = "_hash_u8_put(arr, key[, val])";
  get_usage = "_hash_u8_get(arr, key[, val])";
  del_usage = "_hash_u8_del(arr, key[, val])";
}

abbrev booked_table : Container
booked_table = record (fresh (hash_of kv32) 128 32) { path = some "set.idx" }

booked_table_booked : book well (hash_of kv32) "set.idx" 5 ≡ ok booked_table
unfolding book
booked_table_booked = refl

close_booked_hash_empties_example :
    (close well
      (verbs plain hash_u8 one_slot
        (put (ok 8) ∷ put (ok 9) ∷ del (ok 9) ∷ [])
        (bytes_at 300 (replicate 16 0), booked_table)).1).2
    ≡ msync ∷ truncate "set.idx" 0 ∷ munmap ∷ []
close_booked_hash_empties_example =
    close_booked_hash_empties well plain hash_u8 one_slot kv32 "set.idx" 5 booked_table
      (bytes_at 300 (replicate 16 0)) (put (ok 8) ∷ put (ok 9) ∷ del (ok 9) ∷ [])
      booked_table_booked refl

-- An operation that wants 100000 bytes.
abbrev wants_much : Scratch → Outcome ℕ
wants_much s = if ltb s.base 100000 then err "NOROOM" else ok s.base

wants_much-IsSized : IsSized wants_much (λ e. true) 100000
wants_much-IsSized = record {
  fits = λ s h. (s.base, ground (arith, h));
  too_small = λ s h. ("NOROOM", ground (arith, h), refl);
}

grow_scratch_succeeds_example :
    (a : ℕ) × ((grow_scratch wants_much (λ e. true) 0 (record { base = 0; delta = 0 })).0 ≡ ok a)
grow_scratch_succeeds_example =
    grow_scratch_succeeds wants_much (λ e. true) 100000 0 (record { base = 0; delta = 0 })
      wants_much-IsSized (omega arith)
