-- ===== src/Tests/PupRuns.antt =====
-- Runs of the index leaves of pup.c.
use quickjab.Prelude.{
  ◌%◌, ◌^◌, ◌<◌, get_elem?, ◌≤◌, ◌-◌, ℕ, ◌+◌, ◌≡◌, refl, [], ◌∷◌, true, false, Option, none, some,
  arith, ltb, if◌then◌else◌, List, replicate, String, inl,
}
use quickjab.Int.{pos}
use quickjab.Outcome.{ok, err}
use quickjab.Arg.{Value, number, whole}
use quickjab.Pup.{IndexRow, get_pos, page, hit_of, narrowed}
use quickjab.Pup.Page.{row_at, newest}
use quickjab.Pup.Lookup.{get_newest}
use quickjab.Pup.Pairs.{first_with, narrowed_leaves_run}
use quickjab.Pup.Table.{kv64, done, PupLib, Slot, Table, no_cursor, lane_eq}
use quickjab.Pup.Leaves.{open_leaf, drop_leaf, run_leaf}
use quickjab.Pup.Drop.{drop_leaf_wraps}
use quickjab.Pup.Scan.{HitLib}
use quickjab.Pup.Program.{open_call, run_call, do_call, started, after_call}
use quickjab.Pup.Safe.{fresh_table, attached_is_run}
use quickjab.Tests.PupLane.{
  keyed_lane, paired_lane, keyed_lane-IsKeyed, paired_lane-IsPaired, keyed_lane-IsSearch,
  paired_lane-IsSearch, paged_rows, paged_source, keyed-IsSource, paired-IsSource,
}

abbrev key_2 : IndexRow
key_2 = record { key = 2; val = 0 }

get_newest_example :
    row_at paged_rows (get_pos keyed_lane paged_rows (paged_source ∷ []) key_2)
    ≡ newest paged_rows (paged_source ∷ []) key_2
get_newest_example =
    get_newest keyed_lane keyed_lane-IsKeyed keyed_lane-IsSearch paged_rows (paged_source ∷ [])
      key_2 (keyed-IsSource, tt)

narrowed_leaves_run_example :
    (hit_of paired_lane paged_rows
        (page paired_lane paged_rows paged_source (first_with 2))
        (first_with 2)
      ≡ some 5)
    × ((narrowed paired_lane paged_rows paged_source (first_with 2)).head ≡ 5)
    × ¬ (
        (0 ≤ (narrowed paired_lane paged_rows paged_source (first_with 2)).head)
        × ((narrowed paired_lane paged_rows paged_source (first_with 2)).head < 4))
narrowed_leaves_run_example =
    narrowed_leaves_run paired_lane paired_lane-IsPaired paired_lane-IsSearch paged_rows
      paged_source paired-IsSource (omega arith) 0 2 (omega arith) (omega arith) refl (omega arith)
      (inl (omega arith))

-- A stack is told by how many runs it has; run i lies at 100 + i.
abbrev runs_lib : PupLib ℕ ℕ
runs_lib = record {
  page_size = 4096;
  empty = 0;
  open_all = λ disk dir ext. (true, disk);
  count = λ stack. stack;
  put_mem = λ lane disk stack dir ext row pages. (done, stack + 1, disk);
  commit_as = λ lane disk stack dir ext durable. (done, stack + 1, disk);
  thin_tail = λ disk stack dir ext n. (true, 0, disk);
  drop_at = λ disk stack dir ext i. (true, stack - 1, disk);
  data_row =
      λ stack i size. if ltb i stack then some (record { base = 100 + i; len = 32 }) else none;
  sources = λ lane stack. none;
  rows = λ stack. paged_rows;
}

abbrev no_heap : HitLib
no_heap = record {
  hit_load = λ mem entries. none;
  tops = λ mem heap. 0;
  advance_tops = λ mem n heap. heap;
  hit_step = λ mem heap. heap;
  seek_range = λ mem lo hi entries. entries;
}

abbrev zeroth : Value
zeroth = number (whole (pos 0))

abbrev paths : Option (List ℕ) × Option (List ℕ)
paths = (some (b'd' ∷ []), some (b'e' ∷ []))

abbrev open_two : Table ℕ ℕ
open_two =
    do_call runs_lib 1 kv64 "index" keyed_lane no_heap (open_call 4 paths true none)
      (fresh_table runs_lib 1 kv64 "index" keyed_lane no_heap 2)

abbrev lent_two : Table ℕ ℕ
lent_two = do_call runs_lib 1 kv64 "index" keyed_lane no_heap (run_call 2 zeroth (ok 1)) open_two

abbrev lent_slot : Slot ℕ
lent_slot = record {
  stack = 2;
  live = true;
  rw = true;
  busy = false;
  pages = 1;
  mem_rows = 256;
  epoch = 1;
  views =
      none
      ∷ some (record { buffer = 0; mapping = record { base = 101; len = 32 } })
      ∷ replicate 62 none;
  nview = 1;
  buffers = some (record { base = 101; len = 32 }) ∷ [];
  lane_cursors = λ other. if lane_eq kv64 other then no_cursor else no_cursor;
}

lent_two_slot : get_elem? lent_two.slots 0 ≡ some lent_slot
unfolding do_call open_leaf run_leaf
lent_two_slot = refl

attached_is_run_example :
    (lent_slot.live ≡ true)
    × ((i : ℕ) × (runs_lib.data_row lent_slot.stack i 16 ≡ some (record { base = 101; len = 32 })))
attached_is_run_example =
    attached_is_run runs_lib 1 kv64 "index" keyed_lane no_heap 2 lent_two
      (after_call _ _ (after_call _ _ (started _) (open_call 4 paths true none))
        (run_call 2 zeroth (ok 1)))
      0 lent_slot lent_two_slot 0 (record { base = 101; len = 32 }) refl

drop_leaf_wraps_example :
    ((e : String) × ((run_leaf runs_lib 1 kv64 "index" 2 zeroth (ok (2 ^ 32)) lent_two).0 ≡ err e))
    × (drop_leaf runs_lib 1 kv64 "index" 4 zeroth paths (some (ok (2 ^ 32))) lent_two
        ≡ drop_leaf runs_lib 1 kv64 "index" 4 zeroth paths (some (ok (2 ^ 32 % 2 ^ 32))) lent_two)
drop_leaf_wraps_example =
    drop_leaf_wraps runs_lib 1 kv64 "index" lent_two zeroth paths (2 ^ 32) (omega arith)
