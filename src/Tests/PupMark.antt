-- ===== src/Tests/PupMark.antt =====
-- A range scan whose callback tries to write to the handle, by the leaves of another lane.
use quickjab.Prelude.{
  ℕ, ◌≡◌, refl, sym, ap, ◌∙◌, true, false, List, [], ◌∷◌, Option, none, some, get_elem?, map,
  if◌then◌else◌,
}
use quickjab.Int.{pos}
use quickjab.Outcome.{Outcome, ok, err}
use quickjab.Arg.{Value, number, whole}
use quickjab.Pup.{IndexRow}
use quickjab.Pup.Table.{no_cursor, kv64, u32, PupLib, Slot, Table, slot_of}
use quickjab.Pup.Scan.{Verdict, other, range_leaf}
use quickjab.Pup.Program.{PupCall, put_call, do_call}
use quickjab.Pup.Scanned.{LaneUse, RanLanes, no_call, lane_call, IsScanned}
use quickjab.Pup.ScanMark.{range_leaf_marks}
use quickjab.Tests.PupLane.{keyed_lane}
use quickjab.Tests.PupMerge.{top_alone, run_entries, rows_lib}

abbrev Rows : Type 0
Rows = List IndexRow

abbrev scanned_lib : PupLib ℕ Rows
scanned_lib = record rows_lib {
  sources = λ lane stack.
      some (map (λ e. record { run = e; toc = record { head = 0; term = 0 } }) run_entries);
}

abbrev rest_slot : Slot ℕ
rest_slot = record {
  stack = 2;
  live = true;
  rw = true;
  busy = false;
  pages = 1;
  mem_rows = 256;
  epoch = 1;
  views = [];
  nview = 0;
  buffers = [];
  lane_cursors = λ lane. no_cursor;
}

abbrev at_rest : Table ℕ Rows
at_rest = record { slots = rest_slot ∷ []; disk = [] }

abbrev keyed_use : LaneUse
keyed_use = record { lane = kv64; usage = "index"; order = keyed_lane; hit = top_alone }

abbrev other_use : LaneUse
other_use = record keyed_use { lane = u32; usage = "other" }

abbrev zeroth : Value
zeroth = number (whole (pos 0))

abbrev refused_put : PupCall
refused_put = put_call 5 zeroth (some (b'd' ∷ b'i' ∷ b'r' ∷ []), some (b'e' ∷ [])) (ok 7) (ok 8)

abbrev Call : Type 0
Call = IndexRow → Table ℕ Rows → Outcome Verdict × Table ℕ Rows

-- It tries to put a row.
abbrev putting : Call
putting r t = (ok other, do_call scanned_lib 1 u32 "other" keyed_lane top_alone refused_put t)

-- The same where the handle is marked, and a throw elsewhere.
abbrev if_marked : Option (Slot ℕ) → Outcome Verdict × Table ℕ Rows → Outcome Verdict × Table ℕ Rows
if_marked (some s) p = if s.busy then p else (err "unmarked", p.1)
if_marked none p = (err "closed", p.1)

abbrev wary : Call
wary r t = if_marked (get_elem? t.slots 0) (putting r t)

putting-RanLanes : (r : IndexRow) (v : Table ℕ Rows) → RanLanes scanned_lib 1 v (putting r v).1
putting-RanLanes r v = lane_call v v (no_call v) other_use refused_put

putting_agrees :
    (r : IndexRow) (v : Table ℕ Rows) → IsScanned scanned_lib 1 0 2 v → putting r v ≡ wary r v
putting_agrees r v (s, at, k, live, busy) = sym (
    ap (λ o. if_marked o (putting r v)) at
    ∙ ap (λ b. if b then putting r v else (err "unmarked", (putting r v).1)) busy)

abbrev low : IndexRow
low = record { key = 0; val = 0 }

abbrev high : IndexRow
high = record { key = 9; val = 0 }

names_rest : slot_of 4 zeroth at_rest ≡ some (0, rest_slot)
unfolding slot_of quickjab.Arg.u64_of
names_rest = refl

abbrev scanned_by : Call → Outcome (Unit {0}) × Table ℕ Rows
scanned_by callback =
    range_leaf scanned_lib kv64 keyed_lane top_alone callback "index" 4 zeroth (ok low) (ok high)
      true at_rest

range_leaf_marks_example :
    (scanned_by putting ≡ scanned_by wary)
    × (x : Slot ℕ) × (get_elem? (scanned_by putting).1.slots 0 ≡ some x)
    × (x.stack ≡ 2)
    × (x.live ≡ true)
    × (x.busy ≡ false)
range_leaf_marks_example =
    range_leaf_marks scanned_lib 1 keyed_use putting wary putting-RanLanes 4 zeroth (ok low)
      (ok high) true at_rest 0 rest_slot names_rest putting_agrees
