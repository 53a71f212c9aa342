-- ===== src/Pup/Scan.antt =====
-- The ordered reads of pup.c: the range scan with its callback, and the pull cursor. The merge heap is
-- HIT of abc, which is a parameter: it points at entries, by their numbers, and moves them in place.
use quickjab.Prelude.{
  ℕ, zero, suc, ◌+◌, ◌-◌, Bool, true, false, not, ◌&&◌, List, [], ◌∷◌, Option, none, some, String,
  ◌==◌, if◌then◌else◌, get_or, get_elem?, map,
}
use mathlib.Core.List.{reverse}
use quickjab.Outcome.{Outcome, ok, err}
use quickjab.Arg.{Value}
use quickjab.Pup.{
  IndexRow, Slice, IndexOrder, Source, slice_length, is_empty_slice, narrowed, get_pos,
}
use quickjab.Pup.Table.{
  IndexLane, kv64, wh128, u64, u32, PupLib, Slot, Table, slot_of, put_slot, set_cursor,
}
use quickjab.Pup.Leaves.{too_many_runs, with_arguments, with_slot, with_value}

-- The entries of a heap, and which of them it holds, with that of the top first.
pub record MergeHeap : Type 0 where
  pub entries : List Slice
  pub order : List ℕ

-- HIT<lane>Load, Tops, AdvanceTops, Step and SeekRange. Load leaves out empty entries.
pub record HitLib : Type 0 where
  pub hit_load : (ℕ → IndexRow) → List Slice → Option MergeHeap
  pub tops : (ℕ → IndexRow) → MergeHeap → ℕ
  pub advance_tops : (ℕ → IndexRow) → ℕ → MergeHeap → MergeHeap
  pub hit_step : (ℕ → IndexRow) → MergeHeap → MergeHeap
  pub seek_range : (ℕ → IndexRow) → IndexRow → IndexRow → List Slice → List Slice

-- What a callback of a scan returns.
pub data Verdict : Type 0 where
  boolean : Bool → Verdict
  text : List ℕ → Verdict
  other : Verdict

abbrev pub is_enough : List ℕ → Bool
is_enough (a ∷ b ∷ c ∷ d ∷ e ∷ f ∷ []) =
    a == b'e' && b == b'n' && c == b'o' && d == b'u' && e == b'g' && f == b'h'
is_enough _ = false

-- JABCPupEnough
unfoldable pub enough : Verdict → Bool
enough (boolean b) = not b
enough (text s) = is_enough s
enough other = false

abbrev pub no_row : Slice
no_row = record { head = 0; term = 0 }

-- PUP_EMIT and PUP_GETV: a scalar lane has no value beside the key.
abbrev pub emitted_row : IndexLane → IndexRow → IndexRow
emitted_row kv64 r = r
emitted_row wh128 r = r
emitted_row u64 r = record { key = r.key; val = 0 }
emitted_row u32 r = record { key = r.key; val = 0 }

abbrev pub got_value : IndexLane → IndexRow → ℕ
got_value kv64 r = r.val
got_value wh128 r = r.val
got_value u64 r = r.key
got_value u32 r = r.key

module _ (order : IndexOrder) (hit : HitLib) (mem : ℕ → IndexRow) where
  abbrev pub top_row : List Slice → List ℕ → Option IndexRow
  top_row entries [] = none
  top_row entries (i ∷ is) = some (mem (get_or entries i no_row).head)

  abbrev pub ties : Option IndexRow → IndexRow → Bool
  ties none val = false
  ties (some r) val = not (order.less r val) && not (order.less val r)

  -- The loop that steps over rows equal to the one pulled; a turn moves an entry by one row.
  unfoldable pub skip_ties : ℕ → IndexRow → MergeHeap → MergeHeap
  skip_ties zero val h = h
  skip_ties (suc turns) val h =
      let rest = skip_ties turns val (hit.hit_step mem h) in
      if ties (top_row h.entries h.order) val then rest else h

  abbrev pub rows_left : List Slice → ℕ
  rows_left [] = 0
  rows_left (s ∷ ss) = slice_length s + rows_left ss

  -- One row pulled off the heap.
  unfoldable pub pulled_off : IndexRow → MergeHeap → MergeHeap
  unfolding skip_ties
  pulled_off val h =
      let pup_moved = hit.advance_tops mem (hit.tops mem h) h in
      skip_ties (rows_left pup_moved.entries) val pup_moved

  -- The loop of jpup_<lane>_cut over the rows that the bound covers, from a place on.
  unfoldable pub past_bound : ℕ → ℕ → IndexRow → ℕ
  past_bound zero pos key = pos
  past_bound (suc rows) pos key =
      let rest = past_bound rows (pos + 1) key in if order.less key (mem pos) then pos else rest

  unfoldable pub cut_entry : IndexRow → Bool → Slice → Slice
  unfolding past_bound
  cut_entry key pulled e =
      let pos = order.find_ge mem e key in
      record { head = if pulled then past_bound (e.term - pos) pos key else pos; term = e.term }

  -- The entries that are left after the cut.
  unfoldable pub cut_entries : IndexRow → Bool → List Slice → List Slice
  unfolding cut_entry
  cut_entries key pulled [] = []
  cut_entries key pulled (e ∷ es) =
      let rest = cut_entries key pulled es in
      let c = cut_entry key pulled e in if is_empty_slice c then rest else c ∷ rest

module _ {Stack Disk : Type 0} (lib : PupLib Stack Disk) (lane : IndexLane) (order : IndexOrder)
    (hit : HitLib) where
  abbrev pub runs : List Source → List Slice
  runs sources = map (λ s. s.run) sources

  abbrev pub cut_from : Option (List Source) → Slot Stack → Bool × Slot Stack
  cut_from none s = (false, set_cursor lane (record (s.lane_cursors lane) { entries = [] }) s)
  cut_from (some sources) s =
      let c = s.lane_cursors lane in
      (
        true,
        set_cursor lane
            (record c {
              entries = cut_entries order hit (lib.rows s.stack) c.bound c.pulled (runs sources);
              cut_epoch = s.epoch;
            })
            s,
      )

  -- jpup_<lane>_cut, and whether it is OK
  unfoldable pub cut : Slot Stack → Bool × Slot Stack
  unfolding cut_entries
  cut s = cut_from (lib.sources lane s.stack) s

  abbrev pub unarmed : Slot Stack → Slot Stack
  unarmed s = set_cursor lane (record (s.lane_cursors lane) { armed = false }) s

  abbrev pub sought_reply :
      ℕ → Bool × Slot Stack → Table Stack Disk → Outcome (Unit {0}) × Table Stack Disk
  sought_reply h (true, s) t = (ok tt, put_slot h s t)
  sought_reply h (false, s) t = (err too_many_runs, put_slot h (unarmed s) t)

  -- jpup_<lane>_seek
  unfoldable pub seek_leaf :
      String
      → ℕ
      → Value
      → Outcome IndexRow
      → Table Stack Disk
      → Outcome (Unit {0}) × Table Stack Disk
  unfolding slot_of cut
  seek_leaf usage argc handle needle t = with_arguments argc 2 usage handle t λ h s.
      with_value needle t λ key.
        sought_reply h
          (cut (
            set_cursor lane
              (record (s.lane_cursors lane) { bound = key; pulled = false; armed = true }) s))
          t

  abbrev pub pulled_row :
      ℕ
      → Slot Stack
      → MergeHeap
      → Option IndexRow
      → Table Stack Disk
      → Outcome (Option IndexRow) × Table Stack Disk
  pulled_row h s heap none t = (
    ok none,
    put_slot h
        (set_cursor lane (record (s.lane_cursors lane) { entries = heap.entries; armed = false }) s)
        t,
  )
  pulled_row h s heap (some val) t =
      let after = pulled_off order hit (lib.rows s.stack) val heap in
      (
        ok (some (emitted_row lane val)),
        put_slot h
            (set_cursor lane
              (record (s.lane_cursors lane) { entries = after.entries; bound = val; pulled = true })
              s)
            t,
      )

  abbrev pub loaded :
      ℕ
      → Slot Stack
      → Option MergeHeap
      → Table Stack Disk
      → Outcome (Option IndexRow) × Table Stack Disk
  loaded h s none t = (err too_many_runs, put_slot h s t)
  loaded h s (some heap) t =
      pulled_row h s heap (top_row order hit (lib.rows s.stack) heap.entries heap.order) t

  abbrev pub next_from :
      ℕ → Bool × Slot Stack → Table Stack Disk → Outcome (Option IndexRow) × Table Stack Disk
  next_from h (false, s) t = (err too_many_runs, put_slot h (unarmed s) t)
  next_from h (true, s) t =
      loaded h s (hit.hit_load (lib.rows s.stack) (s.lane_cursors lane).entries) t

  -- jpup_<lane>_next; `none` is undefined.
  unfoldable pub pup_next_leaf :
      String → ℕ → Value → Table Stack Disk → Outcome (Option IndexRow) × Table Stack Disk
  unfolding slot_of cut pulled_off
  pup_next_leaf usage argc handle t = with_slot usage (slot_of argc handle t) t λ h s.
      if not (s.lane_cursors lane).armed
      then (ok none, t)
      else (let cut_again = cut s in
          next_from h (if (s.lane_cursors lane).cut_epoch == s.epoch then (true, s) else cut_again)
            t)

  abbrev pub got_at : (ℕ → IndexRow) → Option ℕ → Option ℕ
  got_at mem (some pos) = some (got_value lane (mem pos))
  got_at mem none = none

  abbrev pub get_from :
      Slot Stack
      → IndexRow
      → Option (List Source)
      → Table Stack Disk
      → Outcome (Option ℕ) × Table Stack Disk
  get_from s needle none t = (err too_many_runs, t)
  get_from s needle (some sources) t =
      let mem = lib.rows s.stack in
      (ok (got_at mem (get_pos order mem (reverse sources) needle)), t)

  -- jpup_<lane>_get; `none` is undefined.
  unfoldable pub pup_get_leaf :
      String
      → ℕ
      → Value
      → Outcome IndexRow
      → Table Stack Disk
      → Outcome (Option ℕ) × Table Stack Disk
  unfolding slot_of get_pos
  pup_get_leaf usage argc handle needle t =
      with_arguments argc 2 usage handle t
        λ h s. with_value needle t λ k. get_from s k (lib.sources lane s.stack) t

  -- The memory that the runs of a handle lie in.
  abbrev pub rows_of : Option (Slot Stack) → ℕ → IndexRow
  rows_of (some s) = lib.rows s.stack
  rows_of none = λ pos. record { key = 0; val = 0 }

  abbrev pub set_busy : ℕ → Bool → Option (Slot Stack) → Table Stack Disk → Table Stack Disk
  set_busy h busy (some s) t = put_slot h (record s { busy = busy }) t
  set_busy h busy none t = t

  module _ (callback : IndexRow → Table Stack Disk → Outcome Verdict × Table Stack Disk) where
    abbrev pub called :
        Outcome Verdict × Table Stack Disk
        → (Table Stack Disk → Outcome (Unit {0}) × Table Stack Disk)
        → Outcome (Unit {0}) × Table Stack Disk
    called (err e, t) rest = (err e, t)
    called (ok r, t) rest = if enough r then (ok tt, t) else rest t

    abbrev pub scan_turn :
        Option IndexRow
        → (ℕ → IndexRow)
        → MergeHeap
        → Table Stack Disk
        → (MergeHeap → Table Stack Disk → Outcome (Unit {0}) × Table Stack Disk)
        → Outcome (Unit {0}) × Table Stack Disk
    scan_turn none mem heap t rest = (ok tt, t)
    scan_turn (some val) mem heap t rest =
        called (callback (emitted_row lane val) t) (rest (pulled_off order hit mem val heap))

    -- The loop of jpup_<lane>_range; a turn takes an entry further by one row at least.
    unfoldable pub scan_loop :
        ℕ → ℕ → MergeHeap → Table Stack Disk → Outcome (Unit {0}) × Table Stack Disk
    unfolding pulled_off enough
    scan_loop zero h heap t = (ok tt, t)
    scan_loop (suc turns) h heap t =
        let mem = rows_of (get_elem? t.slots h) in
        scan_turn (top_row order hit mem heap.entries heap.order) mem heap t (scan_loop turns h)

    abbrev pub scan_busy :
        ℕ → Slot Stack → MergeHeap → Table Stack Disk → Outcome (Unit {0}) × Table Stack Disk
    scan_busy h s heap t =
        let r =
          scan_loop (rows_left order hit (lib.rows s.stack) heap.entries) h heap
            (put_slot h (record s { busy = true }) t) in
        (r.0, set_busy h s.busy (get_elem? r.1.slots h) r.1)

    abbrev pub scan_heap :
        ℕ → Slot Stack → Option MergeHeap → Table Stack Disk → Outcome (Unit {0}) × Table Stack Disk
    scan_heap h s none t = (err too_many_runs, t)
    scan_heap h s (some heap) t = scan_busy h s heap t

    abbrev pub scan_sources :
        ℕ
        → Slot Stack
        → IndexRow
        → IndexRow
        → Option (List Source)
        → Table Stack Disk
        → Outcome (Unit {0}) × Table Stack Disk
    scan_sources h s lo hi none t = (err too_many_runs, t)
    scan_sources h s lo hi (some sources) t =
        let mem = lib.rows s.stack in
        let entries = map (λ source. narrowed order mem source lo) sources in
        scan_heap h s (hit.hit_load mem (hit.seek_range mem lo hi entries)) t

    -- jpup_<lane>_range
    unfoldable pub range_leaf :
        String
        → ℕ
        → Value
        → Outcome IndexRow
        → Outcome IndexRow
        → Bool
        → Table Stack Disk
        → Outcome (Unit {0}) × Table Stack Disk
    unfolding slot_of narrowed scan_loop
    range_leaf usage argc handle lo hi is_function t = with_arguments argc 4 usage handle t λ h s.
        with_value lo t λ l. with_value hi t λ u.
          if not is_function
          then (err "Error: the range callback must be a function", t)
          else scan_sources h s l u (lib.sources lane s.stack) t
