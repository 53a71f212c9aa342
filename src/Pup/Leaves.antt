-- ===== src/Pup/Leaves.antt =====
-- The leaves of pup.c that open, change, list and close a stack. Each is one lane's; what is read of
-- the arguments stands for them: a path is none where it is refused, and a row or a value is what
-- the gate of the lane makes of it.
use quickjab.Prelude.{
  ℕ, suc, ◌+◌, ◌-◌, ◌*◌, ◌/◌, ◌%◌, ◌^◌, Bool, true, false, not, ◌||◌, List, [], ◌∷◌, Option, none,
  some, String, ltb, leb, ◌==◌, if◌then◌else◌, get_elem?, set,
}
use quickjab.Outcome.{Outcome, ok, err}
use quickjab.Arg.{Value, u64_of}
use quickjab.Require.Path.{FilePath}
use quickjab.Pup.Table.{
  IndexLane, Status, done, too_many, failed, Mapping, PupLib, Slot, Table, max_runs, lane_size,
  disarmed, pup_moved, pup_view, slot_of, put_slot,
}

abbrev pub max_mem_pages : ℕ
max_mem_pages = 65536

abbrev pub too_many_runs : String
too_many_runs = "Error: too many index runs: drop them and re-derive the index"

abbrev pub scanned_now : String
scanned_now = "Error: this index is being scanned: finish the range first"

abbrev pub bad_paths : String
bad_paths = "Error: the index dir and ext must be strings"

abbrev pub read_only : String
read_only = "Error: this index is open read-only"

-- The arguments `dir` and `ext`
abbrev pub Paths : Type 0
Paths = Option FilePath × Option FilePath

abbrev pub PupReply : Type 0 → Type 0 → Type 0 → Type 0
PupReply Stack Disk X = Outcome X × Table Stack Disk

module _ {Stack Disk X : Type 0} where
  abbrev pub with_slot :
      String
      → Option (ℕ × Slot Stack)
      → Table Stack Disk
      → (ℕ → Slot Stack → PupReply Stack Disk X)
      → PupReply Stack Disk X
  with_slot usage none t k = (err usage, t)
  with_slot usage (some (h, s)) t k = k h s

  abbrev pub with_paths :
      Paths
      → Table Stack Disk
      → (FilePath → FilePath → PupReply Stack Disk X)
      → PupReply Stack Disk X
  with_paths (some dir, some ext) t k = k dir ext
  with_paths _ t k = (err bad_paths, t)

  abbrev pub with_value :
      {Y : Type 0}
      → Outcome Y
      → Table Stack Disk
      → (Y → PupReply Stack Disk X)
      → PupReply Stack Disk X
  with_value (ok y) t k = k y
  with_value (err e) t k = (err e, t)

  -- The gates of a leaf that changes a stack.
  abbrev pub writable :
      Slot Stack → Table Stack Disk → PupReply Stack Disk X → PupReply Stack Disk X
  writable s t k =
      if not s.rw then (err read_only, t) else if s.busy then (err scanned_now, t) else k

  abbrev pub with_arguments :
      ℕ
      → ℕ
      → String
      → Value
      → Table Stack Disk
      → (ℕ → Slot Stack → PupReply Stack Disk X)
      → PupReply Stack Disk X
  with_arguments argc least usage handle t k =
      with_slot usage (slot_of argc handle t) t
        λ h s. if ltb argc least then (err usage, t) else k h s

-- The first slot that is not live, from `i` on.
unfoldable pub free_from : {Stack : Type 0} → ℕ → List (Slot Stack) → Option ℕ
free_from i [] = none
free_from i (s ∷ slots) = let rest = free_from (suc i) slots in if s.live then rest else some i

abbrev pub status_reply :
    {Stack Disk : Type 0}
    → String
    → Status
    → Table Stack Disk
    → Outcome (Unit {0}) × Table Stack Disk
status_reply text done t = (ok tt, t)
status_reply text too_many t = (err too_many_runs, t)
status_reply text failed t = (err text, t)

abbrev pub bool_reply :
    {Stack Disk : Type 0} → String → Bool → Table Stack Disk → Outcome (Unit {0}) × Table Stack Disk
bool_reply text true t = (ok tt, t)
bool_reply text false t = (err text, t)

-- The rows that are asked for in whole pages, at least the pages that dog takes by itself.
unfoldable pub pages_for : ℕ → ℕ → ℕ → ℕ → ℕ
pages_for page mem_pages size rows =
    let pages = (rows * size + page - 1) % 2 ^ 64 / page in if pages == 0 then mem_pages else pages

abbrev pub rows_asked : Option Value → Outcome ℕ
rows_asked none = ok 0
rows_asked (some v) = elim (u64_of v) [
  | ok n ↦ ok n
  | err e ↦ err "Error: the index memtable size is a row count"
]

module _ {Stack Disk : Type 0} (lib : PupLib Stack Disk) (mem_pages : ℕ) (lane : IndexLane)
    (usage : String) where
  -- A slot with an open stack, by the pages of its memtable.
  abbrev pub opened : Stack → Bool → ℕ → Slot Stack → Slot Stack
  opened stack writes pages s = pup_moved (
      disarmed lane (record s {
        stack = stack;
        live = true;
        rw = writes;
        busy = false;
        pages = pages % 2 ^ 32;
        mem_rows = pages * lib.page_size / lane_size lane;
      }))

  abbrev pub open_at :
      FilePath
      → FilePath
      → Bool
      → ℕ
      → Table Stack Disk
      → ℕ
      → Option (Slot Stack)
      → Outcome ℕ × Table Stack Disk
  open_at dir ext writes pages t h none = (err "Error: too many open indexes", t)
  open_at dir ext writes pages t h (some s) =
      let r = lib.open_all t.disk dir ext in
      if not r.0 || ltb max_runs (lib.count r.1)
      then (err too_many_runs, put_slot h (record s { stack = lib.empty }) t)
      else (ok h, put_slot h (opened r.1 writes pages s) t)

  abbrev pub open_free :
      FilePath → FilePath → Bool → ℕ → Table Stack Disk → Option ℕ → Outcome ℕ × Table Stack Disk
  open_free dir ext writes pages t none = (err "Error: too many open indexes", t)
  open_free dir ext writes pages t (some h) = open_at dir ext writes pages t h (get_elem? t.slots h)

  -- jpup_<lane>_open; `writes` is whether the mode is other than "r", and a missing count is none.
  unfoldable pub open_leaf :
      ℕ → Paths → Bool → Option Value → Table Stack Disk → Outcome ℕ × Table Stack Disk
  unfolding pages_for free_from pup_moved u64_of
  open_leaf argc paths writes rows t =
      if ltb argc 2
      then (err usage, t)
      else (with_paths paths t λ dir ext. with_value (rows_asked rows) t λ n.
          let pages = pages_for lib.page_size mem_pages (lane_size lane) n in
          if ltb max_mem_pages pages
          then (err "Error: the index memtable is too big: ask for fewer rows", t)
          else open_free dir ext writes pages t (free_from 0 t.slots))

  -- What dog answers with: the stack of the slot, and the disk.
  abbrev pub replaced : ℕ → Slot Stack → Stack → Disk → Table Stack Disk → Table Stack Disk
  replaced h s stack disk t = record t {
    slots = set t.slots h (record s { stack = stack });
    disk = disk;
  }

  -- jpup_<lane>_put
  unfoldable pub pup_put_leaf :
      ℕ
      → Value
      → Paths
      → Outcome ℕ
      → Outcome ℕ
      → Table Stack Disk
      → Outcome (Unit {0}) × Table Stack Disk
  unfolding slot_of pup_moved
  pup_put_leaf argc handle paths key val t = with_arguments argc 4 usage handle t λ h s.
      writable s t (
        with_paths paths t λ dir ext. with_value key t λ k. with_value val t λ v.
          let m = pup_moved s in
          let r = lib.put_mem lane t.disk m.stack dir ext (record { key = k; val = v }) m.pages in
          status_reply "Error: cannot write to the index" r.0 (replaced h m r.1 r.2 t))

  -- jpup_<lane>_commit
  unfoldable pub commit_leaf :
      ℕ → Value → Paths → Bool → Table Stack Disk → Outcome (Unit {0}) × Table Stack Disk
  unfolding slot_of pup_moved
  commit_leaf argc handle paths durable t = with_arguments argc 3 usage handle t λ h s.
      writable s t (
        with_paths paths t λ dir ext.
          let m = pup_moved s in
          let r = lib.commit_as lane t.disk m.stack dir ext durable in
          status_reply "Error: cannot commit the index" r.0 (replaced h m r.1 r.2 t))

  -- The end of jpup_<lane>_drop, where the slot has moved already; no index is every run.
  abbrev pub dropped_runs :
      ℕ
      → Slot Stack
      → FilePath
      → FilePath
      → Option (Outcome ℕ)
      → Table Stack Disk
      → Outcome (Unit {0}) × Table Stack Disk
  dropped_runs h m dir ext none t =
      let r = lib.thin_tail t.disk m.stack dir ext (lib.count m.stack) in
      bool_reply "Error: cannot drop the index runs" r.0 (replaced h m r.1 r.2 t)
  dropped_runs h m dir ext (some (err e)) t = (err e, put_slot h m t)
  dropped_runs h m dir ext (some (ok i)) t =
      let r = lib.drop_at t.disk m.stack dir ext (i % 2 ^ 32) in
      bool_reply "Error: no such index run" r.0 (replaced h m r.1 r.2 t)

  -- jpup_<lane>_drop
  unfoldable pub drop_leaf :
      ℕ
      → Value
      → Paths
      → Option (Outcome ℕ)
      → Table Stack Disk
      → Outcome (Unit {0}) × Table Stack Disk
  unfolding slot_of pup_moved
  drop_leaf argc handle paths index t = with_arguments argc 3 usage handle t λ h s.
      writable s t
        (with_paths paths t λ dir ext. dropped_runs h (disarmed lane (pup_moved s)) dir ext index t)

  -- jpup_<lane>_close
  unfoldable pub close_leaf : ℕ → Value → Table Stack Disk → Outcome (Unit {0}) × Table Stack Disk
  unfolding slot_of pup_moved
  close_leaf argc handle t = with_slot usage (slot_of argc handle t) t λ h s.
      if s.busy then (err scanned_now, t) else (
        ok tt,
        put_slot h (disarmed lane (record (pup_moved s) { stack = lib.empty; live = false })) t,
      )

  -- jpup_<lane>_count
  unfoldable pub count_leaf : ℕ → Value → Table Stack Disk → Outcome ℕ × Table Stack Disk
  unfolding slot_of
  count_leaf argc handle t =
      with_slot usage (slot_of argc handle t) t λ h s. (ok (lib.count s.stack), t)

  abbrev pub run_reply :
      ℕ → ℕ → Slot Stack → Option Mapping → Table Stack Disk → Outcome ℕ × Table Stack Disk
  run_reply h i s none t = (err "Error: no such index run", t)
  run_reply h i s (some run) t = let r = pup_view i run s in (ok r.0, put_slot h r.1 t)

  -- jpup_<lane>_run: the number of the ArrayBuffer that its view is over.
  unfoldable pub run_leaf : ℕ → Value → Outcome ℕ → Table Stack Disk → Outcome ℕ × Table Stack Disk
  unfolding slot_of pup_view
  run_leaf argc handle index t = with_arguments argc 2 usage handle t λ h s. with_value index t λ i.
      if leb (lib.count s.stack) i || leb max_runs i
      then (err "Error: no such index run", t)
      else run_reply h i s (lib.data_row s.stack i (lane_size lane)) t

-- jpup_mem
unfoldable pub mem_leaf :
    {Stack Disk : Type 0} → ℕ → Value → Table Stack Disk → Outcome ℕ × Table Stack Disk
unfolding slot_of
mem_leaf argc handle t =
    with_slot "Error: _pup_mem(h)" (slot_of argc handle t) t λ h s. (ok s.mem_rows, t)
