-- ===== src/Pup/Table.antt =====
-- The table of open stacks of pup.c: slots, the views that a handle has lent to JS, and cursors.
-- DOGPup of dog is a parameter, with the disk that it works on. The engine has memory.
use quickjab.Prelude.{
  ℕ, ◌+◌, ◌-◌, ◌%◌, ◌^◌, Bool, true, false, ◌&&◌, List, [], ◌∷◌, ◌++◌, Option, none, some, ◌==◌,
  if◌then◌else◌, length, get_elem?, set, replicate, map,
}
use quickjab.Outcome.{Outcome, ok, err}
use quickjab.Arg.{Value, u64_of}
use quickjab.Require.Path.{FilePath}
use quickjab.Pup.{IndexRow, Slice, Source}

pub data IndexLane : Type 0 where
  kv64 wh128 u64 u32 : IndexLane

-- OK, HITTOOMANY, and any other code.
pub data Status : Type 0 where
  done too_many failed : Status

-- Where a mapping begins, and its bytes.
pub record Mapping : Type 0 where
  pub base : ℕ
  pub len : ℕ

-- What the leaves call of dog: a stack is the dict with what it maps, and `rows` its memory.
pub record PupLib (Stack Disk : Type 0) : Type 0 where
  pub page_size : ℕ
  pub empty : Stack
  pub open_all : Disk → FilePath → FilePath → Bool × Stack
  pub count : Stack → ℕ
  pub put_mem :
      IndexLane → Disk → Stack → FilePath → FilePath → IndexRow → ℕ → Status × Stack × Disk
  pub commit_as : IndexLane → Disk → Stack → FilePath → FilePath → Bool → Status × Stack × Disk
  pub thin_tail : Disk → Stack → FilePath → FilePath → ℕ → Bool × Stack × Disk
  pub drop_at : Disk → Stack → FilePath → FilePath → ℕ → Bool × Stack × Disk
  pub data_row : Stack → ℕ → ℕ → Option Mapping
  pub sources : IndexLane → Stack → Option (List Source)
  pub rows : Stack → ℕ → IndexRow

-- `pupview`: the ArrayBuffer, by its number, and the mapping it wraps.
pub record RunView : Type 0 where
  pub buffer : ℕ
  pub mapping : Mapping

-- The cursor of a handle on one lane: JABC_PUPCUR, K, X, A and E.
pub record Cursor : Type 0 where
  pub entries : List Slice
  pub bound : IndexRow
  pub pulled : Bool
  pub armed : Bool
  pub cut_epoch : ℕ

-- `pupslot`, with the cursors of its handle, and with the ArrayBuffers that the handle has made:
-- what each wraps, or none once it is detached.
pub record Slot (Stack : Type 0) : Type 0 where
  pub stack : Stack
  pub live : Bool
  pub rw : Bool
  pub busy : Bool
  pub pages : ℕ
  pub mem_rows : ℕ
  pub epoch : ℕ
  pub views : List (Option RunView)
  pub nview : ℕ
  pub buffers : List (Option Mapping)
  pub lane_cursors : IndexLane → Cursor

pub record Table (Stack Disk : Type 0) : Type 0 where
  pub slots : List (Slot Stack)
  pub disk : Disk

abbrev pub max_open : ℕ
max_open = 32

abbrev pub max_runs : ℕ
max_runs = 64

abbrev pub lane_eq : IndexLane → IndexLane → Bool
lane_eq kv64 kv64 = true
lane_eq wh128 wh128 = true
lane_eq u64 u64 = true
lane_eq u32 u32 = true
lane_eq _ _ = false

-- `sizeof(L)`
abbrev pub lane_size : IndexLane → ℕ
lane_size kv64 = 16
lane_size wh128 = 16
lane_size u64 = 8
lane_size u32 = 4

-- JS_DetachArrayBuffer of every live view
unfoldable pub detach_all : List (Option RunView) → List (Option Mapping) → List (Option Mapping)
detach_all [] buffers = buffers
detach_all (none ∷ views) buffers = detach_all views buffers
detach_all (some v ∷ views) buffers = detach_all views (set buffers v.buffer none)

-- What JS_GetArrayBuffer tells of the buffer of a view is the mapping that is asked for, and so is
-- what the view keeps.
abbrev pub same_mapping : Mapping → Mapping → Bool
same_mapping a b = a.base == b.base && a.len == b.len

abbrev pub wraps : Option (Option Mapping) → Mapping → Bool
wraps (some (some m)) run = same_mapping m run
wraps _ run = false

abbrev pub is_current : RunView → Mapping → List (Option Mapping) → Bool
is_current v run buffers =
    wraps (get_elem? buffers v.buffer) v.mapping && same_mapping v.mapping run

abbrev pub live_slot : {Stack : Type 0} → ℕ → Option (Slot Stack) → Option (ℕ × Slot Stack)
live_slot h (some s) = if s.live then some (h, s) else none
live_slot h none = none

module _ {Stack : Type 0} where
  abbrev pub set_cursor : IndexLane → Cursor → Slot Stack → Slot Stack
  set_cursor lane c s = record s {
    lane_cursors = λ other. if lane_eq lane other then c else s.lane_cursors other;
  }

  -- No entries, and not armed.
  abbrev pub disarmed : IndexLane → Slot Stack → Slot Stack
  disarmed lane s = set_cursor lane (record (s.lane_cursors lane) { entries = []; armed = false }) s

  -- JABCPupUnview
  unfoldable pub unview : Slot Stack → Slot Stack
  unfolding detach_all
  unview s = if s.nview == 0 then s else record s {
    views = map (λ v. none) s.views;
    nview = 0;
    buffers = detach_all s.views s.buffers;
  }

  -- JABCPupMoved
  unfoldable pub pup_moved : Slot Stack → Slot Stack
  unfolding unview
  pup_moved s = record (unview s) { epoch = (s.epoch + 1) % 2 ^ 64 }

  -- JABCBytesNoCopy for the run, kept by the handle.
  abbrev pub minted : ℕ → Mapping → Slot Stack → ℕ × Slot Stack
  minted i run s = (
    length s.buffers,
    record s {
      views = set s.views i (some (record { buffer = length s.buffers; mapping = run }));
      nview = s.nview + 1;
      buffers = s.buffers ++ (some run ∷ []);
    },
  )

  abbrev pub forgotten : ℕ → Slot Stack → Slot Stack
  forgotten i s = record s { views = set s.views i none; nview = s.nview - 1 }

  abbrev pub view_of_entry : ℕ → Mapping → Option (Option RunView) → Slot Stack → ℕ × Slot Stack
  view_of_entry i run (some (some v)) s =
      if is_current v run s.buffers then (v.buffer, s) else minted i run (forgotten i s)
  view_of_entry i run _ s = minted i run s

  -- JABCPupView: the buffer that the new view is over.
  unfoldable pub pup_view : ℕ → Mapping → Slot Stack → ℕ × Slot Stack
  pup_view i run s = view_of_entry i run (get_elem? s.views i) s

module _ {Stack Disk : Type 0} where
  abbrev pub slot_at : Outcome ℕ → Table Stack Disk → Option (ℕ × Slot Stack)
  slot_at (ok h) t = live_slot h (get_elem? t.slots h)
  slot_at (err e) t = none

  -- JABCPupSlot
  unfoldable pub slot_of : ℕ → Value → Table Stack Disk → Option (ℕ × Slot Stack)
  slot_of argc handle t = if argc == 0 then none else slot_at (u64_of handle) t

  abbrev pub put_slot : ℕ → Slot Stack → Table Stack Disk → Table Stack Disk
  put_slot h s t = record t { slots = set t.slots h s }

  -- JABCUninstallPup
  unfoldable pub pup_uninstall : Table Stack Disk → Table Stack Disk
  unfolding unview
  pup_uninstall t = record t { slots = map unview t.slots }

-- JABC_PUPS when the program starts.
abbrev pub no_cursor : Cursor
no_cursor = record {
  entries = [];
  bound = record { key = 0; val = 0 };
  pulled = false;
  armed = false;
  cut_epoch = 0;
}

abbrev pub free_slot : {Stack : Type 0} → Stack → Slot Stack
free_slot empty = record {
  stack = empty;
  live = false;
  rw = false;
  busy = false;
  pages = 0;
  mem_rows = 0;
  epoch = 0;
  views = replicate max_runs none;
  nview = 0;
  buffers = [];
  lane_cursors = λ lane. no_cursor;
}
