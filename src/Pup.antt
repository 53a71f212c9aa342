-- ===== src/Pup.antt =====
-- The index leaves of pup.c. A stack of sorted runs and a memtable is kept by DOGPup of dog, which
-- is a parameter; rows lie in memory, and a pointer to one is the number of its place there.
pub mod Page
pub mod Window
pub mod Lookup
pub mod Pairs
pub mod Table
pub mod Views
pub mod Lending
pub mod Changes
pub mod Safe
pub mod Scanned
pub mod ScanMark
pub mod Program
pub mod Calls
pub mod Pulls
pub mod Drop
pub mod Needle
pub mod MergeStep
pub mod MergeAll
pub mod RangeRows
pub mod Merge
pub mod Leaves
pub mod Scan
use quickjab.Prelude.{
  ℕ, zero, suc, ◌+◌, ◌-◌, ◌*◌, Bool, not, ◌&&◌, ◌||◌, List, [], ◌∷◌, Option, none, some, ltb, ◌==◌,
  if◌then◌else◌,
}

-- A row of a lane; a scalar lane has the scalar as the key, and 0.
pub record IndexRow : Type 0 where
  pub key : ℕ
  pub val : ℕ

-- The rows at the places from `head` up to `term`.
pub record Slice : Type 0 where
  pub head : ℕ
  pub term : ℕ

-- `$len` and `$empty`
abbrev pub slice_length : Slice → ℕ
slice_length s = s.term - s.head

abbrev pub is_empty_slice : Slice → Bool
is_empty_slice s = not (ltb s.head s.term)

-- PUP_KEYEQ
abbrev pub key_eq : IndexRow → IndexRow → Bool
key_eq pos needle = pos.key == needle.key

-- What a lane brings: the order L##Z and the search L##sFindGE of abc, and DOGPupTocRows of dog.
pub record IndexOrder : Type 0 where
  pub less : IndexRow → IndexRow → Bool
  pub find_ge : (ℕ → IndexRow) → Slice → IndexRow → ℕ
  pub toc_rows : ℕ

-- A run, and the first rows of its pages; an empty slice where it has none.
pub record Source : Type 0 where
  pub run : Slice
  pub toc : Slice

-- What jpup_page returns, `none` for NULL, and what it sets `out` to.
pub record Paged : Type 0 where
  pub cell : Option ℕ
  pub out : Slice

module _ (lane : IndexOrder) (mem : ℕ → IndexRow) where
  -- Which cell the page of the needle has.
  unfoldable pub page_index : Slice → IndexRow → ℕ
  page_index toc key =
      let c = lane.find_ge mem toc key in
      let i = c - toc.head in
      if c == toc.term || lane.less key (mem c) then (if i == 0 then 0 else i - 1) else i

  abbrev pub clip_head : Slice → ℕ → ℕ
  clip_head run p = if ltb run.term p then run.term else p

  -- Page `i` of a run.
  unfoldable pub page_window : Slice → ℕ → Slice
  page_window run i =
      let head = clip_head run (run.head + i * lane.toc_rows) in
      record {
        head = head;
        term = if ltb (head + lane.toc_rows) run.term then head + lane.toc_rows else run.term;
      }

  -- jpup_<lane>_page
  unfoldable pub page : Source → IndexRow → Paged
  unfolding page_index page_window
  page s key =
      if lane.toc_rows == 0 || is_empty_slice s.toc
      then record { cell = none; out = s.run }
      else (let i = page_index s.toc key in
          if ltb (i + 1) (slice_length s.toc) && key_eq (mem (s.toc.head + i + 1)) key
          then record { cell = some (s.toc.head + i + 1); out = s.run }
          else record { cell = none; out = page_window s.run i })

  -- The search of a window, by jpup_<lane>_get.
  unfoldable pub sought : Slice → IndexRow → Option ℕ
  sought win needle =
      let pos = lane.find_ge mem win needle in
      if ltb pos win.term && key_eq (mem pos) needle then some pos else none

  abbrev pub hit_of : Paged → IndexRow → Option ℕ
  hit_of p needle = elim p.cell [ some pos ↦ some pos | none ↦ sought p.out needle ]

  abbrev pub or_else : Option ℕ → Option ℕ → Option ℕ
  or_else (some pos) later = some pos
  or_else none later = later

  -- The loop of jpup_<lane>_get, with the sources newest first: the place of the row it answers with.
  unfoldable pub get_pos : List Source → IndexRow → Option ℕ
  unfolding page sought
  get_pos [] needle = none
  get_pos (s ∷ older) needle =
      let rest = get_pos older needle in or_else (hit_of (page s needle) needle) rest

  -- How jpup_<lane>_range narrows a source by its lower bound.
  unfoldable pub narrowed : Source → IndexRow → Slice
  unfolding page
  narrowed s lo = record {
    head = elim (page s lo).cell [ some pos ↦ pos | none ↦ (page s lo).out.head ];
    term = s.run.term;
  }
