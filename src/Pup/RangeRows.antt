-- ===== src/Pup/RangeRows.antt =====
-- What a range scan of pup.c hands to its callback.
use quickjab.Prelude.{ℕ, zero, suc, ◌≡◌, refl, List, [], ◌∷◌, map, get_elem?, get_or, arith}
use mathlib.Core.List.{foldl}
use quickjab.Outcome.{Outcome, ok}
use quickjab.Pup.{IndexRow, IndexOrder}
use quickjab.Pup.Table.{IndexLane, PupLib, Table}
use quickjab.Pup.Scan.{
  MergeHeap, HitLib, Verdict, other, rows_left, pulled_off, no_row, emitted_row, rows_of, scan_loop,
  enough,
}
use quickjab.Pup.Merge.{IsRanked, MergeLaws, AllRising, IsMerge, given}
use quickjab.Pup.MergeAll.{given-IsMerge, given_row, given_none}

module _ {Stack Disk : Type 0} (lib : PupLib Stack Disk) (lane : IndexLane) (order : IndexOrder)
    (hit : HitLib) (note : Disk → IndexRow → Disk) where
  -- A callback that takes note of each row and asks for more.
  abbrev pub noting : IndexRow → Table Stack Disk → Outcome Verdict × Table Stack Disk
  noting r t = (ok other, record t { disk = note t.disk r })

  abbrev pub mem_of : Table Stack Disk → ℕ → ℕ → IndexRow
  mem_of t h = rows_of lib lane order hit (get_elem? t.slots h)

  abbrev pub noted : List IndexRow → Table Stack Disk → Table Stack Disk
  noted out t = record t { disk = foldl note t.disk (map (emitted_row lane) out) }

  scan_row :
      (turns h i : ℕ) (is : List ℕ) (heap : MergeHeap) (t : Table Stack Disk)
      → heap.order ≡ i ∷ is
      → let val = mem_of t h (get_or heap.entries i no_row).head in
        scan_loop lib lane order hit noting (suc turns) h heap t
        ≡ scan_loop lib lane order hit noting turns h
            (pulled_off order hit (mem_of t h) val heap)
            (noting (emitted_row lane val) t).1
  unfolding scan_loop enough
  scan_row turns h i is heap t e = rw e refl

  scan_none :
      (turns h : ℕ) (heap : MergeHeap) (t : Table Stack Disk)
      → heap.order ≡ []
      → scan_loop lib lane order hit noting (suc turns) h heap t ≡ (ok tt, t)
  unfolding scan_loop
  scan_none turns h heap t e = rw e refl

  abbrev IsGiven : ℕ → Type 0
  IsGiven turns =
      (h : ℕ) (heap : MergeHeap) (t : Table Stack Disk)
      → scan_loop lib lane order hit noting turns h heap t
        ≡ (ok tt, noted (given order hit (mem_of t h) turns heap) t)

  scan_turns : (turns : ℕ) → IsGiven turns → IsGiven (suc turns)
  scan_turns turns again h heap t = by_order heap.order refl
    where
      by_order :
          (o : List ℕ)
          → heap.order ≡ o
          → scan_loop lib lane order hit noting (suc turns) h heap t
            ≡ (ok tt, noted (given order hit (mem_of t h) (suc turns) heap) t)
      by_order [] e =
          rw (scan_none turns h heap t e, given_none order hit (mem_of t h) turns heap e) refl
      by_order (i ∷ is) e =
          let val = mem_of t h (get_or heap.entries i no_row).head in
          rw (scan_row turns h i is heap t e, given_row order hit (mem_of t h) turns i is heap e)
            (again h (pulled_off order hit (mem_of t h) val heap)
              (noting (emitted_row lane val) t).1)

  scan_loop-IsGiven : (turns : ℕ) → IsGiven turns
  unfolding scan_loop given
  scan_loop-IsGiven zero h heap t = refl
  scan_loop-IsGiven (suc turns) h heap t = scan_turns turns (scan_loop-IsGiven turns) h heap t

  -- The loop of a range scan, with a callback that takes note of each row and asks for more, ends
  -- without an error, and all it does is that the callback has noted, as JS sees them, the rows of
  -- the merge of the entries: in rising order, one for every rank that an entry has a row of, each
  -- from the youngest entry that has one. Under an order that goes by a rank, a heap that HIT keeps
  -- as documented, and entries whose rows rise.
  pub scan_loop_merges :
      (rank : IndexRow → ℕ)
      → IsRanked rank order
      → (IsHeap : MergeHeap → Type 0) (t : Table Stack Disk) (h : ℕ)
      → MergeLaws order hit (mem_of t h) IsHeap
      → (heap : MergeHeap) → IsHeap heap
      → AllRising rank (mem_of t h) heap.entries
      → (out : List IndexRow) × IsMerge rank (mem_of t h) heap.entries out
        × (scan_loop lib lane order hit noting
              (rows_left order hit (mem_of t h) heap.entries)
              h
              heap
              t
            ≡ (ok tt, noted out t))
  scan_loop_merges rank ranked IsHeap t h laws heap wf rising =
      let mem = mem_of t h in
      let turns = rows_left order hit mem heap.entries in
      (
        given order hit mem turns heap,
        given-IsMerge order hit mem rank ranked IsHeap laws turns heap wf rising (omega arith),
        scan_loop-IsGiven turns h heap t,
      )
