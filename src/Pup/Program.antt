-- ===== src/Pup/Program.antt =====
-- What a program can do to the table of pup.c: calls of the leaves, range scans whose callbacks call
-- leaves too, and the detaching of an ArrayBuffer.
use quickjab.Prelude.{
  ℕ, zero, suc, ltb, map, ◌≡◌, refl, Bool, true, List, Option, none, some, String, inl, inr,
  if_cases, get_elem?, set, if◌then◌else◌, not,
}
use quickjab.Outcome.{Outcome, ok, err}
use quickjab.Arg.{Value}
use quickjab.Pup.{narrowed, IndexRow, IndexOrder, Source}
use quickjab.Pup.Table.{IndexLane, PupLib, Slot, Table, Mapping, lane_size, put_slot, slot_of}
use quickjab.Pup.Changes.{transferred}
use quickjab.Pup.Leaves.{
  Paths, with_slot, with_value, open_leaf, pup_put_leaf, commit_leaf, drop_leaf, close_leaf,
  run_leaf,
}
use quickjab.Pup.Calls.{
  ChangesOne, slot_of_lem, pup_put_leaf-ChangesOne, commit_leaf-ChangesOne, drop_leaf-ChangesOne,
  close_leaf-ChangesOne, run_leaf-ChangesOne,
}
use quickjab.Pup.Pulls.{open_leaf-ChangesOne, seek_leaf-ChangesOne, pup_next_leaf-ChangesOne}
use quickjab.Pup.Scan.{
  MergeHeap, HitLib, Verdict, enough, seek_leaf, pup_next_leaf, called, scan_turn, scan_loop,
  scan_heap, scan_sources, range_leaf, emitted_row, pulled_off, set_busy, top_row, rows_of,
}

-- A call of a leaf that can change the table, with what is read of its arguments.
pub data PupCall : Type 0 where
  open_call : ℕ → Paths → Bool → Option Value → PupCall
  put_call : ℕ → Value → Paths → Outcome ℕ → Outcome ℕ → PupCall
  commit_call : ℕ → Value → Paths → Bool → PupCall
  drop_call : ℕ → Value → Paths → Option (Outcome ℕ) → PupCall
  close_call : ℕ → Value → PupCall
  run_call : ℕ → Value → Outcome ℕ → PupCall
  seek_call : ℕ → Value → Outcome IndexRow → PupCall
  next_call : ℕ → Value → PupCall
  transfer_call : ℕ → ℕ → PupCall

module _ {Stack Disk : Type 0} (lib : PupLib Stack Disk) (mem_pages : ℕ) (lane : IndexLane)
    (usage : String) (order : IndexOrder) (hit : HitLib) where
  abbrev pub transfer : ℕ → ℕ → Option (Slot Stack) → Table Stack Disk → Table Stack Disk
  transfer h id none t = t
  transfer h id (some s) t = put_slot h (record s { buffers = set s.buffers id none }) t

  unfoldable pub do_call : PupCall → Table Stack Disk → Table Stack Disk
  do_call (open_call argc paths writes rows) t =
      (open_leaf lib mem_pages lane usage argc paths writes rows t).1
  do_call (put_call argc handle paths key val) t =
      (pup_put_leaf lib mem_pages lane usage argc handle paths key val t).1
  do_call (commit_call argc handle paths durable) t =
      (commit_leaf lib mem_pages lane usage argc handle paths durable t).1
  do_call (drop_call argc handle paths index) t =
      (drop_leaf lib mem_pages lane usage argc handle paths index t).1
  do_call (close_call argc handle) t = (close_leaf lib mem_pages lane usage argc handle t).1
  do_call (run_call argc handle index) t = (run_leaf lib mem_pages lane usage argc handle index t).1
  do_call (seek_call argc handle needle) t =
      (seek_leaf lib lane order hit usage argc handle needle t).1
  do_call (next_call argc handle) t = (pup_next_leaf lib lane order hit usage argc handle t).1
  do_call (transfer_call h id) t = transfer h id (get_elem? t.slots h) t

  abbrev pub lane_bytes : Stack → ℕ → Option Mapping
  lane_bytes stack i = lib.data_row stack i (lane_size lane)

  pub do_call-ChangesOne :
      (c : PupCall) (t : Table Stack Disk) → ChangesOne lane_bytes t (do_call c t)
  unfolding do_call
  do_call-ChangesOne (open_call argc paths writes rows) t =
      open_leaf-ChangesOne lib mem_pages lane usage t argc paths writes rows
  do_call-ChangesOne (put_call argc handle paths key val) t =
      pup_put_leaf-ChangesOne lib mem_pages lane usage t argc handle paths key val
  do_call-ChangesOne (commit_call argc handle paths durable) t =
      commit_leaf-ChangesOne lib mem_pages lane usage t argc handle paths durable
  do_call-ChangesOne (drop_call argc handle paths index) t =
      drop_leaf-ChangesOne lib mem_pages lane usage t argc handle paths index
  do_call-ChangesOne (close_call argc handle) t =
      close_leaf-ChangesOne lib mem_pages lane usage t argc handle
  do_call-ChangesOne (run_call argc handle index) t =
      run_leaf-ChangesOne lib mem_pages lane usage t argc handle index
  do_call-ChangesOne (seek_call argc handle needle) t =
      seek_leaf-ChangesOne lib mem_pages lane usage t order hit argc handle needle
  do_call-ChangesOne (next_call argc handle) t =
      pup_next_leaf-ChangesOne lib mem_pages lane usage t order hit argc handle
  do_call-ChangesOne (transfer_call h id) t = lost (get_elem? t.slots h) refl
    where
      lost :
          (o : Option (Slot Stack))
          → get_elem? t.slots h ≡ o
          → ChangesOne lane_bytes t (transfer h id o t)
      lost none e = inl refl
      lost (some s) e = inr (h, s, _, e, transferred id, refl)

  abbrev pub Callback : Type 0
  Callback = IndexRow → Table Stack Disk → Outcome Verdict × Table Stack Disk

  -- From one table to another: any calls, and any scans, whose callbacks do no more than that.
  pub data Ran : Table Stack Disk → Table Stack Disk → Type 0 where
    started : (s : Table Stack Disk) → Ran s s
    after_call : (s t : Table Stack Disk) → Ran s t → (c : PupCall) → Ran s (do_call c t)
    after_scan :
        (s t : Table Stack Disk)
        → Ran s t
        → (argc : ℕ) (handle : Value) (lo hi : Outcome IndexRow) (is_function : Bool)
        → (callback : Callback) → ((r : IndexRow) (v : Table Stack Disk) → Ran v (callback r v).1)
        → Ran s (range_leaf lib lane order hit callback usage argc handle lo hi is_function t).1

  -- What the callback keeps, the loop of a scan keeps.
  module _ (callback : Callback) (P : Table Stack Disk → Type 0)
      (keeps : (r : IndexRow) (v : Table Stack Disk) → P v → P (callback r v).1) where
    called_keeps :
        (p : Outcome Verdict × Table Stack Disk)
        → (rest : Table Stack Disk → Outcome (Unit {0}) × Table Stack Disk)
        → ((v : Table Stack Disk) → P v → P (rest v).1)
        → P p.1
        → P (called lib lane order hit callback p rest).1
    called_keeps (err e, v) rest f h = h
    called_keeps (ok r, v) rest f h =
        if_cases (λ (q : Outcome (Unit {0}) × Table Stack Disk). P q.1) (enough r) (λ e. h)
          (λ e. f v h)

    pub scan_loop_keeps :
        (turns h : ℕ) (heap : MergeHeap) (t : Table Stack Disk)
        → P t
        → P (scan_loop lib lane order hit callback turns h heap t).1
    unfolding scan_loop
    scan_loop_keeps zero h heap t k = k
    scan_loop_keeps (suc turns) h heap t k =
        turn (rows_of lib lane order hit (get_elem? t.slots h))
          (top_row order hit (rows_of lib lane order hit (get_elem? t.slots h)) heap.entries
            heap.order)
          (scan_loop lib lane order hit callback turns h) (λ g v q. scan_loop_keeps turns h g v q)
      where
        turn :
            (mem : ℕ → IndexRow) (o : Option IndexRow)
            (rest : MergeHeap → Table Stack Disk → Outcome (Unit {0}) × Table Stack Disk)
            → ((g : MergeHeap) (v : Table Stack Disk) → P v → P (rest g v).1)
            → P (scan_turn lib lane order hit callback o mem heap t rest).1
        turn mem none rest f = k
        turn mem (some val) rest f =
            called_keeps (callback (emitted_row lane val) t)
              (rest (pulled_off order hit mem val heap)) (λ v q. f _ v q)
              (keeps (emitted_row lane val) t k)

    -- What holds of the table while the handle is marked as scanned, and once the mark is as before.
    pub range_leaf_keeps :
        (argc : ℕ) (handle : Value) (lo hi : Outcome IndexRow) (is_function : Bool)
        (t : Table Stack Disk)
        → ((h : ℕ) (s : Slot Stack)
            → get_elem? t.slots h ≡ some s
            → s.live ≡ true
            → P (put_slot h (record s { busy = true }) t)
              × ((u : Table Stack Disk)
                  → P u
                  → P (set_busy lib lane order hit h s.busy (get_elem? u.slots h) u)))
        → P t
        → P (range_leaf lib lane order hit callback usage argc handle lo hi is_function t).1
    unfolding range_leaf
    range_leaf_keeps argc handle lo hi is_function t around k = slot (slot_of argc handle t) refl
      where
        heap_scan :
            (h : ℕ) (s : Slot Stack)
            → get_elem? t.slots h ≡ some s
            → s.live ≡ true
            → (o : Option MergeHeap) → P (scan_heap lib lane order hit callback h s o t).1
        heap_scan h s e l none = k
        heap_scan h s e l (some heap) =
            let (marked, restored) = around h s e l in
            restored _ (scan_loop_keeps _ h heap (put_slot h (record s { busy = true }) t) marked)

        from_sources :
            (h : ℕ) (s : Slot Stack)
            → get_elem? t.slots h ≡ some s
            → s.live ≡ true
            → (l u : IndexRow) (o : Option (List Source))
            → P (scan_sources lib lane order hit callback h s l u o t).1
        from_sources h s e live l u none = k
        from_sources h s e live l u (some sources) =
            let mem = lib.rows s.stack in
            heap_scan h s e live (
              hit.hit_load mem
                (hit.seek_range mem l u (map (λ source. narrowed order mem source l) sources)))

        gates :
            (h : ℕ) (s : Slot Stack)
            → get_elem? t.slots h ≡ some s
            → s.live ≡ true
            → (a b : Outcome IndexRow)
            → P
                (with_value a t λ l. with_value b t λ u.
                  if not is_function
                  then (err "Error: the range callback must be a function", t)
                  else scan_sources lib lane order hit callback h s l u
                      (lib.sources lane s.stack)
                      t).1
        gates h s e live (err x) b = k
        gates h s e live (ok l) (err x) = k
        gates h s e live (ok l) (ok u) =
            if_cases (λ (q : Outcome (Unit {0}) × Table Stack Disk). P q.1) (not is_function)
              (λ f. k) (λ f. from_sources h s e live l u (lib.sources lane s.stack))

        slot :
            (o : Option (ℕ × Slot Stack))
            → slot_of argc handle t ≡ o
            → P
                (with_slot usage o t λ h s.
                  if ltb argc 4
                  then (err usage, t)
                  else with_value lo t λ l. with_value hi t λ u.
                    if not is_function
                    then (err "Error: the range callback must be a function", t)
                    else scan_sources lib lane order hit callback h s l u
                        (lib.sources lane s.stack)
                        t).1
        slot none e = k
        slot (some (h, s)) e =
            let (at, live) = slot_of_lem lane_bytes argc handle t h s e in
            if_cases (λ (q : Outcome (Unit {0}) × Table Stack Disk). P q.1) (ltb argc 4) (λ f. k)
              (λ f. gates h s at live lo hi)
