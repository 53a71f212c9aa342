-- ===== src/Pup/Pulls.antt =====
-- The leaves of pup.c that open a stack or move a cursor change one slot at most.
use quickjab.Prelude.{
  ℕ, suc, ◌+◌, ◌≡◌, refl, ap, ◌∙◌, Bool, true, false, not, ◌||◌, List, [], ◌∷◌, Option, none, some,
  String, arith, ◌==◌, ltb, ◌⊎◌, inl, inr, Bool-cases, if_cases, get_elem?,
}
use quickjab.Outcome.{Outcome}
use quickjab.Arg.{Value}
use quickjab.Require.Path.{FilePath}
use quickjab.Pup.{IndexRow, IndexOrder, Source}
use quickjab.Pup.Table.{
  set_cursor, Cursor, IndexLane, Mapping, PupLib, Slot, Table, max_runs, lane_size, put_slot,
}
use quickjab.Pup.Changes.{cursor_set, refused_open, opened_now}
use quickjab.Pup.Leaves.{
  Paths, PupReply, open_leaf, open_free, open_at, free_from, pages_for, rows_asked, max_mem_pages,
}
use quickjab.Pup.Calls.{
  ChangesOne, with_slot_moves, with_arguments_moves, with_value_moves, with_paths_moves, run_bytes,
}
use quickjab.Pup.Scan.{
  MergeHeap, HitLib, cut_from, seek_leaf, sought_reply, pup_next_leaf, next_from, loaded,
  pulled_row, top_row,
}

free_from_lem :
    {Stack : Type 0} (slots : List (Slot Stack)) (i h : ℕ)
    → free_from i slots ≡ some h
    → (j : ℕ) × (h ≡ i + j) × (s : Slot Stack) × (get_elem? slots j ≡ some s) × (s.live ≡ false)
unfolding free_from
free_from_lem [] i h e = cc e
free_from_lem {Stack} (s ∷ slots) i h e = later (free_from_lem slots (suc i) h) (Bool-cases s.live)
  where
    later :
        (free_from (suc i) slots ≡ some h
          → (j : ℕ) × (h ≡ suc i + j)
            × (x : Slot Stack) × (get_elem? slots j ≡ some x)
            × (x.live ≡ false))
        → (s.live ≡ true) ⊎ (s.live ≡ false)
        → (j : ℕ) × (h ≡ i + j)
          × (x : Slot Stack) × (get_elem? (s ∷ slots) j ≡ some x)
          × (x.live ≡ false)
    later f (inl taken) =
        let (j, a, x, b, c) = f (rw taken at e) in (suc j, omega (arith, a), x, b, c)
    later f (inr free) =
        let g : some i ≡ some h = rw free at e in
        let same : i ≡ h = cc g in (0, omega (arith, same), s, refl, free)

module _ {Stack Disk : Type 0} (lib : PupLib Stack Disk) (mem_pages : ℕ) (lane : IndexLane)
    (usage : String) (t : Table Stack Disk) where
  abbrev bytes_of : Stack → ℕ → Option Mapping
  bytes_of = run_bytes lib mem_pages lane usage t

  pub open_leaf-ChangesOne :
      (argc : ℕ) (paths : Paths) (writes : Bool) (rows : Option Value)
      → ChangesOne bytes_of t (open_leaf lib mem_pages lane usage argc paths writes rows t).1
  unfolding open_leaf
  open_leaf-ChangesOne argc paths writes rows =
      if_cases (λ (r : PupReply Stack Disk ℕ). ChangesOne bytes_of t r.1) (ltb argc 2)
        (λ few. inl refl)
        (λ all. with_paths_moves bytes_of t paths _ λ dir ext.
          with_value_moves bytes_of t (rows_asked rows) _ λ n.
            if_cases (λ (r : PupReply Stack Disk ℕ). ChangesOne bytes_of t r.1)
              (ltb max_mem_pages (pages_for lib.page_size mem_pages (lane_size lane) n))
              (λ big. inl refl)
              λ fits.
                in_free dir ext (pages_for lib.page_size mem_pages (lane_size lane) n)
                  (free_from 0 t.slots) refl)
    where
      at_slot :
          (dir ext : FilePath) (pages h : ℕ)
          → free_from 0 t.slots ≡ some h
          → (o : Option (Slot Stack)) → get_elem? t.slots h ≡ o
          → ChangesOne bytes_of t (open_at lib mem_pages lane usage dir ext writes pages t h o).1
      at_slot dir ext pages h e none f = inl refl
      at_slot dir ext pages h e (some s) f =
          let r = lib.open_all t.disk dir ext in
          let (j, a, x, b, c) = free_from_lem t.slots 0 h e in
          let same : s ≡ x = cc (f, b, (let g : h ≡ j = omega (arith, a) in g)) in
          let closed : s.live ≡ false = ap (λ (y : Slot Stack). y.live) same ∙ c in
          if_cases (λ (q : PupReply Stack Disk ℕ). ChangesOne bytes_of t q.1)
            (not r.0 || ltb max_runs (lib.count r.1))
            (λ refused. inr (h, s, _, f, refused_open lib.empty closed, refl))
            λ good. inr (h, s, _, f, opened_now _ closed refl refl refl, refl)

      in_free :
          (dir ext : FilePath) (pages : ℕ) (o : Option ℕ)
          → free_from 0 t.slots ≡ o
          → ChangesOne bytes_of t (open_free lib mem_pages lane usage dir ext writes pages t o).1
      in_free dir ext pages none e = inl refl
      in_free dir ext pages (some h) e = at_slot dir ext pages h e (get_elem? t.slots h) refl

  module _ (order : IndexOrder) (hit : HitLib) where
    -- The table after another cursor in a slot.
    set_moves :
        (h : ℕ) (s : Slot Stack) (lane_cursors : IndexLane → Cursor)
        → get_elem? t.slots h ≡ some s
        → ChangesOne bytes_of t (put_slot h (record s { lane_cursors = lane_cursors }) t)
    set_moves h s lane_cursors e = inr (h, s, _, e, cursor_set lane_cursors, refl)

    pub seek_leaf-ChangesOne :
        (argc : ℕ) (handle : Value) (needle : Outcome IndexRow)
        → ChangesOne bytes_of t (seek_leaf lib lane order hit usage argc handle needle t).1
    unfolding seek_leaf
    seek_leaf-ChangesOne argc handle needle =
        with_arguments_moves bytes_of t argc 2 usage handle _ λ h s e live.
          with_value_moves bytes_of t needle _ λ key.
            from_cut h s e
              (record (s.lane_cursors lane) { bound = key; pulled = false; armed = true })
              (lib.sources lane s.stack)
      where
        from_cut :
            (h : ℕ) (s : Slot Stack)
            → get_elem? t.slots h ≡ some s
            → (c : Cursor) (o : Option (List Source))
            → ChangesOne bytes_of t
                (sought_reply lib lane order hit h
                  (cut_from lib lane order hit o (set_cursor lane c s))
                  t).1
        from_cut h s e c none = set_moves h s _ e
        from_cut h s e c (some sources) = set_moves h s _ e

    pub pup_next_leaf-ChangesOne :
        (argc : ℕ) (handle : Value)
        → ChangesOne bytes_of t (pup_next_leaf lib lane order hit usage argc handle t).1
    unfolding pup_next_leaf
    pup_next_leaf-ChangesOne argc handle =
        with_slot_moves bytes_of t usage argc handle _ λ h s e live.
          if_cases (λ (r : PupReply Stack Disk (Option IndexRow)). ChangesOne bytes_of t r.1)
            (not (s.lane_cursors lane).armed) (λ spent. inl refl)
            λ armed.
              if_cases
                (λ (p : Bool × Slot Stack).
                  ChangesOne bytes_of t (next_from lib lane order hit h p t).1)
                ((s.lane_cursors lane).cut_epoch == s.epoch)
                (λ same. from_load h s s.lane_cursors e)
                λ moved_since. from_cut h s e (lib.sources lane s.stack)
      where
        from_top :
            (h : ℕ) (s : Slot Stack) (lane_cursors : IndexLane → Cursor)
            → get_elem? t.slots h ≡ some s
            → (heap : MergeHeap) (o : Option IndexRow)
            → ChangesOne bytes_of t
                (pulled_row lib lane order hit h
                  (record s { lane_cursors = lane_cursors })
                  heap
                  o
                  t).1
        from_top h s lane_cursors e heap none = set_moves h s _ e
        from_top h s lane_cursors e heap (some val) = set_moves h s _ e

        from_heap :
            (h : ℕ) (s : Slot Stack) (lane_cursors : IndexLane → Cursor)
            → get_elem? t.slots h ≡ some s
            → (o : Option MergeHeap)
            → ChangesOne bytes_of t
                (loaded lib lane order hit h (record s { lane_cursors = lane_cursors }) o t).1
        from_heap h s lane_cursors e none = set_moves h s _ e
        from_heap h s lane_cursors e (some heap) =
            from_top h s lane_cursors e heap
              (top_row order hit (lib.rows s.stack) heap.entries heap.order)

        from_load :
            (h : ℕ) (s : Slot Stack) (lane_cursors : IndexLane → Cursor)
            → get_elem? t.slots h ≡ some s
            → ChangesOne bytes_of t
                (next_from lib lane order hit h
                  (true, record s { lane_cursors = lane_cursors })
                  t).1
        from_load h s lane_cursors e =
            from_heap h s lane_cursors e
              (hit.hit_load (lib.rows s.stack) (lane_cursors lane).entries)

        from_cut :
            (h : ℕ) (s : Slot Stack)
            → get_elem? t.slots h ≡ some s
            → (o : Option (List Source))
            → ChangesOne bytes_of t
                (next_from lib lane order hit h (cut_from lib lane order hit o s) t).1
        from_cut h s e none = set_moves h s _ e
        from_cut h s e (some sources) =
            from_load h s (cut_from lib lane order hit (some sources) s).1.lane_cursors e
