-- ===== src/Tests/PupMerge.antt =====
-- A range scan of two runs, with a heap that keeps its entries and their top alone.
use quickjab.Prelude.{
  ◌*◌, ℕ, zero, suc, ◌+◌, ◌≡◌, ◌<◌, ◌≤◌, refl, sym, ap, ◌∙◌, List, [], ◌∷◌, Option, none, some,
  arith, ltb, ltb→lt, subst, inl, inr, Bool-cases, if◌then◌else◌, get_elem?, get_or, map, true,
  ◌&&◌,
}
use quickjab.Outcome.{ok}
use quickjab.Pup.{IndexRow, Slice}
use quickjab.Pup.Table.{kv64, done, PupLib, Table, no_cursor}
use quickjab.Pup.Scan.{MergeHeap, HitLib, no_row, scan_loop}
use quickjab.Pup.Merge.{stepped, IsAt, MergeLaws, AllRising, IsMerge}
use quickjab.Pup.RangeRows.{noting, noted, scan_loop_merges}
use quickjab.Tests.PupLane.{keyed_lane}

-- The youngest entry with the least row, and its place.
abbrev better : (ℕ → IndexRow) → Slice → Option (ℕ × Slice) → Option (ℕ × Slice)
better mem e none = if ltb e.head e.term then some (0, e) else none
better mem e (some (i, s)) =
    if ltb e.head e.term && ltb (mem e.head).key (mem s.head).key
    then some (0, e)
    else some (suc i, s)

abbrev top_of : (ℕ → IndexRow) → List Slice → Option (ℕ × Slice)
top_of mem [] = none
top_of mem (e ∷ es) = better mem e (top_of mem es)

abbrev place_of : Option (ℕ × Slice) → List ℕ
place_of none = []
place_of (some (i, s)) = i ∷ []

abbrev arranged : (ℕ → IndexRow) → List Slice → MergeHeap
arranged mem es = record { entries = es; order = place_of (top_of mem es) }

abbrev pub top_alone : HitLib
top_alone = record {
  hit_load = λ mem es. some (arranged mem es);
  tops = λ mem h. 1;
  advance_tops = λ mem n h. arranged mem (
      map (stepped keyed_lane mem (mem (get_or h.entries (get_or h.order 0 0) no_row).head))
        h.entries);
  hit_step = λ mem h. arranged mem (
      map (stepped keyed_lane mem (mem (get_or h.entries (get_or h.order 0 0) no_row).head))
        h.entries);
  seek_range = λ mem lo hi entries. entries;
}

module _ (mem : ℕ → IndexRow) where
  abbrev IsTop : List Slice → Option (ℕ × Slice) → Type 0
  IsTop es none = (i : ℕ) (e : Slice) → get_elem? es i ≡ some e → e.term ≤ e.head
  IsTop es (some (i, s)) =
      IsAt es i s
      × ((j : ℕ) (e : Slice) → IsAt es j e → (mem s.head).key ≤ (mem e.head).key)
      × ((j : ℕ) (e : Slice) → i < j → IsAt es j e → (mem s.head).key < (mem e.head).key)

  all_at :
      (P : ℕ → Slice → Type 0) (e : Slice) (es : List Slice)
      → (e.head < e.term → P 0 e)
      → ((j : ℕ) (x : Slice) → IsAt es j x → P (suc j) x)
      → (j : ℕ) (x : Slice) → IsAt (e ∷ es) j x
      → P j x
  all_at P e es here there zero x (f, full) =
      let same : e ≡ x = cc f in subst (P 0) same (here (rw same full))
  all_at P e es here there (suc j) x at = there j x at

  first-IsTop :
      (e : Slice) (es : List Slice)
      → e.head < e.term
      → ((j : ℕ) (x : Slice) → IsAt es j x → (mem e.head).key < (mem x.head).key)
      → IsTop (e ∷ es) (some (0, e))
  first-IsTop e es full above = (
    (refl, full),
    all_at (λ j x. (mem e.head).key ≤ (mem x.head).key) e es (λ a. omega arith)
        (λ j x at. omega (arith, above j x at)),
    λ j x l at.
        all_at (λ k y. 0 < k → (mem e.head).key < (mem y.head).key) e es
          (λ a b. absurd (omega (arith, b))) (λ k y a b. above k y a) j x at l,
  )

  better-IsTop :
      (e : Slice) (es : List Slice) (t : Option (ℕ × Slice))
      → IsTop es t
      → IsTop (e ∷ es) (better mem e t)
  better-IsTop e es none k = elim (Bool-cases (ltb e.head e.term)) [
    | inl full ↦
        rw full
          (first-IsTop e es (ltb→lt _ _ full) (λ j x (f, a). absurd (omega (arith, k j x f, a))))
    | inr empty ↦ rw empty (λ i x f. none_at i x f (ground (arith, empty)))
  ]
    where
      none_at :
          (i : ℕ) (x : Slice) → get_elem? (e ∷ es) i ≡ some x → e.term ≤ e.head → x.term ≤ x.head
      none_at zero x f low = let same : e ≡ x = cc f in rw (sym same) low
      none_at (suc i) x f low = k i x f
  better-IsTop e es (some (i, s)) (at, least, young) = elim (Bool-cases (ltb e.head e.term)) [
    | inl full ↦ elim (Bool-cases (ltb (mem e.head).key (mem s.head).key)) [
      | inl less ↦
          rw (full, less)
            (first-IsTop e es (ltb→lt _ _ full)
              (λ j x a. omega (arith, ltb→lt _ _ less, least j x a)))
      | inr more ↦ rw (full, more) (later (λ a. ground (arith, more)))
    ]
    | inr empty ↦ rw empty (later (λ a. absurd (ground (arith, empty, a))))
  ]
    where
      later :
          (e.head < e.term → (mem s.head).key ≤ (mem e.head).key) → IsTop (e ∷ es) (some (suc i, s))
      later k = (
        at,
        all_at (λ j x. (mem s.head).key ≤ (mem x.head).key) e es k least,
        λ j x l a.
            all_at (λ m y. suc i < m → (mem s.head).key < (mem y.head).key) e es
              (λ b c. absurd (omega (arith, c))) (λ m y b c. young m y (omega (arith, c)) b) j x a
              l,
      )

  top_of-IsTop : (es : List Slice) → IsTop es (top_of mem es)
  top_of-IsTop [] = λ i e f. cc f
  top_of-IsTop (e ∷ es) = better-IsTop e es (top_of mem es) (top_of-IsTop es)

  abbrev IsArranged : MergeHeap → Type 0
  IsArranged h = h.order ≡ place_of (top_of mem h.entries)

  get_or_at :
      (es : List Slice) (i : ℕ) (s : Slice) → get_elem? es i ≡ some s → get_or es i no_row ≡ s
  get_or_at [] i s f = cc f
  get_or_at (x ∷ es) zero s f = cc f
  get_or_at (x ∷ es) (suc i) s f = get_or_at es i s f

  -- The top of a heap that points at one.
  IsTop-place :
      (h : MergeHeap) (i : ℕ) (is : List ℕ)
      → IsArranged h
      → h.order ≡ i ∷ is
      → IsTop h.entries (some (i, get_or h.entries i no_row))
  IsTop-place h i is wf e = of_top (top_of mem h.entries) (top_of-IsTop h.entries) (sym e ∙ wf)
    where
      of_top :
          (t : Option (ℕ × Slice))
          → IsTop h.entries t
          → i ∷ is ≡ place_of t
          → IsTop h.entries (some (i, get_or h.entries i no_row))
      of_top none k c = cc c
      of_top (some (j, s)) (at, least, young) c =
          let same : i ≡ j = cc c in rw (same, get_or_at h.entries j s at.0) (at, least, young)

  no_place : (h : MergeHeap) → IsArranged h → h.order ≡ [] → IsTop h.entries none
  no_place h wf e = of_top (top_of mem h.entries) (top_of-IsTop h.entries) (sym e ∙ wf)
    where
      of_top : (t : Option (ℕ × Slice)) → IsTop h.entries t → [] ≡ place_of t → IsTop h.entries none
      of_top none k c = k
      of_top (some (j, s)) k c = cc c

  top_alone-MergeLaws : MergeLaws keyed_lane top_alone mem IsArranged
  top_alone-MergeLaws = record {
    ended = no_place;
    top_at = λ h i is wf e. (IsTop-place h i is wf e).0;
    least = λ h i is j x wf e at. ground (arith, (IsTop-place h i is wf e).1 j x at);
    youngest = λ h i is j x wf e l at. ground (arith, (IsTop-place h i is wf e).2 j x l at);
    advanced = λ h i is wf e. rw e (refl, refl);
  }

-- The keys 1 and 3 in the older run, 2 and 3 in the younger.
abbrev pub two_runs : ℕ → IndexRow
two_runs p = record { key = if ltb p 2 then p * 2 + 1 else p; val = p }

abbrev pub run_entries : List Slice
run_entries = record { head = 0; term = 2 } ∷ record { head = 2; term = 4 } ∷ []

abbrev pub rows_lib : PupLib ℕ (List IndexRow)
rows_lib = record {
  page_size = 4096;
  empty = 0;
  open_all = λ disk dir ext. (true, 2);
  count = λ stack. stack;
  put_mem = λ lane disk stack dir ext row pages. (done, stack + 1, disk);
  commit_as = λ lane disk stack dir ext durable. (done, stack + 1, disk);
  thin_tail = λ disk stack dir ext n. (true, 0, disk);
  drop_at = λ disk stack dir ext i. (true, stack, disk);
  data_row = λ stack i size. none;
  sources = λ lane stack. none;
  rows = λ stack. two_runs;
}

abbrev pub two_run_table : Table ℕ (List IndexRow)
two_run_table = record {
  slots =
      record {
        stack = 2;
        live = true;
        rw = true;
        busy = true;
        pages = 1;
        mem_rows = 256;
        epoch = 1;
        views = [];
        nview = 0;
        buffers = [];
        lane_cursors = λ lane. no_cursor;
      }
      ∷ [];
  disk = [];
}

abbrev told : List IndexRow → IndexRow → List IndexRow
told rows r = r ∷ rows

rising_runs : AllRising (λ r. r.key) two_runs run_entries
rising_runs zero e f p q a b c =
    let same : record { head = 0; term = 2 } ≡ e = cc f in
    ground (arith, ap (λ x. x.head) same, ap (λ x. x.term) same, a, b, c)
rising_runs (suc zero) e f p q a b c =
    let same : record { head = 2; term = 4 } ≡ e = cc f in
    ground (arith, ap (λ x. x.head) same, ap (λ x. x.term) same, a, b, c)
rising_runs (suc (suc j)) e f p q a b c = cc f

-- The scan tells the three keys, 3 with the row of the younger run.
scanned_rows :
    (scan_loop rows_lib kv64 keyed_lane top_alone
      (noting rows_lib kv64 keyed_lane top_alone told)
      4
      0
      (arranged two_runs run_entries)
      two_run_table).1.disk
    ≡ record { key = 3; val = 3 } ∷ record { key = 2; val = 2 } ∷ record { key = 1; val = 0 } ∷ []
unfolding scan_loop
scanned_rows = refl

scan_loop_merges_example :
    (out : List IndexRow) × IsMerge (λ r. r.key) two_runs run_entries out
    × (scan_loop rows_lib kv64 keyed_lane top_alone
          (noting rows_lib kv64 keyed_lane top_alone told)
          4
          0
          (arranged two_runs run_entries)
          two_run_table
        ≡ (ok tt, noted rows_lib kv64 keyed_lane top_alone told out two_run_table))
scan_loop_merges_example =
    scan_loop_merges rows_lib kv64 keyed_lane top_alone told (λ r. r.key) (λ a b. refl)
      (IsArranged two_runs) two_run_table 0 (top_alone-MergeLaws two_runs)
      (arranged two_runs run_entries) refl rising_runs
