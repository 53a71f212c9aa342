-- ===== src/Pup/Lookup.antt =====
-- The point lookup of pup.c against a scan of every run.
use quickjab.Prelude.{
  ℕ, ◌+◌, ◌<◌, ◌≡◌, ◌≢◌, refl, sym, ap, ap₂, ◌∙◌, false, Option, none, some, List, [], ◌∷◌, All,
  arith, ltb, ◌==◌, ◌||◌, ◌&&◌, if◌then◌else◌, Bool-cases, inl, inr,
}
use quickjab.Pup.{
  IndexRow, IndexOrder, Source, is_empty_slice, slice_length, key_eq, page_index, page_window, page,
  sought, hit_of, or_else, get_pos,
}
use quickjab.Pup.Page.{
  IsSearch, IsKeyed, IsSource, row_at, scanned, scanned_at, scanned-none, sought-cases, newer_of,
  newest, place,
}
use quickjab.Pup.Window.{IsPage, page_index-IsPage, window_scanned}

module _ (lane : IndexOrder) (keyed : IsKeyed lane) (search : IsSearch lane)
    (mem : ℕ → IndexRow) where
  -- The search of a whole run.
  whole_scanned :
      (s : Source) (k : IndexRow)
      → IsSource lane mem s
      → row_at mem (sought lane mem s.run k) ≡ scanned mem s.run k
  whole_scanned s k ok =
      elim (sought-cases lane keyed mem s.run k ok.run_ordered ok.run_sorted
        (search mem s.run k ok.run_ordered ok.run_sorted)) [
          | inl (p, a, b, e, f) ↦
              ap (row_at mem) f ∙ sym (scanned_at lane keyed mem s.run p k ok.run_sorted a b e)
          | inr (f, n) ↦ ap (row_at mem) f ∙ sym (scanned-none lane keyed mem s.run k n)
        ]

  -- The answer of a source, by its page table or without, is that of a scan of its run.
  page-scanned :
      (s : Source) (k : IndexRow)
      → IsSource lane mem s
      → row_at mem (hit_of lane mem (page lane mem s k) k) ≡ scanned mem s.run k
  unfolding page
  page-scanned s k ok = elim (Bool-cases (lane.toc_rows == 0 || is_empty_slice s.toc)) [
    | inl bare ↦ rw bare (whole_scanned s k ok)
    | inr table ↦ rw table (by_table (ground (arith, table)) (ground (arith, table)))
  ]
    where
      by_table :
          0 < lane.toc_rows
          → s.toc.head < s.toc.term
          → row_at mem (
              hit_of lane mem
                (let i = page_index lane mem s.toc k in
                  if ltb (i + 1) (slice_length s.toc) && key_eq (mem (s.toc.head + i + 1)) k
                  then record { cell = some (s.toc.head + i + 1); out = s.run }
                  else record { cell = none; out = page_window lane mem s.run i })
                k)
            ≡ scanned mem s.run k
      by_table paged full =
          elim (Bool-cases
            (ltb (i + 1) (slice_length s.toc) && key_eq (mem (s.toc.head + i + 1)) k)) [
              | inl hit ↦ rw hit (from_cell (ground (arith, hit)) (ground (arith, hit)))
              | inr miss ↦
                  rw miss
                    (window_scanned lane keyed search mem s ok paged k i is_page (no_cell miss))
            ]
        where
          i : ℕ
          i = page_index lane mem s.toc k

          is_page : IsPage lane keyed search mem s ok paged k i
          is_page = page_index-IsPage lane keyed search mem s ok paged k full

          regroup : s.toc.head + (i + 1) ≡ s.toc.head + i + 1
          regroup = omega arith

          from_cell :
              s.toc.head + (i + 1) < s.toc.term
              → (mem (s.toc.head + i + 1)).key ≡ k.key
              → some (mem (s.toc.head + i + 1)) ≡ scanned mem s.run k
          from_cell a e =
              let row = ok.cell_row (i + 1) a in
              ap (λ p. some (mem p)) (sym regroup)
              ∙ ap some row
              ∙ sym (
                  scanned_at lane keyed mem s.run (place lane mem s ok paged (i + 1)) k
                    ok.run_sorted (omega arith) (ok.cell_inside (i + 1) a)
                    (ap (λ r. r.key) (sym row) ∙ ap (λ p. (mem p).key) regroup ∙ e))

          no_cell :
              (ltb (i + 1) (slice_length s.toc) && key_eq (mem (s.toc.head + i + 1)) k) ≡ false
              → s.toc.head + (i + 1) < s.toc.term
              → (mem (s.toc.head + (i + 1))).key ≢ k.key
          no_cell miss a e = ground (arith, miss, ap (λ p. (mem p).key) regroup)

  -- A point lookup over keyed runs, each deduped and with the page table that its rows have, answers
  -- with the row that the newest source with the key has, as a scan of all rows tells it; it answers
  -- undefined exactly where no source has the key.
  pub get_newest :
      (sources : List Source) (k : IndexRow)
      → All (IsSource lane mem) sources
      → row_at mem (get_pos lane mem sources k) ≡ newest mem sources k
  unfolding get_pos newest
  get_newest [] k h = refl
  get_newest (s ∷ older) k h =
      joined (hit_of lane mem (page lane mem s k) k) (get_pos lane mem older k)
      ∙ ap₂ newer_of (page-scanned s k h.0) (get_newest older k h.1)
    where
      joined :
          (o later : Option ℕ)
          → row_at mem (or_else lane mem o later) ≡ newer_of (row_at mem o) (row_at mem later)
      joined (some p) later = refl
      joined none later = refl
