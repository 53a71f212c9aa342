-- ===== src/Pup/Window.antt =====
-- The one page of a run that is searched, against a scan of the whole run, for a lane ordered by its
-- keys.
use quickjab.Prelude.{
  ℕ, ◌+◌, ◌-◌, ◌*◌, ◌≤◌, ◌<◌, ◌≡◌, ◌≢◌, refl, sym, ap, ◌∙◌, true, false, none, some, arith, ltb,
  ltb→lt, ◌==◌, ◌||◌, Bool-cases, inl, inr, ◌⊎◌,
}
use quickjab.Pup.{
  IndexRow, Slice, IndexOrder, Source, slice_length, page_index, page_window, sought,
}
use quickjab.Pup.Page.{
  IsSorted, IsLowerBound, IsSearch, IsKeyed, IsSource, row_at, scanned, sorted-lt, scanned_at,
  scanned-none, sought-cases, mul_suc, place, toc-IsSorted,
}

module _ (lane : IndexOrder) (keyed : IsKeyed lane) (search : IsSearch lane) (mem : ℕ → IndexRow)
    (s : Source) (ok : IsSource lane mem s) (paged : 0 < lane.toc_rows) (k : IndexRow) where
  abbrev place_at : ℕ → ℕ
  place_at = place lane mem s ok paged

  toc_order : IsSorted lane mem s.toc
  toc_order = toc-IsSorted lane mem s ok paged

  cell_key :
      (i : ℕ) → s.toc.head + i < s.toc.term → (mem (s.toc.head + i)).key ≡ (mem (place_at i)).key
  cell_key i h = ap (λ r. r.key) (ok.cell_row i h)

  -- What the page index says of the needle: the page starts at or below it, unless it is the first
  -- one, and the next page does not start below it.
  abbrev pub IsPage : ℕ → Type 0
  IsPage i =
      (s.toc.head + i < s.toc.term)
      × ((i ≡ 0) ⊎ ((mem (s.toc.head + i)).key ≤ k.key))
      × (s.toc.head + (i + 1) < s.toc.term → k.key ≤ (mem (s.toc.head + (i + 1))).key)

  IsPage-at :
      (i a : ℕ)
      → s.toc.head + i ≡ a
      → a < s.toc.term
      → (i ≡ 0) ⊎ ((mem a).key ≤ k.key)
      → (a + 1 < s.toc.term → k.key ≤ (mem (a + 1)).key)
      → IsPage i
  IsPage-at i a e h low high =
      let f : s.toc.head + (i + 1) ≡ a + 1 = omega (arith, e) in
      (omega (arith, e, h), rw e low, λ g. rw f (high (omega (arith, f, g))))

  pub page_index-IsPage : s.toc.head < s.toc.term → IsPage (page_index lane mem s.toc k)
  unfolding page_index
  page_index-IsPage h = elim (Bool-cases (c == s.toc.term || lane.less k (mem c))) [
    | inl back ↦ rw back (elim (Bool-cases (c - s.toc.head == 0)) [
      | inl first ↦ rw first (from_first (ground (arith, f.after)) back)
      | inr later ↦ rw later (
          IsPage-at (c - s.toc.head - 1) (c - 1) (ground (arith, f.after))
            (ground (arith, f.after, f.within))
            (inr (
              ground (
                arith,
                f.below (c - 1) (ground (arith, f.after)) (ground arith),
                keyed (mem (c - 1)) k,
              )))
            (λ g. next_page (ground (arith, f.after)) g))
    ])
    | inr here ↦ rw here (
        IsPage-at (c - s.toc.head) c (omega (arith, f.after)) (at_here here)
          (inr (ground (arith, here, keyed k (mem c))))
          λ g. ground (
            arith,
            f.stops (at_here here),
            keyed (mem c) k,
            sorted-lt lane keyed mem s.toc c (c + 1) toc_order f.after (omega arith) g,
          ))
  ]
    where
      c : ℕ
      c = lane.find_ge mem s.toc k

      f : IsLowerBound lane mem s.toc k c
      f = search mem s.toc k ok.toc_ordered toc_order

      at_here : (c == s.toc.term || lane.less k (mem c)) ≡ false → c < s.toc.term
      at_here e = ground (arith, e, f.within)

      next_page : c - 1 + 1 ≡ c → c - 1 + 1 < s.toc.term → k.key ≤ (mem (c - 1 + 1)).key
      next_page e g = rw e (ground (arith, f.stops (omega (arith, e, g)), keyed (mem c) k))

      from_first : c ≡ s.toc.head → (c == s.toc.term || lane.less k (mem c)) ≡ true → IsPage 0
      from_first e b = IsPage-at 0 c (omega (arith, e)) (omega (arith, e, h)) (inl refl) λ g.
          ground (
            arith,
            e,
            b,
            h,
            keyed k (mem c),
            sorted-lt lane keyed mem s.toc c (c + 1) toc_order f.after (omega arith) g,
          )

  window_bounds :
      (i : ℕ)
      → IsPage i
      → let w = page_window lane mem s.run i in
        (w.head ≡ place_at i)
        × (w.head ≤ w.term)
        × (w.term ≤ s.run.term)
        × ((w.term ≡ s.run.term) ⊎ (w.term ≡ place_at i + lane.toc_rows))
  unfolding page_window
  window_bounds i h = elim (Bool-cases (ltb (place_at i + lane.toc_rows) s.run.term)) [
    | inl short ↦ rw (whole, short) (refl, omega arith, ground (arith, short), inr refl)
    | inr long ↦ rw (whole, long) (refl, omega (arith, inside), omega arith, inl refl)
  ]
    where
      inside : place_at i < s.run.term
      inside = ok.cell_inside i h.0

      whole : ltb s.run.term (place_at i) ≡ false
      whole = ground (arith, inside)

  -- No row below the page or above it has the key.
  low_page : (i q : ℕ) → IsPage i → s.run.head ≤ q → q < place_at i → (mem q).key ≢ k.key
  low_page i q h a b e = elim h.1 [
    | inl first ↦ absurd (omega (arith, ap (λ j. j * lane.toc_rows) first, a, b))
    | inr low ↦ omega (
      arith,
      e,
      low,
      cell_key i h.0,
      sorted-lt lane keyed mem s.run q (place_at i) ok.run_sorted a b (ok.cell_inside i h.0),
    )
  ]

  high_page :
      (i q : ℕ)
      → IsPage i
      → (s.toc.head + (i + 1) < s.toc.term → (mem (s.toc.head + (i + 1))).key ≢ k.key)
      → place_at i + lane.toc_rows ≤ q
      → q < s.run.term
      → (mem q).key ≢ k.key
  high_page i q h no_cell a b e = elim (Bool-cases (ltb (s.toc.head + (i + 1)) s.toc.term)) [
    | inl more ↦ absurd (above (ltb→lt _ _ more))
    | inr last ↦ absurd (past (ground (arith, last)))
  ]
    where
      next : place_at (i + 1) ≡ place_at i + lane.toc_rows
      next = omega (arith, mul_suc i lane.toc_rows)

      at_or_above : place_at (i + 1) < s.run.term → (mem (place_at (i + 1))).key ≤ (mem q).key
      at_or_above g = elim (Bool-cases (q == place_at (i + 1))) [
        | inl same ↦ ground (arith, ap mem (let f : q ≡ place_at (i + 1) = ground arith in f))
        | inr other ↦
            let above : place_at (i + 1) < q = ground (arith, other, next, a) in
            omega (
              arith,
              sorted-lt lane keyed mem s.run (place_at (i + 1)) q ok.run_sorted (omega arith) above
                  b,
            )
      ]

      above : s.toc.head + (i + 1) < s.toc.term → ⊥
      above g =
          omega
            (arith, e, h.2 g, no_cell g, cell_key (i + 1) g, at_or_above (ok.cell_inside (i + 1) g))

      past : s.toc.term ≤ s.toc.head + (i + 1) → ⊥
      past g =
          let len : slice_length s.toc ≡ i + 1 = omega (arith, g, h.0) in
          omega
            (arith, ok.covered (omega (arith, h.0)), ap (λ j. j * lane.toc_rows) len, next, a, b)

  -- The page that is picked, where no cell answers, tells what the run tells.
  pub window_scanned :
      (i : ℕ)
      → IsPage i
      → (s.toc.head + (i + 1) < s.toc.term → (mem (s.toc.head + (i + 1))).key ≢ k.key)
      → row_at mem (sought lane mem (page_window lane mem s.run i) k) ≡ scanned mem s.run k
  window_scanned i h no_cell =
      found (sought-cases lane keyed mem w k bounds.1 sorted (search mem w k bounds.1 sorted))
    where
      w : Slice
      w = page_window lane mem s.run i

      bounds :
          (w.head ≡ place_at i)
          × (w.head ≤ w.term)
          × (w.term ≤ s.run.term)
          × ((w.term ≡ s.run.term) ⊎ (w.term ≡ place_at i + lane.toc_rows))
      bounds = window_bounds i h

      sorted : IsSorted lane mem w
      sorted p q a b c =
          ok.run_sorted p q (omega (arith, a, bounds.0)) b (omega (arith, c, bounds.2))

      none_there :
          ((q : ℕ) → w.head ≤ q → q < w.term → (mem q).key ≢ k.key)
          → (q : ℕ) → s.run.head ≤ q
          → q < s.run.term
          → (mem q).key ≢ k.key
      none_there n q a b = elim (Bool-cases (ltb q w.head)) [
        | inl lower ↦ low_page i q h a (omega (arith, bounds.0, ltb→lt _ _ lower))
        | inr upper ↦ elim (Bool-cases (ltb q w.term)) [
          | inl mid ↦ n q (ground (arith, upper)) (ltb→lt _ _ mid)
          | inr high ↦ elim bounds.3 [
            | inl last ↦ absurd (ground (arith, high, last, b))
            | inr page_end ↦ high_page i q h no_cell (ground (arith, high, page_end)) b
          ]
        ]
      ]

      found :
          ((p : ℕ) × (w.head ≤ p)
              × (p < w.term)
              × ((mem p).key ≡ k.key)
              × (sought lane mem w k ≡ some p))
            ⊎ ((sought lane mem w k ≡ none)
                × ((q : ℕ) → w.head ≤ q → q < w.term → (mem q).key ≢ k.key))
          → row_at mem (sought lane mem w k) ≡ scanned mem s.run k
      found (inl (p, a, b, e, f)) =
          ap (row_at mem) f
          ∙ sym (
              scanned_at lane keyed mem s.run p k ok.run_sorted (omega (arith, a, bounds.0))
                (omega (arith, b, bounds.2)) e)
      found (inr (f, n)) =
          ap (row_at mem) f ∙ sym (scanned-none lane keyed mem s.run k (none_there n))
