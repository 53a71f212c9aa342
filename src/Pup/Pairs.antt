-- ===== src/Pup/Pairs.antt =====
-- The page table on a lane whose order takes the value into account, as that of wh128 does.
use quickjab.Prelude.{
  ℕ, suc, ◌+◌, ◌≤◌, ◌<◌, ◌≡◌, ap, ◌∙◌, none, some, arith, ltb, ltb→lt, ◌==◌, ◌||◌, ◌&&◌, Bool-cases,
  inl, inr, ◌⊎◌,
}
use quickjab.Pup.{IndexRow, IndexOrder, Source, page_index, page, hit_of, narrowed}
use quickjab.Pup.Page.{IsSorted, IsLowerBound, IsSearch, IsSource, toc-IsSorted}

-- By the key, and then by the value: wh128.
abbrev pub IsPaired : IndexOrder → Type 0
IsPaired lane =
    (a b : IndexRow) → lane.less a b ≡ (ltb a.key b.key || (a.key == b.key && ltb a.val b.val))

abbrev pub first_with : ℕ → IndexRow
first_with key = record { key = key; val = 0 }

module _ (lane : IndexOrder) (paired : IsPaired lane) (search : IsSearch lane) (mem : ℕ → IndexRow)
    (s : Source) (ok : IsSource lane mem s) (paged : 0 < lane.toc_rows) (j key : ℕ)
    (inside : s.toc.head + suc j < s.toc.term) (earlier : (mem (s.toc.head + j)).key < key)
    (starts : (mem (s.toc.head + suc j)).key ≡ key)
    (valued : 0 < (mem (s.toc.head + suc j)).val) where
  -- The search of the table stops at the cell.
  table_search : lane.find_ge mem s.toc (first_with key) ≡ s.toc.head + suc j
  table_search = elim (Bool-cases (ltb c (s.toc.head + suc j))) [
    | inl lower ↦ absurd (too_low (ltb→lt _ _ lower))
    | inr upper ↦ elim (Bool-cases (ltb (s.toc.head + suc j) c)) [
      | inl higher ↦ absurd (
          ground (
            arith,
            f.below (s.toc.head + suc j) (omega arith) (ltb→lt _ _ higher),
            paired (mem (s.toc.head + suc j)) (first_with key),
            starts,
          ))
      | inr same ↦ ground (arith, upper, same)
    ]
  ]
    where
      c : ℕ
      c = lane.find_ge mem s.toc (first_with key)

      sorted : IsSorted lane mem s.toc
      sorted = toc-IsSorted lane mem s ok paged

      f : IsLowerBound lane mem s.toc (first_with key) c
      f = search mem s.toc (first_with key) ok.toc_ordered sorted

      too_low : c < s.toc.head + suc j → ⊥
      too_low h = elim (Bool-cases (c == s.toc.head + j)) [
        | inl here ↦ ground (
          arith,
          f.stops (omega (arith, h, inside)),
          paired (mem c) (first_with key),
          ap (λ p. (mem p).key) (let g : c ≡ s.toc.head + j = ground arith in g),
          earlier,
        )
        | inr before ↦ ground (
          arith,
          f.stops (omega (arith, h, inside)),
          paired (mem c) (first_with key),
          sorted c (s.toc.head + j) f.after (ground (arith, before, h)) (omega (arith, inside)),
          paired (mem c) (mem (s.toc.head + j)),
          earlier,
        )
      ]

  index_before : page_index lane mem s.toc (first_with key) ≡ j
  unfolding page_index
  index_before =
      rw table_search
        (ground (arith, inside, starts, valued, paired (first_with key) (mem (s.toc.head + suc j))))

  page_answers :
      page lane mem s (first_with key) ≡ record { cell = some (s.toc.head + suc j); out = s.run }
  unfolding page
  page_answers =
      let step : s.toc.head + j + 1 ≡ s.toc.head + suc j = omega arith in
      let row : (mem (s.toc.head + j + 1)).key ≡ key = ap (λ p. (mem p).key) step ∙ starts in
      rw index_before (ground (arith, inside, paged, row, step))

  -- On a lane ordered by key and value, take a page behind the first that starts with a row of a key
  -- and a value above 0, where the page before starts with a lower key. Then a lookup of the key
  -- answers from the cell of that page, and a range from the key starts at the cell, which lies in
  -- the table and not in the run, if the two are apart.
  pub narrowed_leaves_run :
      (s.run.term ≤ s.toc.head) ⊎ (s.toc.term ≤ s.run.head)
      → (hit_of lane mem (page lane mem s (first_with key)) (first_with key)
          ≡ some (s.toc.head + suc j))
        × ((narrowed lane mem s (first_with key)).head ≡ s.toc.head + suc j)
        × ¬ (
            (s.run.head ≤ (narrowed lane mem s (first_with key)).head)
            × ((narrowed lane mem s (first_with key)).head < s.run.term))
  unfolding narrowed
  narrowed_leaves_run apart =
      let head = ap (λ p. elim p.cell [ some pos ↦ pos | none ↦ p.out.head ]) page_answers in
      (
        ap (λ p. hit_of lane mem p (first_with key)) page_answers,
        head,
        λ h. elim apart [
          | inl behind ↦ omega (arith, behind, head, h.1)
          | inr before ↦ omega (arith, before, head, h.0, inside)
        ],
      )
