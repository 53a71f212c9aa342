-- ===== src/Pup/Page.antt =====
-- The page table of a run: the search of one page against a scan of the whole run.
use quickjab.Prelude.{
  ℕ, zero, suc, ◌+◌, ◌-◌, ◌*◌, ◌≤◌, ◌<◌, ◌≡◌, ◌≢◌, refl, sym, ap, ◌∙◌, true, false, Option, none,
  some, List, [], ◌∷◌, arith, ltb, ◌==◌, if◌then◌else◌, Bool-cases, inl, inr, ◌⊎◌,
}
use quickjab.Pup.{IndexRow, Slice, IndexOrder, Source, slice_length, key_eq, sought}

abbrev pub IsSorted : IndexOrder → (ℕ → IndexRow) → Slice → Type 0
IsSorted lane mem s = (p q : ℕ) → s.head ≤ p → p < q → q < s.term → lane.less (mem p) (mem q) ≡ true

-- L##sFindGE: the first place that is not less than the needle.
pub record IsLowerBound (lane : IndexOrder) (mem : ℕ → IndexRow) (s : Slice) (k : IndexRow) (p : ℕ)
    : Type 0 where
  pub after : s.head ≤ p
  pub within : p ≤ s.term
  pub below : (q : ℕ) → s.head ≤ q → q < p → lane.less (mem q) k ≡ true
  pub stops : p < s.term → lane.less (mem p) k ≡ false

abbrev pub IsSearch : IndexOrder → Type 0
IsSearch lane =
    (mem : ℕ → IndexRow) (s : Slice) (k : IndexRow)
    → s.head ≤ s.term
    → IsSorted lane mem s
    → IsLowerBound lane mem s k (lane.find_ge mem s k)

-- A lane whose order is that of the keys: kv64, u64 and u32.
abbrev pub IsKeyed : IndexOrder → Type 0
IsKeyed lane = (a b : IndexRow) → lane.less a b ≡ ltb a.key b.key

-- A sorted run whose page table, if it has one, has the first row of each page.
pub record IsSource (lane : IndexOrder) (mem : ℕ → IndexRow) (s : Source) : Type 0 where
  pub run_ordered : s.run.head ≤ s.run.term
  pub run_sorted : IsSorted lane mem s.run
  pub toc_ordered : s.toc.head ≤ s.toc.term
  pub cell_inside :
      (i : ℕ) → s.toc.head + i < s.toc.term → s.run.head + i * lane.toc_rows < s.run.term
  pub cell_row :
      (i : ℕ)
      → s.toc.head + i < s.toc.term
      → mem (s.toc.head + i) ≡ mem (s.run.head + i * lane.toc_rows)
  pub covered :
      s.toc.head < s.toc.term → s.run.term ≤ s.run.head + slice_length s.toc * lane.toc_rows

-- The scan of rows one by one.
unfoldable pub look : (ℕ → IndexRow) → ℕ → ℕ → IndexRow → Option ℕ
look mem zero p k = none
look mem (suc n) p k = let rest = look mem n (suc p) k in if key_eq (mem p) k then some p else rest

-- The row that a scan of a run finds.
abbrev pub row_at : (ℕ → IndexRow) → Option ℕ → Option IndexRow
row_at mem (some p) = some (mem p)
row_at mem none = none

abbrev pub scanned : (ℕ → IndexRow) → Slice → IndexRow → Option IndexRow
scanned mem s k = row_at mem (look mem (s.term - s.head) s.head k)

abbrev pub newer_of : Option IndexRow → Option IndexRow → Option IndexRow
newer_of (some r) later = some r
newer_of none later = later

-- The newest source that has the key tells the row.
unfoldable pub newest : (ℕ → IndexRow) → List Source → IndexRow → Option IndexRow
newest mem [] k = none
newest mem (s ∷ older) k = let rest = newest mem older k in newer_of (scanned mem s.run k) rest

look-none :
    (mem : ℕ → IndexRow) (n p : ℕ) (k : IndexRow)
    → ((q : ℕ) → p ≤ q → q < p + n → (mem q).key ≢ k.key)
    → look mem n p k ≡ none
unfolding look
look-none mem zero p k h = refl
look-none mem (suc n) p k h = ground (
  arith,
  h p (omega arith) (omega arith),
  look-none mem n (suc p) k (λ q a b. h q (omega arith) (omega arith)),
)

look-some :
    (mem : ℕ → IndexRow) (n p q : ℕ) (k : IndexRow)
    → p ≤ q
    → q < p + n
    → (mem q).key ≡ k.key
    → ((r : ℕ) → p ≤ r → r < q → (mem r).key ≢ k.key)
    → look mem n p k ≡ some q
unfolding look
look-some mem zero p q k a b e h = absurd (omega arith)
look-some mem (suc n) p q k a b e h = elim (Bool-cases (p == q)) [
  | inl same ↦ ground (arith, e, ap mem (let f : p ≡ q = ground arith in f))
  | inr less ↦ ground (
    arith,
    h p (omega arith) (ground arith),
    look-some mem n (suc p) q k (ground arith) (omega arith) e (λ r c d. h r (omega arith) d),
  )
]

module _ (lane : IndexOrder) (keyed : IsKeyed lane) (mem : ℕ → IndexRow) where
  -- The keys of a sorted slice rise.
  pub sorted-lt :
      (s : Slice) (p q : ℕ)
      → IsSorted lane mem s
      → s.head ≤ p
      → p < q
      → q < s.term
      → (mem p).key < (mem q).key
  sorted-lt s p q sorted a b c = ground (arith, sorted p q a b c, keyed (mem p) (mem q))

  -- A scan of a sorted slice finds the one row with the key.
  pub scanned_at :
      (s : Slice) (q : ℕ) (k : IndexRow)
      → IsSorted lane mem s
      → s.head ≤ q
      → q < s.term
      → (mem q).key ≡ k.key
      → scanned mem s k ≡ some (mem q)
  scanned_at s q k sorted a b e = ap (row_at mem) (
      look-some mem (s.term - s.head) s.head q k a (omega arith) e
        λ r c d f. omega (arith, sorted-lt s r q sorted c d b))

  pub scanned-none :
      (s : Slice) (k : IndexRow)
      → ((q : ℕ) → s.head ≤ q → q < s.term → (mem q).key ≢ k.key)
      → scanned mem s k ≡ none
  scanned-none s k h =
      ap (row_at mem) (look-none mem (s.term - s.head) s.head k (λ q a b. h q a (omega arith)))

  -- The search of a sorted slice finds the row with the key, or there is none.
  pub sought-cases :
      (s : Slice) (k : IndexRow)
      → s.head ≤ s.term
      → IsSorted lane mem s
      → IsLowerBound lane mem s k (lane.find_ge mem s k)
      → ((p : ℕ) × (s.head ≤ p)
          × (p < s.term)
          × ((mem p).key ≡ k.key)
          × (sought lane mem s k ≡ some p))
        ⊎ ((sought lane mem s k ≡ none) × ((q : ℕ) → s.head ≤ q → q < s.term → (mem q).key ≢ k.key))
  unfolding sought
  sought-cases s k ordered sorted f = elim (Bool-cases (ltb p s.term)) [
    | inl inside ↦ elim (Bool-cases ((mem p).key == k.key)) [
      | inl same ↦ inl (p, f.after, ground arith, ground arith, rw (inside, same) refl)
      | inr differs ↦ inr (
        rw (inside, differs) refl,
        λ q a b. elim (Bool-cases (q == p)) [
          | inl e ↦ ground (arith, ap mem (let g : q ≡ p = ground arith in g))
          | inr e ↦ away q a b (ground arith)
        ],
      )
    ]
    | inr outside ↦ inr (rw outside refl, λ q a b. away q a b (ground arith))
  ]
    where
      p : ℕ
      p = lane.find_ge mem s k

      away : (q : ℕ) → s.head ≤ q → q < s.term → q ≢ p → (mem q).key ≢ k.key
      away q a b n = elim (Bool-cases (ltb q p)) [
        | inl lower ↦ ground (arith, f.below q a (ground arith), keyed (mem q) k)
        | inr upper ↦ ground (
          arith,
          f.stops (ground arith),
          keyed (mem p) k,
          sorted-lt s p q sorted f.after (ground arith) b,
        )
      ]

pub mul_lt : (i j per : ℕ) → i < j → 0 < per → i * per < j * per
mul_lt i j per a b = grind arith

pub mul_suc : (i per : ℕ) → (i + 1) * per ≡ i * per + per
mul_suc i per = grind arith

module _ (lane : IndexOrder) (mem : ℕ → IndexRow) (s : Source) (ok : IsSource lane mem s)
    (paged : 0 < lane.toc_rows) where
  -- The place of the first row of a page.
  abbrev pub place : ℕ → ℕ
  place i = s.run.head + i * lane.toc_rows

  -- The table of a sorted run is sorted.
  pub toc-IsSorted : IsSorted lane mem s.toc
  toc-IsSorted p q a b c =
      let i = p - s.toc.head in
      let j = q - s.toc.head in
      let at_p : s.toc.head + i ≡ p = omega (arith, a) in
      let at_q : s.toc.head + j ≡ q = omega (arith, a, b) in
      let row_p : mem p ≡ mem (place i) =
        ap mem (sym at_p) ∙ ok.cell_row i (omega (arith, at_p, b, c)) in
      let row_q : mem q ≡ mem (place j) =
        ap mem (sym at_q) ∙ ok.cell_row j (omega (arith, at_q, c)) in
      rw (row_p, row_q)
        (ok.run_sorted (place i) (place j) (omega arith)
          (omega (arith, mul_lt i j lane.toc_rows (omega (arith, a, b)) paged))
          (ok.cell_inside j (omega (arith, at_q, c))))
