-- ===== src/Tests/PupLane.antt =====
-- A lane whose search goes row by row, and a run of four rows in two pages with its page table.
use quickjab.Prelude.{
  ℕ, zero, suc, ◌+◌, ◌-◌, ◌*◌, ◌≡◌, ◌<◌, ◌≤◌, refl, Bool, true, false, ltb, ◌==◌, ◌||◌, ◌&&◌,
  if◌then◌else◌, Bool-cases, inl, inr, arith,
}
use quickjab.Pup.{IndexRow, Source, IndexOrder}
use quickjab.Pup.Page.{IsSorted, IsSearch, IsKeyed, IsSource}
use quickjab.Pup.Pairs.{IsPaired}

abbrev first_ge : (IndexRow → IndexRow → Bool) → (ℕ → IndexRow) → ℕ → ℕ → IndexRow → ℕ
first_ge less mem zero p k = p
first_ge less mem (suc n) p k =
    let rest = first_ge less mem n (suc p) k in if less (mem p) k then rest else p

abbrev plain_lane : (IndexRow → IndexRow → Bool) → IndexOrder
plain_lane less = record {
  less = less;
  find_ge = λ mem s k. first_ge less mem (s.term - s.head) s.head k;
  toc_rows = 2;
}

abbrev pub keyed_lane : IndexOrder
keyed_lane = plain_lane (λ a b. ltb a.key b.key)

abbrev pub paired_lane : IndexOrder
paired_lane = plain_lane (λ a b. ltb a.key b.key || (a.key == b.key && ltb a.val b.val))

pub keyed_lane-IsKeyed : IsKeyed keyed_lane
keyed_lane-IsKeyed a b = refl

pub paired_lane-IsPaired : IsPaired paired_lane
paired_lane-IsPaired a b = refl

module _ (less : IndexRow → IndexRow → Bool) (mem : ℕ → IndexRow) (k : IndexRow) where
  abbrev IsFirst : ℕ → ℕ → ℕ → Type 0
  IsFirst n p r =
      (p ≤ r)
      × (r ≤ p + n)
      × ((q : ℕ) → p ≤ q → q < r → less (mem q) k ≡ true)
      × (r < p + n → less (mem r) k ≡ false)

  first_ge-IsFirst : (n p : ℕ) → IsFirst n p (first_ge less mem n p k)
  first_ge-IsFirst zero p =
      (omega arith, omega arith, λ q a b. absurd (omega arith), λ h. absurd (omega arith))
  first_ge-IsFirst (suc n) p = elim (Bool-cases (less (mem p) k)) [
    | inl below ↦
        let (a, b, c, d) = first_ge-IsFirst n (suc p) in
        rw below (
          omega (arith, a),
          omega (arith, b),
          λ q e f. elim (Bool-cases (q == p)) [
            | inl same ↦ let g : q ≡ p = ground (arith, same) in rw g below
            | inr later ↦ c q (ground (arith, later, e)) f
          ],
          λ h. d (omega (arith, h)),
        )
    | inr here ↦
        rw here (omega arith, omega arith, λ q a b. absurd (omega (arith, a, b)), λ h. here)
  ]

plain_lane-IsSearch : (less : IndexRow → IndexRow → Bool) → IsSearch (plain_lane less)
plain_lane-IsSearch less mem s k ordered sorted =
    let (a, b, c, d) = first_ge-IsFirst less mem k (s.term - s.head) s.head in
    record {
      after = a;
      within = omega (arith, b, ordered);
      below = c;
      stops = λ h. d (omega (arith, h));
    }

pub keyed_lane-IsSearch : IsSearch keyed_lane
keyed_lane-IsSearch = plain_lane-IsSearch (λ a b. ltb a.key b.key)

pub paired_lane-IsSearch : IsSearch paired_lane
paired_lane-IsSearch =
    plain_lane-IsSearch (λ a b. ltb a.key b.key || (a.key == b.key && ltb a.val b.val))

-- Rows with the keys 0 to 3 at the places 0 to 3, and the first row of each page at 4 and 5.
abbrev pub paged_rows : ℕ → IndexRow
paged_rows p = record { key = if ltb p 4 then p else (p - 4) * 2; val = 5 }

abbrev pub paged_source : Source
paged_source = record { run = record { head = 0; term = 4 }; toc = record { head = 4; term = 6 } }

paged_key :
    (i : ℕ)
    → 4 + i < 6
    → (if ltb (4 + i) 4 then 4 + i else (4 + i - 4) * 2)
      ≡ (if ltb (0 + i * 2) 4 then 0 + i * 2 else (0 + i * 2 - 4) * 2)
paged_key i h = ground arith

paged-IsSource :
    (lane : IndexOrder)
    → lane.toc_rows ≡ 2
    → IsSorted lane paged_rows paged_source.run
    → IsSource lane paged_rows paged_source
paged-IsSource lane two sorted = record {
  run_ordered = omega arith;
  run_sorted = sorted;
  toc_ordered = omega arith;
  cell_inside = λ i h. rw two (omega (arith, h));
  cell_row = λ i h. rw two (let e = paged_key i h in λ j. record { key = e j; val = 5 });
  covered = λ h. rw two (omega arith);
}

pub keyed-IsSource : IsSource keyed_lane paged_rows paged_source
keyed-IsSource = paged-IsSource keyed_lane refl (λ p q a b c. ground (arith, a, b, c))

pub paired-IsSource : IsSource paired_lane paged_rows paged_source
paired-IsSource = paged-IsSource paired_lane refl (λ p q a b c. ground (arith, a, b, c))
