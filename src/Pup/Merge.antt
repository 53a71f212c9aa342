-- ===== src/Pup/Merge.antt =====
-- The merge of sorted entries, row by row, with newest-wins: what the loop of a range pulls off the
-- heap.
use quickjab.Prelude.{
  ℕ, zero, suc, ◌+◌, ◌≡◌, ◌≢◌, ◌<◌, ◌≤◌, refl, true, false, not, ◌&&◌, List, [], ◌∷◌, none, some,
  All, ltb, if◌then◌else◌, get_elem?, get_or, map,
}
use quickjab.Pup.{IndexRow, Slice, IndexOrder, is_empty_slice}
use quickjab.Pup.Scan.{MergeHeap, HitLib, top_row, pulled_off, no_row}

-- An order that goes by a number: the key, or for wh128 the key and then the value.
abbrev pub IsRanked : (IndexRow → ℕ) → IndexOrder → Type 0
IsRanked rank order = (a b : IndexRow) → order.less a b ≡ ltb (rank a) (rank b)

-- What AdvanceTops does to an entry, where the tops are equal to `val`.
abbrev pub stepped : IndexOrder → (ℕ → IndexRow) → IndexRow → Slice → Slice
stepped order mem val e =
    if not (is_empty_slice e)
      && (not (order.less (mem e.head) val) && not (order.less val (mem e.head)))
    then record { head = e.head + 1; term = e.term }
    else e

abbrev pub IsAt : List Slice → ℕ → Slice → Type 0
IsAt es i e = (get_elem? es i ≡ some e) × (e.head < e.term)

-- HIT as it is documented: the top is the youngest entry with the least row, and AdvanceTops moves
-- all entries with that row. `IsHeap` is what HIT keeps of its heap.
pub record MergeLaws (order : IndexOrder) (hit : HitLib) (mem : ℕ → IndexRow)
    (IsHeap : MergeHeap → Type 0) : Type 0 where
  pub ended :
      (h : MergeHeap)
      → IsHeap h
      → h.order ≡ []
      → (i : ℕ) (e : Slice) → get_elem? h.entries i ≡ some e
      → e.term ≤ e.head
  pub top_at :
      (h : MergeHeap) (i : ℕ) (is : List ℕ)
      → IsHeap h
      → h.order ≡ i ∷ is
      → IsAt h.entries i (get_or h.entries i no_row)
  pub least :
      (h : MergeHeap) (i : ℕ) (is : List ℕ) (j : ℕ) (e : Slice)
      → IsHeap h
      → h.order ≡ i ∷ is
      → IsAt h.entries j e
      → order.less (mem e.head) (mem (get_or h.entries i no_row).head) ≡ false
  pub youngest :
      (h : MergeHeap) (i : ℕ) (is : List ℕ) (j : ℕ) (e : Slice)
      → IsHeap h
      → h.order ≡ i ∷ is
      → i < j
      → IsAt h.entries j e
      → order.less (mem (get_or h.entries i no_row).head) (mem e.head) ≡ true
  pub advanced :
      (h : MergeHeap) (i : ℕ) (is : List ℕ)
      → IsHeap h
      → h.order ≡ i ∷ is
      → let h' = hit.advance_tops mem (hit.tops mem h) h in
        IsHeap h'
        × (h'.entries ≡ map (stepped order mem (mem (get_or h.entries i no_row).head)) h.entries)

module _ (order : IndexOrder) (hit : HitLib) (mem : ℕ → IndexRow) where
  -- The rows that are pulled, one by one, until the heap is empty.
  unfoldable pub given : ℕ → MergeHeap → List IndexRow
  unfolding pulled_off
  given zero h = []
  given (suc turns) h = elim (top_row order hit mem h.entries h.order) [
    | none ↦ []
    | some val ↦ val ∷ given turns (pulled_off order hit mem val h)
  ]

module _ (rank : IndexRow → ℕ) (mem : ℕ → IndexRow) where
  -- A row at a place of an entry.
  abbrev pub HasRow : List Slice → ℕ → ℕ → Type 0
  HasRow es j p = (e : Slice) × (get_elem? es j ≡ some e) × (e.head ≤ p) × (p < e.term)

  -- A row that no entry behind it, which is a younger one, has a row equal to.
  abbrev pub IsNewest : List Slice → IndexRow → Type 0
  IsNewest es r =
      (j : ℕ) × (p : ℕ) × HasRow es j p
      × (mem p ≡ r)
      × ((j' p' : ℕ) → j < j' → HasRow es j' p' → rank (mem p') ≢ rank r)

  -- An entry is deduped: its rows rise.
  abbrev pub IsRising : Slice → Type 0
  IsRising e = (p q : ℕ) → e.head ≤ p → p < q → q < e.term → rank (mem p) < rank (mem q)

  abbrev pub AllRising : List Slice → Type 0
  AllRising es = (j : ℕ) (e : Slice) → get_elem? es j ≡ some e → IsRising e

  abbrev pub Rises : List IndexRow → Type 0
  Rises [] = Unit {0}
  Rises (r ∷ rs) = All (λ x. rank r < rank x) rs × Rises rs

  abbrev pub Tells : List IndexRow → ℕ → Type 0
  Tells out k = (n : ℕ) × (r : IndexRow) × (get_elem? out n ≡ some r) × (rank r ≡ k)

  -- Rows in order, each the newest with its rank, and one for every row of the entries.
  abbrev pub IsMerge : List Slice → List IndexRow → Type 0
  IsMerge es out =
      Rises out × All (IsNewest es) out × ((j p : ℕ) → HasRow es j p → Tells out (rank (mem p)))

pub get_elem?-map :
    {A B : Type 0} (f : A → B) (xs : List A) (i : ℕ) {y : B}
    → get_elem? (map f xs) i ≡ some y
    → (x : A) × (get_elem? xs i ≡ some x) × (f x ≡ y)
get_elem?-map f [] i e = cc e
get_elem?-map f (x ∷ xs) zero e = (x, refl, cc e)
get_elem?-map f (x ∷ xs) (suc i) e = get_elem?-map f xs i e

pub get_elem?-map' :
    {A B : Type 0} (f : A → B) (xs : List A) (i : ℕ) {x : A}
    → get_elem? xs i ≡ some x
    → get_elem? (map f xs) i ≡ some (f x)
get_elem?-map' f [] i e = cc e
get_elem?-map' f (x ∷ xs) zero e = cc e
get_elem?-map' f (x ∷ xs) (suc i) e = get_elem?-map' f xs i e
