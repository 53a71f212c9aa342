-- ===== src/Heap/Verbs.antt =====
-- What one push or one pop does to a HEAP container, given what abc promises of its template.
use mathlib.Core.List.{Mem, Perm}
use quickjab.Prelude.{
  ℕ, suc, ◌-◌, ◌≤◌, ◌<◌, ◌≡◌, refl, sym, ap, ◌∙◌, List, [], ◌∷◌, some, arith, length, take,
}
use quickjab.Outcome.{ok}
use quickjab.Abc.{Abc}
use quickjab.Arg.{max_safe, u64_of}
use quickjab.Heap.{
  HeapLib, LaneArray, Lane, Heap, lane_cap, push_leaf, pop_leaf, push_result, pop_result, heap_push,
  heap_pop, as_number, moved, popped,
}

-- Nothing in the list comes before the element.
abbrev pub IsFirst : {A : Type 0} → (A → A → Type 0) → A → List A → Type 0
IsFirst {A} le a l = (x : A) → Mem x l → le a x

-- What the HEAP template of abc promises of a lane with this order: some shape of DATA that the
-- empty one has, and that Push and Pop keep, while Push adds an element and Pop takes out one that
-- no other comes before.
pub record IsHeapLib {A : Type 0} (le : A → A → Type 0) (heaped : List A → Type 0) (lib : HeapLib A)
    : Type 0 where
  pub empty_heaped : heaped []
  pub push_fits :
      (s : List A) (n : ℕ) (v : A)
      → n < length s
      → heaped (take n s)
      → (t : List A) × (lib.push s n v ≡ some (t, suc n))
        × (length t ≡ length s)
        × heaped (take (suc n) t)
        × Perm (take (suc n) t) (v ∷ take n s)
  pub pop_fits :
      (s : List A) (n : ℕ)
      → n < length s
      → heaped (take (suc n) s)
      → (v : A) × (t : List A) × (lib.pop s (suc n) ≡ some (v, t))
        × (length t ≡ length s)
        × heaped (take n t)
        × Perm (take (suc n) s) (v ∷ take n t)
        × IsFirst le v (take n t)

pub u64_of-as_number : (n : ℕ) → n ≤ max_safe → u64_of (as_number n) ≡ ok n
unfolding u64_of quickjab.Arg.scalar
u64_of-as_number n h = ground (arith, h)

-- The elements that a container holds.
abbrev pub live : {A : Type 0} → Heap A → List A
live h = take h.watermark h.arr.slots

module _ {A : Type 0} (abc : Abc) (lane : Lane) (lib : HeapLib A) where
  -- The array has the elements that its bytes hold, DATA ends inside it, and has the heap's shape.
  pub record IsHeap (heaped : List A → Type 0) (h : Heap A) : Type 0 where
    pub fits : lane_cap abc lane h.arr ≡ ok (length h.arr.slots)
    pub small : length h.arr.slots ≤ max_safe
    pub within : h.watermark ≤ length h.arr.slots
    pub shaped : heaped (live h)

  push_leaf_lem :
      (argc : ℕ) (arr : LaneArray A) (n : ℕ) (v : A)
      → lane.push_args ≤ argc
      → lane_cap abc lane arr ≡ ok (length arr.slots)
      → length arr.slots ≤ max_safe
      → n < length arr.slots
      → push_leaf abc lane lib argc arr (as_number n) (ok v)
        ≡ push_result abc lane lib arr.slots (lib.push arr.slots n v)
  unfolding push_leaf
  push_leaf_lem argc arr n v a f m h =
      rw (f, u64_of-as_number n (omega arith)) (ground (arith, a, h))

  pop_leaf_lem :
      (arr : LaneArray A) (n : ℕ)
      → lane_cap abc lane arr ≡ ok (length arr.slots)
      → length arr.slots ≤ max_safe
      → n < length arr.slots
      → pop_leaf abc lane lib 2 arr (as_number (suc n))
        ≡ pop_result abc lane lib arr.slots (lib.pop arr.slots (suc n))
  unfolding pop_leaf
  pop_leaf_lem arr n f m h = rw (f, u64_of-as_number (suc n) (omega arith)) (ground (arith, h))

  lane_cap_same :
      (arr : LaneArray A) (s : List A)
      → lane_cap abc lane (record arr { slots = s }) ≡ lane_cap abc lane arr
  unfolding lane_cap
  lane_cap_same arr s = refl

  module _ {le : A → A → Type 0} {heaped : List A → Type 0} (lawful : IsHeapLib le heaped lib) where
    pushed :
        (h : Heap A) (v : A) (s : List A)
        → IsHeap heaped h
        → length s ≡ length h.arr.slots
        → h.watermark < length h.arr.slots
        → heaped (take (suc h.watermark) s)
        → IsHeap heaped (record { arr = record h.arr { slots = s }; watermark = suc h.watermark })
    pushed h v s i l m p = record {
      fits = lane_cap_same h.arr s ∙ i.fits ∙ ap ok (sym l);
      small = omega (arith, l, i.small);
      within = omega (arith, l, m);
      shaped = p;
    }

    -- A push that fits.
    pub heap_push_lem :
        (h : Heap A) (v : A)
        → IsHeap heaped h
        → h.watermark < length h.arr.slots
        → (t : List A) × (lib.push h.arr.slots h.watermark v ≡ some (t, suc h.watermark))
          × (heap_push abc lane lib (ok v) h
              ≡ (ok tt, record { arr = record h.arr { slots = t }; watermark = suc h.watermark }))
          × IsHeap heaped (record { arr = record h.arr { slots = t }; watermark = suc h.watermark })
          × (length t ≡ length h.arr.slots)
          × Perm (take (suc h.watermark) t) (v ∷ live h)
    unfolding heap_push
    heap_push_lem h v i m =
        let (t, e, l, shape, p) = lawful.push_fits h.arr.slots h.watermark v m i.shaped in
        let c = push_leaf_lem lane.push_args h.arr h.watermark v (omega arith) i.fits i.small m in
        (
          t,
          e,
          ap (moved h) (c ∙ ap (push_result abc lane lib h.arr.slots) e),
          pushed h v t i l m shape,
          l,
          p,
        )

    drawn :
        (h : Heap A) (n : ℕ) (s : List A)
        → IsHeap heaped h
        → length s ≡ length h.arr.slots
        → h.watermark ≡ suc n
        → heaped (take n s)
        → IsHeap heaped (record { arr = record h.arr { slots = s }; watermark = n })
    drawn h n s i l e p = record {
      fits = lane_cap_same h.arr s ∙ i.fits ∙ ap ok (sym l);
      small = omega (arith, l, i.small);
      within = omega (arith, l, e, i.within);
      shaped = p;
    }

    -- A pop of a container that is not empty.
    pub heap_pop_lem :
        (arr : LaneArray A) (n : ℕ)
        → IsHeap heaped (record { arr = arr; watermark = suc n })
        → (v : A) × (b : LaneArray A) × (heap_pop abc lane lib
              (record { arr = arr; watermark = suc n })
            ≡ (ok (some v), record { arr = b; watermark = n }))
          × IsHeap heaped (record { arr = b; watermark = n })
          × Perm (take (suc n) arr.slots) (v ∷ take n b.slots)
          × IsFirst le v (take n b.slots)
    unfolding heap_pop
    heap_pop_lem arr n i =
        let (v, t, e, l, shape, p, first) = lawful.pop_fits arr.slots n i.within i.shaped in
        let c = pop_leaf_lem arr n i.fits i.small i.within in
        let h : Heap A = record { arr = arr; watermark = suc n } in
        let b : LaneArray A = record arr { slots = t } in
        let called : heap_pop abc lane lib h
            ≡ popped h (pop_leaf abc lane lib 2 arr (as_number (suc n))) =
          ground arith in
        let one_less : (ok (some v), record { arr = b; watermark = suc n - 1 })
            ≡ (ok (some v), record { arr = b; watermark = n }) =
          ap (λ (k : ℕ). (ok (some v), record { arr = b; watermark = k })) (omega arith) in
        (
          v,
          b,
          called ∙ ap (popped h) (c ∙ ap (pop_result abc lane lib arr.slots) e) ∙ one_less,
          drawn h n t i l refl shape,
          p,
          first,
        )
