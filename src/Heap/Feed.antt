-- ===== src/Heap/Feed.antt =====
-- A bulk feed of a HEAP container is the pushes of its entries, or nothing.
use quickjab.Prelude.{
  ℕ, ◌+◌, ◌-◌, ◌*◌, ◌/◌, ◌≤◌, ◌≡◌, refl, sym, ap, ◌∙◌, Bool, true, false, ◌&&◌, List, String, arith,
  not, ◌||◌, if_cases, ltb, leb, ◌==◌, length, take, length-take,
}
use quickjab.Outcome.{ok, err}
use quickjab.Abc.{Abc, U8b}
use quickjab.Arg.{data_of, data_length}
use quickjab.Heap.{
  HeapLib, LaneArray, Lane, Heap, push_all, heap_feed, feed_leaf, fed_entries, overlaps, moved,
  as_number, Answer,
}
use quickjab.Heap.Verbs.{IsHeap, IsHeapLib, u64_of-as_number}
use quickjab.Heap.Order.{push_many, push_many_lem, filled}

module _ {A : Type 0} (abc : Abc) (lane : Lane) (lib : HeapLib A) where
  feed_gates :
      (h : Heap A) (entries : LaneArray A) (eb : U8b) {heaped : List A → Type 0}
      → IsHeap abc lane lib heaped h
      → data_of abc entries.view ≡ ok eb
      → feed_leaf abc lane lib 3 h.arr (as_number h.watermark) entries
        ≡ fed_entries abc lane lib h.arr (length h.arr.slots) h.watermark entries (data_length eb)
  unfolding feed_leaf
  feed_gates h entries eb i e =
      rw (i.fits, u64_of-as_number h.watermark (omega (arith, i.small, i.within)), e) refl

  -- The entries are whole elements, there is room for them, and they do not share bytes with the
  -- container's array.
  abbrev pub is_feedable : Heap A → LaneArray A → ℕ → Bool
  is_feedable h entries bytes =
      (bytes == bytes / lane.size * lane.size)
      && leb (h.watermark + bytes / lane.size) (length h.arr.slots)
      && not (overlaps abc lane lib h.arr (length h.arr.slots) entries bytes)

  fed_entries_refused :
      (h : Heap A) (entries : LaneArray A) (n : ℕ)
      → is_feedable h entries n ≡ false
      → (e : String) × (fed_entries abc lane lib h.arr (length h.arr.slots) h.watermark entries n
          ≡ (err e, h.arr.slots))
  fed_entries_refused h entries n f =
      let throws : Answer A ℕ → Type 0 = λ r. (e : String) × (r ≡ (err e, h.arr.slots)) in
      if_cases throws (not (n == n / lane.size * lane.size)) (λ a. (_, refl))
        λ a.
          if_cases throws
            (ltb (length h.arr.slots) h.watermark
              || ltb (length h.arr.slots - h.watermark) (n / lane.size))
            (λ b. (_, refl))
            λ b.
              if_cases throws (overlaps abc lane lib h.arr (length h.arr.slots) entries n)
                (λ c. (_, refl)) λ c. absurd (ground (arith, a, b, c, f))

  fed_entries_taken :
      (h : Heap A) (entries : LaneArray A) (n : ℕ)
      → is_feedable h entries n ≡ true
      → fed_entries abc lane lib h.arr (length h.arr.slots) h.watermark entries n
        ≡ push_all abc lane lib h.arr.slots h.watermark (take (n / lane.size) entries.slots)
  fed_entries_taken h entries n f = ground (arith, f)

  is_feedable_room :
      (h : Heap A) (entries : LaneArray A) (n : ℕ)
      → is_feedable h entries n ≡ true
      → h.watermark + n / lane.size ≤ length h.arr.slots
  is_feedable_room h entries n f = ground (arith, f)

  module _ {le : A → A → Type 0} {heaped : List A → Type 0} (lawful : IsHeapLib le heaped lib) where
    -- Feeding a HEAP container with an array that can be read: where its bytes are whole elements,
    -- there is room for all of them, and none of them lies in the container's own array, the call does
    -- what pushing its elements one by one does, and none of these pushes throws; otherwise it throws
    -- and changes nothing. The HEAP template of abc keeps what it promises.
    pub heap_feed_all :
        (h : Heap A) (entries : LaneArray A) (eb : U8b)
        → IsHeap abc lane lib heaped h
        → data_of abc entries.view ≡ ok eb
        → (is_feedable h entries (data_length eb) ≡ true
            → (heap_feed abc lane lib entries h
                ≡ push_many abc lane lib (take (data_length eb / lane.size) entries.slots) h)
              × ((heap_feed abc lane lib entries h).0 ≡ ok tt))
          × (is_feedable h entries (data_length eb) ≡ false
              → (e : String) × (heap_feed abc lane lib entries h ≡ (err e, h)))
    unfolding heap_feed
    heap_feed_all h entries eb i e = (
      λ f.
          let m = data_length eb / lane.size in
          let (s, pushes, a, _, _) = push_many_lem abc lane lib lawful (take m entries.slots) h i (
            omega (
              arith,
              is_feedable_room h entries (data_length eb) f,
              length-take m entries.slots,
            )) in
          let fed : heap_feed abc lane lib entries h
              ≡ (ok tt, filled h s (h.watermark + length (take m entries.slots))) =
            ap (moved h)
              (feed_gates h entries eb i e ∙ fed_entries_taken h entries (data_length eb) f ∙ a) in
          (fed ∙ sym pushes, ap (λ r. r.0) fed),
      λ f.
          let (x, r) = fed_entries_refused h entries (data_length eb) f in
          (x, ap (moved h) (feed_gates h entries eb i e ∙ r)),
    )
