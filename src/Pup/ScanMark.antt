-- ===== src/Pup/ScanMark.antt =====
-- What the callback of a range scan of pup.c finds in the table, and what the scan leaves in it.
use quickjab.Prelude.{
  inr, inl, Bool-cases, ℕ, zero, suc, ltb, ◌≡◌, refl, ap, ◌∙◌, subst, Bool, true, false, not, List,
  Option, none, some, if◌then◌else◌, get_elem?, get_elem?-set_self,
}
use quickjab.Outcome.{Outcome, ok, err}
use quickjab.Arg.{Value}
use quickjab.Pup.{IndexRow, Source}
use quickjab.Pup.Table.{PupLib, Slot, Table, put_slot, slot_of}
use quickjab.Pup.Lending.{within}
use quickjab.Pup.Leaves.{with_value}
use quickjab.Pup.Calls.{slot_of_lem}
use quickjab.Pup.Program.{lane_bytes}
use quickjab.Pup.Scan.{
  MergeHeap, Verdict, enough, called, scan_turn, scan_loop, scan_busy, scan_heap, scan_sources,
  range_leaf, emitted_row, pulled_off, set_busy, rows_of, rows_left,
}
use quickjab.Pup.Scanned.{LaneUse, RanLanes, IsScanned, RanLanes-IsScanned}

module _ {Stack Disk : Type 0} (lib : PupLib Stack Disk) (mem_pages : ℕ) (u : LaneUse)
    (f g : IndexRow → Table Stack Disk → Outcome Verdict × Table Stack Disk)
    (does : (r : IndexRow) (v : Table Stack Disk) → RanLanes lib mem_pages v (f r v).1) (h : ℕ)
    (stack : Stack)
    (agree : (r : IndexRow) (v : Table Stack Disk)
      → IsScanned lib mem_pages h stack v
      → f r v ≡ g r v) where
  abbrev Held : Table Stack Disk → Type 0
  Held v = IsScanned lib mem_pages h stack v

  abbrev LoopReply : Type 0
  LoopReply = Outcome (Unit {0}) × Table Stack Disk

  -- The same reply, and the handle is still held.
  abbrev Alike : LoopReply → LoopReply → Type 0
  Alike p q = (p ≡ q) × Held p.1

  called-Alike :
      (p : Outcome Verdict × Table Stack Disk) (a b : Table Stack Disk → LoopReply)
      → Held p.1
      → ((v : Table Stack Disk) → Held v → Alike (a v) (b v))
      → Alike (called lib u.lane u.order u.hit f p a) (called lib u.lane u.order u.hit g p b)
  called-Alike (err e, v) a b k rest = (refl, k)
  called-Alike (ok r, v) a b k rest = elim (Bool-cases (enough r)) [
    | inl stop ↦ rw stop (refl, k)
    | inr more ↦ rw more (rest v k)
  ]

  turn-Alike :
      (o : Option IndexRow) (mem : ℕ → IndexRow) (heap : MergeHeap) (t : Table Stack Disk)
      (a b : MergeHeap → Table Stack Disk → LoopReply)
      → Held t
      → ((x : MergeHeap) (v : Table Stack Disk) → Held v → Alike (a x v) (b x v))
      → Alike
          (scan_turn lib u.lane u.order u.hit f o mem heap t a)
          (scan_turn lib u.lane u.order u.hit g o mem heap t b)
  turn-Alike none mem heap t a b k rest = (refl, k)
  turn-Alike (some val) mem heap t a b k rest =
      let row = emitted_row u.lane val in
      let next = pulled_off u.order u.hit mem val heap in
      subst
        (λ p.
          Alike (called lib u.lane u.order u.hit f (f row t) (a next))
            (called lib u.lane u.order u.hit g p (b next)))
        (agree row t k)
        (called-Alike (f row t) (a next) (b next)
          (RanLanes-IsScanned lib mem_pages (does row t) h stack k) (λ v q. rest next v q))

  loop-Alike :
      (turns i : ℕ) (heap : MergeHeap) (t : Table Stack Disk)
      → Held t
      → Alike
          (scan_loop lib u.lane u.order u.hit f turns i heap t)
          (scan_loop lib u.lane u.order u.hit g turns i heap t)
  unfolding scan_loop
  loop-Alike zero i heap t k = (refl, k)
  loop-Alike (suc turns) i heap t k =
      turn-Alike _ (rows_of lib u.lane u.order u.hit (get_elem? t.slots i)) heap t
        (scan_loop lib u.lane u.order u.hit f turns i)
        (scan_loop lib u.lane u.order u.hit g turns i) k (λ x v q. loop-Alike turns i x v q)

  -- Where a reply leaves the handle open, with its stack, and marked as it was before.
  abbrev Restored : Bool → LoopReply → LoopReply → Type 0
  Restored busy p q =
      (p ≡ q)
      × (s : Slot Stack) × (get_elem? p.1.slots h ≡ some s)
      × (s.stack ≡ stack)
      × (s.live ≡ true)
      × (s.busy ≡ busy)

  busy_alike :
      (s : Slot Stack) (heap : MergeHeap) (t : Table Stack Disk)
      → get_elem? t.slots h ≡ some s
      → s.live ≡ true
      → s.stack ≡ stack
      → Restored s.busy
          (scan_busy lib u.lane u.order u.hit f h s heap t)
          (scan_busy lib u.lane u.order u.hit g h s heap t)
  busy_alike s heap t e live is =
      let marked = put_slot h (record s { busy = true }) t in
      let held : Held marked = (
        record s { busy = true },
        get_elem?-set_self t.slots h (record s { busy = true }) (within t.slots h e),
        is,
        live,
        refl,
      ) in
      let (same, (x, at, k, l, b)) = loop-Alike _ h heap marked held in
      let after : LoopReply → LoopReply =
        λ r. (r.0, set_busy lib u.lane u.order u.hit h s.busy (get_elem? r.1.slots h) r.1) in
      let r =
        scan_loop lib u.lane u.order u.hit f
          (rows_left u.order u.hit (lib.rows s.stack) heap.entries) h heap marked in
      (
        ap after same,
        record x { busy = s.busy },
        ap
              (λ (o : Option (Slot Stack)).
                get_elem? (set_busy lib u.lane u.order u.hit h s.busy o r.1).slots h)
              at
            ∙ get_elem?-set_self r.1.slots h (record x { busy = s.busy }) (within r.1.slots h at),
        k,
        l,
        refl,
      )

  module _ (s : Slot Stack) (t : Table Stack Disk) (e : get_elem? t.slots h ≡ some s)
      (live : s.live ≡ true) (is : s.stack ≡ stack) where
    as_is : (o : Outcome (Unit {0})) → Restored s.busy (o, t) (o, t)
    as_is o = (refl, s, e, is, live, refl)

    heap_alike :
        (o : Option MergeHeap)
        → Restored s.busy
            (scan_heap lib u.lane u.order u.hit f h s o t)
            (scan_heap lib u.lane u.order u.hit g h s o t)
    heap_alike none = as_is _
    heap_alike (some heap) = busy_alike s heap t e live is

    sources_alike :
        (lo hi : IndexRow) (o : Option (List Source))
        → Restored s.busy
            (scan_sources lib u.lane u.order u.hit f h s lo hi o t)
            (scan_sources lib u.lane u.order u.hit g h s lo hi o t)
    sources_alike lo hi none = as_is _
    sources_alike lo hi (some sources) = heap_alike _

    abbrev gated :
        (IndexRow → Table Stack Disk → Outcome Verdict × Table Stack Disk)
        → Outcome IndexRow
        → Outcome IndexRow
        → Bool
        → LoopReply
    gated callback lo hi is_function = with_value lo t λ l. with_value hi t λ m.
        if not is_function
        then (err "Error: the range callback must be a function", t)
        else scan_sources lib u.lane u.order u.hit callback h s l m (lib.sources u.lane s.stack) t

    gates_alike :
        (lo hi : Outcome IndexRow) (is_function : Bool)
        → Restored s.busy (gated f lo hi is_function) (gated g lo hi is_function)
    gates_alike (err x) hi is_function = as_is _
    gates_alike (ok l) (err x) is_function = as_is _
    gates_alike (ok l) (ok m) false = as_is _
    gates_alike (ok l) (ok m) true = sources_alike l m (lib.sources u.lane s.stack)

    arguments_alike :
        (few : Bool) (lo hi : Outcome IndexRow) (is_function : Bool)
        → Restored s.busy
            (if few then (err u.usage, t) else gated f lo hi is_function)
            (if few then (err u.usage, t) else gated g lo hi is_function)
    arguments_alike true lo hi is_function = as_is _
    arguments_alike false lo hi is_function = gates_alike lo hi is_function

-- A range scan of a handle calls its callback only while the handle is open, marked as scanned, and
-- with the stack that it had when the scan began, whatever leaves of any lanes the callback calls on
-- whatever handles, and whatever scans it starts: any callback that does the same in such tables
-- makes no difference. And the scan leaves the handle open, with that stack, and marked as before.
pub range_leaf_marks :
    {Stack Disk : Type 0} (lib : PupLib Stack Disk) (mem_pages : ℕ) (u : LaneUse)
    (f g : IndexRow → Table Stack Disk → Outcome Verdict × Table Stack Disk)
    → ((r : IndexRow) (v : Table Stack Disk) → RanLanes lib mem_pages v (f r v).1)
    → (argc : ℕ) (handle : Value) (lo hi : Outcome IndexRow) (is_function : Bool)
    → (t : Table Stack Disk) (h : ℕ) (s : Slot Stack) → slot_of argc handle t ≡ some (h, s)
    → ((r : IndexRow) (v : Table Stack Disk) → IsScanned lib mem_pages h s.stack v → f r v ≡ g r v)
    → let scan : (IndexRow → Table Stack Disk → Outcome Verdict × Table Stack Disk)
          → Outcome (Unit {0}) × Table Stack Disk =
        λ callback.
          range_leaf lib u.lane u.order u.hit callback u.usage argc handle lo hi is_function t in
      (scan f ≡ scan g)
      × (x : Slot Stack) × (get_elem? (scan f).1.slots h ≡ some x)
      × (x.stack ≡ s.stack)
      × (x.live ≡ true)
      × (x.busy ≡ s.busy)
unfolding range_leaf
range_leaf_marks lib mem_pages u f g does argc handle lo hi is_function t h s e agree =
    let (at, live) =
      slot_of_lem (lane_bytes lib mem_pages u.lane u.usage u.order u.hit) argc handle t h s e in
    let inner =
      arguments_alike lib mem_pages u f g does h s.stack agree s t at live refl (ltb argc 4) lo hi
        is_function in
    rw e inner
