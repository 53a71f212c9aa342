-- ===== src/Pup/Scanned.antt =====
-- What no callback of a scan can do to the table of pup.c: change the stack that is being scanned.
use quickjab.Prelude.{
  ℕ, ◌≡◌, refl, sym, ap, ◌∙◌, Bool, true, List, Option, none, some, String, arith, ◌==◌, inl, inr,
  Bool-cases, get_elem?, set, get_elem?-set_self, get_elem?-set_ne,
}
use quickjab.Outcome.{Outcome}
use quickjab.Arg.{Value}
use quickjab.Pup.{IndexRow, IndexOrder}
use quickjab.Pup.Table.{IndexLane, PupLib, Slot, Table, Mapping, put_slot}
use quickjab.Pup.Lending.{within}
use quickjab.Pup.Changes.{Change-busy}
use quickjab.Pup.Calls.{ChangesOne}
use quickjab.Pup.Scan.{Verdict, range_leaf, HitLib, set_busy}
use quickjab.Pup.Program.{PupCall, do_call, do_call-ChangesOne, lane_bytes, range_leaf_keeps}

-- One of the four lanes, with its order and its merge heap.
pub record LaneUse : Type 0 where
  pub lane : IndexLane
  pub usage : String
  pub order : IndexOrder
  pub hit : HitLib

module _ {Stack Disk : Type 0} (lib : PupLib Stack Disk) (mem_pages : ℕ) where
  -- From one table to another: any calls of the leaves of any lanes, on any handles, and any scans,
  -- whose callbacks do no more than that.
  pub data RanLanes : Table Stack Disk → Table Stack Disk → Type 0 where
    no_call : (s : Table Stack Disk) → RanLanes s s
    lane_call :
        (s t : Table Stack Disk)
        → RanLanes s t
        → (u : LaneUse) (c : PupCall)
        → RanLanes s (do_call lib mem_pages u.lane u.usage u.order u.hit c t)
    lane_scan :
        (s t : Table Stack Disk)
        → RanLanes s t
        → (u : LaneUse) (argc : ℕ) (handle : Value) (lo hi : Outcome IndexRow) (is_function : Bool)
        → (callback : IndexRow → Table Stack Disk → Outcome Verdict × Table Stack Disk)
        → ((r : IndexRow) (v : Table Stack Disk) → RanLanes v (callback r v).1)
        → RanLanes s
            (range_leaf lib u.lane u.order u.hit callback u.usage argc handle lo hi is_function t).1

  -- A handle whose stack is being scanned.
  abbrev pub IsScanned : ℕ → Stack → Table Stack Disk → Type 0
  IsScanned h stack t =
      (s : Slot Stack) × (get_elem? t.slots h ≡ some s)
      × (s.stack ≡ stack)
      × (s.live ≡ true)
      × (s.busy ≡ true)

  set-IsScanned :
      (h g : ℕ) (stack : Stack) (t u : Table Stack Disk) (x : Slot Stack)
      → IsScanned h stack t
      → u.slots ≡ set t.slots g x
      → (g ≡ h
          → (s : Slot Stack) → get_elem? t.slots h ≡ some s
          → (s.stack ≡ stack)
          → s.live ≡ true
          → s.busy ≡ true
          → (x.stack ≡ stack) × (x.live ≡ true) × (x.busy ≡ true))
      → IsScanned h stack u
  set-IsScanned h g stack t u x (s, e, k, l, b) f same = elim (Bool-cases (g == h)) [
    | inl at ↦
        let is : g ≡ h = ground (arith, at) in
        let (k', l', b') = same is s e k l b in
        (
          x,
          ap (λ (y : List (Slot Stack)). get_elem? y h) f
              ∙ rw is (get_elem?-set_self t.slots h x (within t.slots h e)),
          k',
          l',
          b',
        )
    | inr other ↦ (
      s,
      ap (λ (y : List (Slot Stack)). get_elem? y h) f
          ∙ get_elem?-set_ne t.slots x (λ is. ground (arith, other, is))
          ∙ e,
      k,
      l,
      b,
    )
  ]

  ChangesOne-IsScanned :
      (bytes_in : Stack → ℕ → Option Mapping) (h : ℕ) (stack : Stack) (t u : Table Stack Disk)
      → ChangesOne bytes_in t u
      → IsScanned h stack t
      → IsScanned h stack u
  ChangesOne-IsScanned bytes_in h stack t u (inl same) (s, e, k, l, b) =
      (s, ap (λ (y : List (Slot Stack)). get_elem? y h) same ∙ e, k, l, b)
  ChangesOne-IsScanned bytes_in h stack t u (inr (g, s, s', e, c, f)) k =
      set-IsScanned h g stack t u s' k f λ is x at a l b.
        let same : s ≡ x = cc (e, at, ap (λ i. get_elem? t.slots i) is) in
        let (a', l', b') =
          Change-busy bytes_in c (ap (λ (y : Slot Stack). y.live) same ∙ l)
            (ap (λ (y : Slot Stack). y.busy) same ∙ b) in
        (a' ∙ ap (λ (y : Slot Stack). y.stack) same ∙ a, l', b')

  same_slot :
      (slots : List (Slot Stack)) (g h : ℕ) (x y : Slot Stack)
      → get_elem? slots g ≡ some x
      → get_elem? slots h ≡ some y
      → g ≡ h
      → y ≡ x
  same_slot slots g h x y e f is = cc (e, f, ap (λ i. get_elem? slots i) is)

  restored-IsScanned :
      (w : LaneUse) (h g : ℕ) (stack : Stack) (u : Table Stack Disk)
      → IsScanned h stack u
      → (b : Bool) → (g ≡ h → b ≡ true)
      → (o : Option (Slot Stack)) → get_elem? u.slots g ≡ o
      → IsScanned h stack (set_busy lib w.lane w.order w.hit g b o u)
  restored-IsScanned w h g stack u k b f none e = k
  restored-IsScanned w h g stack u k b f (some x) e =
      set-IsScanned h g stack u (put_slot g (record x { busy = b }) u) (record x { busy = b }) k
        refl
        λ is y at a l _.
          let same = same_slot u.slots g h x y e at is in
          (
            ap (λ (z : Slot Stack). z.stack) (sym same) ∙ a,
            ap (λ (z : Slot Stack). z.live) (sym same) ∙ l,
            f is,
          )

  marked-IsScanned :
      (h g : ℕ) (stack : Stack) (t : Table Stack Disk) (x : Slot Stack)
      → IsScanned h stack t
      → get_elem? t.slots g ≡ some x
      → IsScanned h stack (put_slot g (record x { busy = true }) t)
  marked-IsScanned h g stack t x k e =
      set-IsScanned h g stack t (put_slot g (record x { busy = true }) t) (record x { busy = true })
        k refl
        λ is y at a l _.
          let same = same_slot t.slots g h x y e at is in
          (
            ap (λ (z : Slot Stack). z.stack) (sym same) ∙ a,
            ap (λ (z : Slot Stack). z.live) (sym same) ∙ l,
            refl,
          )

  pub RanLanes-IsScanned :
      {s t : Table Stack Disk}
      → RanLanes s t
      → (h : ℕ) (stack : Stack) → IsScanned h stack s
      → IsScanned h stack t
  RanLanes-IsScanned (no_call s) h stack k = k
  RanLanes-IsScanned (lane_call s t r u c) h stack k =
      ChangesOne-IsScanned (lane_bytes lib mem_pages u.lane u.usage u.order u.hit) h stack t
        (do_call lib mem_pages u.lane u.usage u.order u.hit c t)
        (do_call-ChangesOne lib mem_pages u.lane u.usage u.order u.hit c t)
        (RanLanes-IsScanned r h stack k)
  RanLanes-IsScanned (lane_scan s t r u argc handle lo hi f callback does) h stack k =
      let here : IsScanned h stack t = RanLanes-IsScanned r h stack k in
      range_leaf_keeps lib mem_pages u.lane u.usage u.order u.hit callback (IsScanned h stack)
        (λ x v q. RanLanes-IsScanned (does x v) h stack q) argc handle lo hi f t
        (λ g x e live. (
          marked-IsScanned h g stack t x here e,
          λ v q.
              restored-IsScanned u h g stack v q x.busy
                (λ is.
                  ap (λ (z : Slot Stack). z.busy) (sym (same_slot t.slots g h x here.0 e here.1 is))
                  ∙ here.4)
                (get_elem? v.slots g) refl,
        ))
        here
