-- ===== src/Pup/Calls.antt =====
-- Each leaf of pup.c changes one slot at most, in one of the ways of Change.
use quickjab.Prelude.{
  if_cases, ℕ, ◌≡◌, ◌<◌, refl, sym, ap, ◌∙◌, Bool, true, false, not, ◌||◌, Option, none, some,
  String, arith, ◌==◌, leb, ltb, ◌⊎◌, inl, inr, Bool-cases, Option-cases, if◌then◌else◌, get_elem?,
  set,
}
use quickjab.Outcome.{Outcome, ok, err}
use quickjab.Arg.{Value, u64_of}
use quickjab.Require.Path.{FilePath}
use quickjab.Pup.Table.{
  IndexLane, Status, done, too_many, failed, Mapping, PupLib, Slot, Table, slot_of, slot_at,
  live_slot, pup_moved, max_runs, lane_size, disarmed,
}
use quickjab.Pup.Changes.{Change, view_lent, moved_on}
use quickjab.Pup.Leaves.{
  Paths, PupReply, with_slot, with_paths, with_value, writable, with_arguments, status_reply,
  bool_reply, pup_put_leaf, commit_leaf, dropped_runs, drop_leaf, close_leaf, run_leaf, run_reply,
}

taken :
    {A : Type 0} (b : Bool) {a c : A}
    → (if b then some a else none) ≡ some c
    → (b ≡ true) × (◌≡◌ {A = Option A} (some a) (some c))
taken true e = (refl, e)
taken false e = cc e

module _ {Stack Disk : Type 0} (run_of : Stack → ℕ → Option Mapping) where
  -- One slot at most differs, and by a change.
  abbrev pub ChangesOne : Table Stack Disk → Table Stack Disk → Type 0
  ChangesOne t u =
      (u.slots ≡ t.slots)
      ⊎ ((h : ℕ) × (s : Slot Stack) × (s' : Slot Stack) × (get_elem? t.slots h ≡ some s)
          × Change run_of s s'
          × (u.slots ≡ set t.slots h s'))

  -- The handle names a live slot.
  pub slot_of_lem :
      (argc : ℕ) (handle : Value) (t : Table Stack Disk) (h : ℕ) (s : Slot Stack)
      → slot_of argc handle t ≡ some (h, s)
      → (get_elem? t.slots h ≡ some s) × (s.live ≡ true)
  unfolding slot_of
  slot_of_lem argc handle t h s e = elim (Bool-cases (argc == 0)) [
    | inl none_given ↦ cc (rw none_given at e)
    | inr given ↦ from (u64_of handle) (rw given at e)
  ]
    where
      entry :
          (n : ℕ) (o : Option (Slot Stack))
          → live_slot n o ≡ some (h, s)
          → (n ≡ h) × (o ≡ some s) × (s.live ≡ true)
      entry n none f = cc f
      entry n (some x) f =
          let (live, g) = taken x.live f in
          let is : x ≡ s = cc g in
          (cc g, ap some is, sym (ap (λ (y : Slot Stack). y.live) is) ∙ live)

      from :
          (o : Outcome ℕ)
          → slot_at o t ≡ some (h, s)
          → (get_elem? t.slots h ≡ some s) × (s.live ≡ true)
      from (ok n) f =
          let r = entry n (get_elem? t.slots n) f in
          (ap (λ k. get_elem? t.slots k) (sym r.0) ∙ r.1, r.2)
      from (err x) f = cc f

  module _ {X : Type 0} (t : Table Stack Disk) where
    pub with_slot_moves :
        (usage : String) (argc : ℕ) (handle : Value) (k : ℕ → Slot Stack → PupReply Stack Disk X)
        → ((h : ℕ) (s : Slot Stack)
            → get_elem? t.slots h ≡ some s
            → s.live ≡ true
            → ChangesOne t (k h s).1)
        → ChangesOne t (with_slot usage (slot_of argc handle t) t k).1
    with_slot_moves usage argc handle k f = elim (Option-cases (slot_of argc handle t)) [
      | inl e ↦ rw e (inl refl)
      | inr ((h, s), e) ↦ let r = slot_of_lem argc handle t h s e in rw e (f h s r.0 r.1)
    ]

    pub with_arguments_moves :
        (argc least : ℕ) (usage : String) (handle : Value)
        (k : ℕ → Slot Stack → PupReply Stack Disk X)
        → ((h : ℕ) (s : Slot Stack)
            → get_elem? t.slots h ≡ some s
            → s.live ≡ true
            → ChangesOne t (k h s).1)
        → ChangesOne t (with_arguments argc least usage handle t k).1
    with_arguments_moves argc least usage handle k f =
        with_slot_moves usage argc handle (λ h s. if ltb argc least then (err usage, t) else k h s)
          (λ h s e l. elim (Bool-cases (ltb argc least)) [
            | inl few ↦ rw few (inl refl)
            | inr all ↦ rw all (f h s e l)
          ])

    pub with_value_moves :
        {Y : Type 0} (o : Outcome Y) (k : Y → PupReply Stack Disk X)
        → ((y : Y) → ChangesOne t (k y).1)
        → ChangesOne t (with_value o t k).1
    with_value_moves (ok y) k f = f y
    with_value_moves (err e) k f = inl refl

    pub with_paths_moves :
        (paths : Paths) (k : FilePath → FilePath → PupReply Stack Disk X)
        → ((dir ext : FilePath) → ChangesOne t (k dir ext).1)
        → ChangesOne t (with_paths paths t k).1
    with_paths_moves (some dir, some ext) k f = f dir ext
    with_paths_moves (some dir, none) k f = inl refl
    with_paths_moves (none, o) k f = inl refl

    pub writable_moves :
        (s : Slot Stack) (k : PupReply Stack Disk X)
        → (s.busy ≡ false → ChangesOne t k.1)
        → ChangesOne t (writable s t k).1
    writable_moves s k f = elim (Bool-cases (not s.rw)) [
      | inl fixed ↦ rw fixed (inl refl)
      | inr open_one ↦ elim (Bool-cases s.busy) [
        | inl busy ↦ rw (open_one, busy) (inl refl)
        | inr idle ↦ rw (open_one, idle) (f idle)
      ]
    ]

pub status_table :
    {Stack Disk : Type 0} (text : String) (st : Status) (t : Table Stack Disk)
    → (status_reply text st t).1 ≡ t
status_table text done t = refl
status_table text too_many t = refl
status_table text failed t = refl

pub bool_table :
    {Stack Disk : Type 0} (text : String) (b : Bool) (t : Table Stack Disk)
    → (bool_reply text b t).1 ≡ t
bool_table text true t = refl
bool_table text false t = refl

module _ {Stack Disk : Type 0} (lib : PupLib Stack Disk) (mem_pages : ℕ) (lane : IndexLane)
    (usage : String) (t : Table Stack Disk) where
  abbrev pub run_bytes : Stack → ℕ → Option Mapping
  run_bytes stack i = lib.data_row stack i (lane_size lane)

  pub pup_put_leaf-ChangesOne :
      (argc : ℕ) (handle : Value) (paths : Paths) (key val : Outcome ℕ)
      → ChangesOne run_bytes t (pup_put_leaf lib mem_pages lane usage argc handle paths key val t).1
  unfolding pup_put_leaf
  pup_put_leaf-ChangesOne argc handle paths key val =
      with_arguments_moves run_bytes t argc 4 usage handle _ λ h s e live.
        writable_moves run_bytes t s _ λ idle. with_paths_moves run_bytes t paths _ λ dir ext.
          with_value_moves run_bytes t key _ λ k.
            with_value_moves run_bytes t val _
              λ v. rw status_table (inr (h, s, _, e, moved_on _ _ _ idle, refl))

  pub commit_leaf-ChangesOne :
      (argc : ℕ) (handle : Value) (paths : Paths) (durable : Bool)
      → ChangesOne run_bytes t (commit_leaf lib mem_pages lane usage argc handle paths durable t).1
  unfolding commit_leaf
  commit_leaf-ChangesOne argc handle paths durable =
      with_arguments_moves run_bytes t argc 3 usage handle _ λ h s e live.
        writable_moves run_bytes t s _ λ idle.
          with_paths_moves run_bytes t paths _
            λ dir ext. rw status_table (inr (h, s, _, e, moved_on _ _ _ idle, refl))

  pub drop_leaf-ChangesOne :
      (argc : ℕ) (handle : Value) (paths : Paths) (index : Option (Outcome ℕ))
      → ChangesOne run_bytes t (drop_leaf lib mem_pages lane usage argc handle paths index t).1
  unfolding drop_leaf
  drop_leaf-ChangesOne argc handle paths index =
      with_arguments_moves run_bytes t argc 3 usage handle _ λ h s e live.
        writable_moves run_bytes t s _
          λ idle. with_paths_moves run_bytes t paths _ λ dir ext. of_index h s e idle dir ext index
    where
      of_index :
          (h : ℕ) (s : Slot Stack)
          → get_elem? t.slots h ≡ some s
          → s.busy ≡ false
          → (dir ext : FilePath) (i : Option (Outcome ℕ))
          → ChangesOne run_bytes t
              (dropped_runs lib mem_pages lane usage h (disarmed lane (pup_moved s)) dir ext i t).1
      of_index h s e idle dir ext none = rw bool_table (inr (h, s, _, e, moved_on _ _ _ idle, refl))
      of_index h s e idle dir ext (some (ok i)) =
          rw bool_table (inr (h, s, _, e, moved_on _ _ _ idle, refl))
      of_index h s e idle dir ext (some (err x)) =
          inr (h, s, _, e, moved_on (pup_moved s).stack (pup_moved s).live _ idle, refl)

  pub close_leaf-ChangesOne :
      (argc : ℕ) (handle : Value)
      → ChangesOne run_bytes t (close_leaf lib mem_pages lane usage argc handle t).1
  unfolding close_leaf
  close_leaf-ChangesOne argc handle = with_slot_moves run_bytes t usage argc handle _ λ h s e live.
      if_cases (λ (r : PupReply Stack Disk (Unit {0})). ChangesOne run_bytes t r.1) s.busy
        (λ busy. inl refl) (λ idle. inr (h, s, _, e, moved_on _ _ _ idle, refl))

  pub run_leaf-ChangesOne :
      (argc : ℕ) (handle : Value) (index : Outcome ℕ)
      → ChangesOne run_bytes t (run_leaf lib mem_pages lane usage argc handle index t).1
  unfolding run_leaf
  run_leaf-ChangesOne argc handle index =
      with_arguments_moves run_bytes t argc 2 usage handle _ λ h s e live.
        with_value_moves run_bytes t index _ λ i.
          elim (Bool-cases (leb (lib.count s.stack) i || leb max_runs i)) [
            | inl past ↦ rw past (inl refl)
            | inr there ↦ rw there (
                with_run h s e live i (ground (arith, there))
                  (lib.data_row s.stack i (lane_size lane)) refl)
          ]
    where
      with_run :
          (h : ℕ) (s : Slot Stack)
          → get_elem? t.slots h ≡ some s
          → s.live ≡ true
          → (i : ℕ) → i < max_runs
          → (o : Option Mapping) → lib.data_row s.stack i (lane_size lane) ≡ o
          → ChangesOne run_bytes t (run_reply lib mem_pages lane usage h i s o t).1
      with_run h s e live i small none f = inl refl
      with_run h s e live i small (some run) f =
          inr (h, s, _, e, view_lent i run live f small, refl)
