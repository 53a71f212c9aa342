-- ===== src/Pup/Drop.antt =====
-- The run that an index names, by run and by drop.
use quickjab.Prelude.{
  ℕ, ◌%◌, ◌^◌, ◌≡◌, ◌≤◌, refl, true, ◌||◌, Option, none, some, String, arith, leb, ltb,
  if◌then◌else◌,
}
use quickjab.Outcome.{ok, err}
use quickjab.Arg.{Value}
use quickjab.Pup.Table.{IndexLane, PupLib, Slot, Table, max_runs, lane_size, slot_of}
use quickjab.Pup.Leaves.{Paths, run_leaf, run_reply, drop_leaf, with_slot, with_value}

module _ {Stack Disk : Type 0} (lib : PupLib Stack Disk) (mem_pages : ℕ) (lane : IndexLane)
    (usage : String) (t : Table Stack Disk) where
  -- An index of 2^32 or more names no run, and jpup_run refuses it. jpup_drop cuts it to 32 bits, and
  -- does what it does at the low word: at 2^32 it drops run 0.
  pub drop_leaf_wraps :
      (handle : Value) (paths : Paths) (i : ℕ)
      → 2 ^ 32 ≤ i
      → ((e : String) × ((run_leaf lib mem_pages lane usage 2 handle (ok i) t).0 ≡ err e))
        × (drop_leaf lib mem_pages lane usage 4 handle paths (some (ok i)) t
            ≡ drop_leaf lib mem_pages lane usage 4 handle paths (some (ok (i % 2 ^ 32))) t)
  unfolding run_leaf drop_leaf
  drop_leaf_wraps handle paths i large =
      let low : i % 2 ^ 32 % 2 ^ 32 ≡ i % 2 ^ 32 = omega arith in
      (refused (slot_of 2 handle t), rw low refl)
    where
      refused :
          (o : Option (ℕ × Slot Stack))
          → (e : String) × ((with_slot usage o t λ h s.
                if ltb 2 2
                then (err usage, t)
                else (with_value {Y = ℕ} (ok i) t λ n.
                    if leb (lib.count s.stack) n || leb max_runs n
                    then (err "Error: no such index run", t)
                    else run_reply lib mem_pages lane usage h n s
                        (lib.data_row s.stack n (lane_size lane))
                        t)).0
              ≡ err e)
      refused none = (usage, refl)
      refused (some (h, s)) =
          let past : (leb (lib.count s.stack) i || leb max_runs i) ≡ true = ground (arith, large) in
          ("Error: no such index run", rw past refl)
