-- ===== src/Pup/Safe.antt =====
-- What no program can do to the table of pup.c: read a run that is gone through a view.
use quickjab.Prelude.{
  subst, ℕ, zero, suc, ◌≡◌, refl, Bool, true, List, [], ◌∷◌, Option, none, some, String, All, inl,
  inr, Bool-cases, get_elem?, set, replicate,
}
use quickjab.Pup.{IndexOrder}
use quickjab.Pup.Table.{IndexLane, PupLib, Slot, Table, Mapping, lane_size, free_slot, max_open}
use quickjab.Pup.Views.{IsBlank-IsLent, IsBlank, live_views}
use quickjab.Pup.Changes.{IsSlot, Change-IsSlot}
use quickjab.Pup.Calls.{ChangesOne}
use quickjab.Pup.Scan.{HitLib, set_busy}
use quickjab.Pup.Program.{
  do_call, do_call-ChangesOne, Ran, started, after_call, after_scan, lane_bytes, range_leaf_keeps,
}

All-set :
    {A : Type 0} (P : A → Type 0) (xs : List A) (i : ℕ) (v : A)
    → All P xs
    → P v
    → All P (set xs i v)
All-set P [] i v h p = tt
All-set P (x ∷ xs) zero v h p = (p, h.1)
All-set P (x ∷ xs) (suc i) v h p = (h.0, All-set P xs i v h.1 p)

All-replicate : {A : Type 0} (P : A → Type 0) (n : ℕ) (v : A) → P v → All P (replicate n v)
All-replicate P zero v p = tt
All-replicate P (suc n) v p = (p, All-replicate P n v p)

All-get :
    {A : Type 0} (P : A → Type 0) (xs : List A) (i : ℕ) {v : A}
    → All P xs
    → get_elem? xs i ≡ some v
    → P v
All-get P [] i h e = cc e
All-get P (x ∷ xs) zero {v} h e = let same : x ≡ v = cc e in subst P same h.0
All-get P (x ∷ xs) (suc i) h e = All-get P xs i h.1 e

module _ {Stack Disk : Type 0} (lib : PupLib Stack Disk) (mem_pages : ℕ) (lane : IndexLane)
    (usage : String) (order : IndexOrder) (hit : HitLib) where
  abbrev bytes_in : Stack → ℕ → Option Mapping
  bytes_in = lane_bytes lib mem_pages lane usage order hit

  abbrev Every : Table Stack Disk → Type 0
  Every t = All (IsSlot bytes_in) t.slots

  marked-IsSlot :
      (s : Slot Stack) (b : Bool) → IsSlot bytes_in s → IsSlot bytes_in (record s { busy = b })
  marked-IsSlot s b k = record {
    lent = record {
      sized = k.lent.sized;
      counted = k.lent.counted;
      mapped = k.lent.mapped;
      held = k.lent.held;
      recorded = k.lent.recorded;
    };
    blank = λ e.
        let c = k.blank e in
        record {
          sized = c.sized;
          counted = c.counted;
          none_live = c.none_live;
          detached = c.detached;
        };
  }

  ChangesOne-Every : (t u : Table Stack Disk) → ChangesOne bytes_in t u → Every t → Every u
  ChangesOne-Every t u (inl same) k = rw same k
  ChangesOne-Every t u (inr (h, s, s', e, c, f)) k = rw f (
      All-set (IsSlot bytes_in) t.slots h s' k
        (Change-IsSlot bytes_in c (All-get (IsSlot bytes_in) t.slots h k e)))

  restored-Every :
      (h : ℕ) (b : Bool) (u : Table Stack Disk)
      → Every u
      → (o : Option (Slot Stack)) → get_elem? u.slots h ≡ o
      → Every (set_busy lib lane order hit h b o u)
  restored-Every h b u q none e = q
  restored-Every h b u q (some x) e =
      All-set (IsSlot bytes_in) u.slots h _ q
        (marked-IsSlot x b (All-get (IsSlot bytes_in) u.slots h q e))

  Ran-Every :
      {s t : Table Stack Disk} → Ran lib mem_pages lane usage order hit s t → Every s → Every t
  Ran-Every (started s) k = k
  Ran-Every (after_call s t r c) k =
      ChangesOne-Every t (do_call lib mem_pages lane usage order hit c t)
        (do_call-ChangesOne lib mem_pages lane usage order hit c t) (Ran-Every r k)
  Ran-Every (after_scan s t r argc handle lo hi f callback does) k =
      let all_t : Every t = Ran-Every r k in
      range_leaf_keeps lib mem_pages lane usage order hit callback Every
        (λ x v q. Ran-Every (does x v) q) argc handle lo hi f t
        (λ h x e live. (
          All-set (IsSlot bytes_in) t.slots h _ all_t
              (marked-IsSlot x true (All-get (IsSlot bytes_in) t.slots h all_t e)),
          λ u q. restored-Every h x.busy u q (get_elem? u.slots h) refl,
        ))
        all_t

  -- The table when the program starts.
  abbrev pub fresh_table : Disk → Table Stack Disk
  fresh_table disk = record { slots = replicate max_open (free_slot lib.empty); disk = disk }

  free_slot-IsBlank : IsBlank (free_slot lib.empty)
  unfolding live_views
  free_slot-IsBlank = record {
    sized = refl;
    counted = refl;
    none_live = refl;
    detached = λ id m e. cc e;
  }

  fresh_table-Every : (disk : Disk) → Every (fresh_table disk)
  fresh_table-Every disk = All-replicate (IsSlot bytes_in) max_open (free_slot lib.empty) (record {
    lent = IsBlank-IsLent bytes_in (free_slot lib.empty) free_slot-IsBlank;
    blank = λ e. free_slot-IsBlank;
  })

  -- Whatever a program does with the leaves of one lane, its scans and their callbacks included: an
  -- ArrayBuffer that is attached is that of an open handle, and wraps a run that the stack of the
  -- handle has now. So no view reads the bytes of a run that is gone.
  pub attached_is_run :
      (disk : Disk) (t : Table Stack Disk)
      → Ran lib mem_pages lane usage order hit (fresh_table disk) t
      → (h : ℕ) (s : Slot Stack) → get_elem? t.slots h ≡ some s
      → (id : ℕ) (m : Mapping) → get_elem? s.buffers id ≡ some (some m)
      → (s.live ≡ true) × ((i : ℕ) × (lib.data_row s.stack i (lane_size lane) ≡ some m))
  attached_is_run disk t ran h s e id m f = elim (Bool-cases s.live) [
    | inl live ↦ (live, (i, k.lent.mapped i (record { buffer = id; mapping = m }) g))
    | inr closed ↦ absurd ((k.blank closed).detached id m f)
  ]
    where
      k : IsSlot bytes_in s
      k = All-get (IsSlot bytes_in) t.slots h (Ran-Every ran (fresh_table-Every disk)) e

      there : (i : ℕ) × (get_elem? s.views i ≡ some (some (record { buffer = id; mapping = m })))
      there = k.lent.recorded id m f

      i : ℕ
      i = there.0

      g : get_elem? s.views i ≡ some (some (record { buffer = id; mapping = m }))
      g = there.1
