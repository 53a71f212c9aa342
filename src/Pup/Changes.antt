-- ===== src/Pup/Changes.antt =====
-- What a leaf of pup.c can do to a slot, and what that keeps.
use quickjab.Prelude.{
  ℕ, zero, suc, ◌≡◌, ◌<◌, refl, sym, ◌∙◌, Bool, true, false, List, [], ◌∷◌, Option, none, some, ◌⊎◌,
  inl, inr, Option-cases, if_cases, get_elem?, set,
}
use quickjab.Pup.Table.{IndexLane, Cursor, Mapping, Slot, pup_moved, pup_view, is_current, max_runs}
use quickjab.Pup.Views.{IsLent, IsBlank, IsBlank-IsLent, unview-IsBlank, set_back}
use quickjab.Pup.Lending.{pup_view-IsLent}

detach_keeps :
    (bs : List (Option Mapping)) (id j : ℕ) {o : Option Mapping}
    → get_elem? bs j ≡ some o
    → (get_elem? (set bs id none) j ≡ some o) ⊎ (get_elem? (set bs id none) j ≡ some none)
detach_keeps [] id j e = inl e
detach_keeps (b ∷ bs) zero zero e = inr refl
detach_keeps (b ∷ bs) zero (suc j) e = inl e
detach_keeps (b ∷ bs) (suc id) zero e = inl e
detach_keeps (b ∷ bs) (suc id) (suc j) e = detach_keeps bs id j e

module _ {Stack : Type 0} (run_of : Stack → ℕ → Option Mapping) where
  -- A slot that is live has its views in order; any other has none.
  pub record IsSlot (s : Slot Stack) : Type 0 where
    pub lent : IsLent run_of s
    pub blank : s.live ≡ false → IsBlank s

  -- One view more; the cursors alone; another stack, behind a move, where no scan runs; the start of
  -- a stack in a slot that is not live; an ArrayBuffer that JS detaches.
  pub data Change (s : Slot Stack) : Slot Stack → Type 0 where
    view_lent :
        (i : ℕ) (run : Mapping)
        → s.live ≡ true
        → run_of s.stack i ≡ some run
        → i < max_runs
        → Change s (pup_view i run s).1
    cursor_set :
        (lane_cursors : IndexLane → Cursor) → Change s (record s { lane_cursors = lane_cursors })
    moved_on :
        (stack : Stack) (live : Bool) (lane_cursors : IndexLane → Cursor)
        → s.busy ≡ false
        → Change s
            (record (pup_moved s) { stack = stack; live = live; lane_cursors = lane_cursors })
    refused_open : (stack : Stack) → s.live ≡ false → Change s (record s { stack = stack })
    opened_now :
        (t : Slot Stack)
        → s.live ≡ false
        → t.views ≡ s.views
        → t.nview ≡ s.nview
        → t.buffers ≡ s.buffers
        → Change s (pup_moved t)
    transferred : (id : ℕ) → Change s (record s { buffers = set s.buffers id none })

  pup_moved-IsBlank : (s : Slot Stack) → IsLent run_of s → IsBlank (pup_moved s)
  unfolding pup_moved
  pup_moved-IsBlank s l =
      let b = unview-IsBlank run_of s l in
      record {
        sized = b.sized;
        counted = b.counted;
        none_live = b.none_live;
        detached = b.detached;
      }

  IsBlank-elsewhere :
      (s t : Slot Stack)
      → IsBlank s
      → t.views ≡ s.views
      → t.nview ≡ s.nview
      → t.buffers ≡ s.buffers
      → IsBlank t
  IsBlank-elsewhere s t b v n u = record {
    sized = rw v b.sized;
    counted = n ∙ b.counted;
    none_live = rw v b.none_live;
    detached = λ id m e. b.detached id m (rw (sym u) e);
  }

  blank_slot : (s : Slot Stack) → IsBlank s → IsSlot s
  blank_slot s b = record { lent = IsBlank-IsLent run_of s b; blank = λ e. b }

  pub pup_view_keeps :
      (s : Slot Stack) (i : ℕ) (run : Mapping)
      → let t = (pup_view i run s).1 in (t.stack ≡ s.stack) × (t.live ≡ s.live) × (t.busy ≡ s.busy)
  unfolding pup_view
  pup_view_keeps s i run = elim (Option-cases (get_elem? s.views i)) [
    | inl e ↦ rw e (refl, refl, refl)
    | inr (none, e) ↦ rw e (refl, refl, refl)
    | inr (some v, e) ↦ rw e (
        if_cases
          (λ (r : ℕ × Slot Stack).
            (r.1.stack ≡ s.stack) × (r.1.live ≡ s.live) × (r.1.busy ≡ s.busy))
          (is_current v run s.buffers) (λ c. (refl, refl, refl)) (λ c. (refl, refl, refl)))
  ]

  pub Change-IsSlot : {s t : Slot Stack} → Change s t → IsSlot s → IsSlot t
  unfolding pup_moved
  Change-IsSlot {s = s} (view_lent i run live e small) k = record {
    lent = pup_view-IsLent run_of s k.lent i run e small;
    blank = λ f. cc (f, (pup_view_keeps s i run).1, live);
  }
  Change-IsSlot {s = s} (cursor_set lane_cursors) k = record {
    lent = record {
      sized = k.lent.sized;
      counted = k.lent.counted;
      mapped = k.lent.mapped;
      held = k.lent.held;
      recorded = k.lent.recorded;
    };
    blank = λ f. IsBlank-elsewhere s _ (k.blank f) refl refl refl;
  }
  Change-IsSlot {s = s} (moved_on stack live lane_cursors idle) k =
      blank_slot _ (IsBlank-elsewhere (pup_moved s) _ (pup_moved-IsBlank s k.lent) refl refl refl)
  Change-IsSlot {s = s} (refused_open stack closed) k =
      blank_slot _ (IsBlank-elsewhere s _ (k.blank closed) refl refl refl)
  Change-IsSlot {s = s} (opened_now t closed v n u) k =
      let b = IsBlank-elsewhere s t (k.blank closed) v n u in
      blank_slot _ (pup_moved-IsBlank t (IsBlank-IsLent run_of t b))
  Change-IsSlot {s = s} (transferred id) k = record {
    lent = record {
      sized = k.lent.sized;
      counted = k.lent.counted;
      mapped = k.lent.mapped;
      held = λ i v e. elim (k.lent.held i v e) [
        | inl at ↦ detach_keeps s.buffers id v.buffer at
        | inr gone ↦ elim (detach_keeps s.buffers id v.buffer gone) [
          | inl g ↦ inr g
          | inr g ↦ inr g
        ]
      ];
      recorded = λ j m e. k.lent.recorded j m (set_back s.buffers id j m e);
    };
    blank = λ f.
        let b = k.blank f in
        record {
          sized = b.sized;
          counted = b.counted;
          none_live = b.none_live;
          detached = λ j m e. b.detached j m (set_back s.buffers id j m e);
        };
  }

  -- A slot that is being scanned keeps its stack.
  pub Change-busy :
      {s t : Slot Stack}
      → Change s t
      → s.live ≡ true
      → s.busy ≡ true
      → (t.stack ≡ s.stack) × (t.live ≡ true) × (t.busy ≡ true)
  Change-busy {s = s} (view_lent i run live e small) l b =
      let k = pup_view_keeps s i run in (k.0, k.1 ∙ l, k.2 ∙ b)
  Change-busy (cursor_set lane_cursors) l b = (refl, l, b)
  Change-busy (moved_on stack live lane_cursors idle) l b = cc (idle, b)
  Change-busy (refused_open stack closed) l b = cc (closed, l)
  Change-busy (opened_now t closed v n u) l b = cc (closed, l)
  Change-busy (transferred id) l b = (refl, l, b)
