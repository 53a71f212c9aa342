-- ===== src/Pup/MergeAll.antt =====
-- The rows off the merge heap of a range scan of pup.c, from the first to the last.
use quickjab.Prelude.{
  ℕ, zero, suc, ◌≡◌, ◌<◌, ◌≤◌, refl, sym, ap, ◌∙◌, subst, false, List, [], ◌∷◌, some, arith, inl,
  inr, get_elem?, get_or, map,
}
use quickjab.Pup.{IndexRow, Slice, IndexOrder}
use quickjab.Pup.Scan.{MergeHeap, HitLib, top_row, ties, skip_ties, rows_left, pulled_off, no_row}
use quickjab.Pup.Merge.{IsRanked, stepped, IsAt, MergeLaws, AllRising, IsMerge, given}
use quickjab.Pup.MergeStep.{stepped-cases, step-AllRising, left_above, IsMerge-step}

module _ (order : IndexOrder) (hit : HitLib) (mem : ℕ → IndexRow) where
  all_given :
      (es : List Slice)
      → rows_left order hit mem es ≤ 0
      → (i : ℕ) (e : Slice) → get_elem? es i ≡ some e
      → e.term ≤ e.head
  all_given [] z i e f = cc f
  all_given (x ∷ es) z zero e f = let same : x ≡ e = cc f in rw (sym same) (omega (arith, z))
  all_given (x ∷ es) z (suc i) e f = all_given es (omega (arith, z)) i e f

  none_left :
      (rank : IndexRow → ℕ) (es : List Slice)
      → ((i : ℕ) (e : Slice) → get_elem? es i ≡ some e → e.term ≤ e.head)
      → IsMerge rank mem es []
  none_left rank es empty = (tt, tt, λ j p (e, f, a, b). absurd (omega (arith, empty j e f, a, b)))

  skip_none :
      (turns : ℕ) (val : IndexRow) (h : MergeHeap)
      → ties order hit mem (top_row order hit mem h.entries h.order) val ≡ false
      → skip_ties order hit mem turns val h ≡ h
  unfolding skip_ties
  skip_none zero val h e = refl
  skip_none (suc turns) val h e = rw e refl

  pub given_row :
      (turns i : ℕ) (is : List ℕ) (h : MergeHeap)
      → h.order ≡ i ∷ is
      → given order hit mem (suc turns) h
        ≡ mem (get_or h.entries i no_row).head
          ∷ given order hit mem turns
              (pulled_off order hit mem (mem (get_or h.entries i no_row).head) h)
  unfolding given
  given_row turns i is h e = rw e refl

  pub given_none :
      (turns : ℕ) (h : MergeHeap) → h.order ≡ [] → given order hit mem (suc turns) h ≡ []
  unfolding given
  given_none turns h e = rw e refl

  module _ (rank : IndexRow → ℕ) (ranked : IsRanked rank order) (val : IndexRow) where
    fewer_left :
        (es : List Slice)
        → rows_left order hit mem (map (stepped order mem val) es) ≤ rows_left order hit mem es
    fewer_left [] = omega arith
    fewer_left (e ∷ es) = elim (stepped-cases order rank ranked mem val e) [
      | inl (full, tie, s) ↦ rw s (omega (arith, fewer_left es))
      | inr (n, s) ↦ rw s (omega (arith, fewer_left es))
    ]

    one_less :
        (es : List Slice) (i : ℕ) (e : Slice)
        → IsAt es i e
        → rank (mem e.head) ≡ rank val
        → rows_left order hit mem (map (stepped order mem val) es) < rows_left order hit mem es
    one_less [] i e (f, full) same = cc f
    one_less (x ∷ es) zero e (f, full) same =
        let s : x ≡ e = cc f in
        elim (stepped-cases order rank ranked mem val x) [
          | inl (a, tie, step) ↦ rw step (omega (arith, a, fewer_left es))
          | inr (n, step) ↦ absurd (n (rw s full) (rw s same))
        ]
    one_less (x ∷ es) (suc i) e (f, full) same =
        let less = one_less es i e (f, full) same in
        elim (stepped-cases order rank ranked mem val x) [
          | inl (a, tie, step) ↦ rw step (omega (arith, a, less))
          | inr (n, step) ↦ rw step (omega (arith, less))
        ]

  module _ (rank : IndexRow → ℕ) (ranked : IsRanked rank order) (IsHeap : MergeHeap → Type 0)
      (laws : MergeLaws order hit mem IsHeap) where
    -- A row is pulled off by AdvanceTops alone: no entry has an equal row after it.
    pulled_once :
        (h : MergeHeap) (i : ℕ) (is : List ℕ)
        → IsHeap h
        → h.order ≡ i ∷ is
        → AllRising rank mem h.entries
        → pulled_off order hit mem (mem (get_or h.entries i no_row).head) h
          ≡ hit.advance_tops mem (hit.tops mem h) h
    unfolding pulled_off
    pulled_once h i is wf top rising =
        let val = mem (get_or h.entries i no_row).head in
        let h' = hit.advance_tops mem (hit.tops mem h) h in
        let (wf', moved) = laws.advanced h i is wf top in skip_none _ val h' (no_tie h'.order refl)
      where
        no_tie :
            (o : List ℕ)
            → (hit.advance_tops mem (hit.tops mem h) h).order ≡ o
            → ties order hit mem
                (top_row order hit mem
                  (hit.advance_tops mem (hit.tops mem h) h).entries
                  (hit.advance_tops mem (hit.tops mem h) h).order)
                (mem (get_or h.entries i no_row).head)
              ≡ false
        no_tie [] e = rw e refl
        no_tie (j ∷ js) e =
            let (wf', moved) = laws.advanced h i is wf top in
            let after = hit.advance_tops mem (hit.tops mem h) h in
            let head = get_or after.entries j no_row in
            let (f, full) = laws.top_at after j js wf' e in
            let val = mem (get_or h.entries i no_row).head in
            let above : rank val < rank (mem head.head) =
              left_above order rank ranked mem hit IsHeap laws h i is wf top rising j head.head
                (head, ap (λ es. get_elem? es j) (sym moved) ∙ f, omega arith, full) in
            rw e (ground (arith, above, ranked (mem head.head) val, ranked val (mem head.head)))

    abbrev Merged : ℕ → Type 0
    Merged turns =
        (h : MergeHeap)
        → IsHeap h
        → AllRising rank mem h.entries
        → rows_left order hit mem h.entries ≤ turns
        → IsMerge rank mem h.entries (given order hit mem turns h)

    given_step : (turns : ℕ) → Merged turns → Merged (suc turns)
    given_step turns again h wf rising enough_turns = by_order h.order refl
      where
        by_order :
            (o : List ℕ)
            → h.order ≡ o
            → IsMerge rank mem h.entries (given order hit mem (suc turns) h)
        by_order [] e = rw (given_none turns h e) (none_left rank h.entries (laws.ended h wf e))
        by_order (i ∷ is) e =
            let (wf', moved) = laws.advanced h i is wf e in
            let below = step-AllRising order rank ranked mem hit IsHeap laws h i is wf e rising in
            let fewer =
              one_less rank ranked (mem (get_or h.entries i no_row).head) h.entries i
                (get_or h.entries i no_row) (laws.top_at h i is wf e) refl in
            let after = hit.advance_tops mem (hit.tops mem h) h in
            let rest : IsMerge rank mem after.entries (given order hit mem turns after) =
              again after wf' (subst (AllRising rank mem) (sym moved) below)
                (omega (arith, ap (rows_left order hit mem) moved, fewer, enough_turns)) in
            rw (given_row turns i is h e, pulled_once h i is wf e rising)
              (IsMerge-step order rank ranked mem hit IsHeap laws h i is wf e rising _
                (subst (λ es. IsMerge rank mem es (given order hit mem turns after)) moved rest))

    pub given-IsMerge : (turns : ℕ) → Merged turns
    unfolding given
    given-IsMerge zero h wf rising enough_turns =
        none_left rank h.entries (all_given h.entries enough_turns)
    given-IsMerge (suc turns) h wf rising enough_turns =
        given_step turns (given-IsMerge turns) h wf rising enough_turns
