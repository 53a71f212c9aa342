-- ===== src/Pup/MergeStep.antt =====
-- One row off the merge heap.
use quickjab.Prelude.{
  ℕ, suc, ◌+◌, ◌≡◌, ◌≢◌, ◌<◌, ◌≤◌, refl, sym, ap, ◌∙◌, subst, false, List, ◌∷◌, some, arith, ltb,
  ltb→lt, ◌⊎◌, inl, inr, Bool-cases, get_elem?, get_or, map, ◌==◌, All-map,
}
use quickjab.Pup.{IndexRow, Slice, IndexOrder}
use quickjab.Pup.Scan.{MergeHeap, HitLib, no_row}
use quickjab.Pup.Merge.{
  IsRanked, stepped, MergeLaws, HasRow, IsNewest, AllRising, Tells, IsMerge, get_elem?-map,
  get_elem?-map',
}

module _ (order : IndexOrder) (rank : IndexRow → ℕ) (ranked : IsRanked rank order)
    (mem : ℕ → IndexRow) where
  -- An entry steps where its head is equal to the row that is pulled.
  pub stepped-cases :
      (val : IndexRow) (e : Slice)
      → ((e.head < e.term)
          × (rank (mem e.head) ≡ rank val)
          × (stepped order mem val e ≡ record { head = e.head + 1; term = e.term }))
        ⊎ ((e.head < e.term → rank (mem e.head) ≢ rank val) × (stepped order mem val e ≡ e))
  stepped-cases val e = elim (Bool-cases (ltb e.head e.term)) [
    | inr empty ↦ inr (λ h. absurd (ground (arith, empty, h)), rw empty refl)
    | inl full ↦ elim (Bool-cases (rank (mem e.head) == rank val)) [
      | inl same ↦
          let s : rank (mem e.head) ≡ rank val = ground (arith, same) in
          let a : order.less (mem e.head) val ≡ false =
            ground (arith, ranked (mem e.head) val, s) in
          let b : order.less val (mem e.head) ≡ false =
            ground (arith, ranked val (mem e.head), s) in
          inl (ltb→lt _ _ full, s, rw (full, a, b) refl)
      | inr other ↦
          let n : rank (mem e.head) ≢ rank val = λ s. ground (arith, other, s) in
          inr (λ h. n, ground (arith, full, ranked (mem e.head) val, ranked val (mem e.head), n))
    ]
  ]

  module _ (hit : HitLib) (IsHeap : MergeHeap → Type 0) (laws : MergeLaws order hit mem IsHeap)
      (h : MergeHeap) (i : ℕ) (is : List ℕ) (wf : IsHeap h) (top : h.order ≡ i ∷ is)
      (rising : AllRising rank mem h.entries) where
    abbrev val : IndexRow
    val = mem (get_or h.entries i no_row).head

    abbrev after_step : List Slice
    after_step = map (stepped order mem val) h.entries

    -- Every row of an entry is at its head or above it.
    above_head :
        (j p : ℕ) (e : Slice)
        → get_elem? h.entries j ≡ some e
        → e.head ≤ p
        → p < e.term
        → rank (mem e.head) ≤ rank (mem p)
    above_head j p e f a b = elim (Bool-cases (e.head == p)) [
      | inl same ↦ ground (arith, ap mem (let g : e.head ≡ p = ground (arith, same) in g))
      | inr more ↦ ground (arith, rising j e f e.head p (omega arith) (ground (arith, more, a)) b)
    ]

    from_val :
        (j : ℕ) (e : Slice)
        → get_elem? h.entries j ≡ some e
        → e.head < e.term
        → rank val ≤ rank (mem e.head)
    from_val j e f a = ground (arith, laws.least h i is j e wf top (f, a), ranked (mem e.head) val)

    old_row : (j p : ℕ) → HasRow rank mem after_step j p → HasRow rank mem h.entries j p
    old_row j p (e', f, a, b) =
        let (e, g, s) = get_elem?-map (stepped order mem val) h.entries j f in
        elim (stepped-cases val e) [
          | inl (full, tie, is_stepped) ↦
              let same : e' ≡ record { head = e.head + 1; term = e.term } = sym s ∙ is_stepped in
              let at : e.head + 1 ≤ p = omega (arith, a, ap (λ x. x.head) same) in
              (e, g, omega (arith, at), omega (arith, b, ap (λ x. x.term) same))
          | inr (other, stays) ↦
              let same : e' ≡ e = sym s ∙ stays in
              (
                e,
                g,
                omega (arith, a, ap (λ x. x.head) same),
                omega (arith, b, ap (λ x. x.term) same),
              )
        ]

    -- What is left is above the row that was pulled.
    pub left_above : (j p : ℕ) → HasRow rank mem after_step j p → rank val < rank (mem p)
    left_above j p (e', f, a, b) =
        let (e, g, s) = get_elem?-map (stepped order mem val) h.entries j f in
        elim (stepped-cases val e) [
          | inl (full, tie, is_stepped) ↦
              let same : e' ≡ record { head = e.head + 1; term = e.term } = sym s ∙ is_stepped in
              omega (
                arith,
                tie,
                rising j e g e.head p (omega arith) (omega (arith, a, ap (λ x. x.head) same))
                    (omega (arith, b, ap (λ x. x.term) same)),
              )
          | inr (other, stays) ↦
              let same : e' ≡ e = sym s ∙ stays in
              let low : e.head ≤ p = omega (arith, a, ap (λ x. x.head) same) in
              let high : p < e.term = omega (arith, b, ap (λ x. x.term) same) in
              omega (
                arith,
                above_head j p e g low high,
                from_val j e g (omega (arith, low, high)),
                other (omega (arith, low, high)),
              )
        ]

    kept_row :
        (j p : ℕ)
        → HasRow rank mem h.entries j p
        → rank (mem p) ≢ rank val
        → HasRow rank mem after_step j p
    kept_row j p (e, f, a, b) n = elim (stepped-cases val e) [
      | inl (full, tie, is_stepped) ↦ (
        record { head = e.head + 1; term = e.term },
        get_elem?-map' (stepped order mem val) h.entries j f ∙ ap some is_stepped,
        elim (Bool-cases (e.head == p)) [
          | inl same ↦ absurd (
              n (
                ap (λ q. rank (mem q)) (sym (let g : e.head ≡ p = ground (arith, same) in g))
                ∙ tie))
          | inr more ↦ ground (arith, more, a)
        ],
        b,
      )
      | inr (other, stays) ↦
          (e, get_elem?-map' (stepped order mem val) h.entries j f ∙ ap some stays, a, b)
    ]

    pub step-AllRising : AllRising rank mem after_step
    step-AllRising j e' f p q a b c =
        let (e, g, s) = get_elem?-map (stepped order mem val) h.entries j f in
        let (x, gx, low, high) = old_row j p (e', f, a, omega (arith, b, c)) in
        let (y, gy, low', high') = old_row j q (e', f, omega (arith, a, b), c) in
        let same : y ≡ x = cc (gx, gy) in
        rising j x gx p q low b (omega (arith, high', ap (λ z. z.term) same))

    val-IsNewest : IsNewest rank mem h.entries val
    val-IsNewest =
        let at = laws.top_at h i is wf top in
        let e0 = get_or h.entries i no_row in
        (
          i,
          e0.head,
          (e0, at.0, omega arith, at.1),
          refl,
          λ j' p' later (e, f, a, b) same. ground (
            arith,
            same,
            above_head j' p' e f a b,
            laws.youngest h i is j' e wf top later (f, omega (arith, a, b)),
            ranked val (mem e.head),
          ),
        )

    -- The rows that are left lack the row that was pulled, and what it shadows, alone.
    pub IsMerge-step :
        (out : List IndexRow)
        → IsMerge rank mem after_step out
        → IsMerge rank mem h.entries (val ∷ out)
    IsMerge-step out (rises, newest, complete) = (
      (All-map (IsNewest rank mem after_step) (λ x. rank val < rank x) out higher newest, rises),
      (
        val-IsNewest,
        All-map (IsNewest rank mem after_step) (IsNewest rank mem h.entries) out older newest,
      ),
      told,
    )
      where
        higher : (r : IndexRow) → IsNewest rank mem after_step r → rank val < rank r
        higher r (j, p, row, e, none_later) = subst (λ x. rank val < rank x) e (left_above j p row)

        older : (r : IndexRow) → IsNewest rank mem after_step r → IsNewest rank mem h.entries r
        older r (j, p, row, e, none_later) = (
          j,
          p,
          old_row j p row,
          e,
          λ j' p' l row' same.
              none_later j' p' l
                (kept_row j' p' row'
                  (λ tie. omega (arith, tie, same, ap rank e, left_above j p row)))
                same,
        )

        told : (j p : ℕ) → HasRow rank mem h.entries j p → Tells rank mem (val ∷ out) (rank (mem p))
        told j p row = elim (Bool-cases (rank (mem p) == rank val)) [
          | inl same ↦ (0, val, refl, ground (arith, same))
          | inr other ↦
              let (n, r, f, g) = complete j p (kept_row j p row (λ s. ground (arith, other, s))) in
              (suc n, r, f, g)
        ]
