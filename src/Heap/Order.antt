-- ===== src/Heap/Order.antt =====
-- A HEAP container hands its elements back in order.
use mathlib.Core.List.{Perm, Pairwise, perm_middle}
use mathlib.Core.List.Perm
use quickjab.Prelude.{
  ℕ, zero, suc, ◌+◌, ◌≤◌, ◌≡◌, refl, ap, ◌∙◌, subst, List, [], ◌∷◌, ◌++◌, map, Option, some, arith,
  length, take,
}
use quickjab.Outcome.{Outcome, ok, err}
use quickjab.Abc.{Abc}
use quickjab.Heap.{HeapLib, LaneArray, Lane, Heap, push_all, after_push, heap_push, heap_pop}
use quickjab.Heap.Verbs.{IsHeap, IsHeapLib, live, heap_push_lem, heap_pop_lem}

abbrev then_rest : {A B : Type 0} → A → Outcome (List A) × B → Outcome (List A) × B
then_rest a (ok l, b) = (ok (a ∷ l), b)
then_rest a (err e, b) = (err e, b)

abbrev unless_thrown : {A B C : Type 0} → Outcome A × B → (A → B → Outcome C × B) → Outcome C × B
unless_thrown (ok a, b) k = k a b
unless_thrown (err e, b) k = (err e, b)

-- The container with these elements, and its watermark here.
abbrev pub filled : {A : Type 0} → Heap A → List A → ℕ → Heap A
filled h s k = record { arr = record h.arr { slots = s }; watermark = k }

module _ {A : Type 0} (abc : Abc) (lane : Lane) (lib : HeapLib A) where
  -- Push after push, the elements of a list; a call that throws ends it.
  unfoldable pub push_many : List A → Heap A → Outcome (Unit {0}) × Heap A
  push_many [] h = (ok tt, h)
  push_many (v ∷ vs) h = unless_thrown (heap_push abc lane lib (ok v) h) (λ u g. push_many vs g)

  -- What k pops return, one after the other.
  unfoldable pub pop_many : ℕ → Heap A → Outcome (List (Option A)) × Heap A
  pop_many zero h = (ok [], h)
  pop_many (suc k) h = unless_thrown (heap_pop abc lane lib h) (λ r g. then_rest r (pop_many k g))

  module _ {le : A → A → Type 0} {heaped : List A → Type 0} (lawful : IsHeapLib le heaped lib) where
    pub push_many_lem :
        (vs : List A) (h : Heap A)
        → IsHeap abc lane lib heaped h
        → h.watermark + length vs ≤ length h.arr.slots
        → (s : List A) × (push_many vs h ≡ (ok tt, filled h s (h.watermark + length vs)))
          × (push_all abc lane lib h.arr.slots h.watermark vs ≡ (ok (h.watermark + length vs), s))
          × IsHeap abc lane lib heaped (filled h s (h.watermark + length vs))
          × Perm (take (h.watermark + length vs) s) (vs ++ live h)
    unfolding push_many push_all
    push_many_lem [] h i m =
        let none_more : h.watermark ≡ h.watermark + 0 = omega arith in
        (
          h.arr.slots,
          ap (λ (k : ℕ). (ok tt, filled h h.arr.slots k)) none_more,
          ap (λ (k : ℕ). (ok k, h.arr.slots)) none_more,
          subst (λ (k : ℕ). IsHeap abc lane lib heaped (filled h h.arr.slots k)) none_more i,
          subst (λ (k : ℕ). Perm (take k h.arr.slots) (live h)) none_more Perm.rfl,
        )
    push_many_lem (v ∷ vs) h i m =
        let (t, a, e, j, l, p) = heap_push_lem abc lane lib lawful h v i (omega (arith, m)) in
        let (s, d, b, k, q) =
          push_many_lem vs (filled h t (suc h.watermark)) j (omega (arith, m, l)) in
        let one_on : suc h.watermark + length vs ≡ h.watermark + length (v ∷ vs) = omega arith in
        (
          s,
          ap (λ r. unless_thrown r (λ u g. push_many vs g)) e
              ∙ d
              ∙ ap (λ k. (ok tt, filled h s k)) one_on,
          ap (λ r. after_push abc lane lib h.arr.slots r (λ t m. push_all abc lane lib t m vs)) a
              ∙ b
              ∙ ap (λ k. (ok k, s)) one_on,
          subst (λ k. IsHeap abc lane lib heaped (filled h s k)) one_on k,
          subst (λ k. Perm (take k s) ((v ∷ vs) ++ live h)) one_on
              (Perm.trans q (Perm.trans (Perm.append_left vs p) (perm_middle vs (live h)))),
        )

    pop_many_lem :
        (n : ℕ) (arr : LaneArray A)
        → IsHeap abc lane lib heaped (record { arr = arr; watermark = n })
        → (ys : List A) × (g : Heap A) × (pop_many n (record { arr = arr; watermark = n })
            ≡ (ok (map some ys), g))
          × (g.watermark ≡ 0)
          × Perm ys (take n arr.slots)
          × Pairwise le ys
    unfolding pop_many
    pop_many_lem zero arr i =
        ([], record { arr = arr; watermark = 0 }, refl, refl, Perm.rfl, Pairwise.nil)
    pop_many_lem (suc n) arr i =
        let (v, b, e, j, p, first) = heap_pop_lem abc lane lib lawful arr n i in
        let (ys, f, d, z, q, s) = pop_many_lem n b j in
        (
          v ∷ ys,
          f,
          ap (λ r. unless_thrown r (λ r g. then_rest r (pop_many n g))) e
              ∙ ap (then_rest (some v)) d,
          z,
          Perm.trans (Perm.cons v q) (Perm.symm p),
          Pairwise.cons (λ x m. first x ((Perm.mem_iff q).0 m)) s,
        )

    -- Push any values into a HEAP container with room for them and then pop as often as it has
    -- elements: no call throws, the pops return the elements it held and those pushed, each as often
    -- as it was there, with none before an earlier one in the lane's order, and the container is left
    -- empty. The HEAP template of abc keeps what it promises for that order.
    pub push_pop_many :
        (vs : List A) (h : Heap A)
        → IsHeap abc lane lib heaped h
        → h.watermark + length vs ≤ length h.arr.slots
        → (g f : Heap A) × (ys : List A) × (push_many vs h ≡ (ok tt, g))
          × (pop_many (h.watermark + length vs) g ≡ (ok (map some ys), f))
          × (f.watermark ≡ 0)
          × Perm ys (vs ++ live h)
          × Pairwise le ys
    push_pop_many vs h i m =
        let (s, e, a, j, p) = push_many_lem vs h i m in
        let (ys, f, d, z, q, o) =
          pop_many_lem (h.watermark + length vs) (record h.arr { slots = s }) j in
        (_, f, ys, e, d, z, Perm.trans q p, o)
