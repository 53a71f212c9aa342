-- ===== src/Tests/SortedSlots.antt =====
-- A concrete HEAP template, which keeps its elements in order: what heap.c relies on can hold.
use mathlib.Core.List.{Perm, Pairwise, Pairwise-singleton, forall_mem-cons}
use mathlib.Core.List.Perm
use native.Mathlib.Bridge.{le_prop}
use quickjab.Prelude.{
  ℕ, suc, ◌≤◌, ◌<◌, ◌≡◌, refl, sym, subst, inl, inr, List, [], ◌∷◌, ◌++◌, Option, none, some, arith,
  ltb, leb, if◌then◌else◌, Bool-cases, lt→ltb, length, take, drop, length-append, length-take,
  length-drop, take-append_length,
}
use quickjab.Heap.{HeapLib}
use quickjab.Heap.Verbs.{IsHeapLib, IsFirst}

insert : ℕ → List ℕ → List ℕ
insert v [] = v ∷ []
insert v (x ∷ xs) = let rest = insert v xs in if leb v x then v ∷ (x ∷ xs) else x ∷ rest

insert-Perm : (v : ℕ) (xs : List ℕ) → Perm (insert v xs) (v ∷ xs)
unfolding insert
insert-Perm v [] = Perm.rfl
insert-Perm v (x ∷ xs) = elim (Bool-cases (leb v x)) [
  | inl e ↦ rw e Perm.rfl
  | inr e ↦ rw e (Perm.trans (Perm.cons x (insert-Perm v xs)) (Perm.swap v x xs))
]

length-insert : (v : ℕ) (xs : List ℕ) → length (insert v xs) ≡ suc (length xs)
unfolding insert
length-insert v [] = refl
length-insert v (x ∷ xs) = ground (arith, length-insert v xs)

abbrev IsOrdered : List ℕ → Type 0
IsOrdered = Pairwise ◌≤◌

IsFirst-cons : (a b : ℕ) (xs : List ℕ) → a ≤ b → IsFirst ◌≤◌ a xs → IsFirst ◌≤◌ a (b ∷ xs)
IsFirst-cons a b xs h f = (forall_mem-cons (λ x. le_prop)).1 (h, f)

insert-IsOrdered : (v : ℕ) (xs : List ℕ) → IsOrdered xs → IsOrdered (insert v xs)
unfolding insert
insert-IsOrdered v [] s = Pairwise-singleton _ v
insert-IsOrdered v (x ∷ xs) (Pairwise.cons below s) = elim (Bool-cases (leb v x)) [
  | inl e ↦
      let le : v ≤ x = ground (arith, e) in
      rw e (
        Pairwise.cons (IsFirst-cons v x xs le (λ y m. let b = below y m in omega (arith, b, le)))
          (Pairwise.cons below s))
  | inr e ↦
      let le : x ≤ v = ground (arith, e) in
      rw e (
        Pairwise.cons
          (λ y m. IsFirst-cons x v xs le below y ((Perm.mem_iff (insert-Perm v xs)).0 m))
          (insert-IsOrdered v xs s))
]

abbrev taken : List ℕ → ℕ → List ℕ → Option (ℕ × List ℕ)
taken s n [] = none
taken s n (v ∷ t) = some (v, t ++ (v ∷ drop n s))

abbrev pub sorted_slots : HeapLib ℕ
unfolding insert
sorted_slots = record {
  push = λ s n v.
      if ltb n (length s) then some (insert v (take n s) ++ drop (suc n) s, suc n) else none;
  pop = λ s n. taken s n (take n s);
}

take_front : (n : ℕ) (x y : List ℕ) → length x ≡ n → take n (x ++ y) ≡ x
take_front n x y e = subst (λ k. take k (x ++ y) ≡ x) e (take-append_length x y)

length-take_all : (n : ℕ) (s : List ℕ) → n ≤ length s → length (take n s) ≡ n
length-take_all n s h = omega (arith, length-take n s, h)

taken_fits :
    (s : List ℕ) (n : ℕ) (front : List ℕ)
    → n < length s
    → length front ≡ suc n
    → IsOrdered front
    → (v : ℕ) × (t : List ℕ) × (taken s (suc n) front ≡ some (v, t))
      × (length t ≡ length s)
      × IsOrdered (take n t)
      × Perm front (v ∷ take n t)
      × IsFirst ◌≤◌ v (take n t)
taken_fits s n [] h e o = absurd (omega (arith, e))
taken_fits s n (v ∷ t) h e (Pairwise.cons below o) =
    let same = take_front n t (v ∷ drop (suc n) s) (omega (arith, e)) in
    (
      v,
      t ++ (v ∷ drop (suc n) s),
      refl,
      omega (arith, e, h, length-append t (v ∷ drop (suc n) s), length-drop (suc n) s),
      subst IsOrdered (sym same) o,
      subst (λ u. Perm (v ∷ t) (v ∷ u)) (sym same) Perm.rfl,
      subst (IsFirst ◌≤◌ v) (sym same) below,
    )

pub sorted_slots-IsHeapLib : IsHeapLib ◌≤◌ (Pairwise ◌≤◌) sorted_slots
unfolding sorted_slots insert
sorted_slots-IsHeapLib = record {
  empty_heaped = Pairwise.nil;
  push_fits = λ s n v h o.
      let front = insert v (take n s) in
      let l = length-insert v (take n s) in
      let k = length-take_all n s (omega (arith, h)) in
      let same = take_front (suc n) front (drop (suc n) s) (omega (arith, l, k)) in
      (
        front ++ drop (suc n) s,
        rw (lt→ltb n (length s) h) refl,
        omega (arith, length-append front (drop (suc n) s), length-drop (suc n) s, l, k, h),
        subst IsOrdered (sym same) (insert-IsOrdered v (take n s) o),
        subst (λ u. Perm u (v ∷ take n s)) (sym same) (insert-Perm v (take n s)),
      );
  pop_fits = λ s n h o. taken_fits s n (take (suc n) s) h (length-take_all (suc n) s h) o;
}
