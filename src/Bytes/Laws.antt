-- ===== src/Bytes/Laws.antt =====
-- Laws of subarray, set and copyWithin, each proved element by element.
use quickjab.Prelude.{
  ℕ, ◌+◌, ◌-◌, ◌≤◌, min, ◌≡◌, ◌⊎◌, List, [], ◌++◌, arith, ltb, if◌then◌else◌, none, length,
  get_elem?, take, drop, get_elem?-take, get_elem?-drop, get_elem?-append, get_elem?-none, list_ext,
  length-take, length-drop, length-append, ◌<◌, ◌==◌, some, ◌∷◌, set, ℕ_discrete,
  get_elem?-set_self, get_elem?-set_ne,
}
use quickjab.Bytes.{slice, overwrite, copy_within}

module _ {A : Type 0} where
  pub length-slice : (xs : List A) (a b : ℕ) → b ≤ length xs → length (slice xs a b) ≡ b - a
  length-slice xs a b h = omega (arith, length-take (b - a) (drop a xs), length-drop a xs)

  pub length-overwrite :
      (xs : List A) (off : ℕ) (s : List A)
      → off + length s ≤ length xs
      → length (overwrite xs off s) ≡ length xs
  length-overwrite xs off s h = omega (
    arith,
    length-append (take off xs) (s ++ drop (off + length s) xs),
    length-append s (drop (off + length s) xs),
    length-take off xs,
    length-drop (off + length s) xs,
  )

  pub get_elem?-slice :
      (xs : List A) (a b i : ℕ)
      → get_elem? (slice xs a b) i ≡ (if ltb (a + i) b then get_elem? xs (a + i) else none)
  get_elem?-slice xs a b i =
      ground (arith, get_elem?-take (b - a) (drop a xs) i, get_elem?-drop a xs i)

  pub get_elem?-overwrite :
      (xs : List A) (off : ℕ) (s : List A) (i : ℕ)
      → off + length s ≤ length xs
      → get_elem? (overwrite xs off s) i ≡ (
          if ltb i off
          then get_elem? xs i
          else if ltb i (off + length s)
          then get_elem? s (i - off)
          else get_elem? xs i)
  get_elem?-overwrite xs off s i h = ground (
    arith,
    get_elem?-append (take off xs) (s ++ drop (off + length s) xs) i,
    get_elem?-append s (drop (off + length s) xs) (i - off),
    length-take off xs,
    get_elem?-take off xs i,
    get_elem?-drop (off + length s) xs (i - off - length s),
  )

  -- What is written at the end of a slice extends it.
  pub slice-overwrite_extend :
      (xs : List A) (a off : ℕ) (s : List A)
      → a ≤ off
      → off + length s ≤ length xs
      → slice (overwrite xs off s) a (off + length s) ≡ slice xs a off ++ s
  slice-overwrite_extend xs a off s h k = list_ext _ _ λ i. ground (
    arith,
    get_elem?-slice (overwrite xs off s) a (off + length s) i,
    get_elem?-overwrite xs off s (a + i) k,
    get_elem?-append (slice xs a off) s i,
    get_elem?-slice xs a off i,
    length-slice xs a off (omega arith),
    get_elem?-none s (i - (off - a)),
  )

  -- A slice that a write does not touch is unchanged.
  pub slice-overwrite_apart :
      (xs : List A) (a b off : ℕ) (s : List A)
      → off + length s ≤ length xs
      → (b ≤ off) ⊎ (off + length s ≤ a)
      → slice (overwrite xs off s) a b ≡ slice xs a b
  slice-overwrite_apart xs a b off s h apart = list_ext _ _ λ i. ground (
    arith,
    get_elem?-slice (overwrite xs off s) a b i,
    get_elem?-overwrite xs off s (a + i) h,
    get_elem?-slice xs a b i,
  )

  pub slice-append-slice :
      (xs : List A) (a b c : ℕ)
      → a ≤ b
      → b ≤ c
      → c ≤ length xs
      → slice xs a b ++ slice xs b c ≡ slice xs a c
  slice-append-slice xs a b c h k l = list_ext _ _ λ i. ground (
    arith,
    get_elem?-append (slice xs a b) (slice xs b c) i,
    length-slice xs a b (omega arith),
    get_elem?-slice xs a b i,
    get_elem?-slice xs b c (i - (b - a)),
    get_elem?-slice xs a c i,
  )

  -- The slice that a write fills.
  pub slice-overwrite_self :
      (xs : List A) (off : ℕ) (s : List A)
      → off + length s ≤ length xs
      → slice (overwrite xs off s) off (off + length s) ≡ s
  slice-overwrite_self xs off s h = list_ext _ _ λ i. ground (
    arith,
    get_elem?-slice (overwrite xs off s) off (off + length s) i,
    get_elem?-overwrite xs off s (off + i) h,
    get_elem?-none s i,
  )

  pub slice_empty : (xs : List A) (a : ℕ) → slice xs a a ≡ []
  slice_empty xs a = list_ext _ _ λ i. ground (arith, get_elem?-slice xs a a i)

  -- A sub-slice of a slice.
  pub slice-slice :
      (xs : List A) (a b c d : ℕ) → a + d ≤ b → slice (slice xs a b) c d ≡ slice xs (a + c) (a + d)
  slice-slice xs a b c d h = list_ext _ _ λ i. ground (
    arith,
    get_elem?-slice (slice xs a b) c d i,
    get_elem?-slice xs a b (c + i),
    get_elem?-slice xs (a + c) (a + d) i,
  )

  pub slice_all : (xs : List A) → slice xs 0 (length xs) ≡ xs
  slice_all xs =
      list_ext _ _ λ i. ground (arith, get_elem?-slice xs 0 (length xs) i, get_elem?-none xs i)

  pub take-slice :
      (xs : List A) (a b k : ℕ) → a + k ≤ b → take k (slice xs a b) ≡ slice xs a (a + k)
  take-slice xs a b k h = list_ext _ _ λ i. ground (
    arith,
    get_elem?-take k (slice xs a b) i,
    get_elem?-slice xs a b i,
    get_elem?-slice xs a (a + k) i,
  )

  pub drop-slice : (xs : List A) (a b k : ℕ) → drop k (slice xs a b) ≡ slice xs (a + k) b
  drop-slice xs a b k = list_ext _ _ λ i. ground (
    arith,
    get_elem?-drop k (slice xs a b) i,
    get_elem?-slice xs a b (k + i),
    get_elem?-slice xs (a + k) b i,
  )

  -- A slice inside what a write fills.
  pub slice-overwrite_inside :
      (xs : List A) (a b off : ℕ) (s : List A)
      → off + length s ≤ length xs
      → off ≤ a
      → b ≤ off + length s
      → slice (overwrite xs off s) a b ≡ slice s (a - off) (b - off)
  slice-overwrite_inside xs a b off s h k l = list_ext _ _ λ i. ground (
    arith,
    get_elem?-slice (overwrite xs off s) a b i,
    get_elem?-overwrite xs off s (a + i) h,
    get_elem?-slice s (a - off) (b - off) i,
  )

  pub overwrite_self : (xs : List A) → overwrite xs (length xs) [] ≡ xs
  overwrite_self xs =
      list_ext _ _ λ i. ground (arith, get_elem?-overwrite xs (length xs) [] i (omega arith))

  -- A copy inside the array, where all of it fits.
  pub copy_within_fits :
      (xs : List A) (target start end : ℕ)
      → start ≤ end
      → end ≤ length xs
      → target + (end - start) ≤ length xs
      → copy_within xs target start end ≡ overwrite xs target (slice xs start end)
  copy_within_fits xs target start end h k l =
      let to : min target (length xs) ≡ target = omega arith in
      let from : min start (length xs) ≡ start = omega arith in
      let till : start + min (min end (length xs) - start) (length xs - target) ≡ end =
        omega arith in
      rw (to, from, till)

  -- The gap made at `at` and filled with `p`: the bytes before it, `p`, the bytes after it.
  pub slice-copy-overwrite :
      (xs : List A) (a at p_end start end : ℕ) (p : List A)
      → a ≤ at
      → p_end ≡ at + length p
      → at ≤ start
      → start ≤ end
      → end ≤ length xs
      → p_end + (end - start) ≤ length xs
      → slice (overwrite (overwrite xs p_end (slice xs start end)) at p) a (p_end + (end - start))
        ≡ slice xs a at ++ (p ++ slice xs start end)
  slice-copy-overwrite xs a at p_end start end p h e k l m n = list_ext _ _ λ i. ground (
    arith,
    get_elem?-slice (overwrite (overwrite xs p_end (slice xs start end)) at p) a
        (p_end + (end - start)) i,
    get_elem?-overwrite (overwrite xs p_end (slice xs start end)) at p (a + i),
    get_elem?-overwrite xs p_end (slice xs start end) (a + i),
    length-overwrite xs p_end (slice xs start end),
    length-slice xs start end m,
    get_elem?-append (slice xs a at) (p ++ slice xs start end) i,
    length-slice xs a at (omega arith),
    get_elem?-append p (slice xs start end) (i - (at - a)),
    get_elem?-slice xs a at i,
    get_elem?-slice xs start end (i - (at - a) - length p),
  )

  get_elem?-set :
      (xs : List A) (i j : ℕ) (x : A)
      → i < length xs
      → get_elem? (set xs i x) j ≡ (if i == j then some x else get_elem? xs j)
  get_elem?-set xs i j x h = elim (ℕ_discrete i j) [
    | yes e ↦ ground (arith, get_elem?-set_self xs i x h)
    | no n ↦ ground (arith, get_elem?-set_ne xs x n)
  ]

  pub slice-set_extend :
      (xs : List A) (a i : ℕ) (x : A)
      → a ≤ i
      → i < length xs
      → slice (set xs i x) a (i + 1) ≡ slice xs a i ++ (x ∷ [])
  slice-set_extend xs a i x h k = list_ext _ _ λ j. ground (
    arith,
    get_elem?-slice (set xs i x) a (i + 1) j,
    get_elem?-set xs i (a + j) x k,
    get_elem?-append (slice xs a i) (x ∷ []) j,
    get_elem?-slice xs a i j,
    length-slice xs a i (omega arith),
    get_elem?-none (x ∷ []) (j - (i - a)),
  )

  pub slice-set_before :
      (xs : List A) (a b i : ℕ) (x : A)
      → b ≤ i
      → i < length xs
      → slice (set xs i x) a b ≡ slice xs a b
  slice-set_before xs a b i x h k = list_ext _ _ λ j. ground (
    arith,
    get_elem?-slice (set xs i x) a b j,
    get_elem?-set xs i (a + j) x k,
    get_elem?-slice xs a b j,
  )

  -- A write through a view of the array's end is a write to the array.
  pub overwrite-slice :
      (xs : List A) (off end : ℕ) (s : List A)
      → off ≤ end
      → end ≤ length xs
      → off + length s ≤ end
      → overwrite xs off (overwrite (slice xs off end) 0 s) ≡ overwrite xs off s
  overwrite-slice xs off end s h k l = list_ext _ _ λ i. ground (
    arith,
    length-slice xs off end k,
    length-overwrite (slice xs off end) 0 s,
    get_elem?-overwrite xs off (overwrite (slice xs off end) 0 s) i,
    get_elem?-overwrite (slice xs off end) 0 s (i - off),
    get_elem?-slice xs off end (i - off),
    get_elem?-overwrite xs off s i,
  )
