-- ===== src/Cont/Size.antt =====
-- How large a HASH container is made, and that hash.c takes it.
use quickjab.Prelude.{
  ap, ℕ, zero, suc, ◌+◌, ◌*◌, ◌/◌, ◌^◌, ◌≤◌, ◌<◌, ◌≡◌, refl, ◌∙◌, ◌⊎◌, inl, inr, true, arith, ltb,
  Bool-cases,
}
use quickjab.Outcome.{ok}
use quickjab.Cont.{
  LaneName, u8, u16, u32, u64, kv32, kv64, wh64, wh128, sha1, sha256, hash_of, slot_bytes,
  double_up, pow2up, bytes,
}
use quickjab.Cont.Lanes.{element_size, element_size-slot_bytes}
use quickjab.Hash.{is_table}
use quickjab.Hash.Shape.{is_table_iff, pow_pos}

double_up_lem :
    (fuel k n : ℕ)
    → n ≤ 2 ^ k + fuel
    → (j : ℕ) × (double_up fuel (2 ^ k) n ≡ 2 ^ j)
      × (k ≤ j)
      × (n ≤ 2 ^ j)
      × ((2 ^ j ≡ 2 ^ k) ⊎ (2 ^ j < 2 * n))
unfolding double_up
double_up_lem zero k n h = (k, refl, omega arith, omega (arith, h), inl refl)
double_up_lem (suc fuel) k n h = elim (Bool-cases (ltb (2 ^ k) n)) [
  | inr e ↦ (k, rw e refl, omega arith, ground (arith, e), inl refl)
  | inl e ↦
      let twice : 2 ^ k * 2 ≡ 2 ^ suc k = omega arith in
      let (j, f, g, m, c) = double_up_lem fuel (suc k) n (omega (arith, h, pow_pos k)) in
      (
        j,
        rw (e, twice) f,
        omega (arith, g),
        m,
        inr (elim c [ inl d ↦ ground (arith, d, e) | inr d ↦ d ]),
      )
]

-- The slots of a HASH container are the least power of two that is at least 16 and at least what is
-- asked for: the loop of `pow2up` ends with one, and half of it would be less than 16 or not enough.
pub pow2up_least :
    (n : ℕ)
    → (j : ℕ) × (pow2up n ≡ 2 ^ j) × (4 ≤ j) × (n ≤ 2 ^ j) × ((2 ^ j ≡ 16) ⊎ (2 ^ j < 2 * n))
unfolding pow2up
pow2up_least n = double_up_lem n 4 n (omega arith)

whole_slots :
    (l : LaneName) (slots : ℕ)
    → (n : ℕ) × (bytes (hash_of l) slots ≡ ok n) × (n / slot_bytes l ≡ pow2up slots)
unfolding bytes
whole_slots u8 slots = (_, refl, omega arith)
whole_slots u16 slots = (_, refl, omega arith)
whole_slots u32 slots = (_, refl, omega arith)
whole_slots u64 slots = (_, refl, omega arith)
whole_slots kv32 slots = (_, refl, omega arith)
whole_slots kv64 slots = (_, refl, omega arith)
whole_slots wh64 slots = (_, refl, omega arith)
whole_slots wh128 slots = (_, refl, omega arith)
whole_slots sha1 slots = (_, refl, omega arith)
whole_slots sha256 slots = (_, refl, omega arith)

-- Up to 2^62 slots of any lane, the bytes that cont.c asks for a HASH container hold, in elements of
-- the size that hash.c gives them, a count of slots that is not less than what the caller asks for,
-- and that the table check of hash.c accepts.
pub bytes-is_table :
    (l : LaneName) (slots : ℕ)
    → slots ≤ 2 ^ 62
    → (n : ℕ) × (bytes (hash_of l) slots ≡ ok n)
      × (slots ≤ n / element_size l)
      × (is_table (n / element_size l) ≡ true)
bytes-is_table l slots h =
    let (n, e, f) = whole_slots l slots in
    let c : n / element_size l ≡ pow2up slots = ap (λ k. n / k) (element_size-slot_bytes l) ∙ f in
    let (j, g, line, m, tight) = pow2up_least slots in
    let small : 2 ^ j < 2 ^ 64 = elim tight [
      | inl a ↦ omega (arith, a)
      | inr a ↦ omega (arith, a, h)
    ] in
    (n, e, omega (arith, c, g, m), rw (c ∙ g) ((is_table_iff (2 ^ j) small).1 (j, line, refl)))
