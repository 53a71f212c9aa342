-- ===== src/Hash/Shape.antt =====
-- The test `n & (n - 1)` of hash.c lets through the powers of two.
use quickjab.Prelude.{
  ℕ, zero, suc, ◌+◌, ◌-◌, ◌*◌, ◌/◌, ◌%◌, ◌^◌, ◌≤◌, ◌<◌, ◌≡◌, refl, ◌↔◌, ◌⊎◌, inl, inr, true, not,
  ◌||◌, arith, ltb, ◌==◌, Bool-cases, subst, ltb→lt,
}
use quickjab.Hash.{bit_and, is_table}

pub pow_pos : (w : ℕ) → 0 < 2 ^ w
pow_pos zero = omega arith
pow_pos (suc w) = omega (arith, pow_pos w)

pub pow_grows : (a d : ℕ) → 2 ^ a ≤ 2 ^ (a + d)
pow_grows a zero = let e : a + 0 ≡ a = omega arith in rw e (omega arith)
pow_grows a (suc d) =
    let e : a + suc d ≡ suc (a + d) = omega arith in rw e (omega (arith, pow_grows a d))

pub pow_lt→lt : (a b : ℕ) → 2 ^ a < 2 ^ b → a < b
pow_lt→lt a b h = elim (Bool-cases (ltb a b)) [
  | inl e ↦ ltb→lt a b e
  | inr e ↦
      let back : b + (a - b) ≡ a = ground (arith, e) in
      let g : 2 ^ b ≤ 2 ^ a = subst (λ k. 2 ^ b ≤ 2 ^ k) back (pow_grows b (a - b)) in
      absurd (omega (arith, h, g))
]

halves : (n : ℕ) → (n % 2 ≡ 0) ⊎ (n % 2 ≡ 1)
halves n = elim (Bool-cases (n % 2 == 0)) [
  | inl e ↦ inl (ground (arith, e))
  | inr e ↦ inr (ground (arith, e))
]

bit_and_self : (w n : ℕ) → n < 2 ^ w → bit_and w n n ≡ n
unfolding bit_and
bit_and_self zero n h = omega (arith, h)
bit_and_self (suc w) n h =
    let e = bit_and_self w (n / 2) (omega (arith, h)) in
    elim (halves n) [ inl d ↦ rw (d, e) (omega (arith, d)) | inr d ↦ rw (d, e) (omega (arith, d)) ]

bit_and_pred_sound : (w n : ℕ) → 0 < n → n < 2 ^ w → bit_and w n (n - 1) ≡ 0 → (k : ℕ) × (n ≡ 2 ^ k)
unfolding bit_and
bit_and_pred_sound zero n p h e = absurd (omega (arith, p, h))
bit_and_pred_sound (suc w) n p h e = elim (halves n) [
  | inl d ↦
      let f : (n - 1) / 2 ≡ n / 2 - 1 = omega (arith, d) in
      let g : n % 2 * ((n - 1) % 2) + 2 * bit_and w (n / 2) (n / 2 - 1) ≡ 0 = rw f at e in
      let (k, i) =
        bit_and_pred_sound w (n / 2) (omega (arith, p, d)) (omega (arith, h)) (omega (arith, g)) in
      (suc k, omega (arith, i, d))
  | inr d ↦
      let f : (n - 1) / 2 ≡ n / 2 = omega (arith, d) in
      let g : n % 2 * ((n - 1) % 2) + 2 * bit_and w (n / 2) (n / 2) ≡ 0 = rw f at e in
      (0, omega (arith, g, bit_and_self w (n / 2) (omega (arith, h)), d))
]

bit_and_pred_complete : (w k : ℕ) → k < w → bit_and w (2 ^ k) (2 ^ k - 1) ≡ 0
unfolding bit_and
bit_and_pred_complete zero k h = refl
bit_and_pred_complete (suc w) zero h = omega (arith, bit_and_self w 0 (pow_pos w))
bit_and_pred_complete (suc w) (suc k) h =
    let e = bit_and_pred_complete w k (omega (arith, h)) in
    let f : 2 ^ suc k / 2 ≡ 2 ^ k = omega arith in
    let g : (2 ^ suc k - 1) / 2 ≡ 2 ^ k - 1 = omega arith in
    let z : 2 ^ suc k % 2 ≡ 0 = omega arith in rw (f, g, z, e) (omega arith)

both_iff : (n b : ℕ) → (not (ltb n 16 || not (b == 0)) ≡ true) ↔ ((16 ≤ n) × (b ≡ 0))
both_iff n b = (λ e. (ground (arith, e), ground (arith, e)), λ e. ground (arith, e))

-- The table check of hash.c lets a count of slots through exactly when it is a power of two and at
-- least 16, for any count below 2^64.
pub is_table_iff : (n : ℕ) → n < 2 ^ 64 → (is_table n ≡ true) ↔ ((k : ℕ) × (4 ≤ k) × (n ≡ 2 ^ k))
unfolding is_table
is_table_iff n h = (
  λ e.
      let (line, z) = (both_iff n (bit_and 64 n (n - 1))).0 e in
      let (k, f) = bit_and_pred_sound 64 n (omega (arith, line)) h z in
      let above : 2 ^ 3 < 2 ^ k = omega (arith, f, line) in (k, pow_lt→lt 3 k above, f),
  λ (k, m, f).
      let below : 2 ^ k < 2 ^ 64 = omega (arith, h, f) in
      let e = bit_and_pred_complete 64 k (pow_lt→lt k 64 below) in
      let back : 4 + (k - 4) ≡ k = omega (arith, m) in
      let line : 2 ^ 4 ≤ 2 ^ k = subst (λ j. 2 ^ 4 ≤ 2 ^ j) back (pow_grows 4 (k - 4)) in
      rw f ((both_iff (2 ^ k) (bit_and 64 (2 ^ k) (2 ^ k - 1))).1 (omega (arith, line), e)),
)
