-- ===== src/Tests/GateRuns.antt =====
-- Runs of the argument gates.
use quickjab.Prelude.{ℕ, ◌+◌, ◌≤◌, ◌≡◌, ◌↔◌, refl, [], ◌∷◌, some, arith, length}
use quickjab.Int.{pos}
use quickjab.Outcome.{ok}
use quickjab.Abc.{U8b}
use quickjab.Arg.{
  Array, BufArg, Double, Value, View, max_safe, view_on, view_of, u64_of, i64_of, u32_of, fd_of,
  u8_of, data_of, idle_of, data_length, buf_at, buf_fed, buf_of, buf_back, number, whole, buf_arg,
}
use quickjab.Arg.Buffers.{IsLayout, buf_at_iff, buf_of_iff, buf_of-buf_back}
use quickjab.Tests.Plain.{plain, plain-IsLawful}

-- The three bytes behind the first of a store of five.
abbrev window : Array
window = view_on (some (64, 1 ∷ 2 ∷ 3 ∷ 4 ∷ 5 ∷ [])) 1 3

abbrev window_view : View
window_view = record { base = 65; mem = 2 ∷ 3 ∷ 4 ∷ [] }

window_seen : view_of window ≡ ok window_view
unfolding view_of
window_seen = refl

abbrev num : ℕ → Value
num n = number (whole (pos n))

abbrev half_full : U8b
half_full = record { mem = 2 ∷ 3 ∷ 4 ∷ []; data_at = 1; idle_at = 2 }

half_full-IsLayout : IsLayout half_full
half_full-IsLayout = record { ordered = omega arith; within = omega arith }

buf_at_iff_example : (buf_at plain half_full (num 1) ≡ ok (record half_full { data_at = 2 })) ↔ (
    (n : ℕ) × (num 1 ≡ num n)
    × (n ≤ data_length half_full)
    × (record half_full { data_at = 2 } ≡ record half_full { data_at = 1 + n }))
buf_at_iff_example =
    buf_at_iff plain-IsLawful half_full (num 1) (record half_full { data_at = 2 })
      half_full-IsLayout (omega arith)

half_full_fed : buf_fed plain half_full (num 1) ≡ ok (record half_full { idle_at = 3 })
unfolding buf_fed u64_of quickjab.Arg.buf_fed_at
half_full_fed = refl

num_1 : u64_of (num 1) ≡ ok 1
unfolding u64_of
num_1 = refl

num_2 : u64_of (num 2) ≡ ok 2
unfolding u64_of
num_2 = refl

buf_of_iff_example :
    (buf_of plain (buf_arg (num 1) (num 2) window) ≡ ok half_full)
    ↔ ((1 ≤ 2) × (2 ≤ length window_view.mem))
buf_of_iff_example =
    buf_of_iff plain-IsLawful (num 1) (num 2) window window_view 1 2 window_seen num_1 num_2

buf_of-buf_back_example : buf_of plain (buf_back half_full window) ≡ ok half_full
buf_of-buf_back_example =
    buf_of-buf_back plain-IsLawful half_full window window_view half_full-IsLayout (omega arith)
      window_seen refl
