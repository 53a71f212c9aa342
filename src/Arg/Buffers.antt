-- ===== src/Arg/Buffers.antt =====
-- The buffer gates place the boundaries where the caller asked, inside the view, or throw.
use quickjab.Prelude.{
  ◌||◌, ◌⊎◌, ℕ, ◌+◌, ◌≤◌, ◌≡◌, refl, ◌↔◌, String, List, arith, ltb, if◌then◌else◌, inl, inr, length,
}
use quickjab.Int.{pos}
use quickjab.Outcome.{ok, err, Outcome-cases}
use quickjab.Abc.{Abc, IsLawful, U8b}
use quickjab.Arg.{
  Value, number, whole, max_safe, u64_of, Array, View, view_of, data_length, idle_length, off_of,
  buf_arg, data_of, idle_of, buf_at, buf_fed_at, buf_fed, buf_of, buf_back, cursors,
}
use quickjab.Arg.Numbers.{u64_of_iff}

-- The boundaries of an abc buffer are in order.
pub record IsLayout (b : U8b) : Type 0 where
  pub ordered : b.data_at ≤ b.idle_at
  pub within : b.idle_at ≤ length b.mem

in_order_iff :
    (d i n : ℕ) (c : U8b)
    → ((if ltb i d || ltb n i then err "the buffer's cursor is out of range" else ok c) ≡ ok c)
      ↔ ((d ≤ i) × (i ≤ n))
in_order_iff d i n c = (λ h. ground (arith, h), λ h. ground (arith, h))

module _ {abc : Abc} (lawful : IsLawful abc) where
  -- An array that can be viewed becomes a read source with the whole view as DATA, or a write target
  -- with the whole view as IDLE. The u8b calls behave as documented.
  pub data_idle_of :
      (arg : Array) (w : View)
      → view_of arg ≡ ok w
      → (data_of abc arg ≡ ok (record { mem = w.mem; data_at = 0; idle_at = length w.mem }))
        × (idle_of abc arg ≡ ok (record { mem = w.mem; data_at = 0; idle_at = 0 }))
  unfolding data_of idle_of
  data_idle_of arg w e = ground (
    arith,
    e,
    lawful.sane_layout (record { mem = w.mem; data_at = 0; idle_at = length w.mem }),
    lawful.sane_layout (record { mem = w.mem; data_at = 0; idle_at = 0 }),
  )

  buf_at_number :
      (b : U8b) (v : Value) {n : ℕ}
      → IsLayout b
      → u64_of v ≡ ok n
      → buf_at abc b v ≡ (
          if ltb (data_length b) n
          then err "offset is past the end of the buffer"
          else ok (record b { data_at = b.data_at + n }))
  unfolding buf_at off_of
  buf_at_number b v {n} l e = rw e (ground (arith, lawful.used_fits b n))

  buf_at_refused : (b : U8b) (v : Value) {x : String} → u64_of v ≡ err x → buf_at abc b v ≡ err x
  unfolding buf_at off_of
  buf_at_refused b v e = rw e

  -- In a buffer of at most 2^53 - 1 bytes with its boundaries in order, moving DATA to a JS-given
  -- offset succeeds exactly for a whole number inside DATA (its end included), and then turns just
  -- that many bytes into PAST. The u8b calls behave as documented.
  pub buf_at_iff :
      (b : U8b) (v : Value) (c : U8b)
      → IsLayout b
      → length b.mem ≤ max_safe
      → (buf_at abc b v ≡ ok c) ↔ (
          (n : ℕ) × (v ≡ number (whole (pos n)))
          × (n ≤ data_length b)
          × (c ≡ record b { data_at = b.data_at + n }))
  buf_at_iff b v c l small = (forth, back)
    where
      forth :
          buf_at abc b v ≡ ok c
          → (n : ℕ) × (v ≡ number (whole (pos n)))
            × (n ≤ data_length b)
            × (c ≡ record b { data_at = b.data_at + n })
      forth h = elim (Outcome-cases (u64_of v)) [
        | inl (n, e) ↦ (
          n,
          ((u64_of_iff v n).0 e).0,
          ground (arith, h, buf_at_number b v l e),
          ground (arith, h, buf_at_number b v l e),
        )
        | inr (x, e) ↦ absurd (ground (arith, h, buf_at_refused b v e))
      ]

      back :
          (n : ℕ) × (v ≡ number (whole (pos n)))
            × (n ≤ data_length b)
            × (c ≡ record b { data_at = b.data_at + n })
          → buf_at abc b v ≡ ok c
      back h =
          ground (arith, h, buf_at_number b v {n = h.0} l ((u64_of_iff v h.0).1 (h.1, omega arith)))

  pub buf_fed_number :
      (b : U8b) (v : Value) {n : ℕ}
      → IsLayout b
      → u64_of v ≡ ok n
      → buf_fed abc b v ≡ (
          if ltb (idle_length b) n
          then err "offset is past the end of the buffer"
          else ok (record b { idle_at = b.idle_at + n }))
  unfolding buf_fed buf_fed_at
  buf_fed_number b v {n} l e = rw e (ground (arith, lawful.fed_fits b n))

  -- What the write-side gate and the read-side gate leave, where they accept a whole number, is in
  -- order if it was before, and neither touches a byte. The u8b calls behave as documented.
  gates-IsLayout :
      (b : U8b) (n : ℕ) {c : U8b}
      → IsLayout b
      → n ≤ max_safe
      → (buf_fed abc b (number (whole (pos n))) ≡ ok c)
        ⊎ (buf_at abc b (number (whole (pos n))) ≡ ok c)
      → IsLayout c × (c.mem ≡ b.mem)
  gates-IsLayout b n l small e =
      let num = (u64_of_iff (number (whole (pos n))) n).1 (refl, small) in
      ground (
        arith,
        e,
        buf_fed_number b (number (whole (pos n))) l num,
        buf_at_number b (number (whole (pos n))) l num,
      )

  cursors_lem :
      (mem : List ℕ) (d i : ℕ)
      → cursors abc (record { mem = mem; data_at = 0; idle_at = 0 }) d i ≡ (
          if ltb i d || ltb (length mem) i
          then err "the buffer's cursor is out of range"
          else ok (record { mem = mem; data_at = d; idle_at = i }))
  cursors_lem mem d i =
      let b : U8b = record { mem = mem; data_at = 0; idle_at = 0 } in
      let fed : U8b = record { mem = mem; data_at = 0; idle_at = 0 + i } in
      ground (arith, lawful.fed_fits b i, lawful.fed_past b i, lawful.used_fits fed d)

  -- A JS Buf whose array can be viewed and whose two cursors pass the number gate is accepted, with
  -- just those boundaries, exactly when DATA ≤ IDLE ≤ the end of the array. The u8b calls behave as
  -- documented.
  pub buf_of_iff :
      (dv iv : Value) (bytes : Array) (w : View) (d i : ℕ)
      → view_of bytes ≡ ok w
      → u64_of dv ≡ ok d
      → u64_of iv ≡ ok i
      → (buf_of abc (buf_arg dv iv bytes) ≡ ok (record { mem = w.mem; data_at = d; idle_at = i }))
        ↔ ((d ≤ i) × (i ≤ length w.mem))
  unfolding buf_of
  buf_of_iff dv iv bytes w d i ew ed ei =
      rw (ed, ei, (data_idle_of bytes w ew).1, cursors_lem w.mem d i)
        (in_order_iff d i (length w.mem) (record { mem = w.mem; data_at = d; idle_at = i }))

  -- What JABCBufBack writes to the JS object is read back as the same buffer, if its boundaries are in
  -- order and the array still views its bytes, at most 2^53 - 1. The u8b calls behave as documented.
  pub buf_of-buf_back :
      (b : U8b) (bytes : Array) (w : View)
      → IsLayout b
      → length b.mem ≤ max_safe
      → view_of bytes ≡ ok w
      → w.mem ≡ b.mem
      → buf_of abc (buf_back b bytes) ≡ ok b
  unfolding buf_back
  buf_of-buf_back b bytes w l small e same = rw same at (
      (buf_of_iff _ _ bytes w b.data_at b.idle_at e ((u64_of_iff _ b.data_at).1 (refl, omega arith))
          ((u64_of_iff _ b.idle_at).1 (refl, omega arith))).1
        (l.ordered, rw same l.within))
