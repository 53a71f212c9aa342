-- ===== src/Ulog/Cursor.antt =====
-- The cursor of a log visits the rows that it holds.
use quickjab.Prelude.{
  ltb, leb, ℕ, suc, ◌+◌, ◌-◌, ◌^◌, ◌≤◌, ◌<◌, ◌≡◌, refl, ap, ◌∙◌, true, false, List, map, Option,
  some, arith, length,
}
use quickjab.Int.{ℤ, pos}
use quickjab.Outcome.{Outcome, ok, ◌>>=◌}
use quickjab.Bytes.{slice}
use quickjab.Bytes.Laws.{slice_all}
use quickjab.Abc.{Abc, IsLawful, U8b}
use quickjab.Net.Timers.{to_int32}
use quickjab.Arg.{number, whole, max_safe, off_of, data_length}
use quickjab.Arg.Numbers.{u64_of_iff}
use quickjab.Arg.Buffers.{data_idle_of}
use quickjab.Ulog.{
  row_range, Row, UlogLib, Log, next, next_leaf, as_view, int_value, minus_one, moved_to,
}
use quickjab.Ulog.Runs.{visit, visited, prepended}
use quickjab.Ulog.Rows.{IsUlogLib, IsRows, no_more, then_row, view_of-as_view}
use quickjab.Ulog.Scan.{drain_at}

module _ {encode : Row → List ℕ} {abc : Abc} {lib : UlogLib} (lawful : IsLawful abc)
    (codec : IsUlogLib encode lib) where
  off_of-whole : (len n : ℕ) → n ≤ len → len ≤ max_safe → off_of len (number (whole (pos n))) ≡ ok n
  unfolding off_of
  off_of-whole len n h m =
      rw ((u64_of_iff (number (whole (pos n))) n).1 (refl, omega (arith, h, m))) (ground (arith, h))

  abbrev whole_data : List ℕ → U8b
  whole_data mem = record { mem = mem; data_at = 0; idle_at = length mem }

  next_leaf_gates :
      (mem : List ℕ) (o dl : ℕ)
      → o ≤ length mem
      → dl ≤ length mem
      → length mem ≤ max_safe
      → next_leaf abc lib mem (number (whole (pos o))) (number (whole (pos dl)))
        ≡ row_range abc lib (whole_data mem) o dl
  unfolding next_leaf
  next_leaf_gates mem o dl a b m =
      let ov = number (whole (pos o)) in
      let dv = number (whole (pos dl)) in
      let range : U8b → ℕ → Outcome ℤ =
        λ c off. off_of (data_length c) dv >>= λ d. row_range abc lib c off d in
      let size : length mem - 0 ≡ length mem = omega arith in
      ap (λ k. k >>= λ c. off_of (data_length c) ov >>= range c)
        (data_idle_of lawful (as_view mem) _ (view_of-as_view encode lawful codec mem)).0
      ∙ ap (λ k. k >>= range (whole_data mem))
          (off_of-whole (length mem - 0) o (omega (arith, a)) (omega (arith, m)))
      ∙ ap (λ k. k >>= λ d. row_range abc lib (whole_data mem) o d)
          (off_of-whole (length mem - 0) dl (omega (arith, b)) (omega (arith, m)))

  range_row :
      (mem : List ℕ) (o dl : ℕ) (r : Row) (n : ℕ)
      → o < dl
      → dl ≤ length mem
      → dl < 2 ^ 31
      → lib.drain (slice mem o dl) ≡ (some r, n)
      → row_range abc lib (whole_data mem) o dl ≡ ok (pos (o + n))
  range_row mem o dl r n a b c d =
      let inside : leb dl o ≡ false = ground (arith, a) in
      let small : ltb 0xffffffff dl ≡ false = ground (arith, c) in
      let sub : lib.sub (slice mem 0 (length mem)) o dl ≡ some (slice mem o dl) =
        ap (λ s. lib.sub s o dl) (slice_all mem) ∙ codec.sub_fits mem o dl (omega (arith, a)) b in
      rw (inside, small, sub, d) refl

  range_end : (mem : List ℕ) (dl : ℕ) → row_range abc lib (whole_data mem) dl dl ≡ ok minus_one
  range_end mem dl = let outside : leb dl dl ≡ true = ground arith in rw outside refl

  int32_whole : (n : ℕ) → n < 2 ^ 31 → int_value n ≡ number (whole (pos n))
  int32_whole n h = ap (λ z. number (whole z)) (ground (arith, h))

  next_lem :
      (l : Log)
      → l.read ≤ l.watermark
      → l.watermark ≤ length l.mem
      → length l.mem ≤ max_safe
      → l.watermark < 2 ^ 31
      → next abc lib l
        ≡ moved_to (pos l.read) l (row_range abc lib (whole_data l.mem) l.read l.watermark)
  unfolding next
  next_lem l a b c d =
      let read_int : to_int32 l.read ≡ pos l.read = ground (arith, a, d) in
      ap (λ z. moved_to z l (next_leaf abc lib l.mem (number (whole z)) (int_value l.watermark)))
        read_int
      ∙ ap (λ v. moved_to (pos l.read) l (next_leaf abc lib l.mem (number (whole (pos l.read))) v))
          (int32_whole l.watermark d)
      ∙ ap (moved_to (pos l.read) l)
          (next_leaf_gates l.mem l.read l.watermark (omega (arith, a, b)) b c)

  -- The cursor of a log is here.
  abbrev cursor_at : List ℕ → ℕ → Option ℕ → ℤ → ℕ → Log
  cursor_at mem dl last z o = record {
    mem = mem;
    watermark = dl;
    read = o;
    rec = z;
    last_ts = last;
  }

  pub visit_rows :
      (mem : List ℕ) (dl : ℕ) (last : Option ℕ)
      → dl ≤ length mem
      → length mem ≤ max_safe
      → dl < 2 ^ 31
      → (z : ℤ) (o : ℕ) (rows : List (ℕ × Row)) → IsRows encode mem dl o rows
      → visit abc lib (suc (length rows)) (cursor_at mem dl last z o)
        ≡ some (map (λ (x : ℕ × Row). pos x.0) rows)
  unfolding visit
  visit_rows mem dl last a b c z _ _ no_more =
      let at = cursor_at mem dl last z dl in
      ap (λ r. visited abc lib r (visit abc lib 0))
        (next_lem at (omega arith) a b c ∙ ap (moved_to (pos dl) at) (range_end mem dl))
  visit_rows mem dl last a b c z _ _ (then_row o r {rest} h s more) =
      let at = cursor_at mem dl last z o in
      let n = codec.encode_some r in
      let d = drain_at abc codec mem dl o r h a s in
      let stepped : next abc lib at
          ≡ (ok true, cursor_at mem dl last (pos o) (o + length (encode r))) =
        next_lem at (omega (arith, h)) a b c
        ∙ ap (moved_to (pos o) at)
            (range_row mem o dl r (length (encode r)) (omega (arith, h, n)) a c d) in
      ap (λ r. visited abc lib r (visit abc lib (suc (length rest)))) stepped
      ∙ ap (prepended abc lib (pos o)) (visit_rows mem dl last a b c (pos o) _ rest more)
