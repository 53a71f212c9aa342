-- ===== src/Buf/Io/Whole.antt =====
-- The loops pass on whole and in order what the kernel takes and gives.
use quickjab.Prelude.{
  ℕ, ◌+◌, ◌≤◌, ◌≡◌, refl, sym, ap, ◌∙◌, List, [], ◌∷◌, ◌++◌, append_assoc, append-nil, arith,
  if_cases, length, length-append, take, drop, take-append-drop, length-take, ◌==◌,
}
use quickjab.Bytes.Laws.{drop-slice, slice-overwrite_extend, length-overwrite}
use quickjab.Buf.{size, room, data_view}
use quickjab.Buf.Inv.{IsBuf}
use quickjab.Buf.Refine.{live_length}
use quickjab.Buf.Io.{
  Written, wrote, write_again, write_failed, Gotten, read_bytes, read_again, read_failed, End, Job,
  wrote_some, write_all, read_some, read_all,
}

-- What went out and what waits are, in this order, what there was; the total counts what went out.
pub record Moves (i j : Job) : Type 0 where
  pub valid : IsBuf j.buf
  pub in_order : j.passed ++ data_view j.buf ≡ i.passed ++ data_view i.buf
  pub counted : j.total + length i.passed ≡ i.total + length j.passed

-- What came in is behind what there was.
pub record Fills (i j : Job) : Type 0 where
  pub valid : IsBuf j.buf
  pub came : List ℕ
  pub in_order : data_view j.buf ≡ data_view i.buf ++ came
  pub logged : j.passed ≡ i.passed ++ came
  pub counted : j.total ≡ i.total + length came

-- write(2) takes no more than it is given, read(2) gives no more than there is room for.
abbrev pub WritesFit : List Written → Job → Type 0
WritesFit [] j = Unit
WritesFit (wrote n ∷ k) j = (n ≤ size j.buf) × WritesFit k (wrote_some n j)
WritesFit (write_again ∷ k) j = WritesFit k j
WritesFit (write_failed e ∷ k) j = Unit

abbrev pub ReadsFit : List Gotten → Job → Type 0
ReadsFit [] j = Unit
ReadsFit (read_bytes x ∷ k) j = (length x ≤ room j.buf) × ReadsFit k (read_some x j)
ReadsFit (read_again ∷ k) j = ReadsFit k j
ReadsFit (read_failed e ∷ k) j = Unit

Moves-refl : (j : Job) → IsBuf j.buf → Moves j j
Moves-refl j v = record { valid = v; in_order = refl; counted = refl }

Moves-wrote_some :
    (i j : Job) (n : ℕ) → IsBuf i.buf → n ≤ size i.buf → Moves (wrote_some n i) j → Moves i j
Moves-wrote_some i j n v h m = record {
  valid = m.valid;
  in_order =
      m.in_order
      ∙ ap (λ l. (i.passed ++ take n (data_view i.buf)) ++ l)
          (sym (drop-slice (i.buf).bytes (i.buf).data_at (i.buf).idle_at n))
      ∙ append_assoc i.passed (take n (data_view i.buf)) (drop n (data_view i.buf))
      ∙ ap (λ l. i.passed ++ l) (take-append-drop n (data_view i.buf));
  counted = omega (
    arith,
    m.counted,
    length-append i.passed (take n (data_view i.buf)),
    length-take n (data_view i.buf),
    live_length v,
  );
}

wrote_some-IsBuf : (j : Job) (n : ℕ) → IsBuf j.buf → n ≤ size j.buf → IsBuf (wrote_some n j).buf
wrote_some-IsBuf j n v h = ground arith

-- io.writeAll on a well-formed Buf, for every sequence of answers of a write(2) that takes no more
-- than it is given: what went out followed by what still waits is what waited before, nothing lost
-- or repeated, also where a write throws; and the total is the count of bytes that went out.
pub write_all-Moves :
    (k : List Written) (j : Job) → IsBuf j.buf → WritesFit k j → Moves j (write_all k j).0
unfolding write_all
write_all-Moves [] j v h =
    if_cases (λ (r : Job × End). Moves j r.0) (size j.buf == 0) (λ e. Moves-refl j v)
      (λ e. Moves-refl j v)
write_all-Moves (write_again ∷ k) j v h =
    if_cases (λ (r : Job × End). Moves j r.0) (size j.buf == 0) (λ e. Moves-refl j v)
      (λ e. write_all-Moves k j v h)
write_all-Moves (write_failed x ∷ k) j v h =
    if_cases (λ (r : Job × End). Moves j r.0) (size j.buf == 0) (λ e. Moves-refl j v)
      (λ e. Moves-refl j v)
write_all-Moves (wrote n ∷ k) j v h =
    if_cases (λ (r : Job × End). Moves j r.0) (size j.buf == 0) (λ e. Moves-refl j v)
      (λ e.
        if_cases (λ (r : Job × End). Moves j r.0) (n == 0) (λ z. Moves-refl j v)
          (λ z.
            Moves-wrote_some j _ n v h.0
              (write_all-Moves k (wrote_some n j) (wrote_some-IsBuf j n v h.0) h.1)))

Fills-refl : (j : Job) → IsBuf j.buf → Fills j j
Fills-refl j v = record {
  valid = v;
  came = [];
  in_order = sym (append-nil (data_view j.buf));
  logged = sym (append-nil j.passed);
  counted = omega arith;
}

read_some-IsBuf :
    (j : Job) (x : List ℕ) → IsBuf j.buf → length x ≤ room j.buf → IsBuf (read_some x j).buf
read_some-IsBuf j x v h = ground (arith, length-overwrite (j.buf).bytes (j.buf).idle_at x)

read_some_view :
    (j : Job) (x : List ℕ)
    → IsBuf j.buf
    → length x ≤ room j.buf
    → data_view (read_some x j).buf ≡ data_view j.buf ++ x
read_some_view j x v h =
    ground (arith, slice-overwrite_extend (j.buf).bytes (j.buf).data_at (j.buf).idle_at x)

Fills-read_some :
    (i j : Job) (x : List ℕ)
    → IsBuf i.buf
    → length x ≤ room i.buf
    → Fills (read_some x i) j
    → Fills i j
Fills-read_some i j x v h m = record {
  valid = m.valid;
  came = x ++ m.came;
  in_order =
      m.in_order
      ∙ ap (λ l. l ++ m.came) (read_some_view i x v h)
      ∙ append_assoc (data_view i.buf) x m.came;
  logged = m.logged ∙ append_assoc i.passed x m.came;
  counted = omega (arith, m.counted, length-append x m.came);
}

-- io.readAll on a well-formed Buf, for every sequence of answers of a read(2) that gives no more
-- than there is room for: what is in DATA is what was there followed by all the bytes that came in,
-- in order, also where a read throws; and the total is their count.
pub read_all-Fills :
    (k : List Gotten) (j : Job) → IsBuf j.buf → ReadsFit k j → Fills j (read_all k j).0
unfolding read_all
read_all-Fills [] j v h =
    if_cases (λ (r : Job × End). Fills j r.0) (room j.buf == 0) (λ e. Fills-refl j v)
      (λ e. Fills-refl j v)
read_all-Fills (read_again ∷ k) j v h =
    if_cases (λ (r : Job × End). Fills j r.0) (room j.buf == 0) (λ e. Fills-refl j v)
      (λ e. read_all-Fills k j v h)
read_all-Fills (read_failed x ∷ k) j v h =
    if_cases (λ (r : Job × End). Fills j r.0) (room j.buf == 0) (λ e. Fills-refl j v)
      (λ e. Fills-refl j v)
read_all-Fills (read_bytes x ∷ k) j v h =
    if_cases (λ (r : Job × End). Fills j r.0) (room j.buf == 0) (λ e. Fills-refl j v)
      (λ e.
        if_cases (λ (r : Job × End). Fills j r.0) (length x == 0) (λ z. Fills-refl j v)
          (λ z.
            Fills-read_some j _ x v h.0
              (read_all-Fills k (read_some x j) (read_some-IsBuf j x v h.0) h.1)))
