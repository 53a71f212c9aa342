-- ===== src/Cont/Close.antt =====
-- What `abc.close` leaves of a booked file.
use quickjab.Prelude.{
  sym, ℕ, ◌*◌, ◌^◌, ◌<◌, ◌≡◌, refl, ap, ◌∙◌, true, List, [], ◌∷◌, some, String, arith,
}
use quickjab.Outcome.{Outcome, ok, err, ◌>>=◌}
use quickjab.Int.{pos}
use quickjab.Net.Timers.{to_int32}
use quickjab.Abc.{Abc}
use quickjab.Heap.{LaneArray}
use quickjab.Hash.{HashLib, HashLane}
use quickjab.Cont.{
  u8, u16, u32, u64, kv32, kv64, wh64, wh128, sha1, sha256, hunk, ulog, cfold, unknown, fresh,
  truncated, trimmed, trim_as, LaneName, Family, heap_of, hash_of, Container, Io, msync, truncate,
  munmap, Verb, slot_bytes, trim_of, book, close, verbs, put, get, del, detached, build,
  element_count,
}

-- The bytes in use that a watermark stands for: its elements on a HEAP, and itself elsewhere.
abbrev pub used_bytes : Family → ℕ → ℕ
used_bytes (heap_of l) n = n * slot_bytes l
used_bytes f n = n

int32_small : (n : ℕ) → n < 2 ^ 31 → to_int32 n ≡ pos n
int32_small n h = ground (arith, h)

trim_of_used : (f : Family) (n : ℕ) → trim_as f (pos n) ≡ some (used_bytes f n)
trim_of_used (heap_of u8) n = ap some (omega arith)
trim_of_used (heap_of u16) n = ap some (omega arith)
trim_of_used (heap_of u32) n = ap some (omega arith)
trim_of_used (heap_of u64) n = ap some (omega arith)
trim_of_used (heap_of kv32) n = ap some (omega arith)
trim_of_used (heap_of kv64) n = ap some (omega arith)
trim_of_used (heap_of wh64) n = ap some (omega arith)
trim_of_used (heap_of wh128) n = ap some (omega arith)
trim_of_used (heap_of sha1) n = ap some (omega arith)
trim_of_used (heap_of sha256) n = ap some (omega arith)
trim_of_used (hash_of l) n = refl
trim_of_used hunk n = refl
trim_of_used ulog n = refl
trim_of_used cfold n = refl
trim_of_used unknown n = refl

-- Closing an attached, booked container whose watermark is below 2^31 flushes its mapping, cuts the
-- file to the bytes that the watermark stands for, unmaps it and detaches the views, in this order;
-- closing it again calls nothing. The truncation succeeds.
pub close_booked :
    (io : Io) (c : Container) (path : String)
    → c.watermark < 2 ^ 31
    → io.truncate path (used_bytes c.family c.watermark) ≡ ok tt
    → let booked : Container = record c { path = some path; attached = true } in
      (close io booked ≡ (
        ok tt,
        detached io booked,
        msync ∷ truncate path (used_bytes c.family c.watermark) ∷ munmap ∷ [],
      ))
      × (close io (detached io booked) ≡ (ok tt, detached io booked, []))
unfolding close trim_of
close_booked io c path m t =
    let booked : Container = record c { path = some path; attached = true } in
    let n = used_bytes c.family c.watermark in
    let e : trim_of booked ≡ some n =
      ap (trim_as c.family) (int32_small c.watermark m) ∙ trim_of_used c.family c.watermark in
    (
      ap (λ o. trimmed io (some path) o (detached io booked)) e
          ∙ ap (truncated io path n (detached io booked)) t,
      refl,
    )

verbs_same :
    {A : Type 0} (abc : Abc) (lane : HashLane) (lib : HashLib A) (vs : List (Verb A))
    (arr : LaneArray A) (c : Container)
    → (verbs abc lane lib vs (arr, c)).1 ≡ c
unfolding verbs
verbs_same abc lane lib [] arr c = refl
verbs_same abc lane lib (put v ∷ vs) arr c = verbs_same abc lane lib vs _ c
verbs_same abc lane lib (get v ∷ vs) arr c = verbs_same abc lane lib vs _ c
verbs_same abc lane lib (del v ∷ vs) arr c = verbs_same abc lane lib vs _ c

abbrev booked_hash : LaneName → String → ℕ → ℕ → Container
booked_hash l path m n = record (fresh (hash_of l) m n) { path = some path }

counted :
    (l : LaneName) (path : String) (m : ℕ) (o : Outcome ℕ) (c : Container)
    → ((o >>= λ n. ok (fresh (hash_of l) m n)) >>= λ c. ok (record c { path = some path })) ≡ ok c
    → (n : ℕ) × (c ≡ booked_hash l path m n)
counted l path m (ok n) c e = (n, let f : booked_hash l path m n ≡ c = cc e in sym f)
counted l path m (err x) c e = absurd (cc e)

mapped :
    (l : LaneName) (path : String) (o : Outcome ℕ) (c : Container)
    → (o >>= λ m. build (hash_of l) 0 m >>= λ c. ok (record c { path = some path })) ≡ ok c
    → (m n : ℕ) × (c ≡ booked_hash l path m n)
unfolding build
mapped l path (ok m) c e = let (n, f) = counted l path m (element_count l 0 m) c e in (m, n, f)
mapped l path (err x) c e = absurd (cc e)

-- Whatever is put into a booked HASH container, looked up and deleted, closing it cuts its file to no
-- bytes at all. The mapping and the truncation succeed.
pub close_booked_hash_empties :
    {A : Type 0} (io : Io) (abc : Abc) (lane : HashLane) (lib : HashLib A) (l : LaneName)
    (path : String) (slots : ℕ) (c : Container) (arr : LaneArray A) (vs : List (Verb A))
    → book io (hash_of l) path slots ≡ ok c
    → io.truncate path 0 ≡ ok tt
    → (close io (verbs abc lane lib vs (arr, c)).1).2 ≡ msync ∷ truncate path 0 ∷ munmap ∷ []
unfolding book close verbs
close_booked_hash_empties io abc lane lib l path slots c arr vs b t =
    let (m, n, e) = mapped l path _ c b in
    ap (λ d. (close io d).2) (verbs_same abc lane lib vs arr c ∙ e)
    ∙ ap (λ r. r.2) (close_booked io (fresh (hash_of l) m n) path (omega arith) t).0
