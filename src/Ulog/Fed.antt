-- ===== src/Ulog/Fed.antt =====
-- What is fed to a log is what its cursor visits.
use mathlib.Core.List.{map-map}
use quickjab.Prelude.{
  ◌%◌, length-map, ℕ, suc, ◌^◌, ◌≤◌, ◌<◌, ◌≡◌, refl, sym, ap, ap₂, ◌∙◌, List, [], ◌∷◌, ◌++◌, map,
  Option, none, some, arith, length, subst, append_assoc, append-nil,
}
use quickjab.Int.{pos}
use quickjab.Outcome.{Outcome, ok, err}
use quickjab.Abc.{Abc, IsLawful}
use quickjab.Arg.{max_safe}
use quickjab.Ulog.{Row, UlogLib, Log, asked_time, monotonic, feed, rewind, minus_one}
use quickjab.Ulog.Runs.{visit, feed_all, with_offset, fed_then, IsRising}
use quickjab.Ulog.Cursor.{visit_rows}
use quickjab.Ulog.Rows.{IsUlogLib, no_more, IsLog, feed_lem}

module _ {encode : Row → List ℕ} {abc : Abc} {lib : UlogLib} (lawful : IsLawful abc)
    (codec : IsUlogLib encode lib) where
  later : (last : ℕ) (t : ℕ) → last < monotonic (some last) t
  unfolding monotonic
  later last t = ground arith

  IsRising-cons :
      (last : Option ℕ) (asked o : ℕ) (r : Row) (rows : List (ℕ × Row))
      → r.ts ≡ monotonic last asked % 2 ^ 64
      → IsRising (some (monotonic last asked)) rows
      → IsRising last ((o, r) ∷ rows)
  IsRising-cons none asked o r rows e h = (monotonic none asked, e, h)
  IsRising-cons (some last) asked o r rows e h =
      (monotonic (some last) asked, e, later last asked, h)

  abbrev IsFed : Log → List (ℕ × Row) → List ℕ → Log → Type 0
  IsFed l rows os g =
      (more : List (ℕ × Row)) × IsLog encode g (rows ++ more)
      × (map (λ (x : ℕ × Row). x.0) more ≡ os)
      × IsRising l.last_ts more

  -- The feeds of a list from any log, as a hypothesis.
  abbrev IsFeeding : ℕ → List (List ℕ × List ℕ × Option ℕ) → Type 0
  IsFeeding path_max es =
      (l g : Log) (os : List ℕ) (rows : List (ℕ × Row))
      → IsLog encode l rows
      → feed_all abc lib path_max es l ≡ (ok os, g)
      → IsFed l rows os g

  IsFed-cons :
      (l k g : Log) (o : ℕ) (r : Row) (t : ℕ) (ps : List ℕ) (rows : List (ℕ × Row))
      → r.ts ≡ monotonic l.last_ts t % 2 ^ 64
      → o ≡ l.watermark
      → k.last_ts ≡ some (monotonic l.last_ts t)
      → IsFed k (rows ++ ((l.watermark, r) ∷ [])) ps g
      → IsFed l rows (o ∷ ps) g
  IsFed-cons l k g o r t ps rows e at last (rest, m, same, rising) = (
    (l.watermark, r) ∷ rest,
    subst (IsLog encode g) (append_assoc rows ((l.watermark, r) ∷ []) rest) m,
    ap₂ ◌∷◌ (sym at) same,
    IsRising-cons l.last_ts t l.watermark r rest e (subst (λ x. IsRising x rest) last rising),
  )

  feed_more :
      (l k g : Log) (o : ℕ) (os : List ℕ) (rows : List (ℕ × Row)) (r : Outcome (List ℕ) × Log)
      → ((ps : List ℕ) → r ≡ (ok ps, g) → IsFed l rows (o ∷ ps) g)
      → with_offset abc lib o r ≡ (ok os, g)
      → IsFed l rows os g
  feed_more l k g o os rows (err x, n) more f =
      let c : Outcome.err x ≡ ok os = ap (λ p. p.0) f in absurd (cc c)
  feed_more l k g o os rows (ok ps, n) more f =
      let c : Outcome.ok (o ∷ ps) ≡ ok os = ap (λ p. p.0) f in
      let all : o ∷ ps ≡ os = cc c in
      let h : n ≡ g = ap (λ p. p.1) f in
      subst (λ qs. IsFed l rows qs g) all (more ps (ap (λ m. (ok ps, m)) h))

  feed_one :
      (path_max : ℕ) (verb uri : List ℕ) (ts : Option ℕ) (es : List (List ℕ × List ℕ × Option ℕ))
      (l g : Log) (os : List ℕ) (rows : List (ℕ × Row)) (r : Outcome ℕ × Log)
      → IsFeeding path_max es
      → IsLog encode l rows
      → feed abc lib path_max verb uri ts l ≡ r
      → fed_then abc lib r (feed_all abc lib path_max es) ≡ (ok os, g)
      → IsFed l rows os g
  feed_one path_max verb uri ts es l g os rows (err x, k) all i d f =
      let c : Outcome.err x ≡ ok os = ap (λ p. p.0) f in absurd (cc c)
  feed_one path_max verb uri ts es l g os rows (ok o, k) all i d f =
      let (r, t, at, j, last) = feed_lem encode lawful codec path_max verb uri ts l k o rows i d in
      feed_more l k g o os rows (feed_all abc lib path_max es k)
        (λ ps e.
          IsFed-cons l k g o r (asked_time abc lib ts) ps rows t at last
            (all k g ps (rows ++ ((l.watermark, r) ∷ [])) j e))
        f

  feed_all_lem : (path_max : ℕ) (es : List (List ℕ × List ℕ × Option ℕ)) → IsFeeding path_max es
  unfolding feed_all
  feed_all_lem path_max [] l g os rows i e =
      let f : Outcome.ok [] ≡ ok os = ap (λ p. p.0) e in
      let same : [] ≡ os = cc f in
      let h : l ≡ g = ap (λ p. p.1) e in
      ([], subst (λ k. IsLog encode k (rows ++ [])) h (rw append-nil i), same, tt)
  feed_all_lem path_max ((verb, uri, ts) ∷ es) l g os rows i e =
      feed_one path_max verb uri ts es l g os rows (feed abc lib path_max verb uri ts l)
        (feed_all_lem path_max es) i refl e

  -- Feed an empty log any entries. Where no feed throws, and the log stays below 2^31 bytes, rewinding
  -- it and calling next until it is false visits just the offsets that the feeds returned, in their
  -- order, and the log then holds rows at these offsets whose times are the low 64 bits of numbers that
  -- rise strictly, whatever times were asked for. The u8b calls and the row codec behave as documented.
  pub feed_all_visited :
      (path_max : ℕ) (es : List (List ℕ × List ℕ × Option ℕ)) (mem : List ℕ) (g : Log) (os : List ℕ)
      → length mem ≤ max_safe
      → feed_all abc lib path_max es
          (record { mem = mem; watermark = 0; read = 0; rec = minus_one; last_ts = none })
        ≡ (ok os, g)
      → g.watermark < 2 ^ 31
      → (visit abc lib (suc (length os)) (rewind g) ≡ some (map pos os))
        × ((rows : List (ℕ × Row)) × IsLog encode g rows
            × (map (λ (x : ℕ × Row). x.0) rows ≡ os)
            × IsRising none rows)
  unfolding rewind
  feed_all_visited path_max es mem g os m e small =
      let start : Log = record {
        mem = mem;
        watermark = 0;
        read = 0;
        rec = minus_one;
        last_ts = none;
      } in
      let (rows, i, same, rising) =
        feed_all_lem path_max es start g os []
          (record { laid = no_more; within = omega arith; small = m }) e in
      let v =
        visit_rows lawful codec g.mem g.watermark g.last_ts i.within i.small small minus_one 0 rows
          i.laid in
      let offsets : map (λ (x : ℕ × Row). pos x.0) rows ≡ map pos os =
        sym (map-map pos (λ (x : ℕ × Row). x.0) rows) ∙ ap (map pos) same in
      let count : length rows ≡ length os =
        sym (length-map rows (λ (x : ℕ × Row). x.0)) ∙ ap length same in
      (
        ap (λ k. visit abc lib (suc k) (rewind g)) (sym count) ∙ v ∙ ap some offsets,
        (rows, i, same, rising),
      )
