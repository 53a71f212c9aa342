-- ===== src/Buf/Queue.antt =====
-- What a Buf stands for: the consumed bytes, the live bytes in order, and the free count.
use quickjab.Prelude.{
  ℕ, ◌+◌, ◌-◌, ◌%◌, ◌||◌, List, [], ◌∷◌, ◌++◌, Option, ltb, ◌==◌, if◌then◌else◌, length, get_elem?,
  take, drop,
}
use quickjab.Int.{ℤ}
use quickjab.Outcome.{Outcome, ok, err}
use quickjab.Buf.{outside, count_of, is_negative}

pub record Queue : Type 0 where
  pub past : List ℕ
  pub live : List ℕ
  pub free : ℕ

unfoldable pub feed : List ℕ → Queue → Outcome (ℕ × Queue)
feed s q =
    if ltb q.free (length s)
    then err "NOROOM"
    else ok (length s, record q { live = q.live ++ s; free = q.free - length s })

unfoldable pub feed1 : ℕ → Queue → Outcome (ℕ × Queue)
feed1 x q =
    if ltb q.free 1
    then err "NOROOM"
    else ok (1, record q { live = q.live ++ ((x % 256) ∷ []); free = q.free - 1 })

unfoldable pub take_front : ℤ → Queue → Outcome (List ℕ × Queue)
take_front n q =
    if outside n (length q.live)
    then err "BADARG"
    else ok (
      take (count_of n) q.live,
      record q { past = q.past ++ take (count_of n) q.live; live = drop (count_of n) q.live },
    )

unfoldable pub skip : ℤ → Queue → Outcome Queue
skip n q =
    if outside n (length q.live)
    then err "BADARG"
    else ok
        (record q { past = q.past ++ take (count_of n) q.live; live = drop (count_of n) q.live })

unfoldable pub shed : ℤ → Queue → Outcome Queue
shed n q =
    if outside n (length q.live)
    then err "BADARG"
    else ok
        (record q { live = take (length q.live - count_of n) q.live; free = q.free + count_of n })

unfoldable pub pop : Queue → Outcome (Option ℕ × Queue)
pop q =
    if length q.live == 0
    then err "NODATA"
    else ok (
      get_elem? q.live (length q.live - 1),
      record q { live = take (length q.live - 1) q.live; free = q.free + 1 },
    )

unfoldable pub reset : Queue → Queue
reset q = record { past = []; live = []; free = length q.past + length q.live + q.free }

unfoldable pub shift : Queue → Queue
shift q = record q { past = []; free = q.free + length q.past }

unfoldable pub splice : ℤ → ℤ → List ℕ → Queue → Outcome Queue
splice off cut p q =
    let o = count_of off in
    let c = count_of cut in
    if is_negative off || is_negative cut || ltb (length q.live) (o + c)
    then err "BADARG"
    else if ltb (q.free + c) (length p)
    then err "NOROOM"
    else ok (record q {
      live = take o q.live ++ (p ++ drop (o + c) q.live);
      free = q.free + c - length p;
    })

unfoldable pub grow : ℕ → Queue → Queue
grow n q = record q { free = q.free + (n - (length q.past + length q.live + q.free)) }
