-- ===== src/Net/Socket/Flush.antt =====
-- The loop of `_flush`: what goes out is what waited, in order; and the FIN.
use quickjab.Bytes.Laws.{drop-slice}
use quickjab.Prelude.{
  subst, ℕ, zero, suc, ◌+◌, ◌-◌, ◌≤◌, ◌<◌, ◌≡◌, ◌≢◌, refl, sym, ap, ◌∙◌, List, [], ◌∷◌, ◌++◌,
  append_assoc, Option, none, String, ◌⊎◌, inl, inr, arith, length, take, drop, take-append-drop,
  if_cases, ◌==◌,
}
use quickjab.Int.{pos}
use quickjab.Outcome.{ok}
use quickjab.Buf
use quickjab.Buf.{Buf, size, data_view}
use quickjab.Buf.Inv.{IsBuf}
use quickjab.Buf.Refine.{live_length}
use quickjab.Net.Socket.{
  skipped, Env, Socket, Effect, SendAnswer, took, busy, send_threw, sent_out, would_block, note,
  send_loop, answered,
}

-- The bytes that went out, in the order in which they did.
abbrev pub out_of : List Effect → List ℕ
out_of [] = []
out_of (sent_out x ∷ h) = out_of h ++ x
out_of (_ ∷ h) = out_of h

-- send(2) on bytes takes some of them, and no more than there are.
abbrev pub IsKernel : Env → Type 0
IsKernel env =
    (h : List Effect) (x : List ℕ) (n : ℕ)
    → x ≢ []
    → env.send h x ≡ took n
    → (0 < n) × (n ≤ length x)

-- From s the loop got to t: the bytes that waited went out or still wait, in order, and neither
-- flag moved.
pub record Drains (s t : Socket) : Type 0 where
  pub buf : IsBuf t.wb
  pub in_order : out_of t.history ++ data_view t.wb ≡ out_of s.history ++ data_view s.wb
  pub same_ending : t.ending ≡ s.ending
  pub same_closed : t.closed ≡ s.closed
  pub same_shut : t.wr_shut ≡ s.wr_shut

-- The loop stops where nothing waits or where the kernel would block.
abbrev pub IsDone : Socket → Type 0
IsDone t = (size t.wb ≡ 0) ⊎ ((h : List Effect) × (t.history ≡ would_block ∷ h))

skip_front :
    {b : Buf} (v : IsBuf b) (n : ℕ)
    → n ≤ length (data_view b)
    → (c : Buf) × (Buf.skip (pos n) b ≡ ok c)
      × IsBuf c
      × (data_view c ≡ drop n (data_view b))
      × (size c ≡ size b - n)
unfolding Buf.skip
skip_front {b} v n h =
    let short : n ≤ size b = omega (arith, live_length v) in
    (
      record b { data_at = b.data_at + n },
      ground (arith, short),
      ground (arith, short),
      sym (drop-slice b.bytes b.data_at b.idle_at n),
      omega arith,
    )

Drains-refl : (s : Socket) → IsBuf s.wb → Drains s s
Drains-refl s v = record {
  buf = v;
  in_order = refl;
  same_ending = refl;
  same_closed = refl;
  same_shut = refl;
}

-- One send that took n bytes.
Drains-sent :
    (s t : Socket) (n : ℕ) (c : Buf)
    → data_view c ≡ drop n (data_view s.wb)
    → Drains (note (sent_out (take n (data_view s.wb))) (record s { wb = c })) t
    → Drains s t
Drains-sent s t n c rest d = record {
  buf = d.buf;
  in_order =
      d.in_order
      ∙ ap (λ l. (out_of s.history ++ take n (data_view s.wb)) ++ l) rest
      ∙ append_assoc (out_of s.history) (take n (data_view s.wb)) (drop n (data_view s.wb))
      ∙ ap (λ l. out_of s.history ++ l) (take-append-drop n (data_view s.wb));
  same_ending = d.same_ending;
  same_closed = d.same_closed;
  same_shut = d.same_shut;
}

abbrev Result : Socket → Socket × Option String → Type 0
Result s r = Drains s r.0 × (r.1 ≡ none → IsDone r.0)

module _ (env : Env) (kernel : IsKernel env) where
  answered_lem :
      (fuel : ℕ)
      → ((s : Socket) → IsBuf s.wb → size s.wb ≤ fuel → Result s (send_loop env fuel s))
      → (s : Socket) (a : SendAnswer) → IsBuf s.wb
      → size s.wb ≤ suc fuel
      → ((n : ℕ) → a ≡ took n → (0 < n) × (n ≤ length (data_view s.wb)))
      → Result s (answered env (send_loop env fuel) s a)
  answered_lem fuel rest s busy v h k = (
    record { buf = v; in_order = refl; same_ending = refl; same_closed = refl; same_shut = refl },
    λ e. inr (s.history, refl),
  )
  answered_lem fuel rest s (send_threw x) v h k = (Drains-refl s v, λ e. cc)
  answered_lem fuel rest s (took n) v h k =
      let (c, e, vc, front, less) = skip_front v n (k n refl).1 in
      let sent = note (sent_out (take n (data_view s.wb))) (record s { wb = c }) in
      let (d, done) = rest sent vc (omega (arith, k n refl)) in
      subst
        (λ o.
          Result s
            (skipped env (send_loop env fuel) (note (sent_out (take n (data_view s.wb))) s) o))
        (sym e) (Drains-sent s _ n c front d, done)

  -- The loop of `_flush` ends with as much fuel as there are bytes: it sends what waits, in order
  -- and without a gap, until nothing waits, the kernel would block, or a send throws. The kernel
  -- takes at least one byte, and no more than it was given, when it takes some.
  pub send_loop-Drains :
      (fuel : ℕ) (s : Socket)
      → IsBuf s.wb
      → size s.wb ≤ fuel
      → Drains s (send_loop env fuel s).0
        × ((send_loop env fuel s).1 ≡ none → IsDone (send_loop env fuel s).0)
  unfolding send_loop
  send_loop-Drains zero s v h = (Drains-refl s v, λ e. inl (omega arith))
  send_loop-Drains (suc fuel) s v h =
      if_cases (Result s) (size s.wb == 0)
        (λ none_left. (Drains-refl s v, λ e. inl (ground (arith, none_left))))
        (λ some_left.
          answered_lem fuel (send_loop-Drains fuel) s (env.send s.history (data_view s.wb)) v h
            (λ n e.
              kernel s.history (data_view s.wb) n
                (λ x. ground (arith, some_left, live_length v, ap (λ l. length l) x)) e))
