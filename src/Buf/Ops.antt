-- ===== src/Buf/Ops.antt =====
-- Sequences of Buf calls as a client makes them, a thrown text caught after each call.
use quickjab.Prelude.{ℕ, ◌≡◌, refl, List, [], ◌∷◌, Option, String, arith}
use quickjab.Int.{ℤ}
use quickjab.Outcome.{Outcome, ok, err}
use quickjab.Buf
use quickjab.Buf.{Buf}
use quickjab.Buf.Inv.{
  IsBuf, feed-IsBuf, feed1-IsBuf, take_front-IsBuf, skip-IsBuf, shed-IsBuf, pop-IsBuf, reset-IsBuf,
  shift-IsBuf, grow-IsBuf,
}
use quickjab.Buf.Queue
use quickjab.Buf.Queue.{Queue}
use quickjab.Buf.Refine.{
  view, feed_refines, feed1_refines, take_front_refines, skip_refines, shed_refines, pop_refines,
  reset_refines, shift_refines, grow_refines,
}
use quickjab.Buf.Splice.{splice_refines, splice-IsBuf}

pub data Op : Type 0 where
  feed : List ℕ → Op
  feed1 : ℕ → Op
  take_front : ℤ → Op
  skip : ℤ → Op
  shed : ℤ → Op
  pop : Op
  reset : Op
  shift : Op
  splice : ℤ → ℤ → List ℕ → Op
  grow : ℕ → Op

-- What the client sees of a call.
pub data Reply : Type 0 where
  count : ℕ → Reply
  view_of : List ℕ → Reply
  byte : Option ℕ → Reply
  this : Reply
  thrown : String → Reply

module _ {R : Type 0} {S : Type 0} (reply : R → Reply) (s : S) where
  abbrev pub settle : Outcome (R × S) → Reply × S
  settle (ok (r, t)) = (reply r, t)
  settle (err e) = (thrown e, s)

module _ {S : Type 0} (s : S) where
  abbrev pub settle_state : Outcome S → Reply × S
  settle_state (ok t) = (this, t)
  settle_state (err e) = (thrown e, s)

unfoldable pub call : Op → Buf → Reply × Buf
call (feed s) b = settle count b (Buf.feed s b)
call (feed1 x) b = settle count b (Buf.feed1 x b)
call (take_front n) b = settle view_of b (Buf.take_front n b)
call (skip n) b = settle_state b (Buf.skip n b)
call (shed n) b = settle_state b (Buf.shed n b)
call pop b = settle byte b (Buf.pop b)
call reset b = (this, Buf.reset b)
call shift b = (this, Buf.shift b)
call (splice off cut p) b = settle_state b (Buf.splice off cut p b)
call (grow n) b = settle_state b (Buf.grow n b)

unfoldable pub call_queue : Op → Queue → Reply × Queue
call_queue (feed s) q = settle count q (Queue.feed s q)
call_queue (feed1 x) q = settle count q (Queue.feed1 x q)
call_queue (take_front n) q = settle view_of q (Queue.take_front n q)
call_queue (skip n) q = settle_state q (Queue.skip n q)
call_queue (shed n) q = settle_state q (Queue.shed n q)
call_queue pop q = settle byte q (Queue.pop q)
call_queue reset q = (this, Queue.reset q)
call_queue shift q = (this, Queue.shift q)
call_queue (splice off cut p) q = settle_state q (Queue.splice off cut p q)
call_queue (grow n) q = (this, Queue.grow n q)

unfoldable pub run : List Op → Buf → List Reply
run [] b = []
run (o ∷ os) b = let (r, c) = call o b in r ∷ run os c

unfoldable pub run_queue : List Op → Queue → List Reply
run_queue [] q = []
run_queue (o ∷ os) q = let (r, t) = call_queue o q in r ∷ run_queue os t

call_refines :
    (o : Op) {b : Buf} → IsBuf b → ((call o b).0, view (call o b).1) ≡ call_queue o (view b)
unfolding call call_queue
call_refines (feed s) {b} v = ground (arith, feed_refines v s)
call_refines (feed1 x) {b} v = ground (arith, feed1_refines v x)
call_refines (take_front n) {b} v = ground (arith, take_front_refines v n)
call_refines (skip n) {b} v = ground (arith, skip_refines v n)
call_refines (shed n) {b} v = ground (arith, shed_refines v n)
call_refines pop {b} v = ground (arith, pop_refines v)
call_refines reset {b} v = ground (arith, reset_refines v)
call_refines shift {b} v = ground (arith, shift_refines v)
call_refines (splice off cut p) {b} v = ground (arith, splice_refines v off cut p)
call_refines (grow n) {b} v = ground (arith, grow_refines v n)

settle-IsBuf :
    {R : Type 0} (reply : R → Reply) (b : Buf) (o : Outcome (R × Buf))
    → IsBuf b
    → ((r : R) (c : Buf) → o ≡ ok (r, c) → IsBuf c)
    → IsBuf (settle reply b o).1
settle-IsBuf reply b (ok (r, c)) v keep = keep r c refl
settle-IsBuf reply b (err e) v keep = v

settle_state-IsBuf :
    (b : Buf) (o : Outcome Buf)
    → IsBuf b
    → ((c : Buf) → o ≡ ok c → IsBuf c)
    → IsBuf (settle_state b o).1
settle_state-IsBuf b (ok c) v keep = keep c refl
settle_state-IsBuf b (err e) v keep = v

-- Whichever of feed, feed1, take, skip, shed, pop, reset, shift, splice and grow a client calls on a
-- well-formed Buf, and whether or not it throws, the boundaries stay in order inside the bytes.
pub call-IsBuf : (o : Op) {b : Buf} → IsBuf b → IsBuf (call o b).1
unfolding call
call-IsBuf (feed s) v = settle-IsBuf count _ _ v (λ r c e. feed-IsBuf v s e)
call-IsBuf (feed1 x) v = settle-IsBuf count _ _ v (λ r c e. feed1-IsBuf v x e)
call-IsBuf (take_front n) v = settle-IsBuf view_of _ _ v (λ r c e. take_front-IsBuf v n e)
call-IsBuf (skip n) v = settle_state-IsBuf _ _ v (λ c e. skip-IsBuf v n e)
call-IsBuf (shed n) v = settle_state-IsBuf _ _ v (λ c e. shed-IsBuf v n e)
call-IsBuf pop v = settle-IsBuf byte _ _ v (λ r c e. pop-IsBuf v e)
call-IsBuf reset v = reset-IsBuf v
call-IsBuf shift v = shift-IsBuf v
call-IsBuf (splice off cut p) v = settle_state-IsBuf _ _ v (λ c e. splice-IsBuf v off cut p e)
call-IsBuf (grow n) v = settle_state-IsBuf _ _ v (λ c e. grow-IsBuf v n e)

-- The replies of a well-formed Buf to any sequence of feed, feed1, take, skip, shed, pop, reset,
-- shift, splice and grow, throws included, are those of the queue of its bytes.
pub run_refines : (os : List Op) {b : Buf} → IsBuf b → run os b ≡ run_queue os (view b)
unfolding run run_queue
run_refines [] v = refl
run_refines (o ∷ os) v = rw (run_refines os (call-IsBuf o v), ← call_refines o v)
