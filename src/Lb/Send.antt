-- ===== src/Lb/Send.antt =====
-- lb.cpp: what `sendpipe` does with a message.
use zmq.Base.{
  ℕ, ◌<◌, ◌≡◌, ◌≢◌, refl, arith, Bool, true, false, ◌==◌, Option, none, some, get_elem?, ◌⊎◌,
}
use zmq.Msg.{Msg, has_more}
use zmq.Pipe
use zmq.Pipe.{Pipe}
use zmq.Pipe.Write.{OutOk, Kept, taken}
use zmq.Lb.{Lb, Store, put, Outcome, written, no_pipe, cut_short, Sent, ok, again, aborted}
use zmq.Lb.Inv.{IsValid, lb_of}

-- Every pipe object can take its incomplete message back.
abbrev pub AllOutOk : Store → Type 0
AllOutOk st = (i : ℕ) → OutOk (st i)

-- Every pipe is as before, or has refused the message.
abbrev pub AllKept : Msg → Store → Store → Type 0
AllKept m st st' = (j : ℕ) → Kept m (st j) (st' j)

-- The pipes other than `i`.
abbrev pub OthersKept : Msg → ℕ → Store → Store → Type 0
OthersKept m i st st' = (j : ℕ) → j ≢ i → Kept m (st j) (st' j)

pub put-same : (st : Store) (i : ℕ) (p : Pipe) → put st i p i ≡ p
put-same st i p = let same : (i == i) ≡ true = ground arith in rw same refl

pub put-other : (st : Store) (i j : ℕ) (p : Pipe) → j ≢ i → put st i p j ≡ st j
put-other st i j p n = let other : (j == i) ≡ false = ground (arith, n) in rw other refl

-- How the loop may end for a load balancer that is inside of a message or not.
abbrev Ends : Bool → Lb → Store → Msg → Outcome → Type 0
Ends more before st0 m (written i lb st) =
    (get_elem? lb.pipes.items lb.current ≡ some i)
    × (lb.current < lb.active)
    × (lb.more ≡ more)
    × ((more ≡ false) ⊎ (lb ≡ before))
    × ((Pipe.write (st0 i) m).0 ≡ true)
    × (st i ≡ (Pipe.write (st0 i) m).1)
    × OthersKept m i st0 st
Ends more before st0 m (no_pipe lb st) = (lb.active ≡ 0) × (lb.more ≡ more) × AllKept m st0 st
Ends more before st0 m (cut_short lb st) =
    (more ≡ true)
    × (lb.more ≡ false)
    × (lb.dropping ≡ has_more m)
    × ((i : ℕ) × (get_elem? before.pipes.items before.current ≡ some i)
        × ((Pipe.write (st0 i) m).0 ≡ false)
        × (Pipe.rollback (Pipe.write (st0 i) m).1 ≡ some (st i))
        × ((j : ℕ) → j ≢ i → st j ≡ st0 j))

abbrev Result : Bool → Lb → Store → Msg → Option Outcome → Type 0
Result more before st0 m r =
    (o : Outcome) × (r ≡ some o) × IsValid (lb_of o) × Ends more before st0 m o

-- What `sendpipe` leaves behind. A part is dropped, and dropping ends with the last part; or it is
-- written to the pipe of `current`, where the next part of the same message goes, too, and the pipe is
-- flushed after the last part; or no pipe takes it; or the pipe of `current` refuses a later part, its
-- parts of the message are taken back, and the message is dropped from here on. All other pipes are as
-- before, or have refused the part.
abbrev pub Left : Lb → Store → Msg → Sent → Type 0
Left lb st m s =
    ((lb.dropping ≡ true)
      × (s.rc ≡ ok)
      × (s.pipe ≡ none)
      × (s.lb.dropping ≡ has_more m)
      × (s.store ≡ st))
    ⊎ ((i : ℕ) × (s.rc ≡ ok)
        × (s.pipe ≡ some i)
        × (s.lb.more ≡ has_more m)
        × ((has_more m ≡ false) ⊎ (get_elem? s.lb.pipes.items s.lb.current ≡ some i))
        × ((lb.more ≡ false) ⊎ (get_elem? lb.pipes.items lb.current ≡ some i))
        × ((Pipe.write (st i) m).0 ≡ true)
        × (s.store i ≡ taken (st i) m)
        × OthersKept m i st s.store)
    ⊎ ((s.rc ≡ again) × (s.pipe ≡ none) × (s.lb.active ≡ 0) × AllKept m st s.store)
    ⊎ ((s.rc ≡ aborted)
        × (lb.more ≡ true)
        × (s.lb.more ≡ false)
        × (s.lb.dropping ≡ has_more m)
        × ((i : ℕ) × (get_elem? lb.pipes.items lb.current ≡ some i)
            × ((Pipe.write (st i) m).0 ≡ false)
            × (Pipe.rollback (Pipe.write (st i) m).1 ≡ some (s.store i))
            × ((j : ℕ) → j ≢ i → s.store j ≡ st j)))
