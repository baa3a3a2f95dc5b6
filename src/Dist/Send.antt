-- ===== src/Dist/Send.antt =====
-- dist.cpp: which pipes get a message.
use zmq.Base.{
  ℕ, zero, suc, ◌+◌, ◌<◌, ◌≤◌, ◌≡◌, refl, ◌∙◌, arith, true, false, Option, some, ltb, Bool-cases,
  inl, inr,
}
use zmq.Array.Laws.{get_elem?-lt}
use zmq.Msg.{Msg, has_more}
use zmq.Pipe
use zmq.Pipe.{Pipe}
use zmq.Pipe.Write.{taken}
use zmq.Lb.{Store, put}
use zmq.Dist.{Dist, give_up, write, distribute_loop, distribute, send_to_matching, sent}
use zmq.Dist.Inv.{IsValid, give_up-IsValid, loop_over, loop_more, sent-IsValid}
use zmq.Dist.Places.{IsIn, IsOut}
use zmq.Dist.Round.{Got, Sends, done-Sends, refused-Sends}

write-done :
    (d : Dist) (st : Store) (pipe : ℕ) (m : Msg)
    → (Pipe.write (st pipe) m).0 ≡ true
    → write d st pipe m ≡ (true, d, put st pipe (taken (st pipe) m))
unfolding write
write-done d st pipe m e = rw e refl

write-refused :
    (d : Dist) (st : Store) (pipe : ℕ) (m : Msg)
    → (Pipe.write (st pipe) m).0 ≡ false
    → write d st pipe m ≡ (false, give_up d pipe, put st pipe (Pipe.write (st pipe) m).1)
unfolding write
write-refused d st pipe m e = rw e refl

abbrev Ends : ℕ → Dist → Store → Msg → Option (Dist × Store) → Type 0
Ends i d st m o =
    (d' : Dist) × (st' : Store) × (o ≡ some (d', st')) × IsValid d' × Sends i d st m d' st'

over-Ends :
    (fuel i : ℕ) (d : Dist) (st : Store) (m : Msg)
    → ltb i d.matching ≡ false
    → IsValid d
    → Ends i d st m (distribute_loop fuel i d st m)
over-Ends fuel i d st m over v = (
  d,
  st,
  loop_over fuel i d st m over,
  v,
  record {
    before = λ x k lt lm e. (refl, (k, lm, e));
    from = λ x k ge lm e. absurd (ground arith);
    outside = λ x o. (refl, o);
    gone = λ x o. o;
  },
)

distribute_loop-Ends :
    (fuel i : ℕ) (d : Dist) (st : Store) (m : Msg)
    → d.matching ≤ fuel + i
    → IsValid d
    → Ends i d st m (distribute_loop fuel i d st m)
unfolding give_up
distribute_loop-Ends zero i d st m h v = over-Ends 0 i d st m (ground arith) v
distribute_loop-Ends (suc fuel) i d st m h v = elim (Bool-cases (ltb i d.matching)) [
  | inr over ↦ over-Ends (suc fuel) i d st m over v
  | inl more ↦
      let lt : i < d.matching = ground arith in
      let (pipe, at) =
        get_elem?-lt d.pipes.items i (omega (arith, v.matching_le, v.active_le, v.eligible_le)) in
      let round = loop_more fuel i pipe d st m more at in
      elim (Bool-cases (Pipe.write (st pipe) m).0) [
        | inl w ↦
            let st1 = put st pipe (taken (st pipe) m) in
            let (d', st', e, v', s) = distribute_loop-Ends fuel (i + 1) d st1 m (omega arith) v in
            let step : distribute_loop (suc fuel) i d st m ≡ distribute_loop fuel (i + 1) d st1 m =
              rw (write-done d st pipe m w) at round in
            (d', st', step ∙ e, v', done-Sends d st m i pipe d' st' v at lt w s)
        | inr w ↦
            let st1 = put st pipe (Pipe.write (st pipe) m).1 in
            let d1 = give_up d pipe in
            let (d', st', e, v', s) =
              distribute_loop-Ends fuel i d1 st1 m (omega arith)
                (give_up-IsValid d i pipe at lt v) in
            let step : distribute_loop (suc fuel) i d st m ≡ distribute_loop fuel i d1 st1 m =
              rw (write-refused d st pipe m w) at round in
            (d', st', step ∙ e, v', refused-Sends d st m i pipe d' st' v at lt w s)
      ]
]

-- The end of a message moves no pipe.
pipes-sent :
    (m : Msg) (d : Dist)
    → ((sent m d).pipes ≡ d.pipes)
      × ((sent m d).matching ≡ d.matching)
      × ((sent m d).eligible ≡ d.eligible)
pipes-sent m d = ground arith

Got-sent :
    (m : Msg) (st : Store) (x : ℕ) (d' : Dist) (st' : Store)
    → Got m st x d' st'
    → Got m st x (sent m d') st'
Got-sent m st x d' st' g = let (p, n, k) = pipes-sent m d' in rw (p, n, k) g

outside-sent :
    (m : Msg) (st : Store) (x : ℕ) (d' : Dist) (st' : Store)
    → (st' x ≡ st x) × IsOut d'.pipes x d'.matching
    → (st' x ≡ st x) × IsOut (sent m d').pipes x (sent m d').matching
outside-sent m st x d' st' g = let (p, n, k) = pipes-sent m d' in rw (p, n) g

-- `send_to_matching` on a valid distributor comes to its end without an access out of range and leaves a valid
-- distributor, in the middle of a message if the part has `more`, and with all the eligible pipes active if it
-- has not. Every matching pipe that has room gets exactly the part, flushed if it is the last, and matches still;
-- every matching pipe that refuses it is no longer eligible; and a pipe that does not match is left as it is,
-- and does not match after that.
pub send_to_matching_lem :
    (d : Dist) (st : Store) (m : Msg)
    → IsValid d
    → (d' : Dist) × (st' : Store) × (send_to_matching d st m ≡ some (d', st'))
      × IsValid d'
      × (d'.more ≡ has_more m)
      × (has_more m ≡ false → d'.active ≡ d'.eligible)
      × ((x : ℕ) → IsIn d.pipes x d.matching → Got m st x d' st')
      × ((x : ℕ) → IsOut d.pipes x d.matching → (st' x ≡ st x) × IsOut d'.pipes x d'.matching)
unfolding send_to_matching distribute
send_to_matching_lem d st m v =
    let (d', st', e, v', s) = distribute_loop-Ends d.matching 0 d st m (omega arith) v in
    (
      sent m d',
      st',
      rw e refl,
      sent-IsValid m d' v',
      ground arith,
      ground arith,
      λ x (k, lt, at). Got-sent m st x d' st' (s.from x k (omega arith) lt at),
      λ x o. outside-sent m st x d' st' (s.outside x o),
    )
