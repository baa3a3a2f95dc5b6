-- ===== src/Pipe/Handshake/Clean.antt =====
-- Between two ends that are both open there is no delimiter, so that neither finds one.
use zmq.Base.{
  ℕ, zero, suc, Bool, false, Option, none, some, List, [], ◌∷◌, ◌++◌, ◌≡◌, ◌⊎◌, inl, inr, refl,
  arith, All, All-append, length, Option-cases, drop_last,
}
use zmq.Msg.{Msg, is_delimiter}
use zmq.Ypipe
use zmq.Ypipe.{Ypipe}
use zmq.Pipe.{
  Pipe, active, term_req_sent1, check_read, read, read_payload, write, rollback, flush, count_read,
  unwrite_all,
}
use zmq.Pipe.Control.{set_nodelay}
use zmq.Pipe.Handshake.Moves.{terminate-active}
use zmq.Pipe.Handshake.{
  Act, check_reads, reads, writes, rolls_back, flushes, sets_nodelay, terminates,
}

abbrev pub NoDelimiter : List Msg → Type 0
NoDelimiter = All (λ m. is_delimiter m ≡ false)

abbrev pub IsClean : Pipe → Type 0
IsClean p = NoDelimiter p.in_pipe.queue × NoDelimiter p.out_pipe.queue

drop_last-NoDelimiter : (ms : List Msg) → NoDelimiter ms → NoDelimiter (drop_last ms)
drop_last-NoDelimiter [] h = tt
drop_last-NoDelimiter (m ∷ []) h = tt
drop_last-NoDelimiter (m ∷ n ∷ ms) h = (h.0, drop_last-NoDelimiter (n ∷ ms) h.1)

queue-check_read : (q : Ypipe Msg) → (Ypipe.check_read q).1.queue ≡ q.queue
unfolding Ypipe.check_read
queue-check_read q = ground arith

queue-flush : (q : Ypipe Msg) → (Ypipe.flush q).1.queue ≡ q.queue
unfolding Ypipe.flush
queue-flush q = ground arith

-- An item that is read, if any, is no delimiter.
abbrev NotDelimiter : Option Msg → Type 0
NotDelimiter none = Unit
NotDelimiter (some m) = is_delimiter m ≡ false

read-NoDelimiter :
    (q : Ypipe Msg) (ms : List Msg)
    → q.queue ≡ ms
    → NoDelimiter ms
    → NoDelimiter (Ypipe.read q).1.queue × NotDelimiter (Ypipe.read q).0
unfolding Ypipe.read
read-NoDelimiter q [] e h = ground arith
read-NoDelimiter q (m ∷ ms) e h = ground arith

read_payload-NoDelimiter :
    (fuel : ℕ) (q : Ypipe Msg)
    → NoDelimiter q.queue
    → NoDelimiter (read_payload fuel q).1.queue × NotDelimiter (read_payload fuel q).0
unfolding read_payload
read_payload-NoDelimiter zero q h = (h, tt)
read_payload-NoDelimiter (suc fuel) q h =
    let got = Ypipe.read q in
    elim (Option-cases got.0) [
      | inl e ↦ ground (arith, read-NoDelimiter q q.queue refl h)
      | inr (m, e) ↦
          ground (arith, read-NoDelimiter q q.queue refl h, read_payload-NoDelimiter fuel got.1)
    ]

unwrite_all-NoDelimiter :
    (fuel : ℕ) (q r : Ypipe Msg)
    → unwrite_all fuel q ≡ some r
    → NoDelimiter q.queue
    → NoDelimiter r.queue
unfolding unwrite_all Ypipe.unwrite
unwrite_all-NoDelimiter zero q r e h = ground arith
unwrite_all-NoDelimiter (suc fuel) q r e h = ground (
  arith,
  drop_last-NoDelimiter q.queue h,
  unwrite_all-NoDelimiter fuel (record q { queue = drop_last q.queue }) r,
)

rollback-IsClean : (p q : Pipe) → rollback p ≡ some q → IsClean p → IsClean q
unfolding rollback
rollback-IsClean p q e h =
    elim (Option-cases (unwrite_all (suc (length p.out_pipe.queue)) p.out_pipe)) [
      | inl failed ↦ ground arith
      | inr (r, done) ↦
          ground
            (arith, unwrite_all-NoDelimiter (suc (length p.out_pipe.queue)) p.out_pipe r done h.1)
    ]

flush-IsClean : (p : Pipe) → IsClean p → IsClean (flush p)
unfolding flush
flush-IsClean p h = ground (arith, queue-flush p.out_pipe)

write-IsClean : (p : Pipe) (m : Msg) → is_delimiter m ≡ false → IsClean p → IsClean (write p m).1
unfolding write Ypipe.write
write-IsClean p m nd h =
    let longer : NoDelimiter (p.out_pipe.queue ++ m ∷ []) =
      All-append (λ m. is_delimiter m ≡ false) p.out_pipe.queue (m ∷ []) h.1 (nd, tt) in
    ground arith

read-IsClean :
    (p q : Pipe) (out : Option Msg)
    → p.state ≡ active
    → read p ≡ some (out, q)
    → IsClean p
    → (q.state ≡ active) × IsClean q
unfolding read count_read
read-IsClean p q out st e h =
    elim (Option-cases (read_payload (suc (length p.in_pipe.queue)) p.in_pipe).0) [
      | inl n ↦
          ground (arith, read_payload-NoDelimiter (suc (length p.in_pipe.queue)) p.in_pipe h.0)
      | inr (m, n) ↦
          ground (arith, read_payload-NoDelimiter (suc (length p.in_pipe.queue)) p.in_pipe h.0)
    ]

write_state : (p : Pipe) (m : Msg) → p.state ≡ active → (write p m).1.state ≡ active
unfolding write
write_state p m st = ground arith

rollback_state : (p q : Pipe) → rollback p ≡ some q → p.state ≡ active → q.state ≡ active
unfolding rollback
rollback_state p q e st = ground arith

flush_state : (p : Pipe) → p.state ≡ active → (flush p).state ≡ active
unfolding flush
flush_state p st = ground arith

-- `check_read` does not come to a delimiter.
probe-NoDelimiter :
    (q r : Ypipe Msg) (b : Bool) (ms : List Msg)
    → q.queue ≡ ms
    → NoDelimiter ms
    → Ypipe.probe q (λ m. is_delimiter m) ≡ some (b, r)
    → (b ≡ false) × (r.queue ≡ ms)
unfolding Ypipe.probe
probe-NoDelimiter q r b [] e h f = absurd (ground (arith, queue-check_read q))
probe-NoDelimiter q r b (m ∷ ms) e h f = ground (arith, queue-check_read q)

check_read-IsClean :
    (p q : Pipe) (b : Bool)
    → p.state ≡ active
    → check_read p ≡ some (b, q)
    → IsClean p
    → (q.state ≡ active) × IsClean q
unfolding check_read
check_read-IsClean p q b st e h =
    let r = (Ypipe.check_read p.in_pipe).1 in
    elim (Option-cases (Ypipe.probe r (λ m. is_delimiter m))) [
      | inl n ↦ ground (arith, queue-check_read p.in_pipe)
      | inr ((at_delimiter, s), n) ↦ ground (
        arith,
        queue-check_read p.in_pipe,
        probe-NoDelimiter r s at_delimiter p.in_pipe.queue (queue-check_read p.in_pipe) h.0 n,
      )
    ]

-- A call at an open end without delimiters leaves it so, or asks for termination.
pub Act-IsClean :
    {p q : Pipe}
    → Act p q
    → p.state ≡ active
    → IsClean p
    → ((q.state ≡ active) × IsClean q) ⊎ (q.state ≡ term_req_sent1)
unfolding set_nodelay
Act-IsClean {p} (check_reads b q e) st h = inl (check_read-IsClean p q b st e h)
Act-IsClean {p} (reads out q e) st h = inl (read-IsClean p q out st e h)
Act-IsClean {p} (writes m nd) st h = inl (write_state p m st, write-IsClean p m nd h)
Act-IsClean {p} (rolls_back q e) st h = inl (rollback_state p q e st, rollback-IsClean p q e h)
Act-IsClean {p} flushes st h = inl (flush_state p st, flush-IsClean p h)
Act-IsClean sets_nodelay st h = inl (st, h)
Act-IsClean {p} (terminates delay q e) st h = inr (terminate-active p q delay st e)
