-- ===== src/Pipe/Handshake.antt =====
-- pipe.cpp: the two ends of a pipe pair as a system. The commands that an end has sent are delivered
-- in order; the ypipes are shared. A step is one whole call or one delivery: only the two atomic
-- accesses to a ypipe's `c` could interleave inside of one. `hiccup` and `send_hwms_to_peer` are not
-- among the calls.
pub mod Moves
pub mod Shape
pub mod Clean
pub mod Inv
pub mod Deliver
pub mod Safe
mod Tests
use zmq.Base.{ℕ, Bool, true, false, Option, none, some, List, [], ◌∷◌, ◌≡◌, ◌≢◌}
use zmq.Msg.{Msg, is_delimiter}
use zmq.Pipe.{
  Pipe, Command, activate_read, activate_write, hiccup_command, pipe_term, pipe_term_ack, pipe_hwm,
  check_read, read, write, rollback, flush,
}
use zmq.Pipe.Control.{process_activate_read, process_activate_write, process_pipe_hwm, set_nodelay}
use zmq.Pipe.Term.{process_pipe_term, process_pipe_term_ack, terminate}

-- One call of the thread that owns the end.
pub data Act (p : Pipe) : Pipe → Type 0 where
  check_reads : (b : Bool) (q : Pipe) → check_read p ≡ some (b, q) → Act p q
  reads : (out : Option Msg) (q : Pipe) → read p ≡ some (out, q) → Act p q
  writes : (m : Msg) → is_delimiter m ≡ false → Act p (write p m).1
  rolls_back : (q : Pipe) → rollback p ≡ some q → Act p q
  flushes : Act p (flush p)
  sets_nodelay : Act p (set_nodelay p)
  terminates : (delay : Bool) (q : Pipe) → terminate p delay ≡ some q → Act p q

-- The handlers of the commands.
pub handle : Command → Pipe → Option Pipe
handle activate_read p = some (process_activate_read p)
handle (activate_write n) p = some (process_activate_write p n)
handle hiccup_command p = none
handle pipe_term p = process_pipe_term p
handle pipe_term_ack p = process_pipe_term_ack p
handle (pipe_hwm i o) p = some (process_pipe_hwm p i o)

pub record System : Type 0 where
  pub left : Pipe
  pub right : Pipe

-- The other end leads to the same ypipes.
abbrev pub shared : Pipe → Pipe → Pipe
shared p other = record other { in_pipe = p.out_pipe; out_pipe = p.in_pipe }

pub data Step (s : System) : System → Type 0 where
  left_acts :
      (p : Pipe)
      → s.left.deleted ≡ false
      → Act s.left p
      → Step s (record { left = p; right = shared p s.right })
  right_acts :
      (p : Pipe)
      → s.right.deleted ≡ false
      → Act s.right p
      → Step s (record { left = shared p s.left; right = p })
  to_right :
      (c : Command) (rest : List Command) (p : Pipe)
      → s.left.sent ≡ c ∷ rest
      → handle c s.right ≡ some p
      → Step s (record { left = shared p (record s.left { sent = rest }); right = p })
  to_left :
      (c : Command) (rest : List Command) (p : Pipe)
      → s.right.sent ≡ c ∷ rest
      → handle c s.left ≡ some p
      → Step s (record { left = p; right = shared p (record s.right { sent = rest }) })

pub data Reach (s : System) : System → Type 0 where
  here : Reach s s
  next : {t u : System} → Reach s t → Step t u → Reach s u
