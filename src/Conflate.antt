-- ===== src/Conflate.antt =====
-- zeromq-4.3.1/src/dbuffer.hpp and zeromq-4.3.1/src/ypipe_conflate.hpp: the pipe that keeps the last message only. The
-- two buffers and the pointers to them are the messages `back` and `front`. The reader holds the lock in
-- each of its operations, so that an interleaving of the two threads is a sequence of the operations, in
-- which a write that finds the lock taken has the argument `locked`.
pub mod Run
mod Tests
use zmq.Base.{Bool, true, false, Option, none, some, if◌then◌else◌}
use zmq.Msg.{Msg, init}

pub record Dbuffer : Type 0 where
  pub back : Msg
  pub front : Msg
  pub has_msg : Bool

pub record Conflate : Type 0 where
  pub dbuffer : Dbuffer
  pub reader_awake : Bool

abbrev pub create : Conflate
create = record {
  dbuffer = record { back = init; front = init; has_msg = false };
  reader_awake = false;
}

-- `dbuffer_t::write`; `locked`: `try_lock` fails.
abbrev pub write_back : Bool → Msg → Dbuffer → Dbuffer
write_back locked m b =
    let moved : Dbuffer = record b { back = m } in
    if locked then moved else record { back = moved.front; front = moved.back; has_msg = true }

-- `dbuffer_t::read`; `none` is the result `false`.
abbrev pub read_front : Dbuffer → Option Msg × Dbuffer
read_front b =
    if b.has_msg then (some b.front, record b { front = init; has_msg = false }) else (none, b)

pub write : Bool → Msg → Conflate → Conflate
write locked m p = record p { dbuffer = write_back locked m p.dbuffer }

pub unwrite : Conflate → Option Msg × Conflate
unwrite p = (none, p)

pub flush : Conflate → Bool × Conflate
flush p = (p.reader_awake, p)

pub check_read : Conflate → Bool × Conflate
check_read p = if p.dbuffer.has_msg then (true, p) else (false, record p { reader_awake = false })

pub read : Conflate → Option Msg × Conflate
unfolding check_read
read p =
    let (ready, q) = check_read p in
    if ready
    then (let (m, b) = read_front q.dbuffer in (m, record q { dbuffer = b }))
    else (none, q)

-- Called only where `check_read` has found a message.
pub probe : (Msg → Bool) → Conflate → Bool × Conflate
probe fn p = (fn p.dbuffer.front, p)
