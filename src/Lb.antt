-- ===== src/Lb.antt =====
-- zeromq-4.3.1/src/lb.hpp and zeromq-4.3.1/src/lb.cpp: the load balancer, which sends each message to the next of the active
-- pipes. A pipe is the number of its object; the objects are a store, a function from numbers. A
-- result `none` of an operation is an access out of range or a failed assertion. A message that was
-- sent or dropped is emptied by the source (`init`).
pub mod Inv
pub mod Send
pub mod Broken
mod Tests
use mathlib.Core.Option
use zmq.Base.{
  ℕ, zero, suc, ◌+◌, ◌-◌, Bool, true, false, not, ◌&&◌, ◌||◌, ◌==◌, ltb, leb, if◌then◌else◌, Option,
  none, some, get_elem?,
}
use zmq.Msg
use zmq.Msg.{Msg, has_more}
use zmq.Pipe
use zmq.Pipe.{Pipe}
use zmq.Array
use zmq.Array.{Array}

pub record Lb : Type 0 where
  pub pipes : Array
  pub active : ℕ
  pub current : ℕ
  pub more : Bool
  pub dropping : Bool

-- The pipe objects.
abbrev pub Store : Type 0
Store = ℕ → Pipe

abbrev pub put : Store → ℕ → Pipe → Store
put st i p j = if j == i then p else st j

pub create : Lb
create = record { pipes = Array.empty; active = 0; current = 0; more = false; dropping = false }

pub activated : Lb → ℕ → Lb
activated lb pipe = record lb {
  pipes = Array.swap lb.pipes (lb.pipes.index pipe) lb.active;
  active = lb.active + 1;
}

pub attach : Lb → ℕ → Lb
unfolding activated
attach lb pipe = activated (record lb { pipes = Array.push_back lb.pipes pipe }) pipe

-- `current` goes back to the start when it stands behind the active pipes.
abbrev pub rewind : ℕ → ℕ → ℕ
rewind current active = if current == active then 0 else current

-- The pipe at `index` leaves the active ones.
pub deactivate_at : Lb → ℕ → Lb
deactivate_at lb index =
    if ltb index lb.active
    then record lb {
      pipes = Array.swap lb.pipes index (lb.active - 1);
      active = lb.active - 1;
      current = rewind lb.current (lb.active - 1);
    }
    else lb

pub pipe_terminated : Lb → ℕ → Lb
unfolding deactivate_at
pipe_terminated lb pipe =
    let index = lb.pipes.index pipe in
    let drops = (index == lb.current && lb.more) || lb.dropping in
    let rest = deactivate_at (record lb { dropping = drops }) index in
    record rest { pipes = Array.erase rest.pipes pipe }

-- How the loop of `sendpipe` ends: the message is written to `current`, or no pipe is active, or a
-- message was cut short (`return -2`).
pub data Outcome : Type 0 where
  written : ℕ → Lb → Store → Outcome
  no_pipe : Lb → Store → Outcome
  cut_short : Lb → Store → Outcome

-- The write failed: on to the pipe that takes the place of this one.
abbrev pub skip : Lb → Lb
skip lb =
    let active = lb.active - 1 in
    if ltb lb.current active
    then record lb { active = active; pipes = Array.swap lb.pipes lb.current active }
    else record lb { active = active; current = 0 }

-- `_pipes[_current]->rollback ()` and `return -2`.
pub cut : Lb → Store → Msg → ℕ → Option Outcome
cut lb st m pipe =
    Option.map (λ p. cut_short (record lb { dropping = has_more m; more = false }) (put st pipe p))
      (Pipe.rollback (st pipe))

-- Each round but the last takes a pipe out of the active ones: `active` rounds are enough.
pub send_loop : ℕ → Lb → Store → Msg → Option Outcome
send_loop zero lb st m = some (no_pipe lb st)
send_loop (suc fuel) lb st m = elim (get_elem? lb.pipes.items lb.current) [
  | none ↦ none
  | some pipe ↦
      let (done, p) = Pipe.write (st pipe) m in
      elim done [
        | true ↦ some (written pipe lb (put st pipe p))
        | false ↦ elim lb.more [
          | true ↦ cut lb (put st pipe p) m pipe
          | false ↦ send_loop fuel (skip lb) (put st pipe p) m
        ]
      ]
]

-- The result codes; `again` is -1 and `aborted` is -2, both with EAGAIN.
pub data Rc : Type 0 where
  ok again aborted : Rc

pub record Sent : Type 0 where
  pub rc : Rc
  pub pipe : Option ℕ
  pub lb : Lb
  pub store : Store

-- The last part of a message: flush it, and on to the next pipe.
abbrev pub next_pipe : Lb → Lb
next_pipe lb = record lb { current = if leb lb.active (lb.current + 1) then 0 else lb.current + 1 }

pub finish : Msg → Outcome → Sent
finish m (written pipe lb st) =
    if has_more m
    then record { rc = ok; pipe = some pipe; lb = record lb { more = true }; store = st }
    else record {
      rc = ok;
      pipe = some pipe;
      lb = next_pipe (record lb { more = false });
      store = put st pipe (Pipe.flush (st pipe));
    }
finish m (no_pipe lb st) = record { rc = again; pipe = none; lb = lb; store = st }
finish m (cut_short lb st) = record { rc = aborted; pipe = none; lb = lb; store = st }

-- The rest of a message whose pipe is gone is dropped.
abbrev pub drop_part : Lb → Store → Msg → Sent
drop_part lb st m = record {
  rc = ok;
  pipe = none;
  lb = record lb { more = has_more m; dropping = has_more m };
  store = st;
}

pub sendpipe : Lb → Store → Msg → Option Sent
unfolding finish
sendpipe lb st m =
    if lb.dropping
    then some (drop_part lb st m)
    else Option.map (finish m) (send_loop lb.active lb st m)

-- The loop of `has_out`.
pub has_out_loop : ℕ → Lb → Store → Option (Bool × Lb × Store)
has_out_loop zero lb st = some (false, lb, st)
has_out_loop (suc fuel) lb st = elim (get_elem? lb.pipes.items lb.current) [
  | none ↦ none
  | some pipe ↦
      let (ready, p) = Pipe.check_write (st pipe) in
      elim ready [
        | true ↦ some (true, lb, put st pipe p)
        | false ↦ has_out_loop fuel (deactivate_at lb lb.current) (put st pipe p)
      ]
]

pub has_out : Lb → Store → Option (Bool × Lb × Store)
unfolding has_out_loop
has_out lb st = if lb.more then some (true, lb, st) else has_out_loop lb.active lb st
