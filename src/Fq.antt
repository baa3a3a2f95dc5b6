-- ===== src/Fq.antt =====
-- zeromq-4.3.1/src/fq.hpp and zeromq-4.3.1/src/fq.cpp: the fair queue, which takes messages from the
-- active pipes in turn. A pipe is the number of its object, as in Lb. A result `none` of an operation
-- is an access out of range or a failed assertion; tracing output is left out.
pub mod Inv
pub mod Recv
pub mod Broken
mod Tests
use zmq.Base.{
  ℕ, zero, suc, ◌+◌, ◌-◌, ◌%◌, Bool, true, false, ◌==◌, ltb, same, if◌then◌else◌, Option, none,
  some, get_elem?,
}
use zmq.Msg.{Msg, has_more}
use zmq.Pipe
use zmq.Array
use zmq.Array.{Array}
use zmq.Lb.{Store, put}

pub record Fq : Type 0 where
  pub pipes : Array
  pub active : ℕ
  pub last_in : Option ℕ
  pub current : ℕ
  pub more : Bool

pub create : Fq
create = record { pipes = Array.empty; active = 0; last_in = none; current = 0; more = false }

pub attach : Fq → ℕ → Fq
attach fq pipe =
    let pipes = Array.push_back fq.pipes pipe in
    record fq { pipes = Array.swap pipes fq.active (Array.size pipes - 1); active = fq.active + 1 }

-- `_active--`, the swap of the pipe at `index` behind the active ones, and the reset of `_current`.
pub retire : Fq → ℕ → Fq
retire fq index = record fq {
  active = fq.active - 1;
  pipes = Array.swap fq.pipes index (fq.active - 1);
  current = if fq.current == fq.active - 1 then 0 else fq.current;
}

abbrev pub forget_last : Fq → ℕ → Fq
forget_last fq pipe = if same fq.last_in (some pipe) then record fq { last_in = none } else fq

pub pipe_terminated : Fq → ℕ → Fq
unfolding retire
pipe_terminated fq pipe =
    let index = fq.pipes.index pipe in
    let rest = if ltb index fq.active then retire fq index else fq in
    forget_last (record rest { pipes = Array.erase rest.pipes pipe }) pipe

pub activated : Fq → ℕ → Fq
activated fq pipe = record fq {
  pipes = Array.swap fq.pipes (fq.pipes.index pipe) fq.active;
  active = fq.active + 1;
}

-- How `recvpipe` ends: with a message and the pipe that it comes from, or with EAGAIN.
pub data Received : Type 0 where
  fetched : ℕ → Msg → Fq → Store → Received
  nothing : Fq → Store → Received

-- The state after the message `m` was fetched from `pipe`, the one at `_current`.
pub after : Fq → ℕ → Msg → Fq
after fq pipe m =
    if has_more m
    then record fq { more = true }
    else record fq { more = false; last_in = some pipe; current = (fq.current + 1) % fq.active }

-- The loop of `recvpipe`. Each round but the last retires an active pipe: `active` rounds are enough.
pub recv_loop : ℕ → Fq → Store → Option Received
recv_loop zero fq st = some (nothing fq st)
recv_loop (suc fuel) fq st = elim (get_elem? fq.pipes.items fq.current) [
  | none ↦ none
  | some pipe ↦ elim (Pipe.read (st pipe)) [
    | none ↦ none
    | some (out, p) ↦ elim out [
      | some m ↦ some (fetched pipe m (after fq pipe m) (put st pipe p))
      | none ↦ elim fq.more [
        | true ↦ none
        | false ↦ recv_loop fuel (retire fq fq.current) (put st pipe p)
      ]
    ]
  ]
]

pub recvpipe : Fq → Store → Option Received
unfolding recv_loop
recvpipe fq st = recv_loop fq.active fq st

-- The loop of `has_in`.
pub has_in_loop : ℕ → Fq → Store → Option (Bool × Fq × Store)
has_in_loop zero fq st = some (false, fq, st)
has_in_loop (suc fuel) fq st = elim (get_elem? fq.pipes.items fq.current) [
  | none ↦ none
  | some pipe ↦ elim (Pipe.check_read (st pipe)) [
    | none ↦ none
    | some (ready, p) ↦ elim ready [
      | true ↦ some (true, fq, put st pipe p)
      | false ↦ has_in_loop fuel (retire fq fq.current) (put st pipe p)
    ]
  ]
]

pub has_in : Fq → Store → Option (Bool × Fq × Store)
unfolding has_in_loop
has_in fq st = if fq.more then some (true, fq, st) else has_in_loop fq.active fq st
