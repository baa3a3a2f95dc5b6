-- ===== src/Pipe.antt =====
-- zeromq-4.3.1/src/pipe.hpp and zeromq-4.3.1/src/pipe.cpp: one end of a pair of pipes. `in_pipe` and `out_pipe` are the ypipes
-- that the end's two pointers lead to, and `has_out` says whether `_out_pipe` is not NULL yet. The
-- commands to the peer and the events for the sink are logs, oldest first. An operation that runs
-- into a failed `zmq_assert` has no result (`none`). The pipe is not a conflating one; the routing
-- ids and the endpoint's name that a pipe carries for its socket are left out, and so is tracing.
pub mod Control
pub mod Term
pub mod Water
pub mod Read
pub mod Write
pub mod Rollback
pub mod Handshake
mod Tests
use mathlib.Core.Option
use zmq.Base.{
  ℕ, zero, suc, ◌+◌, ◌-◌, ◌%◌, ◌^◌, Bool, true, false, not, ◌&&◌, ◌||◌, ◌==◌, leb, Option, none,
  some, List, [], ◌∷◌, ◌++◌, length, if◌then◌else◌,
}
use zmq.Base.Int.{ℤ, pos, negsuc, ◌+ℤ◌, pos_part, is_positive, is_zero, half, to_int}
use zmq.Msg.{Msg, has_more, is_routing_id, is_credential, is_delimiter}
use zmq.Ypipe
use zmq.Ypipe.{Ypipe, fresh}

pub data State : Type 0 where
  active delimiter_received waiting_for_delimiter term_ack_sent term_req_sent1 term_req_sent2 :
      State

-- What an end sends to its peer.
pub data Command : Type 0 where
  activate_read : Command
  activate_write : ℕ → Command
  hiccup_command : Command
  pipe_term pipe_term_ack : Command
  pipe_hwm : ℤ → ℤ → Command

-- What an end tells its sink.
pub data Event : Type 0 where
  read_activated write_activated hiccuped pipe_terminated : Event

pub record Pipe : Type 0 where
  pub in_pipe : Ypipe Msg
  pub out_pipe : Ypipe Msg
  pub has_out : Bool
  pub in_active : Bool
  pub out_active : Bool
  pub hwm : ℤ
  pub lwm : ℤ
  pub in_hwm_boost : ℤ
  pub out_hwm_boost : ℤ
  pub msgs_read : ℕ
  pub msgs_written : ℕ
  pub peers_msgs_read : ℕ
  pub state : State
  pub delay : Bool
  -- Set by `delete this`.
  pub deleted : Bool
  pub sent : List Command
  pub events : List Event

-- `uint64_t` counters.
abbrev pub u64 : ℕ
u64 = 2 ^ 64

abbrev pub send : Pipe → Command → Pipe
send p c = record p { sent = p.sent ++ c ∷ [] }

abbrev pub notify : Pipe → Event → Pipe
notify p e = record p { events = p.events ++ e ∷ [] }

pub compute_lwm : ℤ → ℤ
compute_lwm hwm = half (to_int (hwm +ℤ pos 1))

-- The constructor, over the two ypipes.
pub create : Ypipe Msg → Ypipe Msg → ℤ → ℤ → Pipe
unfolding compute_lwm
create inpipe outpipe inhwm outhwm = record {
  in_pipe = inpipe;
  out_pipe = outpipe;
  has_out = true;
  in_active = true;
  out_active = true;
  hwm = outhwm;
  lwm = compute_lwm inhwm;
  in_hwm_boost = negsuc 0;
  out_hwm_boost = negsuc 0;
  msgs_read = 0;
  msgs_written = 0;
  peers_msgs_read = 0;
  state = active;
  delay = true;
  deleted = false;
  sent = [];
  events = [];
}

-- Two ends joined by two fresh ypipes; the pair of marks is that of the array `hwms_`.
unfoldable pub pipepair : ℤ → ℤ → Pipe × Pipe
unfolding create
pipepair hwm0 hwm1 =
    (create (fresh Msg) (fresh Msg) hwm1 hwm0, create (fresh Msg) (fresh Msg) hwm0 hwm1)

abbrev pub is_active : State → Bool
is_active active = true
is_active _ = false

-- `_state == active || _state == waiting_for_delimiter`.
abbrev pub may_read : State → Bool
may_read active = true
may_read waiting_for_delimiter = true
may_read _ = false

abbrev pub is_ack_sent : State → Bool
is_ack_sent term_ack_sent = true
is_ack_sent _ = false

delimited : Pipe → State → Option Pipe
delimited p active = some (record p { state = delimiter_received })
delimited p waiting_for_delimiter =
    some (record (send (record p { has_out = false }) pipe_term_ack) { state = term_ack_sent })
delimited p _ = none

pub process_delimiter : Pipe → Option Pipe
unfolding delimited
process_delimiter p = delimited p p.state

-- The delimiter is taken out of the pipe; `zmq_assert (ok)`.
take_delimiter : Pipe → Option (Bool × Pipe)
take_delimiter p =
    let (out, q) = Ypipe.read p.in_pipe in
    elim out [
      | none ↦ none
      | some _ ↦ Option.map (λ r. (false, r)) (process_delimiter (record p { in_pipe = q }))
    ]

pub check_read : Pipe → Option (Bool × Pipe)
check_read p =
    if not p.in_active
    then some (false, p)
    else if not (may_read p.state)
    then some (false, p)
    else let (ready, q) = Ypipe.check_read p.in_pipe in
      if not ready
      then some (false, record p { in_pipe = q; in_active = false })
      else elim (Ypipe.probe q (λ m. is_delimiter m)) [
        | none ↦ none
        | some (at_delimiter, q') ↦
            if at_delimiter
            then take_delimiter (record p { in_pipe = q' })
            else some (true, record p { in_pipe = q' })
      ]

-- The loop of `read`, which passes credentials over. Each round takes one item out, so that one more
-- round than there are items is enough (Read).
pub read_payload : ℕ → Ypipe Msg → Option Msg × Ypipe Msg
read_payload zero q = (none, q)
read_payload (suc fuel) q =
    let (out, q') = Ypipe.read q in
    elim out [
      | none ↦ (none, q')
      | some m ↦ elim (is_credential m) [ true ↦ read_payload fuel q' | false ↦ (some m, q') ]
    ]

-- The count of whole messages, and the word to the writer at every `lwm`-th.
count_read : Pipe → Msg → Pipe
count_read p m =
    let n =
      if not (has_more m) && not (is_routing_id m) then (p.msgs_read + 1) % u64 else p.msgs_read in
    let q : Pipe = record p { msgs_read = n } in
    if is_positive p.lwm && n % pos_part p.lwm == 0 then send q (activate_write n) else q

-- `some (none, q)` is the result `false`.
pub read : Pipe → Option (Option Msg × Pipe)
read p =
    if not p.in_active
    then some (none, p)
    else if not (may_read p.state)
    then some (none, p)
    else let (out, q) = read_payload (suc (length p.in_pipe.queue)) p.in_pipe in
      elim out [
        | none ↦ some (none, record p { in_pipe = q; in_active = false })
        | some m ↦
            if is_delimiter m
            then Option.map (λ r. (none, r)) (process_delimiter (record p { in_pipe = q }))
            else some (some m, count_read (record p { in_pipe = q }) m)
      ]

-- False at the high watermark; the difference of the counters wraps.
pub check_hwm : Pipe → Bool
check_hwm p =
    not
      (is_positive p.hwm && leb (pos_part p.hwm) ((p.msgs_written + u64 - p.peers_msgs_read) % u64))

pub check_write : Pipe → Bool × Pipe
unfolding check_hwm
check_write p =
    if not p.out_active || not (is_active p.state)
    then (false, p)
    else if not (check_hwm p)
    then (false, record p { out_active = false })
    else (true, p)

pub write : Pipe → Msg → Bool × Pipe
unfolding check_write
write p m =
    let (ok, q) = check_write p in
    if not ok
    then (false, q)
    else let n =
        if not (has_more m) && not (is_routing_id m)
        then (q.msgs_written + 1) % u64
        else q.msgs_written in
      (true, record q { out_pipe = Ypipe.write q.out_pipe m (has_more m); msgs_written = n })

-- `while (_out_pipe->unwrite (&msg)) zmq_assert (msg.flags () & more)`.
unwrite_all : ℕ → Ypipe Msg → Option (Ypipe Msg)
unwrite_all zero q = some q
unwrite_all (suc fuel) q = elim (Ypipe.unwrite q) [
  | none ↦ some q
  | some (m, q') ↦ elim (has_more m) [ true ↦ unwrite_all fuel q' | false ↦ none ]
]

pub rollback : Pipe → Option Pipe
rollback p =
    if p.has_out
    then Option.map (λ q. record p { out_pipe = q })
        (unwrite_all (suc (length p.out_pipe.queue)) p.out_pipe)
    else some p

pub flush : Pipe → Pipe
flush p =
    if is_ack_sent p.state || not p.has_out
    then p
    else let (awake, q) = Ypipe.flush p.out_pipe in
      let p' : Pipe = record p { out_pipe = q } in if awake then p' else send p' activate_read
