-- ===== src/Pipe/Control.antt =====
-- pipe.cpp: the commands and calls that steer the flow of messages.
use zmq.Base.{
  ℕ, zero, suc, ◌+◌, ◌-◌, ◌%◌, true, false, not, ◌&&◌, ◌||◌, Option, none, some, length,
  if◌then◌else◌,
}
use zmq.Base.Int.{ℤ, pos, negsuc, ◌+ℤ◌, is_positive, is_zero, to_int}
use zmq.Msg.{Msg, has_more}
use zmq.Ypipe
use zmq.Ypipe.{Ypipe, fresh}
use zmq.Pipe.{
  Pipe, read_activated, write_activated, hiccuped, hiccup_command, pipe_hwm, send, notify,
  is_active, may_read, u64, compute_lwm,
}

unfoldable pub process_activate_read : Pipe → Pipe
process_activate_read p =
    if not p.in_active && may_read p.state
    then notify (record p { in_active = true }) read_activated
    else p

unfoldable pub process_activate_write : Pipe → ℕ → Pipe
process_activate_write p msgs_read =
    let q : Pipe = record p { peers_msgs_read = msgs_read } in
    if not q.out_active && is_active q.state
    then notify (record q { out_active = true }) write_activated
    else q

-- The messages that the old outbound pipe still holds are not counted any more.
uncount : ℕ → Ypipe Msg → ℕ → ℕ
uncount zero q n = n
uncount (suc fuel) q n =
    let (out, q') = Ypipe.read q in
    elim out [ none ↦ n | some m ↦ uncount fuel q' (if has_more m then n else (n + u64 - 1) % u64) ]

-- `pipe` is the argument, or none if it is NULL; `none`: an assertion fails.
unfoldable pub process_hiccup : Pipe → Option (Ypipe Msg) → Option Pipe
unfolding uncount
process_hiccup p none = none
process_hiccup p (some pipe) =
    let (_, old) = Ypipe.flush p.out_pipe in
    let q : Pipe = record p {
      msgs_written = uncount (suc (length old.queue)) old p.msgs_written;
      out_pipe = pipe;
      has_out = true;
      out_active = true;
    } in
    if not p.has_out then none else some (if is_active q.state then notify q hiccuped else q)

-- The reader drops the inbound pipe and starts a new one.
unfoldable pub hiccup : Pipe → Pipe
hiccup p =
    if not (is_active p.state)
    then p
    else send (record p { in_pipe = fresh Msg; in_active = true }) hiccup_command

-- `std::max (boost, 0)`.
abbrev at_least_zero : ℤ → ℤ
at_least_zero (pos n) = pos n
at_least_zero (negsuc n) = pos 0

-- A watermark with its boost; 0, no limit, if either says so.
boosted : ℤ → ℤ → ℤ
boosted hwm boost =
    if not (is_positive hwm) || is_zero boost then pos 0 else to_int (hwm +ℤ at_least_zero boost)

unfoldable pub set_hwms : Pipe → ℤ → ℤ → Pipe
unfolding boosted compute_lwm
set_hwms p inhwm outhwm = record p {
  lwm = compute_lwm (boosted inhwm p.in_hwm_boost);
  hwm = boosted outhwm p.out_hwm_boost;
}

unfoldable pub set_hwms_boost : Pipe → ℤ → ℤ → Pipe
set_hwms_boost p inboost outboost = record p { in_hwm_boost = inboost; out_hwm_boost = outboost }

unfoldable pub send_hwms_to_peer : Pipe → ℤ → ℤ → Pipe
send_hwms_to_peer p inhwm outhwm = send p (pipe_hwm inhwm outhwm)

unfoldable pub process_pipe_hwm : Pipe → ℤ → ℤ → Pipe
unfolding set_hwms
process_pipe_hwm p inhwm outhwm = set_hwms p inhwm outhwm

unfoldable pub set_nodelay : Pipe → Pipe
set_nodelay p = record p { delay = false }
