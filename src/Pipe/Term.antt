-- ===== src/Pipe/Term.antt =====
-- pipe.cpp: how a pair of pipes is closed.
use mathlib.Core.Option
use zmq.Base.{ℕ, zero, suc, Bool, true, false, Option, none, some, length, if◌then◌else◌}
use zmq.Msg.{Msg, init_delimiter}
use zmq.Ypipe
use zmq.Ypipe.{Ypipe}
use zmq.Pipe.{
  Pipe, State, active, delimiter_received, waiting_for_delimiter, term_ack_sent, term_req_sent1,
  term_req_sent2, pipe_term, pipe_term_ack, pipe_terminated, send, notify, rollback, flush,
}

-- `_out_pipe = NULL; send_pipe_term_ack (_peer)`, in the given state.
abbrev pub acknowledge : Pipe → State → Pipe
acknowledge p state = send (record p { has_out = false; state = state }) pipe_term_ack

term_in : Pipe → State → Option Pipe
term_in p active =
    some
      (if p.delay then record p { state = waiting_for_delimiter } else acknowledge p term_ack_sent)
term_in p delimiter_received = some (acknowledge p term_ack_sent)
term_in p term_req_sent1 = some (acknowledge p term_req_sent2)
term_in p _ = none

-- The peer asks for termination.
unfoldable pub process_pipe_term : Pipe → Option Pipe
unfolding term_in
process_pipe_term p = term_in p p.state

-- `while (_in_pipe->read (&msg)) msg.close ()`.
drain : ℕ → Ypipe Msg → Ypipe Msg
drain zero q = q
drain (suc fuel) q = let (out, q') = Ypipe.read q in elim out [ none ↦ q' | some _ ↦ drain fuel q' ]

unfoldable pub delete_pipe : Pipe → Pipe
unfolding drain
delete_pipe p = record p {
  in_pipe = drain (suc (length p.in_pipe.queue)) p.in_pipe;
  deleted = true;
}

term_ack_in : Pipe → State → Option Pipe
term_ack_in p term_req_sent1 = some (delete_pipe (acknowledge p term_req_sent1))
term_ack_in p term_ack_sent = some (delete_pipe p)
term_ack_in p term_req_sent2 = some (delete_pipe p)
term_ack_in p _ = none

-- The peer has let go of the pipe.
unfoldable pub process_pipe_term_ack : Pipe → Option Pipe
unfolding term_ack_in
process_pipe_term_ack p = term_ack_in (notify p pipe_terminated) p.state

-- The end of `terminate`: no more messages, and the delimiter behind the whole ones.
unfoldable pub stop_outbound : Pipe → Option Pipe
stop_outbound p =
    let q : Pipe = record p { out_active = false } in
    if q.has_out
    then Option.map
        (λ (r : Pipe). flush (record r { out_pipe = Ypipe.write r.out_pipe init_delimiter false }))
        (rollback q)
    else some q

-- `rollback (); _out_pipe = NULL; send_pipe_term_ack (_peer); _state = term_ack_sent`.
unfoldable pub abandon : Pipe → Option Pipe
abandon p = elim (rollback p) [ none ↦ none | some q ↦ stop_outbound (acknowledge q term_ack_sent) ]

terminate_in : Pipe → State → Option Pipe
terminate_in p term_req_sent1 = some p
terminate_in p term_req_sent2 = some p
terminate_in p term_ack_sent = some p
terminate_in p active = stop_outbound (record (send p pipe_term) { state = term_req_sent1 })
terminate_in p waiting_for_delimiter = if p.delay then stop_outbound p else abandon p
terminate_in p delimiter_received =
    stop_outbound (record (send p pipe_term) { state = term_req_sent1 })

-- The socket closes its end.
unfoldable pub terminate : Pipe → Bool → Option Pipe
unfolding terminate_in
terminate p delay = terminate_in (record p { delay = delay }) p.state
