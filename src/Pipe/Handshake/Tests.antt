-- ===== src/Pipe/Handshake/Tests.antt =====
-- The closing of a pipe pair, at concrete ends.
use zmq.Base.{◌≡◌, ◌≢◌, inl, refl, arith, true, false, none, some, [], ◌∷◌}
use zmq.Base.Int.{pos}
use zmq.Msg
use zmq.Ypipe
use zmq.Pipe.{Pipe, term_req_sent1, pipepair, pipe_term, rollback, flush, unwrite_all}
use zmq.Pipe.Term.{terminate, stop_outbound}
use zmq.Pipe.Handshake.{System, terminates, Reach, here, next, left_acts, handle, shared}
use zmq.Pipe.Handshake.Safe.{joined, commands_handled}

abbrev start : System
start = joined (pos 2) (pos 2)

-- The left end after `terminate (true)`: the delimiter is written, the request is sent.
abbrev closing : Pipe
closing = record start.left {
  out_pipe = record start.left.out_pipe {
    queue = Msg.init_delimiter ∷ [];
    w = 1;
    f = 1;
    c = some 1;
  };
  out_active = false;
  state = term_req_sent1;
  sent = pipe_term ∷ [];
}

terminate-start : terminate start.left true ≡ some closing
unfolding terminate pipepair stop_outbound rollback unwrite_all flush Ypipe.write Ypipe.unwrite
    Ypipe.flush
terminate-start = refl

abbrev asked : System
asked = record { left = closing; right = shared closing start.right }

asked-Reach : Reach start asked
unfolding pipepair
asked-Reach = next here (left_acts closing refl (terminates true closing terminate-start))

commands_handled_example : (asked.right.deleted ≡ false) × (handle pipe_term asked.right ≢ none)
commands_handled_example =
    commands_handled (pos 2) (pos 2) asked closing asked.right pipe_term [] asked-Reach
      (inl (refl, refl)) refl (ground arith)
