-- ===== src/Pipe/Rollback.antt =====
-- pipe.cpp: the writer's calls on a pair, and the reader's on the same ypipe, before a rollback.
use zmq.Base.{◌≡◌, true, Option, none, some, List, [], ◌∷◌}
use zmq.Msg.{Msg}
use zmq.Ypipe
use zmq.Ypipe.{Ypipe}
use zmq.Ypipe.Spec
use zmq.Ypipe.Spec.{View}
use zmq.Pipe.{Pipe, write, flush, rollback}
use zmq.Pipe.Write.{AllMore, OutOk}

-- A write of any part, a flush or a rollback at the end, and a read or a `check_read` of its ypipe by the peer.
pub data Call : Type 0 where
  writes : Msg → Call
  flushes rolls_back peer_reads peer_checks : Call

-- `none` where an assertion fails.
unfoldable pub run : Pipe → List Call → Option Pipe
run p [] = some p
run p (writes m ∷ cs) = run (write p m).1 cs
run p (flushes ∷ cs) = run (flush p) cs
run p (rolls_back ∷ cs) = elim (rollback p) [ none ↦ none | some q ↦ run q cs ]
run p (peer_reads ∷ cs) = run (record p { out_pipe = (Ypipe.read p.out_pipe).1 }) cs
run p (peer_checks ∷ cs) = run (record p { out_pipe = (Ypipe.check_read p.out_pipe).1 }) cs

IsReady : Pipe → Type 0
IsReady p = OutOk p × (p.has_out ≡ true)

-- A view with the same incomplete message.
same-AllMore : (v w : View Msg) → v.partial ≡ w.partial → AllMore w.partial → AllMore v.partial
same-AllMore v w e h = rw e h
