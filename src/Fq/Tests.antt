-- ===== src/Fq/Tests.antt =====
-- fq.cpp at concrete values.
use zmq.Base.{
  ℕ, zero, suc, ◌≡◌, refl, arith, true, false, ◌==◌, if◌then◌else◌, some, none, [], ◌∷◌, get_elem?,
  inl,
}
use zmq.Base.Int.{pos}
use zmq.Msg.{init_content}
use zmq.Ypipe
use zmq.Pipe.{Pipe, pipepair}
use zmq.Pipe.Read.{read-inactive}
use zmq.Array
use zmq.Array.{Array}
use zmq.Array.Laws.{IsIndexed}
use zmq.Lb.{Store}
use zmq.Fq.{Fq, Received, pipe_terminated, recvpipe}
use zmq.Fq.Inv.{IsValid}
use zmq.Fq.Recv.{Ends, recvpipe_lem}
use zmq.Fq.Broken.{next_from, recvpipe-none, next_from-pipe_terminated}

-- Pipes 10, 11 and 12, all active; two parts of a message came from the last one.
abbrev pipes : Array
pipes = record {
  items = 10 ∷ 11 ∷ 12 ∷ [];
  index = λ k. if k == 10 then 0 else if k == 11 then 1 else 2;
  failed = false;
}

pipes-IsIndexed : IsIndexed pipes
pipes-IsIndexed = record { index_is = λ i x e. at i e; intact = refl }
  where
    at : {x : ℕ} (i : ℕ) → get_elem? pipes.items i ≡ some x → pipes.index x ≡ i
    at zero e = ground arith
    at (suc zero) e = ground arith
    at (suc (suc zero)) e = ground arith
    at (suc (suc (suc i))) e = absurd (ground arith)

abbrev inside : Fq
inside = record { pipes = pipes; active = 3; last_in = some 10; current = 2; more = true }

abbrev between : Fq
between = record { pipes = pipes; active = 3; last_in = none; current = 0; more = false }

inside-IsValid : IsValid inside
inside-IsValid = record {
  indexed = pipes-IsIndexed;
  active_le = omega arith;
  current_lt = inl (omega arith);
}

between-IsValid : IsValid between
between-IsValid = record {
  indexed = pipes-IsIndexed;
  active_le = omega arith;
  current_lt = inl (omega arith);
}

abbrev passive : Pipe
passive = record (pipepair (pos 2) (pos 2)).0 { in_active = false }

-- A pipe in which one message waits.
abbrev filled : Pipe
filled = record (pipepair (pos 2) (pos 2)).0 {
  in_pipe = (Ypipe.flush (Ypipe.write (Ypipe.fresh _) (init_content (1 ∷ [])) false)).1;
}

abbrev store : Store
store = λ i. if i == 11 then filled else passive

recvpipe_lem_example : (r : Received) × (recvpipe between store ≡ some r) × Ends between store r
recvpipe_lem_example = recvpipe_lem between store between-IsValid (inl refl)

-- The pipe 12 terminates in the middle of its message.
recvpipe-none_example : recvpipe (pipe_terminated inside 12) (λ _. passive) ≡ none
unfolding pipe_terminated pipepair Array.erase Array.swap
recvpipe-none_example =
    recvpipe-none inside 12 10 (λ _. passive) refl refl (omega arith)
      (passive, read-inactive passive refl)

-- The pipe 11 terminates in the middle of the message of pipe 12, and the next part is read from
-- pipe 10.
next_from-pipe_terminated_example : next_from (pipe_terminated inside 11) ≡ some 10
next_from-pipe_terminated_example =
    next_from-pipe_terminated inside 11 1 12 10 refl refl refl (omega arith) (ground arith)
      inside-IsValid
