-- ===== src/Lb/Tests.antt =====
-- lb.cpp at concrete values.
use zmq.Base.{
  ℕ, zero, suc, ◌≡◌, refl, arith, true, false, ◌==◌, if◌then◌else◌, some, [], ◌∷◌, get_elem?, inl,
}
use zmq.Base.Int.{pos}
use zmq.Msg
use zmq.Msg.{Msg, init_content, set_flags}
use zmq.Pipe.{pipepair}
use zmq.Array.{Array}
use zmq.Array.Laws.{IsIndexed}
use zmq.Lb.{Lb, Store, pipe_terminated}
use zmq.Lb.Inv.{IsValid}
use zmq.Lb.Broken.{next_to, next_to-pipe_terminated}

-- Pipes 10, 11 and 12, all active; two parts of a message went to the last one.
abbrev pipes : Array
pipes = record {
  items = 10 ∷ 11 ∷ 12 ∷ [];
  index = λ k. if k == 10 then 0 else if k == 11 then 1 else 2;
  failed = false;
}

pipes-IsIndexed : IsIndexed pipes
pipes-IsIndexed = record { index_is = λ i x e. at i e; intact = refl }
  where
    at : {x : ℕ} (i : ℕ) → get_elem? pipes.items i ≡ some x → pipes.index x ≡ i
    at zero e = ground arith
    at (suc zero) e = ground arith
    at (suc (suc zero)) e = ground arith
    at (suc (suc (suc i))) e = absurd (ground arith)

abbrev lb : Lb
lb = record { pipes = pipes; active = 3; current = 2; more = true; dropping = false }

lb-IsValid : IsValid lb
lb-IsValid = record {
  indexed = pipes-IsIndexed;
  active_le = omega arith;
  current_lt = inl (omega arith);
}

abbrev store : Store
store = λ _. (pipepair (pos 2) (pos 2)).0

abbrev part : Msg
part = set_flags (init_content (1 ∷ [])) Msg.more

-- The pipe 11 terminates in the middle of the message, and the next part goes to pipe 10.
next_to-pipe_terminated_example :
    ((pipe_terminated lb 11).dropping ≡ false) × (next_to (pipe_terminated lb 11) ≡ some 10)
next_to-pipe_terminated_example =
    next_to-pipe_terminated lb 11 1 12 10 refl refl refl (omega arith) (ground arith) refl
      lb-IsValid
