-- ===== src/Yqueue/Tests.antt =====
-- yqueue.hpp at concrete values.
use zmq.Base.{ℕ, ◌≡◌, refl, arith, ◌==◌, if◌then◌else◌, Option, none, some, List, [], ◌∷◌}
use zmq.Yqueue.{Chunk, Yqueue, put, ◌>>=◌, create, front, back, set_back, push, unpush, pop}
use zmq.Yqueue.Bounds.{InBounds, Reachable, started, called, Reachable-InBounds}
use zmq.Yqueue.Run.{Op, wrote, unwrote, took, start, run, spec_run, run_refines_list}

abbrev junk : Chunk ℕ
junk = record { values = λ _. 0; prev = some 77; next = some 88 }

-- After one call.
one_written : Yqueue ℕ
unfolding create
one_written = record (create junk) {
  heap = put 0 (some (record junk { values = λ i. if i == 0 then 9 else 0 })) (create junk).heap;
  back_chunk = some 0;
  back_pos = 1;
  end_pos = 2;
}

-- Over three chunks of two elements, and back again, so that the spare chunk is used.
abbrev calls : List (Op ℕ)
calls =
    wrote 1
    ∷ wrote 2
    ∷ wrote 3
    ∷ wrote 4
    ∷ unwrote
    ∷ unwrote
    ∷ wrote 5
    ∷ took
    ∷ took
    ∷ took
    ∷ wrote 6
    ∷ wrote 7
    ∷ took
    ∷ took
    ∷ wrote 8
    ∷ took
    ∷ []

abbrev answers : List (Option ℕ)
answers =
    none
    ∷ none
    ∷ none
    ∷ none
    ∷ some 4
    ∷ some 3
    ∷ none
    ∷ some 1
    ∷ some 2
    ∷ some 5
    ∷ none
    ∷ none
    ∷ some 6
    ∷ some 7
    ∷ none
    ∷ some 8
    ∷ []

runs : (start 2 junk >>= run 2 junk calls) ≡ some answers
unfolding run start create push pop unpush set_back front back
runs = refl

run_refines_list_example : (start 2 junk >>= run 2 junk calls) ≡ some answers
unfolding spec_run
run_refines_list_example = run_refines_list 2 junk calls answers refl

first_queue : Yqueue ℕ
unfolding create
first_queue = record (create junk) { back_chunk = some 0; end_pos = 1 }

one_written-Reachable : Reachable 4 junk one_written
unfolding start create push set_back first_queue one_written
one_written-Reachable =
    called {q = first_queue} {q' = one_written} (wrote 9) none (started {q = first_queue} refl) refl

Reachable-InBounds_example : InBounds 4 one_written
Reachable-InBounds_example =
    Reachable-InBounds 4 junk (omega arith) one_written one_written-Reachable
