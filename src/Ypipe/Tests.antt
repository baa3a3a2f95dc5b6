-- ===== src/Ypipe/Tests.antt =====
-- ypipe.hpp at concrete values.
use zmq.Base.{ℕ, ◌≡◌, refl, arith, true, false, none, some, List, [], ◌∷◌}
use zmq.Ypipe.{fresh, write, flush, check_read}
use zmq.Ypipe.Laws.{fresh-IsValid}
use zmq.Ypipe.Refine.{view}
use zmq.Ypipe.Spec
use zmq.Ypipe.Spec.{Op, writes, unwrites, flushes, check_reads, reads, Reply, quiet, flag, item}
use zmq.Ypipe.Run.{run, run_refines, write_all, flush-false_of_asleep}

-- A message of two parts, with a third part taken back before the flush.
abbrev ops : List (Op ℕ)
ops =
    check_reads
    ∷ writes 4 true
    ∷ writes 5 false
    ∷ writes 6 true
    ∷ unwrites
    ∷ flushes
    ∷ reads
    ∷ reads
    ∷ reads
    ∷ []

run-ops :
    Spec.run (view (fresh ℕ)) ops
    ≡ flag false
      ∷ quiet
      ∷ quiet
      ∷ quiet
      ∷ item (some 6)
      ∷ flag false
      ∷ item (some 4)
      ∷ item (some 5)
      ∷ item none
      ∷ []
unfolding Spec.run Spec.step Spec.check_read Spec.unwrite Spec.flush Spec.read Spec.write
run-ops = refl

run_refines_example : run (fresh ℕ) ops ≡ Spec.run (view (fresh ℕ)) ops
run_refines_example = run_refines (fresh ℕ) ops fresh-IsValid

flush-false_of_asleep_example :
    (flush (write_all (check_read (fresh ℕ)).1 ((7, true) ∷ (8, false) ∷ []))).0 ≡ false
unfolding check_read write_all write flush
flush-false_of_asleep_example =
    flush-false_of_asleep (fresh ℕ) ((7, true) ∷ (8, false) ∷ []) fresh-IsValid (ground arith)
      (ground arith)
