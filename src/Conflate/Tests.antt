-- ===== src/Conflate/Tests.antt =====
-- ypipe_conflate.hpp at concrete values.
use zmq.Base.{◌≡◌, refl, true, false, none, some, List, [], ◌∷◌}
use zmq.Msg.{init_content}
use zmq.Conflate.{create, write, unwrite, flush, check_read, read, probe}
use zmq.Conflate.Run.{
  Op, wrote, flushed, checked, took, told, done, got, run, spec_run, run_refines_cell,
}

abbrev calls : List Op
calls =
    wrote false (init_content (1 ∷ []))
    ∷ wrote true (init_content (2 ∷ []))
    ∷ flushed
    ∷ checked
    ∷ took
    ∷ checked
    ∷ wrote false (init_content (3 ∷ []))
    ∷ took
    ∷ []

answers :
    run calls create
    ≡ done
      ∷ done
      ∷ told false
      ∷ told true
      ∷ got (some (init_content (1 ∷ [])))
      ∷ told false
      ∷ done
      ∷ got (some (init_content (3 ∷ [])))
      ∷ []
unfolding run write unwrite flush check_read read probe
answers = refl

run_refines_cell_example : run calls create ≡ spec_run calls none
run_refines_cell_example = run_refines_cell calls
