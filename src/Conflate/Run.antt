-- ===== src/Conflate/Run.antt =====
-- ypipe_conflate.hpp: any interleaving, against a cell for one message.
use zmq.Base.{
  ◌≡◌, refl, ap, ◌∙◌, Bool, true, false, Option, none, some, List, [], ◌∷◌, if◌then◌else◌,
}
use zmq.Msg.{Msg}
use zmq.Conflate.{Conflate, create, write, unwrite, flush, check_read, read, probe}

-- `asked` is `check_read` and then, if there is a message, `probe`.
pub data Op : Type 0 where
  wrote : Bool → Msg → Op
  unwrote flushed checked took : Op
  asked : (Msg → Bool) → Op

pub data Answer : Type 0 where
  done : Answer
  told : Bool → Answer
  got : Option Msg → Answer

abbrev ask : (Msg → Bool) → Bool × Conflate → Answer × Conflate
ask fn (true, p) = (told (probe fn p).0, (probe fn p).1)
ask fn (false, p) = (told false, p)

abbrev pub step : Op → Conflate → Answer × Conflate
step (wrote locked m) p = (done, write locked m p)
step unwrote p = (got (unwrite p).0, (unwrite p).1)
step flushed p = (told (flush p).0, (flush p).1)
step checked p = (told (check_read p).0, (check_read p).1)
step took p = (got (read p).0, (read p).1)
step (asked fn) p = ask fn (check_read p)

unfoldable pub run : List Op → Conflate → List Answer
run [] p = []
run (op ∷ ops) p = (step op p).0 ∷ run ops (step op p).1

-- A cell holds the last message whose write found the lock free, until it is read.
abbrev holds : Option Msg → Bool
holds none = false
holds (some m) = true

abbrev satisfies : (Msg → Bool) → Option Msg → Bool
satisfies fn none = false
satisfies fn (some m) = fn m

abbrev spec_step : Op → Option Msg → Answer × Option Msg
spec_step (wrote locked m) cell = (done, if locked then cell else some m)
spec_step unwrote cell = (got none, cell)
spec_step flushed cell = (told false, cell)
spec_step checked cell = (told (holds cell), cell)
spec_step took cell = (got cell, none)
spec_step (asked fn) cell = (told (satisfies fn cell), cell)

pub spec_run : List Op → Option Msg → List Answer
spec_run [] cell = []
spec_run (op ∷ ops) cell = (spec_step op cell).0 ∷ spec_run ops (spec_step op cell).1

-- A pipe stands for the cell; its reader is never marked as awake.
data Represents : Conflate → Option Msg → Type 0 where
  empty :
      {back front : Msg}
      → Represents
          (record {
            dbuffer = record { back = back; front = front; has_msg = false };
            reader_awake = false;
          })
          none
  full :
      {back front : Msg}
      → Represents
          (record {
            dbuffer = record { back = back; front = front; has_msg = true };
            reader_awake = false;
          })
          (some front)

step_refines :
    (op : Op) (p : Conflate) (cell : Option Msg)
    → Represents p cell
    → ((step op p).0 ≡ (spec_step op cell).0) × Represents (step op p).1 (spec_step op cell).1
unfolding write unwrite flush check_read read probe
step_refines (wrote true m) p cell empty = (refl, empty)
step_refines (wrote true m) p cell full = (refl, full)
step_refines (wrote false m) p cell empty = (refl, full)
step_refines (wrote false m) p cell full = (refl, full)
step_refines unwrote p cell empty = (refl, empty)
step_refines unwrote p cell full = (refl, full)
step_refines flushed p cell empty = (refl, empty)
step_refines flushed p cell full = (refl, full)
step_refines checked p cell empty = (refl, empty)
step_refines checked p cell full = (refl, full)
step_refines took p cell empty = (refl, empty)
step_refines took p cell full = (refl, empty)
step_refines (asked fn) p cell empty = (refl, empty)
step_refines (asked fn) p cell full = (refl, full)

run_refines :
    (ops : List Op) (p : Conflate) (cell : Option Msg)
    → Represents p cell
    → run ops p ≡ spec_run ops cell
unfolding run spec_run
run_refines [] p cell r = refl
run_refines (op ∷ ops) p cell r =
    let (same, r') = step_refines op p cell r in
    let later = run_refines ops (step op p).1 (spec_step op cell).1 r' in
    ap (λ a. a ∷ run ops (step op p).1) same ∙ ap (λ rest. (spec_step op cell).0 ∷ rest) later

-- In any interleaving a new conflating pipe answers as a cell for one message: a write that finds the
-- lock free replaces what the cell holds and a read empties it, a write that finds the lock taken
-- changes nothing that is ever read, there is nothing to unwrite, and `flush` always tells the writer to
-- wake the reader up.
pub run_refines_cell : (ops : List Op) → run ops create ≡ spec_run ops none
run_refines_cell ops = run_refines ops create none empty
