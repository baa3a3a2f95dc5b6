-- ===== src/Ypipe/Run.antt =====
-- Sequences of operations, those of the two threads in any order.
use zmq.Base.{
  ◌≡◌, ◌≢◌, refl, arith, Bool, true, false, Option, none, some, List, [], ◌∷◌, ap, Option-cases,
  inl, inr,
}
use zmq.Ypipe.{Ypipe, write, unwrite, flush, check_read, read}
use zmq.Ypipe.Laws.{
  IsValid, write-IsValid, unwrite-IsValid, flush-IsValid, check_read-IsValid, read-IsValid,
}
use zmq.Ypipe.Refine.{
  view, view-write, unwrite_refines, flush_refines, check_read_refines, read_refines,
}
use zmq.Ypipe.Spec
use zmq.Ypipe.Spec.{
  View, Op, writes, unwrites, flushes, check_reads, reads, Reply, quiet, flag, item,
}

module _ {A : Type 0} where
  unwritten : Ypipe A → Option (A × Ypipe A) → Reply A × Ypipe A
  unwritten p none = (item none, p)
  unwritten p (some (a, q)) = (item (some a), q)

  pub step : Ypipe A → Op A → Reply A × Ypipe A
  unfolding unwritten
  step p (writes a incomplete) = (quiet, write p a incomplete)
  step p unwrites = unwritten p (unwrite p)
  step p flushes = let (ok, q) = flush p in (flag ok, q)
  step p check_reads = let (ok, q) = check_read p in (flag ok, q)
  step p reads = let (out, q) = read p in (item out, q)

  pub run : Ypipe A → List (Op A) → List (Reply A)
  run p [] = []
  run p (op ∷ ops) = let (reply, q) = step p op in reply ∷ run q ops

  step-IsValid : (p : Ypipe A) (op : Op A) → IsValid p → IsValid (step p op).1
  unfolding step
  step-IsValid p (writes a inc) h = write-IsValid p a inc h
  step-IsValid p unwrites h = elim (Option-cases (unwrite p)) [
    | inl e ↦ rw (e, unwritten) h
    | inr ((a, q), e) ↦ rw (e, unwritten) (unwrite-IsValid p q a h e)
  ]
  step-IsValid p flushes h = flush-IsValid p h
  step-IsValid p check_reads h = check_read-IsValid p h
  step-IsValid p reads h = read-IsValid p h

  step_refines :
      (p : Ypipe A) (op : Op A)
      → IsValid p
      → let (reply, q) = step p op in (reply, view q) ≡ Spec.step (view p) op
  unfolding step Spec.step
  step_refines p (writes a inc) h = ap (λ v. (quiet, v)) (view-write p a inc h)
  step_refines p unwrites h = elim (Option-cases (unwrite p)) [
    | inl e ↦ ground (arith, unwrite_refines p h)
    | inr ((a, q), e) ↦ ground (arith, unwrite_refines p h)
  ]
  step_refines p flushes h = ground (arith, flush_refines p h)
  step_refines p check_reads h = ground (arith, check_read_refines p h)
  step_refines p reads h = ground (arith, read_refines p h)

  -- In any sequence of operations a valid ypipe answers as its specification does.
  pub run_refines :
      (p : Ypipe A) (ops : List (Op A)) → IsValid p → run p ops ≡ Spec.run (view p) ops
  unfolding run Spec.run
  run_refines p [] h = refl
  run_refines p (op ∷ ops) h =
      cc (step_refines p op h, run_refines (step p op).1 ops (step-IsValid p op h))

  -- The writer's calls between two flushes.
  unfoldable pub write_all : Ypipe A → List (A × Bool) → Ypipe A
  write_all p [] = p
  write_all p ((a, incomplete) ∷ ws) = write_all (write p a incomplete) ws

  -- Nothing to read, and the reader waits to be woken up.
  abbrev Sleeps : Ypipe A → Type 0
  Sleeps p = IsValid p × ((view p).readable ≡ []) × ((view p).asleep ≡ true)

  write_all-Sleeps : (p : Ypipe A) (ws : List (A × Bool)) → Sleeps p → Sleeps (write_all p ws)
  unfolding write_all
  write_all-Sleeps p [] h = h
  write_all-Sleeps p ((a, true) ∷ ws) h = write_all-Sleeps (write p a true) ws (
    write-IsValid p a true h.0,
    unfold Spec.write in cc (view-write p a true h.0),
    unfold Spec.write in cc (view-write p a true h.0),
  )
  write_all-Sleeps p ((a, false) ∷ ws) h = write_all-Sleeps (write p a false) ws (
    write-IsValid p a false h.0,
    unfold Spec.write in cc (view-write p a false h.0),
    unfold Spec.write in cc (view-write p a false h.0),
  )

  check_read-Sleeps : (p : Ypipe A) → IsValid p → (check_read p).0 ≡ false → Sleeps (check_read p).1
  unfolding Spec.check_read
  check_read-Sleeps p h e = (
    check_read-IsValid p h,
    ground (arith, check_read_refines p h),
    ground (arith, check_read_refines p h),
  )

  flush-false_of_Sleeps :
      (p : Ypipe A) → Sleeps p → (view (flush p).1).readable ≢ [] → (flush p).0 ≡ false
  unfolding Spec.flush
  flush-false_of_Sleeps p h news = ground (arith, flush_refines p h.0)

  -- No wake-up is lost: a reader whose `check_read` failed is woken up by the first flush that gives
  -- it something to read, whatever was written between the two.
  pub flush-false_of_asleep :
      (p : Ypipe A) (ws : List (A × Bool))
      → IsValid p
      → (check_read p).0 ≡ false
      → (view (flush (write_all (check_read p).1 ws)).1).readable ≢ []
      → (flush (write_all (check_read p).1 ws)).0 ≡ false
  flush-false_of_asleep p ws h e news =
      flush-false_of_Sleeps (write_all (check_read p).1 ws)
        (write_all-Sleeps (check_read p).1 ws (check_read-Sleeps p h e)) news
