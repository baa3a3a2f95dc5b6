-- ===== src/Ypipe/Refine.antt =====
-- A valid ypipe does what its specification says, operation by operation and in any sequence.
use mathlib.Core.Option
use zmq.Base.{
  ℕ, ◌+◌, ◌-◌, ◌≡◌, arith, Bool, true, false, Option, none, some, List, [], ◌∷◌, ◌++◌, take, drop,
  append_assoc, length-append, length-drop, take-append, drop-append, take-all, drop-all,
  take-append-drop, length-take, take-add, drop-add, take-drop_last, drop-drop_last, get_last?-drop,
}
use zmq.Ypipe.{Ypipe, back, write, unwrite, flush, check_read, read}
use zmq.Ypipe.Laws.{IsValid}
use zmq.Ypipe.Spec
use zmq.Ypipe.Spec.{View}

abbrev is_none : Option ℕ → Bool
is_none none = true
is_none (some x) = false

module _ {A : Type 0} where
  -- The items behind the first un-flushed one.
  abbrev unflushed : Ypipe A → List A
  unflushed p = drop (p.w - p.front) p.queue

  -- What a ypipe holds, by the positions of its pointers.
  abbrev pub view : Ypipe A → View A
  view p = record {
    readable = take (p.w - p.front) p.queue;
    complete = take (p.f - p.w) (unflushed p);
    partial = drop (p.f - p.w) (unflushed p);
    asleep = is_none p.c;
  }

  -- `write` appends a part, and the last part of a message completes it.
  pub view-write :
      (p : Ypipe A) (v : A) (inc : Bool)
      → IsValid p
      → view (write p v inc) ≡ Spec.write (view p) v inc
  unfolding write Spec.write
  view-write p v true h = ground (
    arith,
    take-append (p.w - p.front) p.queue (v ∷ []) (omega arith),
    drop-append (p.w - p.front) p.queue (v ∷ []) (omega arith),
    take-append (p.f - p.w) (unflushed p) (v ∷ [])
        (omega (arith, length-drop (p.w - p.front) p.queue)),
    drop-append (p.f - p.w) (unflushed p) (v ∷ [])
        (omega (arith, length-drop (p.w - p.front) p.queue)),
  )
  view-write p v false h = ground (
    arith,
    length-append p.queue (v ∷ []),
    take-append (p.w - p.front) p.queue (v ∷ []) (omega arith),
    drop-append (p.w - p.front) p.queue (v ∷ []) (omega arith),
    length-drop (p.w - p.front) p.queue,
    length-append (unflushed p) (v ∷ []),
    take-all (back p + 1 - p.w) (unflushed p ++ v ∷ []),
    drop-all (back p + 1 - p.w) (unflushed p ++ v ∷ []),
    take-append-drop (p.f - p.w) (unflushed p),
    append_assoc (take (p.f - p.w) (unflushed p)) (drop (p.f - p.w) (unflushed p)) (v ∷ []),
  )

  -- `flush` makes the whole messages readable, and is false exactly if there are any and the reader
  -- sleeps.
  pub flush_refines :
      (p : Ypipe A) → IsValid p → let (ok, q) = flush p in (ok, view q) ≡ Spec.flush (view p)
  unfolding flush Spec.flush
  flush_refines p h = ground (
    arith,
    take-add (p.w - p.front) (p.f - p.w) p.queue,
    drop-add (p.w - p.front) (p.f - p.w) p.queue,
    length-drop (p.w - p.front) p.queue,
    length-take (p.f - p.w) (unflushed p),
  )

  pub unwrite_refines :
      (p : Ypipe A)
      → IsValid p
      → Option.map (λ (r : A × Ypipe A). (r.0, view r.1)) (unwrite p) ≡ Spec.unwrite (view p)
  unfolding unwrite Spec.unwrite
  unwrite_refines p h = ground (
    arith,
    drop-all (p.f - p.w) (unflushed p),
    length-drop (p.w - p.front) p.queue,
    get_last?-drop (p.w - p.front) p.queue,
    get_last?-drop (p.f - p.w) (unflushed p),
    drop-drop_last (p.w - p.front) p.queue,
    drop-drop_last (p.f - p.w) (unflushed p),
    take-drop_last (p.w - p.front) p.queue,
    take-drop_last (p.f - p.w) (unflushed p),
  )

  pub check_read_refines :
      (p : Ypipe A)
      → IsValid p
      → let (ok, q) = check_read p in (ok, view q) ≡ Spec.check_read (view p)
  unfolding check_read Spec.check_read
  check_read_refines p h = ground (arith, length-take (p.w - p.front) p.queue)

  pub read_refines :
      (p : Ypipe A) → IsValid p → let (out, q) = read p in (out, view q) ≡ Spec.read (view p)
  unfolding read Spec.read
  read_refines p h = ground (arith, length-take (p.w - p.front) p.queue)
