-- ===== src/Ypipe.antt =====
-- zeromq-4.3.1/src/ypipe.hpp: the lock-free queue between one writer thread and one reader thread.
-- A pointer into the queue is a position: the count of items that were ever written before it.
-- `queue` holds the items from `front` on, without the terminator element: the sequence for which the chunks
-- of zeromq-4.3.1/src/yqueue.hpp stand (Yqueue). Each operation makes at most one atomic access
-- to `c`, so that an interleaving of the two threads is a sequence of these operations.
pub mod Spec
pub mod Laws
pub mod Refine
pub mod Run
mod Tests
use mathlib.Core.Option
use zmq.Base.{
  ℕ, ◌+◌, Bool, true, false, not, ◌&&◌, ◌||◌, ◌==◌, same, Option, none, some, List, [], ◌∷◌, ◌++◌,
  length, drop_last, get_last?, if◌then◌else◌,
}

pub record Ypipe {ℓ} (A : Type ℓ) : Type ℓ where
  pub queue : List A
  pub front : ℕ
  -- The first un-flushed item, of the writer.
  pub w : ℕ
  -- The first un-prefetched item, of the reader; `none` is NULL.
  pub r : Option ℕ
  -- The first item to be flushed in the future, of the writer.
  pub f : ℕ
  -- Past the last flushed item; NULL if the reader is asleep.
  pub c : Option ℕ

module _ {ℓ} {A : Type ℓ} where
  -- The position of the terminator, `&_queue.back ()`.
  abbrev pub back : Ypipe A → ℕ
  back p = p.front + length p.queue

  unfoldable pub write : Ypipe A → A → Bool → Ypipe A
  write p value incomplete =
      let q : Ypipe A = record p { queue = p.queue ++ value ∷ [] } in
      if incomplete then q else record q { f = back q }

  -- `none` is the result `false`. `unpush` moves the terminator onto the last item.
  unfoldable pub unwrite : Ypipe A → Option (A × Ypipe A)
  unwrite p =
      if p.f == back p
      then none
      else Option.map (λ v. (v, record p { queue = drop_last p.queue })) (get_last? p.queue)

  -- `false` tells the writer to wake the reader up.
  unfoldable pub flush : Ypipe A → Bool × Ypipe A
  flush p =
      if p.w == p.f then (true, p) else (same p.c (some p.w), record p { c = some p.f; w = p.f })

  -- `_c.cas (&_queue.front (), NULL)`: the old value is stored to `r`.
  prefetch : Ypipe A → Ypipe A
  prefetch p =
      if same p.c (some p.front) then record p { c = none; r = p.c } else record p { r = p.c }

  has_prefetched : Ypipe A → Bool
  has_prefetched p = not (same (some p.front) p.r) && not (same p.r none)

  unfoldable pub check_read : Ypipe A → Bool × Ypipe A
  unfolding prefetch has_prefetched
  check_read p = if has_prefetched p then (true, p) else let q = prefetch p in (has_prefetched q, q)

  pop_front : Ypipe A → List A → Option A × Ypipe A
  pop_front p [] = (none, p)
  pop_front p (x ∷ xs) = (some x, record p { queue = xs; front = p.front + 1 })

  -- `none` is the result `false`.
  unfoldable pub read : Ypipe A → Option A × Ypipe A
  unfolding check_read pop_front
  read p = let (ready, q) = check_read p in if ready then pop_front q q.queue else (none, q)

  probed : (A → Bool) → Ypipe A → List A → Option (Bool × Ypipe A)
  probed fn q [] = none
  probed fn q (x ∷ xs) = some (fn x, q)

  -- `none`: `zmq_assert (rc)` fails, or the queue has no front.
  unfoldable pub probe : Ypipe A → (A → Bool) → Option (Bool × Ypipe A)
  unfolding check_read probed
  probe p fn = let (ready, q) = check_read p in if ready then probed fn q q.queue else none

-- The constructor: only the terminator, and every pointer at it.
abbrev pub fresh {ℓ} : (A : Type ℓ) → Ypipe A
fresh A = record { queue = []; front = 0; w = 0; r = some 0; f = 0; c = some 0 }
