-- ===== src/Yqueue.antt =====
-- zeromq-4.3.1/src/yqueue.hpp: the queue in chunks of `n` elements under a ypipe. A pointer is the address of a chunk,
-- NULL is `none`, and the heap has `none` at an address where nothing is allocated. `malloc` gives the next
-- address, with the content `junk`, and never fails. A result `none` of an operation is the use of NULL
-- or of freed memory. The reader and the writer take turns; between threads, `xchg` is one step.
pub mod Linked
pub mod Window
pub mod Ops
pub mod Take
pub mod Unpush
pub mod Run
pub mod Bounds
mod Tests
use zmq.Base.{
  ℕ, ◌+◌, ◌-◌, ◌<◌, Bool, true, false, ◌==◌, ltb, Option, none, some, List, [], ◌∷◌, if◌then◌else◌,
}

pub record Chunk {ℓ} (A : Type ℓ) : Type ℓ where
  pub values : ℕ → A
  pub prev : Option ℕ
  pub next : Option ℕ

abbrev pub Heap {ℓ} : Type ℓ → Type ℓ
Heap A = ℕ → Option (Chunk A)

pub record Yqueue {ℓ} (A : Type ℓ) : Type ℓ where
  pub heap : Heap A
  pub next_address : ℕ
  pub begin_chunk : ℕ
  pub begin_pos : ℕ
  pub back_chunk : Option ℕ
  pub back_pos : ℕ
  pub end_chunk : ℕ
  pub end_pos : ℕ
  pub spare_chunk : Option ℕ

infixl 5 ◌>>=◌
abbrev pub ◌>>=◌ {ℓ κ} : {A : Type ℓ} {B : Type κ} → Option A → (A → Option B) → Option B
none >>= f = none
some a >>= f = f a

module _ {ℓ} {A : Type ℓ} where
  abbrev pub put : ℕ → Option (Chunk A) → Heap A → Heap A
  put a v h = λ x. if a == x then v else h x

  abbrev pub load : Option ℕ → Heap A → Option (Chunk A)
  load none h = none
  load (some a) h = h a

  -- `free`; freeing NULL does nothing.
  abbrev pub free : Option ℕ → Heap A → Option (Heap A)
  free none h = some h
  free (some a) h = do _ ← h a; some (put a none h)

  unfoldable pub front : Yqueue A → Option A
  front q = do ch ← q.heap q.begin_chunk; some (ch.values q.begin_pos)

  unfoldable pub back : Yqueue A → Option A
  back q = do ch ← load q.back_chunk q.heap; some (ch.values q.back_pos)

  -- `back () = value`.
  unfoldable pub set_back : A → Yqueue A → Option (Yqueue A)
  set_back value q = do
    a ← q.back_chunk
    ch ← q.heap a
    let written : Chunk A = record ch {
      values = λ i. if i == q.back_pos then value else ch.values i;
    }
    some (record q { heap = put a (some written) q.heap })

  -- The chunk `c` is linked behind the end.
  abbrev pub link_end : ℕ → Yqueue A → Option (Yqueue A)
  link_end c q = do
    e ← q.heap q.end_chunk
    let linked = put q.end_chunk (some (record e { next = some c })) q.heap
    s ← linked c
    some (record q {
      heap = put c (some (record s { prev = some q.end_chunk })) linked;
      end_chunk = c;
      end_pos = 0;
    })

-- `junk` is what `malloc` finds in memory.
module _ {ℓ} {A : Type ℓ} (junk : Chunk A) where
  unfoldable pub create : Yqueue A
  create = record {
    heap = put 0 (some junk) (λ _. none);
    next_address = 1;
    begin_chunk = 0;
    begin_pos = 0;
    back_chunk = none;
    back_pos = 0;
    end_chunk = 0;
    end_pos = 0;
    spare_chunk = none;
  }

  -- The spare chunk, or a new one.
  abbrev pub take_chunk : Option ℕ → Yqueue A → ℕ × Yqueue A
  take_chunk (some c) q = (c, record q { spare_chunk = none })
  take_chunk none q = (
    q.next_address,
    record q { heap = put q.next_address (some junk) q.heap; next_address = q.next_address + 1 },
  )

-- `n` is the number of elements in a chunk.
module _ {ℓ} {A : Type ℓ} (n : ℕ) where
  unfoldable pub push : Chunk A → Yqueue A → Option (Yqueue A)
  push junk q =
      let q' : Yqueue A = record q {
        back_chunk = some q.end_chunk;
        back_pos = q.end_pos;
        end_pos = q.end_pos + 1;
      } in
      if q.end_pos + 1 == n
      then (let (c, q'') = take_chunk junk q'.spare_chunk q' in link_end c q'')
      else some q'

  -- `unpush`, first the back and then the end.
  abbrev pub retreat_back : Yqueue A → Option (Yqueue A)
  retreat_back q = if ltb 0 q.back_pos then some (record q { back_pos = q.back_pos - 1 }) else (do
    b ← load q.back_chunk q.heap
    some (record q { back_chunk = b.prev; back_pos = n - 1 }))

  abbrev pub retreat_end : Yqueue A → Option (Yqueue A)
  retreat_end q = if ltb 0 q.end_pos then some (record q { end_pos = q.end_pos - 1 }) else (do
    e ← q.heap q.end_chunk
    a ← e.prev
    p ← q.heap a
    freed ← free p.next q.heap
    p' ← freed a
    some (record q {
      heap = put a (some (record p' { next = none })) freed;
      end_chunk = a;
      end_pos = n - 1;
    }))

  unfoldable pub unpush : Yqueue A → Option (Yqueue A)
  unpush q = do q' ← retreat_back q; retreat_end q'

  unfoldable pub pop : Yqueue A → Option (Yqueue A)
  pop q =
      if q.begin_pos + 1 == n
      then (do
        o ← q.heap q.begin_chunk
        b ← o.next
        ch ← q.heap b
        rest ← free q.spare_chunk (put b (some (record ch { prev = none })) q.heap)
        some (record q {
          heap = rest;
          begin_chunk = b;
          begin_pos = 0;
          spare_chunk = some q.begin_chunk;
        }))
      else some (record q { begin_pos = q.begin_pos + 1 })
