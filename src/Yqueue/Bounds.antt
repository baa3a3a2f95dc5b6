-- ===== src/Yqueue/Bounds.antt =====
-- yqueue.hpp: the positions stay within the `values` of a chunk.
use mathlib.Core.Path.{subst}
use zmq.Base.{ℕ, ◌+◌, ◌<◌, ◌≡◌, arith, ◌==◌, ltb, Option, none, some, inl, inr, Bool-cases}
use zmq.Yqueue.{
  Chunk, Heap, Yqueue, ◌>>=◌, load, free, put, create, front, back, set_back, take_chunk, link_end,
  push, retreat_back, retreat_end, unpush, pop,
}
use zmq.Yqueue.Run.{Op, wrote, unwrote, took, start, call}

pub record InBounds {ℓ} {A : Type ℓ} (n : ℕ) (q : Yqueue A) : Type 0 where
  pub at_begin : q.begin_pos < n
  pub at_back : q.back_pos < n
  pub at_end : q.end_pos < n

-- The queues that the calls of a ypipe lead to.
pub data Reachable {ℓ} {A : Type ℓ} (n : ℕ) (junk : Chunk A) : Yqueue A → Type ℓ where
  started : {q : Yqueue A} → start n junk ≡ some q → Reachable n junk q
  called :
      {q q' : Yqueue A} (op : Op A) (answer : Option A)
      → Reachable n junk q
      → call n junk op q ≡ some (answer, q')
      → Reachable n junk q'

-- A predicate of the result, if there is one.
abbrev Leaves {ℓ} : {B : Type ℓ} → (B → Type 0) → Option B → Type 0
Leaves P none = Unit
Leaves P (some b) = P b

bind-Leaves {ℓ κ} :
    {B : Type ℓ} {C : Type κ} (Q : B → Type 0) (P : C → Type 0) (o : Option B) (f : B → Option C)
    → Leaves Q o
    → ((b : B) → Q b → Leaves P (f b))
    → Leaves P (o >>= f)
bind-Leaves Q P none f l h = tt
bind-Leaves Q P (some b) f l h = h b l

-- Whatever is read on the way.
then-Leaves {ℓ κ} :
    {B : Type ℓ} {C : Type κ} (P : C → Type 0) (o : Option B) (f : B → Option C)
    → ((b : B) → Leaves P (f b))
    → Leaves P (o >>= f)
then-Leaves P none f h = tt
then-Leaves P (some b) f h = h b

module _ {ℓ} {A : Type ℓ} (n : ℕ) (junk : Chunk A) (pos : 0 < n) where
  -- The result of `link_end`.
  abbrev linked_end : ℕ → Yqueue A → Heap A → Chunk A → Yqueue A
  linked_end c q linked s = record q {
    heap = put c (some (record s { prev = some q.end_chunk })) linked;
    end_chunk = c;
    end_pos = 0;
  }

  link_end-InBounds :
      (c : ℕ) (q : Yqueue A) → q.begin_pos < n → q.back_pos < n → Leaves (InBounds n) (link_end c q)
  link_end-InBounds c q b k = then-Leaves (InBounds n) (q.heap q.end_chunk) _ (λ e.
      let linked = put q.end_chunk (some (record e { next = some c })) q.heap in
      then-Leaves (InBounds n) (linked c) (λ s. some (linked_end c q linked s))
        (λ s. record { at_begin = b; at_back = k; at_end = pos }))

  push-InBounds :
      (q : Yqueue A) → q.begin_pos < n → q.end_pos < n → Leaves (InBounds n) (push n junk q)
  unfolding push
  push-InBounds q b e = elim (Bool-cases (q.end_pos + 1 == n)) [
    | inl f ↦ rw f (grow q.spare_chunk)
    | inr f ↦ rw f (record { at_begin = b; at_back = e; at_end = ground arith })
  ]
    where
      q1 : Yqueue A
      q1 = record q { back_chunk = some q.end_chunk; back_pos = q.end_pos; end_pos = q.end_pos + 1 }

      grow :
          (s : Option ℕ)
          → Leaves (InBounds n) (link_end (take_chunk junk s q1).0 (take_chunk junk s q1).1)
      grow none =
          link_end-InBounds q.next_address
            (record q1 {
              heap = put q.next_address (some junk) q.heap;
              next_address = q.next_address + 1;
            })
            b e
      grow (some c) = link_end-InBounds c (record q1 { spare_chunk = none }) b e

  retreat_back-InBounds : (q : Yqueue A) → InBounds n q → Leaves (InBounds n) (retreat_back n q)
  retreat_back-InBounds q v = elim (Bool-cases (ltb 0 q.back_pos)) [
    | inl f ↦
        rw f
          (record { at_begin = v.at_begin; at_back = omega (arith, v.at_back); at_end = v.at_end })
    | inr f ↦ rw f (
        then-Leaves (InBounds n) (load q.back_chunk q.heap) _
          (λ c. record { at_begin = v.at_begin; at_back = omega arith; at_end = v.at_end }))
  ]

  retreat_end-InBounds : (q : Yqueue A) → InBounds n q → Leaves (InBounds n) (retreat_end n q)
  retreat_end-InBounds q v = elim (Bool-cases (ltb 0 q.end_pos)) [
    | inl f ↦
        rw f
          (record { at_begin = v.at_begin; at_back = v.at_back; at_end = omega (arith, v.at_end) })
    | inr f ↦ rw f (
        then-Leaves (InBounds n) (q.heap q.end_chunk) _ (λ e.
          then-Leaves (InBounds n) e.prev _ (λ a. then-Leaves (InBounds n) (q.heap a) _ (λ p.
            then-Leaves (InBounds n) (free p.next q.heap) _ (λ h.
              then-Leaves (InBounds n) (h a) _ (λ p'. record {
                at_begin = v.at_begin;
                at_back = v.at_back;
                at_end = omega arith;
              }))))))
  ]

  unpush-InBounds : (q : Yqueue A) → InBounds n q → Leaves (InBounds n) (unpush n q)
  unfolding unpush
  unpush-InBounds q v =
      bind-Leaves (InBounds n) (InBounds n) (retreat_back n q) (retreat_end n)
        (retreat_back-InBounds q v) retreat_end-InBounds

  pop-InBounds : (q : Yqueue A) → InBounds n q → Leaves (InBounds n) (pop n q)
  unfolding pop
  pop-InBounds q v = elim (Bool-cases (q.begin_pos + 1 == n)) [
    | inl f ↦ rw f (
        then-Leaves (InBounds n) (q.heap q.begin_chunk) _ (λ o.
          then-Leaves (InBounds n) o.next _ (λ b. then-Leaves (InBounds n) (q.heap b) _ (λ c.
            then-Leaves (InBounds n) (free q.spare_chunk _) _
              (λ h. record { at_begin = pos; at_back = v.at_back; at_end = v.at_end })))))
    | inr f ↦
        rw f
          (record { at_begin = ground (arith, v.at_begin); at_back = v.at_back; at_end = v.at_end })
  ]

  set_back-InBounds : (x : A) (q : Yqueue A) → InBounds n q → Leaves (InBounds n) (set_back x q)
  unfolding set_back
  set_back-InBounds x q v = then-Leaves (InBounds n) q.back_chunk _ (λ a.
      then-Leaves (InBounds n) (q.heap a) _
        (λ c. record { at_begin = v.at_begin; at_back = v.at_back; at_end = v.at_end }))

  call-InBounds :
      (op : Op A) (q : Yqueue A) → InBounds n q → Leaves (λ r. InBounds n r.1) (call n junk op q)
  call-InBounds (wrote x) q v =
      bind-Leaves (InBounds n) (λ r. InBounds n r.1) (set_back x q) _ (set_back-InBounds x q v)
        (λ q' v'.
          bind-Leaves (InBounds n) (λ r. InBounds n r.1) (push n junk q') _
            (push-InBounds q' v'.at_begin v'.at_end) (λ q'' v''. v''))
  call-InBounds unwrote q v =
      bind-Leaves (InBounds n) (λ r. InBounds n r.1) (unpush n q) _ (unpush-InBounds q v)
        (λ q' v'. then-Leaves (λ r. InBounds n r.1) (back q') _ (λ x. v'))
  call-InBounds took q v =
      then-Leaves (λ r. InBounds n r.1) (front q) _
        (λ x.
          bind-Leaves (InBounds n) (λ r. InBounds n r.1) (pop n q) _ (pop-InBounds q v)
            (λ q' v'. v'))

  -- With at least one element in a chunk, the positions of the begin, the back and the end of the queue stay below
  -- the number of elements in a chunk, whatever a ypipe calls.
  pub Reachable-InBounds : (q : Yqueue A) → Reachable n junk q → InBounds n q
  unfolding start create
  Reachable-InBounds q (started e) =
      subst (Leaves (InBounds n)) e (push-InBounds (create junk) pos pos)
  Reachable-InBounds q (called op answer r e) =
      subst (Leaves (λ s. InBounds n s.1)) e (call-InBounds op _ (Reachable-InBounds _ r))
