-- ===== src/Yqueue/Take.antt =====
-- yqueue.hpp: `front` and `pop`.
use mathlib.Core.Path.{subst}
use zmq.Base.{
  ℕ, ◌+◌, ◌≤◌, ◌<◌, ◌≡◌, ◌≢◌, refl, sym, ap, ◌∙◌, arith, true, ◌==◌, Option, none, some, inl, inr,
  List, ◌∷◌, Bool-cases, Option-cases,
}
use zmq.Yqueue.{Chunk, Heap, Yqueue, put, free, front, pop}
use zmq.Yqueue.Linked.{IsLinked, put-other, IsLinked-put, IsLinked-drop_first}
use zmq.Yqueue.Window.{step, Filled, more, Filled-le}
use zmq.Yqueue.Ops.{Holds, bi-le, lo-le}

module _ {ℓ} {A : Type ℓ} (n : ℕ) (q : Yqueue A) (x : A) (xs : List A)
    (r : Holds n q (x ∷ xs)) where
  first :
      (r.val r.lo q.begin_pos ≡ x)
      × Filled n r.val (r.bi, q.back_pos) (step n (r.lo, q.begin_pos)) xs
  first = split r.filled
    where
      split :
          Filled n r.val (r.bi, q.back_pos) (r.lo, q.begin_pos) (x ∷ xs)
          → (r.val r.lo q.begin_pos ≡ x)
            × Filled n r.val (r.bi, q.back_pos) (step n (r.lo, q.begin_pos)) xs
      split (more e f) = (e, f)

  lo_hi : r.lo ≤ r.hi
  lo_hi = omega (arith, lo-le n q (x ∷ xs) r, bi-le n q (x ∷ xs) r)

  pub front-Holds : front q ≡ some x
  unfolding front
  front-Holds =
      let y = r.linked.link r.lo (omega arith) lo_hi in
      rw (r.begin_at, y.at) (ap some (ap (λ f. f q.begin_pos) y.values ∙ first.0))

  -- A spare chunk is freed before another one takes its place.
  freed :
      (h : Heap A)
      → IsLinked h (r.lo + 1) r.hi r.addr r.val
      → ((a : ℕ) → q.spare_chunk ≡ some a → (ch : Chunk A) × (h a ≡ some ch))
      → ((ch : Chunk A) × (h (r.addr r.lo) ≡ some ch))
      → (h' : Heap A) × (free q.spare_chunk h ≡ some h')
        × IsLinked h' (r.lo + 1) r.hi r.addr r.val
        × ((ch : Chunk A) × (h' (r.addr r.lo) ≡ some ch))
  freed h l there (c, at) = elim (Option-cases q.spare_chunk) [
    | inl e ↦ (h, rw e refl, l, (c, at))
    | inr (a, e) ↦
        let (_, out, _) = r.spare a e in
        let (d, at_a) = there a e in
        (
          put a none h,
          rw (e, at_a) refl,
          IsLinked-put h (r.lo + 1) r.hi r.addr r.val a none (λ i b c. out i (omega arith) c) l,
          (c, put-other a (r.addr r.lo) none h (λ p. out r.lo (omega arith) lo_hi (sym p)) ∙ at),
        )
  ]

  module _ (full : (q.begin_pos + 1 == n) ≡ true) where
    rest_filled : Filled n r.val (r.bi, q.back_pos) (r.lo + 1, 0) xs
    rest_filled = subst (λ p. Filled n r.val (r.bi, q.back_pos) p xs) (rw full refl) first.1

    two_chunks : r.lo < r.hi
    two_chunks = omega (
      arith,
      Filled-le n r.val (r.lo + 1, 0) (r.bi, q.back_pos) xs rest_filled,
      bi-le n q (x ∷ xs) r,
    )

    -- The first chunk becomes the spare one.
    pop_chunk : (q' : Yqueue A) × (pop n q ≡ some q') × Holds n q' xs
    unfolding pop
    pop_chunk =
        let two = two_chunks in
        let y0 = r.linked.link r.lo (omega arith) lo_hi in
        let y1 = r.linked.link (r.lo + 1) (omega arith) (omega (arith, two)) in
        let a1 = r.addr (r.lo + 1) in
        let v : Option (Chunk A) = some (record y1.chunk { prev = none }) in
        let h1 = put a1 v q.heap in
        let apart : a1 ≢ r.addr r.lo = λ p. omega (
          arith,
          r.linked.apart (r.lo + 1) r.lo (omega arith) (omega (arith, two)) (omega arith) lo_hi p,
        ) in
        let (h', eq, l', (d, at_d)) =
          freed h1 (IsLinked-drop_first q.heap r.lo r.hi r.addr r.val y1.chunk two y1.at r.linked)
            (λ a e.
              let ((c, at), out, _) = r.spare a e in
              (c, put-other a1 a v q.heap (out (r.lo + 1) (omega arith) (omega (arith, two))) ∙ at))
            (y0.chunk, put-other a1 (r.addr r.lo) v q.heap apart ∙ y0.at) in
        let at_begin : q.heap q.begin_chunk ≡ some y0.chunk = ap q.heap r.begin_at ∙ y0.at in
        (
          record q { heap = h'; begin_chunk = a1; begin_pos = 0; spare_chunk = some q.begin_chunk },
          rw (full, at_begin, y0.to_next two, y1.at, eq) refl,
          record {
            lo = r.lo + 1;
            hi = r.hi;
            bi = r.bi;
            addr = r.addr;
            val = r.val;
            linked = l';
            begin_at = refl;
            back_at = r.back_at;
            end_at = r.end_at;
            filled = rest_filled;
            back_step = r.back_step;
            spare = λ s p.
                let is : r.addr r.lo ≡ s = sym r.begin_at ∙ ground (arith, p) in
                (
                  (d, ap h' (sym is) ∙ at_d),
                  (λ i b c t. omega (
                    arith,
                    r.linked.apart i r.lo (omega arith) c (omega arith) lo_hi (t ∙ sym is),
                  )),
                  omega (arith, is, r.used r.lo (omega arith) lo_hi),
                );
            used = λ i b c. r.used i (omega arith) c;
          },
        )

  pub pop-Holds : (q' : Yqueue A) × (pop n q ≡ some q') × Holds n q' xs
  unfolding pop
  pop-Holds = elim (Bool-cases (q.begin_pos + 1 == n)) [
    | inl e ↦ pop_chunk e
    | inr e ↦ (
      record q { begin_pos = q.begin_pos + 1 },
      rw e refl,
      record {
        lo = r.lo;
        hi = r.hi;
        bi = r.bi;
        addr = r.addr;
        val = r.val;
        linked = r.linked;
        begin_at = r.begin_at;
        back_at = r.back_at;
        end_at = r.end_at;
        filled = subst (λ p. Filled n r.val (r.bi, q.back_pos) p xs) (rw e refl) first.1;
        back_step = r.back_step;
        spare = r.spare;
        used = r.used;
      },
    )
  ]
