-- ===== src/Yqueue/Unpush.antt =====
-- yqueue.hpp: `unpush`, and `back` behind it.
use zmq.Base.{
  ℕ, ◌-◌, ◌≤◌, ◌≡◌, ◌≢◌, refl, sym, ap, ◌∙◌, arith, false, ◌==◌, ltb, Option, none, some, inl, inr,
  List, [], ◌∷◌, ◌++◌, Bool-cases,
}
use zmq.Yqueue.{Chunk, Yqueue, put, back, retreat_back, retreat_end, unpush, ◌>>=◌}
use zmq.Yqueue.Linked.{put-other, IsLinked-drop_last}
use zmq.Yqueue.Window.{step, Filled, Filled-le, Filled-unsnoc, step-eq_first, step-eq_later}
use zmq.Yqueue.Ops.{Holds, bi-le, lo-le}

module _ {ℓ} {A : Type ℓ} (n : ℕ) (q : Yqueue A) where
  pub back-Holds :
      (xs : List A) (r : Holds n q xs) (x : A) → r.val r.bi q.back_pos ≡ x → back q ≡ some x
  unfolding back
  back-Holds xs r x e =
      let y = r.linked.link r.bi (lo-le n q xs r) (bi-le n q xs r) in
      rw (r.back_at, y.at) (ap some (ap (λ f. f q.back_pos) y.values ∙ e))

  module _ (xs : List A) (x : A) (r : Holds n q (xs ++ x ∷ [])) where
    -- The position of `x`.
    before :
        (b : ℕ × ℕ) × Filled n r.val b (r.lo, q.begin_pos) xs
        × (r.val b.0 b.1 ≡ x)
        × (step n b ≡ (r.bi, q.back_pos))
    before = Filled-unsnoc n r.val (r.lo, q.begin_pos) (r.bi, q.back_pos) xs x r.filled

    -- The back moves to it.
    retreat_back-eq :
        (q' : Yqueue A) × (retreat_back n q ≡ some q')
        × (q' ≡ record q { back_chunk = some (r.addr before.0.0); back_pos = before.0.1 })
    retreat_back-eq = elim (Bool-cases (ltb 0 q.back_pos)) [
      | inl e ↦
          let (same, pos) =
            step-eq_later n before.0.0 before.0.1 r.bi q.back_pos (ground arith) before.3 in
          (
            record q { back_pos = q.back_pos - 1 },
            rw e refl,
            ap (λ c. record q { back_chunk = c; back_pos = q.back_pos - 1 })
                  (r.back_at ∙ ap (λ i. some (r.addr i)) same)
                ∙ ap (λ (k : ℕ). record q { back_chunk = some (r.addr before.0.0); back_pos = k })
                    (omega (arith, pos)),
          )
      | inr e ↦
          let zero_pos : q.back_pos ≡ 0 = ground arith in
          let (next, full) =
            step-eq_first n before.0.0 before.0.1 r.bi
              (before.3 ∙ ap (λ (k : ℕ). (r.bi, k)) zero_pos) in
          let low : r.lo ≤ before.0.0 =
            Filled-le n r.val (r.lo, q.begin_pos) before.0 xs before.1 in
          let y = r.linked.link r.bi (lo-le n q (xs ++ x ∷ []) r) (bi-le n q (xs ++ x ∷ []) r) in
          (
            record q { back_chunk = y.chunk.prev; back_pos = n - 1 },
            rw (e, r.back_at, y.at) refl,
            ap (λ c. record q { back_chunk = c; back_pos = n - 1 })
                  (y.to_prev (omega (arith, low, next))
                    ∙ ap (λ i. some (r.addr i)) (omega (arith, next)))
                ∙ ap (λ (k : ℕ). record q { back_chunk = some (r.addr before.0.0); back_pos = k })
                    (omega (arith, full)),
          )
    ]

    -- The queue with the back in its new place.
    abbrev retreated : Yqueue A
    retreated = record q { back_chunk = some (r.addr before.0.0); back_pos = before.0.1 }

    -- The last chunk is freed.
    drop_chunk :
        ltb 0 q.end_pos ≡ false
        → (q' : Yqueue A) × (retreat_end n retreated ≡ some q')
          × ((r' : Holds n q' xs) × (r'.val r'.bi q'.back_pos ≡ x))
    drop_chunk e =
        let zero_pos : q.end_pos ≡ 0 = ground arith in
        let (next, full) =
          step-eq_first n r.bi q.back_pos r.hi (r.back_step ∙ ap (λ (k : ℕ). (r.hi, k)) zero_pos) in
        let low = lo-le n q (xs ++ x ∷ []) r in
        let y0 = r.linked.link r.hi (omega (arith, low, next)) (omega arith) in
        let y1 = r.linked.link (r.hi - 1) (omega (arith, low, next)) (omega arith) in
        let a = r.addr (r.hi - 1) in
        let at_end : q.heap q.end_chunk ≡ some y0.chunk = ap q.heap r.end_at ∙ y0.at in
        let next_at : y1.chunk.next ≡ some (r.addr r.hi) =
          y1.to_next (omega (arith, next)) ∙ ap (λ i. some (r.addr i)) (omega (arith, next)) in
        let apart : r.addr r.hi ≢ a = λ p. omega (
          arith,
          next,
          low,
          r.linked.apart r.hi (r.hi - 1) (omega (arith, low, next)) (omega arith)
              (omega (arith, low, next)) (omega arith) p,
        ) in
        let off : (r.addr r.hi == a) ≡ false = ground (arith, apart) in
        let v : Option (Chunk A) = some (record y1.chunk { next = none }) in
        (
          record retreated {
            heap = put a v (put (r.addr r.hi) none q.heap);
            end_chunk = a;
            end_pos = n - 1;
          },
          rw (e, at_end, y0.to_prev (omega (arith, low, next)), y1.at, next_at, y0.at, off, y1.at)
              refl,
          (
            record {
              lo = r.lo;
              hi = r.hi - 1;
              bi = before.0.0;
              addr = r.addr;
              val = r.val;
              linked =
                  IsLinked-drop_last q.heap r.lo r.hi r.addr r.val y1.chunk
                    (omega (arith, low, next)) y1.at r.linked;
              begin_at = r.begin_at;
              back_at = refl;
              end_at = refl;
              filled = before.1;
              back_step =
                  before.3
                  ∙ ap (λ (k : ℕ). (k, q.back_pos)) (omega (arith, next))
                  ∙ ap (λ (k : ℕ). (r.hi - 1, k)) (omega (arith, full));
              spare = λ s p.
                  let ((c, at), out, lt) = r.spare s p in
                  (
                    (
                      c,
                      put-other a s v (put (r.addr r.hi) none q.heap)
                            (out (r.hi - 1) (omega (arith, low, next)) (omega arith))
                          ∙ put-other (r.addr r.hi) s none q.heap
                              (out r.hi (omega (arith, low, next)) (omega arith))
                          ∙ at,
                    ),
                    (λ i b d. out i b (omega arith)),
                    lt,
                  );
              used = λ i b d. r.used i b (omega arith);
            },
            before.2,
          ),
        )

    pub unpush-Holds :
        (q' : Yqueue A) × (unpush n q ≡ some q')
        × ((r' : Holds n q' xs) × (r'.val r'.bi q'.back_pos ≡ x))
    unfolding unpush
    unpush-Holds =
        let (q1, eq, is) = retreat_back-eq in
        let first : retreat_back n q ≡ some retreated = eq ∙ ap some is in
        elim (Bool-cases (ltb 0 q.end_pos)) [
          | inl e ↦
              let (same, pos) =
                step-eq_later n r.bi q.back_pos r.hi q.end_pos (ground arith) r.back_step in
              (
                record retreated { end_pos = q.end_pos - 1 },
                ap (λ o. o >>= retreat_end n) first ∙ rw e refl,
                (
                  record {
                    lo = r.lo;
                    hi = r.hi;
                    bi = before.0.0;
                    addr = r.addr;
                    val = r.val;
                    linked = r.linked;
                    begin_at = r.begin_at;
                    back_at = refl;
                    end_at = r.end_at;
                    filled = before.1;
                    back_step =
                        before.3
                        ∙ ap (λ (k : ℕ). (k, q.back_pos)) (sym same)
                        ∙ ap (λ (k : ℕ). (r.hi, k)) (omega (arith, pos));
                    spare = r.spare;
                    used = r.used;
                  },
                  before.2,
                ),
              )
          | inr e ↦
              let (q', eq', held) = drop_chunk e in
              (q', ap (λ o. o >>= retreat_end n) first ∙ eq', held)
        ]
