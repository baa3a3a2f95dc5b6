-- ===== src/Yqueue/Ops.antt =====
-- yqueue.hpp: what a queue holds, and how `back () = value` and `push` change it.
use mathlib.Core.Path.{subst}
use zmq.Base.{
  ℕ, ◌+◌, ◌≤◌, ◌<◌, ◌≡◌, refl, sym, ap, ◌∙◌, arith, true, false, ◌==◌, none, some, inl, inr,
  if◌then◌else◌, List, [], ◌∷◌, ◌++◌, Bool-cases, Option-cases,
}
use zmq.Yqueue.{Chunk, Heap, Yqueue, put, set_back, take_chunk, link_end, push}
use zmq.Yqueue.Linked.{
  IsLinked, IsOutside, put-same, put-other, IsLinked-put, IsLinked-append, with_last,
  with_last-same, with_last-other, IsLinked-write,
}
use zmq.Yqueue.Window.{step, Filled, Before, Filled-le, Filled-snoc, Filled-ext}

-- The chunks `lo` to `hi` hold `xs` up to the back, which is in the chunk `bi`, one position before the end.
pub record Holds {ℓ} {A : Type ℓ} (n : ℕ) (q : Yqueue A) (xs : List A) : Type ℓ where
  pub lo : ℕ
  pub hi : ℕ
  pub bi : ℕ
  pub addr : ℕ → ℕ
  pub val : ℕ → ℕ → A
  pub linked : IsLinked q.heap lo hi addr val
  pub begin_at : q.begin_chunk ≡ addr lo
  pub back_at : q.back_chunk ≡ some (addr bi)
  pub end_at : q.end_chunk ≡ addr hi
  pub filled : Filled n val (bi, q.back_pos) (lo, q.begin_pos) xs
  pub back_step : step n (bi, q.back_pos) ≡ (hi, q.end_pos)
  pub spare :
      (s : ℕ)
      → q.spare_chunk ≡ some s
      → ((ch : Chunk A) × (q.heap s ≡ some ch)) × IsOutside lo hi addr s × (s < q.next_address)
  pub used : (i : ℕ) → lo ≤ i → i ≤ hi → addr i < q.next_address

pub bi-le {ℓ} : {A : Type ℓ} (n : ℕ) (q : Yqueue A) (xs : List A) (r : Holds n q xs) → r.bi ≤ r.hi
bi-le n q xs r = ground (arith, ap (λ p. p.0) r.back_step)

pub lo-le {ℓ} : {A : Type ℓ} (n : ℕ) (q : Yqueue A) (xs : List A) (r : Holds n q xs) → r.lo ≤ r.bi
lo-le n q xs r = Filled-le n r.val (r.lo, q.begin_pos) (r.bi, q.back_pos) xs r.filled

module _ {ℓ} {A : Type ℓ} (n : ℕ) (junk : Chunk A) (q : Yqueue A) (xs : List A)
    (r : Holds n q xs) where
  -- The back is written, and reads as what was written.
  pub set_back-Holds :
      (v : A)
      → (q' : Yqueue A) × (set_back v q ≡ some q')
        × ((r' : Holds n q' xs) × (r'.val r'.bi q'.back_pos ≡ v))
  unfolding set_back
  set_back-Holds v =
      let x = r.linked.link r.bi (lo-le n q xs r) (bi-le n q xs r) in
      let ch = x.chunk in
      let w : ℕ → A = λ i. if i == q.back_pos then v else ch.values i in
      let written : Chunk A = record ch { values = w } in
      let val' = with_last r.bi w r.val in
      let here : (q.back_pos == q.back_pos) ≡ true = ground arith in
      let same : (i j : ℕ) → Before (i, j) (r.bi, q.back_pos) → r.val i j ≡ val' i j = λ i j b.
        elim (Bool-cases (r.bi == i)) [
          | inl e ↦
              let is : r.bi ≡ i = ground arith in
              let off : (j == q.back_pos) ≡ false = ground (arith, b) in
              ap (λ k. r.val k j) (sym is)
              ∙ ap (λ f. f j) (sym x.values)
              ∙ sym (ap (λ c. if c then v else ch.values j) off)
              ∙ sym (ap (λ k. val' k j) (sym is) ∙ ap (λ f. f j) (with_last-same r.bi w r.val))
          | inr e ↦ sym (ap (λ f. f j) (with_last-other r.bi i w r.val (λ p. ground (arith, p))))
        ] in
      (
        record q { heap = put (r.addr r.bi) (some written) q.heap },
        rw (r.back_at, x.at) refl,
        (
          record {
            lo = r.lo;
            hi = r.hi;
            bi = r.bi;
            addr = r.addr;
            val = val';
            linked =
                IsLinked-write q.heap r.lo r.hi r.addr r.val r.bi ch w (lo-le n q xs r)
                  (bi-le n q xs r) x.at r.linked;
            begin_at = r.begin_at;
            back_at = r.back_at;
            end_at = r.end_at;
            filled =
                Filled-ext n r.val val' (r.lo, q.begin_pos) (r.bi, q.back_pos) xs same r.filled;
            back_step = r.back_step;
            spare = λ s e.
                let ((c, at), out, lt) = r.spare s e in
                (
                  (
                    c,
                    put-other (r.addr r.bi) s (some written) q.heap
                          (out r.bi (lo-le n q xs r) (bi-le n q xs r))
                        ∙ at,
                  ),
                  out,
                  lt,
                );
            used = r.used;
          },
          ap (λ f. f q.back_pos) (with_last-same r.bi w r.val)
              ∙ ap (λ b. if b then v else ch.values q.back_pos) here,
        ),
      )

  -- The queue after `push`, without the end.
  abbrev pushed : Yqueue A
  pushed = record q { back_chunk = some q.end_chunk; back_pos = q.end_pos; end_pos = q.end_pos + 1 }

  -- The chunk `c`, which holds `s`, is linked behind the end.
  grown :
      (x : A) (c : ℕ) (s : Chunk A) (h1 : Heap A) (na : ℕ)
      → r.val r.bi q.back_pos ≡ x
      → (q.end_pos + 1 == n) ≡ true
      → h1 c ≡ some s
      → IsOutside r.lo r.hi r.addr c
      → IsLinked h1 r.lo r.hi r.addr r.val
      → ((i : ℕ) → r.lo ≤ i → i ≤ r.hi → r.addr i < na)
      → c < na
      → (q' : Yqueue A) × (link_end c
            (record pushed { heap = h1; next_address = na; spare_chunk = none })
          ≡ some q')
        × Holds n q' (xs ++ x ∷ [])
  grown x c s h1 na ev full at out l used fresh =
      let lo_hi : r.lo ≤ r.hi = omega (arith, lo-le n q xs r, bi-le n q xs r) in
      let y = l.link r.hi lo_hi (omega arith) in
      let e = y.chunk in
      let at_end : h1 q.end_chunk ≡ some e = ap h1 r.end_at ∙ y.at in
      let off : (q.end_chunk == c) ≡ false = ground (arith, out r.hi lo_hi, r.end_at) in
      let addr' = with_last (r.hi + 1) c r.addr in
      let val' = with_last (r.hi + 1) s.values r.val in
      let kept : (i : ℕ) → i ≤ r.hi → addr' i ≡ r.addr i =
        λ i d. with_last-other (r.hi + 1) i c r.addr (λ p. omega (arith, p)) in
      (
        record pushed {
          heap =
              put c (some (record s { prev = some q.end_chunk }))
                (put q.end_chunk (some (record e { next = some c })) h1);
          next_address = na;
          spare_chunk = none;
          end_chunk = c;
          end_pos = 0;
        },
        rw (at_end, off, at) refl,
        record {
          lo = r.lo;
          hi = r.hi + 1;
          bi = r.hi;
          addr = addr';
          val = val';
          linked =
              subst
                (λ a.
                  IsLinked
                    (put c (some (record s { prev = some a }))
                      (put a (some (record e { next = some c })) h1))
                    r.lo (r.hi + 1) addr' val')
                (sym r.end_at) (IsLinked-append h1 r.lo r.hi r.addr r.val c e s lo_hi out y.at l);
          begin_at = r.begin_at ∙ sym (kept r.lo lo_hi);
          back_at = ap some (r.end_at ∙ sym (kept r.hi (omega arith)));
          end_at = sym (with_last-same (r.hi + 1) c r.addr);
          filled =
              Filled-ext n r.val val' (r.lo, q.begin_pos) (r.hi, q.end_pos) (xs ++ x ∷ [])
                (λ i j b.
                  ap (λ f. f j)
                    (sym (with_last-other (r.hi + 1) i s.values r.val (λ p. ground (arith, p, b)))))
                (subst (λ p. Filled n r.val p (r.lo, q.begin_pos) (xs ++ x ∷ [])) r.back_step
                  (Filled-snoc n r.val (r.lo, q.begin_pos) (r.bi, q.back_pos) xs x r.filled ev));
          back_step = rw full refl;
          spare = λ t p. absurd (ground (arith, p));
          used = λ i b d. ground (arith, used i b, fresh);
        },
      )

  push_full :
      (q.end_pos + 1 == n) ≡ true
      → push n junk q
        ≡ link_end (take_chunk junk q.spare_chunk pushed).0 (take_chunk junk q.spare_chunk pushed).1
  unfolding push
  push_full e = rw e refl

  pub push-Holds :
      (x : A)
      → r.val r.bi q.back_pos ≡ x
      → (q' : Yqueue A) × (push n junk q ≡ some q') × Holds n q' (xs ++ x ∷ [])
  unfolding push
  push-Holds x ev = elim (Bool-cases (q.end_pos + 1 == n)) [
    | inl e ↦ elim (Option-cases q.spare_chunk) [
      | inl none_left ↦
          let na = q.next_address in
          let h1 = put na (some junk) q.heap in
          let out : IsOutside r.lo r.hi r.addr na = λ i b d p. omega (arith, r.used i b d, p) in
          let taken =
            ap (λ s. take_chunk junk s pushed) none_left
            ∙ ap (λ s. (na, record pushed { heap = h1; next_address = na + 1; spare_chunk = s }))
                none_left in
          let (q', eq, held) =
            grown x na junk h1 (na + 1) ev e (put-same na (some junk) q.heap) out
              (IsLinked-put q.heap r.lo r.hi r.addr r.val na (some junk) out r.linked)
              (λ i b d. omega (arith, r.used i b d)) (omega arith) in
          (q', push_full e ∙ ap (λ t. link_end t.0 t.1) taken ∙ eq, held)
      | inr (c, has) ↦
          let ((s, at), out, lt) = r.spare c has in
          let taken = ap (λ s. take_chunk junk s pushed) has in
          let (q', eq, held) = grown x c s q.heap q.next_address ev e at out r.linked r.used lt in
          (q', push_full e ∙ ap (λ t. link_end t.0 t.1) taken ∙ eq, held)
    ]
    | inr e ↦ (
      pushed,
      rw e refl,
      record {
        lo = r.lo;
        hi = r.hi;
        bi = r.hi;
        addr = r.addr;
        val = r.val;
        linked = r.linked;
        begin_at = r.begin_at;
        back_at = ap some r.end_at;
        end_at = r.end_at;
        filled =
            subst (λ p. Filled n r.val p (r.lo, q.begin_pos) (xs ++ x ∷ [])) r.back_step
              (Filled-snoc n r.val (r.lo, q.begin_pos) (r.bi, q.back_pos) xs x r.filled ev);
        back_step = rw e refl;
        spare = r.spare;
        used = r.used;
      },
    )
  ]
