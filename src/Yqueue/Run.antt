-- ===== src/Yqueue/Run.antt =====
-- yqueue.hpp: the calls that a ypipe makes, against a list.
use mathlib.Core.Path.{subst}
use zmq.Base.{
  ℕ, ◌≡◌, ◌⊎◌, refl, ap, arith, ◌==◌, Option, none, some, inl, inr, List, [], ◌∷◌, ◌++◌, Bool-cases,
}
use zmq.Yqueue.{Chunk, Heap, Yqueue, ◌>>=◌, put, create, front, back, set_back, push, unpush, pop}
use zmq.Yqueue.Linked.{IsLinked, IsOutside, IsLinked-put, IsLinked-append, with_last}
use zmq.Yqueue.Window.{done}
use zmq.Yqueue.Ops.{Holds, set_back-Holds, push-Holds}
use zmq.Yqueue.Take.{front-Holds, pop-Holds}
use zmq.Yqueue.Unpush.{back-Holds, unpush-Holds}

-- The calls of ypipe_t::write, unwrite and read.
pub data Op {ℓ} (A : Type ℓ) : Type ℓ where
  wrote : A → Op A
  unwrote took : Op A

module _ {ℓ} {A : Type ℓ} (n : ℕ) (junk : Chunk A) where
  -- The constructor of ypipe_t pushes the terminator.
  unfoldable pub start : Option (Yqueue A)
  start = push n junk (create junk)

  abbrev pub call : Op A → Yqueue A → Option (Option A × Yqueue A)
  call (wrote v) q = do q' ← set_back v q; q'' ← push n junk q'; some (none, q'')
  call unwrote q = do q' ← unpush n q; v ← back q'; some (some v, q')
  call took q = do v ← front q; q' ← pop n q; some (some v, q')

  unfoldable pub run : List (Op A) → Yqueue A → Option (List (Option A))
  run [] q = some []
  run (op ∷ ops) q = call op q >>= λ r. run ops r.1 >>= λ answers. some (r.0 ∷ answers)

-- A list: `none` where the caller may not call, because nothing is there to be taken.
abbrev in_front {ℓ} : {A : Type ℓ} → A → Option (A × List A) → A × List A
in_front x none = (x, [])
in_front x (some (y, ys)) = (y, x ∷ ys)

abbrev pub unsnoc {ℓ} : {A : Type ℓ} → List A → Option (A × List A)
unsnoc [] = none
unsnoc (x ∷ xs) = some (in_front x (unsnoc xs))

abbrev pub uncons {ℓ} : {A : Type ℓ} → List A → Option (A × List A)
uncons [] = none
uncons (x ∷ xs) = some (x, xs)

abbrev pub spec_call {ℓ} : {A : Type ℓ} → Op A → List A → Option (Option A × List A)
spec_call (wrote v) xs = some (none, xs ++ v ∷ [])
spec_call unwrote xs = unsnoc xs >>= λ r. some (some r.0, r.1)
spec_call took xs = uncons xs >>= λ r. some (some r.0, r.1)

unfoldable pub spec_run {ℓ} : {A : Type ℓ} → List (Op A) → List A → Option (List (Option A))
spec_run [] xs = some []
spec_run (op ∷ ops) xs =
    spec_call op xs >>= λ r. spec_run ops r.1 >>= λ answers. some (r.0 ∷ answers)

unsnoc-none {ℓ} : {A : Type ℓ} (xs : List A) → unsnoc xs ≡ none → xs ≡ []
unsnoc-none [] e = refl
unsnoc-none (x ∷ xs) e = absurd (ground (arith, e))

-- A list ends in what `unsnoc` finds.
unsnoc-eq {ℓ} :
    {A : Type ℓ} (xs : List A)
    → (unsnoc xs ≡ none)
      ⊎ ((x : A) × (ys : List A) × (unsnoc xs ≡ some (x, ys)) × (xs ≡ ys ++ x ∷ []))
unsnoc-eq [] = inl refl
unsnoc-eq (x ∷ xs) = elim (unsnoc-eq xs) [
  | inl e ↦ inr (x, [], rw e refl, ap (λ k. x ∷ k) (unsnoc-none xs e))
  | inr (y, ys, e, is) ↦ inr (y, x ∷ ys, rw e refl, ap (λ k. x ∷ k) is)
]

module _ {ℓ} {A : Type ℓ} (n : ℕ) (junk : Chunk A) where
  -- A call gives what the list says, if it may be made.
  abbrev Follows : Op A → Yqueue A → Option (Option A × List A) → Type ℓ
  Follows op q none = Unit {ℓ}
  Follows op q (some (answer, ys)) =
      (q' : Yqueue A) × (call n junk op q ≡ some (answer, q')) × Holds n q' ys

  call-Follows :
      (op : Op A) (q : Yqueue A) (xs : List A) → Holds n q xs → Follows op q (spec_call op xs)
  call-Follows (wrote v) q xs r =
      let (q', e, (r', at)) = set_back-Holds n junk q xs r v in
      let (q'', e', r'') = push-Holds n junk q' xs r' v at in (q'', rw (e, e') refl, r'')
  call-Follows unwrote q xs r = elim (unsnoc-eq xs) [
    | inl e ↦ rw e tt
    | inr (x, ys, e, is) ↦
        let (q', e', (r', at)) = unpush-Holds n q ys x (subst (Holds n q) is r) in
        let found = back-Holds n q' ys r' x at in rw e (q', rw (e', found) refl, r')
  ]
  call-Follows took q [] r = tt
  call-Follows took q (x ∷ xs) r =
      let (q', e, r') = pop-Holds n q x xs r in (q', rw (front-Holds n q x xs r, e) refl, r')

  -- The answers of the list, if all the calls may be made.
  abbrev Agree : Option (List (Option A)) → Option (List (Option A)) → Type ℓ
  Agree none r = Unit {ℓ}
  Agree (some answers) r = r ≡ some answers

  Agree-answer :
      (a : Option A) (s r : Option (List (Option A)))
      → Agree s r
      → Agree (s >>= λ answers. some (a ∷ answers)) (r >>= λ answers. some (a ∷ answers))
  Agree-answer a none r e = tt
  Agree-answer a (some answers) r e = rw e refl

  run-Agree :
      (ops : List (Op A)) (q : Yqueue A) (xs : List A)
      → Holds n q xs
      → Agree (spec_run ops xs) (run n junk ops q)
  unfolding run spec_run
  run-Agree [] q xs r = refl
  run-Agree (op ∷ ops) q xs r =
      go (spec_call op xs) (call-Follows op q xs r) (λ q' ys r'. run-Agree ops q' ys r')
    where
      go :
          (o : Option (Option A × List A))
          → Follows op q o
          → ((q' : Yqueue A) (ys : List A)
              → Holds n q' ys
              → Agree (spec_run ops ys) (run n junk ops q'))
          → Agree
              (o >>= λ s. spec_run ops s.1 >>= λ answers. some (s.0 ∷ answers))
              (run n junk (op ∷ ops) q)
      go none f ih = tt
      go (some (answer, ys)) (q', e, r') ih =
          rw e (Agree-answer answer (spec_run ops ys) (run n junk ops q') (ih q' ys r'))

  abbrev first_heap : Heap A
  first_heap = put 0 (some junk) (λ _. none)

  first-IsLinked : IsLinked first_heap 0 0 (λ _. 0) (λ _. junk.values)
  first-IsLinked = record {
    link = λ i b c. record {
      chunk = junk;
      at = refl;
      values = refl;
      to_next = λ d. absurd (omega arith);
      to_prev = λ d. absurd (omega arith);
    };
    apart = λ i k b c b' c' e. omega arith;
  }

  -- One chunk, with the terminator only, and an empty one behind it if it is full.
  start-Holds : (q : Yqueue A) × (start n junk ≡ some q) × Holds n q []
  unfolding start push create
  start-Holds = elim (Bool-cases (1 == n)) [
    | inl e ↦ (
      record {
        heap =
            put 1 (some (record junk { prev = some 0 }))
              (put 0 (some (record junk { next = some 1 })) (put 1 (some junk) first_heap));
        next_address = 2;
        begin_chunk = 0;
        begin_pos = 0;
        back_chunk = some 0;
        back_pos = 0;
        end_chunk = 1;
        end_pos = 0;
        spare_chunk = none;
      },
      rw e refl,
      record {
        lo = 0;
        hi = 1;
        bi = 0;
        addr = with_last 1 1 (λ _. 0);
        val = with_last 1 junk.values (λ _. junk.values);
        linked =
            let out : IsOutside 0 0 (λ _. 0) 1 = λ i b c p. omega (arith, p) in
            IsLinked-append (put 1 (some junk) first_heap) 0 0 (λ _. 0) (λ _. junk.values) 1 junk
              junk (omega arith) out refl
              (IsLinked-put first_heap 0 0 (λ _. 0) (λ _. junk.values) 1 (some junk) out
                first-IsLinked);
        begin_at = refl;
        back_at = refl;
        end_at = refl;
        filled = done refl;
        back_step = rw e refl;
        spare = λ s p. absurd (ground (arith, p));
        used = λ i b c. ground arith;
      },
    )
    | inr e ↦ (
      record (create junk) { back_chunk = some 0; end_pos = 1 },
      rw e refl,
      record {
        lo = 0;
        hi = 0;
        bi = 0;
        addr = λ _. 0;
        val = λ _. junk.values;
        linked = first-IsLinked;
        begin_at = refl;
        back_at = refl;
        end_at = refl;
        filled = done refl;
        back_step = rw e refl;
        spare = λ s p. absurd (ground (arith, p));
        used = λ i b c. omega arith;
      },
    )
  ]

  -- From the constructor of a ypipe on, every sequence of its calls of `write`, `unwrite` and `read`, in which
  -- nothing is taken from an empty queue, gives the answers of a list, whatever the number of elements in a
  -- chunk and the content of new memory; no call follows NULL or uses or frees freed memory.
  pub run_refines_list :
      (ops : List (Op A)) (answers : List (Option A))
      → spec_run ops [] ≡ some answers
      → (start n junk >>= run n junk ops) ≡ some answers
  run_refines_list ops answers e =
      let (q, at, r) = start-Holds in
      rw at (subst (λ s. Agree s (run n junk ops q)) e (run-Agree ops q [] r))
