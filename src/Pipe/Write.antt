-- ===== src/Pipe/Write.antt =====
-- pipe.cpp: the writer's side of multi-part messages.
use zmq.Base.{
  ℕ, zero, suc, ◌-◌, ◌<◌, ◌≡◌, refl, arith, if◌then◌else◌, Bool, true, false, none, some, List, [],
  ◌∷◌, ◌++◌, length, Option-cases, Bool-cases, inl, inr, ◌⊎◌, All, All-append, drop_last, get_last?,
  length-drop, length-drop_last, ap, sym, ◌∙◌, drop,
}
use zmq.Msg.{Msg, has_more}
use zmq.Ypipe
use zmq.Ypipe.{Ypipe}
use zmq.Ypipe.Laws.{IsValid, write-IsValid, unwrite-IsValid}
use zmq.Ypipe.Refine.{view, view-write, unwrite_refines}
use zmq.Ypipe.Spec
use zmq.Ypipe.Spec.{View}
use zmq.Pipe.{Pipe, write, flush, check_hwm, rollback, unwrite_all}

-- The parts of a message that is not complete say that more follows.
abbrev pub AllMore : List Msg → Type 0
AllMore = All (λ m. has_more m ≡ true)

-- The outbound ypipe is valid, and its incomplete message is one.
abbrev pub OutOk : Pipe → Type 0
OutOk p = IsValid p.out_pipe × AllMore (view p.out_pipe).partial

drop_last-AllMore : (ms : List Msg) → AllMore ms → AllMore (drop_last ms)
drop_last-AllMore [] h = tt
drop_last-AllMore (m ∷ []) h = tt
drop_last-AllMore (m ∷ n ∷ ms) h = (h.0, drop_last-AllMore (n ∷ ms) h.1)

last-more : (ms : List Msg) (m : Msg) → AllMore ms → get_last? ms ≡ some m → has_more m ≡ true
last-more [] m h e = ground arith
last-more (k ∷ []) m h e = let same : k ≡ m = ground arith in rw (← same) h.0
last-more (k ∷ n ∷ ms) m h e = last-more (n ∷ ms) m h.1 e

nil_of_no_last : (ms : List Msg) → get_last? ms ≡ none → ms ≡ []
nil_of_no_last [] e = refl
nil_of_no_last (m ∷ []) e = ground arith
nil_of_no_last (m ∷ n ∷ ms) e = let none_left = nil_of_no_last (n ∷ ms) e in ground arith

unwrite-none : (q : Ypipe Msg) → IsValid q → Ypipe.unwrite q ≡ none → (view q).partial ≡ []
unfolding Spec.unwrite
unwrite-none q v e = elim (Option-cases (get_last? (view q).partial)) [
  | inl n ↦ nil_of_no_last (view q).partial n
  | inr (m, n) ↦ absurd (ground (arith, unwrite_refines q v))
]

unwrite-some :
    (q r : Ypipe Msg) (m : Msg)
    → IsValid q
    → Ypipe.unwrite q ≡ some (m, r)
    → (get_last? (view q).partial ≡ some m)
      × (view r ≡ record (view q) { partial = drop_last (view q).partial })
unfolding Spec.unwrite
unwrite-some q r m v e = elim (Option-cases (get_last? (view q).partial)) [
  | inl n ↦ absurd (ground (arith, unwrite_refines q v))
  | inr (k, n) ↦ ground (arith, unwrite_refines q v)
]

length-drop_last-lt :
    (ms : List Msg) (m : Msg) → get_last? ms ≡ some m → length (drop_last ms) < length ms
length-drop_last-lt [] m e = absurd (ground arith)
length-drop_last-lt (k ∷ ms) m e = omega (arith, length-drop_last (k ∷ ms))

unwrite_all_clears :
    (fuel : ℕ) (q : Ypipe Msg)
    → length (view q).partial < fuel
    → IsValid q
    → AllMore (view q).partial
    → (r : Ypipe Msg) × (unwrite_all fuel q ≡ some r)
      × (view r ≡ record (view q) { partial = [] })
      × IsValid r
unfolding unwrite_all
unwrite_all_clears zero q f v h = absurd (omega arith)
unwrite_all_clears (suc fuel) q f v h = elim (Option-cases (Ypipe.unwrite q)) [
  | inl n ↦ let empty = unwrite-none q v n in (q, rw (n, unwrite_all), rw (← empty) refl, v)
  | inr ((m, q'), n) ↦
      let ms = (view q).partial in
      let (l, w) = unwrite-some q q' m v n in
      let part : (view q').partial ≡ drop_last ms = ap (λ (x : View Msg). x.partial) w in
      let (r, done, left, valid) =
        unwrite_all_clears fuel q' (rw part (omega (arith, length-drop_last-lt ms m l)))
          (unwrite-IsValid q q' m v n) (rw part (drop_last-AllMore ms h)) in
      (
        r,
        rw (n, unwrite_all, last-more ms m h l) done,
        left ∙ ap (λ (x : View Msg). record x { partial = [] }) w,
        valid,
      )
]

-- `rollback` takes back exactly the parts of the message that is not complete, if they all say that more
-- follows.
pub rollback_clears :
    (p : Pipe)
    → OutOk p
    → p.has_out ≡ true
    → (q : Pipe) × (rollback p ≡ some q)
      × (view q.out_pipe ≡ record (view p.out_pipe) { partial = [] })
      × IsValid q.out_pipe
      × (q.has_out ≡ true)
unfolding rollback
rollback_clears p h o =
    let (r, done, left, valid) =
      unwrite_all_clears (suc (length p.out_pipe.queue)) p.out_pipe
        (omega (
          arith,
          length-drop (p.out_pipe.f - p.out_pipe.w)
              (drop (p.out_pipe.w - p.out_pipe.front) p.out_pipe.queue),
          length-drop (p.out_pipe.w - p.out_pipe.front) p.out_pipe.queue,
        ))
        h.0 h.1 in
    (record p { out_pipe = r }, rw (o, done), left, valid, o)

out_pipe-write :
    (p : Pipe) (m : Msg)
    → ((write p m).1.out_pipe ≡ p.out_pipe)
      ⊎ ((write p m).1.out_pipe ≡ Ypipe.write p.out_pipe m (has_more m))
unfolding write
out_pipe-write p m = ground arith

written-AllMore :
    (q : Ypipe Msg) (m : Msg) (b : Bool)
    → has_more m ≡ b
    → IsValid q
    → AllMore (view q).partial
    → AllMore (view (Ypipe.write q m b)).partial
unfolding Spec.write
written-AllMore q m true e v h =
    let part : (view (Ypipe.write q m true)).partial ≡ (view q).partial ++ m ∷ [] =
      ap (λ (x : View Msg). x.partial) (view-write q m true v) in
    rw part (All-append (λ k. has_more k ≡ true) (view q).partial (m ∷ []) h (e, tt))
written-AllMore q m false e v h =
    let part : (view (Ypipe.write q m false)).partial ≡ [] =
      ap (λ (x : View Msg). x.partial) (view-write q m false v) in
    rw part tt

-- `write` keeps the incomplete message one whose parts all say that more follows, so that a later
-- rollback runs through.
pub write-OutOk : (p : Pipe) (m : Msg) → OutOk p → OutOk (write p m).1
write-OutOk p m h = elim (out_pipe-write p m) [
  | inl same ↦ rw same h
  | inr longer ↦ rw longer (
    write-IsValid p.out_pipe m (has_more m) h.0,
    written-AllMore p.out_pipe m (has_more m) refl h.0 h.1,
  )
]

pub rollback-some : (p : Pipe) → OutOk p → (q : Pipe) × (rollback p ≡ some q)
rollback-some p h = elim (Bool-cases p.has_out) [
  | inl o ↦ let (q, done, _, _, _) = rollback_clears p h o in (q, done)
  | inr o ↦ (p, unfold rollback in rw o)
]

-- A pipe that is as before, or that has refused the message.
abbrev pub Kept : Msg → Pipe → Pipe → Type 0
Kept m p q = (q ≡ p) ⊎ (((write p m).0 ≡ false) × (q ≡ (write p m).1))

refused_again :
    (p : Pipe) (m : Msg) → (write p m).0 ≡ false → write (write p m).1 m ≡ (false, (write p m).1)
unfolding write check_hwm
refused_again p m e = ground arith

pub Kept-write :
    (p q : Pipe) (m : Msg)
    → Kept m p q
    → (write q m).0 ≡ false
    → ((write p m).0 ≡ false) × ((write q m).1 ≡ (write p m).1)
Kept-write p q m (inl e) f = (ap (λ x. (write x m).0) (sym e) ∙ f, ap (λ x. (write x m).1) e)
Kept-write p q m (inr (r, e)) f =
    (r, ap (λ x. (write x m).1) e ∙ ap (λ x. x.1) (refused_again p m r))

-- A pipe that takes the message has not refused it before.
pub Kept-taken : (p q : Pipe) (m : Msg) → Kept m p q → (write q m).0 ≡ true → q ≡ p
Kept-taken p q m (inl e) t = e
Kept-taken p q m (inr (r, e)) t =
    let again_refused : (write q m).0 ≡ false =
      ap (λ x. (write x m).0) e ∙ ap (λ x. x.0) (refused_again p m r) in
    absurd (ground arith)

-- The pipe after a write that it took: flushed if that was the last part.
abbrev pub taken : Pipe → Msg → Pipe
taken p m = if has_more m then (write p m).1 else flush (write p m).1
