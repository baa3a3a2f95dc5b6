-- ===== src/Dist/Round.antt =====
-- dist.cpp: what a round of the loop of `distribute` does for every pipe.
use zmq.Base.{
  ℕ, ◌+◌, ◌-◌, ◌<◌, ◌≤◌, ◌≡◌, ◌≢◌, ◌⊎◌, refl, sym, ap, ◌∙◌, arith, true, false, ◌==◌, some,
  get_elem?, ltb, Bool-cases, inl, inr, if◌then◌else◌,
}
use zmq.Msg.{Msg}
use zmq.Pipe
use zmq.Pipe.{Pipe}
use zmq.Pipe.Write.{taken}
use zmq.Lb.{Store, put}
use zmq.Lb.Send.{put-same, put-other}
use zmq.Dist.{Dist, give_up}
use zmq.Dist.Inv.{IsValid}
use zmq.Dist.Places.{IsIn, IsOut, place_unique}
use zmq.Dist.GiveUp.{get_elem?-give_up, give_up-IsOut}

-- A matching pipe takes the message and goes on matching, or it refuses it and can be sent to no more.
abbrev pub Got : Msg → Store → ℕ → Dist → Store → Type 0
Got m st x d' st' =
    (((Pipe.write (st x) m).0 ≡ true) × (st' x ≡ taken (st x) m) × IsIn d'.pipes x d'.matching)
    ⊎ (((Pipe.write (st x) m).0 ≡ false)
        × (st' x ≡ (Pipe.write (st x) m).1)
        × IsOut d'.pipes x d'.eligible)

-- What the loop does from its round `i` on.
pub record Sends (i : ℕ) (d : Dist) (st : Store) (m : Msg) (d' : Dist) (st' : Store) : Type 0 where
  pub before :
      (x k : ℕ)
      → k < i
      → k < d.matching
      → get_elem? d.pipes.items k ≡ some x
      → (st' x ≡ st x) × IsIn d'.pipes x d'.matching
  pub from :
      (x k : ℕ) → i ≤ k → k < d.matching → get_elem? d.pipes.items k ≡ some x → Got m st x d' st'
  pub outside : (x : ℕ) → IsOut d.pipes x d.matching → (st' x ≡ st x) × IsOut d'.pipes x d'.matching
  pub gone : (x : ℕ) → IsOut d.pipes x d.eligible → IsOut d'.pipes x d'.eligible

module _ (d : Dist) (st : Store) (m : Msg) (i pipe : ℕ) (d' : Dist) (st' : Store) where
  -- An item at another place is another pipe.
  other :
      IsValid d
      → get_elem? d.pipes.items i ≡ some pipe
      → (x k : ℕ) → get_elem? d.pipes.items k ≡ some x
      → k ≢ i
      → x ≢ pipe
  other v at x k e n same = n (place_unique d.pipes k i x v.indexed e (at ∙ ap some (sym same)))

  same_item :
      get_elem? d.pipes.items i ≡ some pipe
      → (x k : ℕ) → get_elem? d.pipes.items k ≡ some x
      → k ≡ i
      → x ≡ pipe
  same_item at x k e n = ground (arith, at, e, ap (λ j. get_elem? d.pipes.items j) n)

  Got-put : (p : Pipe) (x : ℕ) → x ≢ pipe → Got m (put st pipe p) x d' st' → Got m st x d' st'
  Got-put p x n g = rw (put-other st pipe x p n) at g

  pub done-Sends :
      IsValid d
      → get_elem? d.pipes.items i ≡ some pipe
      → i < d.matching
      → (Pipe.write (st pipe) m).0 ≡ true
      → Sends (i + 1) d (put st pipe (taken (st pipe) m)) m d' st'
      → Sends i d st m d' st'
  done-Sends v at lt w s =
      let p = taken (st pipe) m in
      let here = s.before pipe i (omega arith) lt at in
      record {
        before = λ x k lt' lm e.
            let (q, r) = s.before x k (omega arith) lm e in
            (q ∙ put-other st pipe x p (other v at x k e (omega arith)), r);
        from = λ x k ge lm e. elim (Bool-cases (k == i)) [
          | inl c ↦
              rw (same_item at x k e (ground arith)) (inl (w, here.0 ∙ put-same st pipe p, here.1))
          | inr c ↦ Got-put p x (other v at x k e (ground arith)) (s.from x k (ground arith) lm e)
        ];
        outside = λ x o.
            let (q, r) = s.outside x o in
            (q ∙ put-other st pipe x p (λ same. o i lt (at ∙ ap some (sym same))), r);
        gone = s.gone;
      }

  pub refused-Sends :
      IsValid d
      → get_elem? d.pipes.items i ≡ some pipe
      → i < d.matching
      → (Pipe.write (st pipe) m).0 ≡ false
      → Sends i (give_up d pipe) (put st pipe (Pipe.write (st pipe) m).1) m d' st'
      → Sends i d st m d' st'
  unfolding give_up
  refused-Sends v at lt w s =
      let p = (Pipe.write (st pipe) m).1 in
      let out : IsOut (give_up d pipe).pipes pipe (give_up d pipe).eligible =
        λ k h f. (give_up-IsOut d i pipe k pipe at lt v (omega arith) f).1 refl in
      let gone = s.gone pipe out in
      let left = s.outside pipe (λ k h f. out k (omega (arith, h, v.matching_le, v.active_le)) f) in
      record {
        before = λ x k lt' lm e.
            let h : k + 1 < d.matching = omega arith in
            let (q, r) =
              s.before x k lt' (omega arith)
                (ground (arith, get_elem?-give_up d i pipe k at lt v h, e, lt')) in
            (q ∙ put-other st pipe x p (other v at x k e (omega arith)), r);
        from = λ x k ge lm e. elim (Bool-cases (k == i)) [
          | inl c ↦
              rw (same_item at x k e (ground arith)) (inr (w, left.0 ∙ put-same st pipe p, gone))
          | inr c ↦
              Got-put p x (other v at x k e (ground arith))
                (elim (Bool-cases (ltb (k + 1) d.matching)) [
                  | inl f ↦
                      s.from x k ge (ground arith)
                        (ground (arith, get_elem?-give_up d i pipe k at lt v (ground arith), e, c))
                  | inr f ↦
                      let last : d.matching - 1 ≡ k = ground arith in
                      let there = get_elem?-give_up d i pipe i at lt v (ground arith) in
                      s.from x i (omega arith) (ground arith) (ground (arith, there, last, e))
                ])
        ];
        outside = λ x o.
            let (q, r) = s.outside x (λ k h f.
              o (if i == k then d.matching - 1 else k) (ground arith)
                (sym (get_elem?-give_up d i pipe k at lt v (omega arith)) ∙ f)) in
            (q ∙ put-other st pipe x p (λ same. o i lt (at ∙ ap some (sym same))), r);
        gone = λ x o. s.gone x (λ k h f.
            let (k', l', f') = (give_up-IsOut d i pipe k x at lt v (omega arith) f).0 in
            o k' l' f');
      }
