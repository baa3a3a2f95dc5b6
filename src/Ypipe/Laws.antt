-- ===== src/Ypipe/Laws.antt =====
-- The invariant of a ypipe's pointers.
use zmq.Base.{
  ℕ, ◌≤◌, ◌≡◌, ◌⊎◌, arith, Bool, true, false, none, some, [], ◌∷◌, length-append, length-drop_last,
}
use zmq.Ypipe.{Ypipe, back, write, unwrite, flush, check_read, read, fresh}

module _ {ℓ} {A : Type ℓ} where
  -- Written, flushed and read in this order, and `c` says where the flushed items end, or that the
  -- reader has taken all of them and sleeps.
  pub record IsValid (p : Ypipe A) : Type 0 where
    pub front_w : p.front ≤ p.w
    pub w_f : p.w ≤ p.f
    pub f_back : p.f ≤ back p
    pub c_w : (p.c ≡ some p.w) ⊎ ((p.c ≡ none) × (p.w ≡ p.front))
    pub r_w : (p.r ≡ none) ⊎ ((x : ℕ) × (p.r ≡ some x) × (p.front ≤ x) × (x ≤ p.w))

  -- A ypipe starts valid.
  pub fresh-IsValid : IsValid (fresh A)
  fresh-IsValid = ground arith

  pub write-IsValid : (p : Ypipe A) (v : A) (inc : Bool) → IsValid p → IsValid (write p v inc)
  unfolding write
  write-IsValid p v true h = ground (arith, length-append p.queue (v ∷ []))
  write-IsValid p v false h = ground (arith, length-append p.queue (v ∷ []))

  pub flush-IsValid : (p : Ypipe A) → IsValid p → IsValid (flush p).1
  unfolding flush
  flush-IsValid p h = ground arith

  pub unwrite-IsValid : (p q : Ypipe A) (v : A) → IsValid p → unwrite p ≡ some (v, q) → IsValid q
  unfolding unwrite
  unwrite-IsValid p q v h e = ground (arith, length-drop_last p.queue)

  pub check_read-IsValid : (p : Ypipe A) → IsValid p → IsValid (check_read p).1
  unfolding check_read
  check_read-IsValid p h = ground arith

  pub read-IsValid : (p : Ypipe A) → IsValid p → IsValid (read p).1
  unfolding read
  read-IsValid p h = ground arith
