-- ===== src/Decoder/Split.antt =====
-- decoder.hpp: it does not matter how the bytes are cut into pieces.
use zmq.Base.{
  ℕ, zero, suc, ◌+◌, ◌-◌, ◌≤◌, ◌<◌, ◌≡◌, inl, inr, refl, arith, true, ◌==◌, leb, min, Option, none,
  some, List, [], ◌∷◌, ◌++◌, length, take, drop, Bool-cases, ◌∙◌, sym, append_assoc, append-nil,
  length-append, take-append, drop-append, take-all, drop-all, length-drop, take-add_append,
  drop-add_append,
}
use zmq.Decoder.{
  Decoder, Turn, go, ready, fail, Errno, Rc, incomplete, complete, failed, run_steps, store, resume,
  decode_loop, next_step,
}

module _ {A : Type 0} (act : A → List ℕ → Turn A) where
  -- The steps end without a return only where there is something to read.
  pub run_steps-incomplete :
      (fuel : ℕ) (d d' : Decoder A) → run_steps act fuel d ≡ some (incomplete, d') → 0 < d'.to_read
  unfolding run_steps
  run_steps-incomplete zero d d' e = absurd (ground arith)
  run_steps-incomplete (suc fuel) d d' e = elim (Bool-cases (d.to_read == 0)) [
    | inr more ↦ ground arith
    | inl done ↦
        turn done (λ a n. run_steps-incomplete fuel (next_step act a n) d') (act d.next d.got) refl
  ]
    where
      turn :
          ((d.to_read == 0) ≡ true)
          → ((a : A) (n : ℕ)
              → run_steps act fuel (next_step act a n) ≡ some (incomplete, d')
              → 0 < d'.to_read)
          → (t : Turn A) → act d.next d.got ≡ t
          → 0 < d'.to_read
      turn z ih (go a n) f = ih a n (ground arith)
      turn z ih (ready a n) f = absurd (ground arith)
      turn z ih (fail a x) f = absurd (ground arith)

  pub run_steps-waits :
      (fuel : ℕ) (d : Decoder A) → 0 < d.to_read → run_steps act (suc fuel) d ≡ some (incomplete, d)
  unfolding run_steps
  run_steps-waits fuel d h = ground arith

  -- A step at the end of a piece.
  pub run_steps-go :
      (fuel n : ℕ) (d : Decoder A) (a : A)
      → d.to_read ≡ 0
      → act d.next d.got ≡ go a n
      → run_steps act (suc fuel) d ≡ run_steps act fuel (next_step act a n)
  unfolding run_steps
  run_steps-go fuel n d a z e = ground arith

  pub run_steps-ready :
      (fuel n : ℕ) (d : Decoder A) (a : A)
      → d.to_read ≡ 0
      → act d.next d.got ≡ ready a n
      → run_steps act (suc fuel) d ≡ some (complete, next_step act a n)
  unfolding run_steps
  run_steps-ready fuel n d a z e = ground arith

  pub run_steps-fail :
      (fuel : ℕ) (d : Decoder A) (a : A) (e : Errno)
      → d.to_read ≡ 0
      → act d.next d.got ≡ fail a e
      → run_steps act (suc fuel) d ≡ some (failed e, record d { next = a })
  unfolding run_steps
  run_steps-fail fuel d a e z f = ground arith

  -- One round.
  pub decode_loop_step :
      (fuel used to_copy : ℕ) (xs : List ℕ) (d : Decoder A)
      → 0 < length xs
      → to_copy ≡ min d.to_read (length xs)
      → decode_loop act (suc fuel) used xs d
        ≡ resume act
            (λ d'. decode_loop act fuel (used + to_copy) (drop to_copy xs) d')
            (used + to_copy)
            (run_steps act 3 (store act d (take to_copy xs)))
  unfolding decode_loop
  decode_loop_step fuel used to_copy [] d h e = absurd (omega arith)
  decode_loop_step fuel used to_copy (x ∷ xs) d h e = rw e

  pub decode_loop-nil :
      (fuel used : ℕ) (d : Decoder A) → decode_loop act fuel used [] d ≡ some (incomplete, used, d)
  unfolding decode_loop
  decode_loop-nil zero used d = refl
  decode_loop-nil (suc fuel) used d = refl

  -- What follows matters only where the steps wait for more.
  pub resume_ext :
      (k k' : Decoder A → Option (Rc × ℕ × Decoder A)) (used : ℕ) (r : Option (Rc × Decoder A))
      → ((d : Decoder A) → r ≡ some (incomplete, d) → k d ≡ k' d)
      → resume act k used r ≡ resume act k' used r
  resume_ext k k' used none h = refl
  resume_ext k k' used (some (incomplete, d)) h = h d refl
  resume_ext k k' used (some (complete, d)) h = refl
  resume_ext k k' used (some (failed e, d)) h = refl

  -- More rounds than bytes change nothing.
  pub decode_loop_fuel :
      (f g used : ℕ) (xs : List ℕ) (d : Decoder A)
      → 0 < d.to_read
      → length xs ≤ f
      → length xs ≤ g
      → decode_loop act f used xs d ≡ decode_loop act g used xs d
  decode_loop_fuel f g used [] d live hf hg =
      decode_loop-nil f used d ∙ sym (decode_loop-nil g used d)
  decode_loop_fuel zero g used (x ∷ xs) d live hf hg = absurd (omega arith)
  decode_loop_fuel (suc f) zero used (x ∷ xs) d live hf hg = absurd (omega arith)
  decode_loop_fuel (suc f) (suc g) used (x ∷ xs) d live hf hg =
      let n = min d.to_read (length (x ∷ xs)) in
      let rest = drop n (x ∷ xs) in
      let short = length-drop n (x ∷ xs) in
      decode_loop_step f used n (x ∷ xs) d (omega arith) refl
      ∙ resume_ext _ _ (used + n) _ (λ d' e.
        decode_loop_fuel f g (used + n) rest d' (run_steps-incomplete 3 _ d' e) (omega arith)
          (omega arith))
      ∙ sym (decode_loop_step g used n (x ∷ xs) d (omega arith) refl)

  -- The rest of the data after a first piece.
  abbrev pub continue : ℕ → List ℕ → Option (Rc × ℕ × Decoder A) → Option (Rc × ℕ × Decoder A)
  continue fuel ys none = none
  continue fuel ys (some (incomplete, used, d)) = decode_loop act fuel used ys d
  continue fuel ys (some (complete, used, d)) = some (complete, used, d)
  continue fuel ys (some (failed e, used, d)) = some (failed e, used, d)

  pub continue-resume :
      (fuel used : ℕ) (ys : List ℕ) (k : Decoder A → Option (Rc × ℕ × Decoder A))
      (r : Option (Rc × Decoder A))
      → continue fuel ys (resume act k used r) ≡ resume act (λ d. continue fuel ys (k d)) used r
  continue-resume fuel used ys k none = refl
  continue-resume fuel used ys k (some (incomplete, d)) = refl
  continue-resume fuel used ys k (some (complete, d)) = refl
  continue-resume fuel used ys k (some (failed e, d)) = refl

  pub store-append :
      (d : Decoder A) (xs ys : List ℕ) → store act (store act d xs) ys ≡ store act d (xs ++ ys)
  store-append d xs ys =
      λ i. record { next = d.next; got = append_assoc d.got xs ys i; to_read = left i }
    where
      left : d.to_read - length xs - length ys ≡ d.to_read - length (xs ++ ys)
      left = omega (arith, length-append {0} xs ys)

  -- All that is asked for lies in the first piece.
  split_within :
      (f g h used n : ℕ) (xs ys : List ℕ) (d : Decoder A)
      → 0 < length xs
      → n ≡ d.to_read
      → n ≤ length xs
      → ((d' : Decoder A)
          → 0 < d'.to_read
          → decode_loop act h (used + n) (drop n xs ++ ys) d'
            ≡ continue g ys (decode_loop act f (used + n) (drop n xs) d'))
      → decode_loop act (suc h) used (xs ++ ys) d
        ≡ continue g ys (decode_loop act (suc f) used xs d)
  split_within f g h used n xs ys d some_bytes e le ih =
      let both = length-append {0} xs ys in
      rw
        (
          decode_loop_step h used n (xs ++ ys) d (omega arith) (omega arith),
          decode_loop_step f used n xs d some_bytes (omega arith),
          take-append n xs ys le,
          drop-append n xs ys le,
        )
        (resume_ext _ _ (used + n) _ (λ d' r. ih d' (run_steps-incomplete 3 _ d' r))
          ∙ sym (
              continue-resume g (used + n) ys (λ d'. decode_loop act f (used + n) (drop n xs) d')
                (run_steps act 3 (store act d (take n xs)))))

  -- More is asked for than the first piece holds.
  all_stored :
      (f used : ℕ) (xs : List ℕ) (d : Decoder A)
      → 0 < length xs
      → length xs < d.to_read
      → decode_loop act (suc f) used xs d ≡ some (incomplete, used + length xs, store act d xs)
  all_stored f used xs d some_bytes lt =
      rw
        (
          decode_loop_step f used (length xs) xs d some_bytes (omega arith),
          take-all (length xs) xs (omega arith),
          drop-all (length xs) xs (omega arith),
          run_steps-waits 2 (store act d xs) (omega arith),
        )
        (decode_loop-nil f (used + length xs) (store act d xs))

  split_across :
      (f g h used : ℕ) (xs ys : List ℕ) (d : Decoder A)
      → 0 < length xs
      → length xs < d.to_read
      → length ys ≤ g
      → length (xs ++ ys) ≤ suc h
      → decode_loop act (suc h) used (xs ++ ys) d
        ≡ continue g ys (decode_loop act (suc f) used xs d)
  split_across f g h used xs [] d some_bytes lt hg hh =
      rw (append-nil xs, all_stored h used xs d some_bytes lt, all_stored f used xs d some_bytes lt)
        (sym (decode_loop-nil g _ _))
  split_across f zero h used xs (y ∷ ys) d some_bytes lt hg hh = absurd (omega arith)
  split_across f (suc g) h used xs (y ∷ ys) d some_bytes lt hg hh =
      let rest = y ∷ ys in
      let n = min (d.to_read - length xs) (length rest) in
      let both = length-append {0} xs rest in
      let regroup : used + (length xs + n) ≡ used + length xs + n = omega arith in
      let short = length-drop {0} n rest in
      rw
        (
          all_stored f used xs d some_bytes lt,
          decode_loop_step h used (length xs + n) (xs ++ rest) d (omega arith) (omega arith),
          decode_loop_step g (used + length xs) n rest (store act d xs) (omega arith) refl,
          take-add_append xs rest n,
          drop-add_append xs rest n,
          store-append d xs (take n rest),
          regroup,
        )
        (resume_ext _ _ (used + length xs + n) _ (λ d' r.
          decode_loop_fuel h g (used + length xs + n) (drop n rest) d'
            (run_steps-incomplete 3 _ d' r) (omega arith) (omega arith)))

  -- A first piece `xs` of the data, then the rest.
  pub decode_loop_split :
      (f g h used : ℕ) (xs ys : List ℕ) (d : Decoder A)
      → 0 < d.to_read
      → length xs ≤ f
      → length ys ≤ g
      → length (xs ++ ys) ≤ h
      → decode_loop act h used (xs ++ ys) d ≡ continue g ys (decode_loop act f used xs d)
  decode_loop_split f g h used [] ys d live hf hg hh =
      rw (decode_loop-nil f used d)
        (decode_loop_fuel h g used ys d live (omega arith) (omega arith))
  decode_loop_split zero g h used (x ∷ xs) ys d live hf hg hh = absurd (omega arith)
  decode_loop_split (suc f) g zero used (x ∷ xs) ys d live hf hg hh = absurd (omega arith)
  decode_loop_split (suc f) g (suc h) used (x ∷ xs) ys d live hf hg hh =
      let n = d.to_read in
      let zs = x ∷ xs in
      let short = length-drop {0} n zs in
      let both = length-append {0} (drop n zs) ys in
      let whole = length-append {0} zs ys in
      let ih = λ (d' : Decoder A) (live' : 0 < d'.to_read).
        decode_loop_split f g h (used + n) (drop n zs) ys d' live' (omega arith) hg (omega arith) in
      elim (Bool-cases (leb n (length zs))) [
        | inl c ↦ split_within f g h used n zs ys d (omega arith) refl (ground arith) ih
        | inr c ↦ split_across f g h used zs ys d (omega arith) (ground arith) hg hh
      ]
