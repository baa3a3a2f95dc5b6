-- ===== src/Decoder/Stream.antt =====
-- decoder.hpp and the loop of stream_engine.cpp against a reference that takes one byte after
-- another.
use zmq.Base.{
  ℕ, zero, suc, ◌+◌, ◌-◌, ◌≤◌, ◌<◌, ◌≡◌, inl, inr, refl, arith, true, ◌==◌, Option, none, some,
  List, [], ◌∷◌, ◌++◌, length, drop, Bool-cases, ap, ◌∙◌, sym, length-drop,
}
use zmq.Msg.{Msg}
use zmq.Decoder.{
  Decoder, Turn, go, ready, fail, Rc, incomplete, complete, failed, run_steps, store, resume,
  decode_loop, decode, next_step, receive, deliver, process,
}
use zmq.Decoder.Split.{
  run_steps-incomplete, run_steps-waits, decode_loop_step, decode_loop_split, continue,
  store-append, resume_ext, continue-resume,
}

module _ {A : Type 0} (act : A → List ℕ → Turn A) where
  -- One byte after another, up to the first return.
  pub scan : ℕ → List ℕ → Decoder A → Option (Rc × ℕ × Decoder A)
  scan used [] d = some (incomplete, used, d)
  scan used (x ∷ xs) d =
      resume act (λ d'. scan (used + 1) xs d') (used + 1) (run_steps act 3 (store act d (x ∷ [])))

  one_byte :
      (used x : ℕ) (d : Decoder A)
      → 0 < d.to_read
      → decode_loop act 1 used (x ∷ []) d
        ≡ resume act
            (λ d'. some (incomplete, used + 1, d'))
            (used + 1)
            (run_steps act 3 (store act d (x ∷ [])))
  unfolding decode_loop
  one_byte used x d live = decode_loop_step act 0 used 1 (x ∷ []) d (omega arith) (omega arith)

  pub decode_loop-eq-scan :
      (used : ℕ) (xs : List ℕ) (d : Decoder A)
      → 0 < d.to_read
      → decode_loop act (length xs) used xs d ≡ scan used xs d
  unfolding decode_loop scan
  decode_loop-eq-scan used [] d live = refl
  decode_loop-eq-scan used (x ∷ xs) d live =
      decode_loop_split act 1 (length xs) (suc (length xs)) used (x ∷ []) xs d live (omega arith)
        (omega arith) (omega arith)
      ∙ ap (continue act (length xs) xs) (one_byte used x d live)
      ∙ continue-resume act (length xs) (used + 1) xs (λ d'. some (incomplete, used + 1, d'))
          (run_steps act 3 (store act d (x ∷ [])))
      ∙ resume_ext act _ _ (used + 1) _
          (λ d' r. decode_loop-eq-scan (used + 1) xs d' (run_steps-incomplete act 3 _ d' r))

  module _ (msg : A → Msg) where
    abbrev pub Fed : Type 0
    Fed = Option (List Msg × Rc × Decoder A)

    -- What follows the return of a step.
    abbrev pub after_step : (Decoder A → Fed) → Option (Rc × Decoder A) → Fed
    after_step k none = none
    after_step k (some (incomplete, d)) = k d
    after_step k (some (complete, d)) = deliver act msg (msg d.next) (k d)
    after_step k (some (failed e, d)) = some ([], failed e, d)

    -- The reference: the decoder is handed one byte after another.
    unfoldable pub feed : List ℕ → Decoder A → Fed
    feed [] d = some ([], incomplete, d)
    feed (x ∷ xs) d = after_step (λ d'. feed xs d') (run_steps act 3 (store act d (x ∷ [])))

    abbrev feed_of : ℕ → List ℕ → Option (Rc × ℕ × Decoder A) → Fed
    feed_of used xs none = none
    feed_of used xs (some (incomplete, n, d)) = some ([], incomplete, d)
    feed_of used xs (some (complete, n, d)) =
        deliver act msg (msg d.next) (feed (drop (n - used) xs) d)
    feed_of used xs (some (failed e, n, d)) = some ([], failed e, d)

    -- Where `scan` stops lies ahead.
    abbrev Stops : ℕ → ℕ → Option (Rc × ℕ × Decoder A) → Type 0
    Stops lo hi none = Unit
    Stops lo hi (some (incomplete, n, d)) = Unit
    Stops lo hi (some (complete, n, d)) = (lo < n) × (n ≤ hi) × (0 < d.to_read)
    Stops lo hi (some (failed e, n, d)) = Unit

    -- What came before, then what `k` makes of the state.
    abbrev pub and_then : Fed → (Decoder A → Fed) → Fed
    and_then none k = none
    and_then (some ([], incomplete, d)) k = k d
    and_then (some ([], complete, d)) k = some ([], complete, d)
    and_then (some ([], failed e, d)) k = some ([], failed e, d)
    and_then (some (m ∷ ms, rc, d)) k = deliver act msg m (and_then (some (ms, rc, d)) k)

    deliver-and_then :
        (m : Msg) (o : Fed) (k : Decoder A → Fed)
        → and_then (deliver act msg m o) k ≡ deliver act msg m (and_then o k)
    deliver-and_then m none k = refl
    deliver-and_then m (some (ms, rc, d)) k = refl

    pub feed-append :
        (xs ys : List ℕ) (d : Decoder A)
        → feed (xs ++ ys) d ≡ and_then (feed xs d) (λ d'. feed ys d')
    unfolding feed
    feed-append [] ys d = refl
    feed-append (x ∷ xs) ys d =
        from (run_steps act 3 (store act d (x ∷ []))) (λ d'. feed-append xs ys d')
      where
        from :
            (r : Option (Rc × Decoder A))
            → ((d' : Decoder A) → feed (xs ++ ys) d' ≡ and_then (feed xs d') (λ d''. feed ys d''))
            → after_step (λ d'. feed (xs ++ ys) d') r
              ≡ and_then (after_step (λ d'. feed xs d') r) (λ d''. feed ys d'')
        from none h = refl
        from (some (incomplete, d')) h = h d'
        from (some (complete, d')) h =
            ap (deliver act msg (msg d'.next)) (h d')
            ∙ sym (deliver-and_then (msg d'.next) (feed xs d') (λ d''. feed ys d''))
        from (some (failed e, d')) h = refl

    -- The bytes of one piece, then the step.
    pub feed_piece :
        (xs ys : List ℕ) (d : Decoder A)
        → 0 < d.to_read
        → length xs ≡ d.to_read
        → feed (xs ++ ys) d ≡ after_step (λ d'. feed ys d') (run_steps act 3 (store act d xs))
    unfolding feed
    feed_piece [] ys d live e = absurd (omega arith)
    feed_piece (x ∷ []) ys d live e = refl
    feed_piece (x ∷ y ∷ xs) ys d live e =
        rw (run_steps-waits act 2 (store act d (x ∷ [])) (omega arith)) (
          feed_piece (y ∷ xs) ys (store act d (x ∷ [])) (omega arith) (omega arith)
          ∙ ap (λ d'. after_step (λ d''. feed ys d'') (run_steps act 3 d'))
              (store-append act d (x ∷ []) (y ∷ xs)))

    -- Every step asks for at least one byte after a message.
    module _ (restarts : (a b : A) (xs : List ℕ) (n : ℕ) → act a xs ≡ ready b n → 0 < n) where
      pub run_steps-complete :
          (fuel : ℕ) (d d' : Decoder A)
          → run_steps act fuel d ≡ some (complete, d')
          → 0 < d'.to_read
      unfolding run_steps
      run_steps-complete zero d d' e = absurd (ground arith)
      run_steps-complete (suc fuel) d d' e = elim (Bool-cases (d.to_read == 0)) [
        | inr more ↦ absurd (ground arith)
        | inl done ↦
            turn done (λ a n. run_steps-complete fuel (next_step act a n) d') (act d.next d.got)
              refl
      ]
        where
          turn :
              ((d.to_read == 0) ≡ true)
              → ((a : A) (n : ℕ)
                  → run_steps act fuel (next_step act a n) ≡ some (complete, d')
                  → 0 < d'.to_read)
              → (t : Turn A) → act d.next d.got ≡ t
              → 0 < d'.to_read
          turn z ih (go a n) f = ih a n (ground arith)
          turn z ih (ready a n) f = ground (arith, restarts d.next a d.got n f)
          turn z ih (fail a x) f = absurd (ground arith)

      scan-Stops :
          (used : ℕ) (xs : List ℕ) (d : Decoder A) → Stops used (used + length xs) (scan used xs d)
      unfolding scan
      scan-Stops used [] d = tt
      scan-Stops used (x ∷ xs) d =
          from (run_steps act 3 (store act d (x ∷ []))) refl (λ d'. scan-Stops (used + 1) xs d')
        where
          widen :
              (o : Option (Rc × ℕ × Decoder A))
              → Stops (used + 1) (used + 1 + length xs) o
              → Stops used (used + suc (length xs)) o
          widen none h = tt
          widen (some (incomplete, n, d')) h = tt
          widen (some (complete, n, d')) (lo, hi, live) = (omega arith, omega arith, live)
          widen (some (failed e, n, d')) h = tt

          from :
              (r : Option (Rc × Decoder A))
              → run_steps act 3 (store act d (x ∷ [])) ≡ r
              → ((d' : Decoder A) → Stops (used + 1) (used + 1 + length xs) (scan (used + 1) xs d'))
              → Stops used
                  (used + suc (length xs))
                  (resume act (λ d'. scan (used + 1) xs d') (used + 1) r)
          from none e h = tt
          from (some (incomplete, d')) e h = widen (scan (used + 1) xs d') (h d')
          from (some (complete, d')) e h = (omega arith, omega arith, run_steps-complete 3 _ d' e)
          from (some (failed x, d')) e h = tt

      -- The messages up to the first return of `decode`, then those of the rest.
      feed-eq-feed_of :
          (used : ℕ) (xs : List ℕ) (d : Decoder A) → feed xs d ≡ feed_of used xs (scan used xs d)
      unfolding feed scan
      feed-eq-feed_of used [] d = refl
      feed-eq-feed_of used (x ∷ xs) d =
          from (run_steps act 3 (store act d (x ∷ []))) (λ d'. feed-eq-feed_of (used + 1) xs d')
        where
          one_more :
              (o : Option (Rc × ℕ × Decoder A))
              → Stops (used + 1) (used + 1 + length xs) o
              → feed_of (used + 1) xs o ≡ feed_of used (x ∷ xs) o
          one_more none h = refl
          one_more (some (incomplete, n, d')) h = refl
          one_more (some (complete, n, d')) h =
              let e : n - used ≡ suc (n - (used + 1)) = omega arith in rw e
          one_more (some (failed e, n, d')) h = refl

          from :
              (r : Option (Rc × Decoder A))
              → ((d' : Decoder A) → feed xs d' ≡ feed_of (used + 1) xs (scan (used + 1) xs d'))
              → after_step (λ d'. feed xs d') r
                ≡ feed_of used (x ∷ xs) (resume act (λ d'. scan (used + 1) xs d') (used + 1) r)
          from none h = refl
          from (some (incomplete, d')) h =
              h d' ∙ one_more (scan (used + 1) xs d') (scan-Stops (used + 1) xs d')
          from (some (complete, d')) h = let e : used + 1 - used ≡ 1 = omega arith in rw e
          from (some (failed e, d')) h = refl

      -- `receive` gives the messages, the return code and the state of the reference.
      pub receive-eq-feed :
          (fuel : ℕ) (xs : List ℕ) (d : Decoder A)
          → 0 < d.to_read
          → length xs ≤ fuel
          → receive act msg fuel xs d ≡ feed xs d
      unfolding receive feed decode
      receive-eq-feed zero [] d live h = refl
      receive-eq-feed zero (x ∷ xs) d live h = absurd (omega arith)
      receive-eq-feed (suc fuel) [] d live h = refl
      receive-eq-feed (suc fuel) (x ∷ xs) d live h =
          ap (process act msg _) (decode_loop-eq-scan 0 (x ∷ xs) d live)
          ∙ from (scan 0 (x ∷ xs) d) (scan-Stops 0 (x ∷ xs) d)
              (λ n d' live' le. receive-eq-feed fuel (drop n (x ∷ xs)) d' live' le)
          ∙ sym (feed-eq-feed_of 0 (x ∷ xs) d)
        where
          from :
              (o : Option (Rc × ℕ × Decoder A))
              → Stops 0 (0 + length (x ∷ xs)) o
              → ((n : ℕ) (d' : Decoder A)
                  → 0 < d'.to_read
                  → length (drop n (x ∷ xs)) ≤ fuel
                  → receive act msg fuel (drop n (x ∷ xs)) d' ≡ feed (drop n (x ∷ xs)) d')
              → process act msg (λ n d'. receive act msg fuel (drop n (x ∷ xs)) d') o
                ≡ feed_of 0 (x ∷ xs) o
          from none s ih = refl
          from (some (incomplete, n, d')) s ih = refl
          from (some (complete, n, d')) (lo, hi, live') ih =
              let e : n - 0 ≡ n = omega arith in
              rw e (
                ap (deliver act msg (msg d'.next))
                  (ih n d' live' (omega (arith, length-drop {0} n (x ∷ xs)))))
          from (some (failed e, n, d')) s ih = refl
