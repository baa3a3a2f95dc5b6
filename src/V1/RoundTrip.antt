-- ===== src/V1/RoundTrip.antt =====
-- v1_encoder.cpp and v1_decoder.cpp: the messages that are encoded are the messages that are decoded.
use zmq.Base.{
  ℕ, ◌+◌, ◌-◌, ◌^◌, ◌%◌, ◌<◌, ◌≡◌, inl, inr, refl, arith, Bool, true, false, ◌==◌, ltb, some, List,
  [], ◌∷◌, ◌++◌, length, if◌then◌else◌, Bool-cases, ap, ◌∙◌, sym, append_assoc, append-nil, bit_and,
}
use zmq.Base.Int.{ℤ}
use zmq.Wire.{put_uint64, get_uint64}
use zmq.Wire.Laws.{get_uint64-put_uint64}
use zmq.Msg
use zmq.Msg.{Msg}
use zmq.Decoder.{Decoder, Turn, go, fail, failed, Errno, next_step, store, run_steps, deliver}
use zmq.Decoder.Split.{run_steps-waits, run_steps-go, run_steps-ready, run_steps-fail}
use zmq.Decoder.Stream.{feed, feed_piece, after_step}
use zmq.V1.{
  encoder_act, header_of, uchar_max, DecoderStep, Members, decoder_act, one_byte_size_ready_at,
  eight_byte_size_ready_at, too_large, sized,
}
use zmq.V1.Frame.{frame, received, Fits, more_survives}

module _ (limit : ℤ) (alloc : ℕ → Bool) where
  abbrev pub act : Members → List ℕ → Turn Members
  act = decoder_act limit alloc

  abbrev pub msg : Members → Msg
  msg s = s.in_progress

  abbrev at : DecoderStep → Msg → ℕ → Members
  at step m size = record { step = step; in_progress = m; size = size }

  -- The state of a decoder between two messages, the last one `m`.
  abbrev pub between : Msg → ℕ → Decoder Members
  between m size = record {
    next = at DecoderStep.one_byte_size_ready m size;
    got = [];
    to_read = 1;
  }

  -- The content, then the message.
  content_lem :
      (body rest : List ℕ) (m : Msg)
      → after_step act msg
          (λ d. feed act msg (body ++ rest) d)
          (run_steps act 2
            (next_step act (at DecoderStep.message_ready m (length body)) (length body)))
        ≡ deliver act msg
            (record m { body = body })
            (feed act msg rest (between (record m { body = body }) (length body)))
  unfolding decoder_act
  content_lem [] rest m =
      rw (run_steps-ready act 1 1 (next_step act (at DecoderStep.message_ready m 0) 0) _ refl refl)
  content_lem (x ∷ xs) rest m =
      let body = x ∷ xs in
      let d = next_step act (at DecoderStep.message_ready m (length body)) (length body) in
      rw (
        run_steps-waits act 1 d (omega arith),
        feed_piece act msg body rest d (omega arith) refl,
        run_steps-ready act 2 1 (store act d body) _ (omega arith) refl,
      )

  -- A piece after which another one is read.
  one_step :
      (xs ys : List ℕ) (a b : Members) (n : ℕ)
      → 0 < length xs
      → 0 < n
      → act a xs ≡ go b n
      → feed act msg (xs ++ ys) (next_step act a (length xs)) ≡ feed act msg ys (next_step act b n)
  one_step xs ys a b n px pn e =
      let d = next_step act a (length xs) in
      rw (
        feed_piece act msg xs ys d px refl,
        run_steps-go act 2 n (store act d xs) b (omega arith) e,
        run_steps-waits act 1 (next_step act b n) pn,
      )

  -- From the byte of flags on.
  flags_lem :
      (flags : ℕ) (body rest : List ℕ)
      → let m = record (Msg.init_content body) { flags = bit_and flags Msg.more } in
        feed act msg
          ((bit_and flags Msg.more ∷ []) ++ (body ++ rest))
          (next_step act (at DecoderStep.flags_ready (sized (length body)) (length body)) 1)
        ≡ deliver act msg m (feed act msg rest (between m (length body)))
  unfolding decoder_act
  flags_lem flags body rest =
      let byte = bit_and flags Msg.more in
      let n = length body in
      let d = next_step act (at DecoderStep.flags_ready (sized n) n) 1 in
      let m : Msg = Msg.set_flags (sized n) (bit_and byte Msg.more) in
      rw
        (
          feed_piece act msg (byte ∷ []) (body ++ rest) d (omega arith) refl,
          run_steps-go act 2 n (store act d (byte ∷ [])) (at DecoderStep.message_ready m n)
              (omega arith) refl,
        )
        (content_lem body rest m
          ∙ ap
              (λ (f : ℕ).
                let m' : Msg = record (Msg.init_content body) { flags = f } in
                deliver act msg m' (feed act msg rest (between m' n)))
              (more_survives flags))

  -- The size in one byte.
  one_byte_lem :
      (n : ℕ) (s : Members)
      → ltb (n + 1) uchar_max ≡ true
      → too_large limit n ≡ false
      → alloc n ≡ true
      → one_byte_size_ready_at limit alloc ((n + 1) % 256) s
        ≡ go (at DecoderStep.flags_ready (sized n) n) 1
  one_byte_lem n s short small memory =
      let byte : (n + 1) % 256 ≡ n + 1 = ground arith in
      let not_escape : ((n + 1) == uchar_max) ≡ false = ground arith in
      let some_flags : ((n + 1) == 0) ≡ false = ground arith in
      let less : n + 1 - 1 ≡ n = omega arith in
      rw (byte, not_escape, some_flags, less, small, memory)

  -- The size in eight bytes.
  eight_byte_lem :
      (n : ℕ) (s : Members)
      → too_large limit n ≡ false
      → n + 1 < 2 ^ 64
      → alloc n ≡ true
      → eight_byte_size_ready_at limit alloc (n + 1) s
        ≡ go (at DecoderStep.flags_ready (sized n) n) 1
  eight_byte_lem n s small fits memory =
      let some_flags : ((n + 1) == 0) ≡ false = ground arith in
      let less : n + 1 - 1 ≡ n = omega arith in
      let within : ltb (2 ^ 64 - 1) n ≡ false = ground arith in
      rw (some_flags, less, small, within, memory)

  -- The bytes of the size and of the flags.
  header_lem :
      (n flags size0 : ℕ) (last : Msg) (rest : List ℕ)
      → too_large limit n ≡ false
      → n + 1 < 2 ^ 64
      → alloc n ≡ true
      → feed act msg (header_of (n + 1) flags ++ rest) (between last size0)
        ≡ feed act msg
            ((flags ∷ []) ++ rest)
            (next_step act (at DecoderStep.flags_ready (sized n) n) 1)
  unfolding decoder_act put_uint64
  header_lem n flags size0 last rest small fits memory =
      let s = at DecoderStep.one_byte_size_ready last size0 in
      let s8 = at DecoderStep.eight_byte_size_ready last size0 in
      let next = at DecoderStep.flags_ready (sized n) n in
      let sz = put_uint64 (n + 1) in
      elim (Bool-cases (ltb (n + 1) uchar_max)) [
        | inl short ↦ rw short (
            one_step (((n + 1) % 256) ∷ []) ((flags ∷ []) ++ rest) s next 1 (omega arith)
              (omega arith) (one_byte_lem n s short small memory))
        | inr long ↦ rw long (
            one_step (uchar_max ∷ []) (sz ++ ((flags ∷ []) ++ rest)) s s8 8 (omega arith)
              (omega arith) refl
            ∙ one_step sz ((flags ∷ []) ++ rest) s8 next 1 (omega arith) (omega arith) (
                ap (λ (k : ℕ). eight_byte_size_ready_at limit alloc k s8)
                  (ap get_uint64 (sym (append-nil sz)) ∙ get_uint64-put_uint64 (n + 1) [] fits)
                ∙ eight_byte_lem n s8 small fits memory))
      ]

  -- A frame, then the message that it is of, and the decoder is between two messages again.
  pub feed-frame :
      (m last : Msg) (size0 : ℕ) (rest : List ℕ)
      → Fits limit alloc m
      → feed act msg (frame m ++ rest) (between last size0)
        ≡ deliver act msg (received m) (feed act msg rest (between (received m) (Msg.size m)))
  unfolding encoder_act
  feed-frame m last size0 rest (small, fits, memory) =
      let flags = bit_and m.flags Msg.more in
      let header = header_of (Msg.size m + 1) flags in
      let no_wrap : (Msg.size m + 1) % 2 ^ 64 ≡ Msg.size m + 1 = ground arith in
      ap (λ (n : ℕ). feed act msg ((header_of n flags ++ m.body) ++ rest) (between last size0))
        no_wrap
      ∙ ap (λ xs. feed act msg xs (between last size0)) (append_assoc header m.body rest)
      ∙ header_lem (Msg.size m) flags size0 last (m.body ++ rest) small fits memory
      ∙ flags_lem m.flags m.body rest

  -- A size of 0, which leaves no byte for the flags, is refused with EPROTO, in one byte or in eight,
  -- and no message is delivered.
  pub feed-no_flags :
      (long : Bool) (last : Msg) (size0 : ℕ) (rest : List ℕ)
      → (d : Decoder Members) × (feed act msg
            ((if long then uchar_max ∷ put_uint64 0 else 0 ∷ []) ++ rest)
            (between last size0)
          ≡ some ([], failed Errno.eproto, d))
  unfolding decoder_act put_uint64
  feed-no_flags false last size0 rest =
      let d = between last size0 in
      (
        store act d (0 ∷ []),
        feed_piece act msg (0 ∷ []) rest d (omega arith) refl
            ∙ ap (λ r. after_step act msg (λ d'. feed act msg rest d') r)
                (run_steps-fail act 2 (store act d (0 ∷ [])) d.next Errno.eproto (omega arith)
                  refl),
      )
  feed-no_flags true last size0 rest =
      let s8 = at DecoderStep.eight_byte_size_ready last size0 in
      let d = next_step act s8 8 in
      let sz = put_uint64 0 in
      let zero_size : eight_byte_size_ready_at limit alloc (get_uint64 sz) s8
          ≡ fail s8 Errno.eproto =
        rw (get_uint64-put_uint64 0 [] (omega arith)) in
      (
        store act d sz,
        one_step (uchar_max ∷ []) (sz ++ rest) (at DecoderStep.one_byte_size_ready last size0) s8 8
              (omega arith) (omega arith) refl
            ∙ feed_piece act msg sz rest d (omega arith) refl
            ∙ ap (λ r. after_step act msg (λ d'. feed act msg rest d') r)
                (run_steps-fail act 2 (store act d sz) s8 Errno.eproto (omega arith) zero_size),
      )
