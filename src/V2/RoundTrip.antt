-- ===== src/V2/RoundTrip.antt =====
-- v2_encoder.cpp and v2_decoder.cpp: the messages that are encoded are the messages that are decoded.
use zmq.Base.{
  ℕ, ◌^◌, ◌%◌, ◌<◌, ◌≡◌, refl, arith, Bool, true, false, not, ◌==◌, ltb, some, List, [], ◌∷◌, ◌++◌,
  length, if◌then◌else◌, ap, ◌∙◌, sym, append_assoc, append-nil, bit_and,
}
use zmq.Base.Int.{ℤ}
use zmq.Wire.{put_uint64, get_uint64}
use zmq.Wire.Laws.{get_uint64-put_uint64}
use zmq.Msg
use zmq.Msg.{Msg, has_more}
use zmq.Decoder.{Decoder, Turn, go, next_step, store, run_steps, failed, fail, Errno, deliver}
use zmq.Decoder.Split.{run_steps-waits, run_steps-go, run_steps-ready, run_steps-fail}
use zmq.Decoder.Stream.{feed, feed_piece, after_step}
use zmq.V2.{
  encoder_act, flags_of, is_command, uchar_max, large_flag, DecoderStep, Members, decoder_act,
  decoder_act_at, size_ready_at, too_large, sized, msg_flags_of,
}
use zmq.V2.Frame.{frame, received, Fits, flags_survive, large_of_flags}

module _ (limit : ℤ) (alloc : ℕ → Bool) where
  abbrev pub act : Members → List ℕ → Turn Members
  act = decoder_act limit alloc

  abbrev pub msg : Members → Msg
  msg s = s.in_progress

  -- The state of a decoder between two messages, the last one `m`.
  abbrev pub between : ℕ → Msg → Decoder Members
  between flags m = record {
    next = record { step = DecoderStep.flags_ready; msg_flags = flags; in_progress = m };
    got = [];
    to_read = 1;
  }

  abbrev at_content : ℕ → Msg → Members
  at_content flags m = record {
    step = DecoderStep.message_ready;
    msg_flags = flags;
    in_progress = m;
  }

  -- The content, then the message.
  content_lem :
      (flags : ℕ) (body rest : List ℕ) (m : Msg)
      → after_step act msg
          (λ d. feed act msg (body ++ rest) d)
          (run_steps act 2 (next_step act (at_content flags m) (length body)))
        ≡ deliver act msg
            (record m { body = body })
            (feed act msg rest (between flags (record m { body = body })))
  unfolding decoder_act
  content_lem flags [] rest m =
      rw (run_steps-ready act 1 1 (next_step act (at_content flags m) 0) _ refl refl)
  content_lem flags (x ∷ xs) rest m =
      let body = x ∷ xs in
      let d = next_step act (at_content flags m) (length body) in
      rw (
        run_steps-waits act 1 d (omega arith),
        feed_piece act msg body rest d (omega arith) refl,
        run_steps-ready act 2 1 (store act d body) _ (omega arith) refl,
      )

  size_fits :
      (size flags : ℕ) (s : Members)
      → too_large limit size ≡ false
      → size < 2 ^ 64
      → alloc size ≡ true
      → s.msg_flags ≡ flags
      → size_ready_at limit alloc size s ≡ go (at_content flags (sized size flags)) size
  size_fits size flags s small fits memory e =
      let same_size : size % 2 ^ 64 ≡ size = omega arith in
      rw (small, same_size, memory, e) (ground arith)

  abbrev at_size : DecoderStep → ℕ → Msg → Members
  at_size step flags m = record { step = step; msg_flags = flags; in_progress = m }

  -- From the size on: `sz` are the bytes of the size.
  size_lem :
      (step : DecoderStep) (flags : ℕ) (m0 : Msg) (sz body rest : List ℕ)
      → Fits limit alloc (Msg.init_content body)
      → 0 < length sz
      → decoder_act_at limit alloc step (at_size step flags m0) sz
        ≡ size_ready_at limit alloc (length body) (at_size step flags m0)
      → let m = record (sized (length body) flags) { body = body } in
        feed act msg (sz ++ (body ++ rest)) (next_step act (at_size step flags m0) (length sz))
        ≡ deliver act msg m (feed act msg rest (between flags m))
  unfolding decoder_act
  size_lem step flags m0 sz body rest (small, fits, memory) pos e =
      let s = at_size step flags m0 in
      let d = next_step act s (length sz) in
      let turn = e ∙ size_fits (length body) flags s small fits memory refl in
      rw
        (
          feed_piece act msg sz (body ++ rest) d pos refl,
          run_steps-go act 2 (length body) (store act d sz) _ (omega arith) turn,
        )
        (content_lem flags body rest (sized (length body) flags))

  received_eq :
      (m : Msg)
      → let flags = flags_of (has_more m) (ltb uchar_max (Msg.size m)) (is_command m) in
        ◌≡◌ {A = Msg}
          (record (sized (Msg.size m) (msg_flags_of flags)) { body = m.body })
          (received m)
  received_eq m = λ i. record {
    type = (received m).type;
    flags = flags_survive (has_more m) (ltb uchar_max (Msg.size m)) (is_command m) i;
    body = m.body;
  }

  abbrev size_step : Bool → DecoderStep
  size_step large =
      if large then DecoderStep.eight_byte_size_ready else DecoderStep.one_byte_size_ready

  abbrev size_length : Bool → ℕ
  size_length large = if large then 8 else 1

  size_length_pos : (large : Bool) → 0 < size_length large
  size_length_pos true = omega arith
  size_length_pos false = omega arith

  -- The byte of flags.
  flags_lem :
      (more large command : Bool) (last : Msg) (flags : ℕ) (xs : List ℕ)
      → let byte = flags_of more large command in
        feed act msg ((byte ∷ []) ++ xs) (between flags last)
        ≡ feed act msg xs
            (next_step act (at_size (size_step large) (msg_flags_of byte) last) (size_length large))
  unfolding decoder_act
  flags_lem more large command last flags xs =
      let byte = flags_of more large command in
      rw (
        feed_piece act msg (byte ∷ []) xs (between flags last) (omega arith) refl,
        run_steps-go act 2 (size_length large) (store act (between flags last) (byte ∷ []))
            (at_size (size_step large) (msg_flags_of byte) last) (omega arith)
            (turn more large command (large_of_flags more large command)),
        run_steps-waits act 1
            (next_step act (at_size (size_step large) (msg_flags_of byte) last) (size_length large))
            (size_length_pos large),
      )
    where
      turn :
          (more large command : Bool)
          → not (bit_and (flags_of more large command) large_flag == 0) ≡ large
          → decoder_act_at limit alloc DecoderStep.flags_ready
              (at_size DecoderStep.flags_ready flags last)
              (flags_of more large command ∷ [])
            ≡ go
                (at_size (size_step large) (msg_flags_of (flags_of more large command)) last)
                (size_length large)
      turn more true command e = rw e
      turn more false command e = rw e

  -- The bytes of the size.
  abbrev size_bytes : Bool → ℕ → List ℕ
  size_bytes large size = if large then put_uint64 size else (size % 256) ∷ []

  size_bytes_lem :
      (large : Bool) (size : ℕ) (s : Members)
      → ltb uchar_max size ≡ large
      → size < 2 ^ 64
      → (length (size_bytes large size) ≡ size_length large)
        × (decoder_act_at limit alloc (size_step large) s (size_bytes large size)
            ≡ size_ready_at limit alloc size s)
  unfolding decoder_act_at put_uint64
  size_bytes_lem true size s e h = (
    refl,
    ap (λ (n : ℕ). size_ready_at limit alloc n s)
        (ap get_uint64 (sym (append-nil (put_uint64 size))) ∙ get_uint64-put_uint64 size [] h),
  )
  size_bytes_lem false size s e h =
      let byte : size % 256 ≡ size = ground arith in
      (refl, ap (λ (n : ℕ). size_ready_at limit alloc n s) byte)

  -- What stands before the content.
  abbrev pub frame_header : Msg → List ℕ
  frame_header m =
      let large = ltb uchar_max (Msg.size m) in
      flags_of (has_more m) large (is_command m) ∷ size_bytes large (Msg.size m)

  -- A frame that announces more content than the limit allows is refused with EMSGSIZE as soon as its
  -- header is read, whatever follows, and no message is delivered.
  pub feed-too_large :
      (m last : Msg) (flags : ℕ) (rest : List ℕ)
      → too_large limit (Msg.size m) ≡ true
      → Msg.size m < 2 ^ 64
      → (d : Decoder Members) × (feed act msg (frame_header m ++ rest) (between flags last)
          ≡ some ([], failed Errno.emsgsize, d))
  unfolding decoder_act
  feed-too_large m last flags rest big fits =
      let large = ltb uchar_max (Msg.size m) in
      let byte = flags_of (has_more m) large (is_command m) in
      let s = at_size (size_step large) (msg_flags_of byte) last in
      let sz = size_bytes large (Msg.size m) in
      let (len, reads) = size_bytes_lem large (Msg.size m) s refl fits in
      let d = next_step act s (length sz) in
      let refused : size_ready_at limit alloc (Msg.size m) s ≡ fail s Errno.emsgsize = rw big in
      (
        store act d sz,
        flags_lem (has_more m) large (is_command m) last flags (sz ++ rest)
            ∙ ap (λ (n : ℕ). feed act msg (sz ++ rest) (next_step act s n)) (sym len)
            ∙ feed_piece act msg sz rest d (rw len (size_length_pos large)) refl
            ∙ ap (λ r. after_step act msg (λ d'. feed act msg rest d') r)
                (run_steps-fail act 2 (store act d sz) s Errno.emsgsize (omega arith)
                  (reads ∙ refused)),
      )

  -- A frame, then the message that it is of, and the decoder is between two messages again.
  pub feed-frame :
      (m last : Msg) (flags : ℕ) (rest : List ℕ)
      → Fits limit alloc m
      → (flags' : ℕ) × (feed act msg (frame m ++ rest) (between flags last)
          ≡ deliver act msg (received m) (feed act msg rest (between flags' (received m))))
  unfolding encoder_act
  feed-frame m last flags rest h =
      let large = ltb uchar_max (Msg.size m) in
      let byte = flags_of (has_more m) large (is_command m) in
      let flags' = msg_flags_of byte in
      let sz = size_bytes large (Msg.size m) in
      let (len, reads) =
        size_bytes_lem large (Msg.size m) (at_size (size_step large) flags' last) refl h.1 in
      let start = next_step act (at_size (size_step large) flags' last) in
      (
        flags',
        ap (λ xs. feed act msg (byte ∷ xs) (between flags last)) (append_assoc sz m.body rest)
            ∙ flags_lem (has_more m) large (is_command m) last flags (sz ++ (m.body ++ rest))
            ∙ ap (λ (n : ℕ). feed act msg (sz ++ (m.body ++ rest)) (start n)) (sym len)
            ∙ size_lem (size_step large) flags' last sz m.body rest h
                (rw len (size_length_pos large)) reads
            ∙ ap (λ m'. deliver act msg m' (feed act msg rest (between flags' m'))) (received_eq m),
      )
