-- ===== src/V1/Wire.antt =====
-- v1_encoder.cpp and v1_decoder.cpp on a connection: messages are encoded by calls with buffers of
-- any size, and the bytes arrive in pieces of any size.
use mathlib.Core.Option
use mathlib.Core.List.{flatten, flat_map, map}
use zmq.Base.{
  ℕ, ◌<◌, ◌≡◌, refl, arith, Bool, true, false, Option, none, some, List, [], ◌∷◌, length, ap, ◌∙◌,
  All, inl,
}
use zmq.Base.Int.{ℤ}
use zmq.Msg
use zmq.Msg.{Msg}
use zmq.Encoder.{Encoder, load_msg, encode_calls}
use zmq.Encoder.Laws.{HaveRoom, encode_calls-todo}
use zmq.Decoder.{Decoder, ready, Rc, incomplete, deliver}
use zmq.Decoder.Stream.{feed}
use zmq.Decoder.Pieces.{receive_pieces, receive_pieces-eq-feed}
use zmq.V1.{
  EncoderStep, encoder_act, encoder, Members, DecoderStep, decoder_act, decoder_act_at, decoder,
}
use zmq.V1.Frame.{ahead, encoder_act-IsProtocol, frame, received, Fits}
use zmq.V1.RoundTrip.{between, feed-frame}

-- The encoder at rest, and `load_msg`.
loaded : Msg → Encoder EncoderStep
loaded m = record {
  pending = (encoder_act EncoderStep.message_ready m).write;
  next = EncoderStep.size_ready;
  new_msg_flag = false;
  in_progress = some m;
}

load_msg_lem : (m : Msg) → load_msg encoder_act encoder m ≡ some (loaded m)
unfolding load_msg loaded encoder_act
load_msg_lem m = refl

same_encoder :
    (e : Encoder EncoderStep)
    → e.in_progress ≡ none
    → e.pending ≡ []
    → e.new_msg_flag ≡ true
    → e.next ≡ EncoderStep.message_ready
    → e ≡ encoder
same_encoder e i p f n =
    λ k. record { pending = p k; next = n k; new_msg_flag = f k; in_progress = i k }

-- A message that is loaded into an encoder at rest is written as its ZMTP 1.0 frame by calls of `encode` with
-- buffers of any positive sizes, or without a buffer, if there are more of them than bytes; the
-- encoder is then at rest again.
pub encode_calls-frame_v1 :
    (calls : List (Bool × ℕ)) (m : Msg)
    → HaveRoom calls
    → length (frame m) < length calls
    → Option.bind (load_msg encoder_act encoder m) (λ e. encode_calls encoder_act calls e)
      ≡ some (frame m, encoder)
unfolding Option.bind loaded encoder_act
encode_calls-frame_v1 calls m h lt =
    let (e, done, i, p, f, n) =
      encode_calls-todo encoder_act ahead EncoderStep.message_ready encoder_act-IsProtocol calls m
        (loaded m) refl (inl refl) h lt in
    rw (load_msg_lem m) (done ∙ ap (λ e'. some (frame m, e')) (same_encoder e i p f n))

module _ (limit : ℤ) (alloc : ℕ → Bool) where
  -- The frames of messages that fit, from a decoder between two messages on.
  feed-frames :
      (ms : List Msg) (last : Msg) (size : ℕ)
      → All (Fits limit alloc) ms
      → (last' : Msg) × (size' : ℕ) × (feed
            (decoder_act limit alloc)
            Members.in_progress
            (flat_map frame ms)
            (between limit alloc last size)
          ≡ some (map received ms, incomplete, between limit alloc last' size'))
  unfolding flat_map feed
  feed-frames [] last size h = (last, size, refl)
  feed-frames (m ∷ ms) last size (fits, h) =
      let first = feed-frame limit alloc m last size (flat_map frame ms) fits in
      let (last', size', later) = feed-frames ms (received m) (Msg.size m) h in
      (
        last',
        size',
        first ∙ ap (deliver (decoder_act limit alloc) Members.in_progress (received m)) later,
      )

  pub restarts :
      (a b : Members) (xs : List ℕ) (n : ℕ) → decoder_act limit alloc a xs ≡ ready b n → 0 < n
  unfolding decoder_act
  restarts a b xs n e = from a.step e
    where
      from : (step : DecoderStep) → decoder_act_at limit alloc step a xs ≡ ready b n → 0 < n
      from DecoderStep.one_byte_size_ready f = absurd (ground arith)
      from DecoderStep.eight_byte_size_ready f = absurd (ground arith)
      from DecoderStep.flags_ready f = absurd (ground arith)
      from DecoderStep.message_ready f = ground arith

  -- All that arrives at the decoder of a connection, in the pieces `ps`.
  abbrev pub received_from : List (List ℕ) → Option (List Msg × Rc × Decoder Members)
  received_from ps = receive_pieces (decoder_act limit alloc) Members.in_progress ps decoder

  -- Messages that fit the limit, memory and, with their byte of flags, 64 bits, sent as their ZMTP 1.0
  -- frames one after another, are received in order, with their content and their `more` flag, into
  -- whatever pieces the bytes are cut on the way; the decoder is then between two messages, without an
  -- error.
  pub receive_pieces-frames_v1 :
      (ms : List Msg) (ps : List (List ℕ))
      → All (Fits limit alloc) ms
      → flatten ps ≡ flat_map frame ms
      → (last : Msg) × (size : ℕ) × (received_from ps
          ≡ some (map received ms, incomplete, between limit alloc last size))
  receive_pieces-frames_v1 ms ps h e =
      let (last, size, done) = feed-frames ms Msg.init 0 h in
      (
        last,
        size,
        receive_pieces-eq-feed (decoder_act limit alloc) Members.in_progress restarts ps decoder
              (omega arith)
            ∙ ap (λ xs. feed (decoder_act limit alloc) Members.in_progress xs decoder) e
            ∙ done,
      )
