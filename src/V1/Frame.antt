-- ===== src/V1/Frame.antt =====
-- v1_encoder.cpp and v1_decoder.cpp: the bytes of a message, and its flags.
use zmq.Base.{
  ℕ, ◌+◌, ◌^◌, ◌%◌, ◌<◌, ◌≡◌, ◌⊎◌, inl, inr, refl, arith, Bool, true, false, ltb, List, ◌++◌,
  length, Bool-cases, ◌∙◌, bit_and, bit_or,
}
use zmq.Base.Bits.{bit_and-one, zero-bit_or}
use zmq.Base.Int.{ℤ}
use zmq.Msg
use zmq.Msg.{Msg}
use zmq.Encoder.Laws.{IsProtocol}
use zmq.V1.{EncoderStep, encoder_act, header_of, uchar_max, too_large}

-- What the steps of the encoder write of a message.
abbrev pub ahead : EncoderStep → Msg → List ℕ
ahead EncoderStep.message_ready m = (encoder_act EncoderStep.message_ready m).write ++ m.body
ahead EncoderStep.size_ready m = m.body

length-header_of : (size flags : ℕ) → 0 < length (header_of size flags)
length-header_of size flags = elim (Bool-cases (ltb size uchar_max)) [
  | inl e ↦ rw e (omega arith)
  | inr e ↦ rw e (omega arith)
]

pub encoder_act-IsProtocol : IsProtocol encoder_act ahead EncoderStep.message_ready
unfolding encoder_act
encoder_act-IsProtocol = record {
  ends = λ t m. ends t m;
  goes_on = λ t m. goes_on t m;
  comes_home = λ t m. comes_home t m;
}
  where
    comes_home :
        (t : EncoderStep) (m : Msg)
        → ((encoder_act t m).new_msg_flag ≡ false)
          ⊎ ((encoder_act t m).next ≡ EncoderStep.message_ready)
    comes_home EncoderStep.message_ready m = inl refl
    comes_home EncoderStep.size_ready m = inr refl

    ends :
        (t : EncoderStep) (m : Msg)
        → (encoder_act t m).new_msg_flag ≡ true
        → ahead t m ≡ (encoder_act t m).write
    ends EncoderStep.message_ready m h = absurd (ground arith)
    ends EncoderStep.size_ready m h = refl

    goes_on :
        (t : EncoderStep) (m : Msg)
        → (encoder_act t m).new_msg_flag ≡ false
        → (ahead t m ≡ (encoder_act t m).write ++ ahead (encoder_act t m).next m)
          × (0 < length (encoder_act t m).write)
    goes_on EncoderStep.message_ready m h =
        (refl, length-header_of ((Msg.size m + 1) % 2 ^ 64) (bit_and m.flags Msg.more))
    goes_on EncoderStep.size_ready m h = absurd (ground arith)

-- The bytes of a message on the wire.
abbrev pub frame : Msg → List ℕ
frame m = ahead EncoderStep.message_ready m

-- What is decoded: the content, and of the flags `more`.
abbrev pub received : Msg → Msg
received m = record (Msg.init_content m.body) { flags = bit_and m.flags Msg.more }

pub more_survives : (flags : ℕ) → bit_or 0 (bit_and (bit_and flags 1) 1) ≡ bit_and flags 1
more_survives flags =
    zero-bit_or (bit_and (bit_and flags 1) 1)
    ∙ omega (arith, bit_and-one (bit_and flags 1), bit_and-one flags)

-- The message fits the limit, 64 bits with its byte of flags, and memory.
abbrev pub Fits : ℤ → (ℕ → Bool) → Msg → Type 0
Fits limit alloc m =
    (too_large limit (Msg.size m) ≡ false) × (Msg.size m + 1 < 2 ^ 64) × (alloc (Msg.size m) ≡ true)
