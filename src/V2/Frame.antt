-- ===== src/V2/Frame.antt =====
-- v2_encoder.cpp and v2_decoder.cpp: the bytes of a message, and its flags.
use zmq.Base.{
  ℕ, ◌+◌, ◌^◌, ◌<◌, ◌≡◌, ◌⊎◌, inl, inr, refl, arith, Bool, true, false, not, ◌==◌, List, ◌++◌,
  length, if◌then◌else◌, bit_and, bit_or,
}
use zmq.Base.Int.{ℤ}
use zmq.Msg
use zmq.Msg.{Msg, has_more}
use zmq.Encoder.Laws.{IsProtocol}
use zmq.V2.{EncoderStep, encoder_act, flags_of, is_command, large_flag, too_large, msg_flags_of}

-- What the steps of the encoder write of a message.
abbrev pub ahead : EncoderStep → Msg → List ℕ
ahead EncoderStep.message_ready m = (encoder_act EncoderStep.message_ready m).write ++ m.body
ahead EncoderStep.size_ready m = m.body

pub encoder_act-IsProtocol : IsProtocol encoder_act ahead EncoderStep.message_ready
unfolding encoder_act
encoder_act-IsProtocol = record {
  ends = λ t m. ends t m;
  goes_on = λ t m. goes_on t m;
  comes_home = λ t m. comes_home t m;
}
  where
    comes_home :
        (t : EncoderStep) (m : Msg)
        → ((encoder_act t m).new_msg_flag ≡ false)
          ⊎ ((encoder_act t m).next ≡ EncoderStep.message_ready)
    comes_home EncoderStep.message_ready m = inl refl
    comes_home EncoderStep.size_ready m = inr refl

    ends :
        (t : EncoderStep) (m : Msg)
        → (encoder_act t m).new_msg_flag ≡ true
        → ahead t m ≡ (encoder_act t m).write
    ends EncoderStep.message_ready m h = absurd (ground arith)
    ends EncoderStep.size_ready m h = refl

    goes_on :
        (t : EncoderStep) (m : Msg)
        → (encoder_act t m).new_msg_flag ≡ false
        → (ahead t m ≡ (encoder_act t m).write ++ ahead (encoder_act t m).next m)
          × (0 < length (encoder_act t m).write)
    goes_on EncoderStep.message_ready m h = (refl, omega arith)
    goes_on EncoderStep.size_ready m h = absurd (ground arith)

-- The bytes of a message on the wire.
abbrev pub frame : Msg → List ℕ
frame m = ahead EncoderStep.message_ready m

-- `more` and `command` as flags of a message.
abbrev pub kept_flags : Bool → Bool → ℕ
kept_flags more command = (if more then 1 else 0) + (if command then 2 else 0)

-- What is decoded: the content, and of the flags `more` and `command`.
abbrev pub received : Msg → Msg
received m = record (Msg.init_content m.body) { flags = kept_flags (has_more m) (is_command m) }

pub flags_survive :
    (more large command : Bool)
    → bit_or 0 (msg_flags_of (flags_of more large command)) ≡ kept_flags more command
flags_survive true true true = refl
flags_survive true true false = refl
flags_survive true false true = refl
flags_survive true false false = refl
flags_survive false true true = refl
flags_survive false true false = refl
flags_survive false false true = refl
flags_survive false false false = refl

-- The flag of the size survives.
pub large_of_flags :
    (more large command : Bool)
    → not (bit_and (flags_of more large command) large_flag == 0) ≡ large
large_of_flags true true true = refl
large_of_flags true true false = refl
large_of_flags true false true = refl
large_of_flags true false false = refl
large_of_flags false true true = refl
large_of_flags false true false = refl
large_of_flags false false true = refl
large_of_flags false false false = refl

-- The message fits the limit, 64 bits and memory.
abbrev pub Fits : ℤ → (ℕ → Bool) → Msg → Type 0
Fits limit alloc m =
    (too_large limit (Msg.size m) ≡ false) × (Msg.size m < 2 ^ 64) × (alloc (Msg.size m) ≡ true)
