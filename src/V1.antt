-- ===== src/V1.antt =====
-- zeromq-4.3.1/src/v1_encoder.cpp and v1_decoder.cpp: the framing of ZMTP 1.0, by the size in one byte
-- or, after an escape byte, in eight, a byte of flags that the size counts, and the content.
pub mod Frame
pub mod RoundTrip
pub mod Wire
pub mod Rounds
mod Tests
use zmq.Base.{
  ℕ, ◌+◌, ◌-◌, ◌%◌, ◌^◌, Bool, true, false, not, ◌==◌, ltb, leb, if◌then◌else◌, bit_and, bit_or,
  none, List, [], ◌∷◌, ◌++◌, length,
}
use zmq.Base.Int.{ℤ, pos, negsuc}
use zmq.Wire.{put_uint64, get_uint8, get_uint64}
use zmq.Msg
use zmq.Msg.{Msg, MsgType}
use zmq.Encoder.{Encoder, Scheduled}
use zmq.Decoder.{Decoder, Turn, go, ready, fail, Errno}

abbrev pub uchar_max : ℕ
uchar_max = 255

pub data EncoderStep : Type 0 where
  message_ready size_ready : EncoderStep

-- What `message_ready` puts before the content; `size` counts the byte of flags.
abbrev pub header_of : ℕ → ℕ → List ℕ
header_of size flags =
    if ltb size uchar_max
    then (size % 256) ∷ flags ∷ []
    else uchar_max ∷ (put_uint64 size ++ flags ∷ [])

-- `message_ready` and `size_ready` of the encoder.
unfoldable pub encoder_act : EncoderStep → Msg → Scheduled EncoderStep
encoder_act message_ready m = record {
  write = header_of ((Msg.size m + 1) % 2 ^ 64) (bit_and m.flags Msg.more);
  next = size_ready;
  new_msg_flag = false;
}
encoder_act size_ready m = record { write = m.body; next = message_ready; new_msg_flag = true }

abbrev pub encoder : Encoder EncoderStep
encoder = record { pending = []; next = message_ready; new_msg_flag = true; in_progress = none }

pub data DecoderStep : Type 0 where
  one_byte_size_ready eight_byte_size_ready flags_ready message_ready : DecoderStep

-- The next step, the message and the size for which it was made (`_in_progress.size ()`).
pub record Members : Type 0 where
  pub step : DecoderStep
  pub in_progress : Msg
  pub size : ℕ

-- `_max_msg_size >= 0 && size > _max_msg_size`.
abbrev pub too_large : ℤ → ℕ → Bool
too_large (pos limit) size = ltb limit size
too_large (negsuc _) size = false

-- `init_size ()`; the content follows.
abbrev pub sized : ℕ → Msg
sized size = record {
  type = if leb size Msg.max_vsm_size then MsgType.vsm else MsgType.lmsg;
  flags = 0;
  body = [];
}

-- `max_msg_size` is the option, and `alloc` says whether there is memory for a message of that size.
module _ (max_msg_size : ℤ) (alloc : ℕ → Bool) where
  -- The end of both size steps, for content of `size` bytes.
  abbrev pub init_size_at : ℕ → Members → Turn Members
  init_size_at size s =
      if not (alloc size)
      then fail (record s { in_progress = Msg.init; size = 0 }) Errno.enomem
      else go (record s { step = flags_ready; in_progress = sized size; size = size }) 1

  abbrev pub one_byte_size_ready_at : ℕ → Members → Turn Members
  one_byte_size_ready_at byte s =
      if byte == uchar_max
      then go (record s { step = eight_byte_size_ready }) 8
      else if byte == 0
      then fail s Errno.eproto
      else if too_large max_msg_size (byte - 1)
      then fail s Errno.emsgsize
      else init_size_at (byte - 1) s

  abbrev pub eight_byte_size_ready_at : ℕ → Members → Turn Members
  eight_byte_size_ready_at payload_length s =
      if payload_length == 0
      then fail s Errno.eproto
      else if too_large max_msg_size (payload_length - 1)
      then fail s Errno.emsgsize
      else if ltb (2 ^ 64 - 1) (payload_length - 1)
      then fail s Errno.emsgsize
      else init_size_at (payload_length - 1) s

  -- The four steps of the decoder, by the next one and the bytes that were read for it.
  unfoldable pub decoder_act_at : DecoderStep → Members → List ℕ → Turn Members
  unfolding get_uint8
  decoder_act_at one_byte_size_ready s got = one_byte_size_ready_at (get_uint8 got) s
  decoder_act_at eight_byte_size_ready s got = eight_byte_size_ready_at (get_uint64 got) s
  decoder_act_at flags_ready s got =
      go
        (record s {
          step = message_ready;
          in_progress = Msg.set_flags s.in_progress (bit_and (get_uint8 got) Msg.more);
        })
        s.size
  decoder_act_at message_ready s got =
      ready
        (record s { step = one_byte_size_ready; in_progress = record s.in_progress { body = got } })
        1

  unfoldable pub decoder_act : Members → List ℕ → Turn Members
  unfolding decoder_act_at
  decoder_act s got = decoder_act_at s.step s got

-- The constructor.
abbrev pub decoder : Decoder Members
decoder = record {
  next = record { step = one_byte_size_ready; in_progress = Msg.init; size = 0 };
  got = [];
  to_read = 1;
}
