-- ===== src/V2.antt =====
-- zeromq-4.3.1/src/v2_protocol.hpp, v2_encoder.cpp and v2_decoder.cpp: the framing of ZMTP 2.0, by a
-- byte of flags, the size in one byte or eight, and the content.
pub mod Frame
pub mod RoundTrip
pub mod Wire
pub mod Rounds
mod Tests
use zmq.Base.{
  ℕ, ◌%◌, ◌^◌, Bool, true, false, not, ◌&&◌, ◌==◌, ltb, leb, if◌then◌else◌, bit_and, bit_or, none,
  List, [], ◌∷◌, length,
}
use zmq.Base.Int.{ℤ, pos, negsuc}
use zmq.Wire.{put_uint64, get_uint8, get_uint64}
use zmq.Msg
use zmq.Msg.{Msg, MsgType, has_more}
use zmq.Encoder.{Encoder, Scheduled}
use zmq.Decoder.{Decoder, Turn, go, ready, fail, Errno}

-- The flags of the protocol.
abbrev pub more_flag : ℕ
more_flag = 1

abbrev pub large_flag : ℕ
large_flag = 2

abbrev pub command_flag : ℕ
command_flag = 4

abbrev pub uchar_max : ℕ
uchar_max = 255

pub data EncoderStep : Type 0 where
  message_ready size_ready : EncoderStep

-- `flags () & msg_t::command`.
abbrev pub is_command : Msg → Bool
is_command m = not (bit_and m.flags Msg.command == 0)

-- `protocol_flags`, from the three tests.
abbrev pub flags_of : Bool → Bool → Bool → ℕ
flags_of more large command =
    let f0 : ℕ = 0 in
    let f1 = if more then bit_or f0 more_flag else f0 in
    let f2 = if large then bit_or f1 large_flag else f1 in
    if command then bit_or f2 command_flag else f2

-- `message_ready` and `size_ready` of the encoder.
unfoldable pub encoder_act : EncoderStep → Msg → Scheduled EncoderStep
encoder_act message_ready m =
    let size = Msg.size m in
    let flags = flags_of (has_more m) (ltb uchar_max size) (is_command m) in
    record {
      write = flags ∷ (if ltb uchar_max size then put_uint64 size else (size % 256) ∷ []);
      next = size_ready;
      new_msg_flag = false;
    }
encoder_act size_ready m = record { write = m.body; next = message_ready; new_msg_flag = true }

abbrev pub encoder : Encoder EncoderStep
encoder = record { pending = []; next = message_ready; new_msg_flag = true; in_progress = none }

pub data DecoderStep : Type 0 where
  flags_ready one_byte_size_ready eight_byte_size_ready message_ready : DecoderStep

-- The next step and the members of the decoder.
pub record Members : Type 0 where
  pub step : DecoderStep
  pub msg_flags : ℕ
  pub in_progress : Msg

-- `msg_size_ > static_cast<uint64_t> (_max_msg_size)`, for a limit that is not negative.
abbrev pub too_large : ℤ → ℕ → Bool
too_large (pos limit) size = ltb limit size
too_large (negsuc _) size = false

-- `init_size ()` and `set_flags ()`; the content follows.
abbrev pub sized : ℕ → ℕ → Msg
sized size flags = record {
  type = if leb size Msg.max_vsm_size then MsgType.vsm else MsgType.lmsg;
  flags = bit_or 0 flags;
  body = [];
}

-- The flags of the message, from the byte of flags.
abbrev pub msg_flags_of : ℕ → ℕ
msg_flags_of flags =
    let f0 : ℕ = 0 in
    let f1 = if not (bit_and flags more_flag == 0) then bit_or f0 Msg.more else f0 in
    if not (bit_and flags command_flag == 0) then bit_or f1 Msg.command else f1

-- `max_msg_size` is the option, and `alloc` says whether there is memory for a message of that size.
-- Whether the content lies in the buffer of the decoder (zero copy) makes no difference here.
module _ (max_msg_size : ℤ) (alloc : ℕ → Bool) where
  abbrev pub size_ready_at : ℕ → Members → Turn Members
  size_ready_at msg_size s =
      if too_large max_msg_size msg_size
      then fail s Errno.emsgsize
      else if not (msg_size == msg_size % 2 ^ 64)
      then fail s Errno.emsgsize
      else if not (alloc msg_size)
      then fail (record s { in_progress = Msg.init }) Errno.enomem
      else go (record s { step = message_ready; in_progress = sized msg_size s.msg_flags }) msg_size

  -- The four steps of the decoder, by the next one and the bytes that were read for it.
  unfoldable pub decoder_act_at : DecoderStep → Members → List ℕ → Turn Members
  unfolding get_uint8
  decoder_act_at flags_ready s got =
      let flags = get_uint8 got in
      let s' : Members = record s { msg_flags = msg_flags_of flags } in
      if not (bit_and flags large_flag == 0)
      then go (record s' { step = eight_byte_size_ready }) 8
      else go (record s' { step = one_byte_size_ready }) 1
  decoder_act_at one_byte_size_ready s got = size_ready_at (get_uint8 got) s
  decoder_act_at eight_byte_size_ready s got = size_ready_at (get_uint64 got) s
  decoder_act_at message_ready s got =
      ready (record s { step = flags_ready; in_progress = record s.in_progress { body = got } }) 1

  unfoldable pub decoder_act : Members → List ℕ → Turn Members
  unfolding decoder_act_at
  decoder_act s got = decoder_act_at s.step s got

-- The constructor.
abbrev pub decoder : Decoder Members
decoder = record {
  next = record { step = flags_ready; msg_flags = 0; in_progress = Msg.init };
  got = [];
  to_read = 1;
}
