-- ===== src/Msg.antt =====
-- zeromq-4.3.1/src/msg.hpp and zeromq-4.3.1/src/msg.cpp: what the modelled sockets and pipes read of a message: its type, its
-- flags and its content. Metadata, groups, routing ids of single messages and the sharing of content
-- by reference counts are left out; `close` only frees memory, and is left out too.
use zmq.Base.{
  ℕ, Bool, true, false, not, List, [], bit_and, bit_or, ◌==◌, leb, if◌then◌else◌, length,
}

-- `type_t`.
pub data MsgType : Type 0 where
  vsm lmsg delimiter cmsg zclmsg join leave : MsgType

pub record Msg : Type 0 where
  pub type : MsgType
  pub flags : ℕ
  pub body : List ℕ

-- The message flags of `msg_t`.
abbrev pub more : ℕ
more = 1

abbrev pub command : ℕ
command = 2

abbrev pub credential : ℕ
credential = 32

abbrev pub routing_id : ℕ
routing_id = 64

abbrev pub max_vsm_size : ℕ
max_vsm_size = 33

-- `init ()`: an empty message.
abbrev pub init : Msg
init = record { type = MsgType.vsm; flags = 0; body = [] }

-- `init_size ()` and the copy of the content into it, where memory suffices.
abbrev pub init_content : List ℕ → Msg
init_content body = record {
  type = if leb (length body) max_vsm_size then MsgType.vsm else MsgType.lmsg;
  flags = 0;
  body = body;
}

abbrev pub init_delimiter : Msg
init_delimiter = record { type = MsgType.delimiter; flags = 0; body = [] }

abbrev pub set_flags : Msg → ℕ → Msg
set_flags m flags = record m { flags = bit_or m.flags flags }

-- `(flags () & more) != 0`.
abbrev pub has_more : Msg → Bool
has_more m = not (bit_and m.flags more == 0)

abbrev pub is_routing_id : Msg → Bool
is_routing_id m = bit_and m.flags routing_id == routing_id

abbrev pub is_credential : Msg → Bool
is_credential m = bit_and m.flags credential == credential

abbrev pub is_delimiter : Msg → Bool
is_delimiter m = elim m.type [ MsgType.delimiter ↦ true | _ ↦ false ]

abbrev pub size : Msg → ℕ
size m = length m.body
