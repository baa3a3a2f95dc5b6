-- ===== src/ReqSession.antt =====
-- zeromq-4.3.1/src/req.cpp, the class req_session_t: the session of a connection of a REQ socket, which lets a peer send
-- replies only. `room` says whether `session_base_t::push_msg` finds room in the pipe to the socket.
pub mod Replies
pub mod Retry
mod Tests
use zmq.Base.{
  ℕ, Bool, true, false, ◌==◌, ◌&&◌, bit_and, not, Option, none, some, List, [], ◌∷◌, if◌then◌else◌,
}
use zmq.Msg.{Msg, more, command, size}

-- `state_t`.
pub data State : Type 0 where
  bottom request_id body : State

-- 0, and -1 with EAGAIN or EFAULT.
pub data Rc : Type 0 where
  ok eagain efault : Rc

-- `session_base_t::push_msg`.
abbrev pub push_base : Bool → Rc
push_base room = if room then Rc.ok else Rc.eagain

abbrev pub is_command : Msg → Bool
is_command m = not (bit_and m.flags command == 0)

unfoldable pub push_msg : Bool → Msg → State → Rc × State
push_msg room m s = if is_command m then (Rc.ok, s) else elim s [
  | State.bottom ↦
      if m.flags == more
      then (if size m == 4
          then (push_base room, State.request_id)
          else if size m == 0
          then (push_base room, State.body)
          else (Rc.efault, State.bottom))
      else (Rc.efault, State.bottom)
  | State.request_id ↦
      if m.flags == more && size m == 0
      then (push_base room, State.body)
      else (Rc.efault, State.request_id)
  | State.body ↦
      if m.flags == more
      then (push_base room, State.body)
      else if m.flags == 0
      then (push_base room, State.bottom)
      else (Rc.efault, State.body)
]

pub reset : State → State
reset s = State.bottom

-- A peer's messages one after the other, while the pipe has room for each of them, so that `push_msg` never
-- returns EAGAIN (Retry is about that): the state behind the last, or `none` once
-- one is refused, upon which the engine closes the connection.
abbrev pub accepted : (State → Option State) → Rc × State → Option State
accepted rest (Rc.ok, s) = rest s
accepted rest (Rc.eagain, s) = none
accepted rest (Rc.efault, s) = none

unfoldable pub push_msgs : List Msg → State → Option State
push_msgs [] s = some s
push_msgs (m ∷ ms) s = accepted (λ s'. push_msgs ms s') (push_msg true m s)
