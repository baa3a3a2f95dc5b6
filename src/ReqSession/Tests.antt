-- ===== src/ReqSession/Tests.antt =====
-- req.cpp, req_session_t, at concrete values.
use zmq.Base.{◌≡◌, ◌↔◌, refl, true, false, none, some, List, [], ◌∷◌}
use zmq.Msg.{Msg, MsgType, more, command}
use zmq.ReqSession.{State, Rc, push_msg, push_msgs}
use zmq.ReqSession.Replies.{FormReplies, push_msgs_iff}
use zmq.ReqSession.Retry.{push_msg_again}

abbrev id : Msg
id = record { type = MsgType.vsm; flags = more; body = 0 ∷ 0 ∷ 0 ∷ 7 ∷ [] }

abbrev delimiter : Msg
delimiter = record { type = MsgType.vsm; flags = more; body = [] }

abbrev last : Msg
last = record { type = MsgType.vsm; flags = 0; body = 104 ∷ 105 ∷ [] }

abbrev ping : Msg
ping = record { type = MsgType.vsm; flags = command; body = 4 ∷ [] }

abbrev messages : List Msg
messages = id ∷ ping ∷ delimiter ∷ id ∷ last ∷ delimiter ∷ last ∷ []

accepts : push_msgs messages State.bottom ≡ some State.bottom
unfolding push_msgs push_msg
accepts = refl

refuses : push_msgs (last ∷ []) State.bottom ≡ none
unfolding push_msgs push_msg
refuses = refl

push_msgs_iff_example : (push_msgs messages State.bottom ≡ some State.bottom) ↔ FormReplies messages
push_msgs_iff_example = push_msgs_iff messages

push_msg_again_example :
    (push_msg false id State.bottom ≡ (Rc.eagain, State.request_id))
    × (push_msg true id State.request_id ≡ (Rc.efault, State.request_id))
unfolding push_msg
push_msg_again_example = push_msg_again id State.bottom State.request_id refl refl
