-- ===== src/ReqSession/Retry.antt =====
-- req.cpp, req_session_t: a message that found no room in the pipe is pushed again later.
use mathlib.Core.Path.{subst}
use zmq.Base.{◌≡◌, refl, sym, ap, ◌∙◌, arith, Bool, true, false, ◌==◌, inl, inr, if◌then◌else◌}
use zmq.Msg.{Msg, more, size}
use zmq.ReqSession.{State, Rc, is_command, push_msg}
use zmq.ReqSession.Replies.{
  Moves, takes_id, takes_empty, takes_delimiter, takes_part, takes_last, outcome,
}

-- The frame with the request id, and the last frame of a reply.
abbrev pub begins_or_ends : Msg → State → Bool
begins_or_ends m State.bottom = size m == 4
begins_or_ends m State.request_id = false
begins_or_ends m State.body = m.flags == 0

Again : Msg → State → State → Type 0
Again m s s' =
    (push_msg false m s ≡ (Rc.eagain, s'))
    × (push_msg true m s' ≡ (if begins_or_ends m s then Rc.efault else Rc.ok, s'))

Moves-Again : (m : Msg) (s s' : State) → is_command m ≡ false → Moves m s s' → Again m s s'
unfolding push_msg Again
Moves-Again m _ _ c (takes_id f i) =
    let t : (m.flags == more) ≡ true = ground (arith, f) in
    let four : (size m == 4) ≡ true = ground (arith, i) in
    let some_bytes : (size m == 0) ≡ false = ground (arith, i) in
    (rw (c, t, four) refl, rw (c, t, some_bytes, four) refl)
Moves-Again m _ _ c (takes_empty f z) =
    let t : (m.flags == more) ≡ true = ground (arith, f) in
    let zero : (size m == 0) ≡ true = ground (arith, z) in
    let not_four : (size m == 4) ≡ false = ground (arith, z) in
    (rw (c, t, not_four, zero) refl, rw (c, t, not_four) refl)
Moves-Again m _ _ c (takes_delimiter f z) =
    let t : (m.flags == more) ≡ true = ground (arith, f) in
    let zero : (size m == 0) ≡ true = ground (arith, z) in (rw (c, t, zero) refl, rw (c, t) refl)
Moves-Again m _ _ c (takes_part f) =
    let t : (m.flags == more) ≡ true = ground (arith, f) in
    let there : (m.flags == 0) ≡ false = ground (arith, f) in
    (rw (c, t) refl, rw (c, t, there) refl)
Moves-Again m _ _ c (takes_last f) =
    let t : (m.flags == more) ≡ false = ground (arith, f) in
    let zero : (m.flags == 0) ≡ true = ground (arith, f) in
    (rw (c, t, zero) refl, rw (c, t, zero) refl)

is_ok : Rc → Bool
is_ok Rc.ok = true
is_ok _ = false

-- When there is no room for a message other than a command that would be accepted, the session changes its state all
-- the same; pushed again, the message is accepted in that state, unless it is the frame with the request id
-- or the last frame of a reply: these are then refused with EFAULT.
pub push_msg_again :
    (m : Msg) (s s' : State)
    → is_command m ≡ false
    → push_msg true m s ≡ (Rc.ok, s')
    → (push_msg false m s ≡ (Rc.eagain, s'))
      × (push_msg true m s' ≡ (if begins_or_ends m s then Rc.efault else Rc.ok, s'))
unfolding Again is_ok
push_msg_again m s s' c e = elim (outcome m s c) [
  | inl (s'', e', mv) ↦ subst (Again m s) (ap (λ r. r.1) (sym e' ∙ e)) (Moves-Again m s s'' c mv)
  | inr e' ↦ absurd (ground (arith, ap (λ r. is_ok r.0) (sym e' ∙ e)))
]
