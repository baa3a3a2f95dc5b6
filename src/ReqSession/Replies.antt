-- ===== src/ReqSession/Replies.antt =====
-- req.cpp, req_session_t: the sequences of messages that a session accepts.
use zmq.Base.{
  ℕ, ◌≡◌, ◌↔◌, ◌⊎◌, refl, sym, ap, ◌∙◌, arith, Bool, true, false, ◌==◌, Option, none, some, List,
  [], ◌∷◌, inl, inr, if◌then◌else◌, Bool-cases, length,
}
use zmq.Msg.{Msg, MsgType, more, size}
use zmq.ReqSession.{State, Rc, is_command, push_msg, push_msgs, accepted}

-- A frame without its flags.
pub record Content : Type 0 where
  pub type : MsgType
  pub body : List ℕ

abbrev pub frame : ℕ → Content → Msg
frame flags x = record { type = x.type; flags = flags; body = x.body }

-- A reply: the request id, if the peer repeats it, the type of the empty frame, and the parts of the body.
pub record Reply : Type 0 where
  pub id : Option Content
  pub delimiter : MsgType
  pub parts : List Content
  pub last : Content

abbrev pub body_frames : List Content → Content → List Msg → List Msg
body_frames [] last rest = frame 0 last ∷ rest
body_frames (x ∷ xs) last rest = frame more x ∷ body_frames xs last rest

abbrev pub id_frames : Option Content → List Msg → List Msg
id_frames none rest = rest
id_frames (some x) rest = frame more x ∷ rest

-- The frames of replies: every frame but the last of a reply has the flag `more` and no other.
abbrev pub frames : List Reply → List Msg
frames [] = []
frames (r ∷ rs) =
    id_frames r.id (
      frame more (record { type = r.delimiter; body = [] })
      ∷ body_frames r.parts r.last (frames rs))

-- The request ids have four bytes.
abbrev pub IsId : Option Content → Type 0
IsId none = Unit
IsId (some x) = length x.body ≡ 4

abbrev pub AreReplies : List Reply → Type 0
AreReplies [] = Unit
AreReplies (r ∷ rs) = IsId r.id × AreReplies rs

abbrev pub without_commands : List Msg → List Msg
without_commands [] = []
without_commands (m ∷ ms) =
    let others = without_commands ms in if is_command m then others else m ∷ others

-- The messages are those of replies, with commands anywhere.
abbrev pub FormReplies : List Msg → Type 0
FormReplies ms = (rs : List Reply) × AreReplies rs × (without_commands ms ≡ frames rs)

body-accepted :
    (xs : List Content) (last : Content) (ms : List Msg)
    → push_msgs (body_frames xs last ms) State.body ≡ push_msgs ms State.bottom
unfolding push_msgs push_msg
body-accepted [] last ms = refl
body-accepted (x ∷ xs) last ms = body-accepted xs last ms

reply-accepted :
    (id : Option Content) (d : MsgType) (xs : List Content) (last : Content) (ms : List Msg)
    → IsId id
    → push_msgs
        (id_frames id (frame more (record { type = d; body = [] }) ∷ body_frames xs last ms))
        State.bottom
      ≡ push_msgs ms State.bottom
unfolding push_msgs push_msg
reply-accepted none d xs last ms a = body-accepted xs last ms
reply-accepted (some x) d xs last ms a =
    let four : (length x.body == 4) ≡ true = ground (arith, a) in rw four (body-accepted xs last ms)

frames-accepted :
    (rs : List Reply) → AreReplies rs → push_msgs (frames rs) State.bottom ≡ some State.bottom
unfolding push_msgs
frames-accepted [] a = refl
frames-accepted (r ∷ rs) (i, a) =
    reply-accepted r.id r.delimiter r.parts r.last (frames rs) i ∙ frames-accepted rs a

-- Commands leave the state as it is.
accepted_ext :
    (f g : State → Option State) (r : Rc × State)
    → ((s : State) → f s ≡ g s)
    → accepted f r ≡ accepted g r
accepted_ext f g (Rc.ok, s) h = h s
accepted_ext f g (Rc.eagain, s) h = refl
accepted_ext f g (Rc.efault, s) h = refl

push_msg-command : (m : Msg) (s : State) → is_command m ≡ true → push_msg true m s ≡ (Rc.ok, s)
unfolding push_msg
push_msg-command m s e = rw e refl

push_msgs-without_commands :
    (ms : List Msg) (s : State) → push_msgs ms s ≡ push_msgs (without_commands ms) s
unfolding push_msgs
push_msgs-without_commands [] s = refl
push_msgs-without_commands (m ∷ ms) s = elim (Bool-cases (is_command m)) [
  | inl e ↦ rw e (
      ap (accepted (λ s'. push_msgs ms s')) (push_msg-command m s e)
      ∙ push_msgs-without_commands ms s)
  | inr e ↦ rw e (
      accepted_ext (λ s'. push_msgs ms s') (λ s'. push_msgs (without_commands ms) s')
        (push_msg true m s) (λ s'. push_msgs-without_commands ms s'))
]

-- What the messages form behind those that led to a state.
abbrev Formed : State → List Msg → Type 0
Formed State.bottom ms = (rs : List Reply) × AreReplies rs × (ms ≡ frames rs)
Formed State.request_id ms =
    (d : MsgType) × (xs : List Content) × (last : Content) × (rs : List Reply) × AreReplies rs
    × (ms ≡ frame more (record { type = d; body = [] }) ∷ body_frames xs last (frames rs))
Formed State.body ms =
    (xs : List Content) × (last : Content) × (rs : List Reply) × AreReplies rs
    × (ms ≡ body_frames xs last (frames rs))

content : Msg → Content
content m = record { type = m.type; body = m.body }

frame-content : (m : Msg) (flags : ℕ) → m.flags ≡ flags → m ≡ frame flags (content m)
unfolding content
frame-content m flags e = ap (λ (k : ℕ). frame k (content m)) e

no_bytes :
    (m : Msg) → size m ≡ 0 → m.flags ≡ more → m ≡ frame more (record { type = m.type; body = [] })
no_bytes m z e = go m.body z ∙ ap (λ (k : ℕ). frame k (record { type = m.type; body = [] })) e
  where
    go :
        (xs : List ℕ)
        → length xs ≡ 0
        → frame m.flags (record { type = m.type; body = xs })
          ≡ frame m.flags (record { type = m.type; body = [] })
    go [] h = refl
    go (x ∷ xs) h = absurd (omega (arith, h))

-- The messages other than commands that are accepted.
pub data Moves (m : Msg) : State → State → Type 0 where
  takes_id : m.flags ≡ more → size m ≡ 4 → Moves m State.bottom State.request_id
  takes_empty : m.flags ≡ more → size m ≡ 0 → Moves m State.bottom State.body
  takes_delimiter : m.flags ≡ more → size m ≡ 0 → Moves m State.request_id State.body
  takes_part : m.flags ≡ more → Moves m State.body State.body
  takes_last : m.flags ≡ 0 → Moves m State.body State.bottom

abbrev pub Outcome : Msg → State → Type 0
Outcome m s =
    ((s' : State) × (push_msg true m s ≡ (Rc.ok, s')) × Moves m s s')
    ⊎ (push_msg true m s ≡ (Rc.efault, s))

pub outcome : (m : Msg) (s : State) → is_command m ≡ false → Outcome m s
unfolding push_msg
outcome m State.bottom c = elim (Bool-cases (m.flags == more)) [
  | inl f ↦ elim (Bool-cases (size m == 4)) [
    | inl i ↦ inl (State.request_id, rw (c, f, i) refl, takes_id (ground arith) (ground arith))
    | inr i ↦ elim (Bool-cases (size m == 0)) [
      | inl z ↦ inl (State.body, rw (c, f, i, z) refl, takes_empty (ground arith) (ground arith))
      | inr z ↦ inr (rw (c, f, i, z) refl)
    ]
  ]
  | inr f ↦ inr (rw (c, f) refl)
]
outcome m State.request_id c = elim (Bool-cases (m.flags == more)) [
  | inl f ↦ elim (Bool-cases (size m == 0)) [
    | inl z ↦ inl (State.body, rw (c, f, z) refl, takes_delimiter (ground arith) (ground arith))
    | inr z ↦ inr (rw (c, f, z) refl)
  ]
  | inr f ↦ inr (rw (c, f) refl)
]
outcome m State.body c = elim (Bool-cases (m.flags == more)) [
  | inl f ↦ inl (State.body, rw (c, f) refl, takes_part (ground arith))
  | inr f ↦ elim (Bool-cases (m.flags == 0)) [
    | inl z ↦ inl (State.bottom, rw (c, f, z) refl, takes_last (ground arith))
    | inr z ↦ inr (rw (c, f, z) refl)
  ]
]

-- One message more in front.
Formed-Moves :
    (m : Msg) (ms : List Msg) (s s' : State) → Moves m s s' → Formed s' ms → Formed s (m ∷ ms)
unfolding content
Formed-Moves m ms _ _ (takes_id f i) (d, xs, last, rs, a, e) = (
  record { id = some (content m); delimiter = d; parts = xs; last = last } ∷ rs,
  (i, a),
  ap (λ k. k ∷ ms) (frame-content m more f) ∙ ap (λ k. frame more (content m) ∷ k) e,
)
Formed-Moves m ms _ _ (takes_empty f z) (xs, last, rs, a, e) = (
  record { id = none; delimiter = m.type; parts = xs; last = last } ∷ rs,
  (tt, a),
  ap (λ k. k ∷ ms) (no_bytes m z f)
      ∙ ap (λ k. frame more (record { type = m.type; body = [] }) ∷ k) e,
)
Formed-Moves m ms _ _ (takes_delimiter f z) (xs, last, rs, a, e) = (
  m.type,
  xs,
  last,
  rs,
  a,
  ap (λ k. k ∷ ms) (no_bytes m z f)
      ∙ ap (λ k. frame more (record { type = m.type; body = [] }) ∷ k) e,
)
Formed-Moves m ms _ _ (takes_part f) (xs, last, rs, a, e) = (
  content m ∷ xs,
  last,
  rs,
  a,
  ap (λ k. k ∷ ms) (frame-content m more f) ∙ ap (λ k. frame more (content m) ∷ k) e,
)
Formed-Moves m ms _ _ (takes_last f) (rs, a, e) = (
  [],
  content m,
  rs,
  a,
  ap (λ k. k ∷ ms) (frame-content m 0 f) ∙ ap (λ k. frame 0 (content m) ∷ k) e,
)

is_bottom : Option State → Bool
is_bottom (some State.bottom) = true
is_bottom _ = false

push_msgs-Formed :
    (ms : List Msg) (s : State)
    → push_msgs ms s ≡ some State.bottom
    → Formed s (without_commands ms)
unfolding push_msgs is_bottom
push_msgs-Formed [] State.bottom h = ([], tt, refl)
push_msgs-Formed [] State.request_id h = absurd (ground (arith, ap is_bottom h))
push_msgs-Formed [] State.body h = absurd (ground (arith, ap is_bottom h))
push_msgs-Formed (m ∷ ms) s h = elim (Bool-cases (is_command m)) [
  | inl c ↦
      let step = ap (accepted (λ s'. push_msgs ms s')) (push_msg-command m s c) in
      rw c (push_msgs-Formed ms s (sym step ∙ h))
  | inr c ↦ elim (outcome m s c) [
    | inl (s', e, mv) ↦
        let step = ap (accepted (λ s'. push_msgs ms s')) e in
        rw c (Formed-Moves m (without_commands ms) s s' mv (push_msgs-Formed ms s' (sym step ∙ h)))
    | inr e ↦
        let step = ap (accepted (λ s'. push_msgs ms s')) e in
        absurd (ground (arith, ap is_bottom (sym step ∙ h)))
  ]
]

-- With room in the pipe for every message, the session accepts the messages of a peer, and is where a reply
-- begins behind them, exactly if they are the frames of replies with commands anywhere between them: a reply is a frame of four bytes, which may be
-- missing, an empty frame, and the parts of the body, with the flag `more` on each frame but the last.
pub push_msgs_iff :
    (ms : List Msg) → (push_msgs ms State.bottom ≡ some State.bottom) ↔ FormReplies ms
push_msgs_iff ms = (
  push_msgs-Formed ms State.bottom,
  λ f.
      let (rs, a, e) = f in
      push_msgs-without_commands ms State.bottom
      ∙ ap (λ k. push_msgs k State.bottom) e
      ∙ frames-accepted rs a,
)
