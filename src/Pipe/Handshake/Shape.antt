-- ===== src/Pipe/Handshake/Shape.antt =====
-- The states in which the two ends can meet, with the closing commands that are on their way.
use zmq.Base.{Bool, true, false, List, [], ◌∷◌, ◌++◌, ◌≡◌, ◌≢◌, ◌⊎◌, refl, arith}
use zmq.Pipe.{
  State, active, delimiter_received, waiting_for_delimiter, term_ack_sent, term_req_sent1,
  term_req_sent2, Command, pipe_term, pipe_term_ack,
}

-- The first end's state, whether it is deleted and what it has sent; and the same of the second.
abbrev pub OneEnd : Type 0
OneEnd = Bool × List Command

abbrev pub Is :
    Bool → List Command → Bool → List Command → Bool → List Command → Bool → List Command → Type 0
Is dx xs dy ys dx' xs' dy' ys' = (dx ≡ dx') × (xs ≡ xs') × (dy ≡ dy') × (ys ≡ ys')

abbrev term : List Command
term = pipe_term ∷ []

abbrev ack : List Command
ack = pipe_term_ack ∷ []

-- One end has asked first, and the other has let go.
abbrev Released : Bool → List Command → Bool → List Command → Type 0
Released dx xs dy ys =
    Is dx xs dy ys false [] false ack
    ⊎ Is dx xs dy ys true ack false []
    ⊎ Is dx xs dy ys true [] true []

abbrev pub Allowed : State → State → Bool → List Command → Bool → List Command → Type 0
Allowed active active dx xs dy ys = Is dx xs dy ys false [] false []
Allowed term_req_sent1 active dx xs dy ys = Is dx xs dy ys false term false []
Allowed active term_req_sent1 dx xs dy ys = Is dx xs dy ys false [] false term
Allowed term_req_sent1 delimiter_received dx xs dy ys = Is dx xs dy ys false term false []
Allowed delimiter_received term_req_sent1 dx xs dy ys = Is dx xs dy ys false [] false term
Allowed term_req_sent1 waiting_for_delimiter dx xs dy ys = Is dx xs dy ys false [] false []
Allowed waiting_for_delimiter term_req_sent1 dx xs dy ys = Is dx xs dy ys false [] false []
Allowed term_req_sent1 term_ack_sent dx xs dy ys = Released dx xs dy ys
Allowed term_ack_sent term_req_sent1 dx xs dy ys = Released dy ys dx xs
Allowed term_req_sent1 term_req_sent1 dx xs dy ys = Is dx xs dy ys false term false term
Allowed term_req_sent2 term_req_sent1 dx xs dy ys =
    Is dx xs dy ys false (pipe_term ∷ pipe_term_ack ∷ []) false []
Allowed term_req_sent1 term_req_sent2 dx xs dy ys =
    Is dx xs dy ys false [] false (pipe_term ∷ pipe_term_ack ∷ [])
Allowed term_req_sent2 term_req_sent2 dx xs dy ys =
    Is dx xs dy ys false ack false ack
    ⊎ Is dx xs dy ys true ack false []
    ⊎ Is dx xs dy ys false [] true ack
    ⊎ Is dx xs dy ys true [] true []
Allowed _ _ dx xs dy ys = ⊥

module _ (xs ys : List Command) (dx dy : Bool) where
  -- The relation does not depend on which end is named first.
  pub Allowed-swap : (s t : State) → Allowed s t dx xs dy ys → Allowed t s dy ys dx xs
  Allowed-swap active active h = ground arith
  Allowed-swap term_req_sent1 active h = ground arith
  Allowed-swap active term_req_sent1 h = ground arith
  Allowed-swap term_req_sent1 delimiter_received h = ground arith
  Allowed-swap delimiter_received term_req_sent1 h = ground arith
  Allowed-swap term_req_sent1 waiting_for_delimiter h = ground arith
  Allowed-swap waiting_for_delimiter term_req_sent1 h = ground arith
  Allowed-swap term_req_sent1 term_ack_sent h = h
  Allowed-swap term_ack_sent term_req_sent1 h = h
  Allowed-swap term_req_sent1 term_req_sent1 h = ground arith
  Allowed-swap term_req_sent2 term_req_sent1 h = ground arith
  Allowed-swap term_req_sent1 term_req_sent2 h = ground arith
  Allowed-swap term_req_sent2 term_req_sent2 h = ground arith
  Allowed-swap _ _ h = elim h [ ]

  pub ask_active :
      (t : State)
      → Allowed active t false xs dy ys
      → Allowed term_req_sent1 t false (xs ++ term) dy ys
  ask_active active h = ground arith
  ask_active term_req_sent1 h = ground arith
  ask_active _ h = elim h [ ]

  pub ask_delimited :
      (t : State)
      → Allowed delimiter_received t false xs dy ys
      → Allowed term_req_sent1 t false (xs ++ term) dy ys
  ask_delimited term_req_sent1 h = ground arith
  ask_delimited _ h = elim h [ ]

  -- The delimiter is found only where the peer has asked.
  pub find_delimiter :
      (t : State)
      → t ≢ active
      → Allowed active t false xs dy ys
      → Allowed delimiter_received t false xs dy ys
  find_delimiter active n h = absurd (n refl)
  find_delimiter term_req_sent1 n h = ground arith
  find_delimiter _ n h = elim h [ ]

  pub let_go :
      (t : State)
      → Allowed waiting_for_delimiter t false xs dy ys
      → Allowed term_ack_sent t false (xs ++ ack) dy ys
  let_go term_req_sent1 h = ground arith
  let_go _ h = elim h [ ]

  -- A request arrives only where it is expected, and never at an end that is gone.
  pub term_expected :
      (s t : State)
      → Allowed s t dx (pipe_term ∷ xs) dy ys
      → (dy ≡ false) × ((t ≡ active) ⊎ (t ≡ delimiter_received) ⊎ (t ≡ term_req_sent1))
  term_expected term_req_sent1 active h = ground arith
  term_expected term_req_sent1 delimiter_received h = ground arith
  term_expected term_req_sent1 term_req_sent1 h = ground arith
  term_expected term_req_sent2 term_req_sent1 h = ground arith
  term_expected _ _ h = absurd (ground arith)

  -- So does an acknowledgement.
  pub ack_expected :
      (s t : State)
      → Allowed s t dx (pipe_term_ack ∷ xs) dy ys
      → (dy ≡ false) × ((t ≡ term_ack_sent) ⊎ (t ≡ term_req_sent2) ⊎ (t ≡ term_req_sent1))
  ack_expected term_req_sent1 term_ack_sent h = ground arith
  ack_expected term_ack_sent term_req_sent1 h = ground arith
  ack_expected term_req_sent2 term_req_sent2 h = ground arith
  ack_expected _ _ h = absurd (ground arith)

  pub term_at_active :
      (s : State)
      → Allowed s active dx (pipe_term ∷ xs) dy ys
      → Allowed s waiting_for_delimiter dx xs dy ys × Allowed s term_ack_sent dx xs dy (ys ++ ack)
  term_at_active term_req_sent1 h = ground arith
  term_at_active _ h = absurd (ground arith)

  pub term_at_delimited :
      (s : State)
      → Allowed s delimiter_received dx (pipe_term ∷ xs) dy ys
      → Allowed s term_ack_sent dx xs dy (ys ++ ack)
  term_at_delimited term_req_sent1 h = ground arith
  term_at_delimited _ h = absurd (ground arith)

  pub term_at_asked :
      (s : State)
      → Allowed s term_req_sent1 dx (pipe_term ∷ xs) dy ys
      → Allowed s term_req_sent2 dx xs dy (ys ++ ack)
  term_at_asked term_req_sent1 h = ground arith
  term_at_asked term_req_sent2 h = ground arith
  term_at_asked _ h = absurd (ground arith)

  pub ack_at_released :
      (s : State)
      → Allowed s term_ack_sent dx (pipe_term_ack ∷ xs) dy ys
      → Allowed s term_ack_sent dx xs true ys
  ack_at_released term_req_sent1 h = ground arith
  ack_at_released _ h = absurd (ground arith)

  pub ack_at_crossed :
      (s : State)
      → Allowed s term_req_sent2 dx (pipe_term_ack ∷ xs) dy ys
      → Allowed s term_req_sent2 dx xs true ys
  ack_at_crossed term_req_sent2 h = ground arith
  ack_at_crossed _ h = absurd (ground arith)

  pub ack_at_asked :
      (s : State)
      → Allowed s term_req_sent1 dx (pipe_term_ack ∷ xs) dy ys
      → Allowed s term_req_sent1 dx xs true (ys ++ ack)
  ack_at_asked term_ack_sent h = ground arith
  ack_at_asked _ h = absurd (ground arith)

  -- An end that is gone has nothing more to come but from a peer that has let go, too.
  pub gone_is_last :
      (s t : State)
      → Allowed s t dx xs true ys
      → (xs ≡ []) × ((s ≡ term_ack_sent) ⊎ (s ≡ term_req_sent2) ⊎ (dx ≡ true))
  gone_is_last term_req_sent1 term_ack_sent h = ground arith
  gone_is_last term_ack_sent term_req_sent1 h = ground arith
  gone_is_last term_req_sent2 term_req_sent2 h = ground arith
  gone_is_last _ _ h = absurd (ground arith)
