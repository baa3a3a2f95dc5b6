-- ===== src/Pipe/Handshake/Moves.antt =====
-- What a call or a command does to an end's state and to the closing commands that it has sent.
use zmq.Base.{
  suc, Bool, false, Option, some, List, [], ◌∷◌, ◌++◌, append-nil, ◌+◌, ◌%◌, ◌≡◌, ◌⊎◌, inl, inr,
  refl, arith, length, Option-cases, Bool-cases, ap,
}
use zmq.Msg.{Msg, is_delimiter, init_delimiter}
use zmq.Ypipe
use zmq.Ypipe.{Ypipe}
use zmq.Pipe.{
  Pipe, State, active, delimiter_received, waiting_for_delimiter, term_ack_sent, term_req_sent1,
  term_req_sent2, Command, activate_read, activate_write, hiccup_command, pipe_term, pipe_term_ack,
  pipe_hwm, check_read, read, read_payload, check_write, write, rollback, flush, process_delimiter,
  take_delimiter, count_read, u64,
}
use zmq.Pipe.Control.{set_nodelay}
use zmq.Pipe.Term.{terminate, stop_outbound, abandon}
use zmq.Pipe.Handshake.{
  Act, check_reads, reads, writes, rolls_back, flushes, sets_nodelay, terminates,
}

-- The closing commands among those that are sent.
abbrev pub signals : List Command → List Command
signals [] = []
signals (pipe_term ∷ cs) = pipe_term ∷ signals cs
signals (pipe_term_ack ∷ cs) = pipe_term_ack ∷ signals cs
signals (activate_read ∷ cs) = signals cs
signals (activate_write n ∷ cs) = signals cs
signals (hiccup_command ∷ cs) = signals cs
signals (pipe_hwm i o ∷ cs) = signals cs

pub signals-append : (xs ys : List Command) → signals (xs ++ ys) ≡ signals xs ++ signals ys
signals-append [] ys = refl
signals-append (pipe_term ∷ cs) ys = ap (◌∷◌ pipe_term) (signals-append cs ys)
signals-append (pipe_term_ack ∷ cs) ys = ap (◌∷◌ pipe_term_ack) (signals-append cs ys)
signals-append (activate_read ∷ cs) ys = signals-append cs ys
signals-append (activate_write n ∷ cs) ys = signals-append cs ys
signals-append (hiccup_command ∷ cs) ys = signals-append cs ys
signals-append (pipe_hwm i o ∷ cs) ys = signals-append cs ys

-- How a call moves an end: it keeps the state, or asks for termination, or reads the delimiter
-- before or after the peer's request.
pub data Move (s : State) (cs : List Command) (d : Bool) (q : Pipe) : Type 0 where
  keeps : q.state ≡ s → signals q.sent ≡ signals cs → q.deleted ≡ d → Move s cs d q
  asks_active :
      s ≡ active
      → q.state ≡ term_req_sent1
      → signals q.sent ≡ signals cs ++ pipe_term ∷ []
      → q.deleted ≡ d
      → Move s cs d q
  asks_delimited :
      s ≡ delimiter_received
      → q.state ≡ term_req_sent1
      → signals q.sent ≡ signals cs ++ pipe_term ∷ []
      → q.deleted ≡ d
      → Move s cs d q
  finds_delimiter :
      s ≡ active
      → q.state ≡ delimiter_received
      → signals q.sent ≡ signals cs
      → q.deleted ≡ d
      → Move s cs d q
  lets_go :
      s ≡ waiting_for_delimiter
      → q.state ≡ term_ack_sent
      → q.sent ≡ cs ++ pipe_term_ack ∷ []
      → q.has_out ≡ false
      → q.deleted ≡ d
      → Move s cs d q

process_delimiter-Move :
    (p q : Pipe) → process_delimiter p ≡ some q → Move p.state p.sent p.deleted q
unfolding process_delimiter
process_delimiter-Move p q e = go p.state refl
  where
    go : (s : State) → p.state ≡ s → Move p.state p.sent p.deleted q
    go active h = finds_delimiter h (ground arith) (ground arith) (ground arith)
    go waiting_for_delimiter h =
        lets_go h (ground arith) (ground arith) (ground arith) (ground arith)
    go _ h = absurd (ground arith)

take_delimiter-Move :
    (p q : Pipe) (b : Bool) → take_delimiter p ≡ some (b, q) → Move p.state p.sent p.deleted q
unfolding take_delimiter
take_delimiter-Move p q b e =
    let got = Ypipe.read p.in_pipe in
    let p' : Pipe = record p { in_pipe = got.1 } in
    elim (Option-cases got.0) [
      | inl n ↦ absurd (ground arith)
      | inr (m, n) ↦ elim (Option-cases (process_delimiter p')) [
        | inl d ↦ absurd (ground arith)
        | inr (r, d) ↦
            let same_pipe : r ≡ q = ground arith in rw (← same_pipe) (process_delimiter-Move p' r d)
      ]
    ]

-- The ypipe as `check_read` leaves it where it finds an item.
abbrev probed : Pipe → Ypipe Msg
probed p = (Ypipe.check_read (Ypipe.check_read p.in_pipe).1).1

check_read_cases :
    (p q : Pipe) (b : Bool)
    → check_read p ≡ some (b, q)
    → ((q.state ≡ p.state) × (q.sent ≡ p.sent) × (q.deleted ≡ p.deleted))
      ⊎ (take_delimiter (record p { in_pipe = probed p }) ≡ some (b, q))
unfolding check_read Ypipe.probe
check_read_cases p q b e = ground arith

check_read-Move :
    (p q : Pipe) (b : Bool) → check_read p ≡ some (b, q) → Move p.state p.sent p.deleted q
unfolding check_read
check_read-Move p q b e = elim (check_read_cases p q b e) [
  | inl same ↦ keeps same.0 (ap signals same.1) same.2
  | inr d ↦ take_delimiter-Move (record p { in_pipe = probed p }) q b d
]

count_read_same :
    (p : Pipe) (m : Msg)
    → ((count_read p m).state ≡ p.state)
      × (signals (count_read p m).sent ≡ signals p.sent)
      × ((count_read p m).deleted ≡ p.deleted)
unfolding count_read
count_read_same p m = ground (
  arith,
  signals-append p.sent (activate_write p.msgs_read ∷ []),
  append-nil (signals p.sent),
  signals-append p.sent (activate_write ((p.msgs_read + 1) % u64) ∷ []),
)

-- The end behind the payload that `read` takes.
abbrev rest_read : Pipe → Pipe
rest_read p = record p { in_pipe = (read_payload (suc (length p.in_pipe.queue)) p.in_pipe).1 }

read_cases :
    (p q : Pipe) (out : Option Msg)
    → read p ≡ some (out, q)
    → ((q.state ≡ p.state) × (signals q.sent ≡ signals p.sent) × (q.deleted ≡ p.deleted))
      ⊎ (process_delimiter (rest_read p) ≡ some q)
unfolding read
read_cases p q out e =
    elim (Option-cases (read_payload (suc (length p.in_pipe.queue)) p.in_pipe).0) [
      | inl none_read ↦ ground arith
      | inr (m, got) ↦ elim (Bool-cases (is_delimiter m)) [
        | inl d ↦ elim (Option-cases (process_delimiter (rest_read p))) [
          | inl failed ↦ ground arith
          | inr (r, done) ↦ ground arith
        ]
        | inr d ↦ ground (arith, count_read_same (rest_read p) m)
      ]
    ]

read-Move :
    (p q : Pipe) (out : Option Msg) → read p ≡ some (out, q) → Move p.state p.sent p.deleted q
read-Move p q out e = elim (read_cases p q out e) [
  | inl same ↦ keeps same.0 same.1 same.2
  | inr d ↦ process_delimiter-Move (rest_read p) q d
]

write-Move : (p : Pipe) (m : Msg) → Move p.state p.sent p.deleted (write p m).1
unfolding write
write-Move p m = keeps (ground arith) (ground arith) (ground arith)

rollback-keeps :
    (p q : Pipe)
    → rollback p ≡ some q
    → (q.state ≡ p.state) × (q.sent ≡ p.sent) × (q.deleted ≡ p.deleted) × (q.has_out ≡ p.has_out)
unfolding rollback
rollback-keeps p q e = ground arith

flush-keeps :
    (p : Pipe)
    → ((flush p).state ≡ p.state)
      × (signals (flush p).sent ≡ signals p.sent)
      × ((flush p).deleted ≡ p.deleted)
unfolding flush
flush-keeps p =
    ground (arith, signals-append p.sent (activate_read ∷ []), append-nil (signals p.sent))

stop_outbound-keeps :
    (p q : Pipe)
    → stop_outbound p ≡ some q
    → (q.state ≡ p.state) × (signals q.sent ≡ signals p.sent) × (q.deleted ≡ p.deleted)
unfolding stop_outbound
stop_outbound-keeps p q e =
    let p' : Pipe = record p { out_active = false } in
    elim (Option-cases (rollback p')) [
      | inl failed ↦ ground arith
      | inr (r, done) ↦
          let r' : Pipe = record r { out_pipe = Ypipe.write r.out_pipe init_delimiter false } in
          ground (arith, rollback-keeps p' r done, flush-keeps r')
    ]

abandon-lets_go :
    (p q : Pipe)
    → abandon p ≡ some q
    → (q.state ≡ term_ack_sent)
      × (q.sent ≡ p.sent ++ pipe_term_ack ∷ [])
      × (q.has_out ≡ false)
      × (q.deleted ≡ p.deleted)
unfolding abandon stop_outbound
abandon-lets_go p q e = elim (Option-cases (rollback p)) [
  | inl failed ↦ ground arith
  | inr (r, done) ↦ ground (arith, rollback-keeps p r done)
]

terminate-Move :
    (p q : Pipe) (delay : Bool) → terminate p delay ≡ some q → Move p.state p.sent p.deleted q
unfolding terminate
terminate-Move p q delay e = go p.state refl
  where
    go : (s : State) → p.state ≡ s → Move p.state p.sent p.deleted q
    go active h =
        let p' : Pipe = record p {
          delay = delay;
          sent = p.sent ++ pipe_term ∷ [];
          state = term_req_sent1;
        } in
        asks_active h (ground (arith, stop_outbound-keeps p' q))
          (ground (arith, stop_outbound-keeps p' q, signals-append p.sent (pipe_term ∷ [])))
          (ground (arith, stop_outbound-keeps p' q))
    go delimiter_received h =
        let p' : Pipe = record p {
          delay = delay;
          sent = p.sent ++ pipe_term ∷ [];
          state = term_req_sent1;
        } in
        asks_delimited h (ground (arith, stop_outbound-keeps p' q))
          (ground (arith, stop_outbound-keeps p' q, signals-append p.sent (pipe_term ∷ [])))
          (ground (arith, stop_outbound-keeps p' q))
    go waiting_for_delimiter h = elim (Bool-cases delay) [
      | inl d ↦
          let p' : Pipe = record p { delay = delay } in
          keeps (ground (arith, stop_outbound-keeps p' q))
            (ground (arith, stop_outbound-keeps p' q)) (ground (arith, stop_outbound-keeps p' q))
      | inr d ↦
          let p' : Pipe = record p { delay = delay } in
          lets_go h (ground (arith, abandon-lets_go p' q)) (ground (arith, abandon-lets_go p' q))
            (ground (arith, abandon-lets_go p' q)) (ground (arith, abandon-lets_go p' q))
    ]
    go _ h = keeps (ground arith) (ground arith) (ground arith)

pub terminate-active :
    (p q : Pipe) (delay : Bool)
    → p.state ≡ active
    → terminate p delay ≡ some q
    → q.state ≡ term_req_sent1
unfolding terminate
terminate-active p q delay h e =
    let p' : Pipe = record p {
      delay = delay;
      sent = p.sent ++ pipe_term ∷ [];
      state = term_req_sent1;
    } in
    ground (arith, stop_outbound-keeps p' q)

-- Every call is one of these moves.
pub Act-Move : {p q : Pipe} → Act p q → Move p.state p.sent p.deleted q
unfolding set_nodelay
Act-Move {p} (check_reads b q e) = check_read-Move p q b e
Act-Move {p} (reads out q e) = read-Move p q out e
Act-Move {p} (writes m h) = write-Move p m
Act-Move {p} (rolls_back q e) = let k = rollback-keeps p q e in keeps k.0 (ap signals k.1) k.2
Act-Move {p} flushes = let k = flush-keeps p in keeps k.0 k.1 k.2
Act-Move sets_nodelay = keeps refl refl refl
Act-Move {p} (terminates delay q e) = terminate-Move p q delay e

-- An end that has let go of its outbound pipe sends nothing more.
pub Act-closed :
    {p q : Pipe}
    → Act p q
    → (p.state ≡ term_ack_sent) ⊎ (p.state ≡ term_req_sent2)
    → p.has_out ≡ false
    → (q.sent ≡ p.sent) × (q.has_out ≡ false)
unfolding set_nodelay check_read read write check_write rollback flush terminate
Act-closed (check_reads b q e) c h = ground arith
Act-closed (reads out q e) c h = ground arith
Act-closed (writes m nd) c h = ground arith
Act-closed (rolls_back q e) c h = ground arith
Act-closed flushes c h = ground arith
Act-closed sets_nodelay c h = ground arith
Act-closed (terminates delay q e) c h = ground arith
