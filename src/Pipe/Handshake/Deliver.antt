-- ===== src/Pipe/Handshake/Deliver.antt =====
-- A delivered command finds its end in a state that expects it, and keeps the invariant.
use zmq.Base.{
  true, false, none, some, List, [], ◌∷◌, ◌++◌, ◌≡◌, ◌≢◌, ◌⊎◌, inl, inr, refl, arith, get_last?,
  get_last?-append, ap, sym, ◌∙◌,
}
use zmq.Pipe.{
  Pipe, active, delimiter_received, waiting_for_delimiter, term_ack_sent, term_req_sent1,
  term_req_sent2, Command, activate_read, activate_write, hiccup_command, pipe_term, pipe_term_ack,
  pipe_hwm,
}
use zmq.Pipe.Control.{process_activate_read, process_activate_write, process_pipe_hwm}
use zmq.Pipe.Term.{process_pipe_term, process_pipe_term_ack, delete_pipe}
use zmq.Pipe.Handshake.{handle, shared}
use zmq.Pipe.Handshake.Moves.{signals, signals-append}
use zmq.Pipe.Handshake.Inv.{EndOk, Inv}
use zmq.Pipe.Handshake.Shape.{
  Allowed, term_expected, ack_expected, term_at_active, term_at_delimited, term_at_asked,
  ack_at_released, ack_at_crossed, ack_at_asked, gone_is_last,
}

-- Not one of the closing commands, and handled.
abbrev Quiet : Command → Type 0
Quiet activate_read = Unit
Quiet (activate_write n) = Unit
Quiet (pipe_hwm i o) = Unit
Quiet _ = ⊥

-- A command that is not a closing one leaves the end's state, its log of commands and its ypipes.
Quiet-handle :
    (c : Command) (q q' : Pipe)
    → Quiet c
    → handle c q ≡ some q'
    → (q'.state ≡ q.state)
      × (q'.sent ≡ q.sent)
      × (q'.deleted ≡ q.deleted)
      × (q'.has_out ≡ q.has_out)
      × (q'.in_pipe ≡ q.in_pipe)
      × (q'.out_pipe ≡ q.out_pipe)
unfolding handle process_activate_read process_activate_write process_pipe_hwm
Quiet-handle activate_read q q' k e = ground arith
Quiet-handle (activate_write n) q q' k e = ground arith
Quiet-handle (pipe_hwm i o) q q' k e = ground arith
Quiet-handle _ q q' k e = elim k [ ]

-- What the request does to the end that gets it.
term_handle :
    (q q' : Pipe)
    → process_pipe_term q ≡ some q'
    → (q'.deleted ≡ q.deleted)
      × (((q.state ≡ active) × (q'.state ≡ waiting_for_delimiter) × (q'.sent ≡ q.sent))
          ⊎ ((q'.sent ≡ q.sent ++ pipe_term_ack ∷ [])
              × (q'.has_out ≡ false)
              × (((q.state ≡ active) × (q'.state ≡ term_ack_sent))
                  ⊎ ((q.state ≡ delimiter_received) × (q'.state ≡ term_ack_sent))
                  ⊎ ((q.state ≡ term_req_sent1) × (q'.state ≡ term_req_sent2)))))
unfolding process_pipe_term
term_handle q q' e = ground arith

-- What the acknowledgement does.
ack_handle :
    (q q' : Pipe)
    → process_pipe_term_ack q ≡ some q'
    → (q'.deleted ≡ true)
      × (q'.state ≡ q.state)
      × (((q.state ≡ term_req_sent1)
            × (q'.sent ≡ q.sent ++ pipe_term_ack ∷ [])
            × (q'.has_out ≡ false))
          ⊎ (((q.state ≡ term_ack_sent) ⊎ (q.state ≡ term_req_sent2))
              × (q'.sent ≡ q.sent)
              × (q'.has_out ≡ q.has_out)))
unfolding process_pipe_term_ack delete_pipe
ack_handle q q' e = ground arith

sent_rest :
    (p : Pipe) (c : Command) (rest : List Command)
    → p.sent ≡ c ∷ rest
    → EndOk p
    → EndOk (record p { sent = rest })
sent_rest p c [] e ok k = ((ok k).0, inl refl)
sent_rest p c (d ∷ rest) e ok k = ((ok k).0, inr (ground (arith, (ok k).1)))

-- The pieces of the invariant after a delivery.
delivered :
    (p q q' : Pipe) (c : Command) (rest : List Command)
    → p.sent ≡ c ∷ rest
    → Inv p q
    → Allowed p.state q'.state p.deleted (signals rest) q'.deleted (signals q'.sent)
    → EndOk q'
    → (q'.state ≡ active
        → (q.state ≡ active) × (q'.in_pipe ≡ q.in_pipe) × (q'.out_pipe ≡ q.out_pipe))
    → Inv (shared q' (record p { sent = rest })) q'
delivered p q q' c rest e h shape ok open_lem = record {
  shape = shape;
  first_ok = sent_rest p c rest e h.first_ok;
  second_ok = ok;
  clean = λ a b. ground (arith, h.clean a (open_lem b).0, h.wired, open_lem b);
  wired = (refl, refl);
}

Quiet-Inv :
    (p q q' : Pipe) (c : Command) (rest : List Command)
    → Quiet c
    → signals (c ∷ rest) ≡ signals rest
    → p.sent ≡ c ∷ rest
    → handle c q ≡ some q'
    → Inv p q
    → Inv (shared q' (record p { sent = rest })) q'
Quiet-Inv p q q' c rest k sg e r h =
    let (st, sn, dl, ho, ip, op) = Quiet-handle c q q' k r in
    let full : signals p.sent ≡ signals rest = ap signals e ∙ sg in
    delivered p q q' c rest e h (rw (st, sn, dl, ← full) h.shape)
      (λ g. ground (arith, h.second_ok (rw (st, dl) at g))) (λ a. (sym st ∙ a, ip, op))

-- An end that has just let go.
just_let_go : (q q' : Pipe) → q'.sent ≡ q.sent ++ pipe_term_ack ∷ [] → q'.has_out ≡ false → EndOk q'
just_let_go q q' sn ho g = (ho, inr (rw sn (get_last?-append q.sent pipe_term_ack)))

pub term_Inv :
    (p q q' : Pipe) (rest : List Command)
    → p.sent ≡ pipe_term ∷ rest
    → process_pipe_term q ≡ some q'
    → Inv p q
    → Inv (shared q' (record p { sent = rest })) q'
term_Inv p q q' rest e r h =
    let xs = signals rest in
    let ys = signals q.sent in
    let shape : Allowed p.state q.state p.deleted (pipe_term ∷ xs) q.deleted ys = rw e at h.shape in
    let expected = term_expected xs ys p.deleted q.deleted p.state q.state shape in
    let acked = signals-append q.sent (pipe_term_ack ∷ []) in
    let t = term_handle q q' r in
    elim t.1 [
      | inl (sa, sw, sn) ↦
          delivered p q q' pipe_term rest e h
            (rw (sw, sn, t.0) (term_at_active xs ys p.deleted q.deleted p.state (rw sa at shape)).0)
            (λ g. absurd (ground (arith, expected.0, t.0))) (λ a. absurd (ground arith))
      | inr (sn, ho, inl (sa, sk)) ↦
          delivered p q q' pipe_term rest e h
            (rw (sk, sn, t.0, acked)
              (term_at_active xs ys p.deleted q.deleted p.state (rw sa at shape)).1)
            (just_let_go q q' sn ho) (λ a. absurd (ground arith))
      | inr (sn, ho, inr (inl (sa, sk))) ↦
          delivered p q q' pipe_term rest e h
            (rw (sk, sn, t.0, acked)
              (term_at_delimited xs ys p.deleted q.deleted p.state (rw sa at shape)))
            (just_let_go q q' sn ho) (λ a. absurd (ground arith))
      | inr (sn, ho, inr (inr (sa, sk))) ↦
          delivered p q q' pipe_term rest e h
            (rw (sk, sn, t.0, acked)
              (term_at_asked xs ys p.deleted q.deleted p.state (rw sa at shape)))
            (just_let_go q q' sn ho) (λ a. absurd (ground arith))
    ]

pub ack_Inv :
    (p q q' : Pipe) (rest : List Command)
    → p.sent ≡ pipe_term_ack ∷ rest
    → process_pipe_term_ack q ≡ some q'
    → Inv p q
    → Inv (shared q' (record p { sent = rest })) q'
ack_Inv p q q' rest e r h =
    let xs = signals rest in
    let ys = signals q.sent in
    let shape : Allowed p.state q.state p.deleted (pipe_term_ack ∷ xs) q.deleted ys =
      rw e at h.shape in
    let acked = signals-append q.sent (pipe_term_ack ∷ []) in
    let (dl, st, how) = ack_handle q q' r in
    elim how [
      | inl (sa, sn, ho) ↦
          delivered p q q' pipe_term_ack rest e h
            (rw (st, sa, sn, dl, acked)
              (ack_at_asked xs ys p.deleted q.deleted p.state (rw sa at shape)))
            (just_let_go q q' sn ho) (λ a. absurd (ground arith))
      | inr (inl sa, sn, ho) ↦
          delivered p q q' pipe_term_ack rest e h
            (rw (st, sa, sn, dl)
              (ack_at_released xs ys p.deleted q.deleted p.state (rw sa at shape)))
            (λ g. let old = h.second_ok (inl sa) in rw (ho, sn) old) (λ a. absurd (ground arith))
      | inr (inr sa, sn, ho) ↦
          delivered p q q' pipe_term_ack rest e h
            (rw (st, sa, sn, dl)
              (ack_at_crossed xs ys p.deleted q.deleted p.state (rw sa at shape)))
            (λ g. let old = h.second_ok (inr (inl sa)) in rw (ho, sn) old)
            (λ a. absurd (ground arith))
    ]

-- Every delivery keeps the invariant.
pub deliver-Inv :
    (p q q' : Pipe) (c : Command) (rest : List Command)
    → p.sent ≡ c ∷ rest
    → handle c q ≡ some q'
    → Inv p q
    → Inv (shared q' (record p { sent = rest })) q'
deliver-Inv p q q' activate_read rest e r h = Quiet-Inv p q q' activate_read rest tt refl e r h
deliver-Inv p q q' (activate_write n) rest e r h =
    Quiet-Inv p q q' (activate_write n) rest tt refl e r h
deliver-Inv p q q' (pipe_hwm i o) rest e r h = Quiet-Inv p q q' (pipe_hwm i o) rest tt refl e r h
deliver-Inv p q q' hiccup_command rest e r h = absurd (unfold handle in ground arith)
deliver-Inv p q q' pipe_term rest e r h = term_Inv p q q' rest e (unfold handle in r) h
deliver-Inv p q q' pipe_term_ack rest e r h = ack_Inv p q q' rest e (unfold handle in r) h

last_ack-signals : (cs : List Command) → get_last? cs ≡ some pipe_term_ack → signals cs ≢ []
last_ack-signals [] l = ground arith
last_ack-signals (c ∷ []) l = ground arith
last_ack-signals (pipe_term ∷ d ∷ cs) l = ground arith
last_ack-signals (pipe_term_ack ∷ d ∷ cs) l = ground arith
last_ack-signals (activate_read ∷ d ∷ cs) l = last_ack-signals (d ∷ cs) l
last_ack-signals (activate_write n ∷ d ∷ cs) l = last_ack-signals (d ∷ cs) l
last_ack-signals (hiccup_command ∷ d ∷ cs) l = last_ack-signals (d ∷ cs) l
last_ack-signals (pipe_hwm i o ∷ d ∷ cs) l = last_ack-signals (d ∷ cs) l

-- Nothing is on its way to an end that is gone.
pub nothing_to_gone : (p q : Pipe) → Inv p q → q.deleted ≡ true → p.sent ≡ []
nothing_to_gone p q h d =
    let gone =
      gone_is_last (signals p.sent) (signals q.sent) p.deleted p.deleted p.state q.state
        (rw d at h.shape) in
    elim (h.first_ok gone.1).1 [
      | inl none_left ↦ none_left
      | inr l ↦ absurd (last_ack-signals p.sent l gone.0)
    ]

-- The handler of the next command runs through.
pub next_handled :
    (p q : Pipe) (c : Command) (rest : List Command)
    → Inv p q
    → p.sent ≡ c ∷ rest
    → c ≢ hiccup_command
    → handle c q ≢ none
unfolding handle process_pipe_term process_pipe_term_ack
next_handled p q pipe_term rest h e n =
    let expected =
      term_expected (signals rest) (signals q.sent) p.deleted q.deleted p.state q.state
        (rw e at h.shape) in
    ground (arith, expected.1)
next_handled p q pipe_term_ack rest h e n =
    let expected =
      ack_expected (signals rest) (signals q.sent) p.deleted q.deleted p.state q.state
        (rw e at h.shape) in
    ground (arith, expected.1)
next_handled p q hiccup_command rest h e n = absurd (n refl)
next_handled p q _ rest h e n = ground arith
