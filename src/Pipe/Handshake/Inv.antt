-- ===== src/Pipe/Handshake/Inv.antt =====
-- The invariant of two joined ends, and that every call keeps it.
use zmq.Base.{
  true, false, some, [], ◌∷◌, ◌≡◌, ◌≢◌, ◌⊎◌, inl, inr, refl, arith, get_last?, get_last?-append,
  sym, ◌∙◌,
}
use zmq.Pipe.{Pipe, active, delimiter_received, term_ack_sent, term_req_sent2, pipe_term_ack}
use zmq.Pipe.Handshake.{Act, shared}
use zmq.Pipe.Handshake.Moves.{
  signals, signals-append, Move, keeps, asks_active, asks_delimited, finds_delimiter, lets_go,
  Act-Move, Act-closed,
}
use zmq.Pipe.Handshake.Clean.{IsClean, Act-IsClean}
use zmq.Pipe.Handshake.Shape.{
  Allowed, Allowed-swap, ask_active, ask_delimited, find_delimiter, let_go,
}

-- An end that has let go: its last command, if one is left, is the acknowledgement.
abbrev pub LetGo : Pipe → Type 0
LetGo p = (p.has_out ≡ false) × ((p.sent ≡ []) ⊎ (get_last? p.sent ≡ some pipe_term_ack))

abbrev pub HasLetGo : Pipe → Type 0
HasLetGo p = (p.state ≡ term_ack_sent) ⊎ (p.state ≡ term_req_sent2) ⊎ (p.deleted ≡ true)

abbrev pub EndOk : Pipe → Type 0
EndOk p = HasLetGo p → LetGo p

abbrev pub Ends : Pipe → Pipe → Type 0
Ends p q = Allowed p.state q.state p.deleted (signals p.sent) q.deleted (signals q.sent)

-- The first end as seen from either side.
pub record Inv (p q : Pipe) : Type 0 where
  pub shape : Ends p q
  pub first_ok : EndOk p
  pub second_ok : EndOk q
  pub clean : p.state ≡ active → q.state ≡ active → IsClean p
  pub wired : (q.in_pipe ≡ p.out_pipe) × (q.out_pipe ≡ p.in_pipe)

pub Inv-swap : (p q : Pipe) → Inv p q → Inv q p
Inv-swap p q h = record {
  shape =
      Allowed-swap (signals p.sent) (signals q.sent) p.deleted q.deleted p.state q.state h.shape;
  first_ok = h.second_ok;
  second_ok = h.first_ok;
  clean = λ a b. ground (arith, h.clean b a, h.wired);
  wired = (sym h.wired.1, sym h.wired.0);
}

-- A call of the first end.
act_shape :
    (p p' q : Pipe)
    → p.deleted ≡ false
    → Move p.state p.sent p.deleted p'
    → ((p'.state ≡ delimiter_received) → (p.state ≡ active) → q.state ≢ active)
    → Ends p q
    → Ends p' q
act_shape p p' q d (keeps s g e) nd h = rw (s, g, e) h
act_shape p p' q d (asks_active st s g e) nd h =
    rw (s, g, e, d)
      (ask_active (signals p.sent) (signals q.sent) false q.deleted q.state (rw (st, d) at h))
act_shape p p' q d (asks_delimited st s g e) nd h =
    rw (s, g, e, d)
      (ask_delimited (signals p.sent) (signals q.sent) false q.deleted q.state (rw (st, d) at h))
act_shape p p' q d (finds_delimiter st s g e) nd h =
    rw (s, g, e, d)
      (find_delimiter (signals p.sent) (signals q.sent) false q.deleted q.state (nd s st)
        (rw (st, d) at h))
act_shape p p' q d (lets_go st s g o e) nd h =
    rw (s, g, e, d, signals-append p.sent (pipe_term_ack ∷ []))
      (let_go (signals p.sent) (signals q.sent) false q.deleted q.state (rw (st, d) at h))

Act-end :
    (p p' : Pipe)
    → p.deleted ≡ false
    → Act p p'
    → Move p.state p.sent p.deleted p'
    → EndOk p
    → EndOk p'
Act-end p p' d a (keeps s g e) ok (inl k) =
    let old = ok (inl (sym s ∙ k)) in
    let same = Act-closed a (inl (sym s ∙ k)) old.0 in (same.1, rw (same.0) old.1)
Act-end p p' d a (keeps s g e) ok (inr (inl k)) =
    let old = ok (inr (inl (sym s ∙ k))) in
    let same = Act-closed a (inr (sym s ∙ k)) old.0 in (same.1, rw (same.0) old.1)
Act-end p p' d a (keeps s g e) ok (inr (inr k)) = absurd (ground arith)
Act-end p p' d a (asks_active st s g e) ok k = absurd (ground arith)
Act-end p p' d a (asks_delimited st s g e) ok k = absurd (ground arith)
Act-end p p' d a (finds_delimiter st s g e) ok k = absurd (ground arith)
Act-end p p' d a (lets_go st s g o e) ok k = (o, inr (rw g (get_last?-append p.sent pipe_term_ack)))

Act-IsClean_of :
    (p p' q : Pipe)
    → Act p p'
    → Move p.state p.sent p.deleted p'
    → (p.state ≡ active → q.state ≡ active → IsClean p)
    → p'.state ≡ active
    → q.state ≡ active
    → IsClean p'
Act-IsClean_of p p' q a (keeps s g e) c hp hq =
    elim (Act-IsClean a (sym s ∙ hp) (c (sym s ∙ hp) hq)) [
      | inl r ↦ r.1
      | inr r ↦ absurd (ground arith)
    ]
Act-IsClean_of p p' q a (asks_active st s g e) c hp hq = absurd (ground arith)
Act-IsClean_of p p' q a (asks_delimited st s g e) c hp hq = absurd (ground arith)
Act-IsClean_of p p' q a (finds_delimiter st s g e) c hp hq = absurd (ground arith)
Act-IsClean_of p p' q a (lets_go st s g o e) c hp hq = absurd (ground arith)

Act-finds_nothing :
    (p p' q : Pipe)
    → Act p p'
    → (p.state ≡ active → q.state ≡ active → IsClean p)
    → p'.state ≡ delimiter_received
    → p.state ≡ active
    → q.state ≢ active
Act-finds_nothing p p' q a c s st hq = elim (Act-IsClean a st (c st hq)) [
  | inl r ↦ ground arith
  | inr r ↦ ground arith
]

pub Act-Inv : (p p' q : Pipe) → p.deleted ≡ false → Act p p' → Inv p q → Inv p' (shared p' q)
Act-Inv p p' q d a h = record {
  shape = act_shape p p' q d (Act-Move a) (Act-finds_nothing p p' q a h.clean) h.shape;
  first_ok = Act-end p p' d a (Act-Move a) h.first_ok;
  second_ok = h.second_ok;
  clean = Act-IsClean_of p p' q a (Act-Move a) h.clean;
  wired = (refl, refl);
}
