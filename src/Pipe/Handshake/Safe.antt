-- ===== src/Pipe/Handshake/Safe.antt =====
-- What holds of two joined ends after every sequence of calls and deliveries.
use zmq.Base.{false, none, List, ◌∷◌, ◌≡◌, ◌≢◌, ◌⊎◌, inl, inr, refl, arith, Bool-cases}
use zmq.Base.Int.{ℤ}
use zmq.Pipe.{Pipe, Command, hiccup_command, pipepair}
use zmq.Pipe.Handshake.{
  handle, System, Step, left_acts, right_acts, to_right, to_left, Reach, here, next,
}
use zmq.Pipe.Handshake.Inv.{Inv, Inv-swap, Act-Inv}
use zmq.Pipe.Handshake.Deliver.{deliver-Inv, nothing_to_gone, next_handled}

-- A pair as `pipepair` leaves it.
abbrev pub joined : ℤ → ℤ → System
joined hwm0 hwm1 = let (p, q) = pipepair hwm0 hwm1 in record { left = p; right = q }

joined-Inv : (hwm0 hwm1 : ℤ) → Inv (joined hwm0 hwm1).left (joined hwm0 hwm1).right
unfolding pipepair
joined-Inv hwm0 hwm1 = record {
  shape = (refl, refl, refl, refl);
  first_ok = λ g. absurd (ground arith);
  second_ok = λ g. absurd (ground arith);
  clean = λ a b. (tt, tt);
  wired = (refl, refl);
}

Step-Inv : {s t : System} → Step s t → Inv s.left s.right → Inv t.left t.right
Step-Inv {s} (left_acts p d a) h = Act-Inv s.left p s.right d a h
Step-Inv {s} (right_acts p d a) h =
    Inv-swap p _ (Act-Inv s.right p s.left d a (Inv-swap s.left s.right h))
Step-Inv {s} (to_right c rest p e r) h = deliver-Inv s.left s.right p c rest e r h
Step-Inv {s} (to_left c rest p e r) h =
    Inv-swap _ p (deliver-Inv s.right s.left p c rest e r (Inv-swap s.left s.right h))

Reach-Inv : (hwm0 hwm1 : ℤ) {s : System} → Reach (joined hwm0 hwm1) s → Inv s.left s.right
Reach-Inv hwm0 hwm1 here = joined-Inv hwm0 hwm1
Reach-Inv hwm0 hwm1 (next r st) = Step-Inv st (Reach-Inv hwm0 hwm1 r)

-- The two ends, in either order.
abbrev pub Facing : System → Pipe → Pipe → Type 0
Facing s p q = ((s.left ≡ p) × (s.right ≡ q)) ⊎ ((s.right ≡ p) × (s.left ≡ q))

Facing-Inv : (s : System) (p q : Pipe) → Facing s p q → Inv s.left s.right → Inv p q
Facing-Inv s p q (inl (a, b)) h = rw (a, b) at h
Facing-Inv s p q (inr (a, b)) h = rw (a, b) at (Inv-swap s.left s.right h)

-- After any deliveries at the two ends of a pipe pair, and any calls there of `check_read`, `read`, `write` of a
-- message that is no delimiter, `rollback`, `flush`, `set_nodelay` and `terminate`, but none of `hiccup` and
-- `send_hwms_to_peer`, an end to which a command is on its way is not deleted yet, and the handler of the next
-- command meets none of the states that its assertions exclude. The hypothesis that this is no hiccup command
-- is about none that these calls send.
pub commands_handled :
    (hwm0 hwm1 : ℤ) (s : System) (p q : Pipe) (c : Command) (rest : List Command)
    → Reach (joined hwm0 hwm1) s
    → Facing s p q
    → p.sent ≡ c ∷ rest
    → c ≢ hiccup_command
    → (q.deleted ≡ false) × (handle c q ≢ none)
commands_handled hwm0 hwm1 s p q c rest r f e n =
    let h : Inv p q = Facing-Inv s p q f (Reach-Inv hwm0 hwm1 r) in
    (
      elim (Bool-cases q.deleted) [
        | inl d ↦ absurd (ground (arith, nothing_to_gone p q h d))
        | inr d ↦ d
      ],
      next_handled p q c rest h e n,
    )
