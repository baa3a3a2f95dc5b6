-- ===== src/Pipe/Water.antt =====
-- pipe.cpp: the high and the low watermark.
use zmq.Base.{
  ℕ, suc, ◌+◌, ◌-◌, ◌*◌, ◌%◌, ◌≤◌, ◌<◌, ◌≡◌, ◌↔◌, ◌≢◌, inl, inr, length, Option-cases, refl, ◌^◌,
  arith, Option, some, List, [], ◌∷◌, ◌++◌,
}
use zmq.Base.Int.{pos, pos_part}
use zmq.Msg.{Msg}
use zmq.Pipe.{
  Pipe, Command, activate_read, activate_write, hiccup_command, pipe_term, pipe_term_ack, pipe_hwm,
  compute_lwm, count_read, process_delimiter, read, read_payload, u64,
}

-- The low watermark of a pipe limited to less than `INT_MAX` is positive and at least half of the high one, at most the
-- high one, and below it exactly from a high watermark of 2 on.
pub compute_lwm_bounds :
    (n : ℕ)
    → 0 < n
    → n < 2 ^ 31 - 1
    → let lwm = pos_part (compute_lwm (pos n)) in
      (0 < lwm) × (lwm ≤ n) × (n ≤ 2 * lwm) × ((lwm < n) ↔ (2 ≤ n))
unfolding compute_lwm
compute_lwm_bounds n h small = ground arith

-- The count that the writer knows last, from the commands that the reader has sent.
abbrev last_from : ℕ → List Command → ℕ
last_from n [] = n
last_from n (activate_write k ∷ cs) = last_from k cs
last_from n (_ ∷ cs) = last_from n cs

abbrev pub last_reported : List Command → ℕ
last_reported = last_from 0

last_from-write : (n k : ℕ) (cs : List Command) → last_from n (cs ++ activate_write k ∷ []) ≡ k
last_from-write n k [] = refl
last_from-write n k (activate_write j ∷ cs) = last_from-write j k cs
last_from-write n k (activate_read ∷ cs) = last_from-write n k cs
last_from-write n k (hiccup_command ∷ cs) = last_from-write n k cs
last_from-write n k (pipe_term ∷ cs) = last_from-write n k cs
last_from-write n k (pipe_term_ack ∷ cs) = last_from-write n k cs
last_from-write n k (pipe_hwm i o ∷ cs) = last_from-write n k cs

last_from-ack :
    (n : ℕ) (cs : List Command) → last_from n (cs ++ pipe_term_ack ∷ []) ≡ last_from n cs
last_from-ack n [] = refl
last_from-ack n (activate_write j ∷ cs) = last_from-ack j cs
last_from-ack n (activate_read ∷ cs) = last_from-ack n cs
last_from-ack n (hiccup_command ∷ cs) = last_from-ack n cs
last_from-ack n (pipe_term ∷ cs) = last_from-ack n cs
last_from-ack n (pipe_term_ack ∷ cs) = last_from-ack n cs
last_from-ack n (pipe_hwm i o ∷ cs) = last_from-ack n cs

-- The reader has reported the last multiple of its low watermark.
pub record Reports (n : ℕ) (p : Pipe) : Type 0 where
  pub lwm_is : p.lwm ≡ pos n
  pub reported : last_reported p.sent ≡ p.msgs_read - p.msgs_read % n

mod-suc : (r n : ℕ) → 0 < n → (r + 1) % n ≢ 0 → (r + 1) % n ≡ r % n + 1
mod-suc r n h e = grind arith

mod-le : (r n : ℕ) → r % n ≤ r
mod-le r n = omega arith

count_read-Reports :
    (n : ℕ) (p : Pipe) (m : Msg)
    → 0 < n
    → p.msgs_read + 1 < u64
    → Reports n p
    → Reports n (count_read p m)
unfolding count_read
count_read-Reports n p m h small r = ground (
  arith,
  mod-suc p.msgs_read n h,
  last_from-write 0 (p.msgs_read + 1) p.sent,
  last_from-write 0 p.msgs_read p.sent,
)

process_delimiter-Reports :
    (n : ℕ) (p q : Pipe) → process_delimiter p ≡ some q → Reports n p → Reports n q
unfolding process_delimiter
process_delimiter-Reports n p q e r = ground (arith, last_from-ack 0 p.sent)

-- A `read` of an end with a positive low watermark `n`, whose counter does not wrap, keeps the last
-- report at the last multiple of `n` that the count of read messages has passed.
pub read-Reports :
    (n : ℕ) (p q : Pipe) (out : Option Msg)
    → 0 < n
    → p.msgs_read + 1 < u64
    → read p ≡ some (out, q)
    → Reports n p
    → Reports n q
unfolding read
read-Reports n p q out h small e r =
    let got = read_payload (suc (length p.in_pipe.queue)) p.in_pipe in
    let p' : Pipe = record p { in_pipe = got.1 } in
    let r' : Reports n p' = record { lwm_is = r.lwm_is; reported = r.reported } in
    elim (Option-cases got.0) [
      | inl e0 ↦ ground arith
      | inr (m, e0) ↦
          ground (arith, count_read-Reports n p' m h small r', process_delimiter-Reports n p' q)
    ]
