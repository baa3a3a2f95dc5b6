-- ===== src/Fq/Recv.antt =====
-- fq.cpp: what `recvpipe` returns.
use zmq.Base.{
  ℕ, zero, suc, ◌-◌, ◌<◌, ◌≡◌, ◌≢◌, ◌⊎◌, inl, inr, refl, arith, false, ◌==◌, Option, none, some,
  get_elem?, Bool-cases, Option-cases, ◌∙◌, ap,
}
use zmq.Msg.{Msg, has_more}
use zmq.Pipe
use zmq.Pipe.{Pipe}
use zmq.Pipe.Read.{read-ne-none}
use zmq.Array.Laws.{get_elem?-lt}
use zmq.Lb.{Store, put}
use zmq.Fq.{Fq, Received, fetched, nothing, after, retire, recv_loop, recvpipe}
use zmq.Fq.Inv.{IsValid, IsActive, retire-IsValid, retire-IsActive}

-- A read of the pipe object `p` returns `out`.
abbrev pub Reads : Pipe → Option Msg → Type 0
Reads p out = (q : Pipe) × (Pipe.read p ≡ some (out, q))

-- What `recvpipe` leaves behind. A message comes by a read of an active pipe, and where more parts
-- follow it the next read is of the same pipe; in the middle of a message it comes from the pipe of
-- `current`. Without a message no active pipe had one to read.
abbrev pub Ends : Fq → Store → Received → Type 0
Ends fq st (fetched i m fq' st') =
    IsValid fq'
    × IsActive fq i
    × (Pipe.read (st i) ≡ some (some m, st' i))
    × (fq'.more ≡ has_more m)
    × ((has_more m ≡ false) ⊎ (get_elem? fq'.pipes.items fq'.current ≡ some i))
    × ((fq.more ≡ false) ⊎ (get_elem? fq.pipes.items fq.current ≡ some i))
Ends fq st (nothing fq' st') =
    IsValid fq'
    × (fq.more ≡ false)
    × (fq'.active ≡ 0)
    × ((i : ℕ) → IsActive fq i → Reads (st i) none)

-- Inside of a message its next part is there to read.
abbrev pub Continues : Fq → Store → Type 0
Continues fq st =
    (fq.more ≡ false)
    ⊎ ((fq.current < fq.active)
        × ((i : ℕ) × (m : Msg) × (get_elem? fq.pipes.items fq.current ≡ some i)
            × Reads (st i) (some m)))

after-Ends :
    (fq : Fq) (st : Store) (i : ℕ) (m : Msg) (p : Pipe)
    → get_elem? fq.pipes.items fq.current ≡ some i
    → fq.current < fq.active
    → Pipe.read (st i) ≡ some (some m, p)
    → IsValid fq
    → Ends fq st (fetched i m (after fq i m) (put st i p))
unfolding after
after-Ends fq st i m p e lt r v =
    let stored : put st i p i ≡ p = ground arith in
    elim (Bool-cases (has_more m)) [
      | inl more_follows ↦
          rw (more_follows, stored)
            (
              record { indexed = v.indexed; active_le = v.active_le; current_lt = v.current_lt },
              (fq.current, lt, e),
              r,
              refl,
              inr e,
              inr e,
            )
      | inr last ↦
          rw (last, stored)
            (
              record {
                indexed = v.indexed;
                active_le = v.active_le;
                current_lt = inl (omega arith);
              },
              (fq.current, lt, e),
              r,
              refl,
              inl refl,
              inr e,
            )
    ]

put_other : (st : Store) (i j : ℕ) (p : Pipe) → j ≢ i → put st i p j ≡ st j
put_other st i j p n = ground arith

-- The loop went on from a pipe with nothing to read.
later-Ends :
    (fq : Fq) (st : Store) (x : ℕ) (p : Pipe) (r : Received)
    → fq.current < fq.active
    → get_elem? fq.pipes.items fq.current ≡ some x
    → fq.more ≡ false
    → Reads (st x) none
    → IsValid fq
    → Ends (retire fq fq.current) (put st x p) r
    → Ends fq st r
later-Ends fq st x p (fetched i m fq' st') lt e n reads v (v', a, r, k, s, f) =
    let (was, other) = (retire-IsActive fq fq.current x i lt e v).0 a in
    (v', was, rw (put_other st x i p other) at r, k, s, inl n)
later-Ends fq st x p (nothing fq' st') lt e n reads v (v', k, a, all) = (v', n, a, idle)
  where
    idle : (i : ℕ) → IsActive fq i → Reads (st i) none
    idle i act = elim (Bool-cases (i == x)) [
      | inl same ↦ let same' : i ≡ x = ground arith in rw same' reads
      | inr other ↦
          let other' : i ≢ x = ground arith in
          rw (put_other st x i p other') at
            (all i ((retire-IsActive fq fq.current x i lt e v).1 (act, other')))
    ]

more-retire :
    (fq : Fq) (i : ℕ) → ((retire fq i).more ≡ fq.more) × ((retire fq i).active ≡ fq.active - 1)
unfolding retire
more-retire fq i = (refl, refl)

read_result : (p : Pipe) → (out : Option Msg) × Reads p out
read_result p = elim (Option-cases (Pipe.read p)) [
  | inl e ↦ absurd (read-ne-none p e)
  | inr ((out, q), e) ↦ (out, (q, e))
]

abbrev Result : Fq → Store → Option Received → Type 0
Result fq st o = (r : Received) × (o ≡ some r) × Ends fq st r

-- With nothing to read at `current`, no message is under way.
idle-outside :
    (fq : Fq) (st : Store) (x : ℕ) (q : Pipe)
    → get_elem? fq.pipes.items fq.current ≡ some x
    → Pipe.read (st x) ≡ some (none, q)
    → Continues fq st
    → fq.more ≡ false
idle-outside fq st x q e got (inl n) = n
idle-outside fq st x q e got (inr (lt, (i, m, f, (p, h)))) =
    let same : i ≡ x = ground arith in
    absurd (ground (arith, ap (λ (k : ℕ). Pipe.read (st k)) same))

-- The two ways on from a read.
recv_loop_next :
    (fuel : ℕ) (fq : Fq) (st : Store) (x : ℕ) (q : Pipe)
    → get_elem? fq.pipes.items fq.current ≡ some x
    → Pipe.read (st x) ≡ some (none, q)
    → fq.more ≡ false
    → recv_loop (suc fuel) fq st ≡ recv_loop fuel (retire fq fq.current) (put st x q)
unfolding recv_loop
recv_loop_next fuel fq st x q e got n = ground arith

recv_loop_fetched :
    (fuel : ℕ) (fq : Fq) (st : Store) (x : ℕ) (m : Msg) (q : Pipe)
    → get_elem? fq.pipes.items fq.current ≡ some x
    → Pipe.read (st x) ≡ some (some m, q)
    → recv_loop (suc fuel) fq st ≡ some (fetched x m (after fq x m) (put st x q))
unfolding recv_loop
recv_loop_fetched fuel fq st x m q e got = ground arith

recv_loop-Result :
    (fuel : ℕ) (fq : Fq) (st : Store)
    → fuel ≡ fq.active
    → IsValid fq
    → Continues fq st
    → Result fq st (recv_loop fuel fq st)
unfolding recv_loop
recv_loop-Result zero fq st f v c =
    (nothing fq st, refl, (v, ground (arith, c), omega arith, λ i (j, lt, e). absurd (omega arith)))
recv_loop-Result (suc fuel) fq st f v c =
    let lt : fq.current < fq.active = omega (arith, v.current_lt) in
    let (x, e) = get_elem?-lt fq.pipes.items fq.current (omega (arith, v.active_le)) in
    let (out, (q, got)) = read_result (st x) in
    let later = recv_loop-Result fuel (retire fq fq.current) (put st x q) in
    elim (Option-cases out) [
      | inr (m, o) ↦
          let got' : Pipe.read (st x) ≡ some (some m, q) = ground arith in
          (
            fetched x m (after fq x m) (put st x q),
            recv_loop_fetched fuel fq st x m q e got',
            after-Ends fq st x m q e lt got' v,
          )
      | inl o ↦
          let got' : Pipe.read (st x) ≡ some (none, q) = ground arith in
          let outside = idle-outside fq st x q e got' c in
          let (r, done, ends) =
            later (ground (arith, more-retire fq fq.current)) (retire-IsValid fq fq.current lt v)
              (inl (ground (arith, more-retire fq fq.current))) in
          (
            r,
            recv_loop_next fuel fq st x q e got' outside ∙ done,
            later-Ends fq st x q r lt e outside (q, got') v ends,
          )
    ]

-- With a valid fair queue for which, inside of a message, the pipe of `current` is active and has
-- a part to read, `recvpipe` meets no failed assertion and no access out of range and ends as `Ends`
-- says: a message is what a read of an active pipe returns, and the parts of one message come from
-- one pipe; and only if no active pipe had anything to read is there none.
pub recvpipe_lem :
    (fq : Fq) (st : Store)
    → IsValid fq
    → Continues fq st
    → (r : Received) × (recvpipe fq st ≡ some r) × Ends fq st r
unfolding recvpipe
recvpipe_lem fq st v c = recv_loop-Result fq.active fq st refl v c
