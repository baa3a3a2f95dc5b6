-- ===== src/Fq/Broken.antt =====
-- fq.cpp: what becomes of a message that is read in part when a pipe terminates.
use zmq.Base.{
  ◌∙◌, ℕ, suc, ◌+◌, ◌-◌, zero, ◌<◌, ◌≡◌, ◌≢◌, arith, true, ◌&&◌, ◌==◌, ltb, same, Option, none,
  some, get_elem?, if◌then◌else◌, Bool-cases, inl, inr,
}
use zmq.Array.{erase}
use zmq.Array.Laws.{get_elem?-swap, get_elem?-lt, get_elem?-erase_at, get_elem?-some_lt}
use zmq.Lb.{Store}
use zmq.Fq.{Fq, forget_last, pipe_terminated, retire, recv_loop, recvpipe}
use zmq.Fq.Inv.{IsValid, retire-IsValid, retired_place}
use zmq.Fq.Recv.{Reads}

-- The pipe from which the next part of a message is read.
abbrev pub next_from : Fq → Option ℕ
next_from fq = get_elem? fq.pipes.items fq.current

more-pipe_terminated : (fq : Fq) (pipe : ℕ) → (pipe_terminated fq pipe).more ≡ fq.more
unfolding pipe_terminated
more-pipe_terminated fq pipe = ground arith

recv_loop-none :
    (fuel y : ℕ) (fq : Fq) (st : Store)
    → fq.more ≡ true
    → next_from fq ≡ some y
    → 0 < fuel
    → Reads (st y) none
    → recv_loop fuel fq st ≡ none
unfolding recv_loop
recv_loop-none zero y fq st inside at pos r = absurd (omega arith)
recv_loop-none (suc fuel) y fq st inside at pos (q, got) = ground arith

-- When a pipe terminates in the middle of a message, the pipe of that message for one, the fair queue
-- still waits for the next part; and if the pipe that is at `current` then is active and has nothing
-- to read, `recvpipe` runs into its failed assertion.
pub recvpipe-none :
    (fq : Fq) (pipe y : ℕ) (st : Store)
    → fq.more ≡ true
    → next_from (pipe_terminated fq pipe) ≡ some y
    → 0 < (pipe_terminated fq pipe).active
    → Reads (st y) none
    → recvpipe (pipe_terminated fq pipe) st ≡ none
unfolding recvpipe
recvpipe-none fq pipe y st inside at pos r =
    let fq' = pipe_terminated fq pipe in
    recv_loop-none fq'.active y fq' st (more-pipe_terminated fq pipe ∙ inside) at pos r

next_from-retire :
    (fq : Fq) (i x y z : ℕ)
    → next_from fq ≡ some x
    → get_elem? fq.pipes.items i ≡ some y
    → get_elem? fq.pipes.items 0 ≡ some z
    → fq.current < fq.active
    → i < fq.active
    → i ≢ fq.current
    → IsValid fq
    → ((retire fq i).current < fq.active - 1)
      × (next_from (retire fq i)
          ≡ (if fq.current + 1 == fq.active && ltb 0 i then some z else some x))
unfolding retire
next_from-retire fq i x y z ex ey ez c lt n v =
    let (w, ew) = get_elem?-lt fq.pipes.items (fq.active - 1) (omega (arith, v.active_le)) in
    (
      ground arith,
      ground (
        arith,
        get_elem?-swap fq.pipes i (fq.active - 1) fq.current y w ey ew,
        get_elem?-swap fq.pipes i (fq.active - 1) 0 y w ey ew,
      ),
    )

next_from-erase :
    (fq : Fq) (k pipe : ℕ)
    → get_elem? fq.pipes.items k ≡ some pipe
    → fq.current < k
    → IsValid fq
    → next_from (forget_last (record fq { pipes = erase fq.pipes pipe }) pipe) ≡ next_from fq
unfolding erase
next_from-erase fq k pipe e lt v =
    let at : fq.pipes.index pipe ≡ k = v.indexed.index_is k pipe e in
    let kept =
      get_elem?-erase_at fq.pipes k fq.current (get_elem?-some_lt fq.pipes.items k pipe e) lt in
    rw at
      (elim (Bool-cases (same fq.last_in (some pipe))) [ inl c ↦ rw c kept | inr c ↦ rw c kept ])

-- Where the next part of a message is read after another pipe of the array, the one at `i`, has
-- terminated. It is the same pipe `x`; except when `current` is the last of the active pipes and the
-- terminated pipe is an active one that is not the first: then it is the first pipe, `z`.
pub next_from-pipe_terminated :
    (fq : Fq) (pipe i x z : ℕ)
    → next_from fq ≡ some x
    → get_elem? fq.pipes.items i ≡ some pipe
    → get_elem? fq.pipes.items 0 ≡ some z
    → fq.current < fq.active
    → i ≢ fq.current
    → IsValid fq
    → next_from (pipe_terminated fq pipe)
      ≡ (if fq.current + 1 == fq.active && ltb 0 i && ltb i fq.active then some z else some x)
unfolding pipe_terminated
next_from-pipe_terminated fq pipe i x z ex ey ez c n v =
    let at : fq.pipes.index pipe ≡ i = v.indexed.index_is i pipe ey in
    elim (Bool-cases (ltb i fq.active)) [
      | inl active ↦
          let lt : i < fq.active = ground arith in
          let (inside, next) = next_from-retire fq i x pipe z ex ey ez c lt n v in
          let behind = retired_place fq i pipe lt ey v in
          rw (at, active)
            (next_from-erase (retire fq i) (fq.active - 1) pipe behind inside
                (retire-IsValid fq i lt v)
              ∙ next
              ∙ ground arith)
      | inr idle ↦ rw (at, idle) (next_from-erase fq i pipe ey (ground arith) v ∙ ground arith)
    ]
