-- ===== src/Lb/Broken.antt =====
-- lb.cpp: what becomes of `current` when another pipe terminates in the middle of a message.
use zmq.Base.{
  ◌∙◌, ℕ, ◌+◌, ◌-◌, ◌<◌, ◌≡◌, ◌≢◌, arith, Bool, false, ◌&&◌, ◌||◌, ◌==◌, ltb, Option, some,
  get_elem?, if◌then◌else◌,
}
use zmq.Array.{erase}
use zmq.Array.Laws.{get_elem?-swap, get_elem?-lt, get_elem?-erase_at}
use zmq.Lb.{Lb, pipe_terminated, deactivate_at}
use zmq.Lb.Inv.{IsValid, index-deactivate_at, size-deactivate_at}

-- The pipe to which the next part of a message is written.
abbrev pub next_to : Lb → Option ℕ
next_to lb = get_elem? lb.pipes.items lb.current

-- The pipe of `current` after a pipe that is not the one of `current` has left the active ones.
next_to-deactivate_at :
    (lb : Lb) (i x y z : ℕ)
    → get_elem? lb.pipes.items lb.current ≡ some x
    → get_elem? lb.pipes.items i ≡ some y
    → get_elem? lb.pipes.items 0 ≡ some z
    → lb.current < lb.active
    → i ≢ lb.current
    → IsValid lb
    → next_to (deactivate_at lb i)
      ≡ (if lb.current + 1 == lb.active && ltb 0 i && ltb i lb.active then some z else some x)
unfolding deactivate_at
next_to-deactivate_at lb i x y z ex ey ez c n v =
    let (w, ew) = get_elem?-lt lb.pipes.items (lb.active - 1) (omega (arith, v.active_le)) in
    ground (
      arith,
      get_elem?-swap lb.pipes i (lb.active - 1) lb.current y w ey ew,
      get_elem?-swap lb.pipes i (lb.active - 1) 0 y w ey ew,
    )

active-deactivate_at :
    (lb : Lb) (i : ℕ)
    → i ≢ lb.current
    → lb.current < lb.active
    → IsValid lb
    → (deactivate_at lb i).current < (deactivate_at lb i).active
unfolding deactivate_at
active-deactivate_at lb i n c v = ground arith

-- Where the next part of a message goes after another pipe of the array has terminated. It goes on
-- to the same pipe `x`; except when `current` is the last of the active pipes and the terminated
-- pipe is an active one that is not the first: then it goes to the first pipe, `z`.
pub next_to-pipe_terminated :
    (lb : Lb) (pipe i x z : ℕ)
    → get_elem? lb.pipes.items lb.current ≡ some x
    → get_elem? lb.pipes.items i ≡ some pipe
    → get_elem? lb.pipes.items 0 ≡ some z
    → lb.current < lb.active
    → i ≢ lb.current
    → lb.dropping ≡ false
    → IsValid lb
    → ((pipe_terminated lb pipe).dropping ≡ false)
      × (next_to (pipe_terminated lb pipe)
          ≡ (if lb.current + 1 == lb.active && ltb 0 i && ltb i lb.active then some z else some x))
unfolding pipe_terminated
next_to-pipe_terminated lb pipe i x z ex ey ez c n d v =
    let index_is : lb.pipes.index pipe ≡ i = v.indexed.index_is i pipe ey in
    let drops : Bool = (i == lb.current && lb.more) || lb.dropping in
    let lb' : Lb = record lb { dropping = drops } in
    let v' : IsValid lb' = record {
      indexed = v.indexed;
      active_le = v.active_le;
      current_lt = v.current_lt;
    } in
    let rest = deactivate_at lb' i in
    let (lo, hi) = index-deactivate_at lb' i pipe ey v' in
    let same_size = size-deactivate_at lb' i in
    let inside = active-deactivate_at lb' i n c v' in
    let at = rest.pipes.index pipe in
    let kept = get_elem?-erase_at rest.pipes at rest.current (omega arith) (omega arith) in
    rw index_is (
      unfold deactivate_at in ground arith,
      unfold erase in (kept ∙ next_to-deactivate_at lb' i x pipe z ex ey ez c n v'),
    )
