-- ===== src/Lb/Inv.antt =====
-- lb.cpp: the active pipes stand first in the array, and `current` is one of them.
use zmq.Base.{
  ℕ, ◌-◌, ◌≤◌, ◌<◌, ◌≡◌, ◌≢◌, refl, arith, Bool, ◌&&◌, ◌||◌, ◌==◌, ltb, some, length, get_elem?,
  Bool-cases, inl, inr, ◌⊎◌,
}
use zmq.Array.{Array, push_back, erase}
use zmq.Array.Laws.{
  IsIndexed, swap-IsIndexed, push_back-IsIndexed, erase_at-IsIndexed, size-swap, size-push_back,
  get_elem?-push_back, size-erase_at, get_elem?-swap, get_elem?-lt, get_elem?-some_lt,
}
use zmq.Lb.{
  Lb, attach, activated, pipe_terminated, deactivate_at, skip, Outcome, written, no_pipe, cut_short,
}

pub record IsValid (lb : Lb) : Type 0 where
  pub indexed : IsIndexed lb.pipes
  pub active_le : lb.active ≤ length lb.pipes.items
  pub current_lt : (lb.current < lb.active) ⊎ (lb.current ≡ 0)

-- `activated` makes an inactive pipe of the array one of the active ones.
pub activated-IsValid :
    (lb : Lb) (pipe : ℕ)
    → lb.active ≤ lb.pipes.index pipe
    → lb.pipes.index pipe < length lb.pipes.items
    → IsValid lb
    → IsValid (activated lb pipe)
unfolding activated
activated-IsValid lb pipe lo hi v = record {
  indexed = swap-IsIndexed lb.pipes (lb.pipes.index pipe) lb.active hi (omega arith) v.indexed;
  active_le = omega (arith, size-swap lb.pipes (lb.pipes.index pipe) lb.active);
  current_lt = omega arith;
}

index-push_back : (a : Array) (item : ℕ) → (push_back a item).index item ≡ length a.items
unfolding push_back
index-push_back a item = ground arith

-- The pipe is one of the active ones.
abbrev pub IsActive : Lb → ℕ → Type 0
IsActive lb pipe = (i : ℕ) × (i < lb.active) × (get_elem? lb.pipes.items i ≡ some pipe)

-- `attach` of a pipe that is not in the array yet makes it an active pipe of a valid load balancer.
pub attach-IsActive :
    (lb : Lb) (pipe : ℕ)
    → ((i : ℕ) → get_elem? lb.pipes.items i ≢ some pipe)
    → IsValid lb
    → IsValid (attach lb pipe) × IsActive (attach lb pipe) pipe
unfolding attach
attach-IsActive lb pipe new v =
    let lb' : Lb = record lb { pipes = push_back lb.pipes pipe } in
    let a = push_back lb.pipes pipe in
    let at = get_elem?-push_back lb.pipes pipe in
    let stored = index-push_back lb.pipes pipe in
    let grown = size-push_back lb.pipes pipe in
    let (x, ex) = get_elem?-lt a.items lb.active (omega (arith, v.active_le)) in
    (
      activated-IsValid lb' pipe (omega (arith, v.active_le)) (omega arith) (record {
        indexed = push_back-IsIndexed lb.pipes pipe new v.indexed;
        active_le = omega (arith, v.active_le);
        current_lt = v.current_lt;
      }),
      (
        lb.active,
        omega arith,
        rw stored (
            ground
              (arith, get_elem?-swap a (length lb.pipes.items) lb.active lb.active pipe x at ex)),
      ),
    )

pub deactivate_at-IsValid : (lb : Lb) (i : ℕ) → IsValid lb → IsValid (deactivate_at lb i)
unfolding deactivate_at
deactivate_at-IsValid lb i v = elim (Bool-cases (ltb i lb.active)) [
  | inl h ↦
      rw (h, deactivate_at)
        (record {
          indexed =
              swap-IsIndexed lb.pipes i (lb.active - 1) (ground (arith, v.active_le))
                (ground (arith, v.active_le)) v.indexed;
          active_le = omega (arith, size-swap lb.pipes i (lb.active - 1), v.active_le);
          current_lt = ground (arith, v.current_lt);
        })
  | inr h ↦ rw (h, deactivate_at) v
]

pub size-deactivate_at :
    (lb : Lb) (i : ℕ) → length (deactivate_at lb i).pipes.items ≡ length lb.pipes.items
unfolding deactivate_at
size-deactivate_at lb i = ground (arith, size-swap lb.pipes i (lb.active - 1))

-- The pipe at `i` then stands behind the active ones.
pub index-deactivate_at :
    (lb : Lb) (i pipe : ℕ)
    → get_elem? lb.pipes.items i ≡ some pipe
    → IsValid lb
    → ((deactivate_at lb i).active ≤ (deactivate_at lb i).pipes.index pipe)
      × ((deactivate_at lb i).pipes.index pipe < length lb.pipes.items)
unfolding deactivate_at
index-deactivate_at lb i pipe e v = elim (Bool-cases (ltb i lb.active)) [
  | inl h ↦
      let below : i < length lb.pipes.items = get_elem?-some_lt lb.pipes.items i pipe e in
      let last : lb.active - 1 < length lb.pipes.items = ground (arith, v.active_le) in
      let (y, ey) = get_elem?-lt lb.pipes.items (lb.active - 1) last in
      let moved = swap-IsIndexed lb.pipes i (lb.active - 1) below last v.indexed in
      ground (
        arith,
        v.active_le,
        get_elem?-swap lb.pipes i (lb.active - 1) (lb.active - 1) pipe y e ey,
        moved.index_is (lb.active - 1) pipe,
      )
  | inr h ↦
      ground
        (arith, v.active_le, v.indexed.index_is i pipe e, get_elem?-some_lt lb.pipes.items i pipe e)
]

-- `pipe_terminated` of a pipe of the array keeps the load balancer in order.
pub pipe_terminated-IsValid :
    (lb : Lb) (pipe i : ℕ)
    → get_elem? lb.pipes.items i ≡ some pipe
    → IsValid lb
    → IsValid (pipe_terminated lb pipe)
unfolding pipe_terminated
pipe_terminated-IsValid lb pipe i e v =
    let index_is : lb.pipes.index pipe ≡ i = v.indexed.index_is i pipe e in
    let drops : Bool = (i == lb.current && lb.more) || lb.dropping in
    let lb' : Lb = record lb { dropping = drops } in
    let v' : IsValid lb' = record {
      indexed = v.indexed;
      active_le = v.active_le;
      current_lt = v.current_lt;
    } in
    let rest = deactivate_at-IsValid lb' i v' in
    let behind = index-deactivate_at lb' i pipe e v' in
    let same_size = size-deactivate_at lb' i in
    let at = (deactivate_at lb' i).pipes.index pipe in
    rw index_is (record {
      indexed =
          unfold erase in
          erase_at-IsIndexed (deactivate_at lb' i).pipes at (omega (arith, behind, same_size))
            rest.indexed;
      active_le =
          unfold erase in
          omega (arith, size-erase_at (deactivate_at lb' i).pipes at, behind, same_size);
      current_lt = rest.current_lt;
    })

pub skip-IsValid : (lb : Lb) → 0 < lb.active → IsValid lb → IsValid (skip lb)
skip-IsValid lb h v = elim (Bool-cases (ltb lb.current (lb.active - 1))) [
  | inl c ↦ rw c (record {
    indexed =
        swap-IsIndexed lb.pipes lb.current (lb.active - 1) (ground (arith, v.active_le))
          (ground (arith, v.active_le)) v.indexed;
    active_le = omega (arith, size-swap lb.pipes lb.current (lb.active - 1), v.active_le);
    current_lt = ground arith;
  })
  | inr c ↦ rw c (record {
    indexed = v.indexed;
    active_le = omega (arith, v.active_le);
    current_lt = inr refl;
  })
]

-- The load balancer in an outcome.
abbrev pub lb_of : Outcome → Lb
lb_of (written i lb st) = lb
lb_of (no_pipe lb st) = lb
lb_of (cut_short lb st) = lb
