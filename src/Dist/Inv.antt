-- ===== src/Dist/Inv.antt =====
-- dist.cpp: the matching, the active and the eligible pipes stand in this order at the start of the
-- array.
use zmq.Base.{
  ℕ, zero, suc, ◌+◌, ◌-◌, ◌≤◌, ◌<◌, ◌≡◌, refl, arith, true, false, ltb, some, length, get_elem?,
  Bool-cases, inl, inr, if◌then◌else◌,
}
use zmq.Msg.{Msg, has_more}
use zmq.Lb.{Store}
use zmq.Array.{Array}
use zmq.Array.Laws.{IsIndexed, swap-IsIndexed, size-swap, get_elem?-swap, get_elem?-lt}
use zmq.Dist.{Dist, retreat, give_up, write, distribute_loop, sent}

pub record IsValid (d : Dist) : Type 0 where
  pub indexed : IsIndexed d.pipes
  pub matching_le : d.matching ≤ d.active
  pub active_le : d.active ≤ d.eligible
  pub eligible_le : d.eligible ≤ length d.pipes.items

-- A pipe among the first `n` goes to their end.
pub retreat_lem :
    (a : Array) (i n pipe : ℕ)
    → get_elem? a.items i ≡ some pipe
    → i < n
    → n ≤ length a.items
    → IsIndexed a
    → IsIndexed (retreat a pipe n)
      × (length (retreat a pipe n).items ≡ length a.items)
      × (get_elem? (retreat a pipe n).items (n - 1) ≡ some pipe)
retreat_lem a i n pipe e lt le v =
    let at : a.index pipe ≡ i = v.index_is i pipe e in
    let (z, ez) = get_elem?-lt a.items (n - 1) (omega arith) in
    rw at (
      swap-IsIndexed a i (n - 1) (omega arith) (omega arith) v,
      size-swap a i (n - 1),
      ground (arith, get_elem?-swap a i (n - 1) (n - 1) pipe z e ez),
    )

pub give_up-IsValid :
    (d : Dist) (i pipe : ℕ)
    → get_elem? d.pipes.items i ≡ some pipe
    → i < d.matching
    → IsValid d
    → IsValid (give_up d pipe)
unfolding give_up
give_up-IsValid d i pipe e lt v =
    let (v1, s1, e1) =
      retreat_lem d.pipes i d.matching pipe e lt
        (omega (arith, v.matching_le, v.active_le, v.eligible_le)) v.indexed in
    let a1 = retreat d.pipes pipe d.matching in
    let (v2, s2, e2) =
      retreat_lem a1 (d.matching - 1) d.active pipe e1 (omega (arith, v.matching_le))
        (omega (arith, v.active_le, v.eligible_le)) v1 in
    let a2 = retreat a1 pipe d.active in
    record {
      indexed =
          swap-IsIndexed a2 (d.active - 1) (d.eligible - 1)
            (omega (arith, v.matching_le, v.active_le, v.eligible_le))
            (omega (arith, v.matching_le, v.active_le, v.eligible_le)) v2;
      matching_le = omega (arith, v.matching_le);
      active_le = omega (arith, v.active_le);
      eligible_le = omega (arith, v.eligible_le, size-swap a2 (d.active - 1) (d.eligible - 1));
    }

pub loop_over :
    (fuel i : ℕ) (d : Dist) (st : Store) (m : Msg)
    → ltb i d.matching ≡ false
    → distribute_loop fuel i d st m ≡ some (d, st)
unfolding distribute_loop
loop_over zero i d st m h = rw h refl
loop_over (suc fuel) i d st m h = rw (distribute_loop, h) refl

pub loop_more :
    (fuel i pipe : ℕ) (d : Dist) (st : Store) (m : Msg)
    → ltb i d.matching ≡ true
    → get_elem? d.pipes.items i ≡ some pipe
    → let w = write d st pipe m in
      distribute_loop (suc fuel) i d st m
      ≡ distribute_loop fuel (if w.0 then i + 1 else i) w.1 w.2 m
unfolding distribute_loop
loop_more fuel i pipe d st m h e = rw (distribute_loop, h, e) refl

pub sent-IsValid : (m : Msg) (d : Dist) → IsValid d → IsValid (sent m d)
sent-IsValid m d v = elim (Bool-cases (has_more m)) [
  | inl e ↦ rw e (record {
    indexed = v.indexed;
    matching_le = v.matching_le;
    active_le = v.active_le;
    eligible_le = v.eligible_le;
  })
  | inr e ↦ rw e (record {
    indexed = v.indexed;
    matching_le = omega (arith, v.matching_le, v.active_le);
    active_le = omega arith;
    eligible_le = v.eligible_le;
  })
]
