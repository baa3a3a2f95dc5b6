-- ===== src/Dist/GiveUp.antt =====
-- dist.cpp: the places of the pipes after one has refused a message.
use zmq.Base.{
  ℕ, ◌+◌, ◌-◌, ◌<◌, ◌≤◌, ◌≡◌, ◌≢◌, ap, ◌∙◌, arith, ◌==◌, some, length, get_elem?, if◌then◌else◌,
}
use zmq.Array.{Array}
use zmq.Array.Laws.{IsIndexed, get_elem?-swap, get_elem?-lt}
use zmq.Dist.{Dist, retreat, give_up}
use zmq.Dist.Inv.{IsValid, retreat_lem, give_up-IsValid}
use zmq.Dist.Places.{IsIn, swap-IsIn, place_unique}

-- What `retreat` leaves at a place before the last of the `n`: what was there, or at the pipe's own place
-- the last one.
get_elem?-retreat :
    (a : Array) (i n pipe k : ℕ)
    → get_elem? a.items i ≡ some pipe
    → i < n
    → n ≤ length a.items
    → IsIndexed a
    → k + 1 < n
    → get_elem? (retreat a pipe n).items k ≡ get_elem? a.items (if i == k then n - 1 else k)
get_elem?-retreat a i n pipe k e lt le v h =
    let at : a.index pipe ≡ i = v.index_is i pipe e in
    let (z, ez) = get_elem?-lt a.items (n - 1) (omega arith) in
    rw at (ground (arith, get_elem?-swap a i (n - 1) k pipe z e ez))

pub get_elem?-give_up :
    (d : Dist) (i pipe k : ℕ)
    → get_elem? d.pipes.items i ≡ some pipe
    → i < d.matching
    → IsValid d
    → k + 1 < d.matching
    → get_elem? (give_up d pipe).pipes.items k
      ≡ get_elem? d.pipes.items (if i == k then d.matching - 1 else k)
unfolding give_up
get_elem?-give_up d i pipe k e lt v h =
    let (v1, s1, e1) =
      retreat_lem d.pipes i d.matching pipe e lt
        (omega (arith, v.matching_le, v.active_le, v.eligible_le)) v.indexed in
    let a1 = retreat d.pipes pipe d.matching in
    let (v2, s2, e2) =
      retreat_lem a1 (d.matching - 1) d.active pipe e1 (omega (arith, v.matching_le))
        (omega (arith, v.active_le, v.eligible_le)) v1 in
    let a2 = retreat a1 pipe d.active in
    let (y, ey) =
      get_elem?-lt a2.items (d.eligible - 1)
        (omega (arith, v.matching_le, v.active_le, v.eligible_le)) in
    let first =
      get_elem?-retreat d.pipes i d.matching pipe k e lt
        (omega (arith, v.matching_le, v.active_le, v.eligible_le)) v.indexed h in
    let second =
      get_elem?-retreat a1 (d.matching - 1) d.active pipe k e1 (omega (arith, v.matching_le))
        (omega (arith, v.active_le, v.eligible_le)) v1 (omega (arith, v.matching_le)) in
    let third = get_elem?-swap a2 (d.active - 1) (d.eligible - 1) k pipe y e2 ey in
    ground (arith, first, second, third, v.matching_le, v.active_le, v.eligible_le)

-- What `give_up` leaves among the eligible pipes was there, and is another pipe.
pub give_up-IsOut :
    (d : Dist) (i pipe k x : ℕ)
    → get_elem? d.pipes.items i ≡ some pipe
    → i < d.matching
    → IsValid d
    → k + 1 < d.eligible
    → get_elem? (give_up d pipe).pipes.items k ≡ some x
    → IsIn d.pipes x d.eligible × (x ≢ pipe)
unfolding give_up
give_up-IsOut d i pipe k x e lt v h f =
    let m_le = v.matching_le in
    let a_le = v.active_le in
    let e_le = v.eligible_le in
    let at : d.pipes.index pipe ≡ i = v.indexed.index_is i pipe e in
    let (v1, s1, e1) =
      retreat_lem d.pipes i d.matching pipe e lt (omega (arith, m_le, a_le, e_le)) v.indexed in
    let a1 = retreat d.pipes pipe d.matching in
    let at1 : a1.index pipe ≡ d.matching - 1 = v1.index_is (d.matching - 1) pipe e1 in
    let (v2, s2, e2) =
      retreat_lem a1 (d.matching - 1) d.active pipe e1 (omega (arith, m_le))
        (omega (arith, a_le, e_le)) v1 in
    let a2 = retreat a1 pipe d.active in
    let (y, ey) = get_elem?-lt a2.items (d.eligible - 1) (omega (arith, m_le, a_le, e_le)) in
    let (k2, l2, f2) =
      swap-IsIn a2 (d.active - 1) (d.eligible - 1) k d.eligible x (omega (arith, m_le, a_le))
        (omega (arith, m_le, a_le)) (omega arith) (omega arith) f in
    let (k1, l1, f1) =
      swap-IsIn a1 (a1.index pipe) (d.active - 1) k2 d.eligible x (omega (arith, m_le, a_le))
        (omega (arith, m_le, a_le)) (omega arith) l2 f2 in
    let inside =
      swap-IsIn d.pipes (d.pipes.index pipe) (d.matching - 1) k1 d.eligible x
        (omega (arith, m_le, a_le)) (omega (arith, m_le, a_le)) (omega arith) l1 f1 in
    let v3 = give_up-IsValid d i pipe e lt v in
    let last = get_elem?-swap a2 (d.active - 1) (d.eligible - 1) (d.eligible - 1) pipe y e2 ey in
    let there : get_elem? (give_up d pipe).pipes.items (d.eligible - 1) ≡ some pipe =
      ground (arith, last) in
    (
      inside,
      λ same. ground (
        arith,
        place_unique (give_up d pipe).pipes k (d.eligible - 1) pipe v3.indexed (f ∙ ap some same)
            there,
      ),
    )
