-- ===== src/Dist/Leave.antt =====
-- dist.cpp: a pipe that terminates.
use zmq.Base.{ℕ, ◌-◌, ◌<◌, ◌≡◌, ◌≢◌, sym, ◌∙◌, arith, some, get_elem?, ltb, Bool-cases, inl, inr}
use zmq.Array.{erase, erase_at}
use zmq.Array.Laws.{erase_at-IsIndexed, size-erase_at, get_elem?-some_lt, get_elem?-erase_at}
use zmq.Dist.{Dist, leave_matching, leave_active, leave_eligible, pipe_terminated}
use zmq.Dist.Inv.{IsValid, retreat_lem}
use zmq.Dist.Places.{IsOut, place_unique, erase-behind}
use zmq.Dist.Parts.{
  IsBehind, SameParts, SameParts-trans, leave_matching-SameParts, leave_active-SameParts,
  leave_eligible-SameParts,
}

leave_matching-IsValid :
    (d : Dist) (i pipe : ℕ)
    → get_elem? d.pipes.items i ≡ some pipe
    → IsValid d
    → IsValid (leave_matching d pipe)
      × IsBehind (leave_matching d pipe).pipes pipe (leave_matching d pipe).matching
leave_matching-IsValid d i pipe e v =
    let at : d.pipes.index pipe ≡ i = v.indexed.index_is i pipe e in
    elim (Bool-cases (ltb (d.pipes.index pipe) d.matching)) [
      | inl c ↦
          let (v1, s1, e1) =
            retreat_lem d.pipes i d.matching pipe e (ground arith)
              (omega (arith, v.matching_le, v.active_le, v.eligible_le)) v.indexed in
          rw c (
            record {
              indexed = v1;
              matching_le = omega (arith, v.matching_le);
              active_le = v.active_le;
              eligible_le = omega (arith, v.eligible_le);
            },
            (d.matching - 1, e1, omega arith),
          )
      | inr c ↦ rw c (v, (i, e, ground arith))
    ]

leave_active-IsValid :
    (d : Dist) (pipe : ℕ)
    → IsBehind d.pipes pipe d.matching
    → IsValid d
    → IsValid (leave_active d pipe)
      × IsBehind (leave_active d pipe).pipes pipe (leave_active d pipe).active
leave_active-IsValid d pipe (i, e, ge) v =
    let at : d.pipes.index pipe ≡ i = v.indexed.index_is i pipe e in
    elim (Bool-cases (ltb (d.pipes.index pipe) d.active)) [
      | inl c ↦
          let lt : i < d.active = ground arith in
          let (v1, s1, e1) =
            retreat_lem d.pipes i d.active pipe e lt (omega (arith, v.active_le, v.eligible_le))
              v.indexed in
          rw c (
            record {
              indexed = v1;
              matching_le = omega (arith, v.matching_le);
              active_le = omega (arith, v.active_le);
              eligible_le = omega (arith, v.eligible_le);
            },
            (d.active - 1, e1, omega arith),
          )
      | inr c ↦ rw c (v, (i, e, ground arith))
    ]

leave_eligible-IsValid :
    (d : Dist) (pipe : ℕ)
    → IsBehind d.pipes pipe d.active
    → IsValid d
    → IsValid (leave_eligible d pipe)
      × IsBehind (leave_eligible d pipe).pipes pipe (leave_eligible d pipe).eligible
leave_eligible-IsValid d pipe (i, e, ge) v =
    let at : d.pipes.index pipe ≡ i = v.indexed.index_is i pipe e in
    elim (Bool-cases (ltb (d.pipes.index pipe) d.eligible)) [
      | inl c ↦
          let lt : i < d.eligible = ground arith in
          let (v1, s1, e1) = retreat_lem d.pipes i d.eligible pipe e lt v.eligible_le v.indexed in
          rw c (
            record {
              indexed = v1;
              matching_le = v.matching_le;
              active_le = omega (arith, v.active_le);
              eligible_le = omega (arith, v.eligible_le);
            },
            (d.eligible - 1, e1, omega arith),
          )
      | inr c ↦ rw c (v, (i, e, ground arith))
    ]

erase-IsValid :
    (d : Dist) (pipe : ℕ)
    → IsBehind d.pipes pipe d.eligible
    → IsValid d
    → IsValid (record d { pipes = erase d.pipes pipe })
unfolding erase
erase-IsValid d pipe (k, e, ge) v =
    let at : d.pipes.index pipe ≡ k = v.indexed.index_is k pipe e in
    let below = get_elem?-some_lt d.pipes.items k pipe e in
    rw at (record {
      indexed = erase_at-IsIndexed d.pipes k below v.indexed;
      matching_le = v.matching_le;
      active_le = v.active_le;
      eligible_le = omega (arith, size-erase_at d.pipes k);
    })

erase-SameParts :
    (d : Dist) (pipe x : ℕ)
    → IsBehind d.pipes pipe d.eligible
    → IsValid d
    → SameParts x d (record d { pipes = erase d.pipes pipe })
unfolding erase
erase-SameParts d pipe x (k, e, ge) v =
    let at : d.pipes.index pipe ≡ k = v.indexed.index_is k pipe e in
    let below = get_elem?-some_lt d.pipes.items k pipe e in
    let m_le = v.matching_le in
    let a_le = v.active_le in
    rw at (
      erase-behind d.pipes k d.matching x below (omega arith),
      erase-behind d.pipes k d.active x below (omega arith),
      erase-behind d.pipes k d.eligible x below (omega arith),
    )

erase-IsOut :
    (d : Dist) (pipe : ℕ)
    → IsBehind d.pipes pipe d.eligible
    → IsValid d
    → IsOut (erase d.pipes pipe) pipe d.eligible
unfolding erase
erase-IsOut d pipe (k, e, ge) v j lt f =
    let at : d.pipes.index pipe ≡ k = v.indexed.index_is k pipe e in
    let below = get_elem?-some_lt d.pipes.items k pipe e in
    let g : get_elem? (erase_at d.pipes k).items j ≡ some pipe = rw at at f in
    let there = sym (get_elem?-erase_at d.pipes k j below (omega arith)) ∙ g in
    omega (arith, place_unique d.pipes j k pipe v.indexed there e)

-- `pipe_terminated` of a pipe of the array, in whichever of its four parts the pipe stands, leaves a valid
-- distributor without an access out of range: the pipe is in none of the three counts any more, and every other
-- pipe matches, is active and is eligible exactly if it did and was before.
pub pipe_terminated_lem :
    (d : Dist) (i pipe : ℕ)
    → get_elem? d.pipes.items i ≡ some pipe
    → IsValid d
    → let d' = pipe_terminated d pipe in
      IsValid d' × IsOut d'.pipes pipe d'.eligible × ((x : ℕ) → x ≢ pipe → SameParts x d d')
unfolding pipe_terminated
pipe_terminated_lem d i pipe e v =
    let d1 = leave_matching d pipe in
    let d2 = leave_active d1 pipe in
    let d3 = leave_eligible d2 pipe in
    let (v1, b1) = leave_matching-IsValid d i pipe e v in
    let (v2, b2) = leave_active-IsValid d1 pipe b1 v1 in
    let (v3, b3) = leave_eligible-IsValid d2 pipe b2 v2 in
    (
      erase-IsValid d3 pipe b3 v3,
      erase-IsOut d3 pipe b3 v3,
      λ x n.
          SameParts-trans x d d3 (record d3 { pipes = erase d3.pipes pipe })
            (SameParts-trans x d d2 d3
              (SameParts-trans x d d1 d2 (leave_matching-SameParts d i pipe x e v n)
                (leave_active-SameParts d1 pipe x b1 v1 n))
              (leave_eligible-SameParts d2 pipe x b2 v2 n))
            (erase-SameParts d3 pipe x b3 v3),
    )
