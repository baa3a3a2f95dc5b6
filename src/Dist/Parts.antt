-- ===== src/Dist/Parts.antt =====
-- dist.cpp: the steps of `pipe_terminated` leave the other pipes where they belong.
use zmq.Base.{ℕ, ◌-◌, ◌<◌, ◌≤◌, ◌≡◌, ◌≢◌, arith, some, get_elem?, ltb, Bool-cases, inl, inr, ◌↔◌}
use zmq.Array.{Array}
use zmq.Dist.{Dist, leave_matching, leave_active, leave_eligible}
use zmq.Dist.Inv.{IsValid}
use zmq.Dist.Places.{IsIn, swap-behind, swap-within, swap-last}

-- The pipe stands at a place behind the first `n`.
abbrev pub IsBehind : Array → ℕ → ℕ → Type 0
IsBehind a pipe n = (k : ℕ) × (get_elem? a.items k ≡ some pipe) × (n ≤ k)

-- A pipe stands among the matching, the active and the eligible pipes of both distributors, or of none.
abbrev pub SameParts : ℕ → Dist → Dist → Type 0
SameParts x d d' =
    (IsIn d.pipes x d.matching ↔ IsIn d'.pipes x d'.matching)
    × (IsIn d.pipes x d.active ↔ IsIn d'.pipes x d'.active)
    × (IsIn d.pipes x d.eligible ↔ IsIn d'.pipes x d'.eligible)

SameParts-refl : (x : ℕ) (d : Dist) → SameParts x d d
SameParts-refl x d = ((λ y. y, λ y. y), (λ y. y, λ y. y), (λ y. y, λ y. y))

pub SameParts-trans : (x : ℕ) (d e f : Dist) → SameParts x d e → SameParts x e f → SameParts x d f
SameParts-trans x d e f (m, a, l) (m', a', l') = (
  (λ y. m'.0 (m.0 y), λ y. m.1 (m'.1 y)),
  (λ y. a'.0 (a.0 y), λ y. a.1 (a'.1 y)),
  (λ y. l'.0 (l.0 y), λ y. l.1 (l'.1 y)),
)

pub leave_matching-SameParts :
    (d : Dist) (i pipe x : ℕ)
    → get_elem? d.pipes.items i ≡ some pipe
    → IsValid d
    → x ≢ pipe
    → SameParts x d (leave_matching d pipe)
leave_matching-SameParts d i pipe x e v n =
    let j = d.pipes.index pipe in
    let at : j ≡ i = v.indexed.index_is i pipe e in
    let here : get_elem? d.pipes.items j ≡ some pipe = rw at e in
    let m_le = v.matching_le in
    let a_le = v.active_le in
    let e_le = v.eligible_le in
    elim (Bool-cases (ltb j d.matching)) [
      | inl c ↦
          let lt : j < d.matching = ground arith in
          rw c (
            swap-last d.pipes j d.matching pipe x here lt (omega arith) n,
            swap-within d.pipes j (d.matching - 1) d.active x (omega arith) (omega arith)
                (omega arith),
            swap-within d.pipes j (d.matching - 1) d.eligible x (omega arith) (omega arith)
                (omega arith),
          )
      | inr c ↦ rw c (SameParts-refl x d)
    ]

pub leave_active-SameParts :
    (d : Dist) (pipe x : ℕ)
    → IsBehind d.pipes pipe d.matching
    → IsValid d
    → x ≢ pipe
    → SameParts x d (leave_active d pipe)
leave_active-SameParts d pipe x (i, e, ge) v n =
    let j = d.pipes.index pipe in
    let at : j ≡ i = v.indexed.index_is i pipe e in
    let here : get_elem? d.pipes.items j ≡ some pipe = rw at e in
    let a_le = v.active_le in
    let e_le = v.eligible_le in
    elim (Bool-cases (ltb j d.active)) [
      | inl c ↦
          let lt : j < d.active = ground arith in
          rw c (
            swap-behind d.pipes j (d.active - 1) d.matching x (omega arith) (omega arith)
                (omega arith) (omega arith),
            swap-last d.pipes j d.active pipe x here lt (omega arith) n,
            swap-within d.pipes j (d.active - 1) d.eligible x (omega arith) (omega arith)
                (omega arith),
          )
      | inr c ↦ rw c (SameParts-refl x d)
    ]

pub leave_eligible-SameParts :
    (d : Dist) (pipe x : ℕ)
    → IsBehind d.pipes pipe d.active
    → IsValid d
    → x ≢ pipe
    → SameParts x d (leave_eligible d pipe)
leave_eligible-SameParts d pipe x (i, e, ge) v n =
    let j = d.pipes.index pipe in
    let at : j ≡ i = v.indexed.index_is i pipe e in
    let here : get_elem? d.pipes.items j ≡ some pipe = rw at e in
    let m_le = v.matching_le in
    let e_le = v.eligible_le in
    elim (Bool-cases (ltb j d.eligible)) [
      | inl c ↦
          let lt : j < d.eligible = ground arith in
          rw c (
            swap-behind d.pipes j (d.eligible - 1) d.matching x (omega arith) (omega arith)
                (omega arith) (omega arith),
            swap-behind d.pipes j (d.eligible - 1) d.active x (omega arith) (omega arith)
                (omega arith) (omega arith),
            swap-last d.pipes j d.eligible pipe x here lt (omega arith) n,
          )
      | inr c ↦ rw c (SameParts-refl x d)
    ]
