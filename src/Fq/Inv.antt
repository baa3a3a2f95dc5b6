-- ===== src/Fq/Inv.antt =====
-- fq.cpp: the active pipes stand first in the array, `current` is one of them, and which pipes an
-- operation makes active or inactive.
use zmq.Base.{
  ℕ, ◌-◌, ◌≤◌, ◌<◌, ◌≡◌, ◌≢◌, ◌⊎◌, ◌↔◌, inl, inr, refl, arith, ltb, ◌==◌, same, some, length,
  get_elem?, Bool-cases, ◌∙◌, sym,
}
use zmq.Array.{Array, push_back, erase}
use zmq.Array.Laws.{
  IsIndexed, swap-IsIndexed, push_back-IsIndexed, erase_at-IsIndexed, size-swap, size-push_back,
  get_elem?-push_back, size-erase_at, get_elem?-erase_at, get_elem?-swap, get_elem?-lt,
  get_elem?-some_lt,
}
use zmq.Fq.{Fq, attach, activated, pipe_terminated, retire, forget_last}

pub record IsValid (fq : Fq) : Type 0 where
  pub indexed : IsIndexed fq.pipes
  pub active_le : fq.active ≤ length fq.pipes.items
  pub current_lt : (fq.current < fq.active) ⊎ (fq.current ≡ 0)

-- The pipe `x` is one of the active ones.
abbrev pub IsActive : Fq → ℕ → Type 0
IsActive fq x = (i : ℕ) × (i < fq.active) × (get_elem? fq.pipes.items i ≡ some x)

-- `attach` of a pipe that is not in the array yet makes it an active pipe of a valid fair queue.
pub attach_lem :
    (fq : Fq) (pipe : ℕ)
    → ((i : ℕ) → get_elem? fq.pipes.items i ≢ some pipe)
    → IsValid fq
    → IsValid (attach fq pipe) × IsActive (attach fq pipe) pipe
unfolding attach
attach_lem fq pipe new v =
    let a = push_back fq.pipes pipe in
    let grown = size-push_back fq.pipes pipe in
    let last = length a.items - 1 in
    let at : get_elem? a.items last ≡ some pipe =
      ground (arith, get_elem?-push_back fq.pipes pipe) in
    let (x, ex) = get_elem?-lt a.items fq.active (omega (arith, v.active_le)) in
    (
      record {
        indexed =
            swap-IsIndexed a fq.active last (omega (arith, v.active_le)) (omega arith)
              (push_back-IsIndexed fq.pipes pipe new v.indexed);
        active_le = omega (arith, size-swap a fq.active last, v.active_le);
        current_lt = omega (arith, v.current_lt);
      },
      (
        fq.active,
        omega arith,
        ground (arith, get_elem?-swap a fq.active last fq.active x pipe ex at),
      ),
    )

pub activated-IsValid :
    (fq : Fq) (pipe : ℕ)
    → fq.active ≤ fq.pipes.index pipe
    → fq.pipes.index pipe < length fq.pipes.items
    → IsValid fq
    → IsValid (activated fq pipe)
unfolding activated
activated-IsValid fq pipe lo hi v = record {
  indexed = swap-IsIndexed fq.pipes (fq.pipes.index pipe) fq.active hi (omega arith) v.indexed;
  active_le = omega (arith, size-swap fq.pipes (fq.pipes.index pipe) fq.active);
  current_lt = omega (arith, v.current_lt);
}

pub retire-IsValid : (fq : Fq) (i : ℕ) → i < fq.active → IsValid fq → IsValid (retire fq i)
unfolding retire
retire-IsValid fq i h v = record {
  indexed =
      swap-IsIndexed fq.pipes i (fq.active - 1) (omega (arith, v.active_le))
        (omega (arith, v.active_le)) v.indexed;
  active_le = omega (arith, size-swap fq.pipes i (fq.active - 1), v.active_le);
  current_lt = ground (arith, v.current_lt);
}

-- Two places of the array do not hold the same pipe.
pub same_place :
    (a : Array) (i j x : ℕ)
    → IsIndexed a
    → get_elem? a.items i ≡ some x
    → get_elem? a.items j ≡ some x
    → i ≡ j
same_place a i j x v e f = sym (v.index_is i x e) ∙ v.index_is j x f

-- `retire` makes the pipe at its place inactive, and no other.
pub retire-IsActive :
    (fq : Fq) (i x y : ℕ)
    → i < fq.active
    → get_elem? fq.pipes.items i ≡ some x
    → IsValid fq
    → (IsActive (retire fq i) y ↔ (IsActive fq y × (y ≢ x)))
unfolding retire
retire-IsActive fq i x y h e v =
    let (z, ez) = get_elem?-lt fq.pipes.items (fq.active - 1) (omega (arith, v.active_le)) in
    let at = λ (k : ℕ). get_elem?-swap fq.pipes i (fq.active - 1) k x z e ez in
    (
      λ (k, lt, f). elim (Bool-cases (i == k)) [
        | inl c ↦ (
          (fq.active - 1, omega arith, ground (arith, at k)),
          λ g. ground (arith, at k, same_place fq.pipes i (fq.active - 1) x v.indexed e),
        )
        | inr c ↦ (
          (k, omega arith, ground (arith, at k)),
          λ g. ground (arith, at k, same_place fq.pipes i k x v.indexed e),
        )
      ],
      λ ((k, lt, f), n). elim (Bool-cases (k == fq.active - 1)) [
        | inl c ↦ (i, ground arith, ground (arith, at i))
        | inr c ↦ (k, ground arith, ground (arith, at k))
      ],
    )

-- A pipe behind the active ones is erased.
abbrev erased : Fq → ℕ → Fq
erased fq pipe = record fq { pipes = erase fq.pipes pipe }

erased_behind :
    (fq : Fq) (k pipe y : ℕ)
    → fq.active ≤ k
    → get_elem? fq.pipes.items k ≡ some pipe
    → IsValid fq
    → IsValid (erased fq pipe) × (IsActive (erased fq pipe) y ↔ IsActive fq y)
unfolding erase
erased_behind fq k pipe y b e v =
    let at : fq.pipes.index pipe ≡ k = v.indexed.index_is k pipe e in
    let below = get_elem?-some_lt fq.pipes.items k pipe e in
    let kept = λ (j : ℕ). get_elem?-erase_at fq.pipes k j below in
    rw at (
      record {
        indexed = erase_at-IsIndexed fq.pipes k below v.indexed;
        active_le = omega (arith, size-erase_at fq.pipes k);
        current_lt = v.current_lt;
      },
      (
        λ (j, lt, f). (j, lt, sym (kept j (omega arith)) ∙ f),
        λ (j, lt, f). (j, lt, kept j (omega arith) ∙ f),
      ),
    )

forget_last-keeps :
    (P : Type 0) (fq : Fq) (pipe y : ℕ)
    → IsValid fq × (IsActive fq y ↔ P)
    → IsValid (forget_last fq pipe) × (IsActive (forget_last fq pipe) y ↔ P)
forget_last-keeps P fq pipe y (v, h) = elim (Bool-cases (same fq.last_in (some pipe))) [
  | inl e ↦
      rw e (record { indexed = v.indexed; active_le = v.active_le; current_lt = v.current_lt }, h)
  | inr e ↦ rw e (v, h)
]

-- The place of the pipe that was just retired.
pub retired_place :
    (fq : Fq) (i x : ℕ)
    → i < fq.active
    → get_elem? fq.pipes.items i ≡ some x
    → IsValid fq
    → get_elem? (retire fq i).pipes.items (fq.active - 1) ≡ some x
unfolding retire
retired_place fq i x h e v =
    let (z, ez) = get_elem?-lt fq.pipes.items (fq.active - 1) (omega (arith, v.active_le)) in
    ground (arith, get_elem?-swap fq.pipes i (fq.active - 1) (fq.active - 1) x z e ez)

active-retire : (fq : Fq) (i : ℕ) → (retire fq i).active ≡ fq.active - 1
unfolding retire
active-retire fq i = refl

-- `pipe_terminated` of a pipe of the array keeps the fair queue in order, and the active pipes are
-- then the ones that were active before, less the terminated one.
pub pipe_terminated-IsActive :
    (fq : Fq) (pipe i y : ℕ)
    → get_elem? fq.pipes.items i ≡ some pipe
    → IsValid fq
    → IsValid (pipe_terminated fq pipe)
      × (IsActive (pipe_terminated fq pipe) y ↔ (IsActive fq y × (y ≢ pipe)))
unfolding pipe_terminated
pipe_terminated-IsActive fq pipe i y e v =
    let at : fq.pipes.index pipe ≡ i = v.indexed.index_is i pipe e in
    elim (Bool-cases (ltb i fq.active)) [
      | inl c ↦
          let lt : i < fq.active = ground arith in
          let rest = retire fq i in
          let (valid, same_active) =
            erased_behind rest (fq.active - 1) pipe y (omega (arith, active-retire fq i))
              (retired_place fq i pipe lt e v) (retire-IsValid fq i lt v) in
          let less = retire-IsActive fq i pipe y lt e v in
          rw (at, c)
            (forget_last-keeps _ (erased rest pipe) pipe y
              (valid, (λ h. less.0 (same_active.0 h), λ h. same_active.1 (less.1 h))))
      | inr c ↦
          let ge : fq.active ≤ i = ground arith in
          let (valid, same_active) = erased_behind fq i pipe y ge e v in
          rw (at, c)
            (forget_last-keeps _ (erased fq pipe) pipe y (
              valid,
              (
                λ h.
                    let (j, lt, f) = same_active.0 h in
                    (
                      (j, lt, f),
                      λ g. absurd (ground (arith, same_place fq.pipes i j pipe v.indexed e)),
                    ),
                λ (h, n). same_active.1 h,
              ),
            ))
    ]
