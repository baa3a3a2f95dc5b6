-- ===== src/Dist/Places.antt =====
-- dist.cpp: the pipes among the first ones of the array, after swaps and an erase.
use zmq.Base.{
  ℕ, ◌-◌, ◌<◌, ◌≤◌, ◌≡◌, ◌≢◌, ◌⊎◌, refl, sym, ◌∙◌, arith, true, false, ◌==◌, some, length,
  get_elem?, Bool-cases, inl, inr, ◌↔◌,
}
use zmq.Array.{Array, erase_at, swap}
use zmq.Array.Laws.{IsIndexed, get_elem?-swap, get_elem?-lt, get_elem?-erase_at}

-- A pipe stands among the first `n` of the array, or it does not.
abbrev pub IsIn : Array → ℕ → ℕ → Type 0
IsIn a x n = (k : ℕ) × (k < n) × (get_elem? a.items k ≡ some x)

abbrev pub IsOut : Array → ℕ → ℕ → Type 0
IsOut a x n = (k : ℕ) → k < n → get_elem? a.items k ≢ some x

-- An item that stands among the first `n` after a swap of two of them was there before.
pub swap-IsIn :
    (a : Array) (i j k n x : ℕ)
    → i < n
    → j < n
    → n ≤ length a.items
    → k < n
    → get_elem? (swap a i j).items k ≡ some x
    → IsIn a x n
swap-IsIn a i j k n x hi hj le hk e =
    let (y, ey) = get_elem?-lt a.items i (omega arith) in
    let (z, ez) = get_elem?-lt a.items j (omega arith) in
    let left = get_elem?-swap a i j k y z ey ez in
    elim (Bool-cases (j == k)) [
      | inl c ↦ (i, hi, ey ∙ ground (arith, left, e, c))
      | inr c ↦ elim (Bool-cases (i == k)) [
        | inl f ↦ (j, hj, ez ∙ ground (arith, left, e, c, f))
        | inr f ↦ (k, hk, ground (arith, left, e, c, f))
      ]
    ]

-- Two places with one item are one place.
pub place_unique :
    (a : Array) (j k x : ℕ)
    → IsIndexed a
    → get_elem? a.items j ≡ some x
    → get_elem? a.items k ≡ some x
    → j ≡ k
place_unique a j k x v e f = sym (v.index_is j x e) ∙ v.index_is k x f

-- A place that a swap of two others leaves alone.
swap-other :
    (a : Array) (i j k : ℕ)
    → i < length a.items
    → j < length a.items
    → k ≢ i
    → k ≢ j
    → get_elem? (swap a i j).items k ≡ get_elem? a.items k
swap-other a i j k hi hj ni nj =
    let (y, ey) = get_elem?-lt a.items i hi in
    let (z, ez) = get_elem?-lt a.items j hj in
    let left = get_elem?-swap a i j k y z ey ez in
    let c : (i == k) ≡ false = ground (arith, ni) in
    let f : (j == k) ≡ false = ground (arith, nj) in left ∙ rw (c, f) refl

-- A swap of two places from `n` on.
pub swap-behind :
    (a : Array) (i j n x : ℕ)
    → i < length a.items
    → j < length a.items
    → n ≤ i
    → n ≤ j
    → IsIn a x n ↔ IsIn (swap a i j) x n
swap-behind a i j n x hi hj li lj = (
  λ (k, lt, e). (k, lt, swap-other a i j k hi hj (omega arith) (omega arith) ∙ e),
  λ (k, lt, e). (k, lt, sym (swap-other a i j k hi hj (omega arith) (omega arith)) ∙ e),
)

-- A swap of two places before `n`.
pub swap-within :
    (a : Array) (i j n x : ℕ)
    → i < n
    → j < n
    → n ≤ length a.items
    → IsIn a x n ↔ IsIn (swap a i j) x n
swap-within a i j n x hi hj le = (
  λ (k, lt, e). forward k lt e (Bool-cases (k == i)) (Bool-cases (k == j)),
  λ (k, lt, e). swap-IsIn a i j k n x hi hj le lt e,
)
  where
    forward :
        (k : ℕ)
        → k < n
        → get_elem? a.items k ≡ some x
        → ((k == i) ≡ true) ⊎ ((k == i) ≡ false)
        → ((k == j) ≡ true) ⊎ ((k == j) ≡ false)
        → IsIn (swap a i j) x n
    forward k lt e (inl c) f =
        let (z, ez) = get_elem?-lt a.items j (omega arith) in
        let same : i ≡ k = ground arith in
        let at : get_elem? a.items i ≡ some x = rw same e in
        (j, hj, ground (arith, get_elem?-swap a i j j x z at ez))
    forward k lt e (inr c) (inl f) =
        let (y, ey) = get_elem?-lt a.items i (omega arith) in
        let same : j ≡ k = ground arith in
        let at : get_elem? a.items j ≡ some x = rw same e in
        let apart : (j == i) ≡ false = rw same c in
        (i, hi, ground (arith, get_elem?-swap a i j i y x ey at, apart))
    forward k lt e (inr c) (inr f) =
        (k, lt, swap-other a i j k (omega arith) (omega arith) (ground arith) (ground arith) ∙ e)

-- Of the first `n`, the pipe at `i` goes: the others are the first `n - 1` then.
pub swap-last :
    (a : Array) (i n pipe x : ℕ)
    → get_elem? a.items i ≡ some pipe
    → i < n
    → n ≤ length a.items
    → x ≢ pipe
    → IsIn a x n ↔ IsIn (swap a i (n - 1)) x (n - 1)
swap-last a i n pipe x at lt le apart = (
  λ (k, l, e). forward k l e (Bool-cases (k == n - 1)),
  λ (k, l, e). swap-IsIn a i (n - 1) k n x lt (omega arith) le (omega arith) e,
)
  where
    elsewhere : (k : ℕ) → get_elem? a.items k ≡ some x → k ≢ i
    elsewhere k e same =
        let there : get_elem? a.items k ≡ some pipe = rw same at in apart (ground (arith, e, there))

    forward :
        (k : ℕ)
        → k < n
        → get_elem? a.items k ≡ some x
        → ((k == n - 1) ≡ true) ⊎ ((k == n - 1) ≡ false)
        → IsIn (swap a i (n - 1)) x (n - 1)
    forward k l e (inl c) =
        let same : n - 1 ≡ k = ground arith in
        let at_last : get_elem? a.items (n - 1) ≡ some x = rw same e in
        let apart_i : n - 1 ≢ i = elsewhere (n - 1) at_last in
        (
          i,
          omega (arith, apart_i),
          ground (arith, apart_i, get_elem?-swap a i (n - 1) i pipe x at at_last),
        )
    forward k l e (inr c) = (
      k,
      ground arith,
      swap-other a i (n - 1) k (omega arith) (omega arith) (elsewhere k e) (ground arith) ∙ e,
    )

-- What stands before the gap stays.
pub erase-behind :
    (a : Array) (k n x : ℕ) → k < length a.items → n ≤ k → IsIn a x n ↔ IsIn (erase_at a k) x n
erase-behind a k n x below le = (
  λ (j, lt, e). (j, lt, get_elem?-erase_at a k j below (omega arith) ∙ e),
  λ (j, lt, e). (j, lt, sym (get_elem?-erase_at a k j below (omega arith)) ∙ e),
)
