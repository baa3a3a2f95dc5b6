-- ===== src/Array/Laws.antt =====
-- array.hpp: every item stores the index at which it stands.
use zmq.Base.{
  ℕ, zero, suc, ◌+◌, ◌-◌, ◌<◌, ◌≡◌, ◌≢◌, refl, arith, false, ◌==◌, none, some, List, [], ◌∷◌, ◌++◌,
  if◌then◌else◌, length, get_elem?, set, get_last?, drop_last, Option-cases, inl, inr, length-set,
  length-append, length-drop_last,
}
use zmq.Array.{Array, push_back, erase_at, swap}

pub record IsIndexed (a : Array) : Type 0 where
  pub index_is : (i x : ℕ) → get_elem? a.items i ≡ some x → a.index x ≡ i
  -- No access was out of range.
  pub intact : a.failed ≡ false

pub get_elem?-some_lt :
    {A : Type 0} (xs : List A) (i : ℕ) (x : A) → get_elem? xs i ≡ some x → i < length xs
get_elem?-some_lt [] i x e = absurd (ground arith)
get_elem?-some_lt (y ∷ xs) zero x e = omega arith
get_elem?-some_lt (y ∷ xs) (suc i) x e = omega (arith, get_elem?-some_lt xs i x e)

pub get_elem?-lt :
    {A : Type 0} (xs : List A) (i : ℕ) → i < length xs → (x : A) × (get_elem? xs i ≡ some x)
get_elem?-lt [] i h = absurd (omega arith)
get_elem?-lt (y ∷ xs) zero h = (y, refl)
get_elem?-lt (y ∷ xs) (suc i) h = get_elem?-lt xs i (omega arith)

pub get_elem?-set :
    {A : Type 0} (xs : List A) (i j : ℕ) (v : A)
    → i < length xs
    → get_elem? (set xs i v) j ≡ (if i == j then some v else get_elem? xs j)
get_elem?-set [] i j v h = absurd (omega arith)
get_elem?-set (x ∷ xs) zero zero v h = refl
get_elem?-set (x ∷ xs) zero (suc j) v h = ground arith
get_elem?-set (x ∷ xs) (suc i) zero v h = ground arith
get_elem?-set (x ∷ xs) (suc i) (suc j) v h = ground (arith, get_elem?-set xs i j v)

get_elem?-append_last :
    {A : Type 0} (xs : List A) (y : A) (j : ℕ)
    → get_elem? (xs ++ y ∷ []) j ≡ (if j == length xs then some y else get_elem? xs j)
get_elem?-append_last [] y zero = refl
get_elem?-append_last [] y (suc j) = ground arith
get_elem?-append_last (x ∷ xs) y zero = ground arith
get_elem?-append_last (x ∷ xs) y (suc j) = ground (arith, get_elem?-append_last xs y j)

get_elem?-drop_last :
    {A : Type 0} (xs : List A) (j : ℕ) (x : A)
    → get_elem? (drop_last xs) j ≡ some x
    → (get_elem? xs j ≡ some x) × (j + 1 < length xs)
get_elem?-drop_last [] j x e = absurd (ground arith)
get_elem?-drop_last (y ∷ []) j x e = absurd (ground arith)
get_elem?-drop_last (y ∷ z ∷ xs) zero x e = (e, omega arith)
get_elem?-drop_last (y ∷ z ∷ xs) (suc j) x e =
    let (f, h) = get_elem?-drop_last (z ∷ xs) j x e in (f, omega arith)

get_last?-get_elem? :
    {A : Type 0} (xs : List A) (x : A)
    → get_last? xs ≡ some x
    → get_elem? xs (length xs - 1) ≡ some x
get_last?-get_elem? [] x e = absurd (ground arith)
get_last?-get_elem? (y ∷ []) x e = e
get_last?-get_elem? (y ∷ z ∷ xs) x e = ground (arith, get_last?-get_elem? (z ∷ xs) x e)

none_last : {A : Type 0} (xs : List A) → get_last? xs ≡ none → length xs ≡ 0
none_last [] e = refl
none_last (x ∷ []) e = absurd (ground arith)
none_last (x ∷ y ∷ xs) e = absurd (ground (arith, none_last (y ∷ xs) e))

-- `swap` exchanges the two places, and keeps the stored indices right.
pub swap-IsIndexed :
    (a : Array) (i j : ℕ)
    → i < length a.items
    → j < length a.items
    → IsIndexed a
    → IsIndexed (swap a i j)
unfolding swap
swap-IsIndexed a i j hi hj v =
    let (x, ex) = get_elem?-lt a.items i hi in
    let (y, ey) = get_elem?-lt a.items j hj in
    record {
      index_is = λ k z e. ground (
        arith,
        get_elem?-set a.items i k y hi,
        get_elem?-set (set a.items i y) j k x,
        length-set a.items i y,
        v.index_is i x ex,
        v.index_is j y ey,
        v.index_is k z,
      );
      intact = ground (arith, v.intact);
    }

-- `push_back` of an item that is not there yet.
pub push_back-IsIndexed :
    (a : Array) (item : ℕ)
    → ((i : ℕ) → get_elem? a.items i ≢ some item)
    → IsIndexed a
    → IsIndexed (push_back a item)
unfolding push_back
push_back-IsIndexed a item new v = record {
  index_is = λ k z e. ground (arith, get_elem?-append_last a.items item k, v.index_is k z, new k);
  intact = v.intact;
}

-- `erase` puts the last item into the gap.
pub erase_at-IsIndexed :
    (a : Array) (i : ℕ) → i < length a.items → IsIndexed a → IsIndexed (erase_at a i)
unfolding erase_at
erase_at-IsIndexed a i h v = elim (Option-cases (get_last? a.items)) [
  | inl e ↦ absurd (omega (arith, none_last a.items e, h))
  | inr (back, e) ↦ record {
    index_is = λ k z f. ground (
      arith,
      get_elem?-drop_last (set a.items i back) k z,
      get_elem?-set a.items i k back h,
      length-set a.items i back,
      get_last?-get_elem? a.items back e,
      v.index_is (length a.items - 1) back,
      v.index_is k z,
    );
    intact = ground (arith, v.intact);
  }
]

-- The item that `push_back` puts behind the others.
pub get_elem?-push_back :
    (a : Array) (item : ℕ) → get_elem? (push_back a item).items (length a.items) ≡ some item
unfolding push_back
get_elem?-push_back a item = ground (arith, get_elem?-append_last a.items item (length a.items))

pub size-swap : (a : Array) (i j : ℕ) → length (swap a i j).items ≡ length a.items
unfolding swap
size-swap a i j = elim (Option-cases (get_elem? a.items i)) [
  | inl e ↦ ground arith
  | inr (x, e) ↦ elim (Option-cases (get_elem? a.items j)) [
    | inl f ↦ ground arith
    | inr (y, f) ↦ ground (arith, length-set a.items i y, length-set (set a.items i y) j x)
  ]
]

pub size-push_back : (a : Array) (item : ℕ) → length (push_back a item).items ≡ length a.items + 1
unfolding push_back
size-push_back a item = omega (arith, length-append a.items (item ∷ []))

pub size-erase_at : (a : Array) (i : ℕ) → length (erase_at a i).items ≡ length a.items - 1
unfolding erase_at
size-erase_at a i = elim (Option-cases (get_last? a.items)) [
  | inl e ↦ ground (arith, none_last a.items e)
  | inr (back, e) ↦ ground (arith, length-drop_last (set a.items i back), length-set a.items i back)
]

-- What `swap` leaves at a place.
pub get_elem?-swap :
    (a : Array) (i j k x y : ℕ)
    → get_elem? a.items i ≡ some x
    → get_elem? a.items j ≡ some y
    → get_elem? (swap a i j).items k
      ≡ (if j == k then some x else if i == k then some y else get_elem? a.items k)
unfolding swap
get_elem?-swap a i j k x y ex ey = ground (
  arith,
  get_elem?-set a.items i k y (get_elem?-some_lt a.items i x ex),
  get_elem?-set (set a.items i y) j k x,
  get_elem?-some_lt a.items j y ey,
  length-set a.items i y,
)

get_elem?-drop_last_lt :
    {A : Type 0} (xs : List A) (j : ℕ)
    → j + 1 < length xs
    → get_elem? (drop_last xs) j ≡ get_elem? xs j
get_elem?-drop_last_lt [] j h = absurd (omega arith)
get_elem?-drop_last_lt (y ∷ []) j h = absurd (omega arith)
get_elem?-drop_last_lt (y ∷ z ∷ xs) zero h = refl
get_elem?-drop_last_lt (y ∷ z ∷ xs) (suc j) h = get_elem?-drop_last_lt (z ∷ xs) j (omega arith)

-- What stands before the gap stays.
pub get_elem?-erase_at :
    (a : Array) (k j : ℕ)
    → k < length a.items
    → j < k
    → get_elem? (erase_at a k).items j ≡ get_elem? a.items j
unfolding erase_at
get_elem?-erase_at a k j h lt = elim (Option-cases (get_last? a.items)) [
  | inl e ↦ absurd (omega (arith, none_last a.items e))
  | inr (x, e) ↦ rw e (
      ground (
        arith,
        get_elem?-set a.items k j x h,
        get_elem?-drop_last_lt (set a.items k x) j,
        length-set a.items k x,
      ))
]
