-- ===== src/Yqueue/Window.antt =====
-- yqueue.hpp: the positions between two ends of a queue and what stands there.
use mathlib.Core.Path.{subst}
use zmq.Base.{
  ℕ, ◌+◌, ◌≤◌, ◌<◌, ◌≡◌, ◌⊎◌, refl, sym, ap, ◌∙◌, arith, ◌==◌, inl, inr, if◌then◌else◌, List, [],
  ◌∷◌, ◌++◌, Bool-cases,
}

-- The position behind another one: the chunk's number, and the element's number in the chunk.
abbrev pub step : ℕ → ℕ × ℕ → ℕ × ℕ
step n (i, j) = if j + 1 == n then (i + 1, 0) else (i, j + 1)

-- The elements from `p` on are `xs`, and `q` is behind them.
pub data Filled {ℓ} {A : Type ℓ} (n : ℕ) (val : ℕ → ℕ → A) (q : ℕ × ℕ)
    : ℕ × ℕ → List A → Type ℓ where
  done : {p : ℕ × ℕ} → p ≡ q → Filled n val q p []
  more :
      {p : ℕ × ℕ} {x : A} {xs : List A}
      → val p.0 p.1 ≡ x
      → Filled n val q (step n p) xs
      → Filled n val q p (x ∷ xs)

abbrev pub Before : ℕ × ℕ → ℕ × ℕ → Type 0
Before p q = (p.0 < q.0) ⊎ ((p.0 ≡ q.0) × (p.1 < q.1))

Before-step : (n : ℕ) (p : ℕ × ℕ) → Before p (step n p)
Before-step n (i, j) = elim (Bool-cases (j + 1 == n)) [
  | inl e ↦ rw e (inl (omega arith))
  | inr e ↦ rw e (inr (omega arith))
]

Before-trans : (p q r : ℕ × ℕ) → Before p q → Before q r → Before p r
Before-trans p q r (inl a) (inl b) = inl (omega arith)
Before-trans p q r (inl a) (inr (b, c)) = inl (omega arith)
Before-trans p q r (inr (a, b)) (inl c) = inl (omega arith)
Before-trans p q r (inr (a, b)) (inr (c, d)) = inr (omega arith)

module _ {ℓ} {A : Type ℓ} (n : ℕ) (val : ℕ → ℕ → A) where
  -- The ends of a queue are in order.
  pub Filled-Before : (p q : ℕ × ℕ) (x : A) (xs : List A) → Filled n val q p (x ∷ xs) → Before p q
  Filled-Before p q x [] (more e (done d)) = subst (Before p) d (Before-step n p)
  Filled-Before p q x (y ∷ ys) (more e f) =
      Before-trans p (step n p) q (Before-step n p) (Filled-Before (step n p) q y ys f)

  pub Filled-le : (p q : ℕ × ℕ) (xs : List A) → Filled n val q p xs → p.0 ≤ q.0
  Filled-le p q [] (done d) = omega (arith, ap (λ r. r.0) d)
  Filled-le p q (x ∷ xs) f = le (Filled-Before p q x xs f)
    where
      le : Before p q → p.0 ≤ q.0
      le (inl a) = omega arith
      le (inr (a, b)) = omega arith

  pub Filled-snoc :
      (p q : ℕ × ℕ) (xs : List A) (x : A)
      → Filled n val q p xs
      → val q.0 q.1 ≡ x
      → Filled n val (step n q) p (xs ++ x ∷ [])
  Filled-snoc p q [] x (done d) e = more (ap (λ r. val r.0 r.1) d ∙ e) (done (ap (step n) d))
  Filled-snoc p q (y ∷ ys) x (more d f) e = more d (Filled-snoc (step n p) q ys x f e)

  pub Filled-unsnoc :
      (p q : ℕ × ℕ) (xs : List A) (x : A)
      → Filled n val q p (xs ++ x ∷ [])
      → (b : ℕ × ℕ) × Filled n val b p xs × (val b.0 b.1 ≡ x) × (step n b ≡ q)
  Filled-unsnoc p q [] x (more e (done d)) = (p, done refl, e, d)
  Filled-unsnoc p q (y ∷ ys) x (more e f) =
      let (b, g, v, s) = Filled-unsnoc (step n p) q ys x f in (b, more e g, v, s)

  -- Only the elements between the ends count.
  pub Filled-ext :
      (val' : ℕ → ℕ → A) (p q : ℕ × ℕ) (xs : List A)
      → ((i j : ℕ) → Before (i, j) q → val i j ≡ val' i j)
      → Filled n val q p xs
      → Filled n val' q p xs
  Filled-ext val' p q [] same (done d) = done d
  Filled-ext val' p q (x ∷ xs) same (more e f) =
      more (sym (same p.0 p.1 (Filled-Before p q x xs (more e f))) ∙ e)
        (Filled-ext val' (step n p) q xs same f)

-- What is in front of a position.
pub step-eq_first : (n i j k : ℕ) → step n (i, j) ≡ (k, 0) → (k ≡ i + 1) × (j + 1 ≡ n)
step-eq_first n i j k e = ground (arith, ap (λ r. r.0) e, ap (λ r. r.1) e)

pub step-eq_later : (n i j k m : ℕ) → 0 < m → step n (i, j) ≡ (k, m) → (k ≡ i) × (m ≡ j + 1)
step-eq_later n i j k m h e = ground (arith, ap (λ r. r.0) e, ap (λ r. r.1) e)
