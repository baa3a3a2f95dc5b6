-- ===== src/Timers/Order.antt =====
-- timers.cpp: the map is in order of time, and no two timers have the same id.
use mathlib.Core.Path.{subst}
use zmq.Base.{
  ℕ, ◌+◌, ◌^◌, ◌≤◌, ◌<◌, ◌≡◌, ◌≢◌, refl, sym, arith, ◌==◌, leb, inl, inr, List, [], ◌∷◌, Bool-cases,
}
use zmq.Timers.{Timer, TimersMap, insert, is_cancelled, uncancel, erase}

-- No entry before `lo`, and the entries in order.
abbrev pub IsSorted : ℕ → TimersMap → Type 0
IsSorted lo [] = Unit
IsSorted lo ((w, t) ∷ rest) = (lo ≤ w) × IsSorted w rest

abbrev pub IsFresh : ℕ → TimersMap → Type 0
IsFresh id [] = Unit
IsFresh id ((w, t) ∷ rest) = (t.timer_id ≢ id) × IsFresh id rest

abbrev pub IsDistinct : TimersMap → Type 0
IsDistinct [] = Unit
IsDistinct ((w, t) ∷ rest) = IsFresh t.timer_id rest × IsDistinct rest

-- All the intervals are positive, and the next time of every timer has 64 bits.
abbrev pub IsPositive : ℕ → TimersMap → Type 0
IsPositive now [] = Unit
IsPositive now ((w, t) ∷ rest) =
    (0 < t.interval) × (now + t.interval < 2 ^ 64) × IsPositive now rest

pub IsSorted-weaken : (lo lo' : ℕ) (ts : TimersMap) → lo' ≤ lo → IsSorted lo ts → IsSorted lo' ts
IsSorted-weaken lo lo' [] h s = tt
IsSorted-weaken lo lo' ((w, t) ∷ rest) h (l, s) = (omega arith, s)

pub insert-IsSorted :
    (lo w : ℕ) (t : Timer) (ts : TimersMap) → lo ≤ w → IsSorted lo ts → IsSorted lo (insert w t ts)
unfolding insert
insert-IsSorted lo w t [] h s = (h, tt)
insert-IsSorted lo w t ((v, u) ∷ rest) h (l, s) = elim (Bool-cases (leb v w)) [
  | inl e ↦ rw e (l, insert-IsSorted v w t rest (ground arith) s)
  | inr e ↦ rw e (h, (ground arith, s))
]

pub insert-IsFresh :
    (id w : ℕ) (t : Timer) (ts : TimersMap)
    → t.timer_id ≢ id
    → IsFresh id ts
    → IsFresh id (insert w t ts)
unfolding insert
insert-IsFresh id w t [] n f = (n, tt)
insert-IsFresh id w t ((v, u) ∷ rest) n (m, f) = elim (Bool-cases (leb v w)) [
  | inl e ↦ rw e (m, insert-IsFresh id w t rest n f)
  | inr e ↦ rw e (n, (m, f))
]

pub insert-IsDistinct :
    (w : ℕ) (t : Timer) (ts : TimersMap)
    → IsFresh t.timer_id ts
    → IsDistinct ts
    → IsDistinct (insert w t ts)
unfolding insert
insert-IsDistinct w t [] f d = (tt, tt)
insert-IsDistinct w t ((v, u) ∷ rest) (n, f) (g, d) = elim (Bool-cases (leb v w)) [
  | inl e ↦
      rw e (insert-IsFresh u.timer_id w t rest (λ p. n (sym p)) g, insert-IsDistinct w t rest f d)
  | inr e ↦ rw e ((n, f), (g, d))
]

pub insert-IsPositive :
    (now w : ℕ) (t : Timer) (ts : TimersMap)
    → 0 < t.interval
    → now + t.interval < 2 ^ 64
    → IsPositive now ts
    → IsPositive now (insert w t ts)
unfolding insert
insert-IsPositive now w t [] p b h = (p, b, tt)
insert-IsPositive now w t ((v, u) ∷ rest) p b (q, c, h) = elim (Bool-cases (leb v w)) [
  | inl e ↦ rw e (q, c, insert-IsPositive now w t rest p b h)
  | inr e ↦ rw e (p, b, (q, c, h))
]

pub is_cancelled-uncancel :
    (id k : ℕ) (cs : List ℕ) → k ≢ id → is_cancelled k (uncancel id cs) ≡ is_cancelled k cs
unfolding is_cancelled uncancel
is_cancelled-uncancel id k [] n = refl
is_cancelled-uncancel id k (c ∷ cs) n = ground (arith, is_cancelled-uncancel id k cs n)

-- Every id is at most `n`.
abbrev pub IsBelow : ℕ → TimersMap → Type 0
IsBelow n [] = Unit
IsBelow n ((w, t) ∷ rest) = (t.timer_id ≤ n) × IsBelow n rest

pub IsBelow-weaken : (n m : ℕ) (ts : TimersMap) → n ≤ m → IsBelow n ts → IsBelow m ts
IsBelow-weaken n m [] h b = tt
IsBelow-weaken n m ((w, t) ∷ rest) h (l, b) = (omega arith, IsBelow-weaken n m rest h b)

pub insert-IsBelow :
    (n w : ℕ) (t : Timer) (ts : TimersMap)
    → t.timer_id ≤ n
    → IsBelow n ts
    → IsBelow n (insert w t ts)
unfolding insert
insert-IsBelow n w t [] h b = (h, tt)
insert-IsBelow n w t ((v, u) ∷ rest) h (l, b) = elim (Bool-cases (leb v w)) [
  | inl e ↦ rw e (l, insert-IsBelow n w t rest h b)
  | inr e ↦ rw e (h, (l, b))
]

-- An id above all the others is fresh.
pub IsBelow-IsFresh : (n id : ℕ) (ts : TimersMap) → n < id → IsBelow n ts → IsFresh id ts
IsBelow-IsFresh n id [] h b = tt
IsBelow-IsFresh n id ((w, t) ∷ rest) h (l, b) =
    ((λ p. omega (arith, p)), IsBelow-IsFresh n id rest h b)

pub erase-IsSorted : (lo id : ℕ) (ts : TimersMap) → IsSorted lo ts → IsSorted lo (erase id ts)
unfolding erase
erase-IsSorted lo id [] s = tt
erase-IsSorted lo id ((w, t) ∷ rest) (l, s) = elim (Bool-cases (t.timer_id == id)) [
  | inl e ↦ rw e (IsSorted-weaken w lo rest l s)
  | inr e ↦ rw e (l, erase-IsSorted w id rest s)
]

pub erase-IsBelow : (n id : ℕ) (ts : TimersMap) → IsBelow n ts → IsBelow n (erase id ts)
unfolding erase
erase-IsBelow n id [] b = tt
erase-IsBelow n id ((w, t) ∷ rest) (l, b) = elim (Bool-cases (t.timer_id == id)) [
  | inl e ↦ rw e b
  | inr e ↦ rw e (l, erase-IsBelow n id rest b)
]

pub erase-keeps_IsFresh : (k id : ℕ) (ts : TimersMap) → IsFresh k ts → IsFresh k (erase id ts)
unfolding erase
erase-keeps_IsFresh k id [] f = tt
erase-keeps_IsFresh k id ((w, t) ∷ rest) (n, f) = elim (Bool-cases (t.timer_id == id)) [
  | inl e ↦ rw e f
  | inr e ↦ rw e (n, erase-keeps_IsFresh k id rest f)
]

pub erase-IsFresh : (id : ℕ) (ts : TimersMap) → IsDistinct ts → IsFresh id (erase id ts)
unfolding erase
erase-IsFresh id [] d = tt
erase-IsFresh id ((w, t) ∷ rest) (f, d) = elim (Bool-cases (t.timer_id == id)) [
  | inl e ↦ let same : t.timer_id ≡ id = ground arith in rw e (subst (λ k. IsFresh k rest) same f)
  | inr e ↦ rw e ((λ p. ground (arith, p)), erase-IsFresh id rest d)
]

pub erase-IsDistinct : (id : ℕ) (ts : TimersMap) → IsDistinct ts → IsDistinct (erase id ts)
unfolding erase
erase-IsDistinct id [] d = tt
erase-IsDistinct id ((w, t) ∷ rest) (f, d) = elim (Bool-cases (t.timer_id == id)) [
  | inl e ↦ rw e d
  | inr e ↦ rw e (erase-keeps_IsFresh t.timer_id id rest f, erase-IsDistinct id rest d)
]
