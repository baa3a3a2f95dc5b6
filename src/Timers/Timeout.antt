-- ===== src/Timers/Timeout.antt =====
-- timers.cpp: the result of `timeout`.
use zmq.Base.{
  ℕ, ◌+◌, ◌-◌, ◌^◌, ◌≤◌, ◌<◌, ◌≡◌, ◌≢◌, refl, sym, arith, ap, ◌∙◌, true, false, ◌==◌, inl, inr,
  Option, none, some, List, [], ◌∷◌, Bool-cases,
}
use zmq.Timers.{Timer, TimersMap, Timers, is_cancelled, uncancel, remaining, timeout_loop, timeout}
use zmq.Timers.Order.{IsSorted, IsFresh, IsDistinct, is_cancelled-uncancel}
use zmq.Timers.Due.{entry, entry-fresh}

-- The times are within 2 ^ 63 of `now`.
abbrev pub IsNear : ℕ → TimersMap → Type 0
IsNear now [] = Unit
IsNear now ((w, t) ∷ ts) = (w < now + 2 ^ 63) × (now ≤ w + 2 ^ 63) × IsNear now ts

-- `res` is how long the first live timer has to wait, or there is none: 0 for one that is due.
abbrev pub IsSoonest : ℕ → List ℕ → TimersMap → Option ℕ → Type 0
IsSoonest now cs ts none = (id : ℕ) → is_cancelled id cs ≡ false → entry id ts ≡ none
IsSoonest now cs ts (some res) =
    ((id : ℕ) × (w : ℕ) × (t : Timer) × (is_cancelled id cs ≡ false)
      × (entry id ts ≡ some (w, t))
      × (res ≡ w - now))
    × ((id w : ℕ) (t : Timer)
        → is_cancelled id cs ≡ false
        → entry id ts ≡ some (w, t)
        → res ≤ w - now)

time_of : Option (ℕ × Timer) → ℕ
time_of none = 0
time_of (some (w, t)) = w

entry-le :
    (lo id w : ℕ) (t : Timer) (ts : TimersMap) → IsSorted lo ts → entry id ts ≡ some (w, t) → lo ≤ w
unfolding time_of
entry-le lo id w t [] s e = absurd (ground (arith, e))
entry-le lo id w t ((v, u) ∷ ts) (l, s) e = ground (arith, l, ap time_of e, entry-le v id w t ts s)

module _ (now w : ℕ) (t : Timer) (ts : TimersMap) (cs : List ℕ) where
  -- A cancelled entry in front changes nothing for the live ones.
  entry-skip :
      (id : ℕ)
      → is_cancelled t.timer_id cs ≡ true
      → is_cancelled id cs ≡ false
      → entry id ((w, t) ∷ ts) ≡ entry id ts
  entry-skip id e n =
      let other : t.timer_id ≢ id = λ p. ground (arith, e, n, ap (λ k. is_cancelled k cs) p) in
      let shut : (t.timer_id == id) ≡ false = ground (arith, other) in rw shut refl

  live-uncancel :
      (id : ℕ)
      → is_cancelled t.timer_id cs ≡ true
      → is_cancelled id cs ≡ false
      → is_cancelled id (uncancel t.timer_id cs) ≡ false
  live-uncancel id e n =
      is_cancelled-uncancel t.timer_id id cs
        (λ p. ground (arith, e, n, ap (λ k. is_cancelled k cs) p))
      ∙ n

  -- The other way: a live entry behind a cancelled one with another id.
  live-back :
      (id v : ℕ) (u : Timer)
      → IsFresh t.timer_id ts
      → is_cancelled id (uncancel t.timer_id cs) ≡ false
      → entry id ts ≡ some (v, u)
      → is_cancelled id cs ≡ false
  live-back id v u f n e =
      let other : id ≢ t.timer_id =
        λ p. ground (arith, e, entry-fresh t.timer_id ts f, ap (λ k. entry k ts) p) in
      sym (is_cancelled-uncancel t.timer_id id cs other) ∙ n

  IsSoonest-skip :
      (res : Option ℕ)
      → is_cancelled t.timer_id cs ≡ true
      → IsFresh t.timer_id ts
      → IsSoonest now (uncancel t.timer_id cs) ts res
      → IsSoonest now cs ((w, t) ∷ ts) res
  IsSoonest-skip none e f x = λ id n. entry-skip id e n ∙ x id (live-uncancel id e n)
  IsSoonest-skip (some res) e f ((id, v, u, n, at, eq), least) =
      let n' = live-back id v u f n at in
      (
        (id, v, u, n', entry-skip id e n' ∙ at, eq),
        λ id' w' t' live there.
            least id' w' t' (live-uncancel id' e live) (sym (entry-skip id' e live) ∙ there),
      )

  IsSoonest-head :
      is_cancelled t.timer_id cs ≡ false
      → IsSorted w ts
      → IsNear now ((w, t) ∷ ts)
      → now < 2 ^ 64
      → IsSoonest now cs ((w, t) ∷ ts) (some (remaining w now))
  IsSoonest-head e s (b, a, _) h =
      let self : (t.timer_id == t.timer_id) ≡ true = ground arith in
      let wait : remaining w now ≡ w - now = ground arith in
      (
        (t.timer_id, w, t, e, rw self refl, wait),
        λ id v u live there.
            omega (arith, wait, entry-le w id v u ((w, t) ∷ ts) (omega arith, s) there),
      )

-- What `timeout_loop` returns and leaves.
timeout_loop_lem :
    (now lo : ℕ) (ts : TimersMap) (cs : List ℕ)
    → IsSorted lo ts
    → IsDistinct ts
    → IsNear now ts
    → now < 2 ^ 64
    → IsSoonest now cs ts (timeout_loop now ts cs).0
      × ((id : ℕ) → is_cancelled id cs ≡ false → entry id (timeout_loop now ts cs).1 ≡ entry id ts)
unfolding timeout_loop
timeout_loop_lem now lo [] cs s d b h = ((λ id n. refl), λ id n. refl)
timeout_loop_lem now lo ((w, t) ∷ ts) cs (l, s) (f, d) (b, a, c) h =
    elim (Bool-cases (is_cancelled t.timer_id cs)) [
      | inl e ↦
          let (x, kept) = timeout_loop_lem now w ts (uncancel t.timer_id cs) s d c h in
          (
            rw e (
                IsSoonest-skip now w t ts cs (timeout_loop now ts (uncancel t.timer_id cs)).0 e f
                  x),
            λ id n. rw e (
                kept id (live-uncancel now w t ts cs id e n)
                ∙ sym (entry-skip now w t ts cs id e n)),
          )
      | inr e ↦ (rw e (IsSoonest-head now w t ts cs e s (b, a, c) h), λ id n. rw e refl)
    ]

-- When the map is in order, the ids are distinct, and the times are within 2 ^ 63 of `now`: `timeout` returns
-- how long the first live timer has to wait, 0 if it is due, and -1 if there is no live timer; and every live
-- timer keeps its entry.
pub timeout-IsSoonest :
    (now : ℕ) (ts : Timers)
    → IsSorted 0 ts.timers
    → IsDistinct ts.timers
    → IsNear now ts.timers
    → now < 2 ^ 64
    → IsSoonest now ts.cancelled ts.timers (timeout now ts).0
      × ((id : ℕ)
          → is_cancelled id ts.cancelled ≡ false
          → entry id (timeout now ts).1.timers ≡ entry id ts.timers)
unfolding timeout
timeout-IsSoonest now ts s d b h = timeout_loop_lem now 0 ts.timers ts.cancelled s d b h
