-- ===== src/Timers/Due.antt =====
-- timers.cpp: the live timers that are due, and the entry of a timer.
use zmq.Base.{
  ℕ, suc, ◌+◌, ◌≤◌, ◌<◌, ◌≡◌, refl, arith, false, not, ◌&&◌, ◌||◌, ◌==◌, leb, if◌then◌else◌, Option,
  none, some, List, [], ◌∷◌, length,
}
use zmq.Timers.{Timer, TimersMap, insert, is_cancelled, uncancel}
use zmq.Timers.Order.{IsSorted, IsSorted-weaken, IsFresh, is_cancelled-uncancel}

-- The timers that are not cancelled and due, in order.
abbrev pub live_due : ℕ → List ℕ → TimersMap → List Timer
live_due now cs [] = []
live_due now cs ((w, t) ∷ rest) =
    let others = live_due now cs rest in
    if leb w now && not (is_cancelled t.timer_id cs) then t ∷ others else others

-- The entries that `execute` takes away: the cancelled ones and those that are due.
abbrev pub pending : ℕ → List ℕ → TimersMap → ℕ
pending now cs [] = 0
pending now cs ((w, t) ∷ rest) =
    (if leb w now || is_cancelled t.timer_id cs then 1 else 0) + pending now cs rest

abbrev pub entry : ℕ → TimersMap → Option (ℕ × Timer)
entry id [] = none
entry id ((w, t) ∷ rest) = if t.timer_id == id then some (w, t) else entry id rest

pub pending-le : (now : ℕ) (cs : List ℕ) (ts : TimersMap) → pending now cs ts ≤ length ts
pending-le now cs [] = omega arith
pending-le now cs ((w, t) ∷ rest) = ground (arith, pending-le now cs rest)

pub live_due-late :
    (now : ℕ) (cs : List ℕ) (ts : TimersMap) → IsSorted (suc now) ts → live_due now cs ts ≡ []
live_due-late now cs [] s = refl
live_due-late now cs ((w, t) ∷ rest) (l, s) =
    ground (arith, live_due-late now cs rest (IsSorted-weaken w (suc now) rest l s))

pub live_due-insert :
    (now d : ℕ) (t : Timer) (cs : List ℕ) (ts : TimersMap)
    → now < d
    → live_due now cs (insert d t ts) ≡ live_due now cs ts
unfolding insert
live_due-insert now d t cs [] h = ground arith
live_due-insert now d t cs ((w, u) ∷ rest) h = ground (arith, live_due-insert now d t cs rest h)

pub pending-insert :
    (now d : ℕ) (t : Timer) (cs : List ℕ) (ts : TimersMap)
    → now < d
    → is_cancelled t.timer_id cs ≡ false
    → pending now cs (insert d t ts) ≡ pending now cs ts
unfolding insert
pending-insert now d t cs [] h n = ground arith
pending-insert now d t cs ((w, u) ∷ rest) h n = ground (arith, pending-insert now d t cs rest h n)

pub live_due-uncancel :
    (now id : ℕ) (cs : List ℕ) (ts : TimersMap)
    → IsFresh id ts
    → live_due now (uncancel id cs) ts ≡ live_due now cs ts
live_due-uncancel now id cs [] f = refl
live_due-uncancel now id cs ((w, t) ∷ rest) (n, f) =
    rw (is_cancelled-uncancel id t.timer_id cs n, live_due-uncancel now id cs rest f) refl

pub pending-uncancel :
    (now id : ℕ) (cs : List ℕ) (ts : TimersMap)
    → IsFresh id ts
    → pending now (uncancel id cs) ts ≡ pending now cs ts
pending-uncancel now id cs [] f = refl
pending-uncancel now id cs ((w, t) ∷ rest) (n, f) =
    rw (is_cancelled-uncancel id t.timer_id cs n, pending-uncancel now id cs rest f) refl

pub entry-fresh : (id : ℕ) (ts : TimersMap) → IsFresh id ts → entry id ts ≡ none
entry-fresh id [] f = refl
entry-fresh id ((w, t) ∷ rest) (n, f) = ground (arith, n, entry-fresh id rest f)

pub entry-insert :
    (id w : ℕ) (t : Timer) (ts : TimersMap)
    → IsFresh t.timer_id ts
    → entry id (insert w t ts) ≡ (if t.timer_id == id then some (w, t) else entry id ts)
unfolding insert
entry-insert id w t [] f = refl
entry-insert id w t ((v, u) ∷ rest) (n, f) = ground (arith, n, entry-insert id w t rest f)
