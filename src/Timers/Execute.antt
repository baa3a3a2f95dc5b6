-- ===== src/Timers/Execute.antt =====
-- timers.cpp: what `execute` calls and leaves.
use mathlib.Core.Option
use zmq.Base.{
  ℕ, zero, suc, ◌+◌, ◌^◌, ◌≤◌, ◌<◌, ◌≡◌, ◌≢◌, refl, sym, arith, ap, ◌∙◌, Bool, true, false, ◌&&◌,
  ◌==◌, ltb, leb, if◌then◌else◌, inl, inr, some, List, [], ◌∷◌, ◌++◌, length, Bool-cases,
}
use zmq.Timers.{
  Timer, TimersMap, Timers, insert, is_cancelled, uncancel, put_back, called, execute_rounds,
  execute_loop, begin_of, execute,
}
use zmq.Timers.Order.{
  IsSorted, IsSorted-weaken, IsFresh, IsDistinct, IsPositive, insert-IsSorted, insert-IsDistinct,
  insert-IsPositive, is_cancelled-uncancel,
}
use zmq.Timers.Due.{
  live_due, pending, entry, pending-le, live_due-late, live_due-insert, pending-insert,
  live_due-uncancel, pending-uncancel, entry-insert,
}

-- The entry of a timer after `execute`.
abbrev pub renewed : ℕ → ℕ × Timer → ℕ × Timer
renewed now (w, t) = if leb w now then (now + t.interval, t) else (w, t)

-- `execute_rounds` returns: it has called the timers that are live and due, in order; what is left is in
-- order and later than `now`, and has every live timer, those it called with their next time.
pub record IsExecuted (fuel now begin lo : ℕ) (cs : List ℕ) (ts : TimersMap) : Type 0 where
  pub left : TimersMap
  pub cancelled : List ℕ
  pub eq : execute_rounds fuel now begin [] ts cs ≡ some (live_due now cs ts, left, cancelled)
  pub sorted : IsSorted (suc now) left
  pub distinct : IsDistinct left
  pub live :
      (id : ℕ) → is_cancelled id cs ≡ false → entry id left ≡ Option.map (renewed now) (entry id ts)

-- The rounds of the loop.
pub skip_round :
    (fuel now begin w : ℕ) (t : Timer) (front ts : TimersMap) (cs : List ℕ)
    → is_cancelled t.timer_id cs ≡ true
    → execute_rounds (suc fuel) now begin front ((w, t) ∷ ts) cs
      ≡ execute_rounds fuel now begin front ts (uncancel t.timer_id cs)
unfolding execute_rounds
skip_round fuel now begin w t front ts cs e = rw (execute_rounds, e) refl

stop_round :
    (fuel now begin w : ℕ) (t : Timer) (front ts : TimersMap) (cs : List ℕ)
    → is_cancelled t.timer_id cs ≡ false
    → ltb now w ≡ true
    → execute_rounds (suc fuel) now begin front ((w, t) ∷ ts) cs
      ≡ some ([], front ++ (w, t) ∷ ts, cs)
unfolding execute_rounds
stop_round fuel now begin w t front ts cs e h = rw (execute_rounds, e, h) refl

pub call_round :
    (fuel now begin w : ℕ) (t : Timer) (front ts : TimersMap) (cs : List ℕ)
    → is_cancelled t.timer_id cs ≡ false
    → ltb now w ≡ false
    → let (front', ts') = put_back now begin w t front ts in
      execute_rounds (suc fuel) now begin front ((w, t) ∷ ts) cs
      ≡ called t (execute_rounds fuel now begin front' ts' cs)
unfolding execute_rounds
call_round fuel now begin w t front ts cs e h = rw (execute_rounds, e, h) refl

put_back-eq :
    (now begin w : ℕ) (t : Timer) (front ts : TimersMap)
    → begin ≤ w
    → w ≤ now
    → now + t.interval < 2 ^ 64
    → put_back now begin w t front ts ≡ (front, insert (now + t.interval) t ts)
unfolding put_back
put_back-eq now begin w t front ts l h b = ground arith

and-false : (b : Bool) → (b && false) ≡ false
and-false true = refl
and-false false = refl

renewed-late :
    (now id : ℕ) (ts : TimersMap)
    → IsSorted (suc now) ts
    → Option.map (renewed now) (entry id ts) ≡ entry id ts
renewed-late now id [] s = refl
renewed-late now id ((w, t) ∷ ts) (l, s) =
    let rest = renewed-late now id ts (IsSorted-weaken w (suc now) ts l s) in
    let late : leb w now ≡ false = ground arith in
    elim (Bool-cases (t.timer_id == id)) [ inl e ↦ rw (e, late) refl | inr e ↦ rw (e) rest ]

renewed-call :
    (now id w : ℕ) (t : Timer) (ts : TimersMap)
    → w ≤ now
    → 0 < t.interval
    → IsFresh t.timer_id ts
    → Option.map (renewed now) (entry id (insert (now + t.interval) t ts))
      ≡ Option.map (renewed now) (entry id ((w, t) ∷ ts))
renewed-call now id w t ts h i f =
    let late : leb (now + t.interval) now ≡ false = ground arith in
    let due : leb w now ≡ true = ground arith in
    elim (Bool-cases (t.timer_id == id)) [
      | inl e ↦ rw (entry-insert id (now + t.interval) t ts f, e, late, due) refl
      | inr e ↦ rw (entry-insert id (now + t.interval) t ts f, e) refl
    ]

-- A round of the loop before the rounds on the rest.
skip-IsExecuted :
    (fuel now begin lo w : ℕ) (t : Timer) (ts : TimersMap) (cs : List ℕ)
    → is_cancelled t.timer_id cs ≡ true
    → IsFresh t.timer_id ts
    → IsExecuted fuel now begin w (uncancel t.timer_id cs) ts
    → IsExecuted (suc fuel) now begin lo cs ((w, t) ∷ ts)
skip-IsExecuted fuel now begin lo w t ts cs e f x = record {
  left = x.left;
  cancelled = x.cancelled;
  eq =
      rw
        (
          skip_round fuel now begin w t [] ts cs e,
          x.eq,
          live_due-uncancel now t.timer_id cs ts f,
          e,
          and-false (leb w now),
        )
        refl;
  sorted = x.sorted;
  distinct = x.distinct;
  live = λ id n.
      let other : t.timer_id ≢ id = λ p. ground (arith, e, n, ap (λ k. is_cancelled k cs) p) in
      let shut : (t.timer_id == id) ≡ false = ground (arith, other) in
      let there = x.live id (is_cancelled-uncancel t.timer_id id cs (λ p. other (sym p)) ∙ n) in
      rw (shut) there;
}

stop-IsExecuted :
    (fuel now begin lo w : ℕ) (t : Timer) (ts : TimersMap) (cs : List ℕ)
    → is_cancelled t.timer_id cs ≡ false
    → ltb now w ≡ true
    → IsSorted w ts
    → IsFresh t.timer_id ts
    → IsDistinct ts
    → IsExecuted (suc fuel) now begin lo cs ((w, t) ∷ ts)
stop-IsExecuted fuel now begin lo w t ts cs e late s f d = record {
  left = (w, t) ∷ ts;
  cancelled = cs;
  eq =
      let none_due = live_due-late now cs ((w, t) ∷ ts) (ground arith, s) in
      rw (stop_round fuel now begin w t [] ts cs e late, none_due) refl;
  sorted = (ground arith, s);
  distinct = (f, d);
  live = λ id n. sym (renewed-late now id ((w, t) ∷ ts) (ground arith, s));
}

call-IsExecuted :
    (fuel now begin lo w : ℕ) (t : Timer) (ts : TimersMap) (cs : List ℕ)
    → begin ≤ w
    → is_cancelled t.timer_id cs ≡ false
    → ltb now w ≡ false
    → 0 < t.interval
    → now + t.interval < 2 ^ 64
    → IsFresh t.timer_id ts
    → IsExecuted fuel now begin w cs (insert (now + t.interval) t ts)
    → IsExecuted (suc fuel) now begin lo cs ((w, t) ∷ ts)
call-IsExecuted fuel now begin lo w t ts cs l e due i b f x = record {
  left = x.left;
  cancelled = x.cancelled;
  eq =
      let same = live_due-insert now (now + t.interval) t cs ts (omega arith) in
      let is_due : leb w now ≡ true = ground arith in
      rw
        (
          call_round fuel now begin w t [] ts cs e due,
          put_back-eq now begin w t [] ts l (ground arith) b,
          x.eq,
          same,
          is_due,
          e,
        )
        refl;
  sorted = x.sorted;
  distinct = x.distinct;
  live = λ id n. x.live id n ∙ renewed-call now id w t ts (ground arith) i f;
}

execute_rounds-IsExecuted :
    (fuel now begin lo : ℕ) (ts : TimersMap) (cs : List ℕ)
    → begin ≤ lo
    → pending now cs ts < fuel
    → IsSorted lo ts
    → IsDistinct ts
    → IsPositive now ts
    → IsExecuted fuel now begin lo cs ts
unfolding execute_rounds
execute_rounds-IsExecuted zero now begin lo ts cs g h s d p = absurd (omega arith)
execute_rounds-IsExecuted (suc fuel) now begin lo [] cs g h s d p = record {
  left = [];
  cancelled = cs;
  eq = refl;
  sorted = tt;
  distinct = tt;
  live = λ id n. refl;
}
execute_rounds-IsExecuted (suc fuel) now begin lo ((w, t) ∷ ts) cs g h (l, s) (f, d) (i, b, p) =
    elim (Bool-cases (is_cancelled t.timer_id cs)) [
      | inl e ↦ skip-IsExecuted fuel now begin lo w t ts cs e f (
          execute_rounds-IsExecuted fuel now begin w ts (uncancel t.timer_id cs) (omega arith)
            (ground (arith, pending-uncancel now t.timer_id cs ts f)) s d p)
      | inr e ↦ elim (Bool-cases (ltb now w)) [
        | inl late ↦ stop-IsExecuted fuel now begin lo w t ts cs e late s f d
        | inr due ↦
            let next = now + t.interval in
            call-IsExecuted fuel now begin lo w t ts cs (omega arith) e due i b f (
              execute_rounds-IsExecuted fuel now begin w (insert next t ts) cs (omega arith)
                (ground (arith, pending-insert now next t cs ts))
                (insert-IsSorted w next t ts (ground arith) s) (insert-IsDistinct next t ts f d)
                (insert-IsPositive now next t ts i b p))
      ]
    ]

-- Nothing is due before the first entry.
pub begin_of-IsSorted : (lo : ℕ) (ts : TimersMap) → IsSorted lo ts → IsSorted (begin_of ts) ts
begin_of-IsSorted lo [] s = tt
begin_of-IsSorted lo ((w, t) ∷ ts) (l, s) = (omega arith, s)

-- What `execute` does.
abbrev pub CallsDue : ℕ → Timers → Type 0
CallsDue now ts =
    (ts' : Timers) × (execute now ts ≡ some (live_due now ts.cancelled ts.timers, ts'))
    × IsSorted (suc now) ts'.timers
    × IsDistinct ts'.timers
    × ((id : ℕ)
        → is_cancelled id ts.cancelled ≡ false
        → entry id ts'.timers ≡ Option.map (renewed now) (entry id ts.timers))

execute-CallsDue_loop :
    (now : ℕ) (ts : Timers)
    → IsExecuted
        (length ts.timers + 1)
        now
        (begin_of ts.timers)
        (begin_of ts.timers)
        ts.cancelled
        ts.timers
    → CallsDue now ts
unfolding execute execute_loop
execute-CallsDue_loop now ts x = (
  record ts { timers = x.left; cancelled = x.cancelled },
  rw (execute, execute_loop, x.eq) refl,
  x.sorted,
  x.distinct,
  x.live,
)

-- `execute` returns when the map is in order, no two timers have the same id, and every interval is
-- positive and small enough for the next time to have 64 bits: the calls are those of the timers that are
-- live and due, in order, and each of these keeps its entry with the time `now + interval`, as every other
-- live timer keeps its own, in a map that is in order again, with no entry up to `now`.
pub execute-CallsDue :
    (now : ℕ) (ts : Timers)
    → IsSorted 0 ts.timers
    → IsDistinct ts.timers
    → IsPositive now ts.timers
    → CallsDue now ts
execute-CallsDue now ts s d p = execute-CallsDue_loop now ts (
    execute_rounds-IsExecuted (length ts.timers + 1) now (begin_of ts.timers) (begin_of ts.timers)
      ts.timers ts.cancelled (omega arith) (omega (arith, pending-le now ts.cancelled ts.timers))
      (begin_of-IsSorted 0 ts.timers s) d p)
