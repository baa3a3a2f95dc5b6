-- ===== src/Timers.antt =====
-- zeromq-4.3.1/src/timers.hpp and zeromq-4.3.1/src/timers.cpp: timers, in the order in which they are due. The
-- clock is the argument `now`; a handler is the number of its function, and is taken not to call the
-- functions of its own timers object. A result `none` of `add`, `cancel`, `set_interval` and `reset` is the
-- return of -1 with an error, or an overflow of `int`.
pub mod Order
pub mod Due
pub mod Execute
pub mod Forever
pub mod Timeout
mod Tests
use mathlib.Core.Option
use zmq.Base.{
  ℕ, zero, suc, ◌+◌, ◌-◌, ◌%◌, ◌^◌, Bool, true, false, ◌||◌, ◌==◌, ltb, leb, if◌then◌else◌, Option,
  none, some, List, [], ◌∷◌, ◌++◌, length,
}

pub record Timer : Type 0 where
  pub timer_id : ℕ
  pub interval : ℕ
  pub handler : ℕ
  pub arg : ℕ

-- The multimap: the time when a timer is due, and the timer.
abbrev pub TimersMap : Type 0
TimersMap = List (ℕ × Timer)

pub record Timers : Type 0 where
  pub next_timer_id : ℕ
  pub timers : TimersMap
  pub cancelled : List ℕ

pub create : Timers
create = record { next_timer_id = 0; timers = []; cancelled = [] }

-- `std::multimap::insert`: behind the entries with the same key.
unfoldable pub insert : ℕ → Timer → TimersMap → TimersMap
insert when t [] = (when, t) ∷ []
insert when t ((w, u) ∷ rest) =
    if leb w when then (w, u) ∷ insert when t rest else (when, t) ∷ (w, u) ∷ rest

-- `std::find_if` with `match_by_id`, and `erase` of what it found.
unfoldable pub find : ℕ → TimersMap → Option Timer
find timer_id [] = none
find timer_id ((w, u) ∷ rest) = if u.timer_id == timer_id then some u else find timer_id rest

unfoldable pub erase : ℕ → TimersMap → TimersMap
erase timer_id [] = []
erase timer_id ((w, u) ∷ rest) =
    if u.timer_id == timer_id then rest else (w, u) ∷ erase timer_id rest

-- `_cancelled_timers.count` and `_cancelled_timers.erase`.
unfoldable pub is_cancelled : ℕ → List ℕ → Bool
is_cancelled timer_id [] = false
is_cancelled timer_id (c ∷ rest) = c == timer_id || is_cancelled timer_id rest

unfoldable pub uncancel : ℕ → List ℕ → List ℕ
uncancel timer_id [] = []
uncancel timer_id (c ∷ rest) =
    let others = uncancel timer_id rest in if c == timer_id then others else c ∷ others

-- `_clock.now_ms () + interval_`, of 64 bits.
abbrev pub due_at : ℕ → ℕ → ℕ
due_at now interval = (now + interval) % 2 ^ 64

-- `none` also where `++_next_timer_id` leaves the range of `int`, which C++ leaves undefined.
unfoldable pub add : ℕ → ℕ → Option ℕ → ℕ → Timers → Option (ℕ × Timers)
add now interval none arg ts = none
add now interval (some handler) arg ts =
    let id = ts.next_timer_id + 1 in
    let timer : Timer = record {
      timer_id = id;
      interval = interval;
      handler = handler;
      arg = arg;
    } in
    if leb (2 ^ 31) id
    then none
    else some (
      id,
      record ts { next_timer_id = id; timers = insert (due_at now interval) timer ts.timers },
    )

unfoldable pub cancel : ℕ → Timers → Option Timers
cancel timer_id ts = elim (find timer_id ts.timers) [
  | none ↦ none
  | some _ ↦
      if is_cancelled timer_id ts.cancelled
      then none
      else some (record ts { cancelled = timer_id ∷ ts.cancelled })
]

-- The timer moves to the place of its new time.
abbrev pub move : ℕ → Timer → Timers → Timers
move now timer ts = record ts {
  timers = insert (due_at now timer.interval) timer (erase timer.timer_id ts.timers);
}

unfoldable pub set_interval : ℕ → ℕ → ℕ → Timers → Option Timers
set_interval now timer_id interval ts =
    Option.map (λ timer. move now (record timer { interval = interval }) ts)
      (find timer_id ts.timers)

unfoldable pub reset : ℕ → ℕ → Timers → Option Timers
reset now timer_id ts = Option.map (λ timer. move now timer ts) (find timer_id ts.timers)

-- `static_cast<long> (it->first - now)`, or 0 if that is negative.
abbrev pub remaining : ℕ → ℕ → ℕ
remaining when now = let d = (when + 2 ^ 64 - now) % 2 ^ 64 in if ltb d (2 ^ 63) then d else 0

-- The loop of `timeout`; `none` is -1.
unfoldable pub timeout_loop : ℕ → TimersMap → List ℕ → Option ℕ × TimersMap × List ℕ
timeout_loop now [] cancelled = (none, [], cancelled)
timeout_loop now ((w, t) ∷ rest) cancelled =
    let later = timeout_loop now rest (uncancel t.timer_id cancelled) in
    if is_cancelled t.timer_id cancelled
    then later
    else (some (remaining w now), (w, t) ∷ rest, cancelled)

unfoldable pub timeout : ℕ → Timers → Option ℕ × Timers
unfolding timeout_loop
timeout now ts =
    let (res, timers, cancelled) = timeout_loop now ts.timers ts.cancelled in
    (res, record ts { timers = timers; cancelled = cancelled })

-- The loop of `execute`: the timers whose handlers it calls, in order, and what it leaves. `none`: out
-- of fuel.
abbrev pub called :
    Timer → Option (List Timer × TimersMap × List ℕ) → Option (List Timer × TimersMap × List ℕ)
called t none = none
called t (some (calls, timers, cancelled)) = some (t ∷ calls, timers, cancelled)

-- The called timer goes back in, at its next time. `begin` is the time of the entry that was the first
-- before the loop. A time that has wrapped to before it lands in `front`, which the end of `execute` keeps; one
-- between it and the entry at hand lands among the entries that the end of `execute` erases.
unfoldable pub put_back : ℕ → ℕ → ℕ → Timer → TimersMap → TimersMap → TimersMap × TimersMap
put_back now begin w t front rest =
    let due = due_at now t.interval in
    if ltb due begin
    then (insert due t front, rest)
    else if ltb due w
    then (front, rest)
    else (front, insert due t rest)

-- The rounds. The entries from the first one up to the one at hand are already left out.
unfoldable pub execute_rounds :
    ℕ → ℕ → ℕ → TimersMap → TimersMap → List ℕ → Option (List Timer × TimersMap × List ℕ)
unfolding put_back is_cancelled uncancel
execute_rounds zero now begin front timers cancelled = none
execute_rounds (suc fuel) now begin front [] cancelled = some ([], front, cancelled)
execute_rounds (suc fuel) now begin front ((w, t) ∷ rest) cancelled =
    elim (is_cancelled t.timer_id cancelled) [
      | true ↦ execute_rounds fuel now begin front rest (uncancel t.timer_id cancelled)
      | false ↦ elim (ltb now w) [
        | true ↦ some ([], front ++ (w, t) ∷ rest, cancelled)
        | false ↦
            let (front', rest') = put_back now begin w t front rest in
            called t (execute_rounds fuel now begin front' rest' cancelled)
      ]
    ]

-- The time of `begin`; no entry, no round.
abbrev pub begin_of : TimersMap → ℕ
begin_of [] = 0
begin_of ((w, t) ∷ rest) = w

unfoldable pub execute_loop : ℕ → ℕ → TimersMap → List ℕ → Option (List Timer × TimersMap × List ℕ)
unfolding execute_rounds
execute_loop fuel now timers cancelled =
    execute_rounds fuel now (begin_of timers) [] timers cancelled

-- Each round takes an entry away and may put one back that is due later: one round more than there are
-- timers is enough, if no interval is 0.
unfoldable pub execute : ℕ → Timers → Option (List Timer × Timers)
unfolding execute_loop
execute now ts = elim (execute_loop (length ts.timers + 1) now ts.timers ts.cancelled) [
  | none ↦ none
  | some (calls, timers, cancelled) ↦
      some (calls, record ts { timers = timers; cancelled = cancelled })
]
