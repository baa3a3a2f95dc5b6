-- ===== src/Timers/Tests.antt =====
-- timers.cpp at concrete values.
use zmq.Base.{ℕ, ◌≡◌, refl, arith, false, none, some, [], ◌∷◌}
use zmq.Timers.{
  Timer, TimersMap, Timers, insert, find, is_cancelled, uncancel, put_back, cancel, timeout_loop,
  timeout, execute_rounds, execute_loop, execute,
}
use zmq.Timers.Order.{IsDistinct}
use zmq.Timers.Due.{entry}
use zmq.Timers.Execute.{CallsDue, execute-CallsDue}
use zmq.Timers.Forever.{execute_loop-endless}
use zmq.Timers.Timeout.{IsSoonest, timeout-IsSoonest}

abbrev timer : ℕ → ℕ → Timer
timer id interval = record { timer_id = id; interval = interval; handler = 7; arg = 0 }

abbrev entries : TimersMap
entries = (5, timer 2 30) ∷ (10, timer 1 10) ∷ (25, timer 3 5) ∷ []

-- Timer 2 is cancelled.
abbrev timers : Timers
timers = record { next_timer_id = 3; timers = entries; cancelled = 2 ∷ [] }

abbrev after_execute : Timers
after_execute = record {
  next_timer_id = 3;
  timers = (25, timer 3 5) ∷ (30, timer 1 10) ∷ [];
  cancelled = [];
}

executes : execute 20 timers ≡ some (timer 1 10 ∷ [], after_execute)
unfolding execute execute_loop execute_rounds put_back insert is_cancelled uncancel
executes = refl

times_out : timeout 20 after_execute ≡ (some 5, after_execute)
unfolding timeout timeout_loop is_cancelled uncancel
times_out = refl

cancels : cancel 2 timers ≡ none
unfolding cancel find is_cancelled
cancels = refl

timers-IsDistinct : IsDistinct entries
timers-IsDistinct = omega arith

execute-CallsDue_example : CallsDue 20 timers
execute-CallsDue_example = execute-CallsDue 20 timers (omega arith) timers-IsDistinct (omega arith)

execute_loop-endless_example : execute_loop 100 20 ((5, timer 1 0) ∷ []) [] ≡ none
unfolding is_cancelled
execute_loop-endless_example =
    execute_loop-endless 100 20 0 ((5, timer 1 0) ∷ []) [] (omega arith) (omega arith) refl

timeout-IsSoonest_example :
    IsSoonest 20 (2 ∷ []) entries (timeout 20 timers).0
    × ((id : ℕ)
        → is_cancelled id (2 ∷ []) ≡ false
        → entry id (timeout 20 timers).1.timers ≡ entry id entries)
timeout-IsSoonest_example =
    timeout-IsSoonest 20 timers (omega arith) timers-IsDistinct (omega arith) (omega arith)
