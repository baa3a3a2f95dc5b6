-- ===== src/Timers/Forever.antt =====
-- timers.cpp: `execute` with an interval of 0.
use zmq.Base.{
  ℕ, zero, suc, ◌^◌, ◌≤◌, ◌<◌, ◌≡◌, refl, arith, ap, ◌∙◌, Bool, true, false, not, ◌&&◌, ◌||◌, ◌==◌,
  ltb, leb, inl, inr, none, List, [], ◌∷◌, Bool-cases,
}
use zmq.Timers.{
  Timer, TimersMap, insert, is_cancelled, uncancel, due_at, put_back, called, execute_rounds,
  begin_of, execute_loop,
}
use zmq.Timers.Order.{IsSorted, insert-IsSorted}
use zmq.Timers.Execute.{skip_round, call_round, begin_of-IsSorted}

-- A timer that is not cancelled, is due, and has the interval 0.
abbrev pub has_endless : ℕ → List ℕ → TimersMap → Bool
has_endless now cs [] = false
has_endless now cs ((w, t) ∷ ts) =
    leb w now && t.interval == 0 && not (is_cancelled t.timer_id cs) || has_endless now cs ts

is_cancelled-uncancel-false :
    (id k : ℕ) (cs : List ℕ) → is_cancelled k cs ≡ false → is_cancelled k (uncancel id cs) ≡ false
unfolding is_cancelled uncancel
is_cancelled-uncancel-false id k [] n = refl
is_cancelled-uncancel-false id k (c ∷ cs) n = ground (arith, n, is_cancelled-uncancel-false id k cs)

has_endless-uncancel :
    (now id : ℕ) (cs : List ℕ) (ts : TimersMap)
    → has_endless now cs ts ≡ true
    → has_endless now (uncancel id cs) ts ≡ true
has_endless-uncancel now id cs [] h = h
has_endless-uncancel now id cs ((w, t) ∷ ts) h =
    ground
      (arith, h, is_cancelled-uncancel-false id t.timer_id cs, has_endless-uncancel now id cs ts)

has_endless-insert :
    (now d : ℕ) (t : Timer) (cs : List ℕ) (ts : TimersMap)
    → has_endless now cs ((d, t) ∷ ts) ≡ true
    → has_endless now cs (insert d t ts) ≡ true
unfolding insert
has_endless-insert now d t cs [] h = h
has_endless-insert now d t cs ((w, u) ∷ ts) h = ground (arith, h, has_endless-insert now d t cs ts)

has_endless-le :
    (now lo : ℕ) (cs : List ℕ) (ts : TimersMap)
    → IsSorted lo ts
    → has_endless now cs ts ≡ true
    → lo ≤ now
has_endless-le now lo cs [] s h = absurd (ground (arith, h))
has_endless-le now lo cs ((w, t) ∷ ts) (l, s) h = ground (arith, h, l, has_endless-le now w cs ts s)

-- The called timer goes back in, at once if its interval is 0.
put_back-IsSorted :
    (now begin w : ℕ) (t : Timer) (front ts : TimersMap)
    → IsSorted w ts
    → IsSorted w (put_back now begin w t front ts).1
unfolding put_back
put_back-IsSorted now begin w t front ts s =
    let due = due_at now t.interval in
    elim (Bool-cases (ltb due begin)) [
      | inl c ↦ rw c s
      | inr c ↦ elim (Bool-cases (ltb due w)) [
        | inl e ↦ rw (c, e) s
        | inr e ↦ rw (c, e) (insert-IsSorted w due t ts (ground arith) s)
      ]
    ]

put_back-has_endless :
    (now begin w : ℕ) (t : Timer) (front ts : TimersMap) (cs : List ℕ)
    → now < 2 ^ 64
    → begin ≤ w
    → w ≤ now
    → has_endless now cs ((w, t) ∷ ts) ≡ true
    → has_endless now cs (put_back now begin w t front ts).1 ≡ true
unfolding put_back
put_back-has_endless now begin w t front ts cs b g l h =
    let due = due_at now t.interval in
    let kept = has_endless-insert now due t cs ts in
    elim (Bool-cases (ltb due begin)) [
      | inl c ↦ rw c (ground (arith, h, c, g, l, b))
      | inr c ↦ elim (Bool-cases (ltb due w)) [
        | inl e ↦ rw (c, e) (ground (arith, h, e, l, b))
        | inr e ↦ rw (c, e) (kept (ground (arith, h, e, l, b)))
      ]
    ]

execute_rounds-endless :
    (fuel now begin lo : ℕ) (front ts : TimersMap) (cs : List ℕ)
    → now < 2 ^ 64
    → begin ≤ lo
    → IsSorted lo ts
    → has_endless now cs ts ≡ true
    → execute_rounds fuel now begin front ts cs ≡ none
unfolding execute_rounds
execute_rounds-endless zero now begin lo front ts cs b g s h = refl
execute_rounds-endless (suc fuel) now begin lo front [] cs b g s h = absurd (ground (arith, h))
execute_rounds-endless (suc fuel) now begin lo front ((w, t) ∷ ts) cs b g (l, s) h =
    elim (Bool-cases (is_cancelled t.timer_id cs)) [
      | inl e ↦
          skip_round fuel now begin w t front ts cs e
          ∙ execute_rounds-endless fuel now begin w front ts (uncancel t.timer_id cs) b
              (omega arith) s (has_endless-uncancel now t.timer_id cs ts (ground (arith, h, e)))
      | inr e ↦
          let l' : w ≤ now = has_endless-le now w cs ((w, t) ∷ ts) (omega arith, s) h in
          let (front', ts') = put_back now begin w t front ts in
          call_round fuel now begin w t front ts cs e (ground arith)
          ∙ ap (called t) (
              execute_rounds-endless fuel now begin w front' ts' cs b (omega arith)
                (put_back-IsSorted now begin w t front ts s)
                (put_back-has_endless now begin w t front ts cs b (omega arith) l' h))
    ]

-- A timer that is not cancelled, is due and has the interval 0 keeps the loop of `execute` from ending:
-- whatever the number of rounds, in a map that is in order, it does not return.
pub execute_loop-endless :
    (fuel now lo : ℕ) (ts : TimersMap) (cs : List ℕ)
    → now < 2 ^ 64
    → IsSorted lo ts
    → has_endless now cs ts ≡ true
    → execute_loop fuel now ts cs ≡ none
unfolding execute_loop
execute_loop-endless fuel now lo ts cs b s h =
    execute_rounds-endless fuel now (begin_of ts) (begin_of ts) [] ts cs b (omega arith)
      (begin_of-IsSorted lo ts s) h
