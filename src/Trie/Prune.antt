-- ===== src/Trie/Prune.antt =====
-- trie.cpp: `rm` takes a pruned node out of its table and makes the table as short as it can be.
use zmq.Base.{
  ℕ, ◌+◌, ◌-◌, ◌≤◌, ◌<◌, ◌≡◌, ◌≢◌, inl, inr, refl, arith, ap, ◌∙◌, true, ◌==◌, ltb, if◌then◌else◌,
  Option, none, some, Bool-cases,
}
use zmq.Trie.{
  Trie, node, Slots, end, link, count, get, set, trim_left, skipped, trim_right, compact, prune,
}
use zmq.Trie.Tables.{
  live_of, live_one, get-set, count-set, live_of-set, live_of-le, live_one-le, get_beyond, one_live,
  get-trim_left, get-skipped, count-trim_left, live_of-trim_left, trim_left_first, get-trim_right,
  count-trim_right, live_of-trim_right, trim_right_last,
}
use zmq.Trie.Valid.{at, IsTight, end-IsTight, at-set}

-- A tight table that holds what `ss` holds but for the pointer at `c`.
pub record IsPruned (c m : ℕ) (ss : Slots) (live' m' : ℕ) (ss' : Slots) : Type 0 where
  pub tight : IsTight live' m' ss'
  pub gone : (y : ℕ) → at y m' ss' ≡ (if c == y then none else at y m ss)

live_get : (o : Option Trie) → live_one o ≡ 1 → (t : Trie) × (o ≡ some t)
live_get none h = absurd (omega arith)
live_get (some t) h = (t, refl)

==_one : (n : ℕ) → (n == 1) ≡ true → n ≡ 1
==_one n h = ground arith

module _ (c live m : ℕ) (ss : Slots) (t : Trie) (v : IsTight live m ss)
    (hit : at c m ss ≡ some t) where
  low : m ≤ c
  low = ground arith

  high : c < m + count ss
  high = ground (arith, get_beyond ss (c - m))

  held : get ss (c - m) ≡ some t
  held = ground arith

  abbrev rest : Slots
  rest = set ss (c - m) none

  count-rest : count rest ≡ count ss
  count-rest = count-set ss (c - m) none

  live_of-rest : live_of rest + 1 ≡ live
  live_of-rest = ground (arith, live_of-set ss (c - m) none, held, low, high, v.live_eq)

  gone_rest : (y : ℕ) → at y m rest ≡ (if c == y then none else at y m ss)
  gone_rest y = at-set c m y ss none low high

  first_rest : c ≢ m → live_one (get rest 0) ≡ 1
  first_rest n = ground (arith, get-set ss (c - m) 0 none, low, high, v.first)

  last_rest : c + 1 ≢ m + count ss → live_one (get rest (count ss - 1)) ≡ 1
  last_rest n = ground (arith, get-set ss (c - m) (count ss - 1) none, low, high, v.last)

  whole_table : count ss ≡ 1 → IsPruned c m ss 0 m end
  whole_table one = record {
    tight = end-IsTight m (omega (arith, v.fits));
    gone = λ y. ground (arith, get_beyond ss (y - m), low, high);
  }

  -- One pointer is left.
  one_pointer :
      (i : ℕ) (u : Trie)
      → live_of rest ≡ 1
      → i < count ss
      → get rest i ≡ some u
      → IsPruned c m ss 1 (m + i) (link u end)
  one_pointer i u one lt e = record {
    tight = record {
      live_eq = refl;
      first = λ _. refl;
      last = λ _. ground arith;
      fits = omega (arith, v.fits);
    };
    gone = λ y. ground (
      arith,
      one_live rest i (y - m) u one e,
      gone_rest y,
      get_beyond (link u end) (y - (m + i)),
    );
  }

  from_left :
      c ≡ m
      → 0 < live_of rest
      → 1 < count ss
      → IsPruned c m ss (live - 1) (m + skipped rest) (trim_left rest)
  from_left e pos more = record {
    tight = record {
      live_eq = omega (arith, live_of-rest, live_of-trim_left rest);
      first = λ _. ground (arith, trim_left_first rest pos);
      last = λ h.
          let place : count (trim_left rest) - 1 + skipped rest ≡ count ss - 1 =
            omega (arith, count-trim_left rest, count-rest) in
          ap live_one
            (get-trim_left rest (count (trim_left rest) - 1) ∙ ap (λ (k : ℕ). get rest k) place)
          ∙ last_rest (omega arith);
      fits = omega (arith, count-trim_left rest, count-rest, v.fits);
    };
    gone = λ y.
        ground (
          arith,
          get-trim_left rest (y - (m + skipped rest)),
          get-skipped rest (y - m),
          gone_rest y,
        );
  }

  from_right :
      c + 1 ≡ m + count ss
      → 0 < live_of rest
      → 1 < count ss
      → IsPruned c m ss (live - 1) m (trim_right rest)
  from_right e pos more = record {
    tight = record {
      live_eq = omega (arith, live_of-rest, live_of-trim_right rest);
      first = λ _. ground (arith, get-trim_right rest 0, first_rest);
      last = λ h. trim_right_last rest h;
      fits = omega (arith, count-trim_right rest, count-rest, v.fits);
    };
    gone = λ y. ground (arith, get-trim_right rest (y - m), gone_rest y);
  }

  inside : c ≢ m → c + 1 ≢ m + count ss → IsPruned c m ss (live - 1) m rest
  inside n n' = record {
    tight = record {
      live_eq = omega (arith, live_of-rest);
      first = λ _. first_rest n;
      last = λ _. ground (arith, count-rest, last_rest);
      fits = omega (arith, count-rest, v.fits);
    };
    gone = λ y. gone_rest y;
  }

  -- What `prune` gives: no assertion fails.
  abbrev pub Pruned : ℕ → Option Trie → Type 0
  Pruned r o =
      (m' : ℕ) × (live' : ℕ) × (ss' : Slots) × (o ≡ some (node r m' live' ss'))
      × IsPruned c m ss live' m' ss'

  two_ends : c ≢ m → c + 1 ≢ m + count ss → 1 < count ss → 2 ≤ live_of rest
  two_ends n n' more =
      let gone = live_of-set rest 0 none (omega (arith, count-rest)) in
      ground (
        arith,
        gone,
        first_rest n,
        last_rest n',
        live_one-le (set rest 0 none) (count ss - 1),
        get-set rest 0 (count ss - 1) none,
        count-rest,
      )

  ends-live : 1 < count ss → 1 < live
  ends-live more =
      let gone = live_of-set ss 0 none (omega arith) in
      ground (
        arith,
        gone,
        v.first,
        v.last,
        live_one-le (set ss 0 none) (count ss - 1),
        get-set ss 0 (count ss - 1) none,
        v.live_eq,
      )

  last_pointer : (r : ℕ) → 1 < count ss → live_of rest ≡ 1 → Pruned r (compact c r m 1 rest)
  unfolding compact
  last_pointer r more one = elim (Bool-cases (c == m)) [
    | inl left ↦
        let (u, e) = live_get (get rest (count ss - 1)) (last_rest (ground arith)) in
        (
          m + (count ss - 1),
          1,
          link u end,
          ground (arith, e, count-rest),
          one_pointer (count ss - 1) u one (omega arith) e,
        )
    | inr other ↦ elim (Bool-cases (c == m + count ss - 1)) [
      | inl right ↦
          let (u, e) = live_get (get rest 0) (first_rest (ground arith)) in
          (m + 0, 1, link u end, ground (arith, e, count-rest), one_pointer 0 u one (omega arith) e)
      | inr middle ↦ absurd (ground (arith, two_ends))
    ]
  ]

  more_pointers :
      (r : ℕ) → 1 < count ss → 1 < live_of rest → Pruned r (compact c r m (live - 1) rest)
  unfolding compact
  more_pointers r more several = elim (Bool-cases (c == m)) [
    | inl left ↦ (
      m + skipped rest,
      live - 1,
      trim_left rest,
      ground (arith, live_of-le (trim_left rest), live_of-trim_left rest, live_of-rest),
      from_left (ground arith) (omega arith) more,
    )
    | inr other ↦ elim (Bool-cases (c == m + count ss - 1)) [
      | inl right ↦ (
        m,
        live - 1,
        trim_right rest,
        ground (
          arith,
          live_of-le (trim_right rest),
          live_of-trim_right rest,
          live_of-rest,
          count-rest,
        ),
        from_right (ground arith) (omega arith) more,
      )
      | inr middle ↦ (
        m,
        live - 1,
        rest,
        ground (arith, live_of-rest, count-rest),
        inside (ground arith) (ground arith),
      )
    ]
  ]

  pub prune-Pruned : (r : ℕ) → Pruned r (prune c r m live ss)
  unfolding prune
  prune-Pruned r = elim (Bool-cases (count ss == 1)) [
    | inl one ↦
        let only : live ≡ 1 =
          omega (arith, live_of-le ss, live_of-rest, v.live_eq, ==_one (count ss) one) in
        (m, 0, end, ground arith, whole_table (ground arith))
    | inr other ↦
        let more : 1 < count ss = ground (arith, low, high) in
        let several : ltb 1 live ≡ true = ground (arith, ends-live more) in
        elim (Bool-cases (live_of rest == 1)) [
          | inl one ↦
              let (m', live', ss', e, p) = last_pointer r more (ground arith) in
              let two : live - 1 ≡ 1 = ground (arith, live_of-rest) in
              (m', live', ss', rw (other, several, two) e, p)
          | inr many ↦
              let (m', live', ss', e, p) =
                more_pointers r more (ground (arith, live_of-rest, ends-live more)) in
              (m', live', ss', rw (other, several) e, p)
        ]
  ]
