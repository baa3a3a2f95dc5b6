-- ===== src/Trie/Extend.antt =====
-- trie.cpp: `add` extends a table without changing what it holds.
use zmq.Base.{
  ℕ, ◌+◌, ◌-◌, ◌≤◌, ◌<◌, ◌≡◌, ◌⊎◌, inl, inr, refl, arith, true, false, ◌==◌, ltb, min,
  if◌then◌else◌, Option, none, Bool-cases,
}
use zmq.Trie.{Trie, Slots, end, null, count, get, set, nulls, extended, outside, extend}
use zmq.Trie.Tables.{
  live_of, live_one, get_beyond, get-set, count-set, live_of-set, get-nulls, count-nulls,
  live_of-nulls, get-extended, count-extended, live_of-extended, no_live, live_of-le, live_one-le,
}
use zmq.Trie.Valid.{at, IsTight}

-- The table `ss'` from `m'` on holds what `ss` from `m` on holds, and has a slot for `c`.
pub record IsExtension (c m : ℕ) (ss : Slots) (m' : ℕ) (ss' : Slots) : Type 0 where
  pub kept : (x : ℕ) → at x m' ss' ≡ at x m ss
  pub low : m' ≤ c
  pub high : c < m' + count ss'
  pub live_same : live_of ss' ≡ live_of ss
  pub within : m' + count ss' ≤ 256
  pub first : (c ≡ m') ⊎ (live_one (get ss' 0) ≡ 1)
  pub last : (c + 1 ≡ m' + count ss') ⊎ (live_one (get ss' (count ss' - 1)) ≡ 1)

get-moved :
    (n i j : ℕ) (p : Option Trie)
    → i < n
    → get (set (nulls n end) i p) j ≡ (if i == j then p else none)
get-moved n i j p h =
    ground (arith, get-set (nulls n end) i j p, count-nulls n end, get-nulls n end j)

module _ (c live m : ℕ) (ss : Slots) (byte : c < 256) (v : IsTight live m ss) where
  pub inside_case : outside c m ss ≡ false → IsExtension c m ss m ss
  inside_case h = record {
    kept = λ x. refl;
    low = ground arith;
    high = ground arith;
    live_same = refl;
    within = v.fits;
    first = inr (v.first (ground arith));
    last = inr (v.last (ground arith));
  }

  empty_case : count ss ≡ 0 → IsExtension c m ss c (null end)
  empty_case h = record {
    kept = λ x. ground (arith, no_live (null end) (x - c), get_beyond ss (x - m));
    low = omega arith;
    high = omega arith;
    live_same = ground (arith, live_of-le ss);
    within = omega arith;
    first = inl refl;
    last = inl refl;
  }

  single_live : count ss ≡ 1 → live_of ss ≡ 1
  single_live h = omega (arith, live_of-le ss, live_one-le ss 0, v.first)

  -- One pointer in a new table of `n` slots, from `lo` on.
  single_case :
      (lo i n : ℕ)
      → count ss ≡ 1
      → lo + i ≡ m
      → i < n
      → lo ≤ c
      → c < lo + n
      → lo + n ≤ 256
      → (c ≡ lo) ⊎ (i ≡ 0)
      → (c + 1 ≡ lo + n) ⊎ (i + 1 ≡ n)
      → IsExtension c m ss lo (set (nulls n end) i (get ss 0))
  single_case lo i n h place inside low high within first last =
      let p = get ss 0 in
      let size = count-set (nulls n end) i p in
      let empty = count-nulls n end in
      let live = live_of-set (nulls n end) i p in
      record {
        kept = λ x. ground (arith, get-moved n i (x - lo) p inside, get_beyond ss (x - m));
        low = low;
        high = omega (arith, size, empty);
        live_same =
            ground
              (arith, live, empty, live_of-nulls n end, get-nulls n end i, single_live h, v.first);
        within = omega (arith, size, empty);
        first = elim first [
          | inl e ↦ inl e
          | inr e ↦ inr (ground (arith, get-moved n i 0 p inside, v.first))
        ];
        last = elim last [
          | inl e ↦ inl (omega (arith, size, empty))
          | inr e ↦ inr (
              ground (
                arith,
                get-moved n i (count (set (nulls n end) i p) - 1) p inside,
                size,
                empty,
                v.first,
              ))
        ];
      }

  above_case :
      outside c m ss ≡ true
      → ltb m c ≡ true
      → 0 < count ss
      → IsExtension c m ss m (extended ss (c - m + 1 - count ss))
  above_case o h pos =
      let n = c - m + 1 - count ss in
      let size = count-extended ss n in
      record {
        kept = λ x. ground (arith, get-extended ss n (x - m));
        low = ground arith;
        high = ground (arith, size);
        live_same = live_of-extended ss n;
        within = ground (arith, size, v.fits);
        first = inr (ground (arith, get-extended ss n 0, v.first));
        last = inl (ground (arith, size));
      }

  below_case :
      outside c m ss ≡ true
      → ltb m c ≡ false
      → 0 < count ss
      → IsExtension c m ss c (nulls (m - c) ss)
  below_case o h pos =
      let size = count-nulls (m - c) ss in
      record {
        kept = λ x. ground (arith, get-nulls (m - c) ss (x - c), v.fits);
        low = omega arith;
        high = ground (arith, size);
        live_same = live_of-nulls (m - c) ss;
        within = ground (arith, size, v.fits);
        first = inl refl;
        last =
            inr (ground (arith, size, get-nulls (m - c) ss (count (nulls (m - c) ss) - 1), v.last));
      }

  pub extend-IsExtension : IsExtension c m ss (extend c m ss).0 (extend c m ss).1
  unfolding extend
  extend-IsExtension = elim (Bool-cases (outside c m ss)) [
    | inr o ↦ rw o (inside_case o)
    | inl o ↦ elim (Bool-cases (count ss == 0)) [
      | inl e ↦ rw (o, e) (empty_case (ground arith))
      | inr e ↦ elim (Bool-cases (count ss == 1)) [
        | inl one ↦
            let n = (if ltb m c then c - m else m - c) + 1 in
            rw (o, e, one)
              (single_case (min m c) (m - min m c) n (ground arith) (omega arith) (ground arith)
                (omega arith) (ground arith) (ground (arith, v.fits))
                (elim (Bool-cases (ltb m c)) [
                  | inl above ↦ inr (ground arith)
                  | inr below ↦ inl (ground arith)
                ])
                (elim (Bool-cases (ltb m c)) [
                  | inl above ↦ inl (ground arith)
                  | inr below ↦ inr (ground arith)
                ]))
        | inr more ↦ elim (Bool-cases (ltb m c)) [
          | inl above ↦ rw (o, e, more, above) (above_case o above (ground arith))
          | inr below ↦ rw (o, e, more, below) (below_case o below (ground arith))
        ]
      ]
    ]
  ]
