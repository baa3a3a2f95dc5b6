-- ===== src/Trie/Rm.antt =====
-- trie.cpp: `rm` counts a key once less.
use mathlib.Core.Path.{subst}
use zmq.Base.{
  ℕ, ◌+◌, ◌-◌, ◌<◌, ◌≡◌, inl, inr, refl, arith, ap, ◌∙◌, sym, Bool, true, false, ◌||◌, ◌==◌,
  if◌then◌else◌, Option, none, some, List, [], ◌∷◌, Bool-cases, Option-cases,
}
use zmq.Trie.{Trie, node, Slots, count, get, set, is_redundant, or_create, outside, back, rm}
use zmq.Trie.Tables.{get-set, count-set, live_of-set, get_beyond, no_live}
use zmq.Trie.Valid.{
  at, IsTight, IsValid, valid, refcnt_at, refcnt_at_child, refcnt_at-create, same_key, at-set,
}
use zmq.Trie.Prune.{prune-Pruned}

-- What `rm` gives.
abbrev pub Removed : List ℕ → Trie → Option (Bool × Trie) → Type 0
Removed key t o =
    (t' : Trie) × (o ≡ some (refcnt_at key t == 1, t'))
    × IsValid t'
    × ((k : List ℕ) → refcnt_at k t' ≡ refcnt_at k t - (if same_key key k then 1 else 0))

same_key-refcnt_at :
    (xs ys : List ℕ) (t : Trie) → same_key xs ys ≡ true → refcnt_at xs t ≡ refcnt_at ys t
same_key-refcnt_at xs ys t h = ap (λ k. refcnt_at k t) (same xs ys h)
  where
    same : (xs ys : List ℕ) → same_key xs ys ≡ true → xs ≡ ys
    same [] [] h = refl
    same [] (y ∷ ys) h = absurd (ground arith)
    same (x ∷ xs) [] h = absurd (ground arith)
    same (x ∷ xs) (y ∷ ys) h = ground (arith, same xs ys)

-- The key was not there.
absent :
    (key : List ℕ) (t : Trie) → IsValid t → refcnt_at key t ≡ 0 → Removed key t (some (false, t))
absent key t v z = (
  t,
  ground arith,
  v,
  λ k. elim (Bool-cases (same_key key k)) [
    | inl e ↦ ground (arith, same_key-refcnt_at key k t e)
    | inr e ↦ ground arith
  ],
)

-- A redundant valid node counts nothing.
redundant-refcnt_at :
    (t : Trie) (k : List ℕ) → IsValid t → is_redundant t ≡ true → refcnt_at k t ≡ 0
redundant-refcnt_at (node r m live ss) [] v h = unfold refcnt_at in ground arith
redundant-refcnt_at (node r m live ss) (y ∷ ys) (valid v vs ns) h =
    let none_there : at y m ss ≡ none = ground (arith, no_live ss (y - m), v.live_eq) in
    refcnt_at_child y ys r m live ss ∙ rw none_there (refcnt_at-create ys)

-- The child at `c` became `o`, which counts one key less.
module _ (c r m live : ℕ) (ss : Slots) (t : Trie) (m' live' : ℕ) (ss' : Slots) (o : Option Trie)
    (hit : at c m ss ≡ some t)
    (moved : (y : ℕ) → at y m' ss' ≡ (if c == y then o else at y m ss)) where
  child_counts :
      (cs key : List ℕ)
      → ((k : List ℕ)
          → refcnt_at k (or_create o) ≡ refcnt_at k t - (if same_key cs k then 1 else 0))
      → refcnt_at key (node r m' live' ss')
        ≡ refcnt_at key (node r m live ss) - (if same_key (c ∷ cs) key then 1 else 0)
  child_counts cs [] h = unfold refcnt_at in omega arith
  child_counts cs (y ∷ ys) h =
      let before = refcnt_at_child y ys r m live ss in
      let after = refcnt_at_child y ys r m' live' ss' in
      elim (Bool-cases (c == y)) [
        | inl same ↦
            let e : c ≡ y = ground arith in
            let here : at y m' ss' ≡ o = ground (arith, moved y) in
            let there : at y m ss ≡ some t = ap (λ (z : ℕ). at z m ss) (sym e) ∙ hit in
            let now = after ∙ ap (λ o'. refcnt_at ys (or_create o')) here in
            let was = before ∙ ap (λ o'. refcnt_at ys (or_create o')) there in
            ground (arith, now, was, h ys)
        | inr other ↦
            let there : at y m' ss' ≡ at y m ss = ground (arith, moved y) in
            let now = after ∙ ap (λ o'. refcnt_at ys (or_create o')) there in
            ground (arith, now, before)
      ]

  child-IsValid :
      IsTight live' m' ss'
      → ((y : ℕ) (u : Trie) → at y m ss ≡ some u → IsValid u)
      → ((y : ℕ) (u : Trie) → at y m ss ≡ some u → is_redundant u ≡ false)
      → ((u : Trie) → o ≡ some u → IsValid u × (is_redundant u ≡ false))
      → IsValid (node r m' live' ss')
  child-IsValid v vs ns new =
      valid v
        (λ y u e. elim (Bool-cases (c == y)) [
          | inl same ↦ (new u (ground (arith, moved y))).0
          | inr other ↦ vs y u (ground (arith, moved y))
        ])
        (λ y u e. elim (Bool-cases (c == y)) [
          | inl same ↦ (new u (ground (arith, moved y))).1
          | inr other ↦ ns y u (ground (arith, moved y))
        ])

-- A node that stays is stored in its place.
stored-IsTight :
    (c live m : ℕ) (ss : Slots) (t u : Trie)
    → at c m ss ≡ some t
    → IsTight live m ss
    → IsTight live m (set ss (c - m) (some u))
stored-IsTight c live m ss t u hit v =
    let high : c < m + count ss = ground (arith, get_beyond ss (c - m)) in
    let size = count-set ss (c - m) (some u) in
    record {
      live_eq = ground (arith, live_of-set ss (c - m) (some u), v.live_eq);
      first = λ h. ground (arith, get-set ss (c - m) 0 (some u), v.first);
      last = λ h.
          ground (
            arith,
            size,
            get-set ss (c - m) (count (set ss (c - m) (some u)) - 1) (some u),
            v.last,
          );
      fits = omega (arith, size, v.fits);
    }

missing-refcnt_at :
    (c : ℕ) (cs : List ℕ) (r m live : ℕ) (ss : Slots)
    → at c m ss ≡ none
    → refcnt_at (c ∷ cs) (node r m live ss) ≡ 0
missing-refcnt_at c cs r m live ss e = refcnt_at_child c cs r m live ss ∙ rw e (refcnt_at-create cs)

found-refcnt_at :
    (c : ℕ) (cs : List ℕ) (r m live : ℕ) (ss : Slots) (t : Trie)
    → at c m ss ≡ some t
    → refcnt_at (c ∷ cs) (node r m live ss) ≡ refcnt_at cs t
found-refcnt_at c cs r m live ss t e =
    refcnt_at_child c cs r m live ss ∙ ap (λ o. refcnt_at cs (or_create o)) e

-- The way back from the child `t`, which became `u`.
back_lem :
    (c : ℕ) (cs : List ℕ) (r m live : ℕ) (ss : Slots) (t : Trie) (o : Option (Bool × Trie))
    → IsTight live m ss
    → ((y : ℕ) (u : Trie) → at y m ss ≡ some u → IsValid u)
    → ((y : ℕ) (u : Trie) → at y m ss ≡ some u → is_redundant u ≡ false)
    → at c m ss ≡ some t
    → Removed cs t o
    → Removed (c ∷ cs) (node r m live ss) (back c r m live ss o)
back_lem c cs r m live ss t o v vs ns hit (u, e, vu, counts) =
    let ret = sym (found-refcnt_at c cs r m live ss t hit) in
    elim (Bool-cases (is_redundant u)) [
      | inl redundant ↦
          let (m', live', ss', e', p) = prune-Pruned c live m ss t v hit r in
          (
            node r m' live' ss',
            ap (back c r m live ss) e
                ∙ rw (redundant, e') (ap (λ (n : ℕ). some (n == 1, node r m' live' ss')) ret),
            child-IsValid c r m live ss t m' live' ss' none hit p.gone p.tight vs ns
                (λ w f. absurd (ground arith)),
            λ key.
                child_counts c r m live ss t m' live' ss' none hit p.gone cs key
                  (λ k. refcnt_at-create k ∙ sym (redundant-refcnt_at u k vu redundant) ∙ counts k),
          )
      | inr kept ↦
          let ss' = set ss (c - m) (some u) in
          let moved = λ (y : ℕ).
            at-set c m y ss (some u) (ground arith) (ground (arith, get_beyond ss (c - m))) in
          (
            node r m live ss',
            ap (back c r m live ss) e
                ∙ rw kept (ap (λ (n : ℕ). some (n == 1, node r m live ss')) ret),
            child-IsValid c r m live ss t m live ss' (some u) hit moved
                (stored-IsTight c live m ss t u hit v) vs ns
                (λ w f. subst (λ x. IsValid x × (is_redundant x ≡ false)) (cc) (vu, kept)),
            λ key. child_counts c r m live ss t m live ss' (some u) hit moved cs key counts,
          )
    ]

rm_root :
    (r m live : ℕ) (ss : Slots) (k : List ℕ)
    → refcnt_at k (node (r - 1) m live ss)
      ≡ refcnt_at k (node r m live ss) - (if same_key [] k then 1 else 0)
unfolding refcnt_at
rm_root r m live ss [] = refl
rm_root r m live ss (y ∷ ys) = omega arith

-- `rm` on a valid trie meets no failed assertion and leaves a valid trie; it returns whether the key
-- was counted just once, and counts that key once less, if it was there, and every other key as before.
pub rm_lem : (key : List ℕ) (t : Trie) → IsValid t → Removed key t (rm key t)
unfolding rm
rm_lem [] (node r m live ss) (valid v vs ns) = elim (Bool-cases (r == 0)) [
  | inl z ↦ rw z (absent [] (node r m live ss) (valid v vs ns) (unfold refcnt_at in ground arith))
  | inr pos ↦ rw pos (
    node (r - 1) m live ss,
    (unfold refcnt_at in ground arith),
    valid v vs ns,
    rm_root r m live ss,
  )
]
rm_lem (c ∷ cs) (node r m live ss) (valid v vs ns) =
    elim (Bool-cases (count ss == 0 || outside c m ss)) [
      | inl out ↦ rw out (
          absent (c ∷ cs) (node r m live ss) (valid v vs ns)
            (missing-refcnt_at c cs r m live ss (ground (arith, get_beyond ss (c - m)))))
      | inr within ↦ elim (Option-cases (get ss (c - m))) [
        | inl e ↦
            rw (within, e)
              (absent (c ∷ cs) (node r m live ss) (valid v vs ns)
                (missing-refcnt_at c cs r m live ss (ground arith)))
        | inr (t, e) ↦
            let hit : at c m ss ≡ some t = ground arith in
            rw (within, e)
              (back_lem c cs r m live ss t (rm cs t) v vs ns hit (rm_lem cs t (vs c t hit)))
      ]
    ]
