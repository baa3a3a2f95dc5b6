-- ===== src/Trie/Add.antt =====
-- trie.cpp: `add` counts a key once more.
use mathlib.Core.Path.{subst}
use zmq.Base.{
  ℕ, ◌+◌, ◌-◌, ◌%◌, ◌^◌, ◌<◌, ◌≡◌, inl, inr, refl, arith, ap, ◌∙◌, sym, Bool, true, false, ◌==◌,
  if◌then◌else◌, Option, none, some, List, [], ◌∷◌, Bool-cases,
}
use zmq.Trie.{
  Trie, node, Slots, count, get, set, is_redundant, or_create, or_one_more, live_ok, store, extend,
  add,
}
use zmq.Trie.Tables.{get-set, count-set, live_of-set, live_of-le, live_one-le}
use zmq.Trie.Valid.{
  at, IsTight, IsValid, valid, refcnt_at, refcnt_at_child, create-IsValid, IsKey, same_key, at-set,
}
use zmq.Trie.Extend.{IsExtension, extend-IsExtension}

-- The state of a node after `add` went to its child at `c`.
module _ (c live m : ℕ) (ss : Slots) (v : IsTight live m ss) (m' : ℕ) (ss' : Slots)
    (x : IsExtension c m ss m' ss') (u : Trie) where
  live' : ℕ
  live' = or_one_more (get ss' (c - m')) live

  stored-IsTight : IsTight live' m' (set ss' (c - m') (some u))
  unfolding live'
  stored-IsTight =
      let size = count-set ss' (c - m') (some u) in
      let sum = live_of-set ss' (c - m') (some u) (omega (arith, x.low, x.high)) in
      record {
        live_eq = ground (arith, sum, v.live_eq, x.live_same);
        first = λ h. ground (arith, get-set ss' (c - m') 0 (some u), x.first, x.low, x.high);
        last = λ h. ground (
          arith,
          size,
          get-set ss' (c - m') (count (set ss' (c - m') (some u)) - 1) (some u),
          x.last,
          x.low,
          x.high,
        );
        fits = omega (arith, size, x.within);
      }

  stored-live_ok : live_ok (get ss' (c - m')) (count ss') live' ≡ true
  unfolding live'
  stored-live_ok =
      let size = count-set ss' (c - m') (some u) in
      let sum = live_of-set ss' (c - m') (some u) (omega (arith, x.low, x.high)) in
      ground (
        arith,
        sum,
        size,
        live_of-le (set ss' (c - m') (some u)),
        v.live_eq,
        x.live_same,
        x.first,
        x.last,
        x.low,
        x.high,
        live_one-le ss' 0,
        live_one-le ss' (count ss' - 1),
      )

  stored-pos : 0 < live'
  unfolding live'
  stored-pos = ground (arith, live_one-le ss' (c - m'), v.live_eq, x.live_same)

  -- The child `u` in its place, and the others as they were.
  at-stored : (y : ℕ) → at y m' (set ss' (c - m') (some u)) ≡ (if c == y then some u else at y m ss)
  at-stored y = ground (arith, at-set c m' y ss' (some u) x.low x.high, x.kept y)

  stored-IsValid :
      (r : ℕ)
      → IsValid u
      → is_redundant u ≡ false
      → ((y : ℕ) (t : Trie) → at y m ss ≡ some t → IsValid t)
      → ((y : ℕ) (t : Trie) → at y m ss ≡ some t → is_redundant t ≡ false)
      → IsValid (node r m' live' (set ss' (c - m') (some u)))
  stored-IsValid r vu nu vs ns =
      valid stored-IsTight
        (λ y t e. elim (Bool-cases (c == y)) [
          | inl same ↦ let e' : u ≡ t = ground (arith, at-stored y) in subst IsValid e' vu
          | inr other ↦ vs y t (ground (arith, at-stored y))
        ])
        (λ y t e. elim (Bool-cases (c == y)) [
          | inl same ↦
              let e' : u ≡ t = ground (arith, at-stored y) in
              subst (λ w. is_redundant w ≡ false) e' nu
          | inr other ↦ ns y t (ground (arith, at-stored y))
        ])

  stored-refcnt_at :
      (r : ℕ) (cs key : List ℕ)
      → ((k : List ℕ)
          → refcnt_at k u ≡ (if same_key cs k then 1 else 0) + refcnt_at k (or_create (at c m ss)))
      → refcnt_at key (node r m' live' (set ss' (c - m') (some u)))
        ≡ (if same_key (c ∷ cs) key then 1 else 0) + refcnt_at key (node r m live ss)
  stored-refcnt_at r cs [] h = unfold refcnt_at in omega arith
  stored-refcnt_at r cs (y ∷ ys) h =
      let before = refcnt_at_child y ys r m live ss in
      let after = refcnt_at_child y ys r m' live' (set ss' (c - m') (some u)) in
      elim (Bool-cases (c == y)) [
        | inl same ↦
            let e : c ≡ y = ground arith in
            let here : at y m' (set ss' (c - m') (some u)) ≡ some u = ground (arith, at-stored y) in
            let now = after ∙ ap (λ o. refcnt_at ys (or_create o)) here in
            let was = before ∙ ap (λ (z : ℕ). refcnt_at ys (or_create (at z m ss))) (sym e) in
            ground (arith, now, was, h ys)
        | inr other ↦
            let there : at y m' (set ss' (c - m') (some u)) ≡ at y m ss =
              ground (arith, at-stored y) in
            let now = after ∙ ap (λ o. refcnt_at ys (or_create o)) there in
            ground (arith, now, before)
      ]

next_child :
    (c m m' : ℕ) (ss ss' : Slots) → IsExtension c m ss m' ss' → get ss' (c - m') ≡ at c m ss
next_child c m m' ss ss' x = ground (arith, x.kept c, x.low)

-- What `add` gives for a node.
abbrev pub Added : List ℕ → Trie → Option (Bool × Trie) → Type 0
Added key t o =
    (t' : Trie) × (o ≡ some (refcnt_at key t == 0, t'))
    × IsValid t'
    × (is_redundant t' ≡ false)
    × ((k : List ℕ) → refcnt_at k t' ≡ (if same_key key k then 1 else 0) + refcnt_at k t)

add_child :
    (c : ℕ) (cs : List ℕ) (r m live : ℕ) (ss : Slots)
    → c < 256
    → IsTight live m ss
    → ((y : ℕ) (t : Trie) → at y m ss ≡ some t → IsValid t)
    → ((y : ℕ) (t : Trie) → at y m ss ≡ some t → is_redundant t ≡ false)
    → Added cs (or_create (at c m ss)) (add cs (or_create (at c m ss)))
    → Added (c ∷ cs) (node r m live ss) (add (c ∷ cs) (node r m live ss))
unfolding add
add_child c cs r m live ss byte v vs ns (u, e, vu, nu, counts) =
    let x = extend-IsExtension c live m ss byte v in
    let m' = (extend c m ss).0 in
    let ss' = (extend c m ss).1 in
    let next = next_child c m m' ss ss' x in
    let live'' = or_one_more (get ss' (c - m')) live in
    let ok : live_ok (get ss' (c - m')) (count ss') live'' ≡ true =
      unfold live' in stored-live_ok c live m ss v m' ss' x u in
    let pos : 0 < live'' = unfold live' in stored-pos c live m ss v m' ss' x u in
    (
      node r m' live'' (set ss' (c - m') (some u)),
      rw ok (
          ap (λ o. store r m' live'' ss' (c - m') (add cs (or_create o))) next
          ∙ ap (store r m' live'' ss' (c - m')) e
          ∙ ap (λ (n : ℕ). some (n == 0, node r m' live'' (set ss' (c - m') (some u))))
              (sym (refcnt_at_child c cs r m live ss))),
      (unfold live' in stored-IsValid c live m ss v m' ss' x u r vu nu vs ns),
      ground arith,
      (unfold live' in λ k. stored-refcnt_at c live m ss v m' ss' x u r cs k counts),
    )

or_create-IsValid :
    (o : Option Trie) → ((t : Trie) → o ≡ some t → IsValid t) → IsValid (or_create o)
or_create-IsValid none h = create-IsValid
or_create-IsValid (some t) h = h t refl

add_root :
    (r m live : ℕ) (ss : Slots) (k : List ℕ)
    → refcnt_at k (node (r + 1) m live ss)
      ≡ (if same_key [] k then 1 else 0) + refcnt_at k (node r m live ss)
unfolding refcnt_at
add_root r m live ss [] = omega arith
add_root r m live ss (y ∷ ys) = omega arith

add_nil :
    (r m live : ℕ) (ss : Slots)
    → r + 1 < 2 ^ 32
    → add [] (node r m live ss) ≡ some (r == 0, node (r + 1) m live ss)
unfolding add
add_nil r m live ss h =
    let no_wrap : (r + 1) % 2 ^ 32 ≡ r + 1 = ground arith in
    let once : ((r + 1) == 1) ≡ (r == 0) = ground arith in rw (no_wrap, once) refl

-- On a valid trie, `add` of a key that has a count of less than 2 ^ 32 - 1
-- meets no failed assertion and leaves a valid trie; it returns whether the key was
-- not in the trie, counts that key once more and every other key as before.
pub add_lem :
    (key : List ℕ) (t : Trie)
    → IsKey key
    → IsValid t
    → refcnt_at key t + 1 < 2 ^ 32
    → Added key t (add key t)
add_lem [] (node r m live ss) k (valid v vs ns) h =
    unfold refcnt_at in
    (
      node (r + 1) m live ss,
      add_nil r m live ss h,
      valid v vs ns,
      ground arith,
      add_root r m live ss,
    )
add_lem (c ∷ cs) (node r m live ss) (byte, k) (valid v vs ns) h =
    add_child c cs r m live ss byte v vs ns (
      add_lem cs (or_create (at c m ss)) k (or_create-IsValid (at c m ss) (λ t e. vs c t e))
        (omega (arith, refcnt_at_child c cs r m live ss)))
