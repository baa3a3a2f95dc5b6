-- ===== src/Trie/Valid.antt =====
-- trie.cpp: the shape of a trie, and the count of a key.
use zmq.Base.{
  ℕ, ◌+◌, ◌-◌, ◌≤◌, ◌<◌, ◌≡◌, refl, sym, arith, Bool, true, false, ◌&&◌, ◌==◌, ltb, if◌then◌else◌,
  Option, none, some, List, [], ◌∷◌, All,
}
use zmq.Trie.{Trie, node, Slots, end, count, get, set, is_redundant, create, or_create}
use zmq.Trie.Tables.{live_of, live_one, get-set}

-- The child at the character `c`.
abbrev pub at : ℕ → ℕ → Slots → Option Trie
at c m ss = if ltb c m then none else get ss (c - m)

-- The table is as short as it can be, and `_live_nodes` counts its pointers.
pub record IsTight (live m : ℕ) (ss : Slots) : Type 0 where
  pub live_eq : live ≡ live_of ss
  pub first : 0 < count ss → live_one (get ss 0) ≡ 1
  pub last : 0 < count ss → live_one (get ss (count ss - 1)) ≡ 1
  pub fits : m + count ss ≤ 256

-- Every node has a tight table, and none but the root is redundant.
pub data IsValid : Trie → Type 0 where
  valid :
      {r m live : ℕ} {ss : Slots}
      → IsTight live m ss
      → ((c : ℕ) (t : Trie) → at c m ss ≡ some t → IsValid t)
      → ((c : ℕ) (t : Trie) → at c m ss ≡ some t → is_redundant t ≡ false)
      → IsValid (node r m live ss)

-- How often the key was added: `_refcnt` of its node.
unfoldable pub refcnt_at : List ℕ → Trie → ℕ
refcnt_at [] (node r m live ss) = r
refcnt_at (c ∷ cs) (node r m live ss) = elim (at c m ss) [ none ↦ 0 | some t ↦ refcnt_at cs t ]

-- The count by way of the child; a fresh node counts nothing.
pub refcnt_at-create : (key : List ℕ) → refcnt_at key create ≡ 0
unfolding refcnt_at
refcnt_at-create [] = refl
refcnt_at-create (c ∷ cs) = ground arith

pub refcnt_at_child :
    (c : ℕ) (cs : List ℕ) (r m live : ℕ) (ss : Slots)
    → refcnt_at (c ∷ cs) (node r m live ss) ≡ refcnt_at cs (or_create (at c m ss))
unfolding refcnt_at
refcnt_at_child c cs r m live ss = go (at c m ss)
  where
    go :
        (o : Option Trie)
        → (elim o as (λ _. ℕ) [ none ↦ 0 | some t ↦ refcnt_at cs t ]) ≡ refcnt_at cs (or_create o)
    go none = sym (refcnt_at-create cs)
    go (some t) = refl

pub end-IsTight : (m : ℕ) → m ≤ 256 → IsTight 0 m end
end-IsTight m h = record {
  live_eq = refl;
  first = λ h. absurd (omega arith);
  last = λ h. absurd (omega arith);
  fits = omega arith;
}

pub create-IsValid : IsValid create
create-IsValid =
    valid (end-IsTight 0 (omega arith)) (λ c t e. absurd (ground arith))
      (λ c t e. absurd (ground arith))

abbrev pub IsKey : List ℕ → Type 0
IsKey = All (λ c. c < 256)

abbrev pub same_key : List ℕ → List ℕ → Bool
same_key [] [] = true
same_key [] (_ ∷ _) = false
same_key (_ ∷ _) [] = false
same_key (x ∷ xs) (y ∷ ys) = x == y && same_key xs ys

-- A slot of an extended table is written.
pub at-set :
    (c m x : ℕ) (ss : Slots) (v : Option Trie)
    → m ≤ c
    → c < m + count ss
    → at x m (set ss (c - m) v) ≡ (if c == x then v else at x m ss)
at-set c m x ss v low high = ground (arith, get-set ss (c - m) (x - m) v)
