-- ===== src/Trie.antt =====
-- zeromq-4.3.1/src/trie.hpp and zeromq-4.3.1/src/trie.cpp: the trie of the subscriptions. A node has
-- `_refcnt`, `_min`, `_live_nodes` and its `_count` pointers: the union of one pointer and a table of
-- pointers is the list of them, with a `null` for NULL. A result `none` of an operation is a failed
-- assertion or a NULL that is followed. Freed memory leaves no trace, and memory never runs out.
pub mod Tables
pub mod Valid
pub mod Extend
pub mod Add
pub mod Prune
pub mod Rm
pub mod Check
pub mod Apply
pub mod Run
mod Tests
use zmq.Base.{
  ℕ, zero, suc, ◌+◌, ◌-◌, ◌%◌, ◌^◌, Bool, true, false, not, ◌&&◌, ◌||◌, ◌==◌, ltb, leb, min,
  if◌then◌else◌, Option, none, some, List, [], ◌∷◌, ◌++◌,
}

mutual
  pub data Trie : Type 0 where
    node : ℕ → ℕ → ℕ → Slots → Trie

  pub data Slots : Type 0 where
    end : Slots
    null : Slots → Slots
    link : Trie → Slots → Slots

-- The constructor.
abbrev pub create : Trie
create = node 0 0 0 end

-- `_count`.
abbrev pub count : Slots → ℕ
count end = 0
count (null ss) = suc (count ss)
count (link t ss) = suc (count ss)

-- `_next.table[i]`; NULL is `none`.
abbrev pub get : Slots → ℕ → Option Trie
get end i = none
get (null ss) zero = none
get (link t ss) zero = some t
get (null ss) (suc i) = get ss i
get (link t ss) (suc i) = get ss i

abbrev pub slot : Option Trie → Slots → Slots
slot none ss = null ss
slot (some t) ss = link t ss

abbrev pub set : Slots → ℕ → Option Trie → Slots
set end i v = end
set (null ss) zero v = slot v ss
set (link t ss) zero v = slot v ss
set (null ss) (suc i) v = null (set ss i v)
set (link t ss) (suc i) v = link t (set ss i v)

-- `n` NULLs in front of others, and behind them.
abbrev pub nulls : ℕ → Slots → Slots
nulls zero ss = ss
nulls (suc n) ss = null (nulls n ss)

abbrev pub extended : Slots → ℕ → Slots
extended end n = nulls n end
extended (null ss) n = null (extended ss n)
extended (link t ss) n = link t (extended ss n)

-- The slots from the first pointer on, and how many stand before it.
abbrev pub trim_left : Slots → Slots
trim_left end = end
trim_left (null ss) = trim_left ss
trim_left (link t ss) = link t ss

abbrev pub skipped : Slots → ℕ
skipped end = 0
skipped (null ss) = suc (skipped ss)
skipped (link t ss) = 0

-- The slots up to the last pointer.
abbrev pub null_before : Slots → Slots
null_before end = end
null_before (null ss) = null (null ss)
null_before (link t ss) = null (link t ss)

abbrev pub trim_right : Slots → Slots
trim_right end = end
trim_right (null ss) = null_before (trim_right ss)
trim_right (link t ss) = link t (trim_right ss)

-- `c < _min || c >= _min + _count`.
abbrev pub outside : ℕ → ℕ → Slots → Bool
outside c m ss = ltb c m || leb (m + count ss) c

-- The table is extended so that it has a slot for `c`: the new `_min` and the new slots.
pub extend : ℕ → ℕ → Slots → ℕ × Slots
extend c m ss =
    if not (outside c m ss)
    then (m, ss)
    else if count ss == 0
    then (c, null end)
    else if count ss == 1
    then (
      min m c,
      set (nulls ((if ltb m c then c - m else m - c) + 1) end) (m - min m c) (get ss 0),
    )
    else if ltb m c
    then (m, extended ss (c - m + 1 - count ss))
    else (c, nulls (m - c) ss)

abbrev pub or_create : Option Trie → Trie
or_create none = create
or_create (some t) = t

abbrev pub or_one_more : Option Trie → ℕ → ℕ
or_one_more none live = live + 1
or_one_more (some t) live = live

-- The assertions after the creation of a node.
abbrev pub live_ok : Option Trie → ℕ → ℕ → Bool
live_ok none n live = if n == 1 then live == 1 else ltb 1 live
live_ok (some t) n live = true

-- The pointer that `add` followed; the node may have changed.
abbrev pub store : ℕ → ℕ → ℕ → Slots → ℕ → Option (Bool × Trie) → Option (Bool × Trie)
store r m live ss i none = none
store r m live ss i (some (added, t)) = some (added, node r m live (set ss i (some t)))

pub add : List ℕ → Trie → Option (Bool × Trie)
unfolding extend
add [] (node r m live ss) = let r' = (r + 1) % 2 ^ 32 in some (r' == 1, node r' m live ss)
add (c ∷ cs) (node r m live ss) =
    let (m', ss') = extend c m ss in
    let next = get ss' (c - m') in
    let live' = or_one_more next live in
    let later = store r m' live' ss' (c - m') (add cs (or_create next)) in
    if live_ok next (count ss') live' then later else none

abbrev pub is_redundant : Trie → Bool
is_redundant (node r m live ss) = r == 0 && live == 0

-- One pointer is left, at the other end of the table; `zmq_assert (node)`.
abbrev pub single : ℕ → ℕ → Option Trie → Option Trie
single r m none = none
single r m (some t) = some (node r m 1 (link t end))

-- A table of several live pointers without the pruned one, at `c`.
pub compact : ℕ → ℕ → ℕ → ℕ → Slots → Option Trie
compact c r m live ss =
    if live == 1
    then (if c == m
        then single r (m + (count ss - 1)) (get ss (count ss - 1))
        else if c == m + count ss - 1
        then single r m (get ss 0)
        else none)
    else if c == m
    then (if count (trim_left ss) == 0
        then none
        else some (node r (m + skipped ss) live (trim_left ss)))
    else if c == m + count ss - 1
    then (if count (trim_right ss) == 0 then none else some (node r m live (trim_right ss)))
    else some (node r m live ss)

-- The pruned node was at `c`; the assertions on `_live_nodes`.
pub prune : ℕ → ℕ → ℕ → ℕ → Slots → Option Trie
unfolding compact
prune c r m live ss =
    if count ss == 1
    then (if live == 1 then some (node r m 0 end) else none)
    else if ltb 1 live
    then compact c r m (live - 1) (set ss (c - m) none)
    else none

-- `rm` on the way back: the node at `c` has become `t`.
abbrev pub with_ret : Bool → Option Trie → Option (Bool × Trie)
with_ret ret none = none
with_ret ret (some t) = some (ret, t)

abbrev pub back : ℕ → ℕ → ℕ → ℕ → Slots → Option (Bool × Trie) → Option (Bool × Trie)
back c r m live ss none = none
back c r m live ss (some (ret, t)) =
    if is_redundant t
    then with_ret ret (prune c r m live ss)
    else some (ret, node r m live (set ss (c - m) (some t)))

pub rm : List ℕ → Trie → Option (Bool × Trie)
unfolding prune
rm [] (node r m live ss) =
    if r == 0 then some (false, node r m live ss) else some (r - 1 == 0, node (r - 1) m live ss)
rm (c ∷ cs) (node r m live ss) =
    if count ss == 0 || outside c m ss
    then some (false, node r m live ss)
    else elim (get ss (c - m)) [
      | none ↦ some (false, node r m live ss)
      | some t ↦ back c r m live ss (rm cs t)
    ]

-- The loop of `check`.
pub check : List ℕ → Trie → Option Bool
check [] (node r m live ss) = some (not (r == 0))
check (c ∷ cs) (node r m live ss) = elim (not (r == 0)) [
  | true ↦ some true
  | false ↦ elim (outside c m ss) [
    | true ↦ some false
    | false ↦ elim (get ss (c - m)) [
      | none ↦ if count ss == 1 then none else some false
      | some t ↦ check cs t
    ]
  ]
]

-- What `func_` is called on, in order; `and_then` puts a call in front of those for the subnodes.
abbrev pub both : Option (List (List ℕ)) → Option (List (List ℕ)) → Option (List (List ℕ))
both none o = none
both (some xs) none = none
both (some xs) (some ys) = some (xs ++ ys)

mutual
  pub apply_helper : List ℕ → Trie → Option (List (List ℕ))
  apply_helper buff (node r m live ss) =
      both (some (if r == 0 then [] else buff ∷ [])) (apply_slots (count ss == 1) buff m ss)

  -- The subnodes, from the character `c` on; with one subnode NULL is not tested for.
  pub apply_slots : Bool → List ℕ → ℕ → Slots → Option (List (List ℕ))
  apply_slots single_node buff c end = some []
  apply_slots single_node buff c (null ss) =
      both (if single_node then none else some []) (apply_slots single_node buff (c + 1) ss)
  apply_slots single_node buff c (link t ss) =
      both (apply_helper (buff ++ c ∷ []) t) (apply_slots single_node buff (c + 1) ss)

pub apply : Trie → Option (List (List ℕ))
unfolding apply_helper
apply t = apply_helper [] t
