-- ===== src/Trie/Tables.antt =====
-- trie.cpp: the tables of pointers.
use zmq.Base.{
  ℕ, zero, suc, ◌+◌, ◌-◌, ◌≤◌, ◌<◌, ◌≡◌, refl, arith, ap, ◌∙◌, ◌==◌, ltb, if◌then◌else◌, Option,
  none, some,
}
use zmq.Trie.{
  Trie, Slots, end, null, link, count, get, set, slot, nulls, extended, trim_left, skipped,
  trim_right, null_before,
}

-- How many of the slots hold a pointer.
abbrev pub live_of : Slots → ℕ
live_of end = 0
live_of (null ss) = live_of ss
live_of (link t ss) = suc (live_of ss)

abbrev pub live_one : Option Trie → ℕ
live_one none = 0
live_one (some t) = 1

pub get_beyond : (ss : Slots) (i : ℕ) → count ss ≤ i → get ss i ≡ none
get_beyond end i h = refl
get_beyond (null ss) zero h = refl
get_beyond (link t ss) zero h = absurd (omega arith)
get_beyond (null ss) (suc i) h = get_beyond ss i (omega arith)
get_beyond (link t ss) (suc i) h = get_beyond ss i (omega arith)

get-slot :
    (v : Option Trie) (ss : Slots) (j : ℕ)
    → get (slot v ss) j ≡ (if 0 == j then v else get (null ss) j)
get-slot none ss zero = refl
get-slot none ss (suc j) = ground arith
get-slot (some t) ss zero = refl
get-slot (some t) ss (suc j) = ground arith

pub get-set :
    (ss : Slots) (i j : ℕ) (v : Option Trie)
    → i < count ss
    → get (set ss i v) j ≡ (if i == j then v else get ss j)
get-set end i j v h = absurd (omega arith)
get-set (null ss) zero j v h = get-slot v ss j
get-set (link t ss) zero zero v h = get-slot v ss zero
get-set (link t ss) zero (suc j) v h = ground (arith, get-slot v ss (suc j))
get-set (null ss) (suc i) zero v h = ground arith
get-set (null ss) (suc i) (suc j) v h = ground (arith, get-set ss i j v)
get-set (link t ss) (suc i) zero v h = ground arith
get-set (link t ss) (suc i) (suc j) v h = ground (arith, get-set ss i j v)

count-slot : (v : Option Trie) (ss : Slots) → count (slot v ss) ≡ suc (count ss)
count-slot none ss = refl
count-slot (some t) ss = refl

pub count-set : (ss : Slots) (i : ℕ) (v : Option Trie) → count (set ss i v) ≡ count ss
count-set end i v = refl
count-set (null ss) zero v = count-slot v ss
count-set (link t ss) zero v = count-slot v ss
count-set (null ss) (suc i) v = omega (arith, count-set ss i v)
count-set (link t ss) (suc i) v = omega (arith, count-set ss i v)

live_of-slot : (v : Option Trie) (ss : Slots) → live_of (slot v ss) ≡ live_one v + live_of ss
live_of-slot none ss = omega arith
live_of-slot (some t) ss = omega arith

pub live_of-set :
    (ss : Slots) (i : ℕ) (v : Option Trie)
    → i < count ss
    → live_of (set ss i v) + live_one (get ss i) ≡ live_of ss + live_one v
live_of-set end i v h = absurd (omega arith)
live_of-set (null ss) zero v h = omega (arith, live_of-slot v ss)
live_of-set (link t ss) zero v h = omega (arith, live_of-slot v ss)
live_of-set (null ss) (suc i) v h = omega (arith, live_of-set ss i v)
live_of-set (link t ss) (suc i) v h = omega (arith, live_of-set ss i v)

pub get-nulls :
    (n : ℕ) (ss : Slots) (i : ℕ) → get (nulls n ss) i ≡ (if ltb i n then none else get ss (i - n))
get-nulls zero ss i = ground arith
get-nulls (suc n) ss zero = ground arith
get-nulls (suc n) ss (suc i) = ground (arith, get-nulls n ss i)

pub count-nulls : (n : ℕ) (ss : Slots) → count (nulls n ss) ≡ n + count ss
count-nulls zero ss = omega arith
count-nulls (suc n) ss = omega (arith, count-nulls n ss)

pub live_of-nulls : (n : ℕ) (ss : Slots) → live_of (nulls n ss) ≡ live_of ss
live_of-nulls zero ss = refl
live_of-nulls (suc n) ss = live_of-nulls n ss

pub get-extended : (ss : Slots) (n i : ℕ) → get (extended ss n) i ≡ get ss i
get-extended end n i = ground (arith, get-nulls n end i)
get-extended (null ss) n zero = refl
get-extended (null ss) n (suc i) = get-extended ss n i
get-extended (link t ss) n zero = refl
get-extended (link t ss) n (suc i) = get-extended ss n i

pub count-extended : (ss : Slots) (n : ℕ) → count (extended ss n) ≡ count ss + n
count-extended end n = omega (arith, count-nulls n end)
count-extended (null ss) n = omega (arith, count-extended ss n)
count-extended (link t ss) n = omega (arith, count-extended ss n)

pub live_of-extended : (ss : Slots) (n : ℕ) → live_of (extended ss n) ≡ live_of ss
live_of-extended end n = live_of-nulls n end
live_of-extended (null ss) n = live_of-extended ss n
live_of-extended (link t ss) n = omega (arith, live_of-extended ss n)

-- What `trim_left` leaves.
pub get-trim_left : (ss : Slots) (i : ℕ) → get (trim_left ss) i ≡ get ss (i + skipped ss)
get-trim_left end i = refl
get-trim_left (null ss) i = ground (arith, get-trim_left ss i)
get-trim_left (link t ss) i = ground arith

pub get-skipped : (ss : Slots) (i : ℕ) → i < skipped ss → get ss i ≡ none
get-skipped end i h = refl
get-skipped (null ss) zero h = refl
get-skipped (null ss) (suc i) h = get-skipped ss i (omega arith)
get-skipped (link t ss) i h = absurd (omega arith)

pub count-trim_left : (ss : Slots) → count (trim_left ss) + skipped ss ≡ count ss
count-trim_left end = omega arith
count-trim_left (null ss) = omega (arith, count-trim_left ss)
count-trim_left (link t ss) = omega arith

pub live_of-trim_left : (ss : Slots) → live_of (trim_left ss) ≡ live_of ss
live_of-trim_left end = refl
live_of-trim_left (null ss) = live_of-trim_left ss
live_of-trim_left (link t ss) = refl

pub trim_left_first : (ss : Slots) → 0 < live_of ss → (t : Trie) × (get (trim_left ss) 0 ≡ some t)
trim_left_first end h = absurd (omega arith)
trim_left_first (null ss) h = trim_left_first ss h
trim_left_first (link t ss) h = (t, refl)

-- What `trim_right` leaves.
get-null_before : (ss : Slots) (i : ℕ) → get (null_before ss) i ≡ get (null ss) i
get-null_before end zero = refl
get-null_before end (suc i) = refl
get-null_before (null ss) i = refl
get-null_before (link t ss) i = refl

pub get-trim_right : (ss : Slots) (i : ℕ) → get (trim_right ss) i ≡ get ss i
get-trim_right end i = refl
get-trim_right (null ss) zero = get-null_before (trim_right ss) zero
get-trim_right (null ss) (suc i) =
    ground (arith, get-null_before (trim_right ss) (suc i), get-trim_right ss i)
get-trim_right (link t ss) zero = refl
get-trim_right (link t ss) (suc i) = get-trim_right ss i

count-null_before : (ss : Slots) → count (null_before ss) ≤ suc (count ss)
count-null_before end = omega arith
count-null_before (null ss) = omega arith
count-null_before (link t ss) = omega arith

pub count-trim_right : (ss : Slots) → count (trim_right ss) ≤ count ss
count-trim_right end = omega arith
count-trim_right (null ss) = omega (arith, count-null_before (trim_right ss), count-trim_right ss)
count-trim_right (link t ss) = omega (arith, count-trim_right ss)

live_of-null_before : (ss : Slots) → live_of (null_before ss) ≡ live_of ss
live_of-null_before end = refl
live_of-null_before (null ss) = refl
live_of-null_before (link t ss) = refl

pub live_of-trim_right : (ss : Slots) → live_of (trim_right ss) ≡ live_of ss
live_of-trim_right end = refl
live_of-trim_right (null ss) =
    ground (arith, live_of-null_before (trim_right ss), live_of-trim_right ss)
live_of-trim_right (link t ss) = omega (arith, live_of-trim_right ss)

last-null_before :
    (ss : Slots)
    → 0 < count ss
    → get (null_before ss) (count (null_before ss) - 1) ≡ get ss (count ss - 1)
last-null_before end h = absurd (omega arith)
last-null_before (null ss) h = ground arith
last-null_before (link t ss) h = ground arith

pub live_of-le : (ss : Slots) → live_of ss ≤ count ss
live_of-le end = omega arith
live_of-le (null ss) = omega (arith, live_of-le ss)
live_of-le (link t ss) = omega (arith, live_of-le ss)

-- The last slot that `trim_right` leaves holds a pointer.
pub trim_right_last :
    (ss : Slots)
    → 0 < count (trim_right ss)
    → live_one (get (trim_right ss) (count (trim_right ss) - 1)) ≡ 1
trim_right_last end h = absurd (omega arith)
trim_right_last (null ss) h = before (trim_right ss) h (λ h'. trim_right_last ss h')
  where
    before :
        (tt : Slots)
        → 0 < count (null_before tt)
        → (0 < count tt → live_one (get tt (count tt - 1)) ≡ 1)
        → live_one (get (null_before tt) (count (null_before tt) - 1)) ≡ 1
    before end h ih = absurd (omega arith)
    before (null us) h ih =
        ap live_one (last-null_before (null us) (omega arith)) ∙ ih (omega arith)
    before (link t us) h ih =
        ap live_one (last-null_before (link t us) (omega arith)) ∙ ih (omega arith)
trim_right_last (link t ss) h = after (trim_right ss) (λ h'. trim_right_last ss h')
  where
    after :
        (us : Slots)
        → (0 < count us → live_one (get us (count us - 1)) ≡ 1)
        → live_one (get (link t us) (suc (count us) - 1)) ≡ 1
    after end ih = ground arith
    after (null us) ih = ground (arith, ih (omega arith))
    after (link u us) ih = ground (arith, ih (omega arith))

pub live_one-le : (ss : Slots) (i : ℕ) → live_one (get ss i) ≤ live_of ss
live_one-le end i = omega arith
live_one-le (null ss) zero = omega arith
live_one-le (null ss) (suc i) = live_one-le ss i
live_one-le (link t ss) zero = omega arith
live_one-le (link t ss) (suc i) = omega (arith, live_one-le ss i)

pub no_live : (ss : Slots) (i : ℕ) → live_of ss ≡ 0 → get ss i ≡ none
no_live end i h = refl
no_live (null ss) zero h = refl
no_live (null ss) (suc i) h = no_live ss i h
no_live (link t ss) i h = absurd (omega arith)

-- The one pointer of a table.
pub one_live :
    (ss : Slots) (i j : ℕ) (t : Trie)
    → live_of ss ≡ 1
    → get ss i ≡ some t
    → get ss j ≡ (if i == j then some t else none)
one_live end i j t h e = absurd (ground arith)
one_live (null ss) zero j t h e = absurd (ground arith)
one_live (null ss) (suc i) zero t h e = ground arith
one_live (null ss) (suc i) (suc j) t h e = ground (arith, one_live ss i j t)
one_live (link u ss) zero zero t h e = ground arith
one_live (link u ss) zero (suc j) t h e = ground (arith, no_live ss j)
one_live (link u ss) (suc i) j t h e = absurd (ground (arith, no_live ss i))
