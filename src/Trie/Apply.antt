-- ===== src/Trie/Apply.antt =====
-- trie.cpp: what `apply` calls the function on.
use zmq.Base.{
  ℕ, zero, suc, ◌+◌, ◌-◌, ◌<◌, ◌≡◌, refl, sym, arith, ap, ◌∙◌, Bool, true, false, ◌==◌,
  if◌then◌else◌, inl, inr, Option, none, some, List, [], ◌∷◌, ◌++◌, Bool-cases,
}
use zmq.Trie.{
  Trie, node, Slots, end, null, link, count, get, both, apply_helper, apply_slots, apply,
}
use zmq.Trie.Tables.{live_one}
use zmq.Trie.Valid.{at, IsValid, valid, refcnt_at, same_key}

-- How often a key is listed.
abbrev pub occurrences : List ℕ → List (List ℕ) → ℕ
occurrences key [] = 0
occurrences key (k ∷ ks) = (if same_key key k then 1 else 0) + occurrences key ks

occurrences-append :
    (key : List ℕ) (xs ys : List (List ℕ))
    → occurrences key (xs ++ ys) ≡ occurrences key xs + occurrences key ys
occurrences-append key [] ys = omega arith
occurrences-append key (x ∷ xs) ys = omega (arith, occurrences-append key xs ys)

-- A list of keys in which each key has the given number of occurrences.
abbrev pub Lists : (List ℕ → ℕ) → Option (List (List ℕ)) → Type 0
Lists f r = (ks : List (List ℕ)) × (r ≡ some ks) × ((key : List ℕ) → occurrences key ks ≡ f key)

both-Lists :
    (f g h : List ℕ → ℕ) (r s : Option (List (List ℕ)))
    → ((key : List ℕ) → f key + g key ≡ h key)
    → Lists f r
    → Lists g s
    → Lists h (both r s)
both-Lists f g h r s e (xs, x, p) (ys, y, q) = (
  xs ++ ys,
  rw (x, y) refl,
  λ key. omega (arith, occurrences-append key xs ys, p key, q key, e key),
)

abbrev pub once : ℕ → ℕ
once n = if n == 0 then 0 else 1

-- What is left of a key behind the buffer.
abbrev stripped : List ℕ → List ℕ → Option (List ℕ)
stripped [] key = some key
stripped (b ∷ bs) [] = none
stripped (b ∷ bs) (x ∷ xs) = if b == x then stripped bs xs else none

abbrev after_char : ℕ → Option (List ℕ) → Option (List ℕ)
after_char c none = none
after_char c (some []) = none
after_char c (some (x ∷ xs)) = if c == x then some xs else none

stripped-append :
    (bs : List ℕ) (c : ℕ) (key : List ℕ)
    → stripped (bs ++ c ∷ []) key ≡ after_char c (stripped bs key)
stripped-append [] c [] = refl
stripped-append [] c (x ∷ xs) = refl
stripped-append (b ∷ bs) c [] = refl
stripped-append (b ∷ bs) c (x ∷ xs) = elim (Bool-cases (b == x)) [
  | inl e ↦ rw e (stripped-append bs c xs)
  | inr e ↦ rw e refl
]

-- A function of the rest of the key.
abbrev behind : (List ℕ → ℕ) → Option (List ℕ) → ℕ
behind f none = 0
behind f (some k) = f k

-- The buffer itself.
abbrev if_empty : ℕ → List ℕ → ℕ
if_empty n [] = n
if_empty n (x ∷ xs) = 0

if_empty-same_key :
    (bs key : List ℕ) → (if same_key key bs then 1 else 0) ≡ behind (if_empty 1) (stripped bs key)
if_empty-same_key [] [] = refl
if_empty-same_key [] (x ∷ xs) = refl
if_empty-same_key (b ∷ bs) [] = refl
if_empty-same_key (b ∷ bs) (x ∷ xs) = ground (arith, if_empty-same_key bs xs)

-- The keys below a table whose first slot is that of the character `c`.
abbrev in_child : List ℕ → Option Trie → ℕ
in_child k none = 0
in_child k (some t) = once (refcnt_at k t)

abbrev in_slots : ℕ → Slots → List ℕ → ℕ
in_slots c ss [] = 0
in_slots c ss (x ∷ k) = in_child k (at x c ss)

get_pred : (ss : Slots) (i : ℕ) → 0 < i → get (null ss) i ≡ get ss (i - 1)
get_pred ss zero h = absurd (omega arith)
get_pred ss (suc i) h = ap (get ss) (omega arith)

get_pred_link : (t : Trie) (ss : Slots) (i : ℕ) → 0 < i → get (link t ss) i ≡ get ss (i - 1)
get_pred_link t ss zero h = absurd (omega arith)
get_pred_link t ss (suc i) h = ap (get ss) (omega arith)

at-null : (x c : ℕ) (ss : Slots) → at x c (null ss) ≡ at x (c + 1) ss
at-null x c ss =
    let less : x - c - 1 ≡ x - (c + 1) = omega arith in
    ground (arith, get_pred ss (x - c), ap (get ss) less)

pub at-link :
    (x c : ℕ) (t : Trie) (ss : Slots)
    → at x c (link t ss) ≡ (if c == x then some t else at x (c + 1) ss)
at-link x c t ss =
    let less : x - c - 1 ≡ x - (c + 1) = omega arith in
    ground (arith, get_pred_link t ss (x - c), ap (get ss) less)

-- No NULL among the slots.
abbrev is_full : Slots → Bool
is_full end = true
is_full (null ss) = false
is_full (link t ss) = is_full ss

in_slots-null :
    (c : ℕ) (ss : Slots) (o : Option (List ℕ))
    → behind (in_slots (c + 1) ss) o ≡ behind (in_slots c (null ss)) o
in_slots-null c ss none = refl
in_slots-null c ss (some []) = refl
in_slots-null c ss (some (x ∷ k)) = ap (in_child k) (sym (at-null x c ss))

in_slots-link :
    (c : ℕ) (t : Trie) (ss : Slots) (o : Option (List ℕ))
    → behind (λ k. once (refcnt_at k t)) (after_char c o) + behind (in_slots (c + 1) ss) o
      ≡ behind (in_slots c (link t ss)) o
in_slots-link c t ss none = omega arith
in_slots-link c t ss (some []) = omega arith
in_slots-link c t ss (some (x ∷ k)) = elim (Bool-cases (c == x)) [
  | inl e ↦
      let shut : at x (c + 1) ss ≡ none = ground arith in
      rw (at-link x c t ss, e, shut) (omega arith)
  | inr e ↦ rw (at-link x c t ss, e) (omega arith)
]

node-keys :
    (r m live : ℕ) (ss : Slots) (o : Option (List ℕ))
    → behind (if_empty (once r)) o + behind (in_slots m ss) o
      ≡ behind (λ k. once (refcnt_at k (node r m live ss))) o
unfolding refcnt_at
node-keys r m live ss none = omega arith
node-keys r m live ss (some []) = omega arith
node-keys r m live ss (some (x ∷ k)) = omega (arith, go (at x m ss))
  where
    go :
        (p : Option Trie)
        → in_child k p ≡ once (elim p as (λ _. ℕ) [ none ↦ 0 | some t ↦ refcnt_at k t ])
    go none = refl
    go (some t) = refl

-- The keys that `apply_helper` lists behind the buffer, and those of the slots from the character `c` on.
abbrev keys_of : List ℕ → Trie → List ℕ → ℕ
keys_of buff t key = behind (λ k. once (refcnt_at k t)) (stripped buff key)

abbrev keys_in : List ℕ → ℕ → Slots → List ℕ → ℕ
keys_in buff c ss key = behind (in_slots c ss) (stripped buff key)

own_eq :
    (r : ℕ) (o : Option (List ℕ))
    → behind (if_empty (once r)) o ≡ (if r == 0 then 0 else behind (if_empty 1) o)
own_eq r none = ground arith
own_eq r (some []) = ground arith
own_eq r (some (x ∷ k)) = ground arith

own-Lists :
    (r : ℕ) (buff : List ℕ)
    → Lists
        (λ key. behind (if_empty (once r)) (stripped buff key))
        (some (if r == 0 then [] else buff ∷ []))
own-Lists r buff = elim (Bool-cases (r == 0)) [
  | inl e ↦ ([], rw e refl, λ key. ground (arith, own_eq r (stripped buff key)))
  | inr e ↦ (
    buff ∷ [],
    rw e refl,
    λ key. ground (arith, if_empty-same_key buff key, own_eq r (stripped buff key)),
  )
]

-- One slot, of which the table is tight.
single-is_full : (ss : Slots) → count ss ≡ 1 → live_one (get ss 0) ≡ 1 → is_full ss ≡ true
single-is_full end h f = refl
single-is_full (null ss) h f = absurd (omega (arith, f))
single-is_full (link t end) h f = refl
single-is_full (link t (null ss)) h f = absurd (omega (arith, h))
single-is_full (link t (link u ss)) h f = absurd (omega (arith, h))

in_slots-end : (c : ℕ) (o : Option (List ℕ)) → behind (in_slots c end) o ≡ 0
in_slots-end c none = refl
in_slots-end c (some []) = refl
in_slots-end c (some (x ∷ k)) = ground arith

null-Lists :
    (f g : List ℕ → ℕ) (r : Option (List (List ℕ)))
    → ((key : List ℕ) → f key ≡ g key)
    → Lists f r
    → Lists g (both (some []) r)
null-Lists f g r e (ks, k, p) = (ks, rw k refl, λ key. p key ∙ e key)

at_self : (c : ℕ) (t : Trie) (ss : Slots) → at c c (link t ss) ≡ some t
at_self c t ss = ground (arith, at-link c c t ss)

at-later :
    (x c : ℕ) (t u : Trie) (ss : Slots) → at x (c + 1) ss ≡ some u → at x c (link t ss) ≡ some u
at-later x c t u ss e = ground (arith, at-link x c t ss, e)

mutual
  unfolding apply_helper apply_slots

  apply_helper-Lists :
      (buff : List ℕ) (t : Trie) → IsValid t → Lists (keys_of buff t) (apply_helper buff t)
  apply_helper-Lists buff (node r m live ss) (valid tight vs ns) =
      both-Lists (λ key. behind (if_empty (once r)) (stripped buff key)) (keys_in buff m ss)
        (keys_of buff (node r m live ss)) (some (if r == 0 then [] else buff ∷ []))
        (apply_slots (count ss == 1) buff m ss) (λ key. node-keys r m live ss (stripped buff key))
        (own-Lists r buff)
        (apply_slots-Lists (count ss == 1) buff m ss
          (λ h. single-is_full ss (ground arith) (tight.first (ground arith))) vs)

  apply_slots-Lists :
      (b : Bool) (buff : List ℕ) (c : ℕ) (ss : Slots)
      → (b ≡ true → is_full ss ≡ true)
      → ((x : ℕ) (t : Trie) → at x c ss ≡ some t → IsValid t)
      → Lists (keys_in buff c ss) (apply_slots b buff c ss)
  apply_slots-Lists b buff c end full vs =
      ([], refl, λ key. sym (in_slots-end c (stripped buff key)))
  apply_slots-Lists false buff c (null ss) full vs =
      null-Lists (keys_in buff (c + 1) ss) (keys_in buff c (null ss))
        (apply_slots false buff (c + 1) ss) (λ key. in_slots-null c ss (stripped buff key))
        (apply_slots-Lists false buff (c + 1) ss (λ h. absurd (ground (arith, h)))
          (λ x u e. vs x u (at-null x c ss ∙ e)))
  apply_slots-Lists true buff c (null ss) full vs = absurd (ground (arith, full refl))
  apply_slots-Lists b buff c (link t ss) full vs =
      both-Lists (keys_of (buff ++ c ∷ []) t) (keys_in buff (c + 1) ss) (keys_in buff c (link t ss))
        (apply_helper (buff ++ c ∷ []) t) (apply_slots b buff (c + 1) ss)
        (λ key. rw (stripped-append buff c key) (in_slots-link c t ss (stripped buff key)))
        (apply_helper-Lists (buff ++ c ∷ []) t (vs c t (at_self c t ss)))
        (apply_slots-Lists b buff (c + 1) ss full (λ x u e. vs x u (at-later x c t u ss e)))

-- On a valid trie `apply` follows no NULL, and lists every key that was added and not removed as often, and no
-- other: once each, whatever its count.
pub apply_lem : (t : Trie) → IsValid t → Lists (λ key. once (refcnt_at key t)) (apply t)
unfolding apply
apply_lem t v = apply_helper-Lists [] t v
