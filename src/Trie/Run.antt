-- ===== src/Trie/Run.antt =====
-- trie.cpp: any sequence of calls, against the multiset of the keys.
use zmq.Base.{
  ℕ, ◌+◌, ◌-◌, ◌^◌, ◌≤◌, ◌<◌, ◌≡◌, refl, arith, ap, ◌∙◌, Bool, ◌==◌, if◌then◌else◌, Option, none,
  some, List, [], ◌∷◌, length, All,
}
use zmq.Trie.{Trie, create, add, rm, check}
use zmq.Trie.Valid.{IsValid, IsKey, refcnt_at, refcnt_at-create, same_key, create-IsValid}
use zmq.Trie.Add.{add_lem}
use zmq.Trie.Rm.{rm_lem}
use zmq.Trie.Check.{any_prefix, any_prefix_ext, check_lem}

pub data Op : Type 0 where
  subscribe unsubscribe matches : List ℕ → Op

abbrev pub answered : Trie → Option Bool → Option (Bool × Trie)
answered t none = none
answered t (some b) = some (b, t)

abbrev pub step : Op → Trie → Option (Bool × Trie)
step (subscribe key) t = add key t
step (unsubscribe key) t = rm key t
step (matches xs) t = answered t (check xs t)

abbrev pub put_first : Bool → Option (List Bool) → Option (List Bool)
put_first b none = none
put_first b (some bs) = some (b ∷ bs)

-- The answers of the calls; `rest` goes on.
abbrev pub followed : (Trie → Option (List Bool)) → Option (Bool × Trie) → Option (List Bool)
followed rest none = none
followed rest (some (b, t)) = put_first b (rest t)

unfoldable pub run : List Op → Trie → Option (List Bool)
run [] t = some []
run (op ∷ ops) t = followed (λ t'. run ops t') (step op t)

-- A multiset of keys: how often each was added.
abbrev pub Bag : Type 0
Bag = List ℕ → ℕ

abbrev spec_step : Op → Bag → Bool × Bag
spec_step (subscribe key) bag = (bag key == 0, λ k. (if same_key key k then 1 else 0) + bag k)
spec_step (unsubscribe key) bag = (bag key == 1, λ k. bag k - (if same_key key k then 1 else 0))
spec_step (matches xs) bag = (any_prefix xs bag, bag)

pub spec_run : List Op → Bag → List Bool
spec_run [] bag = []
spec_run (op ∷ ops) bag = (spec_step op bag).0 ∷ spec_run ops (spec_step op bag).1

-- The keys that are added are bytes.
abbrev pub IsOp : Op → Type 0
IsOp (subscribe key) = IsKey key
IsOp (unsubscribe key) = Unit
IsOp (matches xs) = Unit

-- A trie stands for the multiset, in which no key is counted more than `n` times.
record Represents (n : ℕ) (t : Trie) (bag : Bag) : Type 0 where
  valid : IsValid t
  counts : (k : List ℕ) → refcnt_at k t ≡ bag k
  few : (k : List ℕ) → bag k ≤ n

step_refines :
    (op : Op) (n : ℕ) (t : Trie) (bag : Bag)
    → IsOp op
    → n + 1 < 2 ^ 32
    → Represents n t bag
    → (t' : Trie) × (step op t ≡ some ((spec_step op bag).0, t'))
      × Represents (n + 1) t' (spec_step op bag).1
step_refines (subscribe key) n t bag k h r =
    let (t', e, v, nr, counts) = add_lem key t k r.valid (omega (arith, r.counts key, r.few key)) in
    (
      t',
      e ∙ ap (λ (m : ℕ). some (m == 0, t')) (r.counts key),
      record {
        valid = v;
        counts = λ k. counts k ∙ ap (λ (m : ℕ). (if same_key key k then 1 else 0) + m) (r.counts k);
        few = λ k. ground (arith, r.few k);
      },
    )
step_refines (unsubscribe key) n t bag k h r =
    let (t', e, v, counts) = rm_lem key t r.valid in
    (
      t',
      e ∙ ap (λ (m : ℕ). some (m == 1, t')) (r.counts key),
      record {
        valid = v;
        counts = λ k. counts k ∙ ap (λ (m : ℕ). m - (if same_key key k then 1 else 0)) (r.counts k);
        few = λ k. ground (arith, r.few k);
      },
    )
step_refines (matches xs) n t bag k h r = (
  t,
  ap (answered t)
      (check_lem xs t r.valid ∙ ap some (any_prefix_ext xs (λ k. refcnt_at k t) bag r.counts)),
  record { valid = r.valid; counts = r.counts; few = λ k. omega (arith, r.few k) },
)

runs :
    (ops : List Op) (n : ℕ) (t : Trie) (bag : Bag)
    → All IsOp ops
    → n + length ops < 2 ^ 32
    → Represents n t bag
    → run ops t ≡ some (spec_run ops bag)
unfolding run spec_run
runs [] n t bag h few r = refl
runs (op ∷ ops) n t bag (h, hs) few r =
    let (t', e, r') = step_refines op n t bag h (omega arith) r in
    ap (followed (λ u. run ops u)) e
    ∙ ap (put_first (spec_step op bag).0)
        (runs ops (n + 1) t' (spec_step op bag).1 hs (omega arith) r')

-- Fewer than 2 ^ 32 calls of `add`, `rm` and `check` on a new trie, in any order, meet no failed
-- assertion and no NULL that is followed, and answer as the multiset of the keys does: whether the
-- key was not there yet, whether it was there just once, and whether a key is a prefix of the data.
pub run_refines_bag :
    (ops : List Op)
    → All IsOp ops
    → length ops < 2 ^ 32
    → run ops create ≡ some (spec_run ops (λ _. 0))
run_refines_bag ops h few =
    runs ops 0 create (λ _. 0) h (omega arith)
      (record { valid = create-IsValid; counts = refcnt_at-create; few = λ k. omega arith })
