-- ===== src/Trie/Check.antt =====
-- trie.cpp: `check` finds a key that the data start with.
use zmq.Base.{
  ℕ, ◌-◌, ◌≡◌, inl, inr, refl, arith, ap, ◌∙◌, Bool, false, not, ◌||◌, ◌==◌, none, some, List, [],
  ◌∷◌, Bool-cases, Option-cases,
}
use zmq.Trie.{Trie, node, Slots, get, outside, check, or_create}
use zmq.Trie.Tables.{get_beyond}
use zmq.Trie.Valid.{at, IsValid, valid, refcnt_at, refcnt_at_child, refcnt_at-create}

-- Some key that the data start with has a count.
abbrev pub any_prefix : List ℕ → (List ℕ → ℕ) → Bool
any_prefix [] counts = not (counts [] == 0)
any_prefix (c ∷ cs) counts = not (counts [] == 0) || any_prefix cs (λ k. counts (c ∷ k))

pub any_prefix_ext :
    (xs : List ℕ) (f g : List ℕ → ℕ)
    → ((k : List ℕ) → f k ≡ g k)
    → any_prefix xs f ≡ any_prefix xs g
any_prefix_ext [] f g h = ap (λ (n : ℕ). not (n == 0)) (h [])
any_prefix_ext (c ∷ cs) f g h =
    ground (arith, h [], any_prefix_ext cs (λ k. f (c ∷ k)) (λ k. g (c ∷ k)) (λ k. h (c ∷ k)))

no_prefix : (xs : List ℕ) → any_prefix xs (λ _. 0) ≡ false
no_prefix [] = refl
no_prefix (c ∷ cs) = no_prefix cs

missing :
    (c : ℕ) (cs : List ℕ) (r m live : ℕ) (ss : Slots)
    → at c m ss ≡ none
    → any_prefix cs (λ k. refcnt_at (c ∷ k) (node r m live ss)) ≡ false
missing c cs r m live ss e =
    any_prefix_ext cs _ (λ _. 0) (λ k. refcnt_at_child c k r m live ss ∙ rw e (refcnt_at-create k))
    ∙ no_prefix cs

-- `check` on a valid trie follows no NULL, and finds whether one of the keys in the trie is a prefix
-- of the data.
pub check_lem :
    (xs : List ℕ) (t : Trie) → IsValid t → check xs t ≡ some (any_prefix xs (λ k. refcnt_at k t))
unfolding check
check_lem [] (node r m live ss) v = unfold refcnt_at in refl
check_lem (c ∷ cs) (node r m live ss) (valid v vs ns) =
    let root : refcnt_at [] (node r m live ss) ≡ r = unfold refcnt_at in refl in
    elim (Bool-cases (not (r == 0))) [
      | inl here ↦ rw (check, here) (ap some (ground (arith, root)))
      | inr on ↦ elim (Bool-cases (outside c m ss)) [
        | inl out ↦
            let nothing = missing c cs r m live ss (ground (arith, get_beyond ss (c - m))) in
            rw (check, on, out) (ap some (ground (arith, root, nothing)))
        | inr within ↦ elim (Option-cases (get ss (c - m))) [
          | inl e ↦
              let nothing = missing c cs r m live ss (ground arith) in
              rw (check, on, within, e) (ground (arith, root, nothing, v.first))
          | inr (t, e) ↦
              let hit : at c m ss ≡ some t = ground arith in
              let counts =
                any_prefix_ext cs (λ k. refcnt_at (c ∷ k) (node r m live ss)) (λ k. refcnt_at k t)
                  (λ k.
                    refcnt_at_child c k r m live ss ∙ ap (λ o. refcnt_at k (or_create o)) hit) in
              rw (check, on, within, e)
                (check_lem cs t (vs c t hit) ∙ ap some (ground (arith, root, counts)))
        ]
      ]
    ]
