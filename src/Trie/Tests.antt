-- ===== src/Trie/Tests.antt =====
-- trie.cpp at concrete values.
use mathlib.Core.Path.{subst}
use zmq.Base.{
  ℕ, ◌+◌, ◌<◌, ◌≡◌, refl, arith, ap, ◌∙◌, sym, true, false, some, List, [], ◌∷◌, ◌==◌,
  if◌then◌else◌, inl, inr, Bool-cases,
}
use zmq.Trie.{
  Trie, node, end, link, create, add, rm, check, apply, apply_helper, is_redundant, or_create,
}
use zmq.Trie.Valid.{at, IsValid, valid, refcnt_at, end-IsTight}
use zmq.Trie.Apply.{Lists, once, at-link, apply_lem}
use zmq.Trie.Run.{Op, subscribe, unsubscribe, matches, run, spec_run, run_refines_bag}

abbrev calls : List Op
calls =
    subscribe (97 ∷ 98 ∷ [])
    ∷ subscribe (97 ∷ 100 ∷ [])
    ∷ subscribe (97 ∷ 98 ∷ [])
    ∷ subscribe (97 ∷ 96 ∷ [])
    ∷ unsubscribe (97 ∷ 96 ∷ [])
    ∷ unsubscribe (97 ∷ 98 ∷ [])
    ∷ unsubscribe (97 ∷ 98 ∷ [])
    ∷ matches (97 ∷ 98 ∷ 99 ∷ [])
    ∷ matches (97 ∷ 100 ∷ 99 ∷ [])
    ∷ []

answers :
    run calls create ≡ some (true ∷ true ∷ false ∷ true ∷ true ∷ false ∷ true ∷ false ∷ true ∷ [])
unfolding run add rm check
answers = refl

run_refines_bag_example : run calls create ≡ some (spec_run calls (λ _. 0))
run_refines_bag_example = run_refines_bag calls (omega arith) (omega arith)

-- A node with one child.
one_child-IsValid :
    (r m : ℕ) (t : Trie)
    → m < 256
    → IsValid t
    → is_redundant t ≡ false
    → IsValid (node r m 1 (link t end))
one_child-IsValid r m t h v n =
    valid
      (record { live_eq = omega arith; first = λ _. refl; last = λ _. refl; fits = omega arith })
      (λ c u e. subst IsValid (child c u e) v) (λ c u e. ap is_redundant (sym (child c u e)) ∙ n)
  where
    child : (c : ℕ) (u : Trie) → at c m (link t end) ≡ some u → t ≡ u
    child c u e = elim (Bool-cases (m == c)) [
      | inl same ↦
          ap or_create
            (sym (at-link c m t end ∙ ap (λ b. if b then some t else at c (m + 1) end) same) ∙ e)
      | inr other ↦ absurd (ground (arith, e, at-link c m t end))
    ]

-- The key "ab", twice, and its prefix "a".
abbrev two_keys : Trie
two_keys = node 0 97 1 (link (node 1 98 1 (link (node 2 0 0 end) end)) end)

two_keys-IsValid : IsValid two_keys
two_keys-IsValid =
    one_child-IsValid 0 97 (node 1 98 1 (link (node 2 0 0 end) end)) (omega arith)
      (one_child-IsValid 1 98 (node 2 0 0 end) (omega arith)
        (valid (end-IsTight 0 (omega arith)) (λ c t e. absurd (ground arith))
          (λ c t e. absurd (ground arith)))
        refl)
      refl

applies : apply two_keys ≡ some ((97 ∷ []) ∷ (97 ∷ 98 ∷ []) ∷ [])
unfolding apply apply_helper
applies = refl

apply_lem_example : Lists (λ key. once (refcnt_at key two_keys)) (apply two_keys)
apply_lem_example = apply_lem two_keys two_keys-IsValid
