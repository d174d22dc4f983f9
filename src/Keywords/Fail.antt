-- ===== src/Keywords/Fail.antt =====
-- What a failure pointer points to: the longest proper suffix of its node that is a node.
use study_notes.Base.{
  ℕ, zero, suc, ◌+◌, ◌-◌, ◌<◌, ◌≤◌, ◌≡◌, refl, sym, ap, ◌∙◌, true, false, Option, none, some, List,
  [], ◌∷◌, ◌++◌, arith, inl, inr, Bool-cases, drop, length, length-append, length-drop,
  if◌then◌else◌,
}
use study_notes.Keywords.{Trie, find_fail_loop, do_find_fail_ptr}
use study_notes.Keywords.Suffix.{
  drop-snoc, rest_of, no_room, at_most, lt_cases, drop-drop, drop-all,
}

-- The suffix of `p` behind its first `k` bytes is the longest proper one that is a node.
pub record Longest (t : Trie) (p : List ℕ) (k : ℕ) : Type 0 where
  pub proper : 0 < k
  pub within : k ≤ length p
  pub is_node : t.has (drop k p) ≡ true
  pub longest : (j : ℕ) → 0 < j → j < k → t.has (drop j p) ≡ false

-- The node's failure pointer points to that suffix.
abbrev pub Fails : Trie → List ℕ → Type 0
Fails t p = (k : ℕ) × (t.fail_ptr p ≡ some (drop k p)) × Longest t p k

-- The root is a node without a failure pointer, the parent of a node is a node, and the failure
-- pointers of the nodes down to a level are set.
pub record Built (t : Trie) (level : ℕ) : Type 0 where
  pub root_node : t.has [] ≡ true
  pub root_fail : t.fail_ptr [] ≡ none
  pub parents : (p : List ℕ) (c : ℕ) → t.has (p ++ c ∷ []) ≡ true → t.has p ≡ true
  pub fails : (p : List ℕ) → t.has p ≡ true → 0 < length p → length p ≤ level → Fails t p

module _ (t : Trie) (level : ℕ) (built : Built t level) where
  -- No child where there is no node.
  no_child : (p : List ℕ) (c : ℕ) → t.has p ≡ false → t.has (p ++ c ∷ []) ≡ false
  no_child p c e = elim (Bool-cases (t.has (p ++ c ∷ []))) [
    | inl child ↦ ground (arith, e, built.parents p c child)
    | inr none_there ↦ none_there
  ]

  -- The first `k` suffixes of `cur` have no child at `c`.
  abbrev Excluded : List ℕ → ℕ → ℕ → Type 0
  Excluded cur c k = (j : ℕ) → 0 < j → j < k → t.has (drop j cur ++ c ∷ []) ≡ false

  Excluded-next :
      (cur : List ℕ) (c k i : ℕ)
      → Excluded cur c k
      → t.has (drop k cur ++ c ∷ []) ≡ false
      → ((j : ℕ) → 0 < j → j < i → t.has (drop j (drop k cur)) ≡ false)
      → Excluded cur c (k + i)
  Excluded-next cur c k i before here behind j positive small = elim (lt_cases j k) [
    | inl less ↦ before j positive less
    | inr (inl same) ↦ ap (λ n. t.has (drop n cur ++ c ∷ [])) same ∙ here
    | inr (inr greater) ↦ no_child (drop j cur) c (
        ap (λ n. t.has (drop n cur)) (rest_of j k greater)
        ∙ ap t.has (sym (drop-drop (j - k) k cur))
        ∙ behind (j - k) (omega (arith, greater)) (omega (arith, greater, small)))
  ]

  Excluded-end :
      (cur : List ℕ) (c k : ℕ)
      → k ≤ length cur
      → Excluded cur c k
      → t.has (drop k cur ++ c ∷ []) ≡ false
      → length cur ≤ k
      → Excluded cur c (length cur + 1)
  Excluded-end cur c k within before here end j positive small = elim (lt_cases j k) [
    | inl less ↦ before j positive less
    | inr (inl same) ↦ ap (λ n. t.has (drop n cur ++ c ∷ [])) same ∙ here
    | inr (inr greater) ↦
        elim (no_room j k (omega (arith, small, within, end)) (omega (arith, greater))) [ ]
  ]

  find_fail_loop-root : (fuel c : ℕ) → find_fail_loop fuel t none c [] ≡ some []
  unfolding find_fail_loop
  find_fail_loop-root zero c = refl
  find_fail_loop-root (suc fuel) c = refl

  -- The result of the loop.
  abbrev Found : List ℕ → ℕ → Option (List ℕ) → Type 0
  Found cur c result =
      (m : ℕ) × (result ≡ some (drop m (cur ++ c ∷ []))) × Longest t (cur ++ c ∷ []) m

  Longest-child :
      (cur : List ℕ) (c k : ℕ)
      → 0 < k
      → k ≤ length cur
      → Excluded cur c k
      → t.has (drop k cur ++ c ∷ []) ≡ true
      → Longest t (cur ++ c ∷ []) k
  Longest-child cur c k positive within before child = record {
    proper = positive;
    within = omega (arith, within, length-append cur (c ∷ []));
    is_node = ap t.has (drop-snoc k cur c within) ∙ child;
    longest =
        λ j p small. ap t.has (drop-snoc j cur c (omega (arith, small, within))) ∙ before j p small;
  }

  Longest-root :
      (cur : List ℕ) (c : ℕ)
      → Excluded cur c (length cur + 1)
      → Longest t (cur ++ c ∷ []) (length cur + 1)
  Longest-root cur c before = record {
    proper = omega arith;
    within = omega (arith, length-append cur (c ∷ []));
    is_node =
        ap t.has
          (drop-all (length cur + 1) (cur ++ c ∷ []) (omega (arith, length-append cur (c ∷ []))))
        ∙ built.root_node;
    longest = λ j p small. ap t.has (drop-snoc j cur c (omega (arith, small))) ∙ before j p small;
  }

  abbrev loop_result : ℕ → List ℕ → ℕ → ℕ → Option (List ℕ)
  loop_result fuel cur c k = find_fail_loop fuel t (some (drop k cur)) c []

  -- A round that finds a child, one that goes on, and one that ends at the root.
  loop_child :
      (fuel : ℕ) (cur : List ℕ) (c k : ℕ)
      → t.has (drop k cur ++ c ∷ []) ≡ true
      → loop_result (suc fuel) cur c k ≡ some (drop k cur ++ c ∷ [])
  unfolding find_fail_loop
  loop_child fuel cur c k child = ground (arith, child)

  loop_next :
      (fuel : ℕ) (cur : List ℕ) (c k i : ℕ)
      → t.has (drop k cur ++ c ∷ []) ≡ false
      → t.fail_ptr (drop k cur) ≡ some (drop i (drop k cur))
      → loop_result (suc fuel) cur c k ≡ loop_result fuel cur c (k + i)
  unfolding find_fail_loop
  loop_next fuel cur c k i none_there points =
      ap
        (λ b.
          if b
          then some (drop k cur ++ c ∷ [])
          else find_fail_loop fuel t (t.fail_ptr (drop k cur)) c [])
        none_there
      ∙ ap (λ o. find_fail_loop fuel t o c []) (points ∙ ap some (drop-drop i k cur))

  loop_root :
      (fuel : ℕ) (cur : List ℕ) (c k : ℕ)
      → t.has (drop k cur ++ c ∷ []) ≡ false
      → drop k cur ≡ []
      → loop_result (suc fuel) cur c k ≡ some []
  unfolding find_fail_loop
  loop_root fuel cur c k none_there at_root =
      ap
        (λ b.
          if b
          then some (drop k cur ++ c ∷ [])
          else find_fail_loop fuel t (t.fail_ptr (drop k cur)) c [])
        none_there
      ∙ ap (λ o. find_fail_loop fuel t o c []) (ap t.fail_ptr at_root ∙ built.root_fail)
      ∙ find_fail_loop-root fuel c

  Found-root :
      (cur : List ℕ) (c : ℕ) (result : Option (List ℕ))
      → result ≡ some []
      → Excluded cur c (length cur + 1)
      → Found cur c result
  Found-root cur c result e before = (
    length cur + 1,
    e
        ∙ ap some (
            sym (
              drop-all (length cur + 1) (cur ++ c ∷ [])
                (omega (arith, length-append cur (c ∷ []))))),
    Longest-root cur c before,
  )

  find_fail_loop-Found :
      (fuel : ℕ) (cur : List ℕ) (c k : ℕ)
      → length cur ≤ level
      → 0 < k
      → k ≤ length cur
      → length cur < fuel + k
      → t.has (drop k cur) ≡ true
      → Excluded cur c k
      → Found cur c (loop_result fuel cur c k)
  find_fail_loop-Found zero cur c k low positive within enough node before =
      elim (no_room (length cur) k within enough) [ ]
  find_fail_loop-Found (suc fuel) cur c k low positive within enough node before =
      elim (Bool-cases (t.has (drop k cur ++ c ∷ []))) [
        | inl child ↦ (
          k,
          loop_child fuel cur c k child ∙ ap some (sym (drop-snoc k cur c within)),
          Longest-child cur c k positive within before child,
        )
        | inr none_there ↦ elim (lt_cases k (length cur)) [
          | inl more ↦
              let (i, points, l) =
                built.fails (drop k cur) node (omega (arith, length-drop k cur, more))
                  (omega (arith, length-drop k cur, low)) in
              let (m, e, found) =
                find_fail_loop-Found fuel cur c (k + i) low (omega (arith, positive))
                  (omega (arith, l.within, length-drop k cur, within))
                  (omega (arith, enough, l.proper)) (ap t.has (sym (drop-drop i k cur)) ∙ l.is_node)
                  (Excluded-next cur c k i before none_there l.longest) in
              (m, loop_next fuel cur c k i none_there points ∙ e, found)
          | inr not_more ↦
              Found-root cur c (loop_result (suc fuel) cur c k)
                (loop_root fuel cur c k none_there
                  (drop-all k cur (at_most k (length cur) not_more)))
                (Excluded-end cur c k within before none_there (at_most k (length cur) not_more))
        ]
      ]

  -- Where the failure pointers of the nodes down to a node's level are set: do_find_fail_ptr
  -- returns, for any byte, a pointer to the longest proper suffix of the child at that byte that is
  -- a node, with the root where there is no other one.
  pub do_find_fail_ptr-Found :
      (cur : List ℕ) (c : ℕ)
      → t.has cur ≡ true
      → length cur ≤ level
      → (m : ℕ) × (do_find_fail_ptr t cur c [] ≡ some (drop m (cur ++ c ∷ [])))
        × Longest t (cur ++ c ∷ []) m
  unfolding do_find_fail_ptr
  do_find_fail_ptr-Found [] c node low =
      Found-root [] c (do_find_fail_ptr t [] c [])
        (ap (λ o. find_fail_loop 1 t o c []) built.root_fail ∙ find_fail_loop-root 1 c)
        (λ j positive small. elim (no_room j 0 (omega arith) (omega (arith, positive, small))) [ ])
  do_find_fail_ptr-Found (x ∷ cur) c node low =
      let (k, points, l) = built.fails (x ∷ cur) node (omega arith) low in
      let (m, e, found) =
        find_fail_loop-Found (length (x ∷ cur) + 1) (x ∷ cur) c k low l.proper l.within
          (omega arith) l.is_node
          (λ j positive small. no_child (drop j (x ∷ cur)) c (l.longest j positive small)) in
      (m, ap (λ o. find_fail_loop (length (x ∷ cur) + 1) t o c []) points ∙ e, found)
