-- ===== src/Keywords/Suffix.antt =====
-- Suffixes of a path, by the number of bytes that stand before them.
use study_notes.Base.{
  ℕ, zero, suc, ◌+◌, ◌-◌, ◌<◌, ◌≤◌, ◌≡◌, refl, sym, ap, ◌∙◌, List, [], ◌∷◌, ◌++◌, arith, inl, inr,
  ◌⊎◌, Bool-cases, ltb, ltb→lt, drop, length,
}

pub drop-snoc :
    (k : ℕ) (p : List ℕ) (c : ℕ) → k ≤ length p → drop k (p ++ c ∷ []) ≡ drop k p ++ c ∷ []
drop-snoc zero p c e = refl
drop-snoc (suc k) [] c e = ground (arith, e)
drop-snoc (suc k) (x ∷ p) c e = drop-snoc k p c (omega (arith, e))

drop-nil : (n : ℕ) → drop {A = ℕ} n [] ≡ []
drop-nil zero = refl
drop-nil (suc n) = refl

next_sum : (k i : ℕ) → suc (k + i) ≡ suc k + i
next_sum k i = omega arith

pub rest_of : (j k : ℕ) → k < j → j ≡ k + (j - k)
rest_of j k e = omega (arith, e)

pub no_room : (m k : ℕ) → k ≤ m → m < zero + k → ⊥
no_room m k e f = omega (arith, e, f)

pub at_most : (k m : ℕ) → (k ≡ m) ⊎ (m < k) → m ≤ k
at_most k m (inl e) = omega (arith, e)
at_most k m (inr e) = omega (arith, e)

pub lt_cases : (j k : ℕ) → (j < k) ⊎ ((j ≡ k) ⊎ (k < j))
lt_cases j k = elim (Bool-cases (ltb j k)) [
  | inl less ↦ inl (ltb→lt j k less)
  | inr not_less ↦ elim (Bool-cases (ltb k j)) [
    | inl greater ↦ inr (inr (ltb→lt k j greater))
    | inr not_greater ↦ inr (inl (ground (arith, not_less, not_greater)))
  ]
]

pub drop-drop : (i k : ℕ) (p : List ℕ) → drop i (drop k p) ≡ drop (k + i) p
drop-drop i zero p = ap (λ n. drop n p) (omega arith)
drop-drop i (suc k) [] = drop-nil i ∙ sym (drop-nil (suc k + i))
drop-drop i (suc k) (x ∷ p) = drop-drop i k p ∙ ap (λ n. drop n (x ∷ p)) (next_sum k i)

pub drop-all : (k : ℕ) (p : List ℕ) → length p ≤ k → drop k p ≡ []
drop-all zero [] e = refl
drop-all zero (x ∷ p) e = ground (arith, e)
drop-all (suc k) [] e = refl
drop-all (suc k) (x ∷ p) e = drop-all k p (omega (arith, e))
