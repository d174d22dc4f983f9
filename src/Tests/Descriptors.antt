-- ===== src/Tests/Descriptors.antt =====
-- A run of `close_all_fd`.
use study_notes.Base.{
  inl, inr, sym, Bool-cases, ℕ, zero, suc, ◌+◌, ◌<◌, ◌≡◌, ◌==◌, refl, ltb, Bool, true, false, List,
  [], ◌∷◌, codes, arith, if◌then◌else◌,
}
use study_notes.Base.Int.{ℤ, pos}
use study_notes.Descriptors.{Entry, dots, name, OpenFiles, close_all_fd}
use study_notes.Descriptors.Pass.{In}
use study_notes.Descriptors.Closed.{Left, close_all_fd-Left}
use mathlib.Core.Path.{subst}

-- The descriptors below `n` that are open, highest first.
abbrev names : ℕ → OpenFiles → List Entry
names zero t = dots ∷ []
names (suc n) t = if t.is_open n then name n ∷ names n t else names n t

-- The directory of a process with descriptors below 6.
abbrev below_six : OpenFiles → List Entry
below_six t = names 6 t

abbrev links : ℕ → ℤ × List ℕ
links fd = (pos 8, codes "socket:[")

abbrev table : OpenFiles
table = record { is_open = λ k. ltb k 6; closes = 0 }

names-listed : (n : ℕ) (t : OpenFiles) (k : ℕ) → k < n → t.is_open k ≡ true → In k (names n t)
names-listed zero t k h o = absurd (omega (arith, h))
names-listed (suc n) t k h o = elim (Bool-cases (k == n)) [
  | inl e ↦
      let same : k ≡ n = ground (arith, e) in
      let there : t.is_open n ≡ true = subst (λ j. t.is_open j ≡ true) same o in
      subst (λ b. In k (if b then name n ∷ names n t else names n t)) (sym there) (inl (sym same))
  | inr e ↦ further (t.is_open n) (names-listed n t k (ground (arith, e, h)) o)
]
  where
    further : (b : Bool) → In k (names n t) → In k (if b then name n ∷ names n t else names n t)
    further true i = inr i
    further false i = i

names-only : (n : ℕ) (t : OpenFiles) (k : ℕ) → In k (names n t) → t.is_open k ≡ true
names-only zero t k i = absurd i
names-only (suc n) t k i = go (t.is_open n) refl i (names-only n t k)
  where
    go :
        (b : Bool)
        → t.is_open n ≡ b
        → In k (if b then name n ∷ names n t else names n t)
        → (In k (names n t) → t.is_open k ≡ true)
        → t.is_open k ≡ true
    go true e (inl same) f = subst (λ j. t.is_open j ≡ true) same e
    go true e (inr j) f = f j
    go false e j f = f j

close_all_fd-Left_example :
    Left 4 table (close_all_fd below_six links (λ n fd. true) 4 true (6 + 1) table)
close_all_fd-Left_example =
    close_all_fd-Left below_six links (λ n fd. true) 4 (λ fd. refl) 6 true table
      (record {
        listed = λ t below k o. names-listed 6 t k (below k o) o;
        only = λ t below k i. names-only 6 t k i;
      })
      (λ k o. ground (arith, o))
