-- ===== src/Mail/Digits.antt =====
-- The table and the values of its characters.
use study_notes.Base.{
  ℕ, zero, suc, ◌<◌, ◌≡◌, refl, Bool, true, false, ◌&&◌, Option, none, some, arith, ◌==◌,
  Bool-cases, inl, inr, not,
}
use study_notes.Mail.{tab}
use study_notes.Mail.Decode.{six}

abbrev is_some : Option ℕ → ℕ → Bool
is_some none i = false
is_some (some j) i = i == j

abbrev below : (ℕ → Bool) → ℕ → Bool
below test zero = true
below test (suc n) = test n && below test n

below-lt : (test : ℕ → Bool) (n i : ℕ) → below test n ≡ true → i < n → test i ≡ true
below-lt test zero i h l = absurd (omega arith)
below-lt test (suc n) i h l = elim (Bool-cases (i == n)) [
  | inl same ↦ let e : i ≡ n = ground arith in rw e (ground (arith, h))
  | inr other ↦ below-lt test n i (ground (arith, h)) (ground arith)
]

is_some-path : (o : Option ℕ) (i : ℕ) → is_some o i ≡ true → o ≡ some i
is_some-path none i h = absurd (ground (arith, h))
is_some-path (some j) i h = let e : i ≡ j = ground arith in rw e

pub six-tab : (i : ℕ) → i < 64 → six (tab i) ≡ some i
unfolding six
six-tab i h = is_some-path (six (tab i)) i (below-lt (λ j. is_some (six (tab j)) j) 64 i refl h)

pub tab-pad : (i : ℕ) → i < 64 → (tab i == 61) ≡ false
tab-pad i h = ground (arith, below-lt (λ j. not (tab j == 61)) 64 i refl h)

pub tab-dot : (i : ℕ) → i < 64 → (tab i == 46) ≡ false
tab-dot i h = ground (arith, below-lt (λ j. not (tab j == 46)) 64 i refl h)
