-- ===== src/Descriptors/Pass.antt =====
-- What a pass over the directory does to the descriptors.
use study_notes.Base.{
  ℕ, ◌≡◌, ◌==◌, ==_iff, refl, ◌∙◌, ◌⊎◌, inl, inr, ltb, Bool, true, false, ◌||◌, Bool-cases, List,
  [], ◌∷◌, arith,
}
use study_notes.Base.Int.{ℤ, negsuc}
use study_notes.Descriptors.{
  Entry, failed, dots, name, OpenFiles, close_one, PassEnd, broken, ended, is_zero, is_skipped,
  pass,
}
use mathlib.Core.Path.{subst}

-- A descriptor is among the entries.
abbrev pub In : ℕ → List Entry → Type 0
In k [] = ⊥
In k (failed ∷ es) = In k es
In k (dots ∷ es) = In k es
In k (name j ∷ es) = (j ≡ k) ⊎ In k es

-- The descriptors that are to stay: the directory's own, and the first three.
abbrev pub is_kept : ℕ → ℕ → Bool
is_kept dirfd k = dirfd == k || ltb k 3

-- By its documentation, `readlink` returns -1 or the length of the name of the link, which is not
-- empty.
abbrev pub NamesLinks : (ℕ → ℤ × List ℕ) → Type 0
NamesLinks readlink = (fd : ℕ) → is_zero (readlink fd).0 ≡ false

abbrev pub Fewer : OpenFiles → OpenFiles → Type 0
Fewer t u = (k : ℕ) → u.is_open k ≡ true → t.is_open k ≡ true

-- How a pass over the entries ends.
pub record Ends (dirfd : ℕ) (es : List Entry) (t : OpenFiles) (rewind : Bool) (u : OpenFiles)
    (b : Bool) : Type 0 where
  pub same : (k : ℕ) → is_kept dirfd k ≡ true → u.is_open k ≡ t.is_open k
  pub fewer : Fewer t u
  pub quiet : b ≡ false → (u ≡ t) × (rewind ≡ false) × ((k : ℕ) → In k es → is_kept dirfd k ≡ true)
  pub loud : b ≡ true → (rewind ≡ true) ⊎ ((k : ℕ) × (In k es) × (u.is_open k ≡ false))

abbrev pub Passing : ℕ → List Entry → OpenFiles → Bool → PassEnd → Type 0
Passing dirfd es t rewind (broken u r) = r ≡ negsuc 0
Passing dirfd es t rewind (ended u b) = Ends dirfd es t rewind u b

module _ (entries : OpenFiles → List Entry) (readlink : ℕ → ℤ × List ℕ) (close : ℕ → ℕ → Bool)
    (dirfd : ℕ) (links : NamesLinks readlink) where
  skipped-kept : (fd : ℕ) → is_skipped readlink dirfd fd ≡ is_kept dirfd fd
  skipped-kept fd = ground (arith, links fd)

  over_dots :
      (es : List Entry) (t : OpenFiles) (rewind : Bool) (p : PassEnd)
      → Passing dirfd es t rewind p
      → Passing dirfd (dots ∷ es) t rewind p
  over_dots es t rewind (broken u r) h = h
  over_dots es t rewind (ended u b) h = record {
    same = h.same;
    fewer = h.fewer;
    quiet = h.quiet;
    loud = h.loud;
  }

  over_kept :
      (es : List Entry) (t : OpenFiles) (rewind : Bool) (fd : ℕ) (p : PassEnd)
      → is_kept dirfd fd ≡ true
      → Passing dirfd es t rewind p
      → Passing dirfd (name fd ∷ es) t rewind p
  over_kept es t rewind fd (broken u r) kept h = h
  over_kept es t rewind fd (ended u b) kept h = record {
    same = h.same;
    fewer = h.fewer;
    quiet = λ e. (
      (h.quiet e).0,
      (h.quiet e).1,
      λ k i. elim i [
        | inl f ↦ subst (λ j. is_kept dirfd j ≡ true) f kept
        | inr i' ↦ (h.quiet e).2 k i'
      ],
    );
    loud = λ e. elim (h.loud e) [ inl r ↦ inl r | inr (k, i, c) ↦ inr (k, inr i, c) ];
  }

  over_closed :
      (es : List Entry) (t : OpenFiles) (rewind : Bool) (fd : ℕ) (p : PassEnd)
      → is_kept dirfd fd ≡ false
      → Passing dirfd es (close_one t fd) true p
      → Passing dirfd (name fd ∷ es) t rewind p
  over_closed es t rewind fd (broken u r) gone h = h
  over_closed es t rewind fd (ended u b) gone h = record {
    same = λ k kept. h.same k kept ∙ ground (arith, kept, gone, ==_iff k fd);
    fewer = λ k o. ground (arith, h.fewer k o);
    quiet = λ e. (let f : true ≡ false = (h.quiet e).1 in absurd (ground (arith, f)));
    loud = λ e. inr (
      fd,
      inl refl,
      elim (Bool-cases (u.is_open fd)) [
        | inl o ↦ absurd (ground (arith, h.fewer fd o))
        | inr c ↦ c
      ],
    );
  }

  pub pass-Passing :
      (es : List Entry) (t : OpenFiles) (rewind : Bool)
      → Passing dirfd es t rewind (pass entries readlink close dirfd es t rewind)
  unfolding pass
  pass-Passing [] t rewind = record {
    same = λ k h. refl;
    fewer = λ k h. h;
    quiet = λ h. (refl, h, λ k i. absurd i);
    loud = λ h. inl h;
  }
  pass-Passing (failed ∷ es) t rewind = refl
  pass-Passing (dots ∷ es) t rewind = over_dots es t rewind _ (pass-Passing es t rewind)
  pass-Passing (name fd ∷ es) t rewind = elim (Bool-cases (is_kept dirfd fd)) [
    | inl e ↦ rw (skipped-kept fd, e) (over_kept es t rewind fd _ e (pass-Passing es t rewind))
    | inr e ↦ elim (Bool-cases (close t.closes fd)) [
      | inl c ↦
          rw (skipped-kept fd, e, c)
            (over_closed es t rewind fd _ e (pass-Passing es (close_one t fd) true))
      | inr c ↦ rw (skipped-kept fd, e, c) refl
    ]
  ]
