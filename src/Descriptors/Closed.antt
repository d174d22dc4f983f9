-- ===== src/Descriptors/Closed.antt =====
-- Which descriptors are left open, and that the passes come to an end.
use study_notes.Base.{
  ℕ, zero, suc, ◌+◌, ◌≤◌, ◌<◌, ◌≡◌, ◌==◌, refl, ◌∙◌, ◌⊎◌, inl, inr, Bool, true, false, ◌&&◌,
  Bool-cases, Option, none, some, List, arith, if◌then◌else◌,
}
use study_notes.Base.Int.{ℤ, pos, negsuc}
use study_notes.Descriptors.{Entry, OpenFiles, PassEnd, broken, ended, pass, passes, close_all_fd}
use mathlib.Core.Path.{subst}
use study_notes.Descriptors.Pass.{In, is_kept, NamesLinks, Fewer, Ends, Passing, pass-Passing}

-- The open descriptors are below `n`.
abbrev pub Below : ℕ → OpenFiles → Type 0
Below n t = (k : ℕ) → t.is_open k ≡ true → k < n

-- A pass lists the descriptors that are open, all of them.
pub record Lists (n : ℕ) (entries : OpenFiles → List Entry) : Type 0 where
  pub listed : (t : OpenFiles) → Below n t → (k : ℕ) → t.is_open k ≡ true → In k (entries t)
  pub only : (t : OpenFiles) → Below n t → (k : ℕ) → In k (entries t) → t.is_open k ≡ true

-- How many of the descriptors below `n` are open.
abbrev pub count_open : ℕ → OpenFiles → ℕ
count_open zero t = 0
count_open (suc n) t = (if t.is_open n then 1 else 0) + count_open n t

count_open-Fewer : (n : ℕ) (t u : OpenFiles) → Fewer t u → count_open n u ≤ count_open n t
count_open-Fewer zero t u f = omega arith
count_open-Fewer (suc n) t u f = ground (arith, f n, count_open-Fewer n t u f)

count_open-lt :
    (n : ℕ) (t u : OpenFiles) (k : ℕ)
    → Fewer t u
    → k < n
    → t.is_open k ≡ true
    → u.is_open k ≡ false
    → count_open n u < count_open n t
count_open-lt zero t u k f h a b = absurd (omega (arith, h))
count_open-lt (suc n) t u k f h a b = elim (Bool-cases (k == n)) [
  | inl e ↦
      let same : k ≡ n = ground (arith, e) in
      let was : t.is_open n ≡ true = subst (λ j. t.is_open j ≡ true) same a in
      let now : u.is_open n ≡ false = subst (λ j. u.is_open j ≡ false) same b in
      ground (arith, was, now, count_open-Fewer n t u f)
  | inr e ↦
      let less : k < n = ground (arith, e, h) in
      ground (arith, f n, count_open-lt n t u k f less a b)
]

-- What is left open where the result is 0: of the table, the descriptors that are to stay.
abbrev pub Left : ℕ → OpenFiles → Option (OpenFiles × ℤ) → Type 0
Left dirfd t none = ⊥
Left dirfd t (some (u, r)) =
    (r ≡ negsuc 0) ⊎ ((r ≡ pos 0) × ((k : ℕ) → u.is_open k ≡ (t.is_open k && is_kept dirfd k)))

module _ (entries : OpenFiles → List Entry) (readlink : ℕ → ℤ × List ℕ) (close : ℕ → ℕ → Bool)
    (dirfd : ℕ) (links : NamesLinks readlink) where
  module _ (n : ℕ) (first : OpenFiles) (lists : Lists n entries) where
    -- A table between the first one and the last.
    record Between (t : OpenFiles) : Type 0 where
      below : Below n t
      still : (k : ℕ) → is_kept dirfd k ≡ true → t.is_open k ≡ first.is_open k

    all_kept :
        (t u : OpenFiles) (k : ℕ)
        → Between t
        → Ends dirfd (entries t) t false u false
        → u.is_open k ≡ (first.is_open k && is_kept dirfd k)
    all_kept t u k b h = elim (Bool-cases (is_kept dirfd k)) [
      | inl e ↦ ground (arith, h.same k e, b.still k e, e)
      | inr e ↦ elim (Bool-cases (u.is_open k)) [
        | inl o ↦
            let f : is_kept dirfd k ≡ true =
              (h.quiet refl).2 k (lists.listed t b.below k (h.fewer k o)) in
            absurd (ground (arith, e, f))
        | inr c ↦ ground (arith, e, c)
      ]
    ]

    next_pass :
        (t u : OpenFiles)
        → Between t
        → Ends dirfd (entries t) t false u true
        → Between u × (count_open n u < count_open n t)
    next_pass t u b h = (
      record { below = λ k o. b.below k (h.fewer k o); still = λ k e. h.same k e ∙ b.still k e },
      elim (h.loud refl) [
        | inl f ↦ absurd (ground (arith, f))
        | inr (k, i, c) ↦
            count_open-lt n t u k h.fewer (b.below k (lists.only t b.below k i))
              (lists.only t b.below k i) c
      ],
    )

    round-Left :
        (t : OpenFiles) (again : OpenFiles → Option (OpenFiles × ℤ)) (p : PassEnd)
        → Between t
        → ((u : OpenFiles)
            → Between u
            → count_open n u < count_open n t
            → Left dirfd first (again u))
        → Passing dirfd (entries t) t false p
        → Left dirfd first (elim p [
          | broken t' retval ↦ some (t', retval)
          | ended t' false ↦ some (t', pos 0)
          | ended t' true ↦ again t'
        ])
    round-Left t again (broken u r) b ih e = inl e
    round-Left t again (ended u false) b ih e = inr (refl, λ k. all_kept t u k b e)
    round-Left t again (ended u true) b ih e = let (c, less) = next_pass t u b e in ih u c less

    passes-Left :
        (fuel : ℕ) (t : OpenFiles)
        → Between t
        → count_open n t < fuel
        → Left dirfd first (passes entries readlink close dirfd fuel t)
    unfolding passes
    passes-Left zero t b h = absurd (omega (arith, h))
    passes-Left (suc fuel) t b h =
        round-Left t (passes entries readlink close dirfd fuel)
          (pass entries readlink close dirfd (entries t) t false) b
          (λ u c less. passes-Left fuel u c (omega (arith, h, less)))
          (pass-Passing entries readlink close dirfd links (entries t) t false)

  count_open-le : (n : ℕ) (t : OpenFiles) → count_open n t ≤ n
  count_open-le zero t = omega arith
  count_open-le (suc n) t = ground (arith, count_open-le n t)

  -- Where the open descriptors are below n, a pass lists them, and readlink names the links as
  -- documented, whatever close answers: the function ends, within n + 1 passes. Its result is -1, or
  -- it is 0, and of the open descriptors, the sockets among them, those that are left are the
  -- directory's own and the first three.
  pub close_all_fd-Left :
      (n : ℕ) (has_dir : Bool) (t : OpenFiles)
      → Lists n entries
      → Below n t
      → Left dirfd t (close_all_fd entries readlink close dirfd has_dir (n + 1) t)
  unfolding close_all_fd
  close_all_fd-Left n true t lists below =
      passes-Left n t lists (n + 1) t (record { below = below; still = λ k e. refl })
        (omega (arith, count_open-le n t))
  close_all_fd-Left n false t lists below = inl refl
