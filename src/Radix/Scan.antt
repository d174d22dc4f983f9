-- ===== src/Radix/Scan.antt =====
-- The inner loop of `match`: how far a node's prefix agrees with the key.
use native.Mathlib.Nat.{zero-add, add-zero}
use study_notes.Base.{
  true, false, ◌∙◌, ℕ, zero, suc, ◌+◌, ◌≤◌, ◌<◌, ◌≡◌, ◌≢◌, refl, ap, ◌⊎◌, inl, inr, List, [], ◌∷◌,
  ◌++◌, length, take, drop, arith, ◌==◌, Bool-cases,
}
use study_notes.Radix.{bytes, first_byte}
use study_notes.Radix.Match.{scan}
use study_notes.Radix.Shape.{AvoidsBytes}

pub bytes-append :
    (key : ℕ → ℕ) (i m n : ℕ) → bytes key i (m + n) ≡ bytes key i m ++ bytes key (i + m) n
bytes-append key i zero n = rw (zero-add, add-zero)
bytes-append key i (suc m) n =
    let e : suc m + n ≡ suc (m + n) = omega arith in
    let f : i + suc m ≡ i + 1 + m = omega arith in rw (e, f, bytes-append key (i + 1) m n)

pub length-bytes : (key : ℕ → ℕ) (i n : ℕ) → length (bytes key i n) ≡ n
length-bytes key i zero = refl
length-bytes key i (suc n) = omega (arith, length-bytes key (i + 1) n)

-- `d` bytes of the prefix `p` agree with the key from `i` on, and the next one does not.
pub record Scanned (p : List ℕ) (key : ℕ → ℕ) (i d : ℕ) : Type 0 where
  pub within : d ≤ length p
  pub agrees : take d p ≡ bytes key i d
  pub differs : d < length p → first_byte (drop d p) ≢ key (i + d)

before_size : (key : ℕ → ℕ) (i c size : ℕ) → c ≢ key size → i ≤ size → c ≡ key i → i + 1 ≤ size
before_size key i c size a h e = elim (choose h) [
  | inl f ↦ absurd (a (e ∙ ap key f))
  | inr l ↦ omega arith
]
  where
    choose : i ≤ size → (i ≡ size) ⊎ (i < size)
    choose h = omega arith

Scanned-cons :
    (p : List ℕ) (key : ℕ → ℕ) (i d c : ℕ)
    → c ≡ key i
    → Scanned p key (i + 1) d
    → Scanned (c ∷ p) key i (suc d)
Scanned-cons p key i d c e s =
    let shift : i + 1 + d ≡ i + suc d = omega arith in
    record {
      within = omega (arith, s.within);
      agrees = rw (e, s.agrees);
      differs = λ l. rw shift at (s.differs (omega arith));
    }

-- The loop returns both indexes moved by the bytes that agree, and stays within `size`.
abbrev pub Scan : List ℕ → (ℕ → ℕ) → (i j size : ℕ) → Type 0
Scan p key i j size =
    (d : ℕ) × (scan p key i j ≡ (i + d, j + d)) × (i + d ≤ size) × Scanned p key i d

Scan-hit :
    (c : ℕ) (p : List ℕ) (key : ℕ → ℕ) (i j size : ℕ)
    → (c == key i) ≡ true
    → Scan p key (i + 1) (j + 1) size
    → Scan (c ∷ p) key i j size
unfolding scan
Scan-hit c p key i j size hit (d, e, le, s) =
    (suc d, rw (hit, e) (ground arith), omega arith, Scanned-cons p key i d c (ground arith) s)

Scan-miss :
    (c : ℕ) (p : List ℕ) (key : ℕ → ℕ) (i j size : ℕ)
    → (c == key i) ≡ false
    → i ≤ size
    → Scan (c ∷ p) key i j size
unfolding scan
Scan-miss c p key i j size miss h = (
  0,
  rw miss (ground arith),
  omega arith,
  record { within = omega arith; agrees = refl; differs = λ l. rw add-zero (ground arith) },
)

-- That it stays within `size` takes that the byte at `size` is none of the prefix.
pub Scan-Scanned :
    (p : List ℕ) (key : ℕ → ℕ) (i j size : ℕ)
    → AvoidsBytes (key size) p
    → i ≤ size
    → Scan p key i j size
unfolding scan
Scan-Scanned [] key i j size a h = (
  0,
  ground arith,
  omega arith,
  record { within = omega arith; agrees = refl; differs = λ l. absurd (omega arith) },
)
Scan-Scanned (c ∷ p) key i j size a h = elim (Bool-cases (c == key i)) [
  | inl hit ↦
      Scan-hit c p key i j size hit (
        Scan-Scanned p key (i + 1) (j + 1) size a.1 (before_size key i c size a.0 h (ground arith)))
  | inr miss ↦ Scan-miss c p key i j size miss h
]
