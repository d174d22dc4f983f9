-- ===== src/Cluster/Parts.antt =====
-- What `Split` returns, put together again.
use mathlib.Core.Path.{subst}
use study_notes.Base.{
  ℕ, zero, suc, ◌+◌, ◌<◌, ◌≡◌, refl, sym, ap, ◌∙◌, true, false, none, some, List, [], ◌∷◌, ◌++◌,
  arith, length, length-append, ◌==◌, if◌then◌else◌, Bool-cases, Option-cases, inl, inr,
}
use study_notes.Cluster.Split.{
  Place, further, find_char, strip, find_string, nonempty, insert_part, split_loop, split,
}

-- The parts, with the delimiter between them.
abbrev pub join : List ℕ → List (List ℕ) → List ℕ
join d [] = []
join d (part ∷ []) = part
join d (part ∷ next ∷ parts) = part ++ (d ++ join d (next ∷ parts))

abbrev pub nonempty_parts : List (List ℕ) → List (List ℕ)
nonempty_parts [] = []
nonempty_parts (part ∷ parts) =
    if nonempty part then part ∷ nonempty_parts parts else nonempty_parts parts

-- The delimiter stands in none of the parts.
abbrev pub AllFree : (List ℕ → Place) → List (List ℕ) → Type 0
AllFree find [] = Unit
AllFree find (part ∷ parts) = (find part ≡ none) × AllFree find parts

-- A place of `d` in `s`, the first one.
abbrev Placed : List ℕ → (List ℕ → Place) → List ℕ → Place → Type 0
Placed d find s none = Unit
Placed d find s (some (p, r)) = (s ≡ p ++ (d ++ r)) × (find p ≡ none)

abbrev IsSearch : List ℕ → (List ℕ → Place) → Type 0
IsSearch d find = (s : List ℕ) → Placed d find s (find s)

Placed-further :
    (d : List ℕ) (find : List ℕ → Place) (c : ℕ) (s : List ℕ) (o : Place)
    → ((p r : List ℕ) → s ≡ p ++ (d ++ r) → find p ≡ none → find (c ∷ p) ≡ none)
    → Placed d find s o
    → Placed d find (c ∷ s) (further c o)
Placed-further d find c s none h placed = tt
Placed-further d find c s (some (p, r)) h placed = (ap (◌∷◌ c) placed.0, h p r placed.0 placed.1)

find_char-IsSearch : (ch : ℕ) → IsSearch (ch ∷ []) (find_char ch)
unfolding find_char
find_char-IsSearch ch [] = tt
find_char-IsSearch ch (c ∷ s) = elim (Bool-cases (c == ch)) [
  | inl hit ↦ let same : c ≡ ch = ground arith in rw hit (rw same refl, refl)
  | inr miss ↦ rw miss (
      Placed-further (ch ∷ []) (find_char ch) c s (find_char ch s) (λ p r e f. rw (miss, f) refl)
        (find_char-IsSearch ch s))
]

strip-append : (d s r : List ℕ) → strip d s ≡ some r → s ≡ d ++ r
unfolding strip
strip-append [] s r e = ground (arith, e)
strip-append (x ∷ d) [] r e = absurd (ground (arith, e))
strip-append (x ∷ d) (c ∷ s) r e = elim (Bool-cases (c == x)) [
  | inl hit ↦
      let same : c ≡ x = ground arith in
      rw same (ap (◌∷◌ x) (strip-append d s r (ground (arith, e))))
  | inr miss ↦ absurd (ground (arith, e))
]

-- What a string does not start with, no beginning of it starts with.
strip-none : (d a b : List ℕ) → 0 < length d → strip d (a ++ b) ≡ none → strip d a ≡ none
unfolding strip
strip-none [] a b l e = absurd (omega arith)
strip-none (x ∷ d) [] b l e = refl
strip-none (x ∷ []) (c ∷ a) b l e = ground (arith, e)
strip-none (x ∷ y ∷ d) (c ∷ a) b l e = ground (arith, e, strip-none (y ∷ d) a b)

find_string-IsSearch : (d : List ℕ) → 0 < length d → IsSearch d (find_string d)
unfolding find_string
find_string-IsSearch d l [] = tt
find_string-IsSearch d l (c ∷ s) = elim (Option-cases (strip d (c ∷ s))) [
  | inl miss ↦ rw miss (
      Placed-further d (find_string d) c s (find_string d s)
        (λ p r e f.
          let short : strip d (c ∷ p) ≡ none = strip-none d (c ∷ p) (d ++ r) l (rw e at miss) in
          rw (short, f) refl)
        (find_string-IsSearch d l s))
  | inr (rest, hit) ↦ rw hit (strip-append d (c ∷ s) rest hit, refl)
]

insert_part-true :
    (part : List ℕ) (parts : List (List ℕ)) → insert_part true part parts ≡ part ∷ parts
insert_part-true [] parts = refl
insert_part-true (c ∷ part) parts = refl

insert_part-false :
    (part : List ℕ) (parts : List (List ℕ))
    → insert_part false part (nonempty_parts parts) ≡ nonempty_parts (part ∷ parts)
insert_part-false [] parts = refl
insert_part-false (c ∷ part) parts = refl

-- What the loop returns for both values of `keepEmptyParts`.
record Parts (d : List ℕ) (find : List ℕ → Place) (s : List ℕ) (fuel : ℕ) : Type 0 where
  head : List ℕ
  tail : List (List ℕ)
  kept : split_loop fuel find true s ≡ some (head ∷ tail)
  dropped : split_loop fuel find false s ≡ some (nonempty_parts (head ∷ tail))
  joins : join d (head ∷ tail) ≡ s
  free : AllFree find (head ∷ tail)

split_loop-Parts :
    (d : List ℕ) (find : List ℕ → Place) (fuel : ℕ) (s : List ℕ)
    → 0 < length d
    → IsSearch d find
    → length s < fuel
    → Parts d find s fuel
unfolding split_loop
split_loop-Parts d find zero s l searches enough = absurd (omega arith)
split_loop-Parts d find (suc fuel) s l searches enough = elim (Option-cases (find s)) [
  | inl missing ↦ record {
    head = s;
    tail = [];
    kept = rw (split_loop, missing) (ap some (insert_part-true s []));
    dropped = rw (split_loop, missing) (ap some (insert_part-false s []));
    joins = refl;
    free = (missing, tt);
  }
  | inr ((p, r), hit) ↦
      let placed : (s ≡ p ++ (d ++ r)) × (find p ≡ none) =
        subst (Placed d find s) hit (searches s) in
      let shorter : length r < fuel =
        omega (arith, ap length placed.0, length-append p (d ++ r), length-append d r, enough, l) in
      let rest = split_loop-Parts d find fuel r l searches shorter in
      record {
        head = p;
        tail = rest.head ∷ rest.tail;
        kept =
            rw (split_loop, hit, rest.kept) (ap some (insert_part-true p (rest.head ∷ rest.tail)));
        dropped =
            rw (split_loop, hit, rest.dropped)
              (ap some (insert_part-false p (rest.head ∷ rest.tail)));
        joins = ap (λ z. p ++ (d ++ z)) rest.joins ∙ sym placed.0;
        free = (placed.1, rest.free);
      }
]

-- The search that `Split` uses for a delimiter.
abbrev pub search_for : List ℕ → List ℕ → Place
search_for [] = find_string []
search_for (ch ∷ []) = find_char ch
search_for (ch ∷ dh ∷ d) = find_string (ch ∷ dh ∷ d)

-- For a delimiter that is not empty, `Split` returns: with empty parts kept, parts that contain no
-- delimiter and, with the delimiter between them, are the string; with empty parts dropped, those
-- of these parts that are not empty.
pub split-join :
    (d s : List ℕ)
    → 0 < length d
    → (parts : List (List ℕ)) × (split d true s ≡ some parts)
      × (join d parts ≡ s)
      × AllFree (search_for d) parts
      × (split d false s ≡ some (nonempty_parts parts))
unfolding split
split-join [] s l = absurd (omega arith)
split-join (ch ∷ []) s l =
    let made =
      split_loop-Parts (ch ∷ []) (find_char ch) (length s + 1) s l (find_char-IsSearch ch)
        (omega arith) in
    (made.head ∷ made.tail, made.kept, made.joins, made.free, made.dropped)
split-join (ch ∷ dh ∷ d) s l =
    let made =
      split_loop-Parts (ch ∷ dh ∷ d) (find_string (ch ∷ dh ∷ d)) (length s + 1) s l
        (find_string-IsSearch (ch ∷ dh ∷ d) l) (omega arith) in
    (made.head ∷ made.tail, made.kept, made.joins, made.free, made.dropped)
