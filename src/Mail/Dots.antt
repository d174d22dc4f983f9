-- ===== src/Mail/Dots.antt =====
-- The mail as a server reads it after DATA, by RFC 5321: a line that is a dot ends it, and a dot at
-- the start of another line is taken off.
use study_notes.Base.{
  ℕ, ◌≡◌, ◌==◌, refl, ap, ◌∙◌, Bool, true, false, not, ◌&&◌, Option, none, some, List, [], ◌∷◌,
  ◌++◌, arith, crlf, if◌then◌else◌,
}
use study_notes.Mail.Session.{dot_line}

-- Where a byte stands: at the start of a line, behind a carriage return, or elsewhere.
pub data Place : Type 0 where
  line_start behind inside : Place

abbrev pub next_place : Place → ℕ → Place
next_place behind c = if c == 13 then behind else if c == 10 then line_start else inside
next_place line_start c = if c == 13 then behind else inside
next_place inside c = if c == 13 then behind else inside

abbrev pub is_start : Place → Bool
is_start line_start = true
is_start behind = false
is_start inside = false

-- What is behind a dot at the start of a line, where the line is over.
abbrev pub line_over : List ℕ → Option (List ℕ)
line_over (c ∷ d ∷ rest) = if c == 13 && d == 10 then some rest else none
line_over _ = none

abbrev pub kept : ℕ → Option (List ℕ × List ℕ) → Option (List ℕ × List ℕ)
kept c none = none
kept c (some (mail, rest)) = some (c ∷ mail, rest)

-- The mail, and the commands behind it.
unfoldable pub read_data : Place → List ℕ → Option (List ℕ × List ℕ)
read_data p [] = none
read_data p (c ∷ xs) =
    let plain = kept c (read_data (next_place p c) xs) in
    let dropped = read_data inside xs in
    if is_start p && c == 46
    then (elim (line_over xs) [ none ↦ dropped | some rest ↦ some ([], rest) ])
    else plain

-- No line starts with a dot.
unfoldable pub dotless : Place → List ℕ → Bool
dotless p [] = true
dotless p (c ∷ xs) = not (is_start p && c == 46) && dotless (next_place p c) xs

abbrev pub place : Place → List ℕ → Place
place p [] = p
place p (c ∷ xs) = place (next_place p c) xs

abbrev pub prepended : List ℕ → Option (List ℕ × List ℕ) → Option (List ℕ × List ℕ)
prepended [] o = o
prepended (c ∷ xs) o = kept c (prepended xs o)

-- Text without such a line is read as it is.
read_data-append :
    (xs ys : List ℕ) (p : Place)
    → dotless p xs ≡ true
    → read_data p (xs ++ ys) ≡ prepended xs (read_data (place p xs) ys)
unfolding read_data dotless
read_data-append [] ys p h = refl
read_data-append (c ∷ xs) ys p h =
    let ih = read_data-append xs ys (next_place p c) (ground (arith, h)) in ground (arith, h, ih)

pub dotless-append :
    (xs ys : List ℕ) (p : Place) → dotless p (xs ++ ys) ≡ (dotless p xs && dotless (place p xs) ys)
unfolding dotless
dotless-append [] ys p = refl
dotless-append (c ∷ xs) ys p = ground (arith, dotless-append xs ys (next_place p c))

prepended-some : (xs ys rest : List ℕ) → prepended xs (some (ys, rest)) ≡ some (xs ++ ys, rest)
prepended-some [] ys rest = refl
prepended-some (c ∷ xs) ys rest = ap (kept c) (prepended-some xs ys rest)

-- The line that ends a mail, wherever it starts.
read_data-dot_line :
    (p : Place) (rest : List ℕ) → read_data p (dot_line ++ rest) ≡ some (crlf, rest)
unfolding read_data
read_data-dot_line line_start rest = refl
read_data-dot_line behind rest = refl
read_data-dot_line inside rest = refl

-- Text without a line that starts with a dot, up to the line that ends the mail.
pub read_data-dotless :
    (xs rest : List ℕ) (p : Place)
    → dotless p xs ≡ true
    → read_data p (xs ++ (dot_line ++ rest)) ≡ some (xs ++ crlf, rest)
read_data-dotless xs rest p h =
    read_data-append xs (dot_line ++ rest) p h
    ∙ ap (prepended xs) (read_data-dot_line (place p xs) rest)
    ∙ prepended-some xs crlf rest
