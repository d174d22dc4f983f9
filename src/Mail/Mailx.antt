-- ===== src/Mail/Mailx.antt =====
-- Languages/cpp/mail_wrapper/mail_wrapper.cpp: `MailWrapper::popen_mailx`, which runs a command that
-- sends a mail.
use study_notes.Base.{
  ℕ, suc, ◌<◌, ◌≡◌, ◌==◌, refl, sym, ◌-◌, ap, ◌∙◌, ◌⊎◌, inl, inr, length-take, Bool, true, false,
  Option, none, some, List, [], ◌∷◌, ◌++◌, map, length, take, arith, codes, if◌then◌else◌, min,
}
use mathlib.Core.Path.{subst}

-- `sizeof(buffer)`.
abbrev pub buffer_size : ℕ
buffer_size = 256

-- A byte of the buffer behind the loop: a 0 is a space.
abbrev pub shown : ℕ → ℕ
shown b = if b == 0 then 32 else b

-- What is made of the bytes that are read, and of a `popen` that fails: the result, and `errmsg`.
abbrev pub after_read : List ℕ → List ℕ → Bool × List ℕ
after_read errmsg [] = (true, errmsg)
after_read errmsg (b ∷ buffer) = (false, map shown (b ∷ buffer))

abbrev pub after_popen : List ℕ → Option (List ℕ × ℕ) → Bool × List ℕ
after_popen errmsg none = (false, codes "popen() failed!")
after_popen errmsg (some (output, rc)) = after_read errmsg (take (buffer_size - 1) output)

-- `popen` is what the shell gives for a command line; `pclose` returns the exit status.
unfoldable pub popen_mailx : (List ℕ → Option (List ℕ × ℕ)) → List ℕ → List ℕ → Bool × List ℕ
popen_mailx popen cmd errmsg = after_popen errmsg (popen (cmd ++ codes " 2>&1"))

length-shown : (xs : List ℕ) → length (map shown xs) ≡ length xs
length-shown [] = refl
length-shown (x ∷ xs) = ap suc (length-shown xs)

-- What is reported for an output.
abbrev pub Answered : List ℕ → List ℕ → Bool × List ℕ → Type 0
Answered errmsg output p =
    ((output ≡ []) × (p ≡ (true, errmsg)))
    ⊎ ((p.0 ≡ false) × (length p.1 ≡ min 255 (length output)) × (0 < length p.1))

after_popen-Answered :
    (errmsg output : List ℕ) (rc : ℕ)
    → Answered errmsg output (after_popen errmsg (some (output, rc)))
after_popen-Answered errmsg [] rc = inl (refl, refl)
after_popen-Answered errmsg (x ∷ xs) rc =
    let n : length (map shown (take 255 (x ∷ xs))) ≡ min 255 (length (x ∷ xs)) =
      length-shown (take 255 (x ∷ xs)) ∙ length-take 255 (x ∷ xs) in
    inr (refl, n, omega arith)

-- A command that prints nothing is taken to have sent the mail, whatever its exit status, and
-- errmsg is as before; for one that prints something the result is false, and errmsg has as many
-- bytes as the output, or 255 where it has more.
pub popen_mailx-output :
    (popen : List ℕ → Option (List ℕ × ℕ)) (cmd errmsg output : List ℕ) (rc : ℕ)
    → popen (cmd ++ codes " 2>&1") ≡ some (output, rc)
    → Answered errmsg output (popen_mailx popen cmd errmsg)
unfolding popen_mailx
popen_mailx-output popen cmd errmsg output rc e =
    subst (Answered errmsg output) (ap (after_popen errmsg) (sym e))
      (after_popen-Answered errmsg output rc)
