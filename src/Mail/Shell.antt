-- ===== src/Mail/Shell.antt =====
-- The words of a command line, as a POSIX shell reads them.
use study_notes.Base.{
  ℕ, ◌≡◌, ◌==◌, refl, sym, ap, ◌∙◌, Bool, true, false, not, ◌&&◌, ◌||◌, Option, none, some, List,
  [], ◌∷◌, ◌++◌, append-nil, append_assoc, is_nil, codes, Without, ltb, leb, if◌then◌else◌,
}
use study_notes.Mail.Wrapper.{MailWrapper, format_rcpts, format_auth}

pub data Quote : Type 0 where
  unquoted single double : Quote

-- A character that has a meaning of its own outside quotes.
abbrev pub is_special : ℕ → Bool
is_special c =
    (ltb 32 c && ltb c 43 && not (c == 37))
    || leb c 31
    || c == 59
    || c == 60
    || c == 62
    || c == 63
    || c == 91
    || c == 92
    || c == 96
    || leb 123 c

-- And within double quotes.
abbrev pub is_expanded : ℕ → Bool
is_expanded c = c == 36 || c == 96 || c == 92

abbrev pub more : List ℕ → Option (List (List ℕ)) → Option (List (List ℕ))
more w none = none
more w (some ws) = some (w ∷ ws)

-- `begun` tells whether a word is begun, and `w` is what is read of it. `none` is a quote that is
-- not closed, or more than a simple command of literal words.
unfoldable pub shell_words : Quote → Bool → List ℕ → List ℕ → Option (List (List ℕ))
shell_words unquoted begun w [] = some (if begun then w ∷ [] else [])
shell_words single begun w [] = none
shell_words double begun w [] = none
shell_words unquoted begun w (c ∷ xs) =
    let ended = more w (shell_words unquoted false [] xs) in
    let skipped = shell_words unquoted false [] xs in
    let quoted = shell_words single true w xs in
    let doubled = shell_words double true w xs in
    let added = shell_words unquoted true (w ++ c ∷ []) xs in
    if c == 32
    then (if begun then ended else skipped)
    else if c == 39
    then quoted
    else if c == 34
    then doubled
    else if is_special c
    then none
    else added
shell_words single begun w (c ∷ xs) =
    let closed = shell_words unquoted true w xs in
    let added = shell_words single true (w ++ c ∷ []) xs in if c == 39 then closed else added
shell_words double begun w (c ∷ xs) =
    let closed = shell_words unquoted true w xs in
    let added = shell_words double true (w ++ c ∷ []) xs in
    if c == 34 then closed else if is_expanded c then none else added

-- Text within single quotes, to the quote that closes it.
single_text :
    (xs rest w : List ℕ)
    → Without 39 xs
    → shell_words single true w (xs ++ 39 ∷ rest) ≡ shell_words unquoted true (w ++ xs) rest
unfolding shell_words
single_text [] rest w h = ap (λ l. shell_words unquoted true l rest) (sym (append-nil w))
single_text (x ∷ xs) rest w (e, h) = rw e (
    single_text xs rest (w ++ x ∷ []) h
    ∙ ap (λ l. shell_words unquoted true l rest) (append_assoc w (x ∷ []) xs))

abbrev pub Literal : List ℕ → Type 0
Literal [] = Unit
Literal (x ∷ xs) = (x == 34 ≡ false) × ((is_expanded x ≡ false) × Literal xs)

neither :
    (a b : Bool) (x z : Option (List (List ℕ)))
    → a ≡ false
    → b ≡ false
    → (if a then x else if b then none else z) ≡ z
neither a b x z e d = rw (e, d) refl

double_text :
    (xs rest w : List ℕ)
    → Literal xs
    → shell_words double true w (xs ++ 34 ∷ rest) ≡ shell_words unquoted true (w ++ xs) rest
unfolding shell_words
double_text [] rest w h = ap (λ l. shell_words unquoted true l rest) (sym (append-nil w))
double_text (x ∷ xs) rest w (e, (d, h)) =
    neither (x == 34) (is_expanded x) _ _ e d
    ∙ double_text xs rest (w ++ x ∷ []) h
    ∙ ap (λ l. shell_words unquoted true l rest) (append_assoc w (x ∷ []) xs)

-- The recipients, as they are quoted, but for the empty ones.
abbrev pub Recipients : List (List ℕ) → Type 0
Recipients [] = Unit
Recipients (r ∷ rs) = Literal r × Recipients rs

abbrev pub nonempty : List (List ℕ) → List (List ℕ)
nonempty [] = []
nonempty (r ∷ rs) = if is_nil r then nonempty rs else r ∷ nonempty rs

shell_words-format_rcpts :
    (w : List ℕ) (rs : List (List ℕ))
    → Recipients rs
    → shell_words unquoted true w (format_rcpts rs) ≡ some (w ∷ nonempty rs)
unfolding shell_words format_rcpts
shell_words-format_rcpts w [] h = refl
shell_words-format_rcpts w ([] ∷ rs) (l, h) = shell_words-format_rcpts w rs h
shell_words-format_rcpts w ((x ∷ r) ∷ rs) (l, h) =
    ap (more w) (double_text (x ∷ r) (format_rcpts rs) [] l ∙ shell_words-format_rcpts (x ∷ r) rs h)

-- No field of the sender's settings has a single quote, and no recipient a character that is
-- expanded or ends a double quote.
pub record Unquoted (m : MailWrapper) : Type 0 where
  pub smtp : Without 39 m.smtp
  pub smtp_auth : Without 39 m.smtp_auth
  pub smtp_auth_user : Without 39 m.smtp_auth_user
  pub smtp_auth_pass : Without 39 m.smtp_auth_pass
  pub subject : Without 39 m.subject
  pub sender : Without 39 m.sender
  pub rcpts : Recipients m.rcpts

-- The words that the command is meant to have.
abbrev pub arguments : MailWrapper → List (List ℕ)
arguments m =
    codes "mail"
    ∷ codes "-s"
    ∷ m.subject
    ∷ codes "-S"
    ∷ codes "sendwait"
    ∷ codes "-S"
    ∷ (codes "from=" ++ m.sender)
    ∷ codes "-S"
    ∷ (codes "smtp=" ++ m.smtp)
    ∷ codes "-S"
    ∷ (codes "smtp-auth=" ++ m.smtp_auth)
    ∷ codes "-S"
    ∷ (codes "smtp-auth-user=" ++ m.smtp_auth_user)
    ∷ codes "-S"
    ∷ (codes "smtp-auth-password=" ++ m.smtp_auth_pass)
    ∷ nonempty m.rcpts

-- A word that is ended, with the option and the beginning of the next one behind it.
option_word :
    (front xs rest w : List ℕ)
    → Without 39 xs
    → (k : Option (List (List ℕ))) → shell_words unquoted true (front ++ xs) rest ≡ k
    → more w (more (codes "-S") (shell_words single true front (xs ++ 39 ∷ rest)))
      ≡ more w (more (codes "-S") k)
option_word front xs rest w h k e =
    ap (λ o. more w (more (codes "-S") o)) (single_text xs rest front h ∙ e)

-- Where no field has a single quote, and no recipient a character that is expanded or ends a double
-- quote: the shell reads the command as mail, its options, each with the text of its field as it
-- is, and the recipients that are not empty.
pub shell_words-format_auth :
    (m : MailWrapper)
    → Unquoted m
    → shell_words unquoted false [] (format_auth m) ≡ some (arguments m)
unfolding shell_words format_auth
shell_words-format_auth m u =
    ap (λ o. more (codes "mail") (more (codes "-s") o))
      (single_text m.subject _ [] u.subject
        ∙ ap
            (λ o.
              more m.subject (more (codes "-S") (more (codes "sendwait") (more (codes "-S") o))))
            (single_text m.sender _ (codes "from=") u.sender
              ∙ option_word (codes "smtp=") m.smtp _ (codes "from=" ++ m.sender) u.smtp _ (
                  option_word (codes "smtp-auth=") m.smtp_auth _ (codes "smtp=" ++ m.smtp)
                    u.smtp_auth _
                    (option_word (codes "smtp-auth-user=") m.smtp_auth_user _
                      (codes "smtp-auth=" ++ m.smtp_auth) u.smtp_auth_user _
                      (option_word (codes "smtp-auth-password=") m.smtp_auth_pass _
                        (codes "smtp-auth-user=" ++ m.smtp_auth_user) u.smtp_auth_pass _
                        (shell_words-format_rcpts (codes "smtp-auth-password=" ++ m.smtp_auth_pass)
                          m.rcpts u.rcpts))))))
