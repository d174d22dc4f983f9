-- ===== src/Mail/Received.antt =====
-- The text of a mail, as the server reads it.
use study_notes.Base.{
  ℕ, ◌≡◌, refl, sym, ap, ◌∙◌, true, some, List, [], ◌∷◌, ◌++◌, Without, append_assoc, arith, crlf,
  if◌then◌else◌,
}
use study_notes.Mail.Dialogue.{info_text, document_text, message}
use study_notes.Mail.Dots.{
  Place, line_start, behind, inside, next_place, place, dotless, dotless-append, read_data,
  read_data-dotless,
}
use study_notes.Mail.{send_document}
use study_notes.Mail.Plain.{AllChunks, send_document-Without}
use study_notes.Mail.Session.{Settings, dot_line}

-- Text without a carriage return, within a line.
dotless-clean : (xs ys : List ℕ) → Without 13 xs → dotless inside (xs ++ ys) ≡ dotless inside ys
unfolding dotless
dotless-clean [] ys w = refl
dotless-clean (x ∷ xs) ys (e, w) = rw e (dotless-clean xs ys w)

place-clean : (xs ys : List ℕ) → Without 13 xs → place inside (xs ++ ys) ≡ place inside ys
place-clean [] ys w = refl
place-clean (x ∷ xs) ys (e, w) =
    ap (λ b. place (if b then behind else inside) (xs ++ ys)) e ∙ place-clean xs ys w

Without-dotless : (xs : List ℕ) (p : Place) → Without 46 xs → dotless p xs ≡ true
unfolding dotless
Without-dotless [] p w = refl
Without-dotless (x ∷ xs) p (e, w) = ground (arith, e, Without-dotless xs (next_place p x) w)

-- No setting holds a carriage return.
pub record Clean (o : Settings) : Type 0 where
  pub from_ip : Without 13 o.from_ip
  pub to_ip : Without 13 o.to_ip
  pub subject : Without 13 o.subject
  pub doc_file : Without 13 o.doc_file

info_text-dotless :
    (o : Settings)
    → Clean o
    → (dotless line_start (info_text o) ≡ true) × (place line_start (info_text o) ≡ line_start)
unfolding dotless
info_text-dotless o w = (
  dotless-clean o.from_ip _ w.from_ip
      ∙ dotless-clean o.to_ip _ w.to_ip
      ∙ dotless-clean o.subject _ w.subject,
  place-clean o.from_ip _ w.from_ip
      ∙ place-clean o.to_ip _ w.to_ip
      ∙ place-clean o.subject _ w.subject,
)

document_text-start :
    (o : Settings)
    → Clean o
    → (dotless line_start (document_text o) ≡ true)
      × (place line_start (document_text o) ≡ line_start)
unfolding dotless
document_text-start o w = (
  dotless-clean o.doc_file _ w.doc_file ∙ dotless-clean o.doc_file _ w.doc_file,
  place-clean o.doc_file _ w.doc_file ∙ place-clean o.doc_file _ w.doc_file,
)

document_text-dotless :
    (o : Settings) (p : Place)
    → Clean o
    → (dotless p (document_text o) ≡ true) × (place p (document_text o) ≡ line_start)
unfolding dotless
document_text-dotless o line_start w = document_text-start o w
document_text-dotless o behind w = document_text-start o w
document_text-dotless o inside w = document_text-start o w

dotless-both :
    (xs ys : List ℕ) (p : Place)
    → dotless p xs ≡ true
    → dotless (place p xs) ys ≡ true
    → dotless p (xs ++ ys) ≡ true
dotless-both xs ys p h k = rw (dotless-append xs ys p, h) k

-- The HTML text behind the lines before it.
html-dotless :
    (o : Settings) (html : List ℕ)
    → Clean o
    → dotless line_start html ≡ true
    → dotless line_start (info_text o ++ html) ≡ true
html-dotless o html w h =
    dotless-both (info_text o) html line_start (info_text-dotless o w).0
      (ap (λ p. dotless p html) (info_text-dotless o w).1 ∙ h)

rest-dotless :
    (o : Settings) (text : List ℕ) (p : Place)
    → Clean o
    → Without 46 text
    → dotless p (document_text o ++ text) ≡ true
rest-dotless o text p w u =
    dotless-both (document_text o) text p (document_text-dotless o p w).0
      (Without-dotless text (place p (document_text o)) u)

-- Where no setting holds a carriage return and no line of the HTML text starts with a dot: a server
-- that reads the mail as RFC 5321 has it gets the text that `main` sends for a document after DATA,
-- less the last line, and nothing is left.
pub message-read_data :
    (o : Settings) (html text : List ℕ) (chunks : List (List ℕ)) (size : ℕ)
    → Clean o
    → dotless line_start html ≡ true
    → AllChunks chunks
    → send_document chunks size 0 ≡ some text
    → read_data line_start (message o html text)
      ≡ some (((info_text o ++ html) ++ (document_text o ++ text)) ++ crlf, [])
message-read_data o html text chunks size w h a d =
    ap (read_data line_start) (
      sym (append_assoc (info_text o) html (document_text o ++ (text ++ dot_line)))
      ∙ ap (λ l. (info_text o ++ html) ++ l) (sym (append_assoc (document_text o) text dot_line))
      ∙ sym (append_assoc (info_text o ++ html) (document_text o ++ text) dot_line))
    ∙ read_data-dotless ((info_text o ++ html) ++ (document_text o ++ text)) [] line_start (
        dotless-both (info_text o ++ html) (document_text o ++ text) line_start
          (html-dotless o html w h)
          (rest-dotless o text (place line_start (info_text o ++ html)) w
            (send_document-Without chunks size 0 text a d)))

-- Where no setting holds a carriage return, and the HTML text has a line that is a dot behind lines
-- that do not line_start with one, the server's mail ends in front of it: what follows, the attachment
-- included, is left to be read as commands.
pub message-cut :
    (o : Settings) (before after text : List ℕ)
    → Clean o
    → dotless line_start before ≡ true
    → read_data line_start (message o (before ++ (dot_line ++ after)) text)
      ≡ some ((info_text o ++ before) ++ crlf, after ++ (document_text o ++ (text ++ dot_line)))
message-cut o before after text w h =
    let rest = document_text o ++ (text ++ dot_line) in
    ap (read_data line_start) (
      ap (λ l. info_text o ++ l) (append_assoc before (dot_line ++ after) rest)
      ∙ sym (append_assoc (info_text o) before (dot_line ++ (after ++ rest))))
    ∙ read_data-dotless (info_text o ++ before) (after ++ rest) line_start
        (html-dotless o before w h)
