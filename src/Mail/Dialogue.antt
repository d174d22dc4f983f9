-- ===== src/Mail/Dialogue.antt =====
-- What the parts of the session send: turns, each answered by a reply.
use study_notes.Base.{
  ℕ, ◌≤◌, ◌≡◌, refl, sym, ap, ◌∙◌, Bool, List, [], ◌∷◌, ◌++◌, map, append_assoc, arith, length,
  codes, crlf, if◌then◌else◌,
}
use study_notes.Mail.{encode}
use study_notes.Mail.Attachment.{fits_buffer}
use study_notes.Mail.Socket.{Event, sent, reply, Action, ◌>>◌, send_socket, read_socket}
use study_notes.Mail.Session.{
  Settings, out_buf_after, login, mail_head, mail_info, document_head, close_line, data_line,
  quit_line, dot_line, boundary_line, mixed_line, html_line, base64_line,
}
use study_notes.Mail.Wire.{Sends, ◌then◌, read_socket-Sends, send_socket-Sends}
use mathlib.Core.Path.{subst}

-- Turns, each answered by a reply.
abbrev pub dialogue : List (List ℕ) → List Event
dialogue [] = []
dialogue (t ∷ ts) = map sent t ++ (reply ∷ dialogue ts)

pub dialogue-append : (ts us : List (List ℕ)) → dialogue (ts ++ us) ≡ dialogue ts ++ dialogue us
dialogue-append [] us = refl
dialogue-append (t ∷ ts) us =
    ap (λ l. map sent t ++ (reply ∷ l)) (dialogue-append ts us)
    ∙ sym (append_assoc (map sent t) (reply ∷ dialogue ts) (dialogue us))

map-append : (xs ys : List ℕ) → map sent (xs ++ ys) ≡ map sent xs ++ map sent ys
map-append [] ys = refl
map-append (x ∷ xs) ys = ap (λ l. sent x ∷ l) (map-append xs ys)

abbrev pub login_turns : Settings → List (List ℕ)
login_turns o =
    (codes "HELO " ++ (o.from_ip ++ crlf))
    ∷ (codes "AUTH LOGIN" ++ crlf)
    ∷ (encode o.from_ip ++ crlf)
    ∷ (encode o.passwd ++ crlf)
    ∷ []

abbrev pub head_turns : Settings → List (List ℕ)
head_turns o =
    (codes "MAIL FROM <" ++ (o.from_ip ++ close_line))
    ∷ (codes "RCPT TO <" ++ (o.to_ip ++ close_line))
    ∷ []

-- The lines before the HTML text, and those between it and the attachment.
abbrev pub info_text : Settings → List ℕ
info_text o =
    codes "FROM:<"
    ++ (o.from_ip
        ++ (close_line
            ++ (codes "TO:<"
                ++ (o.to_ip
                    ++ (close_line
                        ++ (codes "SUBJECT:"
                            ++ (o.subject
                                ++ (crlf
                                    ++ ((codes "MIME-VERSION: 1.0" ++ crlf)
                                        ++ (mixed_line ++ (boundary_line ++ html_line)))))))))))

abbrev pub document_text : Settings → List ℕ
document_text o =
    (crlf ++ crlf)
    ++ (boundary_line
        ++ (codes "CONTENT-TYPE: APPLICATION/MSWORD; NAME="
            ++ (o.doc_file
                ++ (crlf
                    ++ (codes "CONTENT-DISPOSITION: ATTACHMENT; FILENAME="
                        ++ (o.doc_file ++ (crlf ++ base64_line)))))))

abbrev pub message : Settings → List ℕ → List ℕ → List ℕ
message o html text = info_text o ++ (html ++ (document_text o ++ (text ++ dot_line)))

abbrev pub turns : Settings → List ℕ → List ℕ → List (List ℕ)
turns o html text =
    login_turns o ++ (head_turns o ++ (data_line ∷ message o html text ∷ quit_line ∷ []))

-- The action sends these bytes, and waits for no reply.
pub record Says (write : ℕ → ℕ → ℕ) (read : ℕ → Bool) (m : Action) (xs : List ℕ) : Type 0 where
  pub heard : Sends write read m (map sent xs)

module _ {write : ℕ → ℕ → ℕ} {read : ℕ → Bool} where
  infixr 5 ◌and◌
  pub ◌and◌ :
      {m k : Action} {xs ys : List ℕ}
      → Says write read m xs
      → Says write read k ys
      → Says write read (m >> k) (xs ++ ys)
  f and g = record {
    heard = subst (Sends write read _) (sym (map-append _ _)) (f.heard then g.heard);
  }

  pub says : (xs : List ℕ) → Says write read (send_socket write read xs) xs
  says xs = record { heard = send_socket-Sends write read xs }

  -- A turn, the reply to it, and what follows.
  infixr 5 ◌asks◌
  pub ◌asks◌ :
      {m k : Action} {xs : List ℕ} {es : List Event}
      → Says write read m xs
      → Sends write read k es
      → Sends write read (m >> read_socket write read >> k) (map sent xs ++ (reply ∷ es))
  f asks g = f.heard then (read_socket-Sends write read then g)

  pub last_turn :
      {m : Action} {xs : List ℕ}
      → Says write read m xs
      → Sends write read (m >> read_socket write read) (dialogue (xs ∷ []))
  last_turn f = f.heard then read_socket-Sends write read

module _ (write : ℕ → ℕ → ℕ) (read : ℕ → Bool) where
  encoded_text :
      (before xs : List ℕ) → length xs ≤ 4096 → out_buf_after write read before xs ≡ encode xs
  encoded_text before xs h = ground (arith, fits_buffer xs h)

  pub login-Sends :
      (o : Settings)
      → length o.from_ip ≤ 4096
      → length o.passwd ≤ 4096
      → Sends write read (login write read o) (reply ∷ dialogue (login_turns o))
  unfolding login
  login-Sends o h k =
      rw (encoded_text [] o.from_ip h, encoded_text (encode o.from_ip) o.passwd k)
        (read_socket-Sends write read
          then (says (codes "HELO ") and says o.from_ip and says crlf)
          asks says (codes "AUTH LOGIN" ++ crlf)
          asks (says (encode o.from_ip) and says crlf)
          asks last_turn (says (encode o.passwd) and says crlf))

  pub mail_head-Sends :
      (o : Settings) → Sends write read (mail_head write read o) (dialogue (head_turns o))
  unfolding mail_head
  mail_head-Sends o =
      (says (codes "MAIL FROM <") and says o.from_ip and says close_line)
      asks last_turn (says (codes "RCPT TO <") and says o.to_ip and says close_line)

  pub mail_info-Says : (o : Settings) → Says write read (mail_info write read o) (info_text o)
  unfolding mail_info
  mail_info-Says o =
      says (codes "FROM:<")
      and says o.from_ip
      and says close_line
      and says (codes "TO:<")
      and says o.to_ip
      and says close_line
      and says (codes "SUBJECT:")
      and says o.subject
      and says crlf
      and says (codes "MIME-VERSION: 1.0" ++ crlf)
      and says mixed_line
      and says boundary_line
      and says html_line

  pub document_head-Says :
      (o : Settings) → Says write read (document_head write read o) (document_text o)
  unfolding document_head
  document_head-Says o =
      says (crlf ++ crlf)
      and says boundary_line
      and says (codes "CONTENT-TYPE: APPLICATION/MSWORD; NAME=")
      and says o.doc_file
      and says crlf
      and says (codes "CONTENT-DISPOSITION: ATTACHMENT; FILENAME=")
      and says o.doc_file
      and says crlf
      and says base64_line
