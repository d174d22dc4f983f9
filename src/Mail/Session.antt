-- ===== src/Mail/Session.antt =====
-- Languages/cpp/mail_wrapper/send_email.c: the session of `main`.
use study_notes.Base.{
  ℕ, ◌+◌, Bool, Option, none, some, List, [], ◌∷◌, ◌++◌, length, ltb, codes, crlf, is_nil, ◌&&◌,
  if◌then◌else◌,
}
use study_notes.Mail.{base64_encode, out_buf_size}
use study_notes.Mail.Socket.{Action, ◌>>◌, finish, fail, endless, send_socket, read_socket}

-- `FROM_IP`, `TO_IP`, `SUBJECT`, `PASSWD` and `DOC_FILE`; `USER` is `FROM_IP`.
pub record Settings : Type 0 where
  pub from_ip : List ℕ
  pub to_ip : List ℕ
  pub subject : List ℕ
  pub passwd : List ℕ
  pub doc_file : List ℕ

-- A file that is opened: what `ftell` gives at its end, and what `fread` returns, call by call; an
-- empty chunk, or none, is a result of 0.
pub record File : Type 0 where
  pub size : ℕ
  pub chunks : List (List ℕ)

abbrev pub close_line : List ℕ
close_line = codes ">" ++ crlf

-- `DATA` and `QUIT`.
abbrev pub data_line : List ℕ
data_line = codes "DATA" ++ crlf

abbrev pub quit_line : List ℕ
quit_line = codes "QUIT" ++ crlf

abbrev pub dot_line : List ℕ
dot_line = crlf ++ (codes "." ++ crlf)

abbrev pub boundary_line : List ℕ
boundary_line = codes "--#BOUNDARY#" ++ crlf

abbrev pub mixed_line : List ℕ
mixed_line = codes "CONTENT-TYPE: MULTIPART/MIXED; BOUNDARY=\"#BOUNDARY#\"" ++ (crlf ++ crlf)

abbrev pub html_line : List ℕ
html_line = codes "CONTENT-TYPE: TEXT/HTML" ++ (crlf ++ crlf)

abbrev pub base64_line : List ℕ
base64_line = codes "CONTENT-TRANSFER-ENCODING:BASE64" ++ (crlf ++ crlf)

module _ (write : ℕ → ℕ → ℕ) (read : ℕ → Bool) where
  -- The loop over the HTML file, `count` bytes of which are sent.
  unfoldable pub send_html : List (List ℕ) → ℕ → ℕ → Action
  send_html [] size count = if ltb count size then fail else finish
  send_html (chunk ∷ chunks) size count =
      let rest = send_html chunks size (count + length chunk) in
      if ltb count size
      then (if is_nil chunk then fail else send_socket write read chunk >> rest)
      else finish

  -- The loop over the document; at the end of the file it goes on with chunks of no byte.
  unfoldable pub send_attachment : List (List ℕ) → ℕ → ℕ → Action
  send_attachment [] size count = if ltb count size then (λ s. endless) else finish
  send_attachment (chunk ∷ chunks) size count =
      let rest = send_attachment chunks size (count + length chunk) in
      if ltb count size
      then (elim (base64_encode chunk out_buf_size) [
        | none ↦ fail
        | some text ↦ send_socket write read text >> rest
      ])
      else finish

  -- What `out_buf` holds behind `base64_encode(input, strlen(input), out_buf, OUT_BUF_SIZE)`.
  abbrev pub out_buf_after : List ℕ → List ℕ → List ℕ
  out_buf_after before input = elim (base64_encode input out_buf_size) [
    | none ↦ before
    | some text ↦ text
  ]

  abbrev pub send_crlf : Action
  send_crlf = send_socket write read crlf

  unfoldable pub login : Settings → Action
  login o =
      read_socket write read
      >> (send_socket write read (codes "HELO ") >> send_socket write read o.from_ip >> send_crlf)
      >> read_socket write read
      >> send_socket write read (codes "AUTH LOGIN" ++ crlf)
      >> read_socket write read
      >> (send_socket write read (out_buf_after [] o.from_ip) >> send_crlf)
      >> read_socket write read
      >> (send_socket write read (out_buf_after (out_buf_after [] o.from_ip) o.passwd) >> send_crlf)
      >> read_socket write read

  unfoldable pub mail_head : Settings → Action
  mail_head o =
      (send_socket write read (codes "MAIL FROM <")
        >> send_socket write read o.from_ip
        >> send_socket write read close_line)
      >> read_socket write read
      >> (send_socket write read (codes "RCPT TO <")
          >> send_socket write read o.to_ip
          >> send_socket write read close_line)
      >> read_socket write read

  -- What follows the answer to DATA.
  unfoldable pub mail_info : Settings → Action
  mail_info o =
      send_socket write read (codes "FROM:<")
      >> send_socket write read o.from_ip
      >> send_socket write read close_line
      >> send_socket write read (codes "TO:<")
      >> send_socket write read o.to_ip
      >> send_socket write read close_line
      >> send_socket write read (codes "SUBJECT:")
      >> send_socket write read o.subject
      >> send_crlf
      >> send_socket write read (codes "MIME-VERSION: 1.0" ++ crlf)
      >> send_socket write read mixed_line
      >> send_socket write read boundary_line
      >> send_socket write read html_line

  unfoldable pub document_head : Settings → Action
  document_head o =
      send_socket write read (crlf ++ crlf)
      >> send_socket write read boundary_line
      >> send_socket write read (codes "CONTENT-TYPE: APPLICATION/MSWORD; NAME=")
      >> send_socket write read o.doc_file
      >> send_crlf
      >> send_socket write read (codes "CONTENT-DISPOSITION: ATTACHMENT; FILENAME=")
      >> send_socket write read o.doc_file
      >> send_crlf
      >> send_socket write read base64_line

  abbrev pub opened : Option File → (File → Action) → Action
  opened none k = fail
  opened (some f) k = k f

  unfoldable pub mail_text : Settings → Option File → Option File → Action
  mail_text o html doc =
      mail_info o
      >> opened html (λ f. send_html f.chunks f.size 0)
      >> document_head o
      >> opened doc (λ f. send_attachment f.chunks f.size 0)
      >> send_socket write read dot_line

  -- `main` from the first `read_socket write read` on.
  unfoldable pub session : Settings → Option File → Option File → Action
  session o html doc =
      login o
      >> mail_head o
      >> send_socket write read data_line
      >> read_socket write read
      >> mail_text o html doc
      >> read_socket write read
      >> send_socket write read quit_line
      >> read_socket write read

  -- The socket, the host and the connection may fail.
  unfoldable pub send_mail : Bool → Bool → Bool → Settings → Option File → Option File → Action
  send_mail has_socket has_host connected o html doc =
      if has_socket && has_host && connected then session o html doc else fail
