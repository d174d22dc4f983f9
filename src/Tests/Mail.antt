-- ===== src/Tests/Mail.antt =====
-- Runs of the encoding of an attachment.
use study_notes.Base.{
  Option, false, true, min, codes, crlf, ◌++◌, is_without→Without, ℕ, zero, suc, ◌+◌, ◌≡◌, refl,
  none, some, List, [], ◌∷◌, arith, length,
}
use study_notes.Mail.{encode, base64_encode, send_document}
use study_notes.Mail.Decode.{decode}
use study_notes.Mail.Roundtrip.{AllBytes}
use study_notes.Mail.Socket.{reply}
use study_notes.Mail.Session.{Settings, File, session, dot_line}
use study_notes.Mail.Wire.{Sends}
use study_notes.Mail.Dialogue.{dialogue, turns, info_text, document_text, message}
use study_notes.Mail.Transcript.{session-Sends}
use study_notes.Mail.Dots.{line_start, dotless, read_data}
use study_notes.Mail.Received.{Clean, message-read_data, message-cut}
use study_notes.Mail.Mailx.{popen_mailx}
use study_notes.Mail.Wrapper.{MailWrapper, format_auth, format_rcpts}
use study_notes.Mail.Shell.{unquoted, shell_words, arguments, shell_words-format_auth}
use study_notes.Mail.Attachment.{send_document-large}

-- "Man!" and its text "TWFuIQ==".
abbrev man : List ℕ
man = 77 ∷ 97 ∷ 110 ∷ 33 ∷ []

runs_man : base64_encode man 9 ≡ some (84 ∷ 87 ∷ 70 ∷ 117 ∷ 73 ∷ 81 ∷ 61 ∷ 61 ∷ [])
unfolding base64_encode encode
runs_man = refl

abbrev man-AllBytes : AllBytes man
man-AllBytes = (omega arith, (omega arith, (omega arith, (omega arith, tt))))

-- A chunk of capital letters.
letters : ℕ → List ℕ
letters zero = []
letters (suc n) = 65 ∷ letters n

letters-AllBytes : (n : ℕ) → AllBytes (letters n)
unfolding letters
letters-AllBytes zero = tt
letters-AllBytes (suc n) = (omega arith, letters-AllBytes n)

length-letters : (n : ℕ) → length (letters n) ≡ n
unfolding letters
length-letters zero = refl
length-letters (suc n) = omega (arith, length-letters n)

send_document-large_example :
    (text : List ℕ) × (send_document (letters 4096 ∷ man ∷ []) (length (letters 4096) + 4) 0
      ≡ some text)
    × (decode text ≡ none)
send_document-large_example =
    send_document-large (letters 4096) man (letters-AllBytes 4096) (length-letters 4096)
      (omega arith) (omega arith)

-- The settings of the source, and an answer of the system that takes at most three bytes at a time.
abbrev settings : Settings
settings = record {
  from_ip = codes "zhangsan@sina.com";
  to_ip = codes "zhangsan@sina.com";
  subject = codes "TestEmail";
  passwd = codes "passwd";
  doc_file = codes "test.doc";
}

abbrev settings-Clean : Clean settings
settings-Clean = record {
  from_ip = is_without→Without 13 settings.from_ip refl;
  to_ip = is_without→Without 13 settings.to_ip refl;
  subject = is_without→Without 13 settings.subject refl;
  doc_file = is_without→Without 13 settings.doc_file refl;
}

abbrev by_three : ℕ → ℕ → ℕ
by_three n len = min 3 len

abbrev page : File
page = record { size = 8; chunks = codes "<p>." ∷ codes "</p>" ∷ [] }

abbrev document : File
document = record { size = 4; chunks = man ∷ [] }

man_text : send_document (man ∷ []) 4 0 ≡ some (codes "TWFuIQ==")
unfolding send_document base64_encode encode
man_text = refl

session-Sends_example :
    Sends by_three
      (λ n. true)
      (session by_three (λ n. true) settings (some page) (some document))
      (reply ∷ dialogue (turns settings (codes "<p>.</p>") (codes "TWFuIQ==")))
session-Sends_example =
    session-Sends by_three (λ n. true) settings page document (codes "<p>.</p>") (codes "TWFuIQ==")
      (omega arith) (omega arith) (record { all = refl; sized = refl; full = (refl, (refl, tt)) })
      man_text

dotless_page : dotless line_start (codes "<p>.</p>") ≡ true
unfolding dotless
dotless_page = refl

message-read_data_example :
    read_data line_start (message settings (codes "<p>.</p>") (codes "TWFuIQ=="))
    ≡ some (
      ((info_text settings ++ codes "<p>.</p>") ++ (document_text settings ++ codes "TWFuIQ=="))
          ++ crlf,
      [],
    )
message-read_data_example =
    message-read_data settings (codes "<p>.</p>") (codes "TWFuIQ==") (man ∷ []) 4 settings-Clean
      dotless_page (man-AllBytes, tt) man_text

message-cut_example :
    read_data line_start
      (message settings (codes "<p>.</p>" ++ (dot_line ++ codes "RSET")) (codes "TWFuIQ=="))
    ≡ some (
      (info_text settings ++ codes "<p>.</p>") ++ crlf,
      codes "RSET" ++ (document_text settings ++ (codes "TWFuIQ==" ++ dot_line)),
    )
message-cut_example =
    message-cut settings (codes "<p>.</p>") (codes "RSET") (codes "TWFuIQ==") settings-Clean
      dotless_page

-- A command that prints nothing and exits with 1.
abbrev silent : List ℕ → Option (List ℕ × ℕ)
silent cmd = some ([], 1)

runs_silent : popen_mailx silent (codes "mailx") [] ≡ (true, [])
unfolding popen_mailx
runs_silent = refl

abbrev wrapper : MailWrapper
wrapper = record {
  smtp = codes "smtp.qiye.163.com";
  smtp_auth = codes "login";
  smtp_auth_user = codes "test@xuncetech.com";
  smtp_auth_pass = codes "pass";
  subject = codes "a b";
  sender = codes "nick<test@xuncetech.com>";
  rcpts = codes "a@b" ∷ [] ∷ [];
}

shell_words-format_auth_example :
    shell_words unquoted false [] (format_auth wrapper) ≡ some (arguments wrapper)
shell_words-format_auth_example = shell_words-format_auth wrapper record {
  smtp = is_without→Without 39 wrapper.smtp refl;
  smtp_auth = is_without→Without 39 wrapper.smtp_auth refl;
  smtp_auth_user = is_without→Without 39 wrapper.smtp_auth_user refl;
  smtp_auth_pass = is_without→Without 39 wrapper.smtp_auth_pass refl;
  subject = is_without→Without 39 wrapper.subject refl;
  sender = is_without→Without 39 wrapper.sender refl;
  rcpts = ((refl, (refl, (refl, (refl, (refl, (refl, tt)))))), (tt, tt));
}

-- A single quote in the subject leaves a quote open.
runs_quote :
    shell_words unquoted false [] (format_auth (record wrapper { subject = codes "it's" })) ≡ none
unfolding shell_words format_auth format_rcpts
runs_quote = refl
