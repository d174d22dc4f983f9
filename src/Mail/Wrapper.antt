-- ===== src/Mail/Wrapper.antt =====
-- Languages/cpp/mail_wrapper/mail_wrapper.h: `MailWrapper`, and the command lines that it makes.
use study_notes.Base.{ℕ, Bool, not, ◌&&◌, List, [], ◌∷◌, ◌++◌, is_nil, codes, if◌then◌else◌}

pub record MailWrapper : Type 0 where
  pub smtp : List ℕ
  pub smtp_auth : List ℕ
  pub smtp_auth_user : List ℕ
  pub smtp_auth_pass : List ℕ
  pub subject : List ℕ
  pub sender : List ℕ
  pub rcpts : List (List ℕ)

-- `is_vaild`; `sender` is `from`.
abbrev pub is_vaild : MailWrapper → Bool
is_vaild m = not (is_nil m.sender) && not (is_nil m.rcpts)

-- The loop over the recipients: what it adds to the command.
unfoldable pub format_rcpts : List (List ℕ) → List ℕ
format_rcpts [] = []
format_rcpts (r ∷ rs) =
    let rest = format_rcpts rs in
    if is_nil r then rest else codes " \"" ++ (r ++ (codes "\"" ++ rest))

unfoldable pub format_auth : MailWrapper → List ℕ
format_auth m =
    codes "mail -s '"
    ++ (m.subject
        ++ (codes "'"
            ++ (codes " -S sendwait"
                ++ (codes " -S 'from="
                    ++ (m.sender
                        ++ (codes "'"
                            ++ (codes " -S smtp='"
                                ++ (m.smtp
                                    ++ (codes "'"
                                        ++ (codes " -S smtp-auth='"
                                            ++ (m.smtp_auth
                                                ++ (codes "'"
                                                    ++ (codes " -S smtp-auth-user='"
                                                        ++ (m.smtp_auth_user
                                                            ++ (codes "'"
                                                            ++ (codes " -S smtp-auth-password='"
                                                            ++ (m.smtp_auth_pass
                                                            ++ (codes "'"
                                                            ++ format_rcpts
                                                            m.rcpts))))))))))))))))))

unfoldable pub to_echo_fmt : MailWrapper → List ℕ → List ℕ
to_echo_fmt m text = codes "echo '" ++ (text ++ (codes "' | " ++ format_auth m))

unfoldable pub to_file_fmt : MailWrapper → List ℕ → List ℕ
to_file_fmt m filename = format_auth m ++ (codes " < " ++ filename)
