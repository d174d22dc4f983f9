-- ===== src/Mail.antt =====
-- Languages/cpp/mail_wrapper/send_email.c: a mail with an attachment. A `char` is its byte,
-- and the terminating 0 of a buffer is left out.
pub mod Decode
pub mod Digits
pub mod Roundtrip
pub mod Attachment
pub mod Socket
pub mod Session
pub mod Wire
pub mod Dialogue
pub mod Transcript
pub mod Dots
pub mod Plain
pub mod Received
pub mod Mailx
pub mod Wrapper
pub mod Shell
use study_notes.Base.{
  ℕ, zero, suc, ◌+◌, ◌*◌, ◌/◌, ◌%◌, Option, none, some, List, [], ◌∷◌, ◌++◌, length, leb, ltb,
  get_elem?, if◌then◌else◌,
}

-- `IN_BUF_SIZE`.
abbrev pub in_buf_size : ℕ
in_buf_size = 4096

-- `OUT_BUF_SIZE`.
abbrev pub out_buf_size : ℕ
out_buf_size = (4096 + 2) / 3 * 4 + 1

-- The bytes from `n` on, `count` of them.
abbrev range : ℕ → ℕ → List ℕ
range n zero = []
range n (suc count) = n ∷ range (n + 1) count

-- `base64tab`: the capital letters, the small letters, the digits, + and /.
abbrev pub base64tab : List ℕ
base64tab = range 65 26 ++ (range 97 26 ++ (range 48 10 ++ (43 ∷ 47 ∷ [])))

abbrev or_zero : Option ℕ → ℕ
or_zero none = 0
or_zero (some b) = b

abbrev pub tab : ℕ → ℕ
tab i = or_zero (get_elem? base64tab i)

-- `'='`.
abbrev pub pad : ℕ
pad = 61

-- The body of `base64_encode`. The parts that `|` joins have no bit in common, so it is a sum.
unfoldable pub encode : List ℕ → List ℕ
encode (a ∷ b ∷ c ∷ rest) =
    tab (a / 4) ∷ tab (a % 4 * 16 + b / 16) ∷ tab (b % 16 * 4 + c / 64) ∷ tab (c % 64) ∷ encode rest
encode (a ∷ b ∷ []) = tab (a / 4) ∷ tab (a % 4 * 16 + b / 16) ∷ tab (b % 16 * 4) ∷ pad ∷ []
encode (a ∷ []) = tab (a / 4) ∷ tab (a % 4 * 16) ∷ pad ∷ pad ∷ []
encode [] = []

-- `none` is the result -1; any other result is the length of the text.
unfoldable pub base64_encode : List ℕ → ℕ → Option (List ℕ)
base64_encode input outlen =
    let convlen = (length input + 2) / 3 * 4 in
    if leb outlen convlen then none else some (encode input)

-- The loop over the document: what it has sent, for the chunks that `fread` returns one after the
-- other, a file of `size` bytes, and the `count` of the bytes before. `none` is a return of -1, or
-- chunks that do not get to the end of the file.
unfoldable pub send_document : List (List ℕ) → ℕ → ℕ → Option (List ℕ)
send_document [] size count = if ltb count size then none else some []
send_document (chunk ∷ chunks) size count =
    let rest = send_document chunks size (count + length chunk) in
    if ltb count size
    then (elim (base64_encode chunk out_buf_size) [
      | none ↦ none
      | some text ↦ elim rest [ none ↦ none | some later ↦ some (text ++ later) ]
    ])
    else some []
