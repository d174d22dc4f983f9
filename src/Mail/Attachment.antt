-- ===== src/Mail/Attachment.antt =====
-- Languages/cpp/mail_wrapper/send_email.c: the document, encoded chunk by chunk.
use study_notes.Base.{
  ℕ, zero, suc, ◌+◌, ◌*◌, ◌/◌, ◌≤◌, ◌<◌, ◌≡◌, refl, ap, ◌∙◌, false, none, some, List, [], ◌∷◌, ◌++◌,
  arith, length, leb, append-nil,
}
use study_notes.Mail.{encode, base64_encode, send_document, out_buf_size}
use study_notes.Mail.Decode.{decode}
use study_notes.Mail.Roundtrip.{AllBytes, later, decode-three, decode-encode, length-encode}

-- A text that ends with one byte of its own cannot go on.
decode-padded :
    (xs more : List ℕ) (m : ℕ)
    → AllBytes xs
    → length xs ≡ 3 * m + 1
    → 0 < length more
    → decode (encode xs ++ more) ≡ none
unfolding encode decode
decode-padded [] more m h e l = absurd (omega arith)
decode-padded (a ∷ []) [] m h e l = absurd (omega arith)
decode-padded (a ∷ []) (c ∷ more) m h e l = refl
decode-padded (a ∷ b ∷ []) more m h e l = absurd (omega arith)
decode-padded (a ∷ b ∷ c ∷ rest) more zero h e l = absurd (omega arith)
decode-padded (a ∷ b ∷ c ∷ rest) more (suc m) h e l =
    decode-three a b c (encode rest ++ more) h.0 h.1.0 h.1.1.0
    ∙ ap (later (a ∷ b ∷ c ∷ [])) (decode-padded rest more m h.1.1.1 (omega arith) l)

room : (n : ℕ) → n ≤ 4096 → leb 5465 ((n + 2) / 3 * 4) ≡ false
room n h = ground arith

pub fits_buffer :
    (xs : List ℕ) → length xs ≤ 4096 → base64_encode xs out_buf_size ≡ some (encode xs)
unfolding base64_encode
fits_buffer xs h = rw (room (length xs) h) refl

-- A document of at least one byte and at most 4096 bytes is sent as a text that decodes to it.
send_document-small :
    (c : List ℕ)
    → AllBytes c
    → 0 < length c
    → length c ≤ 4096
    → (text : List ℕ) × (send_document (c ∷ []) (length c) 0 ≡ some text) × (decode text ≡ some c)
unfolding send_document
send_document-small c h k l = (
  encode c ++ [],
  ground (arith, fits_buffer c l),
  rw (append-nil (encode c)) (decode-encode c h),
)

-- A document of more than 4096 bytes, and up to 8192, that is read in a chunk of 4096 bytes and the
-- rest, is sent as a text that decodes to nothing.
pub send_document-large :
    (c d : List ℕ)
    → AllBytes c
    → length c ≡ 4096
    → 0 < length d
    → length d ≤ 4096
    → (text : List ℕ) × (send_document (c ∷ d ∷ []) (length c + length d) 0 ≡ some text)
      × (decode text ≡ none)
unfolding send_document
send_document-large c d h e k l = (
  encode c ++ (encode d ++ []),
  ground (arith, fits_buffer c, fits_buffer d),
  rw (append-nil (encode d))
      (decode-padded c (encode d) 1365 h (omega arith) (omega (arith, length-encode d))),
)
