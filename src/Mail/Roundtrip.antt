-- ===== src/Mail/Roundtrip.antt =====
-- Languages/cpp/mail_wrapper/send_email.c: what `base64_encode` writes stands for its input.
use study_notes.Base.{
  ℕ, ◌+◌, ◌*◌, ◌/◌, ◌%◌, ◌<◌, ◌≡◌, refl, ap, ◌∙◌, Option, none, some, List, [], ◌∷◌, ◌++◌, arith,
  length,
}
use study_notes.Mail.{tab, pad, encode}
use study_notes.Mail.Decode.{three, joined, decode}
use study_notes.Mail.Digits.{six-tab, tab-pad}

abbrev pub AllBytes : List ℕ → Type 0
AllBytes [] = Unit
AllBytes (x ∷ xs) = (x < 256) × AllBytes xs

abbrev pub later : List ℕ → Option (List ℕ) → Option (List ℕ)
later xs none = none
later xs (some ys) = some (xs ++ ys)

-- The bits of a byte, put together again.
first_bits : (a b : ℕ) → b < 256 → a / 4 * 4 + (a % 4 * 16 + b / 16) / 16 ≡ a
first_bits a b h = omega arith

second_bits :
    (a b c : ℕ)
    → b < 256
    → c < 256
    → (a % 4 * 16 + b / 16) % 16 * 16 + (b % 16 * 4 + c / 64) / 4 ≡ b
second_bits a b c h k = omega arith

third_bits : (b c : ℕ) → c < 256 → (b % 16 * 4 + c / 64) % 4 * 64 + c % 64 ≡ c
third_bits b c h = omega arith

last_bits : (a b : ℕ) → b < 256 → (a % 4 * 16 + b / 16) % 16 * 16 + b % 16 * 4 / 4 ≡ b
last_bits a b h = omega arith

only_bits : (a : ℕ) → a / 4 * 4 + a % 4 * 16 / 16 ≡ a
only_bits a = omega arith

bytes_back :
    (a b c : ℕ)
    → b < 256
    → c < 256
    → three (some (a / 4)) (some (a % 4 * 16 + b / 16)) (some (b % 16 * 4 + c / 64)) (some (c % 64))
      ≡ some (a ∷ b ∷ c ∷ [])
bytes_back a b c h k = rw (first_bits a b h, second_bits a b c h k, third_bits b c k) refl

joined-later : (xs : List ℕ) (o : Option (List ℕ)) → joined (some xs) o ≡ later xs o
joined-later xs none = refl
joined-later xs (some ys) = refl

-- Three bytes and what follows them.
pub decode-three :
    (a b c : ℕ) (rest : List ℕ)
    → a < 256
    → b < 256
    → c < 256
    → decode
        (tab (a / 4) ∷ tab (a % 4 * 16 + b / 16) ∷ tab (b % 16 * 4 + c / 64) ∷ tab (c % 64) ∷ rest)
      ≡ later (a ∷ b ∷ c ∷ []) (decode rest)
unfolding decode
decode-three a b c rest h k l =
    rw
      (
        tab-pad (c % 64) (omega arith),
        six-tab (a / 4) (omega arith),
        six-tab (a % 4 * 16 + b / 16) (omega arith),
        six-tab (b % 16 * 4 + c / 64) (omega arith),
        six-tab (c % 64) (omega arith),
      )
      (ap (λ o. joined o (decode rest)) (bytes_back a b c k l)
        ∙ joined-later (a ∷ b ∷ c ∷ []) (decode rest))

decode-two :
    (a b : ℕ)
    → a < 256
    → b < 256
    → decode (tab (a / 4) ∷ tab (a % 4 * 16 + b / 16) ∷ tab (b % 16 * 4) ∷ pad ∷ [])
      ≡ some (a ∷ b ∷ [])
unfolding decode
decode-two a b h k =
    rw
      (
        tab-pad (b % 16 * 4) (omega arith),
        six-tab (a / 4) (omega arith),
        six-tab (a % 4 * 16 + b / 16) (omega arith),
        six-tab (b % 16 * 4) (omega arith),
      )
      (rw (first_bits a b k, last_bits a b k) refl)

decode-one :
    (a : ℕ) → a < 256 → decode (tab (a / 4) ∷ tab (a % 4 * 16) ∷ pad ∷ pad ∷ []) ≡ some (a ∷ [])
unfolding decode
decode-one a h =
    rw (six-tab (a / 4) (omega arith), six-tab (a % 4 * 16) (omega arith)) (rw (only_bits a) refl)

-- A text of bytes that is encoded and then decoded is what it was.
pub decode-encode : (xs : List ℕ) → AllBytes xs → decode (encode xs) ≡ some xs
unfolding encode decode
decode-encode [] h = refl
decode-encode (a ∷ []) h = decode-one a h.0
decode-encode (a ∷ b ∷ []) h = decode-two a b h.0 h.1.0
decode-encode (a ∷ b ∷ c ∷ rest) h =
    decode-three a b c (encode rest) h.0 h.1.0 h.1.1.0
    ∙ ap (later (a ∷ b ∷ c ∷ [])) (decode-encode rest h.1.1.1)

pub length-encode : (xs : List ℕ) → length (encode xs) ≡ (length xs + 2) / 3 * 4
unfolding encode
length-encode [] = omega arith
length-encode (a ∷ []) = omega arith
length-encode (a ∷ b ∷ []) = omega arith
length-encode (a ∷ b ∷ c ∷ rest) = omega (arith, length-encode rest)
