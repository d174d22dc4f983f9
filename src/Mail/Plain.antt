-- ===== src/Mail/Plain.antt =====
-- No dot is in the text of an attachment.
use study_notes.Base.{
  ℕ, ◌+◌, ◌*◌, ◌/◌, ◌%◌, ◌≡◌, refl, Bool, true, false, Option, none, some, List, [], ◌∷◌, ◌++◌,
  arith, leb, ltb, length, Without, Without-append, if◌then◌else◌,
}
use study_notes.Mail.{encode, base64_encode, send_document, out_buf_size}
use study_notes.Mail.Digits.{tab-dot}
use study_notes.Mail.Roundtrip.{AllBytes}
use mathlib.Core.Option.{some-injective}
use mathlib.Core.Path.{subst}

encode-Without : (xs : List ℕ) → AllBytes xs → Without 46 (encode xs)
unfolding encode
encode-Without [] h = tt
encode-Without (a ∷ []) h =
    (tab-dot (a / 4) (omega (arith, h.0)), (tab-dot (a % 4 * 16) (omega arith), (refl, (refl, tt))))
encode-Without (a ∷ b ∷ []) h = (
  tab-dot (a / 4) (omega (arith, h.0)),
  (
    tab-dot (a % 4 * 16 + b / 16) (omega (arith, h.1.0)),
    (tab-dot (b % 16 * 4) (omega arith), (refl, tt)),
  ),
)
encode-Without (a ∷ b ∷ c ∷ rest) h = (
  tab-dot (a / 4) (omega (arith, h.0)),
  (
    tab-dot (a % 4 * 16 + b / 16) (omega (arith, h.1.0)),
    (
      tab-dot (b % 16 * 4 + c / 64) (omega (arith, h.1.1.0)),
      (tab-dot (c % 64) (omega arith), encode-Without rest h.1.1.1),
    ),
  ),
)

base64_encode-Without :
    (xs : List ℕ) (n : ℕ) (text : List ℕ)
    → AllBytes xs
    → base64_encode xs n ≡ some text
    → Without 46 text
unfolding base64_encode
base64_encode-Without xs n text h e = small (leb n ((length xs + 2) / 3 * 4)) e
  where
    small : (b : Bool) → (if b then none else some (encode xs)) ≡ some text → Without 46 text
    small true e = cc
    small false e = subst (Without 46) (some-injective _ _ e) (encode-Without xs h)

abbrev pub AllChunks : List (List ℕ) → Type 0
AllChunks [] = Unit
AllChunks (c ∷ cs) = AllBytes c × AllChunks cs

-- A round of `send_document`: the text of a chunk, and what follows it.
round-Without :
    (o r : Option (List ℕ)) (text : List ℕ)
    → elim o [ none ↦ none | some t ↦ elim r [ none ↦ none | some l ↦ some (t ++ l) ] ] ≡ some text
    → ((t : List ℕ) → o ≡ some t → Without 46 t)
    → ((l : List ℕ) → r ≡ some l → Without 46 l)
    → Without 46 text
round-Without none r text h f g = cc
round-Without (some t) none text h f g = cc
round-Without (some t) (some l) text h f g =
    subst (Without 46) (some-injective _ _ h) (Without-append 46 t l (f t refl) (g l refl))

last-Without :
    (b : Bool) (o : Option (List ℕ)) (text : List ℕ)
    → (if b then o else some []) ≡ some text
    → (o ≡ some text → Without 46 text)
    → Without 46 text
last-Without true o text h g = g h
last-Without false o text h g = subst (Without 46) (some-injective _ _ h) tt

pub send_document-Without :
    (cs : List (List ℕ)) (size count : ℕ) (text : List ℕ)
    → AllChunks cs
    → send_document cs size count ≡ some text
    → Without 46 text
unfolding send_document
send_document-Without [] size count text a h = last-Without (ltb count size) none text h (λ e. cc)
send_document-Without (c ∷ cs) size count text (a, bs) h =
    last-Without (ltb count size) _ text h (λ e.
      round-Without (base64_encode c out_buf_size) (send_document cs size (count + length c)) text e
        (λ t. base64_encode-Without c out_buf_size t a)
        (λ l. send_document-Without cs size (count + length c) l bs))
