-- ===== src/Mail/Transcript.antt =====
-- The session of `main` as a dialogue.
use study_notes.Base.{
  ℕ, ◌+◌, ◌≤◌, ◌≡◌, refl, ap, Bool, true, false, Option, none, some, List, [], ◌∷◌, ◌++◌, arith,
  length, length-append, ltb, is_nil, if◌then◌else◌,
}
use study_notes.Mail.{base64_encode, send_document, out_buf_size}
use study_notes.Mail.Socket.{reply, Action, ◌>>◌, finish, send_socket, fail, endless}
use study_notes.Mail.Session.{
  Settings, File, send_html, send_attachment, mail_text, session, data_line, quit_line, dot_line,
}
use study_notes.Mail.Wire.{Sends, ◌then◌, finish-Sends}
use mathlib.Core.Path.{subst}
use mathlib.Core.Option.{some-injective}
use study_notes.Mail.Dialogue.{
  dialogue, dialogue-append, login_turns, head_turns, message, turns, Says, ◌and◌, says, ◌asks◌,
  last_turn, login-Sends, mail_head-Sends, mail_info-Says, document_head-Says,
}

abbrev pub join : List (List ℕ) → List ℕ
join [] = []
join (c ∷ cs) = c ++ join cs

abbrev pub NoneEmpty : List (List ℕ) → Type 0
NoneEmpty [] = Unit
NoneEmpty (c ∷ cs) = (is_nil c ≡ false) × NoneEmpty cs

-- What `fread` returns is the content, in chunks that are not empty, and `ftell` gives its length.
pub record Reads (f : File) (content : List ℕ) : Type 0 where
  pub all : join f.chunks ≡ content
  pub sized : f.size ≡ length content
  pub full : NoneEmpty f.chunks

module _ (write : ℕ → ℕ → ℕ) (read : ℕ → Bool) where
  chunk_left :
      (c : List ℕ) (size count n : ℕ)
      → is_nil c ≡ false
      → count + (length c + n) ≡ size
      → ltb count size ≡ true
  chunk_left [] size count n e h = cc
  chunk_left (x ∷ c) size count n e h = ground (arith, h)

  send_html-Says :
      (cs : List (List ℕ)) (size count : ℕ)
      → NoneEmpty cs
      → count + length (join cs) ≡ size
      → Says write read (send_html write read cs size count) (join cs)
  unfolding send_html
  send_html-Says [] size count full h =
      let e : ltb count size ≡ false = ground (arith, h) in
      rw e (record { heard = finish-Sends write read })
  send_html-Says (c ∷ cs) size count (e, full) h =
      rw
        (
          chunk_left c size count (length (join cs)) e
              (omega (arith, h, length-append c (join cs))),
          e,
        )
        (says c
          and send_html-Says cs size (count + length c) full
              (omega (arith, h, length-append c (join cs))))

  -- A round of the loop over the document, or its end.
  round_or_end :
      (b : Bool) (o : Option (List ℕ)) (k : Action) (text : List ℕ)
      → (if b then o else some []) ≡ some text
      → (o ≡ some text → Says write read k text)
      → Says write read (if b then k else finish) text
  round_or_end true o k text h g = g h
  round_or_end false o k text h g =
      subst (Says write read finish) (some-injective _ _ h)
        (record { heard = finish-Sends write read })

  -- The round that encodes a chunk, and the rounds behind it.
  encoded_chunk :
      (o r : Option (List ℕ)) (k : Action) (text : List ℕ)
      → elim o [ none ↦ none | some t ↦ elim r [ none ↦ none | some l ↦ some (t ++ l) ] ]
        ≡ some text
      → ((l : List ℕ) → r ≡ some l → Says write read k l)
      → Says write read (elim o [ none ↦ fail | some t ↦ send_socket write read t >> k ]) text
  encoded_chunk none r k text h g = cc
  encoded_chunk (some t) none k text h g = cc
  encoded_chunk (some t) (some l) k text h g =
      subst (Says write read _) (some-injective _ _ h) (says t and g l refl)

  send_attachment-Says :
      (cs : List (List ℕ)) (size count : ℕ) (text : List ℕ)
      → send_document cs size count ≡ some text
      → Says write read (send_attachment write read cs size count) text
  unfolding send_attachment send_document
  send_attachment-Says [] size count text h =
      round_or_end (ltb count size) none (λ s. endless) text h (λ e. cc)
  send_attachment-Says (c ∷ cs) size count text h = round_or_end (ltb count size) _ _ text h (λ e.
      encoded_chunk (base64_encode c out_buf_size) (send_document cs size (count + length c)) _ text
        e (send_attachment-Says cs size (count + length c)))

  mail_text-Says :
      (o : Settings) (html doc : File) (content text : List ℕ)
      → Reads html content
      → send_document doc.chunks doc.size 0 ≡ some text
      → Says write read (mail_text write read o (some html) (some doc)) (message o content text)
  unfolding mail_text
  mail_text-Says o html doc content text r d = rw (← r.all) (
      mail_info-Says write read o
      and send_html-Says html.chunks html.size 0 r.full (omega (arith, ap length r.all, r.sized))
      and document_head-Says write read o
      and send_attachment-Says doc.chunks doc.size 0 text d
      and says dot_line)

  -- Where the user and the password have at most 4096 bytes, fread returns the HTML file in chunks
  -- that are not empty, and the document is encoded: whatever write and read answer, the session
  -- ends, and puts its dialogue on the connection, each turn behind the reply to the one before, or
  -- a part of it from the start, and that only where a write takes no byte or a read fails.
  pub session-Sends :
      (o : Settings) (html doc : File) (content text : List ℕ)
      → length o.from_ip ≤ 4096
      → length o.passwd ≤ 4096
      → Reads html content
      → send_document doc.chunks doc.size 0 ≡ some text
      → Sends write read
          (session write read o (some html) (some doc))
          (reply ∷ dialogue (turns o content text))
  unfolding session
  session-Sends o html doc content text h k r d =
      rw
        (
          dialogue-append (login_turns o)
              (head_turns o ++ (data_line ∷ message o content text ∷ quit_line ∷ [])),
          dialogue-append (head_turns o) (data_line ∷ message o content text ∷ quit_line ∷ []),
        )
        (login-Sends write read o h k
          then mail_head-Sends write read o
          then (says data_line
              asks mail_text-Says o html doc content text r d
              asks last_turn (says quit_line)))
