-- ===== src/Http/Response.antt =====
-- A response that comes in pieces.
use study_notes.Base.{
  ℕ, ◌+◌, ◌≡◌, refl, sym, ap, ◌∙◌, true, false, List, [], ◌∷◌, ◌++◌, append-nil, append_assoc,
}
use study_notes.Http.Call.{
  reading, closed, ParserEvent, body, message_complete, other, bytes, Call, uv_close,
  parser_callback, execute, receive_response,
}

-- The message is not complete yet.
abbrev pub Unfinished : List ParserEvent → Type 0
Unfinished [] = Unit
Unfinished (body p ∷ es) = Unfinished es
Unfinished (other ∷ es) = Unfinished es
Unfinished (message_complete status ∷ es) = ⊥

abbrev pub AllUnfinished : List (List ParserEvent) → Type 0
AllUnfinished [] = Unit
AllUnfinished (es ∷ reads) = Unfinished es × AllUnfinished reads

-- The pieces of the body, joined.
abbrev pub body_of : List ParserEvent → List ℕ
body_of [] = []
body_of (body p ∷ es) = p ++ body_of es
body_of (other ∷ es) = body_of es
body_of (message_complete status ∷ es) = body_of es

abbrev pub bodies_of : List (List ParserEvent) → List ℕ
bodies_of [] = []
bodies_of (es ∷ reads) = body_of es ++ bodies_of reads

unfoldable pub read_all : Call → List (List ParserEvent) → Call
read_all c [] = c
read_all c (es ∷ reads) = read_all (receive_response c (bytes es)) reads

execute-Unfinished :
    (c : Call) (es : List ParserEvent)
    → Unfinished es
    → execute c es ≡ record c { response_buffer = c.response_buffer ++ body_of es }
unfolding execute parser_callback
execute-Unfinished c [] u =
    ap (λ b. record c { response_buffer = b }) (sym (append-nil c.response_buffer))
execute-Unfinished c (body p ∷ es) u =
    execute-Unfinished (record c { response_buffer = c.response_buffer ++ p }) es u
    ∙ ap (λ b. record c { response_buffer = b }) (append_assoc c.response_buffer p (body_of es))
execute-Unfinished c (other ∷ es) u = execute-Unfinished c es u
execute-Unfinished c (message_complete status ∷ es) u = elim u [ ]

execute-append :
    (c : Call) (es fs : List ParserEvent) → execute c (es ++ fs) ≡ execute (execute c es) fs
unfolding execute
execute-append c [] fs = refl
execute-append c (e ∷ es) fs = execute-append (parser_callback c e) es fs

receive_response-Unfinished :
    (c : Call) (es : List ParserEvent)
    → Unfinished es
    → receive_response c (bytes es)
      ≡ record c { handle_to_close = true; response_buffer = c.response_buffer ++ body_of es }
unfolding receive_response
receive_response-Unfinished c es u = execute-Unfinished (record c { handle_to_close = true }) es u

-- None of the reads ends the message: what is changed is the buffer.
read_all-Unfinished :
    (c : Call) (reads : List (List ParserEvent))
    → AllUnfinished reads
    → ((read_all c reads).phase ≡ c.phase)
      × ((read_all c reads).response_buffer ≡ c.response_buffer ++ bodies_of reads)
      × ((read_all c reads).statuses ≡ c.statuses)
      × ((read_all c reads).closes ≡ c.closes)
unfolding read_all
read_all-Unfinished c [] u = (refl, sym (append-nil c.response_buffer), refl, refl)
read_all-Unfinished c (es ∷ reads) (u, us) =
    let e = receive_response-Unfinished c es u in
    let d = record c {
      handle_to_close = true;
      response_buffer = c.response_buffer ++ body_of es;
    } in
    let (p, b, s, k) = read_all-Unfinished d reads us in
    (
      ap (λ x. (read_all x reads).phase) e ∙ p,
      ap (λ x. (read_all x reads).response_buffer) e
          ∙ b
          ∙ append_assoc c.response_buffer (body_of es) (bodies_of reads),
      ap (λ x. (read_all x reads).statuses) e ∙ s,
      ap (λ x. (read_all x reads).closes) e ∙ k,
    )

receive_response-last :
    (c : Call) (es : List ParserEvent) (status : ℕ)
    → Unfinished es
    → receive_response c (bytes (es ++ message_complete status ∷ [])) ≡ record c {
      phase = closed;
      handle_to_close = false;
      response_buffer = c.response_buffer ++ body_of es;
      statuses = c.statuses ++ status ∷ [];
      closes = c.closes + 1;
    }
unfolding receive_response execute parser_callback uv_close
receive_response-last c es status u =
    let opened = record c { handle_to_close = true } in
    execute-append opened es (message_complete status ∷ [])
    ∙ ap (λ d. execute d (message_complete status ∷ [])) (execute-Unfinished opened es u)

-- The reads, and one more that completes the message.
unfoldable pub after_reads : Call → List (List ParserEvent) → List ParserEvent → ℕ → Call
after_reads c reads es status =
    receive_response (read_all c reads) (bytes (es ++ message_complete status ∷ []))

-- A response whose message is completed at the end of a read, and in none of the reads before: in
-- whatever pieces it comes, the call goes on reading until then, and has then called
-- on_message_complete once, with the status, behind all the pieces of the body in their order, and
-- closed the connection once.
pub receive_response-pieces :
    (c : Call) (reads : List (List ParserEvent)) (es : List ParserEvent) (status : ℕ)
    → c.phase ≡ reading
    → AllUnfinished reads
    → Unfinished es
    → ((read_all c reads).phase ≡ reading)
      × ((after_reads c reads es status).phase ≡ closed)
      × ((after_reads c reads es status).response_buffer
          ≡ c.response_buffer ++ (bodies_of reads ++ body_of es))
      × ((after_reads c reads es status).statuses ≡ c.statuses ++ status ∷ [])
      × ((after_reads c reads es status).closes ≡ c.closes + 1)
unfolding after_reads
receive_response-pieces c reads es status at us u =
    let (p, b, s, k) = read_all-Unfinished c reads us in
    let e = receive_response-last (read_all c reads) es status u in
    (
      p ∙ at,
      ap (λ (x : Call). x.phase) e,
      ap (λ (x : Call). x.response_buffer) e
          ∙ ap (λ l. l ++ body_of es) b
          ∙ append_assoc c.response_buffer (bodies_of reads) (body_of es),
      ap (λ (x : Call). x.statuses) e ∙ ap (λ l. l ++ status ∷ []) s,
      ap (λ (x : Call). x.closes) e ∙ ap (λ n. n + 1) k,
    )
