-- ===== src/Tests/Http.antt =====
-- A URL, a request and a call.
use study_notes.Base.{
  is_without→Without, codes, ℕ, ◌≡◌, refl, true, some, List, [], ◌∷◌, map, arith,
}
use study_notes.Base.Int.{pos, negsuc}
use study_notes.Http.{Method, new_method}
use study_notes.Http.Port.{value}
use study_notes.Http.Uri.{rooted, uri_text, new_method-uri_text}
use study_notes.Http.Request.{
  Request, find_header, header_line, request_line, host_line, to_string, new_request, set_post_data,
}
use study_notes.Http.Text.{read_head, to_string-read_head}
use study_notes.Http.Body.{content_length, set_post_data-first}
use study_notes.Http.Call.{
  reading, closed, body, bytes, Call, new_call, c_string, send, on_dns_resolved, on_connect,
  after_write, receive_response, Step, resolved, connected, done, received, Reach, sent, later,
}
use study_notes.Http.Closing.{Sound, Reach-Sound}
use study_notes.Http.GivenUp.{given_up-Stuck}
use study_notes.Http.Response.{read_all, after_reads, receive_response-pieces}

abbrev method : Method
method = record { host = codes "github.com"; port = 8080; uri = codes "/master" }

new_method-uri_text_example :
    new_method true
      (uri_text (codes "http") (codes "github.com") (some (codes "8080")) (codes "/master"))
    ≡ some record { host = codes "github.com"; port = 8080; uri = codes "/master" }
new_method-uri_text_example =
    new_method-uri_text (codes "http") 103 (codes "ithub.com") (some (codes "8080"))
      (codes "/master") (is_without→Without 58 (codes "http") refl)
      (is_without→Without 58 (codes "github.com") refl)
      (is_without→Without 47 (codes "github.com") refl)
      ((refl, (refl, (refl, (refl, tt)))), omega arith) (rooted (codes "master"))

abbrev request : Request
request = record {
  method_type = codes "POST";
  method = method;
  post_data = codes "a=1";
  headers = (codes "Accept", codes "text/html") ∷ (codes "Content-Length", codes "3") ∷ [];
}

to_string-read_head_example :
    read_head [] (to_string (λ h. h) request)
    ≡ some (
      request_line request ∷ host_line request ∷ map header_line request.headers,
      request.post_data,
    )
to_string-read_head_example =
    to_string-read_head (λ h. h) request
      (
        refl,
        (
          is_without→Without 13 (codes "Accept") refl,
          (
            is_without→Without 13 (codes "text/html") refl,
            (
              refl,
              (
                is_without→Without 13 (codes "Content-Length") refl,
                (is_without→Without 13 (codes "3") refl, tt),
              ),
            ),
          ),
        ),
      )
      (is_without→Without 13 (codes "POST") refl) (is_without→Without 13 (codes "/master") refl)
      (is_without→Without 13 (codes "github.com") refl)

set_post_data-first_example :
    (v : List ℕ) × (value 0 v ≡ 3)
    × (find_header content_length
          (set_post_data (new_request (codes "POST") method) (codes "a=1")).headers
        ≡ some v)
    × ((set_post_data (new_request (codes "POST") method) (codes "a=1")).post_data ≡ codes "a=1")
    × (find_header content_length
          (set_post_data
            (set_post_data (new_request (codes "POST") method) (codes "a=1"))
            (codes "b=22")).headers
        ≡ some v)
    × ((set_post_data
          (set_post_data (new_request (codes "POST") method) (codes "a=1"))
          (codes "b=22")).post_data
        ≡ codes "b=22")
set_post_data-first_example =
    set_post_data-first (codes "POST") method (codes "a=1") (codes "b=22") (omega arith)

-- A call whose response is complete at once.
abbrev text : List ℕ
text = codes "GET / HTTP/1.1"

abbrev waiting : Call
waiting = on_dns_resolved (send true (new_call 0) (some text)) (pos 0)

abbrev reads : Call
reads = after_write (on_connect waiting (pos 0)) (pos 0)

waiting-Reach : Reach 0 text waiting
unfolding send
waiting-Reach = later (sent true) (resolved (pos 0) refl)

reads-Reach : Reach 0 text reads
unfolding send on_dns_resolved on_connect
reads-Reach = later (later waiting-Reach (connected (pos 0) refl)) (done (pos 0) refl)

reads-reading : reads.phase ≡ reading
unfolding after_write
reads-reading = refl

Reach-Sound_example : Sound text (receive_response reads (bytes (body (codes "ok") ∷ [])))
Reach-Sound_example =
    Reach-Sound (later reads-Reach (received (bytes (body (codes "ok") ∷ [])) reads-reading))

receive_response-pieces_example :
    ((read_all reads ((body (codes "o") ∷ []) ∷ [])).phase ≡ reading)
    × ((after_reads reads ((body (codes "o") ∷ []) ∷ []) (body (codes "k") ∷ []) 200).phase
        ≡ closed)
    × ((after_reads reads
          ((body (codes "o") ∷ []) ∷ [])
          (body (codes "k") ∷ [])
          200).response_buffer
        ≡ codes "ok")
    × ((after_reads reads ((body (codes "o") ∷ []) ∷ []) (body (codes "k") ∷ []) 200).statuses
        ≡ 200 ∷ [])
    × ((after_reads reads ((body (codes "o") ∷ []) ∷ []) (body (codes "k") ∷ []) 200).closes ≡ 1)
unfolding send on_dns_resolved on_connect after_write
receive_response-pieces_example =
    receive_response-pieces reads ((body (codes "o") ∷ []) ∷ []) (body (codes "k") ∷ []) 200 refl
      (tt, tt) tt

-- The connection fails with -1.
abbrev lost : Call
lost = on_connect waiting (negsuc 0)

lost-Reach : Reach 0 text lost
unfolding send on_dns_resolved
lost-Reach = later waiting-Reach (connected (negsuc 0) refl)

given_up-Stuck_example :
    (¬ Step lost lost)
    × (lost.statuses ≡ [])
    × (lost.written ≡ [])
    × (lost.closes ≡ 0)
    × (lost.freed ≡ 0)
    × (lost.message_to_send ≡ some (c_string text))
unfolding on_connect
given_up-Stuck_example = given_up-Stuck lost-Reach refl
