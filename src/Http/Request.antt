-- ===== src/Http/Request.antt =====
-- The class `Request` of request.h: the headers, the body, and the text that is sent.
use study_notes.Base.{
  codes, crlf, ℕ, zero, suc, ◌+◌, ◌/◌, ◌%◌, ◌==◌, ltb, Bool, true, false, ◌&&◌, Option, none, some,
  List, [], ◌∷◌, ◌++◌, length, if◌then◌else◌,
}
use study_notes.Http.{Method, colon}
use Prim.Native.String.{String}

abbrev pub space : ℕ
space = 32

abbrev pub Headers : Type 0
Headers = List (List ℕ × List ℕ)

abbrev pub equal : List ℕ → List ℕ → Bool
equal [] [] = true
equal (x ∷ xs) (y ∷ ys) = x == y && equal xs ys
equal [] (y ∷ ys) = false
equal (x ∷ xs) [] = false

-- `headers.find`.
abbrev pub find_header : List ℕ → Headers → Option (List ℕ)
find_header k [] = none
find_header k ((j, v) ∷ h) = if equal j k then some v else find_header k h

abbrev pub is_none : Option (List ℕ) → Bool
is_none none = true
is_none (some v) = false

-- `headers.insert`, which leaves a header that is there as it is. The order of the map is not kept.
unfoldable pub insert_header : List ℕ → List ℕ → Headers → Headers
insert_header k v h = if is_none (find_header k h) then (k, v) ∷ h else h

-- `std::to_string` of a size, which has at most 20 digits.
unfoldable pub decimal_loop : ℕ → ℕ → List ℕ
decimal_loop zero n = []
decimal_loop (suc fuel) n =
    let rest = decimal_loop fuel (n / 10) in (if ltb n 10 then [] else rest) ++ (48 + n % 10) ∷ []

unfoldable pub decimal : ℕ → List ℕ
decimal n = decimal_loop 20 n

-- `Request`; `method_type` is `m_get_post` of its method.
pub record Request : Type 0 where
  pub method_type : List ℕ
  pub method : Method
  pub post_data : List ℕ
  pub headers : Headers

abbrev pub insert_missing : String → String → Headers → Headers
insert_missing k v h =
    if is_none (find_header (codes k) h) then insert_header (codes k) (codes v) h else h

-- The headers that the constructor inserts, and those that it inserts where they are missing.
unfoldable pub default_headers : Headers
default_headers =
    insert_missing "Accept"
      "text/html,application/json,application/xhtml+xml,application/xml;q=0.9,*/*;q=0.8"
      (insert_missing "User-Agent" "libuv_http_client" (
        insert_header (codes "Connection") (codes "Keep-Alive") (
          insert_header (codes "Content-Type") (codes "text/plain;charset=UTF-8") (
            insert_header (codes "Accept-Language") (codes "zh-CN,zh;q=0.9,en;q=0.8") (
              insert_header (codes "Accept-Encoding") (codes "gzip, deflate, br") (
                insert_header (codes "Accept") (codes "text/html,application/json,*/*")
                  (insert_header (codes "User-Agent") (codes "UvHttpClient/1.0") [])))))))

unfoldable pub new_request : List ℕ → Method → Request
new_request method_type method = record {
  method_type = method_type;
  method = method;
  post_data = [];
  headers = default_headers;
}

-- `setPostData`.
unfoldable pub set_post_data : Request → List ℕ → Request
set_post_data r post_str = record r {
  post_data = post_str;
  headers = insert_header (codes "Content-Length") (decimal (length post_str)) r.headers;
}

abbrev pub header_line : List ℕ × List ℕ → List ℕ
header_line (k, v) = k ++ (colon ∷ space ∷ v)

unfoldable pub header_lines : Headers → List ℕ
header_lines [] = []
header_lines (h ∷ hs) = (header_line h ++ crlf) ++ header_lines hs

abbrev pub request_line : Request → List ℕ
request_line r = r.method_type ++ (space ∷ (r.method.uri ++ codes " HTTP/1.1"))

abbrev pub host_line : Request → List ℕ
host_line r = codes "Host: " ++ r.method.host

-- `to_string`: `listed` is what the loop over the headers goes through, in its order.
unfoldable pub to_string : (Headers → Headers) → Request → List ℕ
to_string listed r =
    (request_line r ++ crlf)
    ++ ((host_line r ++ crlf) ++ (header_lines (listed r.headers) ++ (crlf ++ r.post_data)))
