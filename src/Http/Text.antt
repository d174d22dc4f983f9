-- ===== src/Http/Text.antt =====
-- The text of a request, read line by line.
use study_notes.Base.{
  is_without→Without, Without, Without-append, codes, crlf, ℕ, ◌≡◌, ◌==◌, refl, sym, ap, ◌∙◌, true,
  false, ◌&&◌, Option, none, some, List, [], ◌∷◌, ◌++◌, map, append-nil, append_assoc, arith,
  is_nil, if◌then◌else◌,
}
use study_notes.Http.{colon}
use study_notes.Http.Request.{
  space, Headers, Request, header_line, header_lines, request_line, host_line, to_string,
}

abbrev pub first_line : List ℕ → Option (List (List ℕ) × List ℕ) → Option (List (List ℕ) × List ℕ)
first_line line none = none
first_line line (some (lines, rest)) = some (line ∷ lines, rest)

-- The lines of a text up to an empty one, each ended by a carriage return and a line feed, and what
-- is behind them; `line` is the part of a line that is read.
unfoldable pub read_head : List ℕ → List ℕ → Option (List (List ℕ) × List ℕ)
read_head line [] = none
read_head line (c ∷ []) = none
read_head line (c ∷ d ∷ r) = elim (c == 13 && d == 10) [
  | true ↦ if is_nil line then some ([], r) else first_line line (read_head [] r)
  | false ↦ read_head (line ++ c ∷ []) (d ∷ r)
]

-- What is read where a line that has been read is ended.
abbrev at_end : List ℕ → List ℕ → Option (List (List ℕ) × List ℕ)
at_end line r = if is_nil line then some ([], r) else first_line line (read_head [] r)

read_head-other :
    (line : List ℕ) (c d : ℕ) (r : List ℕ)
    → c == 13 ≡ false
    → read_head line (c ∷ d ∷ r) ≡ read_head (line ++ c ∷ []) (d ∷ r)
unfolding read_head
read_head-other line c d r e = ground (arith, e)

read_head-line :
    (line xs r : List ℕ)
    → Without 13 xs
    → read_head line (xs ++ (crlf ++ r)) ≡ at_end (line ++ xs) r
unfolding read_head
read_head-line line [] r w = ap (λ l. at_end l r) (sym (append-nil line))
read_head-line line (x ∷ []) r (d, w) =
    read_head-other line x 13 (10 ∷ r) d
    ∙ read_head-line (line ++ x ∷ []) [] r w
    ∙ ap (λ l. at_end l r) (append-nil (line ++ x ∷ []))
read_head-line line (x ∷ y ∷ xs) r (d, w) =
    read_head-other line x y (xs ++ (crlf ++ r)) d
    ∙ read_head-line (line ++ x ∷ []) (y ∷ xs) r w
    ∙ ap (λ l. at_end l r) (append_assoc line (x ∷ []) (y ∷ xs))

-- A line that is not empty, and what is behind it.
read_head-cons :
    (x : ℕ) (xs r : List ℕ)
    → Without 13 (x ∷ xs)
    → read_head [] ((x ∷ xs) ++ (crlf ++ r)) ≡ first_line (x ∷ xs) (read_head [] r)
read_head-cons x xs r w = read_head-line [] (x ∷ xs) r w

-- No header holds a carriage return, and no header has an empty name.
abbrev pub Clean : Headers → Type 0
Clean [] = Unit
Clean ((k, v) ∷ h) = (is_nil k ≡ false) × (Without 13 k × (Without 13 v × Clean h))

read_head-header :
    (k v r : List ℕ)
    → is_nil k ≡ false
    → Without 13 k
    → Without 13 v
    → read_head [] (header_line (k, v) ++ (crlf ++ r))
      ≡ first_line (header_line (k, v)) (read_head [] r)
read_head-header [] v r e w u = ground (arith, e)
read_head-header (c ∷ k) v r e w u =
    read_head-cons c (k ++ (colon ∷ space ∷ v)) r
      (Without-append 13 (c ∷ k) (colon ∷ space ∷ v) w (refl, (refl, u)))

read_head-middle :
    (xs : List ℕ) (x : ℕ) (ys r : List ℕ)
    → Without 13 (xs ++ x ∷ ys)
    → read_head [] ((xs ++ x ∷ ys) ++ (crlf ++ r)) ≡ first_line (xs ++ x ∷ ys) (read_head [] r)
read_head-middle [] x ys r w = read_head-line [] (x ∷ ys) r w
read_head-middle (c ∷ xs) x ys r w = read_head-line [] (c ∷ xs ++ x ∷ ys) r w

read_head-headers :
    (h : Headers) (body : List ℕ)
    → Clean h
    → read_head [] (header_lines h ++ (crlf ++ body)) ≡ some (map header_line h, body)
unfolding header_lines
read_head-headers [] body w = read_head-line [] [] body tt
read_head-headers ((k, v) ∷ h) body (e, (w, (u, c))) =
    ap (read_head []) (
      append_assoc (header_line (k, v) ++ crlf) (header_lines h) (crlf ++ body)
      ∙ append_assoc (header_line (k, v)) crlf (header_lines h ++ (crlf ++ body)))
    ∙ read_head-header k v (header_lines h ++ (crlf ++ body)) e w u
    ∙ ap (first_line (header_line (k, v))) (read_head-headers h body c)

-- In whatever order the map lists the headers: where neither they nor the method, the path and the
-- host hold a carriage return, and no header's name is empty, the text of a request is read line
-- by line as the request line, the host and the headers, and behind the empty line as the body.
pub to_string-read_head :
    (listed : Headers → Headers) (r : Request)
    → Clean (listed r.headers)
    → Without 13 r.method_type
    → Without 13 r.method.uri
    → Without 13 r.method.host
    → read_head [] (to_string listed r)
      ≡ some (request_line r ∷ host_line r ∷ map header_line (listed r.headers), r.post_data)
unfolding to_string
to_string-read_head listed r clean t u h =
    let rest = header_lines (listed r.headers) ++ (crlf ++ r.post_data) in
    let behind = space ∷ (r.method.uri ++ codes " HTTP/1.1") in
    let line_clean = Without-append 13 r.method_type behind t (
      refl,
      Without-append 13 r.method.uri (codes " HTTP/1.1") u
          (is_without→Without 13 (codes " HTTP/1.1") refl),
    ) in
    ap (read_head []) (append_assoc (request_line r) crlf ((host_line r ++ crlf) ++ rest))
    ∙ read_head-middle r.method_type space (r.method.uri ++ codes " HTTP/1.1")
        ((host_line r ++ crlf) ++ rest) line_clean
    ∙ ap (λ q. first_line (request_line r) (read_head [] q)) (append_assoc (host_line r) crlf rest)
    ∙ ap (first_line (request_line r)) (
        read_head-middle [] 72 (111 ∷ 115 ∷ 116 ∷ 58 ∷ 32 ∷ r.method.host) rest (
          Without-append 13 (codes "Host: ") r.method.host
            (is_without→Without 13 (codes "Host: ") refl) h)
        ∙ ap (first_line (host_line r)) (read_head-headers (listed r.headers) r.post_data clean))
