-- ===== src/Http/Uri.antt =====
-- A URL is taken apart into what it is made of.
use study_notes.Base.{
  Without, Without-append, ℕ, ◌+◌, ◌-◌, ◌≡◌, refl, sym, ap, ◌∙◌, true, Option, none, some, List, [],
  ◌∷◌, ◌++◌, append-nil, append_assoc, arith, take, drop, length, is_nil, length-append,
  if◌then◌else◌,
}
use study_notes.Http.{
  colon, slash, scheme_end, find, port_loop, Parsed, method_of, split_path, parse_at, parse_uri,
  asserted, new_method,
}
use study_notes.Http.Port.{
  Digits-Without, Port, port_text, port_number, take-append, method_of-hostport,
}

-- No path, or one from the root.
pub data Rooted : List ℕ → Type 0 where
  no_path : Rooted []
  rooted : (p : List ℕ) → Rooted (slash ∷ p)

find-scheme_end :
    (scheme r : List ℕ)
    → Without colon scheme
    → find scheme_end (scheme ++ (scheme_end ++ r)) ≡ some (length scheme)
find-scheme_end [] r w = refl
find-scheme_end (x ∷ xs) r (d, w) = ground (arith, d, find-scheme_end xs r w)

find-slash : (a r : List ℕ) → Without slash a → find (slash ∷ []) (a ++ slash ∷ r) ≡ some (length a)
find-slash [] r w = refl
find-slash (x ∷ xs) r (d, w) = ground (arith, d, find-slash xs r w)

find-none : (a : List ℕ) → Without slash a → find (slash ∷ []) a ≡ none
find-none [] w = refl
find-none (x ∷ xs) (d, w) = ground (arith, d, find-none xs w)

drop-append : (xs ys : List ℕ) → drop (length xs) (xs ++ ys) ≡ ys
drop-append [] ys = refl
drop-append (x ∷ xs) ys = drop-append xs ys

-- What `ParseUri` makes of a host with its port, and a path.
abbrev parsed_from : List ℕ × List ℕ → Parsed
parsed_from (hostport, path) = method_of hostport path (port_loop hostport 0 none 0)

added : (m n : ℕ) → m + n - m ≡ n
added m n = omega arith

port_text-Without : (port : Option (List ℕ)) → Port port → Without slash (port_text port)
port_text-Without none fits = tt
port_text-Without (some ds) (digits, fits) = (refl, Digits-Without ds digits)

drop-at : (n : ℕ) (xs ys : List ℕ) → n ≡ length xs → drop n (xs ++ ys) ≡ ys
drop-at n xs ys e = ap (λ m. drop m (xs ++ ys)) e ∙ drop-append xs ys

take-at : (n : ℕ) (xs ys : List ℕ) → n ≡ length xs → take n (xs ++ ys) ≡ xs
take-at n xs ys e = ap (λ m. take m (xs ++ ys)) e ∙ take-append xs ys

find-path :
    (a path : List ℕ)
    → Without slash a
    → Rooted path
    → find (slash ∷ []) (a ++ path) ≡ (if is_nil path then none else some (length a))
find-path a [] w no_path = ap (λ l. find (slash ∷ []) l) (append-nil a) ∙ find-none a w
find-path a path w (rooted p) = find-slash a p w

abbrev before : List ℕ → List ℕ
before scheme = scheme ++ scheme_end

length-before : (scheme : List ℕ) → length scheme + 3 ≡ length (before scheme)
length-before scheme = omega (arith, length-append scheme scheme_end)

-- The text behind `://`, taken apart at its path.
split_path-path :
    (pre a path : List ℕ) (begin : ℕ)
    → begin ≡ length pre
    → Rooted path
    → split_path (pre ++ (a ++ path)) begin (if is_nil path then none else some (length a))
      ≡ (a, path)
split_path-path pre a [] begin e no_path =
    ap (λ l. (l, [])) (drop-at begin pre (a ++ []) e ∙ append-nil a)
split_path-path pre a path begin e (rooted p) =
    let host =
      ap (λ n. take n (drop begin (pre ++ (a ++ slash ∷ p)))) (added begin (length a))
      ∙ ap (λ l. take (length a) l) (drop-at begin pre (a ++ slash ∷ p) e)
      ∙ take-append a (slash ∷ p) in
    let rest =
      ap (λ l. drop (begin + length a) l) (sym (append_assoc pre a (slash ∷ p)))
      ∙ drop-at (begin + length a) (pre ++ a) (slash ∷ p) (omega (arith, e, length-append pre a)) in
    ap (λ l. (l, drop (begin + length a) (pre ++ (a ++ slash ∷ p)))) host ∙ ap (λ l. (a, l)) rest

-- A URL in its text.
abbrev pub uri_text : List ℕ → List ℕ → Option (List ℕ) → List ℕ → List ℕ
uri_text scheme host port path = scheme ++ (scheme_end ++ ((host ++ port_text port) ++ path))

parse_uri-hostport :
    (scheme hostport path : List ℕ)
    → Without colon scheme
    → Without slash hostport
    → Rooted path
    → parse_uri (scheme ++ (scheme_end ++ (hostport ++ path)))
      ≡ method_of hostport path (port_loop hostport 0 none 0)
unfolding parse_uri
parse_uri-hostport scheme hostport path w v r =
    let uri = scheme ++ (scheme_end ++ (hostport ++ path)) in
    let begin = length scheme + 3 in
    let whole : uri ≡ before scheme ++ (hostport ++ path) =
      sym (append_assoc scheme scheme_end (hostport ++ path)) in
    let behind : drop begin uri ≡ hostport ++ path =
      ap (λ l. drop begin l) whole
      ∙ drop-at begin (before scheme) (hostport ++ path) (length-before scheme) in
    let cut = if is_nil path then none else some (length hostport) in
    ap (λ i. parse_at uri i) (find-scheme_end scheme (hostport ++ path) w)
    ∙ ap (λ l. parsed_from (split_path uri begin (find (slash ∷ []) l))) behind
    ∙ ap (λ k. parsed_from (split_path uri begin k)) (find-path hostport path v r)
    ∙ ap (λ l. parsed_from (split_path l begin cut)) whole
    ∙ ap parsed_from (split_path-path (before scheme) hostport path begin (length-before scheme) r)

-- With assertions: for a URL of a scheme without a colon, a host of at least one byte without a
-- colon or a slash, with or without a port in decimal digits that fits an int, and with or without
-- a path from a slash on, the constructor of Method fills in that host, the port where it is given
-- and not 0, and 80 otherwise, and that path, which is empty where there is none.
pub new_method-uri_text :
    (scheme : List ℕ) (h : ℕ) (host : List ℕ) (port : Option (List ℕ)) (path : List ℕ)
    → Without colon scheme
    → Without colon (h ∷ host)
    → Without slash (h ∷ host)
    → Port port
    → Rooted path
    → new_method true (uri_text scheme (h ∷ host) port path)
      ≡ some record { host = h ∷ host; port = port_number port; uri = path }
unfolding new_method
new_method-uri_text scheme h host port path w v u fits r = ap asserted (
    parse_uri-hostport scheme ((h ∷ host) ++ port_text port) path w
      (Without-append slash (h ∷ host) (port_text port) u (port_text-Without port fits)) r
    ∙ method_of-hostport h host path port v fits)
