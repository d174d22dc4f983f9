-- ===== src/Http.antt =====
-- Languages/cpp/0_libuv/learn_uv/uv_http_req/request.h: a URL that is taken apart, and the text of
-- a request. A text is the list of its bytes.
pub mod Port
pub mod Uri
pub mod Text
pub mod Body
pub mod Call
pub mod Closing
pub mod GivenUp
pub mod Response
pub mod Request
use study_notes.Base.{
  ℕ, zero, suc, ◌+◌, ◌-◌, ◌*◌, ◌≤◌, ◌==◌, ltb, leb, Bool, true, false, not, ◌&&◌, ◌||◌, Option,
  none, some, List, [], ◌∷◌, ◌++◌, take, drop, length, if◌then◌else◌, ◌^◌,
}

abbrev pub colon : ℕ
colon = 58

abbrev pub slash : ℕ
slash = 47

-- `://`
abbrev pub scheme_end : List ℕ
scheme_end = colon ∷ slash ∷ slash ∷ []

abbrev pub starts_with : List ℕ → List ℕ → Bool
starts_with [] xs = true
starts_with (p ∷ ps) [] = false
starts_with (p ∷ ps) (x ∷ xs) = p == x && starts_with ps xs

abbrev pub one_more : Option ℕ → Option ℕ
one_more none = none
one_more (some i) = some (suc i)

-- `find` of a text that is not empty, from the start; `none` is `npos`.
abbrev pub find : List ℕ → List ℕ → Option ℕ
find sub [] = none
find sub (x ∷ xs) = if starts_with sub (x ∷ xs) then some 0 else one_more (find sub xs)

-- `Method`: the parts of the URL.
pub record Method : Type 0 where
  pub host : List ℕ
  pub port : ℕ
  pub uri : List ℕ

abbrev pub is_digit : ℕ → Bool
is_digit c = leb 48 c && leb c 57

-- A round of the loop over the host and the port: the loop ends, an `int` overflows, or `find_pos`
-- and `tmp_port` behind the round; `none` is -1.
pub data Round : Type 0 where
  break overflow : Round
  next : Option ℕ → ℕ → Round

abbrev pub behind_colon : Option ℕ → Bool
behind_colon none = false
behind_colon (some i) = ltb 0 i

-- The second `if` of the round.
abbrev pub at_colon : ℕ → ℕ → Option ℕ → ℕ → Round
at_colon c i find_pos tmp_port = if c == colon then next (some i) 0 else next find_pos tmp_port

unfoldable pub port_round : ℕ → ℕ → Option ℕ → ℕ → Round
port_round c i find_pos tmp_port =
    if behind_colon find_pos
    then (if not (is_digit c)
        then break
        else (if ltb (tmp_port * 10 + (c - 48)) (2 ^ 31)
            then at_colon c i find_pos (tmp_port * 10 + (c - 48))
            else overflow))
    else at_colon c i find_pos tmp_port

-- What the loop does with a round; the function is what goes on.
abbrev pub after_round :
    (Option ℕ → ℕ → Option (Option ℕ × ℕ)) → Option ℕ → ℕ → Round → Option (Option ℕ × ℕ)
after_round goes_on find_pos tmp_port break = some (find_pos, tmp_port)
after_round goes_on find_pos tmp_port overflow = none
after_round goes_on find_pos tmp_port (next find_pos' tmp_port') = goes_on find_pos' tmp_port'

-- The loop: `find_pos` and `tmp_port` at its end, or `none` where an `int` overflows.
unfoldable pub port_loop : List ℕ → ℕ → Option ℕ → ℕ → Option (Option ℕ × ℕ)
port_loop [] i find_pos tmp_port = some (find_pos, tmp_port)
port_loop (c ∷ cs) i find_pos tmp_port =
    after_round (λ find_pos' tmp_port'. port_loop cs (suc i) find_pos' tmp_port') find_pos tmp_port
      (port_round c i find_pos tmp_port)

-- `substr(0, find_pos)`, where -1 is `npos`.
abbrev pub host_of : List ℕ → Option ℕ → List ℕ
host_of hostport none = hostport
host_of hostport (some i) = take i hostport

-- What `ParseUri` does: it fills the fields and returns true, it returns false, or an `int`
-- overflows.
pub data Parsed : Type 0 where
  filled : Method → Parsed
  no_scheme int_overflow : Parsed

abbrev pub method_of : List ℕ → List ℕ → Option (Option ℕ × ℕ) → Parsed
method_of hostport uri none = int_overflow
method_of hostport uri (some (find_pos, tmp_port)) = filled record {
  host = host_of hostport find_pos;
  port = if ltb 0 tmp_port then tmp_port else 80;
  uri = uri;
}

-- The host with the port, and the path: `nlen` is counted from the end of `://` on.
abbrev pub split_path : List ℕ → ℕ → Option ℕ → List ℕ × List ℕ
split_path uri begin none = (drop begin uri, [])
split_path uri begin (some k) =
    let nlen = begin + k in (take (nlen - begin) (drop begin uri), drop nlen uri)

abbrev pub parse_at : List ℕ → Option ℕ → Parsed
parse_at uri none = no_scheme
parse_at uri (some ibegin) =
    let (hostport, path) =
      split_path uri (ibegin + 3) (find (slash ∷ []) (drop (ibegin + 3) uri)) in
    method_of hostport path (port_loop hostport 0 none 0)

-- `ParseUri`.
unfoldable pub parse_uri : List ℕ → Parsed
parse_uri uri = parse_at uri (find scheme_end uri)

abbrev pub asserted : Parsed → Option Method
asserted (filled m) = some m
asserted no_scheme = none
asserted int_overflow = none

-- The constructor of `Method`, with assertions and without: they hold the only call of `ParseUri`.
-- `none` is an assertion that fails, or an `int` that overflows.
unfoldable pub new_method : Bool → List ℕ → Option Method
new_method false uri = some record { host = []; port = 80; uri = [] }
new_method true uri = asserted (parse_uri uri)
