-- ===== src/Http/Body.antt =====
-- The header that gives the length of a request's body.
use study_notes.Base.{
  codes, ℕ, zero, suc, ◌+◌, ◌-◌, ◌*◌, ◌/◌, ◌%◌, ◌^◌, ◌<◌, ◌≡◌, refl, ◌∙◌, ltb, none, some, List, [],
  ◌∷◌, ◌++◌, arith, length, if◌then◌else◌,
}
use study_notes.Http.{Method}
use study_notes.Http.Port.{value}
use study_notes.Http.Request.{
  Headers, find_header, insert_header, decimal_loop, decimal, default_headers, new_request,
  set_post_data,
}

value-last : (m : ℕ) (xs : List ℕ) (d : ℕ) → value m (xs ++ d ∷ []) ≡ value m xs * 10 + (d - 48)
value-last m [] d = refl
value-last m (x ∷ xs) d = value-last (m * 10 + (x - 48)) xs d

digits_of :
    (n : ℕ) (xs : List ℕ)
    → value 0 xs ≡ n / 10
    → value 0 (if ltb n 10 then [] else xs) * 10 + (48 + n % 10 - 48) ≡ n
digits_of n xs e = ground (arith, e)

decimal_loop-value : (fuel n : ℕ) → n < 10 ^ fuel → value 0 (decimal_loop fuel n) ≡ n
unfolding decimal_loop
decimal_loop-value zero n fits = omega (arith, fits)
decimal_loop-value (suc fuel) n fits =
    let ih = decimal_loop-value fuel (n / 10) (omega (arith, fits)) in
    let front = if ltb n 10 then [] else decimal_loop fuel (n / 10) in
    value-last 0 front (48 + n % 10) ∙ digits_of n (decimal_loop fuel (n / 10)) ih

abbrev pub content_length : List ℕ
content_length = codes "Content-Length"

content_length-missing : find_header content_length default_headers ≡ none
unfolding default_headers insert_header
content_length-missing = refl

-- A header that is missing is inserted; one that is there stays.
find_header-insert_missing :
    (v : List ℕ) (h : Headers)
    → find_header content_length h ≡ none
    → find_header content_length (insert_header content_length v h) ≡ some v
unfolding insert_header
find_header-insert_missing v h e = ground (arith, e)

find_header-insert_there :
    (v w : List ℕ) (h : Headers)
    → find_header content_length h ≡ some w
    → find_header content_length (insert_header content_length v h) ≡ some w
unfolding insert_header
find_header-insert_there v w h e = ground (arith, e)

new_request-missing :
    (t : List ℕ) (m : Method) → find_header content_length (new_request t m).headers ≡ none
unfolding new_request
new_request-missing t m = content_length-missing

-- For a first body of less than 10 ^ 20 bytes: the header Content-Length of a new request stands
-- for its length; for a second body it is not changed, and stands for the length of the first one.
pub set_post_data-first :
    (t : List ℕ) (m : Method) (a b : List ℕ)
    → length a < 10 ^ 20
    → (v : List ℕ) × (value 0 v ≡ length a)
      × (find_header content_length (set_post_data (new_request t m) a).headers ≡ some v)
      × ((set_post_data (new_request t m) a).post_data ≡ a)
      × (find_header content_length (set_post_data (set_post_data (new_request t m) a) b).headers
          ≡ some v)
      × ((set_post_data (set_post_data (new_request t m) a) b).post_data ≡ b)
unfolding set_post_data decimal
set_post_data-first t m a b fits =
    let v = decimal_loop 20 (length a) in
    let given = find_header-insert_missing v (new_request t m).headers (new_request-missing t m) in
    (
      v,
      decimal_loop-value 20 (length a) fits,
      given,
      refl,
      find_header-insert_there (decimal_loop 20 (length b)) v
          (insert_header content_length v (new_request t m).headers) given,
      refl,
    )
