-- ===== src/Http/Port.antt =====
-- The host and the port of a URL.
use study_notes.Base.{
  Without, ℕ, suc, ◌+◌, ◌-◌, ◌*◌, ◌<◌, ◌≤◌, ◌≡◌, ◌==◌, refl, ap, ◌∙◌, ltb, true, false, Option,
  none, some, List, [], ◌∷◌, ◌++◌, append-nil, arith, take, length, if◌then◌else◌, ◌^◌,
}
use study_notes.Http.{
  colon, slash, after_round, is_digit, next, port_round, port_loop, host_of, filled, method_of,
}

abbrev pub Digits : List ℕ → Type 0
Digits [] = Unit
Digits (x ∷ xs) = (is_digit x ≡ true) × Digits xs

-- The number of a numeral, behind the digits of `n`.
abbrev pub value : ℕ → List ℕ → ℕ
value n [] = n
value n (d ∷ ds) = value (n * 10 + (d - 48)) ds

abbrev pub port_text : Option (List ℕ) → List ℕ
port_text none = []
port_text (some ds) = colon ∷ ds

abbrev pub port_number : Option (List ℕ) → ℕ
port_number none = 80
port_number (some ds) = if ltb 0 (value 0 ds) then value 0 ds else 80

-- The numeral of a port fits an `int`.
abbrev pub Port : Option (List ℕ) → Type 0
Port none = Unit
Port (some ds) = Digits ds × (value 0 ds < 2 ^ 31)

pub take-append : (xs ys : List ℕ) → take (length xs) (xs ++ ys) ≡ xs
take-append [] ys = refl
take-append (x ∷ xs) ys = ap (λ l. x ∷ l) (take-append xs ys)

pub Digits-Without : (ds : List ℕ) → Digits ds → Without slash ds
Digits-Without [] w = w
Digits-Without (d ∷ ds) (e, w) = (ground (arith, e), Digits-Without ds w)

port_loop-round :
    (c : ℕ) (cs : List ℕ) (i n m : ℕ) (f g : Option ℕ)
    → port_round c i f n ≡ next g m
    → port_loop (c ∷ cs) i f n ≡ port_loop cs (suc i) g m
unfolding port_loop
port_loop-round c cs i n m f g e =
    ap (λ q. after_round (λ f' n'. port_loop cs (suc i) f' n') f n q) e

port_round-host : (c i : ℕ) → c == colon ≡ false → port_round c i none 0 ≡ next none 0
unfolding port_round
port_round-host c i e = ground (arith, e)

port_loop-host :
    (xs r : List ℕ) (i : ℕ)
    → Without colon xs
    → port_loop (xs ++ r) i none 0 ≡ port_loop r (i + length xs) none 0
port_loop-host [] r i w = ap (λ j. port_loop r j none 0) (omega arith)
port_loop-host (x ∷ xs) r i (d, w) =
    port_loop-round x (xs ++ r) i 0 0 none none (port_round-host x i d)
    ∙ port_loop-host xs r (suc i) w
    ∙ ap (λ j. port_loop r j none 0) (omega arith)

value-grows : (n : ℕ) (ds : List ℕ) → n ≤ value n ds
value-grows n [] = omega arith
value-grows n (d ∷ ds) = omega (arith, value-grows (n * 10 + (d - 48)) ds)

port_round-digit :
    (d i j n : ℕ)
    → is_digit d ≡ true
    → n * 10 + (d - 48) < 2 ^ 31
    → port_round d i (some (suc j)) n ≡ next (some (suc j)) (n * 10 + (d - 48))
unfolding port_round
port_round-digit d i j n e fits = ground (arith, e, fits)

port_loop-Digits :
    (ds : List ℕ) (i j n : ℕ)
    → Digits ds
    → value n ds < 2 ^ 31
    → port_loop ds i (some (suc j)) n ≡ some (some (suc j), value n ds)
unfolding port_loop
port_loop-Digits [] i j n w fits = refl
port_loop-Digits (d ∷ ds) i j n (e, w) fits =
    port_loop-round d ds i n (n * 10 + (d - 48)) (some (suc j)) (some (suc j))
      (port_round-digit d i j n e (omega (arith, fits, value-grows (n * 10 + (d - 48)) ds)))
    ∙ port_loop-Digits ds (suc i) j (n * 10 + (d - 48)) w fits

port_round-colon : (i : ℕ) → port_round colon i none 0 ≡ next (some i) 0
unfolding port_round
port_round-colon i = refl

-- The loop over a host and a port.
abbrev port_pos : List ℕ → Option (List ℕ) → Option ℕ
port_pos host none = none
port_pos host (some ds) = some (length host)

abbrev tmp_of : Option (List ℕ) → ℕ
tmp_of none = 0
tmp_of (some ds) = value 0 ds

port_loop-hostport :
    (h : ℕ) (host : List ℕ) (port : Option (List ℕ))
    → Without colon (h ∷ host)
    → Port port
    → port_loop ((h ∷ host) ++ port_text port) 0 none 0
      ≡ some (port_pos (h ∷ host) port, tmp_of port)
unfolding port_loop
port_loop-hostport h host none w fits = port_loop-host (h ∷ host) [] 0 w
port_loop-hostport h host (some ds) w (digits, fits) =
    port_loop-host (h ∷ host) (colon ∷ ds) 0 w
    ∙ ap (λ j. port_loop (colon ∷ ds) j none 0) (omega arith)
    ∙ port_loop-round colon ds (length (h ∷ host)) 0 0 none (some (length (h ∷ host)))
        (port_round-colon (length (h ∷ host)))
    ∙ port_loop-Digits ds (suc (length (h ∷ host))) (length host) 0 digits fits

abbrev port_given : Option (List ℕ) → ℕ
port_given port = if ltb 0 (tmp_of port) then tmp_of port else 80

port_number-given : (port : Option (List ℕ)) → port_given port ≡ port_number port
port_number-given none = refl
port_number-given (some ds) = refl

host_of-append :
    (host : List ℕ) (port : Option (List ℕ))
    → host_of (host ++ port_text port) (port_pos host port) ≡ host
host_of-append host none = append-nil host
host_of-append host (some ds) = take-append host (colon ∷ ds)

pub method_of-hostport :
    (h : ℕ) (host path : List ℕ) (port : Option (List ℕ))
    → Without colon (h ∷ host)
    → Port port
    → method_of
        ((h ∷ host) ++ port_text port)
        path
        (port_loop ((h ∷ host) ++ port_text port) 0 none 0)
      ≡ filled record { host = h ∷ host; port = port_number port; uri = path }
method_of-hostport h host path port w fits =
    ap (λ r. method_of ((h ∷ host) ++ port_text port) path r)
      (port_loop-hostport h host port w fits)
    ∙ ap (λ l. filled record { host = l; port = port_given port; uri = path })
        (host_of-append (h ∷ host) port)
    ∙ ap (λ n. filled record { host = h ∷ host; port = n; uri = path }) (port_number-given port)
