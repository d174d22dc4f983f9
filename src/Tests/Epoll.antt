-- ===== src/Tests/Epoll.antt =====
-- The epoll server on a system that gives what is asked for.
use study_notes.Base.{
  ℕ, ◌-◌, ◌<◌, ◌≤◌, ◌≡◌, ◌≢◌, refl, sym, Bool, true, false, some, List, [], ◌∷◌, ◌++◌, arith,
  length, take, drop, take-append-drop, length-take,
}
use study_notes.Epoll.{Kernel, Received, bytes, eof, again, malformed, epoll_et_loop}
use study_notes.Epoll.Edge.{Serves, Drained, epoll_et_loop-Drained}

-- One connection, its end, a listening socket's queue, whether its address may be used again, the
-- address and port that are bound last, and whether the socket listens.
record World : Type 0 where
  bytes_left : List ℕ
  shut : Bool
  waiting : ℕ
  reuse : Bool
  bound : ℕ × ℕ
  listening : Bool

abbrev after_bytes : Bool → Received
after_bytes true = eof
after_bytes false = again

abbrev take_bytes : World → List ℕ → ℕ → Received × World
take_bytes w [] n = (after_bytes w.shut, w)
take_bytes w (x ∷ xs) n = (bytes (take n (x ∷ xs)), record w { bytes_left = drop n (x ∷ xs) })

abbrev world : Kernel World
world = record {
  recv = λ w fd n. take_bytes w w.bytes_left n;
  close_fd = λ w fd. w;
  accept = λ w fd. (some 9, record w { waiting = w.waiting - 1 });
  set_nonblock = λ w fd. w;
  epoll_add = λ w e fd et. w;
  inet_pton = λ ip. malformed;
  socket = λ w. (some 3, w);
  set_reuse = λ w fd. (true, record w { reuse = true });
  bind = λ w fd addr port. (true, record w { bound = (addr, port) });
  listen = λ w fd n. (true, record w { listening = true });
}

abbrev left : World → ℕ → List ℕ
left w fd = w.bytes_left

abbrev is_shut : World → ℕ → Bool
is_shut w fd = w.shut

take_bytes-some :
    (w : World) (xs : List ℕ) (n : ℕ)
    → 0 < n
    → xs ≢ []
    → (b : List ℕ) × ((take_bytes w xs n).0 ≡ bytes b)
      × (0 < length b)
      × (length b ≤ n)
      × (xs ≡ b ++ (take_bytes w xs n).1.bytes_left)
take_bytes-some w [] n room nonempty = ground (arith, nonempty refl)
take_bytes-some w (x ∷ xs) n room nonempty = (
  take n (x ∷ xs),
  refl,
  ground (arith, length-take n (x ∷ xs), room),
  ground (arith, length-take n (x ∷ xs)),
  sym (take-append-drop n (x ∷ xs)),
)

take_bytes-shut : (w : World) (xs : List ℕ) (n : ℕ) → (take_bytes w xs n).1.shut ≡ w.shut
take_bytes-shut w [] n = refl
take_bytes-shut w (x ∷ xs) n = refl

take_bytes-eof :
    (w : World) (xs : List ℕ) (n : ℕ) → xs ≡ [] → w.shut ≡ true → (take_bytes w xs n).0 ≡ eof
take_bytes-eof w [] n none_left shut = ground (arith, shut)
take_bytes-eof w (x ∷ xs) n none_left shut = ground (arith, none_left)

take_bytes-again :
    (w : World) (n : ℕ)
    → w.bytes_left ≡ []
    → w.shut ≡ false
    → ((take_bytes w w.bytes_left n).0 ≡ again) × ((take_bytes w w.bytes_left n).1.bytes_left ≡ [])
take_bytes-again w n none_left not_shut = ground (arith, none_left, not_shut)

world-Serves : Serves world left is_shut
world-Serves = record {
  recv_bytes = λ w fd n room nonempty. take_bytes-some w w.bytes_left n room nonempty;
  recv_ended = λ w fd n. take_bytes-shut w w.bytes_left n;
  recv_eof = λ w fd n room none_left shut. take_bytes-eof w w.bytes_left n none_left shut;
  recv_again = λ w fd n room none_left not_shut. take_bytes-again w n none_left not_shut;
}

abbrev reuses : World → ℕ → Bool
reuses w fd = w.reuse

abbrev bound_to : World → ℕ → ℕ × ℕ
bound_to w fd = w.bound

abbrev is_listening : World → ℕ → Bool
is_listening w fd = w.listening

-- `helloworld` and a line feed.
abbrev hello : World
hello = record {
  bytes_left = 104 ∷ 101 ∷ 108 ∷ 108 ∷ 111 ∷ 119 ∷ 111 ∷ 114 ∷ 108 ∷ 100 ∷ 10 ∷ [];
  shut = false;
  waiting = 2;
  reuse = false;
  bound = (7, 0);
  listening = false;
}

epoll_et_loop-Drained_example : Drained world left is_shut hello 5 (epoll_et_loop world 12 hello 5)
epoll_et_loop-Drained_example =
    epoll_et_loop-Drained world left is_shut world-Serves 12 hello 5 (omega arith)
