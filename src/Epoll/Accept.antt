-- ===== src/Epoll/Accept.antt =====
-- The listening socket, and where it listens.
use study_notes.Base.{ℕ, ◌≡◌, Bool, true, Option, none, some}
use study_notes.Epoll.{Kernel, Pton, parsed, malformed, unsupported}

-- Sockets are made, their addresses may be used again once that is set, and they are bound to the
-- address and port that `bind` is called with, and listen once `listen` is called.
pub record Listens {S : Type 0} (sys : Kernel S) (reuses : S → ℕ → Bool) (bound : S → ℕ → ℕ × ℕ)
    (is_listening : S → ℕ → Bool) : Type 0 where
  pub socket_made : (s : S) → (fd : ℕ) × ((sys.socket s).0 ≡ some fd)
  pub reuse_set :
      (s : S) (fd : ℕ) → ((sys.set_reuse s fd).0 ≡ true) × (reuses (sys.set_reuse s fd).1 fd ≡ true)
  pub bind_bound :
      (s : S) (fd addr port : ℕ)
      → ((sys.bind s fd addr port).0 ≡ true)
        × (bound (sys.bind s fd addr port).1 fd ≡ (addr, port))
        × (reuses (sys.bind s fd addr port).1 fd ≡ reuses s fd)
  pub listen_keeps :
      (s : S) (fd n : ℕ)
      → ((sys.listen s fd n).0 ≡ true)
        × (is_listening (sys.listen s fd n).1 fd ≡ true)
        × (bound (sys.listen s fd n).1 fd ≡ bound s fd)
        × (reuses (sys.listen s fd n).1 fd ≡ reuses s fd)

module _ {S : Type 0} (sys : Kernel S) where
  module _ (reuses : S → ℕ → Bool) (bound : S → ℕ → ℕ × ℕ) (is_listening : S → ℕ → Bool) where
    -- `create_socket` returns a socket that listens at an address and a port, which may be used
    -- again.
    abbrev pub At : ℕ → ℕ → Option (ℕ × S) → Type 0
    At a port result =
        (sockfd : ℕ) × (s' : S) × (result ≡ some (sockfd, s'))
        × (bound s' sockfd ≡ (a, port))
        × (is_listening s' sockfd ≡ true)
        × (reuses s' sockfd ≡ true)

    -- What is returned for the result of `inet_pton`.
    abbrev pub Outcome : Pton → ℕ → Option (ℕ × S) → Type 0
    Outcome (parsed a) port result = At a port result
    Outcome malformed port result = At 0 port result
    Outcome unsupported port result = result ≡ none
