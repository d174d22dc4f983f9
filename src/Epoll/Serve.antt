-- ===== src/Epoll/Serve.antt =====
-- `main` of IO/epoll_lt_et.c: the listening socket, and the loop that waits for events.
use study_notes.Base.{ℕ, Option, none, some, List, [], ◌∷◌}
use study_notes.Epoll.{
  Kernel, Event, epoll_et, fd_nonblock, Done, polled, addfd_to_epoll, printed_first, process_next,
  epoll_process, create_socket,
}

module _ {S : Type 0} (sys : Kernel S) where
  -- The loop, for the results of `epoll_wait` one after the other, `none` where one is -1, which
  -- ends the program; behind each a line is printed. The fuel is for each of the loops that read a connection.
  unfoldable pub serve : ℕ → S → ℕ → List (Option (List Event)) → ℕ → Done S
  serve fuel s epoll_fd [] sockfd = some (s, [])
  serve fuel s epoll_fd (none ∷ results) sockfd = some (s, [])
  serve fuel s epoll_fd (some events ∷ results) sockfd =
      process_next sys (λ s'. printed_first (polled ∷ []) (serve fuel s' epoll_fd results sockfd))
        (epoll_process sys fuel s epoll_fd events sockfd epoll_et fd_nonblock)

  abbrev pub with_epoll : ℕ → ℕ → List (Option (List Event)) → Option ℕ × S → Done S
  with_epoll fuel sockfd results (none, s) = some (s, [])
  with_epoll fuel sockfd results (some epoll_fd, s) =
      serve fuel (addfd_to_epoll sys s epoll_fd (some sockfd) epoll_et fd_nonblock) epoll_fd results
        sockfd

  abbrev pub with_listener :
      (S → Option ℕ × S) → S → ℕ → List (Option (List Event)) → Option (ℕ × S) → Done S
  with_listener epoll_create1 s fuel results none = some (s, [])
  with_listener epoll_create1 s fuel results (some (sockfd, s')) =
      with_epoll fuel sockfd results (epoll_create1 s')

  -- `main` behind the test of its arguments: `ip` and `port` are the two.
  unfoldable pub run_server :
      (S → Option ℕ × S) → ℕ → S → List ℕ → ℕ → List (Option (List Event)) → Done S
  run_server epoll_create1 fuel s ip port results =
      with_listener epoll_create1 s fuel results (create_socket sys s ip port)
