-- ===== src/Epoll.antt =====
-- IO/epoll_lt_et.c: a server that reads its connections by epoll, by level and by edge. The system
-- calls are a parameter, on a state of their own; a descriptor is `none` where it is -1. The output
-- is what is printed of a connection, for each `recv` its result and the text in the buffer, and how
-- the reading ends; and the line behind each `epoll_wait`.
pub mod Edge
pub mod Accept
pub mod Serve
use study_notes.Base.{
  ℕ, zero, suc, ◌==◌, Bool, true, false, Option, none, some, List, [], ◌∷◌, ◌++◌, length,
  if◌then◌else◌, ◌%◌, ◌^◌,
}

abbrev pub max_buffer_size : ℕ
max_buffer_size = 5

-- What `recv` returns: more than 0, 0, or -1 with EAGAIN, or with another `errno`.
pub data Received : Type 0 where
  bytes : List ℕ → Received
  eof again failed : Received

-- What `inet_pton` returns: 1 with the address, 0, or -1.
pub data Pton : Type 0 where
  parsed : ℕ → Pton
  malformed unsupported : Pton

pub record Kernel (S : Type 0) : Type 0 where
  pub recv : S → ℕ → ℕ → Received × S
  pub close_fd : S → ℕ → S
  pub accept : S → ℕ → Option ℕ × S
  pub set_nonblock : S → Option ℕ → S
  pub epoll_add : S → ℕ → Option ℕ → Bool → S
  pub inet_pton : List ℕ → Pton
  pub socket : S → Option ℕ × S
  pub set_reuse : S → ℕ → Bool × S
  pub bind : S → ℕ → ℕ → ℕ → Bool × S
  pub listen : S → ℕ → ℕ → Bool × S

pub data Printed : Type 0 where
  received : ℕ → List ℕ → Printed
  client_closed all_read other_event new_connection polled : Printed

-- What `%s` prints of the buffer, which has zeros behind the bytes of `recv`.
unfoldable pub printed_text : List ℕ → List ℕ
printed_text [] = []
printed_text (c ∷ cs) = if c == 0 then [] else c ∷ printed_text cs

pub data EpollType : Type 0 where
  epoll_lt epoll_et : EpollType

pub data BlockType : Type 0 where
  fd_block fd_nonblock : BlockType

pub record Event : Type 0 where
  pub fd : ℕ
  pub readable : Bool

abbrev is_et : EpollType → Bool
is_et epoll_lt = false
is_et epoll_et = true

-- What the processing of a `recv` does with the state and prints.
abbrev pub Done : Type 0 → Type 0
Done S = Option (S × List Printed)

abbrev pub printed_first : {S : Type 0} → List Printed → Done S → Done S
printed_first o none = none
printed_first o (some (s, rest)) = some (s, o ++ rest)

-- `server_addr.sin_addr` behind `inet_pton`: it is 0 before; `none` where the program exits.
abbrev pub server_addr : Pton → Option ℕ
server_addr (parsed a) = some a
server_addr malformed = some 0
server_addr unsupported = none

module _ {S : Type 0} (sys : Kernel S) where
  -- `addfd_to_epoll`.
  unfoldable pub addfd_to_epoll : S → ℕ → Option ℕ → EpollType → BlockType → S
  addfd_to_epoll s epoll_fd fd epoll_type fd_block = sys.epoll_add s epoll_fd fd (is_et epoll_type)
  addfd_to_epoll s epoll_fd fd epoll_type fd_nonblock =
      sys.epoll_add (sys.set_nonblock s fd) epoll_fd fd (is_et epoll_type)

  abbrev pub read_once : ℕ → Received × S → S × List Printed
  read_once sockfd (bytes b, s) = (s, received (length b) (printed_text b) ∷ [])
  read_once sockfd (eof, s) = (sys.close_fd s sockfd, client_closed ∷ [])
  read_once sockfd (again, s) = (sys.close_fd s sockfd, [])
  read_once sockfd (failed, s) = (sys.close_fd s sockfd, [])

  -- `epoll_level_trigger`.
  unfoldable pub epoll_level_trigger : S → ℕ → S × List Printed
  epoll_level_trigger s sockfd = read_once sockfd (sys.recv s sockfd max_buffer_size)

  -- `epoll_et_once`.
  unfoldable pub epoll_et_once : S → ℕ → S × List Printed
  epoll_et_once s sockfd = read_once sockfd (sys.recv s sockfd max_buffer_size)

  -- What `epoll_et_loop` does with a result of `recv`; the function is what goes on.
  abbrev pub et_round : (S → Done S) → ℕ → Received × S → Done S
  et_round next sockfd (bytes b, s) =
      printed_first (received (length b) (printed_text b) ∷ []) (next s)
  et_round next sockfd (eof, s) = some (sys.close_fd s sockfd, client_closed ∷ [])
  et_round next sockfd (again, s) = some (s, all_read ∷ [])
  et_round next sockfd (failed, s) = some (sys.close_fd s sockfd, [])

  -- `epoll_et_loop`, on fuel.
  unfoldable pub epoll_et_loop : ℕ → S → ℕ → Done S
  epoll_et_loop zero s sockfd = none
  epoll_et_loop (suc fuel) s sockfd =
      et_round (λ s'. epoll_et_loop fuel s' sockfd) sockfd (sys.recv s sockfd max_buffer_size)

  abbrev process_readable : EpollType → ℕ → S → ℕ → Done S
  process_readable epoll_lt fuel s newfd = some (epoll_level_trigger s newfd)
  process_readable epoll_et fuel s newfd = epoll_et_loop fuel s newfd

  -- The body of the loop of `epoll_process`.
  unfoldable pub process_event : ℕ → S → ℕ → Event → ℕ → EpollType → BlockType → Done S
  process_event fuel s epollfd event sockfd epoll_type block_type =
      if event.fd == sockfd
      then (let (connfd, s') = sys.accept s sockfd in
          some (addfd_to_epoll s' epollfd connfd epoll_type block_type, new_connection ∷ []))
      else (if event.readable
          then process_readable epoll_type fuel s event.fd
          else some (s, other_event ∷ []))

  abbrev pub process_next : (S → Done S) → Done S → Done S
  process_next next none = none
  process_next next (some (s, o)) = printed_first o (next s)

  -- `epoll_process`: the fuel is for each of the loops that read.
  unfoldable pub epoll_process : ℕ → S → ℕ → List Event → ℕ → EpollType → BlockType → Done S
  epoll_process fuel s epollfd [] sockfd epoll_type block_type = some (s, [])
  epoll_process fuel s epollfd (event ∷ events) sockfd epoll_type block_type =
      process_next (λ s'. epoll_process fuel s' epollfd events sockfd epoll_type block_type)
        (process_event fuel s epollfd event sockfd epoll_type block_type)

  abbrev pub listen_on : ℕ → Bool × S → Option (ℕ × S)
  listen_on sockfd (ok, s) = if ok then some (sockfd, s) else none

  abbrev pub bind_to : ℕ → Bool × S → Option (ℕ × S)
  bind_to sockfd (ok, s) = if ok then listen_on sockfd (sys.listen s sockfd 5) else none

  abbrev pub set_up : ℕ → ℕ → ℕ → Bool × S → Option (ℕ × S)
  set_up addr port_number sockfd (ok, s) =
      if ok then bind_to sockfd (sys.bind s sockfd addr port_number) else none

  abbrev pub with_socket : ℕ → ℕ → Option ℕ × S → Option (ℕ × S)
  with_socket addr port_number (none, s) = none
  with_socket addr port_number (some sockfd, s) =
      set_up addr port_number sockfd (sys.set_reuse s sockfd)

  abbrev pub with_address : S → ℕ → Option ℕ → Option (ℕ × S)
  with_address s port_number none = none
  with_address s port_number (some addr) = with_socket addr port_number (sys.socket s)

  -- `create_socket`: the socket, or `none` where `err_exit` ends the program.
  unfoldable pub create_socket : S → List ℕ → ℕ → Option (ℕ × S)
  create_socket s ip port_number =
      with_address s (port_number % 2 ^ 16) (server_addr (sys.inet_pton ip))
