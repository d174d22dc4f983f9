-- ===== src/Http/Call.antt =====
-- Languages/cpp/0_libuv/learn_uv/uv_http_req/http_request_call.h and http_request_call.cpp: a call
-- from the resolving of its host to the closing of its connection. libuv's callbacks are steps; what
-- the parser calls back for the bytes of a read is an argument.
use study_notes.Base.{
  ℕ, zero, suc, ◌+◌, ◌==◌, ltb, Bool, true, false, Option, none, some, List, [], ◌∷◌, ◌++◌, ◌≡◌,
  if◌then◌else◌,
}
use study_notes.Base.Int.{ℤ, pos, negsuc}

-- The callback that the call waits for: none before `send` and where it gives up.
pub data Phase : Type 0 where
  idle resolving connecting writing reading closed given_up : Phase

-- What `http_parser_execute` calls back: `on_body`, `on_message_complete`, or another callback,
-- which does nothing.
pub data ParserEvent : Type 0 where
  body : List ℕ → ParserEvent
  message_complete : ℕ → ParserEvent
  other : ParserEvent

-- The second argument of `receive_response`: negative, 0, or the bytes, for the parser.
pub data Nread : Type 0 where
  failed nothing : Nread
  bytes : List ParserEvent → Nread

-- `HttpRequestCall`. `written` is the buffer that is written, `freed` and `closes` count the calls
-- of `free` for the message and of `uv_close` for the connection, `statuses` has the arguments of
-- `on_message_complete`.
pub record Call : Type 0 where
  pub phase : Phase
  pub chunk_size : ℕ
  pub message_to_send : Option (List ℕ)
  pub handle_to_close : Bool
  pub response_buffer : List ℕ
  pub statuses : List ℕ
  pub written : List ℕ
  pub freed : ℕ
  pub closes : ℕ

-- The constructor.
abbrev pub new_call : ℕ → Call
new_call chunk_size = record {
  phase = idle;
  chunk_size = chunk_size;
  message_to_send = none;
  handle_to_close = false;
  response_buffer = [];
  statuses = [];
  written = [];
  freed = 0;
  closes = 0;
}

-- What `strcpy` and `strlen` take of a text.
unfoldable pub c_string : List ℕ → List ℕ
c_string [] = []
c_string (c ∷ cs) = if c == 0 then [] else c ∷ c_string cs

-- `send` of a request with a method, by its text, or without one; the first argument is whether
-- `uv_getaddrinfo` starts, which the code does not ask.
unfoldable pub send : Bool → Call → Option (List ℕ) → Call
send started c none = c
send started c (some text) = record c {
  message_to_send = some (c_string text);
  phase = if started then resolving else given_up;
}

-- `on_dns_resolved` with `send_request_to_ip4`.
unfoldable pub on_dns_resolved : Call → ℤ → Call
on_dns_resolved c (negsuc n) = record c { phase = given_up }
on_dns_resolved c (pos n) = record c { phase = connecting }

abbrev pub buffer : Option (List ℕ) → List ℕ
buffer none = []
buffer (some text) = c_string text

-- `on_connect`: -1 is the only status that it takes for an error.
unfoldable pub on_connect : Call → ℤ → Call
on_connect c (negsuc zero) = record c { phase = given_up }
on_connect c (negsuc (suc n)) = record c { phase = writing; written = buffer c.message_to_send }
on_connect c (pos n) = record c { phase = writing; written = buffer c.message_to_send }

-- `uv_close`: no callback but that of the closing comes behind it.
unfoldable pub uv_close : Call → Call
uv_close c = record c { phase = closed; closes = c.closes + 1 }

-- `after_write`; the connection is not closing, since nothing has closed it.
unfoldable pub after_write : Call → ℤ → Call
after_write c (pos zero) = record c { message_to_send = none; freed = c.freed + 1; phase = reading }
after_write c (pos (suc n)) = uv_close (record c { message_to_send = none; freed = c.freed + 1 })
after_write c (negsuc n) = uv_close (record c { message_to_send = none; freed = c.freed + 1 })

-- `on_body`.
abbrev pub on_body : Call → List ℕ → Call
on_body c p = record c { response_buffer = c.response_buffer ++ p }

-- The status is given to `on_message_complete`.
abbrev pub on_message_complete : Call → ℕ → Call
on_message_complete c status = record c { statuses = c.statuses ++ status ∷ [] }

abbrev pub close_once : Bool → Call → Call
close_once true c = record (uv_close c) { handle_to_close = false }
close_once false c = c

-- `_on_body_cb` and `_on_message_complete_cb`; the other callbacks do nothing.
unfoldable pub parser_callback : Call → ParserEvent → Call
parser_callback c (body p) = on_body c p
parser_callback c (message_complete status) =
    on_message_complete (close_once c.handle_to_close c) status
parser_callback c other = c

-- `http_parser_execute`.
unfoldable pub execute : Call → List ParserEvent → Call
execute c [] = c
execute c (e ∷ es) = execute (parser_callback c e) es

-- `receive_response`.
unfoldable pub receive_response : Call → Nread → Call
receive_response c failed = uv_close c
receive_response c nothing = uv_close c
receive_response c (bytes events) = execute (record c { handle_to_close = true }) events

-- `alloc_buffer`: the size of the buffer for the next read.
unfoldable pub alloc_buffer : Call → ℕ → ℕ
alloc_buffer c suggested_size = if ltb 0 c.chunk_size then c.chunk_size else suggested_size

-- Each callback comes where the call waits for it.
pub data Step (c : Call) : Call → Type 0 where
  resolved : (status : ℤ) → c.phase ≡ resolving → Step c (on_dns_resolved c status)
  connected : (status : ℤ) → c.phase ≡ connecting → Step c (on_connect c status)
  done : (status : ℤ) → c.phase ≡ writing → Step c (after_write c status)
  received : (nread : Nread) → c.phase ≡ reading → Step c (receive_response c nread)

-- The states that a call reaches from its start with a text.
pub data Reach (chunk_size : ℕ) (text : List ℕ) : Call → Type 0 where
  sent : (started : Bool) → Reach chunk_size text (send started (new_call chunk_size) (some text))
  later : {c d : Call} → Reach chunk_size text c → Step c d → Reach chunk_size text d
