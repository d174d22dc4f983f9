-- ===== src/Curl.antt =====
-- Languages/cpp/0_libuv/uv_curl_wrapper/curl_httpclient.hpp: curl's transfers in a libuv loop. An
-- easy handle is a number; what curl calls back, and the messages that it has, are arguments.
pub mod History
pub mod Callbacks
pub mod Sockets
use study_notes.Base.{
  ℕ, zero, suc, ◌+◌, ◌%◌, ◌^◌, ◌==◌, Bool, true, false, ◌||◌, Option, none, some, List, [], ◌∷◌,
  ◌++◌, if◌then◌else◌,
}
use study_notes.Base.Int.{ℤ, pos, negsuc}

-- `curl_req_t`, whose `err_code` nothing sets or reads.
pub record CurlReq : Type 0 where
  pub reqid : ℕ
  pub buffer : List ℕ

-- The timer, with its timeout where it is started.
pub data Timer : Type 0 where
  missing stopped : Timer
  started : ℕ → Timer

-- The arguments of the callback of the owner.
pub record Called : Type 0 where
  pub status : ℕ
  pub msg : List ℕ
  pub reqid : ℕ

-- `CurlHttpClient`: `transfers` are the handles in the multi handle with their private data,
-- `contexts` the sockets of the contexts that are allocated, `assigned` those that have one in the
-- multi handle, `events` what their poll handles are started with.
pub record Client : Type 0 where
  pub m_reqid : ℕ
  pub has_cb : Bool
  pub timer : Timer
  pub has_multi : Bool
  pub transfers : List (ℕ × CurlReq)
  pub called : List Called
  pub contexts : List ℕ
  pub assigned : ℕ → Bool
  pub events : ℕ → Option (Bool × Bool)

-- The constructor.
abbrev pub new_client : Client
new_client = record {
  m_reqid = 0;
  has_cb = false;
  timer = missing;
  has_multi = false;
  transfers = [];
  called = [];
  contexts = [];
  assigned = λ s. false;
  events = λ s. none;
}

abbrev pub with_timer : Timer → Timer
with_timer missing = stopped
with_timer stopped = stopped
with_timer (started n) = started n

-- `StartPoll` with a callback, for the results of `curl_global_init` and of `malloc`: whether it
-- returns 0, and the client.
unfoldable pub start_poll : Bool → Bool → Client → Bool × Client
start_poll inits allocates c =
    let given = record c { has_cb = true } in
    if inits
    then (elim c.timer [
      | missing ↦
          if allocates
          then (true, record given { timer = stopped; has_multi = true })
          else (false, given)
      | stopped ↦ (true, record given { has_multi = true })
      | started n ↦ (true, record given { has_multi = true })
    ])
    else (false, given)

abbrev pub stop_timer : Timer → Timer
stop_timer missing = missing
stop_timer stopped = stopped
stop_timer (started n) = stopped

-- `StopPoll`.
unfoldable pub stop_poll : Client → Client
stop_poll c = record c { timer = stop_timer c.timer }

-- `SendGet` with the handle that `curl_easy_init` gives: the client, and the number of the request.
unfoldable pub send_get : Client → ℕ → Client × ℕ
send_get c handle =
    let next = (c.m_reqid + 1) % 2 ^ 64 in
    (
      record c {
        m_reqid = next;
        transfers = (handle, record { reqid = next; buffer = [] }) ∷ c.transfers;
      },
      next,
    )

abbrev pub find_req : ℕ → List (ℕ × CurlReq) → Option CurlReq
find_req h [] = none
find_req h ((k, r) ∷ ts) = if k == h then some r else find_req h ts

abbrev pub append_to : ℕ → List ℕ → List (ℕ × CurlReq) → List (ℕ × CurlReq)
append_to h buf [] = []
append_to h buf ((k, r) ∷ ts) =
    (k, (if k == h then record r { buffer = r.buffer ++ buf } else r)) ∷ append_to h buf ts

abbrev pub remove_handle : ℕ → List (ℕ × CurlReq) → List (ℕ × CurlReq)
remove_handle h [] = []
remove_handle h ((k, r) ∷ ts) =
    let rest = remove_handle h ts in if k == h then rest else (k, r) ∷ rest

-- `callback_get_head`.
unfoldable pub callback_get_head : Client → ℕ → List ℕ → Client
callback_get_head c handle [] = c
callback_get_head c handle (b ∷ buf) = record c {
  transfers = append_to handle (b ∷ buf) c.transfers;
}

-- A message of `curl_multi_info_read`: CURLMSG_DONE with its handle and its result, where 0 is
-- CURLE_OK, or another one.
pub data Message : Type 0 where
  done : ℕ → ℕ → Message
  default : Message

-- The callback, with the buffer or, for a failure, the text of the error.
abbrev pub reported : (ℕ → List ℕ) → ℕ → CurlReq → Called
reported strerror rc r = record {
  status = rc;
  msg = if rc == 0 then r.buffer else strerror rc;
  reqid = r.reqid;
}

abbrev pub call_back : Client → Called → Client
call_back c call = if c.has_cb then record c { called = c.called ++ call ∷ [] } else c

abbrev pub done_with : (ℕ → List ℕ) → Client → ℕ → ℕ → Option CurlReq → Option Client
done_with strerror c handle rc none = none
done_with strerror c handle rc (some r) =
    let c' = call_back c (reported strerror rc r) in
    some (record c' { transfers = remove_handle handle c'.transfers })

-- What `check_multi_info` does with a message; `none` is an assertion that fails.
unfoldable pub check_message : (ℕ → List ℕ) → Client → Message → Option Client
check_message strerror c (done handle rc) =
    done_with strerror c handle rc (find_req handle c.transfers)
check_message strerror c default = some c

abbrev pub next_message : (Client → Option Client) → Option Client → Option Client
next_message go none = none
next_message go (some c) = go c

-- `check_multi_info`.
unfoldable pub check_multi_info : (ℕ → List ℕ) → Client → List Message → Option Client
check_multi_info strerror c [] = some c
check_multi_info strerror c (m ∷ messages) =
    next_message (λ c'. check_multi_info strerror c' messages) (check_message strerror c m)

-- `start_timer`.
unfoldable pub start_timer : Client → ℤ → Client
start_timer c (negsuc n) = record c { timer = stop_timer c.timer }
start_timer c (pos zero) = record c { timer = started 1 }
start_timer c (pos (suc n)) = record c { timer = started (suc n) }

pub data Action : Type 0 where
  poll_in poll_out poll_inout poll_remove poll_none : Action

abbrev pub action_events : Action → Bool × Bool
action_events poll_in = (true, false)
action_events poll_out = (false, true)
action_events poll_inout = (true, true)
action_events _ = (false, false)

abbrev pub update {ℓ} : {A : Type ℓ} → (ℕ → A) → ℕ → A → ℕ → A
update f s a t = if t == s then a else f t

abbrev pub remove_one : ℕ → List ℕ → List ℕ
remove_one s [] = []
remove_one s (t ∷ ts) = let rest = remove_one s ts in if t == s then ts else t ∷ rest

-- `create_curl_context` where `socketp` is NULL, `curl_multi_assign` and `uv_poll_start`.
abbrev pub poll_socket : Client → ℕ → Action → Bool → Client
poll_socket c s action socketp = record c {
  contexts = if socketp then c.contexts else s ∷ c.contexts;
  assigned = update c.assigned s true;
  events = update c.events s (some (action_events action));
}

-- `handle_socket`; `none` is `abort`.
unfoldable pub handle_socket : Client → ℕ → Action → Bool → Option Client
handle_socket c s poll_in socketp = some (poll_socket c s poll_in socketp)
handle_socket c s poll_out socketp = some (poll_socket c s poll_out socketp)
handle_socket c s poll_inout socketp = some (poll_socket c s poll_inout socketp)
handle_socket c s poll_remove socketp = some (
    if socketp
    then record c {
      contexts = remove_one s c.contexts;
      assigned = update c.assigned s false;
      events = update c.events s none;
    }
    else c)
handle_socket c s poll_none socketp = none

-- `curl_multi_socket_action`, for a socket with its flags or, without a socket, for the timeout:
-- what it makes of the client by its callbacks, and the messages that there are then.
abbrev pub SocketAction : Type 0
SocketAction = Client → Option (ℕ × (Bool × Bool)) → Client × List Message

abbrev pub handle_messages : (ℕ → List ℕ) → Client × List Message → Option Client
handle_messages strerror (c, messages) = check_multi_info strerror c messages

-- `curl_perform`: the status is not used.
unfoldable pub curl_perform :
    SocketAction → (ℕ → List ℕ) → Client → ℕ → ℤ → Bool × Bool → Option Client
curl_perform socket_action strerror c s status events =
    handle_messages strerror (socket_action c (some (s, events)))

-- `on_timer_cb`.
unfoldable pub on_timer_cb : SocketAction → (ℕ → List ℕ) → Client → Option Client
on_timer_cb socket_action strerror c = handle_messages strerror (socket_action c none)

-- The destructor: what is left of the client.
unfoldable pub destroy : Client → Client
destroy c = record c { timer = missing; has_multi = false }
