-- ===== src/Zsock.antt =====
-- Languages/cpp/0_libuv/uv_zmq/uv_zsock.h and uv_zsock.c: a ZeroMQ socket in a libuv loop. What
-- libuv does with a handle is kept as whether the handle is active; the events that ZeroMQ reports
-- are an argument, `none` where `zmq_getsockopt` fails.
pub mod Wakeup
pub mod Closing
use study_notes.Base.{ℕ, Bool, true, false, not, ◌&&◌, ◌||◌, Option, none, some, if◌then◌else◌}

-- `UV_READABLE` and `UV_WRITABLE`, and ZeroMQ's `ZMQ_POLLIN` and `ZMQ_POLLOUT`.
pub record Events : Type 0 where
  pub readable : Bool
  pub writable : Bool

abbrev pub no_events : Events
no_events = record { readable = false; writable = false }

abbrev pub any_event : Events → Bool
any_event e = e.readable || e.writable

-- The four handles.
pub data Handle : Type 0 where
  prepare check idle poll : Handle

-- `uv_zsock_t`: the wanted events, the active handles, the handles whose `data` is reset, and
-- whether there are callbacks.
pub record Zsock : Type 0 where
  pub has_cb : Bool
  pub events : Events
  pub has_close_cb : Bool
  pub active : Handle → Bool
  pub poll_events : Events
  pub closed : Handle → Bool

abbrev pub same_handle : Handle → Handle → Bool
same_handle prepare prepare = true
same_handle check check = true
same_handle idle idle = true
same_handle poll poll = true
same_handle _ _ = false

abbrev pub set : (Handle → Bool) → Handle → Bool → Handle → Bool
set f h b g = if same_handle g h then b else f g

-- `s_get_revents`.
unfoldable pub get_revents : Option Events → Events → Events
get_revents none events = events
get_revents (some zmq_events) events = record {
  readable = zmq_events.readable && events.readable;
  writable = zmq_events.writable && events.writable;
}

-- `s_prepare_cb`.
unfoldable pub prepare_cb : Option Events → Zsock → Zsock
unfolding get_revents
prepare_cb zmq wz =
    let revents = get_revents zmq wz.events in
    if any_event revents then record wz { active = set wz.active idle true } else wz

-- `s_check_cb`: the socket, and what the callback is called with.
unfoldable pub check_cb : Option Events → Zsock → Zsock × Option Events
unfolding get_revents
check_cb zmq wz =
    let stopped = record wz { active = set wz.active idle false } in
    let revents = get_revents zmq wz.events in
    if any_event revents then (stopped, some revents) else (stopped, none)

-- `uv_zsock_init`: `data` points to the socket in every handle.
unfoldable pub init : Zsock → Zsock
init wz = record wz { has_cb = false; events = no_events; active = λ h. false; closed = λ h. false }

-- `uv_zsock_start`.
unfoldable pub start : Zsock → Events → Zsock
start wz events = record wz {
  has_cb = true;
  events = events;
  active = set (set (set wz.active prepare true) check true) poll true;
  poll_events =
      if any_event events then record { readable = true; writable = false } else no_events;
}

-- `uv_zsock_stop`.
unfoldable pub stop : Zsock → Zsock
stop wz = record wz {
  active = set (set (set (set wz.active prepare false) check false) idle false) poll false;
}

-- `s_close_cb` for a handle: the socket, and whether `close_cb` is called.
unfoldable pub close_cb : Zsock → Handle → Zsock × Bool
close_cb wz h =
    let marked = record wz { closed = set wz.closed h true } in
    (
      marked,
      marked.closed prepare
          && marked.closed check
          && marked.closed idle
          && marked.closed poll
          && wz.has_close_cb,
    )

-- `uv_zsock_close`, with a callback or with NULL; `uv_close` makes a handle inactive.
unfoldable pub close : Zsock → Bool → Zsock
close wz has_cb = record wz { has_close_cb = has_cb; active = λ h. false }
