-- ===== src/Zsock/Wakeup.antt =====
-- The loop does not sleep on an event that ZeroMQ has already reported.
use study_notes.Base.{◌≡◌, false, Option, none, some, arith, if◌then◌else◌}
use study_notes.Zsock.{Events, any_event, idle, Zsock, get_revents, prepare_cb, check_cb, start}

abbrev pub called_with : Events → Option Events
called_with e = if any_event e then some e else none

-- A turn of the loop on a socket that is started: before the loop polls, the idle handle is active
-- exactly where a wanted event is reported, so that the loop does not block; after it, with the
-- same report, the callback is called with the wanted events that are reported, if there are any,
-- and the idle handle is stopped.
check_cb-prepare_cb :
    (wz : Zsock) (events : Events) (zmq : Option Events)
    → wz.active idle ≡ false
    → ((prepare_cb zmq (start wz events)).active idle ≡ any_event (get_revents zmq events))
      × ((check_cb zmq (prepare_cb zmq (start wz events))).1 ≡ called_with (get_revents zmq events))
      × ((check_cb zmq (prepare_cb zmq (start wz events))).0.active idle ≡ false)
unfolding prepare_cb check_cb start
check_cb-prepare_cb wz events zmq quiet =
    (ground (arith, quiet), ground (arith, quiet), ground (arith, quiet))
