-- ===== src/Tests/Zsock.antt =====
-- A ZeroMQ socket in the loop, and its closing.
use study_notes.Base.{◌≡◌, refl, true, false, some, List, [], ◌∷◌}
use study_notes.Zsock.{
  Events, no_events, Handle, prepare, check, idle, poll, Zsock, get_revents, init, close,
}
use study_notes.Zsock.Wakeup.{called_with}
use study_notes.Zsock.Closing.{closings, times, closings-close}

abbrev memory : Zsock
memory = record {
  has_cb = true;
  events = no_events;
  has_close_cb = false;
  active = λ h. true;
  poll_events = no_events;
  closed = λ h. true;
}

abbrev input : Events
input = record { readable = true; writable = false }

-- What is reported is written in full.
abbrev both : Events
both = record { readable = true; writable = true }

called : called_with (get_revents (some both) input) ≡ some input
unfolding get_revents
called = refl

-- The handles are closed in another order than they are listed.
abbrev order : List Handle
order = idle ∷ poll ∷ prepare ∷ check ∷ []

order-each : (h : Handle) → times h order ≡ 1
order-each prepare = refl
order-each check = refl
order-each idle = refl
order-each poll = refl

closings-close_example : closings (close (init memory) true) order ≡ 1
closings-close_example = closings-close memory order order-each
