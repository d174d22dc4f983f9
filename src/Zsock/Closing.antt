-- ===== src/Zsock/Closing.antt =====
-- The four handles are closed in any order.
use study_notes.Base.{
  ℕ, ◌+◌, ◌≡◌, refl, Bool, true, false, ◌&&◌, List, [], ◌∷◌, arith, if◌then◌else◌,
}
use study_notes.Zsock.{
  Handle, prepare, check, idle, poll, Zsock, same_handle, set, close_cb, close, init,
}

-- The calls of `close_cb` as libuv calls back for one handle after the other.
unfoldable pub closings : Zsock → List Handle → ℕ
unfolding close_cb
closings wz [] = 0
closings wz (h ∷ hs) =
    let (wz', called) = close_cb wz h in (if called then 1 else 0) + closings wz' hs

abbrev pub times : Handle → List Handle → ℕ
times h [] = 0
times h (g ∷ hs) = (if same_handle h g then 1 else 0) + times h hs

-- The handles of the list are those that are not closed, each once.
abbrev Remaining : Zsock → List Handle → Type 0
Remaining wz hs = (h : Handle) → times h hs ≡ (if wz.closed h then 0 else 1)

same_handle_self : (h : Handle) → same_handle h h ≡ true
same_handle_self prepare = refl
same_handle_self check = refl
same_handle_self idle = refl
same_handle_self poll = refl

-- The next handle of the list is still open.
still_open :
    (wz : Zsock) (h g : Handle) (hs : List Handle)
    → Remaining wz (h ∷ g ∷ hs)
    → set wz.closed h true g ≡ false
still_open wz h g hs r = ground (arith, r h, r g, same_handle_self h, same_handle_self g)

one_open :
    (f : Handle → Bool) (b : Bool) (g : Handle)
    → f g ≡ false
    → f prepare && f check && f idle && f poll && b ≡ false
one_open f b prepare e = ground (arith, e)
one_open f b check e = ground (arith, e)
one_open f b idle e = ground (arith, e)
one_open f b poll e = ground (arith, e)

all_closed : (wz : Zsock) (h g : Handle) → Remaining wz (h ∷ []) → set wz.closed h true g ≡ true
all_closed wz h g r = ground (arith, r g)

Remaining-next :
    (wz : Zsock) (h : Handle) (hs : List Handle)
    → Remaining wz (h ∷ hs)
    → Remaining (record wz { closed = set wz.closed h true }) hs
Remaining-next wz h hs r g = ground (arith, r g)

closings-cons :
    (wz : Zsock) (h : Handle) (hs : List Handle)
    → closings wz (h ∷ hs)
      ≡ (if (close_cb wz h).1 then 1 else 0)
        + closings (record wz { closed = set wz.closed h true }) hs
unfolding closings close_cb
closings-cons wz h hs = refl

close_cb-one_open :
    (wz : Zsock) (h g : Handle) → set wz.closed h true g ≡ false → (close_cb wz h).1 ≡ false
unfolding close_cb
close_cb-one_open wz h g e = one_open (set wz.closed h true) wz.has_close_cb g e

close_cb-last :
    (wz : Zsock) (h : Handle)
    → wz.has_close_cb ≡ true
    → Remaining wz (h ∷ [])
    → (close_cb wz h).1 ≡ true
unfolding close_cb
close_cb-last wz h has_cb r = ground (
  arith,
  all_closed wz h prepare r,
  all_closed wz h check r,
  all_closed wz h idle r,
  all_closed wz h poll r,
  has_cb,
)

closings-once :
    (wz : Zsock) (h : Handle) (hs : List Handle)
    → wz.has_close_cb ≡ true
    → Remaining wz (h ∷ hs)
    → closings wz (h ∷ hs) ≡ 1
closings-once wz h [] has_cb r =
    let nil : closings (record wz { closed = set wz.closed h true }) [] ≡ 0 =
      unfold closings in refl in
    ground (arith, closings-cons wz h [], close_cb-last wz h has_cb r, nil)
closings-once wz h (g ∷ hs) has_cb r =
    let not_yet = close_cb-one_open wz h g (still_open wz h g hs r) in
    let rest =
      closings-once (record wz { closed = set wz.closed h true }) g hs has_cb
        (Remaining-next wz h (g ∷ hs) r) in
    ground (arith, closings-cons wz h (g ∷ hs), not_yet, rest)

-- Where libuv calls back for each of the four handles once, in any order, a socket that is closed
-- with a callback has it called exactly once.
pub closings-close :
    (wz : Zsock) (hs : List Handle)
    → ((h : Handle) → times h hs ≡ 1)
    → closings (close (init wz) true) hs ≡ 1
unfolding close init
closings-close wz [] each = ground (arith, each prepare)
closings-close wz (h ∷ hs) each = closings-once (close (init wz) true) h hs refl each
