-- ===== src/Curl/Sockets.antt =====
-- The contexts of the sockets.
use mathlib.Core.Path.{subst}
use study_notes.Base.{
  ℕ, ◌+◌, ◌-◌, ◌≡◌, ◌==◌, ==_iff, refl, sym, ap, ◌∙◌, inl, inr, Bool-cases, Bool, true, false,
  Option, none, some, List, [], ◌∷◌, arith, if◌then◌else◌,
}
use study_notes.Curl.{
  Client, new_client, Action, poll_in, poll_out, poll_inout, poll_remove, poll_none, action_events,
  update, remove_one, poll_socket, handle_socket,
}

abbrev pub count : ℕ → List ℕ → ℕ
count s [] = 0
count s (t ∷ ts) = (if t == s then 1 else 0) + count s ts

-- An action on a socket, but CURL_POLL_NONE.
pub record Asked : Type 0 where
  pub socket : ℕ
  pub action : Action

abbrev pub IsPoll : Action → Type 0
IsPoll poll_none = ⊥
IsPoll _ = Unit

abbrev pub ArePolls : List Asked → Type 0
ArePolls [] = Unit
ArePolls (a ∷ asked) = IsPoll a.action × ArePolls asked

abbrev pub after : (Client → Option Client) → Option Client → Option Client
after go none = none
after go (some c) = go c

-- What curl asks of the sockets, one after the other: `socketp` is what is assigned to the socket.
unfoldable pub ask : Client → List Asked → Option Client
ask c [] = some c
ask c (a ∷ asked) =
    after (λ d. ask d asked) (handle_socket c a.socket a.action (c.assigned a.socket))

abbrev pub Events : Type 0
Events = Option (Bool × Bool)

abbrev pub is_some : Events → Bool
is_some none = false
is_some (some e) = true

abbrev pub wanted_by : Action → Events
wanted_by poll_remove = none
wanted_by action = some (action_events action)

-- What curl wants of the socket: what it asked for last, or what was wanted before.
abbrev pub wanted : ℕ → List Asked → Events → Events
wanted s [] before = before
wanted s (a ∷ asked) before = wanted s asked (if a.socket == s then wanted_by a.action else before)

-- For every socket: what it is polled for is wanted, and it has one context where something is
-- wanted, and none otherwise.
pub record Owned (c : Client) (w : ℕ → Events) : Type 0 where
  pub polled : (s : ℕ) → c.events s ≡ w s
  pub given : (s : ℕ) → c.assigned s ≡ is_some (w s)
  pub one_each : (s : ℕ) → count s c.contexts ≡ (if is_some (w s) then 1 else 0)

remove_one-count :
    (s t : ℕ) (ts : List ℕ)
    → count t (remove_one s ts) ≡ (if s == t then count t ts - 1 else count t ts)
remove_one-count s t [] = ground (arith)
remove_one-count s t (u ∷ ts) =
    ground (arith, remove_one-count s t ts, ==_iff u s, ==_iff u t, ==_iff s t)

-- What is wanted behind an action.
abbrev next_wanted : (ℕ → Events) → ℕ → Action → ℕ → Events
next_wanted w t action s = if t == s then wanted_by action else w s

poll_socket-Owned :
    (c : Client) (w : ℕ → Events) (t : ℕ) (action : Action)
    → wanted_by action ≡ some (action_events action)
    → Owned c w
    → Owned (poll_socket c t action (c.assigned t)) (next_wanted w t action)
poll_socket-Owned c w t action polls o = record {
  polled = λ s. ground (arith, polls, o.polled s, ==_iff t s, ==_iff s t);
  given = λ s. ground (arith, polls, o.given s, ==_iff t s, ==_iff s t);
  one_each = λ s. ground (arith, polls, o.one_each s, o.given t, o.given s, ==_iff t s, ==_iff s t);
}

-- `handle_socket` behind an action returns, with what is wanted then.
abbrev Handled : Client → (ℕ → Events) → ℕ → Action → Type 0
Handled c w t action =
    (d : Client) × (handle_socket c t action (c.assigned t) ≡ some d)
    × Owned d (next_wanted w t action)

removed : Client → ℕ → Client
removed c t = record c {
  contexts = remove_one t c.contexts;
  assigned = update c.assigned t false;
  events = update c.events t none;
}

abbrev after_remove : Client → ℕ → Bool → Client
after_remove c t b = if b then removed c t else c

after_remove-Owned :
    (c : Client) (w : ℕ → Events) (t : ℕ)
    → Owned c w
    → Owned (after_remove c t (c.assigned t)) (next_wanted w t poll_remove)
unfolding removed
after_remove-Owned c w t o = elim (Bool-cases (c.assigned t)) [
  | inl there ↦
      subst (λ b. Owned (after_remove c t b) (next_wanted w t poll_remove)) (sym there)
        record {
          polled = λ s. ground (arith, o.polled s, ==_iff t s, ==_iff s t);
          given = λ s. ground (arith, o.given s, ==_iff t s, ==_iff s t);
          one_each = λ s. ground (
            arith,
            remove_one-count t s c.contexts,
            o.one_each s,
            o.given t,
            o.given s,
            there,
            ==_iff t s,
            ==_iff s t,
          );
        }
  | inr missing ↦
      subst (λ b. Owned (after_remove c t b) (next_wanted w t poll_remove)) (sym missing)
        record {
          polled = λ s. ground (arith, o.polled s, o.given t, missing, ==_iff t s, ==_iff s t);
          given = λ s. ground (arith, o.given s, o.given t, missing, ==_iff t s, ==_iff s t);
          one_each = λ s.
              ground (arith, o.one_each s, o.given t, o.given s, missing, ==_iff t s, ==_iff s t);
        }
]

handle_socket-Handled :
    (c : Client) (w : ℕ → Events) (t : ℕ) (action : Action)
    → IsPoll action
    → Owned c w
    → Handled c w t action
unfolding handle_socket removed
handle_socket-Handled c w t poll_in ok o =
    (poll_socket c t poll_in (c.assigned t), refl, poll_socket-Owned c w t poll_in refl o)
handle_socket-Handled c w t poll_out ok o =
    (poll_socket c t poll_out (c.assigned t), refl, poll_socket-Owned c w t poll_out refl o)
handle_socket-Handled c w t poll_inout ok o =
    (poll_socket c t poll_inout (c.assigned t), refl, poll_socket-Owned c w t poll_inout refl o)
handle_socket-Handled c w t poll_remove ok o =
    (after_remove c t (c.assigned t), refl, after_remove-Owned c w t o)
handle_socket-Handled c w t poll_none ok o = elim ok [ ]

ask-Owned :
    (c : Client) (w : ℕ → Events) (asked : List Asked)
    → ArePolls asked
    → Owned c w
    → (d : Client) × (ask c asked ≡ some d) × Owned d (λ s. wanted s asked (w s))
unfolding ask
ask-Owned c w [] ok o = (c, refl, o)
ask-Owned c w (a ∷ asked) (ok, oks) o =
    let (d, returns, owned) = handle_socket-Handled c w a.socket a.action ok o in
    let (e, goes_on, still) = ask-Owned d (next_wanted w a.socket a.action) asked oks owned in
    (e, ap (after (λ x. ask x asked)) returns ∙ goes_on, still)

-- Whatever curl asks of the sockets, but CURL_POLL_NONE, where it hands over what is assigned to a
-- socket: handle_socket never aborts, and then every socket is polled for what curl asked for last,
-- and has exactly one context where that is reading or writing, and none where it was removed or
-- never asked for.
pub ask-wanted :
    (asked : List Asked) (s : ℕ)
    → ArePolls asked
    → (d : Client) × (ask new_client asked ≡ some d)
      × (d.events s ≡ wanted s asked none)
      × (count s d.contexts ≡ (if is_some (wanted s asked none) then 1 else 0))
ask-wanted asked s ok =
    let start : Owned new_client (λ t. none) = record {
      polled = λ t. refl;
      given = λ t. refl;
      one_each = λ t. refl;
    } in
    let (d, returns, o) = ask-Owned new_client (λ t. none) asked ok start in
    (d, returns, o.polled s, o.one_each s)
