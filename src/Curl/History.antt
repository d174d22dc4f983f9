-- ===== src/Curl/History.antt =====
-- What happens to a client, and what its owner is to be called back with.
use study_notes.Base.{
  ℕ, ◌+◌, ◌%◌, ◌^◌, ◌≡◌, ◌==◌, Bool, true, false, Option, none, some, List, [], ◌∷◌, ◌++◌,
  if◌then◌else◌,
}
use study_notes.Curl.{
  CurlReq, Called, Client, new_client, start_poll, send_get, callback_get_head, done,
  check_multi_info,
}

-- A request that is sent with a handle, bytes that come in for one, and the end of one with its
-- result.
pub data Event : Type 0 where
  get : ℕ → Event
  chunk : ℕ → List ℕ → Event
  end : ℕ → ℕ → Event

-- Of the events up to now, the last one first: whether a handle is in use, the number of the last
-- request that was sent with it, and the bytes that came in for that request.
abbrev pub active : ℕ → List Event → Bool
active h [] = false
active h (get k ∷ past) = if k == h then true else active h past
active h (chunk k b ∷ past) = active h past
active h (end k rc ∷ past) = if k == h then false else active h past

abbrev pub gets : List Event → ℕ
gets [] = 0
gets (get k ∷ past) = (gets past + 1) % 2 ^ 64
gets (chunk k b ∷ past) = gets past
gets (end k rc ∷ past) = gets past

abbrev pub number : ℕ → List Event → ℕ
number h [] = 0
number h (get k ∷ past) = if k == h then (gets past + 1) % 2 ^ 64 else number h past
number h (chunk k b ∷ past) = number h past
number h (end k rc ∷ past) = number h past

abbrev pub content : ℕ → List Event → List ℕ
content h [] = []
content h (get k ∷ past) = if k == h then [] else content h past
content h (chunk k b ∷ past) = if k == h then content h past ++ b else content h past
content h (end k rc ∷ past) = content h past

-- The calls that the owner gets, from the events alone.
abbrev pub expected : (ℕ → List ℕ) → List Event → List Called
expected strerror [] = []
expected strerror (get k ∷ past) = expected strerror past
expected strerror (chunk k b ∷ past) = expected strerror past
expected strerror (end k rc ∷ past) =
    expected strerror past
    ++ record {
      status = rc;
      msg = if rc == 0 then content k past else strerror rc;
      reqid = number k past;
    }
      ∷ []

-- A handle is not given again while it is in use, and curl tells of handles that are in use only.
abbrev pub Possible : List Event → Type 0
Possible [] = Unit
Possible (get k ∷ past) = (active k past ≡ false) × Possible past
Possible (chunk k b ∷ past) = (active k past ≡ true) × Possible past
Possible (end k rc ∷ past) = (active k past ≡ true) × Possible past

abbrev pub and_then : (Client → Option Client) → Option Client → Option Client
and_then go none = none
and_then go (some c) = go c

-- The client behind the events.
unfoldable pub run : (ℕ → List ℕ) → Client → List Event → Option Client
run strerror c [] = some c
run strerror c (get k ∷ past) = and_then (λ d. some (send_get d k).0) (run strerror c past)
run strerror c (chunk k b ∷ past) =
    and_then (λ d. some (callback_get_head d k b)) (run strerror c past)
run strerror c (end k rc ∷ past) =
    and_then (λ d. check_multi_info strerror d (done k rc ∷ [])) (run strerror c past)

-- The request of a handle, from the events alone.
abbrev pub request : ℕ → List Event → Option CurlReq
request h past =
    if active h past then some record { reqid = number h past; buffer = content h past } else none

-- The client that is started.
abbrev pub started_client : Client
started_client = (start_poll true true new_client).1
