-- ===== src/Curl/Callbacks.antt =====
-- What the owner of a client is called back with.
use study_notes.Base.{
  ℕ, ◌+◌, ◌%◌, ◌^◌, ◌≡◌, ◌==◌, ==_iff, refl, sym, ap, ◌∙◌, Bool, true, false, Option, none, some,
  List, [], ◌∷◌, ◌++◌, append-nil, arith, inl, inr, Bool-cases, if◌then◌else◌,
}
use study_notes.Curl.{
  CurlReq, Called, Client, start_poll, send_get, find_req, append_to, remove_handle,
  callback_get_head, done, reported, check_message, check_multi_info, next_message, done_with,
  call_back,
}
use study_notes.Curl.History.{
  Event, get, chunk, end, active, gets, number, content, expected, Possible, and_then, run, request,
  started_client,
}

-- The client `d` stands for the events.
record Stands (strerror : ℕ → List ℕ) (past : List Event) (d : Client) : Type 0 where
  ids : d.m_reqid ≡ gets past
  has_owner : d.has_cb ≡ true
  transfers_of : (h : ℕ) → find_req h d.transfers ≡ request h past
  calls : d.called ≡ expected strerror past

abbrev appended : List ℕ → Option CurlReq → Option CurlReq
appended b none = none
appended b (some r) = some (record r { buffer = r.buffer ++ b })

find_req-append_to :
    (h k : ℕ) (b : List ℕ) (ts : List (ℕ × CurlReq))
    → find_req h (append_to k b ts) ≡ (if k == h then appended b (find_req h ts) else find_req h ts)
find_req-append_to h k b [] = ground (arith)
find_req-append_to h k b ((j, r) ∷ ts) =
    ground (arith, find_req-append_to h k b ts, ==_iff j k, ==_iff j h, ==_iff k h)

find_req-remove_handle :
    (h k : ℕ) (ts : List (ℕ × CurlReq))
    → find_req h (remove_handle k ts) ≡ (if k == h then none else find_req h ts)
find_req-remove_handle h k [] = ground (arith)
find_req-remove_handle h k ((j, r) ∷ ts) =
    ground (arith, find_req-remove_handle h k ts, ==_iff j k, ==_iff j h, ==_iff k h)

send_get-Stands :
    (strerror : ℕ → List ℕ) (past : List Event) (d : Client) (k : ℕ)
    → Stands strerror past d
    → Stands strerror (get k ∷ past) (send_get d k).0
unfolding send_get
send_get-Stands strerror past d k s = record {
  ids = ap (λ n. (n + 1) % 2 ^ 64) s.ids;
  has_owner = s.has_owner;
  transfers_of = λ h. find_req-get strerror past d k h s;
  calls = s.calls;
}
  where
    find_req-get :
        (strerror : ℕ → List ℕ) (past : List Event) (d : Client) (k h : ℕ)
        → Stands strerror past d
        → find_req h ((k, record { reqid = (d.m_reqid + 1) % 2 ^ 64; buffer = [] }) ∷ d.transfers)
          ≡ request h (get k ∷ past)
    find_req-get strerror past d k h s = elim (Bool-cases (k == h)) [
      | inl same ↦ ground (arith, same, s.ids)
      | inr other ↦ ground (arith, other, s.transfers_of h)
    ]

appended-request :
    (past : List Event) (k : ℕ) (b : List ℕ) (h : ℕ)
    → (if k == h then appended b (request h past) else request h past)
      ≡ request h (chunk k b ∷ past)
appended-request past k b h = elim (Bool-cases (k == h)) [
  | inl same ↦ elim (Bool-cases (active h past)) [
    | inl used ↦ ground (arith, same, used)
    | inr free ↦ ground (arith, same, free)
  ]
  | inr other ↦ ground (arith, other)
]

append_to-request :
    (past : List Event) (k : ℕ) (b : List ℕ) (ts : List (ℕ × CurlReq)) (h : ℕ)
    → find_req h ts ≡ request h past
    → find_req h (append_to k b ts) ≡ request h (chunk k b ∷ past)
append_to-request past k b ts h e =
    find_req-append_to h k b ts
    ∙ ap (λ o. if k == h then appended b o else o) e
    ∙ appended-request past k b h

if_same : (b : Bool) (l : List ℕ) → (if b then l else l) ≡ l
if_same true l = refl
if_same false l = refl

content-nothing :
    (past : List Event) (k h : ℕ)
    → (if k == h then content h past ++ [] else content h past) ≡ content h past
content-nothing past k h =
    ap (λ l. if k == h then l else content h past) (append-nil (content h past))
    ∙ if_same (k == h) (content h past)

request-nothing : (past : List Event) (k h : ℕ) → request h (chunk k [] ∷ past) ≡ request h past
request-nothing past k h =
    ap (λ l. if active h past then some record { reqid = number h past; buffer = l } else none)
      (content-nothing past k h)

callback_get_head-Stands :
    (strerror : ℕ → List ℕ) (past : List Event) (d : Client) (k : ℕ) (b : List ℕ)
    → Stands strerror past d
    → Stands strerror (chunk k b ∷ past) (callback_get_head d k b)
unfolding callback_get_head
callback_get_head-Stands strerror past d k [] s = record {
  ids = s.ids;
  has_owner = s.has_owner;
  transfers_of = λ h. s.transfers_of h ∙ sym (request-nothing past k h);
  calls = s.calls;
}
callback_get_head-Stands strerror past d k (b ∷ bs) s = record {
  ids = s.ids;
  has_owner = s.has_owner;
  transfers_of = λ h. append_to-request past k (b ∷ bs) d.transfers h (s.transfers_of h);
  calls = s.calls;
}

-- A handle that is in use has a request.
request-active :
    (h : ℕ) (past : List Event)
    → active h past ≡ true
    → request h past ≡ some record { reqid = number h past; buffer = content h past }
request-active h past e = ground (arith, e)

-- The client behind the message for a handle that is in use.
abbrev finished : (ℕ → List ℕ) → List Event → Client → ℕ → ℕ → Client
finished strerror past d k rc = record d {
  called =
      d.called
      ++ reported strerror rc record { reqid = number k past; buffer = content k past } ∷ [];
  transfers = remove_handle k d.transfers;
}

call_back-owner :
    (d : Client) (call : Called)
    → d.has_cb ≡ true
    → call_back d call ≡ record d { called = d.called ++ call ∷ [] }
call_back-owner d call e = ap (λ b. if b then record d { called = d.called ++ call ∷ [] } else d) e

check_multi_info-finished :
    (strerror : ℕ → List ℕ) (past : List Event) (d : Client) (k rc : ℕ)
    → active k past ≡ true
    → Stands strerror past d
    → check_multi_info strerror d (done k rc ∷ []) ≡ some (finished strerror past d k rc)
unfolding check_multi_info check_message
check_multi_info-finished strerror past d k rc used s =
    let found = s.transfers_of k ∙ request-active k past used in
    let call = reported strerror rc record { reqid = number k past; buffer = content k past } in
    ap (λ o. next_message (λ c'. check_multi_info strerror c' []) (done_with strerror d k rc o))
      found
    ∙ ap (λ (c' : Client). some (record c' { transfers = remove_handle k c'.transfers }))
        (call_back-owner d call s.has_owner)

finished-Stands :
    (strerror : ℕ → List ℕ) (past : List Event) (d : Client) (k rc : ℕ)
    → Stands strerror past d
    → Stands strerror (end k rc ∷ past) (finished strerror past d k rc)
finished-Stands strerror past d k rc s = record {
  ids = s.ids;
  has_owner = s.has_owner;
  transfers_of = λ h.
      find_req-remove_handle h k d.transfers
      ∙ ap (λ o. if k == h then none else o) (s.transfers_of h)
      ∙ removed-request past k h rc;
  calls =
      ap
        (λ l.
          l ++ reported strerror rc record { reqid = number k past; buffer = content k past } ∷ [])
        s.calls;
}
  where
    removed-request :
        (past : List Event) (k h rc : ℕ)
        → (if k == h then none else request h past) ≡ request h (end k rc ∷ past)
    removed-request past k h rc = ground (arith)

started-Stands : (strerror : ℕ → List ℕ) → Stands strerror [] started_client
unfolding start_poll
started-Stands strerror = record {
  ids = refl;
  has_owner = refl;
  transfers_of = λ h. refl;
  calls = refl;
}

run-Stands :
    (strerror : ℕ → List ℕ) (past : List Event)
    → Possible past
    → (d : Client) × (run strerror started_client past ≡ some d) × Stands strerror past d
unfolding run
run-Stands strerror [] ok = (started_client, refl, started-Stands strerror)
run-Stands strerror (get k ∷ past) (free, ok) =
    let (d, returns, s) = run-Stands strerror past ok in
    (
      (send_get d k).0,
      ap (and_then (λ e. some (send_get e k).0)) returns,
      send_get-Stands strerror past d k s,
    )
run-Stands strerror (chunk k b ∷ past) (used, ok) =
    let (d, returns, s) = run-Stands strerror past ok in
    (
      callback_get_head d k b,
      ap (and_then (λ e. some (callback_get_head e k b))) returns,
      callback_get_head-Stands strerror past d k b s,
    )
run-Stands strerror (end k rc ∷ past) (used, ok) =
    let (d, returns, s) = run-Stands strerror past ok in
    (
      finished strerror past d k rc,
      ap (and_then (λ e. check_multi_info strerror e (done k rc ∷ []))) returns
          ∙ check_multi_info-finished strerror past d k rc used s,
      finished-Stands strerror past d k rc s,
    )

-- From a client that is started, for whatever events in which curl tells of handles that are in use
-- only, and gives a handle again only when it is not: no assertion fails, and the owner is called
-- back once for each request that ends, in their order, with its result, its number, and the bytes
-- that came in for it since it was sent, or the text of the error; for a handle that is in use the
-- client has the number and the bytes of its last request.
pub run-expected :
    (strerror : ℕ → List ℕ) (past : List Event) (h : ℕ)
    → Possible past
    → (d : Client) × (run strerror started_client past ≡ some d)
      × (d.called ≡ expected strerror past)
      × (find_req h d.transfers ≡ request h past)
run-expected strerror past h ok =
    let (d, returns, s) = run-Stands strerror past ok in (d, returns, s.calls, s.transfers_of h)
