-- ===== src/Tests/Curl.antt =====
-- Two requests at once, and the sockets of a transfer.
use study_notes.Base.{ℕ, ◌≡◌, refl, none, some, List, [], ◌∷◌, if◌then◌else◌}
use study_notes.Curl.{Client, new_client, find_req, poll_in, poll_inout, poll_remove}
use study_notes.Curl.History.{
  Event, get, chunk, end, expected, Possible, run, request, started_client,
}
use study_notes.Curl.Callbacks.{run-expected}
use study_notes.Curl.Sockets.{Asked, count, is_some, wanted, ask, ask-wanted}

-- The last event first: two requests, whose bytes come in turn; the second one fails.
abbrev past : List Event
past =
    end 8 7
    ∷ end 9 0
    ∷ chunk 9 (98 ∷ [])
    ∷ chunk 8 (120 ∷ [])
    ∷ chunk 9 (97 ∷ [])
    ∷ get 8
    ∷ get 9
    ∷ []

abbrev strerror : ℕ → List ℕ
strerror rc = 101 ∷ rc ∷ []

past-Possible : Possible past
past-Possible = (refl, (refl, (refl, (refl, (refl, (refl, (refl, tt)))))))

run-expected_example :
    (d : Client) × (run strerror started_client past ≡ some d)
    × (d.called ≡ expected strerror past)
    × (find_req 9 d.transfers ≡ request 9 past)
run-expected_example = run-expected strerror past 9 past-Possible

expected_calls :
    expected strerror past
    ≡ record { status = 0; msg = 97 ∷ 98 ∷ []; reqid = 1 }
      ∷ record { status = 7; msg = 101 ∷ 7 ∷ []; reqid = 2 }
      ∷ []
expected_calls = refl

abbrev asked : List Asked
asked =
    record { socket = 5; action = poll_inout }
    ∷ record { socket = 5; action = poll_in }
    ∷ record { socket = 6; action = poll_in }
    ∷ record { socket = 6; action = poll_remove }
    ∷ []

ask-wanted_example :
    (d : Client) × (ask new_client asked ≡ some d)
    × (d.events 5 ≡ wanted 5 asked none)
    × (count 5 d.contexts ≡ (if is_some (wanted 5 asked none) then 1 else 0))
ask-wanted_example = ask-wanted asked 5 (tt, (tt, (tt, (tt, tt))))
