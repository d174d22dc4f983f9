-- ===== src/Http/GivenUp.antt =====
-- A call that gives up, and what it leaves.
use mathlib.Core.Path.{subst}
use study_notes.Base.{
  ℕ, zero, suc, ◌≡◌, ◌≢◌, refl, sym, ap, ◌∙◌, true, false, some, List, [], arith, inl, inr,
}
use study_notes.Base.Int.{ℤ, pos, negsuc}
use study_notes.Http.Call.{
  Phase, idle, resolving, connecting, reading, closed, given_up, Nread, failed, nothing, bytes,
  Call, c_string, send, on_dns_resolved, on_connect, uv_close, after_write, execute,
  receive_response, Step, resolved, connected, done, received, Reach, sent, later,
}
use study_notes.Http.Closing.{closes_at, freed_at, message_at, Sound, execute-Parsing, Reach-Sound}

-- Before the reading, on_message_complete is not called.
abbrev Silent : Phase → List ℕ → Type 0
Silent reading statuses = Unit
Silent closed statuses = Unit
Silent _ statuses = statuses ≡ []

after_write-Silent :
    (c : Call) (status : ℤ) → Silent (after_write c status).phase (after_write c status).statuses
unfolding after_write uv_close
after_write-Silent c (pos zero) = tt
after_write-Silent c (pos (suc n)) = tt
after_write-Silent c (negsuc n) = tt

receive_response-Silent :
    (text : List ℕ) (c : Call) (nread : Nread)
    → c.phase ≡ reading
    → Sound text c
    → Silent (receive_response c nread).phase (receive_response c nread).statuses
unfolding receive_response uv_close
receive_response-Silent text c failed at w = tt
receive_response-Silent text c nothing at w = tt
receive_response-Silent text c (bytes es) at w =
    let parsed =
      execute-Parsing text (record c { handle_to_close = true }) es
        (
          inl (at, refl),
          record { closes_once = w.closes_once; freed_once = w.freed_once; message = w.message },
        ) in
    let statuses = (execute (record c { handle_to_close = true }) es).statuses in
    elim parsed.0 [
      | inl (e, h) ↦ subst (λ p. Silent p statuses) (sym e) tt
      | inr (e, h) ↦ subst (λ p. Silent p statuses) (sym e) tt
    ]

Step-Silent :
    (text : List ℕ) {c d : Call}
    → Sound text c
    → Silent c.phase c.statuses
    → Step c d
    → Silent d.phase d.statuses
unfolding on_dns_resolved on_connect
Step-Silent text {c} w s (resolved (pos n) at) = subst (λ p. Silent p c.statuses) at s
Step-Silent text {c} w s (resolved (negsuc n) at) = subst (λ p. Silent p c.statuses) at s
Step-Silent text {c} w s (connected (pos n) at) = subst (λ p. Silent p c.statuses) at s
Step-Silent text {c} w s (connected (negsuc zero) at) = subst (λ p. Silent p c.statuses) at s
Step-Silent text {c} w s (connected (negsuc (suc n)) at) = subst (λ p. Silent p c.statuses) at s
Step-Silent text {c} w s (done status at) = after_write-Silent c status
Step-Silent text {c} w s (received nread at) = receive_response-Silent text c nread at w

Reach-Silent :
    {chunk_size : ℕ} {text : List ℕ} {c : Call}
    → Reach chunk_size text c
    → Silent c.phase c.statuses
unfolding send
Reach-Silent (sent true) = refl
Reach-Silent (sent false) = refl
Reach-Silent {text = text} (later r step) = Step-Silent text (Reach-Sound r) (Reach-Silent r) step

-- Before the writing, nothing is written.
abbrev Unwritten : Phase → List ℕ → Type 0
Unwritten idle text = text ≡ []
Unwritten resolving text = text ≡ []
Unwritten connecting text = text ≡ []
Unwritten given_up text = text ≡ []
Unwritten _ text = Unit

uv_close-Unwritten : (c : Call) → Unwritten (uv_close c).phase (uv_close c).written
unfolding uv_close
uv_close-Unwritten c = tt

after_write-Unwritten :
    (c : Call) (status : ℤ) → Unwritten (after_write c status).phase (after_write c status).written
unfolding after_write
after_write-Unwritten c (pos zero) = tt
after_write-Unwritten c (pos (suc n)) = uv_close-Unwritten _
after_write-Unwritten c (negsuc n) = uv_close-Unwritten _

receive_response-Unwritten :
    (text : List ℕ) (c : Call) (nread : Nread)
    → c.phase ≡ reading
    → Sound text c
    → Unwritten (receive_response c nread).phase (receive_response c nread).written
unfolding receive_response
receive_response-Unwritten text c failed at w = uv_close-Unwritten c
receive_response-Unwritten text c nothing at w = uv_close-Unwritten c
receive_response-Unwritten text c (bytes es) at w =
    let parsed =
      execute-Parsing text (record c { handle_to_close = true }) es
        (
          inl (at, refl),
          record { closes_once = w.closes_once; freed_once = w.freed_once; message = w.message },
        ) in
    let text_out = (execute (record c { handle_to_close = true }) es).written in
    elim parsed.0 [
      | inl (e, h) ↦ subst (λ p. Unwritten p text_out) (sym e) tt
      | inr (e, h) ↦ subst (λ p. Unwritten p text_out) (sym e) tt
    ]

Step-Unwritten :
    (text : List ℕ) {c d : Call}
    → Sound text c
    → Unwritten c.phase c.written
    → Step c d
    → Unwritten d.phase d.written
unfolding on_dns_resolved on_connect
Step-Unwritten text {c} w s (resolved (pos n) at) = subst (λ p. Unwritten p c.written) at s
Step-Unwritten text {c} w s (resolved (negsuc n) at) = subst (λ p. Unwritten p c.written) at s
Step-Unwritten text {c} w s (connected (pos n) at) = tt
Step-Unwritten text {c} w s (connected (negsuc zero) at) = subst (λ p. Unwritten p c.written) at s
Step-Unwritten text {c} w s (connected (negsuc (suc n)) at) = tt
Step-Unwritten text {c} w s (done status at) = after_write-Unwritten c status
Step-Unwritten text {c} w s (received nread at) = receive_response-Unwritten text c nread at w

Reach-Unwritten :
    {chunk_size : ℕ} {text : List ℕ} {c : Call}
    → Reach chunk_size text c
    → Unwritten c.phase c.written
unfolding send
Reach-Unwritten (sent true) = refl
Reach-Unwritten (sent false) = refl
Reach-Unwritten {text = text} (later r step) =
    Step-Unwritten text (Reach-Sound r) (Reach-Unwritten r) step

given_up_last : {c d : Call} → Step c d → c.phase ≢ given_up
given_up_last (resolved status at) e = ground (arith, at, e)
given_up_last (connected status at) e = ground (arith, at, e)
given_up_last (done status at) e = ground (arith, at, e)
given_up_last (received nread at) e = ground (arith, at, e)

-- A call that gives up, because the host is not resolved or the connection fails with -1, is never
-- heard of again: no step comes behind it, on_message_complete has not been called, nothing has been
-- written, its connection is not closed, and its message is still held, not freed.
pub given_up-Stuck :
    {chunk_size : ℕ} {text : List ℕ} {c d : Call}
    → Reach chunk_size text c
    → c.phase ≡ given_up
    → (¬ Step c d)
      × (c.statuses ≡ [])
      × (c.written ≡ [])
      × (c.closes ≡ 0)
      × (c.freed ≡ 0)
      × (c.message_to_send ≡ some (c_string text))
given_up-Stuck {text = text} {c = c} {d = d} r at =
    let w = Reach-Sound r in
    (
      λ step. given_up_last step at,
      subst (λ p. Silent p c.statuses) at (Reach-Silent r),
      subst (λ p. Unwritten p c.written) at (Reach-Unwritten r),
      w.closes_once ∙ ap closes_at at,
      w.freed_once ∙ ap freed_at at,
      w.message ∙ ap (message_at text) at,
    )
