-- ===== src/Http/Closing.antt =====
-- What a call closes and frees.
use study_notes.Base.{
  ℕ, zero, suc, ◌+◌, ◌≡◌, refl, ap, ◌∙◌, Bool, true, false, Option, none, some, List, [], ◌∷◌,
  arith, inl, inr, ◌⊎◌,
}
use study_notes.Base.Int.{ℤ, pos, negsuc}
use study_notes.Http.Call.{
  Phase, resolving, connecting, writing, reading, closed, given_up, ParserEvent, body,
  message_complete, other, Nread, failed, nothing, bytes, Call, c_string, send, on_dns_resolved,
  on_connect, uv_close, after_write, on_message_complete, close_once, parser_callback, execute,
  receive_response, Step, resolved, connected, done, received, Reach, sent, later,
}

-- How many times the connection is closed and the message is freed, by the phase.
abbrev pub closes_at : Phase → ℕ
closes_at closed = 1
closes_at _ = 0

abbrev pub freed_at : Phase → ℕ
freed_at closed = 1
freed_at reading = 1
freed_at _ = 0

abbrev pub message_at : List ℕ → Phase → Option (List ℕ)
message_at text closed = none
message_at text reading = none
message_at text _ = some (c_string text)

-- The message is allocated until it is written, and freed then; the connection is closed once, in
-- the last phase.
pub record Sound (text : List ℕ) (c : Call) : Type 0 where
  pub closes_once : c.closes ≡ closes_at c.phase
  pub freed_once : c.freed ≡ freed_at c.phase
  pub message : c.message_to_send ≡ message_at text c.phase

-- While the parser calls back: the connection is open and to be closed, or closed and not.
abbrev pub Parsing : List ℕ → Call → Type 0
Parsing text c =
    (((c.phase ≡ reading) × (c.handle_to_close ≡ true))
      ⊎ ((c.phase ≡ closed) × (c.handle_to_close ≡ false)))
    × Sound text c

complete-Parsing :
    (text : List ℕ) (c : Call) (status : ℕ) (open_still : Bool)
    → c.handle_to_close ≡ open_still
    → Parsing text c
    → Parsing text (on_message_complete (close_once open_still c) status)
unfolding uv_close
complete-Parsing text c status true e (inl (r, h), w) = (
  inr (refl, refl),
  record {
    closes_once = omega (arith, w.closes_once ∙ ap closes_at r);
    freed_once = w.freed_once ∙ ap freed_at r;
    message = w.message ∙ ap (message_at text) r;
  },
)
complete-Parsing text c status true e (inr (r, h), w) = ground (arith, e, h)
complete-Parsing text c status false e (inl (r, h), w) = ground (arith, e, h)
complete-Parsing text c status false e (inr at, w) =
    (inr at, record { closes_once = w.closes_once; freed_once = w.freed_once; message = w.message })

parser_callback-Parsing :
    (text : List ℕ) (c : Call) (e : ParserEvent)
    → Parsing text c
    → Parsing text (parser_callback c e)
unfolding parser_callback uv_close
parser_callback-Parsing text c (body p) (at, w) =
    (at, record { closes_once = w.closes_once; freed_once = w.freed_once; message = w.message })
parser_callback-Parsing text c other w = w
parser_callback-Parsing text c (message_complete status) w =
    complete-Parsing text c status c.handle_to_close refl w

pub execute-Parsing :
    (text : List ℕ) (c : Call) (es : List ParserEvent)
    → Parsing text c
    → Parsing text (execute c es)
unfolding execute
execute-Parsing text c [] w = w
execute-Parsing text c (e ∷ es) w =
    execute-Parsing text (parser_callback c e) es (parser_callback-Parsing text c e w)

-- A connection that is closed in the phase before the last one.
uv_close-Sound :
    (text : List ℕ) (c : Call)
    → c.closes ≡ 0
    → c.freed ≡ 1
    → c.message_to_send ≡ none
    → Sound text (uv_close c)
unfolding uv_close
uv_close-Sound text c e f m = record { closes_once = omega (arith, e); freed_once = f; message = m }

after_write-Sound :
    (text : List ℕ) (c : Call) (status : ℤ)
    → c.phase ≡ writing
    → Sound text c
    → Sound text (after_write c status)
unfolding after_write
after_write-Sound text c (pos zero) at w = record {
  closes_once = w.closes_once ∙ ap closes_at at;
  freed_once = omega (arith, w.freed_once ∙ ap freed_at at);
  message = refl;
}
after_write-Sound text c (pos (suc n)) at w =
    uv_close-Sound text (record c { message_to_send = none; freed = c.freed + 1 })
      (w.closes_once ∙ ap closes_at at) (omega (arith, w.freed_once ∙ ap freed_at at)) refl
after_write-Sound text c (negsuc n) at w =
    uv_close-Sound text (record c { message_to_send = none; freed = c.freed + 1 })
      (w.closes_once ∙ ap closes_at at) (omega (arith, w.freed_once ∙ ap freed_at at)) refl

receive_response-Sound :
    (text : List ℕ) (c : Call) (nread : Nread)
    → c.phase ≡ reading
    → Sound text c
    → Sound text (receive_response c nread)
unfolding receive_response
receive_response-Sound text c failed at w =
    uv_close-Sound text c (w.closes_once ∙ ap closes_at at) (w.freed_once ∙ ap freed_at at)
      (w.message ∙ ap (message_at text) at)
receive_response-Sound text c nothing at w =
    uv_close-Sound text c (w.closes_once ∙ ap closes_at at) (w.freed_once ∙ ap freed_at at)
      (w.message ∙ ap (message_at text) at)
receive_response-Sound text c (bytes es) at w =
    (execute-Parsing text (record c { handle_to_close = true }) es
      (
        inl (at, refl),
        record { closes_once = w.closes_once; freed_once = w.freed_once; message = w.message },
      )).1

-- A step that closes and frees nothing.
moves-Sound :
    (text : List ℕ) (c d : Call) (p : Phase)
    → c.phase ≡ p
    → (d.closes ≡ c.closes) × (d.freed ≡ c.freed) × (d.message_to_send ≡ c.message_to_send)
    → (closes_at p ≡ closes_at d.phase)
      × (freed_at p ≡ freed_at d.phase)
      × (message_at text p ≡ message_at text d.phase)
    → Sound text c
    → Sound text d
moves-Sound text c d p at (same_closes, same_freed, same_message) (e, f, m) w = record {
  closes_once = same_closes ∙ w.closes_once ∙ ap closes_at at ∙ e;
  freed_once = same_freed ∙ w.freed_once ∙ ap freed_at at ∙ f;
  message = same_message ∙ w.message ∙ ap (message_at text) at ∙ m;
}

on_dns_resolved-Sound :
    (text : List ℕ) (c : Call) (status : ℤ)
    → c.phase ≡ resolving
    → Sound text c
    → Sound text (on_dns_resolved c status)
unfolding on_dns_resolved
on_dns_resolved-Sound text c (pos n) at w =
    moves-Sound text c (record c { phase = connecting }) resolving at (refl, refl, refl)
      (refl, refl, refl) w
on_dns_resolved-Sound text c (negsuc n) at w =
    moves-Sound text c (record c { phase = given_up }) resolving at (refl, refl, refl)
      (refl, refl, refl) w

on_connect-Sound :
    (text : List ℕ) (c : Call) (status : ℤ)
    → c.phase ≡ connecting
    → Sound text c
    → Sound text (on_connect c status)
unfolding on_connect
on_connect-Sound text c (pos n) at w =
    moves-Sound text c (on_connect c (pos n)) connecting at (refl, refl, refl) (refl, refl, refl) w
on_connect-Sound text c (negsuc zero) at w =
    moves-Sound text c (on_connect c (negsuc zero)) connecting at (refl, refl, refl)
      (refl, refl, refl) w
on_connect-Sound text c (negsuc (suc n)) at w =
    moves-Sound text c (on_connect c (negsuc (suc n))) connecting at (refl, refl, refl)
      (refl, refl, refl) w

Step-Sound : (text : List ℕ) {c d : Call} → Sound text c → Step c d → Sound text d
Step-Sound text {c} w (resolved status at) = on_dns_resolved-Sound text c status at w
Step-Sound text {c} w (connected status at) = on_connect-Sound text c status at w
Step-Sound text {c} w (done status at) = after_write-Sound text c status at w
Step-Sound text {c} w (received nread at) = receive_response-Sound text c nread at w

-- In every state that a call reaches: the message is allocated until it is written, and freed once
-- then; the connection is closed exactly once in the last phase, whatever the parser calls back,
-- and not before.
pub Reach-Sound :
    {chunk_size : ℕ} {text : List ℕ} {c : Call} → Reach chunk_size text c → Sound text c
unfolding send
Reach-Sound (sent true) = record { closes_once = refl; freed_once = refl; message = refl }
Reach-Sound (sent false) = record { closes_once = refl; freed_once = refl; message = refl }
Reach-Sound {text = text} (later r step) = Step-Sound text (Reach-Sound r) step
