-- ===== src/Mail/Socket.antt =====
-- Languages/cpp/mail_wrapper/send_email.c: the calls on the socket. What the server is sent and what
-- `read` returns stand in one sequence of events; what is printed is left out.
use study_notes.Base.{
  ℕ, zero, suc, ◌+◌, Bool, List, [], ◌∷◌, ◌++◌, map, length, take, drop, leb, is_nil, if◌then◌else◌,
}

-- A byte that is sent, or a call of `read` that returns.
pub data Event : Type 0 where
  sent : ℕ → Event
  reply : Event

-- The events of the connection, and the number of calls of `write` and of `read`.
pub record Connection : Type 0 where
  pub wire : List Event
  pub writes : ℕ
  pub reads : ℕ

-- `failed` is `exit(-1)` or a return of -1, `undefined` a write to `buf[-1]`, and `endless` a loop
-- that does not end.
pub data Outcome : Type 0 where
  done failed undefined : Connection → Outcome
  endless : Outcome

abbrev pub Action : Type 0
Action = Connection → Outcome

abbrev pub and_then : Outcome → Action → Outcome
and_then (done s) k = k s
and_then (failed s) k = failed s
and_then (undefined s) k = undefined s
and_then endless k = endless

infixr 5 ◌>>◌
abbrev pub ◌>>◌ : Action → Action → Action
(m >> k) s = and_then (m s) k

abbrev pub finish : Action
finish s = done s

abbrev pub fail : Action
fail s = failed s

-- What the system answers: `write n len` is what call `n` of `write` returns for `len` bytes, 0 for
-- an error too, and `read n` tells whether call `n` of `read` succeeds.
module _ (write : ℕ → ℕ → ℕ) (read : ℕ → Bool) where
  abbrev pub accepted : ℕ → List ℕ → Connection → Connection
  accepted ret out_buf s = record s {
    wire = s.wire ++ map sent (take ret out_buf);
    writes = s.writes + 1;
  }

  -- The loop over the `out_buf` that is left; each round sends at least a byte of it.
  unfoldable pub send_loop : ℕ → List ℕ → Action
  send_loop zero out_buf s = if is_nil out_buf then done s else endless
  send_loop (suc fuel) out_buf s =
      let ret = write s.writes (length out_buf) in
      let rest = send_loop fuel (drop ret out_buf) (accepted ret out_buf s) in
      if is_nil out_buf
      then done s
      else if leb ret 0
      then failed (record s { writes = s.writes + 1 })
      else rest

  unfoldable pub send_socket : List ℕ → Action
  send_socket out_buf = send_loop (length out_buf) out_buf

  unfoldable pub read_socket : Action
  read_socket s =
      let t = record s { reads = s.reads + 1 } in
      if read s.reads then done (record t { wire = s.wire ++ reply ∷ [] }) else undefined t
