-- ===== src/Mail/Wire.antt =====
-- What an action of the session puts on the connection, whatever the system answers.
use study_notes.Base.{
  ℕ, zero, suc, ◌≤◌, ◌<◌, ◌≡◌, refl, sym, ap, ◌∙◌, inl, inr, Bool, false, Bool-cases, List, [], ◌∷◌,
  ◌++◌, map, append-nil, append_assoc, arith, length, take, drop, length-drop, leb, if◌then◌else◌,
}
use study_notes.Mail.Socket.{
  Event, sent, reply, Connection, Outcome, done, failed, undefined, endless, Action, and_then, ◌>>◌,
  finish, accepted, send_loop, send_socket, read_socket,
}

-- A part of the events is on the connection.
abbrev pub Stopped : List Event → Connection → Connection → Type 0
Stopped es s t =
    (front : List Event) × ((back : List Event) × (es ≡ front ++ back)) × (t.wire ≡ s.wire ++ front)

module _ (write : ℕ → ℕ → ℕ) (read : ℕ → Bool) where
  -- A call of `write` that took no byte, and a call of `read` that failed.
  abbrev pub Refused : Type 0
  Refused = (n len : ℕ) × (0 < len) × (write n len ≡ 0)

  abbrev pub Lost : Type 0
  Lost = (n : ℕ) × (read n ≡ false)

  -- From `s` on: all the events where the action is done; a part of them where a call failed.
  abbrev pub Sent : List Event → Connection → Outcome → Type 0
  Sent es s (done t) = t.wire ≡ s.wire ++ es
  Sent es s (failed t) = Stopped es s t × Refused
  Sent es s (undefined t) = Stopped es s t × Lost
  Sent es s endless = ⊥

  pub record Sends (m : Action) (es : List Event) : Type 0 where
    pub from : (s : Connection) → Sent es s (m s)

  Stopped-after :
      (xs ys : List Event) (s s' t : Connection)
      → s'.wire ≡ s.wire ++ xs
      → Stopped ys s' t
      → Stopped (xs ++ ys) s t
  Stopped-after xs ys s s' t e (front, (back, d), w) = (
    xs ++ front,
    (back, ap (λ l. xs ++ l) d ∙ sym (append_assoc xs front back)),
    w ∙ ap (λ l. l ++ front) e ∙ append_assoc s.wire xs front,
  )

  -- Events that are on the connection already.
  Sent-after :
      (xs ys : List Event) (s s' : Connection) (o : Outcome)
      → s'.wire ≡ s.wire ++ xs
      → Sent ys s' o
      → Sent (xs ++ ys) s o
  Sent-after xs ys s s' (done t) e h = h ∙ ap (λ l. l ++ ys) e ∙ append_assoc s.wire xs ys
  Sent-after xs ys s s' (failed t) e (h, r) = (Stopped-after xs ys s s' t e h, r)
  Sent-after xs ys s s' (undefined t) e (h, r) = (Stopped-after xs ys s s' t e h, r)
  Sent-after xs ys s s' endless e h = h

  Stopped-more : (xs ys : List Event) (s t : Connection) → Stopped xs s t → Stopped (xs ++ ys) s t
  Stopped-more xs ys s t (front, (back, d), w) =
      (front, (back ++ ys, ap (λ l. l ++ ys) d ∙ append_assoc front back ys), w)

  Sent-and_then :
      (xs ys : List Event) (s : Connection) (o : Outcome) (k : Action)
      → Sent xs s o
      → Sends k ys
      → Sent (xs ++ ys) s (and_then o k)
  Sent-and_then xs ys s (done t) k h g = Sent-after xs ys s t (k t) h (g.from t)
  Sent-and_then xs ys s (failed t) k (h, r) g = (Stopped-more xs ys s t h, r)
  Sent-and_then xs ys s (undefined t) k (h, r) g = (Stopped-more xs ys s t h, r)
  Sent-and_then xs ys s endless k h g = h

  pub finish-Sends : Sends finish []
  finish-Sends = record { from = λ s. sym (append-nil s.wire) }

  read_socket-Sent : (s : Connection) → Sent (reply ∷ []) s (read_socket write read s)
  unfolding read_socket
  read_socket-Sent s = elim (Bool-cases (read s.reads)) [
    | inl e ↦ rw e refl
    | inr e ↦ rw e (([], (reply ∷ [], refl), sym (append-nil s.wire)), (s.reads, e))
  ]

  pub read_socket-Sends : Sends (read_socket write read) (reply ∷ [])
  read_socket-Sends = record { from = read_socket-Sent }

  -- Some bytes and then the rest.
  map-take-drop : (n : ℕ) (xs : List ℕ) → map sent xs ≡ map sent (take n xs) ++ map sent (drop n xs)
  map-take-drop zero xs = refl
  map-take-drop (suc n) [] = refl
  map-take-drop (suc n) (x ∷ xs) = ap (λ l. sent x ∷ l) (map-take-drop n xs)

  send_loop-Sent :
      (fuel : ℕ) (xs : List ℕ) (s : Connection)
      → length xs ≤ fuel
      → Sent (map sent xs) s (send_loop write read fuel xs s)
  unfolding send_loop
  send_loop-Sent zero [] s fits = sym (append-nil s.wire)
  send_loop-Sent zero (x ∷ xs) s fits = absurd (omega (arith, fits))
  send_loop-Sent (suc fuel) [] s fits = sym (append-nil s.wire)
  send_loop-Sent (suc fuel) (x ∷ xs) s fits =
      let n : ℕ = write s.writes (suc (length xs)) in
      elim (Bool-cases (leb n 0)) [
        | inl e ↦ rw e (
          ([], (map sent (x ∷ xs), refl), sym (append-nil s.wire)),
          (s.writes, suc (length xs), omega arith, ground (arith, e)),
        )
        | inr e ↦
            rw (e, map-take-drop n (x ∷ xs))
              (Sent-after (map sent (take n (x ∷ xs))) (map sent (drop n (x ∷ xs))) s
                (accepted write read n (x ∷ xs) s) _ refl
                (send_loop-Sent fuel (drop n (x ∷ xs)) (accepted write read n (x ∷ xs) s)
                  (ground (arith, e, fits, length-drop n (x ∷ xs)))))
      ]

  pub send_socket-Sends : (xs : List ℕ) → Sends (send_socket write read xs) (map sent xs)
  unfolding send_socket
  send_socket-Sends xs = record { from = λ s. send_loop-Sent (length xs) xs s (omega arith) }

-- One action behind the other.
infixr 5 ◌then◌
pub ◌then◌ :
    {write : ℕ → ℕ → ℕ} {read : ℕ → Bool} {m k : Action} {xs ys : List Event}
    → Sends write read m xs
    → Sends write read k ys
    → Sends write read (m >> k) (xs ++ ys)
f then g = record { from = λ s. Sent-and_then _ _ _ _ s _ _ (f.from s) g }
