-- ===== src/Epoll/Edge.antt =====
-- What the edge-triggered loop reads of a connection that is not blocking.
use study_notes.Base.{
  ℕ, zero, suc, ◌+◌, ◌<◌, ◌≤◌, ◌≡◌, refl, sym, ap, ◌∙◌, ◌⊎◌, inl, inr, ◌≢◌, Bool, true, false,
  Option, some, List, [], ◌∷◌, ◌++◌, arith, length, length-append, Bool-cases,
}
use study_notes.Epoll.{
  max_buffer_size, Received, bytes, eof, again, Kernel, Printed, received, client_closed, all_read,
  printed_text, et_round, epoll_et_loop,
}

-- The lines that are printed for chunks of bytes, and `o` behind them.
abbrev pub lines : List (List ℕ) → List Printed → List Printed
lines [] o = o
lines (b ∷ chunks) o = received (length b) (printed_text b) ∷ lines chunks o

abbrev pub joined : List (List ℕ) → List ℕ
joined [] = []
joined (b ∷ chunks) = b ++ joined chunks

-- No chunk is empty, or larger than the buffer.
abbrev pub AreChunks : List (List ℕ) → Type 0
AreChunks [] = Unit
AreChunks (b ∷ chunks) = (0 < length b) × (length b ≤ max_buffer_size) × AreChunks chunks

-- `recv` on a socket that does not block, as it is documented, where no bytes come in meanwhile:
-- while bytes are pending it takes some of them off, at most as many as there is room for; behind
-- them it returns 0 where the peer has shut down, and EAGAIN where it has not.
pub record Serves {S : Type 0} (sys : Kernel S) (pending : S → ℕ → List ℕ) (ended : S → ℕ → Bool)
    : Type 0 where
  pub recv_bytes :
      (s : S) (fd n : ℕ)
      → 0 < n
      → pending s fd ≢ []
      → (b : List ℕ) × ((sys.recv s fd n).0 ≡ bytes b)
        × (0 < length b)
        × (length b ≤ n)
        × (pending s fd ≡ b ++ pending (sys.recv s fd n).1 fd)
  pub recv_ended : (s : S) (fd n : ℕ) → ended (sys.recv s fd n).1 fd ≡ ended s fd
  pub recv_eof :
      (s : S) (fd n : ℕ) → 0 < n → pending s fd ≡ [] → ended s fd ≡ true → (sys.recv s fd n).0 ≡ eof
  pub recv_again :
      (s : S) (fd n : ℕ)
      → 0 < n
      → pending s fd ≡ []
      → ended s fd ≡ false
      → ((sys.recv s fd n).0 ≡ again) × (pending (sys.recv s fd n).1 fd ≡ [])

pub Nil-cases : (xs : List ℕ) → (xs ≡ []) ⊎ (xs ≢ [])
Nil-cases [] = inl refl
Nil-cases (x ∷ xs) = inr (λ e. ground (arith, e))

<_zero : (n : ℕ) → n < 0 → ⊥
<_zero n e = omega (arith, e)

module _ {S : Type 0} (sys : Kernel S) (pending : S → ℕ → List ℕ) (ended : S → ℕ → Bool) where
  -- How the loop ends: the connection is closed where the peer has shut down, and drained otherwise.
  abbrev pub Ends : S → ℕ → S → Printed → Type 0
  Ends s fd s' last =
      ((ended s fd ≡ true) × (last ≡ client_closed) × ((t : S) × (s' ≡ sys.close_fd t fd)))
      ⊎ ((ended s fd ≡ false) × (last ≡ all_read) × (pending s' fd ≡ []))

  -- The loop returns `result` from `s`: everything is read, and the peer's end is told.
  abbrev pub Drained : S → ℕ → Option (S × List Printed) → Type 0
  Drained s fd result =
      (s' : S) × (chunks : List (List ℕ)) × (last : Printed) × (result
        ≡ some (s', lines chunks (last ∷ [])))
      × (joined chunks ≡ pending s fd)
      × AreChunks chunks
      × Ends s fd s' last

  module _ (serves : Serves sys pending ended) where
    abbrev after_recv : S → ℕ → S
    after_recv s fd = (sys.recv s fd max_buffer_size).1

    -- One round of the loop with a given result of `recv`.
    loop_round :
        (fuel : ℕ) (s : S) (fd : ℕ) (r : Received)
        → (sys.recv s fd max_buffer_size).0 ≡ r
        → epoll_et_loop sys (suc fuel) s fd
          ≡ et_round sys (λ s'. epoll_et_loop sys fuel s' fd) fd (r, after_recv s fd)
    unfolding epoll_et_loop
    loop_round fuel s fd r e =
        ap (λ q. et_round sys (λ s'. epoll_et_loop sys fuel s' fd) fd (q, after_recv s fd)) e

    Drained-eof :
        (fuel : ℕ) (s : S) (fd : ℕ)
        → pending s fd ≡ []
        → ended s fd ≡ true
        → Drained s fd (epoll_et_loop sys (suc fuel) s fd)
    Drained-eof fuel s fd none_left at_end =
        let r = serves.recv_eof s fd max_buffer_size (omega arith) none_left at_end in
        (
          sys.close_fd (after_recv s fd) fd,
          [],
          client_closed,
          loop_round fuel s fd eof r,
          sym none_left,
          tt,
          inl (at_end, refl, (after_recv s fd, refl)),
        )

    Drained-again :
        (fuel : ℕ) (s : S) (fd : ℕ)
        → pending s fd ≡ []
        → ended s fd ≡ false
        → Drained s fd (epoll_et_loop sys (suc fuel) s fd)
    Drained-again fuel s fd none_left not_ended =
        let (r, still) = serves.recv_again s fd max_buffer_size (omega arith) none_left not_ended in
        (
          after_recv s fd,
          [],
          all_read,
          loop_round fuel s fd again r,
          sym none_left,
          tt,
          inr (not_ended, refl, still),
        )

    Drained-bytes :
        (fuel : ℕ) (s : S) (fd : ℕ) (b : List ℕ)
        → (sys.recv s fd max_buffer_size).0 ≡ bytes b
        → 0 < length b
        → length b ≤ max_buffer_size
        → pending s fd ≡ b ++ pending (after_recv s fd) fd
        → Drained (after_recv s fd) fd (epoll_et_loop sys fuel (after_recv s fd) fd)
        → Drained s fd (epoll_et_loop sys (suc fuel) s fd)
    Drained-bytes fuel s fd b is_bytes some_bytes fits split
          (s', chunks, last, returns, reads, sized, ends) =
        let ended_same = serves.recv_ended s fd max_buffer_size in
        (
          s',
          b ∷ chunks,
          last,
          loop_round fuel s fd (bytes b) is_bytes ∙ rw returns refl,
          ap (λ l. b ++ l) reads ∙ sym split,
          (some_bytes, fits, sized),
          elim ends [
            | inl x ↦ inl (sym ended_same ∙ x.0, x.1, x.2)
            | inr x ↦ inr (sym ended_same ∙ x.0, x.1, x.2)
          ],
        )

    -- Where the system serves `recv` as documented, for a socket that does not block, and no bytes
    -- come in meanwhile: with more fuel than bytes are pending, the loop returns; it reads the
    -- pending bytes in chunks of at most 5 bytes, all of them and in their order, prints a line for
    -- each chunk, with its length and its text up to a byte 0, and ends by closing the connection
    -- and telling so, where the peer has closed, and otherwise with EAGAIN and nothing pending.
    pub epoll_et_loop-Drained :
        (fuel : ℕ) (s : S) (fd : ℕ)
        → length (pending s fd) < fuel
        → Drained s fd (epoll_et_loop sys fuel s fd)
    epoll_et_loop-Drained zero s fd enough = elim (<_zero (length (pending s fd)) enough) [ ]
    epoll_et_loop-Drained (suc fuel) s fd enough = elim (Nil-cases (pending s fd)) [
      | inl none_left ↦ elim (Bool-cases (ended s fd)) [
        | inl at_end ↦ Drained-eof fuel s fd none_left at_end
        | inr not_ended ↦ Drained-again fuel s fd none_left not_ended
      ]
      | inr some_left ↦
          let (b, is_bytes, nonempty, fits, split) =
            serves.recv_bytes s fd max_buffer_size (omega arith) some_left in
          let shorter : length (pending s fd) ≡ length b + length (pending (after_recv s fd) fd) =
            ap length split ∙ length-append b (pending (after_recv s fd) fd) in
          Drained-bytes fuel s fd b is_bytes nonempty fits split
            (epoll_et_loop-Drained fuel (after_recv s fd) fd (omega arith))
    ]
