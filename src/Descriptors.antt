-- ===== src/Descriptors.antt =====
-- IO/tcp_reuse_port_test.c: `close_all_fd`, which closes the descriptors of a process.
pub mod Pass
pub mod Closed
use study_notes.Base.{
  ℕ, zero, suc, ◌+◌, ◌==◌, ltb, Bool, true, false, not, ◌&&◌, ◌||◌, Option, none, some, List, [],
  ◌∷◌, ◌++◌, length, codes, if◌then◌else◌,
}
use study_notes.Base.Int.{ℤ, pos, negsuc}

-- What `readdir_r` gives: an error, a name that starts with a dot, or the name of a descriptor.
pub data Entry : Type 0 where
  failed dots : Entry
  name : ℕ → Entry

-- The descriptors that are open, `dirfd(dir)` among them, and the number of the calls of `close`.
pub record OpenFiles : Type 0 where
  pub is_open : ℕ → Bool
  pub closes : ℕ

abbrev pub close_one : OpenFiles → ℕ → OpenFiles
close_one t fd = record {
  is_open = λ k. if k == fd then false else t.is_open k;
  closes = suc t.closes;
}

-- How a pass over the directory ends: by a break with `retval`, or at the end of the directory,
-- with `rewind`.
pub data PassEnd : Type 0 where
  broken : OpenFiles → ℤ → PassEnd
  ended : OpenFiles → Bool → PassEnd

abbrev pub is_zero : ℤ → Bool
is_zero (pos n) = n == 0
is_zero (negsuc n) = false

abbrev pub same : List ℕ → List ℕ → Bool
same [] [] = true
same (x ∷ xs) (y ∷ ys) = x == y && same xs ys
same _ _ = false

-- `ret_link == 0` and the name of the link is "socket:".
abbrev pub is_socket_link : ℤ × List ℕ → Bool
is_socket_link (ret_link, link_name) = is_zero ret_link && same link_name (codes "socket:")

-- The tests on a descriptor by which the loop goes on without a `close`.
abbrev pub is_skipped : (ℕ → ℤ × List ℕ) → ℕ → ℕ → Bool
is_skipped readlink dirfd fd = is_socket_link (readlink fd) || (dirfd == fd || ltb fd 3)

-- What the system does. `entries t` is what a pass over the directory gives that starts with the
-- table `t`; `readlink fd` is the result for the name of `fd`, with the bytes that it gives; and
-- `close n fd` tells whether call `n` of `close` succeeds.
module _ (entries : OpenFiles → List Entry) (readlink : ℕ → ℤ × List ℕ) (close : ℕ → ℕ → Bool)
    (dirfd : ℕ) where
  -- The rounds of the loop up to a break, or to the end of the directory.
  unfoldable pub pass : List Entry → OpenFiles → Bool → PassEnd
  pass [] t rewind = ended t rewind
  pass (failed ∷ es) t rewind = broken t (negsuc 0)
  pass (dots ∷ es) t rewind = pass es t rewind
  pass (name fd ∷ es) t rewind =
      let skipped = pass es t rewind in
      let gone = pass es (close_one t fd) true in
      if is_skipped readlink dirfd fd
      then skipped
      else if close t.closes fd
      then gone
      else broken (record t { closes = suc t.closes }) (negsuc 0)

  -- The passes, each behind a `rewinddir`. `none` means that fuel ran out.
  unfoldable pub passes : ℕ → OpenFiles → Option (OpenFiles × ℤ)
  passes zero t = none
  passes (suc fuel) t = elim (pass (entries t) t false) [
    | broken t' retval ↦ some (t', retval)
    | ended t' false ↦ some (t', pos 0)
    | ended t' true ↦ passes fuel t'
  ]

  -- Where `opendir` fails, the result is -1.
  unfoldable pub close_all_fd : Bool → ℕ → OpenFiles → Option (OpenFiles × ℤ)
  close_all_fd has_dir fuel t = if has_dir then passes fuel t else some (t, negsuc 0)
