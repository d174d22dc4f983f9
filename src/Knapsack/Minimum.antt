-- ===== src/Knapsack/Minimum.antt =====
-- `main`: the plan that is printed claims the least total in the wanted range.
use mathlib.Core.List.{Sublistᴰ, reverse-reverse, reverse_aux, map}
use mathlib.Core.List.Sublistᴰ
use study_notes.Base.{
  ℕ, zero, suc, ◌+◌, ◌-◌, ◌≤◌, ◌<◌, ◌≡◌, ◌⊎◌, inl, inr, true, false, Option, none, some, List, [],
  ◌∷◌, reverse, arith, leb, ◌==◌, if◌then◌else◌, ltb, Bool-cases,
}
use study_notes.Base.Int.{ℤ, pos, negsuc, ltb_ℤ}
use study_notes.Knapsack.{
  Table, empty_cell, write, init_loop, init, recursive_print_plan, find_dest, main,
}
use study_notes.Knapsack.Plan.{
  sum, AllPositive, Trace, Reached, value-Trace, sum-Trace, recursive_print_plan-Trace,
  pack_items-Reached,
}

init_loop_at :
    (rounds i v : ℕ) (dp : Table)
    → (init_loop rounds i dp v).value
      ≡ (if leb i v then (if ltb v (i + rounds) then negsuc 0 else (dp v).value) else (dp v).value)
unfolding init_loop
init_loop_at zero i v dp = ground arith
init_loop_at (suc rounds) i v dp =
    ground (arith, init_loop_at rounds (i + 1) v (write dp i empty_cell))

init_value :
    (max_v v : ℕ) (dp : Table)
    → v ≤ max_v
    → (init max_v dp v).value ≡ (if v == 0 then pos 0 else negsuc 0)
unfolding init
init_value max_v v dp h = ground (arith, init_loop_at (max_v + 1) 0 v dp)

sound_init :
    (max_v v : ℕ) (dp : Table)
    → v ≤ max_v
    → (v ≡ 0) ⊎ (0 < v)
    → ((init max_v dp v).value ≡ negsuc 0)
      ⊎ ((xs : List ℕ) × Trace (init max_v dp) v xs × Sublistᴰ xs [])
sound_init max_v v dp h (inl e) =
    inr ([], (e, ground (arith, init_value max_v v dp h)), Sublistᴰ.slnil)
sound_init max_v v dp h (inr lt) = inl (ground (arith, init_value max_v v dp h))

init-Reached : (max_v : ℕ) (dp : Table) → Reached max_v [] (init max_v dp)
init-Reached max_v dp = record {
  sound = λ v h. sound_init max_v v dp h (omega arith);
  complete = λ ys s h. rw (Sublistᴰ.eq-nil s) (init_value max_v 0 dp (omega arith));
}

ℕ-cases : (i n : ℕ) → i ≤ n → (i ≡ n) ⊎ (i < n)
ℕ-cases i n h = omega arith

-- What a search from `i` on says of the index it stops at.
abbrev Stops : ℕ → ℕ → Table → Option ℕ → Type 0
Stops rounds i dp none = (n : ℕ) → i ≤ n → n < i + rounds → ltb_ℤ (pos 0) (dp n).value ≡ false
Stops rounds i dp (some j) =
    (i ≤ j)
    × (j < i + rounds)
    × (ltb_ℤ (pos 0) (dp j).value ≡ true)
    × ((n : ℕ) → i ≤ n → n < j → ltb_ℤ (pos 0) (dp n).value ≡ false)

Stops-suc :
    (rounds i : ℕ) (dp : Table) (r : Option ℕ)
    → ltb_ℤ (pos 0) (dp i).value ≡ false
    → Stops rounds (i + 1) dp r
    → Stops (suc rounds) i dp r
Stops-suc rounds i dp none e s =
    λ n h k. elim (ℕ-cases i n h) [ inl f ↦ rw (← f) e | inr f ↦ s n (omega arith) (omega arith) ]
Stops-suc rounds i dp (some j) e s = (
  omega arith,
  omega arith,
  s.2,
  λ n h k. elim (ℕ-cases i n h) [ inl f ↦ rw (← f) e | inr f ↦ s.3 n (omega arith) k ],
)

find_dest-Stops : (rounds i : ℕ) (dp : Table) → Stops rounds i dp (find_dest rounds i dp)
unfolding find_dest
find_dest-Stops zero i dp = λ n h k. absurd (omega arith)
find_dest-Stops (suc rounds) i dp = elim (Bool-cases (ltb_ℤ (pos 0) (dp i).value)) [
  | inl found ↦ rw found (omega arith, omega arith, found, λ n h k. absurd (omega arith))
  | inr later ↦ rw later (Stops-suc rounds i dp _ later (find_dest-Stops rounds (i + 1) dp))
]

Sublist-reverse_aux :
    {xs ys zs ws : List ℕ}
    → Sublistᴰ xs ys
    → Sublistᴰ zs ws
    → Sublistᴰ (reverse_aux xs zs) (reverse_aux ys ws)
Sublist-reverse_aux Sublistᴰ.slnil t = t
Sublist-reverse_aux (Sublistᴰ.cons s) t = Sublist-reverse_aux s (Sublistᴰ.cons t)
Sublist-reverse_aux (Sublistᴰ.cons-cons e s) t = Sublist-reverse_aux s (Sublistᴰ.cons-cons e t)

sum-reverse_aux : (xs ys : List ℕ) → sum (reverse_aux xs ys) ≡ sum xs + sum ys
sum-reverse_aux [] ys = omega arith
sum-reverse_aux (x ∷ xs) ys = omega (arith, sum-reverse_aux xs (x ∷ ys))

-- The receipts `xs`, each used at most once, claim the least total from `dest_v` on.
pub record Claims (dest_v max_v : ℕ) (items : List ℕ) (n : ℕ) (xs : List ℕ) : Type 0 where
  pub chosen : Sublistᴰ xs items
  pub total : sum xs ≡ n
  pub enough : dest_v ≤ n
  pub within : n ≤ max_v
  pub least : (ys : List ℕ) → Sublistᴰ ys items → dest_v ≤ sum ys → n ≤ sum ys

-- What a result of `main` has to mean.
abbrev pub Best : ℕ → ℕ → List ℕ → Option (ℤ × Option (List ℤ)) → Type 0
Best dest_v max_v items none = (ys : List ℕ) → Sublistᴰ ys items → dest_v ≤ sum ys → max_v < sum ys
Best dest_v max_v items (some (total, printed)) =
    (n : ℕ) × (xs : List ℕ) × (total ≡ pos n)
    × (printed ≡ some (map pos xs))
    × Claims dest_v max_v items n xs

module _ {dest_v max_v : ℕ} (items : List ℕ) {dp : Table} (wanted : 0 < dest_v)
    (r : Reached max_v (reverse items) dp) where
  -- A choice of receipts within the range shows in the table.
  reached :
      (ys : List ℕ)
      → Sublistᴰ ys items
      → dest_v ≤ sum ys
      → sum ys ≤ max_v
      → ltb_ℤ (pos 0) (dp (sum ys)).value ≡ true
  reached ys s h k =
      let same : sum (reverse ys) ≡ sum ys = omega (arith, sum-reverse_aux ys []) in
      let cell = r.complete (reverse ys) (Sublist-reverse_aux s Sublistᴰ.slnil) (omega arith) in
      rw (rw same at cell) (ground arith)

  Best-none :
      Stops (max_v + 1 - dest_v) dest_v dp none
      → (ys : List ℕ) → Sublistᴰ ys items
      → dest_v ≤ sum ys
      → (sum ys ≤ max_v) ⊎ (max_v < sum ys)
      → max_v < sum ys
  Best-none stop ys s h (inl k) =
      let found = reached ys s h k in let missed = stop (sum ys) h (omega arith) in cc
  Best-none stop ys s h (inr k) = k

  Best-least :
      (j : ℕ)
      → j ≤ max_v
      → Stops (max_v + 1 - dest_v) dest_v dp (some j)
      → (ys : List ℕ) → Sublistᴰ ys items
      → dest_v ≤ sum ys
      → (j ≤ sum ys) ⊎ (sum ys < j)
      → j ≤ sum ys
  Best-least j in_range stop ys s h (inl k) = k
  Best-least j in_range stop ys s h (inr k) =
      let found = reached ys s h (omega arith) in let missed = stop.3 (sum ys) h k in cc

  Best-some :
      (j : ℕ)
      → Stops (max_v + 1 - dest_v) dest_v dp (some j)
      → ((dp j).value ≡ negsuc 0) ⊎ ((xs : List ℕ) × Trace dp j xs × Sublistᴰ xs (reverse items))
      → Best dest_v max_v items
          (some ((dp j).value, recursive_print_plan (max_v + 1) dp (dp j).value))
  Best-some j stop (inl e) = absurd (ground (arith, stop.2))
  Best-some j stop (inr (xs, t, s)) =
      let value = value-Trace dp j xs t in
      (
        j,
        reverse xs,
        value,
        rw value (recursive_print_plan-Trace dp (max_v + 1) j xs t (omega arith)),
        record {
          chosen = rw (reverse-reverse) at (Sublist-reverse_aux s Sublistᴰ.slnil);
          total = omega (arith, sum-reverse_aux xs [], sum-Trace dp j xs t);
          enough = stop.0;
          within = omega arith;
          least = λ ys u h. Best-least j (omega arith) stop ys u h (omega arith);
        },
      )

  Best-stop :
      (o : Option ℕ)
      → Stops (max_v + 1 - dest_v) dest_v dp o
      → Best dest_v max_v items (elim o [
        | none ↦ none
        | some i ↦ some ((dp i).value, recursive_print_plan (max_v + 1) dp (dp i).value)
      ])
  Best-stop none stop = λ ys s h. Best-none stop ys s h (omega arith)
  Best-stop (some j) stop = Best-some j stop (r.sound j (omega arith))

-- For positive receipts and a positive target, `main` finds nothing exactly when no choice of
-- distinct receipts has its total between the target and `max_v`, and otherwise it reports the
-- least such total and prints such a choice, in the order of the receipts; the walk that prints
-- it ends within `max_v + 1` calls.
pub main-Best :
    (dest_v max_v : ℕ) (items : List ℕ) (dp : Table)
    → 0 < dest_v
    → AllPositive items
    → Best dest_v max_v items (main dest_v max_v items dp)
unfolding main
main-Best dest_v max_v items dp wanted h =
    let r = pack_items-Reached max_v items [] (init max_v dp) h (init-Reached max_v dp) in
    Best-stop items wanted r _ (find_dest-Stops (max_v + 1 - dest_v) dest_v _)
