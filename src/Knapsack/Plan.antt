-- ===== src/Knapsack/Plan.antt =====
-- What the table holds after some receipts: every total that they reach, each with a choice of
-- distinct receipts that `recursive_print_plan` follows back.
use mathlib.Core.List.{Sublistᴰ, reverse-cons, map-append, reverse_aux}
use mathlib.Core.List.Sublistᴰ.{cases_cons}
use study_notes.Base.{
  ℕ, zero, suc, ◌+◌, ◌-◌, ◌≤◌, ◌<◌, ◌≡◌, refl, ap, ◌⊎◌, inl, inr, some, List, [], ◌∷◌, map, reverse,
  arith,
}
use study_notes.Base.Int.{pos, negsuc, ◌-ℤ◌}
use study_notes.Knapsack.{Table, zero_one_pack, pack_items, recursive_print_plan}
use study_notes.Knapsack.Pass.{relax, zero_one_pack-relax}

abbrev pub sum : List ℕ → ℕ
sum [] = 0
sum (x ∷ xs) = x + sum xs

abbrev pub AllPositive : List ℕ → Type 0
AllPositive [] = Unit
AllPositive (c ∷ cs) = (0 < c) × AllPositive cs

-- The cells that lead from `v` back to 0 choose the receipts `xs`, the latest first.
abbrev pub Trace : Table → ℕ → List ℕ → Type 0
Trace dp v [] = (v ≡ 0) × ((dp v).value ≡ pos 0)
Trace dp v (c ∷ xs) =
    (0 < c)
    × (c ≤ v)
    × (dp v ≡ record { value = pos v; select_value = pos c })
    × Trace dp (v - c) xs

pub value-Trace : (dp : Table) (v : ℕ) (xs : List ℕ) → Trace dp v xs → (dp v).value ≡ pos v
value-Trace dp v [] t = ground arith
value-Trace dp v (c ∷ xs) t = ground arith

pub sum-Trace : (dp : Table) (v : ℕ) (xs : List ℕ) → Trace dp v xs → sum xs ≡ v
sum-Trace dp v [] t = omega arith
sum-Trace dp v (c ∷ xs) t = omega (arith, sum-Trace dp (v - c) xs t.3)

-- Printing from a traced cell prints its receipts, oldest first.
pub recursive_print_plan-Trace :
    (dp : Table) (fuel v : ℕ) (xs : List ℕ)
    → Trace dp v xs
    → v < fuel
    → recursive_print_plan fuel dp (pos v) ≡ some (map pos (reverse xs))
unfolding recursive_print_plan
recursive_print_plan-Trace dp zero v xs t h = absurd (omega arith)
recursive_print_plan-Trace dp (suc fuel) zero [] t h = refl
recursive_print_plan-Trace dp (suc fuel) zero (c ∷ xs) t h = absurd (omega arith)
recursive_print_plan-Trace dp (suc fuel) (suc v) [] t h = absurd (omega arith)
recursive_print_plan-Trace dp (suc fuel) (suc v) (c ∷ xs) t h =
    let left : pos (suc v) -ℤ (dp (suc v)).select_value ≡ pos (suc v - c) = rw t.2 (ground arith) in
    let printed = recursive_print_plan-Trace dp fuel (suc v - c) xs t.3 (omega arith) in
    let chosen : (dp (suc v)).select_value ≡ pos c = ground arith in
    rw (left, printed, chosen, reverse-cons, map-append)

-- A cell is either unreached or holds its own index.
abbrev Settled : Table → ℕ → Type 0
Settled dp v = ((dp v).value ≡ negsuc 0) ⊎ ((dp v).value ≡ pos v)

-- The table after the receipts `done`, the latest first.
pub record Reached (max_v : ℕ) (done : List ℕ) (dp : Table) : Type 0 where
  pub sound :
      (v : ℕ)
      → v ≤ max_v
      → ((dp v).value ≡ negsuc 0) ⊎ ((xs : List ℕ) × Trace dp v xs × Sublistᴰ xs done)
  pub complete :
      (ys : List ℕ) → Sublistᴰ ys done → sum ys ≤ max_v → (dp (sum ys)).value ≡ pos (sum ys)

module _ (max_v c : ℕ) (dp : Table) (positive : 0 < c) where
  -- A pass keeps every reached cell.
  pass_keeps :
      (v : ℕ)
      → v ≤ max_v
      → Settled dp (v - c)
      → (dp v).value ≡ pos v
      → zero_one_pack max_v c dp v ≡ dp v
  unfolding relax
  pass_keeps v h s e = ground (arith, zero_one_pack-relax max_v c v dp positive)

  -- It reaches `v` from `v - c`.
  pass_reaches :
      (v : ℕ)
      → v ≤ max_v
      → c ≤ v
      → (dp v).value ≡ negsuc 0
      → (dp (v - c)).value ≡ pos (v - c)
      → zero_one_pack max_v c dp v ≡ record { value = pos v; select_value = pos c }
  unfolding relax
  pass_reaches v h le e f = ground (arith, zero_one_pack-relax max_v c v dp positive)

  -- It leaves the other unreached cells unreached.
  pass_skips :
      (v : ℕ)
      → v ≤ max_v
      → (dp v).value ≡ negsuc 0
      → (v < c) ⊎ ((dp (v - c)).value ≡ negsuc 0)
      → zero_one_pack max_v c dp v ≡ dp v
  unfolding relax
  pass_skips v h e f = ground (arith, zero_one_pack-relax max_v c v dp positive)

  module _ (settled : (v : ℕ) → v ≤ max_v → Settled dp v) where
    -- So a trace through the old table is one through the new.
    Trace-pass :
        (v : ℕ) (xs : List ℕ) → v ≤ max_v → Trace dp v xs → Trace (zero_one_pack max_v c dp) v xs
    Trace-pass v [] h t =
        (t.0, rw (pass_keeps v h (settled (v - c) (omega arith)) (value-Trace dp v [] t)) t.1)
    Trace-pass v (a ∷ xs) h t = (
      t.0,
      t.1,
      rw (pass_keeps v h (settled (v - c) (omega arith)) (value-Trace dp v (a ∷ xs) t)) t.2,
      Trace-pass (v - a) xs (omega arith) t.3,
    )

abbrev Sound : ℕ → List ℕ → Table → ℕ → Type 0
Sound max_v done dp v =
    ((dp v).value ≡ negsuc 0) ⊎ ((xs : List ℕ) × Trace dp v xs × Sublistᴰ xs done)

settle : (max_v : ℕ) (done : List ℕ) (dp : Table) (v : ℕ) → Sound max_v done dp v → Settled dp v
settle max_v done dp v (inl e) = inl e
settle max_v done dp v (inr (xs, t, s)) = inr (value-Trace dp v xs t)

module _ (max_v c : ℕ) (done : List ℕ) (dp : Table) (positive : 0 < c)
    (r : Reached max_v done dp) where
  settled : (v : ℕ) → v ≤ max_v → Settled dp v
  settled v h = settle max_v done dp v (r.sound v h)

  -- An unreached cell after the pass: it stays so, or this receipt reaches it.
  Sound-unreached :
      (v : ℕ)
      → v ≤ max_v
      → (dp v).value ≡ negsuc 0
      → (v < c) ⊎ (c ≤ v)
      → Sound max_v done dp (v - c)
      → Sound max_v (c ∷ done) (zero_one_pack max_v c dp) v
  Sound-unreached v h e (inl lt) s = inl (rw (pass_skips max_v c dp positive v h e (inl lt)) e)
  Sound-unreached v h e (inr le) (inl f) = inl (rw (pass_skips max_v c dp positive v h e (inr f)) e)
  Sound-unreached v h e (inr le) (inr (xs, t, s)) =
      let new = pass_reaches max_v c dp positive v h le e (value-Trace dp (v - c) xs t) in
      let old = Trace-pass max_v c dp positive settled (v - c) xs (omega arith) t in
      inr (c ∷ xs, (positive, le, new, old), Sublistᴰ.cons-cons refl s)

  Sound-pass :
      (v : ℕ)
      → v ≤ max_v
      → Sound max_v done dp v
      → Sound max_v (c ∷ done) (zero_one_pack max_v c dp) v
  Sound-pass v h (inl e) = Sound-unreached v h e (omega arith) (r.sound (v - c) (omega arith))
  Sound-pass v h (inr (xs, t, s)) =
      inr (xs, Trace-pass max_v c dp positive settled v xs h t, Sublistᴰ.cons s)

  value_kept :
      (v : ℕ) → v ≤ max_v → (dp v).value ≡ pos v → (zero_one_pack max_v c dp v).value ≡ pos v
  value_kept v h e = rw (pass_keeps max_v c dp positive v h (settled (v - c) (omega arith)) e) e

  value_reached :
      (v : ℕ)
      → c + v ≤ max_v
      → (dp v).value ≡ pos v
      → Settled dp (c + v)
      → (zero_one_pack max_v c dp (c + v)).value ≡ pos (c + v)
  value_reached v h e (inr old) = value_kept (c + v) h old
  value_reached v h e (inl new) =
      let back : c + v - c ≡ v = omega arith in
      rw (pass_reaches max_v c dp positive (c + v) h (omega arith) new (rw back e))

  complete_pass :
      (ys : List ℕ)
      → Sublistᴰ ys done ⊎ ((zs : List ℕ) × (ys ≡ c ∷ zs) × Sublistᴰ zs done)
      → sum ys ≤ max_v
      → (zero_one_pack max_v c dp (sum ys)).value ≡ pos (sum ys)
  complete_pass ys (inl s) h = value_kept (sum ys) h (r.complete ys s h)
  complete_pass ys (inr (zs, e, s)) h =
      let fits : c + sum zs ≤ max_v = omega (arith, ap sum e) in
      rw e (value_reached (sum zs) fits (r.complete zs s (omega arith)) (settled (c + sum zs) fits))

  -- One more receipt keeps the table right.
  pub zero_one_pack-Reached : Reached max_v (c ∷ done) (zero_one_pack max_v c dp)
  zero_one_pack-Reached = record {
    sound = λ v h. Sound-pass v h (r.sound v h);
    complete = λ ys s h. complete_pass ys (cases_cons s) h;
  }

-- The table after all receipts.
pub pack_items-Reached :
    (max_v : ℕ) (items done : List ℕ) (dp : Table)
    → AllPositive items
    → Reached max_v done dp
    → Reached max_v (reverse_aux items done) (pack_items max_v items dp)
unfolding pack_items
pack_items-Reached max_v [] done dp h r = r
pack_items-Reached max_v (c ∷ items) done dp h r =
    pack_items-Reached max_v items (c ∷ done) _ h.1 (zero_one_pack-Reached max_v c done dp h.0 r)
