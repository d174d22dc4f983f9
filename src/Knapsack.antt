-- ===== src/Knapsack.antt =====
-- Algorithm/动态规划/min_receipt_plan(01背包).cpp: the fewest receipts money can be claimed on.
-- The global array `dp` is a function from indexes; the loops write only indexes up to `max_v`.
pub mod Pass
mod Plan
pub mod Minimum
use study_notes.Base.{
  ℕ, zero, suc, ◌+◌, ◌-◌, ◌&&◌, Option, none, some, List, [], ◌∷◌, ◌++◌, leb, ◌==◌, if◌then◌else◌,
}
use study_notes.Base.Int.{ℤ, pos, negsuc, ◌+ℤ◌, ◌-ℤ◌, ltb_ℤ, leb_ℤ}

-- `struct DP`; -1 stands for a total that no choice of items reaches.
pub record Cell : Type 0 where
  pub value : ℤ
  pub select_value : ℤ

abbrev pub Table : Type 0
Table = ℕ → Cell

abbrev pub write : Table → ℕ → Cell → Table
write dp i c j = if j == i then c else dp j

abbrev pub empty_cell : Cell
empty_cell = record { value = negsuc 0; select_value = negsuc 0 }

-- The loop of `init`, from index `i` with `rounds` left.
unfoldable pub init_loop : ℕ → ℕ → Table → Table
init_loop zero i dp = dp
init_loop (suc rounds) i dp = init_loop rounds (i + 1) (write dp i empty_cell)

unfoldable pub init : ℕ → Table → Table
init max_v dp =
    let cleared = init_loop (max_v + 1) 0 dp in
    write cleared 0 (record (cleared 0) { value = pos 0 })

-- The body of `zero_one_pack`'s loop at index `v`, where `cost ≤ v`.
unfoldable pub pack_body : ℕ → ℕ → Table → Table
pack_body cost v dp =
    let value_if_select_it = (dp (v - cost)).value +ℤ pos cost in
    if leb_ℤ (pos 0) (dp (v - cost)).value && ltb_ℤ (dp v).value value_if_select_it
    then write dp v (record { value = value_if_select_it; select_value = pos cost })
    else dp

-- `for (int V = MAX_V; V >= cost; --V)`, downwards from `v`.
unfoldable pub pack_loop : ℕ → ℕ → Table → Table
pack_loop cost zero dp = if leb cost 0 then pack_body cost 0 dp else dp
pack_loop cost (suc v) dp =
    let rest = pack_loop cost v (pack_body cost (suc v) dp) in if leb cost (suc v) then rest else dp

unfoldable pub zero_one_pack : ℕ → ℕ → Table → Table
zero_one_pack max_v item dp = pack_loop item max_v dp

-- The loop of `main` over the receipts.
unfoldable pub pack_items : ℕ → List ℕ → Table → Table
pack_items max_v [] dp = dp
pack_items max_v (item ∷ items) dp = pack_items max_v items (zero_one_pack max_v item dp)

-- `recursive_print_plan`: the items that it prints, in order. `none` means that fuel ran out.
unfoldable pub recursive_print_plan : ℕ → Table → ℤ → Option (List ℤ)
recursive_print_plan zero dp v = none
recursive_print_plan (suc fuel) dp (negsuc n) = some []
recursive_print_plan (suc fuel) dp (pos zero) = some []
recursive_print_plan (suc fuel) dp (pos (suc n)) =
    elim (recursive_print_plan fuel dp (pos (suc n) -ℤ (dp (suc n)).select_value)) [
      | none ↦ none
      | some printed ↦ some (printed ++ (dp (suc n)).select_value ∷ [])
    ]

-- The last loop of `main`: the first index from `i` on, within `rounds`, with a positive total.
unfoldable pub find_dest : ℕ → ℕ → Table → Option ℕ
find_dest zero i dp = none
find_dest (suc rounds) i dp =
    let rest = find_dest rounds (i + 1) dp in if ltb_ℤ (pos 0) (dp i).value then some i else rest

-- `main`: the total that is claimed and the items that are printed for it.
unfoldable pub main : (dest_v max_v : ℕ) → List ℕ → Table → Option (ℤ × Option (List ℤ))
main dest_v max_v items dp =
    let filled = pack_items max_v items (init max_v dp) in
    elim (find_dest (max_v + 1 - dest_v) dest_v filled) [
      | none ↦ none
      | some i ↦ some ((filled i).value, recursive_print_plan (max_v + 1) filled (filled i).value)
    ]
