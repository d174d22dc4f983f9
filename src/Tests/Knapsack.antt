-- ===== src/Tests/Knapsack.antt =====
-- The receipts model on small inputs.
use study_notes.Base.{ℕ, zero, suc, ◌≡◌, refl, none, some, List, [], ◌∷◌, arith}
use study_notes.Base.Int.{pos, negsuc}
use study_notes.Knapsack.{
  Table, init_loop, init, pack_body, pack_loop, zero_one_pack, pack_items, recursive_print_plan,
  find_dest, main,
}
use study_notes.Knapsack.Minimum.{Best, main-Best}

abbrev blank : Table
blank = λ _. record { value = negsuc 0; select_value = negsuc 0 }

abbrev receipts : List ℕ
receipts = 3 ∷ 5 ∷ 4 ∷ []

main_seven : main 6 9 receipts blank ≡ some (pos 7, some (pos 3 ∷ pos 4 ∷ []))
unfolding init_loop init pack_body pack_loop zero_one_pack pack_items recursive_print_plan find_dest
    main
main_seven = refl

main_unreached : main 10 11 receipts blank ≡ none
unfolding init_loop init pack_body pack_loop zero_one_pack pack_items recursive_print_plan find_dest
    main
main_unreached = refl

main-Best_example : Best 6 9 receipts (main 6 9 receipts blank)
main-Best_example = main-Best 6 9 receipts blank (omega arith) (omega arith)

-- A receipt of 3 over a table that reaches the total 0.
abbrev one_total : Table
one_total zero = record { value = pos 0; select_value = negsuc 0 }
one_total (suc i) = record { value = negsuc 0; select_value = negsuc 0 }
