-- ===== src/States/Tests.antt =====
-- Concrete state returns.
use pytest_salt_factories.Base.{
  ℕ, ◌≡◌, ◌⊎◌, refl, true, false, Option, none, some, List, [], ◌∷◌, ◌==◌, nat_eq, if◌then◌else◌,
  keep_if, any,
}
use pytest_salt_factories.Base.Text.{Text, codes, text_eq, text_methods}
use pytest_salt_factories.Base.Dict.{Dict, lookup}
use pytest_salt_factories.Base.Int.{negsuc}
use pytest_salt_factories.States.{
  ok, err, key_error, attribute_error, text, num, Return, StateResult, run_num_of, is_text,
  is_noise, get_index, filtered, state_result, run_num, get_key, has_name, insert_run, sort_runs,
  strip_numbers, cons_result, state_results, with_number, numbered, sort_numbered, sort_results,
  states, structured, has_state, get_state,
}
use pytest_salt_factories.States.Laws.{lookup-filtered, get_state-has_state, get_index-back}
use pytest_salt_factories.States.Order.{
  number_or_zero, rank, IsInOrder, structured-IsInOrder, structured-keep_if,
}

program : Unit {0}
unfolding text_methods nat_eq lookup any keep_if run_num_of is_text get_index filtered state_result
    run_num get_key has_name insert_run sort_runs strip_numbers cons_result state_results
    with_number numbered sort_numbered sort_results structured has_state get_state number_or_zero
program = tt

abbrev full : ℕ → Return ℕ
full n =
    (codes "__run_num__", num n) ∷ (codes "name", text (codes "x")) ∷ (codes "duration", num 7) ∷ []

abbrev result_of : ℕ → Text → StateResult ℕ
result_of n id = record { state_id = id; full_return = full n }

abbrev raw : Dict Text (Option (Return ℕ))
raw = (codes "c", some (full 2)) ∷ (codes "a", some (full 1)) ∷ (codes "b", some (full 1)) ∷ []

abbrev in_dict : List (StateResult ℕ)
in_dict = result_of 2 (codes "c") ∷ result_of 1 (codes "a") ∷ result_of 1 (codes "b") ∷ []

abbrev in_order : List (StateResult ℕ)
in_order = result_of 1 (codes "a") ∷ result_of 1 (codes "b") ∷ result_of 2 (codes "c") ∷ []

run-structured : structured (states raw) ≡ ok in_order
unfolding program
run-structured = refl

-- A return that is no dictionary is an error before a missing run number is.
run-errors :
    structured {V = ℕ} (states ((codes "a", some []) ∷ (codes "b", none) ∷ []))
    ≡ err attribute_error
unfolding program
run-errors = refl

structured-IsInOrder_example : IsInOrder in_order
unfolding program
structured-IsInOrder_example = structured-IsInOrder raw in_dict in_order refl refl

structured-keep_if_example :
    keep_if (λ r. rank r == 1) in_order ≡ keep_if (λ r. rank r == 1) in_dict
unfolding program
structured-keep_if_example = structured-keep_if raw in_dict in_order 1 refl refl

lookup-filtered_holds :
    lookup (codes "name") (filtered (full 1))
    ≡ (if is_noise (codes "name") then none else lookup (codes "name") (full 1))
lookup-filtered_holds = lookup-filtered (codes "name") (full 1)

get_state-has_state_holds :
    ((has_state in_order (codes "b") ≡ false) × (get_state in_order (codes "b") ≡ err key_error))
    ⊎ ((has_state in_order (codes "b") ≡ true)
        × ((r : StateResult ℕ) × (get_state in_order (codes "b") ≡ ok r)
            × (has_name (codes "b") r ≡ true)))
get_state-has_state_holds = get_state-has_state in_order (codes "b")

get_index-back_holds : get_index in_order (negsuc 1) ≡ ok (result_of 1 (codes "b"))
get_index-back_holds =
    get_index-back (result_of 1 (codes "a") ∷ []) (result_of 2 (codes "c") ∷ [])
      (result_of 1 (codes "b"))
