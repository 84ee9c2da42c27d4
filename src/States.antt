-- ===== src/States.antt =====
-- `StateResult` and `MultiStateResult` of src/saltfactories/utils/functional.py. The return of a
-- state is a dictionary of data. Run numbers are naturals, as Salt counts them; a run number that is
-- a text or another object is an error here.
pub mod Laws
pub mod Sorted
pub mod Order
mod Tests
use pytest_salt_factories.Base.{
  ℕ, zero, suc, ◌-◌, Bool, true, false, not, ◌||◌, Option, none, some, List, [], ◌∷◌, ◌==◌, any,
  length, get_elem?, if◌then◌else◌, leb, ltb,
}
use pytest_salt_factories.Base.Text.{Text, codes, text_eq, starts_with}
use pytest_salt_factories.Base.Dict.{Dict, lookup}
use pytest_salt_factories.Base.Int.{ℤ, pos, negsuc}

pub data Error : Type 0 where
  type_error key_error index_error attribute_error stop_iteration : Error

pub data Result {ℓ} (A : Type ℓ) : Type ℓ where
  ok : A → Result A
  err : Error → Result A

pub data Datum (V : Type 0) : Type 0 where
  null : Datum V
  text : Text → Datum V
  num : ℕ → Datum V
  other : V → Datum V

-- The return of a single state.
abbrev pub Return : Type 0 → Type 0
Return V = Dict Text (Datum V)

pub record StateResult (V : Type 0) : Type 0 where
  pub state_id : Text
  pub full_return : Return V

abbrev pub is_noise : Text → Bool
is_noise key = starts_with key (codes "_") || (key == codes "duration" || key == codes "start_time")

-- The number behind `run_num`: `full_return["__run_num__"] or 0`.
unfoldable pub run_num_of : {V : Type 0} → Option (Datum V) → Result ℕ
run_num_of none = err key_error
run_num_of (some null) = ok 0
run_num_of (some (text [])) = ok 0
run_num_of (some (text (c ∷ s))) = err type_error
run_num_of (some (num n)) = ok n
run_num_of (some (other v)) = err type_error

-- `key == value`, for a value that may be missing or no text.
unfoldable pub is_text : {V : Type 0} → Text → Option (Datum V) → Bool
is_text key (some (text s)) = key == s
is_text key _ = false

-- A position of a Python list, counted from the end where it is negative.
unfoldable pub get_index : {A : Type 0} → List A → ℤ → Result A
get_index xs (pos n) = elim (get_elem? xs n) [ none ↦ err index_error | some x ↦ ok x ]
get_index xs (negsuc n) =
    if ltb n (length xs)
    then elim (get_elem? xs (length xs - suc n)) [ none ↦ err index_error | some x ↦ ok x ]
    else err index_error

unfoldable pub cons_result : {A : Type 0} → Result A → Result (List A) → Result (List A)
cons_result (err e) rs = err e
cons_result (ok r) (err e) = err e
cons_result (ok r) (ok rs) = ok (r ∷ rs)

module _ {V : Type 0} where
  -- `filtered`
  unfoldable pub filtered : Return V → Return V
  filtered [] = []
  filtered ((key, value) ∷ d) =
      let rest = filtered d in if is_noise key then rest else (key, value) ∷ rest

  -- `StateResult(raw)`: `none` is a value that is no dictionary.
  unfoldable pub state_result : Option (Dict Text (Option (Return V))) → Result (StateResult V)
  state_result none = err type_error
  state_result (some []) = err stop_iteration
  state_result (some ((state_id, none) ∷ raw)) = err attribute_error
  state_result (some ((state_id, some full) ∷ raw)) =
      ok (record { state_id = state_id; full_return = full })

  unfoldable pub run_num : StateResult V → Result ℕ
  run_num r = run_num_of (lookup (codes "__run_num__") r.full_return)

  -- `r["key"]`
  unfoldable pub get_key : StateResult V → Text → Result (Datum V)
  get_key r key = elim (lookup key r.full_return) [ none ↦ err key_error | some value ↦ ok value ]

  -- `key in (r.id, r.state_id, r.name)`
  unfoldable pub has_name : Text → StateResult V → Bool
  has_name key r =
      is_text key (lookup (codes "__id__") r.full_return)
      || (key == r.state_id || is_text key (lookup (codes "name") r.full_return))

  -- A result in front of the results that come after it in the dictionary, each with its number:
  -- results of one number keep their order.
  unfoldable pub insert_run :
      ℕ × StateResult V → List (ℕ × StateResult V) → List (ℕ × StateResult V)
  insert_run r [] = r ∷ []
  insert_run r (x ∷ xs) = let rest = insert_run r xs in if leb r.0 x.0 then r ∷ x ∷ xs else x ∷ rest

  -- `sorted(state_result, key=operator.attrgetter("run_num"))`
  unfoldable pub sort_runs : List (ℕ × StateResult V) → List (ℕ × StateResult V)
  sort_runs [] = []
  sort_runs (r ∷ rs) = insert_run r (sort_runs rs)

  unfoldable pub strip_numbers : List (ℕ × StateResult V) → List (StateResult V)
  strip_numbers [] = []
  strip_numbers (r ∷ rs) = r.1 ∷ strip_numbers rs

  -- `[StateResult({state_id: data}) for state_id, data in raw.items()]`
  unfoldable pub state_results : Dict Text (Option (Return V)) → Result (List (StateResult V))
  state_results [] = ok []
  state_results ((state_id, full) ∷ raw) =
      cons_result (state_result (some ((state_id, full) ∷ []))) (state_results raw)

  unfoldable pub with_number : StateResult V → Result ℕ → Result (ℕ × StateResult V)
  with_number r (err e) = err e
  with_number r (ok n) = ok (n, r)

  -- The keys that `sorted` computes first.
  unfoldable pub numbered : List (StateResult V) → Result (List (ℕ × StateResult V))
  numbered [] = ok []
  numbered (r ∷ rs) = cons_result (with_number r (run_num r)) (numbered rs)

  unfoldable pub sort_numbered : Result (List (ℕ × StateResult V)) → Result (List (StateResult V))
  sort_numbered (err e) = err e
  sort_numbered (ok rs) = ok (strip_numbers (sort_runs rs))

  unfoldable pub sort_results : Result (List (StateResult V)) → Result (List (StateResult V))
  sort_results (err e) = err e
  sort_results (ok rs) = sort_numbered (numbered rs)

-- What a state run returns: a dictionary on success, a list of errors on failure.
pub data Raw (V : Type 0) : Type 0 where
  states : (raw : Dict Text (Option (Return V))) → Raw V
  error_list : (raw : List V) → Raw V

module _ {V : Type 0} where
  unfoldable pub failed : Raw V → Bool
  failed (states raw) = false
  failed (error_list raw) = true

  unfoldable pub errors : Raw V → List V
  errors (states raw) = []
  errors (error_list raw) = raw

  -- `_structured`
  unfoldable pub structured : Raw V → Result (List (StateResult V))
  structured (error_list raw) = ok []
  structured (states raw) = sort_results (state_results raw)

  -- `key in multi`, over `_structured`.
  unfoldable pub has_state : List (StateResult V) → Text → Bool
  has_state rs key = any (has_name key) rs

  -- `multi[key]` for a text.
  unfoldable pub get_state : List (StateResult V) → Text → Result (StateResult V)
  get_state [] key = err key_error
  get_state (r ∷ rs) key = let rest = get_state rs key in if has_name key r then ok r else rest
