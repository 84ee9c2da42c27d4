-- ===== src/States/Laws.antt =====
-- Looking things up in state results.
use pytest_salt_factories.Base.{
  suc, ◌-◌, ◌≡◌, refl, true, false, none, some, List, [], ◌∷◌, ◌++◌, ◌⊎◌, inl, inr, arith,
  if◌then◌else◌, any, length, length-append, get_elem?, ltb, Bool-cases,
}
use pytest_salt_factories.Base.Text.{Text, text_eq}
use pytest_salt_factories.Base.Dict.{lookup}
use pytest_salt_factories.Base.Int.{negsuc}
use pytest_salt_factories.States.{
  ok, err, key_error, StateResult, Return, is_noise, filtered, has_name, has_state, get_state,
  get_index,
}

module _ {V : Type 0} where
  -- `filtered` keeps the values of exactly the keys that are not private, `duration` or
  -- `start_time`.
  pub lookup-filtered :
      (key : Text) (d : Return V)
      → lookup key (filtered d) ≡ (if is_noise key then none else lookup key d)
  unfolding filtered lookup
  lookup-filtered key [] = ground arith
  lookup-filtered key ((k, value) ∷ d) = ground (arith, lookup-filtered key d)

  -- `multi[key]` fails, always with a `KeyError`, exactly if `key in multi` is false; otherwise it
  -- is a result with that name.
  pub get_state-has_state :
      (rs : List (StateResult V)) (key : Text)
      → ((has_state rs key ≡ false) × (get_state rs key ≡ err key_error))
        ⊎ ((has_state rs key ≡ true)
            × ((r : StateResult V) × (get_state rs key ≡ ok r) × (has_name key r ≡ true)))
  unfolding has_state get_state any
  get_state-has_state [] key = inl (refl, refl)
  get_state-has_state (r ∷ rs) key = elim (Bool-cases (has_name key r)) [
    | inl here ↦ rw here (inr (refl, (r, refl, here)))
    | inr away ↦ rw away (get_state-has_state rs key)
  ]

get_elem?-append :
    {A : Type 0} (xs ys : List A) (x : A) → get_elem? (xs ++ (x ∷ ys)) (length xs) ≡ some x
get_elem?-append [] ys x = refl
get_elem?-append (y ∷ xs) ys x = get_elem?-append xs ys x

-- The index -1 - n is the item that has n items behind it.
pub get_index-back :
    {A : Type 0} (xs ys : List A) (x : A) → get_index (xs ++ (x ∷ ys)) (negsuc (length ys)) ≡ ok x
unfolding get_index
get_index-back xs ys x =
    let inside : ltb (length ys) (length (xs ++ (x ∷ ys))) ≡ true =
      ground (arith, length-append xs (x ∷ ys)) in
    let place : length (xs ++ (x ∷ ys)) - suc (length ys) ≡ length xs =
      omega (arith, length-append xs (x ∷ ys)) in
    rw (inside, place, get_elem?-append xs ys x) refl
