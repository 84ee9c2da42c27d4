-- ===== src/States/Sorted.antt =====
-- The order of `_structured`: sorted by the run number, and stable.
use pytest_salt_factories.Base.{ℕ, ◌≤◌, ◌≡◌, refl, List, [], ◌∷◌, ◌==◌, nat_eq, arith, keep_if}
use pytest_salt_factories.States.{StateResult, insert_run, sort_runs}

module _ {V : Type 0} where
  -- No result has a smaller number than one before it.
  abbrev pub IsFrom : ℕ → List (ℕ × StateResult V) → Type 0
  IsFrom n [] = Unit {0}
  IsFrom n (r ∷ rs) = (n ≤ r.0) × IsFrom r.0 rs

  abbrev pub IsSorted : List (ℕ × StateResult V) → Type 0
  IsSorted [] = Unit {0}
  IsSorted (r ∷ rs) = IsFrom r.0 rs

  insert_run-IsFrom :
      (n : ℕ) (r : ℕ × StateResult V) (rs : List (ℕ × StateResult V))
      → n ≤ r.0
      → IsFrom n rs
      → IsFrom n (insert_run r rs)
  unfolding insert_run
  insert_run-IsFrom n r [] h k = (h, tt)
  insert_run-IsFrom n r (x ∷ xs) h k = ground (arith, h, k, insert_run-IsFrom x.0 r xs)

  insert_run-IsSorted :
      (r : ℕ × StateResult V) (rs : List (ℕ × StateResult V))
      → IsSorted rs
      → IsSorted (insert_run r rs)
  unfolding insert_run
  insert_run-IsSorted r [] h = tt
  insert_run-IsSorted r (x ∷ xs) h = ground (arith, h, insert_run-IsFrom x.0 r xs)

  pub sort_runs-IsSorted : (rs : List (ℕ × StateResult V)) → IsSorted (sort_runs rs)
  unfolding sort_runs
  sort_runs-IsSorted [] = tt
  sort_runs-IsSorted (r ∷ rs) = insert_run-IsSorted r (sort_runs rs) (sort_runs-IsSorted rs)

  -- The results of one number.
  abbrev pub with_run : ℕ → List (ℕ × StateResult V) → List (ℕ × StateResult V)
  with_run n = keep_if (λ r. r.0 == n)

  with_run-insert_run :
      (n : ℕ) (r : ℕ × StateResult V) (rs : List (ℕ × StateResult V))
      → with_run n (insert_run r rs) ≡ with_run n (r ∷ rs)
  unfolding insert_run keep_if
  with_run-insert_run n r [] = refl
  with_run-insert_run n r (x ∷ xs) = ground (arith, with_run-insert_run n r xs)

  pub with_run-sort_runs :
      (n : ℕ) (rs : List (ℕ × StateResult V)) → with_run n (sort_runs rs) ≡ with_run n rs
  unfolding sort_runs keep_if
  with_run-sort_runs n [] = refl
  with_run-sort_runs n (r ∷ rs) = rw with_run-insert_run (ground (arith, with_run-sort_runs n rs))
