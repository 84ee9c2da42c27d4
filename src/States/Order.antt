-- ===== src/States/Order.antt =====
-- `_structured` as the state results of the dictionary in the order of their run numbers.
use pytest_salt_factories.Base.{
  ℕ, ◌≤◌, ◌≡◌, refl, sym, ◌∙◌, ap, Option, List, [], ◌∷◌, ◌==◌, nat_eq, arith, keep_if,
}
use pytest_salt_factories.Base.Text.{Text}
use pytest_salt_factories.Base.Dict.{Dict}
use pytest_salt_factories.States.{
  Result, ok, err, StateResult, Return, run_num, insert_run, sort_runs, strip_numbers, cons_result,
  with_number, numbered, sort_numbered, sort_results, state_results, states, structured,
}
use pytest_salt_factories.States.Sorted.{
  IsFrom, IsSorted, sort_runs-IsSorted, with_run, with_run-sort_runs,
}

-- The number of a result that has one.
unfoldable pub number_or_zero : Result ℕ → ℕ
number_or_zero (ok n) = n
number_or_zero (err e) = 0

module _ {V : Type 0} where
  abbrev pub rank : StateResult V → ℕ
  rank r = number_or_zero (run_num r)

  abbrev pub FollowsRank : ℕ → List (StateResult V) → Type 0
  FollowsRank n [] = Unit {0}
  FollowsRank n (r ∷ rs) = (n ≤ rank r) × FollowsRank (rank r) rs

  abbrev pub IsInOrder : List (StateResult V) → Type 0
  IsInOrder [] = Unit {0}
  IsInOrder (r ∷ rs) = FollowsRank (rank r) rs

  abbrev AllNumbered : List (ℕ × StateResult V) → Type 0
  AllNumbered [] = Unit {0}
  AllNumbered (r ∷ rs) = (rank r.1 ≡ r.0) × AllNumbered rs

  insert_run-AllNumbered :
      (r : ℕ × StateResult V) (rs : List (ℕ × StateResult V))
      → rank r.1 ≡ r.0
      → AllNumbered rs
      → AllNumbered (insert_run r rs)
  unfolding insert_run
  insert_run-AllNumbered r [] h k = (h, tt)
  insert_run-AllNumbered r (x ∷ xs) h k = ground (arith, h, k, insert_run-AllNumbered r xs h k.1)

  sort_runs-AllNumbered :
      (rs : List (ℕ × StateResult V)) → AllNumbered rs → AllNumbered (sort_runs rs)
  unfolding sort_runs
  sort_runs-AllNumbered [] h = tt
  sort_runs-AllNumbered (r ∷ rs) h =
      insert_run-AllNumbered r (sort_runs rs) h.0 (sort_runs-AllNumbered rs h.1)

  cons_result-numbered :
      (r : StateResult V) (rs : List (StateResult V)) (n : Result ℕ)
      (all : Result (List (ℕ × StateResult V))) (out : List (ℕ × StateResult V))
      → run_num r ≡ n
      → ((ps : List (ℕ × StateResult V)) → all ≡ ok ps → AllNumbered ps × (strip_numbers ps ≡ rs))
      → cons_result (with_number r n) all ≡ ok out
      → AllNumbered out × (strip_numbers out ≡ r ∷ rs)
  unfolding cons_result with_number strip_numbers number_or_zero
  cons_result-numbered r rs (err e) all out same h eq = cc
  cons_result-numbered r rs (ok n) (err e) out same h eq = cc
  cons_result-numbered r rs (ok n) (ok ps) out same h eq =
      let shape : out ≡ (n, r) ∷ ps = cc in
      let (inner, stripped) = h ps refl in
      rw shape ((rw same refl, inner), ap (λ xs. r ∷ xs) stripped)

  numbered-AllNumbered :
      (rs : List (StateResult V)) (ps : List (ℕ × StateResult V))
      → numbered rs ≡ ok ps
      → AllNumbered ps × (strip_numbers ps ≡ rs)
  unfolding numbered strip_numbers
  numbered-AllNumbered [] [] h = (tt, refl)
  numbered-AllNumbered [] (p ∷ ps) h = cc
  numbered-AllNumbered (r ∷ rs) ps h =
      cons_result-numbered r rs (run_num r) (numbered rs) ps refl (numbered-AllNumbered rs) h

  strip_numbers-FollowsRank :
      (n : ℕ) (rs : List (ℕ × StateResult V))
      → AllNumbered rs
      → IsFrom n rs
      → FollowsRank n (strip_numbers rs)
  unfolding strip_numbers
  strip_numbers-FollowsRank n [] h k = tt
  strip_numbers-FollowsRank n (r ∷ rs) h k =
      (rw h.0 k.0, strip_numbers-FollowsRank (rank r.1) rs h.1 (rw h.0 k.1))

  keep_if-strip_numbers :
      (n : ℕ) (rs : List (ℕ × StateResult V))
      → AllNumbered rs
      → keep_if (λ r. rank r == n) (strip_numbers rs) ≡ strip_numbers (with_run n rs)
  unfolding strip_numbers keep_if
  keep_if-strip_numbers n [] h = refl
  keep_if-strip_numbers n (r ∷ rs) h = ground (arith, h, keep_if-strip_numbers n rs h.1)

  strip_numbers-IsInOrder :
      (rs : List (ℕ × StateResult V)) → AllNumbered rs → IsSorted rs → IsInOrder (strip_numbers rs)
  unfolding strip_numbers
  strip_numbers-IsInOrder [] h k = tt
  strip_numbers-IsInOrder (r ∷ rs) h k = strip_numbers-FollowsRank (rank r.1) rs h.1 (rw h.0 k)

  sort_numbered-result :
      (rs : List (StateResult V)) (all : Result (List (ℕ × StateResult V)))
      (out : List (StateResult V))
      → numbered rs ≡ all
      → sort_numbered all ≡ ok out
      → IsInOrder out × ((n : ℕ) → keep_if (λ r. rank r == n) out ≡ keep_if (λ r. rank r == n) rs)
  unfolding sort_numbered
  sort_numbered-result rs (err e) out same h = cc
  sort_numbered-result rs (ok ps) out same h =
      let (good, stripped) = numbered-AllNumbered rs ps same in
      let shape : out ≡ strip_numbers (sort_runs ps) = cc in
      let sorted_good = sort_runs-AllNumbered ps good in
      rw shape (
        strip_numbers-IsInOrder (sort_runs ps) sorted_good (sort_runs-IsSorted ps),
        λ n.
            keep_if-strip_numbers n (sort_runs ps) sorted_good
            ∙ ap strip_numbers (with_run-sort_runs n ps)
            ∙ sym (keep_if-strip_numbers n ps good)
            ∙ ap (keep_if (λ r. rank r == n)) stripped,
      )

  structured-sorted :
      (raw : Dict Text (Option (Return V))) (rs : List (StateResult V))
      → state_results raw ≡ ok rs
      → structured (states raw) ≡ sort_numbered (numbered rs)
  unfolding structured sort_results
  structured-sorted raw rs read = rw read refl

  -- If a dictionary of state returns can be read and every return has a run number, `_structured`
  -- holds the state results in the order of their run numbers.
  pub structured-IsInOrder :
      (raw : Dict Text (Option (Return V))) (rs out : List (StateResult V))
      → state_results raw ≡ ok rs
      → structured (states raw) ≡ ok out
      → IsInOrder out
  structured-IsInOrder raw rs out read h =
      (sort_numbered-result rs (numbered rs) out refl (sym (structured-sorted raw rs read) ∙ h)).0

  -- If a dictionary of state returns can be read and every return has a run number, `_structured`
  -- holds the results of the dictionary, no more and no less: for every run number, the results with
  -- it are the same, in the order of the dictionary.
  pub structured-keep_if :
      (raw : Dict Text (Option (Return V))) (rs out : List (StateResult V)) (n : ℕ)
      → state_results raw ≡ ok rs
      → structured (states raw) ≡ ok out
      → keep_if (λ r. rank r == n) out ≡ keep_if (λ r. rank r == n) rs
  structured-keep_if raw rs out n read h =
      (sort_numbered-result rs (numbered rs) out refl (sym (structured-sorted raw rs read) ∙ h)).1 n
