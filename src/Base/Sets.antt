-- ===== src/Base/Sets.antt =====
-- Python's `set` as a list: what matters is `contains`.
use mathlib.Core.Path.{◌≡◌, refl}
use mathlib.Core.Bool.{Bool, true, ◌||◌, ◌&&◌, not}
use mathlib.Core.List.{List, [], ◌∷◌, ◌++◌}
use native.Mathlib.Omega.{arith}
use mathlib.Core.Logic.{inl, inr}
use pytest_salt_factories.Base.Tests.{if◌then◌else◌, Bool-cases}
use pytest_salt_factories.Base.Lists.{any, any-append}
use pytest_salt_factories.Base.Equality.{Eq, ◌==◌, contains, contains-append}

module _ {ℓ} {A : Type ℓ} where
  -- `[x for x in xs if p(x)]`
  unfoldable pub keep_if : (A → Bool) → List A → List A
  keep_if p [] = []
  keep_if p (x ∷ xs) = let rest = keep_if p xs in if p x then x ∷ rest else rest

any_last {ℓ} :
    {A : Type ℓ} (f : A → Bool) (a : A) (xs : List A)
    → (any f xs || any f (a ∷ [])) ≡ (f a || any f xs)
unfolding any
any_last f a xs = ground arith

module _ {ℓ} {A : Type ℓ} ⦃e : Eq A⦄ where
  -- `xs.add(a)`
  unfoldable pub add : A → List A → List A
  add a xs = if contains xs a then xs else xs ++ (a ∷ [])

  -- `xs.remove(a)` of a set.
  unfoldable pub remove : A → List A → List A
  remove a [] = []
  remove a (x ∷ xs) = let rest = remove a xs in if a == x then rest else x ∷ rest

  -- `xs.remove(a)` of a sequence: its first item that is equal.
  unfoldable pub remove_first : A → List A → List A
  remove_first a [] = []
  remove_first a (x ∷ xs) = let rest = remove_first a xs in if a == x then xs else x ∷ rest

  pub contains-add : (a b : A) (xs : List A) → contains (add a xs) b ≡ (b == a || contains xs b)
  unfolding add contains
  contains-add a b xs = ground (arith, contains-append xs (a ∷ []) b)

  pub contains-remove :
      (a b : A) (xs : List A) → contains (remove a xs) b ≡ (contains xs b && not (b == a))
  unfolding remove contains
  contains-remove a b [] = refl
  contains-remove a b (x ∷ xs) = ground (arith, contains-remove a b xs)

  pub contains-keep_if :
      (p : A → Bool) (b : A) (xs : List A) → contains (keep_if p xs) b ≡ (contains xs b && p b)
  unfolding keep_if contains
  contains-keep_if p b [] = refl
  contains-keep_if p b (x ∷ xs) = ground (arith, contains-keep_if p b xs)

  pub any-contains :
      (f : A → Bool) (a : A) (xs : List A) → contains xs a ≡ true → f a ≡ true → any f xs ≡ true
  unfolding contains any
  any-contains f a [] h k = cc
  any-contains f a (x ∷ xs) h k = ground (arith, h, k, any-contains f a xs)

  pub any-add : (f : A → Bool) (a : A) (xs : List A) → any f (add a xs) ≡ (f a || any f xs)
  unfolding add
  any-add f a xs = elim (Bool-cases (contains xs a)) [
    | inl old ↦ rw old (ground (arith, any-contains f a xs))
    | inr new ↦ rw (new, any-append f xs (a ∷ [])) (any_last f a xs)
  ]
