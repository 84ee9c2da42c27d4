-- ===== src/Base/Text/Split.antt =====
-- `split` at a separator that stands at the front of a text and nowhere else.
use Prim.Native.Nat.{ℕ, ◌-◌}
use mathlib.Core.Path.{◌≡◌, refl}
use mathlib.Core.Logic.{inl, inr}
use mathlib.Core.Bool.{false}
use mathlib.Core.List.{[], ◌∷◌, ◌++◌, append-nil, append_assoc}
use native.Mathlib.Omega.{arith}
use pytest_salt_factories.Base.Tests.{Bool-cases}
use pytest_salt_factories.Base.Lists.{length}
use pytest_salt_factories.Base.Text.{
  Text, starts_with, has_part, split_from, split, last_or, starts_with-append,
}

split_from-skip :
    (sep piece p s : Text) → split_from sep (length p) piece (p ++ s) ≡ split_from sep 0 piece s
unfolding split_from
split_from-skip sep piece [] s = refl
split_from-skip sep piece (c ∷ p) s = split_from-skip sep piece p s

split_from-absent :
    (sep piece s : Text) → has_part sep s ≡ false → split_from sep 0 piece s ≡ (piece ++ s) ∷ []
unfolding split_from has_part
split_from-absent sep piece [] h = rw append-nil
split_from-absent sep piece (c ∷ s) h = elim (Bool-cases (starts_with (c ∷ s) sep)) [
  | inl here ↦ ground (arith, here)
  | inr away ↦
      ground (arith, split_from-absent sep (piece ++ c ∷ []) s, append_assoc piece (c ∷ []) s)
]

-- After the separator at the front, the last piece is all the rest.
pub last_or-split :
    (c : ℕ) (p s : Text)
    → has_part (c ∷ p) s ≡ false
    → last_or [] (split (c ∷ p) ((c ∷ p) ++ s)) ≡ s
unfolding split split_from
last_or-split c p s h =
    let skip : length (c ∷ p) - 1 ≡ length p = omega arith in
    ground (
      arith,
      starts_with-append (c ∷ p) s,
      skip,
      split_from-skip (c ∷ p) [] p s,
      split_from-absent (c ∷ p) [] s h,
    )
