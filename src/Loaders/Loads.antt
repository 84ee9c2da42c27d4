-- ===== src/Loaders/Loads.antt =====
-- The loads of `Loaders`, and what a step does to how often a part was loaded.
use pytest_salt_factories.Base.{
  ℕ, zero, suc, ◌+◌, ◌≤◌, ◌<◌, ◌≡◌, refl, sym, ◌∙◌, ap, inl, inr, Bool, true, false, ◌&&◌, Option,
  none, some, List, [], ◌∷◌, ◌++◌, ◌==◌, ==_sound, nat_eq, arith, if◌then◌else◌, Bool-cases,
}
use pytest_salt_factories.Loaders.{
  Kind, grains, utils, minion_mods, serializers, states, Call, load, Loaders, call,
}

abbrev pub number : Kind → ℕ
number grains = 0
number utils = 1
number minion_mods = 2
number serializers = 3
number states = 4

abbrev kind_of : ℕ → Kind
kind_of zero = grains
kind_of (suc zero) = utils
kind_of (suc (suc zero)) = minion_mods
kind_of (suc (suc (suc zero))) = serializers
kind_of (suc (suc (suc (suc n)))) = states

kind_of-number : (k : Kind) → kind_of (number k) ≡ k
kind_of-number grains = refl
kind_of-number utils = refl
kind_of-number minion_mods = refl
kind_of-number serializers = refl
kind_of-number states = refl

abbrev pub same_kind : Kind → Kind → Bool
same_kind j k = number j == number k

same_kind_sound : (j k : Kind) → same_kind j k ≡ true → j ≡ k
same_kind_sound j k same =
    sym (kind_of-number j) ∙ ap kind_of (==_sound (number j) (number k) same) ∙ kind_of-number k

abbrev pub is_load : Kind → ℕ → Call → Bool
is_load k n (load j m) = same_kind k j && (n == m)
is_load k n _ = false

-- How often a part was loaded with a copy of the options.
abbrev pub loads : Kind → ℕ → List Call → ℕ
loads k n [] = 0
loads k n (c ∷ calls) = (if is_load k n c then 1 else 0) + loads k n calls

pub loads-call :
    (k : Kind) (n : ℕ) (c : Call) (s : Loaders)
    → loads k n (call c s).calls ≡ loads k n s.calls + (if is_load k n c then 1 else 0)
unfolding call
loads-call k n c s = go s.calls
  where
    go :
        (calls : List Call)
        → loads k n (calls ++ (c ∷ [])) ≡ loads k n calls + (if is_load k n c then 1 else 0)
    go [] = ground arith
    go (b ∷ calls) = ground (arith, go calls)

abbrev pub is_some {ℓ} : {A : Type ℓ} → Option A → Bool
is_some none = false
is_some (some a) = true

abbrev pub held : Kind → Loaders → Bool
held grains s = is_some s.grains
held utils s = is_some s.utils
held minion_mods s = is_some s.modules
held serializers s = is_some s.serializers
held states s = is_some s.states

-- No part is loaded twice with the same options, none with options to come, and none that is not held with
-- the current ones.
pub record IsOnce (s : Loaders) : Type 0 where
  pub once : (k : Kind) (n : ℕ) → loads k n s.calls ≤ 1
  pub not_yet : (k : Kind) (n : ℕ) → s.opts < n → loads k n s.calls ≡ 0
  pub idle : (k : Kind) → held k s ≡ false → loads k s.opts s.calls ≡ 0

-- A step that loads a part.
pub loaded-IsOnce :
    (k : Kind) (s t : Loaders)
    → IsOnce s
    → held k s ≡ false
    → t.opts ≡ s.opts
    → t.calls ≡ (call (load k s.opts) s).calls
    → held k t ≡ true
    → ((j : Kind) → same_kind j k ≡ false → held j t ≡ held j s)
    → IsOnce t
loaded-IsOnce k s t good free same added now others =
    let count = λ (j : Kind) (n : ℕ). ap (loads j n) added ∙ loads-call j n (load k s.opts) s in
    record {
      once = λ j n. elim (Bool-cases (same_kind j k)) [
        | inl own ↦
            let unused = good.idle j (ap (λ i. held i s) (same_kind_sound j k own) ∙ free) in
            elim (Bool-cases (n == s.opts)) [
              | inl current ↦
                  let first = ap (λ m. loads j m s.calls) (==_sound n s.opts current) ∙ unused in
                  ground (arith, count j n, first)
              | inr old ↦ ground (arith, count j n, old, good.once j n)
            ]
        | inr other ↦ ground (arith, count j n, other, good.once j n)
      ];
      not_yet = λ j n below.
          ground (arith, count j n, same, below, good.not_yet j n (ground (arith, same, below)));
      idle = λ j absent. elim (Bool-cases (same_kind j k)) [
        | inl own ↦
            let there = ap (λ i. held i t) (same_kind_sound j k own) ∙ now in
            absurd (ground (arith, there, absent))
        | inr other ↦
            ap (λ o. loads j o t.calls) same
            ∙ ground (arith, count j s.opts, other, good.idle j (sym (others j other) ∙ absent))
      ];
    }

-- A step that loads no part.
pub quiet-IsOnce :
    (s t : Loaders)
    → IsOnce s
    → t.opts ≡ s.opts
    → ((j : Kind) (n : ℕ) → loads j n t.calls ≡ loads j n s.calls)
    → ((j : Kind) → held j t ≡ held j s)
    → IsOnce t
quiet-IsOnce s t good same quiet others = record {
  once = λ j n. ground (arith, quiet j n, good.once j n);
  not_yet = λ j n below. quiet j n ∙ good.not_yet j n (ground (arith, same, below));
  idle = λ j absent.
      ap (λ o. loads j o t.calls) same ∙ quiet j s.opts ∙ good.idle j (sym (others j) ∙ absent);
}

-- A step to new options, which loads no part.
pub renewed-IsOnce :
    (s t : Loaders)
    → IsOnce s
    → t.opts ≡ s.opts + 1
    → ((j : Kind) (n : ℕ) → loads j n t.calls ≡ loads j n s.calls)
    → IsOnce t
renewed-IsOnce s t good next quiet = record {
  once = λ j n. ground (arith, quiet j n, good.once j n);
  not_yet = λ j n below. quiet j n ∙ good.not_yet j n (ground (arith, next, below));
  idle = λ j absent. quiet j t.opts ∙ good.not_yet j t.opts (ground (arith, next));
}
