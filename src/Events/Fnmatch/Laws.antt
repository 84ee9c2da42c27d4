-- ===== src/Events/Fnmatch/Laws.antt =====
-- Patterns with no special character, and prefixes.
use mathlib.Core.List.{map}
use pytest_salt_factories.Base.{
  ℕ, ◌≡◌, refl, ◌∙◌, sym, ap, append-nil, Bool, true, false, ◌||◌, [], ◌∷◌, ◌++◌, ◌==◌, nat_eq,
  arith, any,
}
use pytest_salt_factories.Base.Text.{Text, text_eq, codes, starts_with}
use pytest_salt_factories.Events.Fnmatch.{star, lit, any_end, accepts, matches, parse_from, fnmatch}

abbrev pub is_special : ℕ → Bool
is_special c = c == b'*' || c == b'?' || c == b'['

parse_from-plain :
    (p : Text) (rest : Text)
    → any is_special p ≡ false
    → parse_from 0 (p ++ rest) ≡ map lit p ++ parse_from 0 rest
unfolding parse_from any
parse_from-plain [] rest h = refl
parse_from-plain (c ∷ p) rest h = ground (arith, h, parse_from-plain p rest)

matches-lit : (p s : Text) → matches (map lit p) s ≡ (s == p)
unfolding matches accepts
matches-lit [] [] = ground arith
matches-lit [] (c ∷ s) = ground arith
matches-lit (d ∷ p) [] = ground arith
matches-lit (d ∷ p) (c ∷ s) = ground (arith, matches-lit p s)

-- A pattern with no special character matches the text that it spells, and no other.
pub fnmatch-plain : (name p : Text) → any is_special p ≡ false → fnmatch name p ≡ (name == p)
unfolding fnmatch parse_from
fnmatch-plain name p h =
    ap (λ q. matches (parse_from 0 q) name) (sym (append-nil p))
    ∙ ap (λ ts. matches ts name) (parse_from-plain p [] h ∙ append-nil (map lit p))
    ∙ matches-lit p name

any_end-nil : (p : Text → Bool) (s : Text) → p [] ≡ true → any_end p s ≡ true
unfolding any_end
any_end-nil p [] h = h
any_end-nil p (c ∷ s) h = ground (arith, any_end-nil p s h)

parse_from-star : parse_from 0 (codes "*") ≡ star ∷ []
unfolding parse_from codes nat_eq
parse_from-star = refl

matches-star : (s : Text) → matches (star ∷ []) s ≡ true
unfolding matches any_end
matches-star [] = refl
matches-star (c ∷ s) = any_end-nil (matches []) (c ∷ s) refl

matches-prefix : (p s : Text) → matches (map lit p ++ (star ∷ [])) s ≡ starts_with s p
unfolding matches accepts starts_with
matches-prefix [] s = matches-star s ∙ refl
matches-prefix (d ∷ p) [] = ground arith
matches-prefix (d ∷ p) (c ∷ s) = ground (arith, matches-prefix p s)

-- A pattern that is a plain text with a star behind it matches what starts with the text.
pub fnmatch-prefix :
    (name p : Text) → any is_special p ≡ false → fnmatch name (p ++ codes "*") ≡ starts_with name p
unfolding fnmatch
fnmatch-prefix name p h =
    ap (λ ts. matches ts name)
      (parse_from-plain p (codes "*") h ∙ ap (λ ts. map lit p ++ ts) parse_from-star)
    ∙ matches-prefix p name
