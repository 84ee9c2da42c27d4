-- ===== src/Sshd/Order.antt =====
-- The order of the lines of the configuration file.
use pytest_salt_factories.Base.{
  ℕ, ◌+◌, ◌≡◌, refl, Bool, true, false, ◌&&◌, List, ◌++◌, if◌then◌else◌, [], ◌∷◌, ◌==◌, nat_eq,
  arith, Bool-cases, inl, inr,
}
use pytest_salt_factories.Base.Text.{Text, text_eq}
use pytest_salt_factories.Sshd.{text_leb, insert_line, sort_lines}

text_leb-total : (s t : Text) → text_leb s t ≡ false → text_leb t s ≡ true
unfolding text_leb
text_leb-total [] t less = cc
text_leb-total (c ∷ s) [] less = refl
text_leb-total (c ∷ s) (e ∷ t) less = ground (arith, less, text_leb-total s t)

-- That every line is at most the next one.
abbrev in_front : Text → List Text → Bool
in_front l [] = true
in_front l (x ∷ xs) = text_leb l x

abbrev pub is_sorted : List Text → Bool
is_sorted [] = true
is_sorted (l ∷ ls) = in_front l ls && is_sorted ls

in_front-insert :
    (x l : Text) (ls : List Text)
    → text_leb x l ≡ true
    → in_front x ls ≡ true
    → in_front x (insert_line l ls) ≡ true
unfolding insert_line
in_front-insert x l [] below ordered = below
in_front-insert x l (y ∷ ls) below ordered = ground (arith, below, ordered)

is_sorted-insert :
    (l : Text) (ls : List Text) → is_sorted ls ≡ true → is_sorted (insert_line l ls) ≡ true
unfolding insert_line
is_sorted-insert l [] sorted = refl
is_sorted-insert l (x ∷ xs) sorted = elim (Bool-cases (text_leb l x)) [
  | inl first ↦ ground (arith, first, sorted)
  | inr later ↦
      let tail : is_sorted xs ≡ true = ground (arith, sorted) in
      let head : in_front x xs ≡ true = ground (arith, sorted) in
      ground (
        arith,
        later,
        is_sorted-insert l xs tail,
        in_front-insert x l xs (text_leb-total l x later) head,
      )
]

pub is_sorted-sort_lines : (ls : List Text) → is_sorted (sort_lines ls) ≡ true
unfolding sort_lines
is_sorted-sort_lines [] = refl
is_sorted-sort_lines (l ∷ ls) = is_sorted-insert l (sort_lines ls) (is_sorted-sort_lines ls)

-- How often a line is there.
abbrev pub count : List Text → Text → ℕ
count [] m = 0
count (l ∷ ls) m = (if m == l then 1 else 0) + count ls m

pub count-append : (ls ms : List Text) (m : Text) → count (ls ++ ms) m ≡ count ls m + count ms m
count-append [] ms m = omega arith
count-append (l ∷ ls) ms m = omega (arith, count-append ls ms m)

count-insert : (l m : Text) (ls : List Text) → count (insert_line l ls) m ≡ count (l ∷ ls) m
unfolding insert_line
count-insert l m [] = refl
count-insert l m (x ∷ xs) = elim (Bool-cases (text_leb l x)) [
  | inl first ↦ ground (arith, first)
  | inr later ↦ rw later (omega (arith, count-insert l m xs))
]

pub count-sort_lines : (ls : List Text) (m : Text) → count (sort_lines ls) m ≡ count ls m
unfolding sort_lines
count-sort_lines [] m = refl
count-sort_lines (l ∷ ls) m = omega (arith, count-insert l m (sort_lines ls), count-sort_lines ls m)
