-- ===== src/Reporter/Order.antt =====
-- The operators of src/Reporter: of two values that are not equal the one is less than the other.
use open_race.Prelude.{ℕ, false, true, none, some, Option, List, [], ◌∷◌, ◌≡◌, refl, arith}
use open_race.Reporter.{
  SourceLoc, text_eq, text_lt, loc_eq, loc_lt, optional_eq, optional_lt, RaceAccess, access_eq,
  access_lt, Race, race_eq, race_lt,
}

text_total : (xs ys : List ℕ) → text_lt xs ys ≡ false → text_lt ys xs ≡ false → text_eq xs ys ≡ true
unfolding text_lt text_eq
text_total [] [] h k = refl
text_total [] (y ∷ ys) h k = cc
text_total (x ∷ xs) [] h k = cc
text_total (x ∷ xs) (y ∷ ys) h k = ground (arith, text_total xs ys)

text_eq_sym : (xs ys : List ℕ) → text_eq xs ys ≡ true → text_eq ys xs ≡ true
unfolding text_eq
text_eq_sym [] [] h = refl
text_eq_sym [] (y ∷ ys) h = cc
text_eq_sym (x ∷ xs) [] h = cc
text_eq_sym (x ∷ xs) (y ∷ ys) h = ground (arith, text_eq_sym xs ys)

loc_total : (a b : SourceLoc) → loc_lt a b ≡ false → loc_lt b a ≡ false → loc_eq a b ≡ true
unfolding loc_lt loc_eq
loc_total a b h k = ground (
  arith,
  text_total a.filename b.filename,
  text_eq_sym a.filename b.filename,
  text_eq_sym b.filename a.filename,
)

loc_eq_sym : (a b : SourceLoc) → loc_eq a b ≡ true → loc_eq b a ≡ true
unfolding loc_eq
loc_eq_sym a b h = ground (arith, text_eq_sym a.filename b.filename)

optional_total :
    (a b : Option SourceLoc)
    → optional_lt a b ≡ false
    → optional_lt b a ≡ false
    → optional_eq a b ≡ true
unfolding optional_lt optional_eq
optional_total none none h k = refl
optional_total none (some b) h k = cc
optional_total (some a) none h k = cc
optional_total (some a) (some b) h k = loc_total a b h k

optional_eq_sym : (a b : Option SourceLoc) → optional_eq a b ≡ true → optional_eq b a ≡ true
unfolding optional_eq
optional_eq_sym none none h = refl
optional_eq_sym none (some b) h = cc
optional_eq_sym (some a) none h = cc
optional_eq_sym (some a) (some b) h = loc_eq_sym a b h

access_total :
    (a b : RaceAccess) → access_lt a b ≡ false → access_lt b a ≡ false → access_eq a b ≡ true
unfolding access_lt access_eq
access_total a b h k = ground (
  arith,
  optional_total a.location b.location,
  optional_eq_sym a.location b.location,
  optional_eq_sym b.location a.location,
)

pub access_eq_sym : (a b : RaceAccess) → access_eq a b ≡ true → access_eq b a ≡ true
unfolding access_eq
access_eq_sym a b h = ground (arith, optional_eq_sym a.location b.location)

pub race_total : (r s : Race) → race_lt r s ≡ false → race_lt s r ≡ false → race_eq r s ≡ true
unfolding race_lt race_eq
race_total r s h k = ground (
  arith,
  access_total r.first s.first,
  access_total r.second s.second,
  access_eq_sym r.first s.first,
  access_eq_sym s.first r.first,
)

text_eq_refl : (xs : List ℕ) → text_eq xs xs ≡ true
unfolding text_eq
text_eq_refl [] = refl
text_eq_refl (x ∷ xs) = ground (arith, text_eq_refl xs)

optional_eq_refl : (a : Option SourceLoc) → optional_eq a a ≡ true
unfolding optional_eq loc_eq
optional_eq_refl none = refl
optional_eq_refl (some a) = ground (arith, text_eq_refl a.filename)

access_eq_refl : (a : RaceAccess) → access_eq a a ≡ true
unfolding access_eq
access_eq_refl a = ground (arith, optional_eq_refl a.location)

pub race_eq_refl : (r : Race) → race_eq r r ≡ true
unfolding race_eq
race_eq_refl r = ground (arith, access_eq_refl r.first, access_eq_refl r.second)
