-- ===== src/Prelude/Order.antt =====
-- The order of texts is strict and total; lists in that order have no name twice.
use mathlib.Core.Path.{◌≡◌, refl}
use mathlib.Core.Bool.{true, false}
use mathlib.Core.List.{List, [], ◌∷◌}
use native.Mathlib.Omega.{arith}
use reflake.Prelude.Lists.{All, In, In-All}
use reflake.Prelude.Equality.{nat_eq}
use reflake.Prelude.Text.{Str, str_lt}

pub str_lt_irrefl : (a : Str) → str_lt a a ≡ false
unfolding str_lt
str_lt_irrefl [] = refl
str_lt_irrefl (x ∷ a) = ground (arith, str_lt_irrefl a)

pub str_lt_trans : (a b c : Str) → str_lt a b ≡ true → str_lt b c ≡ true → str_lt a c ≡ true
unfolding str_lt
str_lt_trans [] [] c h k = cc
str_lt_trans [] (y ∷ b) [] h k = cc
str_lt_trans [] (y ∷ b) (z ∷ c) h k = refl
str_lt_trans (x ∷ a) [] c h k = cc
str_lt_trans (x ∷ a) (y ∷ b) [] h k = cc
str_lt_trans (x ∷ a) (y ∷ b) (z ∷ c) h k = ground (arith, str_lt_trans a b c)

pub str_lt-total : (a b : Str) → str_lt a b ≡ false → str_lt b a ≡ false → a ≡ b
unfolding str_lt
str_lt-total [] [] h k = refl
str_lt-total [] (y ∷ b) h k = cc
str_lt-total (x ∷ a) [] h k = cc
str_lt-total (x ∷ a) (y ∷ b) h k = ground (arith, str_lt-total a b)

pub str_lt_asym : (a b : Str) → str_lt a b ≡ true → str_lt b a ≡ false
unfolding str_lt
str_lt_asym [] [] h = refl
str_lt_asym [] (y ∷ b) h = refl
str_lt_asym (x ∷ a) [] h = cc
str_lt_asym (x ∷ a) (y ∷ b) h = ground (arith, str_lt_asym a b)

abbrev pub IsAscending : List Str → Type 0
IsAscending [] = Unit
IsAscending (x ∷ xs) = All (λ y. str_lt x y ≡ true) xs × IsAscending xs

pub below-All :
    (x y : Str) (ys : List Str)
    → str_lt x y ≡ true
    → All (λ z. str_lt y z ≡ true) ys
    → All (λ z. str_lt x z ≡ true) ys
below-All x y [] h k = tt
below-All x y (z ∷ ys) h (k, ks) = (str_lt_trans x y z h k, below-All x y ys h ks)

pub not_below : (x : Str) (xs : List Str) → All (λ y. str_lt x y ≡ true) xs → In x xs → ⊥
not_below x xs h m =
    let h' : str_lt x x ≡ true = In-All (λ y. str_lt x y ≡ true) x xs h m in
    cc (h', str_lt_irrefl x)
