-- ===== src/Prelude/Equality.antt =====
-- Python's `==` and `in`, for every type whose equality can be decided.
use Prim.Native.Nat.{ℕ}
use mathlib.Core.Path.{◌≡◌, refl, ap, ap₂}
use mathlib.Core.Logic.{ite, dite, ◌↔◌}
use mathlib.Core.Bool.{Bool, true, false, ◌||◌}
use mathlib.Core.Option.{Option, none, some, none-ne-some, some-ne-none, some-injective}
use mathlib.Core.List.{List, [], ◌∷◌}
use native.Mathlib.Decide.{ℕ_discrete}
use native.Mathlib.Omega.{arith}
use reflake.Prelude.Lists.{In}

pub record Eq {ℓ} (A : Type ℓ) : Type ℓ where
  pub dec : Discrete A

module _ {ℓ} {A : Type ℓ} ⦃e : Eq A⦄ where
  infix 50 ◌==◌
  abbrev pub ◌==◌ : A → A → Bool
  a == b = ite (e.dec a b) true false

  abbrev pub contains : List A → A → Bool
  contains [] a = false
  contains (x ∷ xs) a = a == x || contains xs a

module _ {ℓ} {A : Type ℓ} (x y : A) (xs ys : List A) where
  nil-ne-cons : ◌≡◌ {A = List A} [] (y ∷ ys) → ⊥
  nil-ne-cons = λ p. cc

  cons-ne-nil : ◌≡◌ {A = List A} (x ∷ xs) [] → ⊥
  cons-ne-nil = λ p. cc

  head_injective : ◌≡◌ {A = List A} (x ∷ xs) (y ∷ ys) → x ≡ y
  head_injective = λ p. cc

  tail_injective : ◌≡◌ {A = List A} (x ∷ xs) (y ∷ ys) → xs ≡ ys
  tail_injective = λ p. cc

module _ {ℓ} {A : Type ℓ} (d : Discrete A) where
  list_dec : Discrete (List A)
  list_dec [] [] = yes refl
  list_dec [] (b ∷ ys) = no (nil-ne-cons b b ys ys)
  list_dec (a ∷ xs) [] = no (cons-ne-nil a a xs xs)
  list_dec (a ∷ xs) (b ∷ ys) =
      let rest = list_dec xs ys in
      dite (d a b)
        (λ p.
          dite rest (λ q. yes (ap₂ (λ u v. u ∷ v) p q))
            (λ n. no (λ r. n (tail_injective a b xs ys r))))
        (λ n. no (λ r. n (head_injective a b xs ys r)))

module _ {ℓ} {A : Type ℓ} (d : Discrete A) where
  option_dec : Discrete (Option A)
  option_dec none none = yes refl
  option_dec none (some b) = no (none-ne-some b)
  option_dec (some a) none = no (some-ne-none a)
  option_dec (some a) (some b) =
      dite (d a b) (λ p. yes (ap some p)) (λ n. no (λ p. n (some-injective a b p)))

instance unfoldable pub list_eq {ℓ} : {A : Type ℓ} ⦃e : Eq A⦄ → Eq (List A)
unfolding list_dec nil-ne-cons cons-ne-nil head_injective tail_injective
list_eq ⦃e⦄ = record { dec = list_dec e.dec }

instance unfoldable pub option_eq {ℓ} : {A : Type ℓ} ⦃e : Eq A⦄ → Eq (Option A)
unfolding option_dec
option_eq ⦃e⦄ = record { dec = option_dec e.dec }

instance unfoldable pub nat_eq : Eq ℕ
unfolding ℕ_discrete
nat_eq = record { dec = ℕ_discrete }

module _ {ℓ} {A : Type ℓ} ⦃e : Eq A⦄ where
  pub ==_refl : (a : A) → (a == a) ≡ true
  ==_refl a = ground arith

  pub ==_iff : (a b : A) → ((a == b) ≡ true) ↔ (a ≡ b)
  ==_iff a b = ground arith

module _ {A : Type 0} ⦃e : Eq A⦄ where
  pub contains-In : (xs : List A) (a : A) → (contains xs a ≡ true) ↔ In a xs
  contains-In [] a = (λ h. cc, λ h. absurd h)
  contains-In (x ∷ xs) a = ground (arith, contains-In xs a)
