-- ===== src/Exec/Yields.antt =====
-- What a run of a method that returns says of its parts.
use reflake.Prelude.{◌≡◌, refl, ap, Bool, true, false, ◌⊎◌, inl, inr}
use reflake.Domain.{Result, ok, raise, diverge}
use reflake.Exec.{Exec, ◌>>=◌, continue}

module _ {ℓ κ} {S : Type ℓ} {A : Type κ} where
  -- The method returns the value and leaves the state.
  abbrev pub Yields : Exec S A → S → A → S → Type (ℓ ⊔ κ)
  Yields m s a s' = ◌≡◌ {A = Result A × S} (m s) (ok a, s')

continue-Yields {ℓ κ μ} :
    {S : Type ℓ} {A : Type κ} {B : Type μ} (r : Result A) (f : A → Exec S B) (s : S) (b : B)
    (s' : S)
    → continue r f s ≡ (ok b, s')
    → (a : A) × (r ≡ ok a) × Yields (f a) s b s'
continue-Yields (ok a) f s b s' h = (a, refl, h)
continue-Yields (raise e) f s b s' h = absurd (cc (ap (λ x. x.0) h))
continue-Yields diverge f s b s' h = absurd (cc (ap (λ x. x.0) h))

pub bind-Yields {ℓ κ μ} :
    {S : Type ℓ} {A : Type κ} {B : Type μ} (m : Exec S A) (f : A → Exec S B) (s : S) (b : B)
    (s' : S)
    → Yields (m >>= f) s b s'
    → (a : A) × (t : S) × Yields m s a t × Yields (f a) t b s'
bind-Yields m f s b s' h =
    let (a, e, g) = continue-Yields (m s).0 f (m s).1 b s' h in
    (a, (m s).1, ap (λ r. (r, (m s).1)) e, g)

module _ {ℓ κ} {S : Type ℓ} {A : Type κ} (a b : A) (s t : S) where
  pub pure-Yields : ◌≡◌ {A = Result A × S} (ok a, s) (ok b, t) → (a ≡ b) × (s ≡ t)
  pure-Yields h = (cc (ap (λ x. x.0) h), ap (λ x. x.1) h)

module _ {ℓ κ} {S : Type ℓ} {A : Type κ} (m k : Exec S A) where
  pub elim-Yields :
      (b : Bool) (s : S) (a : A) (t : S)
      → Yields (elim b [ true ↦ m | false ↦ k ]) s a t
      → ((b ≡ true) × Yields m s a t) ⊎ ((b ≡ false) × Yields k s a t)
  elim-Yields true s a t y = inl (refl, y)
  elim-Yields false s a t y = inr (refl, y)

abbrev pub is_ok {ℓ} : {A : Type ℓ} → Result A → Bool
is_ok (ok a) = true
is_ok (raise e) = false
is_ok diverge = false

not_ok {ℓ} :
    {A : Type ℓ} (r : Result A) → ((a : A) → ◌≡◌ {A = Result A} r (ok a) → ⊥) → is_ok r ≡ false
not_ok (ok a) h = absurd (h a refl)
not_ok (raise e) h = refl
not_ok diverge h = refl

-- A method that yields nothing does not return.
pub not-Yields {ℓ κ} :
    {S : Type ℓ} {A : Type κ} (m : Exec S A) (s : S)
    → ((a : A) (t : S) → Yields m s a t → ⊥)
    → is_ok (m s).0 ≡ false
not-Yields m s h = not_ok (m s).0 (λ a e. h a (m s).1 (ap (λ r. (r, (m s).1)) e))
