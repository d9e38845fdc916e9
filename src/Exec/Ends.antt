-- ===== src/Exec/Ends.antt =====
-- Methods that return or raise within their fuel.
use reflake.Prelude.{◌≡◌, refl, ap, Bool, true, false}
use reflake.Domain.{Error, Result, ok, raise, diverge}
use reflake.Exec.{Exec, pure, throw, lift, ◌>>=◌, continue}
use reflake.Exec.Yields.{Yields}

module _ {ℓ κ} {S : Type ℓ} {A : Type κ} where
  -- The method returns or raises from the state.
  abbrev pub Ends : Exec S A → S → Type κ
  Ends m s = ◌≡◌ {A = Result A} (m s).0 diverge → ⊥

  pub lift-Ends : (r : Result A) (s : S) → (◌≡◌ {A = Result A} r diverge → ⊥) → Ends (lift r) s
  lift-Ends r s h = h

  pub pure-Ends : (a : A) (s : S) → Ends (pure a) s
  pure-Ends a s e = cc e

  pub throw-Ends : (x : Error) (s : S) → Ends (throw x) s
  throw-Ends x s e = cc e

  pub elim-Ends :
      (m k : Exec S A) (b : Bool) (s : S)
      → (b ≡ true → Ends m s)
      → (b ≡ false → Ends k s)
      → Ends (elim b [ true ↦ m | false ↦ k ]) s
  elim-Ends m k true s hm hk = hm refl
  elim-Ends m k false s hm hk = hk refl

continue-Ends {ℓ κ μ} :
    {S : Type ℓ} {A : Type κ} {B : Type μ} (r : Result A) (f : A → Exec S B) (s : S)
    → (◌≡◌ {A = Result A} r diverge → ⊥)
    → ((a : A) → r ≡ ok a → Ends (f a) s)
    → ◌≡◌ {A = Result B} (continue r f s).0 diverge
    → ⊥
continue-Ends (ok a) f s h k e = k a refl e
continue-Ends (raise x) f s h k e = cc e
continue-Ends diverge f s h k e = h refl

pub bind-Ends {ℓ κ μ} :
    {S : Type ℓ} {A : Type κ} {B : Type μ} (m : Exec S A) (f : A → Exec S B) (s : S)
    → Ends m s
    → ((a : A) (t : S) → Yields m s a t → Ends (f a) t)
    → Ends (m >>= f) s
bind-Ends m f s h k =
    continue-Ends (m s).0 f (m s).1 h (λ a e. k a (m s).1 (ap (λ r. (r, (m s).1)) e))
