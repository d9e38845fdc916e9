-- ===== src/Prelude/Dict.antt =====
-- Python's `dict`: an association list in insertion order, and the laws that its users need.
use mathlib.Core.Path.{◌≡◌, refl}
use mathlib.Core.Logic.{◌≢◌, ◌↔◌}
use mathlib.Core.Option.{Option, none, some}
use mathlib.Core.List.{List, [], ◌∷◌}
use native.Mathlib.Omega.{arith}
use reflake.Prelude.Tests.{if◌then◌else◌}
use reflake.Prelude.Lists.{In}
use reflake.Prelude.Equality.{Eq, ◌==◌}

abbrev pub Dict : Type 0 → Type 0 → Type 0
Dict K V = List (K × V)

module _ {K V : Type 0} where
  abbrev pub keys : Dict K V → List K
  keys [] = []
  keys ((k, _) ∷ d) = k ∷ keys d

  abbrev pub values : Dict K V → List V
  values [] = []
  values ((_, v) ∷ d) = v ∷ values d

module _ {K V : Type 0} ⦃e : Eq K⦄ where
  -- `d.get(k)`
  unfoldable pub get : Dict K V → K → Option V
  get [] k = none
  get ((j, v) ∷ d) k = if k == j then some v else get d k

  -- `d[k] = v`
  unfoldable pub put : Dict K V → K → V → Dict K V
  put [] k v = (k, v) ∷ []
  put ((j, w) ∷ d) k v = if k == j then (k, v) ∷ d else (j, w) ∷ put d k v

  -- `d.pop(k, None)`
  unfoldable pub remove : Dict K V → K → Dict K V
  remove [] k = []
  remove ((j, w) ∷ d) k = let rest = remove d k in if k == j then rest else (j, w) ∷ rest

  pub get-nil : (k : K) → ◌≡◌ {A = Option V} (get [] k) none
  unfolding get
  get-nil k = refl

  pub get-put :
      (d : Dict K V) (k j : K) (v : V) → get (put d k v) j ≡ (if j == k then some v else get d j)
  unfolding get put
  get-put [] k j v = ground arith
  get-put ((i, w) ∷ d) k j v = ground (arith, get-put d k j v)

  pub get-put_self : (d : Dict K V) (k : K) (v : V) → get (put d k v) k ≡ some v
  get-put_self d k v = ground (arith, get-put d k k v)

  pub get-remove :
      (d : Dict K V) (k j : K) → get (remove d k) j ≡ (if j == k then none else get d j)
  unfolding get remove
  get-remove [] k j = ground arith
  get-remove ((i, w) ∷ d) k j = ground (arith, get-remove d k j)

  pub In-keys : (d : Dict K V) (k : K) → In k (keys d) ↔ (get d k ≢ none)
  unfolding get
  In-keys [] k = (λ h. absurd h, λ h. h refl)
  In-keys ((j, v) ∷ d) k = ground (arith, In-keys d k)
