-- ===== src/Repository/Generations.antt =====
-- The generation that `write_commit_object` of core/services/tree.py gives a commit, by those of its
-- parents.
use reflake.Prelude.{
  Str, ℕ, ◌+◌, ◌<◌, ◌≤◌, List, [], ◌∷◌, map, In, ◌≡◌, ◌≢◌, refl, ap, ◌⊎◌, inl, inr, list_eq, nat_eq,
  arith,
}
use reflake.Prelude.Dict.{get-nil}
use reflake.Domain.{ok}
use reflake.Graph.Generation.{IsHistory, maximum, derived_generation}
use reflake.Graph.Generation.Correct.{of_lem}
use reflake.Refs.Store.{Store}
use reflake.Refs.Manager.{read_some}
use reflake.Repository.{generation_of, generations_of}

-- A root has the generation 0; another commit has one more than a parent, and more than every one.
abbrev pub IsNext : (Str → ℕ) → List Str → ℕ → Type 0
IsNext gen parents g =
    ((parents ≡ []) → g ≡ 0)
    × ((p : Str) → In p parents → gen p < g)
    × ((parents ≢ []) → (p : Str) × In p parents × (g ≡ gen p + 1))

module _ (gen : Str → ℕ) where
  maximum_le : (ps : List Str) (p : Str) → In p ps → gen p ≤ maximum (map gen ps)
  unfolding maximum
  maximum_le [] p m = absurd m
  maximum_le (q ∷ ps) p (inl e) = omega (arith, ap gen e)
  maximum_le (q ∷ ps) p (inr m) = omega (arith, maximum_le ps p m)

  maximum-In :
      (q : Str) (ps : List Str) → (p : Str) × In p (q ∷ ps) × (maximum (map gen (q ∷ ps)) ≡ gen p)
  unfolding maximum
  maximum-In q [] = (q, inl refl, omega arith)
  maximum-In q (r ∷ ps) =
      let (p, m, e) = maximum-In r ps in
      elim (decide (maximum (map gen (r ∷ ps))) (gen q)) [
        | inl h ↦ (q, inl refl, omega (arith, h))
        | inr h ↦ (p, inr m, omega (arith, h, e))
      ]
    where
      decide : (a b : ℕ) → (a ≤ b) ⊎ (b < a)
      decide a b = ground arith

  pub derived_generation-IsNext :
      (parents : List Str) → IsNext gen parents (derived_generation (map gen parents))
  unfolding derived_generation
  derived_generation-IsNext [] = (λ e. refl, λ p m. absurd m, λ h. absurd (h refl))
  derived_generation-IsNext (q ∷ ps) = (
    λ e. absurd (cc e),
    λ p m. omega (arith, maximum_le (q ∷ ps) p m),
    λ h. (let (p, m, e) = maximum-In q ps in (p, m, omega (arith, e))),
  )

  module _ (s : Store) (nodes : List Str) (history : IsHistory (read_some s) nodes gen) (depth : ℕ)
      (deep : (x : Str) → In x nodes → gen x < depth) where
    generation_of-ok : (x : Str) → In x nodes → generation_of depth s x ≡ ok (gen x)
    unfolding generation_of
    generation_of-ok x m =
        let (memo, e, _) =
          of_lem gen (read_some s) nodes history depth x m (deep x m) []
            (λ y g q. cc (get-nil y)) in
        rw (e, generation_of) refl

    pub generations_of-ok :
        (parents : List Str)
        → ((p : Str) → In p parents → In p nodes)
        → generations_of depth s parents ≡ ok (map gen parents)
    unfolding generations_of
    generations_of-ok [] inside = refl
    generations_of-ok (p ∷ ps) inside =
        rw (generation_of-ok p (inside p (inl refl)), generations_of)
          (rw (generations_of-ok ps (λ q m. inside q (inr m))) refl)
