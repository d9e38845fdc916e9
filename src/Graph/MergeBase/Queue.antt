-- ===== src/Graph/MergeBase/Queue.antt =====
-- The heap of `merge_base_commit`: its first item has the largest generation.
use reflake.Prelude.{
  Str, ℕ, suc, ◌≤◌, List, [], ◌∷◌, In, ◌⊎◌, inl, inr, ◌≡◌, ◌↔◌, refl, All, Bool-cases, ◌&&◌, ◌||◌,
  length, ltb, str_lt, ◌==◌, list_eq, nat_eq, arith,
}
use reflake.Graph.MergeBase.{Heap, heappush}

abbrev pub ids : Heap → List Str
ids [] = []
ids ((_, x) ∷ heap) = x ∷ ids heap

abbrev pub Descending : Heap → Type 0
Descending [] = Unit
Descending ((g, _) ∷ heap) = All (λ e. e.0 ≤ g) heap × Descending heap

pub ids-heappush :
    (g : ℕ) (x : Str) (heap : Heap) (y : Str)
    → In y (ids (heappush g x heap)) ↔ ((y ≡ x) ⊎ In y (ids heap))
unfolding heappush
ids-heappush g x [] y = ground arith
ids-heappush g x ((h, z) ∷ heap) y = elim (Bool-cases (ltb h g || (g == h && str_lt x z))) [
  | inl first ↦ rw first (ground arith)
  | inr later ↦ rw later (ground (arith, ids-heappush g x heap y))
]

pub length-heappush :
    (g : ℕ) (x : Str) (heap : Heap) → length (heappush g x heap) ≡ suc (length heap)
unfolding heappush
length-heappush g x [] = refl
length-heappush g x ((h, z) ∷ heap) = ground (arith, length-heappush g x heap)

pub heappush-All {ℓ} :
    (P : ℕ × Str → Type ℓ) (g : ℕ) (x : Str) (heap : Heap)
    → P (g, x)
    → All P heap
    → All P (heappush g x heap)
unfolding heappush
heappush-All P g x [] p ps = (p, tt)
heappush-All P g x ((h, z) ∷ heap) p (q, ps) =
    elim (Bool-cases (ltb h g || (g == h && str_lt x z))) [
      | inl first ↦ rw first (p, (q, ps))
      | inr later ↦ rw later (q, heappush-All P g x heap p ps)
    ]

All-le : (g h : ℕ) (heap : Heap) → h ≤ g → All (λ e. e.0 ≤ h) heap → All (λ e. e.0 ≤ g) heap
All-le g h [] le tt = tt
All-le g h (e ∷ heap) le (q, qs) = (omega arith, All-le g h heap le qs)

pub heappush-Descending :
    (g : ℕ) (x : Str) (heap : Heap) → Descending heap → Descending (heappush g x heap)
unfolding heappush
heappush-Descending g x [] d = (tt, tt)
heappush-Descending g x ((h, z) ∷ heap) (top, d) =
    elim (Bool-cases (ltb h g || (g == h && str_lt x z))) [
      | inl first ↦
          let le : h ≤ g = ground arith in rw first ((le, All-le g h heap le top), (top, d))
      | inr later ↦
          let le : g ≤ h = ground arith in
          rw later (heappush-All (λ e. e.0 ≤ h) g x heap le top, heappush-Descending g x heap d)
    ]

-- What is queued is no larger than the first item.
pub Descending-le :
    (gen : Str → ℕ) (g : ℕ) (heap : Heap) (y : Str)
    → All (λ e. e.0 ≤ g) heap
    → All (λ e. gen e.1 ≡ e.0) heap
    → In y (ids heap)
    → gen y ≤ g
Descending-le gen g [] y _ _ m = absurd m
Descending-le gen g ((h, z) ∷ heap) y (le, _) (e, _) (inl same) = ground (arith, e, same)
Descending-le gen g ((h, z) ∷ heap) y (_, top) (_, es) (inr m) = Descending-le gen g heap y top es m
