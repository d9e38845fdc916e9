-- ===== src/Walk/Correct.antt =====
-- The loop ends within the number of edges, and collects exactly what is reachable.
use mathlib.Core.List.{reverse}
use reflake.Prelude.{
  Str, ℕ, zero, suc, ◌+◌, ◌≤◌, ◌<◌, List, [], ◌∷◌, ◌++◌, In, In-append, In-reverse, ◌≡◌, refl, sym,
  subst, ap, ◌⊎◌, inl, inr, ⊎_elim, ◌↔◌, true, false, contains, contains-In, length, length-append,
  length-reverse, if◌then◌else◌, Bool-cases, list_eq, nat_eq, arith,
}
use reflake.Domain.{Result, ok}
use reflake.Walk.{walk, Reach, root, edge}

module _ (next : Str → Result (List Str)) where
  -- The successors of a node of `nodes` can be read, and are nodes.
  abbrev pub IsClosed : List Str → Type 0
  IsClosed nodes =
      (x : Str)
      → In x nodes
      → (more : List Str) × (next x ≡ ok more) × ((y : Str) → In y more → In y nodes)

  abbrev degree : Result (List Str) → ℕ
  degree (ok more) = length more
  degree _ = 0

  -- The edges out of the nodes that are still to be collected.
  abbrev pub budget : List Str → List Str → ℕ
  budget [] seen = 0
  budget (x ∷ nodes) seen = (if contains seen x then 0 else degree (next x)) + budget nodes seen

  budget_mono : (nodes seen : List Str) (x : Str) → budget nodes (x ∷ seen) ≤ budget nodes seen
  budget_mono [] seen x = omega arith
  budget_mono (y ∷ nodes) seen x = ground (arith, budget_mono nodes seen x)

  pub budget_le : (nodes seen : List Str) → budget nodes seen ≤ budget nodes []
  budget_le nodes [] = omega arith
  budget_le nodes (x ∷ seen) = omega (arith, budget_mono nodes seen x, budget_le nodes seen)

  budget-visit :
      (nodes seen : List Str) (x : Str)
      → In x nodes
      → contains seen x ≡ false
      → budget nodes (x ∷ seen) + degree (next x) ≤ budget nodes seen
  budget-visit [] seen x m fresh = absurd m
  budget-visit (y ∷ nodes) seen x m fresh =
      ground (arith, budget_mono nodes seen x, budget-visit nodes seen x)

  module _ (nodes old roots : List Str) (closed : IsClosed nodes) where
    record Inv (seen stack : List Str) : Type 0 where
      inside : (x : Str) → In x stack → In x nodes
      sound_seen : (x : Str) → In x seen → In x old ⊎ Reach next roots x
      sound_stack : (x : Str) → In x stack → Reach next roots x
      kept : (x : Str) → In x old → In x seen
      rooted : (x : Str) → In x roots → In x seen ⊎ In x stack
      full :
          (x y : Str) (more : List Str)
          → In x seen
          → next x ≡ ok more
          → In y more
          → In y seen ⊎ In y stack

    Inv-skip :
        (x : Str) (seen rest : List Str)
        → contains seen x ≡ true
        → Inv seen (x ∷ rest)
        → Inv seen rest
    Inv-skip x seen rest known h = record {
      inside = λ y m. h.inside y (inr m);
      sound_seen = h.sound_seen;
      sound_stack = λ y m. h.sound_stack y (inr m);
      kept = h.kept;
      rooted = λ y m. settle y (h.rooted y m);
      full = λ y z more m e n. settle z (h.full y z more m e n);
    }
      where
        settle : (y : Str) → In y seen ⊎ ((y ≡ x) ⊎ In y rest) → In y seen ⊎ In y rest
        settle y (inl m) = inl m
        settle y (inr (inl e)) = inl (subst (λ z. In z seen) (sym e) ((contains-In seen x).0 known))
        settle y (inr (inr m)) = inr m

    Inv-expand :
        (x : Str) (seen rest more : List Str)
        → next x ≡ ok more
        → Inv seen (x ∷ rest)
        → Inv (x ∷ seen) (reverse more ++ rest)
    Inv-expand x seen rest more e h = record {
      inside = λ y m. ⊎_elim (λ n. new y n) (λ n. h.inside y (inr n)) (pushed y m);
      sound_seen =
          λ y m. ⊎_elim (λ q. inr (subst (Reach next roots) (sym q) reached)) (h.sound_seen y) m;
      sound_stack = λ y m. ⊎_elim (edge reached e) (λ n. h.sound_stack y (inr n)) (pushed y m);
      kept = λ y m. inr (h.kept y m);
      rooted = λ y m. settle y (h.rooted y m);
      full = λ y z more' m e' n. spread y z more' m e' n;
    }
      where
        reached : Reach next roots x
        reached = h.sound_stack x (inl refl)

        pushed : (y : Str) → In y (reverse more ++ rest) → In y more ⊎ In y rest
        pushed y m = ground (arith, In-append y (reverse more) rest, In-reverse y more)

        placed : (y : Str) → In y more ⊎ In y rest → In y (reverse more ++ rest)
        placed y m = ground (arith, In-append y (reverse more) rest, In-reverse y more)

        new : (y : Str) → In y more → In y nodes
        new y m =
            let (known, e', inside) = closed x (h.inside x (inl refl)) in
            inside y (subst (In y) (same known e') m)
          where
            same : (known : List Str) → next x ≡ ok known → more ≡ known
            same known e' = cc

        settle :
            (y : Str)
            → In y seen ⊎ ((y ≡ x) ⊎ In y rest)
            → In y (x ∷ seen) ⊎ In y (reverse more ++ rest)
        settle y (inl m) = inl (inr m)
        settle y (inr (inl q)) = inl (inl q)
        settle y (inr (inr m)) = inr (placed y (inr m))

        spread :
            (y z : Str) (more' : List Str)
            → In y (x ∷ seen)
            → next y ≡ ok more'
            → In z more'
            → In z (x ∷ seen) ⊎ In z (reverse more ++ rest)
        spread y z more' (inl q) e' n = inr (placed z (inl (subst (In z) (same) n)))
          where
            same : more' ≡ more
            same = cc
        spread y z more' (inr m) e' n = settle z (h.full y z more' m e' n)

    finished :
        (seen : List Str)
        → ((x y : Str) (more : List Str) → In x old → next x ≡ ok more → In y more → In y old)
        → Inv seen []
        → (x : Str) → In x seen ↔ (In x old ⊎ Reach next roots x)
    finished seen stable h x = (h.sound_seen x, λ r. ⊎_elim (h.kept x) collected r)
      where
        done : (y : Str) → In y seen ⊎ In y [] → In y seen
        done y (inl m) = m
        done y (inr m) = absurd m

        collected : {y : Str} → Reach next roots y → In y seen
        collected (root {x = y} m) = done y (h.rooted y m)
        collected (edge {x = y} {y = z} {more} r e m) = done z (h.full y z more (collected r) e m)

    -- With more fuel than edges and roots the loop returns what was collected before it and all
    -- that is reachable from the roots.
    walk-Inv :
        ((x y : Str) (more : List Str) → In x old → next x ≡ ok more → In y more → In y old)
        → (fuel : ℕ) (seen stack : List Str) → Inv seen stack
        → budget nodes seen + length stack < fuel
        → (out : List Str) × (walk next fuel seen stack ≡ ok out)
          × ((x : Str) → In x out ↔ (In x old ⊎ Reach next roots x))
    unfolding walk
    walk-Inv stable zero seen stack h lt = absurd (omega arith)
    walk-Inv stable (suc fuel) seen [] h lt = (seen, refl, finished seen stable h)
    walk-Inv stable (suc fuel) seen (x ∷ rest) h lt = elim (Bool-cases (contains seen x)) [
      | inl known ↦
          let (out, ends, all) =
            walk-Inv stable fuel seen rest (Inv-skip x seen rest known h) (omega arith) in
          (out, rw known ends, all)
      | inr fresh ↦
          let (more, e, _) = closed x (h.inside x (inl refl)) in
          let (out, ends, all) =
            walk-Inv stable fuel (x ∷ seen) (reverse more ++ rest) (Inv-expand x seen rest more e h)
              (shrinks more e fresh) in
          (out, rw (fresh, e) ends, all)
    ]
      where
        shrinks :
            (more : List Str)
            → next x ≡ ok more
            → contains seen x ≡ false
            → budget nodes (x ∷ seen) + length (reverse more ++ rest) < fuel
        shrinks more e fresh = omega (
          arith,
          length-append (reverse more) rest,
          length-reverse more,
          budget-visit nodes seen x (h.inside x (inl refl)) fresh,
          ap degree e,
        )

    -- The loop from a set `old` that is closed under successors, and a stack of nodes: with fuel
    -- for the edges that are left and the stack, it returns `old` and all that is reachable from
    -- the stack, and nothing else.
    pub walk_lem :
        ((x y : Str) (more : List Str) → In x old → next x ≡ ok more → In y more → In y old)
        → ((x : Str) → In x roots → In x nodes)
        → (fuel : ℕ) → budget nodes old + length roots < fuel
        → (out : List Str) × (walk next fuel old roots ≡ ok out)
          × ((x : Str) → In x out ↔ (In x old ⊎ Reach next roots x))
    walk_lem stable inside fuel lt = walk-Inv stable fuel old roots start lt
      where
        start : Inv old roots
        start = record {
          inside = inside;
          sound_seen = λ x m. inl m;
          sound_stack = λ x m. root m;
          kept = λ x m. m;
          rooted = λ x m. inr m;
          full = λ x y more m e n. inl (stable x y more m e n);
        }
