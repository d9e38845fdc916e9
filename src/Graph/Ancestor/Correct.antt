-- ===== src/Graph/Ancestor/Correct.antt =====
-- `is_ancestor_commit` decides reachability, and the pruning by generation loses nothing.
use reflake.Prelude.{
  Str, ℕ, zero, suc, ◌+◌, ◌≤◌, ◌<◌, List, [], ◌∷◌, In, ◌⊎◌, inl, inr, ⊎_elim, ◌≡◌, ◌≢◌, ◌↔◌, refl,
  sym, subst, ap, Bool, true, false, Bool-cases, Option, none, some, length, ◌==◌, ==_iff, list_eq,
  nat_eq, arith,
}
use reflake.Prelude.Dict.{get-nil}
use reflake.Domain.{CommitObject, Result, ok}
use reflake.Graph.Generation.{Memo, IsHistory, Ancestor, here, up}
use reflake.Graph.Generation.Correct.{IsMemo, of_lem}
use reflake.Graph.Ancestor.{
  Search, push_parents, is_pruned, expand, search_ancestor, target_generation, is_ancestor_commit,
}
use reflake.Graph.Ancestor.Push.{unseen, unseen-le, Pushes, push_parents-Pushes}

is_pruned-le :
    (target : Option ℕ) (g : ℕ) → is_pruned target g ≡ true → (t : ℕ) × (target ≡ some t) × (g ≤ t)
unfolding is_pruned
is_pruned-le none g h = cc
is_pruned-le (some t) g h = (t, refl, ground arith)

module _ (read : Str → Result (Option CommitObject)) where
  pub Ancestor-trans : {a b c : Str} → Ancestor read a b → Ancestor read b c → Ancestor read a c
  Ancestor-trans p here = p
  Ancestor-trans p (up e m q) = up e m (Ancestor-trans p q)

  module _ (nodes : List Str) (gen : Str → ℕ) (history : IsHistory read nodes gen) where
    -- An ancestor has a smaller generation, or is the commit itself.
    pub gen-Ancestor : {a d : Str} → In d nodes → Ancestor read a d → (a ≡ d) ⊎ (gen a < gen d)
    gen-Ancestor m here = inl refl
    gen-Ancestor {a} {d} m (up {p} {c} e n q) =
        let lt = history.grows d p c m e n in
        ⊎_elim (λ same. inr (subst (λ x. gen x < gen d) (sym same) lt))
          (λ less. inr (omega (arith, lt))) (gen-Ancestor (history.closed d p c m e n) q)

    -- All that can lead from `y` to the ancestor has been seen.
    abbrev Passed : Str → Str → List Str → Type 0
    Passed a y seen =
        (p : Str) (c : CommitObject)
        → read y ≡ ok (some c)
        → In p c.parents
        → Ancestor read a p
        → In p seen

    module _ (a d : Str) where
      record Inv (s : Search) : Type 0 where
        right : IsMemo gen s.memo
        inside : (x : Str) → In x s.stack → In x nodes
        below : (x : Str) → In x s.stack → Ancestor read x d
        source : In d s.seen
        settled : (y : Str) → In y s.seen → In y s.stack ⊎ ((y ≢ a) × Passed a y s.seen)

    -- With an empty stack the ancestor was not met on any path.
    exhausted :
        {a d y : Str} (s : Search) → s.stack ≡ [] → Inv a d s → Ancestor read a y → In y s.seen → ⊥
    exhausted {a} s empty h here m = elim (h.settled a m) [
      | inl waits ↦ subst (In a) empty waits
      | inr (ne, _) ↦ ne refl
    ]
    exhausted {y} s empty h (up {p} {c} e n q) m = elim (h.settled y m) [
      | inl waits ↦ subst (In y) empty waits
      | inr (_, parents) ↦ exhausted s empty h q (parents p c e n q)
    ]

    -- An ancestor's generation is no larger.
    pub le-Ancestor : {a d : Str} → In d nodes → Ancestor read a d → gen a ≤ gen d
    le-Ancestor m q = ⊎_elim (λ e. omega (arith, ap gen e)) (λ lt. omega arith) (gen-Ancestor m q)

    module _ (a d : Str) (target : Option ℕ) (fits : (g : ℕ) → target ≡ some g → gen a ≡ g) where
      -- A commit is pruned only if the ancestor cannot lie above it.
      pruned :
          (x p : Str) (c : CommitObject)
          → In x nodes
          → is_pruned target (gen x) ≡ true
          → read x ≡ ok (some c)
          → In p c.parents
          → ¬ Ancestor read a p
      pruned x p c m cut e n q =
          let (t, is_target, le) = is_pruned-le target (gen x) cut in
          omega (
            arith,
            fits t is_target,
            le-Ancestor (history.closed x p c m e n) q,
            history.grows x p c m e n,
          )

      module _ (x : Str) (rest seen : List Str) (memo : Memo) (ne : x ≢ a)
          (h : Inv a d (record { seen = seen; stack = x ∷ rest; memo = memo })) where
        -- The invariant after a round, once `x` itself is settled.
        settled_after :
            (t : Search)
            → IsMemo gen t.memo
            → ((y : Str) → In y t.stack → In y nodes)
            → ((y : Str) → In y t.stack → Ancestor read y d)
            → ((y : Str) → In y seen → In y t.seen)
            → ((y : Str) → In y rest → In y t.stack)
            → ((y : Str) → In y t.seen → In y seen ⊎ In y t.stack)
            → Passed a x t.seen
            → Inv a d t
        settled_after t right inside below kept waiting origin done = record {
          right = right;
          inside = inside;
          below = below;
          source = kept d h.source;
          settled = λ y m. ⊎_elim (λ n. old y (h.settled y n)) inl (origin y m);
        }
          where
            old :
                (y : Str)
                → In y (x ∷ rest) ⊎ ((y ≢ a) × Passed a y seen)
                → In y t.stack ⊎ ((y ≢ a) × Passed a y t.seen)
            old y (inl (inl e)) = inr (subst (λ z. (z ≢ a) × Passed a z t.seen) (sym e) (ne, done))
            old y (inl (inr m)) = inl (waiting y m)
            old y (inr (apart, parents)) = inr (apart, λ p c e n q. kept p (parents p c e n q))

        -- Nothing is queued: the commit is unknown, or pruned.
        stop :
            (memo' : Memo)
            → IsMemo gen memo'
            → ((p : Str) (c : CommitObject)
                → read x ≡ ok (some c)
                → In p c.parents
                → ¬ Ancestor read a p)
            → Inv a d (record { seen = seen; stack = rest; memo = memo' })
        stop memo' right none_above =
            settled_after _ right (λ y m. h.inside y (inr m)) (λ y m. h.below y (inr m)) (λ y m. m)
              (λ y m. m) (λ y m. inl m) (λ p c e n q. absurd (none_above p c e n q))

        continue :
            (memo' : Memo) (c : CommitObject) (t : Search)
            → IsMemo gen memo'
            → read x ≡ ok (some c)
            → Pushes nodes c.parents (record { seen = seen; stack = rest; memo = memo' }) t
            → Inv a d t
        continue memo' c t right e pushes =
            settled_after t (rw pushes.memo right)
              (λ y m. ⊎_elim (λ n. h.inside y (inr n)) (λ n. parent y n) (pushes.stack_sound y m))
              (λ y m.
                ⊎_elim (λ n. h.below y (inr n))
                  (λ n. Ancestor-trans (up e n here) (h.below x (inl refl)))
                  (pushes.stack_sound y m))
              pushes.seen_kept pushes.stack_kept pushes.queued
              (λ p c' e' n q.
                pushes.covers p (subst (λ (k : CommitObject). In p k.parents) (same c' e') n))
          where
            parent : (y : Str) → In y c.parents → In y nodes
            parent y n = history.closed x y c (h.inside x (inl refl)) e n

            same : (c' : CommitObject) → read x ≡ ok (some c') → c' ≡ c
            same c' e' = cc

      -- One round of the loop, at a commit that is not the ancestor.
      expand-Inv :
          (depth : ℕ) (x : Str) (rest seen : List Str) (memo : Memo)
          → ((y : Str) → In y nodes → gen y < depth)
          → x ≢ a
          → Inv a d (record { seen = seen; stack = x ∷ rest; memo = memo })
          → (t : Search) × (expand read depth target x
                (record { seen = seen; stack = rest; memo = memo })
              ≡ ok t)
            × Inv a d t
            × (unseen nodes t.seen + length t.stack ≤ unseen nodes seen + length rest)
      unfolding expand
      expand-Inv depth x rest seen memo deep ne h =
          let (o, e) = history.known x (h.inside x (inl refl)) in round o e
        where
          round :
              (o : Option CommitObject)
              → read x ≡ ok o
              → (t : Search) × (expand read depth target x
                    (record { seen = seen; stack = rest; memo = memo })
                  ≡ ok t)
                × Inv a d t
                × (unseen nodes t.seen + length t.stack ≤ unseen nodes seen + length rest)
          round none e = (
            record { seen = seen; stack = rest; memo = memo },
            rw e,
            stop x rest seen memo ne h memo h.right (λ p c e' n q. cc),
            omega arith,
          )
          round (some c) e =
              let m = h.inside x (inl refl) in
              let (memo', found, right) =
                of_lem gen read nodes history depth x m (deep x m) memo h.right in
              elim (Bool-cases (is_pruned target (gen x))) [
                | inl cut ↦ (
                  record { seen = seen; stack = rest; memo = memo' },
                  rw (e, found, cut),
                  stop x rest seen memo ne h memo' right
                      (λ p c' e' n q. pruned x p c' m cut e' n q),
                  omega arith,
                )
                | inr open_ ↦
                    let s : Search = record { seen = seen; stack = rest; memo = memo' } in
                    let pushes =
                      push_parents-Pushes nodes c.parents s (λ p n. history.closed x p c m e n) in
                    (
                      push_parents c.parents s,
                      rw (e, found, open_),
                      continue x rest seen memo ne h memo' c _ right e pushes,
                      pushes.work,
                    )
              ]

      search_ancestor-Inv :
          (depth fuel : ℕ) (stack seen : List Str) (memo : Memo)
          → ((y : Str) → In y nodes → gen y < depth)
          → Inv a d (record { seen = seen; stack = stack; memo = memo })
          → unseen nodes seen + length stack < fuel
          → (b : Bool) × (search_ancestor read depth fuel target a
                (record { seen = seen; stack = stack; memo = memo })
              ≡ ok b)
            × ((b ≡ true) ↔ Ancestor read a d)
      unfolding search_ancestor
      search_ancestor-Inv depth zero stack seen memo deep h lt = absurd (omega arith)
      search_ancestor-Inv depth (suc fuel) [] seen memo deep h lt =
          (false, refl, (λ e. cc, λ q. absurd (exhausted _ refl h q h.source)))
      search_ancestor-Inv depth (suc fuel) (x ∷ rest) seen memo deep h lt =
          elim (Bool-cases (x == a)) [
            | inl found ↦
                let e : x ≡ a = (==_iff x a).0 found in
                (
                  true,
                  rw (found, search_ancestor),
                  (λ _. subst (λ y. Ancestor read y d) e (h.below x (inl refl)), λ _. refl),
                )
            | inr other ↦
                let (t, e, h', work) =
                  expand-Inv depth x rest seen memo deep (λ same. ground (arith, ==_iff x a)) h in
                let (b, ends, decides) =
                  search_ancestor-Inv depth fuel t.stack t.seen t.memo deep h' (omega arith) in
                (b, rw (other, search_ancestor) (rw e ends), decides)
          ]

    -- In a history, with recursion deeper than every generation and fuel for each commit and one
    -- more round, `is_ancestor_commit` returns, and returns True exactly if the first commit is
    -- reachable from the second over parents.
    pub is_ancestor_commit_lem :
        (depth fuel : ℕ) (a d : Str)
        → ((y : Str) → In y nodes → gen y < depth)
        → In a nodes
        → In d nodes
        → length nodes + 1 < fuel
        → (b : Bool) × (is_ancestor_commit read depth fuel a d ≡ ok b)
          × ((b ≡ true) ↔ Ancestor read a d)
    unfolding is_ancestor_commit
    is_ancestor_commit_lem depth fuel a d deep ma md lt = elim (Bool-cases (a == d)) [
      | inl same ↦
          let e : a ≡ d = (==_iff a d).0 same in
          (
            true,
            rw (same, is_ancestor_commit),
            (λ _. subst (λ y. Ancestor read a y) e here, λ _. refl),
          )
      | inr differ ↦
          let (target, memo, e, fits, right) = aim (history.known a ma) in
          let (b, ends, decides) =
            search_ancestor-Inv a d target fits depth fuel (d ∷ []) (d ∷ []) memo deep
              (start memo right) (omega (arith, unseen-le nodes (d ∷ []))) in
          (b, rw (differ, is_ancestor_commit) (rw e ends), decides)
    ]
      where
        aim :
            (o : Option CommitObject) × (read a ≡ ok o)
            → (target : Option ℕ) × (memo : Memo) × (target_generation read depth a
                ≡ ok (target, memo))
              × ((g : ℕ) → target ≡ some g → gen a ≡ g)
              × IsMemo gen memo
        aim (none, e) = (none, [], rw (e, target_generation), (λ g h. cc), λ x g h. cc (get-nil x))
        aim (some c, e) =
            let (memo, found, right) =
              of_lem gen read nodes history depth a ma (deep a ma) [] (λ x g h. cc (get-nil x)) in
            (some (gen a), memo, rw (e, found, target_generation), (λ g h. cc), right)

        start :
            (memo : Memo)
            → IsMemo gen memo
            → Inv a d (record { seen = d ∷ []; stack = d ∷ []; memo = memo })
        start memo right = record {
          right = right;
          inside = λ x m. ⊎_elim (λ e. subst (λ y. In y nodes) (sym e) md) (λ n. absurd n) m;
          below =
              λ x m. ⊎_elim (λ e. subst (λ y. Ancestor read y d) (sym e) here) (λ n. absurd n) m;
          source = inl refl;
          settled = λ y m. inl m;
        }
