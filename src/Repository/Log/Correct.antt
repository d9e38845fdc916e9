-- ===== src/Repository/Log/Correct.antt =====
-- The log holds every reachable commit once, the newest first.
use mathlib.Core.List.{reverse}
use reflake.Prelude.{
  Str, str_lt, ℕ, zero, suc, ◌+◌, ◌<◌, List, [], ◌∷◌, ◌++◌, map, true, false, ◌≡◌, ◌≢◌, refl, sym,
  ap, subst, ◌∙◌, ◌⊎◌, ◌↔◌, inl, inr, ⊎_elim, In, All, contains, contains-In, Bool-cases, list_eq,
  nat_eq, arith,
}
use reflake.Prelude.Order.{str_lt-total, str_lt_trans}
use reflake.Domain.{CommitObject, Result, ok, raise, diverge, ◌>>=◌}
use reflake.Walk.{visit, walk, Reach, root, edge}
use reflake.Walk.Correct.{IsClosed, budget, walk_lem}
use reflake.Trees.Walker.Round.{bind-ok}
use reflake.Repository.Log.{collect, Keyed, is_newer, insert_keyed, sort_keyed, with_keys, log_from}

abbrev ids : List CommitObject → List Str
ids cs = map (λ c. c.id) cs

-- No commit is seen or comes twice.
abbrev IsFresh : List Str → List CommitObject → Type 0
IsFresh seen [] = Unit
IsFresh seen (c ∷ cs) = (contains seen c.id ≡ false) × IsFresh (c.id ∷ seen) cs

module _ (read : Str → Result CommitObject) where
  abbrev pub parents_of : Str → Result (List Str)
  parents_of x = read x >>= λ c. ok c.parents

  walk-seen :
      (fuel : ℕ) (seen : List Str) (x : Str) (stack : List Str)
      → contains seen x ≡ true
      → walk parents_of (suc fuel) seen (x ∷ stack) ≡ walk parents_of fuel seen stack
  unfolding walk visit
  walk-seen fuel seen x stack h = rw h refl

  walk-new :
      (fuel : ℕ) (seen : List Str) (x : Str) (stack : List Str) (r : Result CommitObject)
      → contains seen x ≡ false
      → read x ≡ r
      → walk parents_of (suc fuel) seen (x ∷ stack)
        ≡ (r >>= λ c. walk parents_of fuel (x ∷ seen) (reverse c.parents ++ stack))
  unfolding walk visit
  walk-new fuel seen x stack (ok c) h e = rw (h, e) refl
  walk-new fuel seen x stack (raise z) h e = rw (h, e) refl
  walk-new fuel seen x stack diverge h e = rw (h, e) refl

  collect-seen :
      (fuel : ℕ) (seen : List Str) (x : Str) (stack : List Str)
      → contains seen x ≡ true
      → collect read (suc fuel) seen (x ∷ stack) ≡ collect read fuel seen stack
  unfolding collect
  collect-seen fuel seen x stack h = rw (h, collect) refl

  collect-new :
      (fuel : ℕ) (seen : List Str) (x : Str) (stack : List Str) (c : CommitObject)
      → contains seen x ≡ false
      → read x ≡ ok c
      → collect read (suc fuel) seen (x ∷ stack)
        ≡ (collect read fuel (x ∷ seen) (reverse c.parents ++ stack) >>= λ more. ok (c ∷ more))
  unfolding collect
  collect-new fuel seen x stack c h e = rw (h, e, collect) refl

  -- The loop keeps in step with the walk over the parents.
  collect-walk :
      ((x : Str) (c : CommitObject) → read x ≡ ok c → c.id ≡ x)
      → (fuel : ℕ) (seen stack out : List Str) → walk parents_of fuel seen stack ≡ ok out
      → (cs : List CommitObject) × (collect read fuel seen stack ≡ ok cs)
        × ((x : Str) → In x out ↔ (In x seen ⊎ In x (ids cs)))
        × IsFresh seen cs
  unfolding walk collect
  collect-walk named zero seen stack out e = absurd (cc e)
  collect-walk named (suc fuel) seen [] out e =
      let same : seen ≡ out = cc e in
      (
        [],
        refl,
        (λ x. (
          λ m. inl (subst (λ l. In x l) (sym same) m),
          λ m. subst (λ l. In x l) same (⊎_elim (λ h. h) (λ h. absurd h) m),
        )),
        tt,
      )
  collect-walk named (suc fuel) seen (x ∷ stack) out e = elim (Bool-cases (contains seen x)) [
    | inl h ↦
        let (cs, r, exact, fresh) =
          collect-walk named fuel seen stack out (sym (walk-seen fuel seen x stack h) ∙ e) in
        (cs, collect-seen fuel seen x stack h ∙ r, exact, fresh)
    | inr h ↦
        let (c, q, e') =
          bind-ok (read x) (λ c. walk parents_of fuel (x ∷ seen) (reverse c.parents ++ stack)) out
            (sym (walk-new fuel seen x stack (read x) h refl) ∙ e) in
        let (cs, r, exact, fresh) =
          collect-walk named fuel (x ∷ seen) (reverse c.parents ++ stack) out e' in
        let id = named x c q in
        (
          c ∷ cs,
          collect-new fuel seen x stack c h q ∙ ap (λ m. m >>= λ more. ok (c ∷ more)) r,
          (λ y. (λ m. moved y c cs id ((exact y).0 m), λ m. (exact y).1 (back y c cs id m))),
          (ap (contains seen) id ∙ h, subst (λ k. IsFresh (k ∷ seen) cs) (sym id) fresh),
        )
  ]
    where
      moved :
          (y : Str) (c : CommitObject) (cs : List CommitObject)
          → c.id ≡ x
          → In y (x ∷ seen) ⊎ In y (ids cs)
          → In y seen ⊎ In y (c.id ∷ ids cs)
      moved y c cs id (inl (inl q)) = inr (inl (q ∙ sym id))
      moved y c cs id (inl (inr m)) = inl m
      moved y c cs id (inr m) = inr (inr m)

      back :
          (y : Str) (c : CommitObject) (cs : List CommitObject)
          → c.id ≡ x
          → In y seen ⊎ In y (c.id ∷ ids cs)
          → In y (x ∷ seen) ⊎ In y (ids cs)
      back y c cs id (inl m) = inl (inr m)
      back y c cs id (inr (inl q)) = inl (inl (q ∙ id))
      back y c cs id (inr (inr m)) = inr m

-- `k` comes before `x` in a log: its generation is larger, or they have the same generation and its
-- id is smaller.
abbrev pub Precedes : Keyed → Keyed → Type 0
Precedes k x = (x.0 < k.0) ⊎ ((k.0 ≡ x.0) × (str_lt k.1.id x.1.id ≡ true))

-- Each commit comes before all that follow it: none comes twice.
abbrev pub IsLog : List Keyed → Type 0
IsLog [] = Unit
IsLog (k ∷ ks) = All (Precedes k) ks × IsLog ks

-- Sorted by the comparison of the sort.
abbrev IsSorted : List Keyed → Type 0
IsSorted [] = Unit
IsSorted (k ∷ ks) = All (λ x. is_newer k x ≡ true) ks × IsSorted ks

is_newer-Precedes : (k x : Keyed) → is_newer k x ≡ true → Precedes k x
unfolding is_newer
is_newer-Precedes (g, c) (h, d) e = ground arith

newer-Precedes :
    (k : Keyed) (ks : List Keyed) → All (λ x. is_newer k x ≡ true) ks → All (Precedes k) ks
newer-Precedes k [] h = tt
newer-Precedes k (x ∷ ks) (h, hs) = (is_newer-Precedes k x h, newer-Precedes k ks hs)

IsSorted-IsLog : (ks : List Keyed) → IsSorted ks → IsLog ks
IsSorted-IsLog [] h = tt
IsSorted-IsLog (k ∷ ks) (h, hs) = (newer-Precedes k ks h, IsSorted-IsLog ks hs)

abbrev pub keyed_ids : List Keyed → List Str
keyed_ids ks = map (λ (g, c). c.id) ks

is_newer_trans : (a b c : Keyed) → is_newer a b ≡ true → is_newer b c ≡ true → is_newer a c ≡ true
unfolding is_newer
is_newer_trans (g, c) (h, d) (i, e) p q = ground (arith, str_lt_trans c.id d.id e.id)

is_newer-total : (a b : Keyed) → (a.1.id ≢ b.1.id) → is_newer a b ≡ false → is_newer b a ≡ true
unfolding is_newer
is_newer-total (g, c) (h, d) apart p = ground (arith, str_lt-total c.id d.id)

newer-All :
    (a b : Keyed) (ks : List Keyed)
    → is_newer a b ≡ true
    → All (λ x. is_newer b x ≡ true) ks
    → All (λ x. is_newer a x ≡ true) ks
newer-All a b [] h k = tt
newer-All a b (x ∷ ks) h (k, ks') = (is_newer_trans a b x h k, newer-All a b ks h ks')

insert_keyed-All :
    (a k : Keyed) (ks : List Keyed)
    → is_newer a k ≡ true
    → All (λ x. is_newer a x ≡ true) ks
    → All (λ x. is_newer a x ≡ true) (insert_keyed k ks)
unfolding insert_keyed
insert_keyed-All a k [] h hs = (h, tt)
insert_keyed-All a k (x ∷ ks) h (hx, hs) = elim (Bool-cases (is_newer x k)) [
  | inl y ↦ rw y (hx, insert_keyed-All a k ks h hs)
  | inr y ↦ rw y (h, (hx, hs))
]

insert_keyed-IsSorted :
    (k : Keyed) (ks : List Keyed)
    → ((x : Keyed) → In x ks → x.1.id ≢ k.1.id)
    → IsSorted ks
    → IsSorted (insert_keyed k ks)
unfolding insert_keyed
insert_keyed-IsSorted k [] apart h = (tt, tt)
insert_keyed-IsSorted k (x ∷ ks) apart (h, hs) = elim (Bool-cases (is_newer x k)) [
  | inl y ↦
      rw y (insert_keyed-All x k ks y h, insert_keyed-IsSorted k ks (λ z m. apart z (inr m)) hs)
  | inr y ↦
      let newer = is_newer-total x k (apart x (inl refl)) y in
      rw y ((newer, newer-All k x ks newer h), (h, hs))
]

In-insert_keyed : (z k : Keyed) (ks : List Keyed) → In z (insert_keyed k ks) ↔ ((z ≡ k) ⊎ In z ks)
unfolding insert_keyed
In-insert_keyed z k [] = (λ h. h, λ h. h)
In-insert_keyed z k (x ∷ ks) = ground (arith, In-insert_keyed z k ks)

In-sort_keyed : (z : Keyed) (ks : List Keyed) → In z (sort_keyed ks) ↔ In z ks
unfolding sort_keyed
In-sort_keyed z [] = (λ h. h, λ h. h)
In-sort_keyed z (k ∷ ks) = ground (arith, In-insert_keyed z k (sort_keyed ks), In-sort_keyed z ks)

In-keyed_ids : (z : Keyed) (ks : List Keyed) → In z ks → In z.1.id (keyed_ids ks)
In-keyed_ids z [] m = absurd m
In-keyed_ids z (k ∷ ks) (inl q) = inl (ap (λ k. k.1.id) q)
In-keyed_ids z (k ∷ ks) (inr m) = inr (In-keyed_ids z ks m)

In-insert_ids :
    (x : Str) (k : Keyed) (ks : List Keyed)
    → In x (keyed_ids (insert_keyed k ks)) ↔ ((x ≡ k.1.id) ⊎ In x (keyed_ids ks))
unfolding insert_keyed
In-insert_ids x k [] = (λ h. h, λ h. h)
In-insert_ids x k (y ∷ ks) = elim (Bool-cases (is_newer y k)) [
  | inl e ↦ rw e (ground (arith, In-insert_ids x k ks))
  | inr e ↦ rw e (λ h. h, λ h. h)
]

In-sort_ids : (x : Str) (ks : List Keyed) → In x (keyed_ids (sort_keyed ks)) ↔ In x (keyed_ids ks)
unfolding sort_keyed
In-sort_ids x [] = (λ h. h, λ h. h)
In-sort_ids x (k ∷ ks) = ground (arith, In-insert_ids x k (sort_keyed ks), In-sort_ids x ks)

fresh-apart :
    (seen : List Str) (cs : List CommitObject) (x : Str)
    → IsFresh seen cs
    → In x seen
    → In x (ids cs)
    → ⊥
fresh-apart seen [] x f m n = n
fresh-apart seen (c ∷ cs) x (f, fs) m (inl q) =
    cc ((contains-In seen c.id).1 (subst (λ y. In y seen) q m), f)
fresh-apart seen (c ∷ cs) x (f, fs) m (inr n) = fresh-apart (c.id ∷ seen) cs x fs (inr m) n

module _ (gen : Str → ℕ) where
  abbrev keyed : List CommitObject → List Keyed
  keyed cs = map (λ c. (gen c.id, c)) cs

  keyed_ids-keyed : (cs : List CommitObject) → keyed_ids (keyed cs) ≡ ids cs
  keyed_ids-keyed [] = refl
  keyed_ids-keyed (c ∷ cs) = ap (λ l. c.id ∷ l) (keyed_ids-keyed cs)

  keyed-generation : (cs : List CommitObject) (z : Keyed) → In z (keyed cs) → z.0 ≡ gen z.1.id
  keyed-generation [] z m = absurd m
  keyed-generation (c ∷ cs) z (inl q) = ap (λ k. k.0) q ∙ ap (λ k. gen k.1.id) (sym q)
  keyed-generation (c ∷ cs) z (inr m) = keyed-generation cs z m

  sort_keyed-IsSorted :
      (seen : List Str) (cs : List CommitObject)
      → IsFresh seen cs
      → IsSorted (sort_keyed (keyed cs))
  unfolding sort_keyed
  sort_keyed-IsSorted seen [] f = tt
  sort_keyed-IsSorted seen (c ∷ cs) (f, fs) =
      insert_keyed-IsSorted (gen c.id, c) (sort_keyed (keyed cs))
        (λ z m q. fresh-apart (c.id ∷ seen) cs c.id fs (inl refl) (
          subst (λ l. In c.id l) (keyed_ids-keyed cs)
            (subst (λ y. In y (keyed_ids (keyed cs))) q
              (In-keyed_ids z (keyed cs) ((In-sort_keyed z (keyed cs)).0 m)))))
        (sort_keyed-IsSorted (c.id ∷ seen) cs fs)

  with_keys-ok :
      (generation : Str → Result ℕ) (cs : List CommitObject)
      → ((x : Str) → In x (ids cs) → generation x ≡ ok (gen x))
      → with_keys generation cs ≡ ok (keyed cs)
  unfolding with_keys
  with_keys-ok generation [] h = refl
  with_keys-ok generation (c ∷ cs) h =
      rw (h c.id (inl refl), with_keys-ok generation cs (λ x m. h x (inr m))) refl

  module _ (read : Str → Result CommitObject) (nodes : List Str) where
    Reach-In :
        (roots : List Str)
        → IsClosed (parents_of read) nodes
        → ((x : Str) → In x roots → In x nodes)
        → (x : Str) → Reach (parents_of read) roots x
        → In x nodes
    Reach-In roots closed inside x (root m) = inside x m
    Reach-In roots closed inside _ (edge {x} {y} {more} r e m) =
        let (more', e', below) = closed x (Reach-In roots closed inside x r) in
        let same : more ≡ more' = cc (sym e ∙ e') in below y (subst (λ l. In y l) same m)

    -- If each commit is stored under its id, and the parents of `nodes` and their generations can be read and are
    -- among them, with fuel for the edges the log from one of them ends and holds the commits that
    -- are reachable from it and no other, each with its generation: every commit has a larger
    -- generation than all that follow, or the same one and a smaller id, so none comes twice.
    pub log_from_lem :
        (generation : Str → Result ℕ) (fuel : ℕ) (start : Str)
        → ((x : Str) (c : CommitObject) → read x ≡ ok c → c.id ≡ x)
        → IsClosed (parents_of read) nodes
        → ((x : Str) → In x nodes → generation x ≡ ok (gen x))
        → In start nodes
        → budget (parents_of read) nodes [] + 1 < fuel
        → (ks : List Keyed) × (log_from read generation fuel start ≡ ok ks)
          × ((x : Str) → In x (keyed_ids ks) ↔ Reach (parents_of read) (start ∷ []) x)
          × ((k : Keyed) → In k ks → k.0 ≡ gen k.1.id)
          × IsLog ks
    unfolding log_from
    log_from_lem generation fuel start named closed known inside lt =
        let from : (x : Str) → In x (start ∷ []) → In x nodes =
          λ x m. elim m [ inl q ↦ subst (λ y. In y nodes) (sym q) inside | inr n ↦ absurd n ] in
        let (out, r, exact) =
          walk_lem (parents_of read) nodes [] (start ∷ []) closed (λ x y more m e n. absurd m) from
            fuel lt in
        let (cs, r', same, fresh) = collect-walk read named fuel [] (start ∷ []) out r in
        let reach : (x : Str) → In x (ids cs) ↔ Reach (parents_of read) (start ∷ []) x = λ x. (
          λ m. ⊎_elim (λ n. absurd n) (λ q. q) ((exact x).0 ((same x).1 (inr m))),
          λ q. ⊎_elim (λ n. absurd n) (λ m. m) ((same x).0 ((exact x).1 (inr q))),
        ) in
        let keys =
          with_keys-ok generation cs
            (λ x m. known x (Reach-In (start ∷ []) closed from x ((reach x).0 m))) in
        (
          sort_keyed (keyed cs),
          rw (r', keys) refl,
          (λ x. (
            λ m.
                (reach x).0
                  (subst (λ l. In x l) (keyed_ids-keyed cs) ((In-sort_ids x (keyed cs)).0 m)),
            λ q.
                (In-sort_ids x (keyed cs)).1
                  (subst (λ l. In x l) (sym (keyed_ids-keyed cs)) ((reach x).1 q)),
          )),
          (λ k m. keyed-generation cs k ((In-sort_keyed k (keyed cs)).0 m)),
          IsSorted-IsLog _ (sort_keyed-IsSorted [] cs fresh),
        )
