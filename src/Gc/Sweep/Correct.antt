-- ===== src/Gc/Sweep/Correct.antt =====
-- What `_sweep_kind` deletes, exactly, and what it counts.
use reflake.Prelude.{
  In, contains-In, ==_iff, subst, ◌⊎◌, ◌≤◌, Str, ℕ, suc, ◌+◌, ◌≡◌, refl, ap, ◌∙◌, List, [], ◌∷◌,
  ◌++◌, length, length-append, Option, none, Bool, true, false, Bool-cases, List-cases, inl, inr,
  not, ◌&&◌, ◌||◌, contains, any, ◌==◌, leb, ltb, if◌then◌else◌, list_eq, nat_eq, arith,
}
use reflake.Prelude.Dict.{get, remove, get-remove}
use reflake.Gc.Sweep.{
  Objects, delete_objects, SweepState, start, is_young, flush, delete_batch_size, flush_rest,
  append_batch, sweep_object, sweep_objects, sweep_kind,
}

contains-append :
    (xs ys : List Str) (a : Str) → contains (xs ++ ys) a ≡ (contains xs a || contains ys a)
contains-append [] ys a = refl
contains-append (x ∷ xs) ys a = ground (arith, contains-append xs ys a)

get-delete_objects :
    (ids : List Str) (objects : Objects) (a : Str)
    → get (delete_objects ids objects).1 a ≡ (if contains ids a then none else get objects a)
unfolding delete_objects
get-delete_objects [] objects a = refl
get-delete_objects (i ∷ ids) objects a =
    ground (arith, get-delete_objects ids (remove objects i) a, get-remove objects i a)

length-delete_objects :
    (ids : List Str) (objects : Objects) → (delete_objects ids objects).0 ≡ length ids
unfolding delete_objects
length-delete_objects [] objects = refl
length-delete_objects (i ∷ ids) objects = ap suc (length-delete_objects ids (remove objects i))

-- What is left once the batch is deleted too.
abbrev left : SweepState → Str → Option ℕ
left s a = if contains s.batch a then none else get s.objects a

-- What is deleted once the batch is.
abbrev doomed : SweepState → ℕ
doomed s = s.deleted + length s.batch

left-flush : (s : SweepState) (a : Str) → left (flush s) a ≡ left s a
unfolding flush
left-flush s a = get-delete_objects s.batch s.objects a

doomed-flush : (s : SweepState) → doomed (flush s) ≡ doomed s
unfolding flush
doomed-flush s = omega (arith, length-delete_objects s.batch s.objects)

deleted-flush : (s : SweepState) → (flush s).deleted ≡ doomed s
unfolding flush
deleted-flush s = omega (arith, length-delete_objects s.batch s.objects)

flush-same :
    (s : SweepState)
    → ((flush s).stored ≡ s.stored)
      × ((flush s).orphans ≡ s.orphans)
      × ((flush s).skipped_young ≡ s.skipped_young)
unfolding flush
flush-same s = (refl, refl, refl)

append_batch_counts :
    (id : Str) (s : SweepState)
    → ((append_batch id s).stored ≡ s.stored)
      × ((append_batch id s).orphans ≡ s.orphans)
      × ((append_batch id s).skipped_young ≡ s.skipped_young)
      × (doomed (append_batch id s) ≡ doomed s + 1)
unfolding append_batch
append_batch_counts id s =
    let s' : SweepState = record s { batch = s.batch ++ id ∷ [] } in
    elim (Bool-cases (leb delete_batch_size (length s'.batch))) [
      | inl e ↦ rw e (
        (flush-same s').0,
        (flush-same s').1,
        (flush-same s').2,
        omega (arith, doomed-flush s', length-append s.batch (id ∷ [])),
      )
      | inr e ↦ rw e (refl, refl, refl, omega (arith, length-append s.batch (id ∷ [])))
    ]

flush_rest_lem :
    (s : SweepState)
    → ((a : Str) → get (flush_rest s).objects a ≡ left s a)
      × ((flush_rest s).deleted ≡ doomed s)
      × ((flush_rest s).stored ≡ s.stored)
      × ((flush_rest s).orphans ≡ s.orphans)
      × ((flush_rest s).skipped_young ≡ s.skipped_young)
unfolding flush_rest
flush_rest_lem s = elim (List-cases s.batch) [
  | inl e ↦ rw e ((λ a. refl), omega arith, refl, refl, refl)
  | inr (x, b, e) ↦ (
    (λ a. rw (flush_rest, e) (left-flush s a ∙ rw e refl)),
    rw (flush_rest, e) (deleted-flush s ∙ rw e refl),
    rw (flush_rest, e) (flush-same s).0,
    rw (flush_rest, e) (flush-same s).1,
    rw (flush_rest, e) (flush-same s).2,
  )
]

deleted_in_all :
    (dry_run : Bool) (deleted orphans young : ℕ)
    → ((dry_run ≡ true) → deleted ≡ 0)
    → ((dry_run ≡ false) → deleted + young ≡ orphans)
    → deleted + (if dry_run then orphans else young) ≡ orphans
deleted_in_all true d o y h k = omega (arith, h refl)
deleted_in_all false d o y h k = k refl

module _ (reachable : List Str) (dry_run : Bool) (young_cutoff : ℕ) where
  -- Does the inventory's line condemn the object `a`? It does if this is no dry run and the line's
  -- object is `a`, is not reachable, has a known time, and was modified before the cutoff.
  abbrev pub condemns : Str → Str × ℕ → Bool
  condemns a (object_id, mtime_ns) =
      not dry_run
      && not (contains reachable object_id)
      && not (mtime_ns == 0)
      && ltb mtime_ns young_cutoff
      && a == object_id

  left-append_batch :
      (id : Str) (s : SweepState) (a : Str)
      → left (append_batch id s) a ≡ (if a == id then none else left s a)
  unfolding append_batch
  left-append_batch id s a =
      let s' : SweepState = record s { batch = s.batch ++ id ∷ [] } in
      ground (arith, left-flush s' a, contains-append s.batch (id ∷ []) a)

  -- The variables when an orphan has been counted.
  abbrev counted : SweepState → SweepState
  counted s = record s { stored = s.stored + 1; orphans = s.orphans + 1 }

  left-sweep_object :
      (o : Str × ℕ) (s : SweepState) (a : Str)
      → left (sweep_object reachable dry_run young_cutoff o s) a
        ≡ (if condemns a o then none else left s a)
  unfolding sweep_object
  left-sweep_object (id, m) s a = elim (Bool-cases (contains reachable id)) [
    | inl e ↦ rw e (ground arith)
    | inr e ↦ elim (Bool-cases (is_young young_cutoff m)) [
      | inl y ↦ rw (e, y) (ground (arith, y))
      | inr y ↦ elim (Bool-cases dry_run) [
        | inl d ↦ rw (e, y, d) (ground arith)
        | inr d ↦ rw (e, y, d) (left-append_batch id (counted s) a ∙ ground (arith, y))
      ]
    ]
  ]

  left-sweep_objects :
      (inventory : List (Str × ℕ)) (s : SweepState) (a : Str)
      → left (sweep_objects reachable dry_run young_cutoff inventory s) a
        ≡ (if any (condemns a) inventory then none else left s a)
  unfolding sweep_objects
  left-sweep_objects [] s a = refl
  left-sweep_objects (o ∷ inventory) s a = ground (
    arith,
    left-sweep_objects inventory (sweep_object reachable dry_run young_cutoff o s) a,
    left-sweep_object o s a,
  )

  -- A sweep deletes an object exactly if it is no dry run and the inventory lists the object, which
  -- is not reachable, with a time of modification that is not 0 and is below the cutoff; every
  -- other object is left as it was.
  pub get-sweep_kind :
      (inventory : List (Str × ℕ)) (objects : Objects) (a : Str)
      → get (sweep_kind reachable dry_run young_cutoff inventory objects).objects a
        ≡ (if any (condemns a) inventory then none else get objects a)
  unfolding sweep_kind
  get-sweep_kind inventory objects a =
      (flush_rest_lem (sweep_objects reachable dry_run young_cutoff inventory (start objects))).0 a
      ∙ left-sweep_objects inventory (start objects) a

  -- An object that is reachable, or that the inventory lists with an unknown time, or that is too
  -- young, survives.
  abbrev pub IsSafe : Str → List (Str × ℕ) → Type 0
  IsSafe a inventory =
      (m : ℕ)
      → In (a, m) inventory
      → (dry_run ≡ true) ⊎ In a reachable ⊎ (m ≡ 0) ⊎ (young_cutoff ≤ m)

  spared :
      (a : Str) (inventory : List (Str × ℕ))
      → IsSafe a inventory
      → any (condemns a) inventory ≡ false
  spared a [] safe = refl
  spared a ((id, m) ∷ inventory) safe =
      let rest = spared a inventory (λ n k. safe n (inr k)) in
      elim (Bool-cases (a == id)) [
        | inr e ↦ ground (arith, rest)
        | inl e ↦
            spared_line a id m ((==_iff a id).0 e) rest
              (safe m (inl (ap (λ x. (x, m)) ((==_iff a id).0 e))))
      ]
    where
      spared_line :
          (a id : Str) (m : ℕ)
          → a ≡ id
          → any (condemns a) inventory ≡ false
          → (dry_run ≡ true) ⊎ In a reachable ⊎ (m ≡ 0) ⊎ (young_cutoff ≤ m)
          → any (condemns a) ((id, m) ∷ inventory) ≡ false
      spared_line a id m e rest c =
          ground (arith, contains-In reachable id, subst (λ x. In x reachable) e)

  pub sweep_kind-IsSafe :
      (inventory : List (Str × ℕ)) (objects : Objects) (a : Str)
      → IsSafe a inventory
      → get (sweep_kind reachable dry_run young_cutoff inventory objects).objects a ≡ get objects a
  sweep_kind-IsSafe inventory objects a safe =
      get-sweep_kind inventory objects a ∙ rw (spared a inventory safe) refl

  abbrev pub count : (Str × ℕ → Bool) → List (Str × ℕ) → ℕ
  count p [] = 0
  count p (o ∷ os) = (if p o then 1 else 0) + count p os

  abbrev pub orphan : Str × ℕ → Bool
  orphan (id, m) = not (contains reachable id)

  abbrev pub young_orphan : Str × ℕ → Bool
  young_orphan (id, m) = not (contains reachable id) && is_young young_cutoff m

  -- What one object adds to the counts.
  Adds : Str × ℕ → SweepState → SweepState → Type 0
  Adds o s t =
      (t.stored ≡ s.stored + 1)
      × (t.orphans ≡ s.orphans + (if orphan o then 1 else 0))
      × (t.skipped_young ≡ s.skipped_young + (if young_orphan o then 1 else 0))
      × ((dry_run ≡ true) → doomed t ≡ doomed s)
      × ((dry_run ≡ false)
          → doomed t + (if young_orphan o then 1 else 0) ≡ doomed s + (if orphan o then 1 else 0))

  sweep_object-Adds :
      (o : Str × ℕ) (s : SweepState) → Adds o s (sweep_object reachable dry_run young_cutoff o s)
  unfolding sweep_object Adds
  sweep_object-Adds (id, m) s = elim (Bool-cases (contains reachable id)) [
    | inl e ↦ rw e (ground arith)
    | inr e ↦ elim (Bool-cases (is_young young_cutoff m)) [
      | inl y ↦ rw (e, y) (ground arith)
      | inr y ↦ elim (Bool-cases dry_run) [
        | inl d ↦ rw (e, y, d) (ground arith)
        | inr d ↦
            rw (e, y, d)
              let (e0, e1, e2, e3) = append_batch_counts id (counted s) in
                (e0, e1, omega (arith, e2), (λ k. cc), (λ k. omega (arith, e3)))
      ]
    ]
  ]

  counts :
      (inventory : List (Str × ℕ)) (s : SweepState)
      → let t = sweep_objects reachable dry_run young_cutoff inventory s in
        (t.stored ≡ s.stored + length inventory)
        × (t.orphans ≡ s.orphans + count orphan inventory)
        × (t.skipped_young ≡ s.skipped_young + count young_orphan inventory)
        × ((dry_run ≡ true) → doomed t ≡ doomed s)
        × ((dry_run ≡ false)
            → doomed t + count young_orphan inventory ≡ doomed s + count orphan inventory)
  unfolding sweep_objects Adds
  counts [] s = (omega arith, omega arith, omega arith, λ d. refl, λ d. refl)
  counts (o ∷ inventory) s =
      let t = sweep_object reachable dry_run young_cutoff o s in
      let (e0, e1, e2, e3, e4) = sweep_object-Adds o s in
      let (i0, i1, i2, i3, i4) = counts inventory t in
      (
        omega (arith, e0, i0),
        omega (arith, e1, i1),
        omega (arith, e2, i2),
        λ d. i3 d ∙ e3 d,
        λ d. omega (arith, e4 d, i4 d),
      )

  -- The counts that the sweep returns: the lines of the inventory, the orphans among them, and the
  -- young orphans. In a dry run none is deleted, and otherwise the orphans that are not young are.
  pub sweep_kind-counts :
      (inventory : List (Str × ℕ)) (objects : Objects)
      → let t = sweep_kind reachable dry_run young_cutoff inventory objects in
        (t.stored ≡ length inventory)
        × (t.orphans ≡ count orphan inventory)
        × (t.skipped_young ≡ count young_orphan inventory)
        × (t.deleted + (if dry_run then t.orphans else t.skipped_young) ≡ t.orphans)
  unfolding sweep_kind
  sweep_kind-counts inventory objects =
      let (_, f1, f2, f3, f4) =
        flush_rest_lem (sweep_objects reachable dry_run young_cutoff inventory (start objects)) in
      let (i0, i1, i2, i3, i4) = counts inventory (start objects) in
      (
        omega (arith, f2, i0),
        omega (arith, f3, i1),
        omega (arith, f4, i2),
        deleted_in_all dry_run _ _ _ (λ d. omega (arith, f1, i3 d))
            (λ d. omega (arith, f1, f3, f4, i1, i2, i4 d)),
      )
