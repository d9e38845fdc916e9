-- ===== src/Trees/Writer/Build.antt =====
-- `_build_children`: without shards in the store that it leaves, the written node has the children.
use reflake.Prelude.{
  Str, ℕ, zero, suc, ◌+◌, List, [], ◌∷◌, none, some, true, false, ◌≡◌, refl, sym, ap, subst, ◌∙◌,
  Bool-cases, inl, inr, In, leb, length, take, drop, any, All, str_lt, list_eq, nat_eq, arith,
}
use reflake.Prelude.Dict.{get}
use reflake.Prelude.Order.{str_lt_asym}
use reflake.Domain.{diverge}
use reflake.Exec.{◌>>=◌}
use reflake.Exec.Yields.{Yields, bind-Yields, pure-Yields}
use reflake.Trees.Entry.{Entry, EntryKind}
use reflake.Trees.Node.{Nodes, is_valid_from, subtree_line}
use reflake.Trees.Lookup.{is_shard}
use reflake.Trees.Writer.{
  Writer, write_tree_bytes, write_plain_node, write_shards, build_sorted, build_children,
  insert_child, sort_children, chunks,
}
use reflake.Trees.Writer.Stored.{
  IsKnown, Consistent, IsInjective, Grows, IsMonotone, pure-IsMonotone, lift-IsMonotone,
  bind-IsMonotone, elim-IsMonotone, write_tree_bytes-IsMonotone, write_tree_bytes-stored,
}

-- No node of the store has a shard.
abbrev pub IsPlain : Nodes → Type 0
IsPlain nodes = (h : Str) (es : List Entry) → get nodes h ≡ some es → any is_shard es ≡ false

abbrev HeadShard : List Entry → Type 0
HeadShard [] = ⊥
HeadShard (e ∷ es) = is_shard e ≡ true

HeadShard-any : (es : List Entry) → HeadShard es → any is_shard es ≡ false → ⊥
HeadShard-any [] h p = h
HeadShard-any (e ∷ es) h p = ground arith

module _ (node_hash : List Entry → Str) where
  write_shards-IsMonotone :
      (max : ℕ) (skip : List Str) (cs : List (List Entry))
      → IsMonotone node_hash (write_shards node_hash max skip cs)
  unfolding write_shards write_plain_node
  write_shards-IsMonotone max skip [] = pure-IsMonotone node_hash []
  write_shards-IsMonotone max skip ([] ∷ cs) = write_shards-IsMonotone max skip cs
  write_shards-IsMonotone max skip ((e ∷ es) ∷ cs) =
      bind-IsMonotone node_hash (write_tree_bytes node_hash max skip (e ∷ es)) _
        (write_tree_bytes-IsMonotone node_hash max skip (e ∷ es))
        (λ h.
          bind-IsMonotone node_hash (write_shards node_hash max skip cs) _
            (write_shards-IsMonotone max skip cs)
            (λ more. pure-IsMonotone node_hash (subtree_line EntryKind.shard e.path h ∷ more)))

  pub build_sorted-IsMonotone :
      (max fuel : ℕ) (skip : List Str) (es : List Entry)
      → IsMonotone node_hash (build_sorted node_hash max fuel skip es)
  unfolding build_sorted
  build_sorted-IsMonotone max zero skip es = lift-IsMonotone node_hash diverge
  build_sorted-IsMonotone max (suc fuel) skip es =
      elim-IsMonotone node_hash (leb (length es) max)
        (write_tree_bytes-IsMonotone node_hash max skip es)
        (bind-IsMonotone node_hash (write_shards node_hash max skip (chunks max (length es) es)) _
          (write_shards-IsMonotone max skip (chunks max (length es) es))
          (λ shards. build_sorted-IsMonotone max fuel skip shards))

  write_shards-head :
      (max : ℕ) (skip : List Str) (e : Entry) (es : List Entry) (cs : List (List Entry))
      (w : Writer) (shards : List Entry) (w' : Writer)
      → Yields (write_shards node_hash max skip ((e ∷ es) ∷ cs)) w shards w'
      → HeadShard shards
  unfolding write_shards write_plain_node subtree_line
  write_shards-head max skip e es cs w shards w' y =
      let (h, t, _, y2) =
        bind-Yields (write_tree_bytes node_hash max skip (e ∷ es)) _ w shards w' y in
      let (more, u, _, y3) = bind-Yields (write_shards node_hash max skip cs) _ t shards w' y2 in
      subst HeadShard (pure-Yields (subtree_line EntryKind.shard e.path h ∷ more) shards u w' y3).0
        refl

  build-zero :
      (max : ℕ) (skip : List Str) (es : List Entry) (w : Writer) (h : Str) (w' : Writer)
      → Yields (build_sorted node_hash max zero skip es) w h w'
      → ⊥
  unfolding build_sorted
  build-zero max skip es w h w' y = cc (ap (λ x. x.0) y)

  build-small :
      (max fuel : ℕ) (skip : List Str) (es : List Entry)
      → leb (length es) max ≡ true
      → build_sorted node_hash max (suc fuel) skip es ≡ write_tree_bytes node_hash max skip es
  unfolding build_sorted
  build-small max fuel skip es h = rw (h, build_sorted) refl

  build-large :
      (max fuel : ℕ) (skip : List Str) (e : Entry) (es : List Entry)
      → leb (length (e ∷ es)) (suc max) ≡ false
      → (c : List Entry) × (cs : List (List Entry)) × (build_sorted node_hash
            (suc max)
            (suc fuel)
            skip
            (e ∷ es)
          ≡ (write_shards node_hash (suc max) skip ((e ∷ c) ∷ cs) >>= λ shards.
              build_sorted node_hash (suc max) fuel skip shards))
  unfolding build_sorted chunks
  build-large max fuel skip e es h =
      (take max es, chunks (suc max) (length es) (drop max es), rw (h, build_sorted) refl)

  module _ (inj : IsInjective node_hash) (max : ℕ) (skip : List Str) where
    abbrev Knows : Writer → Type 0
    Knows w = (k : Str) → In k skip → IsKnown w.nodes k

    Knows-Grows : (w w' : Writer) → Grows node_hash w w' → Knows w → Knows w'
    Knows-Grows w w' (e, _, _) known k m = let (es, q) = known k m in (es, e k es q)

    -- A list that starts with a shard ends up in a node that starts with one.
    build_sorted-shard :
        (fuel : ℕ) (es : List Entry) (w : Writer) (h : Str) (w' : Writer)
        → Consistent node_hash w.nodes
        → Knows w
        → HeadShard es
        → Yields (build_sorted node_hash (suc max) fuel skip es) w h w'
        → (ys : List Entry) × (get w'.nodes h ≡ some ys) × HeadShard ys
    build_sorted-shard zero es w h w' c known s y = absurd (build-zero (suc max) skip es w h w' y)
    build_sorted-shard (suc fuel) [] w h w' c known s y = absurd s
    build_sorted-shard (suc fuel) (e ∷ es) w h w' c known s y =
        elim (Bool-cases (leb (length (e ∷ es)) (suc max))) [
          | inl small ↦ (
            e ∷ es,
            (write_tree_bytes-stored node_hash (suc max) skip (e ∷ es) w h w' inj c known
                (sym (ap (λ m. m w) (build-small (suc max) fuel skip (e ∷ es) small)) ∙ y)).0,
            s,
          )
          | inr large ↦
              let (first, cs, q) = build-large max fuel skip e es large in
              let (shards, t, y1, y2) =
                bind-Yields (write_shards node_hash (suc max) skip ((e ∷ first) ∷ cs)) _ w h w'
                  (sym (ap (λ m. m w) q) ∙ y) in
              let grows = write_shards-IsMonotone (suc max) skip ((e ∷ first) ∷ cs) w shards t y1 in
              build_sorted-shard fuel shards t h w' (grows.1 c) (Knows-Grows w t grows known)
                (write_shards-head (suc max) skip e first cs w shards t y1) y2
        ]

    build_sorted-stored :
        (fuel : ℕ) (es : List Entry) (w : Writer) (h : Str) (w' : Writer)
        → Consistent node_hash w.nodes
        → Knows w
        → IsPlain w'.nodes
        → Yields (build_sorted node_hash (suc max) fuel skip es) w h w'
        → (get w'.nodes h ≡ some es) × (is_valid_from none es ≡ true)
    build_sorted-stored zero es w h w' c known p y = absurd (build-zero (suc max) skip es w h w' y)
    build_sorted-stored (suc fuel) [] w h w' c known p y =
        write_tree_bytes-stored node_hash (suc max) skip [] w h w' inj c known
          (sym (ap (λ m. m w) (build-small (suc max) fuel skip [] (ground arith))) ∙ y)
    build_sorted-stored (suc fuel) (e ∷ es) w h w' c known p y =
        elim (Bool-cases (leb (length (e ∷ es)) (suc max))) [
          | inl small ↦
              write_tree_bytes-stored node_hash (suc max) skip (e ∷ es) w h w' inj c known
                (sym (ap (λ m. m w) (build-small (suc max) fuel skip (e ∷ es) small)) ∙ y)
          | inr large ↦
              let (first, cs, q) = build-large max fuel skip e es large in
              let (shards, t, y1, y2) =
                bind-Yields (write_shards node_hash (suc max) skip ((e ∷ first) ∷ cs)) _ w h w'
                  (sym (ap (λ m. m w) q) ∙ y) in
              let grows = write_shards-IsMonotone (suc max) skip ((e ∷ first) ∷ cs) w shards t y1 in
              let (ys, stored, head) =
                build_sorted-shard fuel shards t h w' (grows.1 c) (Knows-Grows w t grows known)
                  (write_shards-head (suc max) skip e first cs w shards t y1) y2 in
              absurd (HeadShard-any ys head (p h ys stored))
        ]

-- The children are in the order of their names.
abbrev pub IsSorted : List Entry → Type 0
IsSorted [] = Unit
IsSorted (e ∷ es) = All (λ x. str_lt e.path x.path ≡ true) es × IsSorted es

insert_child-least :
    (e : Entry) (es : List Entry)
    → All (λ x. str_lt e.path x.path ≡ true) es
    → insert_child e es ≡ e ∷ es
unfolding insert_child
insert_child-least e [] h = refl
insert_child-least e (x ∷ es) (h, _) = rw (str_lt_asym e.path x.path h) refl

sort_children-IsSorted : (es : List Entry) → IsSorted es → sort_children es ≡ es
unfolding sort_children
sort_children-IsSorted [] h = refl
sort_children-IsSorted (e ∷ es) (h, hs) =
    ap (insert_child e) (sort_children-IsSorted es hs) ∙ insert_child-least e es h

module _ (node_hash : List Entry → Str) (inj : IsInjective node_hash) (max : ℕ) where
  -- Where the hashes of different nodes differ and nodes hold at least one entry, from a store that has each node
  -- under its hash and the skipped ones too: if sorted children are built and no shard is left in the
  -- store, then the returned hash leads to these children, and they pass the checks of a node.
  pub build_children-stored :
      (skip : List Str) (es : List Entry) (w : Writer) (h : Str) (w' : Writer)
      → Consistent node_hash w.nodes
      → ((k : Str) → In k skip → IsKnown w.nodes k)
      → IsPlain w'.nodes
      → IsSorted es
      → Yields (build_children node_hash (suc max) skip es) w h w'
      → (get w'.nodes h ≡ some es) × (is_valid_from none es ≡ true)
  unfolding build_children
  build_children-stored skip es w h w' c known p s y =
      let same = sort_children-IsSorted es s in
      build_sorted-stored node_hash inj max skip (length es + 1) es w h w' c known p
        (sym (ap (λ l. build_sorted node_hash (suc max) (length es + 1) skip l w) same) ∙ y)
