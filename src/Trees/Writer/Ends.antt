-- ===== src/Trees/Writer/Ends.antt =====
-- Building a directory ends: each level of shards has fewer entries than the one below.
use reflake.Prelude.{
  Str, ℕ, zero, suc, ◌+◌, ◌≤◌, ◌<◌, List, [], ◌∷◌, none, Bool, true, false, not, ◌≡◌, refl, ap,
  subst, ◌∙◌, contains, leb, length, drop, str_lt, Bool-cases, inl, inr, list_eq, nat_eq, arith,
}
use reflake.Domain.{Error, raise_if, diverge, value_error}
use reflake.Exec.{pure, lift, modify, ◌>>◌}
use reflake.Exec.Yields.{Yields, bind-Yields, pure-Yields}
use reflake.Exec.Ends.{Ends, lift-Ends, pure-Ends, elim-Ends, bind-Ends}
use reflake.Trees.Entry.{Entry, EntryKind}
use reflake.Trees.Node.{is_valid_from, validate_tree_node, subtree_line}
use reflake.Trees.Writer.{
  Writer, store_node, insert_child, sort_children, chunks, write_tree_bytes, write_plain_node,
  write_shards, build_sorted, build_children,
}

raise_if-Ends : (b : Bool) (e : Error) → raise_if b e ≡ diverge → ⊥
raise_if-Ends true e h = cc h
raise_if-Ends false e h = cc h

validate_tree_node-Ends : (es : List Entry) → validate_tree_node es ≡ diverge → ⊥
unfolding validate_tree_node
validate_tree_node-Ends es h =
    raise_if-Ends (not (is_valid_from none es)) (value_error "invalid tree node") h

drop-shorter : (n : ℕ) (es : List Entry) → length (drop n es) ≤ length es
drop-shorter zero es = omega arith
drop-shorter (suc n) [] = omega arith
drop-shorter (suc n) (e ∷ es) = omega (arith, drop-shorter n es)

length-chunks : (m n : ℕ) (es : List Entry) → length (chunks (suc m) n es) ≤ length es
unfolding chunks
length-chunks m zero es = omega arith
length-chunks m (suc n) [] = omega arith
length-chunks m (suc n) (e ∷ es) = omega (arith, length-chunks m n (drop m es), drop-shorter m es)

fewer-chunks :
    (m n : ℕ) (d e : Entry) (es : List Entry)
    → length (chunks (suc (suc m)) n (d ∷ e ∷ es)) ≤ suc (length es)
unfolding chunks
fewer-chunks m zero d e es = omega arith
fewer-chunks m (suc n) d e es =
    omega (arith, length-chunks (suc m) n (drop m es), drop-shorter m es)

length-insert_child : (e : Entry) (es : List Entry) → length (insert_child e es) ≡ suc (length es)
unfolding insert_child
length-insert_child e [] = refl
length-insert_child e (x ∷ es) = elim (Bool-cases (str_lt x.path e.path)) [
  | inl y ↦ rw y (ap suc (length-insert_child e es))
  | inr y ↦ rw y refl
]

length-sort_children : (es : List Entry) → length (sort_children es) ≡ length es
unfolding sort_children
length-sort_children [] = refl
length-sort_children (e ∷ es) =
    length-insert_child e (sort_children es) ∙ ap suc (length-sort_children es)

module _ (node_hash : List Entry → Str) where
  pub write_tree_bytes-Ends :
      (max : ℕ) (skip : List Str) (es : List Entry) (w : Writer)
      → Ends (write_tree_bytes node_hash max skip es) w
  unfolding write_tree_bytes
  write_tree_bytes-Ends max skip es w =
      bind-Ends (lift (validate_tree_node es)) _ w
        (lift-Ends (validate_tree_node es) w (validate_tree_node-Ends es))
        (λ _ t y.
          elim-Ends (pure (node_hash es))
            (modify (store_node (node_hash es) es) >> pure (node_hash es))
            (contains skip (node_hash es)) t (λ _. pure-Ends (node_hash es) t) (λ _ e. cc e))

  write_shards-Ends :
      (max : ℕ) (skip : List Str) (cs : List (List Entry)) (w : Writer)
      → Ends (write_shards node_hash max skip cs) w
  unfolding write_shards write_plain_node
  write_shards-Ends max skip [] w = pure-Ends [] w
  write_shards-Ends max skip ([] ∷ cs) w = write_shards-Ends max skip cs w
  write_shards-Ends max skip ((e ∷ es) ∷ cs) w =
      bind-Ends (write_tree_bytes node_hash max skip (e ∷ es)) _ w
        (write_tree_bytes-Ends max skip (e ∷ es) w)
        (λ h t y.
          bind-Ends (write_shards node_hash max skip cs) _ t (write_shards-Ends max skip cs t)
            (λ more u z. pure-Ends (subtree_line EntryKind.shard e.path h ∷ more) u))

  write_shards-length :
      (max : ℕ) (skip : List Str) (cs : List (List Entry)) (w : Writer) (shards : List Entry)
      (w' : Writer)
      → Yields (write_shards node_hash max skip cs) w shards w'
      → length shards ≤ length cs
  unfolding write_shards write_plain_node
  write_shards-length max skip [] w shards w' y =
      subst (λ l. length l ≤ 0) (pure-Yields [] shards w w' y).0 (omega arith)
  write_shards-length max skip ([] ∷ cs) w shards w' y =
      let shorter = write_shards-length max skip cs w shards w' y in omega arith
  write_shards-length max skip ((e ∷ es) ∷ cs) w shards w' y =
      let (h, t, _, y2) =
        bind-Yields (write_tree_bytes node_hash max skip (e ∷ es)) _ w shards w' y in
      let (more, u, y3, y4) = bind-Yields (write_shards node_hash max skip cs) _ t shards w' y2 in
      let shorter = write_shards-length max skip cs t more u y3 in
      subst (λ l. length l ≤ suc (length cs))
        (pure-Yields (subtree_line EntryKind.shard e.path h ∷ more) shards u w' y4).0 (omega arith)

  build_sorted-Ends :
      (m fuel : ℕ) (skip : List Str) (es : List Entry) (w : Writer)
      → length es < fuel
      → Ends (build_sorted node_hash (suc (suc m)) fuel skip es) w
  unfolding build_sorted
  build_sorted-Ends m zero skip es w h = absurd (omega arith)
  build_sorted-Ends m (suc fuel) skip es w h =
      elim-Ends (write_tree_bytes node_hash (suc (suc m)) skip es) _ (leb (length es) (suc (suc m)))
        w (λ _. write_tree_bytes-Ends (suc (suc m)) skip es w)
        (λ large.
          bind-Ends
            (write_shards node_hash (suc (suc m)) skip (chunks (suc (suc m)) (length es) es)) _ w
            (write_shards-Ends (suc (suc m)) skip (chunks (suc (suc m)) (length es) es) w)
            (λ shards t y. build_sorted-Ends m fuel skip shards t (
              fewer es large shards
                (write_shards-length (suc (suc m)) skip (chunks (suc (suc m)) (length es) es) w
                  shards t y)
                h)))
    where
      fewer :
          (es : List Entry)
          → leb (length es) (suc (suc m)) ≡ false
          → (shards : List Entry) → length shards ≤ length (chunks (suc (suc m)) (length es) es)
          → length es < suc fuel
          → length shards < fuel
      fewer [] large shards s h = absurd (ground arith)
      fewer (d ∷ []) large shards s h = absurd (ground arith)
      fewer (d ∷ e ∷ es) large shards s h =
          omega (arith, fewer-chunks m (length (d ∷ e ∷ es)) d e es)

  -- With a bound of at least two entries, from any store, building the node of any children
  -- returns or raises: the levels of shards come to an end.
  pub build_children-Ends :
      (m : ℕ) (skip : List Str) (es : List Entry) (w : Writer)
      → Ends (build_children node_hash (suc (suc m)) skip es) w
  unfolding build_children
  build_children-Ends m skip es w =
      build_sorted-Ends m (length es + 1) skip (sort_children es) w
        (omega (arith, length-sort_children es))
