-- ===== src/Trees/Lookup.antt =====
-- The lookups of `TreeWalker` (core/objects/query.py), without its cache.
use reflake.Prelude.{
  Str, ℕ, zero, suc, List, [], ◌∷◌, ◌++◌, Option, none, some, Bool, true, false, any, ◌==◌,
  strip_by, split_slash, slash, str_lt, if◌then◌else◌, list_eq, nat_eq,
}
use reflake.Domain.{Result, ok, diverge, ◌>>=◌}
use reflake.Trees.Entry.{Entry, EntryKind, is_subtree}
use reflake.Trees.Walker.{load_or_raise}

abbrev pub is_shard : Entry → Bool
is_shard e = elim e.kind [ EntryKind.shard ↦ true | _ ↦ false ]

-- `_descend`: the entries are sorted by path; `previous` is the one before those that are left.
unfoldable pub descend_from : Option Entry → List Entry → Str → Option Entry
descend_from previous [] part = elim previous [
  | none ↦ none
  | some entry ↦ if is_shard entry then some entry else none
]
descend_from previous (e ∷ es) part =
    let rest = descend_from (some e) es part in
    if str_lt e.path part
    then rest
    else if e.path == part
    then some e
    else elim previous [ none ↦ none | some entry ↦ if is_shard entry then some entry else none ]

unfoldable pub descend : List Entry → Str → Option Entry
unfolding descend_from
descend entries part = descend_from none entries part

module _ (load : Str → Result (Option (List Entry))) where
  -- The loop of `expand_shards`.
  unfoldable pub expand_each : List Entry → Result (List Entry)
  unfolding load_or_raise
  expand_each [] = ok []
  expand_each (e ∷ es) = (if is_shard e then load_or_raise load e.hash else ok (e ∷ [])) >>= λ here.
      expand_each es >>= λ rest. ok (here ++ rest)

  unfoldable pub expand_shards : List Entry → Result (List Entry)
  unfolding expand_each
  expand_shards entries = if any is_shard entries then expand_each entries else ok entries

  -- `load_children`
  unfoldable pub load_children : Str → Result (List Entry)
  unfolding expand_shards load_or_raise
  load_children tree_hash = load_or_raise load tree_hash >>= expand_shards

  -- The loop of `resolve_directory` over the parts of the path.
  unfoldable pub resolve_parts : Str → List Str → Result (Option (Str × List Entry))
  unfolding load_children descend
  resolve_parts current [] = load_children current >>= λ entries. ok (some (current, entries))
  resolve_parts current (part ∷ parts) = load_children current >>= λ entries.
      elim (descend entries part) [
        | none ↦ ok none
        | some target ↦ elim (is_subtree target) [
          | true ↦ resolve_parts target.hash parts
          | false ↦ ok none
        ]
      ]

  -- `[p for p in directory_path.strip("/").split("/") if p]`
  unfoldable pub directory_parts : List Str → List Str
  directory_parts [] = []
  directory_parts ([] ∷ parts) = directory_parts parts
  directory_parts ((c ∷ s) ∷ parts) = (c ∷ s) ∷ directory_parts parts

  unfoldable pub resolve_directory : Str → Str → Result (Option (Str × List Entry))
  unfolding resolve_parts directory_parts
  resolve_directory root_tree_hash directory_path =
      resolve_parts root_tree_hash
        (directory_parts (split_slash (strip_by (λ c. c == slash) directory_path)))

  unfoldable pub resolve_directory_children : Str → Str → Result (Option (List Entry))
  unfolding resolve_directory
  resolve_directory_children root_tree_hash directory_path =
      resolve_directory root_tree_hash directory_path
      >>= elim [ none ↦ ok none | some resolved ↦ ok (some resolved.1) ]

  -- The loop of `lookup_entry`: a shard is searched for the same part. The fuel counts the nodes.
  unfoldable pub lookup_parts : ℕ → Str → Str → List Str → Result (Option Entry)
  unfolding descend load_or_raise
  lookup_parts zero normalized current_hash parts = diverge
  lookup_parts (suc fuel) normalized current_hash [] = ok none
  lookup_parts (suc fuel) normalized current_hash (part ∷ parts) =
      load_or_raise load current_hash >>= λ entries. elim (descend entries part) [
        | none ↦ ok none
        | some target ↦ elim target.kind [
          | EntryKind.tree ↦ lookup_parts fuel normalized target.hash parts
          | EntryKind.shard ↦ lookup_parts fuel normalized target.hash (part ∷ parts)
          | _ ↦ ok (elim parts [ [] ↦ some (record target { path = normalized }) | _ ∷ _ ↦ none ])
        ]
      ]

  unfoldable pub lookup_entry : ℕ → Str → Str → Result (Option Entry)
  unfolding lookup_parts
  lookup_entry fuel tree_hash logical_path = elim (strip_by (λ c. c == slash) logical_path) [
    | [] ↦ ok none
    | c ∷ normalized ↦ lookup_parts fuel (c ∷ normalized) tree_hash (split_slash (c ∷ normalized))
  ]
