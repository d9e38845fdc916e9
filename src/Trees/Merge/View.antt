-- ===== src/Trees/Merge/View.antt =====
-- What a tree has at a path, whatever its nodes are, and what a merge may make of it.
use reflake.Prelude.{
  Str, ℕ, List, [], ◌∷◌, Option, none, some, true, false, ◌≡◌, ap, ◌⊎◌, list_eq, nat_eq, arith,
}
use reflake.Prelude.Dict.{get}
use reflake.Trees.Entry.{Entry, EntryKind, kind_text, kind_text_injective, is_subtree_kind}
use reflake.Trees.Node.{Nodes}
use reflake.Trees.Merge.{equal}
use reflake.Trees.Merge.Names.{find}

-- What tells one file from another: the kind, the hash and the size.
abbrev pub File : Type 0
File = EntryKind × Str × ℕ

abbrev pub children : Nodes → Str → List Entry
children nodes h = elim (get nodes h) [ none ↦ [] | some es ↦ es ]

-- What a child of a kind has below it at the rest of a path.
abbrev below_file : (Option Str → Option File) → List Str → File → Option File
below_file view parts (kind, hash, size) = elim (is_subtree_kind kind) [
  | true ↦ view (some hash)
  | false ↦ elim parts [ [] ↦ some (kind, hash, size) | _ ∷ _ ↦ none ]
]

unfoldable pub below : (Option Str → Option File) → List Str → Option Entry → Option File
below view parts none = none
below view parts (some e) = below_file view parts (e.kind, e.hash, e.size)

-- The file of a tree at a path, which is given by its parts.
unfoldable pub view : Nodes → List Str → Option Str → Option File
unfolding below find
view nodes parts none = none
view nodes [] (some h) = none
view nodes (part ∷ parts) (some h) = below (view nodes parts) parts (find (children nodes h) part)

-- A path as a three-way merge without conflicts leaves it.
abbrev pub IsMerged : (base ours theirs result : Option File) → Type 0
IsMerged base ours theirs result =
    ((ours ≡ theirs) × (result ≡ ours))
    ⊎ ((ours ≡ base) × (result ≡ theirs))
    ⊎ ((theirs ≡ base) × (result ≡ ours))

equal-fields :
    (x y : Entry)
    → equal (some x) (some y) ≡ true
    → (x.kind ≡ y.kind) × (x.hash ≡ y.hash) × (x.size ≡ y.size)
unfolding equal
equal-fields x y h = let (a, b, c) = fields in (kind_text_injective x.kind y.kind a, b, c)
  where
    fields : (kind_text x.kind ≡ kind_text y.kind) × (x.hash ≡ y.hash) × (x.size ≡ y.size)
    fields = ground arith

below-fields :
    (v : Option Str → Option File) (parts : List Str) (x y : Entry)
    → x.kind ≡ y.kind
    → x.hash ≡ y.hash
    → x.size ≡ y.size
    → below v parts (some x) ≡ below v parts (some y)
unfolding below
below-fields v parts x y a b c = ap (below_file v parts) (cc (a, b, c))

equal-none : (y : Option Entry) → equal none y ≡ true → ⊥
unfolding equal
equal-none y h = cc h

none-equal : (x : Entry) → equal (some x) none ≡ true → ⊥
unfolding equal
none-equal x h = cc h

pub equal-below :
    (v : Option Str → Option File) (parts : List Str) (x y : Option Entry)
    → equal x y ≡ true
    → below v parts x ≡ below v parts y
equal-below v parts none y h = absurd (equal-none y h)
equal-below v parts (some x) none h = absurd (none-equal x h)
equal-below v parts (some x) (some y) h =
    let (a, b, c) = equal-fields x y h in below-fields v parts x y a b c
