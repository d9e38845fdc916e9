-- ===== src/Trees/Node.antt =====
-- core/objects/tree.py: the checks of a tree node, and the children of a node by their names.
use reflake.Prelude.{
  Str, List, [], ◌∷◌, Option, none, some, Bool, true, false, not, ◌&&◌, ◌||◌, ◌==◌, any, ◌≡◌, refl,
  arith, ℕ, contains, slash, lit, str_lt, if◌then◌else◌, list_eq, nat_eq,
}
use reflake.Prelude.Dict.{Dict, get, put}
use reflake.Domain.{Result, ok, raise, raise_if, value_error, ◌>>=◌}
use reflake.Trees.Entry.{Entry, EntryKind}
use reflake.Trees.Codec.{is_entry}

-- `_validate_component_name`, as a test.
unfoldable pub is_component : Str → Bool
is_component name =
    not
      (name == [] || contains name slash || contains name 92 || name == lit "." || name == lit "..")

unfoldable pub is_after : Option Str → Str → Bool
is_after none name = true
is_after (some previous) name = str_lt previous name

-- The loop of `validate_tree_node`; no line feed or carriage return stands in a line.
unfoldable pub is_valid_from : Option Str → List Entry → Bool
is_valid_from previous [] = true
is_valid_from previous (e ∷ es) =
    (is_component e.path && is_after previous e.path) && is_valid_from (some e.path) es

-- `validate_tree_node`
unfoldable pub validate_tree_node : List Entry → Result (Unit {0})
unfolding is_valid_from
validate_tree_node es = raise_if (not (is_valid_from none es)) (value_error "invalid tree node")

-- The characters at which `str.splitlines` ends a line, and which JSON text leaves as they are.
abbrev pub is_line_break : ℕ → Bool
is_line_break c = c == 133 || c == 8232 || c == 8233

abbrev pub has_line_break : Option Str → Bool
has_line_break none = false
has_line_break (some s) = any is_line_break s

-- `str.splitlines` leaves the entry's line in one piece; the first piece of a broken line is no JSON.
abbrev pub is_one_line : Entry → Bool
is_one_line e = not (
    has_line_break (some e.path)
    || has_line_break (some e.hash)
    || has_line_break e.source_uri
    || has_line_break e.footer
    || has_line_break e.source_etag)

-- The loop of `parse_tree_object`: the line is one, `Entry.parse` takes it, and the name is a
-- component after the previous one.
unfoldable pub is_parsed_from : Option Str → List Entry → Bool
unfolding is_entry
is_parsed_from previous [] = true
is_parsed_from previous (e ∷ es) =
    (is_one_line e && is_entry e)
    && (is_component e.path && is_after previous e.path)
    && is_parsed_from (some e.path) es

-- `parse_tree_object`
unfoldable pub parse_tree_object : List Entry → Result (List Entry)
unfolding is_parsed_from
parse_tree_object es = elim (is_parsed_from none es) [
  | true ↦ ok es
  | false ↦ raise (value_error "invalid tree node")
]

checked_again :
    (line entry name rest rest' : Bool)
    → ((line && entry) && name && rest) ≡ true
    → (rest ≡ true → rest' ≡ true)
    → (name && rest') ≡ true
checked_again line entry name rest rest' h k = ground arith

-- What can be parsed passes the checks before a node is written; the converse is false.
pub parsed-valid :
    (previous : Option Str) (es : List Entry)
    → is_parsed_from previous es ≡ true
    → is_valid_from previous es ≡ true
unfolding is_parsed_from is_valid_from
parsed-valid previous [] h = refl
parsed-valid previous (e ∷ es) h =
    checked_again (is_one_line e) (is_entry e) (is_component e.path && is_after previous e.path) _ _
      h (parsed-valid (some e.path) es)

-- A tree object store: the nodes by their hashes. A line of a node is the entry that it spells.
abbrev pub Nodes : Type 0
Nodes = Dict Str (List Entry)

-- `TreeWalker.load_entries`: a node is checked when it is parsed.
unfoldable pub load_entries : Nodes → Str → Result (Option (List Entry))
unfolding parse_tree_object
load_entries nodes tree_hash = elim (get nodes tree_hash) [
  | none ↦ ok none
  | some es ↦ parse_tree_object es >>= λ entries. ok (some entries)
]

-- `{entry.path: entry for entry in entries}`, added to a dict.
unfoldable pub by_name_onto : Dict Str Entry → List Entry → Dict Str Entry
by_name_onto d [] = d
by_name_onto d (e ∷ es) = by_name_onto (put d e.path e) es

unfoldable pub by_name : List Entry → Dict Str Entry
unfolding by_name_onto
by_name es = by_name_onto [] es

-- `path.rsplit("/", 1)[-1]`
unfoldable pub last_part : Str → Str
last_part [] = []
last_part (c ∷ s) = let rest = last_part s in if contains (c ∷ s) slash then rest else c ∷ s

-- `_subtree_line`
unfoldable pub subtree_line : EntryKind → Str → Str → Entry
subtree_line kind name hash_value = record {
  path = name;
  kind = kind;
  hash = hash_value;
  size = 0;
  mtime_ns = 0;
  source_uri = none;
  footer = none;
  source_etag = none;
}

-- `_entry_to_leaf_line`
unfoldable pub entry_to_leaf_line : Entry → Entry
unfolding last_part
entry_to_leaf_line e = record e { path = last_part e.path }
