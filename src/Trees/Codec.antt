-- ===== src/Trees/Codec.antt =====
-- core/entry_codec.py: the checks of an entry, and its line in a node.
pub mod Round
pub mod Valid
pub mod Print
use reflake.Prelude.{
  Str, ℕ, String, List, [], ◌∷◌, ◌++◌, Option, none, some, Bool, true, false, not, ◌&&◌, ◌||◌, ◌==◌,
  contains, any, length, leb, slash, lit, starts_with, ends_with, has_infix, split_slash, strip_by,
  is_space, list_eq, nat_eq,
}
use reflake.Domain.{Result, ok, raise, raise_if, value_error, ◌>>=◌, ◌>>◌}
use reflake.Pruning.{ℤ, pos, negsuc}
use reflake.Trees.Entry.{Entry, EntryKind, is_subtree_kind, kind_text, kind_of}

unfoldable pub is_hex_digit : ℕ → Bool
is_hex_digit c = (leb 48 c && leb c 57) || (leb 97 c && leb c 102)

-- `_is_hex_digest`
unfoldable pub is_hex_digest : Str → Bool
unfolding is_hex_digit
is_hex_digest value = length value == 64 && not (any (λ c. not (is_hex_digit c)) value)

-- `_validate_entry_path`, as a test.
unfoldable pub is_entry_path : Str → Bool
unfolding starts_with ends_with has_infix split_slash
is_entry_path path =
    not (path == [] || starts_with path (lit "/") || ends_with path (lit "/"))
    && not (contains path 92 || has_infix (lit "//") path)
    && not (any (λ part. part == [] || part == lit "." || part == lit "..") (split_slash path))

-- `bool(value)`
abbrev pub is_truthy : Option Str → Bool
is_truthy none = false
is_truthy (some []) = false
is_truthy (some (c ∷ s)) = true

-- `value is not None`
abbrev pub is_given : Option Str → Bool
is_given none = false
is_given (some s) = true

-- `value is not None and not value.strip()`
unfoldable pub is_blank : Option Str → Bool
unfolding strip_by is_space
is_blank none = false
is_blank (some s) = strip_by is_space s == []

-- `validate_leaf`, as a test.
unfoldable pub is_leaf_shape : EntryKind → (source_uri footer source_etag : Option Str) → Bool
unfolding is_blank
is_leaf_shape EntryKind.blob source_uri footer source_etag =
    not (is_given source_uri) && not (is_given source_etag) && not (is_given footer)
is_leaf_shape EntryKind.bp source_uri footer source_etag =
    not (is_given source_uri) && not (is_given source_etag) && is_truthy footer
is_leaf_shape EntryKind.meta source_uri footer source_etag =
    is_truthy source_uri && not (is_blank source_etag) && not (is_given footer)
is_leaf_shape EntryKind.mp source_uri footer source_etag =
    is_truthy source_uri && not (is_blank source_etag) && is_truthy footer
is_leaf_shape EntryKind.tree source_uri footer source_etag = false
is_leaf_shape EntryKind.shard source_uri footer source_etag = false

-- The footer is a digest, if there is one.
unfoldable pub is_footer : Option Str → Bool
unfolding is_hex_digest
is_footer none = true
is_footer (some s) = is_hex_digest s

-- What `__post_init__` asks of the fields that depend on the kind.
unfoldable pub is_shape : Entry → Bool
unfolding is_leaf_shape is_footer is_blank
is_shape e = elim (is_subtree_kind e.kind) [
  | true ↦
      e.size == 0
      && e.mtime_ns == 0
      && not (is_truthy e.source_uri)
      && not (is_truthy e.footer)
      && not (is_truthy e.source_etag)
  | false ↦
      is_leaf_shape e.kind e.source_uri e.footer e.source_etag
      && is_footer e.footer
      && not (is_blank e.source_uri)
]

-- `Entry.__post_init__`, as a test; a size of the model is never negative.
unfoldable pub is_entry : Entry → Bool
unfolding is_entry_path is_hex_digest is_shape
is_entry e = (is_entry_path e.path && is_hex_digest e.hash) && is_shape e

-- `Entry(...)`
unfoldable pub checked : Entry → Result Entry
unfolding is_entry
checked e = raise_if (not (is_entry e)) (value_error "invalid entry") >> ok e

-- A value of a JSON array, as the decoder gives it; `other` stands for what is no text, integer or
-- null.
pub data Json : Type 0 where
  text : Str → Json
  number : ℤ → Json
  null : Json
  other : ℕ → Json

abbrev source_json : Option Str → Json
source_json none = null
source_json (some s) = text s

-- The end of a leaf's line.
unfoldable pub leaf_tail : EntryKind → (source_uri footer source_etag : Option Str) → List Json
leaf_tail EntryKind.meta source_uri footer none = source_json source_uri ∷ []
leaf_tail EntryKind.meta source_uri footer (some t) = source_json source_uri ∷ text t ∷ []
leaf_tail EntryKind.bp source_uri footer source_etag = source_json footer ∷ []
leaf_tail EntryKind.mp source_uri footer none = source_json source_uri ∷ source_json footer ∷ []
leaf_tail EntryKind.mp source_uri footer (some t) =
    source_json source_uri ∷ source_json footer ∷ text t ∷ []
leaf_tail _ source_uri footer source_etag = []

-- `encode_leaf`, with `encode_leaf_parts`.
unfoldable pub encode_leaf : Entry → List Json
unfolding leaf_tail
encode_leaf e =
    text (kind_text e.kind)
    ∷ text e.path
    ∷ text e.hash
    ∷ number (pos e.size)
    ∷ number (pos e.mtime_ns)
    ∷ leaf_tail e.kind e.source_uri e.footer e.source_etag

-- `Entry.serialize`
unfoldable pub serialize : Entry → List Json
unfolding encode_leaf
serialize e = elim (is_subtree_kind e.kind) [
  | true ↦ text (kind_text e.kind) ∷ text e.path ∷ text e.hash ∷ []
  | false ↦ encode_leaf e
]

-- `str(value)` and `int(value)` of a value that is not a text or an integer; `none` if that raises.
module _ (str_other : Json → Str) (int_other : Json → Option ℤ) where
  abbrev str_of : Json → Str
  str_of (text s) = s
  str_of v = str_other v

  abbrev int_of : Json → Option ℤ
  int_of (number z) = some z
  int_of v = int_other v

  -- `None if value is None else str(value)`
  abbrev optional_text : Json → Option Str
  optional_text null = none
  optional_text v = some (str_of v)

  abbrev magnitude : Option ℤ → Result ℕ
  magnitude (some (pos n)) = ok n
  magnitude (some (negsuc n)) = raise (value_error "negative")
  magnitude none = raise (value_error "not a number")

  -- The optional fields of a leaf's payload by its kind; `none` for an unsupported length.
  unfoldable pub parse_tail : EntryKind → List Json → Option (Option Str × Option Str × Option Str)
  parse_tail EntryKind.blob [] = some (none, none, none)
  parse_tail EntryKind.bp (footer ∷ []) = some (none, some (str_of footer), none)
  parse_tail EntryKind.meta (source ∷ []) = some (some (str_of source), none, none)
  parse_tail EntryKind.meta (source ∷ etag ∷ []) =
      some (some (str_of source), none, optional_text etag)
  parse_tail EntryKind.mp (source ∷ footer ∷ []) =
      some (some (str_of source), some (str_of footer), none)
  parse_tail EntryKind.mp (source ∷ footer ∷ etag ∷ []) =
      some (some (str_of source), some (str_of footer), optional_text etag)
  parse_tail _ _ = none

  -- `_entry_from_leaf_payload`
  unfoldable pub entry_from_leaf_payload : EntryKind → List Json → Result Entry
  unfolding parse_tail checked
  entry_from_leaf_payload kind (path ∷ hash ∷ size ∷ mtime ∷ tail) = elim (parse_tail kind tail) [
    | none ↦ raise (value_error "unsupported shape")
    | some (source_uri, footer, source_etag) ↦ magnitude (int_of size) >>= λ size.
        magnitude (int_of mtime) >>= λ mtime. checked (record {
          path = str_of path;
          kind = kind;
          hash = str_of hash;
          size = size;
          mtime_ns = mtime;
          source_uri = source_uri;
          footer = footer;
          source_etag = source_etag;
        })
  ]
  entry_from_leaf_payload kind _ = raise (value_error "unsupported shape")

  unfoldable pub subtree_from_payload : EntryKind → List Json → Result Entry
  unfolding checked
  subtree_from_payload kind (name ∷ hash ∷ _) = checked (record {
    path = str_of name;
    kind = kind;
    hash = str_of hash;
    size = 0;
    mtime_ns = 0;
    source_uri = none;
    footer = none;
    source_etag = none;
  })
  subtree_from_payload kind _ = raise (value_error "missing fields")

  -- `Entry.parse`, of a decoded array.
  unfoldable pub parse : List Json → Result Entry
  unfolding entry_from_leaf_payload subtree_from_payload
  parse [] = raise (value_error "not an array")
  parse (kind ∷ payload) = elim (kind_of (str_of kind)) [
    | none ↦ raise (value_error "unsupported kind")
    | some k ↦ elim (is_subtree_kind k) [
      | true ↦ subtree_from_payload k payload
      | false ↦ entry_from_leaf_payload k payload
    ]
  ]
