-- ===== src/Trees/Entry.antt =====
-- `Entry` of core/entry_codec.py, without the checks of its construction.
use reflake.Prelude.{
  Str, ℕ, Option, none, some, Bool, true, false, lit, ◌==◌, if◌then◌else◌, list_eq, nat_eq, ◌≡◌,
  refl, sym, ap, ◌∙◌,
}

-- The kinds `b`, `m`, `bp`, `mp`, `t` and `s`.
pub data EntryKind : Type 0 where
  blob : EntryKind
  meta : EntryKind
  bp : EntryKind
  mp : EntryKind
  tree : EntryKind
  shard : EntryKind

pub record Entry : Type 0 where
  pub path : Str
  pub kind : EntryKind
  pub hash : Str
  pub size : ℕ
  pub mtime_ns : ℕ
  pub source_uri : Option Str
  pub footer : Option Str
  pub source_etag : Option Str

abbrev pub is_subtree_kind : EntryKind → Bool
is_subtree_kind EntryKind.tree = true
is_subtree_kind EntryKind.shard = true
is_subtree_kind _ = false

-- `Entry.is_subtree`
abbrev pub is_subtree : Entry → Bool
is_subtree e = is_subtree_kind e.kind

-- `identity_mode == "content"`
abbrev pub is_content : EntryKind → Bool
is_content EntryKind.blob = true
is_content EntryKind.bp = true
is_content _ = false

-- `Entry.blob_hash`
abbrev pub blob_hash : Entry → Option Str
blob_hash e = elim (is_content e.kind) [ true ↦ some e.hash | false ↦ none ]

-- The letters of the kinds, as a node has them.
abbrev pub kind_text : EntryKind → Str
kind_text EntryKind.blob = lit "b"
kind_text EntryKind.meta = lit "m"
kind_text EntryKind.bp = lit "bp"
kind_text EntryKind.mp = lit "mp"
kind_text EntryKind.tree = lit "t"
kind_text EntryKind.shard = lit "s"

-- The kind that a text of `SUPPORTED_KINDS` names.
abbrev pub kind_of : Str → Option EntryKind
kind_of s =
    if s == lit "b"
    then some EntryKind.blob
    else if s == lit "m"
    then some EntryKind.meta
    else if s == lit "bp"
    then some EntryKind.bp
    else if s == lit "mp"
    then some EntryKind.mp
    else if s == lit "t"
    then some EntryKind.tree
    else if s == lit "s"
    then some EntryKind.shard
    else none

pub kind_of-kind_text : (k : EntryKind) → kind_of (kind_text k) ≡ some k
unfolding list_eq nat_eq
kind_of-kind_text EntryKind.blob = refl
kind_of-kind_text EntryKind.meta = refl
kind_of-kind_text EntryKind.bp = refl
kind_of-kind_text EntryKind.mp = refl
kind_of-kind_text EntryKind.tree = refl
kind_of-kind_text EntryKind.shard = refl

pub kind_text_injective : (j k : EntryKind) → kind_text j ≡ kind_text k → j ≡ k
kind_text_injective j k h =
    let same : some j ≡ some k = sym (kind_of-kind_text j) ∙ ap kind_of h ∙ kind_of-kind_text k in
    cc
