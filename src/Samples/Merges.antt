-- ===== src/Samples/Merges.antt =====
-- The theorems on writing and merging trees, at concrete inputs.
use reflake.Prelude.{
  Str, List, [], ◌∷◌, ◌++◌, ◌≡◌, ◌≢◌, refl, sym, ap, subst, ◌∙◌, All, any, none, some, false,
  str_lt, ◌==◌, ==_iff, Bool-cases, inl, inr, lit, if◌then◌else◌, list_eq, nat_eq, option_eq,
}
use reflake.Prelude.Dict.{get, put}
use reflake.Exec.Yields.{Yields, is_ok}
use reflake.Exec.Ends.{Ends}
use reflake.Trees.Entry.{Entry, EntryKind}
use reflake.Trees.Node.{Nodes, is_component, is_after}
use reflake.Trees.Lookup.{is_shard}
use reflake.Trees.Writer.{build_children, Writer, build_children}
use reflake.Trees.Writer.Stored.{Extends, Consistent}
use reflake.Trees.Writer.Build.{IsPlain}
use reflake.Trees.Writer.Ends.{build_children-Ends}
use reflake.Trees.Merge.{merge_directory, merge_trees}
use reflake.Trees.Merge.Names.{find}
use reflake.Trees.Merge.View.{view, IsMerged}
use reflake.Trees.Merge.Sound.{merge_trees_sound}
use reflake.Trees.Merge.Ends.{merge_trees-Ends}
use reflake.Trees.Merge.Deleted.{merge_directory-deleted}
use reflake.Samples.Encoding.{encode, encode-IsInjective}

-- A file whose digest is the digit and 63 zeros.
abbrev file : Str → Str → Entry
file name digit = record {
  path = name;
  kind = EntryKind.blob;
  hash = digit ++ lit "000000000000000000000000000000000000000000000000000000000000000";
  size = 1;
  mtime_ns = 0;
  source_uri = none;
  footer = none;
  source_etag = none;
}

abbrev base_node : List Entry
base_node = file (lit "f") (lit "1") ∷ file (lit "g") (lit "2") ∷ []

abbrev ours_node : List Entry
ours_node = file (lit "f") (lit "3") ∷ file (lit "g") (lit "2") ∷ []

abbrev theirs_node : List Entry
theirs_node = file (lit "f") (lit "1") ∷ file (lit "g") (lit "4") ∷ []

abbrev store : Nodes
store =
    (encode base_node, base_node)
    ∷ (encode ours_node, ours_node)
    ∷ (encode theirs_node, theirs_node)
    ∷ []

abbrev start : Writer
start = record { nodes = store; conflicts = [] }

-- What holds of the listed nodes holds of those that are found.
get-All :
    (P : Str → List Entry → Type 0) (d : Nodes)
    → All (λ (h, es). P h es) d
    → (h : Str) (es : List Entry) → get d h ≡ some es
    → P h es
unfolding get
get-All P [] a h es q = absurd (cc q)
get-All P ((k, xs) ∷ d) (p, ps) h es q = elim (Bool-cases (h == k)) [
  | inl y ↦
      let found : some xs ≡ some es = sym (ap (λ b. if b then some xs else get d h) y) ∙ q in
      let same : xs ≡ es = cc found in
      subst (λ l. P h l) same (subst (λ i. P i xs) (sym ((==_iff h k).0 y)) p)
  | inr y ↦ get-All P d ps h es (sym (ap (λ b. if b then some xs else get d h) y) ∙ q)
]

abbrev merged_node : List Entry
merged_node = file (lit "f") (lit "3") ∷ file (lit "g") (lit "4") ∷ []

abbrev after : Writer
after = record {
  nodes =
      (encode base_node, base_node)
      ∷ (encode ours_node, ours_node)
      ∷ (encode theirs_node, theirs_node)
      ∷ (encode merged_node, merged_node)
      ∷ [];
  conflicts = [];
}

merges :
    Yields
      (merge_trees encode 5 1 (some (encode base_node)) (encode ours_node) (encode theirs_node))
      start
      (encode merged_node)
      after
unfolding merge_trees get put list_eq nat_eq option_eq encode is_component is_after str_lt
merges = refl

store-Consistent : Consistent encode store
store-Consistent = get-All (λ h es. encode es ≡ h) store (refl, (refl, (refl, tt)))

after-IsPlain : IsPlain after.nodes
after-IsPlain =
    get-All (λ h es. any is_shard es ≡ false) after.nodes (refl, (refl, (refl, (refl, tt))))

merge_trees_sound_example :
    Extends start.nodes after.nodes
    × ((parts : List Str)
        → IsMerged
            (view after.nodes parts (some (encode base_node)))
            (view after.nodes parts (some (encode ours_node)))
            (view after.nodes parts (some (encode theirs_node)))
            (view after.nodes parts (some (encode merged_node))))
merge_trees_sound_example =
    merge_trees_sound encode encode-IsInjective 4 1 (some (encode base_node)) (encode ours_node)
      (encode theirs_node) start (encode merged_node) after store-Consistent after-IsPlain merges

merge_trees-Ends_example :
    Ends
      (merge_trees encode 5 1 (some (encode base_node)) (encode ours_node) (encode theirs_node))
      start
unfolding encode get list_eq nat_eq
merge_trees-Ends_example =
    merge_trees-Ends encode 3 1 (some (encode base_node)) (encode ours_node) (encode theirs_node)
      start (ours_node, refl, ((λ h. absurd (cc h)), ((λ h. absurd (cc h)), tt)))

build_children-Ends_example : Ends (build_children encode 2 [] ours_node) start
build_children-Ends_example = build_children-Ends encode 0 [] ours_node start

-- The sides have each changed a file, and both have deleted `g`.
abbrev ours_less : List Entry
ours_less = file (lit "f") (lit "3") ∷ file (lit "k") (lit "2") ∷ []

abbrev theirs_less : List Entry
theirs_less = file (lit "f") (lit "1") ∷ file (lit "k") (lit "4") ∷ []

abbrev base_more : List Entry
base_more = file (lit "f") (lit "1") ∷ file (lit "g") (lit "2") ∷ file (lit "k") (lit "2") ∷ []

abbrev less : Writer
less = record {
  nodes =
      (encode base_more, base_more)
      ∷ (encode ours_less, ours_less)
      ∷ (encode theirs_less, theirs_less)
      ∷ [];
  conflicts = [];
}

less-Consistent : Consistent encode less.nodes
less-Consistent = get-All (λ h es. encode es ≡ h) less.nodes (refl, (refl, (refl, tt)))

less-IsPlain : IsPlain less.nodes
less-IsPlain = get-All (λ h es. any is_shard es ≡ false) less.nodes (refl, (refl, (refl, tt)))

differ : (a b : Str) → (a == b) ≡ false → a ≢ b
differ a b h q = cc ((==_iff a b).1 q, h)

merge_directory-deleted_example :
    is_ok
      (merge_directory encode 5 1 []
        (some (encode base_more))
        (some (encode ours_less))
        (some (encode theirs_less))
        less).0
    ≡ false
unfolding encode get list_eq nat_eq find
merge_directory-deleted_example =
    merge_directory-deleted encode 4 encode-IsInjective 1 [] (encode base_more) (encode ours_less)
      (encode theirs_less) base_more ours_less theirs_less (lit "g") less less-Consistent
      less-IsPlain (differ (encode ours_less) (encode theirs_less) refl)
      (differ (encode ours_less) (encode base_more) refl)
      (differ (encode theirs_less) (encode base_more) refl) refl refl refl (λ q. absurd (cc q)) refl
      refl
