-- ===== src/Samples/Repository.antt =====
-- The sample repository's trees, and that its commits and trees are all there.
use reflake.Prelude.{
  Str, ℕ, ◌+◌, ◌<◌, List, [], ◌∷◌, In, length, ◌≡◌, refl, sym, ap, subst, ◌∙◌, inl, inr, Option,
  none, some, ◌==◌, list_eq, nat_eq, lit, if◌then◌else◌, arith,
}
use reflake.Domain.{Result, ok}
use reflake.Trees.Entry.{Entry, EntryKind}
use reflake.Walk.Correct.{budget}
use reflake.Gc.Mark.{next_commits, next_trees, subtree_hashes}
use reflake.Gc.Entries.{IsSubtree}
use reflake.Gc.Reachable.{IsRepository}
use reflake.Refs.Manager.{read_commit}
use reflake.Samples.{m_id, nodes, store, each, knows}
use reflake.Samples.History.{history}

abbrev entry : Str → EntryKind → Str → Option Str → Entry
entry path kind hash footer = record {
  path = path;
  kind = kind;
  hash = hash;
  size = 0;
  mtime_ns = 0;
  source_uri = none;
  footer = footer;
  source_etag = none;
}

abbrev pub t_entry : Entry
t_entry = entry (lit "readme") EntryKind.blob (lit "x") none

abbrev pub u_entry : Entry
u_entry = entry (lit "part") EntryKind.bp (lit "y") (some (lit "f"))

abbrev pub t_entries : List Entry
t_entries = entry (lit "data") EntryKind.tree (lit "u") none ∷ t_entry ∷ []

abbrev pub u_entries : List Entry
u_entries = entry (lit "part") EntryKind.shard (lit "w") none ∷ []

-- The shard of the directory `data`.
abbrev pub w_entries : List Entry
w_entries = u_entry ∷ []

abbrev pub tree_nodes : List Str
tree_nodes = lit "t" ∷ lit "u" ∷ lit "w" ∷ []

abbrev pub load : Str → Result (Option (List Entry))
load t =
    if t == lit "t"
    then ok (some t_entries)
    else if t == lit "u"
    then ok (some u_entries)
    else if t == lit "w"
    then ok (some w_entries)
    else ok none

abbrev pub trees_of : Str → Result (List Str)
trees_of = next_trees (read_commit store) load

abbrev pub commits_of : Str → Result (List Str)
commits_of = next_commits (read_commit store) load

loads : (t : Str) → In t tree_nodes → (o : Option (List Entry)) × (load t ≡ ok o)
unfolding list_eq nat_eq
loads t (inl e) = (some t_entries, ap load e)
loads t (inr (inl e)) = (some u_entries, ap load e)
loads t (inr (inr (inl e))) = (some w_entries, ap load e)
loads t (inr (inr (inr n))) = absurd n

children-t : (e : Entry) → In e t_entries → IsSubtree e → In e.hash tree_nodes
children-t e (inl q) s = inr (inl (ap (λ z. z.hash) q))
children-t e (inr (inl q)) s = absurd (leaf_is_blob e q s)
  where
    leaf_is_blob : (e : Entry) → e ≡ t_entry → IsSubtree e → ⊥
    leaf_is_blob e q (inl k) = cc (sym (ap (λ z. z.kind) q) ∙ k)
    leaf_is_blob e q (inr k) = cc (sym (ap (λ z. z.kind) q) ∙ k)
children-t e (inr (inr n)) s = absurd n

children-u : (e : Entry) → In e u_entries → In e.hash tree_nodes
children-u e (inl q) = inr (inr (inl (ap (λ z. z.hash) q)))
children-u e (inr n) = absurd n

children-w : (e : Entry) → In e w_entries → IsSubtree e → In e.hash tree_nodes
children-w e (inl q) (inl k) = absurd (cc (sym (ap (λ z. z.kind) q) ∙ k))
children-w e (inl q) (inr k) = absurd (cc (sym (ap (λ z. z.kind) q) ∙ k))
children-w e (inr n) s = absurd n

-- Equal answers list the same entries.
listed :
    (xs ys : List Entry)
    → ◌≡◌ {A = Result (Option (List Entry))} (ok (some xs)) (ok (some ys))
    → xs ≡ ys
listed xs ys q = cc q

pub children :
    (t : Str) (es : List Entry) (e : Entry)
    → In t tree_nodes
    → load t ≡ ok (some es)
    → In e es
    → IsSubtree e
    → In e.hash tree_nodes
unfolding list_eq nat_eq
children t es e (inl q) l m s =
    children-t e (subst (In e) (listed es t_entries (sym l ∙ ap load q)) m) s
children t es e (inr (inl q)) l m s =
    children-u e (subst (In e) (listed es u_entries (sym l ∙ ap load q)) m)
children t es e (inr (inr (inl q))) l m s =
    children-w e (subst (In e) (listed es w_entries (sym l ∙ ap load q)) m) s
children t es e (inr (inr (inr n))) l m s = absurd n

pub repository : IsRepository (read_commit store) load nodes tree_nodes
repository = record {
  readable = knows;
  parents = λ x p c m r n. history.closed x p c m (rw r refl) n;
  rooted = λ x c m r.
      each (λ x c. In c.tree tree_nodes) (inl refl) (inl refl) (inr (inl refl)) (inl refl) x c m
        (rw r refl);
  loads = loads;
  children = children;
}

pub tree_budget : budget trees_of tree_nodes [] ≡ 2
unfolding next_trees subtree_hashes list_eq nat_eq
tree_budget = refl

pub commit_budget : budget commits_of nodes [] ≡ 4
unfolding next_commits read_commit reflake.Prelude.Dict.get list_eq nat_eq
commit_budget = refl

abbrev pub heads : List (Option Str)
heads = some m_id ∷ none ∷ []
