-- ===== src/Samples.antt =====
-- A small repository: a root commit, two children of it, and their merge, each with its tree.
pub mod Encoding
pub mod Merges
pub mod Logs
pub mod Clients
pub mod Codecs
pub mod History
pub mod Repository
pub mod Witnesses
pub mod Changes
use reflake.Prelude.{
  Str, ℕ, List, [], ◌∷◌, In, ◌≡◌, refl, sym, ap, subst, ◌∙◌, inl, inr, Option, none, some, ◌==◌,
  list_eq, nat_eq, lit, if◌then◌else◌,
}
use reflake.Prelude.Dict.{get}
use reflake.Domain.{CommitObject, Result, ok, raise, diverge, ◌>>=◌}
use reflake.Trees.Entry.{Entry, EntryKind}
use reflake.Refs.Store.{Store, Client, World, read_branch_ref, truthy}
use reflake.Refs.Manager.{read_commit, read_some}

abbrev pub a_id : Str
a_id = lit "a"

abbrev pub b_id : Str
b_id = lit "b"

abbrev pub c_id : Str
c_id = lit "c"

abbrev pub m_id : Str
m_id = lit "m"

abbrev pub main_branch : Str
main_branch = lit "main"

abbrev commit_at : Str → Str → List Str → Option ℕ → CommitObject
commit_at id tree parents generation = record {
  id = id;
  message = [];
  tree = tree;
  parents = parents;
  created_at = [];
  generation = generation;
}

abbrev pub a_commit : CommitObject
a_commit = commit_at a_id (lit "t") [] (some 0)

abbrev pub b_commit : CommitObject
b_commit = commit_at b_id (lit "t") (a_id ∷ []) (some 1)

abbrev pub c_commit : CommitObject
c_commit = commit_at c_id (lit "u") (a_id ∷ []) (some 1)

-- An old commit, without a stored generation.
abbrev pub m_commit : CommitObject
m_commit = commit_at m_id (lit "t") (b_id ∷ c_id ∷ []) none

abbrev pub nodes : List Str
nodes = a_id ∷ b_id ∷ c_id ∷ m_id ∷ []

abbrev pub gen : Str → ℕ
gen x = if x == a_id then 0 else if x == m_id then 2 else 1

abbrev pub store : Store
store = record {
  heads = (main_branch, some b_id) ∷ [];
  commits =
      (a_id, some a_commit)
      ∷ (b_id, some b_commit)
      ∷ (c_id, some c_commit)
      ∷ (m_id, some m_commit)
      ∷ [];
}

abbrev pub world : World
world = record {
  store = store;
  client = record { head = main_branch; snapshots = (main_branch, some b_id) ∷ []; reflog = [] };
}

abbrev pub read : Str → Result (Option CommitObject)
read = read_some store

read-a : read a_id ≡ ok (some a_commit)
unfolding read_commit get list_eq nat_eq
read-a = refl

read-b : read b_id ≡ ok (some b_commit)
unfolding read_commit get list_eq nat_eq
read-b = refl

read-c : read c_id ≡ ok (some c_commit)
unfolding read_commit get list_eq nat_eq
read-c = refl

read-m : read m_id ≡ ok (some m_commit)
unfolding read_commit get list_eq nat_eq
read-m = refl

at_id :
    (P : Str → CommitObject → Type 0) (id x : Str) (commit c : CommitObject)
    → read id ≡ ok (some commit)
    → P id commit
    → x ≡ id
    → read x ≡ ok (some c)
    → P x c
at_id P id x commit c e p same r =
    let q : commit ≡ c = cc in subst (λ y. P y c) (sym same) (subst (P id) q p)

-- A proof about each commit is a proof about every commit of the list.
pub each :
    (P : Str → CommitObject → Type 0)
    → P a_id a_commit
    → P b_id b_commit
    → P c_id c_commit
    → P m_id m_commit
    → (x : Str) (c : CommitObject) → In x nodes
    → read x ≡ ok (some c)
    → P x c
each P pa pb pc pm x c (inl e) r = at_id P a_id x a_commit c read-a pa e r
each P pa pb pc pm x c (inr (inl e)) r = at_id P b_id x b_commit c read-b pb e r
each P pa pb pc pm x c (inr (inr (inl e))) r = at_id P c_id x c_commit c read-c pc e r
each P pa pb pc pm x c (inr (inr (inr (inl e)))) r = at_id P m_id x m_commit c read-m pm e r
each P pa pb pc pm x c (inr (inr (inr (inr n)))) r = absurd n

pub known : (x : Str) → In x nodes → (c : CommitObject) × (read x ≡ ok (some c))
known x (inl e) = (a_commit, ap read e ∙ read-a)
known x (inr (inl e)) = (b_commit, ap read e ∙ read-b)
known x (inr (inr (inl e))) = (c_commit, ap read e ∙ read-c)
known x (inr (inr (inr (inl e)))) = (m_commit, ap read e ∙ read-m)
known x (inr (inr (inr (inr n)))) = absurd n

read_commit-known :
    (r : Result CommitObject) (c : CommitObject) → (r >>= λ c. ok (some c)) ≡ ok (some c) → r ≡ ok c
read_commit-known (ok d) c e = cc
read_commit-known (raise x) c e = cc
read_commit-known diverge c e = cc

pub knows : (x : Str) → In x nodes → (c : CommitObject) × (read_commit store x ≡ ok c)
knows x m = (let (c, r) = known x m in (c, read_commit-known (read_commit store x) c r))
