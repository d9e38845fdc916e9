-- ===== src/Refs/Manager.antt =====
-- `RefManager` of core/services/refs.py.
use reflake.Prelude.{
  Str, ℕ, String, List, [], ◌∷◌, ◌++◌, Option, none, some, Bool, true, false, not, ◌&&◌, ◌||◌, any,
  ◌==◌, if◌then◌else◌, list_eq, nat_eq, option_eq, lit, starts_with,
}
use reflake.Prelude.Dict.{get}
use reflake.Domain.{
  BranchRefState, CommitObject, Result, ok, raise, diverge, value_error, unknown_ref, empty_branch,
  unknown_commit, corrupt_commit, non_fast_forward, ref_conflict, file_not_found,
}
use reflake.Exec.{Exec, pure, throw, lift, gets, modify, ◌>>=◌, ◌>>◌, throw_if}
use reflake.Paths.{validate_branch_name}
use reflake.Graph.Ancestor.{is_ancestor_commit}
use reflake.Graph.MergeBase.{read_known}
use reflake.Refs.Store.{
  Store, World, truthy, read_branch_ref, commit_id_of, compare_and_set_branch_ref, iter_branches,
  read_branch_snapshot, write_branch_snapshot, append_reflog,
}

-- `read_commit`, without the cache of commits that were read before.
unfoldable pub read_commit : Store → Str → Result CommitObject
read_commit s id = elim (get s.commits id) [
  | none ↦ raise (unknown_commit id)
  | some none ↦ raise (corrupt_commit id)
  | some (some c) ↦ ok c
]

-- `read_commit` as the ancestor search calls it: it raises, and never answers None.
abbrev pub read_some : Store → Str → Result (Option CommitObject)
read_some s = read_known (read_commit s)

abbrev pub Ref : Type 0 → Type 0
Ref A = Exec World A

abbrev pub read_ref : Str → Ref (Option BranchRefState)
read_ref branch = gets (λ w. read_branch_ref w.store branch)

-- `compare_and_set_branch_ref` of the shared store.
unfoldable pub compare_and_set : Str → Option Str → Option Str → Ref Bool
unfolding compare_and_set_branch_ref
compare_and_set branch commit_id expected w =
    let (done, s) = compare_and_set_branch_ref w.store branch commit_id expected in
    (ok done, record w { store = s })

unfoldable pub current_branch : Ref Str
current_branch = gets (λ w. w.client.head)

unfoldable pub resolve_ref : Str → Ref Str
unfolding read_branch_ref truthy
resolve_ref branch_or_commit w = elim (read_branch_ref w.store branch_or_commit) [
  | some state ↦ elim (truthy state.commit_id) [
    | none ↦ (raise (empty_branch branch_or_commit), w)
    | some id ↦ (ok id, w)
  ]
  | none ↦ elim (get w.store.commits branch_or_commit) [
    | some _ ↦ (ok branch_or_commit, w)
    | none ↦ (raise (unknown_ref branch_or_commit), w)
  ]
]

-- What a snapshot is refreshed to after a ref was read.
abbrev pub refresh : Str → Option BranchRefState → Ref (Unit {0})
refresh branch none = pure tt
refresh branch (some state) =
    modify (λ w. record w { client = write_branch_snapshot branch state.commit_id w.client })

-- `_reject_namespace_conflict`
unfoldable pub has_namespace_conflict : Str → List Str → Bool
unfolding starts_with
has_namespace_conflict name others =
    any
      (λ other.
        not (other == name)
        && (starts_with other (name ++ lit "/") || starts_with name (other ++ lit "/")))
      others

unfoldable pub update_branch_ref : Str → Option Str → Option Str → String → Ref (Unit {0})
unfolding compare_and_set
update_branch_ref branch commit_id expected operation = do
  updated ← compare_and_set branch commit_id expected
  current_state ← read_ref branch
  refresh branch current_state
  if updated
      then modify
          (λ w. record w { client = append_reflog branch expected commit_id operation w.client })
      else throw (ref_conflict branch operation expected (commit_id_of current_state))

-- `RefManager.branch`
unfoldable pub branch : Str → Ref Str
unfolding compare_and_set
branch raw = do
  name ← lift (validate_branch_name raw)
  others ← gets (λ w. iter_branches w.store)
  throw_if (has_namespace_conflict name others)
      (value_error "Branch name conflicts with existing branch")
  existing ← read_ref name
  throw_if (not (commit_id_of existing == none)) (value_error "Branch already exists")
  head ← current_branch
  head_state ← read_ref head
  created ← compare_and_set name (commit_id_of head_state) none
  throw_if (not created) (value_error "Branch already exists")
  created_state ← read_ref name
  refresh name created_state
  pure name

unfoldable pub delete_branch : Str → Ref Str
unfolding update_branch_ref
delete_branch name = do
  current ← current_branch
  throw_if (name == current) (value_error "Cannot delete the current branch")
  branch_state ← read_ref name
  throw_if (commit_id_of branch_state == none) (unknown_ref name)
  update_branch_ref name none (commit_id_of branch_state) "branch delete"
  pure name

unfoldable pub ensure_branch_exists : Str → Ref (Unit {0})
ensure_branch_exists branch w = elim (read_branch_ref w.store branch) [
  | some _ ↦ (ok tt, w)
  | none ↦ if branch == w.client.head then (ok tt, w) else (raise (unknown_ref branch), w)
]

unfoldable pub set_current_branch : Str → Ref (Unit {0})
unfolding ensure_branch_exists
set_current_branch branch = do
  ensure_branch_exists branch
  modify (λ w. record w { client = record (w.client) { head = branch } })

unfoldable pub require_branch_state : Str → Bool → Ref BranchRefState
require_branch_state branch allow_unborn w = elim (read_branch_snapshot w.client branch) [
  | some state ↦ (ok state, w)
  | none ↦ elim (read_branch_ref w.store branch) [
    | some state ↦
        (ok state, record w { client = write_branch_snapshot branch state.commit_id w.client })
    | none ↦ (
      if allow_unborn
          then ok (record { branch = branch; commit_id = none })
          else raise (unknown_ref branch),
      w,
    )
  ]
]

unfoldable pub negated : Result Bool → Result Bool
negated (ok b) = ok (not b)
negated (raise e) = raise e
negated diverge = diverge

-- `current_commit and not self.is_ancestor(...)`: would the update lose commits?
unfoldable pub loses_commits : ℕ → ℕ → Option Str → Str → Ref Bool
unfolding negated
loses_commits depth fuel none target w = (ok false, w)
loses_commits depth fuel (some current) target w =
    (negated (is_ancestor_commit (read_some w.store) depth fuel current target), w)

-- The part of `fast_forward_branch` after the read of the branch. The recursion depth and the fuel
-- are those of the ancestor search.
unfoldable pub fast_forward_from : ℕ → ℕ → Str → Str → String → Option Str → Ref Bool
unfolding loses_commits update_branch_ref
fast_forward_from depth fuel branch target operation current =
    if current == some target then pure false else do
      loses ← loses_commits depth fuel (truthy current) target
      throw_if loses (non_fast_forward branch current target)
      update_branch_ref branch (some target) current operation
      pure true

unfoldable pub fast_forward_branch : ℕ → ℕ → Str → Str → String → Ref Bool
unfolding require_branch_state fast_forward_from
fast_forward_branch depth fuel branch target operation = do
  branch_state ← require_branch_state branch false
  fast_forward_from depth fuel branch target operation branch_state.commit_id

unfoldable pub require_commit_for_metadata_mutation : Str → Ref CommitObject
unfolding require_branch_state read_commit
require_commit_for_metadata_mutation branch = do
  branch_state ← require_branch_state branch false
  now ← gets (λ w. w.store)
  elim (truthy branch_state.commit_id) [
    | none ↦ throw (file_not_found (branch ∷ []))
    | some id ↦ lift (read_commit now id)
  ]
