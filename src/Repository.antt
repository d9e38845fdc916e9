-- ===== src/Repository.antt =====
-- `ReflakeRepository.reset`, `merge` and `log` of core/repository.py, and
-- `TreeWriter.write_commit_object` of core/services/tree.py.
pub mod Generations
pub mod Reset
pub mod Log
use reflake.Prelude.{
  Str, ℕ, String, List, [], ◌∷◌, ◌++◌, Option, none, some, Bool, true, false, not, ◌==◌,
  if◌then◌else◌, list_eq, nat_eq, option_eq, lit,
}
use reflake.Prelude.Dict.{put}
use reflake.Domain.{BranchRefState, CommitObject, Result, ok, raise, diverge, value_error}
use reflake.Exec.{Exec, pure, throw, lift, gets, modify, ◌>>=◌, ◌>>◌, throw_if}
use reflake.Graph.Generation.{of, of_all, derived_generation}
use reflake.Graph.Ancestor.{is_ancestor_commit}
use reflake.Graph.MergeBase.{merge_base_commit}
use reflake.Refs.Store.{Store, World, read_branch_ref, commit_id_of}
use reflake.Refs.Manager.{
  Ref, read_commit, read_some, read_ref, resolve_ref, update_branch_ref, fast_forward_branch,
  require_branch_state,
}

pub record ResetResult : Type 0 where
  pub ref : Str
  pub commit_id : Str
  pub previous_commit_id : Option Str
  pub updated : Bool

-- `reset`, with the branch's name already chosen: `branch or self.current_branch()`.
unfoldable pub reset : Str → Str → Ref ResetResult
unfolding resolve_ref update_branch_ref
reset ref branch_name = do
  target ← resolve_ref ref
  current_state ← read_ref branch_name
  let current_commit = commit_id_of current_state
  if current_commit == some target
      then pure (record {
        ref = branch_name;
        commit_id = target;
        previous_commit_id = current_commit;
        updated = false;
      })
      else do
        update_branch_ref branch_name (some target) current_commit "reset"
        pure (record {
          ref = branch_name;
          commit_id = target;
          previous_commit_id = current_commit;
          updated = true;
        })

-- `LocalObjectStore.write_commit_bytes`, of the encoded commit; `if_missing` is never asked for.
unfoldable pub write_commit_bytes : Str → CommitObject → Store → Store
write_commit_bytes commit_id commit s = record s { commits = put s.commits commit_id (some commit) }

-- `RefManager.generation_of`; what the provider remembers from earlier calls is left out.
unfoldable pub generation_of : ℕ → Store → Str → Result ℕ
unfolding of
generation_of depth s commit_id = elim (of (read_some s) depth commit_id []) [
  | ok answer ↦ ok answer.0
  | raise e ↦ raise e
  | diverge ↦ diverge
]

-- `self.refs.generation_of(parent_id) for parent_id in parents`
unfoldable pub generations_of : ℕ → Store → List Str → Result (List ℕ)
unfolding generation_of
generations_of depth s [] = ok []
generations_of depth s (p ∷ ps) = elim (generation_of depth s p) [
  | ok g ↦ elim (generations_of depth s ps) [
    | ok gs ↦ ok (g ∷ gs)
    | raise e ↦ raise e
    | diverge ↦ diverge
  ]
  | raise e ↦ raise e
  | diverge ↦ diverge
]

-- What the repository takes from elsewhere: the hash of a commit's message, tree and parents, the
-- time as text, and the merge of three trees, which may raise.
pub record Services : Type 0 where
  pub commit_hash : Str → Str → List Str → Str
  pub now : Str
  pub merge_trees : Option Str → Str → Str → Result Str

pub record MergeResult : Type 0 where
  pub source_ref : Str
  pub target_ref : Str
  pub commit_id : Str
  pub updated : Bool

unfoldable tree_of : Option CommitObject → Option Str
tree_of none = none
tree_of (some base) = some base.tree

module _ (services : Services) (depth fuel : ℕ) where
  abbrev pub new_commit : Str → List Str → Str → ℕ → CommitObject
  new_commit message parents tree_hash generation = record {
    id = services.commit_hash message tree_hash parents;
    message = message;
    tree = tree_hash;
    parents = parents;
    created_at = services.now;
    generation = some generation;
  }

  -- `write_commit_object`; one parent is the list of it.
  unfoldable pub write_commit_object : Str → Str → List Str → Str → Option Str → String → Ref Str
  unfolding generations_of derived_generation write_commit_bytes update_branch_ref
  write_commit_object branch message parents tree_hash expected_commit_id operation = do
    now_stored ← gets (λ w. w.store)
    gs ← lift (generations_of depth now_stored parents)
    let commit = new_commit message parents tree_hash (derived_generation gs)
    modify (λ w. record w { store = write_commit_bytes commit.id commit w.store })
    update_branch_ref branch (some commit.id) expected_commit_id operation
    pure commit.id

  -- The part of `merge` for commits that have diverged.
  unfoldable pub merge_diverged : Str → Str → Str → Str → String → Str → Ref MergeResult
  unfolding write_commit_object tree_of
  merge_diverged source_ref target_ref source_commit target_commit operation message = do
    s ← gets (λ w. w.store)
    base ← lift (merge_base_commit (read_commit s) depth fuel source_commit target_commit)
    target_obj ← lift (read_commit s target_commit)
    source_obj ← lift (read_commit s source_commit)
    merged_tree ← lift (services.merge_trees (tree_of base) target_obj.tree source_obj.tree)
    branch_state ← require_branch_state target_ref false
    commit_id ←
        write_commit_object target_ref message (target_commit ∷ source_commit ∷ []) merged_tree
          branch_state.commit_id operation
    pure (record {
      source_ref = source_ref;
      target_ref = target_ref;
      commit_id = commit_id;
      updated = true;
    })

  unfoldable pub merge : Str → Str → Ref MergeResult
  unfolding resolve_ref merge_diverged fast_forward_branch
  merge source_ref target_ref = do
    throw_if (source_ref == []) (value_error "Source ref cannot be empty")
    throw_if (target_ref == []) (value_error "Target ref cannot be empty")
    source_commit ← resolve_ref source_ref
    target_commit ← resolve_ref target_ref
    s ← gets (λ w. w.store)
    let unchanged : MergeResult = record {
      source_ref = source_ref;
      target_ref = target_ref;
      commit_id = target_commit;
      updated = false;
    }
    if source_commit == target_commit then pure unchanged else do
      contained ← lift (is_ancestor_commit (read_some s) depth fuel source_commit target_commit)
      if contained then pure unchanged else do
        behind ← lift (is_ancestor_commit (read_some s) depth fuel target_commit source_commit)
        if behind
            then (do
              _ ← fast_forward_branch depth fuel target_ref source_commit "merge"
              pure (record {
                source_ref = source_ref;
                target_ref = target_ref;
                commit_id = source_commit;
                updated = true;
              }))
            else merge_diverged source_ref target_ref source_commit target_commit "merge"
                (lit "merge " ++ source_ref ++ lit " into " ++ target_ref)
