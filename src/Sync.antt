-- ===== src/Sync.antt =====
-- The fast-forward tests of push and pull, in core/repository_sync.py.
pub mod Verify
use reflake.Prelude.{
  Str, ℕ, Option, none, some, Bool, true, false, not, ◌==◌, list_eq, nat_eq, option_eq,
  if◌then◌else◌,
}
use reflake.Domain.{CommitObject, Result, ok, raise, diverge, non_fast_forward, unknown_commit}
use reflake.Graph.Ancestor.{is_ancestor_commit}
use reflake.Refs.Store.{Store, read_branch_ref, commit_id_of}
use reflake.Refs.Manager.{read_commit}

-- The inner `read_commit` of `_is_ancestor_in`: an unknown commit is None, and other errors are
-- raised.
unfoldable pub read_if_known : Store → Str → Result (Option CommitObject)
unfolding read_commit
read_if_known s commit_id = elim (read_commit s commit_id) [
  | ok c ↦ ok (some c)
  | raise (unknown_commit id) ↦ ok none
  | raise e ↦ raise e
  | diverge ↦ diverge
]

-- `_is_ancestor_in`
unfoldable pub is_ancestor_in : ℕ → ℕ → Str → Str → Store → Result Bool
unfolding is_ancestor_commit
is_ancestor_in depth fuel ancestor descendant s =
    is_ancestor_commit (read_if_known s) depth fuel ancestor descendant

unfoldable pub verify_answer : Str → Str → Str → Result Bool → Result Bool
verify_answer branch head target (ok true) = ok true
verify_answer branch head target (ok false) = raise (non_fast_forward branch (some head) target)
verify_answer branch head target (raise e) = raise e
verify_answer branch head target diverge = diverge

-- What both tests do: the head in the one store, and the history in the other.
unfoldable pub verify_fast_forward : ℕ → ℕ → Store → Str → Option Str → Str → Result Bool
unfolding is_ancestor_in verify_answer
verify_fast_forward depth fuel history branch none target = ok true
verify_fast_forward depth fuel history branch (some head) target =
    if head == target
    then ok false
    else verify_answer branch head target (is_ancestor_in depth fuel head target history)

-- `_verify_push_fast_forward`
unfoldable pub verify_push_fast_forward : ℕ → ℕ → Store → Store → Str → Str → Result Bool
unfolding verify_fast_forward
verify_push_fast_forward depth fuel local remote branch local_commit_id =
    verify_fast_forward depth fuel local branch (commit_id_of (read_branch_ref remote branch))
      local_commit_id

-- `_verify_pull_fast_forward`
unfoldable pub verify_pull_fast_forward : ℕ → ℕ → Store → Store → Str → Str → Result Bool
unfolding verify_fast_forward
verify_pull_fast_forward depth fuel local remote branch remote_commit_id =
    verify_fast_forward depth fuel remote branch (commit_id_of (read_branch_ref local branch))
      remote_commit_id
