-- ===== src/Refs/Store.antt =====
-- The shared store and the client's files, as far as branches are concerned.
use reflake.Prelude.{
  Str, String, List, [], ◌∷◌, ◌++◌, Option, none, some, Bool, true, false, ◌==◌, if◌then◌else◌,
  list_eq, nat_eq, option_eq,
}
use reflake.Prelude.Dict.{Dict, keys, get, put}
use reflake.Domain.{BranchRefState, CommitObject}

pub record Store : Type 0 where
  pub heads : Dict Str (Option Str)
  pub commits : Dict Str (Option CommitObject)

pub record ReflogLine : Type 0 where
  pub branch : Str
  pub old_commit : Option Str
  pub new_commit : Option Str
  pub operation : String

-- `LocalClientState`: HEAD, the branch snapshots and the reflog files, oldest line first.
pub record Client : Type 0 where
  pub head : Str
  pub snapshots : Dict Str (Option Str)
  pub reflog : List ReflogLine

pub record World : Type 0 where
  pub store : Store
  pub client : Client

-- A commit id that is falsy in Python, None or the empty text, is no commit id.
unfoldable pub truthy : Option Str → Option Str
truthy none = none
truthy (some []) = none
truthy (some (c ∷ s)) = some (c ∷ s)

-- `LocalObjectStore.read_branch_ref`; an id that is stored has no white space around it to strip.
unfoldable pub read_branch_ref : Store → Str → Option BranchRefState
read_branch_ref s branch = elim (get s.heads branch) [
  | none ↦ none
  | some id ↦ some (record { branch = branch; commit_id = truthy id })
]

-- `current_state.commit_id if current_state else None`
unfoldable pub commit_id_of : Option BranchRefState → Option Str
commit_id_of none = none
commit_id_of (some state) = state.commit_id

-- `LocalObjectStore.write_branch_ref`, of a name that is no folder of another ref's and has none
-- for its own folder, which the file system would refuse.
unfoldable pub write_branch_ref : Store → Str → Option Str → Store
write_branch_ref s branch commit_id = record s { heads = put s.heads branch (truthy commit_id) }

-- `LocalObjectStore.compare_and_set_branch_ref`; the lock makes it one step.
unfoldable pub compare_and_set_branch_ref : Store → Str → Option Str → Option Str → Bool × Store
compare_and_set_branch_ref s branch commit_id expected =
    if commit_id_of (read_branch_ref s branch) == expected
    then (true, write_branch_ref s branch commit_id)
    else (false, s)

-- `LocalObjectStore.iter_branches`: the names with a ref file, here in the order of creation.
unfoldable pub iter_branches : Store → List Str
iter_branches s = keys s.heads

-- `LocalClientState.read_branch_snapshot`
unfoldable pub read_branch_snapshot : Client → Str → Option BranchRefState
read_branch_snapshot c branch = elim (get c.snapshots branch) [
  | none ↦ none
  | some id ↦ some (record { branch = branch; commit_id = id })
]

-- `LocalClientState.write_branch_snapshot`
unfoldable pub write_branch_snapshot : Str → Option Str → Client → Client
write_branch_snapshot branch commit_id c = record c { snapshots = put c.snapshots branch commit_id }

-- `LocalClientState.append_reflog`; an absent commit is written as zeros. The time is left out.
unfoldable pub append_reflog : Str → Option Str → Option Str → String → Client → Client
append_reflog branch old new operation c = record c {
  reflog =
      c.reflog
      ++ record {
        branch = branch;
        old_commit = truthy old;
        new_commit = truthy new;
        operation = operation;
      }
        ∷ [];
}

-- `LocalClientState.iter_reflog`: the lines of a branch, newest first.
unfoldable pub iter_reflog : Client → Str → List ReflogLine
iter_reflog c branch = lines c.reflog
  where
    lines : List ReflogLine → List ReflogLine
    lines [] = []
    lines (l ∷ ls) = if l.branch == branch then lines ls ++ l ∷ [] else lines ls
