-- ===== src/Refs/FastForward.antt =====
-- `fast_forward_branch` advances a branch to a descendant of its commit or leaves the store alone.
use reflake.Prelude.{
  ◌⊎◌, inl, inr, ◌↔◌, ℕ, ◌+◌, ◌<◌, In, length, Str, String, List, Option, none, some, Bool, true,
  false, Bool-cases, ◌≡◌, ◌≢◌, refl, ◌==◌, ==_iff, if◌then◌else◌, list_eq, nat_eq, option_eq,
}
use reflake.Domain.{ok, raise, ref_conflict, non_fast_forward}
use reflake.Graph.Generation.{IsHistory, Ancestor}
use reflake.Graph.Ancestor.{is_ancestor_commit}
use reflake.Graph.Ancestor.Correct.{is_ancestor_commit_lem}
use reflake.Refs.Store.{World, truthy}
use reflake.Refs.Manager.{read_some, loses_commits, fast_forward_from}
use reflake.Refs.Cas.{head_of, update_branch_ref_lem}

-- No commit of the branch is lost if the branch moves from the one commit to the other.
abbrev pub Keeps : World → Option Str → Str → Type 0
Keeps w none target = Unit
Keeps w (some current) target = Ancestor (read_some w.store) current target

module _ (w : World) (nodes : List Str) (gen : Str → ℕ)
    (history : IsHistory (read_some w.store) nodes gen) (depth fuel : ℕ)
    (deep : (y : Str) → In y nodes → gen y < depth) (enough : length nodes + 1 < fuel) where
  loses_commits_lem :
      (current : Option Str) (target : Str)
      → ((c : Str) → current ≡ some c → In c nodes)
      → In target nodes
      → ((loses_commits depth fuel current target w ≡ (ok false, w)) × Keeps w current target)
        ⊎ ((loses_commits depth fuel current target w ≡ (ok true, w))
            × (Keeps w current target → ⊥))
  unfolding loses_commits
  loses_commits_lem none target inside mt = inl (refl, tt)
  loses_commits_lem (some c) target inside mt = split (
      is_ancestor_commit_lem (read_some w.store) nodes gen history depth fuel c target deep
        (inside c refl) mt enough)
    where
      split :
          (b : Bool) × (is_ancestor_commit (read_some w.store) depth fuel c target ≡ ok b)
            × ((b ≡ true) ↔ Ancestor (read_some w.store) c target)
          → ((loses_commits depth fuel (some c) target w ≡ (ok false, w)) × Keeps w (some c) target)
            ⊎ ((loses_commits depth fuel (some c) target w ≡ (ok true, w))
                × (Keeps w (some c) target → ⊥))
      split (true, e, decides) = inl (rw e refl, decides.0 refl)
      split (false, e, decides) = inr (rw e refl, λ k. cc (decides.1 k))

  -- In a history that holds the target and the commit that the branch is thought to point to, the
  -- fast-forward has one of two outcomes. It returns True; then the branch did point to that
  -- commit, which the target keeps, and now it points to the target, and the other branches and
  -- the commits are what they were. Or the store is what it was, and the target is the commit that
  -- the branch is thought to point to and the result is False, or the target loses that commit and
  -- the result is the fast-forward error, or the branch points elsewhere and the result is the
  -- conflict.
  pub fast_forward_from_lem :
      (b target : Str) (current : Option Str) (operation : String)
      → ((c : Str) → truthy current ≡ some c → In c nodes)
      → In target nodes
      → let (r, w') = fast_forward_from depth fuel b target operation current w in
        ((r ≡ ok true)
          × (head_of w.store b ≡ current)
          × Keeps w (truthy current) target
          × ((j : Str)
              → head_of w'.store j ≡ (if j == b then truthy (some target) else head_of w.store j))
          × (w'.store.commits ≡ w.store.commits))
        ⊎ ((w'.store ≡ w.store)
            × (((r ≡ ok false) × (current ≡ some target))
                ⊎ ((r ≡ raise (non_fast_forward b current target))
                    × (Keeps w (truthy current) target → ⊥))
                ⊎ ((r ≡ raise (ref_conflict b operation current (head_of w.store b)))
                    × (head_of w.store b ≢ current))))
  unfolding fast_forward_from
  fast_forward_from_lem b target current operation inside mt =
      elim (Bool-cases (current == some target)) [
        | inl same ↦ inr (rw same (refl, inl (refl, (==_iff current (some target)).0 same)))
        | inr differ ↦ elim (loses_commits_lem (truthy current) target inside mt) [
          | inr (e, lost) ↦ inr (rw (differ, e) (refl, inr (inl (refl, lost))))
          | inl (e, keeps) ↦ elim (update_branch_ref_lem b (some target) current operation w) [
            | inl (same, r, heads, _, commits, _) ↦
                inl (rw (differ, e, r) (refl, same, keeps, heads, commits))
            | inr (other, r, store, _) ↦ inr (rw (differ, e, r) (store, inr (inr (refl, other))))
          ]
        ]
      ]
