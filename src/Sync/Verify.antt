-- ===== src/Sync/Verify.antt =====
-- A push or a pull is let through only if it keeps the commits of the branch that it moves.
use reflake.Prelude.{
  Str, ℕ, ◌+◌, ◌<◌, List, In, length, Option, none, some, Bool, true, false, Bool-cases, ◌≡◌, ◌≢◌,
  ◌↔◌, ◌⊎◌, inl, inr, refl, ◌==◌, ==_iff, list_eq, nat_eq,
}
use reflake.Domain.{Result, ok, raise, non_fast_forward}
use reflake.Graph.Generation.{IsHistory, Ancestor}
use reflake.Graph.Ancestor.Correct.{is_ancestor_commit_lem}
use reflake.Refs.Store.{Store, read_branch_ref, commit_id_of}
use reflake.Sync.{
  read_if_known, is_ancestor_in, verify_answer, verify_fast_forward, verify_push_fast_forward,
}

-- The three answers, by the head of the branch that is to be moved.
abbrev pub IsVerdict : Store → Str → Option Str → Str → Result Bool → Type 0
IsVerdict history branch none target r = r ≡ ok true
IsVerdict history branch (some head) target r =
    ((head ≡ target) × (r ≡ ok false))
    ⊎ ((head ≢ target) × (r ≡ ok true) × Ancestor (read_if_known history) head target)
    ⊎ ((r ≡ raise (non_fast_forward branch (some head) target))
        × ¬ Ancestor (read_if_known history) head target)

module _ (history : Store) (nodes : List Str) (gen : Str → ℕ)
    (is_history : IsHistory (read_if_known history) nodes gen) (depth fuel : ℕ)
    (deep : (y : Str) → In y nodes → gen y < depth) (enough : length nodes + 1 < fuel) where
  verify_fast_forward_lem :
      (branch : Str) (head : Option Str) (target : Str)
      → ((h : Str) → head ≡ some h → In h nodes)
      → In target nodes
      → IsVerdict history branch head target
          (verify_fast_forward depth fuel history branch head target)
  unfolding verify_fast_forward
  verify_fast_forward_lem branch none target inside m = refl
  verify_fast_forward_lem branch (some head) target inside m = elim (Bool-cases (head == target)) [
    | inl same ↦ inl ((==_iff head target).0 same, rw same refl)
    | inr other ↦ inr (
        answer other (
          decided (
            is_ancestor_commit_lem (read_if_known history) nodes gen is_history depth fuel head
              target deep (inside head refl) m enough)))
  ]
    where
      decided :
          (b : Bool) × (is_ancestor_in depth fuel head target history ≡ ok b)
            × ((b ≡ true) ↔ Ancestor (read_if_known history) head target)
          → ((is_ancestor_in depth fuel head target history ≡ ok true)
              × Ancestor (read_if_known history) head target)
            ⊎ ((is_ancestor_in depth fuel head target history ≡ ok false)
                × ¬ Ancestor (read_if_known history) head target)
      decided (true, e, d) = inl (e, d.0 refl)
      decided (false, e, d) = inr (e, λ k. cc (d.1 k))

      answer :
          (head == target) ≡ false
          → ((is_ancestor_in depth fuel head target history ≡ ok true)
              × Ancestor (read_if_known history) head target)
            ⊎ ((is_ancestor_in depth fuel head target history ≡ ok false)
                × ¬ Ancestor (read_if_known history) head target)
          → ((head ≢ target)
              × (verify_fast_forward depth fuel history branch (some head) target ≡ ok true)
              × Ancestor (read_if_known history) head target)
            ⊎ ((verify_fast_forward depth fuel history branch (some head) target
                  ≡ raise (non_fast_forward branch (some head) target))
                × ¬ Ancestor (read_if_known history) head target)
      answer o (inl (e, k)) = inl (
        (λ q. cc ((==_iff head target).1 q, o)),
        rw (o, verify_fast_forward) (rw (e, verify_answer) refl),
        k,
      )
      answer o (inr (e, k)) = inr (rw (o, verify_fast_forward) (rw (e, verify_answer) refl), k)

  -- If the local store's history holds the local commit and the remote head, the test of a push
  -- returns: it answers True for a branch without a remote head, False for a head that is the
  -- local commit, and True for one that is its ancestor; for any other head it raises the
  -- fast-forward error.
  pub verify_push_fast_forward_lem :
      (remote : Store) (branch target : Str)
      → ((h : Str) → commit_id_of (read_branch_ref remote branch) ≡ some h → In h nodes)
      → In target nodes
      → IsVerdict history branch
          (commit_id_of (read_branch_ref remote branch))
          target
          (verify_push_fast_forward depth fuel history remote branch target)
  unfolding verify_push_fast_forward
  verify_push_fast_forward_lem remote branch target inside m =
      verify_fast_forward_lem branch (commit_id_of (read_branch_ref remote branch)) target inside m
