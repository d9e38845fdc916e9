-- ===== src/Samples/Clients.antt =====
-- The theorems on several clients, at the sample's history.
use reflake.Prelude.{
  Str, In, Option, some, true, false, ==_iff, ◌≡◌, refl, subst, inl, inr, ◌==◌, list_eq, nat_eq,
  option_eq, arith,
}
use reflake.Prelude.Dict.{get}
use reflake.Domain.{ok}
use reflake.Graph.Generation.{up, here}
use reflake.Refs.Store.{truthy, read_branch_ref, commit_id_of}
use reflake.Refs.Manager.{read_commit, fast_forward_from}
use reflake.Refs.Cas.{head_of}
use reflake.Refs.Clients.{attempt, Steps, done, next, Retains, Steps-Retains, attempt-advances}
use reflake.Samples.{b_id, m_id, m_commit, main_branch, store, world, nodes, gen}
use reflake.Samples.History.{history, deep}
use mathlib.Core.Option.{some-injective}

from_head : (c : Str) → truthy (some b_id) ≡ some c → In c nodes
unfolding truthy
from_head c e = subst (λ x. In x nodes) (some-injective b_id c e) (inr (inl refl))

m_inside : In m_id nodes
m_inside = inr (inr (inr (inl refl)))

moves :
    Steps nodes 3 6 store (fast_forward_from 3 6 main_branch m_id "merge" (some b_id) world).1.store
unfolding truthy
moves =
    next done (attempt world.client main_branch m_id (some b_id) "merge" from_head m_inside refl)

Steps-Retains_example :
    let t = (fast_forward_from 3 6 main_branch m_id "merge" (some b_id) world).1.store in
    (t.commits ≡ store.commits) × Retains t main_branch b_id
unfolding read_branch_ref commit_id_of truthy get list_eq nat_eq
Steps-Retains_example =
    Steps-Retains nodes gen 3 6 deep (omega arith) store
      (fast_forward_from 3 6 main_branch m_id "merge" (some b_id) world).1.store main_branch b_id
      history moves refl

other_commit : ((some b_id) == (some m_id)) ≡ false
unfolding option_eq list_eq nat_eq
other_commit = refl

other_target : ◌≡◌ {A = Option Str} (some b_id) (some m_id) → ⊥
other_target e = cc ((==_iff (some b_id) (some m_id)).1 e, other_commit)

attempt-advances_example :
    let (r, w') =
      fast_forward_from 3 6 main_branch m_id "merge" (head_of store main_branch) world in
    (r ≡ ok true) × (head_of w'.store main_branch ≡ some m_id)
unfolding read_branch_ref commit_id_of truthy read_commit get list_eq nat_eq
attempt-advances_example =
    attempt-advances nodes gen 3 6 deep (omega arith) world main_branch m_id "merge" history
      from_head m_inside refl other_target (up {c = m_commit} refl (inl refl) here)
