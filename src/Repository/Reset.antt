-- ===== src/Repository/Reset.antt =====
-- `reset` moves a branch, whatever the client has last seen of it.
use reflake.Prelude.{
  Str, ℕ, String, List, true, not, Bool-cases, inl, inr, Option, some, ◌≡◌, refl, sym, ap, ◌∙◌,
  ◌==◌, ==_iff, if◌then◌else◌, list_eq, nat_eq, option_eq, ◌⊎◌, ◌≢◌, In, map, ◌<◌,
}
use reflake.Prelude.Dict.{get, get-put_self}
use reflake.Domain.{CommitObject, ok, raise, ref_conflict}
use reflake.Refs.Store.{Store, World, truthy, read_branch_ref}
use reflake.Refs.Manager.{resolve_ref, read_some}
use reflake.Graph.Generation.{IsHistory, derived_generation}
use reflake.Repository.Generations.{IsNext, derived_generation-IsNext, generations_of-ok}
use reflake.Refs.Cas.{head_of, update_branch_ref-ok, update_branch_ref_lem}
use reflake.Repository.{
  reset, Services, new_commit, write_commit_object, write_commit_bytes, generations_of,
}

-- A function that has the value at the key is what it is with the value put there.
unchanged :
    (h : Str → Option Str) (b t j : Str)
    → (h b == some t) ≡ true
    → h j ≡ (if j == b then some t else h j)
unchanged h b t j e = elim (Bool-cases (j == b)) [
  | inl q ↦ rw q (ap h ((==_iff j b).0 q) ∙ (==_iff (h b) (some t)).0 e)
  | inr q ↦ rw q refl
]

-- If the ref resolves, a reset with no other client in between returns the target and the commit
-- that the branch pointed to; afterwards the branch points to the target and every other branch
-- to what it did, and no commit is lost from the store. What the client's snapshot says does not
-- matter.
pub reset_lem :
    (ref branch_name target : Str) (w : World)
    → truthy (some target) ≡ some target
    → resolve_ref ref w ≡ (ok target, w)
    → let (r, w') = reset ref branch_name w in
      (r
        ≡ ok (record {
          ref = branch_name;
          commit_id = target;
          previous_commit_id = head_of w.store branch_name;
          updated = not (head_of w.store branch_name == some target);
        }))
      × ((j : Str)
          → head_of w'.store j ≡ (if j == branch_name then some target else head_of w.store j))
      × (w'.store.commits ≡ w.store.commits)
unfolding reset
reset_lem ref branch_name target w full e =
    elim (Bool-cases (head_of w.store branch_name == some target)) [
      | inl same ↦
          rw (e, same) (refl, (λ j. unchanged (head_of w.store) branch_name target j same), refl)
      | inr differ ↦
          let (r, heads, _, commits, _) =
            update_branch_ref-ok branch_name (some target) (head_of w.store branch_name) "reset" w
              refl in
          rw (e, differ, r)
            (
              refl,
              (λ j. heads j ∙ ap (λ o. if j == branch_name then o else head_of w.store j) full),
              commits,
            )
    ]

head_of-write_commit_bytes :
    (s : Store) (id j : Str) (c : CommitObject)
    → head_of (write_commit_bytes id c s) j ≡ head_of s j
unfolding write_commit_bytes read_branch_ref
head_of-write_commit_bytes s id j c = refl

get-write_commit_bytes :
    (s : Store) (id : Str) (c : CommitObject)
    → get (write_commit_bytes id c s).commits id ≡ some (some c)
unfolding write_commit_bytes
get-write_commit_bytes s id c = get-put_self s.commits id (some c)

write_commit_steps :
    (services : Services) (depth fuel : ℕ) (b message : Str) (parents : List Str) (tree : Str)
    (expected : Option Str) (operation : String) (w : World) (gs : List ℕ)
    → generations_of depth w.store parents ≡ ok gs
    → let commit = new_commit services depth fuel message parents tree (derived_generation gs) in
      let (r, w') =
        write_commit_object services depth fuel b message parents tree expected operation w in
      (get w'.store.commits commit.id ≡ some (some commit))
      × (((head_of w.store b ≡ expected)
            × (r ≡ ok commit.id)
            × ((j : Str)
                → head_of w'.store j
                  ≡ (if j == b then truthy (some commit.id) else head_of w.store j)))
          ⊎ ((head_of w.store b ≢ expected)
              × (r ≡ raise (ref_conflict b operation expected (head_of w.store b)))
              × ((j : Str) → head_of w'.store j ≡ head_of w.store j)))
unfolding write_commit_object
write_commit_steps services depth fuel b message parents tree expected operation w gs e =
    let commit = new_commit services depth fuel message parents tree (derived_generation gs) in
    let hw = λ (j : Str). head_of-write_commit_bytes w.store commit.id j commit in
    let w1 : World = record w { store = write_commit_bytes commit.id commit w.store } in
    elim (update_branch_ref_lem b (some commit.id) expected operation w1) [
      | inl (same, r, heads, _, commits, _) ↦
          rw (e, r)
            (
              ap (λ d. get d commit.id) commits ∙ get-write_commit_bytes w.store commit.id commit,
              inl (
                sym (hw b) ∙ same,
                refl,
                λ j. heads j ∙ ap (λ o. if j == b then truthy (some commit.id) else o) (hw j),
              ),
            )
      | inr (other, r, store, _) ↦
          rw (e, r)
            (
              ap (λ s. get s.commits commit.id) store
                  ∙ get-write_commit_bytes w.store commit.id commit,
              inr (
                λ k. other (hw b ∙ k),
                ap (λ o. raise (ref_conflict b operation expected o)) (hw b),
                λ j. ap (λ s. head_of s j) store ∙ hw j,
              ),
            )
    ]

-- In a history that holds the parents, and with a recursion deeper than it, a commit that is written
-- for a branch is stored under its hash, with the message, the tree, the parents, the time and a
-- generation: 0 without parents, and otherwise one more than a parent's and more than every
-- parent's. It is stored whether the branch could be moved to it or not; and that branch, and no
-- other, is moved exactly if it is at the expected commit.
pub write_commit_object_lem :
    (services : Services) (depth fuel : ℕ) (b message : Str) (parents : List Str) (tree : Str)
    (expected : Option Str) (operation : String) (w : World) (nodes : List Str) (gen : Str → ℕ)
    → IsHistory (read_some w.store) nodes gen
    → ((x : Str) → In x nodes → gen x < depth)
    → ((p : Str) → In p parents → In p nodes)
    → let (r, w') =
        write_commit_object services depth fuel b message parents tree expected operation w in
      let id = services.commit_hash message tree parents in
      (g : ℕ) × IsNext gen parents g
      × (get w'.store.commits id
          ≡ some (
              some (record {
                id = id;
                message = message;
                tree = tree;
                parents = parents;
                created_at = services.now;
                generation = some g;
              })))
      × (((head_of w.store b ≡ expected)
            × (r ≡ ok id)
            × ((j : Str)
                → head_of w'.store j ≡ (if j == b then truthy (some id) else head_of w.store j)))
          ⊎ ((head_of w.store b ≢ expected)
              × (r ≡ raise (ref_conflict b operation expected (head_of w.store b)))
              × ((j : Str) → head_of w'.store j ≡ head_of w.store j)))
write_commit_object_lem services depth fuel b message parents tree expected operation w nodes gen
      history deep inside =
    let (stored, outcome) =
      write_commit_steps services depth fuel b message parents tree expected operation w
        (map gen parents) (generations_of-ok gen w.store nodes history depth deep parents inside) in
    (derived_generation (map gen parents), derived_generation-IsNext gen parents, stored, outcome)
