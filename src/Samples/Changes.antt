-- ===== src/Samples/Changes.antt =====
-- The theorems on reset, on commits and on pruning, at concrete inputs.
use reflake.Prelude.{
  sym, subst, ◌∙◌, In, arith, Str, ℕ, List, [], ◌∷◌, ◌≡◌, ◌≢◌, refl, inl, inr, ◌⊎◌, some, false,
  not, ◌==◌, if◌then◌else◌, lit, list_eq, nat_eq, option_eq,
}
use reflake.Prelude.Dict.{get}
use reflake.Domain.{ok, raise, ref_conflict}
use reflake.Graph.Generation.{IsHistory}
use reflake.Refs.Store.{truthy, read_branch_ref, commit_id_of}
use reflake.Refs.Manager.{resolve_ref}
use reflake.Refs.Cas.{head_of}
use reflake.Repository.{reset, Services, write_commit_object}
use reflake.Repository.Generations.{IsNext}
use reflake.Repository.Reset.{reset_lem, write_commit_object_lem}
use reflake.Pruning.{
  pos, Value, null, number, Sign, minus, sign, Op, ColumnStats, possible_in, decide, compare_values,
  int_lt,
}
use reflake.Pruning.Sound.{Describes, IsMatch, possible_in_lem}
use reflake.Sync.{read_if_known, verify_push_fast_forward}
use reflake.Sync.Verify.{IsVerdict, verify_push_fast_forward_lem}
use reflake.Samples.{b_id, m_id, main_branch, store, world, nodes, gen, read, knows}
use reflake.Samples.History.{history, deep}
use mathlib.Core.Option.{some-injective}

resolves : resolve_ref m_id world ≡ (ok m_id, world)
unfolding resolve_ref read_branch_ref truthy get list_eq nat_eq
resolves = refl

full : truthy (some m_id) ≡ some m_id
unfolding truthy
full = refl

reset_lem_example :
    let (r, w') = reset m_id main_branch world in
    (r
      ≡ ok (record {
        ref = main_branch;
        commit_id = m_id;
        previous_commit_id = head_of store main_branch;
        updated = not (head_of store main_branch == some m_id);
      }))
    × ((j : Str) → head_of w'.store j ≡ (if j == main_branch then some m_id else head_of store j))
    × (w'.store.commits ≡ store.commits)
reset_lem_example = reset_lem m_id main_branch m_id world full resolves

abbrev services : Services
services = record {
  commit_hash = λ message tree parents. lit "n";
  now = [];
  merge_trees = λ base ours theirs. ok ours;
}

parent_known : (p : Str) → In p (b_id ∷ []) → In p nodes
parent_known p (inl e) = inr (inl e)
parent_known p (inr n) = absurd n

write_commit_object_lem_example :
    let (r, w') =
      write_commit_object services 3 9 main_branch
        (lit "change")
        (b_id ∷ [])
        (lit "t")
        (some b_id)
        "commit"
        world in
    (g : ℕ) × IsNext gen (b_id ∷ []) g
    × (get w'.store.commits (lit "n")
        ≡ some (
            some (record {
              id = lit "n";
              message = lit "change";
              tree = lit "t";
              parents = b_id ∷ [];
              created_at = [];
              generation = some g;
            })))
    × (((head_of store main_branch ≡ some b_id)
          × (r ≡ ok (lit "n"))
          × ((j : Str)
              → head_of w'.store j
                ≡ (if j == main_branch then truthy (some (lit "n")) else head_of store j)))
        ⊎ ((head_of store main_branch ≢ some b_id)
            × (r
                ≡ raise (ref_conflict main_branch "commit" (some b_id) (head_of store main_branch)))
            × ((j : Str) → head_of w'.store j ≡ head_of store j)))
write_commit_object_lem_example =
    write_commit_object_lem services 3 9 main_branch (lit "change") (b_id ∷ []) (lit "t")
      (some b_id) "commit" world nodes gen history deep parent_known

abbrev column : ColumnStats
column = record { path = lit "id"; min = number (pos 1); max = number (pos 5); nulls = 1 }

abbrev rows : List Value
rows = number (pos 1) ∷ null ∷ number (pos 5) ∷ []

described : Describes 3 column rows
unfolding compare_values sign int_lt
described = record {
  counted = refl;
  empty = refl;
  bounded = (
    inr ((Sign.zero, refl, refl), (minus, refl, refl)),
    (inl refl, (inr ((minus, refl, refl), (Sign.zero, refl, refl)), tt)),
  );
}

cannot_match : possible_in 3 column Op.less (number (pos 0)) ≡ some false
unfolding possible_in decide compare_values sign int_lt
cannot_match = refl

possible_in_lem_example : ¬ IsMatch Op.less (number (pos 5)) (number (pos 0))
possible_in_lem_example =
    possible_in_lem 3 column rows Op.less (number (pos 0)) (number (pos 5)) described cannot_match
      (inr (inr (inl refl)))

known_reads : (x : Str) → In x nodes → read_if_known store x ≡ read x
unfolding read_if_known
known_reads x m = (let (c, e) = knows x m in simp (read_if_known, e))

known_history : IsHistory (read_if_known store) nodes gen
known_history = record {
  known = λ x m. (let (o, e) = history.known x m in (o, known_reads x m ∙ e));
  closed = λ x p c m e n. history.closed x p c m (sym (known_reads x m) ∙ e) n;
  missing = λ x m e. history.missing x m (sym (known_reads x m) ∙ e);
  stored = λ x c g m e s. history.stored x c g m (sym (known_reads x m) ∙ e) s;
  derived = λ x c m e s. history.derived x c m (sym (known_reads x m) ∙ e) s;
  grows = λ x p c m e n. history.grows x p c m (sym (known_reads x m) ∙ e) n;
}

remote_head : (h : Str) → commit_id_of (read_branch_ref store main_branch) ≡ some h → In h nodes
unfolding read_branch_ref commit_id_of truthy get list_eq nat_eq
remote_head h e = subst (λ x. In x nodes) (some-injective b_id h e) (inr (inl refl))

verify_push_fast_forward_lem_example :
    IsVerdict store main_branch
      (commit_id_of (read_branch_ref store main_branch))
      m_id
      (verify_push_fast_forward 3 6 store store main_branch m_id)
verify_push_fast_forward_lem_example =
    verify_push_fast_forward_lem store nodes gen known_history 3 6 deep (omega arith) store
      main_branch m_id remote_head (inr (inr (inr (inl refl))))
