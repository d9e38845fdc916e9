-- ===== src/Repository/Log.antt =====
-- `ReflakeRepository.log` of core/repository.py.
pub mod Correct
use mathlib.Core.List.{reverse}
use reflake.Prelude.{
  Str, ℕ, zero, suc, List, [], ◌∷◌, ◌++◌, map, Bool, true, false, ◌&&◌, ◌||◌, ◌==◌, contains, ltb,
  str_lt, if◌then◌else◌, list_eq, nat_eq,
}
use reflake.Domain.{CommitObject, Result, ok, raise, diverge, empty_branch, ◌>>=◌}
use reflake.Refs.Store.{World}
use reflake.Refs.Manager.{read_commit, resolve_ref}
use reflake.Repository.{generation_of}

-- The loop: the commits in the order in which they are visited.
unfoldable pub collect :
    (Str → Result CommitObject) → ℕ → (seen stack : List Str) → Result (List CommitObject)
collect read zero seen stack = diverge
collect read (suc fuel) seen [] = ok []
collect read (suc fuel) seen (current ∷ stack) = elim (contains seen current) [
  | true ↦ collect read fuel seen stack
  | false ↦ read current >>= λ commit.
      collect read fuel (current ∷ seen) (reverse commit.parents ++ stack) >>= λ more.
      ok (commit ∷ more)
]

-- A commit with its generation.
abbrev pub Keyed : Type 0
Keyed = ℕ × CommitObject

-- `(-generation, id)` is less.
unfoldable pub is_newer : Keyed → Keyed → Bool
is_newer (g, c) (h, d) = ltb h g || (g == h && str_lt c.id d.id)

unfoldable pub insert_keyed : Keyed → List Keyed → List Keyed
unfolding is_newer
insert_keyed k [] = k ∷ []
insert_keyed k (x ∷ xs) =
    let rest = insert_keyed k xs in if is_newer x k then x ∷ rest else k ∷ x ∷ xs

unfoldable pub sort_keyed : List Keyed → List Keyed
unfolding insert_keyed
sort_keyed [] = []
sort_keyed (k ∷ ks) = insert_keyed k (sort_keyed ks)

-- The keys are computed before the list is sorted.
unfoldable pub with_keys : (Str → Result ℕ) → List CommitObject → Result (List Keyed)
with_keys generation [] = ok []
with_keys generation (c ∷ cs) =
    generation c.id >>= λ g. with_keys generation cs >>= λ ks. ok ((g, c) ∷ ks)

-- `log`, from the commit that the ref names.
unfoldable pub log_from :
    (Str → Result CommitObject) → (Str → Result ℕ) → ℕ → Str → Result (List Keyed)
unfolding collect with_keys sort_keyed
log_from read generation fuel commit_id = collect read fuel [] (commit_id ∷ []) >>= λ commits.
    with_keys generation commits >>= λ keyed. ok (sort_keyed keyed)

-- `log`; the generations that it sorts by come with the commits.
unfoldable pub log : ℕ → ℕ → Str → World → Result (List Keyed)
unfolding log_from resolve_ref
log depth fuel ref w = elim (resolve_ref ref w).0 [
  | ok id ↦ log_from (read_commit w.store) (generation_of depth w.store) fuel id
  | raise e ↦ elim e [ empty_branch branch ↦ ok [] | other ↦ raise other ]
  | diverge ↦ diverge
]
