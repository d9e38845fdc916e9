-- ===== src/Paths.antt =====
-- Logical paths and branch names: core/repository_support.py, lines 148 to 244.
pub mod Move
use reflake.Prelude.{
  Str, ℕ, List, [], ◌∷◌, ◌++◌, Option, none, some, Bool, true, false, not, ◌&&◌, ◌||◌, contains,
  any, drop, length, ◌==◌, ltb, if◌then◌else◌, list_eq, nat_eq, lit, slash, starts_with, ends_with,
  has_infix, is_space, strip_by, split_slash,
}
use reflake.Domain.{Result, ok, raise, value_error, raise_if, ◌>>=◌, ◌>>◌}

-- `_validate_no_binary`
unfoldable pub validate_no_binary : Str → Result (Unit {0})
validate_no_binary token = do
  raise_if (contains token 0) (value_error "Path contains null bytes")
  raise_if (any (λ c. ltb 0 c && ltb c 32) token) (value_error "Path contains control characters")

abbrev pub strip : Str → Str
strip s = strip_by is_space s

abbrev pub strip_slashes : Str → Str
strip_slashes s = strip_by (λ c. c == slash) s

-- `_sanitize_path_component`
unfoldable pub sanitize_path_component : Str → Result Str
unfolding validate_no_binary
sanitize_path_component value = do
  validate_no_binary value
  let stripped = strip value
  raise_if (stripped == []) (value_error "cannot be empty")
  raise_if (starts_with stripped (lit "/")) (value_error "cannot be absolute")
  let normalized = strip_slashes stripped
  raise_if (normalized == []) (value_error "cannot be empty")
  raise_if
      (normalized == lit "."
        || normalized == lit ".."
        || starts_with normalized (lit "../")
        || has_infix (lit "/../") normalized
        || ends_with normalized (lit "/.."))
      (value_error "cannot traverse outside repository root")
  raise_if (has_infix (lit "//") normalized) (value_error "contains empty components")
  ok normalized

abbrev pub normalize_repository_path : Str → Result Str
normalize_repository_path = sanitize_path_component

-- `set('\\:*?"<>|')`
abbrev forbidden : Str
forbidden = 92 ∷ lit ":*?" ++ 34 ∷ lit "<>|"

unfoldable pub validate_branch_name : Str → Result Str
unfolding validate_no_binary
validate_branch_name name = do
  let value = strip name
  validate_no_binary value
  raise_if (value == []) (value_error "Branch name cannot be empty")
  raise_if (starts_with value (lit "/") || ends_with value (lit "/"))
      (value_error "Branch name cannot start or end with '/'")
  let parts = split_slash value
  raise_if (any (λ part. part == [] || part == lit "." || part == lit "..") parts)
      (value_error "Branch name contains an invalid path segment")
  raise_if (has_infix (lit "..") value) (value_error "Branch name cannot contain consecutive dots")
  raise_if (any (λ part. starts_with part (lit ".")) parts)
      (value_error "Branch name segments cannot start with '.'")
  raise_if (any (λ part. starts_with part (lit "-")) parts)
      (value_error "Branch name segments cannot start with '-'")
  raise_if (any (λ char. contains forbidden char) value)
      (value_error "Branch name contains an invalid character")
  raise_if (ends_with value (lit ".lock")) (value_error "Branch name cannot end with '.lock'")
  ok value

-- `normalize_logical_paths`: each path normalised, the first of equal ones kept.
unfoldable normalize_onto : List Str → List Str → List Str → Result (List Str)
normalize_onto seen normalized [] = ok normalized
normalize_onto seen normalized (path ∷ paths) = do
  value ← normalize_repository_path path
  let known = contains seen value
  normalize_onto (if known then seen else value ∷ seen)
      (if known then normalized else normalized ++ value ∷ []) paths

unfoldable pub normalize_logical_paths : List Str → Result (List Str)
unfolding normalize_onto
normalize_logical_paths paths = normalize_onto [] [] paths

unfoldable pub matches_logical_path : Str → Str → Bool
matches_logical_path entry_path logical_path =
    entry_path == logical_path || starts_with entry_path (logical_path ++ lit "/")

unfoldable pub move_logical_path : Str → Str → Str → Str
move_logical_path entry_path source_path destination_path =
    if entry_path == source_path
    then destination_path
    else destination_path ++ drop (length source_path) entry_path
