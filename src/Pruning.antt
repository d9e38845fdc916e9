-- ===== src/Pruning.antt =====
-- core/query/pruning.py: which row groups cannot hold a matching row. Floats are left out: a number
-- is an int.
pub mod Order
pub mod Compare
pub mod Sound
pub mod Scan
use reflake.Prelude.{
  Str, ℕ, ◌+◌, List, [], ◌∷◌, ◌++◌, Option, none, some, Bool, true, false, not, ◌&&◌, ◌||◌, ◌==◌,
  ltb, if◌then◌else◌, list_eq, nat_eq, str_lt, contains,
}

pub data ℤ : Type 0 where
  pos : ℕ → ℤ
  negsuc : ℕ → ℤ

unfoldable pub int_lt : ℤ → ℤ → Bool
int_lt (pos a) (pos b) = ltb a b
int_lt (pos a) (negsuc b) = false
int_lt (negsuc a) (pos b) = true
int_lt (negsuc a) (negsuc b) = ltb b a

unfoldable pub bool_lt : Bool → Bool → Bool
bool_lt false true = true
bool_lt _ _ = false

pub data Value : Type 0 where
  null : Value
  boolean : Bool → Value
  number : ℤ → Value
  text : Str → Value

-- The results -1, 0 and 1 of a comparison.
pub data Sign : Type 0 where
  minus : Sign
  zero : Sign
  plus : Sign

-- `(left > right) - (left < right)`
unfoldable pub sign : Bool → Bool → Sign
sign true true = Sign.zero
sign true false = plus
sign false true = minus
sign false false = Sign.zero

-- `_compare`
unfoldable pub compare_values : Value → Value → Option Sign
unfolding sign
compare_values (boolean a) (boolean b) = some (sign (bool_lt b a) (bool_lt a b))
compare_values (number a) (number b) = some (sign (int_lt b a) (int_lt a b))
compare_values (text a) (text b) = some (sign (str_lt b a) (str_lt a b))
compare_values _ _ = none

pub data Op : Type 0 where
  equal : Op
  differs : Op
  less : Op
  at_most : Op
  greater : Op
  at_least : Op
  is_null : Op
  is_not_null : Op

pub record Predicate : Type 0 where
  pub column : Str
  pub op : Op
  pub value : Value

pub record ColumnStats : Type 0 where
  pub path : Str
  pub min : Value
  pub max : Value
  pub nulls : ℕ

pub record RowGroupStats : Type 0 where
  pub rows : ℕ
  pub columns : List ColumnStats

-- `next((candidate for ... if candidate.path == predicate.column), None)`
unfoldable pub find_column : List ColumnStats → Str → Option ColumnStats
find_column [] path = none
find_column (c ∷ columns) path = if c.path == path then some c else find_column columns path

abbrev pub is_below : Sign → Bool
is_below minus = true
is_below _ = false

abbrev pub is_above : Sign → Bool
is_above plus = true
is_above _ = false

abbrev pub is_zero : Sign → Bool
is_zero Sign.zero = true
is_zero _ = false

-- What is decided by one comparison, and by two; None if one is not to be had.
unfoldable pub decide : (Sign → Bool) → Option Sign → Option Bool
decide test none = none
decide test (some s) = some (test s)

unfoldable pub decide_both : (Sign → Sign → Bool) → Option Sign → Option Sign → Option Bool
decide_both test (some s) (some t) = some (test s t)
decide_both test _ _ = none

-- `_possible`, once the column is found.
unfoldable pub possible_in : ℕ → ColumnStats → Op → Value → Option Bool
unfolding decide decide_both compare_values
possible_in rows column is_null value = some (ltb 0 column.nulls)
possible_in rows column is_not_null value = some (ltb column.nulls rows)
possible_in rows column differs value =
    if ltb 0 column.nulls
    then some true
    else decide_both (λ s t. not (is_zero s && is_zero t)) (compare_values column.min value)
        (compare_values column.max value)
possible_in rows column less value = decide is_below (compare_values column.min value)
possible_in rows column at_most value =
    decide (λ s. not (is_above s)) (compare_values column.min value)
possible_in rows column greater value = decide is_above (compare_values column.max value)
possible_in rows column at_least value =
    decide (λ s. not (is_below s)) (compare_values column.max value)
possible_in rows column equal value =
    decide_both (λ s t. not (is_above s) && not (is_below t)) (compare_values column.min value)
      (compare_values column.max value)

-- `_possible`
unfoldable pub possible : RowGroupStats → Predicate → Option Bool
unfolding find_column possible_in
possible group predicate = elim (find_column group.columns predicate.column) [
  | none ↦ none
  | some column ↦ possible_in group.rows column predicate.op predicate.value
]

-- The inner loop of `prune_row_groups`: is the group kept, and the columns that do not apply.
unfoldable pub keeps_group : RowGroupStats → List Predicate → List Str → Bool × List Str
unfolding possible
keeps_group group [] inapplicable = (true, inapplicable)
keeps_group group (p ∷ predicates) inapplicable = elim (possible group p) [
  | none ↦
      keeps_group group predicates
        (if contains inapplicable p.column then inapplicable else p.column ∷ inapplicable)
  | some true ↦ keeps_group group predicates inapplicable
  | some false ↦ (false, inapplicable)
]

-- The lists that `prune_row_groups` builds; `inapplicable` is a set, here in no order.
pub record Pruned : Type 0 where
  pub kept : List ℕ
  pub pruned : List ℕ
  pub inapplicable : List Str

unfoldable pub prune_from : ℕ → List Predicate → List RowGroupStats → Pruned → Pruned
unfolding keeps_group
prune_from index predicates [] out = out
prune_from index predicates (group ∷ groups) out =
    let (keep, inapplicable) = keeps_group group predicates out.inapplicable in
    prune_from (index + 1) predicates groups (record {
      kept = if keep then out.kept ++ index ∷ [] else out.kept;
      pruned = if keep then out.pruned else out.pruned ++ index ∷ [];
      inapplicable = inapplicable;
    })

-- `prune_row_groups`
unfoldable pub prune_row_groups : List RowGroupStats → List Predicate → Pruned
unfolding prune_from
prune_row_groups groups predicates =
    prune_from 0 predicates groups (record { kept = []; pruned = []; inapplicable = [] })
