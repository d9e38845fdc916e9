-- ===== src/Graph/MergeBase.antt =====
-- `merge_base_commit` of core/repository_support.py.
pub mod Queue
pub mod Visit
pub mod Correct
use reflake.Prelude.{
  Str, ℕ, zero, suc, List, [], ◌∷◌, Option, none, some, Bool, true, false, not, ◌&&◌, ◌||◌, ◌==◌,
  ltb, str_lt, if◌then◌else◌, list_eq, nat_eq,
}
use reflake.Prelude.Dict.{Dict, get, put}
use reflake.Domain.{CommitObject, Result, ok, diverge, ◌>>=◌}
use reflake.Graph.Generation.{Memo, of}

-- The two flag bits of a commit: reached from `commit_a`, reached from `commit_b`.
pub data Mark : Type 0 where
  mark : Bool → Bool → Mark

abbrev pub has_a : Mark → Bool
has_a (mark a _) = a

abbrev pub has_b : Mark → Bool
has_b (mark _ b) = b

-- `previous | flag`
unfoldable pub join : Mark → Mark → Mark
join (mark a b) (mark c d) = mark (a || c) (b || d)

unfoldable pub same_mark : Mark → Mark → Bool
same_mark (mark a b) (mark c d) = (if a then c else not c) && (if b then d else not d)

-- A heap of `(-generation, commit_id)`, kept in the order in which `heappop` gives its items: the
-- largest generation first, and the least id among equals.
abbrev pub Heap : Type 0
Heap = List (ℕ × Str)

unfoldable pub heappush : ℕ → Str → Heap → Heap
heappush g x [] = (g, x) ∷ []
heappush g x ((h, y) ∷ heap) =
    if ltb h g || (g == h && str_lt x y) then (g, x) ∷ (h, y) ∷ heap else (h, y) ∷ heappush g x heap

pub record Frontier : Type 0 where
  pub marked : Dict Str Mark
  pub heap : Heap
  pub memo : Memo

-- `marked.get(commit_id, 0)`
unfoldable pub mark_of : Dict Str Mark → Str → Mark
mark_of marked id = elim (get marked id) [ none ↦ mark false false | some m ↦ m ]

-- The reader as the generation provider sees it: it raises, and never answers None.
abbrev pub read_known : (Str → Result CommitObject) → Str → Result (Option CommitObject)
read_known read id = read id >>= λ c. ok (some c)

module _ (read : Str → Result CommitObject) (depth : ℕ) where
  unfoldable pub visit : Str → Mark → Frontier → Result Frontier
  visit id flag s =
      let combined = join (mark_of s.marked id) flag in
      if same_mark combined (mark_of s.marked id)
      then ok s
      else (of (read_known read) depth id s.memo >>= λ (g, memo').
          ok (record {
            marked = put s.marked id combined;
            heap = heappush g id s.heap;
            memo = memo';
          }))

  unfoldable pub visit_all : List Str → Mark → Frontier → Result Frontier
  visit_all [] flag s = ok s
  visit_all (p ∷ ps) flag s = visit p flag s >>= visit_all ps flag

  unfoldable pub search_base : ℕ → Frontier → Result (Option CommitObject)
  search_base zero s = diverge
  search_base (suc fuel) s = elim s.heap [
    | [] ↦ ok none
    | (_, id) ∷ rest ↦
        let side = mark_of s.marked id in
        elim (same_mark side (mark true true)) [
          | true ↦ read_known read id
          | false ↦ read id >>= λ commit.
              visit_all commit.parents side (record s { heap = rest }) >>= search_base fuel
        ]
  ]

  unfoldable pub merge_base_commit : ℕ → Str → Str → Result (Option CommitObject)
  merge_base_commit fuel commit_a commit_b = elim (commit_a == commit_b) [
    | true ↦ read_known read commit_a
    | false ↦
        visit commit_a (mark true false) (record { marked = []; heap = []; memo = [] })
        >>= visit commit_b (mark false true)
        >>= search_base fuel
  ]
