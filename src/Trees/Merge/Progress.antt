-- ===== src/Trees/Merge/Progress.antt =====
-- Merging the children of a directory ends where merging its subdirectories does.
use reflake.Prelude.{
  Str, ℕ, List, [], ◌∷◌, Option, none, some, true, ◌&&◌, ◌≡◌, refl, All, ◌==◌, list_eq, nat_eq,
  option_eq, arith,
}
use reflake.Prelude.Dict.{Dict, get}
use reflake.Domain.{assertion_failed}
use reflake.Exec.{pure, ◌>>◌}
use reflake.Exec.Ends.{Ends, pure-Ends, throw-Ends, elim-Ends, bind-Ends}
use reflake.Trees.Entry.{Entry, EntryKind, is_subtree}
use reflake.Trees.Node.{subtree_line}
use reflake.Trees.Writer.{Writer}
use reflake.Trees.Merge.{
  Directory, equal, conflict, subtree_hash, merge_both, merge_present, merge_child, join_path,
  merge_names, merge_range, merge_ranges,
}
use reflake.Trees.Merge.Growth.{AllMonotone, merge_child-IsMonotone, merge_range-IsMonotone}
use reflake.Trees.Merge.Depth.{HasDepth, HasDepth-Extends, All-map, IsDeep}

module _ (node_hash : List Entry → Str) where
  -- The merge of directories ends where our side's tree has the depth.
  abbrev pub EndsAt : ℕ → Directory → Type 0
  EndsAt depth f =
      (p : Str) (b : Option Str) (ours : Str) (t : Option Str) (w : Writer)
      → HasDepth w.nodes depth ours
      → Ends (f p b (some ours) t) w

  pub conflict-Ends : (p : Str) (w : Writer) → Ends (conflict p) w
  unfolding conflict
  conflict-Ends p w e = cc e

  module _ (depth : ℕ) (directory : Directory) (dm : AllMonotone node_hash directory)
      (de : EndsAt depth directory) where
    answer-Ends :
        (k : EntryKind) (p : Str) (m : Option Str) (w : Writer)
        → Ends {A = Option Entry}
            (elim m [ none ↦ pure none | some h ↦ pure (some (subtree_line k p h)) ])
            w
    answer-Ends k p none w = pure-Ends none w
    answer-Ends k p (some h) w = pure-Ends (some (subtree_line k p h)) w

    merge_both-Ends :
        (p : Str) (base : Option Entry) (ours theirs : Entry) (w : Writer)
        → IsDeep w.nodes depth ours
        → Ends (merge_both directory p base ours theirs) w
    unfolding merge_both
    merge_both-Ends p base ours theirs w deep =
        elim-Ends (pure (some theirs)) _ (equal (some ours) base) w (λ _. pure-Ends (some theirs) w)
          (λ _.
            elim-Ends (pure (some ours)) _ (equal (some theirs) base) w
              (λ _. pure-Ends (some ours) w)
              (λ _.
                elim-Ends _ (conflict p >> pure (some ours)) (is_subtree ours && is_subtree theirs)
                  w
                  (λ s.
                    bind-Ends (directory p (subtree_hash base) (some ours.hash) (some theirs.hash))
                      _ w (de p (subtree_hash base) ours.hash (some theirs.hash) w (deep (left s)))
                      (λ m t y. answer-Ends ours.kind ours.path m t))
                  (λ _.
                    bind-Ends (conflict p) (λ _. pure (some ours)) w (conflict-Ends p w)
                      (λ u t y. pure-Ends (some ours) t))))
      where
        left : (is_subtree ours && is_subtree theirs) ≡ true → is_subtree ours ≡ true
        left s = ground arith

    merge_present-Ends :
        (p : Str) (base : Option Entry) (present : Entry) (w : Writer)
        → Ends (merge_present directory p base present) w
    unfolding merge_present
    merge_present-Ends p none present w = pure-Ends (some present) w
    merge_present-Ends p (some base) present w =
        elim-Ends (pure none) (conflict p >> pure (some present)) (equal (some present) (some base))
          w (λ _. pure-Ends none w)
          (λ _.
            bind-Ends (conflict p) (λ _. pure (some present)) w (conflict-Ends p w)
              (λ u t y. pure-Ends (some present) t))

    merge_child-Ends :
        (p : Str) (base ours theirs : Option Entry) (w : Writer)
        → ((e : Entry) → ours ≡ some e → IsDeep w.nodes depth e)
        → Ends (merge_child directory p base ours theirs) w
    unfolding merge_child
    merge_child-Ends p base none none w deep = throw-Ends assertion_failed w
    merge_child-Ends p base (some ours) none w deep = merge_present-Ends p base ours w
    merge_child-Ends p base none (some theirs) w deep = merge_present-Ends p base theirs w
    merge_child-Ends p base (some ours) (some theirs) w deep =
        elim-Ends (pure (some ours)) _ (equal (some ours) (some theirs)) w
          (λ _. pure-Ends (some ours) w)
          (λ _. merge_both-Ends p base ours theirs w (deep ours refl))

    pub merge_names-Ends :
        (p : Str) (b o t : Dict Str Entry) (names : List Str) (w : Writer)
        → ((n : Str) (e : Entry) → get o n ≡ some e → IsDeep w.nodes depth e)
        → Ends (merge_names directory p b o t names) w
    unfolding merge_names
    merge_names-Ends p b o t [] w deep = pure-Ends [] w
    merge_names-Ends p b o t (n ∷ names) w deep =
        bind-Ends (merge_child directory (join_path p n) (get b n) (get o n) (get t n)) _ w
          (merge_child-Ends (join_path p n) (get b n) (get o n) (get t n) w (deep n))
          (λ r u y.
            bind-Ends (merge_names directory p b o t names) _ u
              (merge_names-Ends p b o t names u (λ k e q s.
                HasDepth-Extends w.nodes u.nodes depth e.hash
                  (merge_child-IsMonotone node_hash directory dm (join_path p n) (get b n) (get o n)
                    (get t n) w r u y).0
                  (deep k e q s)))
              (λ rest v z. pure-Ends _ v))

    merge_range-Ends :
        (p : Str) (b o t : Entry) (w : Writer)
        → HasDepth w.nodes depth o.hash
        → Ends (merge_range directory p b o t) w
    unfolding merge_range
    merge_range-Ends p b o t w deep =
        elim-Ends (pure (some o.hash)) _ (o.hash == t.hash) w (λ _. pure-Ends (some o.hash) w)
          (λ _.
            elim-Ends (pure (some t.hash)) _ (o.hash == b.hash) w (λ _. pure-Ends (some t.hash) w)
              (λ _.
                elim-Ends (pure (some o.hash))
                  (directory p (some b.hash) (some o.hash) (some t.hash)) (t.hash == b.hash) w
                  (λ _. pure-Ends (some o.hash) w)
                  (λ _. de p (some b.hash) o.hash (some t.hash) w deep)))

    pub merge_ranges-Ends :
        (p : Str) (bs os ts : List Entry) (w : Writer)
        → All (λ e. HasDepth w.nodes depth e.hash) os
        → Ends (merge_ranges directory p bs os ts) w
    unfolding merge_ranges
    merge_ranges-Ends p (b ∷ bs) (o ∷ os) (t ∷ ts) w (deep, deeps) =
        bind-Ends (merge_range directory p b o t) _ w (merge_range-Ends p b o t w deep) (λ r u y.
          bind-Ends (merge_ranges directory p bs os ts) _ u
            (merge_ranges-Ends p bs os ts u (
              All-map (λ e. HasDepth w.nodes depth e.hash) (λ e. HasDepth u.nodes depth e.hash) os
                (λ e.
                  HasDepth-Extends w.nodes u.nodes depth e.hash
                    (merge_range-IsMonotone node_hash directory dm p b o t w r u y).0)
                deeps))
            (λ rest v z. pure-Ends _ v))
    merge_ranges-Ends p [] os ts w deep = pure-Ends [] w
    merge_ranges-Ends p (b ∷ bs) [] ts w deep = pure-Ends [] w
    merge_ranges-Ends p (b ∷ bs) (o ∷ os) [] w deep = pure-Ends [] w
