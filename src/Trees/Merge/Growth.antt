-- ===== src/Trees/Merge/Growth.antt =====
-- A merge only adds nodes and conflicts: it neither changes nor loses what is stored.
use reflake.Prelude.{
  Str, ℕ, zero, suc, List, [], ◌∷◌, ◌++◌, Option, none, some, ◌&&◌, ◌==◌, ◌≡◌, ap, subst, list_eq,
  nat_eq, option_eq,
}
use reflake.Prelude.Dict.{Dict, get, keys}
use reflake.Domain.{Result, diverge}
use reflake.Exec.{Exec, pure}
use reflake.Trees.Entry.{Entry, is_subtree}
use reflake.Trees.Node.{load_entries, by_name, subtree_line}
use reflake.Trees.Lookup.{load_children}
use reflake.Trees.Writer.{Writer, build_children, sort_children}
use reflake.Trees.Writer.Stored.{
  Grows, Grows_refl, IsMonotone, pure-IsMonotone, lift-IsMonotone, bind-IsMonotone, elim-IsMonotone,
}
use reflake.Trees.Writer.Build.{build_sorted-IsMonotone}
use reflake.Trees.Merge.{
  Directory, equal, conflict, subtree_hash, merge_both, merge_present, merge_child, join_path,
  merge_names, merge_range, merge_ranges, same_ranges, load, children_by_name, base_by_name,
  build_merged, merge_loaded, merge_sharded, merge_children, merge_apart, merge_step,
  merge_directory, sorted_set,
}

pub append-nil : (xs : List Str) (x : Str) → xs ++ x ∷ [] ≡ [] → ⊥
append-nil [] x h = cc h
append-nil (y ∷ xs) x h = cc h

module _ (node_hash : List Entry → Str) where
  option-IsMonotone {ℓ κ} :
      {A : Type ℓ} {B : Type κ} (o : Option B) {m : Exec Writer A} {f : B → Exec Writer A}
      → IsMonotone node_hash m
      → ((b : B) → IsMonotone node_hash (f b))
      → IsMonotone node_hash (elim o [ none ↦ m | some b ↦ f b ])
  option-IsMonotone none hm hf = hm
  option-IsMonotone (some b) hm hf = hf b

  reader-IsMonotone {ℓ} :
      {A : Type ℓ} (f : Writer → Result A) → IsMonotone node_hash {A = A} (λ w. (f w, w))
  reader-IsMonotone f w a w' y =
      subst (Grows node_hash w) (ap (λ x. x.1) y) (Grows_refl node_hash w)

  pub conflict-IsMonotone : (path : Str) → IsMonotone node_hash (conflict path)
  unfolding conflict
  conflict-IsMonotone path w u w' y =
      subst (Grows node_hash w) (ap (λ x. x.1) y)
        (λ h es e. e, λ c. c, λ e. absurd (append-nil w.conflicts path e))

  pub build_children-IsMonotone :
      (max : ℕ) (skip : List Str) (es : List Entry)
      → IsMonotone node_hash (build_children node_hash max skip es)
  unfolding build_children
  build_children-IsMonotone max skip es =
      build_sorted-IsMonotone node_hash max _ skip (sort_children es)

  pub build_merged-IsMonotone :
      (max : ℕ) (skip : List Str) (es : List Entry)
      → IsMonotone node_hash (build_merged node_hash max skip es)
  unfolding build_merged
  build_merged-IsMonotone max skip [] = pure-IsMonotone node_hash none
  build_merged-IsMonotone max skip (e ∷ es) =
      bind-IsMonotone node_hash (build_children node_hash max skip (e ∷ es)) (λ h. pure (some h))
        (build_children-IsMonotone max skip (e ∷ es)) (λ h. pure-IsMonotone node_hash (some h))

  load-IsMonotone : (h : Str) → IsMonotone node_hash (load h)
  unfolding load
  load-IsMonotone h = reader-IsMonotone (λ w. load_entries w.nodes h)

  pub children_by_name-IsMonotone : (h : Str) → IsMonotone node_hash (children_by_name h)
  unfolding children_by_name
  children_by_name-IsMonotone h =
      bind-IsMonotone node_hash (λ w. (load_children (load_entries w.nodes) h, w))
        (λ es. pure (by_name es)) (reader-IsMonotone (λ w. load_children (load_entries w.nodes) h))
        (λ es. pure-IsMonotone node_hash (by_name es))

  pub base_by_name-IsMonotone : (h : Option Str) → IsMonotone node_hash (base_by_name h)
  unfolding base_by_name
  base_by_name-IsMonotone none = pure-IsMonotone node_hash []
  base_by_name-IsMonotone (some h) = children_by_name-IsMonotone h

  abbrev pub AllMonotone : Directory → Type 0
  AllMonotone directory = (p : Str) (b o t : Option Str) → IsMonotone node_hash (directory p b o t)

  module _ (directory : Directory) (dm : AllMonotone directory) where
    merge_both-IsMonotone :
        (p : Str) (base : Option Entry) (ours theirs : Entry)
        → IsMonotone node_hash (merge_both directory p base ours theirs)
    unfolding merge_both
    merge_both-IsMonotone p base ours theirs =
        elim-IsMonotone node_hash (equal (some ours) base) (pure-IsMonotone node_hash (some theirs))
          (elim-IsMonotone node_hash (equal (some theirs) base)
            (pure-IsMonotone node_hash (some ours))
            (elim-IsMonotone node_hash (is_subtree ours && is_subtree theirs)
              (bind-IsMonotone node_hash
                (directory p (subtree_hash base) (some ours.hash) (some theirs.hash)) _
                (dm p (subtree_hash base) (some ours.hash) (some theirs.hash))
                (λ o.
                  option-IsMonotone o (pure-IsMonotone node_hash none)
                    (λ h. pure-IsMonotone node_hash (some (subtree_line ours.kind ours.path h)))))
              (bind-IsMonotone node_hash (conflict p) _ (conflict-IsMonotone p)
                (λ _. pure-IsMonotone node_hash (some ours)))))

    merge_present-IsMonotone :
        (p : Str) (base : Option Entry) (present : Entry)
        → IsMonotone node_hash (merge_present directory p base present)
    unfolding merge_present
    merge_present-IsMonotone p none present = pure-IsMonotone node_hash (some present)
    merge_present-IsMonotone p (some base) present =
        elim-IsMonotone node_hash (equal (some present) (some base))
          (pure-IsMonotone node_hash none)
          (bind-IsMonotone node_hash (conflict p) _ (conflict-IsMonotone p)
            (λ _. pure-IsMonotone node_hash (some present)))

    pub merge_child-IsMonotone :
        (p : Str) (base ours theirs : Option Entry)
        → IsMonotone node_hash (merge_child directory p base ours theirs)
    unfolding merge_child
    merge_child-IsMonotone p base none none = λ w a w' y. absurd (cc (ap (λ x. x.0) y))
    merge_child-IsMonotone p base (some ours) none = merge_present-IsMonotone p base ours
    merge_child-IsMonotone p base none (some theirs) = merge_present-IsMonotone p base theirs
    merge_child-IsMonotone p base (some ours) (some theirs) =
        elim-IsMonotone node_hash (equal (some ours) (some theirs))
          (pure-IsMonotone node_hash (some ours)) (merge_both-IsMonotone p base ours theirs)

    pub merge_names-IsMonotone :
        (p : Str) (base ours theirs : Dict Str Entry) (names : List Str)
        → IsMonotone node_hash (merge_names directory p base ours theirs names)
    unfolding merge_names
    merge_names-IsMonotone p base ours theirs [] = pure-IsMonotone node_hash []
    merge_names-IsMonotone p base ours theirs (name ∷ names) =
        bind-IsMonotone node_hash
          (merge_child directory (join_path p name) (get base name) (get ours name)
            (get theirs name))
          _
          (merge_child-IsMonotone (join_path p name) (get base name) (get ours name)
            (get theirs name))
          (λ merged.
            bind-IsMonotone node_hash (merge_names directory p base ours theirs names) _
              (merge_names-IsMonotone p base ours theirs names)
              (λ rest. pure-IsMonotone node_hash _))

    pub merge_range-IsMonotone :
        (p : Str) (b o t : Entry) → IsMonotone node_hash (merge_range directory p b o t)
    unfolding merge_range
    merge_range-IsMonotone p b o t =
        elim-IsMonotone node_hash (o.hash == t.hash) (pure-IsMonotone node_hash (some o.hash)) (
          elim-IsMonotone node_hash (o.hash == b.hash) (pure-IsMonotone node_hash (some t.hash)) (
            elim-IsMonotone node_hash (t.hash == b.hash) (pure-IsMonotone node_hash (some o.hash))
              (dm p (some b.hash) (some o.hash) (some t.hash))))

    merge_ranges-IsMonotone :
        (p : Str) (base ours theirs : List Entry)
        → IsMonotone node_hash (merge_ranges directory p base ours theirs)
    unfolding merge_ranges
    merge_ranges-IsMonotone p (b ∷ bs) (o ∷ os) (t ∷ ts) =
        bind-IsMonotone node_hash (merge_range directory p b o t) _ (merge_range-IsMonotone p b o t)
          (λ merged.
            bind-IsMonotone node_hash (merge_ranges directory p bs os ts) _
              (merge_ranges-IsMonotone p bs os ts) (λ rest. pure-IsMonotone node_hash _))
    merge_ranges-IsMonotone p [] os ts = pure-IsMonotone node_hash []
    merge_ranges-IsMonotone p (b ∷ bs) [] ts = pure-IsMonotone node_hash []
    merge_ranges-IsMonotone p (b ∷ bs) (o ∷ os) [] = pure-IsMonotone node_hash []

    module _ (max : ℕ) where
      merge_loaded-IsMonotone :
          (p ours_hash theirs_hash : Str) (base ours theirs : Option (List Entry))
          → IsMonotone node_hash
              (merge_loaded node_hash max directory p ours_hash theirs_hash base ours theirs)
      unfolding merge_loaded
      merge_loaded-IsMonotone p oh th (some b) (some o) (some t) =
          elim-IsMonotone node_hash (same_ranges b o t)
            (bind-IsMonotone node_hash (merge_ranges directory p b o t) _
              (merge_ranges-IsMonotone p b o t)
              (λ shards.
                bind-IsMonotone node_hash (build_merged node_hash max (oh ∷ th ∷ []) shards) _
                  (build_merged-IsMonotone max (oh ∷ th ∷ []) shards)
                  (λ merged. pure-IsMonotone node_hash (some merged))))
            (pure-IsMonotone node_hash none)
      merge_loaded-IsMonotone p oh th none o t = pure-IsMonotone node_hash none
      merge_loaded-IsMonotone p oh th (some b) none t = pure-IsMonotone node_hash none
      merge_loaded-IsMonotone p oh th (some b) (some o) none = pure-IsMonotone node_hash none

      pub merge_sharded-IsMonotone :
          (p : Str) (base : Option Str) (ours theirs : Str)
          → IsMonotone node_hash (merge_sharded node_hash max directory p base ours theirs)
      unfolding merge_sharded
      merge_sharded-IsMonotone p none ours theirs = pure-IsMonotone node_hash none
      merge_sharded-IsMonotone p (some base) ours theirs =
          bind-IsMonotone node_hash (load base) _ (load-IsMonotone base) (λ b.
            bind-IsMonotone node_hash (load ours) _ (load-IsMonotone ours) (λ o.
              bind-IsMonotone node_hash (load theirs) _ (load-IsMonotone theirs)
                (λ t. merge_loaded-IsMonotone p ours theirs b o t)))

      pub merge_children-IsMonotone :
          (p : Str) (base : Option Str) (ours theirs : Str)
          → IsMonotone node_hash (merge_children node_hash max directory p base ours theirs)
      unfolding merge_children
      merge_children-IsMonotone p base ours theirs =
          bind-IsMonotone node_hash (children_by_name ours) _ (children_by_name-IsMonotone ours)
            (λ o.
              bind-IsMonotone node_hash (children_by_name theirs) _
                (children_by_name-IsMonotone theirs)
                (λ t.
                  bind-IsMonotone node_hash (base_by_name base) _ (base_by_name-IsMonotone base)
                    (λ b.
                      bind-IsMonotone node_hash
                        (merge_names directory p b o t (sorted_set (keys b ++ (keys o ++ keys t))))
                        _
                        (merge_names-IsMonotone p b o t (sorted_set (keys b ++ (keys o ++ keys t))))
                        (λ merged. build_merged-IsMonotone max (ours ∷ theirs ∷ []) merged))))

      merge_apart-IsMonotone : AllMonotone (merge_apart node_hash max directory)
      unfolding merge_apart
      merge_apart-IsMonotone p base none theirs =
          bind-IsMonotone node_hash (conflict p) _ (conflict-IsMonotone p)
            (λ _. pure-IsMonotone node_hash theirs)
      merge_apart-IsMonotone p base (some ours) none =
          bind-IsMonotone node_hash (conflict p) _ (conflict-IsMonotone p)
            (λ _. pure-IsMonotone node_hash (some ours))
      merge_apart-IsMonotone p base (some ours) (some theirs) =
          bind-IsMonotone node_hash (merge_sharded node_hash max directory p base ours theirs) _
            (merge_sharded-IsMonotone p base ours theirs)
            (λ o.
              option-IsMonotone o (merge_children-IsMonotone p base ours theirs)
                (λ merged. pure-IsMonotone node_hash merged))

      merge_step-IsMonotone : AllMonotone (merge_step node_hash max directory)
      unfolding merge_step
      merge_step-IsMonotone p base ours theirs =
          elim-IsMonotone node_hash (ours == theirs) (pure-IsMonotone node_hash ours) (
            elim-IsMonotone node_hash (ours == base) (pure-IsMonotone node_hash theirs) (
              elim-IsMonotone node_hash (theirs == base) (pure-IsMonotone node_hash ours)
                (merge_apart-IsMonotone p base ours theirs)))

  pub merge_directory-IsMonotone : (max fuel : ℕ) → AllMonotone (merge_directory node_hash max fuel)
  unfolding merge_directory
  merge_directory-IsMonotone max zero p b o t = lift-IsMonotone node_hash diverge
  merge_directory-IsMonotone max (suc fuel) p b o t =
      merge_step-IsMonotone (merge_directory node_hash max fuel)
        (merge_directory-IsMonotone max fuel) max p b o t
