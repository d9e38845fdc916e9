-- ===== src/Trees/Merge/Loop.antt =====
-- The loop over the names of a directory: the children it gathers, and what is at each name.
use reflake.Prelude.{
  Str, List, [], ◌∷◌, Option, none, some, true, false, ◌≡◌, refl, sym, ap, subst, ◌∙◌, inl, inr, In,
  All, slash, contains, str_lt, ◌==◌, Bool-cases, ==_iff, list_eq, nat_eq,
}
use reflake.Prelude.Dict.{Dict, get}
use reflake.Prelude.Order.{IsAscending, not_below}
use reflake.Exec.Yields.{Yields, bind-Yields, pure-Yields, elim-Yields}
use reflake.Trees.Entry.{Entry, is_subtree}
use reflake.Trees.Node.{Nodes, subtree_line, last_part, entry_to_leaf_line}
use reflake.Trees.Writer.{Writer}
use reflake.Trees.Writer.Stored.{Extends, Consistent}
use reflake.Trees.Writer.Build.{IsPlain, IsSorted}
use reflake.Trees.Merge.{Directory, equal, merge_child, join_path, child_line, merge_names}
use reflake.Trees.Merge.Names.{find}
use reflake.Trees.Merge.View.{File, below, view, IsMerged}
use reflake.Trees.Merge.Growth.{AllMonotone, merge_child-IsMonotone, merge_names-IsMonotone}
use reflake.Trees.Merge.Child.{
  IsNamed, IsSound, present-Yields, both-Yields, below-elim, merge_child_sound,
}

pub IsPlain-Extends : (d d' : Nodes) → Extends d d' → IsPlain d' → IsPlain d
IsPlain-Extends d d' ext p h es e = p h es (ext h es e)

last_part_lem : (s : Str) → contains s slash ≡ false → last_part s ≡ s
unfolding last_part
last_part_lem [] h = refl
last_part_lem (c ∷ s) h = rw h refl

child_line-path : (e : Entry) → contains e.path slash ≡ false → (child_line e).path ≡ e.path
unfolding child_line entry_to_leaf_line subtree_line
child_line-path e h = elim (Bool-cases (is_subtree e)) [
  | inl s ↦ rw (s, child_line) refl
  | inr s ↦ rw (s, child_line) (last_part_lem e.path h)
]

child_line-below :
    (v : Option Str → Option File) (parts : List Str) (e : Entry)
    → below v parts (some (child_line e)) ≡ below v parts (some e)
unfolding child_line entry_to_leaf_line subtree_line
child_line-below v parts e = elim (Bool-cases (is_subtree e)) [
  | inl s ↦
      ap (λ x. below v parts (some x)) (rw (s, child_line) refl)
      ∙ (below-elim v parts (subtree_line e.kind e.path e.hash) true s
          ∙ sym (below-elim v parts e true s))
  | inr s ↦
      ap (λ x. below v parts (some x)) (rw (s, child_line) refl)
      ∙ (below-elim v parts (entry_to_leaf_line e) false s ∙ sym (below-elim v parts e false s))
]

find-here :
    (e : Entry) (es : List Entry) (name : Str)
    → find es name ≡ none
    → name ≡ e.path
    → find (e ∷ es) name ≡ some e
unfolding find
find-here e es name h q = rw (h, find, (==_iff name e.path).1 q) refl

find-there :
    (e : Entry) (es : List Entry) (name : Str)
    → (name ≡ e.path → ⊥)
    → find (e ∷ es) name ≡ find es name
unfolding find
find-there e es name q = elim (Bool-cases (name == e.path)) [
  | inl y ↦ absurd (q ((==_iff name e.path).0 y))
  | inr y ↦ go (find es name) refl y
]
  where
    go :
        (o : Option Entry)
        → find es name ≡ o
        → (name == e.path) ≡ false
        → find (e ∷ es) name ≡ find es name
    go none h y = rw (h, find, y) refl
    go (some x) h y = rw (h, find) refl

-- A name is merged, given the child that the result has there.
abbrev pub MergedAt : (b o t : Dict Str Entry) → Nodes → List Str → Str → Option Entry → Type 0
MergedAt b o t late parts n r =
    IsMerged (below (view late parts) parts (get b n)) (below (view late parts) parts (get o n))
      (below (view late parts) parts (get t n)) (below (view late parts) parts r)

-- The gathered children of some names: in order, without others, and merged.
abbrev pub Gathers : (b o t : Dict Str Entry) → List Str → Nodes → List Entry → Type 0
Gathers b o t names nodes out =
    IsSorted out
    × ((x : Str) → All (λ n. str_lt x n ≡ true) names → All (λ e. str_lt x e.path ≡ true) out)
    × ((n : Str) → (In n names → ⊥) → find out n ≡ none)
    × ((late : Nodes)
        → Extends nodes late
        → (n : Str) → In n names
        → (parts : List Str) → MergedAt b o t late parts n (find out n))

Gathers-none :
    (b o t : Dict Str Entry) (name : Str) (names : List Str) (nodes : Nodes) (rest : List Entry)
    → All (λ n. str_lt name n ≡ true) names
    → Gathers b o t names nodes rest
    → ((late : Nodes)
        → Extends nodes late
        → (parts : List Str) → MergedAt b o t late parts name none)
    → Gathers b o t (name ∷ names) nodes rest
Gathers-none b o t name names nodes rest first (so, ab, gone, me) here = (
  so,
  λ x (_, hs). ab x hs,
  λ n h. gone n (λ m. h (inr m)),
  λ late ext n m parts. elim m [
    | inr m' ↦ me late ext n m' parts
    | inl q ↦
        subst (λ k. MergedAt b o t late parts k (find rest k)) (sym q)
          (subst (MergedAt b o t late parts name) (sym (gone name (not_below name names first)))
            (here late ext parts))
  ],
)

Gathers-some :
    (b o t : Dict Str Entry) (name : Str) (names : List Str) (nodes : Nodes) (e : Entry)
    (rest : List Entry)
    → e.path ≡ name
    → All (λ n. str_lt name n ≡ true) names
    → Gathers b o t names nodes rest
    → ((late : Nodes)
        → Extends nodes late
        → (parts : List Str) → MergedAt b o t late parts name (some e))
    → Gathers b o t (name ∷ names) nodes (e ∷ rest)
Gathers-some b o t name names nodes e rest named first (so, ab, gone, me) here = (
  (subst (λ p. All (λ x. str_lt p x.path ≡ true) rest) (sym named) (ab name first), so),
  λ x (h, hs). (subst (λ p. str_lt x p ≡ true) (sym named) h, ab x hs),
  λ n h. find-there e rest n (λ q. h (inl (q ∙ named))) ∙ gone n (λ m. h (inr m)),
  λ late ext n m parts. elim m [
    | inr m' ↦
        subst (MergedAt b o t late parts n)
          (sym (
            find-there e rest n
              (λ q. not_below name names first (subst (λ k. In k names) (q ∙ named) m'))))
          (me late ext n m' parts)
    | inl q ↦
        subst (λ k. MergedAt b o t late parts k (find (e ∷ rest) k)) (sym q)
          (subst (MergedAt b o t late parts name)
            (sym (find-here e rest name (gone name (not_below name names first)) (sym named)))
            (here late ext parts))
  ],
)

Gathers-cons :
    (b o t : Dict Str Entry) (name : Str) (names : List Str) (nodes : Nodes) (r : Option Entry)
    (rest : List Entry)
    → contains name slash ≡ false
    → IsNamed name r
    → All (λ n. str_lt name n ≡ true) names
    → Gathers b o t names nodes rest
    → ((late : Nodes) → Extends nodes late → (parts : List Str) → MergedAt b o t late parts name r)
    → Gathers b o t (name ∷ names) nodes (elim r [ none ↦ rest | some e ↦ child_line e ∷ rest ])
Gathers-cons b o t name names nodes none rest flat named first g here =
    Gathers-none b o t name names nodes rest first g here
Gathers-cons b o t name names nodes (some e) rest flat named first g here =
    Gathers-some b o t name names nodes (child_line e) rest
      (child_line-path e (ap (λ n. contains n slash) named ∙ flat) ∙ named) first g
      (λ late ext parts.
        subst
          (IsMerged (below (view late parts) parts (get b name))
            (below (view late parts) parts (get o name))
            (below (view late parts) parts (get t name)))
          (sym (child_line-below (view late parts) parts e)) (here late ext parts))

pub names-cons :
    (directory : Directory) (p : Str) (b o t : Dict Str Entry) (name : Str) (names : List Str)
    (w : Writer) (out : List Entry) (w' : Writer)
    → Yields (merge_names directory p b o t (name ∷ names)) w out w'
    → (r : Option Entry) × (u : Writer) × (rest : List Entry) × Yields
        (merge_child directory (join_path p name) (get b name) (get o name) (get t name))
        w
        r
        u
      × Yields (merge_names directory p b o t names) u rest w'
      × (out ≡ elim r [ none ↦ rest | some e ↦ child_line e ∷ rest ])
unfolding merge_names
names-cons directory p b o t name names w out w' y =
    let (r, u, y1, y2) =
      bind-Yields (merge_child directory (join_path p name) (get b name) (get o name) (get t name))
        _ w out w' y in
    let (rest, u', y3, y4) = bind-Yields (merge_names directory p b o t names) _ u out w' y2 in
    let (q, q') =
      pure-Yields (elim r [ none ↦ rest | some e ↦ child_line e ∷ rest ]) out u' w' y4 in
    (
      r,
      u,
      rest,
      y1,
      subst (λ x. Yields (merge_names directory p b o t names) u rest x) q' y3,
      sym q,
    )

module _ (node_hash : List Entry → Str) (directory : Directory)
    (dm : AllMonotone node_hash directory) (ds : IsSound node_hash directory) where
  merge_child-IsNamed :
      (name p : Str) (base ours theirs : Option Entry) (w : Writer) (r : Option Entry) (w' : Writer)
      → Yields (merge_child directory p base ours theirs) w r w'
      → w'.conflicts ≡ []
      → IsNamed name ours
      → IsNamed name theirs
      → IsNamed name r
  unfolding merge_child subtree_line
  merge_child-IsNamed name p base none none w r w' y n ho ht = absurd (cc (ap (λ x. x.0) y))
  merge_child-IsNamed name p base (some ours) none w r w' y n ho ht =
      elim (present-Yields node_hash directory dm p base ours w r w' y n) [
        | inl (_, q) ↦ subst (IsNamed name) (sym q) ho
        | inr (_, q) ↦ subst (IsNamed name) (sym q) tt
      ]
  merge_child-IsNamed name p base none (some theirs) w r w' y n ho ht =
      elim (present-Yields node_hash directory dm p base theirs w r w' y n) [
        | inl (_, q) ↦ subst (IsNamed name) (sym q) ht
        | inr (_, q) ↦ subst (IsNamed name) (sym q) tt
      ]
  merge_child-IsNamed name p base (some ours) (some theirs) w r w' y n ho ht =
      elim (elim-Yields _ _ (equal (some ours) (some theirs)) w r w' y) [
        | inl (_, y1) ↦ subst (IsNamed name) (pure-Yields (some ours) r w w' y1).0 ho
        | inr (_, y1) ↦ elim (both-Yields node_hash directory dm p base ours theirs w r w' y1 n) [
          | inl (_, q) ↦ subst (IsNamed name) (sym q) ht
          | inr (inl (_, q)) ↦ subst (IsNamed name) (sym q) ho
          | inr (inr (_, _, m, _, q)) ↦ subst (IsNamed name) (sym q) (answer m)
        ]
      ]
    where
      answer :
          (m : Option Str)
          → IsNamed name
              (elim m [ none ↦ none | some h ↦ some (subtree_line ours.kind ours.path h) ])
      answer none = tt
      answer (some h) = ho

  pub merge_names_sound :
      (p : Str) (b o t : Dict Str Entry) (names : List Str) (w : Writer) (out : List Entry)
      (w' : Writer)
      → Yields (merge_names directory p b o t names) w out w'
      → Consistent node_hash w.nodes
      → IsPlain w'.nodes
      → w'.conflicts ≡ []
      → All (λ n. contains n slash ≡ false) names
      → IsAscending names
      → ((n : Str) → IsNamed n (get o n))
      → ((n : Str) → IsNamed n (get t n))
      → Gathers b o t names w'.nodes out
  unfolding merge_names find
  merge_names_sound p b o t [] w out w' y c pl n flat asc os ts =
      subst (Gathers b o t [] w'.nodes) (pure-Yields [] out w w' y).0
        (tt, λ x h. tt, λ n h. refl, λ late ext n m parts. absurd m)
  merge_names_sound p b o t (name ∷ names) w out w' y c pl n (flat, flats) (first, asc) os ts =
      let (r, u, rest, y1, y2, q) = names-cons directory p b o t name names w out w' y in
      let (_, kept, _) =
        merge_child-IsMonotone node_hash directory dm (join_path p name) (get b name) (get o name)
          (get t name) w r u y1 in
      let (ext, _, quiet) =
        merge_names-IsMonotone node_hash directory dm p b o t names u rest w' y2 in
      subst (Gathers b o t (name ∷ names) w'.nodes) (sym q) (
        Gathers-cons b o t name names w'.nodes r rest flat
          (merge_child-IsNamed name (join_path p name) (get b name) (get o name) (get t name) w r u
            y1 (quiet n) (os name) (ts name))
          first (merge_names_sound p b o t names u rest w' y2 (kept c) pl n flats asc os ts)
          (λ late more parts.
            merge_child_sound node_hash directory dm ds (join_path p name) (get b name) (get o name)
              (get t name) w r u y1 c (IsPlain-Extends u.nodes w'.nodes ext pl) (quiet n) late
              (λ h es e. more h es (ext h es e)) parts))
