-- ===== src/Trees/Merge/Child.antt =====
-- One merged child, and the loop over the names of a directory.
use reflake.Prelude.{
  Str, List, [], ◌∷◌, Option, none, some, Bool, true, false, ◌&&◌, ◌≡◌, refl, sym, ap, subst, ◌∙◌,
  ◌⊎◌, inl, inr, Bool-cases, list_eq, nat_eq, arith,
}
use reflake.Exec.{pure, ◌>>=◌}
use reflake.Exec.Yields.{Yields, bind-Yields, pure-Yields, elim-Yields}
use reflake.Trees.Entry.{Entry, EntryKind, is_subtree, is_subtree_kind}
use reflake.Trees.Node.{Nodes, subtree_line}
use reflake.Trees.Writer.{Writer}
use reflake.Trees.Writer.Stored.{Extends, Consistent}
use reflake.Trees.Writer.Build.{IsPlain}
use reflake.Trees.Merge.{
  Directory, equal, conflict, subtree_hash, merge_both, merge_present, merge_child,
}
use reflake.Trees.Merge.View.{File, below, view, IsMerged, equal-below}
use reflake.Trees.Merge.Growth.{append-nil, AllMonotone}

-- The child has the name that it is merged under.
abbrev pub IsNamed : Str → Option Entry → Type 0
IsNamed name none = Unit
IsNamed name (some e) = e.path ≡ name

pub conflict-Yields {ℓ} :
    {A : Type ℓ} (p : Str) (o r : A) (w w' : Writer)
    → Yields (conflict p >>= λ _. pure o) w r w'
    → w'.conflicts ≡ []
    → ⊥
unfolding conflict
conflict-Yields p o r w w' y e =
    append-nil w.conflicts p (ap (λ u. u.conflicts) (ap (λ x. x.1) y) ∙ e)

pub view-empty : (late : Nodes) (h : Option Str) → view late [] h ≡ none
unfolding view
view-empty late none = refl
view-empty late (some h) = refl

pub view-none : (late : Nodes) (parts : List Str) → view late parts none ≡ none
unfolding view
view-none late parts = refl

pub below-none : (v : Option Str → Option File) (parts : List Str) → below v parts none ≡ none
unfolding below
below-none v parts = refl

pub below-elim :
    (v : Option Str → Option File) (parts : List Str) (e : Entry) (b : Bool)
    → is_subtree e ≡ b
    → below v parts (some e) ≡ elim b [
      | true ↦ v (some e.hash)
      | false ↦ elim parts [ [] ↦ some (e.kind, e.hash, e.size) | _ ∷ _ ↦ none ]
    ]
unfolding below
below-elim v parts e b h =
    ap
      (λ c. elim c [
        | true ↦ v (some e.hash)
        | false ↦ elim parts [ [] ↦ some (e.kind, e.hash, e.size) | _ ∷ _ ↦ none ]
      ])
      h

below-base :
    (late : Nodes) (x : Str) (xs : List Str) (base : Option Entry)
    → below (view late (x ∷ xs)) (x ∷ xs) base ≡ view late (x ∷ xs) (subtree_hash base)
unfolding subtree_hash
below-base late x xs none = below-none (view late (x ∷ xs)) (x ∷ xs) ∙ sym (view-none late (x ∷ xs))
below-base late x xs (some e) = elim (Bool-cases (is_subtree e)) [
  | inl s ↦
      below-elim (view late (x ∷ xs)) (x ∷ xs) e true s ∙ ap (view late (x ∷ xs)) (sym (rw s refl))
  | inr s ↦
      below-elim (view late (x ∷ xs)) (x ∷ xs) e false s
      ∙ (sym (view-none late (x ∷ xs)) ∙ ap (view late (x ∷ xs)) (sym (rw s refl)))
]

module _ (node_hash : List Entry → Str) where
  -- What the results of a merge of directories are, in every later store.
  abbrev pub IsSound : Directory → Type 0
  IsSound f =
      (p : Str) (b o t : Option Str) (w : Writer) (r : Option Str) (w' : Writer)
      → Yields (f p b o t) w r w'
      → Consistent node_hash w.nodes
      → IsPlain w'.nodes
      → w'.conflicts ≡ []
      → (late : Nodes) → Extends w'.nodes late
      → (parts : List Str)
      → IsMerged (view late parts b) (view late parts o) (view late parts t) (view late parts r)

module _ (node_hash : List Entry → Str) (directory : Directory)
    (dm : AllMonotone node_hash directory) where
  pub present-Yields :
      (p : Str) (base : Option Entry) (present : Entry) (w : Writer) (r : Option Entry)
      (w' : Writer)
      → Yields (merge_present directory p base present) w r w'
      → w'.conflicts ≡ []
      → ((base ≡ none) × (r ≡ some present)) ⊎ ((equal (some present) base ≡ true) × (r ≡ none))
  unfolding merge_present
  present-Yields p none present w r w' y n = inl (refl, sym (pure-Yields (some present) r w w' y).0)
  present-Yields p (some base) present w r w' y n =
      elim (elim-Yields _ _ (equal (some present) (some base)) w r w' y) [
        | inl (e, y1) ↦ inr (e, sym (pure-Yields none r w w' y1).0)
        | inr (_, y1) ↦ absurd (conflict-Yields p (some present) r w w' y1 n)
      ]

  -- What `merge_both` answers when it reports no conflict.
  pub both-Yields :
      (p : Str) (base : Option Entry) (ours theirs : Entry) (w : Writer) (r : Option Entry)
      (w' : Writer)
      → Yields (merge_both directory p base ours theirs) w r w'
      → w'.conflicts ≡ []
      → ((equal (some ours) base ≡ true) × (r ≡ some theirs))
        ⊎ ((equal (some theirs) base ≡ true) × (r ≡ some ours))
        ⊎ ((is_subtree ours ≡ true)
            × (is_subtree theirs ≡ true)
            × (m : Option Str) × Yields
                (directory p (subtree_hash base) (some ours.hash) (some theirs.hash))
                w
                m
                w'
            × (r ≡ elim m [ none ↦ none | some h ↦ some (subtree_line ours.kind ours.path h) ]))
  unfolding merge_both
  both-Yields p base ours theirs w r w' y n =
      elim (elim-Yields _ _ (equal (some ours) base) w r w' y) [
        | inl (e, y1) ↦ inl (e, sym (pure-Yields (some theirs) r w w' y1).0)
        | inr (_, y1) ↦ elim (elim-Yields _ _ (equal (some theirs) base) w r w' y1) [
          | inl (e, y2) ↦ inr (inl (e, sym (pure-Yields (some ours) r w w' y2).0))
          | inr (_, y2) ↦ elim (elim-Yields _ _ (is_subtree ours && is_subtree theirs) w r w' y2) [
            | inr (_, y3) ↦ absurd (conflict-Yields p (some ours) r w w' y3 n)
            | inl (e, y3) ↦
                let (m, u, y4, y5) =
                  bind-Yields (directory p (subtree_hash base) (some ours.hash) (some theirs.hash))
                    _ w r w' y3 in
                let (s, s') = both_true e in
                let (y6, q) = answer m u y4 y5 in inr (inr (s, s', m, y6, q))
          ]
        ]
      ]
    where
      both_true :
          (is_subtree ours && is_subtree theirs) ≡ true
          → (is_subtree ours ≡ true) × (is_subtree theirs ≡ true)
      both_true e = ground arith

      answer :
          (m : Option Str) (u : Writer)
          → Yields (directory p (subtree_hash base) (some ours.hash) (some theirs.hash)) w m u
          → Yields
              (elim m [
                | none ↦ pure none
                | some h ↦ pure (some (subtree_line ours.kind ours.path h))
              ])
              u
              r
              w'
          → Yields (directory p (subtree_hash base) (some ours.hash) (some theirs.hash)) w m w'
            × (r ≡ elim m [ none ↦ none | some h ↦ some (subtree_line ours.kind ours.path h) ])
      answer none u y4 y5 =
          let (a, b) = pure-Yields none r u w' y5 in
          (
            subst
                (λ v.
                  Yields (directory p (subtree_hash base) (some ours.hash) (some theirs.hash)) w
                    none v)
                b y4,
            sym a,
          )
      answer (some h) u y4 y5 =
          let (a, b) = pure-Yields (some (subtree_line ours.kind ours.path h)) r u w' y5 in
          (
            subst
                (λ v.
                  Yields (directory p (subtree_hash base) (some ours.hash) (some theirs.hash)) w
                    (some h) v)
                b y4,
            sym a,
          )

  none_at :
      (late : Nodes) (e : Entry) → is_subtree e ≡ true → below (view late []) [] (some e) ≡ none
  none_at late e q = below-elim (view late []) [] e true q ∙ view-empty late (some e.hash)

  answer-below :
      (late : Nodes) (parts : List Str) (k : EntryKind) (p : Str) (m : Option Str)
      → is_subtree_kind k ≡ true
      → below (view late parts) parts (elim m [ none ↦ none | some h ↦ some (subtree_line k p h) ])
        ≡ view late parts m
  unfolding subtree_line
  answer-below late parts k p none s =
      below-none (view late parts) parts ∙ sym (view-none late parts)
  answer-below late parts k p (some h) s =
      below-elim (view late parts) parts (subtree_line k p h) true s

  module _ (ds : IsSound node_hash directory) where
    subtrees_sound :
        (p : Str) (base : Option Entry) (ours theirs : Entry) (m : Option Str) (w w' : Writer)
        → is_subtree ours ≡ true
        → is_subtree theirs ≡ true
        → Yields (directory p (subtree_hash base) (some ours.hash) (some theirs.hash)) w m w'
        → Consistent node_hash w.nodes
        → IsPlain w'.nodes
        → w'.conflicts ≡ []
        → (late : Nodes) → Extends w'.nodes late
        → (parts : List Str)
        → IsMerged
            (below (view late parts) parts base)
            (below (view late parts) parts (some ours))
            (below (view late parts) parts (some theirs))
            (view late parts m)
    subtrees_sound p base ours theirs m w w' s s' y c pl n late ext [] = inl (
      none_at late ours s ∙ sym (none_at late theirs s'),
      view-empty late m ∙ sym (none_at late ours s),
    )
    subtrees_sound p base ours theirs m w w' s s' y c pl n late ext (x ∷ xs) =
        let v = view late (x ∷ xs) in
        let merged =
          ds p (subtree_hash base) (some ours.hash) (some theirs.hash) w m w' y c pl n late ext
            (x ∷ xs) in
        let at_base = below-base late x xs base in
        let at_ours = below-elim v (x ∷ xs) ours true s in
        let at_theirs = below-elim v (x ∷ xs) theirs true s' in
        subst
          (λ f. IsMerged f (below v (x ∷ xs) (some ours)) (below v (x ∷ xs) (some theirs)) (v m))
          (sym at_base)
          (subst (λ f. IsMerged (v (subtree_hash base)) f (below v (x ∷ xs) (some theirs)) (v m))
            (sym at_ours)
            (subst (λ f. IsMerged (v (subtree_hash base)) (v (some ours.hash)) f (v m))
              (sym at_theirs) merged))

    both_sound :
        (p : Str) (base : Option Entry) (ours theirs : Entry) (w : Writer) (r : Option Entry)
        (w' : Writer)
        → Yields (merge_both directory p base ours theirs) w r w'
        → Consistent node_hash w.nodes
        → IsPlain w'.nodes
        → w'.conflicts ≡ []
        → (late : Nodes) → Extends w'.nodes late
        → (parts : List Str)
        → IsMerged
            (below (view late parts) parts base)
            (below (view late parts) parts (some ours))
            (below (view late parts) parts (some theirs))
            (below (view late parts) parts r)
    both_sound p base ours theirs w r w' y c pl n late ext parts =
        elim (both-Yields p base ours theirs w r w' y n) [
          | inl (e, q) ↦ inr (inl (equal-below v parts (some ours) base e, ap (below v parts) q))
          | inr (inl (e, q)) ↦
              inr (inr (equal-below v parts (some theirs) base e, ap (below v parts) q))
          | inr (inr (s, s', m, y', q)) ↦
              subst
                (IsMerged (below v parts base) (below v parts (some ours))
                  (below v parts (some theirs)))
                (sym (ap (below v parts) q ∙ answer-below late parts ours.kind ours.path m s))
                (subtrees_sound p base ours theirs m w w' s s' y' c pl n late ext parts)
        ]
      where
        v : Option Str → Option File
        v = view late parts

    -- A child that is merged without a conflict.
    pub merge_child_sound :
        (p : Str) (base ours theirs : Option Entry) (w : Writer) (r : Option Entry) (w' : Writer)
        → Yields (merge_child directory p base ours theirs) w r w'
        → Consistent node_hash w.nodes
        → IsPlain w'.nodes
        → w'.conflicts ≡ []
        → (late : Nodes) → Extends w'.nodes late
        → (parts : List Str)
        → IsMerged
            (below (view late parts) parts base)
            (below (view late parts) parts ours)
            (below (view late parts) parts theirs)
            (below (view late parts) parts r)
    unfolding merge_child
    merge_child_sound p base none none w r w' y c pl n late ext parts =
        absurd (cc (ap (λ x. x.0) y))
    merge_child_sound p base (some ours) none w r w' y c pl n late ext parts =
        let v = view late parts in
        elim (present-Yields p base ours w r w' y n) [
          | inl (b, q) ↦ inr (inr (ap (below v parts) (sym b), ap (below v parts) q))
          | inr (b, q) ↦ inr (inl (equal-below v parts (some ours) base b, ap (below v parts) q))
        ]
    merge_child_sound p base none (some theirs) w r w' y c pl n late ext parts =
        let v = view late parts in
        elim (present-Yields p base theirs w r w' y n) [
          | inl (b, q) ↦ inr (inl (ap (below v parts) (sym b), ap (below v parts) q))
          | inr (b, q) ↦ inr (inr (equal-below v parts (some theirs) base b, ap (below v parts) q))
        ]
    merge_child_sound p base (some ours) (some theirs) w r w' y c pl n late ext parts =
        let v = view late parts in
        elim (elim-Yields _ _ (equal (some ours) (some theirs)) w r w' y) [
          | inl (e, y1) ↦ inl (
            equal-below v parts (some ours) (some theirs) e,
            ap (below v parts) (sym (pure-Yields (some ours) r w w' y1).0),
          )
          | inr (_, y1) ↦ both_sound p base ours theirs w r w' y1 c pl n late ext parts
        ]
