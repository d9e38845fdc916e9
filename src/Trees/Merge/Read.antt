-- ===== src/Trees/Merge/Read.antt =====
-- What a merge reads of the nodes, where no node is sharded.
use reflake.Prelude.{
  Str, List, [], ◌∷◌, Option, none, some, true, false, ◌≡◌, ◌≢◌, refl, sym, ap, subst, ◌∙◌, inl,
  inr, In, any, slash, contains, Bool-cases, Option-cases, ==_iff, ◌==◌, list_eq, nat_eq, arith,
}
use reflake.Prelude.Dict.{Dict, get}
use reflake.Domain.{Result, ok, raise, unknown_tree, value_error}
use reflake.Exec.{pure}
use reflake.Exec.Yields.{Yields, bind-Yields, pure-Yields}
use reflake.Trees.Entry.{Entry}
use reflake.Trees.Node.{
  Nodes, is_component, is_valid_from, is_parsed_from, parse_tree_object, parsed-valid, load_entries,
  by_name,
}
use reflake.Trees.Walker.{load_or_raise}
use reflake.Trees.Lookup.{is_shard, expand_shards, load_children}
use reflake.Trees.Walker.Round.{bind-ok}
use reflake.Trees.Writer.{Writer}
use reflake.Trees.Writer.Build.{IsPlain}
use reflake.Trees.Merge.{load, children_by_name, base_by_name}
use reflake.Trees.Merge.Names.{find}
use reflake.Trees.Merge.View.{below, view}
use reflake.Trees.Merge.Child.{below-none, view-none, IsNamed}

-- The node is stored and can be parsed.
abbrev pub IsNode : Nodes → Str → List Entry → Type 0
IsNode nodes h es = (get nodes h ≡ some es) × (is_valid_from none es ≡ true)

pub load_entries-IsNode :
    (nodes : Nodes) (h : Str) (es : List Entry)
    → load_entries nodes h ≡ ok (some es)
    → IsNode nodes h es
unfolding load_entries parse_tree_object
load_entries-IsNode nodes h es y = elim (Option-cases (get nodes h)) [
  | inl q ↦ absurd (missing q)
  | inr (xs, q) ↦ elim (Bool-cases (is_parsed_from none xs)) [
    | inl v ↦ found xs q v
    | inr v ↦ absurd (refused xs q v)
  ]
]
  where
    missing : get nodes h ≡ none → ⊥
    missing q =
        let e : load_entries nodes h ≡ ok none = rw (q, load_entries) refl in
        let gone : none ≡ some es = cc (sym e ∙ y) in cc gone

    found :
        (xs : List Entry)
        → get nodes h ≡ some xs
        → is_parsed_from none xs ≡ true
        → IsNode nodes h es
    found xs q v =
        let e : load_entries nodes h ≡ ok (some xs) =
          rw (q, load_entries) (rw (v, parse_tree_object) refl) in
        let same : xs ≡ es = cc (sym e ∙ y) in
        (q ∙ ap some same, ap (is_valid_from none) (sym same) ∙ parsed-valid none xs v)

    refused : (xs : List Entry) → get nodes h ≡ some xs → is_parsed_from none xs ≡ false → ⊥
    refused xs q v =
        let e : load_entries nodes h ≡ raise (value_error "invalid tree node") =
          rw (q, load_entries) (rw (v, parse_tree_object) refl) in
        cc (sym e ∙ y)

expand_shards-plain :
    (load : Str → Result (Option (List Entry))) (es : List Entry)
    → any is_shard es ≡ false
    → expand_shards load es ≡ ok es
unfolding expand_shards
expand_shards-plain load es h = rw (h, expand_shards) refl

pub load_or_raise-ok :
    (load : Str → Result (Option (List Entry))) (h : Str) (es : List Entry)
    → load_or_raise load h ≡ ok es
    → load h ≡ ok (some es)
unfolding load_or_raise
load_or_raise-ok load h es y = let (o, q, e) = bind-ok (load h) _ es y in q ∙ ap ok (answer o e)
  where
    answer :
        (o : Option (List Entry))
        → elim o [ none ↦ raise (unknown_tree h) | some entries ↦ ok entries ] ≡ ok es
        → o ≡ some es
    answer none e = cc
    answer (some xs) e = ap some (cc e)

load_children-IsNode :
    (nodes : Nodes) (h : Str) (es : List Entry)
    → IsPlain nodes
    → load_children (load_entries nodes) h ≡ ok es
    → IsNode nodes h es
unfolding load_children
load_children-IsNode nodes h es pl y =
    let (xs, q, e) =
      bind-ok (load_or_raise (load_entries nodes) h) (expand_shards (load_entries nodes)) es y in
    let (stored, v) =
      load_entries-IsNode nodes h xs (load_or_raise-ok (load_entries nodes) h xs q) in
    let same : xs ≡ es =
      cc (sym (expand_shards-plain (load_entries nodes) xs (pl h xs stored)) ∙ e) in
    subst (IsNode nodes h) same (stored, v)

pub children_by_name-Yields :
    (h : Str) (w : Writer) (d : Dict Str Entry) (w' : Writer)
    → IsPlain w.nodes
    → Yields (children_by_name h) w d w'
    → (es : List Entry) × IsNode w.nodes h es × (d ≡ by_name es) × (w ≡ w')
unfolding children_by_name
children_by_name-Yields h w d w' pl y =
    let (es, u, y1, y2) =
      bind-Yields (λ w. (load_children (load_entries w.nodes) h, w)) (λ es. pure (by_name es)) w d
        w' y in
    let (a, b) = pure-Yields (by_name es) d u w' y2 in
    (es, load_children-IsNode w.nodes h es pl (ap (λ x. x.0) y1), sym a, ap (λ x. x.1) y1 ∙ b)

pub find-In : (es : List Entry) (n : Str) (e : Entry) → find es n ≡ some e → In e es × (e.path ≡ n)
unfolding find
find-In [] n e h = absurd (cc h)
find-In (x ∷ es) n e h = go (find es n) refl (find-In es n e)
  where
    go :
        (o : Option Entry)
        → find es n ≡ o
        → (find es n ≡ some e → In e es × (e.path ≡ n))
        → In e (x ∷ es) × (e.path ≡ n)
    go (some y) q rest =
        let here : some y ≡ some e = sym (rw (q, find) refl) ∙ h in
        let (m, p) = rest (q ∙ here) in (inr m, p)
    go none q rest = elim (Bool-cases (n == x.path)) [
      | inl y ↦
          let here : some x ≡ some e = sym (rw (q, find, y) refl) ∙ h in
          let same : x ≡ e = cc in
          (inl (sym same), ap (λ z. z.path) (sym same) ∙ sym ((==_iff n x.path).0 y))
      | inr y ↦ let gone : none ≡ some e = sym (rw (q, find, y) refl) ∙ h in absurd (cc gone)
    ]

is_component-flat : (name : Str) → is_component name ≡ true → contains name slash ≡ false
unfolding is_component
is_component-flat name h = ground arith

valid-flat :
    (previous : Option Str) (es : List Entry) (e : Entry)
    → is_valid_from previous es ≡ true
    → In e es
    → contains e.path slash ≡ false
unfolding is_valid_from
valid-flat previous [] e v m = absurd m
valid-flat previous (x ∷ es) e v (inl q) =
    ap (λ z. contains z.path slash) q ∙ is_component-flat x.path (ground arith)
valid-flat previous (x ∷ es) e v (inr m) = valid-flat (some x.path) es e (ground arith) m

-- The child that a valid node has under a name has that name, a single component.
pub find-flat :
    (es : List Entry) (n : Str)
    → is_valid_from none es ≡ true
    → IsNamed n (find es n) × ((find es n ≢ none) → contains n slash ≡ false)
find-flat es n v = go (find es n) refl
  where
    go :
        (o : Option Entry)
        → find es n ≡ o
        → IsNamed n (find es n) × ((find es n ≢ none) → contains n slash ≡ false)
    go none q = (subst (IsNamed n) (sym q) tt, λ h. absurd (h q))
    go (some e) q =
        let (m, p) = find-In es n e q in
        (
          subst (IsNamed n) (sym q) p,
          λ h. ap (λ k. contains k slash) (sym p) ∙ valid-flat none es e v m,
        )

pub view-node :
    (late : Nodes) (h : Str) (es : List Entry) (x : Str) (xs : List Str)
    → get late h ≡ some es
    → view late (x ∷ xs) (some h) ≡ below (view late xs) xs (find es x)
unfolding view
view-node late h es x xs q =
    ap (λ o. below (view late xs) xs (find (elim o [ none ↦ [] | some es ↦ es ]) x)) q

-- A base tree, or none.
pub base_by_name-Yields :
    (b : Option Str) (w : Writer) (d : Dict Str Entry) (w' : Writer)
    → IsPlain w.nodes
    → Yields (base_by_name b) w d w'
    → (es : List Entry) × (is_valid_from none es ≡ true)
      × (d ≡ by_name es)
      × (w ≡ w')
      × ((late : Nodes)
          → ((h : Str) (ys : List Entry) → get w.nodes h ≡ some ys → get late h ≡ some ys)
          → (x : Str) (xs : List Str) → view late (x ∷ xs) b ≡ below (view late xs) xs (find es x))
unfolding base_by_name find is_valid_from
base_by_name-Yields none w d w' pl y =
    let (a, b) = pure-Yields [] d w w' y in
    (
      [],
      refl,
      sym a,
      b,
      λ late ext x xs. view-none late (x ∷ xs) ∙ sym (below-none (view late xs) xs),
    )
base_by_name-Yields (some h) w d w' pl y =
    let (es, (q, v), a, b) = children_by_name-Yields h w d w' pl y in
    (es, v, a, b, λ late ext x xs. view-node late h es x xs (ext h es q))
