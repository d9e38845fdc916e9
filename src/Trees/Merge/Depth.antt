-- ===== src/Trees/Merge/Depth.antt =====
-- The levels of a tree, and the reads of a merge that go down them.
use reflake.Prelude.{
  Str, ℕ, zero, suc, List, [], ◌∷◌, ◌++◌, Option, none, some, Bool, true, false, ◌≡◌, refl, sym, ap,
  subst, ◌∙◌, inl, inr, All, any, Bool-cases, if◌then◌else◌, list_eq, nat_eq,
}
use reflake.Prelude.Dict.{get}
use reflake.Domain.{Error, Result, ok, raise, diverge, unknown_tree, value_error, ◌>>=◌}
use reflake.Exec.Ends.{Ends}
use reflake.Trees.Entry.{Entry, EntryKind, is_subtree, is_subtree_kind}
use reflake.Trees.Node.{Nodes, load_entries, is_parsed_from, parse_tree_object}
use reflake.Trees.Walker.{load_or_raise}
use reflake.Trees.Walker.Round.{bind-ok}
use reflake.Trees.Lookup.{is_shard, expand_each, expand_shards, load_children}
use reflake.Trees.Writer.{Writer}
use reflake.Trees.Writer.Stored.{Extends}
use reflake.Trees.Merge.{load}
use reflake.Trees.Merge.Read.{load_entries-IsNode, load_or_raise-ok}

-- The tree is stored whole, and has at most so many levels.
abbrev pub HasDepth : Nodes → ℕ → Str → Type 0
HasDepth nodes zero h = ⊥
HasDepth nodes (suc depth) h =
    (es : List Entry) × (get nodes h ≡ some es)
    × All (λ e. is_subtree e ≡ true → HasDepth nodes depth e.hash) es

pub All-map {κ μ} :
    {A : Type 0} (P : A → Type κ) (Q : A → Type μ) (xs : List A)
    → ((x : A) → P x → Q x)
    → All P xs
    → All Q xs
All-map P Q [] f h = tt
All-map P Q (x ∷ xs) f (h, hs) = (f x h, All-map P Q xs f hs)

pub HasDepth-Extends :
    (d d' : Nodes) (depth : ℕ) (h : Str) → Extends d d' → HasDepth d depth h → HasDepth d' depth h
HasDepth-Extends d d' zero h ext q = q
HasDepth-Extends d d' (suc depth) h ext (es, q, below) = (
  es,
  ext h es q,
  All-map (λ e. is_subtree e ≡ true → HasDepth d depth e.hash)
      (λ e. is_subtree e ≡ true → HasDepth d' depth e.hash) es
      (λ e k s. HasDepth-Extends d d' depth e.hash ext (k s)) below,
)

pub subtree_shard :
    (k : EntryKind)
    → elim k [ EntryKind.shard ↦ true | _ ↦ false ] ≡ true
    → is_subtree_kind k ≡ true
subtree_shard EntryKind.shard h = refl
subtree_shard EntryKind.tree h = refl
subtree_shard EntryKind.blob h = cc h
subtree_shard EntryKind.meta h = cc h
subtree_shard EntryKind.bp h = cc h
subtree_shard EntryKind.mp h = cc h

checked-Ends :
    (b : Bool) (es : List Entry) (e : Error)
    → (elim b [ true ↦ ok es | false ↦ raise e ] >>= λ entries. ok (some entries)) ≡ diverge
    → ⊥
checked-Ends true es e h = cc h
checked-Ends false es e h = cc h

load_entries-Ends : (nodes : Nodes) (h : Str) → load_entries nodes h ≡ diverge → ⊥
unfolding load_entries parse_tree_object
load_entries-Ends nodes h e = go (get nodes h) e
  where
    go :
        (o : Option (List Entry))
        → elim o [
          | none ↦ ok none
          | some es ↦ parse_tree_object es >>= λ entries. ok (some entries)
        ]
          ≡ diverge
        → ⊥
    go none e = cc e
    go (some es) e = checked-Ends (is_parsed_from none es) es (value_error "invalid tree node") e

pub load-Ends : (h : Str) (w : Writer) → Ends (load h) w
unfolding load
load-Ends h w = load_entries-Ends w.nodes h

pub HasDepth-suc :
    (nodes : Nodes) (depth : ℕ) (h : Str) → HasDepth nodes depth h → HasDepth nodes (suc depth) h
HasDepth-suc nodes zero h k = absurd k
HasDepth-suc nodes (suc depth) h (es, q, below) = (
  es,
  q,
  All-map (λ e. is_subtree e ≡ true → HasDepth nodes depth e.hash)
      (λ e. is_subtree e ≡ true → HasDepth nodes (suc depth) e.hash) es
      (λ e k s. HasDepth-suc nodes depth e.hash (k s)) below,
)

-- The children of a directory lie less deep, those in shards too.
module _ (nodes : Nodes) (depth : ℕ) where
  abbrev pub IsDeep : Entry → Type 0
  IsDeep e = is_subtree e ≡ true → HasDepth nodes depth e.hash

  All-append : (xs ys : List Entry) → All IsDeep xs → All IsDeep ys → All IsDeep (xs ++ ys)
  All-append [] ys hs ks = ks
  All-append (x ∷ xs) ys (h, hs) ks = (h, All-append xs ys hs ks)

  node-IsDeep :
      (h : Str) (xs : List Entry)
      → HasDepth nodes (suc depth) h
      → load_or_raise (load_entries nodes) h ≡ ok xs
      → All IsDeep xs
  node-IsDeep h xs (es, q, below) y =
      let (r, _) = load_entries-IsNode nodes h xs (load_or_raise-ok (load_entries nodes) h xs y) in
      let same : es ≡ xs = cc (sym q ∙ r) in subst (λ l. All IsDeep l) same below

  expand_each-IsDeep :
      (es out : List Entry)
      → All IsDeep es
      → expand_each (load_entries nodes) es ≡ ok out
      → All IsDeep out
  unfolding expand_each
  expand_each-IsDeep [] out h y = let nil : [] ≡ out = cc y in subst (λ l. All IsDeep l) nil tt
  expand_each-IsDeep (e ∷ es) out (h, hs) y =
      let (here, y1, z1) =
        bind-ok (if is_shard e then load_or_raise (load_entries nodes) e.hash else ok (e ∷ [])) _
          out y in
      let (rest, y2, z2) = bind-ok (expand_each (load_entries nodes) es) _ out z1 in
      let same : here ++ rest ≡ out = cc z2 in
      subst (λ l. All IsDeep l) same
        (All-append here rest (first here y1) (expand_each-IsDeep es rest hs y2))
    where
      first :
          (here : List Entry)
          → (if is_shard e then load_or_raise (load_entries nodes) e.hash else ok (e ∷ []))
            ≡ ok here
          → All IsDeep here
      first here y1 = elim (Bool-cases (is_shard e)) [
        | inl s ↦
            node-IsDeep e.hash here (HasDepth-suc nodes depth e.hash (h (subtree_shard e.kind s))) (
              sym (ap (λ b. if b then load_or_raise (load_entries nodes) e.hash else ok (e ∷ [])) s)
              ∙ y1)
        | inr s ↦
            let same : e ∷ [] ≡ here = cc (
              sym (ap (λ b. if b then load_or_raise (load_entries nodes) e.hash else ok (e ∷ [])) s)
              ∙ y1) in
            subst (λ l. All IsDeep l) same (h, tt)
      ]

  -- `load_children` of a directory that has the depth.
  pub load_children-IsDeep :
      (h : Str) (out : List Entry)
      → HasDepth nodes (suc depth) h
      → load_children (load_entries nodes) h ≡ ok out
      → All IsDeep out
  unfolding load_children expand_shards
  load_children-IsDeep h out deep y =
      let (xs, y1, z1) =
        bind-ok (load_or_raise (load_entries nodes) h) (expand_shards (load_entries nodes)) out y in
      expanded xs (node-IsDeep h xs deep y1) z1
    where
      expanded :
          (xs : List Entry)
          → All IsDeep xs
          → expand_shards (load_entries nodes) xs ≡ ok out
          → All IsDeep out
      expanded xs below z1 = elim (Bool-cases (any is_shard xs)) [
        | inl s ↦
            expand_each-IsDeep xs out below
              (sym (ap (λ b. if b then expand_each (load_entries nodes) xs else ok xs) s) ∙ z1)
        | inr s ↦
            let same : xs ≡ out =
              cc
                (sym (ap (λ b. if b then expand_each (load_entries nodes) xs else ok xs) s) ∙ z1) in
            subst (λ l. All IsDeep l) same below
      ]

bind-ends {ℓ κ} :
    {A : Type ℓ} {B : Type κ} (r : Result A) (f : A → Result B)
    → (◌≡◌ {A = Result A} r diverge → ⊥)
    → ((a : A) → ◌≡◌ {A = Result B} (f a) diverge → ⊥)
    → ◌≡◌ {A = Result B} (r >>= f) diverge
    → ⊥
bind-ends (ok a) f h k e = k a e
bind-ends (raise x) f h k e = cc e
bind-ends diverge f h k e = h refl

load_or_raise-Ends : (nodes : Nodes) (h : Str) → load_or_raise (load_entries nodes) h ≡ diverge → ⊥
unfolding load_or_raise
load_or_raise-Ends nodes h e =
    bind-ends (load_entries nodes h) _ (load_entries-Ends nodes h) (λ o. answer o) e
  where
    answer :
        (o : Option (List Entry))
        → ◌≡◌ {A = Result (List Entry)}
            (elim o [ none ↦ raise (unknown_tree h) | some entries ↦ ok entries ])
            diverge
        → ⊥
    answer none e = cc e
    answer (some es) e = cc e

expand_each-Ends :
    (nodes : Nodes) (es : List Entry) → expand_each (load_entries nodes) es ≡ diverge → ⊥
unfolding expand_each
expand_each-Ends nodes [] e = cc e
expand_each-Ends nodes (x ∷ es) e =
    bind-ends (if is_shard x then load_or_raise (load_entries nodes) x.hash else ok (x ∷ [])) _
      (first (is_shard x))
      (λ here.
        bind-ends (expand_each (load_entries nodes) es) _ (expand_each-Ends nodes es)
          (λ rest e. cc e))
      e
  where
    first :
        (b : Bool)
        → ◌≡◌ {A = Result (List Entry)}
            (if b then load_or_raise (load_entries nodes) x.hash else ok (x ∷ []))
            diverge
        → ⊥
    first true e = load_or_raise-Ends nodes x.hash e
    first false e = cc e

pub load_children-Ends :
    (nodes : Nodes) (h : Str) → load_children (load_entries nodes) h ≡ diverge → ⊥
unfolding load_children expand_shards
load_children-Ends nodes h e =
    bind-ends (load_or_raise (load_entries nodes) h) _ (load_or_raise-Ends nodes h)
      (λ xs. expanded xs (any is_shard xs)) e
  where
    expanded :
        (xs : List Entry) (b : Bool)
        → ◌≡◌ {A = Result (List Entry)}
            (if b then expand_each (load_entries nodes) xs else ok xs)
            diverge
        → ⊥
    expanded xs true e = expand_each-Ends nodes xs e
    expanded xs false e = cc e
