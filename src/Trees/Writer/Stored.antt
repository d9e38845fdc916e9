-- ===== src/Trees/Writer/Stored.antt =====
-- What writing nodes does to the store: it keeps every node, and the written node can be read.
use reflake.Prelude.{
  Str, ℕ, List, [], none, some, Bool, true, false, not, ◌≡◌, refl, sym, ap, subst, ◌∙◌, Bool-cases,
  Option-cases, inl, inr, ◌==◌, ==_iff, contains, contains-In, In, list_eq, nat_eq,
}
use reflake.Prelude.Dict.{get, put, get-put, get-put_self}
use reflake.Domain.{Error, Result, ok, raise_if, value_error}
use reflake.Exec.{Exec, pure, lift, modify, ◌>>=◌, ◌>>◌}
use reflake.Exec.Yields.{Yields, bind-Yields, pure-Yields}
use reflake.Trees.Entry.{Entry}
use reflake.Trees.Node.{Nodes, is_valid_from, validate_tree_node}
use reflake.Trees.Writer.{Writer, put_missing, store_node, write_tree_bytes}

-- Every node of the first store is in the second.
abbrev pub Extends : Nodes → Nodes → Type 0
Extends d d' = (h : Str) (es : List Entry) → get d h ≡ some es → get d' h ≡ some es

abbrev pub IsKnown : Nodes → Str → Type 0
IsKnown d h = (es : List Entry) × (get d h ≡ some es)

put_missing-known :
    (d : Nodes) (h : Str) (es ys : List Entry) → get d h ≡ some ys → put_missing d h es ≡ d
unfolding put_missing
put_missing-known d h es ys q = rw (q, put_missing) refl

put_missing-new :
    (d : Nodes) (h : Str) (es : List Entry) → get d h ≡ none → put_missing d h es ≡ put d h es
unfolding put_missing
put_missing-new d h es q = rw (q, put_missing) refl

put-Extends : (d : Nodes) (h : Str) (es : List Entry) → get d h ≡ none → Extends d (put d h es)
put-Extends d h es q k xs e = elim (Bool-cases (k == h)) [
  | inr n ↦ get-put d h k es ∙ rw n e
  | inl y ↦ absurd (cc (sym q ∙ ap (get d) (sym ((==_iff k h).0 y)) ∙ e))
]

put_missing-Extends : (d : Nodes) (h : Str) (es : List Entry) → Extends d (put_missing d h es)
put_missing-Extends d h es = elim (Option-cases (get d h)) [
  | inr (ys, q) ↦ subst (Extends d) (sym (put_missing-known d h es ys q)) (λ k xs e. e)
  | inl q ↦ subst (Extends d) (sym (put_missing-new d h es q)) (put-Extends d h es q)
]

raise_if-ok : (b : Bool) (e : Error) (u : Unit {0}) → raise_if (not b) e ≡ ok u → b ≡ true
raise_if-ok true e u h = refl
raise_if-ok false e u h = absurd (cc h)

validate-valid :
    (es : List Entry) {u : Unit {0}} → validate_tree_node es ≡ ok u → is_valid_from none es ≡ true
unfolding validate_tree_node
validate-valid es {u} h = raise_if-ok (is_valid_from none es) (value_error "invalid tree node") u h

module _ (node_hash : List Entry → Str) where
  -- The nodes are stored under their hashes.
  abbrev pub Consistent : Nodes → Type 0
  Consistent d = (h : Str) (es : List Entry) → get d h ≡ some es → node_hash es ≡ h

  abbrev pub IsInjective : Type 0
  IsInjective = (xs ys : List Entry) → node_hash xs ≡ node_hash ys → xs ≡ ys

  abbrev pub Grows : Writer → Writer → Type 0
  Grows w w' =
      Extends w.nodes w'.nodes
      × (Consistent w.nodes → Consistent w'.nodes)
      × (w'.conflicts ≡ [] → w.conflicts ≡ [])

  pub Grows_refl : (w : Writer) → Grows w w
  Grows_refl w = (λ h es e. e, λ c. c, λ e. e)

  pub Grows-trans : (u v w : Writer) → Grows u v → Grows v w → Grows u w
  Grows-trans u v w (e, c, n) (e', c', n') =
      (λ h es q. e' h es (e h es q), λ q. c' (c q), λ q. n (n' q))

  -- A method that only adds nodes and conflicts.
  abbrev pub IsMonotone {ℓ} : {A : Type ℓ} → Exec Writer A → Type ℓ
  IsMonotone m = (w : Writer) (a : _) (w' : Writer) → Yields m w a w' → Grows w w'

  pub pure-IsMonotone {ℓ} : {A : Type ℓ} (a : A) → IsMonotone (pure {S = Writer} a)
  pure-IsMonotone a w b w' y = subst (Grows w) (pure-Yields a b w w' y).1 (Grows_refl w)

  pub lift-IsMonotone {ℓ} : {A : Type ℓ} (r : Result A) → IsMonotone (lift {S = Writer} r)
  lift-IsMonotone r w b w' y = subst (Grows w) (ap (λ x. x.1) y) (Grows_refl w)

  pub bind-IsMonotone {ℓ κ} :
      {A : Type ℓ} {B : Type κ} (m : Exec Writer A) (f : A → Exec Writer B)
      → IsMonotone m
      → ((a : A) → IsMonotone (f a))
      → IsMonotone (m >>= f)
  bind-IsMonotone m f hm hf w b w' y =
      let (a, t, y1, y2) = bind-Yields m f w b w' y in
      Grows-trans w t w' (hm w a t y1) (hf a t b w' y2)

  pub elim-IsMonotone {ℓ} :
      {A : Type ℓ} (b : Bool) {m k : Exec Writer A}
      → IsMonotone m
      → IsMonotone k
      → IsMonotone (elim b [ true ↦ m | false ↦ k ])
  elim-IsMonotone true hm hk = hm
  elim-IsMonotone false hm hk = hk

  put-Consistent :
      (d : Nodes) (es : List Entry) → Consistent d → Consistent (put d (node_hash es) es)
  put-Consistent d es c h xs q = elim (Bool-cases (h == node_hash es)) [
    | inr n ↦ c h xs (sym (get-put d (node_hash es) h es ∙ rw n refl) ∙ q)
    | inl y ↦
        let same = (==_iff h (node_hash es)).0 y in
        ap node_hash
          (cc (sym q ∙ ap (get (put d (node_hash es) es)) same ∙ get-put_self d (node_hash es) es))
        ∙ sym same
  ]

  put_missing-Consistent :
      (d : Nodes) (es : List Entry) → Consistent d → Consistent (put_missing d (node_hash es) es)
  put_missing-Consistent d es c = elim (Option-cases (get d (node_hash es))) [
    | inr (ys, q) ↦ subst Consistent (sym (put_missing-known d (node_hash es) es ys q)) c
    | inl q ↦ subst Consistent (sym (put_missing-new d (node_hash es) es q)) (put-Consistent d es c)
  ]

  store_node-Grows : (es : List Entry) (w : Writer) → Grows w (store_node (node_hash es) es w)
  unfolding store_node
  store_node-Grows es w =
      (put_missing-Extends w.nodes (node_hash es) es, put_missing-Consistent w.nodes es, λ e. e)

  get-put_missing :
      IsInjective
      → (d : Nodes) (es : List Entry) → Consistent d
      → get (put_missing d (node_hash es) es) (node_hash es) ≡ some es
  get-put_missing inj d es c = elim (Option-cases (get d (node_hash es))) [
    | inr (ys, q) ↦
        subst (λ x. get x (node_hash es) ≡ some es)
          (sym (put_missing-known d (node_hash es) es ys q))
          (q ∙ ap some (inj ys es (c (node_hash es) ys q)))
    | inl q ↦
        subst (λ x. get x (node_hash es) ≡ some es) (sym (put_missing-new d (node_hash es) es q))
          (get-put_self d (node_hash es) es)
  ]

  get-store_node :
      IsInjective
      → (w : Writer) (es : List Entry) → Consistent w.nodes
      → get (store_node (node_hash es) es w).nodes (node_hash es) ≡ some es
  unfolding store_node
  get-store_node inj w es c = get-put_missing inj w.nodes es c

  write-known :
      (max_tree_entries : ℕ) (skip : List Str) (es : List Entry)
      → contains skip (node_hash es) ≡ true
      → write_tree_bytes node_hash max_tree_entries skip es
        ≡ (lift (validate_tree_node es) >> pure (node_hash es))
  unfolding write_tree_bytes
  write-known max skip es k = rw k refl

  write-new :
      (max_tree_entries : ℕ) (skip : List Str) (es : List Entry)
      → contains skip (node_hash es) ≡ false
      → write_tree_bytes node_hash max_tree_entries skip es ≡ (
          lift (validate_tree_node es)
          >> (modify (store_node (node_hash es) es) >> pure (node_hash es)))
  unfolding write_tree_bytes
  write-new max skip es k = rw k refl

  pub write_tree_bytes-IsMonotone :
      (max_tree_entries : ℕ) (skip : List Str) (es : List Entry)
      → IsMonotone (write_tree_bytes node_hash max_tree_entries skip es)
  unfolding write_tree_bytes
  write_tree_bytes-IsMonotone max skip es =
      bind-IsMonotone (lift (validate_tree_node es)) _ (lift-IsMonotone (validate_tree_node es))
        (λ _.
          elim-IsMonotone (contains skip (node_hash es)) (pure-IsMonotone (node_hash es))
            (λ w h w' y.
              subst (Grows w) (pure-Yields (node_hash es) h (store_node (node_hash es) es w) w' y).1
                (store_node-Grows es w)))

  -- A call that writes a node or finds it among the known ones.
  pub write_tree_bytes-stored :
      (max_tree_entries : ℕ) (skip : List Str) (es : List Entry) (w : Writer) (h : Str)
      (w' : Writer)
      → IsInjective
      → Consistent w.nodes
      → ((k : Str) → In k skip → IsKnown w.nodes k)
      → Yields (write_tree_bytes node_hash max_tree_entries skip es) w h w'
      → (get w'.nodes h ≡ some es) × (is_valid_from none es ≡ true)
  write_tree_bytes-stored max skip es w h w' inj c known y =
      elim (Bool-cases (contains skip (node_hash es))) [
        | inl k ↦
            let (_, t, v, e) =
              bind-Yields (lift (validate_tree_node es)) (λ _. pure (node_hash es)) w h w'
                (sym (ap (λ m. m w) (write-known max skip es k)) ∙ y) in
            let (ok_h, ok_w) = pure-Yields (node_hash es) h t w' e in
            let same = ap (λ x. x.1) v ∙ ok_w in
            let (ys, q) = known (node_hash es) ((contains-In skip (node_hash es)).0 k) in
            (
              ap (get w'.nodes) (sym ok_h)
                  ∙ subst (λ u. get u.nodes (node_hash es) ≡ some es) same
                      (q ∙ ap some (inj ys es (c (node_hash es) ys q))),
              validate-valid es (ap (λ x. x.0) v),
            )
        | inr k ↦
            let (_, t, v, e) =
              bind-Yields (lift (validate_tree_node es))
                (λ _. modify (store_node (node_hash es) es) >> pure (node_hash es)) w h w'
                (sym (ap (λ m. m w) (write-new max skip es k)) ∙ y) in
            let (ok_h, ok_w) = pure-Yields (node_hash es) h (store_node (node_hash es) es t) w' e in
            let same = ap (store_node (node_hash es) es) (ap (λ x. x.1) v) ∙ ok_w in
            (
              ap (get w'.nodes) (sym ok_h)
                  ∙ subst (λ u. get u.nodes (node_hash es) ≡ some es) same
                      (get-store_node inj w es c),
              validate-valid es (ap (λ x. x.0) v),
            )
      ]
