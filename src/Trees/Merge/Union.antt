-- ===== src/Trees/Merge/Union.antt =====
-- The names of three nodes together, and what is merged at each.
use reflake.Prelude.{
  Str, List, [], ◌∷◌, ◌++◌, Option, none, some, true, false, ◌≡◌, ◌≢◌, refl, sym, ap, subst, ◌∙◌,
  ◌⊎◌, inl, inr, In, In-append, All, slash, contains, contains-In, Bool-cases, list_eq, nat_eq,
  option_eq,
}
use reflake.Prelude.Dict.{Dict, get, keys, In-keys}
use reflake.Trees.Entry.{Entry}
use reflake.Trees.Node.{Nodes, is_valid_from, by_name}
use reflake.Trees.Writer.Stored.{Extends}
use reflake.Trees.Merge.{sorted_set}
use reflake.Trees.Merge.Names.{find, get-by_name, In-sorted_set}
use reflake.Trees.Merge.View.{File, below, view, IsMerged}
use reflake.Trees.Merge.Child.{IsNamed}
use reflake.Trees.Merge.Loop.{MergedAt, Gathers}
use reflake.Trees.Merge.Read.{find-flat}

pub IsMerged-cong :
    (b o t r b' o' t' r' : Option File)
    → b ≡ b'
    → o ≡ o'
    → t ≡ t'
    → r ≡ r'
    → IsMerged b o t r
    → IsMerged b' o' t' r'
IsMerged-cong b o t r b' o' t' r' pb po pt pr (inl (e, f)) = inl (sym po ∙ e ∙ pt, sym pr ∙ f ∙ po)
IsMerged-cong b o t r b' o' t' r' pb po pt pr (inr (inl (e, f))) =
    inr (inl (sym po ∙ e ∙ pb, sym pr ∙ f ∙ pt))
IsMerged-cong b o t r b' o' t' r' pb po pt pr (inr (inr (e, f))) =
    inr (inr (sym pt ∙ e ∙ pb, sym pr ∙ f ∙ po))

pub All-In {κ} : (P : Str → Type κ) (xs : List Str) → ((x : Str) → In x xs → P x) → All P xs
All-In P [] h = tt
All-In P (x ∷ xs) h = (h x (inl refl), All-In P xs (λ y m. h y (inr m)))

-- The names of three nodes.
module _ (b o t : Dict Str Entry) where
  abbrev pub names : List Str
  names = sorted_set (keys b ++ (keys o ++ keys t))

  In-names : (n : Str) → In n names → (get b n ≢ none) ⊎ (get o n ≢ none) ⊎ (get t n ≢ none)
  In-names n m =
      elim ((In-append n (keys b) (keys o ++ keys t)).0
        ((In-sorted_set n (keys b ++ (keys o ++ keys t))).0 m)) [
          | inl k ↦ inl ((In-keys b n).0 k)
          | inr k ↦ elim ((In-append n (keys o) (keys t)).0 k) [
            | inl l ↦ inr (inl ((In-keys o n).0 l))
            | inr l ↦ inr (inr ((In-keys t n).0 l))
          ]
        ]

  pub names-In : (n : Str) → (get b n ≢ none) ⊎ (get o n ≢ none) ⊎ (get t n ≢ none) → In n names
  names-In n h = (In-sorted_set n (keys b ++ (keys o ++ keys t))).1 (
      (In-append n (keys b) (keys o ++ keys t)).1 (elim h [
        | inl k ↦ inl ((In-keys b n).1 k)
        | inr (inl k) ↦ inr ((In-append n (keys o) (keys t)).1 (inl ((In-keys o n).1 k)))
        | inr (inr k) ↦ inr ((In-append n (keys o) (keys t)).1 (inr ((In-keys t n).1 k)))
      ]))

  absent : (d : Option Entry) → ((d ≢ none) → ⊥) → d ≡ none
  absent none h = refl
  absent (some e) h = absurd (h (λ q. cc q))

  pub merged_at :
      (nodes : Nodes) (out : List Entry)
      → Gathers b o t names nodes out
      → (late : Nodes) → Extends nodes late
      → (n : Str) (parts : List Str) → MergedAt b o t late parts n (find out n)
  merged_at nodes out (_, _, gone, me) late ext n parts = elim (Bool-cases (contains names n)) [
    | inl m ↦ me late ext n ((contains-In names n).0 m) parts
    | inr m ↦
        let out_of : In n names → ⊥ = λ k. cc ((contains-In names n).1 k, m) in
        let eo = absent (get o n) (λ k. out_of (names-In n (inr (inl k)))) in
        let et = absent (get t n) (λ k. out_of (names-In n (inr (inr k)))) in
        inl (
          ap (below (view late parts) parts) (eo ∙ sym et),
          ap (below (view late parts) parts) (gone n out_of ∙ sym eo),
        )
  ]

pub by_name-IsNamed :
    (es : List Entry) (n : Str) → is_valid_from none es ≡ true → IsNamed n (get (by_name es) n)
by_name-IsNamed es n v = subst (IsNamed n) (sym (get-by_name es n)) (find-flat es n v).0

pub by_name-flat :
    (es : List Entry) (n : Str)
    → is_valid_from none es ≡ true
    → (get (by_name es) n ≢ none)
    → contains n slash ≡ false
by_name-flat es n v h = (find-flat es n v).1 (λ q. h (get-by_name es n ∙ q))

pub names-flat :
    (bes oes tes : List Entry)
    → is_valid_from none bes ≡ true
    → is_valid_from none oes ≡ true
    → is_valid_from none tes ≡ true
    → All (λ n. contains n slash ≡ false) (names (by_name bes) (by_name oes) (by_name tes))
names-flat bes oes tes bv ov tv =
    All-In (λ n. contains n slash ≡ false) (names (by_name bes) (by_name oes) (by_name tes))
      (λ n m. elim (In-names (by_name bes) (by_name oes) (by_name tes) n m) [
        | inl h ↦ by_name-flat bes n bv h
        | inr (inl h) ↦ by_name-flat oes n ov h
        | inr (inr h) ↦ by_name-flat tes n tv h
      ])
