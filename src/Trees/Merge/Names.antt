-- ===== src/Trees/Merge/Names.antt =====
-- The names that a merge goes through, and the children of a node by their names.
use reflake.Prelude.{
  Str, List, [], ◌∷◌, Option, none, some, true, false, ◌≡◌, refl, ◌∙◌, Bool-cases, inl, inr, ◌↔◌,
  ◌⊎◌, In, All, ◌==◌, ==_iff, str_lt, if◌then◌else◌, list_eq, nat_eq, arith,
}
use reflake.Prelude.Dict.{Dict, get, put, get-put, get-nil}
use reflake.Prelude.Order.{IsAscending, below-All, str_lt-total}
use reflake.Trees.Entry.{Entry}
use reflake.Trees.Node.{by_name, by_name_onto}
use reflake.Trees.Merge.{insert_name, sorted_set}

In-insert_name : (n x : Str) (xs : List Str) → In n (insert_name x xs) ↔ ((n ≡ x) ⊎ In n xs)
unfolding insert_name
In-insert_name n x [] = (λ h. h, λ h. h)
In-insert_name n x (y ∷ xs) = ground (arith, In-insert_name n x xs, ==_iff x y)

pub In-sorted_set : (n : Str) (xs : List Str) → In n (sorted_set xs) ↔ In n xs
unfolding sorted_set
In-sorted_set n [] = (λ h. h, λ h. h)
In-sorted_set n (x ∷ xs) = ground (arith, In-insert_name n x (sorted_set xs), In-sorted_set n xs)

insert_name-above :
    (x y : Str) (ys : List Str)
    → str_lt x y ≡ true
    → All (λ z. str_lt x z ≡ true) ys
    → All (λ z. str_lt x z ≡ true) (insert_name y ys)
unfolding insert_name
insert_name-above x y [] h k = (h, tt)
insert_name-above x y (z ∷ ys) h (k, ks) = elim (Bool-cases (y == z)) [
  | inl e ↦ rw e (k, ks)
  | inr e ↦ elim (Bool-cases (str_lt z y)) [
    | inl l ↦ rw (e, l) (k, insert_name-above x y ys h ks)
    | inr l ↦ rw (e, l) (h, (k, ks))
  ]
]

insert_name-IsAscending :
    (x : Str) (xs : List Str) → IsAscending xs → IsAscending (insert_name x xs)
unfolding insert_name
insert_name-IsAscending x [] h = (tt, tt)
insert_name-IsAscending x (y ∷ xs) (h, hs) = elim (Bool-cases (x == y)) [
  | inl e ↦ rw e (h, hs)
  | inr e ↦ elim (Bool-cases (str_lt y x)) [
    | inl l ↦ rw (e, l) (insert_name-above y x xs l h, insert_name-IsAscending x xs hs)
    | inr l ↦
        let less : str_lt x y ≡ true = above e l in
        rw (e, l) ((less, below-All x y xs less h), (h, hs))
  ]
]
  where
    above : (x == y) ≡ false → str_lt y x ≡ false → str_lt x y ≡ true
    above e l = elim (Bool-cases (str_lt x y)) [
      | inl t ↦ t
      | inr f ↦ absurd (cc (e, (==_iff x y).1 (str_lt-total x y f l)))
    ]

pub sorted_set-IsAscending : (xs : List Str) → IsAscending (sorted_set xs)
unfolding sorted_set
sorted_set-IsAscending [] = tt
sorted_set-IsAscending (x ∷ xs) =
    insert_name-IsAscending x (sorted_set xs) (sorted_set-IsAscending xs)

-- The child of a node with a name; of two, the last.
unfoldable pub find : List Entry → Str → Option Entry
find [] name = none
find (e ∷ es) name = elim (find es name) [
  | some x ↦ some x
  | none ↦ if name == e.path then some e else none
]

get-by_name_onto :
    (d : Dict Str Entry) (es : List Entry) (name : Str)
    → get (by_name_onto d es) name ≡ elim (find es name) [ some x ↦ some x | none ↦ get d name ]
unfolding by_name_onto find
get-by_name_onto d [] name = refl
get-by_name_onto d (e ∷ es) name =
    get-by_name_onto (put d e.path e) es name ∙ go (find es name) refl
  where
    go :
        (o : Option Entry)
        → find es name ≡ o
        → elim (find es name) [ some x ↦ some x | none ↦ get (put d e.path e) name ]
          ≡ elim (find (e ∷ es) name) [ some x ↦ some x | none ↦ get d name ]
    go (some x) q = rw (q, find) refl
    go none q = elim (Bool-cases (name == e.path)) [
      | inl y ↦ rw (q, find, get-put d e.path name e, y) refl
      | inr y ↦ rw (q, find, get-put d e.path name e, y) refl
    ]

pub get-by_name : (es : List Entry) (name : Str) → get (by_name es) name ≡ find es name
unfolding by_name
get-by_name es name = get-by_name_onto [] es name ∙ go (find es name)
  where
    go :
        (o : Option Entry)
        → ◌≡◌ {A = Option Entry} (elim o [ some x ↦ some x | none ↦ get [] name ]) o
    go (some x) = refl
    go none = get-nil name
