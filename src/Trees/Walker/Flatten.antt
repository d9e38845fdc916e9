-- ===== src/Trees/Walker/Flatten.antt =====
-- The walks yield what a recursive flattening of the tree gives.
use reflake.Prelude.{
  Str, ℕ, zero, suc, List, [], ◌∷◌, ◌++◌, ◌≡◌, refl, sym, ap, Bool, true, false, if◌then◌else◌,
  arith,
}
use reflake.Domain.{Result, ok, raise, diverge, ◌>>=◌}
use reflake.Trees.Entry.{Entry, is_subtree}
use reflake.Trees.Walker.{child_prefix}

abbrev pub Found : Type 0
Found = List (Str × Entry)

-- The leaves below a node, each with its full path, the subtrees opened in place.
unfoldable pub flatten_entries : (Str → Str → Result Found) → Str → List Entry → Result Found
flatten_entries below prefix [] = ok []
flatten_entries below prefix (e ∷ es) = elim (is_subtree e) [
  | true ↦ below e.hash (child_prefix prefix e) >>= λ inner.
      flatten_entries below prefix es >>= λ found. ok (inner ++ found)
  | false ↦ flatten_entries below prefix es >>= λ found. ok ((prefix ++ e.path, e) ∷ found)
]

-- The leaves of a tree, the deepest `depth` levels below the root.
unfoldable pub flatten : (Str → Result (List Entry)) → ℕ → Str → Str → Result Found
unfolding flatten_entries
flatten load zero hash prefix = diverge
flatten load (suc depth) hash prefix = load hash >>= flatten_entries (flatten load depth) prefix

abbrev pub filter_paths : (Str → Bool) → Found → Found
filter_paths wanted [] = []
filter_paths wanted ((path, e) ∷ found) =
    let rest = filter_paths wanted found in if wanted path then (path, e) ∷ rest else rest

pub filter_paths-append :
    (wanted : Str → Bool) (xs ys : Found)
    → filter_paths wanted (xs ++ ys) ≡ filter_paths wanted xs ++ filter_paths wanted ys
filter_paths-append wanted [] ys = refl
filter_paths-append wanted ((p, e) ∷ xs) ys = ground (arith, filter_paths-append wanted xs ys)

pub append_assoc : (xs ys zs : Found) → (xs ++ ys) ++ zs ≡ xs ++ (ys ++ zs)
append_assoc [] ys zs = refl
append_assoc (x ∷ xs) ys zs = ap (λ l. x ∷ l) (append_assoc xs ys zs)

abbrev pub prepend : Found → Result Found → Result Found
prepend xs r = r >>= λ more. ok (xs ++ more)

pub prepend-nil : (r : Result Found) → prepend [] r ≡ r
prepend-nil (ok more) = refl
prepend-nil (raise e) = refl
prepend-nil diverge = refl

pub prepend-append :
    (xs ys : Found) (r : Result Found) → prepend xs (prepend ys r) ≡ prepend (xs ++ ys) r
prepend-append xs ys (ok more) = ap ok (sym (append_assoc xs ys more))
prepend-append xs ys (raise e) = refl
prepend-append xs ys diverge = refl
