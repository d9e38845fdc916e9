-- ===== src/Gc/Mark/Distinct.antt =====
-- The sets of the mark phase, which the model holds as lists, have no member twice.
use mathlib.Core.List.{reverse}
use reflake.Prelude.{
  Str, ℕ, zero, suc, List, [], ◌∷◌, ◌++◌, In, ◌≡◌, refl, sym, subst, ◌∙◌, inl, inr, Option, none,
  some, true, false, Bool-cases, contains, contains-In, list_eq, nat_eq,
}
use reflake.Domain.{CommitObject, Result, ok, ◌>>=◌}
use reflake.Trees.Entry.{Entry, is_subtree, blob_hash}
use reflake.Trees.Walker.Round.{bind-ok}
use reflake.Walk.{visit, walk}
use reflake.Gc.Mark.{add, add_truthy, next_trees, mark, harvest_entries, harvest}

-- No member of the list comes twice.
abbrev pub IsDistinct : List Str → Type 0
IsDistinct [] = Unit
IsDistinct (x ∷ xs) = (In x xs → ⊥) × IsDistinct xs

new-IsDistinct :
    (x : Str) (xs : List Str) → contains xs x ≡ false → IsDistinct xs → IsDistinct (x ∷ xs)
new-IsDistinct x xs e h = (λ m. cc ((contains-In xs x).1 m, e), h)

add-IsDistinct : (x : Str) (xs : List Str) → IsDistinct xs → IsDistinct (add x xs)
unfolding add
add-IsDistinct x xs h = elim (Bool-cases (contains xs x)) [
  | inl e ↦ rw (e, add) h
  | inr e ↦ rw (e, add) (new-IsDistinct x xs e h)
]

add_truthy-IsDistinct :
    (o : Option Str) (xs : List Str) → IsDistinct xs → IsDistinct (add_truthy o xs)
unfolding add_truthy
add_truthy-IsDistinct none xs h = h
add_truthy-IsDistinct (some []) xs h = h
add_truthy-IsDistinct (some (c ∷ s)) xs h = add-IsDistinct (c ∷ s) xs h

ok_pair :
    {xs ys xs' ys' : List Str}
    → ◌≡◌ {A = Result (List Str × List Str)} (ok (xs, ys)) (ok (xs', ys'))
    → (xs ≡ xs') × (ys ≡ ys')
ok_pair e = (cc e, cc e)

module _ (next : Str → Result (List Str)) where
  visit-IsDistinct :
      (x : Str) (seen rest seen' rest' : List Str)
      → IsDistinct seen
      → visit next x seen rest ≡ ok (seen', rest')
      → IsDistinct seen'
  unfolding visit
  visit-IsDistinct x seen rest seen' rest' h e = elim (Bool-cases (contains seen x)) [
    | inl known ↦ subst IsDistinct (ok_pair (sym (old known) ∙ e)).0 h
    | inr fresh ↦
        let (more, r, q) =
          bind-ok (next x) (λ more. ok (x ∷ seen, reverse more ++ rest)) (seen', rest')
            (sym (new fresh) ∙ e) in
        subst IsDistinct (ok_pair q).0 (new-IsDistinct x seen fresh h)
  ]
    where
      old : contains seen x ≡ true → visit next x seen rest ≡ ok (seen, rest)
      old k = rw (k, visit) refl

      new :
          contains seen x ≡ false
          → visit next x seen rest ≡ (next x >>= λ more. ok (x ∷ seen, reverse more ++ rest))
      new k = rw (k, visit) refl

  pub walk-IsDistinct :
      (fuel : ℕ) (seen stack out : List Str)
      → IsDistinct seen
      → walk next fuel seen stack ≡ ok out
      → IsDistinct out
  unfolding walk
  walk-IsDistinct zero seen stack out h e = absurd (cc e)
  walk-IsDistinct (suc fuel) seen [] out h e = subst IsDistinct (cc e) h
  walk-IsDistinct (suc fuel) seen (x ∷ rest) out h e =
      let ((seen', rest'), r, q) =
        bind-ok (visit next x seen rest) (λ (s, st). walk next fuel s st) out e in
      walk-IsDistinct fuel seen' rest' out (visit-IsDistinct x seen rest seen' rest' h r) q

module _ (read_commit : Str → Result CommitObject)
    (load_entries : Str → Result (Option (List Entry))) where
  pub mark-IsDistinct :
      (tree_fuel fuel : ℕ) (commits trees pending commits' trees' : List Str)
      → IsDistinct commits
      → IsDistinct trees
      → mark read_commit load_entries tree_fuel fuel commits trees pending ≡ ok (commits', trees')
      → IsDistinct commits' × IsDistinct trees'
  unfolding mark
  mark-IsDistinct tree_fuel zero commits trees pending commits' trees' h k e = absurd (cc e)
  mark-IsDistinct tree_fuel (suc fuel) commits trees [] commits' trees' h k e =
      let (q, q') = ok_pair e in (subst IsDistinct q h, subst IsDistinct q' k)
  mark-IsDistinct tree_fuel (suc fuel) commits trees (x ∷ rest) commits' trees' h k e =
      elim (Bool-cases (contains commits x)) [
        | inl known ↦
            mark-IsDistinct tree_fuel fuel commits trees rest commits' trees' h k
              (sym (old known) ∙ e)
        | inr fresh ↦
            let (c, r, q) =
              bind-ok (read_commit x) onward (commits', trees') (sym (new fresh) ∙ e) in
            let (trees1, r1, q1) =
              bind-ok (walk (next_trees read_commit load_entries) tree_fuel trees (c.tree ∷ []))
                (further c) (commits', trees') q in
            mark-IsDistinct tree_fuel fuel (x ∷ commits) trees1 (reverse c.parents ++ rest) commits'
              trees' (new-IsDistinct x commits fresh h)
              (walk-IsDistinct (next_trees read_commit load_entries) tree_fuel trees (c.tree ∷ [])
                trees1 k r1)
              q1
      ]
    where
      further : CommitObject → List Str → Result (List Str × List Str)
      further c trees1 =
          mark read_commit load_entries tree_fuel fuel (x ∷ commits) trees1
            (reverse c.parents ++ rest)

      onward : CommitObject → Result (List Str × List Str)
      onward c =
          walk (next_trees read_commit load_entries) tree_fuel trees (c.tree ∷ []) >>= further c

      old :
          contains commits x ≡ true
          → mark read_commit load_entries tree_fuel (suc fuel) commits trees (x ∷ rest)
            ≡ mark read_commit load_entries tree_fuel fuel commits trees rest
      old known = rw (known, mark) refl

      new :
          contains commits x ≡ false
          → mark read_commit load_entries tree_fuel (suc fuel) commits trees (x ∷ rest)
            ≡ (read_commit x >>= onward)
      new fresh = rw (fresh, mark) refl

  harvest_entries-IsDistinct :
      (es : List Entry) (blobs footers : List Str)
      → IsDistinct blobs
      → IsDistinct footers
      → let (blobs', footers') = harvest_entries read_commit load_entries es blobs footers in
        IsDistinct blobs' × IsDistinct footers'
  unfolding harvest_entries
  harvest_entries-IsDistinct [] blobs footers h k = (h, k)
  harvest_entries-IsDistinct (e ∷ es) blobs footers h k = elim (Bool-cases (is_subtree e)) [
    | inl y ↦ rw (y, harvest_entries) (harvest_entries-IsDistinct es blobs footers h k)
    | inr n ↦
        rw (n, harvest_entries)
          (harvest_entries-IsDistinct es (add_truthy (blob_hash e) blobs)
            (add_truthy e.footer footers) (add_truthy-IsDistinct (blob_hash e) blobs h)
            (add_truthy-IsDistinct e.footer footers k))
  ]

  harvest-none :
      (t : Str) (trees blobs footers : List Str)
      → load_entries t ≡ ok none
      → harvest read_commit load_entries (t ∷ trees) blobs footers
        ≡ harvest read_commit load_entries trees blobs footers
  unfolding harvest
  harvest-none t trees blobs footers l = rw (l, harvest) refl

  harvest-some :
      (t : Str) (es : List Entry) (trees blobs footers : List Str)
      → load_entries t ≡ ok (some es)
      → let (bs, fs) = harvest_entries read_commit load_entries es blobs footers in
        harvest read_commit load_entries (t ∷ trees) blobs footers
        ≡ harvest read_commit load_entries trees bs fs
  unfolding harvest
  harvest-some t es trees blobs footers l = rw (l, harvest) refl

  pub harvest-IsDistinct :
      (trees blobs footers blobs' footers' : List Str)
      → IsDistinct blobs
      → IsDistinct footers
      → harvest read_commit load_entries trees blobs footers ≡ ok (blobs', footers')
      → IsDistinct blobs' × IsDistinct footers'
  unfolding harvest
  harvest-IsDistinct [] blobs footers blobs' footers' h k e =
      let (q, q') = ok_pair e in (subst IsDistinct q h, subst IsDistinct q' k)
  harvest-IsDistinct (t ∷ trees) blobs footers blobs' footers' h k e =
      let (o, l, q) = bind-ok (load_entries t) _ (blobs', footers') e in
      go (λ bs fs. harvest-IsDistinct trees bs fs blobs' footers') o l
    where
      go :
          ((bs fs : List Str)
            → IsDistinct bs
            → IsDistinct fs
            → harvest read_commit load_entries trees bs fs ≡ ok (blobs', footers')
            → IsDistinct blobs' × IsDistinct footers')
          → (o : Option (List Entry)) → load_entries t ≡ ok o
          → IsDistinct blobs' × IsDistinct footers'
      go others none l = others blobs footers h k (sym (harvest-none t trees blobs footers l) ∙ e)
      go others (some es) l =
          let here = harvest_entries read_commit load_entries es blobs footers in
          let (h', k') = harvest_entries-IsDistinct es blobs footers h k in
          others here.0 here.1 h' k' (sym (harvest-some t es trees blobs footers l) ∙ e)
