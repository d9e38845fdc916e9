-- ===== src/Gc/Harvest.antt =====
-- The blobs and footers that the reachable tree nodes refer to.
use reflake.Prelude.{
  Str, List, [], ◌∷◌, In, ◌≡◌, ◌≢◌, refl, subst, ◌↔◌, ◌⊎◌, inl, inr, ⊎_elim, Option, none, some,
  false, Bool-cases, contains-In, list_eq, nat_eq, arith,
}
use reflake.Domain.{CommitObject, Result, ok}
use reflake.Trees.Entry.{Entry, is_subtree, blob_hash}
use reflake.Gc.Mark.{add, add_truthy, harvest_entries, harvest}

add_truthy_lem :
    (o : Option Str) (xs : List Str) (b : Str)
    → In b (add_truthy o xs) ↔ (In b xs ⊎ ((o ≡ some b) × (b ≢ [])))
unfolding add_truthy add
add_truthy_lem none xs b = ground arith
add_truthy_lem (some []) xs b = ground arith
add_truthy_lem (some (c ∷ s)) xs b = ground (arith, contains-In xs (c ∷ s))

-- A leaf entry of the list refers to the object.
abbrev pub Refers : (Entry → Option Str) → List Entry → Str → Type 0
Refers part [] b = ⊥
Refers part (e ∷ es) b = ((is_subtree e ≡ false) × (part e ≡ some b) × (b ≢ [])) ⊎ Refers part es b

module _ (read_commit : Str → Result CommitObject)
    (load_entries : Str → Result (Option (List Entry))) where
  harvest_entries_lem :
      (es : List Entry) (blobs footers : List Str) (b : Str)
      → let (blobs', footers') = harvest_entries read_commit load_entries es blobs footers in
        (In b blobs' ↔ (In b blobs ⊎ Refers blob_hash es b))
        × (In b footers' ↔ (In b footers ⊎ Refers (λ e. e.footer) es b))
  unfolding harvest_entries
  harvest_entries_lem [] blobs footers b = ground arith
  harvest_entries_lem (e ∷ es) blobs footers b = elim (Bool-cases (is_subtree e)) [
    | inl y ↦ let h = harvest_entries_lem es blobs footers b in rw y (ground (arith, h))
    | inr n ↦
        let h =
          harvest_entries_lem es (add_truthy (blob_hash e) blobs) (add_truthy e.footer footers) b in
        rw n (
          ground
            (arith, h, add_truthy_lem (blob_hash e) blobs b, add_truthy_lem e.footer footers b))
  ]

  -- A node of the list refers to the object.
  abbrev pub IsKept : (Entry → Option Str) → List Str → Str → Type 0
  IsKept part trees b =
      (t : Str) × (es : List Entry) × In t trees
      × (load_entries t ≡ ok (some es))
      × Refers part es b

  IsKept-cons :
      (part : Entry → Option Str) (t : Str) (trees : List Str) (b : Str)
      → IsKept part trees b
      → IsKept part (t ∷ trees) b
  IsKept-cons part t trees b (t', es, m, e, r) = (t', es, inr m, e, r)

  IsKept-none :
      (part : Entry → Option Str) (t : Str) (trees : List Str) (b : Str)
      → load_entries t ≡ ok none
      → IsKept part (t ∷ trees) b
      → IsKept part trees b
  IsKept-none part t trees b h (t', es, inl same, e, r) = cc
  IsKept-none part t trees b h (t', es, inr m, e, r) = (t', es, m, e, r)

  IsKept-some :
      (part : Entry → Option Str) (t : Str) (entries : List Entry) (trees : List Str) (b : Str)
      → load_entries t ≡ ok (some entries)
      → IsKept part (t ∷ trees) b
      → Refers part entries b ⊎ IsKept part trees b
  IsKept-some part t entries trees b h (t', es, inl same, e, r) =
      inl (subst (λ x. Refers part x b) (one e) r)
    where
      one : load_entries t' ≡ ok (some es) → es ≡ entries
      one e = cc
  IsKept-some part t entries trees b h (t', es, inr m, e, r) = inr (t', es, m, e, r)

  -- If every listed tree node can be read, the harvest returns exactly the blobs and the footers
  -- that a leaf of one of the nodes refers to, besides those that it began with.
  pub harvest_lem :
      (trees blobs footers : List Str)
      → ((t : Str) → In t trees → (o : Option (List Entry)) × (load_entries t ≡ ok o))
      → (blobs' footers' : List Str) × (harvest read_commit load_entries trees blobs footers
          ≡ ok (blobs', footers'))
        × ((b : Str) → In b blobs' ↔ (In b blobs ⊎ IsKept blob_hash trees b))
        × ((b : Str) → In b footers' ↔ (In b footers ⊎ IsKept (λ e. e.footer) trees b))
  unfolding harvest
  harvest_lem [] blobs footers loads = (
    blobs,
    footers,
    refl,
    (λ b. (inl, ⊎_elim (λ m. m) (λ (t, es, m, e, r). absurd m))),
    (λ b. (inl, ⊎_elim (λ m. m) (λ (t, es, m, e, r). absurd m))),
  )
  harvest_lem (t ∷ trees) blobs footers loads =
      node (λ bs fs. harvest_lem trees bs fs (λ t' m. loads t' (inr m))) (loads t (inl refl))
    where
      node :
          ((blobs footers : List Str)
            → (blobs' footers' : List Str) × (harvest read_commit load_entries trees blobs footers
                ≡ ok (blobs', footers'))
              × ((b : Str) → In b blobs' ↔ (In b blobs ⊎ IsKept blob_hash trees b))
              × ((b : Str) → In b footers' ↔ (In b footers ⊎ IsKept (λ e. e.footer) trees b)))
          → (o : Option (List Entry)) × (load_entries t ≡ ok o)
          → (blobs' footers' : List Str) × (harvest read_commit load_entries
                (t ∷ trees)
                blobs
                footers
              ≡ ok (blobs', footers'))
            × ((b : Str) → In b blobs' ↔ (In b blobs ⊎ IsKept blob_hash (t ∷ trees) b))
            × ((b : Str) → In b footers' ↔ (In b footers ⊎ IsKept (λ e. e.footer) (t ∷ trees) b))
      node others (none, e) =
          let (bs, fs, r, hb, hf) = others blobs footers in
          (
            bs,
            fs,
            rw (e, harvest) r,
            (λ b. (
              λ m. ⊎_elim inl (λ k. inr (IsKept-cons blob_hash t trees b k)) ((hb b).0 m),
              λ m. (hb b).1 (⊎_elim inl (λ k. inr (IsKept-none blob_hash t trees b e k)) m),
            )),
            (λ b. (
              λ m. ⊎_elim inl (λ k. inr (IsKept-cons (λ e. e.footer) t trees b k)) ((hf b).0 m),
              λ m. (hf b).1 (⊎_elim inl (λ k. inr (IsKept-none (λ e. e.footer) t trees b e k)) m),
            )),
          )
      node others (some es, e) =
          let here = harvest_entries read_commit load_entries es blobs footers in
          let (bs, fs, r, hb, hf) = others here.0 here.1 in
          (
            bs,
            fs,
            rw (e, harvest) r,
            (λ b.
                combine blob_hash es e b bs here.0 blobs (hb b)
                  (harvest_entries_lem es blobs footers b).0),
            (λ b.
                combine (λ e. e.footer) es e b fs here.1 footers (hf b)
                  (harvest_entries_lem es blobs footers b).1),
          )
        where
          combine :
              (part : Entry → Option Str) (es : List Entry)
              → load_entries t ≡ ok (some es)
              → (b : Str) (after between before : List Str)
              → In b after ↔ (In b between ⊎ IsKept part trees b)
              → In b between ↔ (In b before ⊎ Refers part es b)
              → In b after ↔ (In b before ⊎ IsKept part (t ∷ trees) b)
          combine part es e b after between before h h' = (
            λ m.
                ⊎_elim (λ n. ⊎_elim inl (λ k. inr (t, es, inl refl, e, k)) (h'.0 n))
                  (λ k. inr (IsKept-cons part t trees b k)) (h.0 m),
            λ m. h.1 (
                ⊎_elim (λ n. inl (h'.1 (inl n)))
                  (λ k. ⊎_elim (λ q. inl (h'.1 (inr q))) inr (IsKept-some part t es trees b e k))
                  m),
          )
