-- ===== src/Gc/Entries.antt =====
-- The subtrees, blobs and footers that `gc` of core/repository.py takes from the entries of a node, by
-- the kinds of the entries.
use mathlib.Core.Option.{some-injective}
use reflake.Prelude.{
  Str, List, [], ◌∷◌, In, ◌≡◌, ◌≢◌, refl, sym, ap, subst, ◌∙◌, ◌↔◌, ◌⊎◌, inl, inr, ⊎_elim, Option,
  none, some, true, false, Bool-cases, list_eq, nat_eq,
}
use reflake.Trees.Entry.{Entry, EntryKind, is_subtree, is_subtree_kind, is_content}
use reflake.Gc.Mark.{subtree_hashes}
use reflake.Gc.Harvest.{Refers}

-- The entry is a directory's or a shard's.
abbrev pub IsSubtree : Entry → Type 0
IsSubtree e = (e.kind ≡ EntryKind.tree) ⊎ (e.kind ≡ EntryKind.shard)

-- The entry's file is stored as a blob.
abbrev pub IsContent : Entry → Type 0
IsContent e = (e.kind ≡ EntryKind.blob) ⊎ (e.kind ≡ EntryKind.bp)

subtree_kind :
    (k : EntryKind) → (is_subtree_kind k ≡ true) ↔ ((k ≡ EntryKind.tree) ⊎ (k ≡ EntryKind.shard))
subtree_kind EntryKind.blob = (λ h. cc, λ h. elim h [ inl e ↦ cc | inr e ↦ cc ])
subtree_kind EntryKind.meta = (λ h. cc, λ h. elim h [ inl e ↦ cc | inr e ↦ cc ])
subtree_kind EntryKind.bp = (λ h. cc, λ h. elim h [ inl e ↦ cc | inr e ↦ cc ])
subtree_kind EntryKind.mp = (λ h. cc, λ h. elim h [ inl e ↦ cc | inr e ↦ cc ])
subtree_kind EntryKind.tree = (λ h. inl refl, λ h. refl)
subtree_kind EntryKind.shard = (λ h. inr refl, λ h. refl)

pub content_kind :
    (k : EntryKind) (h b : Str)
    → ((is_subtree_kind k ≡ false)
        × (elim (is_content k) [ true ↦ some h | false ↦ none ] ≡ some b))
      ↔ (((k ≡ EntryKind.blob) ⊎ (k ≡ EntryKind.bp)) × (h ≡ b))
content_kind EntryKind.blob h b =
    (λ (_, e). (inl refl, some-injective h b e), λ (_, e). (refl, ap some e))
content_kind EntryKind.bp h b =
    (λ (_, e). (inr refl, some-injective h b e), λ (_, e). (refl, ap some e))
content_kind EntryKind.meta h b =
    (λ (_, e). absurd (cc e), λ (k, _). elim k [ inl e ↦ cc | inr e ↦ cc ])
content_kind EntryKind.mp h b =
    (λ (_, e). absurd (cc e), λ (k, _). elim k [ inl e ↦ cc | inr e ↦ cc ])
content_kind EntryKind.tree h b =
    (λ (s, _). absurd (cc s), λ (k, _). elim k [ inl e ↦ cc | inr e ↦ cc ])
content_kind EntryKind.shard h b =
    (λ (s, _). absurd (cc s), λ (k, _). elim k [ inl e ↦ cc | inr e ↦ cc ])

pub leaf_kind : (e : Entry) → (is_subtree e ≡ false) ↔ (IsSubtree e → ⊥)
leaf_kind e = (
  λ n s. cc ((subtree_kind e.kind).1 s, n),
  λ h. elim (Bool-cases (is_subtree e)) [
    | inl y ↦ absurd (h ((subtree_kind e.kind).0 y))
    | inr n ↦ n
  ],
)

pub In-subtree_hashes :
    (es : List Entry) (h : Str)
    → In h (subtree_hashes es) ↔ ((e : Entry) × In e es × IsSubtree e × (h ≡ e.hash))
unfolding subtree_hashes
In-subtree_hashes [] h = (λ m. absurd m, λ (e, m, s, q). absurd m)
In-subtree_hashes (x ∷ es) h = elim (Bool-cases (is_subtree x)) [
  | inl y ↦
      rw (y, subtree_hashes)
        (
          λ m.
              ⊎_elim (λ q. (x, inl refl, (subtree_kind x.kind).0 y, q))
                (λ n. later ((In-subtree_hashes es h).0 n)) m,
          λ (e, m, s, q).
              ⊎_elim (λ same. inl (q ∙ ap (λ z. z.hash) same))
                (λ n. inr ((In-subtree_hashes es h).1 (e, n, s, q))) m,
        )
  | inr n ↦
      rw (n, subtree_hashes)
        (
          λ m. later ((In-subtree_hashes es h).0 m),
          λ (e, m, s, q).
              ⊎_elim (λ same. absurd (leaf e same s n))
                (λ k. (In-subtree_hashes es h).1 (e, k, s, q)) m,
        )
]
  where
    later :
        ((e : Entry) × In e es × IsSubtree e × (h ≡ e.hash))
        → (e : Entry) × In e (x ∷ es) × IsSubtree e × (h ≡ e.hash)
    later (e, m, s, q) = (e, inr m, s, q)

    leaf : (e : Entry) → e ≡ x → IsSubtree e → is_subtree x ≡ false → ⊥
    leaf e same s n = cc ((subtree_kind x.kind).1 (subst IsSubtree same s), n)

pub In-Refers :
    (part : Entry → Option Str) (es : List Entry) (b : Str)
    → Refers part es b
      ↔ ((e : Entry) × In e es × (is_subtree e ≡ false) × (part e ≡ some b) × (b ≢ []))
In-Refers part [] b = (λ m. absurd m, λ (e, m, n, p, f). absurd m)
In-Refers part (x ∷ es) b = (
  λ r.
      ⊎_elim (λ (n, p, f). (x, inl refl, n, p, f))
        (λ k. (let (e, m, n, p, f) = (In-Refers part es b).0 k in (e, inr m, n, p, f))) r,
  λ (e, m, n, p, f).
      ⊎_elim (λ same. inl (ap is_subtree (sym same) ∙ n, ap part (sym same) ∙ p, f))
        (λ k. inr ((In-Refers part es b).1 (e, k, n, p, f))) m,
)
