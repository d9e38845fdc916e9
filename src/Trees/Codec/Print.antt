-- ===== src/Trees/Codec/Print.antt =====
-- `Entry.serialize` of core/entry_codec.py gives back the line that `Entry.parse` has read.
use reflake.Prelude.{
  Str, ℕ, List, [], ◌∷◌, map, Option, none, some, true, false, not, ==_iff, ◌≡◌, refl, sym, ap, ◌∙◌,
  inl, inr, lit, Bool-cases, Option-cases, list_eq, nat_eq, arith,
}
use reflake.Domain.{ok, raise, raise_if, value_error, ◌>>◌}
use reflake.Pruning.{ℤ, pos}
use reflake.Trees.Entry.{Entry, EntryKind, is_subtree_kind, kind_text, kind_of}
use reflake.Trees.Node.{subtree_line}
use reflake.Trees.Codec.{
  is_entry, checked, Json, text, number, leaf_tail, serialize, parse_tail, entry_from_leaf_payload,
  subtree_from_payload, parse,
}
use reflake.Trees.Codec.Round.{checked-ok, serialize-at, parse-kind}

-- A line of texts and natural numbers: the kind, the path and the hash, and for a leaf its size, its
-- time and the texts that follow.
abbrev pub line : Str → Str → Str → Option (ℕ × ℕ × List Str) → List Json
line kind path hash none = text kind ∷ text path ∷ text hash ∷ []
line kind path hash (some (size, mtime, texts)) =
    text kind ∷ text path ∷ text hash ∷ number (pos size) ∷ number (pos mtime) ∷ map text texts

kind_of-found : (s : Str) (k : EntryKind) → kind_of s ≡ some k → s ≡ kind_text k
kind_of-found s EntryKind.blob h = ground (arith, ==_iff s (lit "b"))
kind_of-found s EntryKind.meta h = ground (arith, ==_iff s (lit "m"))
kind_of-found s EntryKind.bp h = ground (arith, ==_iff s (lit "bp"))
kind_of-found s EntryKind.mp h = ground (arith, ==_iff s (lit "mp"))
kind_of-found s EntryKind.tree h = ground (arith, ==_iff s (lit "t"))
kind_of-found s EntryKind.shard h = ground (arith, ==_iff s (lit "s"))

checked-same : (e e' : Entry) → checked e ≡ ok e' → e ≡ e'
unfolding checked
checked-same e e' y = elim (Bool-cases (is_entry e)) [
  | inl h ↦ cc (sym (checked-ok e h) ∙ y)
  | inr h ↦
      let refused : raise (value_error "invalid entry") ≡ ok e' =
        ap (λ b. raise_if (not b) (value_error "invalid entry") >> ok e) (sym h) ∙ y in
      absurd (cc refused)
]

some_same : {x y : Option Str × Option Str × Option Str} → some x ≡ some y → x ≡ y
some_same e = cc

module _ (str_other : Json → Str) (int_other : Json → Option ℤ) where
  parse-unknown :
      (k : Str) (rest : List Json)
      → kind_of k ≡ none
      → parse str_other int_other (text k ∷ rest) ≡ raise (value_error "unsupported kind")
  unfolding parse
  parse-unknown k rest q =
      ap
        (λ o. elim o [
          | none ↦ raise (value_error "unsupported kind")
          | some k ↦ elim (is_subtree_kind k) [
            | true ↦ subtree_from_payload str_other int_other k rest
            | false ↦ entry_from_leaf_payload str_other int_other k rest
          ]
        ])
        q

  -- The optional fields are the texts at the end of the line.
  tail_back :
      (k : EntryKind) (texts : List Str) (s f t : Option Str)
      → parse_tail str_other int_other k (map text texts) ≡ some (s, f, t)
      → leaf_tail k s f t ≡ map text texts
  unfolding parse_tail leaf_tail
  tail_back EntryKind.blob [] s f t h = refl
  tail_back EntryKind.blob (a ∷ texts) s f t h = absurd (cc h)
  tail_back EntryKind.bp [] s f t h = absurd (cc h)
  tail_back EntryKind.bp (a ∷ []) s f t h =
      ap (λ (s, f, t). leaf_tail EntryKind.bp s f t) (sym (some_same h))
  tail_back EntryKind.bp (a ∷ b ∷ texts) s f t h = absurd (cc h)
  tail_back EntryKind.meta [] s f t h = absurd (cc h)
  tail_back EntryKind.meta (a ∷ []) s f t h =
      ap (λ (s, f, t). leaf_tail EntryKind.meta s f t) (sym (some_same h))
  tail_back EntryKind.meta (a ∷ b ∷ []) s f t h =
      ap (λ (s, f, t). leaf_tail EntryKind.meta s f t) (sym (some_same h))
  tail_back EntryKind.meta (a ∷ b ∷ c ∷ texts) s f t h = absurd (cc h)
  tail_back EntryKind.mp [] s f t h = absurd (cc h)
  tail_back EntryKind.mp (a ∷ []) s f t h = absurd (cc h)
  tail_back EntryKind.mp (a ∷ b ∷ []) s f t h =
      ap (λ (s, f, t). leaf_tail EntryKind.mp s f t) (sym (some_same h))
  tail_back EntryKind.mp (a ∷ b ∷ c ∷ []) s f t h =
      ap (λ (s, f, t). leaf_tail EntryKind.mp s f t) (sym (some_same h))
  tail_back EntryKind.mp (a ∷ b ∷ c ∷ d ∷ texts) s f t h = absurd (cc h)
  tail_back EntryKind.tree texts s f t h = absurd (cc h)
  tail_back EntryKind.shard texts s f t h = absurd (cc h)

  subtree_back :
      (k : EntryKind) (p h : Str) (rest : List Json) (e : Entry)
      → is_subtree_kind k ≡ true
      → subtree_from_payload str_other int_other k (text p ∷ text h ∷ rest) ≡ ok e
      → (e.kind ≡ k) × (serialize e ≡ line (kind_text k) p h none)
  unfolding subtree_from_payload subtree_line
  subtree_back k p h rest e s y =
      let same : subtree_line k p h ≡ e = checked-same (subtree_line k p h) e y in
      (
        ap (λ z. z.kind) (sym same),
        ap serialize (sym same) ∙ serialize-at (subtree_line k p h) true s,
      )

  leaf_back :
      (k : EntryKind) (p h : Str) (size mtime : ℕ) (texts : List Str) (e : Entry)
      → is_subtree_kind k ≡ false
      → entry_from_leaf_payload str_other int_other k
          (text p ∷ text h ∷ number (pos size) ∷ number (pos mtime) ∷ map text texts)
        ≡ ok e
      → serialize e ≡ line (kind_text k) p h (some (size, mtime, texts))
  unfolding entry_from_leaf_payload
  leaf_back k p h size mtime texts e s y =
      go (parse_tail str_other int_other k (map text texts)) refl y
    where
      spelled : Option Str → Option Str → Option Str → Entry
      spelled source_uri footer source_etag = record {
        path = p;
        kind = k;
        hash = h;
        size = size;
        mtime_ns = mtime;
        source_uri = source_uri;
        footer = footer;
        source_etag = source_etag;
      }

      go :
          (o : Option (Option Str × Option Str × Option Str))
          → parse_tail str_other int_other k (map text texts) ≡ o
          → elim o [
            | none ↦ raise (value_error "unsupported shape")
            | some (source_uri, footer, source_etag) ↦
                checked (spelled source_uri footer source_etag)
          ]
            ≡ ok e
          → serialize e ≡ line (kind_text k) p h (some (size, mtime, texts))
      go none q z = absurd (cc z)
      go (some (a, f, t)) q z =
          ap serialize (sym (checked-same (spelled a f t) e z))
          ∙ serialize-at (spelled a f t) false s
          ∙ ap
              (λ l.
                text (kind_text k) ∷ text p ∷ text h ∷ number (pos size) ∷ number (pos mtime) ∷ l)
              (tail_back k texts a f t q)

  leaf_short :
      (k : EntryKind) (p h : Str) (e : Entry)
      → entry_from_leaf_payload str_other int_other k (text p ∷ text h ∷ []) ≡ ok e
      → ⊥
  unfolding entry_from_leaf_payload
  leaf_short k p h e y = cc y

  -- If a line of texts and natural numbers, with more than the kind, the path and the hash only if it
  -- is a leaf's, is parsed to an entry, then that line is what the entry is written as: no other
  -- line of this form is parsed to the same entry.
  pub serialize-parse :
      (kind path hash : Str) (fields : Option (ℕ × ℕ × List Str)) (e : Entry)
      → parse str_other int_other (line kind path hash fields) ≡ ok e
      → (is_subtree_kind e.kind ≡ true → fields ≡ none)
      → serialize e ≡ line kind path hash fields
  serialize-parse kind path hash none e y short = elim (Option-cases (kind_of kind)) [
    | inl q ↦ absurd (cc (sym (parse-unknown kind _ q) ∙ y))
    | inr (k, q) ↦
        let name : kind ≡ kind_text k = kind_of-found kind k q in
        let y' = ap (λ n. parse str_other int_other (line n path hash none)) (sym name) ∙ y in
        elim (Bool-cases (is_subtree_kind k)) [
          | inl s ↦
              (subtree_back k path hash [] e s
                (sym (parse-kind str_other int_other k true _ s) ∙ y')).1
              ∙ ap (λ n. line n path hash none) (sym name)
          | inr s ↦
              absurd
                (leaf_short k path hash e (sym (parse-kind str_other int_other k false _ s) ∙ y'))
        ]
  ]
  serialize-parse kind path hash (some (size, mtime, texts)) e y short =
      elim (Option-cases (kind_of kind)) [
        | inl q ↦ absurd (cc (sym (parse-unknown kind _ q) ∙ y))
        | inr (k, q) ↦
            let name : kind ≡ kind_text k = kind_of-found kind k q in
            let y' =
              ap (λ n. parse str_other int_other (line n path hash (some (size, mtime, texts))))
                (sym name)
              ∙ y in
            elim (Bool-cases (is_subtree_kind k)) [
              | inl s ↦
                  let (at, _) =
                    subtree_back k path hash _ e s
                      (sym (parse-kind str_other int_other k true _ s) ∙ y') in
                  absurd (cc (short (ap is_subtree_kind at ∙ s)))
              | inr s ↦
                  leaf_back k path hash size mtime texts e s
                    (sym (parse-kind str_other int_other k false _ s) ∙ y')
                  ∙ ap (λ n. line n path hash (some (size, mtime, texts))) (sym name)
            ]
      ]
