-- ===== src/Trees/Codec/Round.antt =====
-- Only entries that pass the checks are parsed, and the line of an entry is parsed to it.
use reflake.Prelude.{
  Str, List, [], ◌∷◌, Option, none, some, Bool, true, false, not, ◌&&◌, ◌≡◌, refl, sym, ap, subst,
  ◌∙◌, Bool-cases, inl, inr, list_eq, nat_eq, arith,
}
use reflake.Domain.{ok, raise, raise_if, value_error, ◌>>=◌, ◌>>◌}
use reflake.Pruning.{ℤ, pos}
use reflake.Trees.Entry.{Entry, EntryKind, is_subtree_kind, kind_text, kind_of, kind_of-kind_text}
use reflake.Trees.Node.{subtree_line}
use reflake.Trees.Walker.Round.{bind-ok}
use reflake.Trees.Codec.{
  Json, text, number, is_entry_path, is_hex_digest, is_leaf_shape, is_footer, is_blank, is_shape,
  is_entry, checked, leaf_tail, encode_leaf, serialize, str_of, magnitude, int_of, parse_tail,
  entry_from_leaf_payload, subtree_from_payload, parse,
}

pub checked-ok : (e : Entry) → is_entry e ≡ true → checked e ≡ ok e
unfolding checked
checked-ok e h = rw h refl

checked-is_entry : (e e' : Entry) → checked e ≡ ok e' → is_entry e' ≡ true
unfolding checked
checked-is_entry e e' y = elim (Bool-cases (is_entry e)) [
  | inl h ↦
      let same : e ≡ e' = cc (sym (checked-ok e h) ∙ y) in subst (λ x. is_entry x ≡ true) same h
  | inr h ↦
      let refused : raise (value_error "invalid entry") ≡ ok e' =
        ap (λ b. raise_if (not b) (value_error "invalid entry") >> ok e) (sym h) ∙ y in
      absurd (cc refused)
]

-- What a line keeps of an entry: of a subtree, its kind, path and hash.
abbrev pub kept : Entry → Entry
kept e = elim (is_subtree_kind e.kind) [ true ↦ subtree_line e.kind e.path e.hash | false ↦ e ]

kept-at :
    (e : Entry) (b : Bool)
    → is_subtree_kind e.kind ≡ b
    → kept e ≡ elim b [ true ↦ subtree_line e.kind e.path e.hash | false ↦ e ]
kept-at e b s = ap (λ c. elim c [ true ↦ subtree_line e.kind e.path e.hash | false ↦ e ]) s

pub serialize-at :
    (e : Entry) (b : Bool)
    → is_subtree_kind e.kind ≡ b
    → serialize e ≡ elim b [
      | true ↦ text (kind_text e.kind) ∷ text e.path ∷ text e.hash ∷ []
      | false ↦
          text (kind_text e.kind)
          ∷ text e.path
          ∷ text e.hash
          ∷ number (pos e.size)
          ∷ number (pos e.mtime_ns)
          ∷ leaf_tail e.kind e.source_uri e.footer e.source_etag
    ]
unfolding serialize encode_leaf
serialize-at e b s =
    ap
      (λ c. elim c [
        | true ↦ text (kind_text e.kind) ∷ text e.path ∷ text e.hash ∷ []
        | false ↦
            text (kind_text e.kind)
            ∷ text e.path
            ∷ text e.hash
            ∷ number (pos e.size)
            ∷ number (pos e.mtime_ns)
            ∷ leaf_tail e.kind e.source_uri e.footer e.source_etag
      ])
      s

pub and_split : (a b : Bool) → (a && b) ≡ true → (a ≡ true) × (b ≡ true)
and_split true true h = (refl, refl)
and_split true false h = absurd (cc h)
and_split false b h = absurd (cc h)

and_join : (a b : Bool) → a ≡ true → b ≡ true → (a && b) ≡ true
and_join true true p q = refl
and_join true false p q = q
and_join false b p q = p

line-is_shape :
    (k : EntryKind) (p h : Str) → is_subtree_kind k ≡ true → is_shape (subtree_line k p h) ≡ true
unfolding is_shape subtree_line nat_eq
line-is_shape EntryKind.tree p h s = refl
line-is_shape EntryKind.shard p h s = refl
line-is_shape EntryKind.blob p h s = absurd (cc s)
line-is_shape EntryKind.meta p h s = absurd (cc s)
line-is_shape EntryKind.bp p h s = absurd (cc s)
line-is_shape EntryKind.mp p h s = absurd (cc s)

line-is_entry :
    (e : Entry)
    → is_entry e ≡ true
    → is_subtree_kind e.kind ≡ true
    → is_entry (subtree_line e.kind e.path e.hash) ≡ true
unfolding is_entry subtree_line
line-is_entry e h s =
    and_join (is_entry_path e.path && is_hex_digest e.hash) _
      (and_split (is_entry_path e.path && is_hex_digest e.hash) (is_shape e) h).0
      (line-is_shape e.kind e.path e.hash s)

pub shape-leaf :
    (e : Entry)
    → is_subtree_kind e.kind ≡ false
    → is_shape e ≡ (
        (is_leaf_shape e.kind e.source_uri e.footer e.source_etag && is_footer e.footer)
        && not (is_blank e.source_uri))
unfolding is_shape
shape-leaf e s = rw (s, is_shape) refl

leaf_shape :
    (e : Entry)
    → is_entry e ≡ true
    → is_subtree_kind e.kind ≡ false
    → is_leaf_shape e.kind e.source_uri e.footer e.source_etag ≡ true
unfolding is_entry
leaf_shape e h s =
    let shape = (and_split (is_entry_path e.path && is_hex_digest e.hash) (is_shape e) h).1 in
    let leaf = is_leaf_shape e.kind e.source_uri e.footer e.source_etag in
    let both = (and_split (leaf && is_footer e.footer) _ (sym (shape-leaf e s) ∙ shape)).0 in
    (and_split leaf (is_footer e.footer) both).0

module _ (str_other : Json → Str) (int_other : Json → Option ℤ) where
  leaf-is_entry :
      (k : EntryKind) (p : List Json) (e : Entry)
      → entry_from_leaf_payload str_other int_other k p ≡ ok e
      → is_entry e ≡ true
  unfolding entry_from_leaf_payload
  leaf-is_entry k (path ∷ hash ∷ size ∷ mtime ∷ tail) e y =
      go (parse_tail str_other int_other k tail) y
    where
      go :
          (o : Option (Option Str × Option Str × Option Str))
          → elim o [
            | none ↦ raise (value_error "unsupported shape")
            | some (source_uri, footer, source_etag) ↦
                magnitude str_other int_other (int_of str_other int_other size) >>= λ size.
                magnitude str_other int_other (int_of str_other int_other mtime) >>= λ mtime.
                checked (record {
                  path = str_of str_other int_other path;
                  kind = k;
                  hash = str_of str_other int_other hash;
                  size = size;
                  mtime_ns = mtime;
                  source_uri = source_uri;
                  footer = footer;
                  source_etag = source_etag;
                })
          ]
            ≡ ok e
          → is_entry e ≡ true
      go none y = absurd (cc y)
      go (some (s, f, t)) y =
          let (n, _, y1) =
            bind-ok (magnitude str_other int_other (int_of str_other int_other size)) _ e y in
          let (m, _, y2) =
            bind-ok (magnitude str_other int_other (int_of str_other int_other mtime)) _ e y1 in
          checked-is_entry _ e y2
  leaf-is_entry k [] e y = absurd (cc y)
  leaf-is_entry k (a ∷ []) e y = absurd (cc y)
  leaf-is_entry k (a ∷ b ∷ []) e y = absurd (cc y)
  leaf-is_entry k (a ∷ b ∷ c ∷ []) e y = absurd (cc y)

  subtree-is_entry :
      (k : EntryKind) (p : List Json) (e : Entry)
      → subtree_from_payload str_other int_other k p ≡ ok e
      → is_entry e ≡ true
  unfolding subtree_from_payload
  subtree-is_entry k (name ∷ hash ∷ more) e y = checked-is_entry _ e y
  subtree-is_entry k [] e y = absurd (cc y)
  subtree-is_entry k (a ∷ []) e y = absurd (cc y)

  -- Whatever `str` and `int` make of the values that are no texts and no integers, every entry that a payload is
  -- parsed to passes the checks of a construction.
  pub parse-is_entry :
      (payload : List Json) (e : Entry)
      → parse str_other int_other payload ≡ ok e
      → is_entry e ≡ true
  unfolding parse
  parse-is_entry [] e y = absurd (cc y)
  parse-is_entry (kind ∷ payload) e y = go (kind_of (str_of str_other int_other kind)) y
    where
      by_kind :
          (k : EntryKind) (b : Bool)
          → elim b [
            | true ↦ subtree_from_payload str_other int_other k payload
            | false ↦ entry_from_leaf_payload str_other int_other k payload
          ]
            ≡ ok e
          → is_entry e ≡ true
      by_kind k true y = subtree-is_entry k payload e y
      by_kind k false y = leaf-is_entry k payload e y

      go :
          (o : Option EntryKind)
          → elim o [
            | none ↦ raise (value_error "unsupported kind")
            | some k ↦ elim (is_subtree_kind k) [
              | true ↦ subtree_from_payload str_other int_other k payload
              | false ↦ entry_from_leaf_payload str_other int_other k payload
            ]
          ]
            ≡ ok e
          → is_entry e ≡ true
      go none y = absurd (cc y)
      go (some k) y = by_kind k (is_subtree_kind k) y

  -- The optional fields of a leaf come back.
  tail_round :
      (k : EntryKind) (s f t : Option Str)
      → is_leaf_shape k s f t ≡ true
      → parse_tail str_other int_other k (leaf_tail k s f t) ≡ some (s, f, t)
  unfolding is_leaf_shape parse_tail leaf_tail
  tail_round EntryKind.blob none none none h = refl
  tail_round EntryKind.blob none none (some t) h = absurd (ground arith)
  tail_round EntryKind.blob none (some f) t h = absurd (ground arith)
  tail_round EntryKind.blob (some s) f t h = absurd (ground arith)
  tail_round EntryKind.bp none none t h = absurd (ground arith)
  tail_round EntryKind.bp none (some f) none h = refl
  tail_round EntryKind.bp none (some f) (some t) h = absurd (ground arith)
  tail_round EntryKind.bp (some s) f t h = absurd (ground arith)
  tail_round EntryKind.meta none f t h = absurd (ground arith)
  tail_round EntryKind.meta (some s) none none h = refl
  tail_round EntryKind.meta (some s) none (some t) h = refl
  tail_round EntryKind.meta (some s) (some f) t h = absurd (ground arith)
  tail_round EntryKind.mp none f t h = absurd (ground arith)
  tail_round EntryKind.mp (some s) none t h = absurd (ground arith)
  tail_round EntryKind.mp (some s) (some f) none h = refl
  tail_round EntryKind.mp (some s) (some f) (some t) h = refl
  tail_round EntryKind.tree s f t h = absurd (cc h)
  tail_round EntryKind.shard s f t h = absurd (cc h)

  pub parse-kind :
      (k : EntryKind) (b : Bool) (p : List Json)
      → is_subtree_kind k ≡ b
      → parse str_other int_other (text (kind_text k) ∷ p) ≡ elim b [
        | true ↦ subtree_from_payload str_other int_other k p
        | false ↦ entry_from_leaf_payload str_other int_other k p
      ]
  unfolding parse
  parse-kind k b p h =
      ap
        (λ o. elim o [
          | none ↦ raise (value_error "unsupported kind")
          | some k ↦ elim (is_subtree_kind k) [
            | true ↦ subtree_from_payload str_other int_other k p
            | false ↦ entry_from_leaf_payload str_other int_other k p
          ]
        ])
        (kind_of-kind_text k)
      ∙ ap
          (λ b. elim b [
            | true ↦ subtree_from_payload str_other int_other k p
            | false ↦ entry_from_leaf_payload str_other int_other k p
          ])
          h

  subtree-round :
      (e : Entry)
      → is_entry e ≡ true
      → is_subtree_kind e.kind ≡ true
      → subtree_from_payload str_other int_other e.kind (text e.path ∷ text e.hash ∷ [])
        ≡ ok (subtree_line e.kind e.path e.hash)
  unfolding subtree_from_payload subtree_line
  subtree-round e h s = checked-ok (subtree_line e.kind e.path e.hash) (line-is_entry e h s)

  leaf-round :
      (e : Entry)
      → is_entry e ≡ true
      → is_subtree_kind e.kind ≡ false
      → entry_from_leaf_payload str_other int_other e.kind (
          text e.path
          ∷ text e.hash
          ∷ number (pos e.size)
          ∷ number (pos e.mtime_ns)
          ∷ leaf_tail e.kind e.source_uri e.footer e.source_etag)
        ≡ ok e
  unfolding entry_from_leaf_payload
  leaf-round e h s =
      ap
        (λ o. elim o [
          | none ↦ raise (value_error "unsupported shape")
          | some (source_uri, footer, source_etag) ↦
              checked
                (record e { source_uri = source_uri; footer = footer; source_etag = source_etag })
        ])
        (tail_round e.kind e.source_uri e.footer e.source_etag (leaf_shape e h s))
      ∙ checked-ok e h

  -- Whatever `str` and `int` make of other values, the payload of an entry that passes the checks of a construction
  -- is parsed to the entry; of a subtree, to its kind, path and hash.
  pub parse-serialize :
      (e : Entry) → is_entry e ≡ true → parse str_other int_other (serialize e) ≡ ok (kept e)
  parse-serialize e h = elim (Bool-cases (is_subtree_kind e.kind)) [
    | inl s ↦
        ap (parse str_other int_other) (serialize-at e true s)
        ∙ (parse-kind e.kind true (text e.path ∷ text e.hash ∷ []) s
            ∙ (subtree-round e h s ∙ ap ok (sym (kept-at e true s))))
    | inr s ↦
        ap (parse str_other int_other) (serialize-at e false s)
        ∙ (parse-kind e.kind false _ s ∙ (leaf-round e h s ∙ ap ok (sym (kept-at e false s))))
  ]
