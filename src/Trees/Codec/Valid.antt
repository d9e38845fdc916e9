-- ===== src/Trees/Codec/Valid.antt =====
-- What an entry that `Entry.parse` of core/entry_codec.py returns looks like, and that its line is the
-- one that was parsed.
use reflake.Prelude.{
  Str, ℕ, ◌≤◌, List, [], ◌∷◌, In, any, length, Option, none, some, Bool, true, false, not, ◌&&◌,
  ◌||◌, ◌==◌, ==_iff, contains-In, ◌≡◌, ◌≢◌, refl, sym, ap, ◌∙◌, ◌⊎◌, inl, inr, lit, Bool-cases,
  split_slash, list_eq, nat_eq, arith, contains, starts_with, ends_with, has_infix,
}
use reflake.Domain.{ok}
use reflake.Pruning.{ℤ}
use reflake.Trees.Entry.{Entry, EntryKind, is_subtree_kind}
use reflake.Trees.Codec.{
  is_hex_digit, is_hex_digest, is_entry_path, is_truthy, is_given, is_blank, is_leaf_shape,
  is_footer, is_shape, is_entry, Json, parse,
}
use reflake.Trees.Codec.Round.{and_split, shape-leaf, parse-is_entry}

-- 64 digits and letters from `a` to `f`.
abbrev pub IsDigest : Str → Type 0
IsDigest s = (length s ≡ 64) × ((c : ℕ) → In c s → ((48 ≤ c) × (c ≤ 57)) ⊎ ((97 ≤ c) × (c ≤ 102)))

-- Not empty, without a backslash, and no part between slashes is empty, `.` or `..`.
abbrev pub IsPath : Str → Type 0
IsPath s =
    (s ≢ [])
    × (In 92 s → ⊥)
    × ((part : Str) → In part (split_slash s) → (part ≢ []) × (part ≢ lit ".") × (part ≢ lit ".."))

-- None or the empty text.
abbrev pub IsFalsy : Option Str → Type 0
IsFalsy o = (o ≡ none) ⊎ (o ≡ some [])

-- The optional fields that the kinds have.
abbrev pub IsShaped : EntryKind → Entry → Type 0
IsShaped EntryKind.blob e = (e.source_uri ≡ none) × (e.footer ≡ none) × (e.source_etag ≡ none)
IsShaped EntryKind.bp e =
    (e.source_uri ≡ none) × (e.source_etag ≡ none) × ((f : Str) × (e.footer ≡ some f) × IsDigest f)
IsShaped EntryKind.meta e = ((s : Str) × (e.source_uri ≡ some s) × (s ≢ [])) × (e.footer ≡ none)
IsShaped EntryKind.mp e =
    ((s : Str) × (e.source_uri ≡ some s) × (s ≢ []))
    × ((f : Str) × (e.footer ≡ some f) × IsDigest f)
IsShaped _ e =
    (e.size ≡ 0)
    × (e.mtime_ns ≡ 0)
    × IsFalsy e.source_uri
    × IsFalsy e.footer
    × IsFalsy e.source_etag

abbrev pub IsValid : Entry → Type 0
IsValid e = IsPath e.path × IsDigest e.hash × IsShaped e.kind e

any-In :
    {A : Type 0} (p : A → Bool) (xs : List A) (x : A) → any p xs ≡ false → In x xs → p x ≡ false
any-In p [] x h m = absurd m
any-In p (y ∷ xs) x h (inl e) = ap p e ∙ ground arith
any-In p (y ∷ xs) x h (inr m) = any-In p xs x (ground arith) m

digit_range : (c : ℕ) → is_hex_digit c ≡ true → ((48 ≤ c) × (c ≤ 57)) ⊎ ((97 ≤ c) × (c ≤ 102))
unfolding is_hex_digit
digit_range c h = ground arith

not-false : (b : Bool) → not b ≡ true → b ≡ false
not-false b h = ground arith

not-true : (b : Bool) → not b ≡ false → b ≡ true
not-true b h = ground arith

is_hex_digest-IsDigest : (s : Str) → is_hex_digest s ≡ true → IsDigest s
unfolding is_hex_digest
is_hex_digest-IsDigest s h =
    let (n, d) = and_split (length s == 64) _ h in
    (
      (==_iff (length s) 64).0 n,
      λ c m.
          digit_range c
            (not-true (is_hex_digit c) (any-In (λ c. not (is_hex_digit c)) s c (not-false _ d) m)),
    )

three_false : (a b c : Bool) → (a || b || c) ≡ false → (a ≡ false) × (b ≡ false) × (c ≡ false)
three_false a b c h = ground arith

part_names :
    (part : Str)
    → (part == [] || part == lit "." || part == lit "..") ≡ false
    → (part ≢ []) × (part ≢ lit ".") × (part ≢ lit "..")
part_names part h =
    let (h0, h1, h2) = three_false (part == []) (part == lit ".") (part == lit "..") h in
    (
      (λ e. cc ((==_iff part []).1 e, h0)),
      (λ e. cc ((==_iff part (lit ".")).1 e, h1)),
      (λ e. cc ((==_iff part (lit "..")).1 e, h2)),
    )

-- The tests of a path one by one.
path_tests :
    (nothing starts ends backslash double odd : Bool)
    → (not (nothing || starts || ends) && not (backslash || double) && not odd) ≡ true
    → (nothing ≡ false) × (backslash ≡ false) × (odd ≡ false)
path_tests nothing starts ends backslash double odd h = ground arith

is_entry_path-IsPath : (s : Str) → is_entry_path s ≡ true → IsPath s
unfolding is_entry_path
is_entry_path-IsPath s h =
    let odd : Bool =
      any (λ part. part == [] || part == lit "." || part == lit "..") (split_slash s) in
    let (h0, h1, h2) =
      path_tests (s == []) (starts_with s (lit "/")) (ends_with s (lit "/")) (contains s 92)
        (has_infix (lit "//") s) odd h in
    (
      (λ e. cc ((==_iff s []).1 e, h0)),
      (λ m. cc ((contains-In s 92).1 m, h1)),
      (λ part m. part_names part (
          any-In (λ part. part == [] || part == lit "." || part == lit "..") (split_slash s) part h2
            m)),
    )

truthy_some : (o : Option Str) → is_truthy o ≡ true → (s : Str) × (o ≡ some s) × (s ≢ [])
truthy_some none h = absurd (cc h)
truthy_some (some []) h = absurd (cc h)
truthy_some (some (c ∷ s)) h = (c ∷ s, refl, λ e. cc e)

given-none : (o : Option Str) → not (is_given o) ≡ true → o ≡ none
given-none none h = refl
given-none (some s) h = absurd (cc h)

falsy : (o : Option Str) → not (is_truthy o) ≡ true → IsFalsy o
falsy none h = inl refl
falsy (some []) h = inr refl
falsy (some (c ∷ s)) h = absurd (cc h)

footer-IsDigest :
    (o : Option Str)
    → is_truthy o ≡ true
    → is_footer o ≡ true
    → (f : Str) × (o ≡ some f) × IsDigest f
unfolding is_footer
footer-IsDigest none h k = absurd (cc h)
footer-IsDigest (some s) h k = (s, refl, is_hex_digest-IsDigest s k)

leaf_tests :
    (leaf footer source : Bool)
    → ((leaf && footer) && source) ≡ true
    → (leaf ≡ true) × (footer ≡ true)
leaf_tests leaf footer source h = ground arith

and3 : (a b c : Bool) → (a && b && c) ≡ true → (a ≡ true) × (b ≡ true) × (c ≡ true)
and3 a b c h = ground arith

and5 :
    (a b c d e : Bool)
    → (a && b && c && d && e) ≡ true
    → (a ≡ true) × (b ≡ true) × (c ≡ true) × (d ≡ true) × (e ≡ true)
and5 a b c d e h = ground arith

leaf-IsShaped :
    (k : EntryKind) (e : Entry)
    → is_leaf_shape k e.source_uri e.footer e.source_etag ≡ true
    → is_footer e.footer ≡ true
    → IsShaped k e
unfolding is_leaf_shape
leaf-IsShaped EntryKind.blob e h f =
    let (a, b, c) =
      and3 (not (is_given e.source_uri)) (not (is_given e.source_etag)) (not (is_given e.footer))
        h in
    (given-none e.source_uri a, given-none e.footer c, given-none e.source_etag b)
leaf-IsShaped EntryKind.bp e h f =
    let (a, b, c) =
      and3 (not (is_given e.source_uri)) (not (is_given e.source_etag)) (is_truthy e.footer) h in
    (given-none e.source_uri a, given-none e.source_etag b, footer-IsDigest e.footer c f)
leaf-IsShaped EntryKind.meta e h f =
    let (a, b, c) =
      and3 (is_truthy e.source_uri) (not (is_blank e.source_etag)) (not (is_given e.footer)) h in
    (truthy_some e.source_uri a, given-none e.footer c)
leaf-IsShaped EntryKind.mp e h f =
    let (a, b, c) =
      and3 (is_truthy e.source_uri) (not (is_blank e.source_etag)) (is_truthy e.footer) h in
    (truthy_some e.source_uri a, footer-IsDigest e.footer c f)
leaf-IsShaped EntryKind.tree e h f = absurd (cc h)
leaf-IsShaped EntryKind.shard e h f = absurd (cc h)

-- What a subtree does not carry.
abbrev IsBare : Entry → Type 0
IsBare e =
    (e.size ≡ 0)
    × (e.mtime_ns ≡ 0)
    × IsFalsy e.source_uri
    × IsFalsy e.footer
    × IsFalsy e.source_etag

subtree-IsBare : (e : Entry) → is_subtree_kind e.kind ≡ true → is_shape e ≡ true → IsBare e
unfolding is_shape
subtree-IsBare e s h =
    let bare : (e.size == 0
          && e.mtime_ns == 0
          && not (is_truthy e.source_uri)
          && not (is_truthy e.footer)
          && not (is_truthy e.source_etag))
        ≡ true =
      sym (rw (s, is_shape) refl) ∙ h in
    let (a, b, c, d, f) =
      and5 (e.size == 0) (e.mtime_ns == 0) (not (is_truthy e.source_uri)) (not (is_truthy e.footer))
        (not (is_truthy e.source_etag)) bare in
    (
      (==_iff e.size 0).0 a,
      (==_iff e.mtime_ns 0).0 b,
      falsy e.source_uri c,
      falsy e.footer d,
      falsy e.source_etag f,
    )

bare-IsShaped : (k : EntryKind) (e : Entry) → is_subtree_kind k ≡ true → IsBare e → IsShaped k e
bare-IsShaped EntryKind.tree e s h = h
bare-IsShaped EntryKind.shard e s h = h
bare-IsShaped EntryKind.blob e s h = absurd (cc s)
bare-IsShaped EntryKind.meta e s h = absurd (cc s)
bare-IsShaped EntryKind.bp e s h = absurd (cc s)
bare-IsShaped EntryKind.mp e s h = absurd (cc s)

is_shape-IsShaped : (e : Entry) → is_shape e ≡ true → IsShaped e.kind e
is_shape-IsShaped e h = elim (Bool-cases (is_subtree_kind e.kind)) [
  | inl s ↦ bare-IsShaped e.kind e s (subtree-IsBare e s h)
  | inr s ↦
      let (leaf, footer) =
        leaf_tests (is_leaf_shape e.kind e.source_uri e.footer e.source_etag) (is_footer e.footer)
          (not (is_blank e.source_uri)) (sym (shape-leaf e s) ∙ h) in
      leaf-IsShaped e.kind e leaf footer
]

is_entry-IsValid : (e : Entry) → is_entry e ≡ true → IsValid e
unfolding is_entry
is_entry-IsValid e h =
    let (names, shape) = and_split (is_entry_path e.path && is_hex_digest e.hash) (is_shape e) h in
    let (path, digest) = and_split (is_entry_path e.path) (is_hex_digest e.hash) names in
    (
      is_entry_path-IsPath e.path path,
      is_hex_digest-IsDigest e.hash digest,
      is_shape-IsShaped e shape,
    )

-- Whatever `str` and `int` make of the values that are no texts and no integers, every entry that a
-- payload is parsed to has a path of parts that are not empty, `.` or `..`, without a backslash; a
-- hash of 64 lowercase hexadecimal digits; and the optional fields of its kind: a blob none, a
-- pointer a source, a Parquet file a footer that is such a hash, and a subtree neither these nor a
-- size nor a time.
pub parse-IsValid :
    (str_other : Json → Str) (int_other : Json → Option ℤ) (payload : List Json) (e : Entry)
    → parse str_other int_other payload ≡ ok e
    → IsValid e
parse-IsValid str_other int_other payload e y =
    is_entry-IsValid e (parse-is_entry str_other int_other payload e y)
